-- ===== src/Factory/Outcome.antt =====
-- How the creation of a DAO ends: the callback that `create` attaches, answered by `on_create`,
-- both of sputnikdao-factory2/src/lib.rs.
use sputnik_dao_contract.Base.{
  ℕ, ◌≡◌, refl, ◌∙◌, ap, String, Bool, true, false, ◌||◌, ◌&&◌, Option, none, some, List, [], ◌∷◌,
  ◌++◌, ◌==◌, string_key, nat_key, nat_beq, eq_iff, contains, if◌then◌else◌, arith,
}
use sputnik_dao_contract.Result.{ok}
use sputnik_dao_contract.Host.{
  Env, Host, Promise, PromiseAction, function_call, create_args, transfer_to, schedule, ◌>>=◌,
}
use sputnik_dao_contract.Host.Reads.{chain_ok, require_then, gets_then, expect_ok}
use sputnik_dao_contract.Factory.Data.{SputnikDaoFactory}
use sputnik_dao_contract.Factory.Manager.{create_contract, code_cost}
use sputnik_dao_contract.Factory.Methods.{get_default_code_hash, create, add_dao, on_create}
use sputnik_dao_contract.Factory.Calls.{Method, assert_private, assert_no_deposit, dispatch}
use sputnik_dao_contract.Factory.Consistency.{contains-append}
use sputnik_dao_contract.Factory.Creation.{creation, dao_account}

contains-add_dao :
    (account : String) (daos : List String) (a : String)
    → contains (add_dao account daos) a ≡ (account == a || contains daos a)
unfolding add_dao
contains-add_dao account daos a =
    ground (arith, string_key.same_iff account a, contains-append daos account a)

-- The method of the factory that a callback calls, with the account that it is called on.
abbrev pub method_in : Option (String × PromiseAction) → Option (String × Method)
method_in (some (account, function_call name (create_args dao deposit depositor) attached gas)) =
    if name == "on_create" && nat_beq attached 0
    then some (account, Method.on_create dao deposit depositor)
    else none
method_in _ = none

-- With success the DAO is listed, beside just those that were, and nothing is sent; without it the
-- deposit goes back and nothing else changes.
abbrev pub Settles :
    String → String → ℕ → Bool → Host SputnikDaoFactory → Host SputnikDaoFactory → Type 0
Settles account depositor deposit true h h' =
    (h' ≡ record h { state = record h.state { daos = h'.state.daos } })
    × ((a : String) → contains h'.state.daos a ≡ (account == a || contains h.state.daos a))
Settles account depositor deposit false h h' =
    h' ≡ record h { promises = h.promises ++ transfer_to depositor deposit ∷ [] }

cost_reads :
    (env : Env) (n : ℕ) (h : Host SputnikDaoFactory) {out : ℕ × Host SputnikDaoFactory}
    → code_cost env n h ≡ ok out
    → out.1 ≡ h
unfolding code_cost ◌>>=◌
cost_reads env n h e = ground arith

default_reads :
    (h : Host SputnikDaoFactory) {out : ℕ × Host SputnikDaoFactory}
    → get_default_code_hash h ≡ ok out
    → out.1 ≡ h
unfolding get_default_code_hash ◌>>=◌
default_reads h e = ground arith

scheduled :
    (p : Promise) (h : Host SputnikDaoFactory) {h' : Host SputnikDaoFactory}
    → schedule p h ≡ ok (tt, h')
    → h' ≡ record h { promises = h.promises ++ p ∷ [] }
unfolding ◌>>=◌
scheduled p h e = cc

-- What create scheduled where it returned.
create_ok :
    (is_account_id : String → Bool) (env : Env) (name : String) (args : List ℕ)
    (h : Host SputnikDaoFactory) {h' : Host SputnikDaoFactory}
    → create is_account_id env name args h ≡ ok (tt, h')
    → (code : List ℕ) × (h'
        ≡ record h { promises = h.promises ++ creation env (dao_account env name) code args ∷ [] })
unfolding create create_contract
create_ok v env name args h {h' = h'} e =
    let e1 = (require_then _ _ _ h e).1 in
    let (hash, h1, e2, r2) = chain_ok _ _ h e1 in
    let r3 = gets_then _ _ h1 r2 in
    let r4 = (require_then _ _ _ h1 r3).1 in
    let (code, h2, e5, r5) = chain_ok _ _ h1 r4 in
    let (cost, h3, e6, r6) = chain_ok _ _ h2 r5 in
    let r7 = (require_then _ _ _ h3 r6).1 in
    let same : h3 ≡ h = cost_reads env _ h2 e6 ∙ (expect_ok _ _ h1 e5).1 ∙ default_reads h e2 in
    (
      code,
      scheduled _ h3 r7
          ∙ ap {B = Host SputnikDaoFactory}
              (λ (k : Host SputnikDaoFactory). record k {
                promises = k.promises ++ creation env (dao_account env name) code args ∷ [];
              })
              same,
    )

on_create-Settles :
    (env : Env) (account depositor : String) (deposit : ℕ) (success : Bool)
    (h : Host SputnikDaoFactory)
    → env.promise_success ≡ some success
    → (h' : Host SputnikDaoFactory) × (on_create env account deposit depositor h ≡ ok (success, h'))
      × Settles account depositor deposit success h h'
unfolding on_create ◌>>=◌
on_create-Settles env account depositor deposit true h e = (
  record h { state = record h.state { daos = add_dao account h.state.daos } },
  ground arith,
  (refl, contains-add_dao account h.state.daos),
)
on_create-Settles env account depositor deposit false h e =
    (record h { promises = h.promises ++ transfer_to depositor deposit ∷ [] }, ground arith, refl)

-- Where create returned, it has scheduled just one promise, for the account of the new DAO, and the
-- callback of that promise is on_create of the factory itself. Whenever the factory answers that
-- callback, without a deposit and with the result of the promise, on_create returns: after a
-- success the DAO is listed beside just those that were, and nothing else changes; after a failure
-- the whole deposit of create goes back to the caller of create, and nothing else changes.
pub creation-Settles :
    (is_account_id : String → Bool) (growth : List ℕ → ℕ) (env answer_env : Env) (name : String)
    (args : List ℕ) (success : Bool) (h h' later : Host SputnikDaoFactory)
    → create is_account_id env name args h ≡ ok (tt, h')
    → answer_env.current_account_id ≡ env.current_account_id
    → answer_env.predecessor_account_id ≡ env.current_account_id
    → answer_env.attached_deposit ≡ 0
    → answer_env.promise_success ≡ some success
    → (p : Promise) × (method : Method) × (answered : Host SputnikDaoFactory) × (h'
        ≡ record h { promises = h.promises ++ p ∷ [] })
      × (p.receiver_id ≡ dao_account env name)
      × (method_in p.callback ≡ some (env.current_account_id, method))
      × (dispatch is_account_id growth answer_env method later ≡ ok (tt, answered))
      × Settles
          (dao_account env name)
          env.predecessor_account_id
          env.attached_deposit
          success
          later
          answered
unfolding dispatch assert_private assert_no_deposit ◌>>=◌
creation-Settles v growth env answer_env name args success h h' later e here own free result =
    let (code, made) = create_ok v env name args h e in
    let (answered, returns, settles) =
      on_create-Settles answer_env (dao_account env name) env.predecessor_account_id
        env.attached_deposit success later result in
    (
      creation env (dao_account env name) code args,
      Method.on_create (dao_account env name) env.attached_deposit env.predecessor_account_id,
      answered,
      made,
      refl,
      refl,
      ground (
        arith,
        returns,
        free,
        own,
        here,
        eq_iff answer_env.predecessor_account_id answer_env.current_account_id,
      ),
      settles,
    )
