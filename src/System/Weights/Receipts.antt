-- ===== src/System/Weights/Receipts.antt =====
-- Every receipt of the staking contract changes the users as its messages to the owner tell it.
use sputnik_dao_contract.Base.{
  ℕ, ◌*◌, ◌≡◌, refl, sym, ◌∙◌, ap, subst, String, Bool, Option, string_key, if◌then◌else◌, beq_refl,
  arith, Option-cases, Bool-cases, inl, inr,
}
use sputnik_dao_contract.Map
use sputnik_dao_contract.Map.{Map, get-insert}
use sputnik_dao_contract.Result.{ok, Result-cases}
use sputnik_dao_contract.Host.{Env, Host, ◌>>=◌}
use sputnik_dao_contract.Staking.User.{new_user, min_storage, storage_cost}
use sputnik_dao_contract.Staking.Methods
use sputnik_dao_contract.Staking.Methods.{
  Contract, internal_delegate, internal_undelegate, internal_deposit, internal_withdraw,
  internal_get_user, save_user, internal_register_user, after_transfer,
}
use sputnik_dao_contract.Staking.Calls.{Method, dispatch, assert_no_deposit}
use sputnik_dao_contract.System.Weights.{AllCovered, same, joins}
use sputnik_dao_contract.Staking.Methods.{has_user}
use sputnik_dao_contract.Staking.Storage.{
  StorageBalance, storage_deposit, storage_withdraw, storage_balance_of, refund, or_false,
  or_predecessor,
}
use sputnik_dao_contract.Staking.Storage
use sputnik_dao_contract.Staking.Refunds.{balance_of_reads, storage_withdraw_lem}
use sputnik_dao_contract.Host.Reads.{chain_ok, require_then, pure_ok, gets_then}
use sputnik_dao_contract.Staking.Totals.{StaysRegistered}
use sputnik_dao_contract.System.Weights.Sending.{
  actions_messages, messages_to, start, Sends, delegate-Sends, undelegate-Sends, withdraw-Sends,
  deposit-Sends, after_transfer-Sends,
}

callback-Sends :
    (env : Env) (c : Contract) (all : AllCovered c.users) (account : String) (n : ℕ)
    {h : Host Contract}
    → dispatch env (Method.exchange_callback_post_withdraw account n) (start c) ≡ ok (tt, h)
    → Sends env.storage_byte_cost c h
unfolding dispatch assert_no_deposit Methods.exchange_callback_post_withdraw
callback-Sends env c all account n e =
    let (none_attached, e1) = require_then _ _ _ (start c) e in
    let (own, e2) = require_then _ _ _ (start c) e1 in
    after_transfer-Sends env c all env.promise_results account n e2

ft_on_transfer-Sends :
    (env : Env) (c : Contract) (all : AllCovered c.users) (account msg : String) (n : ℕ)
    {h : Host Contract}
    → dispatch env (Method.ft_on_transfer account n msg) (start c) ≡ ok (tt, h)
    → Sends env.storage_byte_cost c h
unfolding dispatch assert_no_deposit Methods.ft_on_transfer ◌>>=◌
ft_on_transfer-Sends env c all account msg n e =
    elim (Result-cases (internal_deposit account n (start c))) [
      | inr (code, failure) ↦ ground arith
      | inl ((_, h1), paid) ↦
          subst (Sends env.storage_byte_cost c) (ground arith)
            (deposit-Sends env c all account n paid)
    ]

withdraw_storage-Sends :
    (env : Env) (c : Contract) (requested : Option ℕ) {h : Host Contract}
    → dispatch env (Method.storage_withdraw requested) (start c) ≡ ok (tt, h)
    → Sends env.storage_byte_cost c h
unfolding dispatch messages_to actions_messages
withdraw_storage-Sends env c requested {h = h} e =
    let (balance, h1, e1, r1) = chain_ok _ _ (start c) e in
    let (user, available, found, left, enough, same_but) =
      storage_withdraw_lem env requested (start c) h1 balance e1 in
    let last : h ≡ h1 = ap (λ p. p.1) (pure_ok _ h1 r1) in
    record { change = same (ground arith) (ground arith); owner = ground arith }

-- What a storage deposit does before it reads the balance.
paid_or_registered :
    (env : Env) (c : Contract) (account : String) (only : Bool) {h : Host Contract}
    → (if has_user (Map.get c.users account)
          then refund env env.attached_deposit
          else Storage.register env account only)
        (start c)
      ≡ ok (tt, h)
    → Sends env.storage_byte_cost c h
unfolding refund Storage.register internal_register_user save_user storage_cost ◌>>=◌ messages_to
    actions_messages new_user
paid_or_registered env c account only {h = h} e = elim (Option-cases (Map.get c.users account)) [
  | inr (u, found) ↦ record { change = same (ground arith) (ground arith); owner = ground arith }
  | inl missing ↦ elim (Bool-cases only) [
    | inl yes_only ↦ record {
      change =
          joins account (new_user (min_storage * env.storage_byte_cost)) missing refl (ground arith)
            (ground (arith, beq_refl c.owner_id));
      owner = ground arith;
    }
    | inr all_of_it ↦ record {
      change =
          joins account (new_user env.attached_deposit) missing refl (ground arith)
            (ground (arith, beq_refl c.owner_id));
      owner = ground arith;
    }
  ]
]

deposit_storage-Sends :
    (env : Env) (c : Contract) (account : Option String) (only : Option Bool) {h : Host Contract}
    → dispatch env (Method.storage_deposit account only) (start c) ≡ ok (tt, h)
    → Sends env.storage_byte_cost c h
unfolding dispatch storage_deposit
deposit_storage-Sends env c account only {h = h} e =
    let (balance, h1, e1, r1) = chain_ok _ _ (start c) e in
    let rest = gets_then _ _ (start c) e1 in
    let (_, h2, e2, r2) = chain_ok _ _ (start c) rest in
    let last : h ≡ h1 = ap (λ p. p.1) (pure_ok _ h1 r1) in
    let read : h1 ≡ h2 = balance_of_reads env (or_predecessor env account) h2 r2 in
    subst (Sends env.storage_byte_cost c) (sym (last ∙ read))
      (paid_or_registered env c (or_predecessor env account) (or_false only) e2)

-- A receipt of a method that leaves everybody registered changes the users in one of the ways of
-- `Change`, with the messages that this way has, and keeps the owner.
pub dispatch-Sends :
    (env : Env) (c : Contract) (method : Method) {h : Host Contract}
    → StaysRegistered method
    → AllCovered c.users
    → dispatch env method (start c) ≡ ok (tt, h)
    → Sends env.storage_byte_cost c h
dispatch-Sends env c (Method.delegate account n) stays all e = delegate-Sends env c all account n e
dispatch-Sends env c (Method.undelegate account n) stays all e =
    undelegate-Sends env c all account n e
dispatch-Sends env c (Method.exchange_callback_post_withdraw account n) stays all e =
    callback-Sends env c all account n e
dispatch-Sends env c (Method.withdraw n) stays all e = withdraw-Sends env c all n e
dispatch-Sends env c (Method.ft_on_transfer account n msg) stays all e =
    ft_on_transfer-Sends env c all account msg n e
dispatch-Sends env c (Method.storage_deposit account only) stays all e =
    deposit_storage-Sends env c account only e
dispatch-Sends env c (Method.storage_withdraw requested) stays all e =
    withdraw_storage-Sends env c requested e
dispatch-Sends env c (Method.storage_unregister force) stays all e = elim stays [ ]
