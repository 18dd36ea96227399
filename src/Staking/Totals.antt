-- ===== src/Staking/Totals.antt =====
-- The total of the staking contract over all of its methods but `storage_unregister`:
-- sputnik-staking/src/lib.rs and storage_impl.rs.
use sputnik_dao_contract.Base.{
  ℕ, ◌*◌, String, Bool, Option, string_key, if◌then◌else◌, arith, Option-cases, inl, inr,
}
use sputnik_dao_contract.Map
use sputnik_dao_contract.Host.{Env, Host, Call, ◌>>=◌, ◌>>◌}
use sputnik_dao_contract.Host.Keeps.{Keeps, After, After-chain, keeps_rules, Keeps-bind}
use sputnik_dao_contract.Staking.User.{new_user, min_storage, storage_cost}
use sputnik_dao_contract.Staking.Methods.{
  Contract, has_user, internal_get_user, internal_register_user, save_user,
}
use sputnik_dao_contract.Staking.Storage.{
  storage_balance_of, storage_deposit, storage_withdraw, refund, register, or_predecessor, or_false,
}
use sputnik_dao_contract.Staking.Amounts.{HasExactTotal, sum_votes-insert, methods-IsExact}
use sputnik_dao_contract.Staking.Calls.{Method, dispatch, assert_no_deposit}

-- Every method but `storage_unregister`, which drops the user and what the user delegated.
abbrev pub StaysRegistered : Method → Type 0
StaysRegistered (Method.storage_unregister force) = ⊥
StaysRegistered _ = Unit

balance_of-IsExact :
    (env : Env) (account : String) → Keeps HasExactTotal (storage_balance_of env account)
unfolding storage_balance_of
balance_of-IsExact env account = search keeps_rules

refund-IsExact : (env : Env) (amount : ℕ) → Keeps HasExactTotal (refund env amount)
unfolding refund
refund-IsExact env amount = search keeps_rules

paid_or_registered-IsExact :
    (env : Env) (account : String) (only : Bool) (h : Host Contract)
    → HasExactTotal h.state
    → After HasExactTotal (
        (if has_user (Map.get h.state.users account)
            then refund env env.attached_deposit
            else register env account only)
          h)
unfolding refund register internal_register_user save_user storage_cost new_user ◌>>=◌
paid_or_registered-IsExact env account only h x =
    elim (Option-cases (Map.get h.state.users account)) [
      | inr (u, found) ↦ ground arith
      | inl missing ↦ ground (
        arith,
        sum_votes-insert account (new_user (min_storage * env.storage_byte_cost)) h.state.users,
        sum_votes-insert account (new_user env.attached_deposit) h.state.users,
      )
    ]

storage_deposit-IsExact :
    (env : Env) (account : Option String) (only : Option Bool)
    → Keeps HasExactTotal (storage_deposit env account only)
unfolding storage_deposit ◌>>=◌
storage_deposit-IsExact env account only = record {
  at = λ h x.
      After-chain HasExactTotal
        (if has_user (Map.get h.state.users (or_predecessor env account))
          then refund env env.attached_deposit
          else register env (or_predecessor env account) (or_false only))
        (λ paid. storage_balance_of env (or_predecessor env account)) h
        (paid_or_registered-IsExact env (or_predecessor env account) (or_false only) h x)
        (λ paid. balance_of-IsExact env (or_predecessor env account));
}

storage_withdraw-IsExact :
    (env : Env) (requested : Option ℕ) → Keeps HasExactTotal (storage_withdraw env requested)
unfolding storage_withdraw internal_get_user
storage_withdraw-IsExact env requested = search (keeps_rules, balance_of-IsExact) depth 14

guarded-IsExact :
    (env : Env) (m : Call Contract Unit)
    → Keeps HasExactTotal m
    → Keeps HasExactTotal (assert_no_deposit env >> m)
unfolding assert_no_deposit
guarded-IsExact env m keeps = Keeps-bind _ _ (search keeps_rules) (λ passed. keeps)

pub dispatch-IsExact :
    (env : Env) (method : Method)
    → StaysRegistered method
    → Keeps HasExactTotal (dispatch env method)
unfolding dispatch assert_no_deposit
dispatch-IsExact env (Method.delegate account n) stays =
    guarded-IsExact env _ (methods-IsExact env account "" n).0
dispatch-IsExact env (Method.undelegate account n) stays =
    guarded-IsExact env _ (methods-IsExact env account "" n).1
dispatch-IsExact env (Method.withdraw n) stays =
    guarded-IsExact env _ (methods-IsExact env "" "" n).2
dispatch-IsExact env (Method.exchange_callback_post_withdraw account n) stays =
    guarded-IsExact env _ (methods-IsExact env account "" n).3
dispatch-IsExact env (Method.ft_on_transfer account n msg) stays =
    guarded-IsExact env _
      (Keeps-bind _ _ (methods-IsExact env account msg n).4 (λ used. search keeps_rules))
dispatch-IsExact env (Method.storage_deposit account only) stays =
    search (keeps_rules, storage_deposit-IsExact)
dispatch-IsExact env (Method.storage_withdraw requested) stays =
    search (keeps_rules, storage_withdraw-IsExact)
dispatch-IsExact env (Method.storage_unregister force) stays = elim stays [ ]
