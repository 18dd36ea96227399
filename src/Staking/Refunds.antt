-- ===== src/Staking/Refunds.antt =====
-- What users get back of their storage deposits: sputnik-staking/src/storage_impl.rs.
use sputnik_dao_contract.Base.{
  ℕ, ◌≤◌, ◌≡◌, ◌∙◌, ap, String, Bool, true, Option, some, [], ◌∷◌, ◌++◌, string_key, arith, sym,
  leb→le, nat_beq, if◌then◌else◌,
}
use sputnik_dao_contract.Map
use sputnik_dao_contract.Result.{ok, err, err_storage_unregister_not_empty}
use sputnik_dao_contract.Host.{Env, Host, Promise, schedule, transfer_to, ◌>>=◌}
use sputnik_dao_contract.Host.Reads.{chain_ok, require_then, lift_then, gets_ok, expect_ok}
use sputnik_dao_contract.Staking.User.{User, storage_available}
use sputnik_dao_contract.Staking.Methods.{Contract, internal_get_user}
use sputnik_dao_contract.Staking.Storage.{
  StorageBalance, storage_balance_of, storage_withdraw, unregister, storage_unregister,
  or_available,
}

-- Where one yocto is attached, a registered account with no stake cannot unregister, and one with a
-- stake is removed with its storage deposit sent back, while the total of stakes stays as it is.
pub storage_unregister_lem :
    (env : Env) (force : Option Bool) (user : User) (h : Host Contract)
    → Map.get h.state.users env.predecessor_account_id ≡ some user
    → env.attached_deposit ≡ 1
    → storage_unregister env force h ≡ (
        if nat_beq user.vote_amount 0
        then err err_storage_unregister_not_empty
        else ok (
          true,
          record h {
            state = record h.state { users = Map.remove env.predecessor_account_id h.state.users };
            promises = h.promises ++ transfer_to env.predecessor_account_id user.near_amount ∷ [];
          },
        ))
unfolding storage_unregister unregister ◌>>=◌
storage_unregister_lem env force user h found deposit = ground arith

pub balance_of_reads :
    (env : Env) (account : String) (h : Host Contract) {out : StorageBalance × Host Contract}
    → storage_balance_of env account h ≡ ok out
    → out.1 ≡ h
unfolding storage_balance_of ◌>>=◌
balance_of_reads env account h e = ground arith

abbrev sent : Promise → Host Contract → Host Contract
sent p k = record k { promises = k.promises ++ p ∷ [] }

schedule_sent :
    (p : Promise) (k : Host Contract) {k' : Host Contract}
    → schedule p k ≡ ok (tt, k')
    → k' ≡ record k { promises = k.promises ++ p ∷ [] }
unfolding ◌>>=◌
schedule_sent p k e = cc

-- A withdrawal of storage deposit that returns sends out an amount of what is available to the
-- account and leaves the staking contract as it was.
pub storage_withdraw_lem :
    (env : Env) (requested : Option ℕ) (h h' : Host Contract) (balance : StorageBalance)
    → storage_withdraw env requested h ≡ ok (balance, h')
    → (user : User) × (available : ℕ) × (Map.get h.state.users env.predecessor_account_id
        ≡ some user)
      × (storage_available env user ≡ ok available)
      × (or_available requested available ≤ available)
      × (h' ≡ record h {
        promises =
            h.promises
            ++ transfer_to env.predecessor_account_id (or_available requested available) ∷ [];
      })
unfolding storage_withdraw internal_get_user
storage_withdraw_lem env requested h h' balance e =
    let (one, e1) = require_then _ _ _ h e in
    let (user, h1, e2, r2) = chain_ok _ _ h e1 in
    let (stored, h0, e20, e21) = chain_ok _ _ h e2 in
    let (same_stored, old0) = gets_ok _ h e20 in
    let (same_user, old1) = expect_ok _ _ h0 e21 in
    let (available, found, e3) = lift_then _ _ h1 r2 in
    let (enough, e4) = require_then _ _ _ h1 e3 in
    let (_, h2, e5, e6) = chain_ok _ _ h1 e4 in
    let same : h1 ≡ h = old1 ∙ old0 in
    (
      user,
      available,
      sym same_stored ∙ same_user,
      found,
      leb→le _ _ enough,
      balance_of_reads env env.predecessor_account_id h2 e6
          ∙ schedule_sent _ h1 e5
          ∙ ap (sent (transfer_to env.predecessor_account_id (or_available requested available)))
              same,
    )
