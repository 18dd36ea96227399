-- ===== src/Dao/Bonds/Solvency.antt =====
-- The locked amount covers the bonds that the DAO owes, over all receipts.
use sputnik_dao_contract.Base.{
  ℕ, ◌+◌, ◌≤◌, ◌≡◌, refl, ap, subst, List, ◌∷◌, ◌++◌, nat_key, string_key, arith,
}
use sputnik_dao_contract.Result.{Result, ok, err}
use sputnik_dao_contract.Host.{Env, Host}
use sputnik_dao_contract.Host.Reads.{chain_ok, require_then, gets_then, expect_ok}
use sputnik_dao_contract.Dao.Contract.{Contract, new}
use sputnik_dao_contract.Dao.Calls.{
  Method, on_proposal_callback as answering, assert_private, assert_no_deposit, dispatch, execute,
}
use sputnik_dao_contract.Dao.Proposals.Methods.{answer, on_proposal_callback}
use sputnik_dao_contract.Dao.Invariant.Reachable.{IsBackedSound, execute-IsBackedSound, new-IsSound}
use sputnik_dao_contract.Dao.Bonds.{
  AllBelow, callbacks, open_bonds, claim_bonds, bonds_on_the_way, owed,
}
use sputnik_dao_contract.Dao.Bonds.Sums.{
  append-AllBelow, raise-AllBelow, pick-AllBelow, on_the_way-append,
}
use sputnik_dao_contract.Dao.Bonds.Balances.{AreBonds, owed_now}
use sputnik_dao_contract.Dao.Bonds.Callbacks.{answered-Balances}
use sputnik_dao_contract.Dao.Bonds.Runs.{
  Running, start, received, receive, IsDirect, Step, call, callback, Reachable, created, next,
}
use sputnik_dao_contract.Dao.Bonds.Dispatching.{dispatch-Balances}

-- What is locked covers what is owed, the callbacks on the way are of proposals that were added, and
-- the contract is as its calls leave it.
record Solvent (b k : ℕ) (s : Running) : Type 0 where
  sound : IsBackedSound 0 s.dao
  below : AllBelow s.dao.last_proposal_id s.on_the_way
  covered : owed b k s.on_the_way s.dao ≤ s.dao.locked_amount

-- The contract after a call that returned.
after_call :
    (env : Env) (method : Method) (c : Contract) {h' : Host Contract}
    → dispatch env method (start c) ≡ ok (tt, h')
    → execute env method c ≡ h'.state
unfolding execute
after_call env method c e =
    ap {A = Result (Unit × Host Contract)} (λ r. elim r [ err code ↦ c | ok (result, h) ↦ h.state ])
      e

after-IsBackedSound :
    (env : Env) (method : Method) (c : Contract) {h' : Host Contract}
    → IsBackedSound 0 c
    → dispatch env method (start c) ≡ ok (tt, h')
    → IsBackedSound 0 h'.state × (c.last_proposal_id ≤ h'.state.last_proposal_id)
after-IsBackedSound env method c s e =
    let from : IsBackedSound c.last_proposal_id c = record {
      weights = s.weights;
      staking = s.staking;
      policy = s.policy;
      proposals = s.proposals;
      bounties = s.bounties;
      claims = s.claims;
      reached = omega arith;
    } in
    let after = after_call env method c e in
    (
      subst (IsBackedSound 0) after (execute-IsBackedSound 0 env method c s),
      (subst (IsBackedSound c.last_proposal_id) after
          (execute-IsBackedSound c.last_proposal_id env method c from)).reached,
    )

module _ (b k : ℕ) (env : Env) (c : Contract) (ids : List ℕ) where
  -- A call that returned, from what it leaves locked and owed.
  settled :
      (method : Method) (h' : Host Contract)
      → IsBackedSound 0 c
      → AllBelow c.last_proposal_id ids
      → dispatch env method (start c) ≡ ok (tt, h')
      → AllBelow c.last_proposal_id (callbacks h'.promises)
      → owed_now b k c.last_proposal_id ids h' ≤ h'.state.locked_amount
      → Solvent b k (record { dao = h'.state; on_the_way = ids ++ callbacks h'.promises })
  settled method h' sound below e fresh covered =
      let (after, more) = after-IsBackedSound env method c sound e in
      record {
        sound = after;
        below =
            append-AllBelow _ ids (callbacks h'.promises)
              (raise-AllBelow c.last_proposal_id _ ids more below)
              (raise-AllBelow c.last_proposal_id _ (callbacks h'.promises) more fresh);
        covered =
            omega (
              arith,
              covered,
              on_the_way-append b k ids (callbacks h'.promises) h'.state.proposals,
            );
      }

  direct-Solvent :
      (method : Method) (r : Result (Unit × Host Contract))
      → dispatch env method (start c) ≡ r
      → IsDirect env method
      → AreBonds b k c
      → Solvent b k (record { dao = c; on_the_way = ids })
      → Solvent b k (received r (record { dao = c; on_the_way = ids }))
  unfolding received callbacks bonds_on_the_way
  direct-Solvent method (err code) e direct bonds s = s
  direct-Solvent method (ok (result, h')) e direct bonds s =
      let balance = dispatch-Balances b k ids env c bonds s.sound s.below method direct e in
      settled method h' s.sound s.below e (balance.fresh tt)
        (omega (arith, balance.fair, s.covered))

  callback-Balances :
      (id : ℕ) {h' : Host Contract}
      → AreBonds b k c
      → dispatch env (answering id) (start c) ≡ ok (tt, h')
      → (owed_now b k c.last_proposal_id ids h' + c.locked_amount
          ≤ owed_now b k c.last_proposal_id (id ∷ ids) (start c) + h'.state.locked_amount)
        × AllBelow c.last_proposal_id (callbacks h'.promises)
  unfolding dispatch assert_private assert_no_deposit callbacks on_proposal_callback
  callback-Balances id {h' = h'} bonds e =
      let e1 = (require_then _ _ _ (start c) e).1 in
      let e2 = (require_then _ _ _ (start c) e1).1 in
      let (p, h1, e3, r3) = chain_ok _ _ (start c) (gets_then _ _ (start c) e2) in
      let (found, same) = expect_ok _ _ (start c) e3 in
      let (balance, fresh) =
        answered-Balances b k c.last_proposal_id env id p (start c) bonds ids found
          (subst (λ h0. answer env id p h0 ≡ ok (tt, h')) same r3) in
      (balance, fresh tt)

  callback-Solvent :
      (id : ℕ) (r : Result (Unit × Host Contract))
      → dispatch env (answering id) (start c) ≡ r
      → AreBonds b k c
      → Solvent b k (record { dao = c; on_the_way = id ∷ ids })
      → Solvent b k (received r (record { dao = c; on_the_way = ids }))
  unfolding received callbacks bonds_on_the_way
  callback-Solvent id (err code) e bonds s = record {
    sound = s.sound;
    below = s.below.1;
    covered = omega (arith, s.covered);
  }
  callback-Solvent id (ok (result, h')) e bonds s =
      let (balance, fresh) = callback-Balances id bonds e in
      settled (answering id) h' s.sound s.below.1 e fresh (omega (arith, balance, s.covered))

-- The order of the callbacks on the way does not matter.
bring_forward :
    (b k : ℕ) (before after : List ℕ) (id : ℕ) (c : Contract)
    → Solvent b k (record { dao = c; on_the_way = before ++ id ∷ after })
    → Solvent b k (record { dao = c; on_the_way = id ∷ before ++ after })
unfolding bonds_on_the_way
bring_forward b k before after id c s = record {
  sound = s.sound;
  below = pick-AllBelow c.last_proposal_id before id after s.below;
  covered = omega (
    arith,
    s.covered,
    on_the_way-append b k before (id ∷ after) c.proposals,
    on_the_way-append b k before after c.proposals,
  );
}

Step-Solvent :
    (b k : ℕ) {s t : Running} → Step s t → AreBonds b k s.dao → Solvent b k s → Solvent b k t
unfolding receive
Step-Solvent b k (call env method s direct) bonds solvent =
    direct-Solvent b k env s.dao s.on_the_way method (dispatch env method (start s.dao)) refl direct
      bonds solvent
Step-Solvent b k (callback env before after id c) bonds solvent =
    callback-Solvent b k env c (before ++ after) id (dispatch env (answering id) (start c)) refl
      bonds (bring_forward b k before after id c solvent)

pub reachable_bonds : (b k : ℕ) {s : Running} → Reachable b k s → AreBonds b k s.dao
reachable_bonds b k (created env config policy bonds) = bonds
reachable_bonds b k (next r step bonds) = bonds

reachable-Solvent : (b k : ℕ) {s : Running} → Reachable b k s → Solvent b k s
unfolding new open_bonds claim_bonds bonds_on_the_way
reachable-Solvent b k (created env config policy bonds) = record {
  sound = new-IsSound env config policy;
  below = tt;
  covered = omega arith;
}
reachable-Solvent b k (next r step bonds) =
    Step-Solvent b k step (reachable_bonds b k r) (reachable-Solvent b k r)

pub reachable-IsBackedSound : (b k : ℕ) {s : Running} → Reachable b k s → IsBackedSound 0 s.dao
reachable-IsBackedSound b k r = (reachable-Solvent b k r).sound

-- In every state that a new contract comes to by calls of any accounts and by callbacks of its own
-- promises in any order, while the policy asks for the same bonds: the locked amount covers what
-- the contract owes, one proposal bond for each proposal that is InProgress or Failed, one bounty
-- bond for each claim of a bounty, and the bonds that the callbacks on the way are to return.
pub locked_covers :
    (b k : ℕ) (s : Running) → Reachable b k s → owed b k s.on_the_way s.dao ≤ s.dao.locked_amount
locked_covers b k s r = (reachable-Solvent b k r).covered
