-- ===== src/System/Weights/Delivery.antt =====
-- What the DAO has of the weights while messages of the staking contract are on the way, and once
-- they have arrived.
use sputnik_dao_contract.Base.{
  ℕ, ◌*◌, ◌<◌, ◌≡◌, refl, sym, ◌∙◌, ap, subst, String, some, List, [], ◌∷◌, ◌++◌, string_key, arith,
  Option-cases, inl, inr,
}
use sputnik_dao_contract.Map
use sputnik_dao_contract.Result.{Result, ok, u128_mod}
use sputnik_dao_contract.Host.{Env, Host}
use sputnik_dao_contract.Host.Keeps.{After-ok}
use sputnik_dao_contract.Dao.Contract as DaoContract
use sputnik_dao_contract.Dao.Calls as DaoCalls
use sputnik_dao_contract.Dao.Invariant.Reachable.{IsBackedSound, execute-IsBackedSound}
use sputnik_dao_contract.Dao.Invariant.Others.{others_keep_weights}
use sputnik_dao_contract.Dao.Delegation.Ledger.{
  Ledger, Message, receive, ledger_of, with_ledger, method_of, Agrees, dispatch_refines,
}
use sputnik_dao_contract.Staking.Methods as StakingMethods
use sputnik_dao_contract.Staking.Calls.{Method, dispatch}
use sputnik_dao_contract.Staking.Amounts.{HasExactTotal, IsExact, sum_votes}
use sputnik_dao_contract.Staking.Totals.{StaysRegistered, dispatch-IsExact}
use sputnik_dao_contract.Staking.Sums.{delegated, sum_by}
use sputnik_dao_contract.System.Weights.{weight_of, Matches, IsCoherent, Change, settle}
use sputnik_dao_contract.System.Weights.Changes.{Change-IsCoherent}
use sputnik_dao_contract.System.Weights.Following.{Change-settles}
use sputnik_dao_contract.System.Weights.Sending.{messages_to, start, Sends}
use sputnik_dao_contract.System.Weights.Receipts.{dispatch-Sends}
use sputnik_dao_contract.System.Weights.States.{
  State, dao_host, deliver_all, Delivers, Step, staking_call, delivery, dao_call, Initial,
  Reachable, initially, later,
}

module _ (staking_account : String) (byte_cost : ℕ) where
  -- Once the messages on the way have arrived, the weights are those that the users ask for.
  record IsOnTheWay (s : State) : Type 0 where
    coherent : IsCoherent s.staking.users s.staking.total_amount
    chosen : s.dao.staking_id ≡ some staking_account
    sound : IsBackedSound 0 s.dao
    after : Ledger
    settles : settle byte_cost s.queue (ledger_of s.dao) ≡ some after
    matches : Matches s.staking.users after

  settle-append :
      (ms ns : List (Message × ℕ)) (l : Ledger) {l' : Ledger}
      → settle byte_cost ms l ≡ some l'
      → settle byte_cost (ms ++ ns) l ≡ settle byte_cost ns l'
  unfolding settle
  settle-append [] ns l e = ground arith
  settle-append (m ∷ ms) ns l {l' = l'} e = elim (Option-cases (receive byte_cost m l)) [
    | inl refused ↦ ground arith
    | inr (l1, taken) ↦ ground (arith, taken, settle-append ms ns l1 {l' = l'})
  ]

  settle_first :
      (m : Message × ℕ) (ms : List (Message × ℕ)) (l : Ledger) {l' : Ledger}
      → settle byte_cost (m ∷ ms) l ≡ some l'
      → (l1 : Ledger) × (receive byte_cost m l ≡ some l1) × (settle byte_cost ms l1 ≡ some l')
  unfolding settle
  settle_first m ms l e = elim (Option-cases (receive byte_cost m l)) [
    | inl refused ↦ ground arith
    | inr (l1, taken) ↦ (l1, taken, ground (arith, taken))
  ]

  called :
      (s : State) (env : Env) (method : Method) (h : Host StakingMethods.Contract)
      → env.storage_byte_cost ≡ byte_cost
      → StaysRegistered method
      → dispatch env method (start s.staking) ≡ ok (tt, h)
      → IsOnTheWay s
      → IsOnTheWay (record s {
        staking = h.state;
        queue = s.queue ++ messages_to s.staking.owner_id h.promises;
      })
  called s env method h cost stays e w =
      let sends : Sends env.storage_byte_cost s.staking h =
        dispatch-Sends env s.staking method stays w.coherent.covered e in
      let exact : IsExact h.state.users h.state.total_amount =
        After-ok HasExactTotal _ tt h e
          ((dispatch-IsExact env method stays).at (start s.staking) w.coherent.exact) in
      let change : Change byte_cost s.staking.users h.state.users
          (messages_to s.staking.owner_id h.promises) =
        subst
          (λ cost.
            Change cost s.staking.users h.state.users (messages_to s.staking.owner_id h.promises))
          cost sends.change in
      let coherent : IsCoherent h.state.users h.state.total_amount =
        Change-IsCoherent s.staking.total_amount h.state.total_amount change w.coherent exact in
      let (l, follows, matches) =
        Change-settles s.staking.total_amount h.state.total_amount w.after change w.coherent
          coherent w.matches in
      record {
        coherent = coherent;
        chosen = w.chosen;
        sound = w.sound;
        after = l;
        settles = settle-append s.queue _ (ledger_of s.dao) w.settles ∙ follows;
        matches = matches;
      }

  accepted_as :
      (env : Env) (message : Message) (s : State) (l : Ledger)
      (r : Result (Unit × Host DaoContract.Contract))
      → receive byte_cost (message, env.attached_deposit) (ledger_of s.dao) ≡ some l
      → env.storage_byte_cost ≡ byte_cost
      → Agrees
          (dao_host s)
          (receive env.storage_byte_cost (message, env.attached_deposit) (ledger_of s.dao))
          r
      → r ≡ ok (tt, record { state = with_ledger l s.dao; promises = [] })
  accepted_as env message s l r taken cost agrees =
      subst (λ o. Agrees (dao_host s) o r)
        (ap (λ c. receive c (message, env.attached_deposit) (ledger_of s.dao)) cost ∙ taken) agrees

  module _ (fits : 16 * byte_cost < u128_mod) where
    taken_in :
        (s : State) (env : Env) (message : Message) (deposit : ℕ) (l : Ledger)
        → s.dao.staking_id ≡ some staking_account
        → Delivers staking_account byte_cost deposit env
        → receive byte_cost (message, deposit) (ledger_of s.dao) ≡ some l
        → DaoCalls.dispatch env (method_of message) (dao_host s)
          ≡ ok (tt, record { state = with_ledger l s.dao; promises = [] })
    taken_in s env message deposit l chosen d taken =
        accepted_as env message s l _
          (ap (λ n. receive byte_cost (message, n) (ledger_of s.dao)) d.attached ∙ taken) d.cost
          (dispatch_refines env message (dao_host s) (chosen ∙ ap some (sym d.sender))
            (subst (λ c. 16 * c < u128_mod) (sym d.cost) fits))

    delivered :
        (s : State) (env : Env) (message : Message) (deposit : ℕ) (queue : List (Message × ℕ))
        → s.queue ≡ (message, deposit) ∷ queue
        → Delivers staking_account byte_cost deposit env
        → IsOnTheWay s
        → IsOnTheWay
            (record s { queue = queue; dao = DaoCalls.execute env (method_of message) s.dao })
    unfolding DaoCalls.execute
    delivered s env message deposit queue e d w =
        let (l, taken, rest) =
          settle_first (message, deposit) queue (ledger_of s.dao)
            (ap (λ q. settle byte_cost q (ledger_of s.dao)) (sym e) ∙ w.settles) in
        let done : DaoCalls.execute env (method_of message) s.dao ≡ with_ledger l s.dao =
          cc (taken_in s env message deposit l w.chosen d taken) in
        record {
          coherent = w.coherent;
          chosen = ap (λ c. c.staking_id) done ∙ w.chosen;
          sound = execute-IsBackedSound 0 env (method_of message) s.dao w.sound;
          after = w.after;
          settles = ap (λ c. settle byte_cost queue (ledger_of c)) done ∙ rest;
          matches = w.matches;
        }

    Step-IsOnTheWay :
        {s s' : State} → Step staking_account byte_cost s s' → IsOnTheWay s → IsOnTheWay s'
    Step-IsOnTheWay {s = s} (staking_call env method h cost stays e) w =
        called s env method h cost stays e w
    Step-IsOnTheWay {s = s} (delivery env message deposit queue e d) w =
        delivered s env message deposit queue e d w
    Step-IsOnTheWay {s = s} (dao_call env method other) w =
        let (same_weights, same_total, chosen) =
          others_keep_weights env method s.dao staking_account other w.chosen w.sound in
        let same : ledger_of (DaoCalls.execute env method s.dao) ≡ ledger_of s.dao =
          cc (same_weights, same_total) in
        record {
          coherent = w.coherent;
          chosen = chosen;
          sound = execute-IsBackedSound 0 env method s.dao w.sound;
          after = w.after;
          settles = ap (settle byte_cost s.queue) same ∙ w.settles;
          matches = w.matches;
        }

    Initial-IsOnTheWay : {s : State} → Initial staking_account byte_cost s → IsOnTheWay s
    unfolding StakingMethods.new settle sum_by sum_votes Map.get
    Initial-IsOnTheWay {s = s} i = record {
      coherent =
          subst (λ c. IsCoherent c.users c.total_amount) (sym i.fresh)
            (record {
              exact = record { exact = refl; fits = omega arith };
              covered = tt;
              known = λ a missing. refl;
            });
      chosen = i.chosen;
      sound = i.sound;
      after = record { weights = []; total = 0 };
      settles = ap (λ q. settle byte_cost q (ledger_of s.dao)) i.idle ∙ ap some i.empty;
      matches =
          subst (λ c. Matches c.users (record { weights = []; total = 0 })) (sym i.fresh)
            (record { weights = λ a. refl; total = refl });
    }

    Reachable-IsOnTheWay : {s : State} → Reachable staking_account byte_cost s → IsOnTheWay s
    Reachable-IsOnTheWay (initially i) = Initial-IsOnTheWay i
    Reachable-IsOnTheWay (later r step) = Step-IsOnTheWay step (Reachable-IsOnTheWay r)

    -- In every state that the staking contract and its DAO reach by calls of the staking contract
    -- other than storage_unregister, by deliveries of its messages in the order in which they were
    -- sent and by any calls of the DAO by other accounts, from a new staking contract and a DAO
    -- that has its invariant and this staking contract but no weights yet, and where 16 bytes of
    -- storage cost less than 2 ^ 128: the DAO's call for the oldest message on the way does not
    -- panic, and does to the weights what the message says.
    pub message_accepted :
        (s : State) (env : Env) (message : Message) (deposit : ℕ) (queue : List (Message × ℕ))
        → Reachable staking_account byte_cost s
        → s.queue ≡ (message, deposit) ∷ queue
        → Delivers staking_account byte_cost deposit env
        → (l : Ledger) × (receive byte_cost (message, deposit) (ledger_of s.dao) ≡ some l)
          × (DaoCalls.dispatch env (method_of message) (dao_host s)
              ≡ ok (tt, record { state = with_ledger l s.dao; promises = [] }))
    message_accepted s env message deposit queue reached e d =
        let w = Reachable-IsOnTheWay reached in
        let (l, taken, rest) =
          settle_first (message, deposit) queue (ledger_of s.dao)
            (ap (λ q. settle byte_cost q (ledger_of s.dao)) (sym e) ∙ w.settles) in
        (l, taken, taken_in s env message deposit l w.chosen d taken)

    -- Where no message is on the way, the weights of the DAO are those that the users ask for.
    weights_follow :
        (s : State) (a : String)
        → Reachable staking_account byte_cost s
        → s.queue ≡ []
        → (Map.get s.dao.delegations a ≡ weight_of a s.staking.users (Map.get s.staking.users a))
          × (s.dao.total_delegation_amount ≡ sum_by delegated s.staking.users)
    unfolding settle
    weights_follow s a reached idle =
        let w = Reachable-IsOnTheWay reached in
        let now : ledger_of s.dao ≡ w.after =
          cc (sym (ap (λ q. settle byte_cost q (ledger_of s.dao)) idle) ∙ w.settles) in
        (
          ap (λ l. Map.get l.weights a) now ∙ w.matches.weights a,
          ap (λ l. l.total) now ∙ w.matches.total,
        )

    module _ (receipt_for : Message × ℕ → Env)
        (delivers : (m : Message × ℕ)
          → Delivers staking_account byte_cost m.1 (receipt_for m)) where
      all_delivered :
          (queue : List (Message × ℕ)) (s : State)
          → s.queue ≡ queue
          → Reachable staking_account byte_cost s
          → Reachable staking_account byte_cost
              (record s { queue = []; dao = deliver_all receipt_for queue s.dao })
      unfolding deliver_all
      all_delivered [] s e reached =
          subst (Reachable staking_account byte_cost) (ap (λ q. record s { queue = q }) e) reached
      all_delivered ((message, deposit) ∷ queue) s e reached = all_delivered queue _ refl (
          later reached (
            delivery (receipt_for (message, deposit)) message deposit queue e
              (delivers (message, deposit))))

      -- In every state that the staking contract and its DAO reach by calls of the staking contract
      -- other than storage_unregister, by deliveries of its messages in the order in which they
      -- were sent and by any calls of the DAO by other accounts, from a new staking contract and a
      -- DAO that has its invariant and this staking contract but no weights yet, and where 16 bytes
      -- of storage cost less than 2 ^ 128: once the DAO has received all messages that are on the
      -- way, each registered user weighs there what all users delegated to it, any other account
      -- has no weight, and the total is the sum of all delegations.
      pub weights_arrive :
          (s : State) (a : String)
          → Reachable staking_account byte_cost s
          → (Map.get (deliver_all receipt_for s.queue s.dao).delegations a
              ≡ weight_of a s.staking.users (Map.get s.staking.users a))
            × ((deliver_all receipt_for s.queue s.dao).total_delegation_amount
                ≡ sum_by delegated s.staking.users)
      weights_arrive s a reached =
          weights_follow (record s { queue = []; dao = deliver_all receipt_for s.queue s.dao }) a
            (all_delivered s.queue s refl reached) refl
