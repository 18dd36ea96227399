-- ===== src/Host/Keeps.antt =====
-- Invariants of calls, one rule for each way to build a call. The rules speak of calls that return:
-- a call that panics leaves the state as it was.
use sputnik_dao_contract.Base.{
  ◌≡◌, refl, subst, Bool, true, false, Option, none, some, if◌then◌else◌,
}
use sputnik_dao_contract.Result.{Error, Result, ok, err}
use sputnik_dao_contract.Host.{
  Host, Call, Promise, PromiseOrValue, promise, value, pure, panic, gets, modify, require, expect,
  lift, schedule, drop_promise, ◌>>=◌,
}

-- `P` of the state that a call returns.
abbrev pub After : {S A : Type 0} → (S → Type 0) → Result (A × Host S) → Type 0
After P (ok (a, h)) = P h.state
After P (err c) = Unit

pub After-ok :
    {S A : Type 0} (P : S → Type 0) (r : Result (A × Host S)) (a : A) (h : Host S)
    → r ≡ ok (a, h)
    → After P r
    → P h.state
After-ok P r a h e p = subst (After P) e p

-- What holds of every state that is returned.
pub After-each :
    {S A : Type 0} (P : S → Type 0) (r : Result (A × Host S))
    → ((a : A) (h : Host S) → r ≡ ok (a, h) → P h.state)
    → After P r
After-each P (ok (a, h)) p = p a h refl
After-each P (err c) p = tt

pub After-map :
    {S A : Type 0} (P Q : S → Type 0) (r : Result (A × Host S))
    → ((s : S) → P s → Q s)
    → After P r
    → After Q r
After-map P Q (ok (a, h)) f p = f h.state p
After-map P Q (err c) f p = tt

pub record Keeps {S A : Type 0} (P : S → Type 0) (m : Call S A) : Type 0 where
  pub at : (h : Host S) → P h.state → After P (m h)

module _ {S A : Type 0} (P : S → Type 0) where
  After-lift : (r : Result A) (h : Host S) → P h.state → After P (lift r h)
  unfolding ◌>>=◌
  After-lift (ok a) h p = p
  After-lift (err c) h p = tt

  After-expect : (o : Option A) (c : Error) (h : Host S) → P h.state → After P (expect o c h)
  unfolding ◌>>=◌
  After-expect none c h p = tt
  After-expect (some a) c h p = p

module _ {S : Type 0} (P : S → Type 0) where
  After-require : (b : Bool) (c : Error) (h : Host S) → P h.state → After P (require b c h)
  unfolding ◌>>=◌
  After-require true c h p = p
  After-require false c h p = tt

  After-drop : (r : PromiseOrValue) (h : Host S) → P h.state → After P (drop_promise r h)
  unfolding ◌>>=◌
  After-drop (promise p) h k = k
  After-drop value h k = k

module _ {S A : Type 0} {P : S → Type 0} where
  pub Keeps-pure : (a : A) → Keeps P (pure a)
  unfolding ◌>>=◌
  Keeps-pure a = record { at = λ h p. p }

  pub Keeps-panic : (c : Error) → Keeps P (panic {A = A} c)
  unfolding ◌>>=◌
  Keeps-panic c = record { at = λ h p. tt }

  pub Keeps-gets : (f : S → A) → Keeps P (gets f)
  unfolding ◌>>=◌
  Keeps-gets f = record { at = λ h p. p }

  pub Keeps-lift : (r : Result A) → Keeps P (lift r)
  Keeps-lift r = record { at = After-lift P r }

  pub Keeps-expect : (o : Option A) (c : Error) → Keeps P (expect o c)
  Keeps-expect o c = record { at = After-expect P o c }

  pub Keeps-if : (b : Bool) (m n : Call S A) → Keeps P m → Keeps P n → Keeps P (if b then m else n)
  Keeps-if true m n km kn = km
  Keeps-if false m n km kn = kn

module _ {S : Type 0} {P : S → Type 0} where
  pub Keeps-require : (b : Bool) (c : Error) → Keeps P (require b c)
  Keeps-require b c = record { at = After-require P b c }

  pub Keeps-modify : (f : S → S) → ((s : S) → P s → P (f s)) → Keeps P (modify f)
  unfolding ◌>>=◌
  Keeps-modify f keep = record { at = λ h p. keep h.state p }

  pub Keeps-schedule : (p : Promise) → Keeps P (schedule p)
  unfolding ◌>>=◌
  Keeps-schedule p = record { at = λ h k. k }

  pub Keeps-drop_promise : (r : PromiseOrValue) → Keeps P (drop_promise r)
  Keeps-drop_promise r = record { at = After-drop P r }

module _ {S A B : Type 0} {P : S → Type 0} where
  After-bind :
      (r : Result (A × Host S)) (m : Call S A) (f : A → Call S B) (h : Host S)
      → m h ≡ r
      → ((a : A) → Keeps P (f a))
      → After P r
      → After P ((m >>= f) h)
  unfolding ◌>>=◌
  After-bind (ok (a, h')) m f h e kf p = rw (e, After) ((kf a).at h' p)
  After-bind (err c) m f h e kf p = rw (e, After) tt

  pub Keeps-bind :
      (m : Call S A) (f : A → Call S B) → Keeps P m → ((a : A) → Keeps P (f a)) → Keeps P (m >>= f)
  Keeps-bind m f km kf = record { at = λ h p. After-bind (m h) m f h refl kf (km.at h p) }

-- The rest of a call from where its first part leaves the property.
pub After-chain :
    {S A B : Type 0} (P : S → Type 0) (m : Call S A) (f : A → Call S B) (h : Host S)
    → After P (m h)
    → ((a : A) → Keeps P (f a))
    → After P ((m >>= f) h)
After-chain P m f h p kf = After-bind (m h) m f h refl kf p

pub ruleset keeps_rules = (
  Keeps-pure, Keeps-panic, Keeps-gets, Keeps-lift, Keeps-expect, Keeps-if, Keeps-require,
  Keeps-schedule, Keeps-drop_promise, Keeps-bind,
)
