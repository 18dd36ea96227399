-- ===== src/Host/Panics.antt =====
-- Calls that panic in every state, one rule for each place of a chain where the panic may stand.
use sputnik_dao_contract.Base.{◌≡◌, Bool, true, false}
use sputnik_dao_contract.Result.{Error, Result, ok, err}
use sputnik_dao_contract.Host.{Host, Call, panic, require, lift, ◌>>=◌}

abbrev pub IsPanic : {A : Type 0} → Result A → Type 0
IsPanic (ok a) = ⊥
IsPanic (err c) = Unit

pub record Panics {S A : Type 0} (m : Call S A) : Type 0 where
  pub at : (h : Host S) → IsPanic (m h)

module _ {S : Type 0} where
  pub Panics-panic : {A : Type 0} (c : Error) → Panics {S = S} (panic {A = A} c)
  unfolding ◌>>=◌
  Panics-panic c = record { at = λ h. tt }

  pub Panics-require : (b : Bool) (c : Error) → b ≡ false → Panics {S = S} (require b c)
  unfolding ◌>>=◌
  Panics-require true c e = cc
  Panics-require false c e = record { at = λ h. tt }

  pub Panics-lift : {A : Type 0} (r : Result A) → IsPanic r → Panics {S = S} (lift r)
  unfolding ◌>>=◌
  Panics-lift (ok a) p = absurd p
  Panics-lift (err c) p = record { at = λ h. tt }

module _ {S A B : Type 0} where
  bound-IsPanic :
      (r : Result (A × Host S)) (f : A → Call S B)
      → ((a : A) → Panics (f a))
      → IsPanic (elim r [ err c ↦ err c | ok (a, h) ↦ f a h ])
  bound-IsPanic (ok (a, h)) f p = (p a).at h
  bound-IsPanic (err c) f p = tt

  first-IsPanic :
      (r : Result (A × Host S)) (f : A → Call S B)
      → IsPanic r
      → IsPanic (elim r [ err c ↦ err c | ok (a, h) ↦ f a h ])
  first-IsPanic (ok (a, h)) f p = absurd p
  first-IsPanic (err c) f p = tt

  -- What follows panics whatever the first call returns.
  pub Panics-after : (m : Call S A) (f : A → Call S B) → ((a : A) → Panics (f a)) → Panics (m >>= f)
  unfolding ◌>>=◌
  Panics-after m f p = record { at = λ h. bound-IsPanic (m h) f p }

  pub Panics-first : (m : Call S A) (f : A → Call S B) → Panics m → Panics (m >>= f)
  unfolding ◌>>=◌
  Panics-first m f p = record { at = λ h. first-IsPanic (m h) f (p.at h) }
