-- ===== src/Host/Reads.antt =====
-- Calls that only read, and what a chain that returned has gone through.
use sputnik_dao_contract.Base.{
  ◌≡◌, refl, Bool, true, false, Option, none, some, if◌then◌else◌, ◌⊎◌, inl, inr,
}
use sputnik_dao_contract.Result.{Error, Result, ok, err}
use sputnik_dao_contract.Host.{Host, Call, pure, gets, require, expect, lift, ◌>>=◌}

module _ {S A B : Type 0} where
  returned :
      (r : Result (A × Host S)) (f : A → Call S B) {out : B × Host S}
      → (elim r [ err c ↦ err c | ok (a, h) ↦ f a h ]) ≡ ok out
      → (a : A) × (h1 : Host S) × (r ≡ ok (a, h1)) × (f a h1 ≡ ok out)
  returned (ok (a, h1)) f e = (a, h1, refl, e)
  returned (err c) f e = cc

  -- The steps of a chain that returned.
  pub chain_ok :
      (m : Call S A) (f : A → Call S B) (h : Host S) {out : B × Host S}
      → (m >>= f) h ≡ ok out
      → (a : A) × (h1 : Host S) × (m h ≡ ok (a, h1)) × (f a h1 ≡ ok out)
  unfolding ◌>>=◌
  chain_ok m f h e = returned (m h) f e

module _ {S : Type 0} where
  -- A check that passed was true and left the host alone.
  pub require_ok :
      (b : Bool) (c : Error) (h : Host S) {out : Unit × Host S}
      → require b c h ≡ ok out
      → (b ≡ true) × (out.1 ≡ h)
  unfolding ◌>>=◌
  require_ok true c h e = (refl, cc)
  require_ok false c h e = cc

  pub lift_ok :
      {A : Type 0} (r : Result A) (h : Host S) {out : A × Host S}
      → lift r h ≡ ok out
      → (r ≡ ok out.0) × (out.1 ≡ h)
  unfolding ◌>>=◌
  lift_ok (ok a) h e = (cc, cc)
  lift_ok (err c) h e = cc

  pub gets_ok :
      {A : Type 0} (f : S → A) (h : Host S) {out : A × Host S}
      → gets f h ≡ ok out
      → (out.0 ≡ f h.state) × (out.1 ≡ h)
  unfolding ◌>>=◌
  gets_ok f h e = (cc, cc)

  pub expect_ok :
      {A : Type 0} (o : Option A) (c : Error) (h : Host S) {out : A × Host S}
      → expect o c h ≡ ok out
      → (o ≡ some out.0) × (out.1 ≡ h)
  unfolding ◌>>=◌
  expect_ok none c h e = cc
  expect_ok (some a) c h e = (cc, cc)

  pub pure_ok :
      {A : Type 0} (a : A) (h : Host S) {out : A × Host S} → pure a h ≡ ok out → out ≡ (a, h)
  unfolding ◌>>=◌
  pure_ok a h e = cc

module _ {S B : Type 0} where
  -- A check at the head of a chain that returned.
  pub require_then :
      (b : Bool) (c : Error) (f : Unit → Call S B) (h : Host S) {out : B × Host S}
      → (require b c >>= f) h ≡ ok out
      → (b ≡ true) × (f tt h ≡ ok out)
  unfolding ◌>>=◌
  require_then true c f h e = (refl, e)
  require_then false c f h e = cc

  pub lift_then :
      {A : Type 0} (r : Result A) (f : A → Call S B) (h : Host S) {out : B × Host S}
      → (lift r >>= f) h ≡ ok out
      → (a : A) × (r ≡ ok a) × (f a h ≡ ok out)
  unfolding ◌>>=◌
  lift_then (ok a) f h e = (a, refl, e)
  lift_then (err c) f h e = cc

  pub gets_then :
      {A : Type 0} (g : S → A) (f : A → Call S B) (h : Host S) {out : B × Host S}
      → (gets g >>= f) h ≡ ok out
      → f (g h.state) h ≡ ok out
  unfolding ◌>>=◌
  gets_then g f h e = e

module _ {S A B : Type 0} where
  failing :
      (r : Result (A × Host S)) (f : A → Call S B) (c : Error)
      → r ≡ err c
      → (elim r [ err c' ↦ err c' | ok (a, h) ↦ f a h ]) ≡ err c
  failing (ok (a, h)) f c e = cc
  failing (err c') f c e = cc

  -- A chain panics as its first call does.
  pub chain_err :
      (m : Call S A) (f : A → Call S B) (h : Host S) {c : Error} → m h ≡ err c → (m >>= f) h ≡ err c
  unfolding ◌>>=◌
  chain_err m f h {c = c} e = failing (m h) f c e

  running :
      (r : Result (A × Host S)) (f : A → Call S B) {a : A} {h : Host S}
      → r ≡ ok (a, h)
      → (elim r [ err c ↦ err c | ok (x, k) ↦ f x k ]) ≡ f a h
  running (ok (x, k)) f e = cc
  running (err c) f e = cc

  -- A chain whose first call returns goes on from there.
  pub chain_on :
      (m : Call S A) (f : A → Call S B) (h : Host S) {a : A} {k : Host S}
      → m h ≡ ok (a, k)
      → (m >>= f) h ≡ f a k
  unfolding ◌>>=◌
  chain_on m f h e = running (m h) f e

module _ {S : Type 0} where
  -- A branch that returned is one of the two.
  pub if_ok :
      {C : Type 0} (t : Bool) (m n : Call S C) (h : Host S) {out : C × Host S}
      → (if t then m else n) h ≡ ok out
      → (m h ≡ ok out) ⊎ (n h ≡ ok out)
  if_ok true m n h e = inl e
  if_ok false m n h e = inr e
