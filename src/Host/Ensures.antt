-- ===== src/Host/Ensures.antt =====
-- Calls that keep an invariant of the state and return values of which something is known.
use sputnik_dao_contract.Base.{◌≡◌, refl, Option, none, some}
use sputnik_dao_contract.Result.{Error, Result, ok, err}
use sputnik_dao_contract.Host.{Host, Call, pure, panic, gets, expect, lift, ◌>>=◌}
use sputnik_dao_contract.Host.Keeps.{Keeps, After}

-- `P` of the state and `Q` of the value that a call returns.
abbrev pub AfterWith : {S A : Type 0} → (S → Type 0) → (A → Type 0) → Result (A × Host S) → Type 0
AfterWith P Q (ok (a, h)) = P h.state × Q a
AfterWith P Q (err c) = Unit

pub record Ensures {S A : Type 0} (P : S → Type 0) (Q : A → Type 0) (m : Call S A) : Type 0 where
  pub from : (h : Host S) → P h.state → AfterWith P Q (m h)

module _ {S A : Type 0} (P : S → Type 0) (Q : A → Type 0) where
  pub Ensures-pure : (a : A) → Q a → Ensures P Q (pure a)
  unfolding ◌>>=◌
  Ensures-pure a q = record { from = λ h p. (p, q) }

  pub Ensures-panic : (c : Error) → Ensures P Q (panic c)
  unfolding ◌>>=◌
  Ensures-panic c = record { from = λ h p. tt }

  pub Ensures-gets : (f : S → A) → ((s : S) → P s → Q (f s)) → Ensures P Q (gets f)
  unfolding ◌>>=◌
  Ensures-gets f q = record { from = λ h p. (p, q h.state p) }

  After-expect :
      (o : Option A) (c : Error) (h : Host S)
      → ((a : A) → o ≡ some a → Q a)
      → P h.state
      → AfterWith P Q (expect o c h)
  unfolding ◌>>=◌
  After-expect none c h q p = tt
  After-expect (some a) c h q p = (p, q a refl)

  pub Ensures-expect :
      (o : Option A) (c : Error) → ((a : A) → o ≡ some a → Q a) → Ensures P Q (expect o c)
  Ensures-expect o c q = record { from = λ h p. After-expect o c h q p }

  After-lift :
      (r : Result A) (h : Host S)
      → ((a : A) → r ≡ ok a → Q a)
      → P h.state
      → AfterWith P Q (lift r h)
  unfolding ◌>>=◌
  After-lift (err c) h q p = tt
  After-lift (ok a) h q p = (p, q a refl)

  pub Ensures-lift : (r : Result A) → ((a : A) → r ≡ ok a → Q a) → Ensures P Q (lift r)
  Ensures-lift r q = record { from = λ h p. After-lift r h q p }

module _ {S A : Type 0} (P : S → Type 0) (Q : A → Type 0) where
  After-any : (r : Result (A × Host S)) → ((a : A) → Q a) → After P r → AfterWith P Q r
  After-any (ok (a, h)) q p = (p, q a)
  After-any (err c) q p = tt

  -- What holds of every value.
  pub Ensures-any : (m : Call S A) → ((a : A) → Q a) → Keeps P m → Ensures P Q m
  Ensures-any m q km = record { from = λ h p. After-any (m h) q (km.at h p) }

module _ {S A B : Type 0} (P : S → Type 0) (Q : A → Type 0) where
  After-bind :
      (r : Result (A × Host S)) (m : Call S A) (f : A → Call S B) (h : Host S)
      → m h ≡ r
      → ((a : A) → Q a → Keeps P (f a))
      → AfterWith P Q r
      → After P ((m >>= f) h)
  unfolding ◌>>=◌
  After-bind (ok (a, h')) m f h e kf (p, q) = rw (e, After) ((kf a q).at h' p)
  After-bind (err c) m f h e kf p = rw (e, After) tt

  -- The rest of a call may use what its first part ensures.
  pub Keeps-bind-Ensures :
      (m : Call S A) (f : A → Call S B)
      → Ensures P Q m
      → ((a : A) → Q a → Keeps P (f a))
      → Keeps P (m >>= f)
  Keeps-bind-Ensures m f em kf = record { at = λ h p. After-bind (m h) m f h refl kf (em.from h p) }

module _ {S A B : Type 0} (P : S → Type 0) (Q : B → Type 0) where
  with_bind :
      (r : Result (A × Host S)) (m : Call S A) (f : A → Call S B) (h : Host S)
      → m h ≡ r
      → ((a : A) → Ensures P Q (f a))
      → After P r
      → AfterWith P Q ((m >>= f) h)
  unfolding ◌>>=◌
  with_bind (ok (a, h')) m f h e kf p = rw (e, AfterWith) ((kf a).from h' p)
  with_bind (err c) m f h e kf p = rw (e, AfterWith) tt

  pub Ensures-bind :
      (m : Call S A) (f : A → Call S B)
      → Keeps P m
      → ((a : A) → Ensures P Q (f a))
      → Ensures P Q (m >>= f)
  Ensures-bind m f km ef = record { from = λ h p. with_bind (m h) m f h refl ef (km.at h p) }

module _ {S A B : Type 0} (P : S → Type 0) (R : A → Type 0) (Q : B → Type 0) where
  with_bind-Ensures :
      (r : Result (A × Host S)) (m : Call S A) (f : A → Call S B) (h : Host S)
      → m h ≡ r
      → ((a : A) → R a → Ensures P Q (f a))
      → AfterWith P R r
      → AfterWith P Q ((m >>= f) h)
  unfolding ◌>>=◌
  with_bind-Ensures (ok (a, h')) m f h e kf (p, q) = rw (e, AfterWith) ((kf a q).from h' p)
  with_bind-Ensures (err c) m f h e kf p = rw (e, AfterWith) tt

  pub Ensures-bind-Ensures :
      (m : Call S A) (f : A → Call S B)
      → Ensures P R m
      → ((a : A) → R a → Ensures P Q (f a))
      → Ensures P Q (m >>= f)
  Ensures-bind-Ensures m f em ef = record {
    from = λ h p. with_bind-Ensures (m h) m f h refl ef (em.from h p);
  }

module _ {S A B : Type 0} (P : S → Type 0) where
  After-load :
      (o : Option A) (f : S → Option A) (c : Error) (g : A → Call S B) (h : Host S)
      → f h.state ≡ o
      → ((a : A) → f h.state ≡ some a → After P (g a h))
      → After P ((gets f >>= λ stored. expect stored c >>= g) h)
  unfolding ◌>>=◌
  After-load none f c g h e kg = rw (e, After) tt
  After-load (some a) f c g h e kg = rw (e, After) (kg a e)

  -- A value that a call loads from the state, or panics where it is missing.
  pub Keeps-load :
      (f : S → Option A) (c : Error) (g : A → Call S B)
      → ((h : Host S) (a : A) → P h.state → f h.state ≡ some a → After P (g a h))
      → Keeps P (gets f >>= λ stored. expect stored c >>= g)
  Keeps-load f c g kg = record {
    at = λ h p. After-load (f h.state) f c g h refl (λ a e. kg h a p e);
  }
