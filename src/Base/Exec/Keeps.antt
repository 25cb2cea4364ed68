-- ===== src/Base/Exec/Keeps.antt =====
-- An invariant of the state that an action keeps, whether it returns or raises.
use mathlib.Core.Logic.{inl, inr}
use mathlib.Core.Bool.{Bool, true, false}
use mail_control.Base.Tests.{if◌then◌else◌}
use mail_control.Base.Exec.{Exec, Result-cases, pure, raise, ◌>>=◌, try_except}

pub record Keeps {E S A : Type 0} (P : S → Type 0) (m : Exec E S A) : Type 0 where
  pub at : (s : S) → P s → P (m s).1

module _ {E S : Type 0} {P : S → Type 0} {A B : Type 0} where
  -- The rest of a block runs only after a success, and is kept whatever the value.
  pub Keeps-then :
      (m : Exec E S A) (f : A → Exec E S B)
      → Keeps P m
      → ((a : A) → Keeps P (f a))
      → Keeps P (m >>= f)
  Keeps-then m f km kf = record {
    at = λ s h. elim (Result-cases (m s).0) [
      | inl (a, e) ↦ rw (e, ◌>>=◌) ((kf a).at (m s).1 (km.at s h))
      | inr (x, e) ↦ rw (e, ◌>>=◌) (km.at s h)
    ];
  }

module _ {E S : Type 0} {P : S → Type 0} {A : Type 0} where
  pub Keeps-if :
      (b : Bool) (m n : Exec E S A) → Keeps P m → Keeps P n → Keeps P (if b then m else n)
  Keeps-if true m n km kn = km
  Keeps-if false m n km kn = kn

  pub Keeps-try :
      (m : Exec E S A) (f : E → Exec E S A)
      → Keeps P m
      → ((e : E) → Keeps P (f e))
      → Keeps P (try_except m f)
  Keeps-try m f km kf = record {
    at = λ s h. elim (Result-cases (m s).0) [
      | inl (a, e) ↦ rw (e, try_except) (km.at s h)
      | inr (x, e) ↦ rw (e, try_except) ((kf x).at (m s).1 (km.at s h))
    ];
  }

  pub Keeps-pure : (a : A) → Keeps {E = E} P (pure a)
  Keeps-pure a = record { at = λ s h. h }

  pub Keeps-raise : (e : E) → Keeps P (raise {A = A} e)
  Keeps-raise e = record { at = λ s h. h }
