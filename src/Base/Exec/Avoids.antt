-- ===== src/Base/Exec/Avoids.antt =====
-- An action that does not end with a given error in a given state.
use mathlib.Core.Path.{◌≡◌, refl}
use mathlib.Core.Logic.{◌≢◌, inl, inr}
use mathlib.Core.Bool.{Bool, true, false}
use native.Mathlib.Omega.{arith}
use mail_control.Base.Tests.{if◌then◌else◌}
use mail_control.Base.Exec.{ok, err, Exec, Result-cases, pure, ◌>>=◌, try_except}

pub record Avoids {E S A : Type 0} (bad : E) (m : Exec E S A) (s : S) : Type 0 where
  pub at : (m s).0 ≢ err bad

module _ {E S : Type 0} {bad : E} {A B : Type 0} where
  pub Avoids-then :
      (m : Exec E S A) (f : A → Exec E S B) (s : S)
      → Avoids bad m s
      → ((a : A) → (m s).0 ≡ ok a → Avoids bad (f a) (m s).1)
      → Avoids bad (m >>= f) s
  Avoids-then m f s h k = record {
    at = elim (Result-cases (m s).0) [
      | inl (a, e) ↦ rw (e, ◌>>=◌) ((k a e).at)
      | inr (x, e) ↦
          rw (e, ◌>>=◌)
            (λ q. let same_error : x ≡ bad = ground (arith, q) in h.at (rw (e, same_error) refl))
    ];
  }

module _ {E S A : Type 0} {bad : E} where
  pub Avoids-if :
      (b : Bool) (m n : Exec E S A) (s : S)
      → (b ≡ true → Avoids bad m s)
      → (b ≡ false → Avoids bad n s)
      → Avoids bad (if b then m else n) s
  Avoids-if true m n s h k = h refl
  Avoids-if false m n s h k = k refl

  pub Avoids-pure : (a : A) (s : S) → Avoids bad (pure a) s
  Avoids-pure a s = record { at = λ h. absurd (cc) }

  -- The handler sees only errors that the action ends with, so never the one to avoid.
  pub Avoids-try :
      (m : Exec E S A) (k : E → Exec E S A) (s : S)
      → Avoids bad m s
      → ((e : E) → e ≢ bad → Avoids bad (k e) (m s).1)
      → Avoids bad (try_except m k) s
  Avoids-try m k s h hk = record {
    at = elim (Result-cases (m s).0) [
      | inl (a, e) ↦ rw (e, try_except) (λ q. absurd (cc))
      | inr (x, e) ↦ rw (e, try_except) (hk x (λ same_error. h.at (rw (e, same_error) refl))).at
    ];
  }
