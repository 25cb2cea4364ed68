-- ===== src/Base/Exec/Settles.antt =====
-- A property of the state that holds after an action wherever it settles: where it returns, or
-- raises an error of a chosen kind.
use mathlib.Core.Path.{◌≡◌}
use mathlib.Core.Logic.{inl, inr}
use mathlib.Core.Bool.{Bool, true, false}
use native.Mathlib.Omega.{arith}
use mail_control.Base.Tests.{if◌then◌else◌}
use mail_control.Base.Exec.{
  Result, ok, err, Exec, Result-cases, pure, raise, ◌>>=◌, try_except, is_ok,
}

abbrev pub settles : {E A : Type 0} → (E → Bool) → Result E A → Bool
settles f (ok a) = true
settles f (err e) = f e

pub record Settles {E S A : Type 0} (f : E → Bool) (Q : S → Type 0) (m : Exec E S A) : Type 0 where
  pub at : (s : S) → Q s → settles f (m s).0 ≡ true → Q (m s).1

module _ {E S : Type 0} {f : E → Bool} {Q : S → Type 0} {A B : Type 0} where
  pub Settles-then :
      (m : Exec E S A) (k : A → Exec E S B)
      → Settles f Q m
      → ((a : A) → Settles f Q (k a))
      → Settles f Q (m >>= k)
  Settles-then m k hm hk = record {
    at = λ s q h. elim (Result-cases (m s).0) [
      | inl (a, e) ↦
          rw (e, ◌>>=◌) ((hk a).at (m s).1 (hm.at s q (ground (arith, e))) (rw (e, ◌>>=◌) at h))
      | inr (x, e) ↦ rw (e, ◌>>=◌) (hm.at s q (ground (arith, e, (rw (e, ◌>>=◌) at h))))
    ];
  }

module _ {E S : Type 0} {f : E → Bool} {Q : S → Type 0} {A : Type 0} where
  pub Settles-if :
      (b : Bool) (m n : Exec E S A)
      → Settles f Q m
      → Settles f Q n
      → Settles f Q (if b then m else n)
  Settles-if true m n hm hn = hm
  Settles-if false m n hm hn = hn

  -- The handler begins in a state that has the property where the error is of the chosen kind.
  pub Settles-try :
      (m : Exec E S A) (k : E → Exec E S A)
      → Settles f Q m
      → ((e : E) (s : S) → (f e ≡ true → Q s) → settles f (k e s).0 ≡ true → Q (k e s).1)
      → Settles f Q (try_except m k)
  Settles-try m k hm hk = record {
    at = λ s q h. elim (Result-cases (m s).0) [
      | inl (a, e) ↦ rw (e, try_except) (hm.at s q (ground (arith, e)))
      | inr (x, e) ↦
          rw (e, try_except)
            (hk x (m s).1 (λ yes_x. hm.at s q (ground (arith, e, yes_x))) (rw (e, try_except) at h))
    ];
  }

  pub Settles-pure : (a : A) → Settles f Q (pure a)
  Settles-pure a = record { at = λ s q h. q }

  pub Settles-raise : (e : E) → Settles f Q (raise {A = A} e)
  Settles-raise e = record { at = λ s q h. q }

  -- Where the handler always raises, a return is one of the action itself.
  pub Settles-returned :
      (m : Exec E S A) (k : E → Exec E S A)
      → Settles f Q m
      → ((e : E) (s : S) → is_ok (k e s).0 ≡ false)
      → (s : S) → Q s
      → is_ok (try_except m k s).0 ≡ true
      → Q (try_except m k s).1
  Settles-returned m k hm raises s q h = elim (Result-cases (m s).0) [
    | inl (a, e) ↦ rw (e, try_except) (hm.at s q (ground (arith, e)))
    | inr (x, e) ↦ absurd (ground (arith, raises x (m s).1, (rw (e, try_except) at h)))
  ]
