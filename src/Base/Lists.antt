-- ===== src/Base/Lists.antt =====
-- Lists measured by native numbers, with Boolean tests on their elements.
use Prim.Native.Nat.{ℕ, suc, ◌+◌}
use mathlib.Core.Path.{◌≡◌, refl, sym, ap, ◌∙◌, subst}
use mathlib.Core.Bool.{Bool, true, false, ◌||◌, ◌&&◌}
use mathlib.Core.Option.{Option, none, some}
use mathlib.Core.List.{List, [], ◌∷◌, ◌++◌}
use native.Mathlib.Omega.{arith}
use mathlib.Core.Logic.{inl, inr}
use mail_control.Base.Tests.{if◌then◌else◌, Bool-cases}

abbrev pub indicator : Bool → ℕ
indicator b = if b then 1 else 0

module _ {ℓ} {A : Type ℓ} where
  abbrev pub length : List A → ℕ
  length [] = 0
  length (x ∷ xs) = suc (length xs)

  -- How many elements pass a test.
  abbrev pub count_if : (A → Bool) → List A → ℕ
  count_if p [] = 0
  count_if p (x ∷ xs) = indicator (p x) + count_if p xs

  abbrev pub any : (A → Bool) → List A → Bool
  any p [] = false
  any p (x ∷ xs) = p x || any p xs

  abbrev pub all : (A → Bool) → List A → Bool
  all p [] = true
  all p (x ∷ xs) = p x && all p xs

  -- The first element that passes a test: a SELECT by a unique key.
  abbrev pub find_first : (A → Bool) → List A → Option A
  find_first p [] = none
  find_first p (x ∷ xs) = if p x then some x else find_first p xs

  -- A WHERE clause.
  abbrev pub filter_by : (A → Bool) → List A → List A
  filter_by p [] = []
  filter_by p (x ∷ xs) = let rest = filter_by p xs in if p x then x ∷ rest else rest

  -- An UPDATE of the rows that pass a test.
  abbrev pub update_where : (A → Bool) → (A → A) → List A → List A
  update_where p f [] = []
  update_where p f (x ∷ xs) = (if p x then f x else x) ∷ update_where p f xs

  -- A write to the one row that a SELECT returned.
  abbrev pub update_first : (A → Bool) → (A → A) → List A → List A
  update_first p f [] = []
  update_first p f (x ∷ xs) = if p x then f x ∷ xs else x ∷ update_first p f xs

  -- Every element satisfies a predicate.
  abbrev pub All {κ} : (A → Type κ) → List A → Type κ
  All P [] = Unit
  All P (x ∷ xs) = P x × All P xs

  pub length-append : (xs ys : List A) → length (xs ++ ys) ≡ length xs + length ys
  length-append [] ys = omega arith
  length-append (x ∷ xs) ys = omega (arith, length-append xs ys)

  pub count_if-append :
      (p : A → Bool) (xs ys : List A) → count_if p (xs ++ ys) ≡ count_if p xs + count_if p ys
  count_if-append p [] ys = omega arith
  count_if-append p (x ∷ xs) ys = omega (arith, count_if-append p xs ys)

  pub any-append : (p : A → Bool) (xs ys : List A) → any p (xs ++ ys) ≡ (any p xs || any p ys)
  any-append p [] ys = refl
  any-append p (x ∷ xs) ys = ground (arith, any-append p xs ys)

  -- A write to one row changes a count by what the test says of the row before and after.
  pub count_if-update_first :
      (p q : A → Bool) (f : A → A) (x : A) (xs : List A)
      → find_first p xs ≡ some x
      → count_if q (update_first p f xs) + indicator (q x) ≡ count_if q xs + indicator (q (f x))
  count_if-update_first p q f x [] h = ground arith
  count_if-update_first p q f x (y ∷ ys) h = ground (arith, count_if-update_first p q f x ys)

  -- The row that a SELECT returns passes the test.
  pub find_first_passes :
      (p : A → Bool) (x : A) (xs : List A) → find_first p xs ≡ some x → p x ≡ true
  find_first_passes p x [] h = ground arith
  find_first_passes p x (y ∷ ys) h = ground (arith, find_first_passes p x ys)

  pub filter_by-append :
      (p : A → Bool) (xs ys : List A) → filter_by p (xs ++ ys) ≡ filter_by p xs ++ filter_by p ys
  filter_by-append p [] ys = refl
  filter_by-append p (x ∷ xs) ys = ground (arith, filter_by-append p xs ys)

  -- A write to a row that a filter leaves out, before and after, does not show in the filter.
  pub filter_by-update_first :
      (p q : A → Bool) (f : A → A) (x : A) (xs : List A)
      → find_first p xs ≡ some x
      → q x ≡ false
      → q (f x) ≡ false
      → filter_by q (update_first p f xs) ≡ filter_by q xs
  filter_by-update_first p q f x [] h out out' = refl
  filter_by-update_first p q f x (y ∷ ys) h out out' =
      ground (arith, filter_by-update_first p q f x ys)

  pub count_if-find_first :
      (p : A → Bool) (xs : List A) → find_first p xs ≡ none → count_if p xs ≡ 0
  count_if-find_first p [] h = refl
  count_if-find_first p (x ∷ xs) h = ground (arith, count_if-find_first p xs)

  pub filter_by-filter_by :
      (q r : A → Bool)
      → ((x : A) → q x ≡ true → r x ≡ true)
      → (xs : List A) → filter_by q (filter_by r xs) ≡ filter_by q xs
  filter_by-filter_by q r h [] = refl
  filter_by-filter_by q r h (x ∷ xs) = ground (arith, h x, filter_by-filter_by q r h xs)

  pub filter_by-transfer :
      (q r : A → Bool)
      → ((x : A) → q x ≡ true → r x ≡ true)
      → (xs ys : List A) → filter_by r xs ≡ filter_by r ys
      → filter_by q xs ≡ filter_by q ys
  filter_by-transfer q r h xs ys e =
      sym (filter_by-filter_by q r h xs) ∙ ap (filter_by q) e ∙ filter_by-filter_by q r h ys

  pub find_first-update_first :
      (p : A → Bool) (f : A → A) (x : A) (xs : List A)
      → find_first p xs ≡ some x
      → p (f x) ≡ true
      → find_first p (update_first p f xs) ≡ some (f x)
  find_first-update_first p f x [] h keep = ground arith
  find_first-update_first p f x (y ∷ ys) h keep = ground (arith, find_first-update_first p f x ys)

  pub find_first-append :
      (p : A → Bool) (x : A) (xs ys : List A)
      → find_first p xs ≡ some x
      → find_first p (xs ++ ys) ≡ some x
  find_first-append p x [] ys h = ground arith
  find_first-append p x (y ∷ xs) ys h = ground (arith, find_first-append p x xs ys)

module _ {ℓ} {A : Type ℓ} (q : A → Bool) where
  pub all-append : (xs ys : List A) → all q (xs ++ ys) ≡ (all q xs && all q ys)
  all-append [] ys = refl
  all-append (x ∷ xs) ys = ground (arith, all-append xs ys)

  -- A write to one row that the test does not notice.
  pub all-update_first :
      (p : A → Bool) (f : A → A)
      → ((x : A) → q (f x) ≡ q x)
      → (xs : List A) → all q (update_first p f xs) ≡ all q xs
  all-update_first p f keep [] = refl
  all-update_first p f keep (x ∷ xs) = ground (arith, keep x, all-update_first p f keep xs)

  pub all-find_first :
      (p : A → Bool) (x : A) (xs : List A) → all q xs ≡ true → find_first p xs ≡ some x → q x ≡ true
  all-find_first p x [] h e = ground arith
  all-find_first p x (y ∷ ys) h e = ground (arith, all-find_first p x ys)

module _ {ℓ κ} {A : Type ℓ} (P : A → Type κ) where
  pub All-append : (xs ys : List A) → All P xs → All P ys → All P (xs ++ ys)
  All-append [] ys h k = k
  All-append (x ∷ xs) ys h k = (h.0, All-append xs ys h.1 k)

  pub All-update_first :
      (p : A → Bool) (f : A → A)
      → ((x : A) → P x → P (f x))
      → (xs : List A) → All P xs
      → All P (update_first p f xs)
  All-update_first p f keep [] h = tt
  All-update_first p f keep (x ∷ xs) h = elim (Bool-cases (p x)) [
    | inl e ↦ rw e (keep x h.0, h.1)
    | inr e ↦ rw e (h.0, All-update_first p f keep xs h.1)
  ]

  pub All-update_where :
      (p : A → Bool) (f : A → A)
      → ((x : A) → P x → P (f x))
      → (xs : List A) → All P xs
      → All P (update_where p f xs)
  All-update_where p f keep [] h = tt
  All-update_where p f keep (x ∷ xs) h = elim (Bool-cases (p x)) [
    | inl e ↦ rw e (keep x h.0, All-update_where p f keep xs h.1)
    | inr e ↦ rw e (h.0, All-update_where p f keep xs h.1)
  ]

pub All-weaken {ℓ κ μ} :
    {A : Type ℓ} (P : A → Type κ) (Q : A → Type μ)
    → ((x : A) → P x → Q x)
    → (xs : List A) → All P xs
    → All Q xs
All-weaken P Q weaken [] h = tt
All-weaken P Q weaken (x ∷ xs) h = (weaken x h.0, All-weaken P Q weaken xs h.1)

-- The row that a SELECT returns satisfies what all rows do.
pub All-find_first {ℓ κ} :
    {A : Type ℓ} (P : A → Type κ) (p : A → Bool) (x : A) (xs : List A)
    → All P xs
    → find_first p xs ≡ some x
    → P x
All-find_first P p x [] a h = absurd (ground (arith, h))
All-find_first P p x (y ∷ ys) a h = elim (Bool-cases (p y)) [
  | inl hit ↦ (let e : y ≡ x = ground (arith, h, hit) in subst P e a.0)
  | inr miss ↦ All-find_first P p x ys a.1 (ground (arith, h, miss))
]

-- A write to the row that was found, which satisfies the predicate afterwards.
pub All-update_found {ℓ κ μ} :
    {A : Type ℓ} (P : A → Type κ) (Q : A → Type μ) (p : A → Bool) (f : A → A) (x : A) (xs : List A)
    → find_first p xs ≡ some x
    → ((y : A) → P y → Q y)
    → (P x → Q (f x))
    → All P xs
    → All Q (update_first p f xs)
All-update_found P Q p f x [] h weaken new a = tt
All-update_found P Q p f x (y ∷ ys) h weaken new a = elim (Bool-cases (p y)) [
  | inl hit ↦
      (let e : x ≡ y = ground (arith, h, hit) in
        rw hit (subst (λ z. P z → Q (f z)) e new a.0, All-weaken P Q weaken ys a.1))
  | inr miss ↦
      rw miss (weaken y a.0, All-update_found P Q p f x ys (ground (arith, h, miss)) weaken new a.1)
]
