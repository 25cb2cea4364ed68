-- ===== src/Mail/Connection/Rows.antt =====
-- The rows of the accounts by their unique key.
use mail_control.Base.{
  ◌≤◌, ◌≡◌, refl, true, false, none, some, List, [], ◌∷◌, ◌++◌, arith, eq_iff, find_first,
  update_first, count_if, inl, inr, Bool-cases,
}
use mail_control.Mail.Account.{MailProvider, gmail, microsoft}
use mail_control.System.Redis.{same_provider}
use mail_control.Mail.Connection.{AccountRow, AccountKey, has_key}

same_provider_sound : (p q : MailProvider) → same_provider p q ≡ true → p ≡ q
same_provider_sound gmail gmail h = refl
same_provider_sound microsoft microsoft h = refl
same_provider_sound gmail microsoft h = absurd (ground (arith, h))
same_provider_sound microsoft gmail h = absurd (ground (arith, h))

pub same_provider_self : (p : MailProvider) → same_provider p p ≡ true
same_provider_self gmail = refl
same_provider_self microsoft = refl

-- Two rows of one key have the same keys.
key_agrees :
    (k l : AccountKey) (a b : AccountRow)
    → has_key k a ≡ true
    → has_key k b ≡ true
    → has_key l a ≡ has_key l b
key_agrees k l a b h i = ground (
  arith,
  h,
  i,
  eq_iff a.provider_account_id k.provider_account_id,
  eq_iff b.provider_account_id k.provider_account_id,
  same_provider_sound a.account.provider k.provider,
  same_provider_sound b.account.provider k.provider,
)

module _ (k l : AccountKey) (row : AccountRow) (own : has_key k row ≡ true) where
  pub count_rewritten :
      (rows : List AccountRow)
      → count_if (has_key l) (update_first (has_key k) (λ old. row) rows)
        ≡ count_if (has_key l) rows
  count_rewritten [] = refl
  count_rewritten (r ∷ rows) = elim (Bool-cases (has_key k r)) [
    | inl held ↦ ground (arith, held, key_agrees k l r row held own)
    | inr other ↦ ground (arith, other, count_rewritten rows)
  ]

  pub find_rewritten :
      (rows : List AccountRow)
      → has_key l row ≡ false
      → find_first (has_key l) (update_first (has_key k) (λ old. row) rows)
        ≡ find_first (has_key l) rows
  find_rewritten [] other = refl
  find_rewritten (r ∷ rows) other = elim (Bool-cases (has_key k r)) [
    | inl held ↦ ground (arith, held, other, key_agrees k l r row held own)
    | inr passed ↦ ground (arith, passed, find_rewritten rows other)
  ]

pub find_added :
    (l : AccountKey) (row : AccountRow) (rows : List AccountRow)
    → has_key l row ≡ false
    → find_first (has_key l) (rows ++ row ∷ []) ≡ find_first (has_key l) rows
find_added l row [] other = ground (arith, other)
find_added l row (r ∷ rows) other = ground (arith, find_added l row rows other)

pub find_new :
    (k : AccountKey) (row : AccountRow) (rows : List AccountRow)
    → find_first (has_key k) rows ≡ none
    → has_key k row ≡ true
    → find_first (has_key k) (rows ++ row ∷ []) ≡ some row
find_new k row [] free own = ground (arith, own)
find_new k row (r ∷ rows) free own = ground (arith, find_new k row rows)

-- Two keys of one row are keys of the same rows.
same_rows :
    (k l : AccountKey) (row : AccountRow)
    → has_key k row ≡ true
    → has_key l row ≡ true
    → (r : AccountRow) → has_key l r ≡ has_key k r
same_rows k l row h i r = ground (
  arith,
  h,
  i,
  eq_iff row.provider_account_id k.provider_account_id,
  eq_iff row.provider_account_id l.provider_account_id,
  same_provider_sound row.account.provider k.provider,
  same_provider_sound row.account.provider l.provider,
)

pub count_same :
    (k l : AccountKey) (row : AccountRow)
    → has_key k row ≡ true
    → has_key l row ≡ true
    → (rows : List AccountRow) → count_if (has_key l) rows ≡ count_if (has_key k) rows
count_same k l row h i [] = refl
count_same k l row h i (r ∷ rows) =
    ground (arith, same_rows k l row h i r, count_same k l row h i rows)

-- One row for each workspace, provider and account of the provider.
abbrev pub AccountsAreUnique : List AccountRow → Type 0
AccountsAreUnique rows = (l : AccountKey) → count_if (has_key l) rows ≤ 1
