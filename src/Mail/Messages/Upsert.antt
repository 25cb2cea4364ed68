-- ===== src/Mail/Messages/Upsert.antt =====
-- What `upsert_message` and `mark_deleted` do to the table of messages.
use mail_control.Base.{
  ℕ, ◌≤◌, ◌≡◌, String, Bool, true, false, ◌&&◌, Option, none, some, List, [], ◌∷◌, ◌++◌, ◌==◌, same,
  arith, refl, eq_iff, same_self, ==_self, if◌then◌else◌, find_first, update_first, update_where,
  is_none, is_some, or_else, count_if, All, All-append, All-update_first, All-update_where,
  Bool-cases, Option-cases, inl, inr, count_if-append, count_if-find_first, find_first_passes,
  find_first-update_first,
}
use mail_control.Mail.Messages.{
  EmailMessage, MessageValues, MailDb, is_message, inserted, merged, upsert_message, mark_deleted,
}

-- One row for each account and provider message.
abbrev pub MessagesAreUnique : List EmailMessage → Type 0
MessagesAreUnique ms = (a : ℕ) (i : String) → count_if (is_message a i) ms ≤ 1

-- What the user sees is the local choice where there is one, and the provider's state elsewhere.
pub record IsConsistent (m : EmailMessage) : Type 0 where
  pub read : m.is_read ≡ or_else m.local_is_read m.provider_is_read
  pub starred : m.is_starred ≡ or_else m.local_is_starred m.provider_is_starred
  pub box : m.mailbox ≡ or_else m.local_mailbox m.provider_mailbox

merged-IsConsistent : (v : MessageValues) (m : EmailMessage) → IsConsistent (merged v m)
merged-IsConsistent v m = record { read = refl; starred = refl; box = refl }

count_if-merged :
    (v : MessageValues) (a : ℕ) (i : String) (p : EmailMessage → Bool) (ms : List EmailMessage)
    → count_if (is_message a i) (update_first p (merged v) ms) ≡ count_if (is_message a i) ms
count_if-merged v a i p [] = refl
count_if-merged v a i p (m ∷ ms) = ground (arith, count_if-merged v a i p ms)

count_if-deleted :
    (t : ℕ) (a : ℕ) (i : String) (p : EmailMessage → Bool) (ms : List EmailMessage)
    → count_if (is_message a i) (update_where p (λ m. record m { deleted_at = some t }) ms)
      ≡ count_if (is_message a i) ms
count_if-deleted t a i p [] = refl
count_if-deleted t a i p (m ∷ ms) = ground (arith, count_if-deleted t a i p ms)

-- Neither write makes a second row for a message.
pub upsert-MessagesAreUnique :
    (v : MessageValues) (db : MailDb)
    → MessagesAreUnique db.messages
    → MessagesAreUnique (upsert_message v db).0.messages
unfolding upsert_message
upsert-MessagesAreUnique v db h a i = ground (
  arith,
  h a i,
  eq_iff v.message_id i,
  count_if-merged v a i (is_message v.account v.message_id) db.messages,
  count_if-append (is_message a i) db.messages (inserted db.next_id v ∷ []),
  count_if-find_first (is_message v.account v.message_id) db.messages,
)

pub mark_deleted-MessagesAreUnique :
    (account : ℕ) (id : String) (t : ℕ) (db : MailDb)
    → MessagesAreUnique db.messages
    → MessagesAreUnique (mark_deleted account id t db).messages
unfolding mark_deleted
mark_deleted-MessagesAreUnique account id t db h a i =
    omega (arith, h a i, count_if-deleted t a i (is_message account id) db.messages)

-- Both writes keep what the user sees in step with the local choices.
pub upsert-IsConsistent :
    (v : MessageValues) (db : MailDb)
    → All IsConsistent db.messages
    → All IsConsistent (upsert_message v db).0.messages
unfolding upsert_message
upsert-IsConsistent v db h =
    let p = is_message v.account v.message_id in
    elim (Bool-cases (is_some (find_first p db.messages))) [
      | inl old ↦ rw old (
          All-update_first IsConsistent p (merged v) (λ m k. merged-IsConsistent v m) db.messages h)
      | inr new ↦ rw new (
          All-append IsConsistent db.messages (inserted db.next_id v ∷ []) h
            (record { read = refl; starred = refl; box = refl }, tt))
    ]

pub mark_deleted-IsConsistent :
    (account : ℕ) (id : String) (t : ℕ) (db : MailDb)
    → All IsConsistent db.messages
    → All IsConsistent (mark_deleted account id t db).messages
unfolding mark_deleted
mark_deleted-IsConsistent account id t db h =
    All-update_where IsConsistent (is_message account id) (λ m. record m { deleted_at = some t })
      (λ m k. record { read = k.read; starred = k.starred; box = k.box }) db.messages h

find_merged_other :
    (v : MessageValues) (a : ℕ) (i : String) (ms : List EmailMessage)
    → (a == v.account && same v.message_id i) ≡ false
    → find_first (is_message a i) (update_first (is_message v.account v.message_id) (merged v) ms)
      ≡ find_first (is_message a i) ms
find_merged_other v a i [] h = refl
find_merged_other v a i (m ∷ ms) h = ground (
  arith,
  eq_iff m.provider_message_id v.message_id,
  eq_iff m.provider_message_id i,
  eq_iff v.message_id i,
  find_merged_other v a i ms,
)

find_append_other :
    (v : MessageValues) (id a : ℕ) (i : String) (ms : List EmailMessage)
    → (a == v.account && same v.message_id i) ≡ false
    → find_first (is_message a i) (ms ++ inserted id v ∷ []) ≡ find_first (is_message a i) ms
find_append_other v id a i [] h = ground arith
find_append_other v id a i (m ∷ ms) h = ground (arith, find_append_other v id a i ms)

find_append_new :
    (v : MessageValues) (id : ℕ) (ms : List EmailMessage)
    → find_first (is_message v.account v.message_id) ms ≡ none
    → find_first (is_message v.account v.message_id) (ms ++ inserted id v ∷ [])
      ≡ some (inserted id v)
find_append_new v id [] h = ground (arith, same_self v.message_id, ==_self v.account)
find_append_new v id (m ∷ ms) h = ground (arith, find_append_new v id ms)

-- The row that a message has after an upsert of the values `v`.
abbrev pub upserted : MessageValues → MailDb → Option EmailMessage → EmailMessage
upserted v db none = inserted db.next_id v
upserted v db (some m) = merged v m

find_own :
    (v : MessageValues) (db : MailDb)
    → find_first (is_message v.account v.message_id) (upsert_message v db).0.messages
      ≡ some (upserted v db (find_first (is_message v.account v.message_id) db.messages))
unfolding upsert_message
find_own v db = elim (Option-cases (find_first (is_message v.account v.message_id) db.messages)) [
  | inl new ↦ ground (arith, find_append_new v db.next_id db.messages)
  | inr (m, old) ↦ ground (
    arith,
    old,
    find_first_passes (is_message v.account v.message_id) m db.messages,
    find_first-update_first (is_message v.account v.message_id) (merged v) m db.messages,
  )
]

find_here :
    (v : MessageValues) (db : MailDb) (a : ℕ) (i : String)
    → (a == v.account && same v.message_id i) ≡ true
    → find_first (is_message a i) (upsert_message v db).0.messages ≡ (
        if a == v.account && same v.message_id i
        then some (upserted v db (find_first (is_message v.account v.message_id) db.messages))
        else find_first (is_message a i) db.messages)
find_here v db a i h =
    let is_a : a ≡ v.account = ground (arith, h) in
    let is_i : v.message_id ≡ i = ground (arith, h, eq_iff v.message_id i) in
    rw (h, is_a, ← is_i) (find_own v db)

-- An upsert writes the row of its own message, and says whether that is new; the rows of all other
-- messages, and of other accounts, stay as they are.
pub find-upsert :
    (v : MessageValues) (db : MailDb) (a : ℕ) (i : String)
    → let old = find_first (is_message v.account v.message_id) db.messages in
      (find_first (is_message a i) (upsert_message v db).0.messages ≡ (
        if a == v.account && same v.message_id i
        then some (upserted v db old)
        else find_first (is_message a i) db.messages))
      × ((upsert_message v db).1 ≡ is_none old)
unfolding upsert_message
find-upsert v db a i = elim (Bool-cases (a == v.account && same v.message_id i)) [
  | inr elsewhere ↦ (
    ground (
      arith,
      find_merged_other v a i db.messages,
      find_append_other v db.next_id a i db.messages,
    ),
    ground arith,
  )
  | inl here ↦ (find_here v db a i here, ground arith)
]
