-- ===== src/Tests/Microsoft.antt =====
-- A synchronization with Microsoft at concrete inputs.
use mail_control.Base.{
  ℕ, zero, suc, String, if◌then◌else◌, same, or_else, ◌+◌, ◌≤◌, ◌≡◌, ◌≢◌, refl, arith, true, false,
  none, some, [], ◌∷◌, is_some, subst, filter_by, truthy_opt,
}
use mail_control.Base.Exec.{ok, err, is_ok}
use mail_control.Mail.Account.{microsoft, syncing, Store, update_account_state, MailAccount}
use mail_control.Mail.Messages.Sound.{HasSoundTables}
use mail_control.Mail.Gmail.Synchronize.{SyncInput, status_values}
use mail_control.Mail.Microsoft.Values.{GraphMessage}
use mail_control.Mail.Microsoft.Graph.{Env, Folder, FolderPage, DeltaPage, child_path, out_of_fuel}
use mail_control.Mail.Microsoft.Sync.{has_children}
use mail_control.Mail.Microsoft.Sync.Ends.{weight, PagesEnd}
use mail_control.Mail.Microsoft.Sync.Counted.{IsCounted}
use mail_control.Mail.Microsoft.Synchronize.{synchronize}
use mail_control.Mail.Microsoft.Synchronize.Tables.{microsoft_sound}
use mail_control.Mail.Microsoft.Synchronize.Outcome.{HasEnded, microsoft_outcome}
use mail_control.Mail.Microsoft.Synchronize.Ends.{microsoft_ends}
use mail_control.Tests.Mail.{account, tracked, database}

abbrev message : GraphMessage
message = record {
  id = "m9";
  is_removed = false;
  conversation_id = none;
  internet_message_id = none;
  sender_address = some "bank@example.com";
  to_recipients = none ∷ some "ana@example.com" ∷ [];
  cc_recipients = [];
  bcc_recipients = [];
  subject = some "Receipt";
  body_preview = none;
  received_date_time = none;
  parent_folder_id = some "f1";
  is_draft = false;
  is_read = false;
  flag_status = none;
  payload = "{}";
}

abbrev folders : FolderPage
folders = record { value = record { id = "f1"; child_folder_count = 0 } ∷ []; next_link = none }

abbrev changes : DeltaPage
changes = record { value = message ∷ []; next_link = none; delta_link = some "https://delta" }

abbrev pub env : Env
env = record {
  graph = record {
    get_folders = λ n link. ok folders;
    get_folder = λ n link. ok (record { id = "f1"; child_folder_count = 0 });
    get_delta = λ n link. ok changes;
    get_message = λ n id. ok message;
  };
  cached = λ n. none;
  from_iso = λ s. 0;
  world = λ n row. row;
  renewal = λ n. none;
  clock = λ n. n;
}

abbrev pub outlook : MailAccount
outlook = record account { provider = microsoft }

abbrev pub store : Store
store = record { row = outlook; tracked = record tracked { object = outlook } }

abbrev pub input : SyncInput
input = record { db = database; store = store; started_at = 7; calls = 0 }

sound : HasSoundTables database
sound = record {
  unique = λ a i. ground arith;
  consistent = (record { read = refl; starred = refl; box = refl }, tt);
  queued_once = λ id. omega arith;
}

microsoft_sound_example :
    HasSoundTables (synchronize env 2 input).1.db
    × (is_ok (synchronize env 2 input).0 ≡ true → IsCounted (synchronize env 2 input).1)
microsoft_sound_example = microsoft_sound env 2 input sound

begins : (update_account_state store (status_values syncing) none).1 ≡ true
unfolding update_account_state
begins = refl

microsoft_outcome_example :
    let (r, s) = synchronize env 2 input in
    HasEnded store.object.status r s.run s.store.row × (is_some s.run.finished_at ≡ true)
microsoft_outcome_example = microsoft_outcome env 2 input refl begins

-- Two pages of top folders, of which one has a child, and two pages of changes in each folder.
abbrev second_link : String
second_link = "https://graph.microsoft.com/second"

abbrev leaf : Folder
leaf = record { id = "f2"; child_folder_count = 0 }

abbrev branch : Folder
branch = record { id = "f1"; child_folder_count = 1 }

abbrev place : String → ℕ
place link = if same link second_link then 0 else if same link (child_path "f1") then 1 else 2

abbrev page_at : ℕ → FolderPage
page_at zero = record { value = []; next_link = none }
page_at (suc zero) = record { value = leaf ∷ []; next_link = none }
page_at (suc (suc n)) = record { value = branch ∷ []; next_link = some second_link }

abbrev size_at : ℕ → ℕ
size_at zero = 1
size_at (suc zero) = 1
size_at (suc (suc n)) = 4

abbrev changes_at : ℕ → DeltaPage
changes_at zero = changes
changes_at (suc n) = record {
  value = message ∷ [];
  next_link = some second_link;
  delta_link = none;
}

abbrev rank_at : ℕ → ℕ
rank_at zero = 0
rank_at (suc n) = 1

abbrev tree : Env
tree = record env {
  graph = record env.graph {
    get_folders = λ n link. ok (page_at (place link));
    get_delta = λ n link. ok (changes_at (place link));
  };
}

abbrev size : String → ℕ
size link = size_at (place link)

abbrev link_rank : String → ℕ
link_rank link = rank_at (place link)

page_fits : (n : ℕ) → weight size (filter_by has_children (page_at n).value) + 1 ≤ size_at n
page_fits zero = omega arith
page_fits (suc zero) = omega arith
page_fits (suc (suc n)) = omega arith

next_page_fits :
    (n : ℕ)
    → truthy_opt (page_at n).next_link ≡ true
    → weight size (filter_by has_children (page_at n).value)
        + size (or_else (page_at n).next_link String.[])
        + 1
      ≤ size_at n
next_page_fits zero h = absurd (cc)
next_page_fits (suc zero) h = absurd (cc)
next_page_fits (suc (suc n)) h = omega arith

next_changes_fit :
    (n : ℕ)
    → truthy_opt (changes_at n).next_link ≡ true
    → link_rank (or_else (changes_at n).next_link String.[]) + 1 ≤ rank_at n
next_changes_fit zero h = absurd (cc)
next_changes_fit (suc n) h = omega arith

rank_fits : (n : ℕ) → rank_at n + 1 ≤ 5
rank_fits zero = omega arith
rank_fits (suc n) = omega arith

pages : PagesEnd tree 5 size link_rank
pages = record {
  folders = λ n link page h.
      let e : page_at (place link) ≡ page = ground (arith, h) in
      subst (λ p. weight size (filter_by has_children p.value) + 1 ≤ size link) e
        (page_fits (place link));
  more_folders = λ n link page h.
      let e : page_at (place link) ≡ page = ground (arith, h) in
      subst
        (λ p.
          truthy_opt p.next_link ≡ true
          → weight size (filter_by has_children p.value) + size (or_else p.next_link String.[]) + 1
            ≤ size link)
        e (next_page_fits (place link));
  more_changes = λ n link page h.
      let e : changes_at (place link) ≡ page = ground (arith, h) in
      subst
        (λ p.
          truthy_opt p.delta_link ≡ false
          → truthy_opt p.next_link ≡ true
          → link_rank (or_else p.next_link String.[]) + 1 ≤ link_rank link)
        e (λ no_delta. next_changes_fit (place link));
  folders_fit = omega arith;
  changes_fit = λ link. rank_fits (place link);
}

microsoft_ends_example : (synchronize tree 5 input).0 ≢ err out_of_fuel
microsoft_ends_example = microsoft_ends tree 5 size link_rank pages input
