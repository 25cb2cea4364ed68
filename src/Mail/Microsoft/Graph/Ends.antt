-- ===== src/Mail/Microsoft/Graph/Ends.antt =====
-- The calls of the Graph client end, and each is counted.
use mail_control.Base.{
  ℕ, ◌+◌, ◌≤◌, ◌≡◌, refl, subst, String, Bool, true, false, Option, none, some, List, [], ◌∷◌,
  arith, Bool-cases, inl, inr, if◌then◌else◌,
}
use mail_control.Base.Exec.{Result, ok, err, Result-cases, pure, ◌>>=◌}
use mail_control.Base.Exec.Avoids.{Avoids, Avoids-then, Avoids-pure}
use mail_control.Identity.Tokens.{append_text}
use mail_control.Mail.Messages.{Mailbox}
use mail_control.Mail.Gmail.Client.{SyncState}
use mail_control.Mail.Microsoft.Graph.{
  Env, Fault, Folder, DeltaPage, out_of_fuel, Sync, ask, or_fault, request, or_expired, delta,
  delta_link, is_gone, on_folder, well_known, known_folders, or_known, folder_mailboxes, is_missing,
}

-- The action does not run out of fuel in that state.
abbrev pub HasFuel : {A : Type 0} → Sync A → SyncState → Type 0
HasFuel m s = Avoids out_of_fuel m s

module _ (env : Env) where
  request_ends :
      {A : Type 0} (call : ℕ → Result Fault A) (s : SyncState) → HasFuel (request env call) s
  unfolding request ask or_fault
  request_ends call s = record {
    at = elim (Result-cases (call s.calls)) [
      | inl (a, e) ↦ rw (e, or_fault) (λ h. absurd (cc))
      | inr (x, e) ↦ rw (e, or_fault) (λ h. absurd (cc))
    ];
  }

  request_calls :
      {A : Type 0} (call : ℕ → Result Fault A) (s : SyncState)
      → (request env call s).1.calls ≡ s.calls + 1
  unfolding request ask or_fault
  request_calls call s = elim (Result-cases (call s.calls)) [
    | inl (a, e) ↦ rw (e, or_fault) refl
    | inr (x, e) ↦ rw (e, or_fault) refl
  ]

  request_answer :
      {A : Type 0} (call : ℕ → Result Fault A) (s : SyncState) (a : A)
      → (request env call s).0 ≡ ok a
      → call s.calls ≡ ok a
  unfolding request ask or_fault
  request_answer call s a h = elim (Result-cases (call s.calls)) [
    | inl (b, e) ↦ ground (arith, e, h)
    | inr (x, e) ↦ absurd (ground (arith, e, h))
  ]

  or_expired_ends :
      (r : Result Fault DeltaPage) (s : SyncState)
      → HasFuel (or_expired env r) s
        × ((or_expired env r s).1.calls ≡ s.calls)
        × ((page : DeltaPage) → (or_expired env r s).0 ≡ ok page → r ≡ ok page)
  unfolding or_expired
  or_expired_ends (ok page) s =
      (Avoids-pure page s, refl, λ p h. let e : page ≡ p = ground (arith, h) in rw e refl)
  or_expired_ends (err f) s = elim (Bool-cases (is_gone f.kind)) [
    | inl e ↦ rw e (record { at = λ h. absurd (cc) }, refl, λ p h. absurd (cc))
    | inr e ↦ rw e (record { at = λ h. absurd (cc) }, refl, λ p h. absurd (cc))
  ]

  delta_ends :
      (folder_id : String) (link : Option String) (s : SyncState)
      → HasFuel (delta env folder_id link) s
        × ((delta env folder_id link s).1.calls ≡ s.calls + 1)
        × ((page : DeltaPage)
            → (delta env folder_id link s).0 ≡ ok page
            → env.graph.get_delta s.calls (delta_link env folder_id link) ≡ ok page)
  unfolding delta ask
  delta_ends folder_id link s =
      let r = env.graph.get_delta s.calls (delta_link env folder_id link) in
      let (a, b, c) =
        or_expired_ends r
          (ask env (λ n. env.graph.get_delta n (delta_link env folder_id link)) s).1 in
      (record { at = a.at }, b, c)

  on_folder_ends :
      (mailbox : Mailbox) (result : List (String × Mailbox)) (r : Result Fault Folder)
      (s : SyncState)
      → HasFuel (on_folder env mailbox result r) s
  unfolding on_folder
  on_folder_ends mailbox result (ok folder) s = Avoids-pure _ s
  on_folder_ends mailbox result (err f) s = record {
    at = elim (Bool-cases (is_missing f.kind)) [
      | inl e ↦ rw e (λ h. absurd (cc))
      | inr e ↦ rw e (λ h. absurd (cc))
    ];
  }

  known_folders_ends :
      (names result : List (String × Mailbox)) (s : SyncState)
      → HasFuel (known_folders env names result) s
  unfolding known_folders ask
  known_folders_ends [] result s = Avoids-pure result s
  known_folders_ends ((name, mailbox) ∷ rest) result s =
      Avoids-then _ (known_folders env rest) s
        (record {
          at =
              (on_folder_ends mailbox result
                (env.graph.get_folder s.calls (append_text "/me/mailFolders/" name)) _).at;
        })
        (λ found e. known_folders_ends rest found _)

  or_known_ends :
      (cached : Option (List (String × Mailbox))) (s : SyncState) → HasFuel (or_known env cached) s
  unfolding or_known
  or_known_ends (some cached) s = Avoids-pure cached s
  or_known_ends none s = known_folders_ends well_known [] s

  pub folder_mailboxes_ends : (s : SyncState) → HasFuel (folder_mailboxes env) s
  unfolding folder_mailboxes
  folder_mailboxes_ends s = record { at = (or_known_ends (env.cached s.calls) s).at }

-- The action has fuel enough in that state, and its result and the number of calls after it satisfy
-- a condition.
pub record Ends {A : Type 0} (m : Sync A) (s : SyncState) (post : A → ℕ → Type 0) : Type 0 where
  pub fuel : HasFuel m s
  pub result : (a : A) → (m s).0 ≡ ok a → post a (m s).1.calls

pub Ends-then :
    {A B : Type 0} (m : Sync A) (f : A → Sync B) (s : SyncState) (p : A → ℕ → Type 0)
    (q : B → ℕ → Type 0)
    → Ends m s p
    → ((a : A) (t : SyncState) → p a t.calls → Ends (f a) t q)
    → Ends (m >>= f) s q
Ends-then m f s p q h k = record {
  fuel = Avoids-then m f s h.fuel (λ a e. (k a (m s).1 (h.result a e)).fuel);
  result = λ b r. elim (Result-cases (m s).0) [
    | inl (a, e) ↦ rw (e, ◌>>=◌) ((k a (m s).1 (h.result a e)).result b (rw (e, ◌>>=◌) at r))
    | inr (x, e) ↦ absurd (ground (arith, (rw (e, ◌>>=◌) at r)))
  ];
}

pub Ends-if :
    {A : Type 0} (b : Bool) (m n : Sync A) (s : SyncState) (p : A → ℕ → Type 0)
    → (b ≡ true → Ends m s p)
    → (b ≡ false → Ends n s p)
    → Ends (if b then m else n) s p
Ends-if true m n s p h k = h refl
Ends-if false m n s p h k = k refl

pub Ends-pure :
    {A : Type 0} (a : A) (s : SyncState) (p : A → ℕ → Type 0) → p a s.calls → Ends (pure a) s p
Ends-pure a s p h = record {
  fuel = Avoids-pure a s;
  result =
      λ b e. let same_value : a ≡ b = ground (arith, e) in subst (λ v. p v s.calls) same_value h;
}

pub Ends-weaken :
    {A : Type 0} (m : Sync A) (s : SyncState) (p q : A → ℕ → Type 0)
    → Ends m s p
    → ((a : A) (c : ℕ) → p a c → q a c)
    → Ends m s q
Ends-weaken m s p q h w = record { fuel = h.fuel; result = λ a e. w a _ (h.result a e) }

module _ (env : Env) where
  -- A call was made, and this is its answer.
  abbrev pub Answered : {A : Type 0} → (ℕ → Result Fault A) → ℕ → A → ℕ → Type 0
  Answered call before a after = (after ≡ before + 1) × (call before ≡ ok a)

  pub request-Ends :
      {A : Type 0} (call : ℕ → Result Fault A) (s : SyncState)
      → Ends (request env call) s (Answered call s.calls)
  request-Ends call s = record {
    fuel = request_ends env call s;
    result = λ a e. (request_calls env call s, request_answer env call s a e);
  }

  -- A step that ends and takes the number of calls only forward.
  abbrev pub Forward : {A : Type 0} → Sync A → SyncState → Type 0
  Forward m s = Ends m s (λ a c. s.calls ≤ c)

  -- The answer of `delta`.
  pub delta-Ends :
      (folder_id : String) (link : Option String) (s : SyncState)
      → Ends
          (delta env folder_id link)
          s
          (Answered (λ n. env.graph.get_delta n (delta_link env folder_id link)) s.calls)
  delta-Ends folder_id link s =
      let (a, b, c) = delta_ends env folder_id link s in
      record { fuel = a; result = λ page e. (b, c page e) }
