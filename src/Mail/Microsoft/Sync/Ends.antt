-- ===== src/Mail/Microsoft/Sync/Ends.antt =====
-- When the loops over folders have enough fuel.
use mail_control.Base.{
  true, sym, ◌∙◌, ℕ, zero, suc, ◌+◌, ◌≤◌, ◌≡◌, refl, ap, String, false, Option, none, some, List,
  [], ◌∷◌, ◌++◌, arith, Option-cases, inl, inr, truthy_opt, or_else, filter_by, filter_by-append,
}
use mail_control.Base.Exec.{Result, ok, pure}
use mail_control.Mail.Gmail.Client.{SyncState}
use mail_control.Mail.Microsoft.Graph.{
  folders_path, Env, Fault, Folder, FolderPage, DeltaPage, child_path, request, folders,
  folders_link,
}
use mail_control.Mail.Microsoft.Graph.Ends.{
  HasFuel, Ends, Ends-then, Ends-if, Ends-pure, Ends-weaken, Answered, request-Ends,
}
use mail_control.Mail.Microsoft.Sync.{
  has_children, pop, list_folders, list_children, walk, all_folders,
}

-- What is still to be asked for the children of the folders of a queue, where `size link` bounds the
-- requests for a link.
abbrev pub weight : (String → ℕ) → List Folder → ℕ
weight size [] = 0
weight size (f ∷ fs) = size (child_path f.id) + 1 + weight size fs

-- The folders form a tree and their pages have an order: a page of folders, the pages after it and
-- the children of its folders are fewer than the size of its link; and the pages of the changes are
-- ranked, each above the next one that it names. The top folders' size and all ranks are below the
-- fuel.
pub record PagesEnd (env : Env) (fuel : ℕ) (size rank : String → ℕ) : Type 0 where
  pub folders :
      (n : ℕ) (link : String) (page : FolderPage)
      → env.graph.get_folders n link ≡ ok page
      → weight size (filter_by has_children page.value) + 1 ≤ size link
  pub more_folders :
      (n : ℕ) (link : String) (page : FolderPage)
      → env.graph.get_folders n link ≡ ok page
      → truthy_opt page.next_link ≡ true
      → weight size (filter_by has_children page.value)
          + size (or_else page.next_link String.[])
          + 1
        ≤ size link
  pub more_changes :
      (n : ℕ) (link : String) (page : DeltaPage)
      → env.graph.get_delta n link ≡ ok page
      → truthy_opt page.delta_link ≡ false
      → truthy_opt page.next_link ≡ true
      → rank (or_else page.next_link String.[]) + 1 ≤ rank link
  pub folders_fit : size folders_path + 1 ≤ fuel
  pub changes_fit : (link : String) → rank link + 1 ≤ fuel

weight-append :
    (size : String → ℕ) (fs gs : List Folder)
    → weight size (fs ++ gs) ≡ weight size fs + weight size gs
weight-append size [] gs = omega arith
weight-append size (f ∷ fs) gs = omega (arith, weight-append size fs gs)

pop-none : (queue : List Folder) → pop queue ≡ none → queue ≡ []
pop-none [] h = refl
pop-none (g ∷ rest) h = elim (Option-cases (pop rest)) [
  | inl e ↦ absurd (ground (arith, h, e))
  | inr (p, e) ↦ absurd (ground (arith, h, e))
]

pop-weight :
    (size : String → ℕ) (queue : List Folder) (f : Folder) (others : List Folder)
    → pop queue ≡ some (f, others)
    → weight size queue ≡ size (child_path f.id) + 1 + weight size others
pop-weight size [] f others h = absurd (ground (arith, h))
pop-weight size (g ∷ rest) f others h = elim (Option-cases (pop rest)) [
  | inl e ↦
      let p : (g ≡ f) × ([] ≡ others) = (ground (arith, h, e), ground (arith, h, e)) in
      rw (pop-none rest e, sym p.0, sym p.1) refl
  | inr ((last, kept), e) ↦
      let p : (last ≡ f) × (g ∷ kept ≡ others) = (ground (arith, h, e), ground (arith, h, e)) in
      rw (sym p.0, sym p.1) (omega (arith, pop-weight size rest last kept e))
]

module _ (env : Env) (bound : ℕ) (size rank : String → ℕ) (end : PagesEnd env bound size rank) where
  list_children_ends :
      (fuel : ℕ) (url : String) (found queue : List Folder) (s : SyncState)
      → size url + 1 ≤ fuel
      → Ends
          (list_children env fuel url found queue)
          s
          (λ r c. weight size r.1 ≤ weight size queue + size url)
  unfolding list_children
  list_children_ends zero url found queue s b = absurd (omega (arith, b))
  list_children_ends (suc fuel) url found queue s b =
      let call : ℕ → Result Fault FolderPage = λ n. env.graph.get_folders n url in
      Ends-then (request env call) _ s (Answered env call s.calls) _ (request-Ends env call s)
        (λ page t (c, e).
          let found' = found ++ page.value in
          let parents = filter_by has_children page.value in
          let queue' = queue ++ parents in
          let grown = weight-append size queue parents in
          Ends-if (truthy_opt page.next_link) _ (pure (found', queue')) t _
            (λ next.
              let lower = end.more_folders s.calls url page e next in
              Ends-weaken (list_children env fuel (or_else page.next_link String.[]) found' queue')
                t _ _
                (list_children_ends fuel (or_else page.next_link String.[]) found' queue' t
                  (omega (arith, lower, b)))
                (λ r d k. omega (arith, k, grown, lower)))
            (λ no.
              Ends-pure (found', queue') t _
                (omega (arith, grown, end.folders s.calls url page e))))

  walk_ends :
      (fuel : ℕ) (found queue : List Folder) (s : SyncState)
      → weight size queue + 1 ≤ fuel
      → Ends (walk env fuel found queue) s (λ r c. Unit {0})
  unfolding walk
  walk_ends zero found queue s b = absurd (omega (arith, b))
  walk_ends (suc fuel) found queue s b = elim (Option-cases (pop queue)) [
    | inl e ↦ rw (walk, e) (Ends-pure found s _ tt)
    | inr ((parent, others), e) ↦
        rw (walk, e)
          (let lighter = pop-weight size queue parent others e in
            Ends-then (list_children env fuel (child_path parent.id) found others) _ s _ _
              (list_children_ends fuel (child_path parent.id) found others s
                (omega (arith, b, lighter)))
              (λ r t k. walk_ends fuel r.0 r.1 t (omega (arith, b, k, lighter))))
  ]

  list_folders_ends :
      (fuel : ℕ) (link : Option String) (found : List Folder) (s : SyncState)
      → size (folders_link env link) + 1 ≤ fuel
      → Ends (list_folders env fuel link found) s (λ r c.
        weight size (filter_by has_children r)
        ≤ weight size (filter_by has_children found) + size (folders_link env link))
  unfolding list_folders folders
  list_folders_ends zero link found s b = absurd (omega (arith, b))
  list_folders_ends (suc fuel) link found s b =
      let url = folders_link env link in
      let call : ℕ → Result Fault FolderPage = λ n. env.graph.get_folders n url in
      Ends-then (request env call) _ s (Answered env call s.calls) _ (request-Ends env call s)
        (λ page t (c, e).
          let found' = found ++ page.value in
          let grown : weight size (filter_by has_children found')
              ≡ weight size (filter_by has_children found)
                + weight size (filter_by has_children page.value) =
            ap (weight size) (filter_by-append has_children found page.value)
            ∙ weight-append size (filter_by has_children found)
                (filter_by has_children page.value) in
          Ends-if (truthy_opt page.next_link) _ (pure found') t _
            (λ next.
              let lower = end.more_folders s.calls url page e next in
              let followed : size (folders_link env page.next_link)
                  ≡ size (or_else page.next_link String.[]) =
                rw next refl in
              Ends-weaken (list_folders env fuel page.next_link found') t _ _
                (list_folders_ends fuel page.next_link found' t (omega (arith, lower, followed, b)))
                (λ r d k. omega (arith, k, grown, lower, followed)))
            (λ no. Ends-pure found' t _ (omega (arith, grown, end.folders s.calls url page e))))

  pub all_folders_ends : (s : SyncState) → HasFuel (all_folders env bound) s
  unfolding all_folders
  all_folders_ends s =
      (Ends-then (list_folders env bound none [])
        (λ found. walk env bound found (filter_by has_children found)) s _ (λ r c. Unit {0})
        (list_folders_ends bound none [] s end.folders_fit)
        (λ found t k.
          walk_ends bound found (filter_by has_children found) t
            (omega (arith, end.folders_fit, k)))).fuel
