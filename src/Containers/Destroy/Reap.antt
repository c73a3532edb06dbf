-- ===== src/Containers/Destroy/Reap.antt =====
-- Destroying a container, and the empty containers above it.
use scrollfx.Prelude.{
  ℕ, suc, ◌<◌, ◌≤◌, ◌≡◌, ◌≢◌, refl, sym, ap, ◌∙◌, subst, List, [], ◌∷◌, ◌++◌, length, some, false,
  not, ◌&&◌, ◌==◌, if◌then◌else◌, is_neg, arith, Bool-cases, ◌⊎◌, inl, inr, ne→==,
}
use mathlib.Core.Option.{some-injective}
use scrollfx.Seq.{Ptr, find}
use scrollfx.Seq.Laws.{find_cases, delete-append}
use scrollfx.Tree.{update}
use scrollfx.Tree.Forest.{IsForest}
use scrollfx.Containers.{
  Store, con, tell, window_event, end_mouse, destroyed, is_workspace, container_fullscreen_disable,
}
use scrollfx.Containers.Forest.{Detached, detach-Detached}
use scrollfx.Containers.Unchanged.{if_tree, tell-tree, dirty-tree, disable-tree}
use scrollfx.Containers.Destroy.{
  is_global, is_view, leave_scratchpad, root_scratchpad_remove_container, begin_events,
  set_destroying, end_destroy, container_begin_destroy, reap,
}

cons_nil : {x : Ptr} {xs : List Ptr} → x ∷ xs ≢ []
cons_nil h = omega (arith, ap length h)

begin_events-tree : (c : Ptr) (s : Store) → (begin_events c s).tree ≡ s.tree
unfolding begin_events
begin_events-tree c s = if_tree _ _ _ s.tree (disable-tree c _ ∙ fullscreen_part) fullscreen_part
  where
    first_part : (if is_view c s then tell (window_event c) s else s).tree ≡ s.tree
    first_part = if_tree (is_view c s) _ s s.tree (tell-tree _ s) refl

    fullscreen_part :
        (let s1 = if is_view c s then tell (window_event c) s else s in
          let w = s1.tree.workspace c in
          if is_workspace (s1.mode c) && not (w == 0)
          then record s1 { fullscreen = update s1.fullscreen w 0 }
          else s1).tree
        ≡ s.tree
    fullscreen_part = if_tree _ _ _ s.tree first_part first_part

destroying-tree : (c : Ptr) (s : Store) → (set_destroying c s).tree ≡ s.tree
unfolding set_destroying
destroying-tree c s = dirty-tree (con c) s

-- Leaving the scratchpad never fails.
leave_scratchpad-tree :
    (c : Ptr) (s : Store)
    → is_neg (find s.scratchpad_list c) ≡ false
    → (s' : Store) × (leave_scratchpad c s ≡ some s') × (s'.tree ≡ s.tree)
unfolding leave_scratchpad
leave_scratchpad-tree c s h = elim (find_cases s.scratchpad_list c) [
  | inl (e, _) ↦ absurd (ground (arith, h, e))
  | inr (a, b, e, f, _) ↦
      let s1 = record s { scratchpad_list = a ++ b } in
      (
        tell (window_event c) s1,
        rw (f, delete-append s.scratchpad_list a b c (length a) e refl) refl,
        tell-tree (window_event c) s1,
      )
]

scratchpad_remove-tree :
    (c : Ptr) (s : Store)
    → (s' : Store) × (root_scratchpad_remove_container c s ≡ some s') × (s'.tree ≡ s.tree)
unfolding root_scratchpad_remove_container
scratchpad_remove-tree c s = elim (Bool-cases (s.scratchpad c)) [
  | inl inside ↦ elim (Bool-cases (is_neg (find s.scratchpad_list c))) [
    | inl gone ↦
        (record s { scratchpad = update s.scratchpad c false }, rw (inside, gone) refl, refl)
    | inr there ↦
        let (s', run, same) =
          leave_scratchpad-tree c (record s { scratchpad = update s.scratchpad c false }) there in
        (s', rw (inside, there) run, same)
  ]
  | inr outside ↦ (s, rw outside refl, refl)
]

maybe_remove-tree :
    (c : Ptr) (s : Store)
    → (s' : Store) × ((if s.scratchpad c then root_scratchpad_remove_container c s else some s)
        ≡ some s')
      × (s'.tree ≡ s.tree)
maybe_remove-tree c s = elim (Bool-cases (s.scratchpad c)) [
  | inl inside ↦ let (s', run, same) = scratchpad_remove-tree c s in (s', rw inside run, same)
  | inr outside ↦ (s, rw outside refl, refl)
]

module _ (rank : Ptr → ℕ) (fuel : ℕ) (c : Ptr) (nz : c ≢ 0) (enough : rank c < fuel) where
  off_false :
      (s : Store)
      → s.tree.workspace c ≢ 0
      → ((s.tree.parent c == 0) && (s.tree.workspace c == 0)) ≡ false
  off_false s on = rw (ne→== (s.tree.workspace c) 0 on) (ground arith)

  end_destroy-Detached :
      (s s1 : Store)
      → s1 ≡ (if is_global (s.mode c) then container_fullscreen_disable c s else s)
      → IsForest s.tree rank
      → s.tree.workspace c ≢ 0
      → (s' : Store) × (end_destroy fuel c s ≡ some s') × Detached c rank s.tree s'.tree
  unfolding end_destroy
  end_destroy-Detached s s1 e forest on =
      let same =
        ap (λ u. u.tree) e ∙ if_tree (is_global (s.mode c)) _ s s.tree (disable-tree c s) refl in
      let on1 = λ (z : s1.tree.workspace c ≡ 0). on (sym (ap (λ t. t.workspace c) same) ∙ z) in
      let (s', run, detached) =
        detach-Detached rank fuel c nz enough s1 (subst (λ t. IsForest t rank) (sym same) forest)
          (λ _. on1) in
      (s', rw (← e, off_false s1 on1) run, subst (λ t. Detached c rank t s'.tree) same detached)

  module _ (s : Store) (forest : IsForest s.tree rank) (on : s.tree.workspace c ≢ 0) where
    -- `container_begin_destroy` of a container of a forest that has a workspace, and whose height is
    -- below the fuel, returns and leaves a forest in which the container has no parent and no
    -- workspace, and all others have the parents that they had.
    pub begin_destroy-Detached :
        (s' : Store) × (container_begin_destroy fuel c s ≡ some s') × Detached c rank s.tree s'.tree
    unfolding container_begin_destroy
    begin_destroy-Detached =
        let s1 = set_destroying c (tell (end_mouse c) (tell (destroyed c) (begin_events c s))) in
        let same1 = destroying-tree c _ ∙ tell-tree _ _ ∙ tell-tree _ _ ∙ begin_events-tree c s in
        let (s2, run2, same2) = maybe_remove-tree c s1 in
        let same = same2 ∙ same1 in
        let (s3, run3, detached) =
          end_destroy-Detached s2 _ refl (subst (λ t. IsForest t rank) (sym same) forest)
            (λ z. on (sym (ap (λ t. t.workspace c) same) ∙ z)) in
        (s3, rw (run2, run3) refl, subst (λ t. Detached c rank t s3.tree) same detached)

module _ (rank : Ptr → ℕ) (height fuel : ℕ) (bound : (q : Ptr) → rank q < height)
    (deep : height ≤ fuel) (w : Ptr) where
  -- What the loop leaves: no container has a new parent, and the first one is away if it was empty.
  abbrev Result : ℕ → Ptr → Store → Type 0
  Result n c s =
      (s' : Store) × (reap n fuel w c s ≡ some s')
      × IsForest s'.tree rank
      × ((q : Ptr) → (s'.tree.parent q ≡ s.tree.parent q) ⊎ (s'.tree.parent q ≡ 0))
      × (s.tree.children c ≡ some [] → s'.tree.parent c ≡ 0)

  module _ (n : ℕ) (c : Ptr) (nz : c ≢ 0) (s : Store) where
    keeps :
        (x : Ptr) (xs : List Ptr)
        → s.tree.children c ≡ some (x ∷ xs)
        → IsForest s.tree rank
        → Result (suc n) c s
    unfolding reap
    keeps x xs list forest = (
      s,
      rw (ne→== c 0 nz, list) refl,
      forest,
      λ q. inl refl,
      λ z. absurd (cons_nil (some-injective (x ∷ xs) [] (sym list ∙ z))),
    )
