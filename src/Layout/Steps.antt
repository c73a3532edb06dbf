-- ===== src/Layout/Steps.antt =====
-- `layout_move_container_mode`: the loop over the ancestors.
use scrollfx.Prelude.{
  ℕ, zero, suc, ◌+◌, ◌<◌, ◌≡◌, ◌≢◌, refl, sym, ap, subst, ◌∙◌, inl, inr, List, ◌∷◌, ◌++◌, ◌≤◌, ◌⊎◌,
  some, none, Bool, true, false, not, ◌||◌, ◌==◌, ◌>>=◌, pos, length, length-append, arith, ne→==,
  Bool-cases, ==_iff,
}
use mathlib.Core.Option.{some-injective}
use mathlib.Core.Bool.{true≢false}
use scrollfx.Seq.{Ptr, find, insert, delete}
use scrollfx.Seq.Laws.{Absent, find_cases, find-append, delete-append}
use scrollfx.Tree.{items, put_items, container_get_siblings}
use scrollfx.Tree.Count.{count, count-append, count-Absent, insert-count}
use scrollfx.Tree.Walk.{ne_of_==}
use scrollfx.Tree.Forest.{IsForest}
use scrollfx.Tree.Reorder.{reorder-IsForest, siblings-items}
use scrollfx.Containers.{
  FullscreenMode, fullscreen_none, fullscreen_workspace, fullscreen_global, Store, is_none,
  container_is_floating,
}
use scrollfx.Containers.Unchanged.{if_tree, dirty-tree}
use scrollfx.Layout.{
  Direction, Layouts, desired_index, layout_around, target_index, marked,
  layout_move_container_mode,
}
use scrollfx.Layout.Moves.{Moves, tested}
use scrollfx.Layout.Moves.Desired.{desired-Found}

-- A container that is among its siblings, between `a` and `b`.
abbrev pub StandsBetween : Store → Ptr → List Ptr → List Ptr → Type 0
StandsBetween s c a b =
    (items s.tree (container_get_siblings s.tree c) ≡ some (a ++ c ∷ b)) × Absent c a

-- Neither fullscreen nor floating
abbrev pub IsLoose : Store → Ptr → Type 0
IsLoose s c = (s.mode c ≡ fullscreen_none) × (container_is_floating c s ≡ false)

-- What the loop leaves, from a container up. Above the last one, and at one that is fullscreen or
-- floating, nothing has changed. One that can move in the direction has moved, and where it cannot,
-- it depends on its parent.
pub data Outcome (l : Layouts) (dir : Direction) (s : Store) : Ptr → Store → Bool → Type 0 where
  over : Outcome l dir s 0 s false
  blocked : (c : Ptr) → c ≢ 0 → ¬ IsLoose s c → Outcome l dir s c s false
  shifted :
      (c : Ptr) (a b zs : List Ptr)
      → c ≢ 0
      → IsLoose s c
      → StandsBetween s c a b
      → Moves l.handler_mode dir (layout_around l c s) a b c zs
      → Outcome l dir s c
          (marked l c (record s { tree = put_items s.tree (container_get_siblings s.tree c) zs }))
          true
  higher :
      (c : Ptr) (a b : List Ptr) (s' : Store) (moved : Bool)
      → c ≢ 0
      → IsLoose s c
      → StandsBetween s c a b
      → ((zs : List Ptr) → ¬ Moves l.handler_mode dir (layout_around l c s) a b c zs)
      → Outcome l dir s (s.tree.parent c) s' moved
      → Outcome l dir s c s' moved

-- The index of the move among the siblings.
target-Found :
    (l : Layouts) (dir : Direction) (c : Ptr) (a b : List Ptr) (s : Store)
    → Absent c a
    → ((target_index l dir c (a ++ c ∷ b) s ≡ none)
        × ((zs : List Ptr) → ¬ Moves l.handler_mode dir (layout_around l c s) a b c zs))
      ⊎ ((d : ℕ) × (zs : List Ptr) × (target_index l dir c (a ++ c ∷ b) s ≡ some (pos d))
          × (d ≤ length (a ++ b))
          × (insert (a ++ b) (pos d) c ≡ some zs)
          × Moves l.handler_mode dir (layout_around l c s) a b c zs)
unfolding target_index
target-Found l dir c a b s absent =
    let kind = layout_around l c s in
    let at_c =
      ap
        (λ z.
          tested (length (a ++ c ∷ b))
            (desired_index dir kind l.handler_mode (length (a ++ c ∷ b)) z))
        (find-append a b c absent) in
    elim (desired-Found a b c l.handler_mode dir kind) [
      | inl (run, stuck) ↦ inl (at_c ∙ run, stuck)
      | inr (d, zs, run, within, put, moves) ↦ inr (
        d,
        zs,
        at_c ∙ run,
        omega (arith, within, length-append a b, length-append a (c ∷ b)),
        put,
        moves,
      )
    ]

-- Taking an item out and putting it back somewhere else: the counts are as before.
again-count :
    (a b zs : List Ptr) (c : Ptr) (d : ℕ)
    → insert (a ++ b) (pos d) c ≡ some zs
    → d ≤ length (a ++ b)
    → (q : Ptr) → count q zs ≡ count q (a ++ c ∷ b)
again-count a b zs c d put within q =
    let (ys, run, counts) = insert-count (a ++ b) d c within in
    let same = some-injective ys zs (sym run ∙ put) in
    omega (arith, ap (count q) same, counts q, count-append q a b, count-append q a (c ∷ b))

-- A container that stays, stays in the tree as it was.
marked-tree : (l : Layouts) (c : Ptr) (s : Store) → (marked l c s).tree ≡ s.tree
unfolding marked
marked-tree l c s =
    if_tree (s.tree.parent c == 0) _ _ s.tree (dirty-tree _ s) (dirty-tree _ _ ∙ dirty-tree _ _)

module _ (l : Layouts) (dir : Direction) (s : Store) (rank : Ptr → ℕ)
    (forest : IsForest s.tree rank) where
  abbrev Result : ℕ → Ptr → Type 0
  Result fuel c =
      (s' : Store) × (b : Bool) × (layout_move_container_mode l fuel dir c s ≡ some (s', b))
      × Outcome l dir s c s' b
      × IsForest s'.tree rank
      × (s'.tree.parent ≡ s.tree.parent)
      × (s'.tree.workspace ≡ s.tree.workspace)

  at_root : (fuel : ℕ) → 0 < fuel → Result fuel 0
  unfolding layout_move_container_mode
  at_root zero h = absurd (omega (arith, h))
  at_root (suc fuel) h = (s, false, refl, over, forest, refl, refl)

  module _ (fuel : ℕ) (c : Ptr) (nz : c ≢ 0) (on : s.tree.workspace c ≢ 0) where
    stops : (not (is_none (s.mode c)) || container_is_floating c s) ≡ true → Result (suc fuel) c
    unfolding layout_move_container_mode
    stops h = (
      s,
      false,
      rw (ne→== c 0 nz, h) refl,
      blocked c nz (not_loose (s.mode c) h),
      forest,
      refl,
      refl,
    )
      where
        not_loose :
            (m : FullscreenMode)
            → (not (is_none m) || container_is_floating c s) ≡ true
            → ¬ ((m ≡ fullscreen_none) × (container_is_floating c s ≡ false))
        not_loose m h (plain, sits) =
            true≢false (sym h ∙ ap (λ k. not (is_none k) || container_is_floating c s) plain ∙ sits)

    loose :
        (m : FullscreenMode)
        → (not (is_none m) || container_is_floating c s) ≡ false
        → (m ≡ fullscreen_none) × (container_is_floating c s ≡ false)
    loose fullscreen_none h = (refl, h)
    loose fullscreen_workspace h = absurd (true≢false h)
    loose fullscreen_global h = absurd (true≢false h)

    module _ (here : (not (is_none (s.mode c)) || container_is_floating c s) ≡ false)
        (a b : List Ptr) (list : items s.tree (container_get_siblings s.tree c) ≡ some (a ++ c ∷ b))
        (absent : Absent c a) where
      goes_on :
          target_index l dir c (a ++ c ∷ b) s ≡ none
          → ((zs : List Ptr) → ¬ Moves l.handler_mode dir (layout_around l c s) a b c zs)
          → Result fuel (s.tree.parent c)
          → Result (suc fuel) c
      unfolding layout_move_container_mode
      goes_on h stuck (s', moved, run, outcome, forest', up', over') = (
        s',
        moved,
        rw (ne→== c 0 nz, here, list, ◌>>=◌, h) run,
        higher c a b s' moved nz (loose (s.mode c) here) (list, absent) stuck outcome,
        forest',
        up',
        over',
      )

      cut : delete (a ++ c ∷ b) (find (a ++ c ∷ b) c) ≡ some (a ++ b)
      cut =
          ap (delete (a ++ c ∷ b)) (find-append a b c absent)
          ∙ delete-append (a ++ c ∷ b) a b c (length a) refl refl

      shifts :
          (d : ℕ) (zs : List Ptr)
          → target_index l dir c (a ++ c ∷ b) s ≡ some (pos d)
          → insert (a ++ b) (pos d) c ≡ some zs
          → d ≤ length (a ++ b)
          → Moves l.handler_mode dir (layout_around l c s) a b c zs
          → Result (suc fuel) c
      unfolding layout_move_container_mode
      shifts d zs h put within moves =
          let place = container_get_siblings s.tree c in
          let s1 = record s { tree = put_items s.tree place zs } in
          let (forest', up', over') =
            reorder-IsForest s.tree rank forest (a ++ c ∷ b) zs (again-count a b zs c d put within)
              place list in
          let still_tree = marked-tree l c s1 in
          (
            marked l c s1,
            true,
            rw (ne→== c 0 nz, here, list, ◌>>=◌, h, cut, put) refl,
            shifted c a b zs nz (loose (s.mode c) here) (list, absent) moves,
            subst (λ t. IsForest t rank) (sym still_tree) forest',
            ap (λ t. t.parent) still_tree ∙ up',
            ap (λ t. t.workspace) still_tree ∙ over',
          )

  -- The place of a container among its siblings.
  between : (c : Ptr) → s.tree.workspace c ≢ 0 → (a b : List Ptr) × StandsBetween s c a b
  between c on =
      let (xs, list, holds) = siblings-items s.tree rank c forest.linked on in
      elim (find_cases xs c) [
        | inl (_, absent) ↦ absurd (holds (count-Absent c xs absent))
        | inr (a, b, e, f, absent) ↦ (a, b, (list ∙ ap some e, absent))
      ]

  -- `layout_move_container_mode` from a container of a workspace returns, when the fuel covers the
  -- containers above it, whose heights are below `height`. The first of the container and its
  -- parents that the direction can move among its siblings has moved there: to the left or right in
  -- a row, up or down in a column, past the sibling next to it, or to an end where its layout is the
  -- mode of the workspace. Nothing has changed when there is none, or when one that is fullscreen or
  -- floating comes before it. The tree stays a forest with the parents and workspaces that it had.
  pub move_container_mode-Outcome :
      (height : ℕ)
      → ((q : Ptr) → rank q < height)
      → (fuel : ℕ) (c : Ptr) → c ≢ 0
      → s.tree.workspace c ≢ 0
      → height < fuel + rank c
      → (s' : Store) × (b : Bool) × (layout_move_container_mode l fuel dir c s ≡ some (s', b))
        × Outcome l dir s c s' b
        × IsForest s'.tree rank
        × (s'.tree.parent ≡ s.tree.parent)
        × (s'.tree.workspace ≡ s.tree.workspace)
  move_container_mode-Outcome height bound zero c nz on enough =
      absurd (omega (arith, bound c, enough))
  move_container_mode-Outcome height bound (suc fuel) c nz on enough =
      elim (Bool-cases (not (is_none (s.mode c)) || container_is_floating c s)) [
        | inl stop ↦ stops fuel c nz on stop
        | inr here ↦
            let (a, b, (list, absent)) = between c on in
            elim (target-Found l dir c a b s absent) [
              | inl (none_there, stuck) ↦
                  goes_on fuel c nz on here a b list absent none_there stuck
                    (elim (Bool-cases (s.tree.parent c == 0)) [
                      | inl top ↦
                          subst (Result fuel) (sym ((==_iff (s.tree.parent c) 0).0 top))
                            (at_root fuel (omega (arith, bound c, enough)))
                      | inr below ↦
                          let p = s.tree.parent c in
                          let pz = ne_of_== p 0 below in
                          move_container_mode-Outcome height bound fuel p pz
                            (λ z. on (forest.shared c pz ∙ z))
                            (omega (arith, enough, forest.linked.below c pz))
                    ])
              | inr (d, zs, e, within, put, moves) ↦
                  shifts fuel c nz on here a b list absent d zs e put within moves
            ]
      ]
