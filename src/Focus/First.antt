-- ===== src/Focus/First.antt =====
-- The searches of the focus stack: each finds the first node that fits.
use scrollfx.Prelude.{
  ℕ, ◌+◌, ◌<◌, ◌≤◌, ◌≡◌, ◌≢◌, refl, sym, ap, ◌∙◌, subst, List, [], ◌∷◌, ◌++◌, Option, none, some,
  ◌>>=◌, Bool, true, false, if◌then◌else◌, arith, Bool-cases, inl, inr, ◌⊎◌,
}
use mathlib.Core.Bool.{true≢false}
use scrollfx.Seq.{Ptr}
use scrollfx.Tree.Forest.{IsForest}
use scrollfx.Tree.Count.{one}
use scrollfx.Containers.{Node, con, ws, eq_node, Store}
use scrollfx.Containers.Dirty.{occurrences, eq_of_node}
use scrollfx.Focus.{
  AnyNode, inner, output_node, root_node, Seat, Desk, first_node, node_is_view, node_has_ancestor,
  view_below, workspace_or_null, seat_get_focus_inactive, seat_get_focus_inactive_view,
  seat_get_focused_workspace,
}
use scrollfx.Focus.Climb.{IsUnder, Decides, steps, has_ancestor-Decides}

-- The first node with a property is found, or there is none.
pub IsFirst : (Node → Type 0) → List Node → Option Node → Type 0
IsFirst P ns o =
    ((o ≡ none) × ((m : Node) → occurrences m ns ≢ 0 → ¬ P m))
    ⊎ ((before after : List Node) × (m : Node) × (o ≡ some m)
        × (ns ≡ before ++ m ∷ after)
        × P m
        × ((k : Node) → occurrences k before ≢ 0 → ¬ P k))

-- A node of a list is its first one or stands behind it.
either :
    (P : Node → Type 0) (n : Node) (ns : List Node)
    → ¬ P n
    → ((m : Node) → occurrences m ns ≢ 0 → ¬ P m)
    → (m : Node) → occurrences m (n ∷ ns) ≢ 0
    → ¬ P m
either P n ns first others m h = elim (Bool-cases (eq_node n m)) [
  | inl same ↦ subst (λ x. ¬ P x) (eq_of_node n m same) first
  | inr other ↦ others m (λ z. h (omega (arith, z, ap one other)))
]

module _ (d : Desk) (s : Store) where
  pub first_node-IsFirst :
      (P : Node → Type 0) (test : Node → Option Bool)
      → ((n : Node) → Decides d s (P n) (test n))
      → (ns : List Node) → (o : Option Node) × (first_node test ns ≡ some o) × IsFirst P ns o
  unfolding first_node IsFirst
  first_node-IsFirst P test right [] = (none, refl, inl (refl, λ m h. absurd (h refl)))
  first_node-IsFirst P test right (n ∷ ns) = elim (right n) [
    | inl (hit, holds) ↦ (
      some n,
      ap (λ t. t >>= λ found. if found then some (some n) else first_node test ns) hit,
      inr ([], ns, n, refl, refl, holds, λ k h. absurd (h refl)),
    )
    | inr (miss, fails) ↦
        let (o, run, first) = first_node-IsFirst P test right ns in
        let go =
          ap (λ t. t >>= λ found. if found then some (some n) else first_node test ns) miss ∙ run in
        elim first [
          | inl (nothing, all) ↦ (o, go, inl (nothing, either P n ns fails all))
          | inr (before, after, m, found, split, holds, earlier) ↦ (
            o,
            go,
            inr (
              n ∷ before,
              after,
              m,
              found,
              ap (λ l. n ∷ l) split,
              holds,
              either P n before fails earlier,
            ),
          )
        ]
  ]

  module _ (rank : Ptr → ℕ) (forest : IsForest s.tree rank) (high : ℕ)
      (bound : (q : Ptr) → rank q ≤ high) (fuel : ℕ) (enough : high + 3 < fuel) where
    steps_enough : (n : Node) → steps d s rank forest high bound (inner n) < fuel
    steps_enough (con c) = omega (arith, enough)
    steps_enough (ws w) = omega (arith, enough)

    pub below-Decides :
        (a : AnyNode) (n : Node)
        → Decides d s (IsUnder d s a (inner n)) (node_has_ancestor d fuel (inner n) a s)
    below-Decides a n =
        has_ancestor-Decides d s rank forest high bound fuel (inner n) a (steps_enough n)

    -- A view below the node `a`.
    abbrev pub IsViewUnder : AnyNode → Node → Type 0
    IsViewUnder a n = (node_is_view n s ≡ true) × IsUnder d s a (inner n)

    view-Decides :
        (a : AnyNode) (n : Node) → Decides d s (IsViewUnder a n) (view_below d fuel a s n)
    unfolding view_below
    view-Decides a n = elim (Bool-cases (node_is_view n s)) [
      | inr no_view ↦ inr (rw no_view refl, λ (view, under). true≢false (sym view ∙ no_view))
      | inl view ↦ elim (below-Decides a n) [
        | inl (run, under) ↦ inl (rw view run, (view, under))
        | inr (run, not_under) ↦ inr (rw view run, λ (v, under). not_under under)
      ]
    ]

    views-IsFirst :
        (a : AnyNode) (ns : List Node)
        → (o : Option Node) × (first_node (view_below d fuel a s) ns ≡ some o)
          × IsFirst (IsViewUnder a) ns o
    views-IsFirst a ns =
        first_node-IsFirst (IsViewUnder a) (view_below d fuel a s) (view-Decides a) ns

module _ (d : Desk) (t : Seat) (rank : Ptr → ℕ) (forest : IsForest t.store.tree rank) (high : ℕ)
    (bound : (q : Ptr) → rank q ≤ high) (fuel : ℕ) (enough : high + 3 < fuel) where
  -- In a forest whose heights are at most `high`, with more fuel than that and three more,
  -- `seat_get_focus_inactive_view` of a node that is not a view returns. It finds the first view
  -- of the focus stack that is below the node, and NULL exactly when there is none.
  pub inactive_view-IsFirst :
      (a : AnyNode)
      → ((n : Node) → a ≡ inner n → node_is_view n t.store ≡ false)
      → (o : Option Node) × (seat_get_focus_inactive_view d fuel a t ≡ some o)
        × IsFirst (IsViewUnder d t.store rank forest high bound fuel enough a) t.stack o
  unfolding seat_get_focus_inactive_view
  inactive_view-IsFirst (inner n) not_view =
      let (o, run, first) =
        views-IsFirst d t.store rank forest high bound fuel enough (inner n) t.stack in
      (o, rw (not_view n refl) run, first)
  inactive_view-IsFirst (output_node w) not_view =
      views-IsFirst d t.store rank forest high bound fuel enough (output_node w) t.stack
  inactive_view-IsFirst root_node not_view =
      views-IsFirst d t.store rank forest high bound fuel enough root_node t.stack

  pub focused_workspace_returns : (w : Ptr) × (seat_get_focused_workspace d fuel t ≡ some w)
  unfolding seat_get_focused_workspace seat_get_focus_inactive
  focused_workspace_returns =
      let (o, run, first) =
        first_node-IsFirst d t.store (λ n. IsUnder d t.store root_node (inner n)) _
          (below-Decides d t.store rank forest high bound fuel enough root_node) t.stack in
      (
        workspace_or_null o t.store,
        ap (λ x. x >>= λ focus. some (workspace_or_null focus t.store)) run,
      )
