-- ===== src/Focus/Climb.antt =====
-- `node_has_ancestor` decides whether a node stands below another one.
use scrollfx.Prelude.{
  ℕ, zero, suc, ◌+◌, ◌-◌, ◌<◌, ◌≤◌, ◌≡◌, refl, sym, ap, ◌∙◌, subst, Option, none, some, Bool, true,
  false, ◌&&◌, ◌||◌, ◌==◌, if◌then◌else◌, arith, Bool-cases, Option-cases, inl, inr, ◌⊎◌, ==_iff,
  ==_refl,
}
use mathlib.Core.Option.{some-injective, none-ne-some}
use mathlib.Core.Bool.{true≢false}
use scrollfx.Seq.{Ptr}
use scrollfx.Tree.Forest.{IsForest}
use scrollfx.Tree.Walk.{ne_of_==}
use scrollfx.Containers.{con, ws, Store}
use scrollfx.Containers.Dirty.{eq_of_node, eq_node_refl}
use scrollfx.Focus.{
  AnyNode, inner, output_node, root_node, Desk, eq_any, is_root, is_global_node, container_parent,
  node_get_parent, climb_with, climb, node_has_ancestor,
}

pub eq_any_refl : (a : AnyNode) → eq_any a a ≡ true
unfolding eq_any
eq_any_refl (inner n) = eq_node_refl n
eq_any_refl (output_node o) = ==_refl o
eq_any_refl root_node = refl

pub eq_of_any : (a b : AnyNode) → eq_any a b ≡ true → a ≡ b
unfolding eq_any
eq_of_any (inner a) (inner b) h = ap inner (eq_of_node a b h)
eq_of_any (output_node a) (output_node b) h = ap output_node ((==_iff a b).0 h)
eq_of_any root_node root_node h = refl
eq_of_any (inner a) (output_node b) h = absurd (true≢false (sym h))
eq_of_any (inner a) root_node h = absurd (true≢false (sym h))
eq_of_any (output_node a) (inner b) h = absurd (true≢false (sym h))
eq_of_any (output_node a) root_node h = absurd (true≢false (sym h))
eq_of_any root_node (inner b) h = absurd (true≢false (sym h))
eq_of_any root_node (output_node b) h = absurd (true≢false (sym h))

-- A container that is fullscreen everywhere counts as below the root.
abbrev pub IsCovering : AnyNode → AnyNode → Store → Type 0
IsCovering a n s = (is_root a && is_global_node n s) ≡ true

module _ (d : Desk) (s : Store) where
  -- The parents of a node lead to another one, or to a container that covers everything.
  pub data IsOver (a : AnyNode) : AnyNode → Type 0 where
    parent_is : (n : AnyNode) → node_get_parent d n s ≡ some a → IsOver a n
    parent_covers : (n p : AnyNode) → node_get_parent d n s ≡ some p → IsCovering a p s → IsOver a n
    parent_below : (n p : AnyNode) → node_get_parent d n s ≡ some p → IsOver a p → IsOver a n

  -- What `node_has_ancestor` decides.
  abbrev pub IsUnder : AnyNode → AnyNode → Type 0
  IsUnder a n = IsCovering a n s ⊎ IsOver a n

  -- A decision that is right.
  abbrev pub Decides : Type 0 → Option Bool → Type 0
  Decides P o = ((o ≡ some true) × P) ⊎ ((o ≡ some false) × (¬ P))

  IsOver-cases :
      (a n p : AnyNode)
      → node_get_parent d n s ≡ some p
      → IsOver a n
      → ((eq_any p a || (is_root a && is_global_node p s)) ≡ true) ⊎ IsOver a p
  IsOver-cases a n p h (parent_is m k) =
      let same = subst (λ x. eq_any x a ≡ true) (some-injective a p (sym k ∙ h)) (eq_any_refl a) in
      inl (rw same refl)
  IsOver-cases a n p h (parent_covers m q k c) =
      let cover = subst (λ x. IsCovering a x s) (some-injective q p (sym k ∙ h)) c in
      inl (or_right (eq_any p a) cover)
    where
      or_right : (x : Bool) {y : Bool} → y ≡ true → (x || y) ≡ true
      or_right x e = ground (arith, e)
  IsOver-cases a n p h (parent_below m q k over) =
      inr (subst (IsOver a) (some-injective q p (sym k ∙ h)) over)

  no_parent : (a n : AnyNode) → node_get_parent d n s ≡ none → ¬ IsOver a n
  no_parent a n h (parent_is m k) = none-ne-some a (sym h ∙ k)
  no_parent a n h (parent_covers m p k c) = none-ne-some p (sym h ∙ k)
  no_parent a n h (parent_below m p k over) = none-ne-some p (sym h ∙ k)

  module _ (rank : Ptr → ℕ) (forest : IsForest s.tree rank) (high : ℕ)
      (bound : (q : Ptr) → rank q ≤ high) where
    -- How many parents a node has at most.
    abbrev pub steps : AnyNode → ℕ
    steps (inner (con c)) = 3 + (high - rank c)
    steps (inner (ws w)) = 2
    steps (output_node o) = 1
    steps root_node = 0

    parent_lower : (n p : AnyNode) → node_get_parent d n s ≡ some p → steps p < steps n
    unfolding node_get_parent container_parent
    parent_lower (inner (con c)) p h = elim (Bool-cases (s.tree.parent c == 0)) [
      | inr inside ↦
          let e = some-injective (inner (con (s.tree.parent c))) p (sym (rw inside refl) ∙ h) in
          subst (λ x. steps x < 3 + (high - rank c)) e
            (omega (
              arith,
              forest.linked.below c (ne_of_== (s.tree.parent c) 0 inside),
              bound (s.tree.parent c),
            ))
      | inl top ↦ elim (Bool-cases (s.tree.workspace c == 0)) [
        | inl nowhere ↦ absurd (none-ne-some p (sym (rw (top, nowhere) refl) ∙ h))
        | inr there ↦
            subst (λ x. steps x < 3 + (high - rank c))
              (some-injective (inner (ws (s.tree.workspace c))) p (sym (rw (top, there) refl) ∙ h))
              (omega arith)
      ]
    ]
    parent_lower (inner (ws w)) p h = elim (Bool-cases (d.output w == 0)) [
      | inl nowhere ↦ absurd (none-ne-some p (sym (rw nowhere refl) ∙ h))
      | inr there ↦
          subst (λ x. steps x < 2)
            (some-injective (output_node (d.output w)) p (sym (rw there refl) ∙ h)) (omega arith)
    ]
    parent_lower (output_node o) p h =
        subst (λ x. steps x < 1) (some-injective root_node p h) (omega arith)
    parent_lower root_node p h = absurd (none-ne-some p h)

    climb-Decides :
        (fuel : ℕ) (a n : AnyNode) → steps n < fuel → Decides (IsOver a n) (climb d fuel a s n)
    unfolding climb climb_with
    climb-Decides zero a n h = absurd (omega (arith, h))
    climb-Decides (suc fuel) a n h = elim (Option-cases (node_get_parent d n s)) [
      | inl top ↦ inr (ap (λ o. climb_with (λ p. climb d fuel a s p) a o s) top, no_parent a n top)
      | inr (p, up) ↦
          let go = ap (λ o. climb_with (λ x. climb d fuel a s x) a o s) up in
          let rest = climb-Decides fuel a p (omega (arith, h, parent_lower n p up)) in
          elim (Bool-cases (eq_any p a || (is_root a && is_global_node p s))) [
            | inl hit ↦
                inl (go ∙ ap (λ b. if b then some true else climb d fuel a s p) hit, found p up hit)
            | inr miss ↦
                let on = go ∙ ap (λ b. if b then some true else climb d fuel a s p) miss in
                elim rest [
                  | inl (yes_run, over) ↦ inl (on ∙ yes_run, parent_below n p up over)
                  | inr (no_run, none_over) ↦ inr (
                    on ∙ no_run,
                    λ over. elim (IsOver-cases a n p up over) [
                      | inl hit ↦ true≢false (sym hit ∙ miss)
                      | inr higher ↦ none_over higher
                    ],
                  )
                ]
          ]
    ]
      where
        found :
            (p : AnyNode)
            → node_get_parent d n s ≡ some p
            → (eq_any p a || (is_root a && is_global_node p s)) ≡ true
            → IsOver a n
        found p up hit = elim (Bool-cases (eq_any p a)) [
          | inl same ↦ parent_is n (up ∙ ap some (eq_of_any p a same))
          | inr other ↦
              parent_covers n p up
                (subst (λ b. (b || (is_root a && is_global_node p s)) ≡ true) other hit)
        ]

    -- In a forest whose heights are at most `high`, `node_has_ancestor` returns, when the fuel is
    -- more than the parents that the node can have. It answers whether its parents lead to the
    -- other node, or whether that is the root and the node or one of its parents is fullscreen
    -- everywhere.
    pub has_ancestor-Decides :
        (fuel : ℕ) (n a : AnyNode)
        → steps n < fuel
        → Decides (IsUnder a n) (node_has_ancestor d fuel n a s)
    unfolding node_has_ancestor
    has_ancestor-Decides fuel n a enough = elim (Bool-cases (is_root a && is_global_node n s)) [
      | inl covers ↦ inl (rw covers refl, inl covers)
      | inr not_covering ↦ elim (climb-Decides fuel a n enough) [
        | inl (run, over) ↦ inl (rw not_covering run, inr over)
        | inr (run, none_over) ↦ inr (
          rw not_covering run,
          λ u. elim u [
            | inl covers ↦ true≢false (sym covers ∙ not_covering)
            | inr over ↦ none_over over
          ],
        )
      ]
    ]
