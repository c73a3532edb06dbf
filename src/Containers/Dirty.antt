-- ===== src/Containers/Dirty.antt =====
-- The dirty nodes: `node_set_dirty` of sway/tree/node.c.
use scrollfx.Prelude.{
  ℕ, ◌+◌, ◌≡◌, refl, sym, ap, List, [], ◌∷◌, ◌++◌, true, false, ◌||◌, arith, Bool-cases, inl, inr,
  ==_iff, ==_refl,
}
use scrollfx.Tree.Count.{one}
use scrollfx.Containers.{Node, con, ws, eq_node, Store, node_set_dirty}

-- How often a list of nodes holds a node.
abbrev pub occurrences : Node → List Node → ℕ
occurrences m [] = 0
occurrences m (n ∷ ns) = one (eq_node n m) + occurrences m ns

pub occurrences-append :
    (m : Node) (a b : List Node) → occurrences m (a ++ b) ≡ occurrences m a + occurrences m b
occurrences-append m [] b = omega arith
occurrences-append m (n ∷ a) b = omega (arith, occurrences-append m a b)

-- A node is in the list of dirty nodes once, or not at all if it is not marked dirty.
unfoldable pub IsTracked : Store → Type 0
IsTracked s = (m : Node) → occurrences m s.dirty_nodes ≡ one (s.dirty m)

pub eq_of_node : (a b : Node) → eq_node a b ≡ true → a ≡ b
unfolding eq_node
eq_of_node (con a) (con b) h = ap con ((==_iff a b).0 h)
eq_of_node (ws a) (ws b) h = ap ws ((==_iff a b).0 h)
eq_of_node (con a) (ws b) h = absurd (ground (arith, h))
eq_of_node (ws a) (con b) h = absurd (ground (arith, h))

pub eq_node_refl : (a : Node) → eq_node a a ≡ true
unfolding eq_node
eq_node_refl (con a) = ==_refl a
eq_node_refl (ws a) = ==_refl a

-- `node_set_dirty` keeps that each node is in the list of dirty nodes exactly once if it is marked
-- dirty, and not at all else, and that no mark is lost. A node that is not being destroyed is
-- marked afterwards.
pub set_dirty-IsTracked :
    (n : Node) (s : Store)
    → IsTracked s
    → IsTracked (node_set_dirty n s)
      × ((m : Node) → s.dirty m ≡ true → (node_set_dirty n s).dirty m ≡ true)
      × (s.destroying n ≡ false → (node_set_dirty n s).dirty n ≡ true)
unfolding IsTracked node_set_dirty
set_dirty-IsTracked n s h = elim (Bool-cases (s.dirty n || s.destroying n)) [
  | inl skip ↦ (λ m. rw skip (h m), λ m e. rw skip e, λ e. rw skip (ground (arith, skip, e)))
  | inr go ↦ (
    λ m. rw go (elim (Bool-cases (eq_node n m)) [
      | inl hit ↦
          let clean = ap s.dirty (sym (eq_of_node n m hit)) in
          rw hit (
            omega (
              arith,
              occurrences-append m s.dirty_nodes (n ∷ []),
              h m,
              ap one hit,
              ap one clean,
              ap one (not_dirty go),
            ))
      | inr miss ↦
          rw miss (omega (arith, occurrences-append m s.dirty_nodes (n ∷ []), h m, ap one miss))
    ]),
    λ m e. rw go (elim (Bool-cases (eq_node n m)) [ inl hit ↦ rw hit refl | inr miss ↦ rw miss e ]),
    λ e. rw (go, eq_node_refl n) refl,
  )
]
  where
    not_dirty : (s.dirty n || s.destroying n) ≡ false → s.dirty n ≡ false
    not_dirty z = ground (arith, z)
