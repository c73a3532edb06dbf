-- ===== src/Focus/Stack.antt =====
-- What one setting of the raw focus does to the stack, and what it leaves alone.
use scrollfx.Prelude.{
  ℕ, ◌+◌, ◌-◌, ◌<◌, ◌≤◌, ◌≡◌, ◌≢◌, refl, sym, ap, ◌∙◌, subst, List, [], ◌∷◌, ◌++◌, Option, none,
  some, Bool, true, false, if◌then◌else◌, arith, Bool-cases, inl, inr,
}
use scrollfx.Tree.Count.{one}
use scrollfx.Containers.{Node, eq_node, node_set_dirty}
use scrollfx.Containers.Dirty.{occurrences, occurrences-append, eq_of_node}
use scrollfx.Focus.{
  AnyNode, inner, output_node, root_node, Notice, Seat, Desk, notice, has_node, unlink,
  seat_node_from_node, node_get_parent, set_dirty_any, dirty_parent, set_dirty_parent,
  seat_set_raw_focus,
}

-- Every node is in the list once at most.
abbrev pub IsDistinct : List Node → Type 0
IsDistinct ns = (m : Node) → occurrences m ns ≤ 1

has-occurrences : (n : Node) (ns : List Node) → has_node n ns ≡ false → occurrences n ns ≡ 0
unfolding has_node
has-occurrences n [] h = refl
has-occurrences n (m ∷ ns) h = elim (Bool-cases (eq_node m n)) [
  | inl hit ↦ absurd (ground (arith, h, hit))
  | inr miss ↦ omega (arith, ap one miss, has-occurrences n ns (ground (arith, h, miss)))
]

has_some : (n : Node) (ns : List Node) → has_node n ns ≡ true → occurrences n ns ≢ 0
unfolding has_node
has_some n [] h z = ground (arith, h)
has_some n (m ∷ ns) h z = elim (Bool-cases (eq_node m n)) [
  | inl hit ↦ omega (arith, z, ap one hit)
  | inr miss ↦ has_some n ns (ground (arith, h, miss)) (omega (arith, z))
]

unlink-occurrences :
    (n m : Node) (ns : List Node)
    → occurrences m (unlink n ns) ≡ (if eq_node n m then occurrences m ns - 1 else occurrences m ns)
unfolding unlink
unlink-occurrences n m [] = elim (Bool-cases (eq_node n m)) [
  | inl hit ↦ rw hit refl
  | inr miss ↦ rw miss refl
]
unlink-occurrences n m (k ∷ ns) = elim (Bool-cases (eq_node k n)) [
  | inl found ↦
      let e = eq_of_node k n found in
      rw found (
        subst
          (λ x. occurrences m ns ≡ (
            if eq_node x m
            then one (eq_node k m) + occurrences m ns - 1
            else one (eq_node k m) + occurrences m ns))
          e (same (eq_node k m) (occurrences m ns)))
  | inr other ↦ rw other (elim (Bool-cases (eq_node n m)) [
    | inr miss ↦ rw miss (
        ap (λ x. one (eq_node k m) + x)
          (unlink-occurrences n m ns
            ∙ ap (λ b. if b then occurrences m ns - 1 else occurrences m ns) miss))
    | inl hit ↦
        let away = subst (λ x. eq_node k x ≡ false) (eq_of_node n m hit) other in
        rw hit (
          omega (
            arith,
            ap one away,
            unlink-occurrences n m ns
                ∙ ap (λ b. if b then occurrences m ns - 1 else occurrences m ns) hit,
          ))
  ])
]
  where
    same : (b : Bool) (k : ℕ) → k ≡ (if b then one b + k - 1 else one b + k)
    same b k = ground arith

-- The stack after `n` has been put on top.
abbrev pub put_top : Node → List Node → List Node
put_top n ns = n ∷ unlink n (seat_node_from_node n ns)

pub top-occurrences :
    (n m : Node) (ns : List Node)
    → IsDistinct ns
    → occurrences m (put_top n ns) ≡ (if eq_node n m then 1 else occurrences m ns)
unfolding seat_node_from_node
top-occurrences n m ns once = elim (Bool-cases (eq_node n m)) [
  | inr miss ↦ elim (Bool-cases (has_node n ns)) [
    | inl there ↦ rw (there, miss) (omega (arith, unlinked ns miss))
    | inr new ↦
        rw (new, miss)
          (omega
            (arith, unlinked (ns ++ n ∷ []) miss, occurrences-append m ns (n ∷ []), ap one miss))
  ]
  | inl hit ↦
      let e = eq_of_node n m hit in
      elim (Bool-cases (has_node n ns)) [
        | inl there ↦
            rw (there, hit) (omega (arith, linked ns hit, once m, positive e (has_some n ns there)))
        | inr new ↦
            rw (new, hit)
              (omega (
                arith,
                linked (ns ++ n ∷ []) hit,
                occurrences-append m ns (n ∷ []),
                ap one hit,
                ap (λ x. occurrences x ns) (sym e),
                has-occurrences n ns new,
              ))
      ]
]
  where
    unlinked : (l : List Node) → eq_node n m ≡ false → occurrences m (unlink n l) ≡ occurrences m l
    unlinked l miss =
        unlink-occurrences n m l ∙ ap (λ b. if b then occurrences m l - 1 else occurrences m l) miss

    linked : (l : List Node) → eq_node n m ≡ true → occurrences m (unlink n l) ≡ occurrences m l - 1
    linked l hit =
        unlink-occurrences n m l ∙ ap (λ b. if b then occurrences m l - 1 else occurrences m l) hit

    positive : n ≡ m → occurrences n ns ≢ 0 → 0 < occurrences m ns
    positive e h = pos_of (occurrences m ns) (λ z. h (ap (λ x. occurrences x ns) e ∙ z))
      where
        pos_of : (k : ℕ) → k ≢ 0 → 0 < k
        pos_of k n = omega (arith, n)

-- A seat in which only the stack, the dirty nodes and the notices differ.
abbrev pub with_stack : Seat → List Node → (Node → Bool) → List Node → List Notice → Seat
with_stack s stack dirty dirty_nodes notices = record s {
  stack = stack;
  store = record s.store { dirty = dirty; dirty_nodes = dirty_nodes };
  notices = notices;
}

unfoldable pub IsFramed : Seat → Seat → Type 0
IsFramed s s' = s' ≡ with_stack s s'.stack s'.store.dirty s'.store.dirty_nodes s'.notices

-- What a step of the focus leaves: nothing but the stack, the dirty nodes and the notices changes,
-- no node is in the stack twice, and none is lost.
pub record Kept (s s' : Seat) : Type 0 where
  pub framed : IsFramed s s'
  pub distinct : IsDistinct s'.stack
  pub stays : (m : Node) → occurrences m s.stack ≤ occurrences m s'.stack

pub Kept-trans : (a b c : Seat) → Kept a b → Kept b c → Kept a c
unfolding IsFramed
Kept-trans a b c f g = record {
  framed =
      g.framed
      ∙ ap (λ x. with_stack x c.stack c.store.dirty c.store.dirty_nodes c.notices) f.framed;
  distinct = g.distinct;
  stays = λ m. omega (arith, f.stays m, g.stays m);
}

-- A step that leaves the stack as it is.
pub Kept-same : (s s' : Seat) → IsDistinct s.stack → IsFramed s s' → s'.stack ≡ s.stack → Kept s s'
Kept-same s s' once framed same = record {
  framed = framed;
  distinct = λ m. subst (λ l. occurrences m l ≤ 1) (sym same) (once m);
  stays = λ m. subst (λ l. occurrences m s.stack ≤ occurrences m l) (sym same) (omega arith);
}

dirty-IsFramed :
    (a : AnyNode) (s : Seat)
    → IsFramed s (set_dirty_any a s) × ((set_dirty_any a s).stack ≡ s.stack)
unfolding IsFramed set_dirty_any node_set_dirty notice
dirty-IsFramed (inner n) s = (refl, refl)
dirty-IsFramed (output_node o) s = (refl, refl)
dirty-IsFramed root_node s = (refl, refl)

parent-IsFramed :
    (o : Option AnyNode) (s : Seat)
    → IsFramed s (dirty_parent o s) × ((dirty_parent o s).stack ≡ s.stack)
unfolding IsFramed dirty_parent
parent-IsFramed none s = (refl, refl)
parent-IsFramed (some p) s = dirty-IsFramed p s

module _ (d : Desk) where
  pub dirty_parent-IsFramed :
      (n : Node) (s : Seat)
      → IsFramed s (set_dirty_parent d n s) × ((set_dirty_parent d n s).stack ≡ s.stack)
  unfolding set_dirty_parent
  dirty_parent-IsFramed n s = parent-IsFramed (node_get_parent d (inner n) s.store) s

  -- `seat_set_raw_focus` puts its node on top of the stack and changes nothing but the stack, the
  -- dirty nodes and what is told. When no node was in the stack twice, none is afterwards, and none
  -- is lost.
  pub raw_focus-Kept :
      (n : Node) (s : Seat)
      → IsDistinct s.stack
      → Kept s (seat_set_raw_focus d n s) × ((seat_set_raw_focus d n s).stack ≡ put_top n s.stack)
  unfolding IsFramed seat_set_raw_focus node_set_dirty
  raw_focus-Kept n s once =
      let s1 = record s { stack = put_top n s.stack; store = node_set_dirty n s.store } in
      let (framed, same) = dirty_parent-IsFramed n s1 in
      let top = λ (m : Node). top-occurrences n m s.stack once in
      (
        record {
          framed = framed;
          distinct = λ m. subst (λ l. occurrences m l ≤ 1) (sym same) (one_most m (top m));
          stays = λ m.
              subst (λ l. occurrences m s.stack ≤ occurrences m l) (sym same) (no_less m (top m));
        },
        same,
      )
    where
      one_most : (m : Node) {k : ℕ} → k ≡ (if eq_node n m then 1 else occurrences m s.stack) → k ≤ 1
      one_most m h = elim (Bool-cases (eq_node n m)) [
        | inl hit ↦ omega (arith, h ∙ ap (λ b. if b then 1 else occurrences m s.stack) hit)
        | inr miss ↦
            omega (arith, h ∙ ap (λ b. if b then 1 else occurrences m s.stack) miss, once m)
      ]

      no_less :
          (m : Node) {k : ℕ}
          → k ≡ (if eq_node n m then 1 else occurrences m s.stack)
          → occurrences m s.stack ≤ k
      no_less m h = elim (Bool-cases (eq_node n m)) [
        | inl hit ↦ omega (arith, h ∙ ap (λ b. if b then 1 else occurrences m s.stack) hit, once m)
        | inr miss ↦ omega (arith, h ∙ ap (λ b. if b then 1 else occurrences m s.stack) miss)
      ]
