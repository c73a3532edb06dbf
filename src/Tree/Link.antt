-- ===== src/Tree/Link.antt =====
-- Putting a container that stands nowhere into a list, and the invariant of the tree. The tree is a
-- forest but for the children of the container, whose workspaces are those that they had before.
use scrollfx.Prelude.{
  ℕ, ◌+◌, ◌<◌, ◌≡◌, ◌≢◌, refl, sym, ap, ap₂, ◌∙◌, subst, ◌⊎◌, inl, inr, List, some, Bool, true,
  false, ◌&&◌, ◌==◌, arith, Bool-cases, ==_iff, ne→==, if◌then◌else◌,
}
use scrollfx.Seq.{Ptr}
use scrollfx.Tree.{Tree, kids, update, link_child, link_tiling, link_floating}
use scrollfx.Tree.Count.{one, count}
use scrollfx.Tree.Walk.{update_self, update_other, ne_of_==}
use scrollfx.Tree.Forest.{IsLinked, IsForest, walk-IsForest}
use scrollfx.Tree.Removal.{kids-update, count_if, children_or_nil}

-- The new count of a list that has taken `c` up, from the old one.
more_count :
    (taken there : Bool) (was now other : ℕ)
    → now ≡ was + one taken
    → (there ≡ true → other ≡ was)
    → (if there then now else other) ≡ other + one (taken && there)
more_count true true was now other h same = omega (arith, h, same refl)
more_count false true was now other h same = omega (arith, h, same refl)
more_count true false was now other h same = omega arith
more_count false false was now other h same = omega arith

module _ (t : Tree) (rank : Ptr → ℕ) (linked : IsLinked t rank) (c : Ptr) (nz : c ≢ 0)
    (shared : (q : Ptr)
      → t.parent q ≢ 0
      → t.parent q ≢ c
      → t.workspace q ≡ t.workspace (t.parent q))
    (top : t.parent c ≡ 0) (off : t.workspace c ≡ 0) (ys : List Ptr) where
  module _ (p : Ptr) (pz : p ≢ 0) (lower : rank c < rank p) (xs : List Ptr)
      (list : t.children p ≡ some xs)
      (counts : (q : Ptr) → count q ys ≡ count q xs + one (c == q)) where
    abbrev child_tree : Tree
    child_tree = record t {
      children = update t.children p (some ys);
      parent = update t.parent c p;
      workspace = update t.workspace c (t.workspace p);
    }

    child-held :
        (p' q : Ptr) → p' ≢ 0 → count q (kids child_tree p') ≡ one (update t.parent c p q == p')
    child-held p' q n =
        let now = ap (count q) (kids-update t p p' ys) ∙ count_if q (p == p') ys (kids t p') in
        let was = linked.held p' q n in
        let more =
          more_count (c == q) (p == p') (count q xs) (count q ys) (count q (kids t p')) (counts q)
            (λ k.
              ap (λ x. count q (kids t x)) (sym ((==_iff p p').0 k))
              ∙ ap (λ o. count q (children_or_nil o)) list) in
        elim (Bool-cases (c == q)) [
          | inl hit ↦
              let at =
                ap (λ x. one (x == p')) (sym (ap (λ x. t.parent x) ((==_iff c q).0 hit)) ∙ top) in
              rw hit (
                omega (
                  arith,
                  now,
                  was,
                  more,
                  at,
                  ap one (ne→== 0 p' (λ z. n (sym z))),
                  ap (λ b. one (b && (p == p'))) hit,
                ))
          | inr miss ↦ rw miss (omega (arith, now, was, more, ap (λ b. one (b && (p == p'))) miss))
        ]

    child-placed :
        (w q : Ptr)
        → w ≢ 0
        → count q (t.tiling w) + count q (t.floating w)
          ≡ one ((update t.parent c p q == 0) && (update t.workspace c (t.workspace p) q == w))
    child-placed w q n =
        let was = linked.placed w q n in
        elim (Bool-cases (c == q)) [
          | inl hit ↦
              let e = (==_iff c q).0 hit in
              let at =
                ap₂ (λ x y. one ((x == 0) && (y == w))) (sym (ap (λ x. t.parent x) e) ∙ top)
                  (sym (ap (λ x. t.workspace x) e) ∙ off) in
              rw (hit, ne→== p 0 pz) (omega (arith, was, at, ap one (ne→== 0 w (λ z. n (sym z)))))
          | inr miss ↦ rw miss was
        ]

    child-below : (q : Ptr) → update t.parent c p q ≢ 0 → rank q < rank (update t.parent c p q)
    child-below q n = elim (Bool-cases (c == q)) [
      | inl hit ↦ rw hit (subst (λ x. rank x < rank p) ((==_iff c q).0 hit) lower)
      | inr miss ↦
          let same = update_other t.parent c p q (ne_of_== c q miss) in
          subst (λ x. rank q < rank x) (sym same) (linked.below q (λ z. n (same ∙ z)))
    ]

    child-IsLinked : IsLinked child_tree rank
    child-IsLinked = record {
      null = update_other t.parent c p 0 nz ∙ linked.null;
      null_workspace = update_other t.workspace c (t.workspace p) 0 nz ∙ linked.null_workspace;
      held = child-held;
      placed = child-placed;
      below = child-below;
    }

    abbrev workspace' : Ptr → Ptr
    workspace' = update t.workspace c (t.workspace p)

    c-ne-p : c ≢ p
    c-ne-p z = omega (arith, lower, ap rank z)

    child_but :
        (q : Ptr)
        → update t.parent c p q ≢ 0
        → (update t.parent c p q ≡ c)
          ⊎ (update t.workspace c (t.workspace p) q
              ≡ update t.workspace c (t.workspace p) (update t.parent c p q))
    child_but q n = elim (Bool-cases (c == q)) [
      | inl hit ↦
          let e = sym ((==_iff c q).0 hit) in
          inr (
            ap workspace' e
            ∙ update_self t.workspace c (t.workspace p)
            ∙ sym (
                ap (λ x. workspace' (update t.parent c p x)) e
                ∙ ap workspace' (update_self t.parent c p)
                ∙ update_other t.workspace c (t.workspace p) p c-ne-p))
      | inr miss ↦
          let same = update_other t.parent c p q (ne_of_== c q miss) in
          elim (Bool-cases (t.parent q == c)) [
            | inl under ↦ inl (same ∙ (==_iff (t.parent q) c).0 under)
            | inr other ↦ inr (
                update_other t.workspace c (t.workspace p) q (ne_of_== c q miss)
                ∙ shared q (λ z. n (same ∙ z)) (ne_of_== (t.parent q) c other)
                ∙ sym (
                    ap workspace' same
                    ∙ update_other t.workspace c (t.workspace p) (t.parent q)
                        (λ z. ne_of_== (t.parent q) c other (sym z))))
          ]
    ]

    pub link_child-IsForest :
        (fuel : ℕ)
        → rank c < fuel
        → (t' : Tree) × (link_child fuel p c ys t ≡ some t')
          × IsForest t' rank
          × (t'.parent c ≡ p)
          × (t'.workspace c ≡ t.workspace p)
          × ((q : Ptr) → c ≢ q → t'.parent q ≡ t.parent q)
    unfolding link_child
    link_child-IsForest fuel enough =
        let (w, run, forest', walked) =
          walk-IsForest fuel c child_tree rank child-IsLinked nz enough child_but in
        (
          record child_tree { workspace = w },
          run,
          forest',
          update_self t.parent c p,
          walked.kept c (omega arith) ∙ update_self t.workspace c (t.workspace p),
          λ q away. update_other t.parent c p q away,
        )

  module _ (w : Ptr) (wz : w ≢ 0) (xs : List Ptr)
      (counts : (q : Ptr) → count q ys ≡ count q xs + one (c == q)) where
    -- At the top of a workspace, in the list that had the items `xs`; `rest` is the other list.
    top_placed :
        (list rest : Ptr → List Ptr)
        → list w ≡ xs
        → ((v q : Ptr)
            → v ≢ 0
            → count q (list v) + count q (rest v) ≡ one ((t.parent q == 0) && (t.workspace q == v)))
        → (v q : Ptr) → v ≢ 0
        → count q (update list w ys v) + count q (rest v)
          ≡ one ((t.parent q == 0) && (update t.workspace c w q == v))
    top_placed list rest is placed v q n =
        let was = placed v q n in
        let more =
          more_count (c == q) (w == v) (count q xs) (count q ys) (count q (list v)) (counts q)
            (λ k. ap (λ x. count q (list x)) (sym ((==_iff w v).0 k)) ∙ ap (count q) is) in
        let now = count_if q (w == v) ys (list v) in
        elim (Bool-cases (c == q)) [
          | inl hit ↦
              let e = sym ((==_iff c q).0 hit) in
              let up = ap (λ x. t.parent x) e ∙ top in
              let at =
                ap₂ (λ x y. one ((x == 0) && (y == v))) up (ap (λ x. t.workspace x) e ∙ off) in
              rw (hit, up)
                (omega (
                  arith,
                  now,
                  was,
                  more,
                  at,
                  ap one (ne→== 0 v (λ z. n (sym z))),
                  ap (λ b. one (b && (w == v))) hit,
                ))
          | inr miss ↦ rw miss (omega (arith, now, was, more, ap (λ b. one (b && (w == v))) miss))
        ]

    top_but :
        (q : Ptr)
        → t.parent q ≢ 0
        → (t.parent q ≡ c) ⊎ (update t.workspace c w q ≡ update t.workspace c w (t.parent q))
    top_but q n = elim (Bool-cases (t.parent q == c)) [
      | inl under ↦ inl ((==_iff (t.parent q) c).0 under)
      | inr other ↦ inr (
          update_other t.workspace c w q (λ z. n (ap (λ x. t.parent x) (sym z) ∙ top))
          ∙ shared q n (ne_of_== (t.parent q) c other)
          ∙ sym (
              update_other t.workspace c w (t.parent q)
                (λ z. ne_of_== (t.parent q) c other (sym z))))
    ]

    pub link_tiling-IsForest :
        (fuel : ℕ)
        → rank c < fuel
        → t.tiling w ≡ xs
        → (t' : Tree) × (link_tiling fuel w c ys t ≡ some t')
          × IsForest t' rank
          × (t'.parent ≡ t.parent)
          × (t'.workspace c ≡ w)
          × (t'.tiling ≡ update t.tiling w ys)
    unfolding link_tiling
    link_tiling-IsForest fuel enough is =
        let placed = top_placed t.tiling t.floating is linked.placed in
        let (v, run, forest', walked) =
          walk-IsForest fuel c
            (record t { tiling = update t.tiling w ys; workspace = update t.workspace c w }) rank
            (record {
              null = linked.null;
              null_workspace = update_other t.workspace c w 0 nz ∙ linked.null_workspace;
              held = linked.held;
              placed = placed;
              below = linked.below;
            })
            nz enough top_but in
        (
          record t { tiling = update t.tiling w ys; workspace = v },
          run,
          forest',
          refl,
          walked.kept c (omega arith) ∙ update_self t.workspace c w,
          refl,
        )

    pub link_floating-IsForest :
        (fuel : ℕ)
        → rank c < fuel
        → t.floating w ≡ xs
        → (t' : Tree) × (link_floating fuel w c ys t ≡ some t')
          × IsForest t' rank
          × (t'.parent ≡ t.parent)
          × (t'.workspace c ≡ w)
    unfolding link_floating
    link_floating-IsForest fuel enough is =
        let placed =
          top_placed t.floating t.tiling is (λ v q n. omega (arith, linked.placed v q n)) in
        let (v, run, forest', walked) =
          walk-IsForest fuel c
            (record t { floating = update t.floating w ys; workspace = update t.workspace c w })
            rank
            (record {
              null = linked.null;
              null_workspace = update_other t.workspace c w 0 nz ∙ linked.null_workspace;
              held = linked.held;
              placed = λ u q n. omega (arith, placed u q n);
              below = linked.below;
            })
            nz enough top_but in
        (
          record t { floating = update t.floating w ys; workspace = v },
          run,
          forest',
          refl,
          walked.kept c (omega arith) ∙ update_self t.workspace c w,
        )
