-- ===== src/Tree/Removal.antt =====
-- Taking a container out of the list that holds it, the first step of `container_detach`.
use scrollfx.Prelude.{
  ℕ, ◌+◌, ◌≡◌, ◌≢◌, refl, sym, ap, ap₂, ◌∙◌, subst, inl, inr, List, [], Option, some, none, Bool,
  true, false, ◌&&◌, ◌==◌, arith, Bool-cases, ==_iff, ==_refl, ne→==, negsuc, pos, if◌then◌else◌,
}
use scrollfx.Seq.{Ptr, find, delete}
use scrollfx.Tree.{
  Tree, kids, update, Place, children_of, tiling_of, floating_of, nowhere, container_get_siblings,
  items, put_items, without, remove_at, remove_sibling,
}
use scrollfx.Tree.Count.{one, count, delete-count}
use scrollfx.Tree.Walk.{update_other, ne_of_==}
use scrollfx.Tree.Forest.{IsLinked}

-- A list that holds the container loses it once.
without-count :
    (c : Ptr) (xs : List Ptr)
    → count c xs ≢ 0
    → (ys : List Ptr) × (without c xs ≡ some ys)
      × ((q : Ptr) → count q ys + one (c == q) ≡ count q xs)
unfolding without
without-count c xs h = elim (delete-count xs c) [
  | inl (_, z) ↦ absurd (h z)
  | inr (ys, i, f, d, counts) ↦ (ys, rw f (subst (λ k. delete xs k ≡ some ys) f d), counts)
]

-- The tree without `c` in its lists, where its pointers still say where it was.
pub record Removed (c : Ptr) (t t1 : Tree) : Type 0 where
  pub same_parent : t1.parent ≡ t.parent
  pub same_workspace : t1.workspace ≡ t.workspace
  pub less_kids :
      (p q : Ptr)
      → p ≢ 0
      → count q (kids t1 p) + one ((c == q) && (t.parent c == p)) ≡ count q (kids t p)
  pub kept_lists : (p : Ptr) → t.parent c ≢ p → t1.children p ≡ t.children p
  pub still_lists :
      (p : Ptr) (xs : List Ptr)
      → t.children p ≡ some xs
      → (ys : List Ptr) × (t1.children p ≡ some ys)
  pub less_tops :
      (w q : Ptr)
      → w ≢ 0
      → count q (t1.tiling w)
          + count q (t1.floating w)
          + one ((c == q) && ((t.parent c == 0) && (t.workspace c == w)))
        ≡ count q (t.tiling w) + count q (t.floating w)

module _ (t : Tree) (c : Ptr) (place : Place) (xs ys : List Ptr)
    (at : container_get_siblings t c ≡ place) (e : items t place ≡ some xs)
    (run : without c xs ≡ some ys) where
  remove_sibling-put : remove_sibling c t ≡ some (put_items t place ys)
  unfolding remove_sibling
  remove_sibling-put = ap (remove_at c t) at ∙ rw (remove_at, e, run) refl

pub kids-update :
    (t : Tree) (p p' : Ptr) (ys : List Ptr)
    → kids (record t { children = update t.children p (some ys) }) p'
      ≡ (if p == p' then ys else kids t p')
kids-update t p p' ys = ground arith

pub count_if :
    (q : Ptr) (b : Bool) (ys zs : List Ptr)
    → count q (if b then ys else zs) ≡ (if b then count q ys else count q zs)
count_if q true ys zs = refl
count_if q false ys zs = refl

abbrev pub children_or_nil : Option (List Ptr) → List Ptr
children_or_nil o = elim o [ none ↦ [] | some cs ↦ cs ]

pub children_of_some :
    (o : Option (List Ptr)) (c : Ptr)
    → count c (elim o [ none ↦ [] | some cs ↦ cs ]) ≢ 0
    → (xs : List Ptr) × (o ≡ some xs) × (count c xs ≢ 0)
children_of_some none c h = absurd (h refl)
children_of_some (some xs) c h = (xs, refl, h)

-- The new count, from the counts of one list before and after.
less_count :
    (taken there : Bool) (was now other : ℕ)
    → now + one taken ≡ was
    → (there ≡ true → other ≡ was)
    → (if there then now else other) + one (taken && there) ≡ other
less_count true true was now other h same = omega (arith, h, same refl)
less_count false true was now other h same = omega (arith, h, same refl)
less_count true false was now other h same = omega arith
less_count false false was now other h same = omega arith

module _ (t : Tree) (c p : Ptr) (xs ys : List Ptr) (e : t.parent c ≡ p) (nz : p ≢ 0)
    (list : t.children p ≡ some xs)
    (counts : (q : Ptr) → count q ys + one (c == q) ≡ count q xs) where
  Removed-child : Removed c t (put_items t (children_of p) ys)
  unfolding put_items
  Removed-child = record {
    same_parent = refl;
    same_workspace = refl;
    kept_lists = λ p' n. update_other t.children p (some ys) p' (λ z. n (e ∙ z));
    still_lists = λ p' zs is. elim (Bool-cases (p == p')) [
      | inl hit ↦ (ys, rw hit refl)
      | inr miss ↦ (zs, rw miss is)
    ];
    less_kids = λ p' q n.
        let test = ap (λ x. one ((c == q) && (x == p'))) e in
        let now = ap (count q) (kids-update t p p' ys) ∙ count_if q (p == p') ys (kids t p') in
        omega (
          arith,
          test,
          now,
          less_count (c == q) (p == p') (count q xs) (count q ys) (count q (kids t p')) (counts q)
              (λ k.
                ap (λ x. count q (kids t x)) (sym ((==_iff p p').0 k))
                ∙ ap (λ o. count q (children_or_nil o)) list),
        );
    less_tops = λ w q n. ground arith;
  }

module _ (t : Tree) (c w : Ptr) (xs ys : List Ptr) (e : t.parent c ≡ 0) (e' : t.workspace c ≡ w)
    (nz : w ≢ 0) (counts : (q : Ptr) → count q ys + one (c == q) ≡ count q xs) where
  pub Removed-tiling : t.tiling w ≡ xs → Removed c t (put_items t (tiling_of w) ys)
  unfolding put_items
  Removed-tiling list = record {
    same_parent = refl;
    same_workspace = refl;
    kept_lists = λ p n. refl;
    still_lists = λ p zs is. (zs, is);
    less_kids = λ p' q n. ground arith;
    less_tops = λ v q n.
        let test = ap₂ (λ x y. one ((c == q) && ((x == 0) && (y == v)))) e e' in
        omega (
          arith,
          test,
          count_if q (w == v) ys (t.tiling v),
          less_count (c == q) (w == v) (count q xs) (count q ys) (count q (t.tiling v)) (counts q)
              (λ k. ap (λ x. count q (t.tiling x)) (sym ((==_iff w v).0 k)) ∙ ap (count q) list),
        );
  }

  Removed-floating : t.floating w ≡ xs → Removed c t (put_items t (floating_of w) ys)
  unfolding put_items
  Removed-floating list = record {
    same_parent = refl;
    same_workspace = refl;
    kept_lists = λ p n. refl;
    still_lists = λ p zs is. (zs, is);
    less_kids = λ p' q n. ground arith;
    less_tops = λ v q n.
        let test = ap₂ (λ x y. one ((c == q) && ((x == 0) && (y == v)))) e e' in
        omega (
          arith,
          test,
          count_if q (w == v) ys (t.floating v),
          less_count (c == q) (w == v) (count q xs) (count q ys) (count q (t.floating v)) (counts q)
              (λ k. ap (λ x. count q (t.floating x)) (sym ((==_iff w v).0 k)) ∙ ap (count q) list),
        );
  }

module _ (t : Tree) (c : Ptr) where
  pub siblings-child :
      (p : Ptr) → t.parent c ≡ p → p ≢ 0 → container_get_siblings t c ≡ children_of p
  unfolding container_get_siblings
  siblings-child p e nz = rw (e, ne→== p 0 nz) refl

  siblings-off : t.parent c ≡ 0 → t.workspace c ≡ 0 → container_get_siblings t c ≡ nowhere
  unfolding container_get_siblings
  siblings-off e e' = rw (e, e') refl

  pub siblings-tiling :
      (w : Ptr) (i : ℕ)
      → t.parent c ≡ 0
      → t.workspace c ≡ w
      → w ≢ 0
      → find (t.tiling w) c ≡ pos i
      → container_get_siblings t c ≡ tiling_of w
  unfolding container_get_siblings
  siblings-tiling w i e e' nz f = rw (e, e', ne→== w 0 nz, f) refl

  pub siblings-floating :
      (w : Ptr)
      → t.parent c ≡ 0
      → t.workspace c ≡ w
      → w ≢ 0
      → find (t.tiling w) c ≡ negsuc 0
      → container_get_siblings t c ≡ floating_of w
  unfolding container_get_siblings
  siblings-floating w e e' nz f = rw (e, e', ne→== w 0 nz, f) refl

  remove_sibling-off : t.parent c ≡ 0 → t.workspace c ≡ 0 → remove_sibling c t ≡ some t
  unfolding remove_sibling items
  remove_sibling-off e e' = ap (remove_at c t) (siblings-off e e')

  Removed-off : t.parent c ≡ 0 → t.workspace c ≡ 0 → Removed c t t
  Removed-off e e' = record {
    same_parent = refl;
    same_workspace = refl;
    kept_lists = λ p n. refl;
    still_lists = λ p zs is. (zs, is);
    less_kids = λ p q n. ground arith;
    less_tops = λ w q n. ground arith;
  }

module _ (t : Tree) (rank : Ptr → ℕ) (linked : IsLinked t rank) (c : Ptr) where
  -- Of a linked tree, `c` can always be taken out of the list that holds it.
  pub remove_sibling-Removed : (t1 : Tree) × (remove_sibling c t ≡ some t1) × Removed c t t1
  unfolding items
  remove_sibling-Removed = elim (Bool-cases (t.parent c == 0)) [
    | inl top ↦ at_top ((==_iff (t.parent c) 0).0 top)
    | inr below ↦ in_parent (t.parent c) refl (ne_of_== (t.parent c) 0 below)
  ]
    where
      placed_once :
          (w : Ptr)
          → w ≢ 0
          → t.workspace c ≡ w
          → t.parent c ≡ 0
          → count c (t.tiling w) + count c (t.floating w) ≡ 1
      placed_once w nz e' e = omega (
        arith,
        linked.placed w c nz,
        ap₂ (λ x y. one ((x == 0) && (y == w))) e e',
        ap one (==_refl w),
      )

      in_parent :
          (p : Ptr)
          → t.parent c ≡ p
          → p ≢ 0
          → (t1 : Tree) × (remove_sibling c t ≡ some t1) × Removed c t t1
      in_parent p e nz =
          let (xs, list, holds) = children_of_some (t.children p) c (λ z.
            omega (arith, z, linked.held p c nz, ap (λ x. one (x == p)) e, ap one (==_refl p))) in
          let (ys, run, counts) = without-count c xs holds in
          (
            put_items t (children_of p) ys,
            remove_sibling-put t c (children_of p) xs ys (siblings-child t c p e nz) list run,
            Removed-child t c p xs ys e nz list counts,
          )

      at_top : t.parent c ≡ 0 → (t1 : Tree) × (remove_sibling c t ≡ some t1) × Removed c t t1
      at_top e = elim (Bool-cases (t.workspace c == 0)) [
        | inl off ↦ (
          t,
          remove_sibling-off t c e ((==_iff (t.workspace c) 0).0 off),
          Removed-off t c e ((==_iff (t.workspace c) 0).0 off),
        )
        | inr on ↦
            let w = t.workspace c in
            let nz = ne_of_== w 0 on in
            elim (delete-count (t.tiling w) c) [
              | inl (gone, none_here) ↦
                  let (ys, run, counts) =
                    without-count c (t.floating w)
                      (λ z. omega (arith, z, none_here, placed_once w nz refl e)) in
                  (
                    put_items t (floating_of w) ys,
                    remove_sibling-put t c (floating_of w) (t.floating w) ys
                        (siblings-floating t c w e refl nz gone) refl run,
                    Removed-floating t c w (t.floating w) ys e refl nz counts refl,
                  )
              | inr (ys', i, found, _, less) ↦
                  let (ys, run, counts) =
                    without-count c (t.tiling w)
                      (λ z. omega (arith, z, less c, ap one (==_refl c))) in
                  (
                    put_items t (tiling_of w) ys,
                    remove_sibling-put t c (tiling_of w) (t.tiling w) ys
                        (siblings-tiling t c w i e refl nz found) refl run,
                    Removed-tiling t c w (t.tiling w) ys e refl nz counts refl,
                  )
            ]
      ]
