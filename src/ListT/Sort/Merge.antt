-- ===== src/ListT/Sort/Merge.antt =====
-- The loops of `list_rotate` and `list_inplace_merge` on an array in blocks.
use scrollfx.Prelude.{
  ℕ, zero, suc, ◌+◌, ◌-◌, ◌<◌, ◌≡◌, refl, sym, ap, ◌∙◌, List, [], ◌∷◌, ◌++◌, map, append_assoc,
  map-append, Option, some, Bool, true, false, ◌&&◌, ℤ, length, length-append, length-map,
  get_elem?, get_elem?-append, le→leb, lt→leb, leb, arith, Bool-cases, inl, inr, ◌⊎◌,
}
use scrollfx.Seq.{Ptr}
use scrollfx.ListT.{Cells, read, write}
use scrollfx.ListT.Shift.{write_block, last_of_block}
use scrollfx.ListT.Sort.{nonpos, rotate_from, list_rotate, merge_from, list_inplace_merge}
use scrollfx.ListT.Sort.Order.{
  TotalPreorder, Sorted, Merged, rest_right, rest_left, take_left, take_right, Merged-of_ordered,
}

pub get_block :
    (l a : Cells) (y : Option Ptr) (b : Cells) (i : ℕ)
    → l ≡ a ++ y ∷ b
    → length a ≡ i
    → get_elem? l i ≡ some y
get_block l a y b i e h = rw (e, ← h) (get_elem?-append a y b)

pub read_block :
    (l a : Cells) (x : Ptr) (b : Cells) (i : ℕ)
    → l ≡ a ++ some x ∷ b
    → length a ≡ i
    → read l i ≡ some x
unfolding read
read_block l a x b i e h = rw (get_block l a (some x) b i e h)

pub write_at :
    (l a : Cells) (y v : Option Ptr) (b : Cells) (i : ℕ)
    → l ≡ a ++ y ∷ b
    → length a ≡ i
    → write l i v ≡ some (a ++ v ∷ b)
write_at l a y v b i e h = rw e (write_block a y v b i h)

-- The loop moves a block up by one; the cell at its old start keeps some value.
rotate_from_block :
    (p b : Cells) (w : Option Ptr) (s : Cells) (from n : ℕ)
    → length p ≡ from
    → length b ≡ n
    → (z : Option Ptr) × (rotate_from (p ++ (b ++ w ∷ s)) from n ≡ some (p ++ z ∷ (b ++ s)))
unfolding rotate_from
rotate_from_block p [] w s from zero hp hb = (w, refl)
rotate_from_block p [] w s from (suc n) hp hb = absurd (omega arith)
rotate_from_block p (y ∷ b) w s from zero hp hb = absurd (omega arith)
rotate_from_block p (y ∷ b) w s from (suc n) hp hb =
    let (r, u, e, h) = last_of_block y b in
    let start : p ++ (y ∷ b ++ w ∷ s) ≡ p ++ ((r ++ u ∷ []) ++ w ∷ s) =
      ap (λ k. p ++ (k ++ w ∷ s)) e in
    let here : p ++ (y ∷ b ++ w ∷ s) ≡ (p ++ r) ++ u ∷ (w ∷ s) =
      start
      ∙ ap (λ k. p ++ k) (append_assoc r (u ∷ []) (w ∷ s))
      ∙ sym (append_assoc p r (u ∷ (w ∷ s))) in
    let there : p ++ (y ∷ b ++ w ∷ s) ≡ (p ++ (r ++ u ∷ [])) ++ w ∷ s =
      start ∙ sym (append_assoc p (r ++ u ∷ []) (w ∷ s)) in
    let (z, rest) = rotate_from_block p r u (u ∷ s) from n hp (omega (arith, h)) in
    let moved : (p ++ (r ++ u ∷ [])) ++ u ∷ s ≡ p ++ (r ++ u ∷ (u ∷ s)) =
      append_assoc p (r ++ u ∷ []) (u ∷ s) ∙ ap (λ k. p ++ k) (append_assoc r (u ∷ []) (u ∷ s)) in
    let final : r ++ u ∷ s ≡ y ∷ b ++ s =
      sym (append_assoc r (u ∷ []) s) ∙ ap (λ k. k ++ s) (sym e) in
    (
      z,
      rw (
        get_block _ (p ++ r) u (w ∷ s) (from + n) here (omega (arith, length-append p r, h)),
        write_at _ (p ++ (r ++ u ∷ [])) w u s (from + suc n) there
            (omega (arith, length-append p (r ++ u ∷ []), length-append r (u ∷ []), h)),
        moved,
        rest,
        final,
      ),
    )

-- `list_rotate` takes the cell at `to` out and puts it in front of the block that starts at `from`.
list_rotate_block :
    (p b : Cells) (w : Option Ptr) (s : Cells) (from to : ℕ)
    → length p ≡ from
    → from + length b ≡ to
    → list_rotate (p ++ (b ++ w ∷ s)) from to ≡ some (p ++ w ∷ (b ++ s))
unfolding list_rotate
list_rotate_block p b w s from to hp hb =
    let (z, e) = rotate_from_block p b w s from (to - from) hp (omega arith) in
    rw (
      get_block _ (p ++ b) w s to (sym (append_assoc p b (w ∷ s)))
          (omega (arith, length-append p b)),
      e,
      write_block p z w (b ++ s) from hp,
    )

-- The array of two runs between what stands before and behind them.
abbrev pub runs : Cells → List Ptr → List Ptr → Cells → Cells
runs pre xs ys post = pre ++ (map some xs ++ (map some ys ++ post))

length-items : (xs : List Ptr) → length (map {B = Option Ptr} some xs) ≡ length xs
length-items xs = length-map some xs

and-true : (a b : Bool) → a ≡ true → b ≡ true → (a && b) ≡ true
and-true a b h k = ground arith

and-false : (a b : Bool) → (a ≡ false) ⊎ (b ≡ false) → (a && b) ≡ false
and-false a b h = ground arith

module _ (compare : Ptr → Ptr → ℤ) where
  abbrev pub le : Ptr → Ptr → Bool
  le a b = nonpos (compare a b)

  -- The loop, from two runs that are left, replaces them by a merge of both.
  merge_from-runs :
      (fuel : ℕ) (pre post : Cells) (xs ys : List Ptr) (left last mid right : ℕ)
      → length pre ≡ left
      → mid + 1 ≡ left + length xs
      → right ≡ mid + 1
      → last + 1 ≡ right + length ys
      → length xs + length ys < fuel
      → (out : List Ptr) × (merge_from compare fuel (runs pre xs ys post) left last mid right
          ≡ some (pre ++ (map some out ++ post)))
        × Merged le xs ys out
  unfolding merge_from
  merge_from-runs zero pre post xs ys left last mid right hp hm hr hl hf = absurd (omega arith)
  merge_from-runs (suc fuel) pre post [] ys left last mid right hp hm hr hl hf =
      let stop : (leb left mid && leb right last) ≡ false =
        and-false (leb left mid) (leb right last) (inl (lt→leb left mid (omega arith))) in
      (ys, rw (stop), rest_right ys)
  merge_from-runs (suc fuel) pre post (x ∷ xs) [] left last mid right hp hm hr hl hf =
      let stop : (leb left mid && leb right last) ≡ false =
        and-false (leb left mid) (leb right last) (inr (lt→leb right last (omega arith))) in
      (x ∷ xs, rw (stop), rest_left (x ∷ xs))
  merge_from-runs (suc fuel) pre post (x ∷ xs) (y ∷ ys) left last mid right hp hm hr hl hf =
      let more : (leb left mid && leb right last) ≡ true =
        and-true (leb left mid) (leb right last) (le→leb left mid (omega arith))
          (le→leb right last (omega arith)) in
      let cells = runs pre (x ∷ xs) (y ∷ ys) post in
      let first : read cells left ≡ some x =
        read_block cells pre x (map some xs ++ (some y ∷ map some ys ++ post)) left refl hp in
      let second : read cells right ≡ some y =
        read_block cells (pre ++ map some (x ∷ xs)) y (map some ys ++ post) right
          (sym (append_assoc pre (map some (x ∷ xs)) (some y ∷ map some ys ++ post)))
          (omega (arith, length-append pre (map some (x ∷ xs)), length-items (x ∷ xs))) in
      elim (Bool-cases (nonpos (compare x y))) [
        | inl in_order ↦
            let (out, e, m) =
              merge_from-runs fuel (pre ++ some x ∷ []) post xs (y ∷ ys) (left + 1) last mid right
                (omega (arith, length-append pre (some x ∷ []))) (omega arith) hr hl
                (omega arith) in
            let same : runs (pre ++ some x ∷ []) xs (y ∷ ys) post ≡ cells =
              append_assoc pre (some x ∷ []) (map some xs ++ (some y ∷ map some ys ++ post)) in
            (
              x ∷ out,
              rw (more, first, second, in_order, ← same, e)
                  (ap some (append_assoc pre (some x ∷ []) (map some out ++ post))),
              take_left x y xs ys out in_order m,
            )
        | inr behind ↦
            let (out, e, m) =
              merge_from-runs fuel (pre ++ some y ∷ []) post (x ∷ xs) ys (left + 1) last (mid + 1)
                (right + 1) (omega (arith, length-append pre (some y ∷ []))) (omega arith)
                (omega arith) (omega arith) (omega arith) in
            let rotated : list_rotate cells left right
                ≡ some (runs (pre ++ some y ∷ []) (x ∷ xs) ys post) =
              list_rotate_block pre (map some (x ∷ xs)) (some y) (map some ys ++ post) left right hp
                (omega (arith, length-items (x ∷ xs)))
              ∙ ap some (
                  sym (
                    append_assoc pre (some y ∷ []) (map some (x ∷ xs) ++ (map some ys ++ post)))) in
            (
              y ∷ out,
              rw (more, first, second, behind, rotated, e)
                  (ap some (append_assoc pre (some y ∷ []) (map some out ++ post))),
              take_right x y xs ys out behind m,
            )
      ]

  -- `list_inplace_merge` replaces two sorted runs by their merge. The left run ends in `x`.
  pub list_inplace_merge-runs :
      (order : TotalPreorder le) (pre post : Cells) (a : List Ptr) (x y : Ptr) (b : List Ptr)
      (left last mid : ℕ)
      → Sorted le (a ++ x ∷ [])
      → length pre ≡ left
      → mid ≡ left + length a
      → last ≡ mid + suc (length b)
      → (out : List Ptr) × (list_inplace_merge compare
            (runs pre (a ++ x ∷ []) (y ∷ b) post)
            left
            last
            mid
          ≡ some (pre ++ (map some out ++ post)))
        × Merged le (a ++ x ∷ []) (y ∷ b) out
  unfolding list_inplace_merge
  list_inplace_merge-runs order pre post a x y b left last mid h hp hm hl =
      let xs = a ++ x ∷ [] in
      let cells = runs pre xs (y ∷ b) post in
      let behind = some y ∷ map some b ++ post in
      let at_mid : cells ≡ (pre ++ map some a) ++ some x ∷ behind =
        ap (λ k. pre ++ (k ++ behind)) (map-append some a (x ∷ []))
        ∙ ap (λ k. pre ++ k) (append_assoc (map some a) (some x ∷ []) behind)
        ∙ sym (append_assoc pre (map some a) (some x ∷ behind)) in
      let first : read cells mid ≡ some x =
        read_block cells (pre ++ map some a) x behind mid at_mid
          (omega (arith, length-append pre (map some a), length-items a)) in
      let second : read cells (mid + 1) ≡ some y =
        read_block cells (pre ++ map some xs) y (map some b ++ post) (mid + 1)
          (sym (append_assoc pre (map some xs) behind))
          (omega
            (arith, length-append pre (map some xs), length-items xs, length-append a (x ∷ []))) in
      elim (Bool-cases (nonpos (compare x y))) [
        | inl in_order ↦ (
          xs ++ y ∷ b,
          rw (first, second, in_order)
              (ap (λ k. some (pre ++ k))
                (sym (
                  ap (λ k. k ++ post) (map-append some xs (y ∷ b))
                  ∙ append_assoc (map some xs) (map some (y ∷ b)) post))),
          Merged-of_ordered le order a x y b h in_order,
        )
        | inr out_of_order ↦
            let (out, e, m) =
              merge_from-runs (last + 2 - left) pre post xs (y ∷ b) left last mid (mid + 1) hp
                (omega (arith, length-append a (x ∷ []))) refl (omega arith)
                (omega (arith, length-append a (x ∷ []))) in
            (out, rw (first, second, out_of_order) e, m)
      ]
