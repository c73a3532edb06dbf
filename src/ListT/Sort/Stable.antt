-- ===== src/ListT/Sort/Stable.antt =====
-- `list_stable_sort` of common/list.c sorts, and is stable.
use scrollfx.Prelude.{
  ℕ, zero, suc, ◌+◌, ◌-◌, ◌/◌, ◌<◌, ◌≡◌, refl, sym, ap, ◌∙◌, List, [], ◌∷◌, ◌++◌, map, append_assoc,
  map-append, Option, some, true, false, ℤ, pos, ◌>>=◌, length, length-append, length-map, le→leb,
  lt→leb, leb, arith, Bool-cases, inl, inr, ==_iff, ne→==, ◌==◌, split_at, subst, subst₂, unsnoc,
  uncons, lt→ltb, le→ltb,
}
use scrollfx.Seq.{Ptr}
use scrollfx.ListT.{ListT, Cells, read, get, put, swap_cells}
use scrollfx.ListT.Holds.{Holds}
use scrollfx.ListT.Sort.{nonpos, list_inplace_sort, list_inplace_merge, list_stable_sort}
use scrollfx.ListT.Sort.Order.{
  TotalPreorder, StablySorts, Merged-length, StablySorts-merge, StablySorts-single, StablySorts-nil,
  take_left, take_right, rest_left, rest_right,
}
use scrollfx.ListT.Sort.Merge.{le, list_inplace_merge-runs, read_block, get_block, write_at, runs}

-- Exchanging two neighbouring cells.
swap_block :
    (pre : Cells) (u v : Option Ptr) (post : Cells) (first last : ℕ)
    → length pre ≡ first
    → last ≡ first + 1
    → swap_cells (pre ++ u ∷ (v ∷ post)) (pos first) (pos last) ≡ some (pre ++ v ∷ (u ∷ post))
unfolding swap_cells get put
swap_block pre u v post first last hp hl =
    rw
      (
        get_block _ pre u (v ∷ post) first refl hp,
        get_block _ (pre ++ u ∷ []) v post last (sym (append_assoc pre (u ∷ []) (v ∷ post)))
            (omega (arith, length-append pre (u ∷ []))),
        write_at _ pre u v (v ∷ post) first refl hp,
        write_at _ (pre ++ v ∷ []) v u post last (sym (append_assoc pre (v ∷ []) (v ∷ post)))
            (omega (arith, length-append pre (v ∷ []))),
      )
      (ap some (append_assoc pre (v ∷ []) (u ∷ post)))

module _ (compare : Ptr → Ptr → ℤ) (order : TotalPreorder (le compare)) where
  -- What sorting a part of the array gives.
  Sorts : Option Cells → Cells → List Ptr → Cells → Type 0
  Sorts r pre xs post =
      (ys : List Ptr) × (r ≡ some (pre ++ (map some ys ++ post)))
      × (length ys ≡ length xs)
      × StablySorts (le compare) xs ys

  pair-Sorts :
      (fuel : ℕ) (pre post : Cells) (x y : Ptr) (first last : ℕ)
      → length pre ≡ first
      → last ≡ first + 1
      → Sorts
          (list_inplace_sort compare (suc fuel) (pre ++ (some x ∷ some y ∷ post)) first last)
          pre
          (x ∷ y ∷ [])
          post
  unfolding list_inplace_sort Sorts
  pair-Sorts fuel pre post x y first last hp hl =
      let cells = pre ++ (some x ∷ some y ∷ post) in
      let more : leb last first ≡ false = lt→leb last first (omega arith) in
      let two : ((last - first) == 1) ≡ true = (==_iff (last - first) 1).1 (omega arith) in
      let read_x : read cells first ≡ some x =
        read_block cells pre x (some y ∷ post) first refl hp in
      let read_y : read cells last ≡ some y =
        read_block cells (pre ++ some x ∷ []) y post last
          (sym (append_assoc pre (some x ∷ []) (some y ∷ post)))
          (omega (arith, length-append pre (some x ∷ []))) in
      elim (Bool-cases (nonpos (compare x y))) [
        | inl in_order ↦ (
          x ∷ y ∷ [],
          rw (more, two, read_x, read_y, in_order),
          refl,
          StablySorts-merge (le compare) order (StablySorts-single (le compare) order x)
              (StablySorts-single (le compare) order y)
              (take_left x y [] [] (y ∷ []) in_order (rest_right (y ∷ []))),
        )
        | inr behind ↦ (
          y ∷ x ∷ [],
          rw (more, two, read_x, read_y, behind)
              (swap_block pre (some x) (some y) post first last hp hl),
          refl,
          StablySorts-merge (le compare) order (StablySorts-single (le compare) order x)
              (StablySorts-single (le compare) order y)
              (take_right x y [] [] (x ∷ []) behind (rest_left (x ∷ []))),
        )
      ]

  -- Merging two sorted halves.
  halves_merge :
      (pre post : Cells) (xs ys a : List Ptr) (x y : Ptr) (b : List Ptr) (first last mid : ℕ)
      → length pre ≡ first
      → mid ≡ first + length a
      → last ≡ mid + suc (length b)
      → length xs ≡ suc (length a)
      → length ys ≡ suc (length b)
      → StablySorts (le compare) xs (a ++ x ∷ [])
      → StablySorts (le compare) ys (y ∷ b)
      → Sorts
          (list_inplace_merge compare (runs pre (a ++ x ∷ []) (y ∷ b) post) first last mid)
          pre
          (xs ++ ys)
          post
  unfolding Sorts
  halves_merge pre post xs ys a x y b first last mid hp hm hl la lb sa sb =
      let (out, e, m) =
        list_inplace_merge-runs compare order pre post a x y b first last mid sa.sorted hp hm hl in
      (
        out,
        e,
        omega (arith, Merged-length (le compare) m, length-append xs ys, length-append a (x ∷ [])),
        StablySorts-merge (le compare) order sa sb m,
      )

  -- The same where the two sorted halves are known by their lengths.
  halves_merge_of_lengths :
      (pre post : Cells) (xs ys a' b' : List Ptr) (first last mid : ℕ)
      → length pre ≡ first
      → mid + 1 ≡ first + length a'
      → last ≡ mid + length b'
      → 0 < length a'
      → 0 < length b'
      → length xs ≡ length a'
      → length ys ≡ length b'
      → StablySorts (le compare) xs a'
      → StablySorts (le compare) ys b'
      → Sorts (list_inplace_merge compare (runs pre a' b' post) first last mid) pre (xs ++ ys) post
  halves_merge_of_lengths pre post xs ys a' b' first last mid hp hm hl pa pb la lb sa sb =
      let (a, x, ea) = unsnoc a' pa in
      let (y, b, eb) = uncons b' pb in
      let na : length a' ≡ suc (length a) = omega (arith, ap length ea, length-append a (x ∷ [])) in
      let nb : length b' ≡ suc (length b) = ap length eb in
      subst₂
        (λ p q.
          Sorts (list_inplace_merge compare (runs pre p q post) first last mid) pre (xs ++ ys) post)
        (sym ea) (sym eb)
        (halves_merge pre post xs ys a x y b first last mid hp (omega arith) (omega arith)
          (omega arith) (omega arith) (subst (StablySorts (le compare) xs) ea sa)
          (subst (StablySorts (le compare) ys) eb sb))

  -- The two halves one after the other, and their merge.
  abbrev both_halves : ℕ → Cells → ℕ → ℕ → ℕ → Option Cells
  both_halves fuel cells first last mid = do
    a ← list_inplace_sort compare fuel cells first mid
    b ← list_inplace_sort compare fuel a (mid + 1) last
    list_inplace_merge compare b first last mid

  both_halves_sort :
      (fuel : ℕ) (pre post : Cells) (xs ys : List Ptr) (first last mid : ℕ)
      → length pre ≡ first
      → mid + 1 ≡ first + length xs
      → last ≡ mid + length ys
      → 0 < length xs
      → 0 < length ys
      → Sorts
          (list_inplace_sort compare fuel (runs pre xs ys post) first mid)
          pre
          xs
          (map some ys ++ post)
      → ((xs' : List Ptr)
          → length xs' ≡ length xs
          → Sorts
              (list_inplace_sort compare fuel
                ((pre ++ map some xs') ++ (map some ys ++ post))
                (mid + 1)
                last)
              (pre ++ map some xs')
              ys
              post)
      → Sorts (both_halves fuel (runs pre xs ys post) first last mid) pre (xs ++ ys) post
  unfolding Sorts
  both_halves_sort fuel pre post xs ys first last mid hp hm hl px py left right =
      let (xs', ex, nx, sx) = left in
      let (ys', ey, ny, sy) = right xs' nx in
      let (out, e, n, s) =
        halves_merge_of_lengths pre post xs ys xs' ys' first last mid hp (omega arith) (omega arith)
          (omega arith) (omega arith) (sym nx) (sym ny) sx sy in
      let joined : (pre ++ map some xs') ++ (map some ys ++ post) ≡ runs pre xs' ys post =
        append_assoc pre (map some xs') (map some ys ++ post) in
      let joined' : (pre ++ map some xs') ++ (map some ys' ++ post) ≡ runs pre xs' ys' post =
        append_assoc pre (map some xs') (map some ys' ++ post) in
      (out, rw (ex, ← joined, ey, joined') e, n, s)

  part-Sorts :
      (fuel : ℕ) (pre post : Cells) (xs : List Ptr) (first last n : ℕ)
      → length pre ≡ first
      → last ≡ first + n
      → length xs ≡ suc n
      → n < fuel
      → Sorts (list_inplace_sort compare fuel (pre ++ (map some xs ++ post)) first last) pre xs post
  unfolding list_inplace_sort Sorts
  part-Sorts zero pre post xs first last n hp hl hx hf = absurd (omega arith)
  part-Sorts (suc fuel) pre post [] first last n hp hl hx hf = absurd (omega arith)
  part-Sorts (suc fuel) pre post (x ∷ []) first last n hp hl hx hf =
      (x ∷ [], rw (le→leb last first (omega arith)), refl, StablySorts-single (le compare) order x)
  part-Sorts (suc fuel) pre post (x ∷ y ∷ []) first last n hp hl hx hf =
      pair-Sorts fuel pre post x y first last hp (omega arith)
  part-Sorts (suc fuel) pre post (x ∷ y ∷ z ∷ r) first last n hp hl hx hf =
      let mid = (last + first) / 2 in
      let (a, b, e, la) = split_at xs (suc (mid - first)) (omega arith) in
      let total : suc n ≡ length a + length b = sym hx ∙ ap length e ∙ length-append a b in
      let more : leb last first ≡ false = lt→leb last first (omega arith) in
      let many : ((last - first) == 1) ≡ false = ne→== (last - first) 1 (λ k. omega arith) in
      let start : pre ++ (map some xs ++ post) ≡ runs pre a b post =
        ap (λ k. pre ++ (map some k ++ post)) e
        ∙ ap (λ k. pre ++ (k ++ post)) (map-append some a b)
        ∙ ap (λ k. pre ++ k) (append_assoc (map some a) (map some b) post) in
      let step : list_inplace_sort compare (suc fuel) (pre ++ (map some xs ++ post)) first last
          ≡ both_halves fuel (runs pre a b post) first last mid =
        rw (more, many) (ap (λ k. both_halves fuel k first last mid) start) in
      subst₂ (λ r l. Sorts r pre l post) (sym step) (sym e)
        (both_halves_sort fuel pre post a b first last mid hp (omega arith) (omega arith)
          (omega arith) (omega arith)
          (part-Sorts fuel pre (map some b ++ post) a first mid (mid - first) hp (omega arith) la
            (omega arith))
          (λ a' na.
            part-Sorts fuel (pre ++ map some a') post b (mid + 1) last (last - (mid + 1))
              (omega (arith, length-append pre (map some a'), length-map {B = Option Ptr} some a'))
              (omega arith) (omega arith) (omega arith)))
    where
      xs : List Ptr
      xs = x ∷ y ∷ z ∷ r

  -- `list_stable_sort` never leaves the array, and sorts stably by any comparison that is total and
  -- transitive.
  pub list_stable_sort_sorts :
      (l : ListT) (xs : List Ptr)
      → Holds l xs
      → (l' : ListT) × (ys : List Ptr) × (list_stable_sort compare l ≡ some l')
        × Holds l' ys
        × StablySorts (le compare) xs ys
  unfolding list_stable_sort Sorts
  list_stable_sort_sorts l [] h =
      (l, [], rw (le→ltb 1 l.length (omega arith)), h, StablySorts-nil (le compare) order)
  list_stable_sort_sorts l (x ∷ []) h =
      (l, x ∷ [], rw (le→ltb 1 l.length (omega arith)), h, StablySorts-single (le compare) order x)
  list_stable_sort_sorts l (x ∷ y ∷ r) h =
      let (ys, e, n, s) =
        part-Sorts l.length [] h.spare (x ∷ y ∷ r) 0 (l.length - 1) (l.length - 1) refl
          (omega arith) (omega arith) (omega arith) in
      (
        record l { items = map some ys ++ h.spare },
        ys,
        rw (lt→ltb 1 l.length (omega arith), h.items) (ap again e),
        record {
          spare = h.spare;
          items = refl;
          counted = omega (arith, n);
          allocated = omega (arith, n);
          positive = h.positive;
        },
        s,
      )
    where
      again : Option Cells → Option ListT
      again o = o >>= λ cells. some (record l { items = cells })
