-- ===== src/ListT/Move.antt =====
-- `list_swap`, `list_move_to` and `list_move_to_end` of common/list.c, against those on sequences.
use scrollfx.Prelude.{
  ℕ, zero, suc, ◌-◌, ◌*◌, ◌≤◌, ◌<◌, ◌≡◌, refl, sym, ap, ◌∙◌, List, [], ◌∷◌, ◌++◌, map, append_assoc,
  map-append, Option, some, ℤ, pos, negsuc, length, length-append, lt→ltb, le→ltb, get_elem?, set,
  arith, inl, inr, split_at, subst, ne→==, ==_refl, length-set, get_elem?-lt,
}
use native.Mathlib.Decide.{dec_lt}
use scrollfx.Seq
use scrollfx.Seq.{Ptr, find}
use scrollfx.Seq.Laws.{
  find_cases, Absent, move_to-append, move_to_end-append, move_to-Absent, move_to_end-Absent,
}
use scrollfx.ListT.{
  ListT, Cells, int_max, write, list_swap, swap_cells, get, put, move_to_end_at, list_move_to_end,
  move_to_at, list_move_to,
}
use scrollfx.ListT.Shift.{shift_up, shift_down, write_block}
use scrollfx.ListT.Holds.{
  Holds, Implements, cells_of, list_add-Holds, list_find-Holds, length-cells_of,
}
use scrollfx.ListT.Edit.{
  Implements-of_eq, cells_of-append, cells_of-middle, length-cells, delete_between,
}

-- `list_move_to_end` takes the first occurrence of its item out and appends it, and changes nothing
-- when the list does not hold the item.
pub list_move_to_end-Implements :
    (l : ListT) (xs : List Ptr) (x : Ptr)
    → Holds l xs
    → length xs * 2 ≤ int_max
    → Implements (list_move_to_end l x) (Seq.move_to_end xs x)
unfolding list_move_to_end move_to_end_at
list_move_to_end-Implements l xs x h small = elim (find_cases xs x) [
  | inl (lost, absent) ↦
      Implements-of_eq (rw (list_find-Holds l xs x h, lost)) (move_to_end-Absent xs x absent) h
  | inr (a, b, e, found, absent) ↦
      let (m, deleted, hm) = delete_between l a b x (length a) refl (subst (Holds l) e h) in
      let (l', added, hl) =
        list_add-Holds m (a ++ b) x hm
          (omega (arith, ap length e, length-append a b, length-append a (x ∷ b), small)) in
      Implements-of_eq (rw (list_find-Holds l xs x h, found, deleted) added)
        (move_to_end-append xs a b x e absent) hl
]

-- Moving up: the items between the two places go down by one.
move_up :
    (l : ListT) (a m d : List Ptr) (x : Ptr) (i k : ℕ)
    → length a ≡ i
    → i < k
    → length m ≡ k - i
    → Holds l (a ++ x ∷ (m ++ d))
    → (l' : ListT) × (move_to_at l (pos k) x (pos i) ≡ some l') × Holds l' ((a ++ m) ++ x ∷ d)
unfolding move_to_at
move_up l a m d x i k ha lt hm h =
    let (w, moved) =
      shift_down (map some a) (some x) (map some m) (map some d ++ h.spare) i (k - i)
        (length-cells a ∙ ha) (length-cells m ∙ hm) in
    let written = write_block (map some a ++ map some m) w (some x) (map some d ++ h.spare) k (
      omega (
        arith,
        length-append (map {B = Option Ptr} some a) (map some m),
        length-cells a,
        length-cells m,
      )) in
    (
      record l { items = (map some a ++ map some m) ++ some x ∷ (map some d ++ h.spare) },
      rw (
        ne→== i k (λ e. omega arith),
        lt→ltb i k lt,
        h.items,
        start,
        moved,
        ← append_assoc (map some a) (map some m) (w ∷ (map some d ++ h.spare)),
        written,
      ),
      record {
        spare = h.spare;
        items = sym (
            cells_of-middle (a ++ m) d x h.spare
            ∙ ap (λ c. c ++ some x ∷ (map some d ++ h.spare)) (map-append some a m));
        counted = omega (arith, h.counted, same);
        allocated = omega (arith, h.allocated, same);
        positive = h.positive;
      },
    )
  where
    start :
        cells_of (a ++ x ∷ (m ++ d)) h.spare
        ≡ map some a ++ some x ∷ (map some m ++ (map some d ++ h.spare))
    start =
        cells_of-middle a (m ++ d) x h.spare
        ∙ ap (λ c. map some a ++ some x ∷ c) (cells_of-append m d h.spare)

    same : length ((a ++ m) ++ x ∷ d) ≡ length (a ++ x ∷ (m ++ d))
    same = omega (
      arith,
      length-append (a ++ m) (x ∷ d),
      length-append a m,
      length-append a (x ∷ (m ++ d)),
      length-append m d,
    )

-- Moving down: the items between the two places go up by one.
move_down :
    (l : ListT) (c m b : List Ptr) (x : Ptr) (i k : ℕ)
    → length c ≡ k
    → k < i
    → length m ≡ i - k
    → Holds l (c ++ (m ++ x ∷ b))
    → (l' : ListT) × (move_to_at l (pos k) x (pos i) ≡ some l') × Holds l' (c ++ x ∷ (m ++ b))
unfolding move_to_at
move_down l c m b x i k hc lt hm h =
    let (cells, moved, written) =
      shift_up (map some c) (map some m) (some x) (some x) (map some b ++ h.spare) k (i - k)
        (length-cells c ∙ hc) (length-cells m ∙ hm) in
    (
      record l { items = map some c ++ some x ∷ (map some m ++ (map some b ++ h.spare)) },
      rw (ne→== i k (λ e. omega arith), le→ltb i k (omega arith), h.items, start, moved, written),
      record {
        spare = h.spare;
        items = sym (
            cells_of-middle c (m ++ b) x h.spare
            ∙ ap (λ k. map some c ++ some x ∷ k) (cells_of-append m b h.spare));
        counted = omega (arith, h.counted, same);
        allocated = omega (arith, h.allocated, same);
        positive = h.positive;
      },
    )
  where
    start :
        cells_of (c ++ (m ++ x ∷ b)) h.spare
        ≡ map some c ++ (map some m ++ some x ∷ (map some b ++ h.spare))
    start =
        cells_of-append c (m ++ x ∷ b) h.spare
        ∙ ap (λ k. map some c ++ k) (cells_of-middle m b x h.spare)

    same : length (c ++ x ∷ (m ++ b)) ≡ length (c ++ (m ++ x ∷ b))
    same = omega (
      arith,
      length-append c (x ∷ (m ++ b)),
      length-append m b,
      length-append c (m ++ x ∷ b),
      length-append m (x ∷ b),
    )

move_to_same : (l : ListT) (x : Ptr) (i : ℕ) → move_to_at l (pos i) x (pos i) ≡ some l
unfolding move_to_at
move_to_same l x i = rw (==_refl i)

move_to_missing :
    (l : ListT) (index : ℤ) (x : Ptr) (n : ℕ) → move_to_at l index x (negsuc n) ≡ some l
unfolding move_to_at
move_to_missing l (pos k) x n = refl
move_to_missing l (negsuc k) x n = refl

-- The three ways of the move, for an item that stands behind `a` and in front of `b`.
move_to_found :
    (l : ListT) (xs a b : List Ptr) (x : Ptr) (k : ℕ)
    → xs ≡ a ++ x ∷ b
    → Absent x a
    → k < length xs
    → Holds l (a ++ x ∷ b)
    → Implements (move_to_at l (pos k) x (pos (length a))) (Seq.move_to xs (pos k) x)
move_to_found l xs a b x k e absent in_range h = go (dec_lt (length a) k) (dec_lt k (length a))
  where
    go :
        Dec (length a < k)
        → Dec (k < length a)
        → Implements (move_to_at l (pos k) x (pos (length a))) (Seq.move_to xs (pos k) x)
    go (yes up) _ =
        let (m, d, e', n) =
          split_at b (k - length a) (omega (arith, ap length e, length-append a (x ∷ b))) in
        let (l', done, hl) =
          move_up l a m d x (length a) k refl up n (subst (λ r. Holds l (a ++ x ∷ r)) e' h) in
        Implements-of_eq done
          (move_to-append xs a b (a ++ m) d x k e absent
            (ap (λ r. a ++ r) e' ∙ sym (append_assoc a m d)) (omega (arith, length-append a m)))
          hl
    go (no _) (yes down) =
        let (c, m, e', n) = split_at a k (omega arith) in
        let (l', done, hl) =
          move_down l c m b x (length a) k n down (omega (arith, ap length e', length-append c m))
            (subst (Holds l) (ap (λ r. r ++ x ∷ b) e' ∙ append_assoc c m (x ∷ b)) h) in
        Implements-of_eq done
          (move_to-append xs a b c (m ++ b) x k e absent (ap (λ r. r ++ b) e' ∙ append_assoc c m b)
            n)
          hl
    go (no p) (no q) =
        let same : k ≡ length a = omega arith in
        Implements-of_eq (rw same (move_to_same l x (length a)))
          (move_to-append xs a b a b x k e absent refl (sym same)) h

-- `list_move_to` moves the first occurrence of its item to an index of the list, and changes nothing
-- when the list does not hold the item.
pub list_move_to-Implements :
    (l : ListT) (xs : List Ptr) (x : Ptr) (k : ℕ)
    → Holds l xs
    → k < length xs
    → Implements (list_move_to l (pos k) x) (Seq.move_to xs (pos k) x)
unfolding list_move_to
list_move_to-Implements l xs x k h in_range = elim (find_cases xs x) [
  | inl (lost, absent) ↦
      Implements-of_eq (rw (list_find-Holds l xs x h, lost) (move_to_missing l (pos k) x 0))
        (move_to-Absent xs x (pos k) absent) h
  | inr (a, b, e, found, absent) ↦
      let step : list_move_to l (pos k) x ≡ move_to_at l (pos k) x (pos (length a)) =
        rw (list_find-Holds l xs x h, found) in
      subst (λ r. Implements r (Seq.move_to xs (pos k) x)) (sym step)
        (move_to_found l xs a b x k e absent in_range (subst (Holds l) e h))
]

map-set : (xs : List Ptr) (i : ℕ) (v : Ptr) → map some (set xs i v) ≡ set (map some xs) i (some v)
map-set [] i v = refl
map-set (x ∷ xs) zero v = refl
map-set (x ∷ xs) (suc i) v = ap (λ k. some x ∷ k) (map-set xs i v)

set_in_front :
    (a b : Cells) (i : ℕ) (v : Option Ptr) → i < length a → set (a ++ b) i v ≡ set a i v ++ b
set_in_front [] b i v h = elim h [ ]
set_in_front (x ∷ a) b zero v h = refl
set_in_front (x ∷ a) b (suc i) v h = ap (λ k. x ∷ k) (set_in_front a b i v (omega arith))

get_item :
    (xs : List Ptr) (s : Cells) (i : ℕ) (x : Ptr)
    → get_elem? xs i ≡ some x
    → get_elem? (cells_of xs s) i ≡ some (some x)
get_item [] s i x e = cc
get_item (y ∷ xs) s zero x e = ap some e
get_item (y ∷ xs) s (suc i) x e = get_item xs s i x e

put_item :
    (xs : List Ptr) (s : Cells) (i : ℕ) (v : Ptr)
    → i < length xs
    → put (cells_of xs s) (pos i) (some v) ≡ some (cells_of (set xs i v) s)
unfolding put write
put_item xs s i v h = rw (lt→ltb i (length (cells_of xs s)) (omega (arith, length-cells_of xs s))) (
    ap some (
      set_in_front (map some xs) s i (some v) (omega (arith, length-cells xs))
      ∙ ap (λ k. k ++ s) (sym (map-set xs i v))))

pub swap_items :
    (xs : List Ptr) (s : Cells) (i j : ℕ) (x y : Ptr)
    → get_elem? xs i ≡ some x
    → get_elem? xs j ≡ some y
    → i < length xs
    → j < length xs
    → swap_cells (cells_of xs s) (pos i) (pos j) ≡ some (cells_of (set (set xs i y) j x) s)
unfolding swap_cells get
swap_items xs s i j x y ex ey hi hj =
    rw (get_item xs s i x ex, get_item xs s j y ey, put_item xs s i y hi)
      (put_item (set xs i y) s j x (omega (arith, length-set xs i y)))

-- `list_swap` exchanges two items of the list.
pub list_swap-Implements :
    (l : ListT) (xs : List Ptr) (i j : ℕ)
    → Holds l xs
    → i < length xs
    → j < length xs
    → Implements (list_swap l (pos i) (pos j)) (Seq.swap xs (pos i) (pos j))
unfolding list_swap
list_swap-Implements l xs i j h hi hj =
    let (x, ex) = get_elem?-lt xs i hi in
    let (y, ey) = get_elem?-lt xs j hj in
    let same : length (set (set xs i y) j x) ≡ length xs =
      length-set (set xs i y) j x ∙ length-set xs i y in
    rw (h.items, swap_items xs h.spare i j x y ex ey hi hj, ex, ey)
      (record {
        spare = h.spare;
        items = refl;
        counted = omega (arith, h.counted, same);
        allocated = omega (arith, h.allocated, same);
        positive = h.positive;
      })
