-- ===== src/ListT/Edit.antt =====
-- The operations of common/list.c that change a list in place, against those on sequences.
use scrollfx.Prelude.{
  ℕ, suc, ◌+◌, ◌-◌, ◌*◌, ◌≤◌, ◌≡◌, sym, ap, ◌∙◌, List, ◌∷◌, ◌++◌, map, append_assoc, map-append,
  Option, some, ℤ, pos, negsuc, length, length-append, length-map, le→leb, le→ltb, lt→leb, ltb,
  arith, Bool-cases, inl, inr, ltb→lt, split_at, cut, subst,
}
use scrollfx.Seq
use scrollfx.Seq.{Ptr, find}
use scrollfx.Seq.Laws.{insert-append, delete-append}
use scrollfx.ListT.{ListT, Cells, int_max, list_insert, list_del}
use scrollfx.ListT.Shift.{shift_up, shift_down}
use scrollfx.ListT.Holds.{Holds, Implements, cells_of, list_resize-HasRoom}

-- The cells of two blocks of items, and what is behind them.
pub cells_of-append :
    (a b : List Ptr) (s : Cells) → cells_of (a ++ b) s ≡ map some a ++ (map some b ++ s)
cells_of-append a b s =
    ap (λ k. k ++ s) (map-append some a b) ∙ append_assoc (map some a) (map some b) s

pub cells_of-middle :
    (a b : List Ptr) (y : Ptr) (s : Cells)
    → cells_of (a ++ y ∷ b) s ≡ map some a ++ some y ∷ (map some b ++ s)
cells_of-middle a b y s = cells_of-append a (y ∷ b) s

pub length-cells : (a : List Ptr) → length (map {B = Option Ptr} some a) ≡ length a
length-cells a = length-map some a

pub Implements-of_eq :
    {r : Option ListT} {s : Option (List Ptr)} {l : ListT} {ys : List Ptr}
    → r ≡ some l
    → s ≡ some ys
    → Holds l ys
    → Implements r s
Implements-of_eq e e' h = rw (e, e') h

-- Insertion into a list with room, at the border of two blocks.
insert_between :
    (l : ListT) (a b : List Ptr) (x : Ptr) (i : ℕ)
    → length a ≡ i
    → Holds l (a ++ b)
    → length (a ++ b) * 2 ≤ int_max
    → (l' : ListT) × (list_insert l (pos i) x ≡ some l') × Holds l' (a ++ x ∷ b)
unfolding list_insert
insert_between l a b x i ha h small =
    let (m, e, r) = list_resize-HasRoom l (a ++ b) h small in
    let n : m.length - i ≡ length b = omega (arith, r.counted, length-append a b) in
    let (cells, moved, written) =
      shift_up (map some a) (map some b) r.first (some x) r.spare i (m.length - i)
        (length-cells a ∙ ha) (length-cells b ∙ sym n) in
    (
      record m { length = m.length + 1; items = map some a ++ some x ∷ (map some b ++ r.spare) },
      rw (
        e,
        le→ltb m.length i (omega (arith, r.counted, length-append a b)),
        r.items,
        cells_of-append a b (r.first ∷ r.spare),
        moved,
        written,
      ),
      record {
        spare = r.spare;
        items = sym (cells_of-middle a b x r.spare);
        counted = omega (arith, r.counted, length-append a b, length-append a (x ∷ b));
        allocated = omega (arith, r.allocated, length-append a b, length-append a (x ∷ b));
        positive = omega (arith, r.allocated);
      },
    )

-- `list_insert` puts an item in front of the one at its index, and leaves the array when the index
-- is below zero or above the length.
pub list_insert-Implements :
    (l : ListT) (xs : List Ptr) (i : ℤ) (x : Ptr)
    → Holds l xs
    → length xs * 2 ≤ int_max
    → Implements (list_insert l i x) (Seq.insert xs i x)
unfolding list_insert
list_insert-Implements l xs (negsuc i) x h small = tt
list_insert-Implements l xs (pos i) x h small = elim (Bool-cases (ltb (length xs) i)) [
  | inl out ↦ let (m, e, r) = list_resize-HasRoom l xs h small in rw (out, e, r.counted, out) tt
  | inr in_range ↦
      let (a, b, e, n) = split_at xs i (ground arith) in
      let (l', done, h') =
        insert_between l a b x i n (subst (Holds l) e h)
          (subst (λ k. length k * 2 ≤ int_max) e small) in
      Implements-of_eq done (insert-append xs a b x i e n) h'
]

-- Deletion of the item between two blocks. Its cell goes to the spare ones.
pub delete_between :
    (l : ListT) (a b : List Ptr) (y : Ptr) (i : ℕ)
    → length a ≡ i
    → Holds l (a ++ y ∷ b)
    → (l' : ListT) × (list_del l (pos i) ≡ some l') × Holds l' (a ++ b)
unfolding list_del
delete_between l a b y i ha h =
    let total : length (a ++ y ∷ b) ≡ length a + suc (length b) = length-append a (y ∷ b) in
    let n : l.length - 1 - i ≡ length b = omega (arith, h.counted, total) in
    let (w, moved) =
      shift_down (map some a) (some y) (map some b) h.spare i (l.length - 1 - i)
        (length-cells a ∙ ha) (length-cells b ∙ sym n) in
    (
      record l { length = l.length - 1; items = map some a ++ (map some b ++ w ∷ h.spare) },
      rw (
        lt→leb l.length i (omega (arith, h.counted, total)),
        h.items,
        cells_of-middle a b y h.spare,
        moved,
      ),
      record {
        spare = w ∷ h.spare;
        items = sym (cells_of-append a b (w ∷ h.spare));
        counted = omega (arith, h.counted, total, length-append a b);
        allocated = omega (arith, h.allocated, total, length-append a b);
        positive = h.positive;
      },
    )

-- `list_del` takes out the item at its index, and leaves the array at any other index.
pub list_del-Implements :
    (l : ListT) (xs : List Ptr) (i : ℤ) → Holds l xs → Implements (list_del l i) (Seq.delete xs i)
unfolding list_del
list_del-Implements l xs (negsuc i) h = tt
list_del-Implements l xs (pos i) h = elim (Bool-cases (ltb i (length xs))) [
  | inl in_range ↦
      let (a, y, b, e, n) = cut xs i (ltb→lt i (length xs) in_range) in
      let (l', done, h') = delete_between l a b y i n (subst (Holds l) e h) in
      Implements-of_eq done (delete-append xs a b y i e n) h'
  | inr out ↦ rw (out, le→leb l.length i (ground (arith, h.counted))) tt
]
