-- ===== src/ListT/Holds.antt =====
-- A `list_t` as a sequence of pointers: the relation between the two, and the operations of
-- common/list.c that build and search a list.
use scrollfx.Prelude.{
  ℕ, zero, suc, ◌+◌, ◌-◌, ◌*◌, ◌≤◌, ◌<◌, ◌≡◌, refl, sym, ap, ◌∙◌, List, [], ◌∷◌, ◌++◌, map,
  append-nil, append_assoc, map-append, Option, none, some, Bool, ℤ, length, length-append,
  length-map, length-replicate, set-append, get_elem?-append, lt→ltb, get_elem?, set, replicate,
  arith, Bool-cases, inl, inr, ◌==◌,
}
use scrollfx.Seq.{Ptr, index_from, seq_find, find}
use scrollfx.ListT.{
  ListT, Cells, int_max, read, write, create_list, list_resize, list_add, cat_from, list_cat,
  seek_from, list_seq_find, list_find, is_zero,
}

-- The cells of a list whose items are `xs`, with the cells `spare` behind them.
abbrev pub cells_of : List Ptr → Cells → Cells
cells_of xs spare = map some xs ++ spare

-- The list `l` holds the items `xs`, and has room in front of its capacity's end for `spare`.
pub record Holds (l : ListT) (xs : List Ptr) : Type 0 where
  pub spare : Cells
  pub items : l.items ≡ cells_of xs spare
  pub counted : l.length ≡ length xs
  pub allocated : l.capacity ≡ length xs + length spare
  pub positive : 0 < l.capacity

-- A step of the C code against one on sequences: both fail, or both succeed and agree.
abbrev pub Implements : Option ListT → Option (List Ptr) → Type 0
Implements none none = Unit
Implements none (some xs) = ⊥
Implements (some l) none = ⊥
Implements (some l) (some xs) = Holds l xs

-- `create_list` makes an empty list with ten cells.
pub create_list-Holds : Holds create_list []
unfolding create_list
create_list-Holds = record {
  spare = replicate 10 none;
  items = refl;
  counted = refl;
  allocated = refl;
  positive = omega arith;
}

-- What the editing operations start from: the items, one spare cell, and the rest.
pub record HasRoom (l : ListT) (xs : List Ptr) : Type 0 where
  pub spare : Cells
  pub first : Option Ptr
  pub items : l.items ≡ cells_of xs (first ∷ spare)
  pub counted : l.length ≡ length xs
  pub allocated : l.capacity ≡ length xs + suc (length spare)

pub length-cells_of : (xs : List Ptr) (s : Cells) → length (cells_of xs s) ≡ length xs + length s
length-cells_of xs s =
    omega (arith, length-append (map some xs) s, length-map {B = Option Ptr} some xs)

replicate_pos : {A : Type 0} (n : ℕ) (a : A) → 0 < n → replicate n a ≡ a ∷ replicate (n - 1) a
replicate_pos zero a h = elim h [ ]
replicate_pos (suc n) a h = ap (λ k. a ∷ replicate k a) (omega arith)

-- A full list grows by as many cells as it has.
list_resize-full :
    (l : ListT) (xs : List Ptr)
    → Holds l xs
    → l.length ≡ l.capacity
    → l.items ≡ cells_of xs []
    → l.capacity * 2 ≤ int_max
    → (l' : ListT) × (list_resize l ≡ some l') × HasRoom l' xs
unfolding list_resize
list_resize-full l xs h full e small = (
  record l { capacity = l.capacity * 2; items = l.items ++ replicate l.capacity none },
  ground arith,
  record {
    spare = replicate (l.capacity - 1) none;
    first = none;
    items =
        rw (e, append-nil) (ap (λ s. map some xs ++ s) (replicate_pos l.capacity none h.positive));
    counted = h.counted;
    allocated = omega (
      arith,
      h.counted,
      full,
      h.positive,
      length-replicate {0} {A = Option Ptr} (l.capacity - 1) none,
    );
  },
)

-- After `list_resize` there is room for one more item, provided the capacity can double.
pub list_resize-HasRoom :
    (l : ListT) (xs : List Ptr)
    → Holds l xs
    → length xs * 2 ≤ int_max
    → (l' : ListT) × (list_resize l ≡ some l') × HasRoom l' xs
unfolding list_resize
list_resize-HasRoom l xs h small = go h.spare h.items h.allocated
  where
    go :
        (s : Cells)
        → l.items ≡ cells_of xs s
        → l.capacity ≡ length xs + length s
        → (l' : ListT) × (list_resize l ≡ some l') × HasRoom l' xs
    go (c ∷ s) e n = (
      l,
      ground (arith, h.counted),
      record { spare = s; first = c; items = e; counted = h.counted; allocated = n },
    )
    go [] e n = list_resize-full l xs h (omega (arith, h.counted)) e (omega (arith, n))

pub map-snoc : (xs : List Ptr) (x : Ptr) → map some (xs ++ x ∷ []) ≡ map some xs ++ some x ∷ []
map-snoc xs x = map-append some xs (x ∷ [])

-- A write at the end of the items appends.
pub write_end :
    (xs : List Ptr) (c : Option Ptr) (s : Cells) (x : Ptr) (n : ℕ)
    → n ≡ length xs
    → write (cells_of xs (c ∷ s)) n (some x) ≡ some (cells_of (xs ++ x ∷ []) s)
unfolding write
write_end xs c s x n e =
    rw
      (
        e,
        lt→ltb (length xs) (length (cells_of xs (c ∷ s)))
            (omega (arith, length-cells_of xs (c ∷ s))),
      )
      (ap some (placed ∙ sym shape))
  where
    at : length (map some xs) ≡ length xs
    at = length-map some xs

    placed : set (cells_of xs (c ∷ s)) (length xs) (some x) ≡ map some xs ++ some x ∷ s
    placed = rw (← at) (set-append (map some xs) c (some x) s)

    shape : cells_of (xs ++ x ∷ []) s ≡ map some xs ++ some x ∷ s
    shape = rw map-snoc (append_assoc (map some xs) (some x ∷ []) s)

-- `list_add` appends its item.
pub list_add-Holds :
    (l : ListT) (xs : List Ptr) (x : Ptr)
    → Holds l xs
    → length xs * 2 ≤ int_max
    → (l' : ListT) × (list_add l x ≡ some l') × Holds l' (xs ++ x ∷ [])
unfolding list_add
list_add-Holds l xs x h small =
    let (m, e, r) = list_resize-HasRoom l xs h small in
    (
      record m { length = m.length + 1; items = cells_of (xs ++ x ∷ []) r.spare },
      rw (e, r.items, write_end xs r.first r.spare x m.length r.counted),
      record {
        spare = r.spare;
        items = refl;
        counted = omega (arith, r.counted, length-append xs (x ∷ []));
        allocated = omega (arith, r.allocated, length-append xs (x ∷ []));
        positive = omega (arith, r.allocated);
      },
    )

-- Reading at an item of the list finds it.
pub read_item :
    (xs : List Ptr) (s : Cells) (i : ℕ) (x : Ptr)
    → get_elem? xs i ≡ some x
    → read (cells_of xs s) i ≡ some x
unfolding read
read_item [] s i x e = cc
read_item (y ∷ xs) s zero x e = e
read_item (y ∷ xs) s (suc i) x e = read_item xs s i x e

-- The search from an index on, over the items that are left.
seek_from-index_from :
    (test : Ptr → Bool) (done xs : List Ptr) (s : Cells) (i n : ℕ)
    → i ≡ length done
    → n ≡ length xs
    → seek_from (cells_of (done ++ xs) s) test i n ≡ some (index_from i test xs)
unfolding seek_from
seek_from-index_from test done [] s i zero e n = refl
seek_from-index_from test done [] s i (suc k) e n = absurd (omega arith)
seek_from-index_from test done (x ∷ xs) s i zero e n = absurd (omega arith)
seek_from-index_from test done (x ∷ xs) s i (suc k) e n = elim (Bool-cases (test x)) [
  | inl hit ↦ rw (here, hit)
  | inr miss ↦
      rw (here, miss)
        (rw (append_assoc done (x ∷ []) xs) at (
          seek_from-index_from test (done ++ x ∷ []) xs s (suc i) k
            (omega (arith, length-append done (x ∷ []))) (omega arith)))
]
  where
    here : read (cells_of (done ++ x ∷ xs) s) i ≡ some x
    here = rw e (read_item (done ++ x ∷ xs) s (length done) x (get_elem?-append done x xs))

-- `list_seq_find` finds the first item for which `compare` returns 0, or returns -1.
pub list_seq_find-Holds :
    (l : ListT) (xs : List Ptr) (compare : Ptr → ℤ)
    → Holds l xs
    → list_seq_find l compare ≡ some (seq_find (λ x. is_zero (compare x)) xs)
unfolding list_seq_find
list_seq_find-Holds l xs compare h =
    rw h.items
      (seek_from-index_from (λ x. is_zero (compare x)) [] xs h.spare 0 l.length refl h.counted)

-- `list_find` finds the first place of an item, or returns -1.
pub list_find-Holds :
    (l : ListT) (xs : List Ptr) (x : Ptr) → Holds l xs → list_find l x ≡ some (find xs x)
unfolding list_find
list_find-Holds l xs x h =
    rw h.items (seek_from-index_from (λ y. y == x) [] xs h.spare 0 l.length refl h.counted)

-- The rounds of `list_cat` that are left append the rest of the source.
cat_from-Holds :
    (l source : ListT) (xs done ys : List Ptr) (i n : ℕ)
    → Holds l xs
    → Holds source (done ++ ys)
    → i ≡ length done
    → n ≡ length ys
    → (length xs + length ys) * 2 ≤ int_max
    → (l' : ListT) × (cat_from l source i n ≡ some l') × Holds l' (xs ++ ys)
unfolding cat_from
cat_from-Holds l source xs done [] i zero h hs e n small = (l, refl, rw append-nil h)
cat_from-Holds l source xs done [] i (suc k) h hs e n small = absurd (omega arith)
cat_from-Holds l source xs done (y ∷ ys) i zero h hs e n small = absurd (omega arith)
cat_from-Holds l source xs done (y ∷ ys) i (suc k) h hs e n small =
    let (m, added, hm) = list_add-Holds l xs y h (omega arith) in
    let (l', rest, hl) =
      cat_from-Holds m source (xs ++ y ∷ []) (done ++ y ∷ []) ys (suc i) k hm (rw append_assoc hs)
        (omega (arith, length-append done (y ∷ []))) (omega arith)
        (omega (arith, length-append xs (y ∷ []))) in
    (l', rw (here, added) rest, rw append_assoc at hl)
  where
    here : read source.items i ≡ some y
    here =
        rw (hs.items, e)
          (read_item (done ++ y ∷ ys) hs.spare (length done) y (get_elem?-append done y ys))

-- `list_cat` appends the items of another list.
pub list_cat-Holds :
    (l source : ListT) (xs ys : List Ptr)
    → Holds l xs
    → Holds source ys
    → (length xs + length ys) * 2 ≤ int_max
    → (l' : ListT) × (list_cat l source ≡ some l') × Holds l' (xs ++ ys)
unfolding list_cat
list_cat-Holds l source xs ys h hs small =
    cat_from-Holds l source xs [] ys 0 source.length h hs refl hs.counted small
