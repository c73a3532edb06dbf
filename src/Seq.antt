-- ===== src/Seq.antt =====
-- Finite sequences, as the clients of common/list.c see a `list_t`: what each of its operations
-- does to the items, with `none` where the C code leaves its array.
pub mod Laws
use scrollfx.Prelude.{
  ℕ, zero, suc, ◌+◌, ◌-◌, List, [], ◌∷◌, ◌++◌, Option, none, some, Bool, true, false, ℤ, pos,
  negsuc, ltb, is_neg, ◌==◌, if◌then◌else◌, length, get_elem?, set, take, drop, ◌>>=◌,
}

-- A pointer, by its address.
abbrev pub Ptr : Type 0
Ptr = ℕ

module _ {ℓ} {A : Type ℓ} where
  -- An access by an `int` index.
  abbrev pub item : List A → ℤ → Option A
  item xs (pos i) = get_elem? xs i
  item xs (negsuc i) = none

  abbrev pub insert : List A → ℤ → A → Option (List A)
  insert xs (pos i) x = if ltb (length xs) i then none else some (take i xs ++ x ∷ drop i xs)
  insert xs (negsuc i) x = none

  abbrev pub delete : List A → ℤ → Option (List A)
  delete xs (pos i) = if ltb i (length xs) then some (take i xs ++ drop (suc i) xs) else none
  delete xs (negsuc i) = none

-- The first index whose item passes the test, or -1.
abbrev pub index_from : ℕ → (Ptr → Bool) → List Ptr → ℤ
index_from i test [] = negsuc 0
index_from i test (x ∷ xs) = if test x then pos i else index_from (suc i) test xs

abbrev pub seq_find : (Ptr → Bool) → List Ptr → ℤ
seq_find = index_from 0

abbrev pub find : List Ptr → Ptr → ℤ
find xs x = seq_find (λ y. y == x) xs

abbrev pub swap : List Ptr → ℤ → ℤ → Option (List Ptr)
swap xs i j = do a ← item xs i; b ← item xs j; exchange xs i j a b
  where
    exchange : List Ptr → ℤ → ℤ → Ptr → Ptr → Option (List Ptr)
    exchange ys (pos m) (pos n) a b = some (set (set ys m b) n a)
    exchange ys _ _ a b = none

-- Moving an item to an index is taking it out and putting it back there; one that the list does not
-- hold moves nothing.
abbrev pub move_to : List Ptr → ℤ → Ptr → Option (List Ptr)
move_to xs index x = if is_neg (find xs x) then some xs else moved
  where
    moved : Option (List Ptr)
    moved = do ys ← delete xs (find xs x); insert ys index x

abbrev pub move_to_end : List Ptr → Ptr → Option (List Ptr)
move_to_end xs x = if is_neg (find xs x) then some xs else moved
  where
    moved : Option (List Ptr)
    moved = do ys ← delete xs (find xs x); some (ys ++ x ∷ [])
