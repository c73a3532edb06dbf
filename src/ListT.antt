-- ===== src/ListT.antt =====
-- `list_t` of common/list.c: a growing array of pointers. A step that leaves the array, reads a
-- cell that nothing has written, or overflows an `int` has the result `none`. Allocation succeeds.
pub mod Holds
mod Shift
pub mod Edit
pub mod Move
pub mod Sort
mod Tests
use scrollfx.Prelude.{
  ℕ, zero, suc, ◌+◌, ◌-◌, ◌*◌, ◌^◌, List, [], ◌∷◌, ◌++◌, Option, none, some, Bool, true, false,
  ◌&&◌, ℤ, pos, negsuc, ltb, leb, ltb_ℤ, ◌==◌, if◌then◌else◌, length, get_elem?, set, take, drop,
  replicate, ◌>>=◌,
}
use scrollfx.Seq.{Ptr}

-- A cell of the array; `none` before anything is written to it.
abbrev pub Cells : Type 0
Cells = List (Option Ptr)

pub record ListT : Type 0 where
  pub capacity : ℕ
  pub length : ℕ
  pub items : Cells

-- `INT_MAX`
abbrev pub int_max : ℕ
int_max = 2 ^ 31 - 1

-- `items[i]`, as a value.
pub read : Cells → ℕ → Option Ptr
read cells i = get_elem? cells i >>= λ cell. cell

-- `items[i] = v`
pub write : Cells → ℕ → Option Ptr → Option Cells
write cells i v = if ltb i (length cells) then some (set cells i v) else none

-- `memmove(&items[dst], &items[src], sizeof(void *) * n)`
pub memmove : Cells → ℕ → ℕ → ℕ → Option Cells
memmove cells dst src n =
    if leb (dst + n) (length cells) && leb (src + n) (length cells)
    then some (take dst cells ++ take n (drop src cells) ++ drop (dst + n) cells)
    else none

pub create_list : ListT
create_list = record { capacity = 10; length = 0; items = replicate 10 none }

-- The new half of a doubled array is not initialised.
pub list_resize : ListT → Option ListT
list_resize l =
    if l.length == l.capacity
    then (if leb (l.capacity * 2) int_max then some grown else none)
    else some l
  where
    grown : ListT
    grown = record l { capacity = l.capacity * 2; items = l.items ++ replicate l.capacity none }

pub list_add : ListT → Ptr → Option ListT
list_add list item = do
  l ← list_resize list
  cells ← write l.items l.length (some item)
  some (record l { length = l.length + 1; items = cells })

-- A negative count of bytes is a huge one once it is a `size_t`.
pub list_insert : ListT → ℤ → Ptr → Option ListT
list_insert list (negsuc i) item = none
list_insert list (pos i) item = do
  l ← list_resize list
  cells ← if ltb l.length i then none else memmove l.items (i + 1) i (l.length - i)
  cells' ← write cells i (some item)
  some (record l { length = l.length + 1; items = cells' })

pub list_del : ListT → ℤ → Option ListT
list_del l (negsuc i) = none
list_del l (pos i) = do
  cells ← if leb l.length i then none else memmove l.items i (i + 1) (l.length - 1 - i)
  some (record l { length = l.length - 1; items = cells })

-- The rounds of `list_cat` from `i` on, `n` of them.
cat_from : ListT → ListT → ℕ → ℕ → Option ListT
cat_from l source i zero = some l
cat_from l source i (suc n) = do
  x ← read source.items i
  l' ← list_add l x
  cat_from l' source (suc i) n

-- The two lists are different objects.
pub list_cat : ListT → ListT → Option ListT
list_cat l source = cat_from l source 0 source.length

-- The loop of the two searches, with its test of an item.
seek_from : Cells → (Ptr → Bool) → ℕ → ℕ → Option ℤ
seek_from cells test i zero = some (negsuc 0)
seek_from cells test i (suc n) =
    let rest = seek_from cells test (suc i) n in
    (do x ← read cells i; if test x then some (pos i) else rest)

pub is_zero : ℤ → Bool
is_zero (pos n) = n == 0
is_zero (negsuc n) = false

-- `compare(item, data)` at the `data` of the call
pub list_seq_find : ListT → (Ptr → ℤ) → Option ℤ
list_seq_find l compare = seek_from l.items (λ x. is_zero (compare x)) 0 l.length

pub list_find : ListT → Ptr → Option ℤ
list_find l item = seek_from l.items (λ x. x == item) 0 l.length

-- An assignment copies a cell as it is.
get : Cells → ℤ → Option (Option Ptr)
get cells (pos i) = get_elem? cells i
get cells (negsuc i) = none

put : Cells → ℤ → Option Ptr → Option Cells
put cells (pos i) v = write cells i v
put cells (negsuc i) v = none

pub swap_cells : Cells → ℤ → ℤ → Option Cells
swap_cells cells src dest = do
  tmp ← get cells src
  there ← get cells dest
  cells' ← put cells src there
  put cells' dest tmp

pub list_swap : ListT → ℤ → ℤ → Option ListT
list_swap l src dest = do cells ← swap_cells l.items src dest; some (record l { items = cells })

-- The failed assertion leaves the list as it is. Here -1 stands for a search that found nothing.
move_to_end_at : ListT → Ptr → ℤ → Option ListT
move_to_end_at l item (negsuc _) = some l
move_to_end_at l item (pos i) = do l' ← list_del l (pos i); list_add l' item

pub list_move_to_end : ListT → Ptr → Option ListT
list_move_to_end l item = do i ← list_find l item; move_to_end_at l item i

-- The index as `int`: below zero it lies outside the array.
move_to_at : ListT → ℤ → Ptr → ℤ → Option ListT
move_to_at l index item (negsuc _) = some l
move_to_at l (negsuc _) item (pos i) = none
move_to_at l (pos index) item (pos i) = if i == index then some l else (do
  cells ←
      if ltb i index
      then memmove l.items i (i + 1) (index - i)
      else memmove l.items (index + 1) index (i - index)
  cells' ← write cells index (some item)
  some (record l { items = cells' }))

pub list_move_to : ListT → ℤ → Ptr → Option ListT
list_move_to l index item = do i ← list_find l item; move_to_at l index item i
