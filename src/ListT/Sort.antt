-- ===== src/ListT/Sort.antt =====
-- The stable merge sort in place of common/list.c. Its indices are never negative, since
-- `list_stable_sort` calls it on lists of two items or more.
pub mod Order
pub mod Merge
pub mod Stable
mod Tests
use scrollfx.Prelude.{
  ℕ, zero, suc, ◌+◌, ◌-◌, ◌/◌, Option, none, some, Bool, true, false, ◌&&◌, ℤ, pos, negsuc, ltb,
  leb, ◌==◌, if◌then◌else◌, get_elem?, ◌>>=◌,
}
use scrollfx.Seq.{Ptr}
use scrollfx.ListT.{ListT, Cells, read, write, swap_cells}

-- `compare(a, b) <= 0`
abbrev pub nonpos : ℤ → Bool
nonpos (pos n) = n == 0
nonpos (negsuc n) = true

-- The loop of `list_rotate` when `to` is `n` above `from`.
rotate_from : Cells → ℕ → ℕ → Option Cells
rotate_from cells from zero = some cells
rotate_from cells from (suc n) = do
  v ← get_elem? cells (from + n)
  cells' ← write cells (from + suc n) v
  rotate_from cells' from n

list_rotate : Cells → ℕ → ℕ → Option Cells
list_rotate cells from to = do
  tmp ← get_elem? cells to
  cells' ← rotate_from cells from (to - from)
  write cells' from tmp

module _ (compare : Ptr → Ptr → ℤ) where
  -- The loop of `list_inplace_merge`; `none` also when the fuel runs out.
  merge_from : ℕ → Cells → ℕ → ℕ → ℕ → ℕ → Option Cells
  merge_from zero cells left last mid right = none
  merge_from (suc fuel) cells left last mid right =
      let round = (do
        x ← read cells left
        y ← read cells right
        let stay = merge_from fuel cells (left + 1) last mid right
        let rotated = (do
          cells' ← list_rotate cells left right
          merge_from fuel cells' (left + 1) last (mid + 1) (right + 1))
        if nonpos (compare x y) then stay else rotated) in
      if leb left mid && leb right last then round else some cells

  pub list_inplace_merge : Cells → ℕ → ℕ → ℕ → Option Cells
  list_inplace_merge cells left last mid = do
    x ← read cells mid
    y ← read cells (mid + 1)
    if nonpos (compare x y)
        then some cells
        else merge_from (last + 2 - left) cells left last mid (mid + 1)

  -- The fuel bounds the depth of the calls.
  list_inplace_sort : ℕ → Cells → ℕ → ℕ → Option Cells
  list_inplace_sort zero cells first last = none
  list_inplace_sort (suc fuel) cells first last =
      let mid = (last + first) / 2 in
      let pair = (do
        x ← read cells first
        y ← read cells last
        if nonpos (compare x y) then some cells else swap_cells cells (pos first) (pos last)) in
      let halves = (do
        a ← list_inplace_sort fuel cells first mid
        b ← list_inplace_sort fuel a (mid + 1) last
        list_inplace_merge b first last mid) in
      if leb last first then some cells else if (last - first) == 1 then pair else halves

  pub list_stable_sort : ListT → Option ListT
  list_stable_sort l =
      if ltb 1 l.length
      then (do
        cells ← list_inplace_sort l.length l.items 0 (l.length - 1)
        some (record l { items = cells }))
      else some l
