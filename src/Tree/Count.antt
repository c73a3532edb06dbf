-- ===== src/Tree/Count.antt =====
-- How often a list of pointers holds a pointer.
use scrollfx.Prelude.{
  ℕ, ◌+◌, ◌≡◌, refl, ap, ◌∙◌, ◌⊎◌, inl, inr, List, [], ◌∷◌, ◌++◌, some, Bool, ◌==◌, if◌then◌else◌,
  pos, negsuc, ne→==, arith, length, split_at, ◌≤◌,
}
use scrollfx.Seq.{Ptr, find, delete, insert}
use scrollfx.Seq.Laws.{Absent, find_cases, delete-append, insert-append}

abbrev pub one : Bool → ℕ
one b = if b then 1 else 0

abbrev pub count : Ptr → List Ptr → ℕ
count q [] = 0
count q (x ∷ xs) = one (x == q) + count q xs

pub count-append : (q : Ptr) (a b : List Ptr) → count q (a ++ b) ≡ count q a + count q b
count-append q [] b = omega arith
count-append q (x ∷ a) b = omega (arith, count-append q a b)

pub count-Absent : (q : Ptr) (xs : List Ptr) → Absent q xs → count q xs ≡ 0
count-Absent q [] h = refl
count-Absent q (x ∷ xs) (n, h) = omega (arith, ap one (ne→== x q n), count-Absent q xs h)

-- A list that holds an item has an index for it, and loses one when that is deleted.
pub delete-count :
    (xs : List Ptr) (c : Ptr)
    → ((find xs c ≡ negsuc 0) × (count c xs ≡ 0))
      ⊎ ((ys : List Ptr) × (i : ℕ) × (find xs c ≡ pos i)
          × (delete xs (find xs c) ≡ some ys)
          × ((q : Ptr) → count q ys + one (c == q) ≡ count q xs))
delete-count xs c = elim (find_cases xs c) [
  | inl (e, h) ↦ inl (e, count-Absent c xs h)
  | inr (a, b, e, f, h) ↦ inr (
    a ++ b,
    length a,
    f,
    ap (delete xs) f ∙ delete-append xs a b c (length a) e refl,
    λ q. omega (arith, ap (count q) e, count-append q a b, count-append q a (c ∷ b)),
  )
]

pub insert-count :
    (xs : List Ptr) (i : ℕ) (c : Ptr)
    → i ≤ length xs
    → (ys : List Ptr) × (insert xs (pos i) c ≡ some ys)
      × ((q : Ptr) → count q ys ≡ count q xs + one (c == q))
insert-count xs i c h =
    let (a, b, e, n) = split_at xs i h in
    (
      a ++ c ∷ b,
      insert-append xs a b c i e n,
      λ q. omega (arith, ap (count q) e, count-append q a b, count-append q a (c ∷ b)),
    )
