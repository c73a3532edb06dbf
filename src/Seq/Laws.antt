-- ===== src/Seq/Laws.antt =====
-- Sequences cut into blocks at an index: what insertion, deletion and access do there.
use scrollfx.Prelude.{
  ℕ, suc, ◌+◌, ◌≡◌, ◌≢◌, refl, sym, ap, ◌∙◌, List, [], ◌∷◌, ◌++◌, some, ℤ, pos, negsuc, length,
  length-append, take-append, drop-append, drop-append_suc, get_elem?-append, le→ltb, lt→ltb, arith,
  Bool-cases, inl, inr, ◌==◌, ==_iff, ==_refl, ne→==, ◌⊎◌,
}
use scrollfx.Seq.{Ptr, insert, delete, item, find, index_from, move_to, move_to_end}

module _ {ℓ} {A : Type ℓ} where
  pub item-append :
      (xs a b : List A) (y : A) (i : ℕ) → xs ≡ a ++ y ∷ b → length a ≡ i → item xs (pos i) ≡ some y
  item-append xs a b y i e n = rw (e, ← n) (get_elem?-append a y b)

  pub insert-append :
      (xs a b : List A) (x : A) (i : ℕ)
      → xs ≡ a ++ b
      → length a ≡ i
      → insert xs (pos i) x ≡ some (a ++ x ∷ b)
  insert-append xs a b x i e n = rw (
    e,
    ← n,
    le→ltb (length (a ++ b)) (length a) (omega (arith, length-append a b)),
    take-append,
    drop-append,
  )

  pub delete-append :
      (xs a b : List A) (y : A) (i : ℕ)
      → xs ≡ a ++ y ∷ b
      → length a ≡ i
      → delete xs (pos i) ≡ some (a ++ b)
  delete-append xs a b y i e n = rw (
    e,
    ← n,
    lt→ltb (length a) (length (a ++ y ∷ b)) (omega (arith, length-append a (y ∷ b))),
    take-append,
    drop-append_suc,
  )

-- No item is `x`.
abbrev pub Absent : Ptr → List Ptr → Type 0
Absent x [] = Unit {0}
Absent x (y ∷ ys) = (y ≢ x) × Absent x ys

-- No item occurs twice.
abbrev pub Distinct : List Ptr → Type 0
Distinct [] = Unit {0}
Distinct (x ∷ xs) = Absent x xs × Distinct xs

-- The search either fails, and then the item is absent, or cuts the list at the first occurrence.
pub index_from_cases :
    (i : ℕ) (xs : List Ptr) (x : Ptr)
    → ((index_from i (λ y. y == x) xs ≡ negsuc 0) × Absent x xs)
      ⊎ ((a b : List Ptr) × (xs ≡ a ++ x ∷ b)
          × (index_from i (λ y. y == x) xs ≡ pos (i + length a))
          × Absent x a)
index_from_cases i [] x = inl (refl, tt)
index_from_cases i (y ∷ ys) x = elim (Bool-cases (y == x)) [
  | inl hit ↦ inr ([], ys, ap (λ k. k ∷ ys) ((==_iff y x).0 hit), rw hit (ap pos (omega arith)), tt)
  | inr miss ↦ elim (index_from_cases (suc i) ys x) [
    | inl (e, absent) ↦ inl (rw miss e, ((λ same. cc ((==_iff y x).1 same)), absent))
    | inr (a, b, e, found, absent) ↦ inr (
      y ∷ a,
      b,
      ap (λ k. y ∷ k) e,
      rw (miss, found) (ap pos (omega arith)),
      ((λ same. cc ((==_iff y x).1 same)), absent),
    )
  ]
]

pub find_cases :
    (xs : List Ptr) (x : Ptr)
    → ((find xs x ≡ negsuc 0) × Absent x xs)
      ⊎ ((a b : List Ptr) × (xs ≡ a ++ x ∷ b) × (find xs x ≡ pos (length a)) × Absent x a)
find_cases xs x = elim (index_from_cases 0 xs x) [
  | inl r ↦ inl r
  | inr (a, b, e, found, absent) ↦ inr (a, b, e, found ∙ ap pos (omega arith), absent)
]

-- An item that is absent is not found, and one behind an absent part is found there.
index_from-Absent :
    (i : ℕ) (xs : List Ptr) (x : Ptr) → Absent x xs → index_from i (λ y. y == x) xs ≡ negsuc 0
index_from-Absent i [] x h = refl
index_from-Absent i (y ∷ ys) x h = rw (ne→== y x h.0) (index_from-Absent (suc i) ys x h.1)

index_from-append :
    (i : ℕ) (a b : List Ptr) (x : Ptr)
    → Absent x a
    → index_from i (λ y. y == x) (a ++ x ∷ b) ≡ pos (i + length a)
index_from-append i [] b x h = rw (==_refl x) (ap pos (omega arith))
index_from-append i (y ∷ a) b x h =
    rw (ne→== y x h.0) (index_from-append (suc i) a b x h.1 ∙ ap pos (omega arith))

pub find-Absent : (xs : List Ptr) (x : Ptr) → Absent x xs → find xs x ≡ negsuc 0
find-Absent xs x h = index_from-Absent 0 xs x h

pub find-append : (a b : List Ptr) (x : Ptr) → Absent x a → find (a ++ x ∷ b) x ≡ pos (length a)
find-append a b x h = index_from-append 0 a b x h ∙ ap pos (omega arith)

pub Absent-append : (x : Ptr) (a b : List Ptr) → Absent x a → Absent x b → Absent x (a ++ b)
Absent-append x [] b h k = k
Absent-append x (y ∷ a) b h k = (h.0, Absent-append x a b h.1 k)

pub Absent-parts : (x : Ptr) (a b : List Ptr) → Absent x (a ++ b) → Absent x a × Absent x b
Absent-parts x [] b h = (tt, h)
Absent-parts x (y ∷ a) b h = let (l, r) = Absent-parts x a b h.1 in ((h.0, l), r)

-- Taking an item out of a list without repetitions leaves none of it, and no repetition.
pub Distinct-delete :
    (a b : List Ptr) (y : Ptr) → Distinct (a ++ y ∷ b) → Distinct (a ++ b) × Absent y (a ++ b)
Distinct-delete [] b y h = (h.1, h.0)
Distinct-delete (z ∷ a) b y h =
    let (d, absent) = Distinct-delete a b y h.1 in
    let (l, r) = Absent-parts z a (y ∷ b) h.0 in
    ((Absent-append z a b l r.1, d), ((λ e. r.0 (sym e)), absent))

-- Putting an absent item in keeps a list free of repetitions.
pub Distinct-insert :
    (a b : List Ptr) (y : Ptr) → Distinct (a ++ b) → Absent y (a ++ b) → Distinct (a ++ y ∷ b)
Distinct-insert [] b y h k = (k, h)
Distinct-insert (z ∷ a) b y h k =
    let (l, r) = Absent-parts z a b h.0 in
    (Absent-append z a (y ∷ b) l ((λ e. k.0 (sym e)), r), Distinct-insert a b y h.1 k.1)

-- Moving an item that a list does not hold.
pub move_to-Absent : (xs : List Ptr) (x : Ptr) (k : ℤ) → Absent x xs → move_to xs k x ≡ some xs
move_to-Absent xs x k absent = rw (find-Absent xs x absent)

pub move_to_end-Absent : (xs : List Ptr) (x : Ptr) → Absent x xs → move_to_end xs x ≡ some xs
move_to_end-Absent xs x absent = rw (find-Absent xs x absent)

-- Moving an item that a list holds to an index in it.
pub move_to-append :
    (xs a b c d : List Ptr) (x : Ptr) (k : ℕ)
    → xs ≡ a ++ x ∷ b
    → Absent x a
    → a ++ b ≡ c ++ d
    → length c ≡ k
    → move_to xs (pos k) x ≡ some (c ++ x ∷ d)
move_to-append xs a b c d x k e absent e' n =
    rw (e, find-append a b x absent, delete-append (a ++ x ∷ b) a b x (length a) refl refl)
      (insert-append (a ++ b) c d x k e' n)

pub move_to_end-append :
    (xs a b : List Ptr) (x : Ptr)
    → xs ≡ a ++ x ∷ b
    → Absent x a
    → move_to_end xs x ≡ some ((a ++ b) ++ x ∷ [])
move_to_end-append xs a b x e absent =
    rw (e, find-append a b x absent, delete-append (a ++ x ∷ b) a b x (length a) refl refl)
