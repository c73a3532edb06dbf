-- ===== src/Prelude/Blocks.antt =====
-- Arrays cut into blocks: what indexing, updating, `take` and `drop` do at a block's border.
use Prim.Native.Nat.{ℕ, zero, suc, ◌<◌, ◌≤◌}
use mathlib.Core.Path.{◌≡◌, refl, ap}
use mathlib.Core.List.{List, [], ◌∷◌, ◌++◌}
use mathlib.Core.Option.{none, some}
use native.Mathlib.Omega.{arith}
use scrollfx.Prelude.Lists.{length, get_elem?, set, take, drop}

module _ {ℓ} {A : Type ℓ} where
  pub get_elem?-append :
      (a : List A) (y : A) (b : List A) → get_elem? (a ++ y ∷ b) (length a) ≡ some y
  get_elem?-append [] y b = refl
  get_elem?-append (x ∷ a) y b = get_elem?-append a y b

  pub set-append : (a : List A) (y v : A) (b : List A) → set (a ++ y ∷ b) (length a) v ≡ a ++ v ∷ b
  set-append [] y v b = refl
  set-append (x ∷ a) y v b = ap (λ l. x ∷ l) (set-append a y v b)

  pub take-append : (a b : List A) → take (length a) (a ++ b) ≡ a
  take-append [] b = refl
  take-append (x ∷ a) b = ap (λ l. x ∷ l) (take-append a b)

  pub drop-append : (a b : List A) → drop (length a) (a ++ b) ≡ b
  drop-append [] b = refl
  drop-append (x ∷ a) b = drop-append a b

  -- An array holds an entry at every index below its length, and none from there on.
  pub get_elem?-lt : (l : List A) (i : ℕ) → i < length l → (y : A) × (get_elem? l i ≡ some y)
  get_elem?-lt [] i h = elim h [ ]
  get_elem?-lt (x ∷ l) zero h = (x, refl)
  get_elem?-lt (x ∷ l) (suc i) h = get_elem?-lt l i (omega arith)

  pub get_elem?-ge : (l : List A) (i : ℕ) → length l ≤ i → get_elem? l i ≡ none
  get_elem?-ge [] i h = refl
  get_elem?-ge (x ∷ l) zero h = elim h [ ]
  get_elem?-ge (x ∷ l) (suc i) h = get_elem?-ge l i (omega arith)

  -- Cutting an array at an index below its length.
  pub cut :
      (l : List A) (i : ℕ)
      → i < length l
      → (a : List A) × (y : A) × (b : List A) × (l ≡ a ++ y ∷ b) × (length a ≡ i)
  cut [] i h = elim h [ ]
  cut (x ∷ l) zero h = ([], x, l, refl, refl)
  cut (x ∷ l) (suc i) h =
      let (a, y, b, e, n) = cut l i (omega arith) in (x ∷ a, y, b, ap (λ t. x ∷ t) e, ap suc n)

  pub split_at :
      (l : List A) (i : ℕ) → i ≤ length l → (a b : List A) × (l ≡ a ++ b) × (length a ≡ i)
  split_at l zero h = ([], l, refl, refl)
  split_at [] (suc i) h = elim h [ ]
  split_at (x ∷ l) (suc i) h =
      let (a, b, e, n) = split_at l i (omega arith) in (x ∷ a, b, ap (λ t. x ∷ t) e, ap suc n)

  pub drop-append_suc : (a : List A) (y : A) (b : List A) → drop (suc (length a)) (a ++ y ∷ b) ≡ b
  drop-append_suc [] y b = refl
  drop-append_suc (x ∷ a) y b = drop-append_suc a y b

  pub unsnoc : (l : List A) → 0 < length l → (a : List A) × (x : A) × (l ≡ a ++ x ∷ [])
  unsnoc [] h = elim h [ ]
  unsnoc (x ∷ []) h = ([], x, refl)
  unsnoc (x ∷ y ∷ l) h =
      let (a, z, e) = unsnoc (y ∷ l) (omega arith) in (x ∷ a, z, ap (λ k. x ∷ k) e)

  pub uncons : (l : List A) → 0 < length l → (x : A) × (b : List A) × (l ≡ x ∷ b)
  uncons [] h = elim h [ ]
  uncons (x ∷ l) h = (x, l, refl)

  pub get_elem?-lt_of_some : (l : List A) (i : ℕ) (y : A) → get_elem? l i ≡ some y → i < length l
  get_elem?-lt_of_some [] i y e = cc
  get_elem?-lt_of_some (x ∷ l) zero y e = omega arith
  get_elem?-lt_of_some (x ∷ l) (suc i) y e = omega (arith, get_elem?-lt_of_some l i y e)

  pub get_elem?-set_self :
      (l : List A) (i : ℕ) (v : A) → i < length l → get_elem? (set l i v) i ≡ some v
  get_elem?-set_self [] i v h = elim h [ ]
  get_elem?-set_self (x ∷ l) zero v h = refl
  get_elem?-set_self (x ∷ l) (suc i) v h = get_elem?-set_self l i v (omega arith)
