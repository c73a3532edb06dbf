-- ===== src/Layout/Moves.antt =====
-- The moves of a container among its siblings that a direction asks for in `layout_move_container_mode`,
-- described by the lists, and the index of each.
pub mod Desired
use scrollfx.Prelude.{
  ℕ, suc, ◌+◌, ◌<◌, ◌≤◌, ◌≡◌, ◌≢◌, refl, sym, ap, ◌∙◌, inl, inr, ◌⊎◌, List, [], ◌∷◌, ◌++◌, some,
  none, Option, Bool, true, false, not, ◌&&◌, if◌then◌else◌, ◌>>=◌, is_neg, ℤ, pos, negsuc, ◌-ℤ◌,
  ◌+ℤ◌, ltb_ℤ, ltb, length, length-append, append_assoc, append-nil, arith, Bool-cases, pos_succ,
  pos_pred, zero_pred,
}
use mathlib.Core.Bool.{true≢false}
use scrollfx.Seq.{Ptr, insert}
use scrollfx.Seq.Laws.{insert-append}
use scrollfx.Layout.{
  Direction, dir_invalid, dir_left, dir_right, dir_up, dir_down, dir_begin, dir_end, dir_center,
  dir_middle, LayoutKind, layout_none, layout_horiz, layout_vert, eq_layout, desired_index,
}

-- The item changes places with the one before it,
abbrev pub Back : List Ptr → List Ptr → Ptr → List Ptr → Type 0
Back a b c zs = (front : List Ptr) × (y : Ptr) × (a ≡ front ++ y ∷ []) × (zs ≡ front ++ c ∷ y ∷ b)

-- or with the one after it,
abbrev pub Forth : List Ptr → List Ptr → Ptr → List Ptr → Type 0
Forth a b c zs = (y : Ptr) × (rest : List Ptr) × (b ≡ y ∷ rest) × (zs ≡ a ++ y ∷ c ∷ rest)

-- or comes to one end, where it is not alone.
abbrev pub ToFront : List Ptr → List Ptr → Ptr → List Ptr → Type 0
ToFront a b c zs = (a ++ b ≢ []) × (zs ≡ c ∷ a ++ b)

abbrev pub ToBack : List Ptr → List Ptr → Ptr → List Ptr → Type 0
ToBack a b c zs = (a ++ b ≢ []) × (zs ≡ (a ++ b) ++ c ∷ [])

-- What a direction asks for, in a row or a column: the item `c`, between `a` and `b`, moves along a
-- row to the left or the right, and along a column up or down; and it moves to the ends of what has
-- the mode of the workspace, `mode`.
pub Moves : LayoutKind → Direction → LayoutKind → List Ptr → List Ptr → Ptr → List Ptr → Type 0
Moves mode dir_left layout_horiz a b c zs = Back a b c zs
Moves mode dir_right layout_horiz a b c zs = Forth a b c zs
Moves mode dir_up layout_vert a b c zs = Back a b c zs
Moves mode dir_down layout_vert a b c zs = Forth a b c zs
Moves mode dir_begin kind a b c zs = (mode ≡ kind) × ToFront a b c zs
Moves mode dir_end kind a b c zs = (mode ≡ kind) × ToBack a b c zs
Moves mode _ _ a b c zs = ⊥

-- The test of a desired index among so many siblings.
abbrev pub tested : ℕ → Option ℤ → Option ℤ
tested n o = do
  desired ← o
  if ltb 1 n && not (is_neg desired) && ltb_ℤ desired (pos n) then some desired else none

-- The result of the test.
chosen :
    (n d : ℕ) (b : Bool)
    → (ltb 1 n && true && ltb (d + 0) (n + 0)) ≡ b
    → tested n (some (pos d)) ≡ (if b then some (pos d) else none)
chosen n d b h = ap (λ t. if t then some (pos d) else none) h

tested_in : (n d : ℕ) → 1 < n → d < n → tested n (some (pos d)) ≡ some (pos d)
tested_in n d more within = chosen n d true (ground (arith, more, within))

tested_out : (n d : ℕ) → n ≤ d → tested n (some (pos d)) ≡ none
tested_out n d out = chosen n d false (ground (arith, out))

tested_alone : (n d : ℕ) → n ≤ 1 → tested n (some (pos d)) ≡ none
tested_alone n d few = chosen n d false (ground (arith, few))

tested_neg : (n k : ℕ) → tested n (some (negsuc k)) ≡ none
tested_neg n k = ap (λ b. if b then some (negsuc k) else none) (off (ltb 1 n))
  where
    off : (b : Bool) → (b && false && ltb_ℤ (negsuc k) (pos n)) ≡ false
    off b = ground arith

-- A list is empty or has a last item.
last_cases : (a : List Ptr) → (a ≡ []) ⊎ ((front : List Ptr) × (y : Ptr) × (a ≡ front ++ y ∷ []))
last_cases [] = inl refl
last_cases (x ∷ a) = elim (last_cases a) [
  | inl e ↦ inr ([], x, ap (λ k. x ∷ k) e)
  | inr (front, y, e) ↦ inr (x ∷ front, y, ap (λ k. x ∷ k) e)
]

module _ (a b : List Ptr) (c : Ptr) where
  abbrev pub size : ℕ
  size = length (a ++ c ∷ b)

  -- Either no index passes the test, and there is no such move, or it is the index of the move.
  abbrev pub Found : (List Ptr → Type 0) → Option ℤ → Type 0
  Found P o =
      ((tested size o ≡ none) × ((zs : List Ptr) → ¬ P zs))
      ⊎ ((d : ℕ) × (zs : List Ptr) × (tested size o ≡ some (pos d))
          × (d < size)
          × (insert (a ++ b) (pos d) c ≡ some zs)
          × P zs)

  size_is : size ≡ length a + suc (length b)
  size_is = length-append a (c ∷ b)

  nothing_before : a ≡ [] → (zs : List Ptr) → ¬ Back a b c zs
  nothing_before e zs (front, y, split, put) =
      omega (arith, ap length (sym e ∙ split), length-append front (y ∷ []))

  nothing_behind : b ≡ [] → (zs : List Ptr) → ¬ Forth a b c zs
  nothing_behind e zs (y, rest, split, put) = omega (arith, ap length (sym e ∙ split))

  pub Back-Found : Found (Back a b c) (some (pos (length a) -ℤ pos 1))
  Back-Found = elim (last_cases a) [
    | inl empty ↦ inl (
      ap (λ z. tested size (some z)) (ap (λ k. pos (length k) -ℤ pos 1) empty ∙ zero_pred)
          ∙ tested_neg size 0,
      nothing_before empty,
    )
    | inr (front, y, e) ↦
        let long = ap length e ∙ length-append front (y ∷ []) in
        inr (
          length front,
          front ++ c ∷ y ∷ b,
          ap (λ z. tested size (some z))
                (ap (λ k. pos k -ℤ pos 1) (long ∙ omega arith) ∙ pos_pred (length front))
              ∙ tested_in size (length front) (omega (arith, size_is, long))
                  (omega (arith, size_is, long)),
          omega (arith, size_is, long),
          insert-append (a ++ b) front (y ∷ b) c (length front)
              (ap (λ k. k ++ b) e ∙ append_assoc front (y ∷ []) b) refl,
          (front, y, e, refl),
        )
  ]

  pub Forth-Found : Found (Forth a b c) (some (pos (length a) +ℤ pos 1))
  Forth-Found = by_rest b refl
    where
      by_rest : (k : List Ptr) → b ≡ k → Found (Forth a b c) (some (pos (length a) +ℤ pos 1))
      by_rest [] e = inl (
        ap (λ z. tested size (some z)) (pos_succ (length a))
            ∙ tested_out size (suc (length a)) (omega (arith, size_is, ap length e)),
        nothing_behind e,
      )
      by_rest (y ∷ rest) e = inr (
        suc (length a),
        a ++ y ∷ c ∷ rest,
        ap (λ z. tested size (some z)) (pos_succ (length a))
            ∙ tested_in size (suc (length a)) (omega (arith, size_is, ap length e))
                (omega (arith, size_is, ap length e)),
        omega (arith, size_is, ap length e),
        insert-append (a ++ b) (a ++ y ∷ []) rest c (suc (length a))
              (ap (λ k. a ++ k) e ∙ sym (append_assoc a (y ∷ []) rest))
              (length-append a (y ∷ []) ∙ omega arith)
            ∙ ap some (append_assoc a (y ∷ []) (c ∷ rest)),
        (y, rest, e, refl),
      )

  abbrev others : List Ptr
  others = a ++ b

  others_length : length others ≡ length a + length b
  others_length = length-append a b

  pub ToFront-Found : Found (ToFront a b c) (some (pos 0))
  ToFront-Found = by_others others refl
    where
      by_others : (k : List Ptr) → others ≡ k → Found (ToFront a b c) (some (pos 0))
      by_others [] e = inl (
        tested_alone size 0 (omega (arith, size_is, others_length, ap length e)),
        λ zs (more, put). more e,
      )
      by_others (y ∷ k) e = inr (
        0,
        c ∷ others,
        tested_in size 0 (omega (arith, size_is, others_length, ap length e))
            (omega (arith, size_is)),
        omega (arith, size_is),
        insert-append others [] others c 0 refl refl,
        ((λ z. omega (arith, ap length (sym e ∙ z))), refl),
      )

  pub ToBack-Found : Found (ToBack a b c) (some (pos size -ℤ pos 1))
  ToBack-Found = by_others others refl
    where
      last : pos size -ℤ pos 1 ≡ pos (length others)
      last =
          ap (λ k. pos k -ℤ pos 1) (size_is ∙ omega (arith, others_length))
          ∙ pos_pred (length others)

      by_others : (k : List Ptr) → others ≡ k → Found (ToBack a b c) (some (pos size -ℤ pos 1))
      by_others [] e = inl (
        ap (λ z. tested size (some z)) last
            ∙ tested_alone size (length others)
                (omega (arith, size_is, others_length, ap length e)),
        λ zs (more, put). more e,
      )
      by_others (y ∷ k) e = inr (
        length others,
        others ++ c ∷ [],
        ap (λ z. tested size (some z)) last
            ∙ tested_in size (length others) (omega (arith, size_is, others_length, ap length e))
                (omega (arith, size_is, others_length)),
        omega (arith, size_is, others_length),
        insert-append others others [] c (length others) (sym (append-nil others)) refl,
        ((λ z. omega (arith, ap length (sym e ∙ z))), refl),
      )

  pub none-Found : Found (λ zs. ⊥) none
  none-Found = inl (refl, λ zs h. h)
