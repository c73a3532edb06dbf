-- ===== src/Gesture/Matching.antt =====
-- The matching of a binding's gesture against the user's.
use scrollfx.Prelude.{
  ℕ, ◌^◌, ◌<◌, ◌≡◌, sym, ap, ◌∙◌, ◌↔◌, inl, inr, Bool, true, ◌&&◌, ◌==◌, pos, sub_ℕ, ◌≤◌, ◌≤ℤ◌,
  arith, Bool-cases, ==_iff,
}
use scrollfx.Bits.{and_bits, count_bits}
use scrollfx.Bits.Laws.{and_bits_self, count_le, eq_of_count}
use scrollfx.Gesture.{Gesture, gesture_check, gesture_match, gesture_compare}

-- The tests that a match has passed.
pub match_checked :
    (t m : Gesture) (exact : Bool)
    → gesture_match t m exact ≡ true
    → gesture_check t m.type m.fingers ≡ true
unfolding gesture_match
match_checked t m exact h = ground arith

pub match_sub :
    (t m : Gesture) (exact : Bool)
    → gesture_match t m exact ≡ true
    → and_bits 32 t.directions m.directions ≡ t.directions
unfolding gesture_match
match_sub t m exact h = ground arith

pub match_same : (t m : Gesture) → gesture_match t m true ≡ true → t.directions ≡ m.directions
unfolding gesture_match
match_same t m h = ground arith

-- `gesture_match` of an exact binding is true exactly when the type and the fingers pass
-- `gesture_check` and the directions are the same.
pub match-exact :
    (t m : Gesture)
    → t.directions < 2 ^ 32
    → gesture_match t m true ≡ gesture_check t m.type m.fingers && (t.directions == m.directions)
unfolding gesture_match
match-exact t m small = elim (Bool-cases (t.directions == m.directions)) [
  | inl same ↦
      let eq = (==_iff t.directions m.directions).0 same in
      let self = ap (and_bits 32 t.directions) (sym eq) ∙ and_bits_self 32 t.directions small in
      ground arith
  | inr differ ↦ ground arith
]

pub compare_le : (a b : ℕ) → a ≤ b → sub_ℕ a b ≤ℤ pos 0
compare_le a b h = ground arith

pub compare_eq : (a b : ℕ) → sub_ℕ a b ≡ pos 0 → a ≡ b
compare_eq a b h = ground arith

compare_refl : (a b : ℕ) → a ≡ b → sub_ℕ a b ≡ pos 0
compare_refl a b h = ground arith

-- A binding's gesture that matches the user's never has more directions than it, and has as many
-- only when the directions are the same.
pub match-compare :
    (t m : Gesture) (exact : Bool)
    → m.directions < 2 ^ 32
    → gesture_match t m exact ≡ true
    → (gesture_compare t m ≤ℤ pos 0)
      × ((gesture_compare t m ≡ pos 0) ↔ (t.directions ≡ m.directions))
unfolding gesture_compare
match-compare t m exact small h =
    let sub = match_sub t m exact h in
    let le = count_le 32 t.directions m.directions sub in
    let same = eq_of_count 32 t.directions m.directions small sub in
    (
      compare_le (count_bits 32 t.directions) (count_bits 32 m.directions) le,
      (
        λ z. same (compare_eq (count_bits 32 t.directions) (count_bits 32 m.directions) z),
        λ e.
            compare_refl (count_bits 32 t.directions) (count_bits 32 m.directions)
              (ap (count_bits 32) e),
      ),
    )
