-- ===== src/Bits/Laws.antt =====
-- A mask that another one contains, bit by bit.
use scrollfx.Prelude.{ℕ, zero, suc, ◌+◌, ◌*◌, ◌/◌, ◌%◌, ◌^◌, ◌≤◌, ◌<◌, ◌≡◌, refl, ap₂, ◌∙◌, arith}
use scrollfx.Bits.{and_bits, count_bits}

bit_step : (x y z q : ℕ) → x < 2 → y < 2 → x * y + 2 * z ≡ x + 2 * q → (x ≤ y) × (z ≡ q)
bit_step zero y z q _ _ h = (omega arith, omega arith)
bit_step (suc zero) zero z q _ _ h = (omega arith, omega arith)
bit_step (suc zero) (suc zero) z q _ _ h = (omega arith, omega arith)
bit_step (suc zero) (suc (suc y)) z q _ y<2 h = omega arith
bit_step (suc (suc x)) y z q x<2 _ h = omega arith

module _ (n a b : ℕ) (sub : a % 2 * (b % 2) + 2 * and_bits n (a / 2) (b / 2) ≡ a) where
  both : (a % 2 ≤ b % 2) × (and_bits n (a / 2) (b / 2) ≡ a / 2)
  both =
      bit_step (a % 2) (b % 2) (and_bits n (a / 2) (b / 2)) (a / 2) (omega arith) (omega arith)
        (sub ∙ omega arith)

  sub_low : a % 2 ≤ b % 2
  sub_low = both.0

  sub_high : and_bits n (a / 2) (b / 2) ≡ a / 2
  sub_high = both.1

half_small : (n a : ℕ) → a < 2 ^ suc n → a / 2 < 2 ^ n
half_small n a small = omega arith

square_bit : (x : ℕ) → x < 2 → x * x ≡ x
square_bit zero _ = refl
square_bit (suc zero) _ = refl
square_bit (suc (suc x)) h = omega arith

pub and_bits_self : (n a : ℕ) → a < 2 ^ n → and_bits n a a ≡ a
unfolding and_bits
and_bits_self zero a small = omega arith
and_bits_self (suc n) a small =
    ap₂ (λ x y. x + 2 * y) (square_bit (a % 2) (omega arith))
      (and_bits_self n (a / 2) (half_small n a small))
    ∙ omega arith

pub count_le : (n a b : ℕ) → and_bits n a b ≡ a → count_bits n a ≤ count_bits n b
unfolding and_bits count_bits
count_le zero a b sub = omega arith
count_le (suc n) a b sub =
    omega (arith, sub_low n a b sub, count_le n (a / 2) (b / 2) (sub_high n a b sub))

pub eq_of_count :
    (n a b : ℕ) → b < 2 ^ n → and_bits n a b ≡ a → count_bits n a ≡ count_bits n b → a ≡ b
unfolding and_bits count_bits
eq_of_count zero a b small sub same = omega arith
eq_of_count (suc n) a b small sub same =
    let high = sub_high n a b sub in
    let low = sub_low n a b sub in
    let le = count_le n (a / 2) (b / 2) high in
    let halves = eq_of_count n (a / 2) (b / 2) (half_small n b small) high (omega arith) in
    omega arith
