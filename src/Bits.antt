-- ===== src/Bits.antt =====
-- Flags in a `uint32_t`, as common/gesture.c uses them: the masks, `|=`, `&` and the count of set
-- bits. The rounds of a loop over the bits are counted by a number, 32 of them.
pub mod Laws
use scrollfx.Prelude.{ℕ, zero, suc, ◌+◌, ◌*◌, ◌/◌, ◌%◌, ◌^◌, Bool, ◌==◌, if◌then◌else◌}

-- `flags & (1 << bit)`
unfoldable pub masked : ℕ → ℕ → ℕ
masked flags bit = flags / 2 ^ bit % 2 * 2 ^ bit

-- `flags | (1 << bit)`
unfoldable pub set_bit : ℕ → ℕ → ℕ
set_bit flags bit = if masked flags bit == 0 then flags + 2 ^ bit else flags

-- `a & b` on the lowest bits, `n` of them.
unfoldable pub and_bits : ℕ → ℕ → ℕ → ℕ
and_bits zero a b = 0
and_bits (suc n) a b = a % 2 * (b % 2) + 2 * and_bits n (a / 2) (b / 2)

unfoldable pub count_bits : ℕ → ℕ → ℕ
count_bits zero a = 0
count_bits (suc n) a = a % 2 + count_bits n (a / 2)
