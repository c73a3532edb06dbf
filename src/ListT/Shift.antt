-- ===== src/ListT/Shift.antt =====
-- What `memmove` does to an array in blocks, as `list_insert`, `list_del` and `list_move_to` of
-- common/list.c call it.
use scrollfx.Prelude.{
  ℕ, suc, ◌+◌, ◌≡◌, refl, sym, ap, ◌∙◌, [], ◌∷◌, ◌++◌, append_assoc, Option, some, length, take,
  drop, length-append, take-append, drop-append, set-append, le→leb, lt→ltb, arith,
}
use scrollfx.Seq.{Ptr}
use scrollfx.ListT.{Cells, memmove, write}

-- The head block of an array, by its length.
take_block : (n : ℕ) (l a b : Cells) → l ≡ a ++ b → length a ≡ n → take n l ≡ a
take_block n l a b e h = rw (e, ← h) (take-append a b)

drop_block : (n : ℕ) (l a b : Cells) → l ≡ a ++ b → length a ≡ n → drop n l ≡ b
drop_block n l a b e h = rw (e, ← h) (drop-append a b)

-- `memmove` keeps what stands before the target, copies the block, and keeps what stands behind.
memmove_blocks :
    (l p p' q m q' r t : Cells) (dst src n : ℕ)
    → l ≡ p ++ p'
    → length p ≡ dst
    → l ≡ q ++ (m ++ q')
    → length q ≡ src
    → length m ≡ n
    → l ≡ r ++ t
    → length r ≡ dst + n
    → memmove l dst src n ≡ some (p ++ (m ++ t))
unfolding memmove
memmove_blocks l p p' q m q' r t dst src n e₁ h₁ e₂ h₂ h₃ e₃ h₄ =
    rw
      (
        le→leb (dst + n) (length l) (omega (arith, ap length e₃, length-append r t)),
        le→leb (src + n) (length l)
            (omega (arith, ap length e₂, length-append q (m ++ q'), length-append m q')),
        take_block dst l p p' e₁ h₁,
        drop_block src l q (m ++ q') e₂ h₂,
        take_block n (m ++ q') m q' refl h₃,
        drop_block (dst + n) l r t e₃ h₄,
      )
      (ap some (append_assoc p m t))

pub write_block :
    (a : Cells) (y v : Option Ptr) (b : Cells) (i : ℕ)
    → length a ≡ i
    → write (a ++ y ∷ b) i v ≡ some (a ++ v ∷ b)
unfolding write
write_block a y v b i h =
    rw (← h, lt→ltb (length a) (length (a ++ y ∷ b)) (omega (arith, length-append a (y ∷ b))))
      (ap some (set-append a y v b))

-- The first cell of a block that ends in `c`.
first_of_block :
    (b : Cells) (c : Option Ptr) (s : Cells) → (z : Option Ptr) × (t : Cells) × (b ++ c ∷ s ≡ z ∷ t)
first_of_block [] c s = (c, s, refl)
first_of_block (z ∷ b) c s = (z, b ++ c ∷ s, refl)

-- The last cell of a block.
pub last_of_block :
    (y : Option Ptr) (b : Cells)
    → (r : Cells) × (w : Option Ptr) × (y ∷ b ≡ r ++ w ∷ []) × (length r ≡ length b)
last_of_block y [] = ([], y, refl, refl)
last_of_block y (z ∷ b) =
    let (r, w, e, h) = last_of_block z b in (y ∷ r, w, ap (λ k. y ∷ k) e, ap suc h)

-- A block moved up by one over the cell `c`, and `v` written where it began.
pub shift_up :
    (a b : Cells) (c v : Option Ptr) (s : Cells) (d n : ℕ)
    → length a ≡ d
    → length b ≡ n
    → (cells : Cells) × (memmove (a ++ (b ++ c ∷ s)) (d + 1) d n ≡ some cells)
      × (write cells d v ≡ some (a ++ v ∷ (b ++ s)))
shift_up a b c v s d n ha hb =
    let (z, t, e) = first_of_block b c s in
    (
      (a ++ z ∷ []) ++ (b ++ s),
      memmove_blocks (a ++ (b ++ c ∷ s)) (a ++ z ∷ []) t a b (c ∷ s) (a ++ (b ++ c ∷ [])) s (d + 1)
          d n (ap (λ k. a ++ k) e ∙ sym (append_assoc a (z ∷ []) t))
          (omega (arith, length-append a (z ∷ []))) refl ha hb
          (ap (λ k. a ++ k) (sym (append_assoc b (c ∷ []) s))
            ∙ sym (append_assoc a (b ++ c ∷ []) s))
          (omega (arith, length-append a (b ++ c ∷ []), length-append b (c ∷ []))),
      rw (append_assoc a (z ∷ []) (b ++ s)) (write_block a z v (b ++ s) d ha),
    )

-- A block moved down by one over the cell `y`; the cell that it leaves keeps its last value.
pub shift_down :
    (a : Cells) (y : Option Ptr) (b s : Cells) (d n : ℕ)
    → length a ≡ d
    → length b ≡ n
    → (w : Option Ptr) × (memmove (a ++ y ∷ (b ++ s)) d (d + 1) n ≡ some (a ++ (b ++ w ∷ s)))
shift_down a y b s d n ha hb =
    let (r, w, e, h) = last_of_block y b in
    (
      w,
      memmove_blocks (a ++ y ∷ (b ++ s)) a (y ∷ (b ++ s)) (a ++ y ∷ []) b s (a ++ r) (w ∷ s) d
          (d + 1) n refl ha (sym (append_assoc a (y ∷ []) (b ++ s)))
          (omega (arith, length-append a (y ∷ []))) hb
          (ap (λ k. a ++ k) (ap (λ k. k ++ s) e ∙ append_assoc r (w ∷ []) s)
            ∙ sym (append_assoc a r (w ∷ s)))
          (omega (arith, length-append a r)),
    )
