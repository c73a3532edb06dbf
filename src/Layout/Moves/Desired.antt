-- ===== src/Layout/Moves/Desired.antt =====
-- The index that `layout_move_container_mode` looks for is the one of the move that the direction asks
-- for.
use scrollfx.Prelude.{
  ◌≡◌, refl, sym, ap, ◌∙◌, inl, inr, List, some, none, true, if◌then◌else◌, ℤ, pos, ◌-ℤ◌, length,
  Bool-cases,
}
use mathlib.Core.Bool.{true≢false}
use scrollfx.Seq.{Ptr}
use scrollfx.Layout.{
  Direction, dir_invalid, dir_left, dir_right, dir_up, dir_down, dir_begin, dir_end, dir_center,
  dir_middle, LayoutKind, layout_none, layout_horiz, layout_vert, eq_layout, desired_index,
}
use scrollfx.Layout.Moves.{
  Moves, Found, tested, size, ToFront, ToBack, Back-Found, Forth-Found, ToFront-Found, ToBack-Found,
  none-Found,
}

eq_layout_refl : (k : LayoutKind) → eq_layout k k ≡ true
unfolding eq_layout
eq_layout_refl layout_none = refl
eq_layout_refl layout_horiz = refl
eq_layout_refl layout_vert = refl

eq_of_layout : (j k : LayoutKind) → eq_layout j k ≡ true → j ≡ k
unfolding eq_layout
eq_of_layout layout_none layout_none h = refl
eq_of_layout layout_horiz layout_horiz h = refl
eq_of_layout layout_vert layout_vert h = refl
eq_of_layout layout_none layout_horiz h = absurd (true≢false (sym h))
eq_of_layout layout_none layout_vert h = absurd (true≢false (sym h))
eq_of_layout layout_horiz layout_none h = absurd (true≢false (sym h))
eq_of_layout layout_horiz layout_vert h = absurd (true≢false (sym h))
eq_of_layout layout_vert layout_none h = absurd (true≢false (sym h))
eq_of_layout layout_vert layout_horiz h = absurd (true≢false (sym h))

module _ (a b : List Ptr) (c : Ptr) (mode : LayoutKind) where
  -- A move that is there only in the mode of the workspace.
  in_mode-Found :
      (kind : LayoutKind) (P : List Ptr → Type 0) (z : ℤ)
      → Found a b c P (some z)
      → Found a b c (λ zs. (mode ≡ kind) × P zs) (if eq_layout mode kind then some z else none)
  in_mode-Found kind P z found = elim (Bool-cases (eq_layout mode kind)) [
    | inr miss ↦ inl (
      ap (λ t. tested (size a b c) (if t then some z else none)) miss,
      λ zs (same, p).
          true≢false (sym (ap (λ k. eq_layout mode k) (sym same) ∙ eq_layout_refl mode) ∙ miss),
    )
    | inl hit ↦
        let go = ap (λ t. tested (size a b c) (if t then some z else none)) hit in
        elim found [
          | inl (run, stuck) ↦ inl (go ∙ run, λ zs (same, p). stuck zs p)
          | inr (d, zs, run, within, put, p) ↦
              inr (d, zs, go ∙ run, within, put, (eq_of_layout mode kind hit, p))
        ]
  ]

  -- The index that the code finds is the one of the move that the direction asks for, if there is
  -- one.
  pub desired-Found :
      (dir : Direction) (kind : LayoutKind)
      → Found a b c
          (Moves mode dir kind a b c)
          (desired_index dir kind mode (size a b c) (pos (length a)))
  unfolding Moves desired_index
  desired-Found dir_begin kind = in_mode-Found kind (ToFront a b c) (pos 0) (ToFront-Found a b c)
  desired-Found dir_end kind =
      in_mode-Found kind (ToBack a b c) (pos (size a b c) -ℤ pos 1) (ToBack-Found a b c)
  desired-Found dir_left layout_horiz = Back-Found a b c
  desired-Found dir_left layout_vert = none-Found a b c
  desired-Found dir_left layout_none = none-Found a b c
  desired-Found dir_right layout_horiz = Forth-Found a b c
  desired-Found dir_right layout_vert = none-Found a b c
  desired-Found dir_right layout_none = none-Found a b c
  desired-Found dir_up layout_horiz = none-Found a b c
  desired-Found dir_up layout_vert = Back-Found a b c
  desired-Found dir_up layout_none = none-Found a b c
  desired-Found dir_down layout_horiz = none-Found a b c
  desired-Found dir_down layout_vert = Forth-Found a b c
  desired-Found dir_down layout_none = none-Found a b c
  desired-Found dir_invalid kind = none-Found a b c
  desired-Found dir_center kind = none-Found a b c
  desired-Found dir_middle kind = none-Found a b c
