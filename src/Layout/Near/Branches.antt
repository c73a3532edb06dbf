-- ===== src/Layout/Near/Branches.antt =====
-- The branches of `move_container_before` and `move_container_after` inside one workspace.
use scrollfx.Prelude.{
  ℕ, suc, ◌+◌, ◌≡◌, ◌≢◌, refl, ap, ◌<◌, zero, false, ==_iff, ◌⊎◌, inl, inr, List, [], ◌∷◌, ◌++◌,
  some, pos, eq_ℤ, ◌-ℤ◌, length, length-append, pos_succ, pos_pred, zero_pred, arith, ==_refl,
  ne→==, lt→ltb, le→ltb,
}
use std.Path.{fun_ext}
use scrollfx.Seq.{Ptr, find}
use scrollfx.Seq.Laws.{Absent, move_to-append}
use scrollfx.Tree.Walk.{update_same}
use scrollfx.Containers.{Store}
use scrollfx.Layout.{
  put_tiling, move_tiling, found_both, move_container_before, move_container_after,
}

pub longer : (l m : List Ptr) → m ≢ [] → length l < length (l ++ m)
longer l [] h = absurd (h refl)
longer l (x ∷ m) h = omega (arith, length-append l (x ∷ m))

pub empty_or : (m : List Ptr) → (m ≡ []) ⊎ (m ≢ [])
empty_or [] = inl refl
empty_or (x ∷ m) = inr (λ z. omega (arith, ap length z))

-- Writing a list back changes nothing.
pub put_same : (w : Ptr) (s : Store) → put_tiling w (s.tree.tiling w) s ≡ s
unfolding put_tiling
put_same w s =
    ap (λ f. record s { tree = record s.tree { tiling = f } })
      (fun_ext (λ v. update_same s.tree.tiling w v))

pub before_self : (i j : ℕ) → j < i → eq_ℤ (pos i) (pos j -ℤ pos 1) ≡ false
before_self i zero h = rw (zero_pred, ne→== (i + 1) 0 (λ z. omega (arith, z))) refl
before_self i (suc j) h = rw (pos_pred j, ne→== (i + 0) (j + 0) (λ z. omega (arith, h, z))) refl

module _ (fuel : ℕ) (c t w : Ptr) (nz : w ≢ 0) (s : Store) (here : s.tree.workspace c ≡ w) where
  pub move_put :
      (a b a' b' : List Ptr)
      → s.tree.tiling w ≡ a ++ c ∷ b
      → Absent c a
      → a ++ b ≡ a' ++ b'
      → move_tiling w (pos (length a')) c s ≡ some (put_tiling w (a' ++ c ∷ b') s)
  unfolding move_tiling
  move_put a b a' b' e absent e' =
      rw (move_to-append (s.tree.tiling w) a b a' b' c (length a') e absent e' refl) refl

  module _ (i j : ℕ) (ci : find (s.tree.tiling w) c ≡ pos i)
      (tj : find (s.tree.tiling w) t ≡ pos j) where
    pub before_behind : j < i → move_container_before fuel c t w s ≡ move_tiling w (pos j) c s
    unfolding move_container_before found_both
    before_behind h =
        rw
          (
            here,
            ne→== w 0 nz,
            ci,
            tj,
            ==_refl w,
            before_self i j h,
            le→ltb (i + 0) (j + 0) (omega (arith, h)),
          )
          refl

    pub after_behind :
        suc j < i → move_container_after fuel c t w s ≡ move_tiling w (pos (suc j)) c s
    unfolding move_container_after found_both
    after_behind h =
        rw
          (
            here,
            ne→== w 0 nz,
            ci,
            tj,
            ==_refl w,
            pos_succ j,
            ne→== (i + 0) (suc j + 0) (λ z. omega (arith, h, z)),
            le→ltb (i + 0) (j + 0) (omega (arith, h)),
          )
          refl

    pub after_next : suc j ≡ i → move_container_after fuel c t w s ≡ some s
    unfolding move_container_after found_both
    after_next h =
        rw
          (
            here,
            ne→== w 0 nz,
            ci,
            tj,
            ==_refl w,
            pos_succ j,
            (==_iff (i + 0) (suc j + 0)).1 (omega (arith, h)),
          )
          refl

    pub before_next : suc i ≡ j → move_container_before fuel c t w s ≡ some s
    unfolding move_container_before found_both
    before_next h =
        rw (here, ne→== w 0 nz, ci, tj, ==_refl w, ← h, pos_pred i, ==_refl (i + 0)) refl

    pub before_ahead :
        (k : ℕ) → suc k ≡ j → i < k → move_container_before fuel c t w s ≡ move_tiling w (pos k) c s
    unfolding move_container_before found_both
    before_ahead k e h =
        rw
          (
            here,
            ne→== w 0 nz,
            ci,
            tj,
            ==_refl w,
            ← e,
            pos_pred k,
            ne→== (i + 0) (k + 0) (λ z. omega (arith, h, z)),
            lt→ltb (i + 0) (suc k + 0) (omega (arith, h)),
          )
          refl

    pub after_ahead : i < j → move_container_after fuel c t w s ≡ move_tiling w (pos j) c s
    unfolding move_container_after found_both
    after_ahead h =
        rw
          (
            here,
            ne→== w 0 nz,
            ci,
            tj,
            ==_refl w,
            pos_succ j,
            ne→== (i + 0) (suc j + 0) (λ z. omega (arith, h, z)),
            lt→ltb (i + 0) (j + 0) (omega (arith, h)),
          )
          refl
