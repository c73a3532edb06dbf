-- ===== src/Layout/Near/Same.antt =====
-- `move_container_before` and `move_container_after` inside one workspace.
use scrollfx.Prelude.{
  ℕ, ◌≡◌, ◌≢◌, sym, ap, ◌∙◌, inl, inr, List, [], ◌∷◌, append-nil, ◌++◌, some, pos, negsuc, length,
  length-append, append_assoc, arith,
}
use scrollfx.Seq.{Ptr, find}
use scrollfx.Seq.Laws.{Absent, find-append, Absent-append}
use scrollfx.Containers.{Store}
use scrollfx.Layout.{put_tiling, move_tiling, move_container_before, move_container_after}
use scrollfx.Layout.Near.{
  remove, before, behind, remove-append, before-append, behind-append, order,
}
use scrollfx.Layout.Near.Branches.{
  before_behind, after_behind, after_next, before_next, before_ahead, after_ahead, longer, empty_or,
  put_same, move_put,
}

unchanged :
    (w : Ptr) (s : Store) (ys : List Ptr) → s.tree.tiling w ≡ ys → some s ≡ some (put_tiling w ys s)
unchanged w s ys e = ap some (sym (put_same w s)) ∙ ap (λ k. some (put_tiling w k s)) e

module _ (fuel : ℕ) (c t w : Ptr) (differ : c ≢ t) (nz : w ≢ 0) (s : Store)
    (here : s.tree.workspace c ≡ w) where
  module _ (l m r : List Ptr) (absent_l : Absent c l) (free_l : Absent t l) where
    module _ (shape : s.tree.tiling w ≡ l ++ c ∷ (m ++ t ∷ r)) (free_m : Absent t m) where
      find_c : find (s.tree.tiling w) c ≡ pos (length l)
      find_c = ap (λ k. find k c) shape ∙ find-append l (m ++ t ∷ r) c absent_l

      find_t : find (s.tree.tiling w) t ≡ pos (length (l ++ c ∷ m))
      find_t =
          ap (λ k. find k t) (shape ∙ sym (append_assoc l (c ∷ m) (t ∷ r)))
          ∙ find-append (l ++ c ∷ m) r t (Absent-append t l (c ∷ m) free_l (differ, free_m))

      rest : remove c (s.tree.tiling w) ≡ (l ++ m) ++ t ∷ r
      rest =
          ap (remove c) shape
          ∙ remove-append l (m ++ t ∷ r) c absent_l
          ∙ sym (append_assoc l m (t ∷ r))

      now_before : before c t (remove c (s.tree.tiling w)) ≡ (l ++ m) ++ c ∷ t ∷ r
      now_before =
          ap (before c t) rest ∙ before-append (l ++ m) r c t (Absent-append t l m free_l free_m)

      now_behind : behind c t (remove c (s.tree.tiling w)) ≡ (l ++ m) ++ t ∷ c ∷ r
      now_behind =
          ap (behind c t) rest ∙ behind-append (l ++ m) r c t (Absent-append t l m free_l free_m)

      after_run :
          move_container_after fuel c t w s
          ≡ some (put_tiling w (behind c t (remove c (s.tree.tiling w))) s)
      after_run =
          after_ahead fuel c t w nz s here (length l) (length (l ++ c ∷ m)) find_c find_t
            (omega (arith, length-append l (c ∷ m)))
          ∙ ap (λ k. move_tiling w (pos k) c s)
              (omega (
                arith,
                length-append l (c ∷ m),
                length-append (l ++ m) (t ∷ []),
                length-append l m,
              ))
          ∙ move_put fuel c t w nz s here l (m ++ t ∷ r) ((l ++ m) ++ t ∷ []) r shape absent_l
              (sym (append_assoc (l ++ m) (t ∷ []) r ∙ append_assoc l m (t ∷ r)))
          ∙ ap (λ k. some (put_tiling w k s))
              (append_assoc (l ++ m) (t ∷ []) (c ∷ r) ∙ sym now_behind)

      before_far :
          m ≢ []
          → move_container_before fuel c t w s
            ≡ some (put_tiling w (before c t (remove c (s.tree.tiling w))) s)
      before_far some_m =
          before_ahead fuel c t w nz s here (length l) (length (l ++ c ∷ m)) find_c find_t
            (length (l ++ m)) (omega (arith, length-append l (c ∷ m), length-append l m))
            (longer l m some_m)
          ∙ move_put fuel c t w nz s here l (m ++ t ∷ r) (l ++ m) (t ∷ r) shape absent_l
              (sym (append_assoc l m (t ∷ r)))
          ∙ ap (λ k. some (put_tiling w k s)) (sym now_before)

      before_near :
          m ≡ []
          → move_container_before fuel c t w s
            ≡ some (put_tiling w (before c t (remove c (s.tree.tiling w))) s)
      before_near no_m =
          before_next fuel c t w nz s here (length l) (length (l ++ c ∷ m)) find_c find_t
            (omega (arith, length-append l (c ∷ m), ap length no_m))
          ∙ unchanged w s _ (
              shape
              ∙ ap (λ k. l ++ c ∷ (k ++ t ∷ r)) no_m
              ∙ ap (λ k. k ++ c ∷ t ∷ r) (sym (append-nil l))
              ∙ ap (λ k. (l ++ k) ++ c ∷ t ∷ r) (sym no_m)
              ∙ sym now_before)

    module _ (shape : s.tree.tiling w ≡ l ++ t ∷ (m ++ c ∷ r)) (free_m : Absent c m) where
      ahead_t : find (s.tree.tiling w) t ≡ pos (length l)
      ahead_t = ap (λ k. find k t) shape ∙ find-append l (m ++ c ∷ r) t free_l

      shape' : s.tree.tiling w ≡ (l ++ t ∷ m) ++ c ∷ r
      shape' = shape ∙ sym (append_assoc l (t ∷ m) (c ∷ r))

      absent' : Absent c (l ++ t ∷ m)
      absent' = Absent-append c l (t ∷ m) absent_l ((λ z. differ (sym z)), free_m)

      behind_c : find (s.tree.tiling w) c ≡ pos (length (l ++ t ∷ m))
      behind_c = ap (λ k. find k c) shape' ∙ find-append (l ++ t ∷ m) r c absent'

      rest' : remove c (s.tree.tiling w) ≡ l ++ t ∷ (m ++ r)
      rest' =
          ap (remove c) shape' ∙ remove-append (l ++ t ∷ m) r c absent' ∙ append_assoc l (t ∷ m) r

      now_before' : before c t (remove c (s.tree.tiling w)) ≡ l ++ c ∷ t ∷ (m ++ r)
      now_before' = ap (before c t) rest' ∙ before-append l (m ++ r) c t free_l

      now_behind' : behind c t (remove c (s.tree.tiling w)) ≡ l ++ t ∷ c ∷ (m ++ r)
      now_behind' = ap (behind c t) rest' ∙ behind-append l (m ++ r) c t free_l

      before_run :
          move_container_before fuel c t w s
          ≡ some (put_tiling w (before c t (remove c (s.tree.tiling w))) s)
      before_run =
          before_behind fuel c t w nz s here (length (l ++ t ∷ m)) (length l) behind_c ahead_t
            (omega (arith, length-append l (t ∷ m)))
          ∙ move_put fuel c t w nz s here (l ++ t ∷ m) r l (t ∷ (m ++ r)) shape' absent'
              (append_assoc l (t ∷ m) r)
          ∙ ap (λ k. some (put_tiling w k s)) (sym now_before')

      after_far :
          m ≢ []
          → move_container_after fuel c t w s
            ≡ some (put_tiling w (behind c t (remove c (s.tree.tiling w))) s)
      after_far some_m =
          after_behind fuel c t w nz s here (length (l ++ t ∷ m)) (length l) behind_c ahead_t (
            omega (
              arith,
              longer (l ++ t ∷ []) m some_m,
              length-append l (t ∷ []),
              ap length (append_assoc l (t ∷ []) m),
            ))
          ∙ ap (λ k. move_tiling w (pos k) c s) (omega (arith, length-append l (t ∷ [])))
          ∙ move_put fuel c t w nz s here (l ++ t ∷ m) r (l ++ t ∷ []) (m ++ r) shape' absent'
              (append_assoc l (t ∷ m) r ∙ sym (append_assoc l (t ∷ []) (m ++ r)))
          ∙ ap (λ k. some (put_tiling w k s))
              (append_assoc l (t ∷ []) (c ∷ (m ++ r)) ∙ sym now_behind')

      after_near :
          m ≡ []
          → move_container_after fuel c t w s
            ≡ some (put_tiling w (behind c t (remove c (s.tree.tiling w))) s)
      after_near no_m =
          after_next fuel c t w nz s here (length (l ++ t ∷ m)) (length l) behind_c ahead_t
            (omega (arith, length-append l (t ∷ m), ap length no_m))
          ∙ unchanged w s _ (
              shape
              ∙ ap (λ k. l ++ t ∷ (k ++ c ∷ r)) no_m
              ∙ ap (λ k. l ++ t ∷ c ∷ (k ++ r)) (sym no_m)
              ∙ sym now_behind')

  -- Two different containers among the tiling containers of one workspace, which is the one of the
  -- container that moves: `move_container_before` and `move_container_after` return, and take the
  -- container out of the list and put it directly in front of, or behind, the other. Nothing else
  -- of the state changes.
  pub move_container-near :
      find (s.tree.tiling w) c ≢ negsuc 0
      → find (s.tree.tiling w) t ≢ negsuc 0
      → (move_container_before fuel c t w s
          ≡ some (put_tiling w (before c t (remove c (s.tree.tiling w))) s))
        × (move_container_after fuel c t w s
            ≡ some (put_tiling w (behind c t (remove c (s.tree.tiling w))) s))
  move_container-near hc ht = elim (order (s.tree.tiling w) c t differ hc ht) [
    | inl o ↦ (
      elim (empty_or o.middle) [
        | inl e ↦ before_near o.left o.middle o.right o.none_left o.not_left o.shape o.not_middle e
        | inr n ↦ before_far o.left o.middle o.right o.none_left o.not_left o.shape o.not_middle n
      ],
      after_run o.left o.middle o.right o.none_left o.not_left o.shape o.not_middle,
    )
    | inr o ↦ (
      before_run o.left o.middle o.right o.not_left o.none_left o.shape o.not_middle,
      elim (empty_or o.middle) [
        | inl e ↦ after_near o.left o.middle o.right o.not_left o.none_left o.shape o.not_middle e
        | inr n ↦ after_far o.left o.middle o.right o.not_left o.none_left o.shape o.not_middle n
      ],
    )
  ]
