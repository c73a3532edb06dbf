-- ===== src/Layout/Near.antt =====
-- Moving a container next to another one among the tiling containers of their workspace.
pub mod Same
pub mod Branches
use scrollfx.Prelude.{
  ℕ, suc, ◌+◌, ◌-◌, ◌≡◌, ◌≢◌, refl, sym, ap, ap₂, subst, ◌∙◌, ◌<◌, zero, false, ==_iff, ◌⊎◌, inl,
  inr, List, [], ◌∷◌, ◌++◌, some, Bool, ◌==◌, if◌then◌else◌, pos, negsuc, ltb_ℤ, eq_ℤ, ◌-ℤ◌, ◌+ℤ◌,
  length, length-append, append_assoc, pos_succ, pos_pred, zero_pred, arith, ==_refl, ne→==, lt→ltb,
  le→ltb, ltb,
}
use std.Path.{fun_ext}
use scrollfx.Seq.{Ptr, find, move_to}
use scrollfx.Seq.Laws.{
  Absent, find_cases, find-append, find-Absent, move_to-append, Absent-append, Absent-parts,
}
use scrollfx.Tree.{Tree, update}
use scrollfx.Tree.Walk.{update_same}
use scrollfx.Containers.{Store}
use scrollfx.Layout.{
  put_tiling, move_tiling, found_both, move_container_before, move_container_after,
}

-- A list without the first occurrence of `c`.
unfoldable pub remove : Ptr → List Ptr → List Ptr
remove c [] = []
remove c (x ∷ xs) = if x == c then xs else x ∷ remove c xs

-- A list with `c` in front of, and behind, the first occurrence of `target`.
unfoldable pub before : Ptr → Ptr → List Ptr → List Ptr
before c target [] = []
before c target (x ∷ xs) = if x == target then c ∷ x ∷ xs else x ∷ before c target xs

unfoldable pub behind : Ptr → Ptr → List Ptr → List Ptr
behind c target [] = []
behind c target (x ∷ xs) = if x == target then x ∷ c ∷ xs else x ∷ behind c target xs

pub remove-append : (a b : List Ptr) (c : Ptr) → Absent c a → remove c (a ++ c ∷ b) ≡ a ++ b
unfolding remove
remove-append [] b c h = rw (==_refl c) refl
remove-append (x ∷ a) b c h = rw (ne→== x c h.0) (ap (λ k. x ∷ k) (remove-append a b c h.1))

pub before-append :
    (a b : List Ptr) (c t : Ptr) → Absent t a → before c t (a ++ t ∷ b) ≡ a ++ c ∷ t ∷ b
unfolding before
before-append [] b c t h = rw (==_refl t) refl
before-append (x ∷ a) b c t h = rw (ne→== x t h.0) (ap (λ k. x ∷ k) (before-append a b c t h.1))

pub behind-append :
    (a b : List Ptr) (c t : Ptr) → Absent t a → behind c t (a ++ t ∷ b) ≡ a ++ t ∷ c ∷ b
unfolding behind
behind-append [] b c t h = rw (==_refl t) refl
behind-append (x ∷ a) b c t h = rw (ne→== x t h.0) (ap (λ k. x ∷ k) (behind-append a b c t h.1))

-- Where two different items stand: the first before the second, or behind it.
pub record Ahead (x y : Ptr) (xs : List Ptr) : Type 0 where
  pub left : List Ptr
  pub middle : List Ptr
  pub right : List Ptr
  pub shape : xs ≡ left ++ x ∷ (middle ++ y ∷ right)
  pub none_left : Absent x left
  pub not_left : Absent y left
  pub not_middle : Absent y middle

pub order :
    (xs : List Ptr) (x y : Ptr)
    → x ≢ y
    → find xs x ≢ negsuc 0
    → find xs y ≢ negsuc 0
    → Ahead x y xs ⊎ Ahead y x xs
order xs x y n hx hy = elim (find_cases xs x) [
  | inl (e, _) ↦ absurd (hx e)
  | inr (a, b, e, _, absent) ↦ elim (find_cases a y) [
    | inr (a1, m, e1, _, absent1) ↦
        let (l, r) = Absent-parts x a1 (y ∷ m) (subst (Absent x) e1 absent) in
        inr (record {
          left = a1;
          middle = m;
          right = b;
          shape = e ∙ ap (λ k. k ++ x ∷ b) e1 ∙ append_assoc a1 (y ∷ m) (x ∷ b);
          none_left = absent1;
          not_left = l;
          not_middle = r.1;
        })
    | inl (_, free) ↦ elim (find_cases b y) [
      | inr (m, b1, e1, _, absent1) ↦ inl (record {
        left = a;
        middle = m;
        right = b1;
        shape = e ∙ ap (λ k. a ++ x ∷ k) e1;
        none_left = absent;
        not_left = free;
        not_middle = absent1;
      })
      | inl (_, free1) ↦ absurd (
          hy (
            ap (λ k. find k y) e
            ∙ find-Absent (a ++ x ∷ b) y (Absent-append y a (x ∷ b) free (n, free1))))
    ]
  ]
]
