-- ===== src/Layout/Index.antt =====
-- The indices at which containers are inserted.
use scrollfx.Prelude.{
  ◌≡◌, refl, sym, ap, ◌∙◌, List, [], ◌∷◌, ◌++◌, some, none, ◌⊎◌, inl, inr, pos, negsuc, ◌+ℤ◌,
  length, length-append, append_assoc, append-nil, pos_succ, minus_one_succ, suc, arith,
}
use scrollfx.Seq.{Ptr, find, insert}
use scrollfx.Seq.Laws.{find_cases, insert-append}
use scrollfx.Layout.{
  insert_before, insert_after, insert_beginning, insert_end, layout_insert_compute_index,
}

snoc_append : (a b : List Ptr) (y : Ptr) → a ++ y ∷ b ≡ (a ++ y ∷ []) ++ b
snoc_append a b y = sym (append_assoc a (y ∷ []) b)

-- An item inserted at the index of `layout_insert_compute_index` before or after the active item
-- stands next to the active item. Where the list does not hold that one, the index after it is the
-- beginning, and the index before it lies outside the list.
pub compute_index-insert :
    (xs : List Ptr) (active x : Ptr)
    → ((insert xs (layout_insert_compute_index xs active insert_before) x ≡ none)
        × (insert xs (layout_insert_compute_index xs active insert_after) x ≡ some (x ∷ xs))
        × (find xs active ≡ negsuc 0))
      ⊎ ((a b : List Ptr) × (xs ≡ a ++ active ∷ b)
          × (insert xs (layout_insert_compute_index xs active insert_before) x
              ≡ some (a ++ x ∷ active ∷ b))
          × (insert xs (layout_insert_compute_index xs active insert_after) x
              ≡ some (a ++ active ∷ x ∷ b)))
unfolding layout_insert_compute_index
compute_index-insert xs active x = elim (find_cases xs active) [
  | inl (e, _) ↦ inl (
    ap (λ i. insert xs i x) e,
    ap (λ i. insert xs (i +ℤ pos 1) x) e
        ∙ ap (λ i. insert xs i x) minus_one_succ
        ∙ insert-append xs [] xs x 0 refl refl,
    e,
  )
  | inr (a, b, e, f, _) ↦ inr (
    a,
    b,
    e,
    ap (λ i. insert xs i x) f ∙ insert-append xs a (active ∷ b) x (length a) e refl,
    ap (λ i. insert xs (i +ℤ pos 1) x) f
        ∙ ap (λ i. insert xs i x) (pos_succ (length a))
        ∙ insert-append xs (a ++ active ∷ []) b x (suc (length a)) (e ∙ snoc_append a b active)
            (omega (arith, length-append a (active ∷ [])))
        ∙ ap some (append_assoc a (active ∷ []) (x ∷ b)),
  )
]

-- The ends of the list.
pub compute_index_ends :
    (xs : List Ptr) (active x : Ptr)
    → (insert xs (layout_insert_compute_index xs active insert_beginning) x ≡ some (x ∷ xs))
      × (insert xs (layout_insert_compute_index xs active insert_end) x ≡ some (xs ++ x ∷ []))
unfolding layout_insert_compute_index
compute_index_ends xs active x = (
  insert-append xs [] xs x 0 refl refl,
  insert-append xs xs [] x (length xs) (sym (append-nil xs)) refl,
)
