-- ===== src/ListT/Tests.antt =====
-- Runs of common/list.c on small lists, and its theorems at them.
use scrollfx.Prelude.{◌≡◌, refl, [], ◌∷◌, none, some, pos, arith, sub_ℕ}
use scrollfx.ListT.{
  ListT, list_add, list_insert, list_del, list_seq_find, list_move_to, write, memmove, list_resize,
  is_zero,
}
use scrollfx.ListT.Holds.{Holds, Implements, list_add-Holds, list_seq_find-Holds}
use scrollfx.ListT.Edit.{list_insert-Implements}
use scrollfx.ListT.Move.{list_move_to-Implements}

abbrev three : ListT
three = record { capacity = 4; length = 3; items = some 7 ∷ some 8 ∷ some 9 ∷ none ∷ [] }

abbrev full_two : ListT
full_two = record { capacity = 2; length = 2; items = some 5 ∷ some 6 ∷ [] }

three-Holds : Holds three (7 ∷ 8 ∷ 9 ∷ [])
three-Holds = record {
  spare = none ∷ [];
  items = refl;
  counted = refl;
  allocated = refl;
  positive = omega arith;
}

full_two-Holds : Holds full_two (5 ∷ 6 ∷ [])
full_two-Holds = record {
  spare = [];
  items = refl;
  counted = refl;
  allocated = refl;
  positive = omega arith;
}

insert_run :
    list_insert three (pos 1) 5
    ≡ some (record { capacity = 4; length = 4; items = some 7 ∷ some 5 ∷ some 8 ∷ some 9 ∷ [] })
unfolding list_insert list_resize memmove write
insert_run = refl

del_run :
    list_del three (pos 0)
    ≡ some (record { capacity = 4; length = 2; items = some 8 ∷ some 9 ∷ some 9 ∷ none ∷ [] })
unfolding list_del memmove
del_run = refl

list_add-Holds_example : (l' : ListT) × (list_add full_two 4 ≡ some l') × Holds l' (5 ∷ 6 ∷ 4 ∷ [])
list_add-Holds_example = list_add-Holds full_two (5 ∷ 6 ∷ []) 4 full_two-Holds (omega arith)

list_seq_find-Holds_example : list_seq_find three (λ x. sub_ℕ x 8) ≡ some (pos 1)
unfolding is_zero
list_seq_find-Holds_example =
    list_seq_find-Holds three (7 ∷ 8 ∷ 9 ∷ []) (λ x. sub_ℕ x 8) three-Holds

list_insert-Implements_example :
    Implements (list_insert three (pos 1) 5) (some (7 ∷ 5 ∷ 8 ∷ 9 ∷ []))
list_insert-Implements_example =
    list_insert-Implements three (7 ∷ 8 ∷ 9 ∷ []) (pos 1) 5 three-Holds (omega arith)

list_move_to-Implements_example : Implements (list_move_to three (pos 2) 7) (some (8 ∷ 9 ∷ 7 ∷ []))
list_move_to-Implements_example =
    list_move_to-Implements three (7 ∷ 8 ∷ 9 ∷ []) 7 2 three-Holds (omega arith)
