-- ===== src/Trails/Tests.antt =====
-- Runs of the trails of sway/tree/layout.c, and the theorems about them at such inputs.
use scrollfx.Prelude.{◌≡◌, refl, List, [], ◌∷◌, none, some, true, pos, arith}
use scrollfx.Trails.{
  Trail, Trails, State, Event, trails_changed, trailmark, layout_trail_next, layout_trail_prev,
  layout_trailmark_toggle, layout_trailmark_next, layout_trail_remove_view,
  layout_trails_trailmarked, active_trail, trails_of, layout_trails_length, layout_trails_active,
  layout_trails_active_length,
}
use scrollfx.Trails.Bounds.{TrailsIsValid, TrailIsValid, Safe}
use scrollfx.Trails.Safe.{Call, run, run-Safe}
use scrollfx.Trails.Marks.{trailmarked-toggle}
use scrollfx.Trails.Remove.{AllCleared, remove_view-AllCleared, remove_view-dangles}
use scrollfx.Trails.Cycle.{trail_prev-next}

-- Two trails; the second is active, and so is its last mark.
abbrev first_trail : Trail
first_trail = record { marks = 5 ∷ []; active = 0 }

abbrev second_trail : Trail
second_trail = record { marks = 5 ∷ 6 ∷ 7 ∷ []; active = 2 }

abbrev two_trails : Trails
two_trails = record { trails = first_trail ∷ second_trail ∷ []; active = 1 }

first_trail-valid : TrailIsValid first_trail
first_trail-valid = record { inside = omega arith; distinct = (tt, tt) }

second_trail-valid : TrailIsValid second_trail
second_trail-valid = record {
  inside = omega arith;
  distinct = (((λ e. omega arith), ((λ e. omega arith), tt)), (((λ e. omega arith), tt), (tt, tt)));
}

two_trails-valid : TrailsIsValid two_trails
two_trails-valid = record {
  inside = omega arith;
  each = (first_trail-valid, (second_trail-valid, tt));
}

-- Marking two views from nothing makes a trail, and counts them.
counted :
    (layout_trails_length (some two_trails) ≡ 2)
    × (layout_trails_active (some two_trails) ≡ 1)
    × (layout_trails_active_length (some two_trails) ≡ some 3)
unfolding layout_trails_length layout_trails_active layout_trails_active_length
counted = (refl, refl, refl)

toggle_run :
    layout_trailmark_toggle 6 (some two_trails)
    ≡ some (
      some (record two_trails {
        trails = first_trail ∷ record { marks = 5 ∷ 7 ∷ []; active = 1 } ∷ [];
      }),
      trails_changed ∷ trailmark 6 ∷ [],
    )
unfolding layout_trailmark_toggle
toggle_run = refl

run-Safe_example : Safe (
    run
      (Call.toggle 9
        ∷ Call.next_mark
        ∷ Call.delete_trail
        ∷ Call.number (pos 4)
        ∷ Call.prev_mark
        ∷ [])
      (some two_trails))
run-Safe_example =
    run-Safe
      (Call.toggle 9
        ∷ Call.next_mark
        ∷ Call.delete_trail
        ∷ Call.number (pos 4)
        ∷ Call.prev_mark
        ∷ [])
      (some two_trails) two_trails-valid

trailmarked-toggle_example :
    (s' : State) × (told : List Event) × (layout_trailmark_toggle 6 (some two_trails)
      ≡ some (s', told))
    × (layout_trails_trailmarked 7 s' ≡ some true)
unfolding layout_trails_trailmarked
trailmarked-toggle_example =
    trailmarked-toggle 6 7 (λ e. omega arith) (some two_trails) two_trails-valid

remove_view-AllCleared_example :
    (s' : State) × (told : List Event) × (layout_trail_remove_view 5 (some two_trails)
      ≡ some (s', told))
    × AllCleared 5 (trails_of (some two_trails)) (trails_of s')
unfolding trails_of
remove_view-AllCleared_example =
    remove_view-AllCleared 5 (some two_trails)
      (first_trail-valid.distinct, (second_trail-valid.distinct, tt))

remove_view-dangles_example :
    (s' : State) × (told : List Event) × (layout_trail_remove_view 5 (some two_trails)
      ≡ some (s', told))
    × (layout_trailmark_next s' ≡ none)
unfolding active_trail
remove_view-dangles_example =
    remove_view-dangles 5 two_trails second_trail [] (6 ∷ 7 ∷ []) refl refl tt (omega arith) refl

trail_prev-next_example :
    ((layout_trail_prev (layout_trail_next (some two_trails)).0).0 ≡ some two_trails)
    × ((layout_trail_next (layout_trail_prev (some two_trails)).0).0 ≡ some two_trails)
trail_prev-next_example = trail_prev-next (some two_trails) two_trails-valid
