-- ===== src/Gesture/Tests.antt =====
-- Runs of the gestures on concrete inputs.
use scrollfx.Prelude.{◌≤◌, none, some, true, false, ◌≡◌, ◌≢◌, refl, ap, arith, pos, ◌↔◌, ◌≤ℤ◌}
use scrollfx.Gesture.{
  Gesture, gesture_none, swipe, gesture_parse, gesture_to_string, gesture_check, gesture_match,
  gesture_compare, cleared, is_count, type_code, gesture_type_string, digits,
  gesture_directions_to_string, names_from, join_name, gesture_direction_string, parse_tokens,
  parse_arguments, parse_type,
}
use scrollfx.Bits.{and_bits, masked}
use scrollfx.Strings.{text, split_string}
use scrollfx.Gesture.Matching.{match-compare}
use scrollfx.Gesture.Read.{IsRead, gesture_parse-IsRead}
use scrollfx.Gesture.RoundTrip.{parse-print}

-- A swipe of three fingers up and to the right, and two of its bindings.
abbrev pub swipe_up_right : Gesture
swipe_up_right = record { type = swipe; fingers = 3; directions = 9 }

abbrev pub swipe_up : Gesture
swipe_up = record { type = swipe; fingers = 3; directions = 1 }

type_differs : swipe ≢ gesture_none
unfolding type_code
type_differs e = omega (arith, ap type_code e)

matched : gesture_match swipe_up swipe_up_right false ≡ true
unfolding gesture_match gesture_check type_code and_bits
matched = refl

match-compare_example :
    (gesture_compare swipe_up swipe_up_right ≤ℤ pos 0)
    × ((gesture_compare swipe_up swipe_up_right ≡ pos 0)
        ↔ (swipe_up.directions ≡ swipe_up_right.directions))
match-compare_example = match-compare swipe_up swipe_up_right false (omega arith) matched

parse-print_example : gesture_parse (gesture_to_string swipe_up_right) ≡ (swipe_up_right, none)
parse-print_example =
    parse-print swipe_up_right type_differs (omega arith) (omega arith) (omega arith)

printed : gesture_to_string swipe_up_right ≡ text "swipe:3:up+right"
unfolding gesture_to_string gesture_type_string digits gesture_directions_to_string names_from
    join_name gesture_direction_string masked
printed = refl

-- A printed zero, which stands for any number of fingers, is not read back.
any_refused :
    gesture_parse (text "swipe:0:up")
    ≡ (record cleared { type = swipe }, some (text "expected 1-9, got 0"))
unfolding gesture_parse parse_tokens parse_arguments parse_type split_string is_count
any_refused = refl

gesture_parse-IsRead_example :
    IsRead (gesture_parse (text "swipe:3:up+left"))
    × (((gesture_parse (text "swipe:3:up+left")).1 ≡ none)
        → 1 ≤ (gesture_parse (text "swipe:3:up+left")).0.fingers
        → gesture_parse (gesture_to_string (gesture_parse (text "swipe:3:up+left")).0)
          ≡ ((gesture_parse (text "swipe:3:up+left")).0, none))
gesture_parse-IsRead_example = gesture_parse-IsRead (text "swipe:3:up+left")
