-- ===== src/Gesture/Binding/Tests.antt =====
-- Runs of the choice of a binding on concrete inputs.
use scrollfx.Prelude.{[], ◌∷◌, none, some, true, false, ◌≡◌, refl}
use scrollfx.Gesture.{Gesture, pinch, gesture_check, gesture_match, gesture_compare, type_code}
use scrollfx.Bits.{and_bits, count_bits}
use scrollfx.Strings.{text}
use scrollfx.Gesture.Binding.{
  Binding, match_from, step, refuses, keeps, accepts, finished, input_matches,
  gesture_binding_match, gesture_binding_check,
}
use scrollfx.Gesture.Binding.Unbeaten.{IsUnbeaten, binding_match-IsUnbeaten}
use scrollfx.Gesture.Binding.Check.{unchecked-match}
use scrollfx.Gesture.Tests.{swipe_up_right, swipe_up}

abbrev bind_up : Binding
bind_up = record { gesture = swipe_up; exact = false; input = text "*"; command = text "up" }

abbrev bind_both : Binding
bind_both = record {
  gesture = swipe_up_right;
  exact = true;
  input = text "pad";
  command = text "both";
}

binding_match-IsUnbeaten_example :
    IsUnbeaten swipe_up_right
      (text "pad")
      (bind_up ∷ bind_both ∷ bind_up ∷ [])
      (gesture_binding_match swipe_up_right (text "pad") (bind_up ∷ bind_both ∷ bind_up ∷ []))
binding_match-IsUnbeaten_example =
    binding_match-IsUnbeaten swipe_up_right (text "pad") (bind_up ∷ bind_both ∷ bind_up ∷ [])

abbrev pinch_in : Gesture
pinch_in = record { type = pinch; fingers = 2; directions = 16 }

not_bound :
    gesture_binding_check (bind_up ∷ bind_both ∷ []) pinch_in.type pinch_in.fingers (text "pad")
    ≡ false
unfolding gesture_binding_check gesture_check type_code
not_bound = refl

unchecked-match_example :
    gesture_binding_match pinch_in (text "pad") (bind_up ∷ bind_both ∷ []) ≡ none
unchecked-match_example = unchecked-match pinch_in (text "pad") (bind_up ∷ bind_both ∷ []) not_bound

found_both :
    gesture_binding_match swipe_up_right (text "pad") (bind_up ∷ bind_both ∷ bind_up ∷ [])
    ≡ some bind_both
unfolding gesture_binding_match match_from step refuses keeps accepts finished input_matches
    gesture_match gesture_check gesture_compare type_code and_bits count_bits
found_both = refl

-- The same binding without the flag, in front: the search ends there, and the exact one, which the
-- manual prefers, is not reached.
abbrev bind_plain : Binding
bind_plain = record bind_both { exact = false; command = text "plain" }

found_plain :
    gesture_binding_match swipe_up_right (text "pad") (bind_plain ∷ bind_both ∷ [])
    ≡ some bind_plain
unfolding gesture_binding_match match_from step refuses keeps accepts finished input_matches
    gesture_match gesture_check gesture_compare type_code and_bits count_bits
found_plain = refl

-- For every device, the exact one is chosen.
found_exact :
    gesture_binding_match swipe_up_right
      (text "pad")
      (record bind_plain { input = text "*" } ∷ record bind_both { input = text "*" } ∷ [])
    ≡ some (record bind_both { input = text "*" })
unfolding gesture_binding_match match_from step refuses keeps accepts finished input_matches
    gesture_match gesture_check gesture_compare type_code and_bits count_bits
found_exact = refl
