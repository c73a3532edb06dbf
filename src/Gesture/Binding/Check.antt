-- ===== src/Gesture/Binding/Check.antt =====
-- `gesture_binding_check`, which decides whether a gesture is followed at all.
use scrollfx.Prelude.{List, [], ◌∷◌, none, ◌≡◌, refl, Bool, true, false, ◌&&◌, arith, if◌then◌else◌}
use scrollfx.Gesture.{Gesture, gesture_check, gesture_match}
use scrollfx.Strings.{Text}
use scrollfx.Gesture.Binding.{
  Binding, input_matches, gesture_binding_check, accepts, step, match_from, gesture_binding_match,
}

unchecked :
    (c i : Bool) (r : Bool) → (if c && i then true else r) ≡ false → (c && i ≡ false) × (r ≡ false)
unchecked c i r h = ground arith

module _ (gesture : Gesture) (input : Text) where
  unaccepted :
      (b : Binding)
      → gesture_check b.gesture gesture.type gesture.fingers && input_matches b.input input ≡ false
      → accepts gesture input b ≡ false
  unfolding accepts gesture_match
  unaccepted b h = ground arith

  -- When `gesture_binding_check` finds no binding for a type and a number of fingers,
  -- `gesture_binding_match` returns NULL for every gesture of them.
  pub unchecked-match :
      (bindings : List Binding)
      → gesture_binding_check bindings gesture.type gesture.fingers input ≡ false
      → gesture_binding_match gesture input bindings ≡ none
  unfolding gesture_binding_check gesture_binding_match match_from step
  unchecked-match [] h = refl
  unchecked-match (b ∷ bindings) h =
      let (here, rest) =
        unchecked (gesture_check b.gesture gesture.type gesture.fingers)
          (input_matches b.input input)
          (gesture_binding_check bindings gesture.type gesture.fingers input) h in
      rw (unaccepted b here) (unchecked-match bindings rest)
