-- ===== src/Gesture/Binding.antt =====
-- The choice of a gesture binding in sway/input/seatop_default.c among those that match the gesture
-- and the device that it came from.
pub mod Weight
pub mod Unbeaten
pub mod Check
mod Tests
use scrollfx.Prelude.{
  ℕ, List, [], ◌∷◌, Option, none, some, Bool, true, false, not, ◌&&◌, ◌||◌, pos, ltb_ℤ, eq_ℤ,
  if◌then◌else◌,
}
use scrollfx.Gesture.{Gesture, GestureType, gesture_check, gesture_match, gesture_compare}
use scrollfx.Strings.{Text, text, eq_text}

-- `exact` is the flag BINDING_EXACT.
pub record Binding : Type 0 where
  pub gesture : Gesture
  pub exact : Bool
  pub input : Text
  pub command : Text

-- The test of the input, the same in both searches.
pub input_matches : Text → Text → Bool
input_matches wanted input = eq_text wanted (text "*") || eq_text wanted input

pub gesture_binding_check : List Binding → GestureType → ℕ → Text → Bool
gesture_binding_check [] type fingers input = false
gesture_binding_check (b ∷ bindings) type fingers input =
    let rest = gesture_binding_check bindings type fingers input in
    if gesture_check b.gesture type fingers && input_matches b.input input then true else rest

-- Whether a binding passes over the one found so far.
pub keeps : Binding → Binding → Bool
keeps current b =
    if eq_text current.input b.input
    then (not b.exact && current.exact) || ltb_ℤ (pos 0) (gesture_compare current.gesture b.gesture)
    else eq_text b.input (text "*")

pub refuses : Option Binding → Binding → Bool
refuses none b = false
refuses (some current) b = keeps current b

module _ (gesture : Gesture) (input : Text) where
  pub accepts : Binding → Bool
  accepts b = gesture_match b.gesture gesture b.exact && input_matches b.input input

  pub finished : Binding → Bool
  finished b = eq_text b.input input && eq_ℤ (gesture_compare b.gesture gesture) (pos 0)

  -- One round of the loop: the binding found so far, and whether the loop ends.
  pub step : Binding → Option Binding → Option Binding × Bool
  step b current =
      if not (accepts b) || refuses current b then (current, false) else (some b, finished b)

  pub match_from : List Binding → Option Binding → Option Binding
  match_from [] current = current
  match_from (b ∷ bindings) current =
      let (next, stop) = step b current in
      let rest = match_from bindings next in if stop then next else rest

  pub gesture_binding_match : List Binding → Option Binding
  gesture_binding_match bindings = match_from bindings none
