-- ===== src/Gesture.antt =====
-- Gestures of common/gesture.c: the printed form of a gesture and its parser, and the matching of
-- a binding's gesture against the user's. A text is the list of its characters' codes.
pub mod Matching
pub mod RoundTrip
pub mod Read
pub mod Binding
mod Tests
use scrollfx.Prelude.{
  ℕ, zero, suc, ◌+◌, ◌-◌, ◌*◌, ◌/◌, ◌%◌, ◌^◌, List, [], ◌∷◌, ◌++◌, Option, none, some, Bool, true,
  false, not, ◌&&◌, ◌||◌, ℤ, leb, ◌==◌, if◌then◌else◌, length, sub_ℕ,
}
use scrollfx.Bits.{masked, set_bit, and_bits, count_bits}
use scrollfx.Strings.{Text, text, eq_text, split_string}

pub data GestureType : Type 0 where
  gesture_none : GestureType
  hold : GestureType
  pinch : GestureType
  swipe : GestureType

-- The number of the constructor, as C compares it.
pub type_code : GestureType → ℕ
type_code gesture_none = 0
type_code hold = 1
type_code pinch = 2
type_code swipe = 3

pub record Gesture : Type 0 where
  pub type : GestureType
  pub fingers : ℕ
  pub directions : ℕ

abbrev pub fingers_any : ℕ
fingers_any = 0

pub gesture_type_string : GestureType → Text
gesture_type_string gesture_none = text "none"
gesture_type_string hold = text "hold"
gesture_type_string pinch = text "pinch"
gesture_type_string swipe = text "swipe"

-- A value that is not one of the enumeration has no name.
pub gesture_direction_string : ℕ → Option Text
gesture_direction_string d =
    if d == 0
    then some (text "none")
    else if d == 1
    then some (text "up")
    else if d == 2
    then some (text "down")
    else if d == 4
    then some (text "left")
    else if d == 8
    then some (text "right")
    else if d == 16
    then some (text "inward")
    else if d == 32
    then some (text "outward")
    else if d == 64
    then some (text "clockwise")
    else if d == 128
    then some (text "counterclockwise")
    else none

abbrev or_else {ℓ} : {A : Type ℓ} → Option A → A → A
or_else none a = a
or_else (some a) _ = a

-- `result` with one more name.
pub join_name : Option Text → Text → Text
join_name none name = name
join_name (some result) name = result ++ text "+" ++ name

-- The loop over the bits from `bit` on, `n` of them.
pub names_from : ℕ → ℕ → ℕ → Option Text → Option Text
names_from directions bit zero result = result
names_from directions bit (suc n) result =
    let m = masked directions bit in
    names_from directions (suc bit) n (
      if m == 0
      then result
      else some (join_name result (or_else (gesture_direction_string m) (text "unknown"))))

pub gesture_directions_to_string : ℕ → Text
gesture_directions_to_string directions = or_else (names_from directions 0 32 none) (text "any")

-- `%u` of a `uint8_t`, which has three digits at most.
pub digits : ℕ → ℕ → Text
digits zero n = []
digits (suc fuel) n =
    let rest = digits fuel (n / 10) in if leb n 9 then (48 + n) ∷ [] else rest ++ (48 + n % 10) ∷ []

pub gesture_to_string : Gesture → Text
gesture_to_string g =
    gesture_type_string g.type
    ++ text ":"
    ++ digits 3 g.fingers
    ++ text ":"
    ++ gesture_directions_to_string g.directions

-- What a call of the parser leaves: the output, and the message of an error.
abbrev pub Parsed : Type 0
Parsed = Gesture × Option Text

pub parse_type : Text → Option GestureType
parse_type s =
    if eq_text s (text "hold")
    then some hold
    else if eq_text s (text "pinch")
    then some pinch
    else if eq_text s (text "swipe")
    then some swipe
    else none

-- The flags with the direction that the text names.
pub add_direction : Text → ℕ → Option ℕ
add_direction item flags =
    if eq_text item (text "any")
    then some flags
    else if eq_text item (text "up")
    then some (set_bit flags 0)
    else if eq_text item (text "down")
    then some (set_bit flags 1)
    else if eq_text item (text "left")
    then some (set_bit flags 2)
    else if eq_text item (text "right")
    then some (set_bit flags 3)
    else if eq_text item (text "inward")
    then some (set_bit flags 4)
    else if eq_text item (text "outward")
    then some (set_bit flags 5)
    else if eq_text item (text "clockwise")
    then some (set_bit flags 6)
    else if eq_text item (text "counterclockwise")
    then some (set_bit flags 7)
    else none

abbrev continue {ℓ κ} : {A : Type ℓ} {B : Type κ} → B → (A → B) → Option A → B
continue stop go none = stop
continue stop go (some a) = go a

-- The loop over the directions, with the flags so far.
pub parse_directions : List Text → ℕ → ℕ × Option Text
parse_directions [] flags = (flags, none)
parse_directions (item ∷ rest) flags =
    continue (flags, some (text "expected direction, got " ++ item)) (parse_directions rest)
      (add_direction item flags)

-- The directions' part of the parser, if there is one.
pub parse_rest : Gesture → Option Text → Parsed
parse_rest output none = (output, none)
parse_rest output (some next) =
    let (flags, error) = parse_directions (split_string next (text "+")) output.directions in
    (record output { directions = flags }, error)

pub is_count : Text → Bool
is_count (c ∷ []) = leb 49 c && leb c 57
is_count _ = false

-- `atoi` of a digit
pub count_of : Text → ℕ
count_of (c ∷ _) = c - 48
count_of [] = 0

pub parse_arguments : Gesture → List Text → Parsed
parse_arguments output (next ∷ []) =
    if is_count next
    then (record output { fingers = count_of next }, none)
    else parse_rest output (some next)
parse_arguments output (next ∷ last ∷ _) =
    if is_count next
    then parse_rest (record output { fingers = count_of next }) (some last)
    else (output, some (text "expected 1-9, got " ++ next))
parse_arguments output [] = (output, none)

abbrev pub cleared : Gesture
cleared = record { type = gesture_none; fingers = fingers_any; directions = 0 }

pub parse_tokens : Text → List Text → Parsed
parse_tokens input (first ∷ rest) =
    if leb (length rest) 2
    then continue (cleared, some (text "expected hold|pinch|swipe, got " ++ first))
        (λ type. parse_arguments (record cleared { type = type }) rest) (parse_type first)
    else (cleared, some (text "expected <gesture>[:<fingers>][:direction], got " ++ input))
parse_tokens input [] =
    (cleared, some (text "expected <gesture>[:<fingers>][:direction], got " ++ input))

-- The output is cleared first, so what it held before does not matter.
pub gesture_parse : Text → Parsed
gesture_parse input = parse_tokens input (split_string input (text ":"))

pub gesture_check : Gesture → GestureType → ℕ → Bool
gesture_check target type fingers =
    (type_code target.type == type_code type)
    && ((target.fingers == fingers_any) || (target.fingers == fingers))

pub gesture_match : Gesture → Gesture → Bool → Bool
gesture_match target to_match exact =
    if not (gesture_check target to_match.type to_match.fingers)
    then false
    else if exact && not (target.directions == to_match.directions)
    then false
    else and_bits 32 target.directions to_match.directions == target.directions

pub gesture_equal : Gesture → Gesture → Bool
gesture_equal a b =
    (type_code a.type == type_code b.type)
    && (a.fingers == b.fingers)
    && (a.directions == b.directions)

-- The difference of two counts of 32 bits fits in an `int8_t`.
pub gesture_compare : Gesture → Gesture → ℤ
gesture_compare a b = sub_ℕ (count_bits 32 a.directions) (count_bits 32 b.directions)
