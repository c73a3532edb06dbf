-- ===== src/Gesture/RoundTrip.antt =====
-- Printing a gesture and parsing the text again.
use scrollfx.Prelude.{
  ℕ, zero, suc, ◌+◌, ◌<◌, ◌≤◌, ◌≡◌, ◌≢◌, refl, sym, ap, ◌∙◌, subst, [], ◌∷◌, ◌++◌, Option, none,
  some, Bool, true, false, ◌&&◌, ◌==◌, ltb, ltb→lt, Bool-cases, inl, inr, append_assoc, arith,
  ==_iff,
}
use mathlib.Core.Bool.{true≢false}
use scrollfx.Bits.{masked, set_bit}
use scrollfx.Gesture.{
  Gesture, GestureType, gesture_none, hold, pinch, swipe, gesture_parse, gesture_to_string,
  gesture_directions_to_string, parse_directions, names_from, join_name, add_direction,
  gesture_direction_string, gesture_type_string, digits, parse_tokens, parse_arguments, parse_rest,
  parse_type, is_count, count_of, cleared,
}
use scrollfx.Strings.{Text, text, split_string}
use scrollfx.Strings.Tokens.{is_token, lacks, split_first, split_last}

regroup : (a b c : Text) → a ++ text ":" ++ b ++ text ":" ++ c ≡ a ++ 58 ∷ (b ++ 58 ∷ c)
regroup a b c = simp append_assoc

split_three :
    (a b c : Text)
    → is_token 58 a ≡ true
    → is_token 58 b ≡ true
    → is_token 58 c ≡ true
    → split_string (a ++ text ":" ++ b ++ text ":" ++ c) (text ":") ≡ a ∷ b ∷ c ∷ []
split_three a b c ha hb hc =
    ap (λ s. split_string s (text ":")) (regroup a b c)
    ∙ split_first 58 a (b ++ 58 ∷ c) ha
    ∙ ap (λ ts. a ∷ ts) (split_first 58 b c hb ∙ ap (λ ts. b ∷ ts) (split_last 58 c hc))

-- What the round trip needs of a number of directions and of fingers, and that it holds below 256.
names_same : ℕ × Option Text → ℕ → Bool
names_same (d, none) e = d == e
names_same (d, some _) e = false

all_below : ℕ → (ℕ → Bool) → Bool
all_below zero p = true
all_below (suc n) p = let rest = all_below n p in p n && rest

eq-of_names : (r : ℕ × Option Text) (d : ℕ) → names_same r d ≡ true → r ≡ (d, none)
unfolding names_same
eq-of_names (e, none) d h = ap (λ n. (n, none)) ((==_iff e d).0 h)
eq-of_names (e, some _) d h = absurd (true≢false (sym h))

last_below : (i n : ℕ) → i < suc n → ltb i n ≡ false → n ≡ i
last_below i n small above = ground arith

pub and_left : (a b : Bool) → a && b ≡ true → a ≡ true
and_left a b h = ground arith

pub and_right : (a b : Bool) → a && b ≡ true → b ≡ true
and_right a b h = ground arith

below-of_all : (n : ℕ) (p : ℕ → Bool) → all_below n p ≡ true → (i : ℕ) → i < n → p i ≡ true
unfolding all_below
below-of_all zero p h i small = absurd (omega arith)
below-of_all (suc n) p h i small = elim (Bool-cases (ltb i n)) [
  | inl below ↦ below-of_all n p (and_right (p n) (all_below n p) h) i (ltb→lt i n below)
  | inr above ↦
      subst (λ k. p k ≡ true) (last_below i n small above) (and_left (p n) (all_below n p) h)
]

directions_back : ℕ → Bool
directions_back d =
    let s = gesture_directions_to_string d in
    is_token 58 s && names_same (parse_directions (split_string s (text "+")) 0) d

directions_all : all_below 256 directions_back ≡ true
unfolding all_below directions_back names_same is_token lacks gesture_directions_to_string
    split_string parse_directions masked set_bit names_from join_name gesture_direction_string
    add_direction
directions_all = refl

module _ (d : ℕ) (small : d < 256) where
  directions-ok : directions_back d ≡ true
  directions-ok = below-of_all 256 directions_back directions_all d small

  directions-token : is_token 58 (gesture_directions_to_string d) ≡ true
  unfolding directions_back
  directions-token = and_left _ _ directions-ok

  directions-names :
      parse_directions (split_string (gesture_directions_to_string d) (text "+")) 0 ≡ (d, none)
  unfolding directions_back
  directions-names = eq-of_names _ d (and_right _ _ directions-ok)

fingers_token : all_below 256 (λ f. is_token 58 (digits 3 f)) ≡ true
unfolding all_below is_token lacks digits
fingers_token = refl

digits_one : (f : ℕ) → f ≤ 9 → digits 3 f ≡ (48 + f) ∷ []
unfolding digits
digits_one f few = ground arith

module _ (f : ℕ) (some_fingers : 1 ≤ f) (few : f ≤ 9) where
  fingers-count : is_count (digits 3 f) ≡ true
  unfolding is_count
  fingers-count = ap is_count (digits_one f few) ∙ ground arith

  fingers-value : count_of (digits 3 f) ≡ f
  unfolding count_of
  fingers-value = ap count_of (digits_one f few) ∙ omega arith

is_token-type : (t : GestureType) → is_token 58 (gesture_type_string t) ≡ true
unfolding is_token lacks gesture_type_string
is_token-type gesture_none = refl
is_token-type hold = refl
is_token-type pinch = refl
is_token-type swipe = refl

parse-type : (t : GestureType) → t ≢ gesture_none → parse_type (gesture_type_string t) ≡ some t
unfolding parse_type gesture_type_string
parse-type gesture_none h = absurd (h refl)
parse-type hold h = refl
parse-type pinch h = refl
parse-type swipe h = refl

-- The parser sees the three parts of a printed gesture.
parse-print_parts :
    (g : Gesture)
    → g.type ≢ gesture_none
    → g.fingers < 256
    → g.directions < 256
    → gesture_parse (gesture_to_string g)
      ≡ parse_arguments
          (record cleared { type = g.type })
          (digits 3 g.fingers ∷ gesture_directions_to_string g.directions ∷ [])
unfolding gesture_parse gesture_to_string parse_tokens
parse-print_parts g named few small = rw (
  split_three (gesture_type_string g.type) (digits 3 g.fingers)
      (gesture_directions_to_string g.directions) (is_token-type g.type)
      (below-of_all 256 (λ f. is_token 58 (digits 3 f)) fingers_token g.fingers few)
      (directions-token g.directions small),
  parse-type g.type named,
)

module _ (t : GestureType) (next last : Text) (f flags : ℕ) where
  parse-counted :
      is_count next ≡ true
      → count_of next ≡ f
      → parse_directions (split_string last (text "+")) 0 ≡ (flags, none)
      → parse_arguments (record cleared { type = t }) (next ∷ last ∷ [])
        ≡ (record { type = t; fingers = f; directions = flags }, none)
  unfolding parse_arguments parse_rest
  parse-counted counted is names = rw (counted, names, is)

-- Reading the printed form of a gesture that has a type, one to nine fingers and known directions
-- gives the gesture back, without an error.
pub parse-print :
    (g : Gesture)
    → g.type ≢ gesture_none
    → 1 ≤ g.fingers
    → g.fingers ≤ 9
    → g.directions < 256
    → gesture_parse (gesture_to_string g) ≡ (g, none)
parse-print g named some_fingers few small =
    parse-print_parts g named (omega arith) small
    ∙ parse-counted g.type (digits 3 g.fingers) (gesture_directions_to_string g.directions)
        g.fingers g.directions (fingers-count g.fingers some_fingers few)
        (fingers-value g.fingers some_fingers few) (directions-names g.directions small)
