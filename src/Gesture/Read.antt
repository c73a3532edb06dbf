-- ===== src/Gesture/Read.antt =====
-- What the parser of gestures leaves, for every text.
use scrollfx.Prelude.{
  ℕ, ◌<◌, ◌≤◌, ◌≡◌, ◌≢◌, refl, sym, ap, ◌∙◌, List, [], ◌∷◌, ◌++◌, Option, none, some, Bool, true,
  false, leb, if◌then◌else◌, arith, Bool-cases, inl, inr, ◌⊎◌, length,
}
use mathlib.Core.Bool.{true≢false}
use mathlib.Core.Option.{none-ne-some, some-injective}
use scrollfx.Bits.{set_bit, masked}
use scrollfx.Strings.{Text, text, eq_text, split_string}
use scrollfx.Gesture.{
  Gesture, GestureType, type_code, gesture_none, hold, pinch, swipe, fingers_any, Parsed,
  parse_type, add_direction, continue, parse_directions, parse_rest, is_count, count_of,
  parse_arguments, cleared, parse_tokens, gesture_parse, gesture_to_string,
}
use scrollfx.Gesture.RoundTrip.{parse-print}

-- The flags are those of the eight directions.
IsFlags : Option ℕ → Type 0
IsFlags none = Unit
IsFlags (some flags) = flags < 256

if-IsFlags : (b : Bool) (x y : Option ℕ) → IsFlags x → IsFlags y → IsFlags (if b then x else y)
if-IsFlags true x y h k = h
if-IsFlags false x y h k = k

module _ (flags : ℕ) (small : flags < 256) where
  bits_small :
      (set_bit flags 0 < 256)
      × (set_bit flags 1 < 256)
      × (set_bit flags 2 < 256)
      × (set_bit flags 3 < 256)
      × (set_bit flags 4 < 256)
      × (set_bit flags 5 < 256)
      × (set_bit flags 6 < 256)
      × (set_bit flags 7 < 256)
  unfolding set_bit masked
  bits_small = (
    ground (arith, small),
    ground (arith, small),
    ground (arith, small),
    ground (arith, small),
    ground (arith, small),
    ground (arith, small),
    ground (arith, small),
    ground (arith, small),
  )

  add_direction-IsFlags : (item : Text) → IsFlags (add_direction item flags)
  unfolding add_direction IsFlags
  add_direction-IsFlags item =
      let (a, b, c, d, e, f, g, h) = bits_small in
      if-IsFlags (eq_text item (text "any")) _ _ small (
        if-IsFlags (eq_text item (text "up")) _ _ a (
          if-IsFlags (eq_text item (text "down")) _ _ b (
            if-IsFlags (eq_text item (text "left")) _ _ c (
              if-IsFlags (eq_text item (text "right")) _ _ d (
                if-IsFlags (eq_text item (text "inward")) _ _ e (
                  if-IsFlags (eq_text item (text "outward")) _ _ f (
                    if-IsFlags (eq_text item (text "clockwise")) _ _ g
                      (if-IsFlags (eq_text item (text "counterclockwise")) _ _ h tt))))))))

continue-small :
    (flags : ℕ) (e : Option Text) (go : ℕ → ℕ × Option Text) (o : Option ℕ)
    → flags < 256
    → ((f : ℕ) → f < 256 → (go f).0 < 256)
    → IsFlags o
    → (continue (flags, e) go o).0 < 256
unfolding IsFlags
continue-small flags e go none small later h = small
continue-small flags e go (some f) small later h = later f h

parse_directions-small :
    (items : List Text) (flags : ℕ) → flags < 256 → (parse_directions items flags).0 < 256
unfolding parse_directions
parse_directions-small [] flags small = small
parse_directions-small (item ∷ rest) flags small =
    continue-small flags _ (parse_directions rest) (add_direction item flags) small
      (λ f. parse_directions-small rest f) (add_direction-IsFlags flags small item)

-- The fingers are any or one to nine, the flags are those of the directions, and there is an error
-- if there is no type.
pub IsRead : Parsed → Type 0
IsRead (g, e) =
    ((g.fingers ≡ fingers_any) ⊎ ((1 ≤ g.fingers) × (g.fingers ≤ 9)))
    × (g.directions < 256)
    × (e ≡ none → g.type ≢ gesture_none)

parse_rest-IsRead : (g : Gesture) (o : Option Text) → IsRead (g, none) → IsRead (parse_rest g o)
unfolding parse_rest IsRead
parse_rest-IsRead g none h = h
parse_rest-IsRead g (some next) (f, d, t) =
    (f, parse_directions-small (split_string next (text "+")) g.directions d, λ e. t refl)

count-bounds : (next : Text) → is_count next ≡ true → (1 ≤ count_of next) × (count_of next ≤ 9)
unfolding is_count count_of
count-bounds [] h = absurd (true≢false (sym h))
count-bounds (c ∷ []) h = (ground (arith, h), ground (arith, h))
count-bounds (c ∷ d ∷ s) h = absurd (true≢false (sym h))

parse_arguments-IsRead :
    (g : Gesture) (ss : List Text) → IsRead (g, none) → IsRead (parse_arguments g ss)
unfolding parse_arguments IsRead
parse_arguments-IsRead g [] h = h
parse_arguments-IsRead g (next ∷ []) (f, d, t) = elim (Bool-cases (is_count next)) [
  | inl count ↦ rw count (inr (count-bounds next count), d, t)
  | inr other ↦ rw other (parse_rest-IsRead g (some next) (f, d, t))
]
parse_arguments-IsRead g (next ∷ last ∷ more) (f, d, t) = elim (Bool-cases (is_count next)) [
  | inl count ↦ rw count (
      parse_rest-IsRead (record g { fingers = count_of next }) (some last)
        (inr (count-bounds next count), d, t))
  | inr other ↦ rw other (f, d, λ e. t refl)
]

-- A type, if there is one, has a name.
abbrev IsNamed : Option GestureType → Type 0
IsNamed o = (t : GestureType) → o ≡ some t → type_code t ≢ 0

if-IsNamed :
    (b : Bool) (x y : Option GestureType) → IsNamed x → IsNamed y → IsNamed (if b then x else y)
if-IsNamed true x y h k = h
if-IsNamed false x y h k = k

some-IsNamed : (t : GestureType) → type_code t ≢ 0 → IsNamed (some t)
some-IsNamed t n u h z = n (ap type_code (some-injective t u h) ∙ z)

parse_type-IsNamed : (s : Text) → IsNamed (parse_type s)
unfolding parse_type type_code
parse_type-IsNamed s =
    if-IsNamed (eq_text s (text "hold")) _ _ (some-IsNamed hold (λ z. omega (arith, z))) (
      if-IsNamed (eq_text s (text "pinch")) _ _ (some-IsNamed pinch (λ z. omega (arith, z))) (
        if-IsNamed (eq_text s (text "swipe")) _ _ (some-IsNamed swipe (λ z. omega (arith, z)))
          (λ t h. absurd (none-ne-some t h))))

parse_tokens-IsRead : (input : Text) (ss : List Text) → IsRead (parse_tokens input ss)
unfolding parse_tokens IsRead type_code
parse_tokens-IsRead input [] = (inl refl, omega arith, λ e. absurd (none-ne-some _ (sym e)))
parse_tokens-IsRead input (first ∷ rest) = elim (Bool-cases (leb (length rest) 2)) [
  | inr many ↦ rw many (inl refl, omega arith, λ e. absurd (none-ne-some _ (sym e)))
  | inl few ↦ rw few (by_type (parse_type first) refl)
]
  where
    by_type :
        (o : Option GestureType)
        → parse_type first ≡ o
        → IsRead (
            continue
              (cleared, some (text "expected hold|pinch|swipe, got " ++ first))
              (λ type. parse_arguments (record cleared { type = type }) rest)
              o)
    by_type none h = (inl refl, omega arith, λ e. absurd (none-ne-some _ (sym e)))
    by_type (some t) h =
        parse_arguments-IsRead (record cleared { type = t }) rest
          (inl refl, omega arith, λ e z. parse_type-IsNamed first t h (ap type_code z))

-- `gesture_parse` of any text leaves a gesture that has any number of fingers or one to nine, and
-- no other flags than those of the eight directions. If there is no error, its type is hold, pinch
-- or swipe, and if it has a number of fingers, too, reading its printed form gives it back.
pub gesture_parse-IsRead :
    (input : Text)
    → IsRead (gesture_parse input)
      × (((gesture_parse input).1 ≡ none)
          → 1 ≤ (gesture_parse input).0.fingers
          → gesture_parse (gesture_to_string (gesture_parse input).0)
            ≡ ((gesture_parse input).0, none))
unfolding gesture_parse IsRead
gesture_parse-IsRead input =
    let p = gesture_parse input in
    let (f, d, t) = parse_tokens-IsRead input (split_string input (text ":")) in
    ((f, d, t), λ fine some_fingers. parse-print p.0 (t fine) some_fingers (few f) d)
  where
    few : {n : ℕ} → (n ≡ fingers_any) ⊎ ((1 ≤ n) × (n ≤ 9)) → n ≤ 9
    few (inl z) = omega (arith, z)
    few (inr (lo, hi)) = hi
