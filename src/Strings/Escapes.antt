-- ===== src/Strings/Escapes.antt =====
-- `unescape_string` of common/stringop.c, on the array that holds the string and its final 0.
pub mod Plain
mod Tests
use scrollfx.Prelude.{
  ℕ, zero, suc, ◌+◌, ◌-◌, ◌*◌, [], ◌∷◌, ◌++◌, Option, none, some, Bool, ◌&&◌, leb, ◌==◌,
  if◌then◌else◌, length, get_elem?, set, ◌>>=◌,
}
use scrollfx.Strings.{Text}

-- How the first loop ends: with an index outside the array, without fuel, at the final 0, or by the
-- early return of a 0 that was written.
pub data Scan : Type 0 where
  outside : Scan
  unfinished : Scan
  ended : Text → Scan
  returned : Text → ℕ → Scan

-- What a round does: it ends the loop, or goes on at an index.
pub data Round : Type 0 where
  stop : Scan → Round
  go : Text → ℕ → Round

-- The letters that stand for one character each.
pub letter : ℕ → Option ℕ
letter e =
    if e == 97
    then some 7
    else if e == 98
    then some 8
    else if e == 102
    then some 12
    else if e == 110
    then some 10
    else if e == 114
    then some 13
    else if e == 116
    then some 9
    else if e == 118
    then some 11
    else if e == 39
    then some 39
    else if e == 34
    then some 34
    else if e == 63
    then some 63
    else none

pub is_digit : ℕ → Bool
is_digit c = leb 48 c && leb c 57

abbrev at : Text → ℕ → (ℕ → Round) → Round
at string i k = case (get_elem? string i)
  where
    case : Option ℕ → Round
    case none = stop outside
    case (some c) = k c

-- `\x`, with the digits that follow the `x` at `i`.
pub hex : Text → ℕ → Round
hex string i = at string (suc i) (λ d. if is_digit d then two d else written string 0)
  where
    written : Text → ℕ → Round
    written s c = go (set (set s i 0) (i - 1) c) (suc i)

    two : ℕ → Round
    two d = at string (i + 2) (λ e.
        if is_digit e
        then written (set (set string (i + 2) 0) (suc i) 0) ((d - 48) * 16 + (e - 48))
        else written (set string (suc i) 0) (d - 48))

-- The `switch`, on the character `e` at `i`.
pub escape : Text → ℕ → ℕ → Round
escape string i e =
    if e == 48
    then stop (returned (set string (i - 1) 0) (i - 1))
    else if e == 92
    then go (set string i 0) (suc i)
    else if e == 120
    then hex string i
    else case (letter e)
  where
    case : Option ℕ → Round
    case none = go string (suc i)
    case (some c) = go (set (set string (i - 1) c) i 0) (suc i)

pub round : Text → ℕ → Round
round string i = at string i (λ c.
    if c == 0
    then stop (ended string)
    else if c == 92
    then at string (suc i) (escape string (suc i))
    else go string (suc i))

abbrev pub resume : (Text → ℕ → Scan) → Round → Scan
resume k (stop r) = r
resume k (go string i) = k string i

pub scan : ℕ → Text → ℕ → Scan
scan zero string i = unfinished
scan (suc fuel) string i = resume (scan fuel) (round string i)

-- The second loop from `i` on, `n` rounds of it.
pub shift_from : ℕ → Text → ℕ → ℕ → Option (Text × ℕ)
shift_from zero string i shift = some (set string (i - shift) 0, i - shift)
shift_from (suc n) string i shift = do
  c ← get_elem? string i
  let (next, shift') = shifted c
  shift_from n next (suc i) shift'
  where
    shifted : ℕ → Text × ℕ
    shifted c = if c == 0 then (string, suc shift) else (set string (i - shift) c, shift)

pub finish : ℕ → Scan → Option (Text × ℕ)
finish len outside = none
finish len unfinished = none
finish len (returned string n) = some (string, n)
finish len (ended string) = shift_from len string 0 0

-- The array after the call and the length that it returns. Every round moves the index up, so there
-- are at most as many as the array is long, and one more.
pub unescape_string : Text → Option (Text × ℕ)
unescape_string s = finish (length s) (scan (suc (length (s ++ 0 ∷ []))) (s ++ 0 ∷ []) 0)
