-- ===== src/Strings.antt =====
-- Strings of common/stringop.c: cutting at delimiters, joining arguments, and taking quotes out. A
-- string is the list of its characters' codes, without the final 0.
pub mod Tokens
pub mod Quotes
pub mod Escapes
mod Tests
use Prim.Native.Char.{code}
use Prim.Native.String.{String}
use scrollfx.Prelude.{
  ℕ, List, [], ◌∷◌, ◌++◌, Option, none, some, Bool, true, false, not, ◌&&◌, ◌||◌, ◌==◌,
  if◌then◌else◌,
}

abbrev pub Text : Type 0
Text = List ℕ

abbrev pub text : String → Text
text String.[] = []
text (String.◌∷◌ c s) = code c ∷ text s

-- `strcmp(s, t) == 0`
abbrev pub eq_text : Text → Text → Bool
eq_text [] [] = true
eq_text (c ∷ s) (d ∷ t) = (c == d) && eq_text s t
eq_text _ _ = false

abbrev pub is_delim : Text → ℕ → Bool
is_delim [] c = false
is_delim (d ∷ delims) c = (c == d) || is_delim delims c

abbrev pub with_token : Text → List Text → List Text
with_token [] ts = ts
with_token (c ∷ t) ts = (c ∷ t) ∷ ts

-- The piece in front of the first delimiter, and the tokens behind it.
abbrev pub cut : Text → Text → Text × List Text
cut delims [] = ([], [])
cut delims (c ∷ s) =
    let (piece, ts) = cut delims s in
    if is_delim delims c then ([], with_token piece ts) else (c ∷ piece, ts)

-- `strtok` makes no token of an empty piece.
unfoldable pub split_string : Text → Text → List Text
split_string s delims = let (piece, ts) = cut delims s in with_token piece ts

-- The loop of `join_args`: every argument with a blank behind it.
pub join_from : List Text → Text
join_from [] = []
join_from (arg ∷ argv) = arg ++ 32 ∷ join_from argv

-- `res[len - 1] = '\0'`
pub chop : Text → Text
chop [] = []
chop (c ∷ []) = []
chop (c ∷ d ∷ s) = c ∷ chop (d ∷ s)

-- NULL when there are no arguments.
pub join_args : List Text → Option Text
join_args [] = none
join_args (arg ∷ argv) = some (chop (join_from (arg ∷ argv)))

pub record Quoting : Type 0 where
  pub in_str : Bool
  pub in_chr : Bool
  pub escaped : Bool

-- One round of `strip_quotes`: whether the character goes, and the flags for the next one.
pub strip_step : Quoting → ℕ → Bool × Quoting
strip_step q c =
    if (c == 39) && not q.in_str && not q.escaped
    then (true, record q { in_chr = not q.in_chr })
    else if (c == 34) && not q.in_chr && not q.escaped
    then (true, record q { in_str = not q.in_str })
    else if c == 92
    then (false, record q { escaped = not q.escaped })
    else (false, record q { escaped = false })

pub strip_from : Quoting → Text → Text
strip_from q [] = []
strip_from q (c ∷ s) =
    let (gone, next) = strip_step q c in
    let rest = strip_from next s in if gone then rest else c ∷ rest

pub strip_quotes : Text → Text
strip_quotes = strip_from (record { in_str = false; in_chr = false; escaped = false })
