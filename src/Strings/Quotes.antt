-- ===== src/Strings/Quotes.antt =====
-- What `strip_quotes` leaves.
use scrollfx.Prelude.{ℕ, ◌≡◌, refl, ap, [], ◌∷◌, ◌++◌, Bool, true, false, not, ◌&&◌, ◌==◌, arith}
use scrollfx.Strings.{Text, strip_step, strip_from, strip_quotes, Quoting}

-- Without double quotes and backslashes.
unfoldable pub plain : Text → Bool
plain [] = true
plain (c ∷ s) = not (c == 34) && not (c == 92) && plain s

abbrev outside : Quoting
outside = record { in_str = false; in_chr = false; escaped = false }

abbrev inside : Quoting
inside = record { in_str = true; in_chr = false; escaped = false }

plain-tail : (c : ℕ) (s : Text) → plain (c ∷ s) ≡ true → plain s ≡ true
unfolding plain
plain-tail c s h = ground arith

-- Between double quotes a plain character stays, a single quote too.
step-inside : (c : ℕ) (s : Text) → plain (c ∷ s) ≡ true → strip_step inside c ≡ (false, inside)
unfolding plain strip_step
step-inside c s h = ground arith

from-inside : (s r : Text) → plain s ≡ true → strip_from inside (s ++ 34 ∷ r) ≡ s ++ strip_quotes r
unfolding strip_from strip_step strip_quotes
from-inside [] r h = refl
from-inside (c ∷ s) r h =
    rw (step-inside c s h) (ap (λ t. c ∷ t) (from-inside s r (plain-tail c s h)))

-- `strip_quotes` on a text that begins with a quoted part without double quotes and backslashes
-- leaves that part as it is, without its quotes, and goes on behind it as at the beginning.
pub strip-quoted :
    (s r : Text) → plain s ≡ true → strip_quotes (34 ∷ (s ++ 34 ∷ r)) ≡ s ++ strip_quotes r
unfolding strip_quotes strip_from strip_step
strip-quoted s r h = from-inside s r h
