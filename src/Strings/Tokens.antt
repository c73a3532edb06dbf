-- ===== src/Strings/Tokens.antt =====
-- Cutting a string at a delimiter, and joining arguments and cutting them again.
use mathlib.Core.Bool.{true≢false}
use scrollfx.Prelude.{
  ℕ, ◌≡◌, refl, sym, ap, ◌∙◌, List, [], ◌∷◌, ◌++◌, some, Bool, true, false, not, ◌&&◌, ◌||◌, ◌==◌,
  ==_refl, ◌>>=◌, append-nil, arith,
}
use scrollfx.Strings.{Text, cut, with_token, split_string, join_from, chop, join_args}

-- Whether the delimiter `d` does not occur.
unfoldable pub lacks : ℕ → Text → Bool
lacks d [] = true
lacks d (c ∷ s) = not (c == d) && lacks d s

-- A text that is one token between delimiters.
unfoldable pub is_token : ℕ → Text → Bool
is_token d [] = false
is_token d (c ∷ s) = lacks d (c ∷ s)

module _ (d c : ℕ) (t : Text) (h : lacks d (c ∷ t) ≡ true) where
  lacks-head : ((c == d) || false) ≡ false
  unfolding lacks
  lacks-head = ground arith

  lacks-tail : lacks d t ≡ true
  unfolding lacks
  lacks-tail = ground arith

module _ (d : ℕ) where
  cut_last : (t : Text) → lacks d t ≡ true → cut (d ∷ []) t ≡ (t, [])
  cut_last [] h = refl
  cut_last (c ∷ t) h = rw (lacks-head d c t h, cut_last t (lacks-tail d c t h))

  cut-append :
      (t s : Text) → lacks d t ≡ true → cut (d ∷ []) (t ++ d ∷ s) ≡ (t, split_string s (d ∷ []))
  unfolding split_string
  cut-append [] s h = rw (==_refl d) refl
  cut-append (c ∷ t) s h = rw (lacks-head d c t h, cut-append t s (lacks-tail d c t h))

  pub split_first :
      (t s : Text)
      → is_token d t ≡ true
      → split_string (t ++ d ∷ s) (d ∷ []) ≡ t ∷ split_string s (d ∷ [])
  unfolding is_token split_string
  split_first [] s h = absurd (true≢false (sym h))
  split_first (c ∷ t) s h = ap (λ x. with_token x.0 x.1) (cut-append (c ∷ t) s h)

  pub split_last : (t : Text) → is_token d t ≡ true → split_string t (d ∷ []) ≡ t ∷ []
  unfolding is_token split_string
  split_last [] h = absurd (true≢false (sym h))
  split_last (c ∷ t) h = ap (λ x. with_token x.0 x.1) (cut_last (c ∷ t) h)

chop-append : (t : Text) (c : ℕ) (s : Text) → chop (t ++ c ∷ s) ≡ t ++ chop (c ∷ s)
unfolding chop
chop-append [] c s = refl
chop-append (x ∷ []) c s = refl
chop-append (x ∷ y ∷ t) c s = ap (λ r. x ∷ r) (chop-append (y ∷ t) c s)

chop-cons : (c : ℕ) (t : Text) (d : ℕ) (s : Text) → chop (c ∷ (t ++ d ∷ s)) ≡ c ∷ chop (t ++ d ∷ s)
unfolding chop
chop-cons c [] d s = refl
chop-cons c (x ∷ t) d s = refl

-- Arguments that are tokens: not empty, without a blank.
unfoldable pub AreTokens : List Text → Type 0
AreTokens [] = Unit
AreTokens (arg ∷ argv) = (is_token 32 arg ≡ true) × AreTokens argv

split-chop :
    (arg : Text) (argv : List Text)
    → AreTokens (arg ∷ argv)
    → split_string (chop (join_from (arg ∷ argv))) (32 ∷ []) ≡ arg ∷ argv
unfolding AreTokens join_from chop
split-chop arg [] (h, _) =
    ap (λ s. split_string s (32 ∷ [])) (chop-append arg 32 [] ∙ append-nil arg)
    ∙ split_last 32 arg h
split-chop arg (next ∷ argv) (h, hs) =
    ap (λ s. split_string s (32 ∷ []))
      (chop-append arg 32 (next ++ 32 ∷ join_from argv)
        ∙ ap (λ s. arg ++ s) (chop-cons 32 next 32 (join_from argv)))
    ∙ split_first 32 arg (chop (join_from (next ∷ argv))) h
    ∙ ap (λ ts. arg ∷ ts) (split-chop next argv hs)

-- Joining one argument or more that are not empty and hold no blank, and cutting the result at the
-- blanks, gives the arguments back.
pub split-join :
    (arg : Text) (argv : List Text)
    → AreTokens (arg ∷ argv)
    → (join_args (arg ∷ argv) >>= λ s. some (split_string s (32 ∷ []))) ≡ some (arg ∷ argv)
unfolding join_args
split-join arg argv h = ap some (split-chop arg argv h)
