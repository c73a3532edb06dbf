-- ===== src/Strings/Tests.antt =====
-- Runs of the strings on concrete inputs.
use scrollfx.Prelude.{◌≡◌, refl, [], ◌∷◌, ◌++◌, some, true, ◌>>=◌}
use scrollfx.Strings.{text, split_string, join_args, strip_quotes, strip_from, strip_step}
use scrollfx.Strings.Tokens.{split-join, AreTokens, is_token, lacks}
use scrollfx.Strings.Quotes.{strip-quoted, plain}

tokens : AreTokens (text "move" ∷ text "left" ∷ text "10" ∷ [])
unfolding AreTokens is_token lacks
tokens = (refl, (refl, (refl, tt)))

split-join_example :
    (join_args (text "move" ∷ text "left" ∷ text "10" ∷ []) >>= λ s.
    some (split_string s (32 ∷ [])))
    ≡ some (text "move" ∷ text "left" ∷ text "10" ∷ [])
split-join_example = split-join (text "move") (text "left" ∷ text "10" ∷ []) tokens

its_plain : plain (text "it's") ≡ true
unfolding plain
its_plain = refl

strip-quoted_example :
    strip_quotes (34 ∷ (text "it's" ++ 34 ∷ text " 'b'"))
    ≡ text "it's" ++ strip_quotes (text " 'b'")
strip-quoted_example = strip-quoted (text "it's") (text " 'b'") its_plain

stripped : strip_quotes (text "a 'b \"c\"' \\\"d") ≡ text "a b \"c\" \\\"d"
unfolding strip_quotes strip_from strip_step
stripped = refl
