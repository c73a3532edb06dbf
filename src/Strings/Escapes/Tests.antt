-- ===== src/Strings/Escapes/Tests.antt =====
-- Runs of the escapes on concrete inputs.
use scrollfx.Prelude.{◌≡◌, refl, suc, [], ◌∷◌, ◌++◌, some, true, length}
use scrollfx.Strings.{text}
use scrollfx.Strings.Escapes.{
  outside, scan, round, escape, letter, hex, is_digit, shift_from, finish, unescape_string,
}
use scrollfx.Strings.Escapes.Plain.{unescaped, scan-overruns}

is_plain : unescaped (text "abc") ≡ true
unfolding unescaped
is_plain = refl

scan-overruns_example :
    scan (suc (length (text "abc" ++ 92 ∷ 0 ∷ []))) (text "abc" ++ 92 ∷ 0 ∷ []) 0 ≡ outside
scan-overruns_example = scan-overruns (text "abc") is_plain

-- The bytes behind the new end are what the shift leaves there.
with_newline : unescape_string (text "a\\nb") ≡ some (97 ∷ 10 ∷ 98 ∷ 0 ∷ 0 ∷ [], 3)
unfolding unescape_string scan round escape letter finish shift_from
with_newline = refl

-- The digits of `\x41` are read as the character 65.
with_hex : unescape_string (text "\\x41") ≡ some (65 ∷ 0 ∷ 0 ∷ 0 ∷ 0 ∷ [], 1)
unfolding unescape_string scan round escape letter hex is_digit finish shift_from
with_hex = refl
