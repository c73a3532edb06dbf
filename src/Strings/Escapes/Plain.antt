-- ===== src/Strings/Escapes/Plain.antt =====
-- `unescape_string` on strings without escapes, and with a backslash at the end.
use scrollfx.Prelude.{
  ℕ, zero, suc, ◌+◌, ◌-◌, ◌≡◌, refl, ap, ap₂, sym, ◌∙◌, [], ◌∷◌, ◌++◌, Option, none, some, Bool,
  true, false, not, ◌&&◌, ◌==◌, length, get_elem?, set, drop, arith, length-append,
}
use scrollfx.Strings.{Text}
use scrollfx.Strings.Escapes.{
  Scan, outside, ended, stop, go, letter, escape, round, scan, resume, shift_from, finish,
  unescape_string,
}

-- Without a backslash and a 0.
unfoldable pub unescaped : Text → Bool
unescaped [] = true
unescaped (c ∷ s) = not (c == 0) && not (c == 92) && unescaped s

unescaped-tail : (c : ℕ) (s : Text) → unescaped (c ∷ s) ≡ true → unescaped s ≡ true
unfolding unescaped
unescaped-tail c s h = ground arith

get-drop :
    (i : ℕ) (xs t : Text) (c : ℕ)
    → drop i xs ≡ c ∷ t
    → (get_elem? xs i ≡ some c) × (drop (suc i) xs ≡ t)
get-drop i [] t c h = absurd (nil-ne i h)
  where
    nil-ne : (i : ℕ) → drop i [] ≡ c ∷ t → ⊥
    nil-ne zero h = omega (arith, ap length h)
    nil-ne (suc i) h = omega (arith, ap length h)
get-drop zero (x ∷ xs) t c h = (ap (λ l. get_elem? l 0) h, ap (drop 1) h)
get-drop (suc i) (x ∷ xs) t c h = get-drop i xs t c h

get-drop_nil : (i : ℕ) (xs : Text) → drop i xs ≡ [] → get_elem? xs i ≡ none
get-drop_nil i [] h = refl
get-drop_nil zero (x ∷ xs) h = absurd (omega (arith, ap length h))
get-drop_nil (suc i) (x ∷ xs) h = get-drop_nil i xs h

round-plain :
    (c : ℕ) (s string : Text) (i : ℕ)
    → unescaped (c ∷ s) ≡ true
    → get_elem? string i ≡ some c
    → round string i ≡ go string (suc i)
unfolding round unescaped
round-plain c s string i h e = rw e (ground arith)

scan-next :
    (fuel : ℕ) (string next : Text) (i j : ℕ)
    → round string i ≡ go next j
    → scan (suc fuel) string i ≡ scan fuel next j
unfolding scan
scan-next fuel string next i j e = ap (resume (scan fuel)) e

scan-stop :
    (fuel : ℕ) (string : Text) (i : ℕ) (r : Scan)
    → round string i ≡ stop r
    → scan (suc fuel) string i ≡ r
unfolding scan
scan-stop fuel string i r e = ap (resume (scan fuel)) e

-- The rounds over a text, with `fuel` more.
rounds : Text → ℕ → ℕ
rounds [] fuel = fuel
rounds (c ∷ s) fuel = suc (rounds s fuel)

rounds_length : (s : Text) (fuel : ℕ) → rounds s fuel ≡ length s + fuel
unfolding rounds
rounds_length [] fuel = omega arith
rounds_length (c ∷ s) fuel = omega (arith, rounds_length s fuel)

scan-plain :
    (s r string : Text) (i fuel : ℕ)
    → unescaped s ≡ true
    → drop i string ≡ s ++ r
    → (j : ℕ) × (scan (rounds s fuel) string i ≡ scan fuel string j) × (drop j string ≡ r)
unfolding rounds
scan-plain [] r string i fuel h e = (i, refl, e)
scan-plain (c ∷ s) r string i fuel h e =
    let (here, behind) = get-drop i string (s ++ r) c e in
    let (j, runs, rest) = scan-plain s r string (suc i) fuel (unescaped-tail c s h) behind in
    (j, scan-next _ _ _ _ _ (round-plain c s string i h here) ∙ runs, rest)

round-backslash :
    (string : Text) (i : ℕ)
    → drop i string ≡ 92 ∷ 0 ∷ []
    → (round string i ≡ go string (suc (suc i))) × (get_elem? string (suc (suc i)) ≡ none)
unfolding round escape letter
round-backslash string i e =
    let (here, behind) = get-drop i string (0 ∷ []) 92 e in
    let (there, end) = get-drop (suc i) string [] 0 behind in
    (rw (here, there) refl, get-drop_nil (suc (suc i)) string end)

round-outside : (string : Text) (i : ℕ) → get_elem? string i ≡ none → round string i ≡ stop outside
unfolding round
round-outside string i e = rw e refl

-- On a string that ends with a backslash and has no other one, the first loop of
-- `unescape_string` steps over the final 0 and reads outside the string.
pub scan-overruns :
    (s : Text)
    → unescaped s ≡ true
    → scan (suc (length (s ++ 92 ∷ 0 ∷ []))) (s ++ 92 ∷ 0 ∷ []) 0 ≡ outside
scan-overruns s h =
    let string : Text = s ++ 92 ∷ 0 ∷ [] in
    let (j, runs, rest) = scan-plain s (92 ∷ 0 ∷ []) string 0 3 h refl in
    let (over, out) = round-backslash string j rest in
    ap (λ n. scan n string 0) (enough s)
    ∙ runs
    ∙ scan-next 2 string string j _ over
    ∙ scan-stop 1 string _ outside (round-outside string _ out)
  where
    enough : (s : Text) → suc (length (s ++ 92 ∷ 0 ∷ [])) ≡ rounds s 3
    enough s = omega (arith, rounds_length s 3, length-append s (92 ∷ 0 ∷ []))

set_same : (xs : Text) (i c : ℕ) → get_elem? xs i ≡ some c → set xs i c ≡ xs
set_same [] i c h = refl
set_same (x ∷ xs) zero c h = ap (λ y. y ∷ xs) (sym (ap (λ o. value o) h))
  where
    value : Option ℕ → ℕ
    value none = 0
    value (some y) = y
set_same (x ∷ xs) (suc i) c h = ap (λ l. x ∷ l) (set_same xs i c h)

set_here : (xs : Text) (i c : ℕ) → get_elem? xs i ≡ some c → set xs (i - 0) c ≡ xs
set_here xs i c h = ap (λ k. set xs k c) (omega arith) ∙ set_same xs i c h

head_nonzero : (c : ℕ) (s : Text) → unescaped (c ∷ s) ≡ true → (c == 0) ≡ false
unfolding unescaped
head_nonzero c s h = ground arith

shift-plain :
    (s string : Text) (i : ℕ)
    → unescaped s ≡ true
    → drop i string ≡ s ++ 0 ∷ []
    → shift_from (length s) string i 0 ≡ some (string, length s + i)
unfolding shift_from
shift-plain [] string i h e =
    let (here, _) = get-drop i string [] 0 e in
    ap some (ap₂ (λ a b. (a, b)) (set_here string i 0 here) (omega arith))
shift-plain (c ∷ s) string i h e =
    let (here, behind) = get-drop i string (s ++ 0 ∷ []) c e in
    rw (here, head_nonzero c s h, set_here string i c here)
      (shift-plain s string (suc i) (unescaped-tail c s h) behind
        ∙ ap (λ n. some (string, n)) (omega arith))

round-end : (string : Text) (i : ℕ) → drop i string ≡ 0 ∷ [] → round string i ≡ stop (ended string)
unfolding round
round-end string i e = let (here, _) = get-drop i string [] 0 e in rw here refl

-- `unescape_string` leaves a string without a backslash as it is and returns its length.
pub unescape-plain :
    (s : Text) → unescaped s ≡ true → unescape_string s ≡ some (s ++ 0 ∷ [], length s)
unfolding unescape_string finish
unescape-plain s h =
    let string : Text = s ++ 0 ∷ [] in
    let (j, runs, rest) = scan-plain s (0 ∷ []) string 0 2 h refl in
    let ends =
      ap (λ n. scan n string 0) (enough s)
      ∙ runs
      ∙ scan-stop 1 string j (ended string) (round-end string j rest) in
    ap (finish (length s)) ends
    ∙ shift-plain s string 0 h refl
    ∙ ap (λ n. some (string, n)) (omega arith)
  where
    enough : (s : Text) → suc (length (s ++ 0 ∷ [])) ≡ rounds s 2
    enough s = omega (arith, rounds_length s 2, length-append s (0 ∷ []))
