-- ===== src/Gesture/Binding/Weight.antt =====
-- The order of the choice as a number, and what the tests of sway/input/seatop_default.c say of it.
use mathlib.Core.Bool.{true≢false}
use scrollfx.Prelude.{
  ℕ, zero, suc, ◌+◌, ◌*◌, ◌/◌, sub_ℕ, ◌≤◌, ◌<◌, ◌≡◌, refl, sym, ap, ap₂, ◌∙◌, subst, [], ◌∷◌, Bool,
  true, false, not, ◌&&◌, ◌||◌, ◌==◌, pos, ltb_ℤ, eq_ℤ, ◌⊎◌, inl, inr, arith, Bool-cases, ==_refl,
  ◌≢◌, ==_iff, if◌then◌else◌,
}
use scrollfx.Bits.{count_bits}
use scrollfx.Bits.Laws.{count_le}
use scrollfx.Gesture.{Gesture, gesture_match, gesture_compare}
use scrollfx.Gesture.Matching.{match_sub, match_same}
use scrollfx.Gesture.RoundTrip.{and_left, and_right}
use scrollfx.Strings.{Text, text, eq_text}
use scrollfx.Gesture.Binding.{Binding, input_matches, keeps, accepts, finished}

eq_of_text : (s t : Text) → eq_text s t ≡ true → s ≡ t
eq_of_text [] [] h = refl
eq_of_text [] (_ ∷ _) h = absurd (true≢false (sym h))
eq_of_text (_ ∷ _) [] h = absurd (true≢false (sym h))
eq_of_text (c ∷ s) (d ∷ t) h =
    ap₂ (λ x xs. x ∷ xs) ((==_iff c d).0 (and_left (c == d) (eq_text s t) h))
      (eq_of_text s t (and_right (c == d) (eq_text s t) h))

eq_text_refl : (s : Text) → eq_text s s ≡ true
eq_text_refl [] = refl
eq_text_refl (c ∷ s) = rw (==_refl c, eq_text_refl s)

differs : (s t : Text) → eq_text s t ≡ false → s ≢ t
differs s t h e = absurd (true≢false (sym (subst (λ u. eq_text s u ≡ true) e (eq_text_refl s)) ∙ h))

branch_true : (t a b r : Bool) → t ≡ true → (if t then a else b) ≡ r → a ≡ r
branch_true t a b r e h = ground arith

branch_false : (t a b r : Bool) → t ≡ false → (if t then a else b) ≡ r → b ≡ r
branch_false t a b r e h = ground arith

or_cases : (a b : Bool) → a || b ≡ true → (a ≡ true) ⊎ (b ≡ true)
or_cases true b h = inl refl
or_cases false b h = inr h

-- 128 is more than anything that 32 directions and the flag give.
abbrev weigh : Bool → ℕ → ℕ
weigh special n = (if special then 128 else 0) + n

weigh_mono : (s : Bool) (x y : ℕ) → x ≤ y → weigh s x ≤ weigh s y
weigh_mono s x y h = ground arith

weigh_top : (s t : Bool) (n m : ℕ) → t ≡ true → n ≤ m → weigh s n ≤ weigh t m
weigh_top s t n m own le = ground arith

le_cases : (x y : ℕ) → x ≤ y → (x < y) ⊎ (x ≡ y)
le_cases x y h = omega arith

-- Twice the number of directions, and one more for a binding that nothing beats with as many.
abbrev ranked : ℕ → Bool → ℕ
ranked n top = 2 * n + (if top then 1 else 0)

ranked_less : (x y : ℕ) (s t : Bool) → x < y → ranked x s ≤ ranked y t
ranked_less x y s t h = ground arith

ranked_same : (x y : ℕ) (s t : Bool) → x ≤ y → t ≡ true → ranked x s ≤ ranked y t
ranked_same x y s t h top = ground arith

kept_le :
    (be ce fb fc : Bool) (x y g : ℕ)
    → y ≤ g
    → (ce ≡ true → x ≡ g)
    → (not be && ce) || ltb_ℤ (pos 0) (sub_ℕ x y) ≡ true
    → ranked y (be || fb) ≤ ranked x (ce || fc)
kept_le be true fb fc x y g le exact h =
    ranked_same y x (be || fb) true (omega (arith, le, exact refl)) refl
kept_le be false fb fc x y g le exact h = ranked_less y x (be || fb) fc (less x y be h)
  where
    less : (x y : ℕ) (be : Bool) → (not be && false) || ltb_ℤ (pos 0) (sub_ℕ x y) ≡ true → y < x
    less x y be h = ground arith

taken_at_most :
    (be ce : Bool) (x y : ℕ) → (not be && ce) || ltb_ℤ (pos 0) (sub_ℕ x y) ≡ false → x ≤ y
taken_at_most be ce x y h = ground arith

taken_le :
    (be ce fb fc : Bool) (x y : ℕ)
    → (x ≡ y → fc ≡ true → fb ≡ true)
    → (not be && ce) || ltb_ℤ (pos 0) (sub_ℕ x y) ≡ false
    → ranked x (ce || fc) ≤ ranked y (be || fb)
taken_le be ce fb fc x y same h = elim (le_cases x y (taken_at_most be ce x y h)) [
  | inl less ↦ ranked_less x y (ce || fc) (be || fb) less
  | inr e ↦ as_many be ce fb fc (same e) (exact_too be ce x y h) e
]
  where
    exact_too :
        (be ce : Bool) (x y : ℕ)
        → (not be && ce) || ltb_ℤ (pos 0) (sub_ℕ x y) ≡ false
        → ce ≡ true
        → be ≡ true
    exact_too be ce x y h e = ground arith

    as_many :
        (be ce fb fc : Bool)
        → (fc ≡ true → fb ≡ true)
        → (ce ≡ true → be ≡ true)
        → x ≡ y
        → ranked x (ce || fc) ≤ ranked y (be || fb)
    as_many be false fb false f g e = ground arith
    as_many be true fb fc f g e = rw (g refl) (omega (arith, e))
    as_many true false fb true f g e = omega (arith, e)
    as_many false false fb true f g e = rw (f refl) (omega (arith, e))

same_count : (x y : ℕ) → eq_ℤ (sub_ℕ x y) (pos 0) ≡ true → x ≡ y
same_count x y h = ground arith

count_32 : (n a : ℕ) → count_bits n a ≤ n
unfolding count_bits
count_32 zero a = omega arith
count_32 (suc n) a = omega (arith, count_32 n (a / 2))

module _ (gesture : Gesture) (input : Text) where
  -- The order of the choice: a binding for the device beats one for every device, then one with more
  -- directions beats one with fewer, and then an exact one beats one that is not exact. But one for
  -- the device that has just the gesture's directions ends the search, and counts like an exact one.
  unfoldable pub weight : Binding → ℕ
  weight b =
      weigh (eq_text b.input input)
        (ranked (count_bits 32 b.gesture.directions) (b.exact || finished gesture input b))

  module _ (b : Binding) (ok : accepts gesture input b ≡ true) where
    count_accepted : count_bits 32 b.gesture.directions ≤ count_bits 32 gesture.directions
    unfolding accepts
    count_accepted =
        count_le 32 b.gesture.directions gesture.directions
          (match_sub b.gesture gesture b.exact (and_left _ (input_matches b.input input) ok))

    input_accepted : (eq_text b.input (text "*") ≡ true) ⊎ (eq_text b.input input ≡ true)
    unfolding accepts input_matches
    input_accepted = or_cases _ _ (and_right (gesture_match b.gesture gesture b.exact) _ ok)

    count_exact :
        b.exact ≡ true → count_bits 32 b.gesture.directions ≡ count_bits 32 gesture.directions
    unfolding accepts
    count_exact exact = ap (count_bits 32) (
        match_same b.gesture gesture (
          subst (λ e. gesture_match b.gesture gesture e ≡ true) exact
            (and_left _ (input_matches b.input input) ok)))

  -- A binding for the device beats one for another input.
  weight_beats :
      (p q : Binding) → q.input ≢ p.input → eq_text p.input input ≡ true → weight q ≤ weight p
  unfolding weight
  weight_beats p q differ own = elim (Bool-cases (eq_text q.input input)) [
    | inl too ↦ absurd (differ (eq_of_text q.input input too ∙ sym (eq_of_text p.input input own)))
    | inr other ↦
        rw (other, own)
          (below _ (count_32 32 q.gesture.directions) (q.exact || finished gesture input q))
  ]
    where
      below : {n : ℕ} (k : ℕ) → n ≤ 32 → (top : Bool) → weigh false (ranked n top) ≤ weigh true k
      below k h top = ground arith

  module _ (b c : Binding) (ok_b : accepts gesture input b ≡ true)
      (ok_c : accepts gesture input c ≡ true) where
    weight_same :
        eq_text c.input b.input ≡ true
        → weight c
          ≡ weigh
              (eq_text b.input input)
              (ranked (count_bits 32 c.gesture.directions) (c.exact || finished gesture input c))
    unfolding weight
    weight_same same =
        ap
          (λ i.
            weigh (eq_text i input)
              (ranked (count_bits 32 c.gesture.directions) (c.exact || finished gesture input c)))
          (eq_of_text c.input b.input same)

    -- Of two bindings for one input with as many directions, both end the search or none.
    finish_too :
        eq_text c.input b.input ≡ true
        → count_bits 32 c.gesture.directions ≡ count_bits 32 b.gesture.directions
        → finished gesture input c ≡ true
        → finished gesture input b ≡ true
    unfolding finished gesture_compare
    finish_too same e h =
        ap₂ (λ i k. eq_text i input && eq_ℤ (sub_ℕ k (count_bits 32 gesture.directions)) (pos 0))
          (sym (eq_of_text c.input b.input same)) (sym e)
        ∙ h

    pub weight_kept : keeps c b ≡ true → weight b ≤ weight c
    unfolding keeps weight gesture_compare
    weight_kept h = elim (Bool-cases (eq_text c.input b.input)) [
      | inl same ↦
          subst (λ w. weight b ≤ w) (sym (weight_same same))
            (weigh_mono (eq_text b.input input) _ _ (
              kept_le b.exact c.exact (finished gesture input b) (finished gesture input c) _ _
                (count_bits 32 gesture.directions) (count_accepted b ok_b) (count_exact c ok_c)
                (branch_true _ _ _ _ same h)))
      | inr differ ↦
          let star = branch_false _ _ _ _ differ h in
          elim (input_accepted c ok_c) [
            | inl any ↦ absurd (
                differs c.input b.input differ
                  (eq_of_text c.input _ any ∙ sym (eq_of_text b.input _ star)))
            | inr own ↦ weight_beats c b (λ e. differs c.input b.input differ (sym e)) own
          ]
    ]

    pub weight_taken : keeps c b ≡ false → weight c ≤ weight b
    unfolding keeps weight gesture_compare
    weight_taken h = elim (Bool-cases (eq_text c.input b.input)) [
      | inl same ↦
          subst (λ w. w ≤ weight b) (sym (weight_same same))
            (weigh_mono (eq_text b.input input) _ _ (
              taken_le b.exact c.exact (finished gesture input b) (finished gesture input c) _ _
                (finish_too same) (branch_true _ _ _ _ same h)))
      | inr differ ↦ elim (input_accepted b ok_b) [
        | inl star ↦ absurd (true≢false (sym star ∙ branch_false _ _ _ _ differ h))
        | inr own ↦ weight_beats b c (differs c.input b.input differ) own
      ]
    ]

    finished_parts :
        finished gesture input b ≡ true
        → (eq_text b.input input ≡ true)
          × (count_bits 32 b.gesture.directions ≡ count_bits 32 gesture.directions)
    unfolding finished gesture_compare
    finished_parts h = (
      and_left (eq_text b.input input) _ h,
      same_count _ _ (and_right (eq_text b.input input) _ h),
    )

    pub weight-finished : finished gesture input b ≡ true → weight c ≤ weight b
    unfolding weight
    weight-finished h =
        let (own, top) = finished_parts h in
        weigh_top (eq_text c.input input) _ _ _ own (
          ranked_same _ _ (c.exact || finished gesture input c)
            (b.exact || finished gesture input b)
            (subst (λ k. count_bits 32 c.gesture.directions ≤ k) (sym top) (count_accepted c ok_c))
            (or_right b.exact h))
      where
        or_right : (x : Bool) {y : Bool} → y ≡ true → x || y ≡ true
        or_right x h = ground arith
