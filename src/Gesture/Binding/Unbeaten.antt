-- ===== src/Gesture/Binding/Unbeaten.antt =====
-- No binding that matches stands before the one that `gesture_binding_match` returns.
use scrollfx.Prelude.{
  ◌≤◌, ◌≡◌, refl, sym, ap, ◌∙◌, subst, List, [], ◌∷◌, Option, none, some, Bool, true, false, ◌⊎◌,
  inl, inr, arith, Bool-cases, if◌then◌else◌,
}
use scrollfx.Gesture.{Gesture}
use scrollfx.Strings.{Text}
use scrollfx.Gesture.Binding.Weight.{weight, weight_kept, weight_taken, weight-finished}
use scrollfx.Gesture.Binding.{
  Binding, keeps, refuses, accepts, finished, step, match_from, gesture_binding_match,
}

unfoldable pub Among : Binding → List Binding → Type 0
Among r [] = ⊥
Among r (b ∷ bindings) = (r ≡ b) ⊎ Among r bindings

module _ (gesture : Gesture) (input : Text) where
  unfoldable pub NoneMatch : List Binding → Type 0
  NoneMatch [] = Unit
  NoneMatch (b ∷ bindings) = (accepts gesture input b ≡ false) × NoneMatch bindings

  unfoldable pub AtMost : Binding → List Binding → Type 0
  AtMost r [] = Unit
  AtMost r (b ∷ bindings) =
      ((accepts gesture input b ≡ false) ⊎ (weight gesture input b ≤ weight gesture input r))
      × AtMost r bindings

  -- What a search over `bindings` may return.
  unfoldable pub IsUnbeaten : List Binding → Option Binding → Type 0
  IsUnbeaten bindings none = NoneMatch bindings
  IsUnbeaten bindings (some r) =
      Among r bindings × (accepts gesture input r ≡ true) × AtMost r bindings

  module _ (b c : Binding) (ok_b : accepts gesture input b ≡ true)
      (ok_c : accepts gesture input c ≡ true) where
    -- What one round does to a binding found before.
    step-some :
        ((step gesture input b (some c) ≡ (some c, false))
          × (weight gesture input b ≤ weight gesture input c))
        ⊎ ((step gesture input b (some c) ≡ (some b, finished gesture input b))
            × (weight gesture input c ≤ weight gesture input b))
    unfolding step refuses
    step-some = elim (Bool-cases (keeps c b)) [
      | inl kept ↦ inl (rw (ok_b, kept) refl, weight_kept gesture input b c ok_b ok_c kept)
      | inr taken ↦ inr (rw (ok_b, taken) refl, weight_taken gesture input b c ok_b ok_c taken)
    ]

  step-skip :
      (b : Binding) (current : Option Binding)
      → accepts gesture input b ≡ false
      → step gesture input b current ≡ (current, false)
  unfolding step
  step-skip b current miss = rw miss refl

  step-none :
      (b : Binding)
      → accepts gesture input b ≡ true
      → step gesture input b none ≡ (some b, finished gesture input b)
  unfolding step refuses
  step-none b ok = rw ok refl

  AtMost-finished :
      (b : Binding)
      → accepts gesture input b ≡ true
      → finished gesture input b ≡ true
      → (bindings : List Binding) → AtMost b bindings
  unfolding AtMost
  AtMost-finished b ok end [] = tt
  AtMost-finished b ok end (c ∷ bindings) = (
    elim (Bool-cases (accepts gesture input c)) [
      | inl ok_c ↦ inr (weight-finished gesture input b c ok ok_c end)
      | inr miss ↦ inl miss
    ],
    AtMost-finished b ok end bindings,
  )

  -- What the loop makes of a binding found before.
  IsBetter : Binding → List Binding → Binding → Type 0
  IsBetter c bindings r =
      ((r ≡ c) ⊎ Among r bindings)
      × (accepts gesture input r ≡ true)
      × (weight gesture input c ≤ weight gesture input r)
      × AtMost r bindings

  match_from-next :
      (b : Binding) (bindings : List Binding) (current next : Option Binding) (stop : Bool)
      → step gesture input b current ≡ (next, stop)
      → match_from gesture input (b ∷ bindings) current
        ≡ (if stop then next else match_from gesture input bindings next)
  unfolding match_from
  match_from-next b bindings current next stop e = rw e refl

  IsBetter-pass :
      (b c r : Binding) (bindings : List Binding)
      → (accepts gesture input b ≡ false) ⊎ (weight gesture input b ≤ weight gesture input c)
      → IsBetter c bindings r
      → IsBetter c (b ∷ bindings) r
  unfolding IsBetter Among AtMost
  IsBetter-pass b c r bindings less (from, ok, le, most) = (
    elim from [ inl e ↦ inl e | inr m ↦ inr (inr m) ],
    ok,
    le,
    (elim less [ inl miss ↦ inl miss | inr le' ↦ inr (omega (arith, le, le')) ], most),
  )

  IsBetter-take :
      (b c r : Binding) (bindings : List Binding)
      → weight gesture input c ≤ weight gesture input b
      → IsBetter b bindings r
      → IsBetter c (b ∷ bindings) r
  unfolding IsBetter Among AtMost
  IsBetter-take b c r bindings le' (from, ok, le, most) =
      (inr from, ok, omega (arith, le, le'), (inr le, most))

  IsBetter-stop :
      (b c : Binding) (bindings : List Binding)
      → accepts gesture input b ≡ true
      → finished gesture input b ≡ true
      → weight gesture input c ≤ weight gesture input b
      → IsBetter c (b ∷ bindings) b
  unfolding IsBetter Among AtMost
  IsBetter-stop b c bindings ok end le =
      (inr (inl refl), ok, le, (inr (omega arith), AtMost-finished b ok end bindings))

  IsBetter-self :
      (b : Binding) (bindings : List Binding)
      → accepts gesture input b ≡ true
      → finished gesture input b ≡ true
      → IsBetter b bindings b
  unfolding IsBetter
  IsBetter-self b bindings ok end = (inl refl, ok, omega arith, AtMost-finished b ok end bindings)

  match_from-IsBetter :
      (bindings : List Binding) (c : Binding)
      → accepts gesture input c ≡ true
      → (r : Binding) × (match_from gesture input bindings (some c) ≡ some r)
        × IsBetter c bindings r
  unfolding match_from IsBetter Among AtMost
  match_from-IsBetter [] c ok = (c, refl, (inl refl, ok, omega arith, tt))
  match_from-IsBetter (b ∷ bindings) c ok = elim (Bool-cases (accepts gesture input b)) [
    | inr miss ↦
        let (r, e, better) = match_from-IsBetter bindings c ok in
        (
          r,
          match_from-next b bindings (some c) (some c) false (step-skip b (some c) miss) ∙ e,
          IsBetter-pass b c r bindings (inl miss) better,
        )
    | inl ok_b ↦ elim (step-some b c ok_b ok) [
      | inl (kept, le) ↦
          let (r, e, better) = match_from-IsBetter bindings c ok in
          (
            r,
            match_from-next b bindings (some c) (some c) false kept ∙ e,
            IsBetter-pass b c r bindings (inr le) better,
          )
      | inr (taken, le) ↦ elim (Bool-cases (finished gesture input b)) [
        | inl end ↦ (
          b,
          match_from-next b bindings (some c) (some b) true (taken ∙ ap (λ s. (some b, s)) end),
          IsBetter-stop b c bindings ok_b end le,
        )
        | inr on ↦
            let (r, e, better) = match_from-IsBetter bindings b ok_b in
            (
              r,
              match_from-next b bindings (some c) (some b) false (taken ∙ ap (λ s. (some b, s)) on)
                  ∙ e,
              IsBetter-take b c r bindings le better,
            )
      ]
    ]
  ]

  IsUnbeaten-skip :
      (b : Binding) (bindings : List Binding) (found : Option Binding)
      → accepts gesture input b ≡ false
      → IsUnbeaten bindings found
      → IsUnbeaten (b ∷ bindings) found
  unfolding IsUnbeaten NoneMatch Among AtMost
  IsUnbeaten-skip b bindings none miss h = (miss, h)
  IsUnbeaten-skip b bindings (some r) miss (among, ok, most) = (inr among, ok, (inl miss, most))

  IsUnbeaten-of_better :
      (b r : Binding) (bindings : List Binding)
      → IsBetter b bindings r
      → IsUnbeaten (b ∷ bindings) (some r)
  unfolding IsUnbeaten IsBetter Among AtMost
  IsUnbeaten-of_better b r bindings (from, ok, le, most) = (from, ok, (inr le, most))

  -- `gesture_binding_match` returns NULL exactly when no binding passes the tests of the gesture and
  -- the input. Otherwise it returns one of the bindings that pass, and none that passes comes before
  -- it in this order: one for the device before one for every device, then more directions before
  -- fewer, then `--exact` before others. One for the device that has just the directions of the
  -- gesture counts as exact, with the flag or without it.
  pub binding_match-IsUnbeaten :
      (bindings : List Binding) → IsUnbeaten bindings (gesture_binding_match gesture input bindings)
  unfolding gesture_binding_match IsUnbeaten match_from NoneMatch
  binding_match-IsUnbeaten [] = tt
  binding_match-IsUnbeaten (b ∷ bindings) = elim (Bool-cases (accepts gesture input b)) [
    | inr miss ↦
        subst (IsUnbeaten (b ∷ bindings))
          (sym (match_from-next b bindings none none false (step-skip b none miss)))
          (IsUnbeaten-skip b bindings (match_from gesture input bindings none) miss
            (binding_match-IsUnbeaten bindings))
    | inl ok ↦ elim (Bool-cases (finished gesture input b)) [
      | inl end ↦
          subst (IsUnbeaten (b ∷ bindings))
            (sym (
              match_from-next b bindings none (some b) true
                (step-none b ok ∙ ap (λ s. (some b, s)) end)))
            (IsUnbeaten-of_better b b bindings (IsBetter-self b bindings ok end))
      | inr on ↦
          let (r, e, better) = match_from-IsBetter bindings b ok in
          subst (IsUnbeaten (b ∷ bindings))
            (sym (
              match_from-next b bindings none (some b) false
                (step-none b ok ∙ ap (λ s. (some b, s)) on)
              ∙ e))
            (IsUnbeaten-of_better b r bindings better)
    ]
  ]
