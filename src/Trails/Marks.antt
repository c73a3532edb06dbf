-- ===== src/Trails/Marks.antt =====
-- What `layout_trailmark_toggle` of sway/tree/layout.c does to the marks of the active trail.
use scrollfx.Prelude.{
  ℕ, suc, ◌≡◌, ◌≢◌, refl, sym, ap, ◌∙◌, List, [], ◌∷◌, ◌++◌, Option, none, some, Bool, true, false,
  not, ◌==◌, if◌then◌else◌, length, arith, Bool-cases, inl, inr, is_neg, ne→==, ==_refl, subst,
  append-nil, length-set, ==_iff,
}
use native.Mathlib.Decide.{ℕ_discrete}
use scrollfx.Seq.{Ptr, find, index_from}
use scrollfx.Seq.Laws.{Distinct, find-Absent, find-append, Distinct-delete}
use scrollfx.Trails.{
  Trail, Trails, State, Event, toggle_mark, toggle_in, layout_trailmark_toggle, layout_trail_new,
  layout_trails_trailmarked, active_trail, put_active, trailmark, trails_changed, trail_create,
  trails_of,
}
use scrollfx.Trails.Toggle.{toggle_mark-cases}
use scrollfx.Trails.Bounds.{
  IsValid, TrailsIsValid, active_trail-exists, put_active_lem, new-IsValid, new-full,
}

abbrev marked : List Ptr → Ptr → Bool
marked xs v = if is_neg (find xs v) then false else true

-- Whether the search finds something does not depend on where its indices start.
is_neg-index_from :
    (i j : ℕ) (xs : List Ptr) (v : Ptr)
    → is_neg (index_from i (λ y. y == v) xs) ≡ is_neg (index_from j (λ y. y == v) xs)
is_neg-index_from i j [] v = refl
is_neg-index_from i j (x ∷ xs) v = elim (Bool-cases (x == v)) [
  | inl e ↦ rw e
  | inr e ↦ rw e (is_neg-index_from (suc i) (suc j) xs v)
]

-- Another item in a list makes no difference to the search for `w`.
is_neg-find_skip :
    (i : ℕ) (a b : List Ptr) (v w : Ptr)
    → w ≢ v
    → is_neg (index_from i (λ y. y == w) (a ++ v ∷ b))
      ≡ is_neg (index_from i (λ y. y == w) (a ++ b))
is_neg-find_skip i [] b v w h = rw (ne→== v w (λ e. h (sym e))) (is_neg-index_from (suc i) i b w)
is_neg-find_skip i (x ∷ a) b v w h = elim (Bool-cases (x == w)) [
  | inl e ↦ rw e
  | inr e ↦ rw e (is_neg-find_skip (suc i) a b v w h)
]

-- The marks of one view change, and those of no other.
record Flips (v : Ptr) (before after : List Ptr) : Type 0 where
  flipped : marked after v ≡ not (marked before v)
  others : (w : Ptr) → w ≢ v → marked after w ≡ marked before w

toggle_mark-Flips :
    (t : Trail) (v : Ptr)
    → Distinct t.marks
    → (toggled : Trail) × (toggle_mark t v (find t.marks v) ≡ some toggled)
      × Flips v t.marks toggled.marks
toggle_mark-Flips t v d = elim (toggle_mark-cases t v) [
  | inl (toggled, e, m, n, absent) ↦ (
    toggled,
    e,
    record {
      flipped = rw (m, find-append t.marks [] v absent, find-Absent t.marks v absent);
      others = λ w h. rw m (
          ap test (is_neg-find_skip 0 t.marks [] v w h)
          ∙ ap (λ k. marked k w) (append-nil t.marks));
    },
  )
  | inr (toggled, a, b, e, m, m', n, absent) ↦ (
    toggled,
    e,
    record {
      flipped = rw (
        m',
        m,
        find-append a b v absent,
        find-Absent (a ++ b) v (Distinct-delete a b v (subst Distinct m d)).1,
      );
      others = λ w h. rw (m', m) (ap test (sym (is_neg-find_skip 0 a b v w h)));
    },
  )
]
  where
    test : Bool → Bool
    test b = if b then false else true

trailmarked_lem :
    (t : Trails) (trail : Trail) (v : Ptr)
    → (length t.trails == 0) ≡ false
    → v ≢ 0
    → active_trail t ≡ some trail
    → layout_trails_trailmarked v (some t) ≡ some (marked trail.marks v)
unfolding layout_trails_trailmarked
trailmarked_lem t trail v full h e = rw (full, ne→== v 0 h, e)

put_active-full :
    (t : Trails) (trail : Trail)
    → (length t.trails == 0) ≡ false
    → (length (put_active t trail).trails == 0) ≡ false
unfolding put_active
put_active-full t trail full = rw (length-set t.trails t.active trail) full

-- What a toggle of `view` makes of whether `w` is marked.
abbrev pub flip_at : Ptr → Ptr → Option Bool → Option Bool
flip_at view w none = none
flip_at view w (some b) = some (if w == view then not b else b)

unmarked_null : (s : State) → layout_trails_trailmarked 0 s ≡ some false
unfolding layout_trails_trailmarked
unmarked_null none = refl
unmarked_null (some t) = ground arith

none_empty : trails_of none ≡ []
unfolding trails_of
none_empty = refl

no_items : (ts : List Trail) → (length ts == 0) ≡ true → ts ≡ []
no_items [] e = refl
no_items (x ∷ ts) e = absurd (omega (arith, (==_iff (length (x ∷ ts)) 0).0 e))

some_empty : (t : Trails) → (length t.trails == 0) ≡ true → trails_of (some t) ≡ []
unfolding trails_of
some_empty t e = no_items t.trails e

module _ (view w : Ptr) (h : view ≢ 0) where
  Toggled : State → State → Type 0
  Toggled s s' = layout_trails_trailmarked w s' ≡ flip_at view w (layout_trails_trailmarked w s)

  -- The null pointer, the view itself, and any other view.
  Toggled-of_Flips :
      (t t' : Trails) (trail trail' : Trail)
      → (length t.trails == 0) ≡ false
      → (length t'.trails == 0) ≡ false
      → active_trail t ≡ some trail
      → active_trail t' ≡ some trail'
      → Flips view trail.marks trail'.marks
      → Toggled (some t) (some t')
  unfolding Toggled
  Toggled-of_Flips t t' trail trail' full full' e e' flips = elim (ℕ_discrete w 0) [
    | yes null ↦
        rw (null, unmarked_null (some t), unmarked_null (some t'), ne→== 0 view (λ k. h (sym k)))
    | no real ↦ elim (ℕ_discrete w view) [
      | yes same ↦
          rw
            (
              same,
              trailmarked_lem t trail view full h e,
              trailmarked_lem t' trail' view full' h e',
              ==_refl view,
            )
            (ap some flips.flipped)
      | no other ↦
          rw
            (
              trailmarked_lem t trail w full real e,
              trailmarked_lem t' trail' w full' real e',
              ne→== w view other,
            )
            (ap some (flips.others w other))
    ]
  ]

  toggle_in-Toggled :
      (t : Trails) (told : List Event)
      → TrailsIsValid t
      → (length t.trails == 0) ≡ false
      → (s' : State) × (told' : List Event) × (toggle_in view t told ≡ some (s', told'))
        × Toggled (some t) s'
  unfolding toggle_in
  toggle_in-Toggled t told v full =
      let (trail, e, tv) = active_trail-exists t v full in
      let (toggled, e', flips) = toggle_mark-Flips trail view tv.distinct in
      (
        some (put_active t toggled),
        told ++ trails_changed ∷ trailmark view ∷ [],
        rw (e, e'),
        Toggled-of_Flips t (put_active t toggled) trail toggled full
            (put_active-full t toggled full) e (put_active_lem t trail toggled e) flips,
      )

  -- A trail that has just been made marks nothing, just as no trail does.
  new-unmarked :
      (s : State)
      → trails_of s ≡ []
      → layout_trails_trailmarked w (some (layout_trail_new s).0) ≡ layout_trails_trailmarked w s
  unfolding layout_trails_trailmarked layout_trail_new active_trail trails_of trail_create
  new-unmarked none e = ground arith
  new-unmarked (some t) e = rw e (ground arith)

  toggle_new-Toggled :
      (s : State)
      → trails_of s ≡ []
      → IsValid s
      → (s' : State) × (told' : List Event) × (toggle_in view
            (layout_trail_new s).0
            (layout_trail_new s).1
          ≡ some (s', told'))
        × Toggled s s'
  unfolding Toggled
  toggle_new-Toggled s e v =
      let (s', told', done, t) =
        toggle_in-Toggled (layout_trail_new s).0 (layout_trail_new s).1 (new-IsValid s v)
          (new-full s) in
      (s', told', done, t ∙ ap (flip_at view w) (new-unmarked s e))

  -- `layout_trailmark_toggle` returns, and flips whether its view is marked in the active trail, making
  -- a first trail if there is none; it flips no other view.
  pub trailmarked-toggle :
      (s : State)
      → IsValid s
      → (s' : State) × (told : List Event) × (layout_trailmark_toggle view s ≡ some (s', told))
        × (layout_trails_trailmarked w s' ≡ flip_at view w (layout_trails_trailmarked w s))
  unfolding layout_trailmark_toggle Toggled
  trailmarked-toggle none v = toggle_new-Toggled none none_empty v
  trailmarked-toggle (some t) v = elim (Bool-cases (length t.trails == 0)) [
    | inl empty ↦ rw empty (toggle_new-Toggled (some t) (some_empty t empty) v)
    | inr full ↦ rw full (toggle_in-Toggled t [] v full)
  ]
