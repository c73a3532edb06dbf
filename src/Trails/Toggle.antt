-- ===== src/Trails/Toggle.antt =====
-- Toggling a mark of the active trail keeps the trails of sway/tree/layout.c valid.
use scrollfx.Prelude.{
  ◌-◌, ◌≡◌, refl, ap, List, [], ◌∷◌, ◌++◌, none, some, false, ◌==◌, length, length-append, arith,
  Bool-cases, inl, inr, append-nil, ◌⊎◌, subst,
}
use scrollfx.Seq.{Ptr, find}
use scrollfx.Seq.Laws.{
  Distinct, Absent, find_cases, delete-append, Distinct-delete, Distinct-insert,
}
use scrollfx.Trails.{
  Trail, Trails, State, Event, trails_changed, trailmark, step_back, layout_trail_new, toggle_mark,
  toggle_in, layout_trailmark_toggle, put_active,
}
use scrollfx.Trails.Bounds.{
  IsValid, TrailsIsValid, TrailIsValid, Safe, active_trail-exists, put_active-IsValid, new-IsValid,
  new-full, back_bound,
}

Distinct-snoc : (xs : List Ptr) (x : Ptr) → Distinct xs → Absent x xs → Distinct (xs ++ x ∷ [])
Distinct-snoc xs x d h = Distinct-insert xs [] x (rw append-nil d) (rw append-nil h)

-- A toggle adds the view at the end and makes it active, or takes it out and steps back.
pub toggle_mark-cases :
    (t : Trail) (view : Ptr)
    → ((toggled : Trail) × (toggle_mark t view (find t.marks view) ≡ some toggled)
        × (toggled.marks ≡ t.marks ++ view ∷ [])
        × (toggled.active ≡ length t.marks)
        × Absent view t.marks)
      ⊎ ((toggled : Trail) × (a b : List Ptr) × (toggle_mark t view (find t.marks view)
            ≡ some toggled)
          × (t.marks ≡ a ++ view ∷ b)
          × (toggled.marks ≡ a ++ b)
          × (toggled.active ≡ step_back (length (a ++ b)) t.active)
          × Absent view a)
unfolding toggle_mark
toggle_mark-cases t view = elim (find_cases t.marks view) [
  | inl (lost, absent) ↦ inl (
    record { marks = t.marks ++ view ∷ []; active = length (t.marks ++ view ∷ []) - 1 },
    rw lost,
    refl,
    omega (arith, length-append t.marks (view ∷ [])),
    absent,
  )
  | inr (a, b, e, found, absent) ↦ inr (
    record { marks = a ++ b; active = step_back (length (a ++ b)) t.active },
    a,
    b,
    rw (found, delete-append t.marks a b view (length a) e refl),
    e,
    refl,
    refl,
    absent,
  )
]

toggle_mark-IsValid :
    (t : Trail) (view : Ptr)
    → TrailIsValid t
    → (toggled : Trail) × (toggle_mark t view (find t.marks view) ≡ some toggled)
      × TrailIsValid toggled
toggle_mark-IsValid t view v = elim (toggle_mark-cases t view) [
  | inl (toggled, e, m, n, absent) ↦ (
    toggled,
    e,
    record {
      inside = omega (arith, n, ap length m, length-append t.marks (view ∷ []));
      distinct = rw m (Distinct-snoc t.marks view v.distinct absent);
    },
  )
  | inr (toggled, a, b, e, m, m', n, absent) ↦ (
    toggled,
    e,
    record {
      inside =
          rw (n, m')
            (back_bound (length (a ++ b)) t.active (
              omega (arith, v.inside, ap length m, length-append a (view ∷ b), length-append a b)));
      distinct = rw m' (Distinct-delete a b view (subst Distinct m v.distinct)).0;
    },
  )
]

toggle_in-Safe :
    (view : Ptr) (t : Trails) (told : List Event)
    → TrailsIsValid t
    → (length t.trails == 0) ≡ false
    → Safe (toggle_in view t told)
unfolding toggle_in
toggle_in-Safe view t told v full =
    let (trail, e, h) = active_trail-exists t v full in
    let (toggled, e', h') = toggle_mark-IsValid trail view h in
    (
      some (put_active t toggled),
      told ++ trails_changed ∷ trailmark view ∷ [],
      rw (e, e'),
      put_active-IsValid t toggled v h',
    )

pub toggle-Safe : (view : Ptr) (s : State) → IsValid s → Safe (layout_trailmark_toggle view s)
unfolding layout_trailmark_toggle
toggle-Safe view none v =
    toggle_in-Safe view (layout_trail_new none).0 (layout_trail_new none).1 (new-IsValid none v)
      (new-full none)
toggle-Safe view (some t) v = elim (Bool-cases (length t.trails == 0)) [
  | inl empty ↦ rw empty (
      toggle_in-Safe view (layout_trail_new (some t)).0 (layout_trail_new (some t)).1
        (new-IsValid (some t) v) (new-full (some t)))
  | inr full ↦ rw full (toggle_in-Safe view t [] v full)
]
