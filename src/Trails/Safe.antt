-- ===== src/Trails/Safe.antt =====
-- The operations on the trails of sway/tree/layout.c, one after the other.
use scrollfx.Prelude.{
  ℕ, ◌-◌, ◌≤◌, ◌≡◌, refl, List, [], ◌∷◌, ◌++◌, none, some, ℤ, ◌==◌, length, length-append,
  get_elem?, get_elem?-lt, arith, Bool-cases, inl, inr, cut, map, get_elem?-append, ◌>>=◌, subst,
}
use scrollfx.Seq.{Ptr}
use scrollfx.Seq.Laws.{delete-append}
use scrollfx.Trails.{
  Trail, Trails, State, Event, trails_changed, focus, selected, Result, trail_clear, step_back,
  cycle_next, cycle_prev, layout_trail_new, layout_trail_next, layout_trail_prev,
  layout_trail_number, layout_trail_delete, layout_trail_clear, layout_trail_to_selection,
  layout_trailmark_toggle, move_mark, layout_trailmark_next, layout_trailmark_prev, active_trail,
  put_active, trails_focus_view,
}
use scrollfx.Trails.Bounds.{
  IsValid, TrailIsValid, Safe, AllValid, AllValid-parts, active_trail-exists, put_active-IsValid,
  put_active_lem, new-IsValid, next_bound, prev_bound, back_bound, next-IsValid, prev-IsValid,
  number-IsValid,
}
use scrollfx.Trails.Toggle.{toggle-Safe}

delete-Safe : (s : State) → IsValid s → Safe (layout_trail_delete s)
unfolding layout_trail_delete
delete-Safe none v = (none, [], refl, tt)
delete-Safe (some t) v = elim (Bool-cases (length t.trails == 0)) [
  | inl empty ↦ (some t, [], rw empty, v)
  | inr full ↦
      let (a, x, b, e, n) = cut t.trails t.active (ground (arith, v.inside)) in
      let here : get_elem? t.trails t.active ≡ some x = rw (e, ← n) (get_elem?-append a x b) in
      (
        some (record { trails = a ++ b; active = step_back (length (a ++ b)) t.active }),
        trails_changed ∷ [],
        rw (full, here, delete-append t.trails a b x t.active e n),
        record {
          inside = back_bound (length (a ++ b)) t.active (omega (arith, n, length-append a b));
          each = AllValid-parts a x b (subst AllValid e v.each);
        },
      )
]

clear-Safe : (s : State) → IsValid s → Safe (layout_trail_clear s)
unfolding layout_trail_clear
clear-Safe none v = (none, [], refl, tt)
clear-Safe (some t) v = elim (Bool-cases (length t.trails == 0)) [
  | inl empty ↦ (some t, [], rw empty, v)
  | inr full ↦
      let (trail, e, h) = active_trail-exists t v full in
      (
        some (put_active t (trail_clear trail)),
        trails_changed ∷ [],
        rw (full, e),
        put_active-IsValid t (trail_clear trail) v (record { inside = omega arith; distinct = tt }),
      )
]

to_selection-Safe : (s : State) → IsValid s → Safe (layout_trail_to_selection s)
unfolding layout_trail_to_selection
to_selection-Safe none v = (none, [], refl, tt)
to_selection-Safe (some t) v = elim (Bool-cases (length t.trails == 0)) [
  | inl empty ↦ (some t, [], rw empty, v)
  | inr full ↦
      let (trail, e, h) = active_trail-exists t v full in
      (some t, map selected trail.marks, rw (full, e), v)
]

focus-of_valid :
    (t : Trails) (trail : Trail)
    → active_trail t ≡ some trail
    → TrailIsValid trail
    → (told : List Event) × (trails_focus_view t ≡ some told)
unfolding trails_focus_view
focus-of_valid t trail e v = elim (Bool-cases (length trail.marks == 0)) [
  | inl empty ↦ ([], rw (e, empty))
  | inr full ↦
      let (view, here) = get_elem?-lt trail.marks trail.active (ground (arith, v.inside)) in
      (focus view ∷ [], rw (e, full, here))
]

move_mark-Safe :
    (move : ℕ → ℕ → ℕ)
    → ((n a : ℕ) → a ≤ n - 1 → move n a ≤ n - 1)
    → (s : State) → IsValid s
    → Safe (move_mark move s)
unfolding move_mark
move_mark-Safe move bound none v = (none, [], refl, tt)
move_mark-Safe move bound (some t) v = elim (Bool-cases (length t.trails == 0)) [
  | inl empty ↦ (some t, [], rw empty, v)
  | inr full ↦
      let (trail, e, h) = active_trail-exists t v full in
      elim (Bool-cases (length trail.marks == 0)) [
        | inl none_left ↦ (some t, [], rw (full, e, none_left), v)
        | inr marked ↦
            let moved : Trail = record trail { active = move (length trail.marks) trail.active } in
            let h' : TrailIsValid moved = record {
              inside = bound (length trail.marks) trail.active h.inside;
              distinct = h.distinct;
            } in
            let (told, told_lem) =
              focus-of_valid (put_active t moved) moved (put_active_lem t trail moved e) h' in
            (
              some (put_active t moved),
              told,
              rw (full, e, marked, told_lem),
              put_active-IsValid t moved v h',
            )
      ]
]

-- The operations on trails that a user or a view can ask for, but the removal of a view.
pub data Call : Type 0 where
  new next prev delete_trail clear to_selection next_mark prev_mark : Call
  number : ℤ → Call
  toggle : Ptr → Call

abbrev pub perform : Call → State → Result
perform new s = let (t, told) = layout_trail_new s in some (some t, told)
perform next s = some (layout_trail_next s)
perform prev s = some (layout_trail_prev s)
perform delete_trail s = layout_trail_delete s
perform clear s = layout_trail_clear s
perform to_selection s = layout_trail_to_selection s
perform next_mark s = layout_trailmark_next s
perform prev_mark s = layout_trailmark_prev s
perform (number n) s = some (layout_trail_number n s)
perform (toggle view) s = layout_trailmark_toggle view s

perform-Safe : (c : Call) (s : State) → IsValid s → Safe (perform c s)
unfolding layout_trailmark_next layout_trailmark_prev
perform-Safe new s v = (some (layout_trail_new s).0, (layout_trail_new s).1, refl, new-IsValid s v)
perform-Safe next s v = ((layout_trail_next s).0, (layout_trail_next s).1, refl, next-IsValid s v)
perform-Safe prev s v = ((layout_trail_prev s).0, (layout_trail_prev s).1, refl, prev-IsValid s v)
perform-Safe delete_trail s v = delete-Safe s v
perform-Safe clear s v = clear-Safe s v
perform-Safe to_selection s v = to_selection-Safe s v
perform-Safe next_mark s v = move_mark-Safe cycle_next next_bound s v
perform-Safe prev_mark s v = move_mark-Safe cycle_prev prev_bound s v
perform-Safe (number n) s v =
    ((layout_trail_number n s).0, (layout_trail_number n s).1, refl, number-IsValid n s v)
perform-Safe (toggle view) s v = toggle-Safe view s v

-- A history of calls from a state.
pub run : List Call → State → Result
run [] s = some (s, [])
run (c ∷ cs) s = do (s', told) ← perform c s; (s'', told') ← run cs s'; some (s'', told ++ told')

-- No history of these operations from a valid state reads outside a list, and its state is valid.
pub run-Safe : (cs : List Call) (s : State) → IsValid s → Safe (run cs s)
unfolding run
run-Safe [] s v = (s, [], refl, v)
run-Safe (c ∷ cs) s v =
    let (s', told, e, v') = perform-Safe c s v in
    let (s'', told', e', v'') = run-Safe cs s' v' in (s'', told ++ told', rw (e, e'), v'')
