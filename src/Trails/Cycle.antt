-- ===== src/Trails/Cycle.antt =====
-- Going round the trails of sway/tree/layout.c, and round the marks of one.
use scrollfx.Prelude.{
  ℕ, ◌+◌, ◌-◌, ◌%◌, ◌≤◌, ◌<◌, ◌≡◌, refl, sym, [], ◌∷◌, none, some, ◌==◌, leb, length, arith,
  Bool-cases, inl, inr, get_elem?, get_elem?-lt_of_some, ne→==,
}
use native.Mathlib.Nat.{mod-eq_of_lt, mod_self}
use scrollfx.Seq.{Ptr}
use scrollfx.Trails.{
  Trail, Trails, State, focus, layout_trail_next, layout_trail_prev, cycle_next, cycle_prev,
  layout_trailmark_next, move_mark, trails_focus_view, active_trail, put_active,
}
use scrollfx.Trails.Remove.{in_list}
use scrollfx.Trails.Bounds.{IsValid, put_active_lem}

cycle_prev-next : (n a : ℕ) → a ≤ n - 1 → cycle_prev n (cycle_next n a) ≡ a
unfolding cycle_next cycle_prev
cycle_prev-next n a h = ground arith

cycle_next-prev : (n a : ℕ) → a ≤ n - 1 → cycle_next n (cycle_prev n a) ≡ a
unfolding cycle_next cycle_prev
cycle_next-prev n a h = ground arith

-- `layout_trail_prev` undoes `layout_trail_next`, and the other way round, on every valid state.
pub trail_prev-next :
    (s : State)
    → IsValid s
    → ((layout_trail_prev (layout_trail_next s).0).0 ≡ s)
      × ((layout_trail_next (layout_trail_prev s).0).0 ≡ s)
unfolding layout_trail_next layout_trail_prev
trail_prev-next none v = (refl, refl)
trail_prev-next (some t) v = elim (Bool-cases (leb (length t.trails) 1)) [
  | inl few ↦ (rw (few, few), rw (few, few))
  | inr many ↦ (
    rw (many, many, cycle_prev-next (length t.trails) t.active v.inside),
    rw (many, many, cycle_next-prev (length t.trails) t.active v.inside),
  )
]

cycle_next-mod : (n a : ℕ) → a < n → cycle_next n a ≡ (a + 1) % n
unfolding cycle_next
cycle_next-mod n a h = elim (Bool-cases (a == (n - 1))) [
  | inl last ↦ let full : a + 1 ≡ n = ground arith in rw (last, full) (sym (mod_self n))
  | inr inner ↦ rw inner (sym (mod-eq_of_lt (ground arith)))
]

focused :
    (t : Trails) (trail : Trail) (view : Ptr)
    → active_trail t ≡ some trail
    → get_elem? trail.marks trail.active ≡ some view
    → trails_focus_view t ≡ some (focus view ∷ [])
unfolding trails_focus_view
focused t trail view e at = rw (
  e,
  ne→== (length trail.marks) 0
      (λ k. omega (arith, get_elem?-lt_of_some trail.marks trail.active view at)),
  at,
)

-- `layout_trailmark_next` gives the focus to the mark that follows the active one in cyclic order, and
-- makes it active.
pub trailmark_next-focus :
    (t : Trails) (trail : Trail) (view : Ptr)
    → active_trail t ≡ some trail
    → trail.active < length trail.marks
    → get_elem? trail.marks ((trail.active + 1) % length trail.marks) ≡ some view
    → layout_trailmark_next (some t)
      ≡ some (
        some (put_active t (record trail { active = (trail.active + 1) % length trail.marks })),
        focus view ∷ [],
      )
unfolding layout_trailmark_next move_mark
trailmark_next-focus t trail view e inside at = rw (
  ne→== (length t.trails) 0 (λ k. omega (arith, in_list t trail e)),
  e,
  ne→== (length trail.marks) 0 (λ k. omega arith),
  cycle_next-mod (length trail.marks) trail.active inside,
  focused (put_active t moved) moved view (put_active_lem t trail moved e) at,
)
  where
    moved : Trail
    moved = record trail { active = (trail.active + 1) % length trail.marks }
