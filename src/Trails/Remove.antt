-- ===== src/Trails/Remove.antt =====
-- `layout_trail_remove_view` of sway/tree/layout.c, which runs when a view goes away.
use scrollfx.Prelude.{
  ℕ, zero, suc, ◌+◌, ◌-◌, ◌<◌, ◌≡◌, ◌≢◌, refl, sym, ap, ◌∙◌, List, [], ◌∷◌, ◌++◌, none, some, Bool,
  true, false, ◌||◌, pos, ◌==◌, if◌then◌else◌, length, arith, Bool-cases, inl, inr, ◌⊎◌, ne→==,
  subst, get_elem?, length-append, get_elem?-ge, ==_iff, get_elem?-lt_of_some,
}
use mathlib.Core.Option.{some-injective}
use scrollfx.Seq.{Ptr, find}
use scrollfx.Seq.Laws.{Distinct, Absent, find_cases, find-append, Distinct-delete, delete-append}
use scrollfx.Trails.{
  Trail, Trails, State, Event, trails_changed, trails_of, remove_mark, remove_from,
  layout_trail_remove_view, step_back, active_trail, layout_trailmark_next, move_mark, cycle_next,
  trails_focus_view,
}
use scrollfx.Trails.Bounds.{put_active_lem}

abbrev pub AllDistinct : List Trail → Type 0
AllDistinct [] = Unit {0}
AllDistinct (t ∷ ts) = Distinct t.marks × AllDistinct ts

-- The marks of a trail before and after: the view is gone, and the rest stays in its order.
pub record Cleared (view : Ptr) (before after : Trail) : Type 0 where
  pub gone : Absent view after.marks
  pub rest :
      (after.marks ≡ before.marks)
      ⊎ ((a b : List Ptr) × (before.marks ≡ a ++ view ∷ b) × (after.marks ≡ a ++ b))

abbrev pub AllCleared : Ptr → List Trail → List Trail → Type 0
AllCleared view [] [] = Unit {0}
AllCleared view [] (u ∷ us) = ⊥
AllCleared view (t ∷ ts) [] = ⊥
AllCleared view (t ∷ ts) (u ∷ us) = Cleared view t u × AllCleared view ts us

-- A removal on one trail: nothing to remove, or the view between two parts of the marks.
remove_mark-cases :
    (t : Trail) (view : Ptr)
    → ((remove_mark t view (find t.marks view) ≡ some (t, false)) × Absent view t.marks)
      ⊎ ((after : Trail) × (a b : List Ptr) × (remove_mark t view (find t.marks view)
            ≡ some (after, true))
          × (t.marks ≡ a ++ view ∷ b)
          × (after.marks ≡ a ++ b)
          × (after.active
              ≡ (if t.active == length a then step_back (length (a ++ b)) t.active else t.active))
          × Absent view a)
unfolding remove_mark
remove_mark-cases t view = elim (find_cases t.marks view) [
  | inl (lost, absent) ↦ inl (rw lost, absent)
  | inr (a, b, e, found, absent) ↦ inr (
    record {
      marks = a ++ b;
      active = if t.active == length a then step_back (length (a ++ b)) t.active else t.active;
    },
    a,
    b,
    rw (found, delete-append t.marks a b view (length a) e refl),
    e,
    refl,
    refl,
    absent,
  )
]

remove_mark-Cleared :
    (t : Trail) (view : Ptr)
    → Distinct t.marks
    → (after : Trail) × (here : Bool) × (remove_mark t view (find t.marks view)
        ≡ some (after, here))
      × Cleared view t after
remove_mark-Cleared t view d = elim (remove_mark-cases t view) [
  | inl (e, absent) ↦ (t, false, e, record { gone = absent; rest = inl refl })
  | inr (after, a, b, e, m, m', n, absent) ↦ (
    after,
    true,
    e,
    record {
      gone = rw m' (Distinct-delete a b view (subst Distinct m d)).1;
      rest = inr (a, b, m, m');
    },
  )
]

remove_from-Cleared :
    (view : Ptr) (ts : List Trail)
    → AllDistinct ts
    → (us : List Trail) × (update : Bool) × (remove_from view ts ≡ some (us, update))
      × AllCleared view ts us
unfolding remove_from
remove_from-Cleared view [] d = ([], false, refl, tt)
remove_from-Cleared view (t ∷ ts) d =
    let (u, here, e, c) = remove_mark-Cleared t view d.0 in
    let (us, there, es, cs) = remove_from-Cleared view ts d.1 in
    (u ∷ us, here || there, rw (e, es), (c, cs))

AllCleared-nil : (view : Ptr) (ts : List Trail) → (length ts == 0) ≡ true → AllCleared view ts ts
AllCleared-nil view [] e = tt
AllCleared-nil view (t ∷ ts) e = absurd (omega (arith, (==_iff (length (t ∷ ts)) 0).0 e))

-- `layout_trail_remove_view` returns, and takes its view out of every trail, and nothing else.
pub remove_view-AllCleared :
    (view : Ptr) (s : State)
    → AllDistinct (trails_of s)
    → (s' : State) × (told : List Event) × (layout_trail_remove_view view s ≡ some (s', told))
      × AllCleared view (trails_of s) (trails_of s')
unfolding layout_trail_remove_view trails_of
remove_view-AllCleared view none d = (none, [], refl, tt)
remove_view-AllCleared view (some t) d = elim (Bool-cases (length t.trails == 0)) [
  | inl empty ↦ (some t, [], rw empty, AllCleared-nil view t.trails empty)
  | inr full ↦
      let (us, update, e, c) = remove_from-Cleared view t.trails d in
      (
        some (record t { trails = us }),
        (if update then trails_changed ∷ [] else []),
        rw (full, e),
        c,
      )
]

remove_mark-total :
    (t : Trail) (view : Ptr)
    → (after : Trail) × (here : Bool) × (remove_mark t view (find t.marks view)
        ≡ some (after, here))
remove_mark-total t view = elim (remove_mark-cases t view) [
  | inl (e, absent) ↦ (t, false, e)
  | inr (after, a, b, e, m, m', n, absent) ↦ (after, true, e)
]

remove_from-total :
    (view : Ptr) (ts : List Trail)
    → (us : List Trail) × (update : Bool) × (remove_from view ts ≡ some (us, update))
unfolding remove_from
remove_from-total view [] = ([], false, refl)
remove_from-total view (t ∷ ts) =
    let (u, here, e) = remove_mark-total t view in
    let (us, there, es) = remove_from-total view ts in (u ∷ us, here || there, rw (e, es))

-- The trail at an index after the removal from all trails.
remove_from-get :
    (view : Ptr) (ts : List Trail) (i : ℕ) (t u : Trail) (here : Bool)
    → get_elem? ts i ≡ some t
    → remove_mark t view (find t.marks view) ≡ some (u, here)
    → (us : List Trail) × (update : Bool) × (remove_from view ts ≡ some (us, update))
      × (get_elem? us i ≡ some u)
unfolding remove_from
remove_from-get view [] i t u here e r = cc
remove_from-get view (x ∷ ts) zero t u here e r =
    let same : x ≡ t = some-injective x t e in
    let first : remove_mark x view (find x.marks view) ≡ some (u, here) =
      subst (λ k. remove_mark k view (find k.marks view) ≡ some (u, here)) (sym same) r in
    let (us, there, es) = remove_from-total view ts in (u ∷ us, here || there, rw (first, es), refl)
remove_from-get view (x ∷ ts) (suc i) t u here e r =
    let (v, there, ev) = remove_mark-total x view in
    let (us, update, es, g) = remove_from-get view ts i t u here e r in
    (v ∷ us, there || update, rw (ev, es), g)

-- A removal in front of the active mark does not move the active index.
remove_mark_in_front :
    (t : Trail) (view : Ptr) (a b : List Ptr)
    → t.marks ≡ a ++ view ∷ b
    → Absent view a
    → t.active ≢ length a
    → remove_mark t view (find t.marks view)
      ≡ some (record { marks = a ++ b; active = t.active }, true)
unfolding remove_mark
remove_mark_in_front t view a b m absent other =
    let found : find t.marks view ≡ pos (length a) = rw m (find-append a b view absent) in
    rw (found, delete-append t.marks a b view (length a) m refl, ne→== t.active (length a) other)

pub in_list :
    (t : Trails) (trail : Trail) → active_trail t ≡ some trail → t.active < length t.trails
unfolding active_trail
in_list t trail e = get_elem?-lt_of_some t.trails t.active trail e

-- An active index just behind the last mark: the next mark is read outside the list.
next_outside :
    (t : Trails) (trail : Trail)
    → active_trail t ≡ some trail
    → 0 < length trail.marks
    → trail.active ≡ length trail.marks
    → layout_trailmark_next (some t) ≡ none
unfolding layout_trailmark_next move_mark trails_focus_view cycle_next
next_outside t trail e some_mark behind = rw (
  ne→== (length t.trails) 0 (λ k. omega (arith, inside)),
  e,
  ne→== (length trail.marks) 0 (λ k. omega arith),
  ne→== trail.active (length trail.marks - 1) (λ k. omega arith),
  put_active_lem t trail (record trail { active = trail.active + 1 }) e,
  ne→== (length trail.marks) 0 (λ k. omega arith),
  get_elem?-ge trail.marks (trail.active + 1) (omega arith),
)
  where
    inside : t.active < length t.trails
    inside = in_list t trail e

-- Where the active trail's active mark is its last one, after the removal of a view that stands in
-- front of it `layout_trailmark_next` reads outside the list of marks.
pub remove_view-dangles :
    (view : Ptr) (t : Trails) (trail : Trail) (a b : List Ptr)
    → active_trail t ≡ some trail
    → trail.marks ≡ a ++ view ∷ b
    → Absent view a
    → 0 < length b
    → trail.active ≡ length trail.marks - 1
    → (s' : State) × (told : List Event) × (layout_trail_remove_view view (some t)
        ≡ some (s', told))
      × (layout_trailmark_next s' ≡ none)
unfolding layout_trail_remove_view active_trail
remove_view-dangles view t trail a b e m absent more last =
    let size : length trail.marks ≡ length a + suc (length b) =
      ap length m ∙ length-append a (view ∷ b) in
    let left : Trail = record { marks = a ++ b; active = trail.active } in
    let (us, update, es, g) =
      remove_from-get view t.trails t.active trail left true (opened t trail e)
        (remove_mark_in_front trail view a b m absent (λ k. omega arith)) in
    (
      some (record t { trails = us }),
      (if update then trails_changed ∷ [] else []),
      removed t us update (in_list t trail e) es,
      next_outside (record t { trails = us }) left (closed (record t { trails = us }) left g)
          (omega (arith, length-append a b)) (omega (arith, length-append a b)),
    )
  where
    opened :
        (t : Trails) (trail : Trail)
        → active_trail t ≡ some trail
        → get_elem? t.trails t.active ≡ some trail
    opened t trail e = e

    closed :
        (t : Trails) (trail : Trail)
        → get_elem? t.trails t.active ≡ some trail
        → active_trail t ≡ some trail
    closed t trail e = e

    removed :
        (t : Trails) (us : List Trail) (update : Bool)
        → t.active < length t.trails
        → remove_from view t.trails ≡ some (us, update)
        → layout_trail_remove_view view (some t)
          ≡ some (some (record t { trails = us }), if update then trails_changed ∷ [] else [])
    removed t us update lt es = rw (ne→== (length t.trails) 0 (λ k. omega arith), es)
