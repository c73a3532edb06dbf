-- ===== src/Trails.antt =====
-- Trails of sway/tree/layout.c: lists of marked views, one of them active, each with an active mark.
-- An operation returns the new state and what it tells the rest of the program. Its result is
-- `none` where it reads outside a list.
pub mod Defs
pub mod Bounds
pub mod Toggle
pub mod Safe
pub mod Marks
pub mod Remove
pub mod Cycle
mod Tests
use scrollfx.Prelude.{
  ℕ, zero, suc, ◌+◌, ◌-◌, List, [], ◌∷◌, ◌++◌, map, Option, none, some, Bool, true, false, ◌||◌, ℤ,
  pos, negsuc, ltb, leb, ◌==◌, if◌then◌else◌, length, get_elem?, set, ◌>>=◌, is_neg,
}
use scrollfx.Seq.{Ptr, find, delete}
pub use Defs.{Trail, Trails, State, Event, trails_changed, trailmark, focus, selected}

-- What an operation returns.
abbrev pub Result : Type 0
Result = Option (State × List Event)

pub trail_create : Trail
trail_create = record { marks = []; active = 0 }

pub trail_clear : Trail → Trail
trail_clear t = record { marks = []; active = 0 }

-- A deleted entry takes the active index one back, unless it is the first.
pub step_back : ℕ → ℕ → ℕ
step_back len active = if len == 0 then 0 else if ltb 0 active then active - 1 else active

pub cycle_next : ℕ → ℕ → ℕ
cycle_next len active = if active == (len - 1) then 0 else active + 1

pub cycle_prev : ℕ → ℕ → ℕ
cycle_prev len active = if active == 0 then len - 1 else active - 1

pub trails_of : State → List Trail
trails_of none = []
trails_of (some t) = t.trails

-- `trails == NULL || trails->trails->length == 0`
pub no_trails : State → Bool
no_trails s = length (trails_of s) == 0

pub layout_trail_new : State → Trails × List Event
unfolding trails_of trail_create
layout_trail_new s = (
  record { trails = trails_of s ++ trail_create ∷ []; active = length (trails_of s) },
  trails_changed ∷ [],
)

pub layout_trail_next : State → State × List Event
unfolding cycle_next
layout_trail_next none = (none, [])
layout_trail_next (some t) =
    if leb (length t.trails) 1
    then (some t, [])
    else (some (record t { active = cycle_next (length t.trails) t.active }), trails_changed ∷ [])

pub layout_trail_prev : State → State × List Event
unfolding cycle_prev
layout_trail_prev none = (none, [])
layout_trail_prev (some t) =
    if leb (length t.trails) 1
    then (some t, [])
    else (some (record t { active = cycle_prev (length t.trails) t.active }), trails_changed ∷ [])

pub layout_trail_number : ℤ → State → State × List Event
layout_trail_number n none = (none, [])
layout_trail_number (negsuc n) (some t) = (some t, [])
layout_trail_number (pos n) (some t) =
    if leb (length t.trails) n
    then (some t, [])
    else (some (record t { active = n }), trails_changed ∷ [])

pub layout_trail_delete : State → Result
unfolding step_back
layout_trail_delete none = some (none, [])
layout_trail_delete (some t) = if length t.trails == 0 then some (some t, []) else (do
  _ ← get_elem? t.trails t.active
  rest ← delete t.trails (pos t.active)
  some (
    some (record { trails = rest; active = step_back (length rest) t.active }),
    trails_changed ∷ [],
  ))

-- The active trail, and the state with another one in its place.
pub active_trail : Trails → Option Trail
active_trail t = get_elem? t.trails t.active

pub put_active : Trails → Trail → Trails
put_active t trail = record t { trails = set t.trails t.active trail }

pub layout_trail_clear : State → Result
unfolding active_trail put_active trail_clear
layout_trail_clear none = some (none, [])
layout_trail_clear (some t) = if length t.trails == 0 then some (some t, []) else (do
  trail ← active_trail t
  some (some (put_active t (trail_clear trail)), trails_changed ∷ []))

pub layout_trail_to_selection : State → Result
unfolding active_trail
layout_trail_to_selection none = some (none, [])
layout_trail_to_selection (some t) =
    if length t.trails == 0
    then some (some t, [])
    else (do trail ← active_trail t; some (some t, map selected trail.marks))

-- The two branches of a toggle, on the active trail.
pub toggle_mark : Trail → Ptr → ℤ → Option Trail
unfolding step_back
toggle_mark t view (negsuc _) =
    some (record { marks = t.marks ++ view ∷ []; active = length (t.marks ++ view ∷ []) - 1 })
toggle_mark t view (pos idx) = do
  rest ← delete t.marks (pos idx)
  some (record { marks = rest; active = step_back (length rest) t.active })

pub toggle_in : Ptr → Trails → List Event → Result
unfolding active_trail put_active toggle_mark
toggle_in view t told = do
  trail ← active_trail t
  toggled ← toggle_mark trail view (find trail.marks view)
  some (some (put_active t toggled), told ++ trails_changed ∷ trailmark view ∷ [])

pub layout_trailmark_toggle : Ptr → State → Result
unfolding toggle_in layout_trail_new
layout_trailmark_toggle view none = let (t, told) = layout_trail_new none in toggle_in view t told
layout_trailmark_toggle view (some t) =
    if length t.trails == 0
    then (let (t', told) = layout_trail_new (some t) in toggle_in view t' told)
    else toggle_in view t []

-- The view that gets the focus, if the active trail has marks.
pub trails_focus_view : Trails → Option (List Event)
unfolding active_trail
trails_focus_view t = do
  trail ← active_trail t
  if length trail.marks == 0
      then some []
      else (do view ← get_elem? trail.marks trail.active; some (focus view ∷ []))

-- Both ways to another mark: `move` is what happens to the active index.
pub move_mark : (ℕ → ℕ → ℕ) → State → Result
unfolding active_trail put_active trails_focus_view
move_mark move none = some (none, [])
move_mark move (some t) = if length t.trails == 0 then some (some t, []) else (do
  trail ← active_trail t
  if length trail.marks == 0 then some (some t, []) else (do
    let t' = put_active t (record trail { active = move (length trail.marks) trail.active })
    told ← trails_focus_view t'
    some (some t', told)))

pub layout_trailmark_next : State → Result
unfolding move_mark cycle_next
layout_trailmark_next = move_mark cycle_next

pub layout_trailmark_prev : State → Result
unfolding move_mark cycle_prev
layout_trailmark_prev = move_mark cycle_prev

-- The inner loop stops at the first mark of the view.
pub remove_mark : Trail → Ptr → ℤ → Option (Trail × Bool)
unfolding step_back
remove_mark t view (negsuc _) = some (t, false)
remove_mark t view (pos j) = do
  rest ← delete t.marks (pos j)
  some (
    record {
      marks = rest;
      active = if t.active == j then step_back (length rest) t.active else t.active;
    },
    true,
  )

pub remove_from : Ptr → List Trail → Option (List Trail × Bool)
unfolding remove_mark
remove_from view [] = some ([], false)
remove_from view (t ∷ ts) = do
  (t', here) ← remove_mark t view (find t.marks view)
  (ts', there) ← remove_from view ts
  some (t' ∷ ts', here || there)

pub layout_trail_remove_view : Ptr → State → Result
unfolding remove_from
layout_trail_remove_view view none = some (none, [])
layout_trail_remove_view view (some t) = if length t.trails == 0 then some (some t, []) else (do
  (ts, update) ← remove_from view t.trails
  some (some (record t { trails = ts }), if update then trails_changed ∷ [] else []))

pub layout_trails_length : State → ℕ
unfolding trails_of
layout_trails_length s = length (trails_of s)

pub layout_trails_active : State → ℕ
layout_trails_active none = 0
layout_trails_active (some t) = t.active

pub layout_trails_active_length : State → Option ℕ
unfolding active_trail
layout_trails_active_length none = some 0
layout_trails_active_length (some t) =
    if length t.trails == 0 then some 0 else (do trail ← active_trail t; some (length trail.marks))

-- The null pointer is never a mark.
pub layout_trails_trailmarked : Ptr → State → Option Bool
unfolding active_trail
layout_trails_trailmarked view none = some false
layout_trails_trailmarked view (some t) =
    if length t.trails == 0 || view == 0
    then some false
    else (do trail ← active_trail t; some (if is_neg (find trail.marks view) then false else true))
