-- ===== src/Trails/Bounds.antt =====
-- The active indices of the trails of sway/tree/layout.c stay inside their lists, and the operations
-- read only there.
use scrollfx.Prelude.{
  ℕ, zero, suc, ◌-◌, ◌≤◌, ◌≡◌, List, [], ◌∷◌, ◌++◌, none, some, false, ℤ, pos, negsuc, ◌==◌, length,
  length-append, get_elem?, set, length-set, get_elem?-lt, arith, get_elem?-lt_of_some,
  get_elem?-set_self, ne→==, subst,
}
use mathlib.Core.Option.{some-injective}
use scrollfx.Seq.Laws.{Distinct}
use scrollfx.Trails.{
  Trail, Trails, State, Event, Result, trail_create, step_back, cycle_next, cycle_prev, trails_of,
  layout_trail_new, layout_trail_next, layout_trail_prev, layout_trail_number, active_trail,
  put_active,
}

-- The active mark of a trail is one of its marks, or 0 if it has none, and no view is marked twice.
pub record TrailIsValid (t : Trail) : Type 0 where
  pub inside : t.active ≤ length t.marks - 1
  pub distinct : Distinct t.marks

abbrev pub AllValid : List Trail → Type 0
AllValid [] = Unit {0}
AllValid (t ∷ ts) = TrailIsValid t × AllValid ts

pub record TrailsIsValid (t : Trails) : Type 0 where
  pub inside : t.active ≤ length t.trails - 1
  pub each : AllValid t.trails

abbrev pub IsValid : State → Type 0
IsValid none = Unit {0}
IsValid (some t) = TrailsIsValid t

-- The operation returns, and its state is valid.
abbrev pub Safe : Result → Type 0
Safe r = (s : State) × (told : List Event) × (r ≡ some (s, told)) × IsValid s

pub AllValid-get :
    (ts : List Trail) (i : ℕ) (t : Trail) → AllValid ts → get_elem? ts i ≡ some t → TrailIsValid t
AllValid-get [] i t v e = cc
AllValid-get (x ∷ ts) zero t v e = subst TrailIsValid (some-injective x t e) v.0
AllValid-get (x ∷ ts) (suc i) t v e = AllValid-get ts i t v.1 e

pub AllValid-set :
    (ts : List Trail) (i : ℕ) (t : Trail) → AllValid ts → TrailIsValid t → AllValid (set ts i t)
AllValid-set [] i t v h = tt
AllValid-set (x ∷ ts) zero t v h = (h, v.1)
AllValid-set (x ∷ ts) (suc i) t v h = (v.0, AllValid-set ts i t v.1 h)

AllValid-append : (ts us : List Trail) → AllValid ts → AllValid us → AllValid (ts ++ us)
AllValid-append [] us v w = w
AllValid-append (t ∷ ts) us v w = (v.0, AllValid-append ts us v.1 w)

pub AllValid-parts :
    (a : List Trail) (t : Trail) (b : List Trail) → AllValid (a ++ t ∷ b) → AllValid (a ++ b)
AllValid-parts [] t b v = v.1
AllValid-parts (x ∷ a) t b v = (v.0, AllValid-parts a t b v.1)

trail_create-valid : TrailIsValid trail_create
unfolding trail_create
trail_create-valid = record { inside = omega arith; distinct = tt }

trails_of-valid : (s : State) → IsValid s → AllValid (trails_of s)
unfolding trails_of
trails_of-valid none v = tt
trails_of-valid (some t) v = v.each

pub new-IsValid : (s : State) → IsValid s → TrailsIsValid (layout_trail_new s).0
unfolding layout_trail_new
new-IsValid s v = record {
  inside = omega (arith, length-append (trails_of s) (trail_create ∷ []));
  each =
      AllValid-append (trails_of s) (trail_create ∷ []) (trails_of-valid s v)
        (trail_create-valid, tt);
}

pub next_bound : (n a : ℕ) → a ≤ n - 1 → cycle_next n a ≤ n - 1
unfolding cycle_next
next_bound n a h = ground arith

pub prev_bound : (n a : ℕ) → a ≤ n - 1 → cycle_prev n a ≤ n - 1
unfolding cycle_prev
prev_bound n a h = ground arith

pub back_bound : (n a : ℕ) → a ≤ n → step_back n a ≤ n - 1
unfolding step_back
back_bound n a h = ground arith

pub next-IsValid : (s : State) → IsValid s → IsValid (layout_trail_next s).0
unfolding layout_trail_next
next-IsValid none v = tt
next-IsValid (some t) v = ground (arith, v.inside, next_bound (length t.trails) t.active)

pub prev-IsValid : (s : State) → IsValid s → IsValid (layout_trail_prev s).0
unfolding layout_trail_prev
prev-IsValid none v = tt
prev-IsValid (some t) v = ground (arith, v.inside, prev_bound (length t.trails) t.active)

pub number-IsValid : (n : ℤ) (s : State) → IsValid s → IsValid (layout_trail_number n s).0
unfolding layout_trail_number
number-IsValid n none v = tt
number-IsValid (negsuc n) (some t) v = v
number-IsValid (pos n) (some t) v = ground arith

-- A valid list of trails that is not empty has its active trail.
pub active_trail-exists :
    (t : Trails)
    → TrailsIsValid t
    → (length t.trails == 0) ≡ false
    → (trail : Trail) × (active_trail t ≡ some trail) × TrailIsValid trail
unfolding active_trail
active_trail-exists t v some_trail =
    let (trail, e) = get_elem?-lt t.trails t.active (ground (arith, v.inside)) in
    (trail, e, AllValid-get t.trails t.active trail v.each e)

pub put_active-IsValid :
    (t : Trails) (trail : Trail)
    → TrailsIsValid t
    → TrailIsValid trail
    → TrailsIsValid (put_active t trail)
unfolding put_active
put_active-IsValid t trail v h = record {
  inside = omega (arith, v.inside, length-set t.trails t.active trail);
  each = AllValid-set t.trails t.active trail v.each h;
}

pub put_active_lem :
    (t : Trails) (trail trail' : Trail)
    → active_trail t ≡ some trail
    → active_trail (put_active t trail') ≡ some trail'
unfolding active_trail put_active
put_active_lem t trail trail' e =
    get_elem?-set_self t.trails t.active trail' (get_elem?-lt_of_some t.trails t.active trail e)

pub new-full : (s : State) → (length (layout_trail_new s).0.trails == 0) ≡ false
unfolding layout_trail_new
new-full s =
    ne→== (length (trails_of s ++ trail_create ∷ [])) 0
      (λ e. omega (arith, length-append (trails_of s) (trail_create ∷ [])))
