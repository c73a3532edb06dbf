-- ===== src/Trails/Defs.antt =====
-- The state of the trails of sway/tree/layout.c, and what its operations tell the rest.
use scrollfx.Prelude.{ℕ, List, Option}
use scrollfx.Seq.{Ptr}

-- `struct sway_trail`. Each trail belongs to one entry of the list of trails.
pub record Trail : Type 0 where
  pub marks : List Ptr
  pub active : ℕ

-- `struct sway_trails`
pub record Trails : Type 0 where
  pub trails : List Trail
  pub active : ℕ

-- The variable `trails`, which is NULL until the first trail.
abbrev pub State : Type 0
State = Option Trails

-- `ipc_event_trails`, `ipc_event_window(view->container, "trailmark")`, the focus of a view's
-- container with the pointer warped to it, and the selection of one.
pub data Event : Type 0 where
  trails_changed : Event
  trailmark focus selected : Ptr → Event
