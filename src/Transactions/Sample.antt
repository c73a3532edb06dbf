-- ===== src/Transactions/Sample.antt =====
-- A server for the tests: container 1 has an instruction in the queued transaction, which waits for
-- it, and one in the pending transaction. Container 5 has been freed.
use scrollfx.Prelude.{
  ℕ, zero, suc, ◌+◌, ◌≤◌, ◌≡◌, ◌≢◌, refl, sym, ap, ◌∙◌, [], ◌∷◌, none, some, Bool, true, false,
  ◌==◌, ◌||◌, ◌&&◌, if◌then◌else◌, pos, arith, Bool-cases, inl, inr,
}
use mathlib.Core.Option.{some-injective, none-ne-some}
use scrollfx.Tree.Sample.{small}
use scrollfx.Tree.Count.{one}
use scrollfx.Seq.{Ptr}
use scrollfx.Containers.{Node, con, ws, eq_node, Store, fullscreen_none}
use scrollfx.Containers.Dirty.{IsTracked}
use scrollfx.Transactions.{
  Instruction, Transaction, Server, Env, Content, NodeState, container_state, workspace_state,
}
use scrollfx.Transactions.Balance.{IsBalanced, IsSettled}
use scrollfx.Transactions.Progress.{IsResting}
use scrollfx.Transactions.Calls.{IsSafe, IsChange, with_store, with_store-IsResting}

-- A world in which every view is visible.
abbrev pub world : Env
world = record {
  view_configure = λ id c content. id + 1000;
  is_xwayland = λ c. false;
  view_is_visible = λ s c. true;
  truncate = pos;
  of_int = λ z. 0;
  noatomic = false;
  txn_wait = false;
  add_timer = λ is. true;
}

abbrev wide : ℕ → Content
wide w = record { content_x = 0; content_y = 0; content_width = w; content_height = 300 }

-- Container 1 as wide as this
abbrev pub one_wide : ℕ → NodeState
one_wide w = container_state fullscreen_none 100 0 none (wide w)

-- and as it is in an instruction.
abbrev of_one : ℕ → ℕ → Bool → Instruction
of_one id w waiting = record {
  id = id;
  node = con 1;
  state = one_wide w;
  serial = id + 1000;
  server_request = true;
  waiting = waiting;
}

-- A number if a test passes, and 0 if not
abbrev pub number : Bool → ℕ → ℕ
number b n = if b then n else 0

abbrev gone_five : Store
gone_five = record small { destroying = λ n. eq_node (con 5) n }

-- The queued transaction waits for so many views.
abbrev pub busy : ℕ → Server
busy n = record {
  store = gone_five;
  content = λ c. wide 400;
  queued_transaction =
      some (record { instructions = of_one 1 200 true ∷ []; num_waiting = n; timer = true });
  pending_transaction =
      some (record { instructions = of_one 2 300 false ∷ []; num_waiting = 0; timer = false });
  ntxnrefs = λ m. number (eq_node (con 1) m) 2;
  instruction = λ m. number (eq_node (con 1) m) 1;
  current = λ m. if eq_node (con 1) m then one_wide 100 else workspace_state 0 [] [];
  freed = con 5 ∷ [];
  next_id = 3;
}

counts :
    (m : Node)
    → number (eq_node (con 1) m) 2 ≡ (one (eq_node (con 1) m) + 0) + (one (eq_node (con 1) m) + 0)
counts m = elim (Bool-cases (eq_node (con 1) m)) [ inl hit ↦ rw hit refl | inr miss ↦ rw miss refl ]

pub at_most : (b : Bool) → one b + 0 ≤ 1
at_most b = ground arith

pub linked_bool : (b : Bool) → number b 1 ≢ 0 → one ((1 == number b 1) && b) + 0 ≢ 0
linked_bool b h = ground (arith, h)

frees :
    (m : Node)
    → one (eq_node (con 5) m) + 0 ≢ 0
    → (number (eq_node (con 1) m) 2 ≡ 0) × (false ≡ false) × (eq_node (con 5) m ≡ true)
unfolding eq_node
frees (con q) h = (ground (arith, h), refl, ground (arith, h))
frees (ws q) h = absurd (h refl)

untouched : IsTracked gone_five
unfolding IsTracked
untouched m = refl

pub busy-IsBalanced : (n : ℕ) → IsBalanced (busy n)
busy-IsBalanced n = record {
  counted = counts;
  once_queued = λ m. at_most (eq_node (con 1) m);
  once_pending = λ m. at_most (eq_node (con 1) m);
  linked = λ m. linked_bool (eq_node (con 1) m);
  gone = frees;
  freed_once = λ m. at_most (eq_node (con 5) m);
  tracked = untouched;
}

pub busy-IsSettled : (n : ℕ) → IsSettled (busy n).store
busy-IsSettled n m h = refl

waits_one : suc zero ≢ zero
waits_one z = omega (arith, z)

pub busy-IsSafe : IsSafe (busy 1)
busy-IsSafe = record {
  resting = record {
    balanced = busy-IsBalanced 1;
    waits = λ t h z. waits_one (ap (λ (x : Transaction). x.num_waiting) (some-injective _ t h) ∙ z);
    timed = λ t h. sym (ap (λ (x : Transaction). x.timer) (some-injective _ t h));
    idle = λ h. absurd (none-ne-some _ (sym h));
  };
  settled = busy-IsSettled 1;
}

-- Containers 1 and 3 are dirty, and container 3 is being destroyed.
abbrev pub late_store : Store
late_store = record small {
  dirty = λ n. eq_node (con 1) n || eq_node (con 3) n;
  destroying = λ n. eq_node (con 5) n || eq_node (con 3) n;
  dirty_nodes = con 1 ∷ con 3 ∷ [];
}

late-IsTracked : IsTracked late_store
unfolding IsTracked eq_node
late-IsTracked (con q) = ground arith
late-IsTracked (ws q) = refl

late_untouched :
    (m : Node)
    → one (eq_node (con 5) m) + 0 ≢ 0
    → ((eq_node (con 1) m || eq_node (con 3) m) ≡ false)
      × ((eq_node (con 5) m || eq_node (con 3) m) ≡ true)
unfolding eq_node
late_untouched (con q) h = (ground (arith, h), ground (arith, h))
late_untouched (ws q) h = absurd (h refl)

pub late-IsChange : IsChange (busy 1) late_store
late-IsChange = record { tracked = late-IsTracked; untouched = late_untouched }

abbrev pub late_content : Ptr → Content
late_content c = wide 500

abbrev pub late : Server
late = with_store late_store late_content (busy 1)

pub late-IsResting : IsResting late
late-IsResting =
    with_store-IsResting (busy 1) late_store late_content busy-IsSafe.resting late-IsChange
