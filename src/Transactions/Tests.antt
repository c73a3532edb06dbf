-- ===== src/Transactions/Tests.antt =====
-- The transactions on the server of Sample: tests, and the theorems at concrete inputs.
use scrollfx.Prelude.{ℕ, ◌≤◌, ◌≡◌, ◌≢◌, refl, [], Option, none, some, Bool, true, false, ℤ}
use scrollfx.Seq.{Ptr}
use scrollfx.Containers.{Node, con, Store, eq_node}
use scrollfx.Containers.Dirty.{occurrences}
use scrollfx.Containers.Destroy.{is_view}
use scrollfx.Transactions.{
  collect, add_dirty, clear_dirty, update_first, transaction_add_node, with_found, renew_found,
  Transaction, Server, Content, Double, instructions_of, copy_state, end_transaction, apply,
  transaction_destroy, release, minus_one, transaction_commit, commit_from, wait_for, ask,
  wait_count, should_configure, state_differs, is_moved, resized, is_hidden, configured_serial,
  commit_next, end_if, progress_with, transaction_progress, commit_with, transaction_commit_pending,
  commit_nodes, transaction_commit_dirty, handle_timeout, find_id, set_instruction_ready, ready_if,
  notify_at, notify, transaction_notify_view_ready_by_serial,
  transaction_notify_view_ready_by_geometry,
}
use scrollfx.Transactions.Tally.{refs}
use scrollfx.Transactions.Eventual.{eventual, IsWhole, progress-IsWhole}
use scrollfx.Transactions.Progress.{IsResting}
use scrollfx.Transactions.Calls.{IsChange, with_store}
use scrollfx.Transactions.Reach.{
  Step, handled, timed_out, Reaches, start, next, IsOnTime, IsPrompt, IsSpecified, Step-IsSpecified,
  Reaches-IsResting, calls_return, freed_node,
}
use scrollfx.Transactions.Live.{expire, commit_arrives}
use scrollfx.Transactions.Sample.{
  world, busy, busy-IsBalanced, busy-IsSettled, busy-IsSafe, one_wide, late_store, late-IsChange,
  late, late-IsResting, late_content,
}

progress-IsWhole_example :
    (s' : Server) × (transaction_progress world 2 (busy 0) ≡ some s')
    × IsWhole world (busy 0) s'
    × ((m : Node) → eventual m s' ≡ eventual m (busy 0))
progress-IsWhole_example = progress-IsWhole world 0 (busy 0) (busy-IsBalanced 0) (busy-IsSettled 0)

abbrev queue : Transaction
queue = elim (busy 1).queued_transaction [
  | none ↦ record { instructions = []; num_waiting = 0; timer = false }
  | some t ↦ t
]

abbrev given : Option Server → Server
given none = busy 1
given (some s) = s

abbrev first : Option (Server × Bool) → Server
first none = busy 1
first (some (s, b)) = s

-- After the timeout, the pending transaction is queued, and it waits for container 1.
abbrev after : Server
after = given (handle_timeout world 2 queue (busy 1))

after_current : after.current (con 1) ≡ one_wide 200
unfolding handle_timeout transaction_progress progress_with end_if commit_next end_transaction apply
    transaction_destroy release transaction_commit commit_from wait_for ask wait_count
    should_configure state_differs is_moved resized is_hidden is_view eq_node configured_serial
    minus_one
after_current = refl

timeout-Step : Step world (busy 1) after
unfolding handle_timeout transaction_progress progress_with end_if commit_next end_transaction apply
    transaction_destroy release transaction_commit commit_from wait_for ask wait_count
    should_configure state_differs is_moved resized is_hidden is_view eq_node configured_serial
    minus_one
timeout-Step = timed_out queue after refl refl

-- After a change and its commit, while the first transaction waits.
abbrev changed_late : Server
changed_late = given (transaction_commit_dirty world 2 true late)

commit-Step : Step world (busy 1) changed_late
unfolding transaction_commit_dirty commit_nodes transaction_commit_pending commit_with collect
    add_dirty transaction_add_node with_found renew_found clear_dirty update_first eq_node
commit-Step = handled true late_store late_content changed_late late-IsChange refl

-- A change with its commit may come at any time, a timeout when no dirty node is being destroyed.
commit-IsOnTime : IsOnTime world (busy 1) changed_late commit-Step
unfolding IsOnTime commit-Step
commit-IsOnTime = tt

Step-IsSpecified_example : IsSpecified world (busy 1) changed_late commit-Step
Step-IsSpecified_example =
    Step-IsSpecified world (busy 1) changed_late busy-IsSafe.resting commit-Step commit-IsOnTime

timeout-IsOnTime : IsOnTime world (busy 1) after timeout-Step
unfolding IsOnTime timeout-Step
timeout-IsOnTime = busy-IsSettled 1

timeout_states : IsSpecified world (busy 1) after timeout-Step
timeout_states =
    Step-IsSpecified world (busy 1) after busy-IsSafe.resting timeout-Step timeout-IsOnTime

abbrev path : Reaches world (busy 1) changed_late
path = next (busy 1) changed_late start commit-Step

path-IsPrompt : IsPrompt world (busy 1) changed_late path
unfolding IsPrompt IsOnTime commit-Step
path-IsPrompt = (tt, tt)

Reaches-IsResting_example : IsResting changed_late
Reaches-IsResting_example =
    Reaches-IsResting world (busy 1) changed_late busy-IsSafe.resting path path-IsPrompt

calls_return_example :
    ((request : Bool) (st : Store) (content : Ptr → Content)
      → IsChange (busy 1) st
      → (s' : Server) × (transaction_commit_dirty world 2 request (with_store st content (busy 1))
          ≡ some s'))
    × ((c : Ptr) (serial : ℕ)
        → (s' : Server) × (b : Bool) × (transaction_notify_view_ready_by_serial world 2 c serial
              (busy 1)
            ≡ some (s', b)))
    × ((c : Ptr) (x y : Double) (width height : ℤ)
        → (s' : Server) × (b : Bool) × (transaction_notify_view_ready_by_geometry world 2 c x y
              width height
              (busy 1)
            ≡ some (s', b)))
    × ((t : Transaction)
        → (busy 1).queued_transaction ≡ some t
        → (s' : Server) × (handle_timeout world 2 t (busy 1) ≡ some s'))
calls_return_example = calls_return world (busy 1) busy-IsSafe

freed_node_example :
    (occurrences (con 5) changed_late.freed ≤ 1)
    × (occurrences (con 5) changed_late.freed ≢ 0
        → (changed_late.ntxnrefs (con 5) ≡ 0)
          × (refs (con 5) (instructions_of changed_late.queued_transaction) ≡ 0)
          × (refs (con 5) (instructions_of changed_late.pending_transaction) ≡ 0)
          × (changed_late.store.dirty (con 5) ≡ false)
          × (changed_late.instruction (con 5) ≡ 0))
freed_node_example =
    freed_node world (busy 1) changed_late busy-IsSafe.resting path path-IsPrompt (con 5)

commit_arrives_example :
    (s1 s2 : Server) × (transaction_commit_dirty world 2 true late ≡ some s1)
    × (expire world 2 s1 ≡ some s2)
    × (s2.queued_transaction ≡ none)
    × (s2.pending_transaction ≡ none)
    × ((m : Node)
        → late.store.dirty m ≡ true
        → (s2.current m ≡ copy_state m late)
          × (late.store.destroying m ≡ true → occurrences m s2.freed ≡ 1))
commit_arrives_example = commit_arrives world true late late-IsResting

-- The view of container 1 answers with the serial that it was sent: the number reaches 0, and the
-- next transaction is sent.
abbrev answered : Server
answered = first (transaction_notify_view_ready_by_serial world 2 1 1001 (busy 1))

answered_current : answered.current (con 1) ≡ one_wide 200
unfolding transaction_notify_view_ready_by_serial notify notify_at find_id ready_if
    set_instruction_ready transaction_progress progress_with end_if commit_next end_transaction
    apply transaction_destroy release transaction_commit commit_from wait_for ask wait_count
    should_configure state_differs is_moved resized is_hidden is_view eq_node configured_serial
    minus_one
answered_current = refl

-- Another serial changes nothing.
wrong_serial :
    transaction_notify_view_ready_by_serial world 2 1 1002 (busy 1) ≡ some (busy 1, false)
unfolding transaction_notify_view_ready_by_serial notify notify_at find_id ready_if eq_node
wrong_serial = refl
