-- ===== src/Transactions/Early/Tests.antt =====
-- A transaction that runs out while its container, which is being destroyed, is dirty.
use scrollfx.Prelude.{ℕ, ◌+◌, ◌≡◌, ◌≢◌, refl, [], ◌∷◌, none, some, Bool, true, false, ◌||◌, arith}
use scrollfx.Tree.Sample.{small}
use scrollfx.Tree.Count.{one}
use scrollfx.Containers.{Node, con, ws, eq_node, Store}
use scrollfx.Containers.Dirty.{IsTracked, occurrences}
use scrollfx.Transactions.{Transaction, Server, handle_timeout}
use scrollfx.Transactions.Tally.{refs}
use scrollfx.Transactions.Balance.{IsBalanced}
use scrollfx.Transactions.Sample.{world, busy, number, at_most, linked_bool}
use scrollfx.Transactions.Early.{timeout-frees_dirty}

abbrev doomed_store : Store
doomed_store = record small {
  dirty = λ n. eq_node (con 1) n;
  destroying = λ n. eq_node (con 5) n || eq_node (con 1) n;
  dirty_nodes = con 1 ∷ [];
}

-- The first transaction of `busy` is the only one.
abbrev doomed : Server
doomed = record (busy 1) {
  store = doomed_store;
  pending_transaction = none;
  ntxnrefs = λ m. number (eq_node (con 1) m) 1;
}

counts : (b : Bool) → number b 1 ≡ (one b + 0) + 0
counts b = ground arith

frees :
    (m : Node)
    → one (eq_node (con 5) m) + 0 ≢ 0
    → (number (eq_node (con 1) m) 1 ≡ 0)
      × (eq_node (con 1) m ≡ false)
      × (eq_node (con 5) m || eq_node (con 1) m ≡ true)
unfolding eq_node
frees (con q) h = (ground (arith, h), ground (arith, h), ground (arith, h))
frees (ws q) h = absurd (h refl)

doomed-IsTracked : IsTracked doomed_store
unfolding IsTracked
doomed-IsTracked m = add_zero (one (eq_node (con 1) m))
  where
    add_zero : (k : ℕ) → k + 0 ≡ k
    add_zero k = omega arith

doomed-IsBalanced : IsBalanced doomed
doomed-IsBalanced = record {
  counted = λ m. counts (eq_node (con 1) m);
  once_queued = λ m. at_most (eq_node (con 1) m);
  once_pending = λ m. omega arith;
  linked = λ m. linked_bool (eq_node (con 1) m);
  gone = frees;
  freed_once = λ m. at_most (eq_node (con 5) m);
  tracked = doomed-IsTracked;
}

abbrev queue : Transaction
queue = elim doomed.queued_transaction [
  | none ↦ record { instructions = []; num_waiting = 0; timer = false }
  | some t ↦ t
]

referred : refs (con 1) queue.instructions ≢ 0
unfolding eq_node
referred z = omega (arith, z)

is_marked : doomed.store.destroying (con 1) ≡ true
unfolding eq_node
is_marked = refl

is_dirty : doomed.store.dirty (con 1) ≡ true
unfolding eq_node
is_dirty = refl

timeout-frees_dirty_example :
    (s' : Server) × (handle_timeout world 1 queue doomed ≡ some s')
    × (occurrences (con 1) s'.freed ≡ 1)
    × (s'.store.dirty (con 1) ≡ true)
    × (occurrences (con 1) s'.store.dirty_nodes ≡ 1)
timeout-frees_dirty_example =
    timeout-frees_dirty world 0 queue doomed doomed-IsBalanced refl refl (con 1) referred is_marked
      is_dirty
