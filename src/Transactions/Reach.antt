-- ===== src/Transactions/Reach.antt =====
-- The calls into the transactions one after another: what each does to the states,
-- and what every sequence of them keeps.
use scrollfx.Prelude.{
  ℕ, zero, suc, ◌≤◌, ◌≡◌, ◌≢◌, refl, sym, ap, ◌∙◌, subst, Option, some, Bool, false, if◌then◌else◌,
  ℤ, arith,
}
use mathlib.Core.Option.{some-injective}
use scrollfx.Seq.{Ptr}
use scrollfx.Containers.{Node, Store}
use scrollfx.Containers.Dirty.{occurrences}
use scrollfx.Transactions.{
  Transaction, Server, Env, Content, Double, instructions_of, copy_state, transaction_commit_dirty,
  handle_timeout, transaction_notify_view_ready_by_serial,
  transaction_notify_view_ready_by_geometry,
}
use scrollfx.Transactions.Tally.{refs}
use scrollfx.Transactions.Balance.{IsSettled, held-refs}
use scrollfx.Transactions.Progress.{IsResting}
use scrollfx.Transactions.Eventual.{eventual}
use scrollfx.Transactions.Commit.{Committed, commit_dirty-Committed}
use scrollfx.Transactions.Calls.{
  IsSafe, IsChange, with_store, with_store-IsResting, Continued, timeout-Continued,
  notify-Continued,
}

module _ (e : Env) where
  -- A change of the nodes, one that a commit of the dirty nodes follows, a view that is ready, or
  -- the timer of the queued transaction.
  pub data Step (s : Server) : Server → Type 0 where
    changed :
        (st : Store) (content : Ptr → Content) → IsChange s st → Step s (with_store st content s)
    handled :
        (request : Bool) (st : Store) (content : Ptr → Content) (s' : Server)
        → IsChange s st
        → transaction_commit_dirty e 2 request (with_store st content s) ≡ some s'
        → Step s s'
    by_serial :
        (c : Ptr) (serial : ℕ) (b : Bool) (s' : Server)
        → transaction_notify_view_ready_by_serial e 2 c serial s ≡ some (s', b)
        → Step s s'
    by_geometry :
        (c : Ptr) (x y : Double) (width height : ℤ) (b : Bool) (s' : Server)
        → transaction_notify_view_ready_by_geometry e 2 c x y width height s ≡ some (s', b)
        → Step s s'
    timed_out :
        (t : Transaction) (s' : Server)
        → s.queued_transaction ≡ some t
        → handle_timeout e 2 t s ≡ some s'
        → Step s s'

  pub data Reaches (s : Server) : Server → Type 0 where
    start : Reaches s s
    next : (s1 s2 : Server) → Reaches s s1 → Step s1 s2 → Reaches s s2

  -- No view answers and no timer runs out while a dirty node is being destroyed. Commits and other
  -- changes may come at any time.
  unfoldable pub IsOnTime : (s s' : Server) → Step s s' → Type 0
  IsOnTime s s' (changed st content c) = Unit {0}
  IsOnTime s s' (handled request st content x c run) = Unit {0}
  IsOnTime s s' (by_serial c serial b x run) = IsSettled s.store
  IsOnTime s s' (by_geometry c x y width height b z run) = IsSettled s.store
  IsOnTime s s' (timed_out t x queued run) = IsSettled s.store

  unfoldable pub IsPrompt : (s s' : Server) → Reaches s s' → Type 0
  IsPrompt s s' start = Unit {0}
  IsPrompt s s' (next s1 s2 before step) = IsPrompt s s1 before × IsOnTime s1 s2 step

  -- The states that the nodes have in the end, after one step: a change, an answer and a timeout
  -- leave them all. After a commit that follows a change, those of the nodes that are dirty then
  -- are copies of what the change left, and the others are the old ones.
  unfoldable pub IsSpecified : (s s' : Server) → Step s s' → Type 0
  IsSpecified s s' (changed st content c) = (m : Node) → eventual m s' ≡ eventual m s
  IsSpecified s s' (handled request st content x c run) =
      (m : Node)
      → eventual m s'
        ≡ (if st.dirty m then copy_state m (with_store st content s) else eventual m s)
  IsSpecified s s' (by_serial c serial b x run) = (m : Node) → eventual m s' ≡ eventual m s
  IsSpecified s s' (by_geometry c x y width height b z run) =
      (m : Node) → eventual m s' ≡ eventual m s
  IsSpecified s s' (timed_out t x queued run) = (m : Node) → eventual m s' ≡ eventual m s

  serial-Continued :
      (c : Ptr) (serial : ℕ) (s : Server)
      → IsSafe s
      → (s' : Server) × (b : Bool) × (transaction_notify_view_ready_by_serial e 2 c serial s
          ≡ some (s', b))
        × Continued s s'
  unfolding transaction_notify_view_ready_by_serial
  serial-Continued c serial s safe = notify-Continued e 0 _ c s safe

  geometry-Continued :
      (c : Ptr) (x y : Double) (width height : ℤ) (s : Server)
      → IsSafe s
      → (s' : Server) × (b : Bool) × (transaction_notify_view_ready_by_geometry e 2 c x y width
            height s
          ≡ some (s', b))
        × Continued s s'
  unfolding transaction_notify_view_ready_by_geometry
  geometry-Continued c x y width height s safe = notify-Continued e 0 _ c s safe

  abbrev answer : Server → Bool → Option (Server × Bool)
  answer s b = some (s, b)

  answered : (s1 s2 : Server) (a b : Bool) → answer s1 a ≡ answer s2 b → some s1 ≡ some s2
  answered s1 s2 a b h = ap (λ p. some p.0) (some-injective (s1, a) (s2, b) h)

  IsSafe-of : (s : Server) → IsResting s → IsSettled s.store → IsSafe s
  IsSafe-of s resting settled = record { resting = resting; settled = settled }

  Continued-subst : (s s' s1 : Server) → some s1 ≡ some s' → Continued s s1 → Continued s s'
  Continued-subst s s' s1 same c = subst (Continued s) (some-injective s1 s' same) c

  serial-run :
      (c : Ptr) (serial : ℕ) (b : Bool) (s s' : Server)
      → IsSafe s
      → transaction_notify_view_ready_by_serial e 2 c serial s ≡ some (s', b)
      → Continued s s'
  serial-run c serial b s s' safe run =
      let (s1, a, goes, k) = serial-Continued c serial s safe in
      Continued-subst s s' s1 (answered s1 s' a b (sym goes ∙ run)) k

  geometry-run :
      (c : Ptr) (x y : Double) (width height : ℤ) (b : Bool) (s s' : Server)
      → IsSafe s
      → transaction_notify_view_ready_by_geometry e 2 c x y width height s ≡ some (s', b)
      → Continued s s'
  geometry-run c x y width height b s s' safe run =
      let (s1, a, goes, k) = geometry-Continued c x y width height s safe in
      Continued-subst s s' s1 (answered s1 s' a b (sym goes ∙ run)) k

  timeout-run :
      (t : Transaction) (s s' : Server)
      → IsSafe s
      → s.queued_transaction ≡ some t
      → handle_timeout e 2 t s ≡ some s'
      → Continued s s'
  timeout-run t s s' safe queued run =
      let (s1, goes, k, p, q) = timeout-Continued e 0 t s safe queued in
      Continued-subst s s' s1 (sym goes ∙ run) k

  commit-run :
      (request : Bool) (st : Store) (content : Ptr → Content) (s s' : Server)
      → IsResting s
      → IsChange s st
      → transaction_commit_dirty e 2 request (with_store st content s) ≡ some s'
      → Committed (with_store st content s) s'
  commit-run request st content s s' resting c run =
      let (s1, goes, k) =
        commit_dirty-Committed e 0 request (with_store st content s)
          (with_store-IsResting s st content resting c) in
      subst (Committed (with_store st content s)) (some-injective s1 s' (sym goes ∙ run)) k

  -- Every step from a server at rest refines the one that the specification has for it: a change,
  -- an answer of a view and a timeout leave the states that the nodes have in the end, and a commit
  -- after a change gives each node that is dirty then the state that it has after the change, and
  -- leaves the others. The condition: when a view answers or the timer runs out, no dirty node is
  -- being destroyed.
  pub Step-IsSpecified :
      (s s' : Server)
      → IsResting s
      → (step : Step s s') → IsOnTime s s' step
      → IsSpecified s s' step
  unfolding IsOnTime IsSpecified
  Step-IsSpecified s s' resting (changed st content c) h = λ m. refl
  Step-IsSpecified s s' resting (handled request st content x c run) h =
      (commit-run request st content s s' resting c run).took.states
  Step-IsSpecified s s' resting (by_serial c serial b x run) settled =
      (serial-run c serial b s s' (IsSafe-of s resting settled) run).moved.same_eventual
  Step-IsSpecified s s' resting (by_geometry c x y width height b z run) settled =
      (geometry-run c x y width height b s s' (IsSafe-of s resting settled) run).moved.same_eventual
  Step-IsSpecified s s' resting (timed_out t x queued run) settled =
      (timeout-run t s s' (IsSafe-of s resting settled) queued run).moved.same_eventual

  Step-IsResting :
      (s s' : Server) → IsResting s → (step : Step s s') → IsOnTime s s' step → IsResting s'
  unfolding IsOnTime
  Step-IsResting s s' resting (changed st content c) h = with_store-IsResting s st content resting c
  Step-IsResting s s' resting (handled request st content x c run) h =
      (commit-run request st content s s' resting c run).resting
  Step-IsResting s s' resting (by_serial c serial b x run) settled =
      (serial-run c serial b s s' (IsSafe-of s resting settled) run).safe.resting
  Step-IsResting s s' resting (by_geometry c x y width height b z run) settled =
      (geometry-run c x y width height b s s' (IsSafe-of s resting settled) run).safe.resting
  Step-IsResting s s' resting (timed_out t x queued run) settled =
      (timeout-run t s s' (IsSafe-of s resting settled) queued run).safe.resting

  -- Every sequence of changes, commits, answers of views and timeouts in which no view answers and
  -- no timer runs out while a dirty node is being destroyed keeps the server at rest: the
  -- references are counted, a pointer to an instruction is null or good, a queued transaction waits
  -- for a view and has a timer, and nothing is pending when nothing is queued.
  pub Reaches-IsResting :
      (s s' : Server) → IsResting s → (path : Reaches s s') → IsPrompt s s' path → IsResting s'
  unfolding IsPrompt
  Reaches-IsResting s s' resting start h = resting
  Reaches-IsResting s s' resting (next s1 s2 before step) (prompt, on_time) =
      Step-IsResting s1 s2 (Reaches-IsResting s s1 resting before prompt) step on_time

  -- In a safe server every call returns: the commit of the dirty nodes after a change, both
  -- notifications of a view, and the timer of the queued transaction. So no pointer to an
  -- instruction that is gone is used, and two rounds of `transaction_progress` are enough.
  pub calls_return :
      (s : Server)
      → IsSafe s
      → ((request : Bool) (st : Store) (content : Ptr → Content)
          → IsChange s st
          → (s' : Server) × (transaction_commit_dirty e 2 request (with_store st content s)
              ≡ some s'))
        × ((c : Ptr) (serial : ℕ)
            → (s' : Server) × (b : Bool) × (transaction_notify_view_ready_by_serial e 2 c serial s
                ≡ some (s', b)))
        × ((c : Ptr) (x y : Double) (width height : ℤ)
            → (s' : Server) × (b : Bool) × (transaction_notify_view_ready_by_geometry e 2 c x y
                  width height s
                ≡ some (s', b)))
        × ((t : Transaction)
            → s.queued_transaction ≡ some t
            → (s' : Server) × (handle_timeout e 2 t s ≡ some s'))
  calls_return s safe = (
    λ request st content c.
        let (s', run, k) =
          commit_dirty-Committed e 0 request (with_store st content s)
            (with_store-IsResting s st content safe.resting c) in
        (s', run),
    λ c serial. let (s', b, run, k) = serial-Continued c serial s safe in (s', b, run),
    λ c x y width height.
        let (s', b, run, k) = geometry-Continued c x y width height s safe in (s', b, run),
    λ t queued. let (s', run, k, p, q) = timeout-Continued e 0 t s safe queued in (s', run),
  )

  -- In every server that is reached from one at rest, by steps among which no view answers and no
  -- timer runs out while a dirty node is being destroyed, a node is freed once at most, and a node
  -- that has been freed has no reference left, is in no transaction and not dirty, and its pointer
  -- to an instruction is null.
  pub freed_node :
      (s s' : Server)
      → IsResting s
      → (path : Reaches s s') → IsPrompt s s' path
      → (m : Node)
      → (occurrences m s'.freed ≤ 1)
        × (occurrences m s'.freed ≢ 0
            → (s'.ntxnrefs m ≡ 0)
              × (refs m (instructions_of s'.queued_transaction) ≡ 0)
              × (refs m (instructions_of s'.pending_transaction) ≡ 0)
              × (s'.store.dirty m ≡ false)
              × (s'.instruction m ≡ 0))
  freed_node s s' resting path prompt m =
      let b = (Reaches-IsResting s s' resting path prompt).balanced in
      (
        b.freed_once m,
        λ h.
            let (left, clean, mark) = b.gone m h in
            (
              left,
              omega (arith, b.counted m, left),
              omega (arith, b.counted m, left),
              clean,
              null_pointer (s'.instruction m) (λ z. b.linked m z (
                  omega (
                    arith,
                    b.counted m,
                    left,
                    held-refs (s'.instruction m) m (instructions_of s'.queued_transaction),
                  ))),
            ),
      )
    where
      null_pointer : (k : ℕ) → ¬ (k ≢ 0) → k ≡ 0
      null_pointer zero h = refl
      null_pointer (suc k) h = absurd (h (λ z. omega (arith, z)))
