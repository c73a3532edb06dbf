-- ===== src/Transactions/Live.antt =====
-- When the timers run out, the transactions are over.
use scrollfx.Prelude.{
  ℕ, zero, suc, ◌≤◌, ◌≡◌, ◌≢◌, refl, sym, ap, ◌∙◌, Option, none, some, ◌>>=◌, Bool, true,
  if◌then◌else◌, arith, inl, inr, Option-cases,
}
use scrollfx.Containers.{Node}
use scrollfx.Containers.Dirty.{occurrences}
use scrollfx.Transactions.{
  Transaction, Server, Env, instructions_of, copy_state, transaction_commit_dirty, handle_timeout,
}
use scrollfx.Transactions.Tally.{refs, state_for}
use scrollfx.Transactions.Finish.{or_old}
use scrollfx.Transactions.Progress.{IsResting}
use scrollfx.Transactions.Eventual.{eventual, owed, Moved, Moved-trans}
use scrollfx.Transactions.Commit.{IsClean-IsSettled, commit_dirty-Committed}
use scrollfx.Transactions.Calls.{IsSafe, timeout-Continued}

module _ (e : Env) where
  pub expire_with : (Server → Option Server) → Option Transaction → Server → Option Server
  expire_with again none s = some s
  expire_with again (some t) s = handle_timeout e 2 t s >>= again

  -- So many times, the timer of the queued transaction runs out, if there is one.
  pub expire : ℕ → Server → Option Server
  expire zero s = some s
  expire (suc k) s = expire_with (λ x. expire k x) s.queued_transaction s

  expire_idle : (k : ℕ) (s : Server) → s.queued_transaction ≡ none → expire k s ≡ some s
  unfolding expire expire_with
  expire_idle zero s h = refl
  expire_idle (suc k) s h = ap (λ o. expire_with (λ x. expire k x) o s) h

  expire_next :
      (k : ℕ) (s s' : Server) (t : Transaction)
      → s.queued_transaction ≡ some t
      → handle_timeout e 2 t s ≡ some s'
      → expire (suc k) s ≡ expire k s'
  unfolding expire expire_with
  expire_next k s s' t h run =
      ap (λ o. expire_with (λ x. expire k x) o s) h ∙ ap (λ o. o >>= λ x. expire k x) run

  -- Nothing is queued, and nothing is pending.
  abbrev IsIdle : Server → Type 0
  IsIdle s = (s.queued_transaction ≡ none) × (s.pending_transaction ≡ none)

  abbrev Expired : ℕ → Server → Type 0
  Expired k s = (s' : Server) × (expire k s ≡ some s') × IsIdle s' × IsSafe s' × Moved s s'

  -- Once when nothing is pending
  expire_once : (s : Server) → IsSafe s → s.pending_transaction ≡ none → Expired 1 s
  expire_once s safe alone = elim (Option-cases s.queued_transaction) [
    | inl idle ↦ (
      s,
      expire_idle 1 s idle,
      (idle, alone),
      safe,
      record { same_store = refl; same_eventual = λ m. refl; same_owed = λ m d h. h },
    )
    | inr (t, queued) ↦
        let (s', run, k, no_pending, no_queued) = timeout-Continued e 0 t s safe queued in
        (
          s',
          expire_next 0 s s' t queued run ∙ expire_idle 0 s' (no_queued alone),
          (no_queued alone, no_pending),
          k.safe,
          k.moved,
        )
  ]

  -- and twice in general.
  expire_twice : (s : Server) → IsSafe s → Expired 2 s
  expire_twice s safe = elim (Option-cases s.queued_transaction) [
    | inl idle ↦ (
      s,
      expire_idle 2 s idle,
      (idle, safe.resting.idle idle),
      safe,
      record { same_store = refl; same_eventual = λ m. refl; same_owed = λ m d h. h },
    )
    | inr (t, queued) ↦
        let (s1, run, k, no_pending, no_queued) = timeout-Continued e 0 t s safe queued in
        let (s2, run2, idle, safe2, move) = expire_once s1 k.safe no_pending in
        (s2, expire_next 1 s s1 t queued run ∙ run2, idle, safe2, Moved-trans s s1 s2 k.moved move)
  ]

  idle-eventual : (m : Node) (s : Server) → IsIdle s → s.current m ≡ eventual m s
  idle-eventual m s (queued, pending) = sym (
      ap
        (λ q.
          or_old (state_for m (instructions_of q))
            (or_old (state_for m (instructions_of s.queued_transaction)) (s.current m)))
        pending
      ∙ ap (λ q. or_old (state_for m (instructions_of q)) (s.current m)) queued)

  idle-owed : (m : Node) (s : Server) → IsIdle s → owed m s ≡ occurrences m s.freed
  idle-owed m s (queued, pending) = omega (
    arith,
    ap (λ q. refs m (instructions_of q)) queued,
    ap (λ q. refs m (instructions_of q)) pending,
  )

  -- In a server at rest, after a commit of the dirty nodes, it takes two timeouts at most until
  -- nothing is queued and nothing pending. Then the current state of every node that was dirty is
  -- the one that it had at the commit, and every dirty node that was being destroyed has been
  -- freed once.
  pub commit_arrives :
      (request : Bool) (s : Server)
      → IsResting s
      → (s1 s2 : Server) × (transaction_commit_dirty e 2 request s ≡ some s1)
        × (expire 2 s1 ≡ some s2)
        × (s2.queued_transaction ≡ none)
        × (s2.pending_transaction ≡ none)
        × ((m : Node)
            → s.store.dirty m ≡ true
            → (s2.current m ≡ copy_state m s)
              × (s.store.destroying m ≡ true → occurrences m s2.freed ≡ 1))
  commit_arrives request s resting =
      let (s1, run, c) = commit_dirty-Committed e 0 request s resting in
      let (s2, run2, idle, safe, move) =
        expire_twice s1
          (record { resting = c.resting; settled = IsClean-IsSettled s1.store c.took.clean }) in
      (
        s1,
        s2,
        run,
        run2,
        idle.0,
        idle.1,
        λ m dirty. (
          idle-eventual m s2 idle
              ∙ move.same_eventual m
              ∙ c.took.states m
              ∙ ap (λ b. if b then copy_state m s else eventual m s) dirty,
          λ d. one_of (occurrences m s2.freed) (safe.resting.balanced.freed_once m) (λ z.
              move.same_owed m (ap (λ x. x m) c.took.same_destroying ∙ d) (c.took.taken m d dirty)
                (idle-owed m s2 idle ∙ z)),
        ),
      )
    where
      one_of : (k : ℕ) → k ≤ 1 → k ≢ 0 → k ≡ 1
      one_of k h n = ground (arith, h, n)
