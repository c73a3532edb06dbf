-- ===== src/Transactions/Early.antt =====
-- The end of a transaction while a dirty node that is being destroyed waits for its commit. An output
-- that goes away leaves such nodes: `output_evacuate` of sway/tree/output.c calls
-- `workspace_begin_destroy` for its empty workspaces, and the commit comes with a timer.
mod Tests
use scrollfx.Prelude.{ℕ, suc, ◌≡◌, ◌≢◌, refl, ap, ◌∙◌, none, some, true}
use scrollfx.Containers.{Node}
use scrollfx.Tree.Count.{one}
use scrollfx.Containers.Dirty.{occurrences, IsTracked}
use scrollfx.Transactions.{
  Transaction, Server, Env, instructions_of, end_transaction, handle_timeout,
}
use scrollfx.Transactions.Tally.{refs}
use scrollfx.Transactions.Balance.{IsBalanced, finish_ends, finish-same_pending, finish-same_store}
use scrollfx.Transactions.Progress.{progress_ends}
use scrollfx.Transactions.Calls.{with_waiting, with_waiting-IsBalanced}

module _ (e : Env) where
  -- When the references are counted, the queued transaction has an instruction for a dirty node that
  -- is being destroyed, and nothing is pending, `handle_timeout` returns and has freed that node,
  -- which is still marked dirty and in the list of dirty nodes, for the next commit.
  pub timeout-frees_dirty :
      (fuel : ℕ) (t : Transaction) (s : Server)
      → IsBalanced s
      → s.queued_transaction ≡ some t
      → s.pending_transaction ≡ none
      → (m : Node) → refs m t.instructions ≢ 0
      → s.store.destroying m ≡ true
      → s.store.dirty m ≡ true
      → (s' : Server) × (handle_timeout e (suc fuel) t s ≡ some s')
        × (occurrences m s'.freed ≡ 1)
        × (s'.store.dirty m ≡ true)
        × (occurrences m s'.store.dirty_nodes ≡ 1)
  unfolding handle_timeout IsTracked
  timeout-frees_dirty fuel t s balanced queued alone m there mark dirty =
      let u = record t { num_waiting = 0 } in
      let x = with_waiting 0 s.instruction t s in
      let b = with_waiting-IsBalanced 0 s.instruction t s queued (λ q h. refl) balanced in
      let same = finish-same_store u x b refl in
      (
        end_transaction u x,
        progress_ends e fuel x u refl refl (finish-same_pending u x b refl ∙ alone),
        finish_ends u x b refl m there mark (ap (λ p. refs m (instructions_of p)) alone),
        ap (λ st. st.dirty m) same ∙ dirty,
        ap (λ st. occurrences m st.dirty_nodes) same ∙ balanced.tracked m ∙ ap one dirty,
      )
