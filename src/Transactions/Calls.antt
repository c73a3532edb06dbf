-- ===== src/Transactions/Calls.antt =====
-- The calls into the transactions: the notifications of the views, and the timer.
use scrollfx.Prelude.{
  ℕ, suc, ◌>>=◌, ◌+◌, ◌≡◌, ◌≢◌, refl, sym, ap, ◌∙◌, subst, List, [], ◌∷◌, none, some, Bool, true,
  false, ◌==◌, ◌&&◌, if◌then◌else◌, arith, Bool-cases, Option-cases, inl, inr, ==_iff,
}
use mathlib.Core.Bool.{true≢false}
use mathlib.Core.Option.{some-injective, none-ne-some}
use scrollfx.Tree.Count.{one}
use scrollfx.Seq.{Ptr}
use scrollfx.Containers.{Node, con, eq_node, Store}
use scrollfx.Containers.Dirty.{occurrences, IsTracked}
use scrollfx.Transactions.{
  Instruction, Transaction, Server, Env, Content, instructions_of, update_node, find_id,
  transaction_progress, handle_timeout, set_instruction_ready, ready_if, notify_at, notify,
}
use scrollfx.Transactions.Tally.{refs, state_for}
use scrollfx.Transactions.Finish.{or_old}
use scrollfx.Transactions.Balance.{IsBalanced, IsSettled, held}
use scrollfx.Transactions.Progress.{
  IsResting, Progressed, rests, ended, followed, both, progress-Progressed, Progressed-IsResting,
}
use scrollfx.Transactions.Eventual.{Moved, Moved-trans, Progressed-Moved}

-- The state between two calls.
pub record IsSafe (s : Server) : Type 0 where
  pub resting : IsResting s
  pub settled : IsSettled s.store

abbrev pub with_store : Store → (Ptr → Content) → Server → Server
with_store st content s = record s { store = st; content = content }

-- The nodes are changed: dirty nodes stay listed, and a node that has been freed is not touched.
pub record IsChange (s : Server) (st : Store) : Type 0 where
  pub tracked : IsTracked st
  pub untouched :
      (m : Node) → occurrences m s.freed ≢ 0 → (st.dirty m ≡ false) × (st.destroying m ≡ true)

pub with_store-IsResting :
    (s : Server) (st : Store) (content : Ptr → Content)
    → IsResting s
    → IsChange s st
    → IsResting (with_store st content s)
with_store-IsResting s st content r c = record {
  balanced = record {
    counted = r.balanced.counted;
    once_queued = r.balanced.once_queued;
    once_pending = r.balanced.once_pending;
    linked = r.balanced.linked;
    gone = λ m h. ((r.balanced.gone m h).0, (c.untouched m h).0, (c.untouched m h).1);
    freed_once = r.balanced.freed_once;
    tracked = c.tracked;
  };
  waits = r.waits;
  timed = r.timed;
  idle = r.idle;
}

-- The queued transaction waits for another number of views, and one pointer becomes null or not.
abbrev pub with_waiting : ℕ → (Node → ℕ) → Transaction → Server → Server
with_waiting n pointers t s = record s {
  queued_transaction = some (record t { num_waiting = n });
  instruction = pointers;
}

pub with_waiting-IsBalanced :
    (n : ℕ) (pointers : Node → ℕ) (t : Transaction) (s : Server)
    → s.queued_transaction ≡ some t
    → ((m : Node) → pointers m ≢ 0 → pointers m ≡ s.instruction m)
    → IsBalanced s
    → IsBalanced (with_waiting n pointers t s)
with_waiting-IsBalanced n pointers t s queued less b = record {
  counted = λ m. omega (arith, b.counted m, same m);
  once_queued = λ m. omega (arith, b.once_queued m, same m);
  once_pending = b.once_pending;
  linked = λ m h z.
      b.linked m (λ k. h (less m h ∙ k))
        (ap (λ q. held (s.instruction m) m (instructions_of q)) queued
          ∙ ap (λ k. held k m t.instructions) (sym (less m h))
          ∙ z);
  gone = b.gone;
  freed_once = b.freed_once;
  tracked = b.tracked;
}
  where
    same : (m : Node) → refs m (instructions_of s.queued_transaction) ≡ refs m t.instructions
    same m = ap (λ q. refs m (instructions_of q)) queued

-- The states of the nodes in the end do not depend on that.
with_waiting-Moved :
    (n : ℕ) (pointers : Node → ℕ) (t : Transaction) (s : Server)
    → s.queued_transaction ≡ some t
    → Moved s (with_waiting n pointers t s)
with_waiting-Moved n pointers t s queued = record {
  same_store = refl;
  same_eventual = λ m.
      ap
        (λ q.
          or_old (state_for m (instructions_of s.pending_transaction))
            (or_old (state_for m (instructions_of q)) (s.current m)))
        (sym queued);
  same_owed = λ m d h z. h (
      ap
        (λ q.
          refs m (instructions_of q)
          + refs m (instructions_of s.pending_transaction)
          + occurrences m s.freed)
        queued
      ∙ z);
}

-- What a call leaves that does not look at dirty nodes.
pub record Continued (s s' : Server) : Type 0 where
  pub safe : IsSafe s'
  pub moved : Moved s s'

module _ (e : Env) where
  -- `transaction_progress` after the number has changed.
  waiting-Continued :
      (fuel n : ℕ) (pointers : Node → ℕ) (t : Transaction) (s : Server)
      → IsSafe s
      → s.queued_transaction ≡ some t
      → ((m : Node) → pointers m ≢ 0 → pointers m ≡ s.instruction m)
      → (s' : Server) × (transaction_progress e (suc (suc fuel)) (with_waiting n pointers t s)
          ≡ some s')
        × Continued s s'
        × Progressed e (with_waiting n pointers t s) s'
  waiting-Continued fuel n pointers t s safe queued less =
      let x = with_waiting n pointers t s in
      let b = with_waiting-IsBalanced n pointers t s queued less safe.resting.balanced in
      let (s', run, p) = progress-Progressed e fuel x b safe.settled in
      let move =
        Moved-trans s x s' (with_waiting-Moved n pointers t s queued) (Progressed-Moved e x s' p) in
      (
        s',
        run,
        record {
          safe = record {
            resting =
                Progressed-IsResting e x s' b
                  (λ u h k.
                    subst (λ (y : Transaction). y.timer ≡ true)
                      (some-injective (record t { num_waiting = n }) u h)
                      (safe.resting.timed t queued))
                  (λ h. absurd (none-ne-some (record t { num_waiting = n }) (sym h))) p;
            settled = subst IsSettled (sym move.same_store) safe.settled;
          };
          moved = move;
        },
        p,
      )

  -- Nothing is pending after a timeout, and nothing queued, if nothing was pending before.
  timed-out :
      (x s : Server) (t : Transaction)
      → x.queued_transaction ≡ some t
      → t.num_waiting ≡ 0
      → Progressed e x s
      → (s.pending_transaction ≡ none)
        × (x.pending_transaction ≡ none → s.queued_transaction ≡ none)
  timed-out x s t queued zero_left (rests same waiting) = absurd (waiting t queued zero_left)
  timed-out x s t queued zero_left (ended u h alone f) = (f.same_pending ∙ alone, λ k. f.no_queued)
  timed-out x s t queued zero_left (followed u p m h pending f b waiting) =
      (b.no_pending, λ k. absurd (none-ne-some p (sym k ∙ pending)))
  timed-out x s t queued zero_left (both u p m n h pending f b g) =
      (g.same_pending ∙ b.no_pending, λ k. g.no_queued)

  pub timeout-Continued :
      (fuel : ℕ) (t : Transaction) (s : Server)
      → IsSafe s
      → s.queued_transaction ≡ some t
      → (s' : Server) × (handle_timeout e (suc (suc fuel)) t s ≡ some s')
        × Continued s s'
        × (s'.pending_transaction ≡ none)
        × (s.pending_transaction ≡ none → s'.queued_transaction ≡ none)
  unfolding handle_timeout
  timeout-Continued fuel t s safe queued =
      let (s', run, go, p) = waiting-Continued fuel 0 s.instruction t s safe queued (λ m h. refl) in
      let over =
        timed-out (with_waiting 0 s.instruction t s) s' (record t { num_waiting = 0 }) refl refl
          p in
      (s', run, go, over.0, over.1)

  ready-Continued :
      (fuel : ℕ) (i : Instruction) (t : Transaction) (s : Server)
      → IsSafe s
      → s.queued_transaction ≡ some t
      → (s' : Server) × (set_instruction_ready e (suc (suc fuel)) i t s ≡ some s') × Continued s s'
  unfolding set_instruction_ready
  ready-Continued fuel i t s safe queued =
      let (s', run, go, p) =
        waiting-Continued fuel _ (update_node s.instruction i.node 0) t s safe queued (λ m h.
          elim (Bool-cases (eq_node i.node m)) [
            | inl hit ↦ absurd (h (rw hit refl))
            | inr miss ↦ rw miss refl
          ]) in
      (s', run, go)

  -- A pointer that is not null leads to an instruction.
  find_held :
      (k : ℕ) (m : Node) (is : List Instruction)
      → held k m is ≢ 0
      → (i : Instruction) × (find_id k is ≡ some i)
  unfolding find_id
  find_held k m [] h = absurd (h refl)
  find_held k m (i ∷ is) h = elim (Bool-cases (i.id == k)) [
    | inl hit ↦ (i, rw hit refl)
    | inr miss ↦
        let (j, found) =
          find_held k m is
            (λ z. h (omega (arith, z, ap (λ b. one (b && eq_node i.node m)) miss))) in
        (j, rw miss found)
  ]

  at_instruction :
      (fuel : ℕ) (test : Instruction → Bool) (c : Ptr) (s : Server) (t : Transaction)
      (i : Instruction)
      → (s.instruction (con c) == 0) ≡ false
      → s.queued_transaction ≡ some t
      → find_id (s.instruction (con c)) t.instructions ≡ some i
      → notify e fuel test c s ≡ ready_if e fuel (test i) i t s
  unfolding notify notify_at
  at_instruction fuel test c s t i linked queued found =
      ap
        (λ b.
          if b
          then some (s, false)
          else notify_at e fuel test s.queued_transaction (s.instruction (con c)) s)
        linked
      ∙ ap (λ q. notify_at e fuel test q (s.instruction (con c)) s) queued
      ∙ ap (λ o. o >>= λ j. ready_if e fuel (test j) j t s) found

  -- Either of the notifications returns.
  pub notify-Continued :
      (fuel : ℕ) (test : Instruction → Bool) (c : Ptr) (s : Server)
      → IsSafe s
      → (s' : Server) × (b : Bool) × (notify e (suc (suc fuel)) test c s ≡ some (s', b))
        × Continued s s'
  unfolding notify notify_at ready_if
  notify-Continued fuel test c s safe = elim (Bool-cases (s.instruction (con c) == 0)) [
    | inl null ↦ (s, false, rw null refl, stay)
    | inr linked ↦ elim (Option-cases s.queued_transaction) [
      | inl idle ↦ absurd (
          at_pointer linked
            (ap (λ q. held (s.instruction (con c)) (con c) (instructions_of q)) idle))
      | inr (t, queued) ↦
          let (i, found) = find_held (s.instruction (con c)) (con c) t.instructions (λ z.
            at_pointer linked
              (ap (λ q. held (s.instruction (con c)) (con c) (instructions_of q)) queued ∙ z)) in
          let (s', run, go) = ready-Continued fuel i t s safe queued in
          let to = at_instruction (suc (suc fuel)) test c s t i linked queued found in
          elim (Bool-cases (test i)) [
            | inl pass ↦ (
              s',
              true,
              to
                  ∙ ap (λ b. ready_if e (suc (suc fuel)) b i t s) pass
                  ∙ ap (λ o. o >>= λ s1. some (s1, true)) run,
              go,
            )
            | inr fails ↦ (s, false, to ∙ ap (λ b. ready_if e (suc (suc fuel)) b i t s) fails, stay)
          ]
    ]
  ]
    where
      stay : Continued s s
      stay = record {
        safe = safe;
        moved = record { same_store = refl; same_eventual = λ m. refl; same_owed = λ m d h. h };
      }

      at_pointer :
          (s.instruction (con c) == 0) ≡ false
          → held (s.instruction (con c)) (con c) (instructions_of s.queued_transaction) ≢ 0
      at_pointer h =
          safe.resting.balanced.linked (con c)
            (λ z. true≢false (sym ((==_iff (s.instruction (con c)) 0).1 z) ∙ h))
