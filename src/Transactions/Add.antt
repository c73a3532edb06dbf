-- ===== src/Transactions/Add.antt =====
-- `transaction_add_node` and the loop of `_transaction_commit_dirty`.
use scrollfx.Prelude.{
  ℕ, zero, suc, ◌+◌, ◌≤◌, ◌≡◌, ◌≢◌, refl, sym, ap, ◌∙◌, List, [], ◌∷◌, ◌++◌, none, some, Bool,
  false, if◌then◌else◌, ltb, arith, Bool-cases, inl, inr, Option-cases, ◌⊎◌,
}
use scrollfx.Tree.Count.{one}
use scrollfx.Containers.{Node, con, ws, eq_node}
use scrollfx.Containers.Dirty.{occurrences, eq_of_node}
use scrollfx.Transactions.{
  Instruction, NodeState, Transaction, Server, update_node, update_first, renew, new_instruction,
  renew_found, with_found, copy_state, copy_container_state, copy_workspace_state,
  transaction_add_node, clear_dirty, add_dirty,
}
use scrollfx.Transactions.Tally.{
  refs, state_for, tally-append, state_for-append, state_for-front, state_for-none,
  update_first-none, update_first-refs, update_first-state, update_first-some,
}

-- What adding a node leaves, where `q` counts the instructions in the queued transaction.
pub record Added (q : Node → ℕ) (n : Node) (t t' : Transaction) (s s' : Server) : Type 0 where
  pub counts :
      (m : Node) → refs m t'.instructions ≡ (if eq_node n m then 1 else refs m t.instructions)
  pub states :
      (m : Node)
      → state_for m t'.instructions
        ≡ (if eq_node n m then some (copy_state n s) else state_for m t.instructions)
  pub counted : (m : Node) → s'.ntxnrefs m ≡ q m + refs m t'.instructions
  pub rest : s' ≡ record s { ntxnrefs = s'.ntxnrefs; next_id = s'.next_id }

renewed-node :
    (v : NodeState) (request : Bool) (i : Instruction) → (renew v request i).node ≡ i.node
unfolding renew
renewed-node v request i = refl

renewed-state : (v : NodeState) (request : Bool) (i : Instruction) → (renew v request i).state ≡ v
unfolding renew
renewed-state v request i = refl

module _ (q : Node → ℕ) (n : Node) (request : Bool) (t : Transaction) (s : Server)
    (counted : (m : Node) → s.ntxnrefs m ≡ q m + refs m t.instructions)
    (once : (m : Node) → refs m t.instructions ≤ 1) where
  new-node : (new_instruction n request s).node ≡ n
  unfolding new_instruction
  new-node = refl

  new-state : (new_instruction n request s).state ≡ copy_state n s
  unfolding new_instruction
  new-state = refl

  abbrev Result : Type 0
  Result =
      (t' : Transaction) × (s' : Server) × (transaction_add_node n request t s ≡ (t', s'))
      × Added q n t t' s s'

  -- A new instruction.
  appends :
      refs n t.instructions ≡ 0
      → Added q n t
          (record t { instructions = t.instructions ++ new_instruction n request s ∷ [] })
          s
          (record s {
            ntxnrefs = update_node s.ntxnrefs n (s.ntxnrefs n + 1);
            next_id = s.next_id + 1;
          })
  appends z = record {
    counts = λ m. now m;
    states = λ m. elim (Bool-cases (eq_node n m)) [
      | inl hit ↦
          let e = eq_of_node n m hit in
          state_for-append m t.instructions (new_instruction n request s ∷ [])
            (ap (λ x. refs x t.instructions) (sym e) ∙ z)
          ∙ rw (new-node, new-state, hit) refl
      | inr miss ↦ rw miss (elim (zero_or (refs m t.instructions)) [
        | inl none_yet ↦
            state_for-append m t.instructions (new_instruction n request s ∷ []) none_yet
            ∙ rw (new-node, miss) (sym (state_for-none m t.instructions none_yet))
        | inr some_yet ↦
            state_for-front m t.instructions (new_instruction n request s ∷ []) some_yet
      ])
    ];
    counted = λ m. elim (Bool-cases (eq_node n m)) [
      | inl hit ↦
          let e = eq_of_node n m hit in
          rw hit (
            omega (
              arith,
              now m,
              ap (λ b. if b then 1 else refs m t.instructions) hit,
              counted n,
              ap q e,
              ap (λ x. refs x t.instructions) e,
              z,
            ))
      | inr miss ↦
          rw miss
            (omega (arith, now m, ap (λ b. if b then 1 else refs m t.instructions) miss, counted m))
    ];
    rest = refl;
  }
    where
      zero_or : (k : ℕ) → (k ≡ 0) ⊎ (k ≢ 0)
      zero_or zero = inl refl
      zero_or (suc k) = inr (λ e. omega (arith, e))

      now :
          (m : Node)
          → refs m (t.instructions ++ new_instruction n request s ∷ [])
            ≡ (if eq_node n m then 1 else refs m t.instructions)
      now m =
          let all =
            tally-append (λ i. eq_node i.node m) t.instructions (new_instruction n request s ∷ [])
            ∙ ap (λ x. refs m t.instructions + (one (eq_node x m) + 0)) new-node in
          elim (Bool-cases (eq_node n m)) [
            | inl hit ↦ rw hit (
                omega
                  (arith, all, ap one hit, ap (λ x. refs x t.instructions) (eq_of_node n m hit), z))
            | inr miss ↦ rw miss (omega (arith, all, ap one miss))
          ]

  -- The instruction that is there.
  renews :
      (is : List Instruction)
      → update_first n (renew (copy_state n s) request) t.instructions ≡ some is
      → refs n t.instructions ≢ 0
      → Added q n t (record t { instructions = is }) s s
  renews is e there = record {
    counts = λ m. elim (Bool-cases (eq_node n m)) [
      | inl hit ↦ rw hit (
          omega
            (arith, same m, ap (λ x. refs x t.instructions) (eq_of_node n m hit), there, once n))
      | inr miss ↦ rw miss (same m)
    ];
    states =
        update_first-state n (renew (copy_state n s) request)
          (renewed-node (copy_state n s) request) (copy_state n s)
          (renewed-state (copy_state n s) request) t.instructions is e;
    counted = λ m. omega (arith, counted m, same m);
    rest = refl;
  }
    where
      same : (m : Node) → refs m is ≡ refs m t.instructions
      same m =
          update_first-refs n (renew (copy_state n s) request)
            (renewed-node (copy_state n s) request) t.instructions is e m

  found-cases :
      ((renew_found n request t s ≡ none) × (refs n t.instructions ≡ 0))
      ⊎ ((is : List Instruction) × (renew_found n request t s ≡ some is)
          × (update_first n (renew (copy_state n s) request) t.instructions ≡ some is))
  unfolding renew_found
  found-cases = elim (Bool-cases (ltb 0 (s.ntxnrefs n))) [
    | inr no_refs ↦ inl (rw no_refs refl, ground (arith, counted n, no_refs))
    | inl some_refs ↦
        elim (Option-cases (update_first n (renew (copy_state n s) request) t.instructions)) [
          | inl missing ↦ inl (
            rw (some_refs, missing) refl,
            update_first-none n (renew (copy_state n s) request)
                (renewed-node (copy_state n s) request) t.instructions missing,
          )
          | inr (is, found) ↦ inr (is, rw (some_refs, found) refl, found)
        ]
  ]

  pub add_node-Added : Result
  unfolding transaction_add_node with_found
  add_node-Added = elim found-cases [
    | inl (missing, z) ↦ (_, _, ap (λ o. with_found o n request t s) missing, appends z)
    | inr (is, found, put) ↦ (
      _,
      _,
      ap (λ o. with_found o n request t s) found,
      renews is put (
          update_first-some n (renew (copy_state n s) request)
            (renewed-node (copy_state n s) request) t.instructions is put),
    )
  ]

-- A server in which only the marks, the counters of references and the next address differ.
abbrev pub with_counters : Server → (Node → Bool) → (Node → ℕ) → ℕ → Server
with_counters s dirty refs_now next = record s {
  store = record s.store { dirty = dirty };
  ntxnrefs = refs_now;
  next_id = next;
}

pub copy_state-with_counters :
    (m : Node) (s : Server) (d : Node → Bool) (r : Node → ℕ) (k : ℕ)
    → copy_state m (with_counters s d r k) ≡ copy_state m s
unfolding copy_state copy_container_state copy_workspace_state
copy_state-with_counters (con c) s d r k = refl
copy_state-with_counters (ws w) s d r k = refl

-- What the loop over the dirty nodes `ns` leaves.
pub record Collected (q : Node → ℕ) (ns : List Node) (t t' : Transaction) (s s' : Server)
    : Type 0 where
  pub once : (m : Node) → refs m t'.instructions ≤ 1
  pub counted : (m : Node) → s'.ntxnrefs m ≡ q m + refs m t'.instructions
  pub taken :
      (m : Node)
      → occurrences m ns ≢ 0
      → (refs m t'.instructions ≡ 1)
        × (state_for m t'.instructions ≡ some (copy_state m s))
        × (s'.store.dirty m ≡ false)
  pub left :
      (m : Node)
      → occurrences m ns ≡ 0
      → (refs m t'.instructions ≡ refs m t.instructions)
        × (state_for m t'.instructions ≡ state_for m t.instructions)
        × (s'.store.dirty m ≡ s.store.dirty m)
  pub rest : s' ≡ with_counters s s'.store.dirty s'.ntxnrefs s'.next_id

module _ (q : Node → ℕ) (n : Node) (ns : List Node) (t t1 t2 : Transaction) (s s1 s2 : Server)
    (a : Added q n t t1 s s1) (once : (m : Node) → refs m t.instructions ≤ 1) where
  cleared_rest :
      clear_dirty n s1 ≡ with_counters s (update_node s.store.dirty n false) s1.ntxnrefs s1.next_id
  unfolding clear_dirty
  cleared_rest =
      ap
        (λ (x : Server). record x {
          store = record x.store { dirty = update_node x.store.dirty n false };
        })
        a.rest

  cleared_copy : (m : Node) → copy_state m (clear_dirty n s1) ≡ copy_state m s
  cleared_copy m = ap (copy_state m) cleared_rest ∙ copy_state-with_counters m s _ _ _

  Added-once : (m : Node) → refs m t1.instructions ≤ 1
  Added-once m = elim (Bool-cases (eq_node n m)) [
    | inl hit ↦ omega (arith, a.counts m, ap (λ b. if b then 1 else refs m t.instructions) hit)
    | inr miss ↦
        omega (arith, a.counts m, ap (λ b. if b then 1 else refs m t.instructions) miss, once m)
  ]

  module _ (c : Collected q ns t1 t2 (clear_dirty n s1) s2) where
    cons-taken :
        (m : Node)
        → occurrences m (n ∷ ns) ≢ 0
        → (refs m t2.instructions ≡ 1)
          × (state_for m t2.instructions ≡ some (copy_state m s))
          × (s2.store.dirty m ≡ false)
    cons-taken m h = elim (zero_or (occurrences m ns)) [
      | inr later ↦
          let (one_now, state, clean) = c.taken m later in
          (one_now, state ∙ ap some (cleared_copy m), clean)
      | inl never ↦ elim (Bool-cases (eq_node n m)) [
        | inr miss ↦ absurd (h (omega (arith, never, ap one miss)))
        | inl hit ↦
            let (same, state, dirty) = c.left m never in
            (
              same ∙ a.counts m ∙ ap (λ b. if b then 1 else refs m t.instructions) hit,
              state
                  ∙ a.states m
                  ∙ ap (λ b. if b then some (copy_state n s) else state_for m t.instructions) hit
                  ∙ ap (λ x. some (copy_state x s)) (eq_of_node n m hit),
              dirty
                  ∙ ap (λ x. x.store.dirty m) cleared_rest
                  ∙ ap (λ b. if b then false else s.store.dirty m) hit,
            )
      ]
    ]
      where
        zero_or : (k : ℕ) → (k ≡ 0) ⊎ (k ≢ 0)
        zero_or zero = inl refl
        zero_or (suc k) = inr (λ e. omega (arith, e))

    cons-left :
        (m : Node)
        → occurrences m (n ∷ ns) ≡ 0
        → (refs m t2.instructions ≡ refs m t.instructions)
          × (state_for m t2.instructions ≡ state_for m t.instructions)
          × (s2.store.dirty m ≡ s.store.dirty m)
    cons-left m h = elim (Bool-cases (eq_node n m)) [
      | inl hit ↦ absurd (omega (arith, h, ap one hit))
      | inr miss ↦
          let (same, state, dirty) = c.left m (omega (arith, h)) in
          (
            same ∙ a.counts m ∙ ap (λ b. if b then 1 else refs m t.instructions) miss,
            state
                ∙ a.states m
                ∙ ap (λ b. if b then some (copy_state n s) else state_for m t.instructions) miss,
            dirty
                ∙ ap (λ x. x.store.dirty m) cleared_rest
                ∙ ap (λ b. if b then false else s.store.dirty m) miss,
          )
    ]

    cons-Collected : Collected q (n ∷ ns) t t2 s s2
    cons-Collected = record {
      once = c.once;
      counted = c.counted;
      taken = cons-taken;
      left = cons-left;
      rest = c.rest ∙ ap (λ x. with_counters x s2.store.dirty s2.ntxnrefs s2.next_id) cleared_rest;
    }

cleared-ntxnrefs : (n : Node) (x : Server) → (clear_dirty n x).ntxnrefs ≡ x.ntxnrefs
unfolding clear_dirty
cleared-ntxnrefs n x = refl

pub add_dirty-Collected :
    (q : Node → ℕ) (ns : List Node) (request : Bool) (t : Transaction) (s : Server)
    → ((m : Node) → s.ntxnrefs m ≡ q m + refs m t.instructions)
    → ((m : Node) → refs m t.instructions ≤ 1)
    → (t' : Transaction) × (s' : Server) × (add_dirty ns request t s ≡ (t', s'))
      × Collected q ns t t' s s'
unfolding add_dirty
add_dirty-Collected q [] request t s counted once = (
  t,
  s,
  refl,
  record {
    once = once;
    counted = counted;
    taken = λ m h. absurd (h refl);
    left = λ m h. (refl, refl, refl);
    rest = refl;
  },
)
add_dirty-Collected q (n ∷ ns) request t s counted once =
    let (t1, s1, run, a) = add_node-Added q n request t s counted once in
    let (t2, s2, run2, c) =
      add_dirty-Collected q ns request t1 (clear_dirty n s1)
        (λ m. ap (λ f. f m) (cleared-ntxnrefs n s1) ∙ a.counted m)
        (Added-once q n ns t t1 t s s1 s a once) in
    (t2, s2, rw run run2, cons-Collected q n ns t t1 t2 s s1 s2 a once c)
