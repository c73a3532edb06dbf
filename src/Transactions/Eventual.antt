-- ===== src/Transactions/Eventual.antt =====
-- The states that the nodes have once all transactions are over, and the nodes whose memory is
-- given back then.
use scrollfx.Prelude.{
  ℕ, zero, suc, ◌+◌, ◌≡◌, ◌≢◌, refl, sym, ap, ap₂, ◌∙◌, subst, Option, none, some, true, arith, inl,
  inr, ◌⊎◌,
}
use scrollfx.Containers.{Node}
use scrollfx.Containers.Dirty.{occurrences}
use scrollfx.Transactions.{
  NodeState, Transaction, Server, Env, instructions_of, transaction_progress,
}
use scrollfx.Transactions.Tally.{refs, state_for}
use scrollfx.Transactions.Finish.{or_old}
use scrollfx.Transactions.Balance.{IsBalanced, IsSettled, Finished}
use scrollfx.Transactions.Start.{Started}
use scrollfx.Transactions.Progress.{Progressed, rests, ended, followed, both, progress-Progressed}

-- The instructions of the queued transaction are applied first, and then the pending ones.
abbrev pub eventual : Node → Server → NodeState
eventual m s =
    or_old (state_for m (instructions_of s.pending_transaction))
      (or_old (state_for m (instructions_of s.queued_transaction)) (s.current m))

-- Positive if the node is in a transaction or has been freed.
abbrev pub owed : Node → Server → ℕ
owed m s =
    refs m (instructions_of s.queued_transaction)
    + refs m (instructions_of s.pending_transaction)
    + occurrences m s.freed

-- What `transaction_progress` never changes.
pub record Moved (s s' : Server) : Type 0 where
  pub same_store : s'.store ≡ s.store
  pub same_eventual : (m : Node) → eventual m s' ≡ eventual m s
  pub same_owed : (m : Node) → s.store.destroying m ≡ true → owed m s ≢ 0 → owed m s' ≢ 0

pub Moved-trans : (a b c : Server) → Moved a b → Moved b c → Moved a c
Moved-trans a b c f g = record {
  same_store = g.same_store ∙ f.same_store;
  same_eventual = λ m. g.same_eventual m ∙ f.same_eventual m;
  same_owed =
      λ m d h. g.same_owed m (ap (λ x. x.destroying m) f.same_store ∙ d) (f.same_owed m d h);
}

zero_or : (k : ℕ) → (k ≡ 0) ⊎ (k ≢ 0)
zero_or zero = inl refl
zero_or (suc k) = inr (λ z. omega (arith, z))

-- The counts of a node in an optional transaction that is known.
refs_in :
    (m : Node) {q r : Option Transaction}
    → q ≡ r
    → refs m (instructions_of q) ≡ refs m (instructions_of r)
refs_in m = ap (λ o. refs m (instructions_of o))

state_in :
    (m : Node) {q r : Option Transaction}
    → q ≡ r
    → state_for m (instructions_of q) ≡ state_for m (instructions_of r)
state_in m = ap (λ o. state_for m (instructions_of o))

Finished-Moved :
    (t : Transaction) (s s' : Server) → s.queued_transaction ≡ some t → Finished t s s' → Moved s s'
Finished-Moved t s s' queued f = record {
  same_store = f.same_store;
  same_eventual = λ m. ap₂ or_old (state_in m f.same_pending) (
      ap₂ or_old (state_in m f.no_queued) (f.currents m)
      ∙ ap (λ o. or_old o (s.current m)) (sym (state_in m queued)));
  same_owed = λ m d h. elim (zero_or (refs m t.instructions)) [
    | inl absent ↦
        λ z. h (omega (arith, z, refs_in m f.same_pending, refs_in m queued, absent, f.stays m))
    | inr there ↦ elim (zero_or (refs m (instructions_of s.pending_transaction))) [
      | inl alone ↦ λ z. omega (arith, z, f.ends m there d alone)
      | inr later ↦ λ z. later (omega (arith, z, refs_in m f.same_pending))
    ]
  ];
}

pub Started-Moved :
    (e : Env) (p : Transaction) (s s' : Server)
    → s.queued_transaction ≡ none
    → s.pending_transaction ≡ some p
    → Started e p s s'
    → Moved s s'
Started-Moved e p s s' idle pending b = record {
  same_store = b.same_store;
  same_eventual = λ m.
      ap
        (λ o.
          or_old o (or_old (state_for m (instructions_of s'.queued_transaction)) (s'.current m)))
        (state_in m b.no_pending)
      ∙ ap₂ or_old (state_in m b.queued ∙ b.states m ∙ sym (state_in m pending))
          (ap (λ x. x m) b.same_current ∙ ap (λ o. or_old o (s.current m)) (sym (state_in m idle)));
  same_owed = λ m d h z. h (
      omega (
        arith,
        z,
        refs_in m b.no_pending,
        refs_in m b.queued,
        b.counts m,
        refs_in m pending,
        refs_in m idle,
        ap (occurrences m) b.same_freed,
      ));
}

module _ (e : Env) where
  pub Progressed-Moved : (s s' : Server) → Progressed e s s' → Moved s s'
  Progressed-Moved s s' (rests same waiting) =
      subst (Moved s) (sym same)
        (record { same_store = refl; same_eventual = λ m. refl; same_owed = λ m d h. h })
  Progressed-Moved s s' (ended t queued alone f) = Finished-Moved t s s' queued f
  Progressed-Moved s s' (followed t p m queued pending f b waiting) =
      Moved-trans s m s' (Finished-Moved t s m queued f)
        (Started-Moved e p m s' f.no_queued (f.same_pending ∙ pending) b)
  Progressed-Moved s s' (both t p m n queued pending f b g) =
      Moved-trans s m s' (Finished-Moved t s m queued f) (
        Moved-trans m n s' (Started-Moved e p m n f.no_queued (f.same_pending ∙ pending) b)
          (Finished-Moved b.transaction n s' b.queued g))

  -- How the current states change: not at all, by the whole queued transaction, or by that and then
  -- the whole pending one.
  abbrev pub IsWhole : Server → Server → Type 0
  IsWhole s s' =
      ((m : Node) → s'.current m ≡ s.current m)
      ⊎ ((m : Node)
          → s'.current m
            ≡ or_old (state_for m (instructions_of s.queued_transaction)) (s.current m))
      ⊎ ((m : Node) → s'.current m ≡ eventual m s)

  Progressed-IsWhole : (s s' : Server) → Progressed e s s' → IsWhole s s'
  Progressed-IsWhole s s' (rests same waiting) = inl (λ m. ap (λ x. x.current m) same)
  Progressed-IsWhole s s' (ended t queued alone f) =
      inr (inl (λ m. f.currents m ∙ ap (λ o. or_old o (s.current m)) (sym (state_in m queued))))
  Progressed-IsWhole s s' (followed t p m queued pending f b waiting) = inr (
      inl (λ n.
        ap (λ x. x n) b.same_current
        ∙ f.currents n
        ∙ ap (λ o. or_old o (s.current n)) (sym (state_in n queued))))
  Progressed-IsWhole s s' (both t p m n queued pending f b g) = inr (
      inr (λ k.
        g.currents k
        ∙ ap₂ or_old (b.states k ∙ sym (state_in k pending)) (
            ap (λ x. x k) b.same_current
            ∙ f.currents k
            ∙ ap (λ o. or_old o (s.current k)) (sym (state_in k queued)))))

  -- When the references are counted and no dirty node is being destroyed, `transaction_progress`
  -- returns with two rounds of fuel or more, and then either no current state has changed, or the
  -- current states have changed by all of the queued transaction, or by all of it and then all of
  -- the pending one. The states that the nodes have in the end are the same as before.
  pub progress-IsWhole :
      (fuel : ℕ) (s : Server)
      → IsBalanced s
      → IsSettled s.store
      → (s' : Server) × (transaction_progress e (suc (suc fuel)) s ≡ some s')
        × IsWhole s s'
        × ((m : Node) → eventual m s' ≡ eventual m s)
  progress-IsWhole fuel s balanced settled =
      let (s', run, p) = progress-Progressed e fuel s balanced settled in
      (s', run, Progressed-IsWhole s s' p, (Progressed-Moved s s' p).same_eventual)
