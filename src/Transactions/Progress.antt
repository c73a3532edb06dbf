-- ===== src/Transactions/Progress.antt =====
-- `transaction_progress`: its outcomes, and what holds when it returns.
use scrollfx.Prelude.{
  ℕ, zero, suc, ◌≡◌, ◌≢◌, refl, sym, ap, ◌∙◌, subst, Option, none, some, Bool, true, false, ◌==◌,
  arith, Option-cases, inl, inr, ◌⊎◌, ==_iff, ne→==,
}
use mathlib.Core.Option.{some-injective, none-ne-some}
use scrollfx.Transactions.{
  Transaction, Server, Env, end_transaction, transaction_commit, transaction_progress, commit_next,
  end_if, progress_with,
}
use scrollfx.Transactions.Balance.{IsBalanced, IsSettled, Finished, finish-Finished}
use scrollfx.Transactions.Start.{Started, commit-Started}

-- The state between two calls: the queued transaction waits, with a timer, and there is a pending
-- one only behind a queued one.
pub record IsResting (s : Server) : Type 0 where
  pub balanced : IsBalanced s
  pub waits : (t : Transaction) → s.queued_transaction ≡ some t → t.num_waiting ≢ 0
  pub timed : (t : Transaction) → s.queued_transaction ≡ some t → t.timer ≡ true
  pub idle : s.queued_transaction ≡ none → s.pending_transaction ≡ none

-- The outcomes: nothing happens; the queued transaction ends, and there is no other; the pending
-- one takes its place; or that one ends, too.
pub data Progressed (e : Env) (s s' : Server) : Type 0 where
  rests :
      s' ≡ s
      → ((t : Transaction) → s.queued_transaction ≡ some t → t.num_waiting ≢ 0)
      → Progressed e s s'
  ended :
      (t : Transaction)
      → s.queued_transaction ≡ some t
      → s.pending_transaction ≡ none
      → Finished t s s'
      → Progressed e s s'
  followed :
      (t p : Transaction) (m : Server)
      → s.queued_transaction ≡ some t
      → s.pending_transaction ≡ some p
      → Finished t s m
      → (b : Started e p m s') → b.transaction.num_waiting ≢ 0
      → Progressed e s s'
  both :
      (t p : Transaction) (m n : Server)
      → s.queued_transaction ≡ some t
      → s.pending_transaction ≡ some p
      → Finished t s m
      → (b : Started e p m n) → Finished b.transaction n s'
      → Progressed e s s'

module _ (e : Env) where
  -- The three ways through the function.
  module _ (fuel : ℕ) (s : Server) where
    abbrev again : Server → Option Server
    again x = transaction_progress e fuel x

    progress_none : s.queued_transaction ≡ none → transaction_progress e (suc fuel) s ≡ some s
    unfolding transaction_progress progress_with
    progress_none h = ap (λ o. progress_with e again o s) h

    module _ (t : Transaction) (h : s.queued_transaction ≡ some t) where
      progress_ready :
          (b : Bool)
          → (t.num_waiting == 0) ≡ b
          → transaction_progress e (suc fuel) s ≡ end_if e again b t s
      unfolding transaction_progress progress_with
      progress_ready b g = ap (λ o. progress_with e again o s) h ∙ ap (λ x. end_if e again x t s) g

      progress_waits : t.num_waiting ≢ 0 → transaction_progress e (suc fuel) s ≡ some s
      unfolding end_if
      progress_waits n = progress_ready false (ne→== t.num_waiting 0 n)

      pub progress_ends :
          t.num_waiting ≡ 0
          → (end_transaction t s).pending_transaction ≡ none
          → transaction_progress e (suc fuel) s ≡ some (end_transaction t s)
      unfolding end_if commit_next
      progress_ends z p =
          progress_ready true ((==_iff t.num_waiting 0).1 z)
          ∙ ap (λ o. commit_next e again o (end_transaction t s)) p

      progress_goes_on :
          (p : Transaction)
          → t.num_waiting ≡ 0
          → (end_transaction t s).pending_transaction ≡ some p
          → transaction_progress e (suc fuel) s
            ≡ transaction_progress e fuel (transaction_commit e p (end_transaction t s))
      unfolding end_if commit_next
      progress_goes_on p z k =
          progress_ready true ((==_iff t.num_waiting 0).1 z)
          ∙ ap (λ o. commit_next e again o (end_transaction t s)) k

  zero_or : (k : ℕ) → (k ≡ 0) ⊎ (k ≢ 0)
  zero_or zero = inl refl
  zero_or (suc k) = inr (λ z. omega (arith, z))

  queued_same :
      (s : Server) (t u : Transaction)
      → s.queued_transaction ≡ some t
      → s.queued_transaction ≡ some u
      → t ≡ u
  queued_same s t u h k = some-injective t u (sym h ∙ k)

  store-IsSettled : (s s' : Server) → s'.store ≡ s.store → IsSettled s.store → IsSettled s'.store
  store-IsSettled s s' h settled = subst IsSettled (sym h) settled

  -- With two rounds of fuel the function returns.
  pub progress-Progressed :
      (fuel : ℕ) (s : Server)
      → IsBalanced s
      → IsSettled s.store
      → (s' : Server) × (transaction_progress e (suc (suc fuel)) s ≡ some s') × Progressed e s s'
  progress-Progressed fuel s balanced settled = elim (Option-cases s.queued_transaction) [
    | inl empty ↦ (
      s,
      progress_none (suc fuel) s empty,
      rests refl (λ t h. absurd (none-ne-some t (sym empty ∙ h))),
    )
    | inr (t, queued) ↦ elim (zero_or t.num_waiting) [
      | inr waiting ↦ (
        s,
        progress_waits (suc fuel) s t queued waiting,
        rests refl (λ u h. subst (λ x. x.num_waiting ≢ 0) (queued_same s t u queued h) waiting),
      )
      | inl ready ↦
          let f = finish-Finished t s balanced queued settled in
          elim (Option-cases s.pending_transaction) [
            | inl alone ↦ (
              end_transaction t s,
              progress_ends (suc fuel) s t queued ready (f.same_pending ∙ alone),
              ended t queued alone f,
            )
            | inr (p, pending) ↦
                let m = end_transaction t s in
                let b = commit-Started e p m f.balanced f.no_queued (f.same_pending ∙ pending) in
                let n = transaction_commit e p m in
                let go =
                  progress_goes_on (suc fuel) s t queued p ready (f.same_pending ∙ pending) in
                elim (zero_or b.transaction.num_waiting) [
                  | inr waiting ↦ (
                    n,
                    go ∙ progress_waits fuel n b.transaction b.queued waiting,
                    followed t p m queued pending f b waiting,
                  )
                  | inl done ↦
                      let g =
                        finish-Finished b.transaction n b.balanced b.queued
                          (store-IsSettled s n (b.same_store ∙ f.same_store) settled) in
                      (
                        end_transaction b.transaction n,
                        go
                            ∙ progress_ends fuel n b.transaction b.queued done
                                (g.same_pending ∙ b.no_pending),
                        both t p m n queued pending f b g,
                      )
                ]
          ]
    ]
  ]

  -- When nothing is pending without a queued transaction, and a queued one that waits has a timer,
  -- this holds afterwards, too.
  pub Progressed-IsResting :
      (s s' : Server)
      → IsBalanced s
      → ((t : Transaction) → s.queued_transaction ≡ some t → t.num_waiting ≢ 0 → t.timer ≡ true)
      → (s.queued_transaction ≡ none → s.pending_transaction ≡ none)
      → Progressed e s s'
      → IsResting s'
  Progressed-IsResting s s' balanced timers idle (rests same waiting) =
      subst IsResting (sym same) (record {
        balanced = balanced;
        waits = waiting;
        timed = λ t h. timers t h (waiting t h);
        idle = idle;
      })
  Progressed-IsResting s s' balanced timers idle (ended t queued alone f) = record {
    balanced = f.balanced;
    waits = λ u h. absurd (none-ne-some u (sym f.no_queued ∙ h));
    timed = λ u h. absurd (none-ne-some u (sym f.no_queued ∙ h));
    idle = λ h. f.same_pending ∙ alone;
  }
  Progressed-IsResting s s' balanced timers idle (followed t p m queued pending f b waiting) =
      record {
        balanced = b.balanced;
        waits = λ u h.
            subst (λ x. x.num_waiting ≢ 0) (queued_same s' b.transaction u b.queued h) waiting;
        timed = λ u h.
            subst (λ x. x.timer ≡ true) (queued_same s' b.transaction u b.queued h)
              (b.timed waiting);
        idle = λ h. b.no_pending;
      }
  Progressed-IsResting s s' balanced timers idle (both t p m n queued pending f b g) = record {
    balanced = g.balanced;
    waits = λ u h. absurd (none-ne-some u (sym g.no_queued ∙ h));
    timed = λ u h. absurd (none-ne-some u (sym g.no_queued ∙ h));
    idle = λ h. g.same_pending ∙ b.no_pending;
  }
