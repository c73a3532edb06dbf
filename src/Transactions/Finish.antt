-- ===== src/Transactions/Finish.antt =====
-- The end of the queued transaction: `transaction_apply` and `transaction_destroy`.
use scrollfx.Prelude.{
  ℕ, zero, suc, ◌+◌, ◌≤◌, ◌≡◌, ◌≢◌, refl, sym, ap, ap₂, ◌∙◌, List, [], ◌∷◌, ◌++◌, Option, none,
  some, Bool, true, false, ◌==◌, ◌&&◌, if◌then◌else◌, arith, Bool-cases, inl, inr, ◌⊎◌,
}
use scrollfx.Tree.Count.{one}
use scrollfx.Containers.{Node, eq_node}
use scrollfx.Containers.Dirty.{occurrences, occurrences-append, eq_of_node, eq_node_refl}
use scrollfx.Transactions.{
  Instruction, NodeState, Server, update_node, apply, minus_one, release, transaction_destroy,
}
use scrollfx.Transactions.Tally.{refs, state_for, state_for-none}

-- The state from an instruction, or else the old one.
abbrev pub or_old : Option NodeState → NodeState → NodeState
or_old none v = v
or_old (some v) old = v

pub record Applied (is : List Instruction) (s s' : Server) : Type 0 where
  pub currents : (m : Node) → s'.current m ≡ or_old (state_for m is) (s.current m)
  pub cleared : (m : Node) → refs m is ≢ 0 → s'.instruction m ≡ 0
  pub kept : (m : Node) → refs m is ≡ 0 → s'.instruction m ≡ s.instruction m
  pub rest : s' ≡ record s { current = s'.current; instruction = s'.instruction }

pub apply-Applied :
    (is : List Instruction) (s : Server) → ((m : Node) → refs m is ≤ 1) → Applied is s (apply is s)
unfolding apply
apply-Applied [] s once = record {
  currents = λ m. refl;
  cleared = λ m h. absurd (h refl);
  kept = λ m h. refl;
  rest = refl;
}
apply-Applied (i ∷ is) s once =
    let s1 = record s {
      current = update_node s.current i.node i.state;
      instruction = update_node s.instruction i.node 0;
    } in
    let a = apply-Applied is s1 (λ m. omega (arith, once m)) in
    record {
      currents = λ m. elim (Bool-cases (eq_node i.node m)) [
        | inl hit ↦
            a.currents m
            ∙ ap₂ or_old (state_for-none m is (omega (arith, once m, ap one hit)))
                (ap (λ b. if b then i.state else s.current m) hit)
            ∙ sym (ap (λ b. or_old (if b then some i.state else state_for m is) (s.current m)) hit)
        | inr miss ↦
            a.currents m
            ∙ ap (λ b. or_old (state_for m is) (if b then i.state else s.current m)) miss
            ∙ sym (ap (λ b. or_old (if b then some i.state else state_for m is) (s.current m)) miss)
      ];
      cleared = λ m h. elim (zero_or (refs m is)) [
        | inr later ↦ a.cleared m later
        | inl never ↦ elim (Bool-cases (eq_node i.node m)) [
          | inl hit ↦ a.kept m never ∙ ap (λ b. if b then 0 else s.instruction m) hit
          | inr miss ↦ absurd (h (omega (arith, never, ap one miss)))
        ]
      ];
      kept = λ m h. elim (Bool-cases (eq_node i.node m)) [
        | inl hit ↦ absurd (omega (arith, h, ap one hit))
        | inr miss ↦ a.kept m (omega (arith, h)) ∙ ap (λ b. if b then 0 else s.instruction m) miss
      ];
      rest = a.rest;
    }
  where
    zero_or : (k : ℕ) → (k ≡ 0) ⊎ (k ≢ 0)
    zero_or zero = inl refl
    zero_or (suc k) = inr (λ e. omega (arith, e))

minus_one_lem : (k : ℕ) → k ≢ 0 → minus_one k + 1 ≡ k
unfolding minus_one
minus_one_lem zero h = absurd (h refl)
minus_one_lem (suc k) h = omega arith

-- What the loop of `transaction_destroy` leaves.
pub record Destroyed (is : List Instruction) (s s' : Server) : Type 0 where
  pub less : (m : Node) → s'.ntxnrefs m + refs m is ≡ s.ntxnrefs m
  pub nulls : ((m : Node) → s.instruction m ≡ 0) → (m : Node) → s'.instruction m ≡ 0
  pub not_freed : (m : Node) → refs m is ≡ 0 → occurrences m s'.freed ≡ occurrences m s.freed
  pub freed_once :
      (m : Node)
      → refs m is ≢ 0
      → occurrences m s'.freed
        ≡ occurrences m s.freed + one (s.store.destroying m && (s'.ntxnrefs m == 0))
  pub rest :
      s' ≡ record s { ntxnrefs = s'.ntxnrefs; instruction = s'.instruction; freed = s'.freed }

record Released (i : Instruction) (s s' : Server) : Type 0 where
  less : (m : Node) → s'.ntxnrefs m + one (eq_node i.node m) ≡ s.ntxnrefs m
  nulls : ((m : Node) → s.instruction m ≡ 0) → (m : Node) → s'.instruction m ≡ 0
  frees :
      (m : Node)
      → occurrences m s'.freed
        ≡ occurrences m s.freed
          + one (eq_node i.node m && (s.store.destroying m && (s'.ntxnrefs m == 0)))
  rest : s' ≡ record s { ntxnrefs = s'.ntxnrefs; instruction = s'.instruction; freed = s'.freed }

zero_if : (b : Bool) (k : ℕ) → k ≡ 0 → (if b then 0 else k) ≡ 0
zero_if true k h = refl
zero_if false k h = h

pointers_null :
    (b : Bool) (f : Node → ℕ) (n : Node)
    → ((m : Node) → f m ≡ 0)
    → (m : Node) → (if b then update_node f n 0 else f) m ≡ 0
pointers_null true f n h m = zero_if (eq_node n m) (f m) (h m)
pointers_null false f n h m = h m

appended_if :
    (b : Bool) (n m : Node) (ns : List Node)
    → occurrences m (if b then ns ++ n ∷ [] else ns) ≡ occurrences m ns + one (eq_node n m && b)
appended_if true n m ns = occurrences-append m ns (n ∷ []) ∙ ground arith
appended_if false n m ns = ground arith

release-Released :
    (i : Instruction) (s : Server) → s.ntxnrefs i.node ≢ 0 → Released i s (release i s)
unfolding release
release-Released i s some_refs =
    let left = minus_one (s.ntxnrefs i.node) in
    let freed =
      λ (m : Node). appended_if (s.store.destroying i.node && (left == 0)) i.node m s.freed in
    record {
      less = λ m. elim (Bool-cases (eq_node i.node m)) [
        | inl hit ↦
            rw hit (
              minus_one_lem (s.ntxnrefs i.node) some_refs ∙ ap s.ntxnrefs (eq_of_node i.node m hit))
        | inr miss ↦ rw miss (omega arith)
      ];
      nulls = λ h m. pointers_null (s.instruction i.node == i.id) s.instruction i.node h m;
      frees = λ m. freed m ∙ elim (Bool-cases (eq_node i.node m)) [
        | inl hit ↦ rw hit (
            ap (λ x. occurrences m s.freed + one (s.store.destroying x && (left == 0)))
              (eq_of_node i.node m hit))
        | inr miss ↦ rw miss refl
      ];
      rest = refl;
    }

pub destroy-Destroyed :
    (is : List Instruction) (s : Server)
    → ((m : Node) → refs m is ≤ s.ntxnrefs m)
    → ((m : Node) → refs m is ≤ 1)
    → Destroyed is s (transaction_destroy is s)
unfolding transaction_destroy
destroy-Destroyed [] s enough once = record {
  less = λ m. omega arith;
  nulls = λ h. h;
  not_freed = λ m h. refl;
  freed_once = λ m h. absurd (h refl);
  rest = refl;
}
destroy-Destroyed (i ∷ is) s enough once =
    let r =
      release-Released i s (λ z. omega (arith, enough i.node, z, ap one (eq_node_refl i.node))) in
    let s1 = release i s in
    let s2 = transaction_destroy is s1 in
    let d =
      destroy-Destroyed is s1 (λ m. omega (arith, r.less m, enough m))
        (λ m. omega (arith, once m)) in
    let marks = λ (m : Node). ap (λ x. x.store.destroying m) r.rest in
    record {
      less = λ m. omega (arith, r.less m, d.less m);
      nulls = λ h. d.nulls (r.nulls h);
      not_freed = λ m h. elim (Bool-cases (eq_node i.node m)) [
        | inl hit ↦ absurd (omega (arith, h, ap one hit))
        | inr miss ↦
            d.not_freed m (omega (arith, h))
            ∙ r.frees m
            ∙ ap
                (λ b.
                  occurrences m s.freed + one (b && (s.store.destroying m && (s1.ntxnrefs m == 0))))
                miss
            ∙ omega arith
      ];
      freed_once = λ m h. elim (Bool-cases (eq_node i.node m)) [
        | inl hit ↦
            let never : refs m is ≡ 0 = omega (arith, once m, ap one hit) in
            let same : s2.ntxnrefs m ≡ s1.ntxnrefs m = omega (arith, d.less m, never) in
            d.not_freed m never
            ∙ r.frees m
            ∙ ap₂ (λ b k. occurrences m s.freed + one (b && (s.store.destroying m && (k == 0)))) hit
                (sym same)
        | inr miss ↦
            d.freed_once m (λ z. h (omega (arith, z, ap one miss)))
            ∙ ap₂ (λ k b. k + one (b && (s2.ntxnrefs m == 0)))
                (r.frees m
                  ∙ ap
                      (λ b.
                        occurrences m s.freed
                        + one (b && (s.store.destroying m && (s1.ntxnrefs m == 0))))
                      miss
                  ∙ omega arith)
                (marks m)
      ];
      rest =
          d.rest
          ∙ ap
              (λ (x : Server). record x {
                ntxnrefs = s2.ntxnrefs;
                instruction = s2.instruction;
                freed = s2.freed;
              })
              r.rest;
    }
