-- ===== src/Transactions/Tally.antt =====
-- How many instructions of a list pass a test, and the fields of nodes.
use scrollfx.Prelude.{
  ℕ, ◌+◌, ◌≡◌, ◌≢◌, refl, sym, ap, ◌∙◌, subst, List, [], ◌∷◌, ◌++◌, Option, none, some, Bool, true,
  false, if◌then◌else◌, arith, Bool-cases, inl, inr, Option-cases,
}
use mathlib.Core.Option.{some-injective, none-ne-some}
use scrollfx.Tree.Count.{one}
use scrollfx.Containers.{Node, eq_node}
use scrollfx.Containers.Dirty.{eq_of_node, eq_node_refl}
use scrollfx.Transactions.{Instruction, NodeState, update_node, update_first}

abbrev pub tally : (Instruction → Bool) → List Instruction → ℕ
tally key [] = 0
tally key (i ∷ is) = one (key i) + tally key is

-- How many instructions are for a node.
abbrev pub refs : Node → List Instruction → ℕ
refs n is = tally (λ i. eq_node i.node n) is

-- The state in the first instruction for a node.
abbrev pub state_for : Node → List Instruction → Option NodeState
state_for n [] = none
state_for n (i ∷ is) = if eq_node i.node n then some i.state else state_for n is

pub tally-append :
    (key : Instruction → Bool) (a b : List Instruction)
    → tally key (a ++ b) ≡ tally key a + tally key b
tally-append key [] b = omega arith
tally-append key (i ∷ a) b = omega (arith, tally-append key a b)

pub state_for-append :
    (n : Node) (a b : List Instruction) → refs n a ≡ 0 → state_for n (a ++ b) ≡ state_for n b
state_for-append n [] b h = refl
state_for-append n (i ∷ a) b h = elim (Bool-cases (eq_node i.node n)) [
  | inl hit ↦ absurd (omega (arith, h, ap one hit))
  | inr miss ↦ rw miss (state_for-append n a b (omega (arith, h)))
]

pub state_for-none : (n : Node) (a : List Instruction) → refs n a ≡ 0 → state_for n a ≡ none
state_for-none n [] h = refl
state_for-none n (i ∷ a) h = elim (Bool-cases (eq_node i.node n)) [
  | inl hit ↦ absurd (omega (arith, h, ap one hit))
  | inr miss ↦ rw miss (state_for-none n a (omega (arith, h)))
]

-- Behind a list that has an instruction for the node, nothing matters.
pub state_for-front :
    (n : Node) (a b : List Instruction) → refs n a ≢ 0 → state_for n (a ++ b) ≡ state_for n a
state_for-front n [] b h = absurd (h refl)
state_for-front n (i ∷ a) b h = elim (Bool-cases (eq_node i.node n)) [
  | inl hit ↦ rw hit refl
  | inr miss ↦ rw miss (state_for-front n a b (λ z. h (omega (arith, z, ap one miss))))
]

pub update_node_self {ℓ} : {A : Type ℓ} (f : Node → A) (n : Node) (v : A) → update_node f n v n ≡ v
update_node_self f n v = rw (eq_node_refl n)

pub update_node_other {ℓ} :
    {A : Type ℓ} (f : Node → A) (n : Node) (v : A) (m : Node)
    → eq_node n m ≡ false
    → update_node f n v m ≡ f m
update_node_other f n v m h = rw h

-- Changing the first instruction for a node: what it does to the counts and the states.
module _ (n : Node) (f : Instruction → Instruction)
    (same : (i : Instruction) → (f i).node ≡ i.node) where
  pub update_first-none : (is : List Instruction) → update_first n f is ≡ none → refs n is ≡ 0
  unfolding update_first
  update_first-none [] h = refl
  update_first-none (i ∷ is) h = elim (Bool-cases (eq_node i.node n)) [
    | inl hit ↦ absurd (none-ne-some (f i ∷ is) (sym h ∙ rw hit refl))
    | inr miss ↦ elim (Option-cases (update_first n f is)) [
      | inl e ↦ omega (arith, ap one miss, update_first-none is e)
      | inr (js, e) ↦ absurd (none-ne-some (i ∷ js) (sym h ∙ rw (miss, e) refl))
    ]
  ]

  pub update_first-some : (is js : List Instruction) → update_first n f is ≡ some js → refs n is ≢ 0
  unfolding update_first
  update_first-some [] js h z = absurd (none-ne-some js h)
  update_first-some (i ∷ is) js h z = elim (Bool-cases (eq_node i.node n)) [
    | inl hit ↦ omega (arith, z, ap one hit)
    | inr miss ↦ elim (Option-cases (update_first n f is)) [
      | inl e ↦ absurd (none-ne-some js (sym (rw (miss, e) refl) ∙ h))
      | inr (ks, e) ↦ update_first-some is ks e (omega (arith, z))
    ]
  ]

  pub update_first-refs :
      (is js : List Instruction)
      → update_first n f is ≡ some js
      → (m : Node) → refs m js ≡ refs m is
  unfolding update_first
  update_first-refs [] js h m = absurd (none-ne-some js h)
  update_first-refs (i ∷ is) js h m = elim (Bool-cases (eq_node i.node n)) [
    | inl hit ↦
        let e = some-injective (f i ∷ is) js (sym (rw hit refl) ∙ h) in
        subst (λ k. refs m k ≡ refs m (i ∷ is)) e (ap (λ x. one (eq_node x m) + refs m is) (same i))
    | inr miss ↦ elim (Option-cases (update_first n f is)) [
      | inl e ↦ absurd (none-ne-some js (sym (rw (miss, e) refl) ∙ h))
      | inr (ks, e) ↦
          let e' = some-injective (i ∷ ks) js (sym (rw (miss, e) refl) ∙ h) in
          subst (λ k. refs m k ≡ refs m (i ∷ is)) e' (omega (arith, update_first-refs is ks e m))
    ]
  ]

  pub update_first-state :
      (v : NodeState)
      → ((i : Instruction) → (f i).state ≡ v)
      → (is js : List Instruction) → update_first n f is ≡ some js
      → (m : Node) → state_for m js ≡ (if eq_node n m then some v else state_for m is)
  unfolding update_first
  update_first-state v put [] js h m = absurd (none-ne-some js h)
  update_first-state v put (i ∷ is) js h m = elim (Bool-cases (eq_node i.node n)) [
    | inl hit ↦
        let e = some-injective (f i ∷ is) js (sym (rw hit refl) ∙ h) in
        subst (λ k. state_for m k ≡ (if eq_node n m then some v else state_for m (i ∷ is))) e
          (subst
            (λ x.
              (if eq_node (f i).node m then some (f i).state else state_for m is)
              ≡ (if eq_node x m then some v else state_for m (i ∷ is)))
            (eq_of_node i.node n hit) (first i m is))
    | inr miss ↦ elim (Option-cases (update_first n f is)) [
      | inl e ↦ absurd (none-ne-some js (sym (rw (miss, e) refl) ∙ h))
      | inr (ks, e) ↦
          let e' = some-injective (i ∷ ks) js (sym (rw (miss, e) refl) ∙ h) in
          let rest = update_first-state v put is ks e m in
          subst (λ k. state_for m k ≡ (if eq_node n m then some v else state_for m (i ∷ is))) e'
            (elim (Bool-cases (eq_node i.node m)) [
              | inr other ↦ rw other rest
              | inl here ↦ rw (here, away n m i.node miss here) refl
            ])
    ]
  ]
    where
      first :
          (i : Instruction) (m : Node) (is : List Instruction)
          → (if eq_node (f i).node m then some (f i).state else state_for m is) ≡ (
              if eq_node i.node m
              then some v
              else (if eq_node i.node m then some i.state else state_for m is))
      first i m is =
          rw (same i, put i)
            (elim (Bool-cases (eq_node i.node m)) [ inl a ↦ rw a refl | inr b ↦ rw b refl ])

      away : (a b c : Node) → eq_node c a ≡ false → eq_node c b ≡ true → eq_node a b ≡ false
      away a b c h k = elim (Bool-cases (eq_node a b)) [
        | inl z ↦ cc (h, subst (λ x. eq_node c x ≡ true) (sym (eq_of_node a b z)) k)
        | inr z ↦ z
      ]
