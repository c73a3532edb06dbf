-- ===== src/Tree/Walk.antt =====
-- `container_for_each_child` with `set_workspace`: it gives every container below one the workspace
-- of that one, and changes nothing else.
use scrollfx.Prelude.{
  ℕ, zero, suc, ◌≤◌, ◌<◌, ◌≡◌, ◌≢◌, refl, sym, ap, ◌∙◌, subst, ◌⊎◌, inl, inr, List, [], ◌∷◌, some,
  false, ◌==◌, arith, ==_refl, ne→==, Bool-cases, ==_iff,
}
use scrollfx.Seq.{Ptr}
use scrollfx.Tree.{Tree, update, kids, set_workspace, set_workspaces, visit}
use scrollfx.Tree.Count.{one, count}

pub ne_of_== : (a b : Ptr) → (a == b) ≡ false → a ≢ b
ne_of_== a b h = ground arith

pub update_self {ℓ} : {A : Type ℓ} (f : Ptr → A) (p : Ptr) (v : A) → update f p v p ≡ v
update_self f p v = rw (==_refl p)

pub update_other {ℓ} :
    {A : Type ℓ} (f : Ptr → A) (p : Ptr) (v : A) (q : Ptr) → p ≢ q → update f p v q ≡ f q
update_other f p v q h = rw (ne→== p q h)

pub update_same {ℓ} : {A : Type ℓ} (f : Ptr → A) (p q : Ptr) → update f p (f p) q ≡ f q
update_same f p q = elim (Bool-cases (p == q)) [
  | inl hit ↦ rw hit (ap f ((==_iff p q).0 hit))
  | inr miss ↦ rw miss
]

-- What a walk below `c` leaves of the workspaces `w`, where `at q` holds for those it starts with.
pub record Walked (t : Tree) (rank : Ptr → ℕ) (c : Ptr) (at : Ptr → Type 0) (w w' : Ptr → Ptr)
    : Type 0 where
  pub kept : (x : Ptr) → rank c ≤ rank x → w' x ≡ w x
  pub tops : (x : Ptr) → t.parent x ≡ 0 → w' x ≡ w x
  pub agree : (q : Ptr) → t.parent q ≢ 0 → at q ⊎ (w q ≡ w (t.parent q)) → w' q ≡ w' (t.parent q)

abbrev pub Below : Tree → Ptr → Ptr → Type 0
Below t c q = t.parent q ≡ c

abbrev pub with_workspace : Tree → (Ptr → Ptr) → Tree
with_workspace t w = record t { workspace = w }

module _ (t : Tree) (rank : Ptr → ℕ) (null : t.parent 0 ≡ 0)
    (held : (p q : Ptr) → p ≢ 0 → count q (kids t p) ≡ one (t.parent q == p))
    (below : (q : Ptr) → t.parent q ≢ 0 → rank q < rank (t.parent q)) where
  abbrev Among : Ptr → List Ptr → Ptr → Type 0
  Among c cs q = (t.parent q ≡ c) × (count q cs ≢ 0)

  abbrev AllBelow : Ptr → List Ptr → Type 0
  AllBelow c [] = Unit {0}
  AllBelow c (x ∷ xs) = (t.parent x ≡ c) × AllBelow c xs

  -- One child: the first of the list has its workspace set, and what is below it is walked.
  module _ (c x : Ptr) (xs : List Ptr) (w w2 w3 : Ptr → Ptr) (nz : c ≢ 0) (e : t.parent x ≡ c)
      (first : Walked t rank x (Below t x) (update w x (w c)) w2)
      (rest : Walked t rank c (Among c xs) w2 w3) where
    lower : rank x < rank c
    lower = subst (λ p. rank x < rank p) e (below x (λ z. nz (sym e ∙ z)))

    x-ne-c : x ≢ c
    x-ne-c h = omega (arith, lower, ap rank h)

    Walked-kept : (y : Ptr) → rank c ≤ rank y → w3 y ≡ w y
    Walked-kept y h =
        rest.kept y h
        ∙ first.kept y (omega (arith, lower))
        ∙ update_other w x (w c) y (λ k. omega (arith, lower, ap rank k))

    Walked-tops : (y : Ptr) → t.parent y ≡ 0 → w3 y ≡ w y
    Walked-tops y h =
        rest.tops y h
        ∙ first.tops y h
        ∙ update_other w x (w c) y (λ k. nz (sym e ∙ ap (λ z. t.parent z) k ∙ h))

    -- What holds of `q` when the other children are still to come.
    Walked-middle :
        (q : Ptr)
        → t.parent q ≢ 0
        → Among c (x ∷ xs) q ⊎ (w q ≡ w (t.parent q))
        → Among c xs q ⊎ (w2 q ≡ w2 (t.parent q))
    Walked-middle q nq h = elim (Bool-cases (x == t.parent q)) [
      | inl hit ↦ inr (first.agree q nq (inl (sym ((==_iff x (t.parent q)).0 hit))))
      | inr miss ↦
          let away = update_other w x (w c) (t.parent q) (ne_of_== x (t.parent q) miss) in
          elim (Bool-cases (x == q)) [
            | inl here ↦
                let is = (==_iff x q).0 here in
                inr (
                  first.agree q nq (
                    inr (
                      ap (update w x (w c)) (sym is)
                      ∙ update_self w x (w c)
                      ∙ ap w (sym (sym (ap (λ z. t.parent z) is) ∙ e))
                      ∙ sym away)))
            | inr other ↦ elim h [
              | inl (pc, n) ↦ inl (pc, λ z. n (omega (arith, ap one other)))
              | inr ok ↦ inr (
                  first.agree q nq
                    (inr (update_other w x (w c) q (ne_of_== x q other) ∙ ok ∙ sym away)))
            ]
          ]
    ]

    Walked-cons : Walked t rank c (Among c (x ∷ xs)) w w3
    Walked-cons = record {
      kept = Walked-kept;
      tops = Walked-tops;
      agree = λ q nq h. rest.agree q nq (Walked-middle q nq h);
    }

  Walked-nil : (c : Ptr) (w : Ptr → Ptr) → Walked t rank c (Among c []) w w
  Walked-nil c w = record {
    kept = λ y h. refl;
    tops = λ y h. refl;
    agree = λ q nq h. elim h [ inl m ↦ absurd (m.1 refl) | inr ok ↦ ok ];
  }

  AllBelow-kids : (c : Ptr) → c ≢ 0 → AllBelow c (kids t c)
  AllBelow-kids c nz = each (kids t c) (λ q h. parent_of q (held c q nz) h)
    where
      parent_of :
          (q : Ptr)
          → count q (kids t c) ≡ one (t.parent q == c)
          → count q (kids t c) ≢ 0
          → t.parent q ≡ c
      parent_of q e n = ground arith

      each : (xs : List Ptr) → ((q : Ptr) → count q xs ≢ 0 → t.parent q ≡ c) → AllBelow c xs
      each [] h = tt
      each (x ∷ xs) h = (
        h x (λ z. omega (arith, z, ap one (==_refl x))),
        each xs (λ q n. h q (λ z. n (omega (arith, z)))),
      )

  set_workspace_lem :
      (x c : Ptr) (w : Ptr → Ptr)
      → c ≢ 0
      → t.parent x ≡ c
      → set_workspace x (with_workspace t w) ≡ some (with_workspace t (update w x (w c)))
  unfolding set_workspace
  set_workspace_lem x c w nz e = rw (e, ne→== c 0 nz) refl

  not_null : (x c : Ptr) → c ≢ 0 → t.parent x ≡ c → x ≢ 0
  not_null x c nz e z = nz (sym e ∙ ap (λ y. t.parent y) z ∙ null)

  Walked-Below :
      (c : Ptr) (w w' : Ptr → Ptr)
      → c ≢ 0
      → Walked t rank c (Among c (kids t c)) w w'
      → Walked t rank c (Below t c) w w'
  Walked-Below c w w' nz h = record {
    kept = h.kept;
    tops = h.tops;
    agree = λ q nq k. h.agree q nq (elim k [
      | inl e ↦
          inl (e, λ z. omega (arith, z, held c q nz, ap (λ p. one (p == c)) e, ap one (==_refl c)))
      | inr ok ↦ inr ok
    ]);
  }

  visit-Walked :
      (fuel : ℕ) (c : Ptr)
      → c ≢ 0
      → ((x : Ptr) (w : Ptr → Ptr)
          → t.parent x ≡ c
          → (w' : Ptr → Ptr) × (set_workspaces fuel x (with_workspace t w)
              ≡ some (with_workspace t w'))
            × Walked t rank x (Below t x) w w')
      → (xs : List Ptr) (w : Ptr → Ptr) → AllBelow c xs
      → (w' : Ptr → Ptr) × (visit (set_workspaces fuel) xs (with_workspace t w)
          ≡ some (with_workspace t w'))
        × Walked t rank c (Among c xs) w w'
  unfolding visit set_workspace
  visit-Walked fuel c nz walk [] w h = (w, refl, Walked-nil c w)
  visit-Walked fuel c nz walk (x ∷ xs) w (e, es) =
      let (w2, run, first) = walk x (update w x (w c)) e in
      let (w3, runs, rest) = visit-Walked fuel c nz walk xs w2 es in
      (w3, rw (set_workspace_lem x c w nz e, run) runs, Walked-cons c x xs w w2 w3 nz e first rest)

  -- With fuel for the height of `c`, the walk returns, and what is below `c` has its workspace.
  pub set_workspaces-Walked :
      (fuel : ℕ) (c : Ptr) (w : Ptr → Ptr)
      → c ≢ 0
      → rank c < fuel
      → (w' : Ptr → Ptr) × (set_workspaces fuel c (with_workspace t w) ≡ some (with_workspace t w'))
        × Walked t rank c (Below t c) w w'
  unfolding set_workspaces
  set_workspaces-Walked zero c w nz h = absurd (omega arith)
  set_workspaces-Walked (suc fuel) c w nz h =
      let (w', run, walked) =
        visit-Walked fuel c nz
          (λ x v e.
            set_workspaces-Walked fuel x v (not_null x c nz e)
              (omega (arith, h, subst (λ p. rank x < rank p) e (below x (λ z. nz (sym e ∙ z))))))
          (kids t c) w (AllBelow-kids c nz) in
      (w', run, Walked-Below c w w' nz walked)
