-- ===== src/Layout/Drag/Adopt.antt =====
-- The loops of `insert_children_before` and `insert_children_after`.
use scrollfx.Prelude.{
  ℕ, zero, suc, ◌+◌, ◌<◌, ◌≡◌, ◌≢◌, refl, sym, ap, ◌∙◌, subst, ◌⊎◌, inl, inr, List, [], ◌∷◌, ◌++◌,
  some, ◌==◌, ◌>>=◌, pos, ◌-ℤ◌, pos_pred, length, length-append, append_assoc, append-nil, arith,
  Bool-cases, ==_iff,
}
use scrollfx.Seq.{Ptr}
use scrollfx.Seq.Laws.{insert-append, delete-append, item-append}
use scrollfx.Tree.{Tree, update}
use scrollfx.Tree.Count.{one, count, count-append}
use scrollfx.Tree.Walk.{update_self, update_other, ne_of_==}
use scrollfx.Layout.Drag.{give, put_children, adopt_last, adopt_before, adopt_first, adopt_after}

-- `target` has got the children `xs` and has the list `zs`, and `container` has none.
pub record Adopted (container target : Ptr) (xs zs : List Ptr) (t t' : Tree) : Type 0 where
  pub now : t'.children target ≡ some zs
  pub empty : t'.children container ≡ some []
  pub other_lists : (p : Ptr) → container ≢ p → target ≢ p → t'.children p ≡ t.children p
  pub new_parent : (q : Ptr) → count q xs ≢ 0 → t'.parent q ≡ target
  pub old_parent : (q : Ptr) → count q xs ≡ 0 → t'.parent q ≡ t.parent q
  pub new_workspace : (q : Ptr) → count q xs ≢ 0 → t'.workspace q ≡ t.workspace target
  pub old_workspace : (q : Ptr) → count q xs ≡ 0 → t'.workspace q ≡ t.workspace q
  pub same_tiling : t'.tiling ≡ t.tiling
  pub same_floating : t'.floating ≡ t.floating

-- One child, `c`, has gone over.
abbrev one_over : Ptr → Ptr → Ptr → List Ptr → List Ptr → Tree → Tree
one_over container target c rest zs t =
    put_children container rest (put_children target zs (give target c t))

module _ (container target : Ptr) (differ : container ≢ target) (t : Tree) (c : Ptr)
    (rest zs : List Ptr) where
  over-children : (one_over container target c rest zs t).children container ≡ some rest
  unfolding put_children
  over-children =
      update_self (put_children target zs (give target c t)).children container (some rest)

  over_target : (one_over container target c rest zs t).children target ≡ some zs
  unfolding put_children
  over_target =
      update_other (put_children target zs (give target c t)).children container (some rest) target
        differ
      ∙ update_self (give target c t).children target (some zs)

  -- The rest of the loop, after `c` went over.
  then-Adopted :
      (xs all more : List Ptr) (t' : Tree)
      → count target all ≡ 0
      → ((q : Ptr) → count q all ≡ one (c == q) + count q xs)
      → Adopted container target xs more (one_over container target c rest zs t) t'
      → Adopted container target all more t t'
  unfolding put_children give
  then-Adopted xs all more t' free counts a = record {
    now = a.now;
    empty = a.empty;
    other_lists = λ p n n'.
        a.other_lists p n n'
        ∙ update_other (put_children target zs (give target c t)).children container (some rest) p n
        ∙ update_other t.children target (some zs) p n';
    new_parent = λ q n. elim (Bool-cases (count q xs == 0)) [
      | inl gone ↦ elim (Bool-cases (c == q)) [
        | inl hit ↦
            a.old_parent q ((==_iff (count q xs) 0).0 gone)
            ∙ ap (update t.parent c target) (sym ((==_iff c q).0 hit))
            ∙ update_self t.parent c target
        | inr miss ↦
            absurd (n (omega (arith, counts q, ap one miss, (==_iff (count q xs) 0).0 gone)))
      ]
      | inr there ↦ a.new_parent q (ne_of_== (count q xs) 0 there)
    ];
    old_parent = λ q z.
        a.old_parent q (omega (arith, counts q, z)) ∙ update_other t.parent c target q (away q z);
    new_workspace = λ q n. elim (Bool-cases (count q xs == 0)) [
      | inl gone ↦ elim (Bool-cases (c == q)) [
        | inl hit ↦
            a.old_workspace q ((==_iff (count q xs) 0).0 gone)
            ∙ ap (update t.workspace c (t.workspace target)) (sym ((==_iff c q).0 hit))
            ∙ update_self t.workspace c (t.workspace target)
        | inr miss ↦
            absurd (n (omega (arith, counts q, ap one miss, (==_iff (count q xs) 0).0 gone)))
      ]
      | inr there ↦
          a.new_workspace q (ne_of_== (count q xs) 0 there)
          ∙ update_other t.workspace c (t.workspace target) target (away target free)
    ];
    old_workspace = λ q z.
        a.old_workspace q (omega (arith, counts q, z))
        ∙ update_other t.workspace c (t.workspace target) q (away q z);
    same_tiling = a.same_tiling;
    same_floating = a.same_floating;
  }
    where
      away : (q : Ptr) → count q all ≡ 0 → c ≢ q
      away q z e = omega (arith, counts q, z, ap one ((==_iff c q).1 e))

snoc_cases : (xs : List Ptr) → (xs ≡ []) ⊎ ((a : List Ptr) × (c : Ptr) × (xs ≡ a ++ c ∷ []))
snoc_cases [] = inl refl
snoc_cases (x ∷ xs) = elim (snoc_cases xs) [
  | inl e ↦ inr ([], x, ap (λ k. x ∷ k) e)
  | inr (a, c, e) ↦ inr (x ∷ a, c, ap (λ k. x ∷ k) e)
]

-- Nothing to do.
done-Adopted :
    (container target : Ptr) (zs : List Ptr) (t : Tree)
    → t.children container ≡ some []
    → t.children target ≡ some zs
    → Adopted container target [] zs t t
done-Adopted container target zs t e e' = record {
  now = e';
  empty = e;
  other_lists = λ p n n'. refl;
  new_parent = λ q n. absurd (n refl);
  old_parent = λ q n. refl;
  new_workspace = λ q n. absurd (n refl);
  old_workspace = λ q n. refl;
  same_tiling = refl;
  same_floating = refl;
}

module _ (container target : Ptr) (differ : container ≢ target) where
  give-children :
      (c : Ptr) (zs : List Ptr) (t : Tree)
      → (put_children target zs (give target c t)).children container ≡ t.children container
  unfolding put_children give
  give-children c zs t = update_other t.children target (some zs) container (λ z. differ (sym z))

  adopt_first-run :
      (t : Tree) (x : Ptr) (xs ys : List Ptr)
      → t.children container ≡ some (x ∷ xs)
      → t.children target ≡ some ys
      → adopt_first container target x t ≡ some (one_over container target x xs (ys ++ x ∷ []) t)
  unfolding adopt_first
  adopt_first-run t x xs ys e e' =
      rw (e', give-children x (ys ++ x ∷ []) t, e)
        (ap
          (λ o. o >>= (λ rest.
            some
              (put_children container rest (put_children target (ys ++ x ∷ []) (give target x t)))))
          (delete-append (x ∷ xs) [] xs x 0 refl refl))

  adopt_after-run :
      (n : ℕ) (xs ys : List Ptr) (t : Tree)
      → t.children container ≡ some xs
      → t.children target ≡ some ys
      → count target xs ≡ 0
      → length xs < n
      → (t' : Tree) × (adopt_after n container target t ≡ some t')
        × Adopted container target xs (ys ++ xs) t t'
  unfolding adopt_after
  adopt_after-run zero xs ys t e e' free h = absurd (omega (arith, h))
  adopt_after-run (suc n) [] ys t e e' free h = (
    t,
    rw e refl,
    done-Adopted container target (ys ++ []) t e (e' ∙ ap some (sym (append-nil ys))),
  )
  adopt_after-run (suc n) (x ∷ xs) ys t e e' free h =
      let t1 = one_over container target x xs (ys ++ x ∷ []) t in
      let (t', run, a) =
        adopt_after-run n xs (ys ++ x ∷ []) t1
          (over-children container target differ t x xs (ys ++ x ∷ []))
          (over_target container target differ t x xs (ys ++ x ∷ [])) (omega (arith, free))
          (omega (arith, h)) in
      (
        t',
        rw (e, adopt_first-run t x xs ys e e') run,
        subst (λ k. Adopted container target (x ∷ xs) k t t') (append_assoc ys (x ∷ []) xs)
            (then-Adopted container target differ t x xs (ys ++ x ∷ []) xs (x ∷ xs) _ t' free
              (λ q. refl) a),
      )

  last_index : (a : List Ptr) (c : Ptr) → pos (length (a ++ c ∷ [])) -ℤ pos 1 ≡ pos (length a)
  last_index a c =
      ap (λ k. pos k -ℤ pos 1) (omega (arith, length-append a (c ∷ []))) ∙ pos_pred (length a)

  adopt_last-run :
      (t : Tree) (a : List Ptr) (c : Ptr) (ys : List Ptr)
      → t.children container ≡ some (a ++ c ∷ [])
      → t.children target ≡ some ys
      → adopt_last container target c t ≡ some (one_over container target c a (c ∷ ys) t)
  unfolding adopt_last
  adopt_last-run t a c ys e e' =
      rw (e', insert-append ys [] ys c 0 refl refl, give-children c (c ∷ ys) t, e, last_index a c)
        (ap
          (λ o. o >>= (λ rest.
            some (put_children container rest (put_children target (c ∷ ys) (give target c t)))))
          (delete-append (a ++ c ∷ []) a [] c (length a) refl refl ∙ ap some (append-nil a)))

  adopt_before-step :
      (n : ℕ) (t t1 : Tree) (a : List Ptr) (c : Ptr)
      → t.children container ≡ some (a ++ c ∷ [])
      → adopt_last container target c t ≡ some t1
      → adopt_before (suc n) container target t ≡ adopt_before n container target t1
  unfolding adopt_before
  adopt_before-step n t t1 [] c e run = rw (e, last_index [] c, run) refl
  adopt_before-step n t t1 (x ∷ a) c e run =
      rw
        (
          e,
          last_index (x ∷ a) c,
          item-append (x ∷ (a ++ c ∷ [])) (x ∷ a) [] c (suc (length a)) refl refl,
          run,
        )
        refl

  adopt_before-run :
      (n : ℕ) (xs ys : List Ptr) (t : Tree)
      → t.children container ≡ some xs
      → t.children target ≡ some ys
      → count target xs ≡ 0
      → length xs < n
      → (t' : Tree) × (adopt_before n container target t ≡ some t')
        × Adopted container target xs (xs ++ ys) t t'
  unfolding adopt_before
  adopt_before-run zero xs ys t e e' free h = absurd (omega (arith, h))
  adopt_before-run (suc n) xs ys t e e' free h = elim (snoc_cases xs) [
    | inl z ↦
        let e0 = e ∙ ap some z in
        (
          t,
          rw e0 refl,
          subst (λ k. Adopted container target k (k ++ ys) t t) (sym z)
              (done-Adopted container target ys t e0 e'),
        )
    | inr (a, c, z) ↦
        let t1 = one_over container target c a (c ∷ ys) t in
        let counts = λ (q : Ptr). ap (count q) z ∙ count-append q a (c ∷ []) in
        let (t', run, adopted) =
          adopt_before-run n a (c ∷ ys) t1 (over-children container target differ t c a (c ∷ ys))
            (over_target container target differ t c a (c ∷ ys))
            (omega (arith, free, counts target))
            (omega (arith, h, ap length z, length-append a (c ∷ []))) in
        (
          t',
          adopt_before-step n t t1 a c (e ∙ ap some z) (adopt_last-run t a c ys (e ∙ ap some z) e')
              ∙ run,
          subst (λ k. Adopted container target xs k t t')
              (sym (ap (λ k. k ++ ys) z ∙ append_assoc a (c ∷ []) ys))
              (then-Adopted container target differ t c a (c ∷ ys) a xs (a ++ c ∷ ys) t' free
                (λ q. omega (arith, counts q)) adopted),
        )
  ]

-- The loops of `insert_children_before` and `insert_children_after` for two different containers,
-- where the target is not a child of the other, end within one round more than there are children.
-- All children go over to the target: in their order in front of, or behind, the children that
-- it has. They get it as their parent and its workspace, and no other pointer and no other list
-- changes.
pub adopt-Adopted :
    (container target : Ptr) (t : Tree) (xs ys : List Ptr) (n : ℕ)
    → container ≢ target
    → t.children container ≡ some xs
    → t.children target ≡ some ys
    → count target xs ≡ 0
    → length xs < n
    → ((t' : Tree) × (adopt_before n container target t ≡ some t')
        × Adopted container target xs (xs ++ ys) t t')
      × ((t' : Tree) × (adopt_after n container target t ≡ some t')
          × Adopted container target xs (ys ++ xs) t t')
adopt-Adopted container target t xs ys n differ e e' free h = (
  adopt_before-run container target differ n xs ys t e e' free h,
  adopt_after-run container target differ n xs ys t e e' free h,
)
