-- ===== src/ListT/Sort/Order.antt =====
-- What a stable sort is, and what merging two sorted runs gives. Independent of common/list.c.
use scrollfx.Prelude.{
  ◌+◌, length, ◌≡◌, refl, sym, ap, ap₂, ◌∙◌, List, [], ◌∷◌, ◌++◌, append-nil, Bool, true, false,
  ◌&&◌, ◌⊎◌, inl, inr, if◌then◌else◌, arith, Bool-cases,
}
use mathlib.Core.List.{Perm, perm_middle}
use mathlib.Core.List.Perm
use scrollfx.Seq.{Ptr}

-- A comparison function that a sort can use: `le a b` says that `a` may stand before `b`.
pub record TotalPreorder (le : Ptr → Ptr → Bool) : Type 0 where
  pub total : (a b : Ptr) → (le a b ≡ true) ⊎ (le b a ≡ true)
  pub transitive : (a b c : Ptr) → le a b ≡ true → le b c ≡ true → le a c ≡ true

module _ (le : Ptr → Ptr → Bool) where
  abbrev pub Below : Ptr → List Ptr → Type 0
  Below x [] = Unit {0}
  Below x (y ∷ ys) = (le x y ≡ true) × Below x ys

  abbrev pub Sorted : List Ptr → Type 0
  Sorted [] = Unit {0}
  Sorted (x ∷ xs) = Below x xs × Sorted xs

  -- The items that the order does not tell from `v`, in their order.
  abbrev pub keep : Ptr → List Ptr → List Ptr
  keep v [] = []
  keep v (x ∷ xs) = if le x v && le v x then x ∷ keep v xs else keep v xs

  -- The outcomes of a merge that prefers the left run where the order allows both.
  pub data Merged : List Ptr → List Ptr → List Ptr → Type 0 where
    rest_right : (ys : List Ptr) → Merged [] ys ys
    rest_left : (xs : List Ptr) → Merged xs [] xs
    take_left :
        (x y : Ptr) (xs ys out : List Ptr)
        → le x y ≡ true
        → Merged xs (y ∷ ys) out
        → Merged (x ∷ xs) (y ∷ ys) (x ∷ out)
    take_right :
        (x y : Ptr) (xs ys out : List Ptr)
        → le x y ≡ false
        → Merged (x ∷ xs) ys out
        → Merged (x ∷ xs) (y ∷ ys) (y ∷ out)

  -- `ys` is `xs` sorted: in order, the same items, and equal ones in the order they had.
  pub record StablySorts (xs ys : List Ptr) : Type 0 where
    pub sorted : Sorted ys
    pub same_items : Perm xs ys
    pub stable : (v : Ptr) → keep v ys ≡ keep v xs

  keep-append : (v : Ptr) (xs ys : List Ptr) → keep v (xs ++ ys) ≡ keep v xs ++ keep v ys
  keep-append v [] ys = refl
  keep-append v (x ∷ xs) ys = elim (Bool-cases (le x v && le v x)) [
    | inl e ↦ rw e (ap (λ k. x ∷ k) (keep-append v xs ys))
    | inr e ↦ rw e (keep-append v xs ys)
  ]

  Merged-perm : {xs ys out : List Ptr} → Merged xs ys out → Perm (xs ++ ys) out
  Merged-perm (rest_right ys) = Perm.refl ys
  Merged-perm (rest_left xs) = rw append-nil (Perm.refl xs)
  Merged-perm (take_left x y xs ys out e m) = Perm.cons x (Merged-perm m)
  Merged-perm (take_right x y xs ys out e m) =
      Perm.trans (perm_middle (x ∷ xs) ys) (Perm.cons y (Merged-perm m))

  pub Merged-length : {xs ys out : List Ptr} → Merged xs ys out → length out ≡ length xs + length ys
  Merged-length (rest_right ys) = omega arith
  Merged-length (rest_left xs) = omega arith
  Merged-length (take_left x y xs ys out e m) = omega (arith, Merged-length m)
  Merged-length (take_right x y xs ys out e m) = omega (arith, Merged-length m)

  Below-append : (v : Ptr) (xs ys : List Ptr) → Below v xs → Below v ys → Below v (xs ++ ys)
  Below-append v [] ys h k = k
  Below-append v (x ∷ xs) ys h k = (h.0, Below-append v xs ys h.1 k)

  Below-Merged :
      {xs ys out : List Ptr} (v : Ptr) → Merged xs ys out → Below v xs → Below v ys → Below v out
  Below-Merged v (rest_right ys) h k = k
  Below-Merged v (rest_left xs) h k = h
  Below-Merged v (take_left x y xs ys out e m) h k = (h.0, Below-Merged v m h.1 k)
  Below-Merged v (take_right x y xs ys out e m) h k = (k.0, Below-Merged v m h k.1)

  and_right : (a b : Bool) → (a && b) ≡ true → b ≡ true
  and_right a b h = ground arith

  module _ (order : TotalPreorder le) where
    le_of_not : (a b : Ptr) → le a b ≡ false → le b a ≡ true
    le_of_not a b e = elim (order.total a b) [ inl h ↦ cc | inr h ↦ h ]

    Below-mono : (a b : Ptr) (xs : List Ptr) → le a b ≡ true → Below b xs → Below a xs
    Below-mono a b [] e h = tt
    Below-mono a b (x ∷ xs) e h = (order.transitive a b x e h.0, Below-mono a b xs e h.1)

    -- Two sorted runs merge into a sorted one.
    pub Merged-Sorted :
        {xs ys out : List Ptr} → Merged xs ys out → Sorted xs → Sorted ys → Sorted out
    Merged-Sorted (rest_right ys) h k = k
    Merged-Sorted (rest_left xs) h k = h
    Merged-Sorted (take_left x y xs ys out e m) h k =
        (Below-Merged x m h.0 (e, Below-mono x y ys e k.0), Merged-Sorted m h.1 k)
    Merged-Sorted (take_right x y xs ys out e m) h k =
        let down = le_of_not x y e in
        (Below-Merged y m (down, Below-mono y x xs down h.0) k.0, Merged-Sorted m h k.1)

    -- Nothing in a run that starts above `y` equals what equals `y`.
    keep_above :
        (v y x : Ptr) (zs : List Ptr) → le x y ≡ false → le v y ≡ true → Below x zs → keep v zs ≡ []
    keep_above v y x [] gt vy h = refl
    keep_above v y x (z ∷ zs) gt vy h = elim (Bool-cases (le z v)) [
      | inl e ↦
          let wrong : le x y ≡ true = order.transitive x v y (order.transitive x z v h.0 e) vy in cc
      | inr e ↦ rw e (keep_above v y x zs gt vy h.1)
    ]

    le_self : (x : Ptr) → le x x ≡ true
    le_self x = elim (order.total x x) [ inl e ↦ e | inr e ↦ e ]

    -- A merge keeps the order of equal items, those of the left run first.
    Merged-keep :
        {xs ys out : List Ptr} (v : Ptr)
        → Merged xs ys out
        → Sorted xs
        → keep v out ≡ keep v xs ++ keep v ys
    Merged-keep v (rest_right ys) h = refl
    Merged-keep v (rest_left xs) h = sym (append-nil (keep v xs))
    Merged-keep v (take_left x y xs ys out e m) h = elim (Bool-cases (le x v && le v x)) [
      | inl eq ↦ rw eq (ap (λ k. x ∷ k) (Merged-keep v m h.1))
      | inr ne ↦ rw ne (Merged-keep v m h.1)
    ]
    Merged-keep v (take_right x y xs ys out e m) h = elim (Bool-cases (le y v && le v y)) [
      | inl eq ↦
          let none_left : keep v (x ∷ xs) ≡ [] =
            keep_above v y x (x ∷ xs) e (and_right (le y v) (le v y) eq) (le_self x, h.0) in
          rw eq (
            ap (λ k. y ∷ k) (Merged-keep v m h ∙ ap (λ k. k ++ keep v ys) none_left)
            ∙ sym (ap (λ k. k ++ (y ∷ keep v ys)) none_left))
      | inr ne ↦ rw ne (Merged-keep v m h)
    ]

    Below-parts : (v : Ptr) (xs ys : List Ptr) → Below v (xs ++ ys) → Below v xs × Below v ys
    Below-parts v [] ys h = (tt, h)
    Below-parts v (x ∷ xs) ys h = let (l, r) = Below-parts v xs ys h.1 in ((h.0, l), r)

    -- Two runs that are in order across the border need no merge.
    pub Merged-of_ordered :
        (a : List Ptr) (x y : Ptr) (b : List Ptr)
        → Sorted (a ++ x ∷ [])
        → le x y ≡ true
        → Merged (a ++ x ∷ []) (y ∷ b) ((a ++ x ∷ []) ++ y ∷ b)
    Merged-of_ordered [] x y b h e = take_left x y [] b (y ∷ b) e (rest_right (y ∷ b))
    Merged-of_ordered (z ∷ a) x y b h e =
        take_left z y (a ++ x ∷ []) b ((a ++ x ∷ []) ++ y ∷ b)
          (order.transitive z x y (Below-parts z a (x ∷ []) h.0).1.0 e)
          (Merged-of_ordered a x y b h.1 e)

    -- Sorting both halves and merging them sorts the whole.
    pub StablySorts-merge :
        {xs ys xs' ys' out : List Ptr}
        → StablySorts xs xs'
        → StablySorts ys ys'
        → Merged xs' ys' out
        → StablySorts (xs ++ ys) out
    StablySorts-merge {xs} {ys} {xs'} {ys'} {out} p q m = record {
      sorted = Merged-Sorted m p.sorted q.sorted;
      same_items = Perm.trans (Perm.append p.same_items q.same_items) (Merged-perm m);
      stable = λ v.
          Merged-keep v m p.sorted ∙ ap₂ ◌++◌ (p.stable v) (q.stable v) ∙ sym (keep-append v xs ys);
    }

    pub StablySorts-single : (x : Ptr) → StablySorts (x ∷ []) (x ∷ [])
    StablySorts-single x = record {
      sorted = (tt, tt);
      same_items = Perm.refl _;
      stable = λ v. refl;
    }

    pub StablySorts-nil : StablySorts [] []
    StablySorts-nil = record { sorted = tt; same_items = Perm.refl []; stable = λ v. refl }
