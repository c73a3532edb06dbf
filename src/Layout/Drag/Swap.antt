-- ===== src/Layout/Drag/Swap.antt =====
-- `swap_views`: two views with different parents.
use scrollfx.Prelude.{
  ◌≡◌, ◌≢◌, refl, sym, ap, subst, ◌∙◌, inl, inr, List, [], ◌∷◌, ◌++◌, some, ◌==◌, if◌then◌else◌,
  negsuc, length, ne→==, ==_refl,
}
use scrollfx.Seq.{Ptr, find, insert, delete}
use scrollfx.Seq.Laws.{Absent, find_cases, insert-append, delete-append}
use scrollfx.Tree.{Tree, update}
use scrollfx.Tree.Walk.{update_self, update_other}
use scrollfx.Containers.{Store, con, represent, tell, node_set_dirty}
use scrollfx.Containers.Unchanged.{tell-tree, dirty-tree}
use scrollfx.Layout.Drag.{put_children, children_list, exchange_pointers, swap_cousins, swap_views}

-- A list with `d` in the place of the first `c`.
unfoldable pub replace : Ptr → Ptr → List Ptr → List Ptr
replace c d [] = []
replace c d (x ∷ xs) = if x == c then d ∷ xs else x ∷ replace c d xs

replace-append : (a b : List Ptr) (c d : Ptr) → Absent c a → replace c d (a ++ c ∷ b) ≡ a ++ d ∷ b
unfolding replace
replace-append [] b c d h = rw (==_refl c) refl
replace-append (x ∷ a) b c d h = rw (ne→== x c h.0) (ap (λ k. x ∷ k) (replace-append a b c d h.1))

-- Taking an item out and putting another one in at its index.
exchanged :
    (xs : List Ptr) (c d : Ptr)
    → find xs c ≢ negsuc 0
    → (ys : List Ptr) × (delete xs (find xs c) ≡ some ys)
      × (insert ys (find xs c) d ≡ some (replace c d xs))
exchanged xs c d h = elim (find_cases xs c) [
  | inl (e, _) ↦ absurd (h e)
  | inr (a, b, e, f, absent) ↦ (
    a ++ b,
    ap (delete xs) f ∙ delete-append xs a b c (length a) e refl,
    ap (λ i. insert (a ++ b) i d) f
        ∙ insert-append (a ++ b) a b d (length a) refl refl
        ∙ ap some (sym (ap (replace c d) e ∙ replace-append a b c d absent)),
  )
]

-- The two views have changed places, with their pointers, and nothing else of the tree has changed.
pub record Swapped (c d : Ptr) (xs ys : List Ptr) (t t' : Tree) : Type 0 where
  pub first_list : t'.children (t.parent c) ≡ some (replace c d xs)
  pub second_list : t'.children (t.parent d) ≡ some (replace d c ys)
  pub other_lists : (p : Ptr) → t.parent c ≢ p → t.parent d ≢ p → t'.children p ≡ t.children p
  pub first_parent : t'.parent c ≡ t.parent d
  pub second_parent : t'.parent d ≡ t.parent c
  pub first_workspace : t'.workspace c ≡ t.workspace d
  pub second_workspace : t'.workspace d ≡ t.workspace c
  pub others :
      (q : Ptr) → c ≢ q → d ≢ q → (t'.parent q ≡ t.parent q) × (t'.workspace q ≡ t.workspace q)
  pub same_tiling : t'.tiling ≡ t.tiling
  pub same_floating : t'.floating ≡ t.floating

module _ (c d : Ptr) (t : Tree) (xs ys : List Ptr) (differ : t.parent c ≢ t.parent d) where
  c-ne-d : c ≢ d
  c-ne-d e = differ (ap (λ x. t.parent x) e)

  Swapped-tree : Swapped c d xs ys t (
      exchange_pointers c d
        (put_children (t.parent d) (replace d c ys) (put_children (t.parent c) (replace c d xs) t)))
  unfolding exchange_pointers put_children
  Swapped-tree = record {
    first_list =
        update_other (update t.children (t.parent c) (some (replace c d xs))) (t.parent d)
          (some (replace d c ys)) (t.parent c) (λ z. differ (sym z))
        ∙ update_self t.children (t.parent c) (some (replace c d xs));
    second_list =
        update_self (update t.children (t.parent c) (some (replace c d xs))) (t.parent d)
          (some (replace d c ys));
    other_lists = λ p n n'.
        update_other (update t.children (t.parent c) (some (replace c d xs))) (t.parent d)
          (some (replace d c ys)) p n'
        ∙ update_other t.children (t.parent c) (some (replace c d xs)) p n;
    first_parent =
        update_other (update t.parent c (t.parent d)) d (t.parent c) c (λ z. c-ne-d (sym z))
        ∙ update_self t.parent c (t.parent d);
    second_parent = update_self (update t.parent c (t.parent d)) d (t.parent c);
    first_workspace = update_self (update t.workspace d (t.workspace c)) c (t.workspace d);
    second_workspace =
        update_other (update t.workspace d (t.workspace c)) c (t.workspace d) d c-ne-d
        ∙ update_self t.workspace d (t.workspace c);
    others = λ q n n'. (
      update_other (update t.parent c (t.parent d)) d (t.parent c) q n'
          ∙ update_other t.parent c (t.parent d) q n,
      update_other (update t.workspace d (t.workspace c)) c (t.workspace d) q n
          ∙ update_other t.workspace d (t.workspace c) q n',
    );
    same_tiling = refl;
    same_floating = refl;
  }

-- `swap_views` of two views with different parents, each in the list of its parent, returns: each
-- stands at the place of the other in the other's list, with the other's parent and workspace, and
-- nothing else of the tree changes.
pub swap_views-Swapped :
    (c d : Ptr) (s : Store) (xs ys : List Ptr)
    → s.tree.parent c ≢ s.tree.parent d
    → s.tree.parent c ≢ 0
    → s.tree.parent d ≢ 0
    → s.tree.children (s.tree.parent c) ≡ some xs
    → s.tree.children (s.tree.parent d) ≡ some ys
    → find xs c ≢ negsuc 0
    → find ys d ≢ negsuc 0
    → (s' : Store) × (swap_views c d s ≡ some s') × Swapped c d xs ys s.tree s'.tree
unfolding swap_views swap_cousins children_list
swap_views-Swapped c d s xs ys differ pz qz e e' hc hd =
    let (xs1, out1, in1) = exchanged xs c d hc in
    let (ys1, out2, in2) = exchanged ys d c hd in
    let p = s.tree.parent c in
    let q = s.tree.parent d in
    let t =
      exchange_pointers c d
        (put_children q (replace d c ys) (put_children p (replace c d xs) s.tree)) in
    let s1 = tell (represent (con p)) (record s { tree = t }) in
    let s2 = node_set_dirty (con p) s1 in
    let s3 = node_set_dirty (con q) (tell (represent (con q)) s2) in
    let same =
      dirty-tree (con q) _
      ∙ tell-tree (represent (con q)) s2
      ∙ dirty-tree (con p) s1
      ∙ tell-tree (represent (con p)) _ in
    (
      s3,
      rw (ne→== p 0 pz, ne→== q 0 qz, e, e', ne→== p q differ, out1, out2, in1, in2) refl,
      subst (Swapped c d xs ys s.tree) (sym same) (Swapped-tree c d s.tree xs ys differ),
    )
