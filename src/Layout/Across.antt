-- ===== src/Layout/Across.antt =====
-- `move_container_before` and `move_container_after` from one workspace to another.
use scrollfx.Prelude.{
  ℕ, suc, ◌+◌, ◌<◌, ◌≡◌, ◌≢◌, refl, sym, ap, ap₂, subst, ◌∙◌, inl, inr, List, [], ◌∷◌, ◌++◌, some,
  ◌==◌, ◌>>=◌, ℤ, pos, negsuc, length, length-append, append_assoc, pos_succ, arith, ne→==,
  Bool-cases,
}
use std.Path.{fun_ext}
use scrollfx.Seq.{Ptr, find, insert, delete}
use scrollfx.Seq.Laws.{find_cases, insert-append, delete-append}
use scrollfx.Tree.{Tree, update, link_tiling, put_items, tiling_of, set_workspaces}
use scrollfx.Tree.Count.{one, count, count-append}
use scrollfx.Tree.Walk.{update_self, update_other, update_same}
use scrollfx.Tree.Forest.{IsForest}
use scrollfx.Tree.Detach.{cleared, cleared-IsLinked, cleared_but}
use scrollfx.Tree.Removal.{Removed-tiling}
use scrollfx.Tree.Link.{link_tiling-IsForest}
use scrollfx.Containers.{Store, ws, represent, tell, node_set_dirty, workspace_insert_tiling_direct}
use scrollfx.Containers.Forest.{insert_tiling-tree}
use scrollfx.Containers.Unchanged.{dirty-tree, tell-tree}
use scrollfx.Layout.{
  put_tiling, remove_active_parent_container_from_workspace, found_both, move_container_before,
  move_container_after,
}
use scrollfx.Layout.Near.{remove, before, behind, remove-append, before-append, behind-append}

update_twice :
    {A : Type 0} (f : Ptr → A) (p : Ptr) (a b : A) (q : Ptr)
    → update (update f p a) p b q ≡ update f p b q
update_twice f p a b q = elim (Bool-cases (p == q)) [
  | inl hit ↦ rw hit refl
  | inr miss ↦ rw miss refl
]

-- For a container without a parent it does not matter whether its pointers are cleared first.
link_cleared :
    (fuel : ℕ) (w c : Ptr) (ys : List Ptr) (t : Tree)
    → t.parent c ≡ 0
    → link_tiling fuel w c ys (cleared c t) ≡ link_tiling fuel w c ys t
unfolding link_tiling
link_cleared fuel w c ys t top =
    ap₂
      (λ f g.
        set_workspaces fuel c
          (record t { parent = f; workspace = g; tiling = update t.tiling w ys }))
      (fun_ext (λ q. ap (λ a. update t.parent c a q) (sym top) ∙ update_same t.parent c q))
      (fun_ext (update_twice t.workspace c 0 w))

-- What the move leaves: the container has left the list of `old`, and `w` has the list `zs`.
pub record Crossed (rank : Ptr → ℕ) (c old w : Ptr) (zs : List Ptr) (t t' : Tree) : Type 0 where
  pub forest : IsForest t' rank
  pub same_parent : t'.parent ≡ t.parent
  pub moved : t'.workspace c ≡ w
  pub left : t'.tiling old ≡ remove c (t.tiling old)
  pub came : t'.tiling w ≡ zs
  pub others : (v : Ptr) → old ≢ v → w ≢ v → t'.tiling v ≡ t.tiling v

module _ (old : Ptr) (s : Store) where
  taken-tree :
      (i : ℤ) (ys : List Ptr)
      → delete (s.tree.tiling old) i ≡ some ys
      → (s1 : Store) × (remove_active_parent_container_from_workspace i old s ≡ some s1)
        × (s1.tree ≡ put_items s.tree (tiling_of old) ys)
  unfolding remove_active_parent_container_from_workspace put_tiling put_items
  taken-tree i ys run = (
    node_set_dirty (ws old) (tell (represent (ws old)) (put_tiling old ys s)),
    rw run refl,
    dirty-tree (ws old) _ ∙ tell-tree _ _,
  )

-- The list without its first `c`, and its counts.
pub taken :
    (xs : List Ptr) (c : Ptr)
    → find xs c ≢ negsuc 0
    → (i : ℕ) × (find xs c ≡ pos i)
      × (delete xs (pos i) ≡ some (remove c xs))
      × ((q : Ptr) → count q (remove c xs) + one (c == q) ≡ count q xs)
taken xs c h = elim (find_cases xs c) [
  | inl (e, _) ↦ absurd (h e)
  | inr (a, b, e, f, absent) ↦
      let rest = ap (remove c) e ∙ remove-append a b c absent in
      (
        length a,
        f,
        delete-append xs a b c (length a) e refl ∙ ap some (sym rest),
        λ q. omega (
          arith,
          ap (count q) e,
          ap (count q) rest,
          count-append q a b,
          count-append q a (c ∷ b),
        ),
      )
]

-- The lists with `c` next to `t`, and their counts.
pub next_to :
    (xs : List Ptr) (c t : Ptr)
    → find xs t ≢ negsuc 0
    → (i : ℕ) × (find xs t ≡ pos i)
      × (insert xs (pos i) c ≡ some (before c t xs))
      × (insert xs (pos (suc i)) c ≡ some (behind c t xs))
      × ((q : Ptr) → count q (before c t xs) ≡ count q xs + one (c == q))
      × ((q : Ptr) → count q (behind c t xs) ≡ count q xs + one (c == q))
next_to xs c t h = elim (find_cases xs t) [
  | inl (e, _) ↦ absurd (h e)
  | inr (a, b, e, f, absent) ↦
      let front = ap (before c t) e ∙ before-append a b c t absent in
      let back = ap (behind c t) e ∙ behind-append a b c t absent in
      (
        length a,
        f,
        insert-append xs a (t ∷ b) c (length a) e refl ∙ ap some (sym front),
        insert-append xs (a ++ t ∷ []) b c (suc (length a)) (e ∙ sym (append_assoc a (t ∷ []) b))
              (omega (arith, length-append a (t ∷ [])))
            ∙ ap some (append_assoc a (t ∷ []) (c ∷ b) ∙ sym back),
        λ q. omega (
          arith,
          ap (count q) e,
          ap (count q) front,
          count-append q a (t ∷ b),
          count-append q a (c ∷ t ∷ b),
        ),
        λ q. omega (
          arith,
          ap (count q) e,
          ap (count q) back,
          count-append q a (t ∷ b),
          count-append q a (t ∷ c ∷ b),
        ),
      )
]

module _ (rank : Ptr → ℕ) (fuel : ℕ) (c t old w : Ptr) (nz : c ≢ 0) (oz : old ≢ 0) (wz : w ≢ 0)
    (differ : old ≢ w) (enough : rank c < fuel) (s : Store) (forest : IsForest s.tree rank)
    (top : s.tree.parent c ≡ 0) (here : s.tree.workspace c ≡ old) (i : ℕ)
    (ci : find (s.tree.tiling old) c ≡ pos i)
    (run : delete (s.tree.tiling old) (pos i) ≡ some (remove c (s.tree.tiling old)))
    (less : (q : Ptr)
      → count q (remove c (s.tree.tiling old)) + one (c == q) ≡ count q (s.tree.tiling old)) where
  crossing :
      (k : ℕ) (zs : List Ptr)
      → insert (s.tree.tiling w) (pos k) c ≡ some zs
      → ((q : Ptr) → count q zs ≡ count q (s.tree.tiling w) + one (c == q))
      → (s' : Store) × ((do
        s1 ← remove_active_parent_container_from_workspace (pos i) old s
        workspace_insert_tiling_direct fuel w c (pos k) s1)
          ≡ some s')
        × Crossed rank c old w zs s.tree s'.tree
  unfolding put_items
  crossing k zs put counts =
      let ys = remove c (s.tree.tiling old) in
      let (s1, run1, same1) = taken-tree old s (pos i) ys run in
      let t1 = put_items s.tree (tiling_of old) ys in
      let r = Removed-tiling s.tree c old (s.tree.tiling old) ys top here oz less refl in
      let list = update_other s.tree.tiling old ys w differ in
      let (t', run2, forest', up, over, tilings) =
        link_tiling-IsForest (cleared c t1) rank (cleared-IsLinked s.tree t1 rank forest c nz r) c
          nz
          (λ q n under. elim (cleared_but s.tree t1 rank forest c nz r q n) [
            | inl e ↦ absurd (under e)
            | inr e ↦ e
          ])
          (update_self s.tree.parent c 0) (update_self s.tree.workspace c 0) zs w wz
          (s.tree.tiling w) counts fuel enough list in
      let (s', run3, same) =
        insert_tiling-tree fuel w c (pos k) s1 zs t'
          (ap (λ u. insert (u.tiling w) (pos k) c) same1 ∙ ap (λ l. insert l (pos k) c) list ∙ put)
          (ap (link_tiling fuel w c zs) same1 ∙ sym (link_cleared fuel w c zs t1 top) ∙ run2) in
      (
        s',
        rw (run1, run3) refl,
        subst (Crossed rank c old w zs s.tree) (sym same) (record {
          forest = forest';
          same_parent =
              up
              ∙ fun_ext (λ q.
                ap (λ a. update s.tree.parent c a q) (sym top) ∙ update_same s.tree.parent c q);
          moved = over;
          left =
              ap (λ g. g old) tilings
              ∙ update_other (update s.tree.tiling old ys) w zs old (λ z. differ (sym z))
              ∙ update_self s.tree.tiling old ys;
          came = ap (λ g. g w) tilings ∙ update_self (update s.tree.tiling old ys) w zs;
          others = λ v no nw.
              ap (λ g. g v) tilings
              ∙ update_other (update s.tree.tiling old ys) w zs v nw
              ∙ update_other s.tree.tiling old ys v no;
        }),
      )

  moves :
      (k : ℕ)
      → find (s.tree.tiling w) t ≡ pos k
      → (s1 s2 : Store)
      → (do
        s' ← remove_active_parent_container_from_workspace (pos i) old s
        workspace_insert_tiling_direct fuel w c (pos k) s')
        ≡ some s1
      → (do
        s' ← remove_active_parent_container_from_workspace (pos i) old s
        workspace_insert_tiling_direct fuel w c (pos (suc k)) s')
        ≡ some s2
      → (move_container_before fuel c t w s ≡ some s1)
        × (move_container_after fuel c t w s ≡ some s2)
  unfolding move_container_before move_container_after found_both
  moves k g s1 s2 run1 run2 = (
    rw (here, ne→== old 0 oz, ci, g, ne→== old w differ) run1,
    rw (here, ne→== old 0 oz, ci, g, ne→== old w differ, pos_succ k) run2,
  )

module _ (rank : Ptr → ℕ) (fuel : ℕ) (c t old w : Ptr) (nz : c ≢ 0) (oz : old ≢ 0) (wz : w ≢ 0)
    (differ : old ≢ w) (enough : rank c < fuel) (s : Store) (forest : IsForest s.tree rank) where
  -- `move_container_before` and `move_container_after` of a tiling container without a parent, whose
  -- height is below the fuel, to a container in the list of another workspace, return. The container leaves the list of its old
  -- workspace and stands directly in front of, or behind, the other one; the tree stays a forest,
  -- with the parents that it had, in which the container has the new workspace.
  pub move_container-Crossed :
      s.tree.parent c ≡ 0
      → s.tree.workspace c ≡ old
      → find (s.tree.tiling old) c ≢ negsuc 0
      → find (s.tree.tiling w) t ≢ negsuc 0
      → ((s' : Store) × (move_container_before fuel c t w s ≡ some s')
          × Crossed rank c old w (before c t (s.tree.tiling w)) s.tree s'.tree)
        × ((s' : Store) × (move_container_after fuel c t w s ≡ some s')
            × Crossed rank c old w (behind c t (s.tree.tiling w)) s.tree s'.tree)
  move_container-Crossed top here hc ht =
      let (i, f, run, less) = taken (s.tree.tiling old) c hc in
      let (k, g, front, back, more, more') = next_to (s.tree.tiling w) c t ht in
      let go = crossing rank fuel c t old w nz oz wz differ enough s forest top here i f run less in
      let (s1, run1, crossed1) = go k (before c t (s.tree.tiling w)) front more in
      let (s2, run2, crossed2) = go (suc k) (behind c t (s.tree.tiling w)) back more' in
      let both =
        moves rank fuel c t old w nz oz wz differ enough s forest top here i f run less k g s1 s2
          run1 run2 in
      ((s1, both.0, crossed1), (s2, both.1, crossed2))
