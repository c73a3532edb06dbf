-- ===== src/Layout/Nomode/Detached.antt =====
-- Moving a container with siblings across the layout of its parent.
use scrollfx.Prelude.{
  ℕ, ◌<◌, ◌≡◌, ◌≢◌, refl, sym, ap, ◌∙◌, subst, List, [], ◌∷◌, some, true, false, not, ◌||◌, pos,
  negsuc, ◌+ℤ◌, pos_succ, length, lt→ltb, arith, ne→==,
}
use scrollfx.Seq.{Ptr, find, insert, delete}
use scrollfx.Tree.{Tree, update}
use scrollfx.Tree.Walk.{update_self, update_other}
use scrollfx.Containers.{
  Store, con, ws, represent, tell, node_set_dirty, is_none, container_is_floating,
}
use scrollfx.Containers.Unchanged.{tell-tree, dirty-tree}
use scrollfx.Layout.{
  Direction, dir_invalid, dir_left, dir_right, dir_up, dir_down, dir_begin, dir_end, dir_center,
  dir_middle, LayoutKind, layout_none, layout_horiz, layout_vert, Layouts,
  layout_direction_compute_index, need_to_detach, put_tiling,
}
use scrollfx.Layout.Near.{remove, before, behind}
use scrollfx.Layout.Across.{taken, next_to}
use scrollfx.Layout.Drag.{put_children, children_list, layout_wrap_into_container}
use scrollfx.Layout.Nomode.{
  Inserts, at_least_zero, layer_container_detach, move_out, layout_move_container_nomode,
}

-- A list with `c` next to the first `target`: behind it to the right and down, else in front of it.
unfoldable pub beside : Direction → Ptr → Ptr → List Ptr → List Ptr
beside dir_right c target xs = behind c target xs
beside dir_down c target xs = behind c target xs
beside _ c target xs = before c target xs

ends_stay :
    (k : LayoutKind) → (need_to_detach k dir_begin ≡ false) × (need_to_detach k dir_end ≡ false)
unfolding need_to_detach
ends_stay layout_none = (refl, refl)
ends_stay layout_horiz = (refl, refl)
ends_stay layout_vert = (refl, refl)

module _ (xs : List Ptr) (p fresh : Ptr) (here : find xs p ≢ negsuc 0) where
  front : insert xs (at_least_zero (find xs p)) fresh ≡ some (before fresh p xs)
  front =
      let (i, f, put, _, _, _) = next_to xs fresh p here in
      ap (λ k. insert xs (at_least_zero k) fresh) f ∙ put

  back : insert xs (at_least_zero (find xs p +ℤ pos 1)) fresh ≡ some (behind fresh p xs)
  back =
      let (i, f, _, put, _, _) = next_to xs fresh p here in
      ap (λ k. insert xs (at_least_zero (k +ℤ pos 1)) fresh) f
      ∙ ap (λ k. insert xs (at_least_zero k) fresh) (pos_succ i)
      ∙ put

  insert-beside :
      (dir : Direction) (k : LayoutKind)
      → need_to_detach k dir ≡ true
      → insert xs (at_least_zero (layout_direction_compute_index xs p dir true)) fresh
        ≡ some (beside dir fresh p xs)
  unfolding layout_direction_compute_index beside
  insert-beside dir_invalid k h = front
  insert-beside dir_left k h = front
  insert-beside dir_right k h = back
  insert-beside dir_up k h = front
  insert-beside dir_down k h = back
  insert-beside dir_begin k h = absurd (ground (arith, h, (ends_stay k).0))
  insert-beside dir_end k h = absurd (ground (arith, h, (ends_stay k).1))
  insert-beside dir_center k h = front
  insert-beside dir_middle k h = front

-- `c` has left the list `xs` of its parent for a parent of its own, `fresh`.
pub record Wrapped (c fresh : Ptr) (dir : Direction) (xs : List Ptr) (t t' : Tree) : Type 0 where
  pub left : t'.children (t.parent c) ≡ some (remove c xs)
  pub alone : t'.children fresh ≡ some (c ∷ [])
  pub new_parent : t'.parent c ≡ fresh
  pub others : (q : Ptr) → c ≢ q → t'.parent q ≡ t.parent q
  pub on : t'.workspace fresh ≡ t.workspace c
  pub same_workspaces : (q : Ptr) → fresh ≢ q → t'.workspace q ≡ t.workspace q
  pub top : t'.tiling (t.workspace c) ≡ beside dir fresh (t.parent c) (t.tiling (t.workspace c))

module _ (fresh c : Ptr) (s : Store) (xs : List Ptr) (pz : s.tree.parent c ≢ 0)
    (fresh_one : fresh ≢ s.tree.parent c) (list : s.tree.children (s.tree.parent c) ≡ some xs)
    (inside : find xs c ≢ negsuc 0) where
  abbrev wrapped : Tree
  wrapped = record s.tree {
    children =
        update (update s.tree.children (s.tree.parent c) (some (remove c xs))) fresh
          (some (c ∷ []));
    parent = update s.tree.parent c fresh;
    workspace = update s.tree.workspace fresh (s.tree.workspace c);
  }

  layer_detach-tree :
      (s1 : Store) × (layer_container_detach fresh c s ≡ some s1) × (s1.tree ≡ wrapped)
  unfolding layer_container_detach layout_wrap_into_container put_children children_list
  layer_detach-tree =
      let (i, f, run, _) = taken xs c inside in
      let cut = ap (delete xs) f ∙ run in
      let s1 =
        layout_wrap_into_container fresh c
          (record s { tree = put_children (s.tree.parent c) (remove c xs) s.tree }) in
      (
        node_set_dirty (con (s.tree.parent c)) (tell (represent (con (s.tree.parent c))) s1),
        rw (ne→== (s.tree.parent c) 0 pz, list, cut) refl,
        dirty-tree _ _ ∙ tell-tree _ s1 ∙ dirty-tree _ _ ∙ dirty-tree _ _ ∙ tell-tree _ _,
      )

  module _ (i : Inserts) (l : Layouts) (fuel : ℕ) (dir : Direction)
      (moves : (not (is_none (s.mode c)) || container_is_floating c s) ≡ false)
      (wz : s.tree.workspace c ≢ 0) (siblings : 1 < length xs)
      (across : need_to_detach (l.layout (s.tree.parent c)) dir ≡ true) where
    out-Wrapped :
        find (s.tree.tiling (s.tree.workspace c)) (s.tree.parent c) ≢ negsuc 0
        → (s' : Store) × (move_out dir fresh c s ≡ some (s', true))
          × Wrapped c fresh dir xs s.tree s'.tree
    unfolding move_out put_tiling
    out-Wrapped here =
        let w = s.tree.workspace c in
        let p = s.tree.parent c in
        let zs = beside dir fresh p (s.tree.tiling w) in
        let put = insert-beside (s.tree.tiling w) p fresh here dir (l.layout p) across in
        let (s1, run, same) = layer_detach-tree in
        let put' =
          ap
            (λ t.
              insert (t.tiling w)
                (at_least_zero (layout_direction_compute_index (s.tree.tiling w) p dir true)) fresh)
            same
          ∙ put in
        let s2 = put_tiling w zs s1 in
        let same2 =
          dirty-tree (ws w) s2
          ∙ ap (λ (t : Tree). record t { tiling = update t.tiling w zs }) same in
        (
          node_set_dirty (ws w) s2,
          rw (run, put') refl,
          subst (Wrapped c fresh dir xs s.tree) (sym same2) (record {
            left =
                update_other (update s.tree.children p (some (remove c xs))) fresh (some (c ∷ [])) p
                  fresh_one
                ∙ update_self s.tree.children p (some (remove c xs));
            alone =
                update_self (update s.tree.children p (some (remove c xs))) fresh (some (c ∷ []));
            new_parent = update_self s.tree.parent c fresh;
            others = λ q n. update_other s.tree.parent c fresh q n;
            on = update_self s.tree.workspace fresh w;
            same_workspaces = λ q n. update_other s.tree.workspace fresh w q n;
            top = update_self s.tree.tiling w zs;
          }),
        )

    -- `layout_move_container_nomode` of a container with siblings, which is not fullscreen and not
    -- floating, across the layout of its parent, where the parent is among the tiling containers of
    -- the workspace: it returns true, and the container has left its parent's list for a new
    -- parent, which holds it alone and stands directly behind the old one for a move to the
    -- right or down, and directly in front of it else.
    pub nomode-Wrapped :
        find (s.tree.tiling (s.tree.workspace c)) (s.tree.parent c) ≢ negsuc 0
        → (s' : Store) × (layout_move_container_nomode i l fuel fresh dir c s ≡ some (s', true))
          × Wrapped c fresh dir xs s.tree s'.tree
    unfolding layout_move_container_nomode children_list
    nomode-Wrapped here =
        let (s', run, w) = out-Wrapped here in
        (
          s',
          rw
              (
                moves,
                ne→== (s.tree.workspace c) 0 wz,
                ne→== (s.tree.parent c) 0 pz,
                list,
                lt→ltb 1 (length xs) siblings,
                across,
              )
              run,
          w,
        )
