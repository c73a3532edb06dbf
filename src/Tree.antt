-- ===== src/Tree.antt =====
-- The tree of containers (sway/tree/container.c and sway/tree/workspace.c): who is whose parent,
-- and what lists hold whom. A result `none` means that the C code would go through a null pointer or
-- leave a list.
pub mod Count
pub mod Walk
pub mod Forest
pub mod Detach
pub mod Link
pub mod Removal
pub mod Reorder
pub mod Sample
use scrollfx.Prelude.{
  ℕ, zero, suc, List, [], ◌∷◌, ◌++◌, Option, none, some, Bool, true, false, ◌==◌, if◌then◌else◌,
  ◌>>=◌, is_neg, ℤ,
}
use scrollfx.Seq.{Ptr, find, delete, insert}

-- A field of every object, with the value at one of them replaced.
abbrev pub update {ℓ} : {A : Type ℓ} → (Ptr → A) → Ptr → A → Ptr → A
update f p v q = if p == q then v else f q

-- The fields `pending.parent`, `pending.workspace` and `pending.children` of containers, and
-- `tiling` and `floating` of workspaces. A view has no list of children.
pub record Tree : Type 0 where
  pub parent : Ptr → Ptr
  pub workspace : Ptr → Ptr
  pub children : Ptr → Option (List Ptr)
  pub tiling : Ptr → List Ptr
  pub floating : Ptr → List Ptr

-- The list of `container_get_siblings`.
pub data Place : Type 0 where
  children_of : Ptr → Place
  tiling_of : Ptr → Place
  floating_of : Ptr → Place
  nowhere : Place

unfoldable pub container_get_siblings : Tree → Ptr → Place
container_get_siblings t c =
    if t.parent c == 0
    then (if t.workspace c == 0
        then nowhere
        else if is_neg (find (t.tiling (t.workspace c)) c)
        then floating_of (t.workspace c)
        else tiling_of (t.workspace c))
    else children_of (t.parent c)

unfoldable pub items : Tree → Place → Option (List Ptr)
items t (children_of p) = t.children p
items t (tiling_of w) = some (t.tiling w)
items t (floating_of w) = some (t.floating w)
items t nowhere = none

unfoldable pub put_items : Tree → Place → List Ptr → Tree
put_items t (children_of p) xs = record t { children = update t.children p (some xs) }
put_items t (tiling_of w) xs = record t { tiling = update t.tiling w xs }
put_items t (floating_of w) xs = record t { floating = update t.floating w xs }
put_items t nowhere xs = t

pub container_sibling_index : Tree → Ptr → Option ℤ
container_sibling_index t c = do xs ← items t (container_get_siblings t c); some (find xs c)

pub set_workspace : Ptr → Tree → Option Tree
set_workspace c t =
    if t.parent c == 0
    then none
    else some (record t { workspace = update t.workspace c (t.workspace (t.parent c)) })

abbrev pub kids : Tree → Ptr → List Ptr
kids t p = elim (t.children p) [ none ↦ [] | some cs ↦ cs ]

-- The loop of `container_for_each_child` with the function `set_workspace`, which leaves all lists
-- as they are. `walk` is the call for a child.
pub visit : (Ptr → Tree → Option Tree) → List Ptr → Tree → Option Tree
visit walk [] t = some t
visit walk (c ∷ cs) t = do t1 ← set_workspace c t; t2 ← walk c t1; visit walk cs t2

-- `container_for_each_child(c, set_workspace, NULL)`; the fuel bounds the depth of the calls.
pub set_workspaces : ℕ → Ptr → Tree → Option Tree
set_workspaces zero c t = none
set_workspaces (suc fuel) c t = visit (set_workspaces fuel) (kids t c) t

-- The list without its first occurrence of a container, as `container_detach` takes it out.
pub without : Ptr → List Ptr → Option (List Ptr)
without c xs = if is_neg (find xs c) then some xs else delete xs (find xs c)

-- The removal from the siblings' list; a null list holds nobody.
pub remove_at : Ptr → Tree → Place → Option Tree
remove_at c t place = elim (items t place) [
  | none ↦ some t
  | some xs ↦ (do ys ← without c xs; some (put_items t place ys))
]

pub remove_sibling : Ptr → Tree → Option Tree
unfolding remove_at
remove_sibling c t = remove_at c t (container_get_siblings t c)

-- What `container_detach` does to the tree.
pub detach : ℕ → Ptr → Tree → Option Tree
detach fuel c t = do
  t1 ← remove_sibling c t
  set_workspaces fuel c
      (record t1 { parent = update t1.parent c 0; workspace = update t1.workspace c 0 })

-- A container that stands nowhere comes to a list: below `p`, or at the top of a workspace.
unfoldable pub link_child : ℕ → Ptr → Ptr → List Ptr → Tree → Option Tree
link_child fuel p c ys t = set_workspaces fuel c (record t {
  children = update t.children p (some ys);
  parent = update t.parent c p;
  workspace = update t.workspace c (t.workspace p);
})

unfoldable pub link_tiling : ℕ → Ptr → Ptr → List Ptr → Tree → Option Tree
link_tiling fuel w c ys t =
    set_workspaces fuel c
      (record t { tiling = update t.tiling w ys; workspace = update t.workspace c w })

unfoldable pub link_floating : ℕ → Ptr → Ptr → List Ptr → Tree → Option Tree
link_floating fuel w c ys t =
    set_workspaces fuel c
      (record t { floating = update t.floating w ys; workspace = update t.workspace c w })
