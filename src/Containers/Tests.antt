-- ===== src/Containers/Tests.antt =====
-- The theorems on containers at concrete places of a small tree.
use scrollfx.Prelude.{false, true, ◌≡◌, refl, [], ◌∷◌, some, arith}
use scrollfx.Containers.Destroy.{container_begin_destroy}
use scrollfx.Containers.Destroy.Reap.{begin_destroy-Detached}
use scrollfx.Tree.Sample.{small, small_tree, small_tree-IsForest, height}
use scrollfx.Containers.Sibling.{add_sibling-Joined}
use scrollfx.Containers.Dirty.{IsTracked, set_dirty-IsTracked}
use scrollfx.Containers.{
  Node, con, node_set_dirty, container_add_sibling, Store, container_detach, container_add_child,
}
use scrollfx.Containers.Forest.{Detached, Joined, detach-Detached, add_child-Joined}

detach-Detached_example :
    (s' : Store) × (container_detach 2 2 small ≡ some s') × Detached 2 height small_tree s'.tree
detach-Detached_example =
    detach-Detached height 2 2 (λ z. omega (arith, z)) (omega arith) small small_tree-IsForest
      (λ _ z. omega (arith, z))

add_child-Joined_example :
    (s' : Store) × (container_add_child 1 2 1 small ≡ some s')
    × Joined 1 2 height small_tree s'.tree
add_child-Joined_example =
    add_child-Joined height 1 1 (λ z. omega (arith, z)) (omega arith) small small_tree-IsForest
      (λ _. refl) 2 (3 ∷ []) (λ z. omega (arith, z)) (omega arith) refl

begin_destroy-Detached_example :
    (s' : Store) × (container_begin_destroy 1 3 small ≡ some s')
    × Detached 3 height small_tree s'.tree
begin_destroy-Detached_example =
    begin_destroy-Detached height 1 3 (λ z. omega (arith, z)) (omega arith) small
      small_tree-IsForest (λ z. omega (arith, z))

add_sibling-Joined_example :
    (s' : Store) × (container_add_sibling 1 7 3 true small ≡ some s')
    × Joined 3 10 height small_tree s'.tree
add_sibling-Joined_example =
    add_sibling-Joined height 1 3 (λ z. omega (arith, z)) (omega arith) small small_tree-IsForest
      (λ z. absurd (omega (arith, z))) 7 true (λ z. omega (arith, z)) (λ z. omega (arith, z))
      (λ _. omega arith)

small-IsTracked : IsTracked small
unfolding IsTracked
small-IsTracked m = refl

set_dirty-IsTracked_example :
    IsTracked (node_set_dirty (con 2) small)
    × ((m : Node) → false ≡ true → (node_set_dirty (con 2) small).dirty m ≡ true)
    × (false ≡ false → (node_set_dirty (con 2) small).dirty (con 2) ≡ true)
set_dirty-IsTracked_example = set_dirty-IsTracked (con 2) small small-IsTracked
