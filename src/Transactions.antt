-- ===== src/Transactions.antt =====
-- Transactions (sway/desktop/transaction.c): the dirty nodes get instructions with copies of their
-- states, a transaction waits for the views that have to answer, and then all copies become current
-- at once. Drawing, the animation and the outputs are left out. `none` is a null pointer, a pointer
-- to an instruction that is gone, or the end of the fuel.
pub mod Tally
pub mod Add
pub mod Finish
pub mod Start
pub mod Balance
pub mod Progress
pub mod Eventual
pub mod Commit
pub mod Calls
pub mod Reach
pub mod Early
pub mod Live
mod Sample
mod Tests
use scrollfx.Prelude.{
  ℕ, zero, suc, ◌+◌, ◌-◌, ◌^◌, List, [], ◌∷◌, ◌++◌, Option, none, some, Bool, true, false, not,
  ◌&&◌, ◌||◌, ◌==◌, if◌then◌else◌, ◌>>=◌, ℤ, eq_ℤ, ltb,
}
use scrollfx.Seq.{Ptr}
use scrollfx.Tree.{Tree}
use scrollfx.Containers.{FullscreenMode, Node, con, ws, eq_node, Store}
use scrollfx.Containers.Destroy.{is_view}

-- A floating-point number, by a code: the transactions only compare them.
abbrev pub Double : Type 0
Double = ℕ

pub record Content : Type 0 where
  pub content_x : Double
  pub content_y : Double
  pub content_width : Double
  pub content_height : Double

-- `sway_container_state` and `sway_workspace_state` without the focus and most of the geometry. A
-- container without a list of children is a view.
pub data NodeState : Type 0 where
  container_state : FullscreenMode → Ptr → Ptr → Option (List Ptr) → Content → NodeState
  workspace_state : Ptr → List Ptr → List Ptr → NodeState

pub record Instruction : Type 0 where
  pub id : ℕ
  pub node : Node
  pub state : NodeState
  pub serial : ℕ
  pub server_request : Bool
  pub waiting : Bool

pub record Transaction : Type 0 where
  pub instructions : List Instruction
  pub num_waiting : ℕ
  pub timer : Bool

-- `content` is a part of the pending state of containers. The address of an instruction is its `id`,
-- and 0 is null. `freed` lists the nodes whose memory has been given back.
pub record Server : Type 0 where
  pub store : Store
  pub content : Ptr → Content
  pub queued_transaction : Option Transaction
  pub pending_transaction : Option Transaction
  pub ntxnrefs : Node → ℕ
  pub instruction : Node → ℕ
  pub current : Node → NodeState
  pub freed : List Node
  pub next_id : ℕ

-- What the rest of the world answers: the serial of `view_configure` for an instruction, whether a
-- view belongs to Xwayland and whether it is visible, a number as an `int` and an `int` as a
-- number, the options for debugging, and whether a timer can be made for the instructions of a
-- transaction.
pub record Env : Type 0 where
  pub view_configure : ℕ → Ptr → Content → ℕ
  pub is_xwayland : Ptr → Bool
  pub view_is_visible : Store → Ptr → Bool
  pub truncate : Double → ℤ
  pub of_int : ℤ → Double
  pub noatomic : Bool
  pub txn_wait : Bool
  pub add_timer : List Instruction → Bool

-- A field of every node, with the value at one of them replaced.
abbrev pub update_node {ℓ} : {A : Type ℓ} → (Node → A) → Node → A → Node → A
update_node f n v m = if eq_node n m then v else f m

pub copy_container_state : Ptr → Server → NodeState
copy_container_state c s =
    container_state (s.store.mode c) (s.store.tree.workspace c) (s.store.tree.parent c)
      (s.store.tree.children c) (s.content c)

pub copy_workspace_state : Ptr → Server → NodeState
copy_workspace_state w s =
    workspace_state (s.store.fullscreen w) (s.store.tree.floating w) (s.store.tree.tiling w)

pub copy_state : Node → Server → NodeState
copy_state (con c) s = copy_container_state c s
copy_state (ws w) s = copy_workspace_state w s

-- The first instruction for a node, changed; `none` if there is none.
pub update_first : Node → (Instruction → Instruction) → List Instruction → Option (List Instruction)
update_first n f [] = none
update_first n f (i ∷ is) =
    let rest = (do js ← update_first n f is; some (i ∷ js)) in
    if eq_node i.node n then some (f i ∷ is) else rest

-- The instruction of `transaction_add_node`, when it is there already.
pub renew : NodeState → Bool → Instruction → Instruction
renew state request i = record i { state = state; server_request = i.server_request || request }

pub new_instruction : Node → Bool → Server → Instruction
new_instruction n request s = record {
  id = s.next_id;
  node = n;
  state = copy_state n s;
  serial = 0;
  server_request = request;
  waiting = false;
}

-- The instructions with the one for the node renewed, if it is looked for and found.
pub renew_found : Node → Bool → Transaction → Server → Option (List Instruction)
renew_found n request t s =
    if ltb 0 (s.ntxnrefs n)
    then update_first n (renew (copy_state n s) request) t.instructions
    else none

-- Either the renewed instructions, or a new one at the end.
pub with_found :
    Option (List Instruction) → Node → Bool → Transaction → Server → Transaction × Server
with_found (some is) n request t s = (record t { instructions = is }, s)
with_found none n request t s = (
  record t { instructions = t.instructions ++ new_instruction n request s ∷ [] },
  record s { ntxnrefs = update_node s.ntxnrefs n (s.ntxnrefs n + 1); next_id = s.next_id + 1 },
)

pub transaction_add_node : Node → Bool → Transaction → Server → Transaction × Server
transaction_add_node n request t s = with_found (renew_found n request t s) n request t s

-- `node->dirty = false`
pub clear_dirty : Node → Server → Server
clear_dirty n s = record s { store = record s.store { dirty = update_node s.store.dirty n false } }

-- The loop of `_transaction_commit_dirty` over the dirty nodes.
pub add_dirty : List Node → Bool → Transaction → Server → Transaction × Server
add_dirty [] request t s = (t, s)
add_dirty (n ∷ ns) request t s =
    let (t1, s1) = transaction_add_node n request t s in add_dirty ns request t1 (clear_dirty n s1)

-- The loop of `transaction_apply`.
pub apply : List Instruction → Server → Server
apply [] s = s
apply (i ∷ is) s = apply is (record s {
  current = update_node s.current i.node i.state;
  instruction = update_node s.instruction i.node 0;
})

-- `--` on a `size_t`
pub minus_one : ℕ → ℕ
minus_one zero = 2 ^ 64 - 1
minus_one (suc n) = n

-- A round of the loop of `transaction_destroy`.
pub release : Instruction → Server → Server
release i s =
    let n = i.node in
    let left = minus_one (s.ntxnrefs n) in
    record s {
      ntxnrefs = update_node s.ntxnrefs n left;
      instruction =
          if s.instruction n == i.id then update_node s.instruction n 0 else s.instruction;
      freed = if s.store.destroying n && (left == 0) then s.freed ++ n ∷ [] else s.freed;
    }

pub transaction_destroy : List Instruction → Server → Server
transaction_destroy [] s = s
transaction_destroy (i ∷ is) s = transaction_destroy is (release i s)

-- `transaction_progress` up to the end of the queued transaction.
pub end_transaction : Transaction → Server → Server
end_transaction t s =
    let s1 = transaction_destroy t.instructions (apply t.instructions s) in
    record s1 { queued_transaction = none }

abbrev pub empty_transaction : Transaction
empty_transaction = record { instructions = []; num_waiting = 0; timer = false }

abbrev pub or_empty : Option Transaction → Transaction
or_empty none = empty_transaction
or_empty (some t) = t

-- The dirty nodes go into the pending transaction.
pub collect : Bool → Server → Server
collect request s =
    let (t, s1) = add_dirty s.store.dirty_nodes request (or_empty s.pending_transaction) s in
    record s1 { store = record s1.store { dirty_nodes = [] }; pending_transaction = some t }

-- The instruction with an address.
pub find_id : ℕ → List Instruction → Option Instruction
find_id k [] = none
find_id k (i ∷ is) = if i.id == k then some i else find_id k is

abbrev pub instructions_of : Option Transaction → List Instruction
instructions_of none = []
instructions_of (some t) = t.instructions

module _ (e : Env) where
  -- The position matters for Xwayland only.
  pub is_moved : Ptr → Content → Content → Bool
  is_moved c old new =
      e.is_xwayland c
      && (not (eq_ℤ (e.truncate old.content_x) (e.truncate new.content_x))
          || not (eq_ℤ (e.truncate old.content_y) (e.truncate new.content_y)))

  pub resized : Content → Content → Bool
  resized old new =
      not ((old.content_width == new.content_width) && (old.content_height == new.content_height))

  -- The comparison of the current state with the one of the instruction.
  pub state_differs : Ptr → NodeState → NodeState → Bool
  state_differs c (container_state _ _ _ _ old) (container_state _ _ _ _ new) =
      is_moved c old new || resized old new
  state_differs c _ _ = false

  pub should_configure : Instruction → Server → Bool
  should_configure i s = elim i.node [
    | con c ↦
        is_view c s.store
        && not (s.store.destroying (con c))
        && i.server_request
        && state_differs c (s.current (con c)) i.state
    | ws w ↦ false
  ]

  pub is_hidden : Node → Server → Bool
  is_hidden (con c) s =
      is_view c s.store && not (s.store.destroying (con c)) && not (e.view_is_visible s.store c)
  is_hidden (ws w) s = false

  pub configured_serial : Instruction → ℕ
  configured_serial i = elim i.node [
    | con c ↦ elim i.state [
      | container_state _ _ _ _ content ↦ e.view_configure i.id c content
      | workspace_state _ _ _ ↦ i.serial
    ]
    | ws w ↦ i.serial
  ]

  -- A round of the loop of `transaction_commit`: the view is asked, and waited for if it is visible.
  pub ask : Instruction → Server → Instruction
  ask i s =
      if should_configure i s
      then record i {
        serial = configured_serial i;
        waiting = i.waiting || not (is_hidden i.node s);
      }
      else i

  pub wait_count : Instruction → Server → ℕ
  wait_count i s = if should_configure i s && not (is_hidden i.node s) then 1 else 0

  pub commit_from : List Instruction → Server → List Instruction × ℕ × Server
  commit_from [] s = ([], 0, s)
  commit_from (i ∷ is) s =
      let (js, n, s1) =
        commit_from is (record s { instruction = update_node s.instruction i.node i.id }) in
      (ask i s ∷ js, wait_count i s + n, s1)

  -- How many views are waited for, and whether there is a timer, after the loop.
  pub wait_for : ℕ → List Instruction → ℕ × Bool
  wait_for n is =
      let m = if e.noatomic then 0 else if e.txn_wait then n + 1000000 else n in
      if m == 0 then (0, false) else if e.add_timer is then (m, true) else (0, false)

  -- `transaction_commit` of the transaction that becomes the queued one.
  pub transaction_commit : Transaction → Server → Server
  transaction_commit t s =
      let (is, n, s1) = commit_from t.instructions s in
      let (m, timer) = wait_for n is in
      record s1 {
        queued_transaction = some (record { instructions = is; num_waiting = m; timer = timer });
        pending_transaction = none;
      }

  -- After the end of a transaction, the pending one is committed.
  pub commit_next : (Server → Option Server) → Option Transaction → Server → Option Server
  commit_next again none s = some s
  commit_next again (some p) s = again (transaction_commit p s)

  pub end_if : (Server → Option Server) → Bool → Transaction → Server → Option Server
  end_if again false t s = some s
  end_if again true t s =
      let s1 = end_transaction t s in commit_next again s1.pending_transaction s1

  pub progress_with : (Server → Option Server) → Option Transaction → Server → Option Server
  progress_with again none s = some s
  progress_with again (some t) s = end_if again (t.num_waiting == 0) t s

  pub transaction_progress : ℕ → Server → Option Server
  transaction_progress zero s = none
  transaction_progress (suc fuel) s =
      progress_with (λ x. transaction_progress fuel x) s.queued_transaction s

  -- With the queued and the pending transaction.
  pub commit_with : ℕ → Option Transaction → Option Transaction → Server → Option Server
  commit_with fuel (some t) p s = some s
  commit_with fuel none none s = none
  commit_with fuel none (some p) s = transaction_progress fuel (transaction_commit p s)

  pub transaction_commit_pending : ℕ → Server → Option Server
  transaction_commit_pending fuel s = commit_with fuel s.queued_transaction s.pending_transaction s

  pub commit_nodes : ℕ → Bool → List Node → Server → Option Server
  commit_nodes fuel request [] s = some s
  commit_nodes fuel request (n ∷ ns) s = transaction_commit_pending fuel (collect request s)

  pub transaction_commit_dirty : ℕ → Bool → Server → Option Server
  transaction_commit_dirty fuel request s = commit_nodes fuel request s.store.dirty_nodes s

  pub handle_timeout : ℕ → Transaction → Server → Option Server
  handle_timeout fuel t s =
      transaction_progress fuel
        (record s { queued_transaction = some (record t { num_waiting = 0 }) })

  -- `set_instruction_ready` for an instruction of the queued transaction.
  pub set_instruction_ready : ℕ → Instruction → Transaction → Server → Option Server
  set_instruction_ready fuel i t s =
      let less = if i.waiting && ltb 0 t.num_waiting then t.num_waiting - 1 else t.num_waiting in
      transaction_progress fuel (record s {
        queued_transaction = some (record t { num_waiting = less });
        instruction = update_node s.instruction i.node 0;
      })

  -- With the view's instruction, which passes the test or not.
  pub ready_if : ℕ → Bool → Instruction → Transaction → Server → Option (Server × Bool)
  ready_if fuel false i t s = some (s, false)
  ready_if fuel true i t s = do s1 ← set_instruction_ready fuel i t s; some (s1, true)

  -- With the instruction at the address; there has to be one.
  pub notify_at :
      ℕ → (Instruction → Bool) → Option Transaction → ℕ → Server → Option (Server × Bool)
  notify_at fuel test queued k s = do
    t ← queued
    i ← find_id k t.instructions
    ready_if fuel (test i) i t s

  -- What both notifications do with the view's instruction.
  pub notify : ℕ → (Instruction → Bool) → Ptr → Server → Option (Server × Bool)
  notify fuel test c s =
      let k = s.instruction (con c) in
      let found = notify_at fuel test s.queued_transaction k s in
      if k == 0 then some (s, false) else found

  pub transaction_notify_view_ready_by_serial : ℕ → Ptr → ℕ → Server → Option (Server × Bool)
  transaction_notify_view_ready_by_serial fuel c serial s =
      notify fuel (λ i. i.serial == serial) c s

  -- The test of the geometry that a view has.
  pub has_geometry : ℤ → ℤ → ℤ → ℤ → Instruction → Bool
  has_geometry x y width height i = elim i.state [
    | workspace_state _ _ _ ↦ false
    | container_state _ _ _ _ c ↦
        eq_ℤ (e.truncate c.content_x) x
        && eq_ℤ (e.truncate c.content_y) y
        && (c.content_width == e.of_int width)
        && (c.content_height == e.of_int height)
  ]

  pub transaction_notify_view_ready_by_geometry :
      ℕ → Ptr → Double → Double → ℤ → ℤ → Server → Option (Server × Bool)
  transaction_notify_view_ready_by_geometry fuel c x y width height s =
      notify fuel (has_geometry (e.truncate x) (e.truncate y) width height) c s
