-- ===== src/Lib.antt =====
-- A verification library for scroll, a tiling Wayland compositor that keeps windows in scrolling
-- rows and columns.
--
-- The compositor (sway/) holds a tree: the root, its outputs, their workspaces, and the containers
-- of a workspace, which hold other containers or one view. Commands (sway/commands/) and input
-- (sway/input/) change the tree through the functions of sway/tree/, the layout functions among
-- them (sway/tree/layout.c). A change marks nodes dirty, and a transaction
-- (sway/desktop/transaction.c) brings the dirty nodes to the screen together. Every sequence in
-- this tree, such as the children of a container, the floating containers of a workspace and the
-- trails, is a `list_t` of common/list.c. This library models that list first and
-- builds on what it promises.
--
-- Files:
--   Prelude      library names, natural numbers and lists that the other modules share: Prelude/Int
--                (the integers over the native natural numbers), Prelude/Lists, Prelude/Options,
--                Prelude/Blocks (lists cut in blocks, for reading and writing at an index).
--   Seq          the abstract view of a `list_t`: a list of pointers with `insert`, `delete`,
--                `swap`, `move_to`, `move_to_end` and `find`. It is what the clients of
--                common/list.c use. Seq/Laws has its lemmas.
--   ListT        common/list.c: the record of capacity, length and the array of cells, and its
--                operations, with the same names as the C functions. ListT/Shift, ListT/Holds,
--                ListT/Edit and ListT/Move relate them to Seq. ListT/Sort is the merge sort that
--                works in place, with ListT/Sort/Order, Merge and Stable for its proof.
--   Trails       the trails of sway/tree/layout.c (`layout_trail_*` and `layout_trailmark_*`): the
--                user marks views along a trail and walks over the marks. The state is `none` until
--                the first `layout_trail_new`. Bounds, Toggle and Safe are about the indices, Marks and
--                Remove about what a toggle and a removal do to the marks, Cycle about walking.
--   Bits         flags in a `uint32_t`, with the `&`, `|` and the count of set bits that
--                common/gesture.c uses.
--   Gesture      common/gesture.c: gestures, their printed form and its parser, and the matching of
--                a binding against an input. Gesture/RoundTrip and Gesture/Read are about the
--                parser. Gesture/Binding is the choice of a binding in sway/input/seatop_default.c.
--   Strings      common/stringop.c: `split_string`, which the parser of gestures uses, `join_args`,
--                `strip_quotes`, and in Strings/Escapes `unescape_string`.
--   Tree         the tree of sway/tree/container.c and sway/tree/workspace.c: the fields
--                `pending.parent`, `pending.workspace` and `pending.children` of containers and the
--                lists `tiling` and `floating` of workspaces. Tree/Forest is its invariant: a
--                container stands exactly once in the list that its pointers name, and has the
--                workspace of its parent. Tree/Walk is about `container_for_each_child` with
--                `set_workspace`, Tree/Detach, Link and Reorder about changes of the lists.
--   Containers   the operations of these files on the tree together with the fullscreen containers and
--                the dirty nodes of sway/tree/node.c: `container_detach`, `container_add_child` and
--                their like. Containers/Forest and Containers/Sibling are about the invariant.
--                Containers/Destroy is `container_begin_destroy` and `container_reap_empty`, with
--                sway/tree/root.c's `root_scratchpad_remove_container`. Containers/Dirty is about
--                the list of dirty nodes.
--   Layout       sway/tree/layout.c: insertion indices (Layout/Index), moving a container next to
--                another one (Layout/Near inside a workspace, Layout/Across between workspaces), and
--                the loop of `layout_move_container_mode` (Layout/Steps, with the moves that a direction asks
--                for in Layout/Moves). Layout/Nomode is
--                `layout_move_container_nomode`. Layout/Drag is
--                `layout_drag_container_to_container`, with the loops that hand children over
--                (Drag/Adopt) and the exchange of two views (Drag/Swap).
--   Transactions sway/desktop/transaction.c: dirty nodes, instructions, and the pending and the queued
--                transaction of a server. Transactions/Tally, Add, Start and Finish are about the loops,
--                Balance and Progress about the invariant and `transaction_progress`. Eventual, Commit
--                and Calls have the abstract view: the state that each node has once all transactions
--                are over. Reach has the sequences of calls, Live the timeouts, and Early a transaction
--                that ends before the commit of a node that is being destroyed.
--   Focus        the focus stack of a seat in sway/input/seat.c: the searches of the stack (Focus/First),
--                `node_has_ancestor` of sway/tree/node.c (Focus/Climb), `seat_set_raw_focus`
--                (Focus/Stack), and in Focus/Change `seat_set_workspace_focus`, with the containers
--                that are fullscreen and the sticky containers of the old workspace.
--
-- A pointer is a natural number, and 0 is NULL. An array is a list of cells, where a cell is `none`
-- until something is written to it. A result `none` means that the C code would leave its array,
-- use a cell that was never written, go through a null pointer, or double a capacity past `INT_MAX`;
-- the theorems say when this does not happen. Allocation succeeds; where it makes a container, that
-- is an argument. The `int` lengths and indices are natural numbers or integers without a bound of
-- their own, since the capacity, which bounds them, stays at most `int_max` = 2 ^ 31 - 1. Characters
-- are their codes.
--
-- Fuel: the sort gets the length of the list as the depth of its calls, which is enough since each
-- half is shorter; a merge gets one more round than there are items from `left` to `last`, since each
-- round moves `left` up. `unescape_string` gets one round more than its array is long, since each
-- round moves the index up. The bitwise operations make 32 rounds, one for each bit. The invariant of
-- the tree carries a height for each container, above those of its children: a walk down from a
-- container is given more fuel than its height, and a walk up as much as is missing to the top.
-- `transaction_progress` gets two rounds, one for the queued transaction and one for the pending one.
-- `node_has_ancestor` gets four rounds more than the greatest height, for a workspace, an output, the
-- root, and the end.
--
-- Not modelled: what needs the display, the GPU or the Wayland libraries (rendering, surfaces,
-- protocols, input devices, Xwayland), the bar, the messages on screen and the command line
-- clients, the Lua interface, and the scene graph, which is derived from wlroots. Of the tree,
-- sizes, positions, titles and the arrangement on the screen are left out, and so are the
-- operations that split and replace containers. What `workspace_consider_destroy` and the listeners
-- of the destroy signal do is an event only: the node of an empty workspace that they destroy, and
-- that `handle_seat_node_destroy` takes out of the focus stack, stays there. Commands are not modelled. Of the focus, layers, the
-- lock of the session and the end of a node in the stack are left out; what the views, the keyboard
-- and the IPC clients are told is a list of notices. Of the states that Transactions copies, those
-- of outputs, the focus and most of the geometry are left out, and so is what an applied
-- transaction draws; a floating-point number is a code, and what the Wayland libraries answer is a
-- record of functions. The address of a freed node or instruction is not used again. In Trails and
-- Containers, what an operation tells the rest of the program (IPC clients, seats, the arrangement,
-- titles) is a list of events. Of the edges that wlroots names, Layout/Drag has the five that its
-- switches mention. `list_qsort` calls the C library's sort; the gesture tracker adds up floating-
-- point movements; `split_args`, `argsep`, `strip_whitespace` and `expand_path` of
-- common/stringop.c are left out.
pub mod Prelude
pub mod Seq
pub mod Bits
pub mod Containers
pub mod Focus
pub mod Gesture
pub mod Layout
pub mod ListT
pub mod Strings
pub mod Transactions
pub mod Trails
pub mod Tree
