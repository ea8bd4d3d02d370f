-- ===== src/Trees/Tree.antt =====
-- `MessageTree` of messaging/trees/data.py. The nodes of `_nodes` are shared objects: a write to a
-- node is a write to the entry under its key. A task is known by a number, and `done` says of a task
-- whether it has ended. The lock is not part of the state: each function is one critical section.
use liberated_claude_code.Prelude.{
  ℕ, Bool, false, String, List, [], ◌∷◌, ◌++◌, Option, none, some, str_eq, if◌then◌else◌,
}
use liberated_claude_code.Dict.{Dict, get, has, put, modify, values, discard}
use liberated_claude_code.Trees.Queue.{
  SnapshotQueue, put_nowait, get_nowait, qsize, get_snapshot, remove_if_present,
}
use liberated_claude_code.Trees.Queue
use liberated_claude_code.Trees.Node
use liberated_claude_code.Trees.Node.{
  MessageState, IncomingMessage, MessageNode, is_terminal, is_truthy, set_node_error_sync, update,
}

pub record MessageTree : Type 0 where
  pub root_id : String
  pub nodes : Dict MessageNode
  pub status_to_node : Dict String
  pub queue : SnapshotQueue
  pub is_processing : Bool
  pub current_node_id : Option String
  pub current_task : Option ℕ

-- MessageTree(root_node)
unfoldable pub new : MessageNode → MessageTree
new root_node = record {
  root_id = root_node.node_id;
  nodes = (root_node.node_id, root_node) ∷ [];
  status_to_node = (root_node.status_message_id, root_node.node_id) ∷ [];
  queue = Queue.empty;
  is_processing = false;
  current_node_id = none;
  current_task = none;
}

unfoldable pub set_current_task : Option ℕ → MessageTree → MessageTree
set_current_task task t = record t { current_task = task }

unfoldable pub append_child : String → MessageNode → MessageNode
append_child child node = record node { children_ids = node.children_ids ++ child ∷ [] }

-- `none` is the `ValueError` for an unknown parent; the node that is returned is the new entry.
unfoldable pub add_node :
    ℕ → String → IncomingMessage → String → String → MessageTree → Option MessageTree
add_node now node_id incoming status_message_id parent_id t =
    if has parent_id t.nodes
    then some (record t {
      nodes =
          modify parent_id (append_child node_id) (
            put node_id (Node.new now node_id incoming status_message_id (some parent_id)) t.nodes);
      status_to_node = put status_message_id node_id t.status_to_node;
    })
    else none

unfoldable pub get_node : String → MessageTree → Option MessageNode
get_node node_id t = get node_id t.nodes

-- The nodes of those keys that are in the tree.
unfoldable pub lookup_all : List String → MessageTree → List MessageNode
lookup_all [] t = []
lookup_all (cid ∷ cids) t = elim (get cid t.nodes) [
  | none ↦ lookup_all cids t
  | some node ↦ node ∷ lookup_all cids t
]

unfoldable pub get_children : String → MessageTree → List MessageNode
get_children node_id t = elim (get node_id t.nodes) [
  | none ↦ []
  | some node ↦ lookup_all node.children_ids t
]

abbrev parent_of : Option String → MessageTree → Option MessageNode
parent_of none t = none
parent_of (some parent_id) t = if str_eq parent_id "" then none else get parent_id t.nodes

unfoldable pub get_parent : String → MessageTree → Option MessageNode
get_parent node_id t = elim (get node_id t.nodes) [
  | none ↦ none
  | some node ↦ parent_of node.parent_id t
]

unfoldable pub get_parent_session_id : String → MessageTree → Option String
get_parent_session_id node_id t = elim (get_parent node_id t) [
  | none ↦ none
  | some parent ↦ parent.session_id
]

-- An unknown node is logged and left alone.
unfoldable pub update_state :
    ℕ → String → MessageState → Option String → Option String → MessageTree → MessageTree
update_state now node_id state session_id error_message t = record t {
  nodes = modify node_id (update now state session_id error_message) t.nodes;
}

-- The position in the queue comes back, from 1.
unfoldable pub enqueue : String → MessageTree → MessageTree × ℕ
enqueue node_id t = let q = put_nowait node_id t.queue in (record t { queue = q }, qsize q)

unfoldable pub dequeue : MessageTree → Option String × MessageTree
dequeue t = elim (get_nowait t.queue) [
  | none ↦ (none, t)
  | some (node_id, q) ↦ (some node_id, record t { queue = q })
]

unfoldable pub get_queue_snapshot : MessageTree → List String
get_queue_snapshot t = get_snapshot t.queue

unfoldable pub get_queue_size : MessageTree → ℕ
get_queue_size t = qsize t.queue

unfoldable pub remove_from_queue : String → MessageTree → MessageTree × Bool
remove_from_queue node_id t =
    let (removed, q) = remove_if_present node_id t.queue in (record t { queue = q }, removed)

unfoldable pub set_processing_state : Option String → Bool → MessageTree → MessageTree
set_processing_state node_id is_processing t = record t {
  is_processing = is_processing;
  current_node_id = if is_processing then node_id else none;
}

unfoldable pub clear_current_node : MessageTree → MessageTree
clear_current_node t = record t { current_node_id = none }

unfoldable pub is_current_node : String → MessageTree → Bool
is_current_node node_id t = elim t.current_node_id [
  | none ↦ false
  | some current ↦ str_eq current node_id
]

unfoldable pub put_queue_unlocked : String → MessageTree → MessageTree
put_queue_unlocked node_id t = record t { queue = put_nowait node_id t.queue }

-- The task that is told to stop; `none` is the result `False`.
unfoldable pub cancel_current_task : (ℕ → Bool) → MessageTree → Option ℕ
cancel_current_task done t = elim t.current_task [
  | none ↦ none
  | some task ↦ if done task then none else some task
]

-- Take `node_id` from the front, leaving `ids`, and mark its node if it is in the tree.
abbrev pub drain_one : ℕ → String → String → List String → MessageTree → MessageTree
drain_one now message node_id ids t = record t {
  nodes = modify node_id (set_node_error_sync now message) t.nodes;
  queue = record { deque = ids; set = discard node_id t.queue.set };
}

abbrev pub append_found : Option MessageNode → List MessageNode → List MessageNode
append_found none nodes = nodes
append_found (some node) nodes = node ∷ nodes

-- The loop of `drain_queue_and_mark_cancelled`; the list is what the deque holds.
unfoldable pub drain : ℕ → String → List String → MessageTree → MessageTree × List MessageNode
drain now message [] t = (t, [])
drain now message (node_id ∷ ids) t =
    let marked = drain_one now message node_id ids t in
    let r = drain now message ids marked in (r.0, append_found (get node_id marked.nodes) r.1)

unfoldable pub drain_queue_and_mark_cancelled :
    ℕ → String → MessageTree → MessageTree × List MessageNode
drain_queue_and_mark_cancelled now message t = drain now message t.queue.deque t

unfoldable pub reset_processing_state : MessageTree → MessageTree
reset_processing_state t = record t { is_processing = false; current_node_id = none }

unfoldable pub has_node : String → MessageTree → Bool
has_node node_id t = has node_id t.nodes

unfoldable pub all_nodes : MessageTree → List MessageNode
all_nodes t = values t.nodes

unfoldable pub find_node_by_status_message : String → MessageTree → Option MessageNode
find_node_by_status_message status_msg_id t = elim (get status_msg_id t.status_to_node) [
  | none ↦ none
  | some node_id ↦ if str_eq node_id "" then none else get node_id t.nodes
]
