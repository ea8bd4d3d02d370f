-- ===== src/Trees/Cancel.antt =====
-- The critical sections of messaging/trees/queue_manager.py on one tree: `cancel_tree`,
-- `cancel_node` and the start-up clean-up. Each call reads the clock once.
use liberated_claude_code.Prelude.{
  ℕ, Bool, not, ◌&&◌, String, List, [], ◌∷◌, ◌++◌, Option, none, some, if◌then◌else◌,
}
use liberated_claude_code.Dict.{get, modify, map_values, contains}
use liberated_claude_code.Trees.Node.{
  MessageNode, is_terminal, is_active, is_truthy, set_node_error_sync,
}
use liberated_claude_code.Trees.Tree.{
  MessageTree, cancel_current_task, drain_queue_and_mark_cancelled, reset_processing_state,
  is_current_node, remove_from_queue,
}

abbrev pub by_user : String
by_user = "Cancelled by user"

abbrev pub stale : String
stale = "Stale task cleaned up"

abbrev pub lost : String
lost = "Lost during server restart"

-- The tree after a call, the nodes that the call reports, and the task that was told to stop.
pub record Cancelled : Type 0 where
  pub tree : MessageTree
  pub nodes : List MessageNode
  pub task : Option ℕ

-- `node and node.state not in (COMPLETED, ERROR)`: mark it and report it.
unfoldable pub cancel_if_live : ℕ → String → MessageTree → MessageTree × List MessageNode
cancel_if_live now node_id t = elim (get node_id t.nodes) [
  | none ↦ (t, [])
  | some node ↦ if is_terminal node.state then (t, []) else (
    record t { nodes = modify node_id (set_node_error_sync now by_user) t.nodes },
    set_node_error_sync now by_user node ∷ [],
  )
]

-- Step 1 of `cancel_tree`, once a task was told to stop.
unfoldable pub cancel_running : ℕ → Option String → MessageTree → MessageTree × List MessageNode
cancel_running now none t = (t, [])
cancel_running now (some current_id) t =
    if is_truthy (some current_id) then cancel_if_live now current_id t else (t, [])

abbrev pub node_ids : List MessageNode → List String
node_ids [] = []
node_ids (n ∷ ns) = n.node_id ∷ node_ids ns

-- `state in (PENDING, IN_PROGRESS) and node_id not in cancelled_ids`: mark it.
unfoldable pub mark_stale : ℕ → String → List String → MessageNode → MessageNode
mark_stale now message cancelled_ids node =
    if is_active node.state && not (contains node.node_id cancelled_ids)
    then set_node_error_sync now message node
    else node

-- Steps 1 and 2: the running node, if its task was told to stop, then the queued ones.
unfoldable pub stop_running : ℕ → Option ℕ → MessageTree → MessageTree × List MessageNode
stop_running now none t = (t, [])
stop_running now (some task) t = cancel_running now t.current_node_id t

unfoldable pub cancel_tree : (ℕ → Bool) → ℕ → MessageTree → Cancelled
cancel_tree done now t =
    let task = cancel_current_task done t in
    let (t₁, running) = stop_running now task t in
    let (t₂, queued) = drain_queue_and_mark_cancelled now by_user t₁ in
    let nodes = map_values (mark_stale now stale (node_ids (running ++ queued))) t₂.nodes in
    record {
      tree = reset_processing_state (record t₂ { nodes = nodes });
      nodes = running ++ queued;
      task = task;
    }

-- The critical section of `cancel_node`.
unfoldable pub cancel_node : (ℕ → Bool) → ℕ → String → MessageTree → Cancelled
cancel_node done now node_id t = elim (get node_id t.nodes) [
  | none ↦ record { tree = t; nodes = []; task = none }
  | some node ↦
      if is_terminal node.state
      then record { tree = t; nodes = []; task = none }
      else (let task = if is_current_node node_id t then cancel_current_task done t else none in
          let (t', removed) = remove_from_queue node_id t in
          record {
            tree = record t' { nodes = modify node_id (set_node_error_sync now by_user) t'.nodes };
            nodes = set_node_error_sync now by_user node ∷ [];
            task = task;
          })
]
