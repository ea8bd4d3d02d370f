-- ===== src/Tests/Queues.antt =====
-- Runs of the trees, of the repository and of the processor.
use liberated_claude_code.Prelude.{
  ℕ, ◌≡◌, refl, Bool, true, false, String, eq_iff, [], ◌∷◌, none, some, arith,
}
use liberated_claude_code.Dict.{get, modify, map_values, map_opt, contains, discard}
use liberated_claude_code.Trees.Queue.{SnapshotQueue, get_nowait, remove_if_present}
use liberated_claude_code.Dict.Keys.{IsDistinct}
use liberated_claude_code.Trees.Queue.Laws.{
  InSync, get_nowait-InSync, remove_if_present_lem, duplicate_not_removed,
}
use liberated_claude_code.Trees.Node.{
  MessageState, pending, in_progress, completed, error, IncomingMessage, MessageNode, is_active,
  is_terminal, set_node_error_sync,
}
use liberated_claude_code.Trees.Tree
use liberated_claude_code.Trees.Tree.{MessageTree}
use liberated_claude_code.Trees.Cancel
use liberated_claude_code.Trees.Repository
use liberated_claude_code.Trees.Cancel.{cancel_tree}
use liberated_claude_code.Trees.Cleanup.{
  cleanup_stale_nodes, reconciled, active_in, cleanup_stale_nodes_lem,
}
use liberated_claude_code.Trees.Drained.{IsKeyed}
use liberated_claude_code.Trees.Cancelled.{cancel_tree_settles, cancel_tree_keeps}
use liberated_claude_code.Trees.Repository.{TreeRepository, node_in, get_node, add_to_tree}
use liberated_claude_code.Trees.Repository.Lookup.{RootsMatch, after_add, add_to_tree-get_node}

abbrev pub hello : IncomingMessage
hello = record {
  text = "hello";
  chat_id = "chat";
  user_id = "user";
  message_id = "a";
  platform = "telegram";
  reply_to_message_id = none;
  message_thread_id = none;
  username = none;
  status_message_id = none;
  timestamp = 0;
  raw_event = some 7;
}

abbrev pub node_in_state : String → MessageState → MessageNode
node_in_state node_id state = record {
  node_id = node_id;
  incoming = hello;
  status_message_id = "status";
  state = state;
  parent_id = none;
  session_id = none;
  children_ids = [];
  created_at = 0;
  completed_at = none;
  error_message = none;
  context = some 3;
}

abbrev queue_b : SnapshotQueue
queue_b = record { deque = "b" ∷ []; set = "b" ∷ [] }

-- "a" runs in task 0, "b" waits, "c" is done.
abbrev pub three : MessageTree
three = record {
  root_id = "a";
  nodes =
      ("a", node_in_state "a" in_progress)
      ∷ ("b", node_in_state "b" pending)
      ∷ ("c", node_in_state "c" completed)
      ∷ [];
  status_to_node = [];
  queue = queue_b;
  is_processing = true;
  current_node_id = some "a";
  current_task = some 0;
}

abbrev pub never : ℕ → Bool
never task = false

three-IsKeyed : IsKeyed three
unfolding get
three-IsKeyed k n e = ground (arith, eq_iff "a" k, eq_iff "b" k, eq_iff "c" k)

abbrev stopped_b : MessageNode
stopped_b = record (node_in_state "b" pending) {
  state = error;
  error_message = some "Cancelled by user";
  completed_at = some 9;
}

cancelled_b : get "b" (cancel_tree never 9 three).tree.nodes ≡ some stopped_b
unfolding cancel_tree get Cancel.stop_running Cancel.cancel_running Cancel.cancel_if_live
    Cancel.mark_stale Tree.cancel_current_task Tree.drain_queue_and_mark_cancelled Tree.drain
    Tree.reset_processing_state modify contains discard is_active is_terminal set_node_error_sync
    map_values
cancelled_b = refl

cancel_tree_settles_example :
    let t' = (cancel_tree never 9 three).tree in
    (is_active stopped_b.state ≡ false)
    × (t'.queue.deque ≡ [])
    × (t'.is_processing ≡ false)
    × (t'.current_node_id ≡ none)
cancel_tree_settles_example =
    cancel_tree_settles never 9 three "b" stopped_b three-IsKeyed cancelled_b

is_terminal_completed : is_terminal completed ≡ true
unfolding is_terminal
is_terminal_completed = refl

three_c : get "c" three.nodes ≡ some (node_in_state "c" completed)
unfolding get
three_c = refl

three_b : get "b" three.nodes ≡ some (node_in_state "b" pending)
unfolding get
three_b = refl

c_waits_not : contains "c" three.queue.deque ≡ false
unfolding contains
c_waits_not = refl

cancel_tree_keeps_example :
    get "c" (cancel_tree never 9 three).tree.nodes ≡ some (node_in_state "c" completed)
cancel_tree_keeps_example =
    cancel_tree_keeps never 9 three "c" (node_in_state "c" completed) three-IsKeyed three_c
      is_terminal_completed c_waits_not

-- A queue with "b" twice.
abbrev queue_bab : SnapshotQueue
queue_bab = record { deque = "b" ∷ "a" ∷ "b" ∷ []; set = "b" ∷ "a" ∷ [] }

queue_bab-InSync : InSync queue_bab
unfolding contains
queue_bab-InSync x = ground (arith, eq_iff "a" x, eq_iff "b" x)

remove_if_present_lem_example :
    ((remove_if_present "b" queue_bab).0 ≡ contains "b" queue_bab.deque)
    × ((remove_if_present "b" queue_bab).1.deque ≡ discard "b" queue_bab.deque)
remove_if_present_lem_example = remove_if_present_lem "b" queue_bab queue_bab-InSync

abbrev queue_ba : SnapshotQueue
queue_ba = record { deque = "b" ∷ "a" ∷ []; set = "b" ∷ "a" ∷ [] }

abbrev queue_a : SnapshotQueue
queue_a = record { deque = "a" ∷ []; set = "a" ∷ [] }

queue_ba-InSync : InSync queue_ba
queue_ba-InSync x = refl

queue_ba-IsDistinct : IsDistinct queue_ba.deque
unfolding contains
queue_ba-IsDistinct = (refl, (refl, tt))

taken_b : get_nowait queue_ba ≡ some ("b", queue_a)
unfolding get_nowait discard
taken_b = refl

get_nowait-InSync_example : InSync queue_a × IsDistinct queue_a.deque
get_nowait-InSync_example =
    get_nowait-InSync queue_ba "b" queue_a queue_ba-InSync queue_ba-IsDistinct taken_b

abbrev queue_ab : SnapshotQueue
queue_ab = record { deque = "a" ∷ "b" ∷ []; set = "a" ∷ [] }

taken_first : get_nowait queue_bab ≡ some ("b", queue_ab)
unfolding get_nowait discard
taken_first = refl

b_again : contains "b" ("a" ∷ "b" ∷ []) ≡ true
unfolding contains
b_again = refl

duplicate_not_removed_example :
    (remove_if_present "b" queue_ab ≡ (false, queue_ab)) × (contains "b" queue_ab.deque ≡ true)
duplicate_not_removed_example =
    duplicate_not_removed "b" ("a" ∷ "b" ∷ []) queue_bab queue_ab refl b_again taken_first

abbrev repo : TreeRepository
repo = record {
  trees = ("a", three) ∷ [];
  node_to_tree = ("a", "a") ∷ ("b", "a") ∷ ("c", "a") ∷ [];
}

repo-RootsMatch : RootsMatch repo
unfolding get
repo-RootsMatch key tree e = ground (arith, eq_iff "a" key)

repo_c : get_node "c" repo ≡ some (node_in_state "c" completed)
unfolding get_node Repository.get_tree_for_node get
repo_c = refl

add_to_tree-get_node_example :
    (repo' : TreeRepository) × (add_to_tree 9 "c" "d" hello "status" repo ≡ some repo')
    × ((j : String)
        → get_node j repo'
          ≡ after_add 9 "c" "d" hello "status" (node_in_state "c" completed) repo j)
    × RootsMatch repo'
add_to_tree-get_node_example =
    add_to_tree-get_node 9 "c" "d" hello "status" (node_in_state "c" completed) repo repo-RootsMatch
      repo_c refl

cleanup_stale_nodes_lem_example :
    let r = cleanup_stale_nodes 9 repo in
    ((k j : String)
      → node_in j (get k r.0.trees) ≡ map_opt (reconciled 9) (node_in j (get k repo.trees)))
    × (active_in r.0.trees ≡ 0)
    × (r.1 ≡ 2)
cleanup_stale_nodes_lem_example = cleanup_stale_nodes_lem 9 repo
