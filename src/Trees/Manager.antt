-- ===== src/Trees/Manager.antt =====
-- `TreeQueueManager` of messaging/trees/queue_manager.py on the whole repository: the operations on
-- branches, on the pending children of a node that failed, and on all trees. `done` says of a task
-- whether it has ended, and each call reads the clock once. The order of a Python set is not known;
-- here it is the order of `get_descendants`. The fuel is that of the loops over a stack of ids.
pub mod Branches
use liberated_claude_code.Prelude.{
  ℕ, Bool, true, false, String, str_eq, List, [], ◌∷◌, ◌++◌, Option, none, some, if◌then◌else◌,
}
use liberated_claude_code.Dict.{Dict, get, put, modify}
use liberated_claude_code.Trees.Node.{MessageState, MessageNode, is_terminal, set_node_error_sync}
use liberated_claude_code.Trees.Node
use liberated_claude_code.Trees.Tree.{
  MessageTree, cancel_current_task, is_current_node, remove_from_queue, update_state, all_nodes,
}
use liberated_claude_code.Trees.Cancel.{by_user}
use liberated_claude_code.Trees.Cancel
use liberated_claude_code.Trees.Repository.{
  TreeRepository, get_tree, get_tree_for_node, root_key, remove_tree, unregister_nodes, tree_ids,
}
use liberated_claude_code.Trees.Branch
use liberated_claude_code.Trees.Branch.{get_descendants, get_pending_children, found_node}

abbrev pub node_ids : List MessageNode → List String
node_ids [] = []
node_ids (n ∷ ns) = n.node_id ∷ node_ids ns

-- The write of a tree that was found under `key`.
abbrev pub put_tree : Option String → MessageTree → TreeRepository → TreeRepository
put_tree none tree repo = repo
put_tree (some key) tree repo = record repo { trees = put key tree repo.trees }

-- A tree, the nodes that were cancelled in it, and the tasks that were told to stop.
pub record Stopped : Type 0 where
  pub tree : MessageTree
  pub nodes : List MessageNode
  pub tasks : List ℕ

abbrev found_task : Option ℕ → List ℕ
found_task none = []
found_task (some task) = task ∷ []

abbrev in_error : ℕ → String → MessageTree → MessageTree
in_error now nid t = record t { nodes = modify nid (set_node_error_sync now by_user) t.nodes }

-- A running node's task is told to stop; any other one is taken from the queue.
abbrev pub stop_live : (ℕ → Bool) → ℕ → String → MessageNode → MessageTree → Stopped
stop_live done now nid node t =
    if is_current_node nid t
    then record {
      tree = in_error now nid t;
      nodes = set_node_error_sync now by_user node ∷ [];
      tasks = found_task (cancel_current_task done t);
    }
    else record {
      tree = in_error now nid (remove_from_queue nid t).0;
      nodes = set_node_error_sync now by_user node ∷ [];
      tasks = [];
    }

abbrev pub stop_found : (ℕ → Bool) → ℕ → String → Option MessageNode → MessageTree → Stopped
stop_found done now nid none t = record { tree = t; nodes = []; tasks = [] }
stop_found done now nid (some node) t =
    if is_terminal node.state
    then record { tree = t; nodes = []; tasks = [] }
    else stop_live done now nid node t

-- The loop of `cancel_branch`.
unfoldable pub stop_nodes : (ℕ → Bool) → ℕ → List String → MessageTree → Stopped
stop_nodes done now [] t = record { tree = t; nodes = []; tasks = [] }
stop_nodes done now (nid ∷ nids) t =
    let one = stop_found done now nid (get nid t.nodes) t in
    let rest = stop_nodes done now nids one.tree in
    record { tree = rest.tree; nodes = one.nodes ++ rest.nodes; tasks = one.tasks ++ rest.tasks }

abbrev pub Cancelled : Type 0
Cancelled = TreeRepository × List MessageNode × List ℕ

abbrev stopped_in : Option String → Stopped → TreeRepository → Cancelled
stopped_in key s repo = (put_tree key s.tree repo, s.nodes, s.tasks)

abbrev stop_ids :
    (ℕ → Bool)
    → ℕ
    → Option String
    → MessageTree
    → TreeRepository
    → Option (List String)
    → Option Cancelled
stop_ids done now key t repo none = none
stop_ids done now key t repo (some nids) = some (stopped_in key (stop_nodes done now nids t) repo)

abbrev cancel_branch_in :
    ℕ → (ℕ → Bool) → ℕ → String → Option MessageTree → TreeRepository → Option Cancelled
cancel_branch_in fuel done now branch_root_id none repo = some (repo, [], [])
cancel_branch_in fuel done now branch_root_id (some t) repo =
    stop_ids done now (root_key (get branch_root_id repo.node_to_tree)) t repo
      (get_descendants fuel branch_root_id t)

unfoldable pub cancel_branch : ℕ → (ℕ → Bool) → ℕ → String → TreeRepository → Option Cancelled
cancel_branch fuel done now branch_root_id repo =
    cancel_branch_in fuel done now branch_root_id (get_tree_for_node branch_root_id repo) repo

-- `cancel_tree` on the tree under a root id.
abbrev cancel_found : (ℕ → Bool) → ℕ → String → Option MessageTree → TreeRepository → Cancelled
cancel_found done now root_id none repo = (repo, [], [])
cancel_found done now root_id (some t) repo =
    let c = Cancel.cancel_tree done now t in
    (put_tree (some root_id) c.tree repo, c.nodes, found_task c.task)

unfoldable pub cancel_tree : (ℕ → Bool) → ℕ → String → TreeRepository → Cancelled
cancel_tree done now root_id repo = cancel_found done now root_id (get_tree root_id repo) repo

unfoldable pub cancel_each : (ℕ → Bool) → ℕ → List String → TreeRepository → Cancelled
cancel_each done now [] repo = (repo, [], [])
cancel_each done now (root_id ∷ root_ids) repo =
    let one = cancel_tree done now root_id repo in
    let rest = cancel_each done now root_ids one.0 in (rest.0, one.1 ++ rest.1, one.2 ++ rest.2)

unfoldable pub cancel_all : (ℕ → Bool) → ℕ → TreeRepository → Cancelled
cancel_all done now repo = cancel_each done now (tree_ids repo) repo

-- What `remove_branch` returns: the removed nodes, the root id, and whether the whole tree is gone.
pub record BranchRemoved : Type 0 where
  pub repo : TreeRepository
  pub nodes : List MessageNode
  pub root_id : String
  pub entire : Bool

abbrev removed_tree :
    String → List MessageNode → Option MessageTree × TreeRepository → BranchRemoved
removed_tree root_id cancelled (none, repo) = record {
  repo = repo;
  nodes = cancelled;
  root_id = root_id;
  entire = true;
}
removed_tree root_id cancelled (some t, repo) = record {
  repo = repo;
  nodes = all_nodes t;
  root_id = root_id;
  entire = true;
}

abbrev removed_nodes :
    Option String → String → TreeRepository → Branch.Removed → Option BranchRemoved
removed_nodes key root_id repo none = none
removed_nodes key root_id repo (some (t, nodes)) = some (record {
  repo = unregister_nodes (node_ids nodes) (put_tree key t repo);
  nodes = nodes;
  root_id = root_id;
  entire = false;
})

abbrev remove_whole : (ℕ → Bool) → ℕ → String → TreeRepository → BranchRemoved
remove_whole done now root_id repo =
    let c = cancel_tree done now root_id repo in removed_tree root_id c.1 (remove_tree root_id c.0)

abbrev remove_branch_in :
    ℕ → (ℕ → Bool) → ℕ → String → Option MessageTree → TreeRepository → Option BranchRemoved
remove_branch_in fuel done now branch_root_id none repo =
    some (record { repo = repo; nodes = []; root_id = ""; entire = false })
remove_branch_in fuel done now branch_root_id (some t) repo =
    if str_eq branch_root_id t.root_id
    then some (remove_whole done now t.root_id repo)
    else removed_nodes (root_key (get branch_root_id repo.node_to_tree)) t.root_id repo
        (Branch.remove_branch fuel branch_root_id t)

unfoldable pub remove_branch : ℕ → (ℕ → Bool) → ℕ → String → TreeRepository → Option BranchRemoved
remove_branch fuel done now branch_root_id repo =
    remove_branch_in fuel done now branch_root_id (get_tree_for_node branch_root_id repo) repo

-- update_state(id, ERROR, error_message=message)
abbrev fail : ℕ → String → String → MessageTree → MessageTree
fail now message nid t = update_state now nid Node.error none (some message) t

abbrev pub fail_all : ℕ → String → List String → MessageTree → MessageTree
fail_all now message [] t = t
fail_all now message (nid ∷ nids) t = fail_all now message nids (fail now message nid t)

-- The tree, and the ids of the nodes that were marked.
abbrev mark_children :
    ℕ
    → String
    → Option String
    → MessageTree
    → TreeRepository
    → List String
    → Option (List MessageNode)
    → Option (TreeRepository × List String)
mark_children now message key t repo ids none = none
mark_children now message key t repo ids (some children) =
    some (put_tree key (fail_all now message (node_ids children) t) repo, ids ++ node_ids children)

abbrev mark_in :
    ℕ
    → ℕ
    → String
    → String
    → String
    → Bool
    → Option MessageTree
    → TreeRepository
    → Option (TreeRepository × List String)
mark_in fuel now node_id message parent_failed propagate none repo = some (repo, [])
mark_in fuel now node_id message parent_failed propagate (some t) repo =
    let key = root_key (get node_id repo.node_to_tree) in
    let marked = fail now message node_id t in
    let repo' = put_tree key marked repo in
    let ids = node_ids (found_node (get node_id t.nodes)) in
    if propagate
    then mark_children now parent_failed key marked repo' ids
        (get_pending_children fuel node_id repo')
    else some (repo', ids)

-- `mark_node_error`; `parent_failed` is the message for the children.
unfoldable pub mark_node_error :
    ℕ → ℕ → String → String → String → Bool → TreeRepository → Option (TreeRepository × List String)
mark_node_error fuel now node_id message parent_failed propagate repo =
    mark_in fuel now node_id message parent_failed propagate (get_tree_for_node node_id repo) repo
