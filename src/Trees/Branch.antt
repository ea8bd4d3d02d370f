-- ===== src/Trees/Branch.antt =====
-- The branches of a tree: `get_descendants` and `remove_branch` of messaging/trees/data.py, and
-- `get_pending_children` of messaging/trees/repository.py. A loop over a stack of ids runs on fuel,
-- and `none` is a loop that has not ended. A stack has its top first.
pub mod Shape
pub mod Graft
pub mod Grown
pub mod Remove
use liberated_claude_code.Prelude.{
  ℕ, zero, suc, Bool, true, false, not, String, str_eq, List, [], ◌∷◌, ◌++◌, Option, none, some,
  if◌then◌else◌,
}
use liberated_claude_code.Dict.{Dict, get, has, del, modify, discard}
use liberated_claude_code.Trees.Node.{MessageState, pending, MessageNode}
use liberated_claude_code.Trees.Tree.{MessageTree, get_parent}
use liberated_claude_code.Trees.Repository.{TreeRepository, get_tree_for_node}

-- stack.extend(ids)
unfoldable pub extend {ℓ} : {A : Type ℓ} → List A → List A → List A
extend [] stack = stack
extend (x ∷ xs) stack = extend xs (x ∷ stack)

abbrev pub children_of : Option MessageNode → List String
children_of none = []
children_of (some node) = node.children_ids

abbrev pub prepend {ℓ} : {A : Type ℓ} → List A → Option (List A) → Option (List A)
prepend xs none = none
prepend xs (some ys) = some (xs ++ ys)

-- The loop of `get_descendants`; an id with no node is in the result, with nothing below it.
unfoldable pub descend : ℕ → MessageTree → List String → Option (List String)
descend fuel t [] = some []
descend zero t (nid ∷ stack) = none
descend (suc fuel) t (nid ∷ stack) =
    prepend (nid ∷ []) (descend fuel t (extend (children_of (get nid t.nodes)) stack))

unfoldable pub get_descendants : ℕ → String → MessageTree → Option (List String)
get_descendants fuel node_id t =
    let found = descend fuel t (node_id ∷ []) in if has node_id t.nodes then found else some []

-- `del self._status_to_node[id]`, with `none` for a `KeyError`.
abbrev del_status : String → Dict String → Option (Dict String)
del_status status_message_id d =
    if has status_message_id d then some (del status_message_id d) else none

abbrev with_nodes : Dict MessageNode → Option (Dict String) → MessageTree → Option MessageTree
with_nodes nodes none t = none
with_nodes nodes (some status_to_node) t =
    some (record t { nodes = nodes; status_to_node = status_to_node })

-- What the loop does with one id: the tree after it, and the node that is removed.
abbrev pub remove_node : String → Option MessageNode → MessageTree → Option MessageTree
remove_node nid none t = some t
remove_node nid (some node) t =
    with_nodes (del nid t.nodes) (del_status node.status_message_id t.status_to_node) t

abbrev pub found_node : Option MessageNode → List MessageNode
found_node none = []
found_node (some node) = node ∷ []

abbrev pub Removed : Type 0
Removed = Option (MessageTree × List MessageNode)

abbrev pub with_removed : List MessageNode → Removed → Removed
with_removed more none = none
with_removed more (some (t, nodes)) = some (t, more ++ nodes)

unfoldable pub remove_nodes : List String → MessageTree → Removed
remove_nodes [] t = some (t, [])
remove_nodes (nid ∷ nids) t =
    with_removed (found_node (get nid t.nodes))
      (elim (remove_node nid (get nid t.nodes) t) [ none ↦ none | some t' ↦ remove_nodes nids t' ])

abbrev pub drop_child : String → MessageNode → MessageNode
drop_child child node = record node { children_ids = discard child node.children_ids }

abbrev forget_child : String → Option MessageNode → MessageTree → MessageTree
forget_child child none t = t
forget_child child (some parent) t = record t {
  nodes = modify parent.node_id (drop_child child) t.nodes;
}

abbrev without_child : String → Option MessageNode → Removed → Removed
without_child child parent none = none
without_child child parent (some (t, nodes)) = some (forget_child child parent t, nodes)

abbrev remove_found : Option (List String) → MessageTree → Removed
remove_found none t = none
remove_found (some nids) t = remove_nodes nids t

-- `none` is a `KeyError`, or a loop that has not ended. A parent stands under its own id.
unfoldable pub remove_branch : ℕ → String → MessageTree → Removed
remove_branch fuel branch_root_id t =
    if has branch_root_id t.nodes
    then without_child branch_root_id (get_parent branch_root_id t)
        (remove_found (get_descendants fuel branch_root_id t) t)
    else some (t, [])

abbrev is_pending : MessageState → Bool
is_pending pending = true
is_pending _ = false

abbrev pending_one : String → Option MessageNode → List (String × MessageNode)
pending_one child_id none = []
pending_one child_id (some child) = if is_pending child.state then (child_id, child) ∷ [] else []

-- The children that are in the tree and pending, with their ids.
unfoldable pub pending_of : List String → MessageTree → List (String × MessageNode)
pending_of [] t = []
pending_of (child_id ∷ ids) t = pending_one child_id (get child_id t.nodes) ++ pending_of ids t

abbrev firsts : List (String × MessageNode) → List String
firsts [] = []
firsts ((k, n) ∷ ps) = k ∷ firsts ps

abbrev seconds : List (String × MessageNode) → List MessageNode
seconds [] = []
seconds ((k, n) ∷ ps) = n ∷ seconds ps

-- The loop of `get_pending_children`.
unfoldable pub collect_pending : ℕ → MessageTree → List String → Option (List MessageNode)
collect_pending fuel t [] = some []
collect_pending zero t (current_id ∷ stack) = none
collect_pending (suc fuel) t (current_id ∷ stack) =
    let found = pending_of (children_of (get current_id t.nodes)) t in
    prepend (seconds found) (collect_pending fuel t (extend (firsts found) stack))

abbrev pending_in : ℕ → String → Option MessageTree → Option (List MessageNode)
pending_in fuel node_id none = some []
pending_in fuel node_id (some t) = collect_pending fuel t (node_id ∷ [])

unfoldable pub get_pending_children : ℕ → String → TreeRepository → Option (List MessageNode)
get_pending_children fuel node_id repo = pending_in fuel node_id (get_tree_for_node node_id repo)
