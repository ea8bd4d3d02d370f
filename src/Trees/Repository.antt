-- ===== src/Trees/Repository.antt =====
-- `TreeRepository` of messaging/trees/repository.py. A tree is a shared object: a write to one is a
-- write to the entry under its root id.
pub mod Lookup
pub mod Saved
use liberated_claude_code.Prelude.{
  ℕ, Bool, true, false, ◌&&◌, String, List, [], ◌∷◌, Option, none, some, str_eq, if◌then◌else◌,
  length,
}
use liberated_claude_code.Dict.{Dict, get, has, put, del, modify, values, keys, map_values, add}
use liberated_claude_code.Trees.Node.{IncomingMessage, MessageNode}
use liberated_claude_code.Trees.Node
use liberated_claude_code.Trees.Tree
use liberated_claude_code.Trees.Tree.{MessageTree, all_nodes, find_node_by_status_message}

pub record TreeRepository : Type 0 where
  pub trees : Dict MessageTree
  pub node_to_tree : Dict String

abbrev pub empty : TreeRepository
empty = record { trees = []; node_to_tree = [] }

unfoldable pub get_tree : String → TreeRepository → Option MessageTree
get_tree root_id repo = get root_id repo.trees

-- The key under which the tree of a node stands; the empty text is no key.
abbrev pub root_key : Option String → Option String
root_key none = none
root_key (some root_id) = if str_eq root_id "" then none else some root_id

abbrev pub tree_at : Option String → Dict MessageTree → Option MessageTree
tree_at none trees = none
tree_at (some root_id) trees = get root_id trees

unfoldable pub get_tree_for_node : String → TreeRepository → Option MessageTree
get_tree_for_node node_id repo = tree_at (root_key (get node_id repo.node_to_tree)) repo.trees

abbrev pub node_in : String → Option MessageTree → Option MessageNode
node_in node_id none = none
node_in node_id (some tree) = get node_id tree.nodes

unfoldable pub get_node : String → TreeRepository → Option MessageNode
get_node node_id repo = node_in node_id (get_tree_for_node node_id repo)

unfoldable pub add_tree : String → MessageTree → TreeRepository → TreeRepository
add_tree root_id tree repo = record {
  trees = put root_id tree repo.trees;
  node_to_tree = put root_id root_id repo.node_to_tree;
}

unfoldable pub register_node : String → String → TreeRepository → TreeRepository
register_node node_id root_id repo = record repo {
  node_to_tree = put node_id root_id repo.node_to_tree;
}

unfoldable pub has_node : String → TreeRepository → Bool
has_node node_id repo = has node_id repo.node_to_tree

unfoldable pub tree_count : TreeRepository → ℕ
tree_count repo = length repo.trees

abbrev busy : Option MessageTree → Bool
busy none = false
busy (some tree) = tree.is_processing

unfoldable pub is_tree_busy : String → TreeRepository → Bool
is_tree_busy root_id repo = busy (get root_id repo.trees)

unfoldable pub is_node_tree_busy : String → TreeRepository → Bool
is_node_tree_busy node_id repo = busy (get_tree_for_node node_id repo)

abbrev size_of : Option MessageTree → ℕ
size_of none = 0
size_of (some tree) = Tree.get_queue_size tree

unfoldable pub get_queue_size : String → TreeRepository → ℕ
get_queue_size node_id repo = size_of (get_tree_for_node node_id repo)

abbrev node_id_of : Option MessageNode → Option String
node_id_of none = none
node_id_of (some node) = some node.node_id

-- The id itself if it is a node, or the node whose status message it is.
abbrev resolve_in : String → Option MessageTree → Option String
resolve_in msg_id none = none
resolve_in msg_id (some tree) =
    if Tree.has_node msg_id tree
    then some msg_id
    else node_id_of (find_node_by_status_message msg_id tree)

unfoldable pub resolve_parent_node_id : String → TreeRepository → Option String
resolve_parent_node_id msg_id repo = resolve_in msg_id (get_tree_for_node msg_id repo)

unfoldable pub all_trees : TreeRepository → List MessageTree
all_trees repo = values repo.trees

unfoldable pub tree_ids : TreeRepository → List String
tree_ids repo = keys repo.trees

abbrev del_all : List String → Dict String → Dict String
del_all [] d = d
del_all (nid ∷ nids) d = del_all nids (del nid d)

unfoldable pub unregister_nodes : List String → TreeRepository → TreeRepository
unregister_nodes node_ids repo = record repo { node_to_tree = del_all node_ids repo.node_to_tree }

abbrev ids_of : List MessageNode → List String
ids_of [] = []
ids_of (n ∷ ns) = n.node_id ∷ ids_of ns

unfoldable pub remove_tree : String → TreeRepository → Option MessageTree × TreeRepository
remove_tree root_id repo = elim (get root_id repo.trees) [
  | none ↦ (none, repo)
  | some tree ↦ (
    some tree,
    record {
      trees = del root_id repo.trees;
      node_to_tree = del_all (ids_of (all_nodes tree)) repo.node_to_tree;
    },
  )
]

-- The ids of one node's messages, if it belongs to the chat.
abbrev add_message_ids : String → String → MessageNode → List String → List String
add_message_ids platform chat_id node msg_ids =
    if str_eq node.incoming.platform platform && str_eq node.incoming.chat_id chat_id
    then (let with_incoming = add node.incoming.message_id msg_ids in
        if str_eq node.status_message_id ""
        then with_incoming
        else add node.status_message_id with_incoming)
    else msg_ids

abbrev message_ids_of : String → String → List MessageNode → List String → List String
message_ids_of platform chat_id [] msg_ids = msg_ids
message_ids_of platform chat_id (n ∷ ns) msg_ids =
    message_ids_of platform chat_id ns (add_message_ids platform chat_id n msg_ids)

abbrev message_ids_in : String → String → List MessageTree → List String → List String
message_ids_in platform chat_id [] msg_ids = msg_ids
message_ids_in platform chat_id (t ∷ ts) msg_ids =
    message_ids_in platform chat_id ts (message_ids_of platform chat_id (all_nodes t) msg_ids)

unfoldable pub get_message_ids_for_chat : String → String → TreeRepository → List String
get_message_ids_for_chat platform chat_id repo = message_ids_in platform chat_id (all_trees repo) []

-- `TreeQueueManager.create_tree` of messaging/trees/queue_manager.py, at the time `now`.
unfoldable pub create_tree : ℕ → String → IncomingMessage → String → TreeRepository → TreeRepository
create_tree now node_id incoming status_message_id repo =
    add_tree node_id (Tree.new (Node.new now node_id incoming status_message_id none)) repo

-- The write of a tree that was found under `key`, and the registration of its new node.
abbrev pub added_to : String → Option String → MessageTree → TreeRepository → TreeRepository
added_to node_id none tree repo = repo
added_to node_id (some key) tree repo =
    register_node node_id tree.root_id (record repo { trees = put key tree repo.trees })

-- `TreeQueueManager.add_to_tree`; `none` is a `ValueError`, of the manager or of the tree.
unfoldable pub add_to_tree :
    ℕ → String → String → IncomingMessage → String → TreeRepository → Option TreeRepository
add_to_tree now parent_node_id node_id incoming status_message_id repo =
    if has_node parent_node_id repo
    then elim (get_tree_for_node parent_node_id repo) [
      | none ↦ none
      | some tree ↦
          elim (Tree.add_node now node_id incoming status_message_id parent_node_id tree) [
            | none ↦ none
            | some tree' ↦
                some (added_to node_id (root_key (get parent_node_id repo.node_to_tree)) tree' repo)
          ]
    ]
    else none
