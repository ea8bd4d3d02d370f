-- ===== src/Trees/Manager/Branches.antt =====
-- messaging/trees/queue_manager.py: what `cancel_branch` does to each node.
use liberated_claude_code.Prelude.{
  ℕ, ◌≤◌, eq_refl, ◌≡◌, refl, sym, ap, ◌∙◌, inl, inr, Bool, true, false, String, str_eq, eq_iff,
  List, [], ◌∷◌, Option, none, some, Bool-cases, Option-cases, if◌then◌else◌,
}
use liberated_claude_code.Dict.{get, has, put, get-put_same, contains, get-modify, map_opt}
use liberated_claude_code.Trees.Node.{MessageNode, is_terminal, set_node_error_sync}
use liberated_claude_code.Trees.Tree.{MessageTree, is_current_node, remove_from_queue}
use liberated_claude_code.Trees.Cancel.{by_user}
use liberated_claude_code.Trees.Manager.{Stopped, stop_live, stop_found, stop_nodes, cancel_branch}
use liberated_claude_code.Trees.Repository.{TreeRepository, root_key, get_tree_for_node}
use liberated_claude_code.Trees.Branch.Shape.{
  Forest, bare, grow, visit, size, Shows, get_descendants-visit,
}

-- A node that has not ended is in error.
abbrev pub stopped : ℕ → MessageNode → MessageNode
stopped now node = if is_terminal node.state then node else set_node_error_sync now by_user node

stopped_again : (now : ℕ) (node : MessageNode) → stopped now (stopped now node) ≡ stopped now node
unfolding is_terminal set_node_error_sync
stopped_again now node = elim (Bool-cases (is_terminal node.state)) [
  | inl e ↦ rw (e, e)
  | inr e ↦ rw e
]

get-stop_live :
    (done : ℕ → Bool) (now : ℕ) (nid : String) (node : MessageNode) (t : MessageTree) (j : String)
    → get j (stop_live done now nid node t).tree.nodes ≡ (
        if str_eq nid j
        then map_opt (set_node_error_sync now by_user) (get j t.nodes)
        else get j t.nodes)
unfolding remove_from_queue
get-stop_live done now nid node t j = elim (Bool-cases (is_current_node nid t)) [
  | inl e ↦ rw e (get-modify j nid (set_node_error_sync now by_user) t.nodes)
  | inr e ↦ rw e (get-modify j nid (set_node_error_sync now by_user) t.nodes)
]

get-stop_found :
    (done : ℕ → Bool) (now : ℕ) (nid : String) (t : MessageTree) (j : String)
    → get j (stop_found done now nid (get nid t.nodes) t).tree.nodes
      ≡ (if str_eq nid j then map_opt (stopped now) (get j t.nodes) else get j t.nodes)
get-stop_found done now nid t j = elim (Option-cases (get nid t.nodes)) [
  | inl e ↦ elim (Bool-cases (str_eq nid j)) [
    | inl s ↦
        let gone : get j t.nodes ≡ none = ap (λ k. get k t.nodes) (sym ((eq_iff nid j).0 s)) ∙ e in
        rw (e, s, gone)
    | inr s ↦ rw (e, s)
  ]
  | inr (node, e) ↦ elim (Bool-cases (is_terminal node.state)) [
    | inl d ↦ elim (Bool-cases (str_eq nid j)) [
      | inl s ↦
          let at_j : get j t.nodes ≡ some node =
            ap (λ k. get k t.nodes) (sym ((eq_iff nid j).0 s)) ∙ e in
          rw (e, d, s, at_j, d)
      | inr s ↦ rw (e, d, s)
    ]
    | inr d ↦ elim (Bool-cases (str_eq nid j)) [
      | inl s ↦
          let at_j : get j t.nodes ≡ some node =
            ap (λ k. get k t.nodes) (sym ((eq_iff nid j).0 s)) ∙ e in
          rw (e, d, get-stop_live done now nid node t j, s, at_j, d)
      | inr s ↦ rw (e, d, get-stop_live done now nid node t j, s)
    ]
  ]
]

-- Twice is once.
stopped_or_not :
    (now : ℕ) (here below : Bool) (o : Option MessageNode)
    → (if below
        then map_opt (stopped now) (if here then map_opt (stopped now) o else o)
        else if here
        then map_opt (stopped now) o
        else o)
      ≡ (if (if here then true else below) then map_opt (stopped now) o else o)
stopped_or_not now true true none = refl
stopped_or_not now true true (some node) = ap some (stopped_again now node)
stopped_or_not now true false o = refl
stopped_or_not now false below o = refl

get-stop_nodes :
    (done : ℕ → Bool) (now : ℕ) (nids : List String) (t : MessageTree) (j : String)
    → get j (stop_nodes done now nids t).tree.nodes
      ≡ (if contains j nids then map_opt (stopped now) (get j t.nodes) else get j t.nodes)
unfolding stop_nodes contains
get-stop_nodes done now [] t j = refl
get-stop_nodes done now (nid ∷ nids) t j =
    rw
      (
        get-stop_nodes done now nids (stop_found done now nid (get nid t.nodes) t).tree j,
        get-stop_found done now nid t j,
      )
      (stopped_or_not now (str_eq nid j) (contains j nids) (get j t.nodes))

-- A branch of a tree that the repository knows under `key`, with as much fuel as the branch has ids,
-- or more: `cancel_branch` ends, and in the tree that then stands under the key every node of the
-- branch that had not ended is in error, cancelled by the user, and every other node is as it was.
pub get-cancel_branch :
    (fuel : ℕ) (done : ℕ → Bool) (now : ℕ) (id key : String) (kids : Forest) (t : MessageTree)
    (repo : TreeRepository)
    → root_key (get id repo.node_to_tree) ≡ some key
    → get key repo.trees ≡ some t
    → has id t.nodes ≡ true
    → Shows t (grow id kids bare)
    → size (grow id kids bare) ≤ fuel
    → (repo' : TreeRepository) × (ns : List MessageNode) × (tasks : List ℕ) × (t' : MessageTree)
      × (cancel_branch fuel done now id repo ≡ some (repo', ns, tasks))
      × (get key repo'.trees ≡ some t')
      × ((j : String)
          → get j t'.nodes ≡ (
              if contains j (visit (grow id kids bare))
              then map_opt (stopped now) (get j t.nodes)
              else get j t.nodes))
unfolding cancel_branch get_tree_for_node
get-cancel_branch fuel done now id key kids t repo at_key at_tree known shows enough =
    let ids : List String = visit (grow id kids bare) in
    let s : Stopped = stop_nodes done now ids t in
    (
      record repo { trees = put key s.tree repo.trees },
      s.nodes,
      s.tasks,
      s.tree,
      rw (at_key, at_tree, get_descendants-visit fuel id kids t known shows enough, at_key),
      get-put_same key key s.tree repo.trees (eq_refl key),
      get-stop_nodes done now ids t,
    )
