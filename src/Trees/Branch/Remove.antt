-- ===== src/Trees/Branch/Remove.antt =====
-- messaging/trees/data.py: what `remove_branch` leaves.
use mathlib.Core.Bool.{true≢false}
use liberated_claude_code.Prelude.{
  ℕ, ◌≤◌, ◌≡◌, refl, sym, ap, ◌∙◌, inl, inr, Bool, true, false, String, str_eq, eq_iff, List, [],
  ◌∷◌, Option, none, some, Bool-cases, Option-cases, some_eq, none≢some, if◌then◌else◌,
}
use liberated_claude_code.Dict.{Dict, get, has, del, modify, contains, get-del, get-modify, map_opt}
use liberated_claude_code.Trees.Node.{MessageNode}
use liberated_claude_code.Trees.Tree.{MessageTree, get_parent}
use liberated_claude_code.Trees.Branch.{remove_nodes, drop_child, remove_branch}
use liberated_claude_code.Trees.Branch.Shape.{
  Forest, bare, grow, visit, size, Shows, get_descendants-visit,
}

-- The status message of each node leads to the node's key.
abbrev pub IsIndexed : MessageTree → Type 0
IsIndexed t =
    (id : String) (n : MessageNode)
    → get id t.nodes ≡ some n
    → get n.status_message_id t.status_to_node ≡ some id

abbrev without : String → MessageNode → MessageTree → MessageTree
without nid node t = record t {
  nodes = del nid t.nodes;
  status_to_node = del node.status_message_id t.status_to_node;
}

without-IsIndexed :
    (nid : String) (node : MessageNode) (t : MessageTree)
    → get nid t.nodes ≡ some node
    → IsIndexed t
    → IsIndexed (without nid node t)
without-IsIndexed nid node t at h id n found = elim (Bool-cases (str_eq nid id)) [
  | inl e ↦ absurd (none≢some (rw (get-del id nid t.nodes, e) at found))
  | inr e ↦
      let there : get id t.nodes ≡ some n = rw (get-del id nid t.nodes, e) at found in
      let mine : get n.status_message_id t.status_to_node ≡ some id = h id n there in
      elim (Bool-cases (str_eq node.status_message_id n.status_message_id)) [
        | inl s ↦
            let theirs : get n.status_message_id t.status_to_node ≡ some nid =
              ap (λ k. get k t.status_to_node)
                (sym ((eq_iff node.status_message_id n.status_message_id).0 s))
              ∙ h nid node at in
            absurd (true≢false (sym ((eq_iff nid id).1 (some_eq (sym theirs ∙ mine))) ∙ e))
        | inr s ↦ rw (get-del n.status_message_id node.status_message_id t.status_to_node, s) mine
      ]
]

-- The nodes that are left when these ids are removed.
abbrev left : String → List String → Dict MessageNode → Option MessageNode
left j ids nodes = if contains j ids then none else get j nodes

left_absent :
    (j nid : String) (ids : List String) (nodes : Dict MessageNode)
    → get nid nodes ≡ none
    → left j ids nodes ≡ left j (nid ∷ ids) nodes
unfolding contains
left_absent j nid ids nodes e = elim (Bool-cases (str_eq nid j)) [
  | inl s ↦
      let gone : get j nodes ≡ none = ap (λ k. get k nodes) (sym ((eq_iff nid j).0 s)) ∙ e in
      elim (Bool-cases (contains j ids)) [ inl c ↦ rw (s, c) | inr c ↦ rw (s, c, gone) ]
  | inr s ↦ rw s
]

left_del :
    (j nid : String) (ids : List String) (nodes : Dict MessageNode)
    → left j ids (del nid nodes) ≡ left j (nid ∷ ids) nodes
unfolding contains
left_del j nid ids nodes = elim (Bool-cases (str_eq nid j)) [
  | inl s ↦ elim (Bool-cases (contains j ids)) [
    | inl c ↦ rw (s, c)
    | inr c ↦ rw (s, c, get-del j nid nodes, s)
  ]
  | inr s ↦ rw (s, get-del j nid nodes, s)
]

record Removes (ids : List String) (t : MessageTree) : Type 0 where
  tree : MessageTree
  nodes : List MessageNode
  done : remove_nodes ids t ≡ some (tree, nodes)
  rest : (j : String) → get j tree.nodes ≡ left j ids t.nodes

remove_nodes-Removes : (ids : List String) (t : MessageTree) → IsIndexed t → Removes ids t
unfolding remove_nodes contains
remove_nodes-Removes [] t h = record { tree = t; nodes = []; done = refl; rest = λ j. refl }
remove_nodes-Removes (nid ∷ ids) t h = elim (Option-cases (get nid t.nodes)) [
  | inl e ↦
      let r = remove_nodes-Removes ids t h in
      record {
        tree = r.tree;
        nodes = r.nodes;
        done = rw (e, r.done);
        rest = λ j. r.rest j ∙ left_absent j nid ids t.nodes e;
      }
  | inr (node, e) ↦
      let r = remove_nodes-Removes ids (without nid node t) (without-IsIndexed nid node t e h) in
      record {
        tree = r.tree;
        nodes = node ∷ r.nodes;
        done = rw (e, h nid node e, r.done);
        rest = λ j. r.rest j ∙ left_del j nid ids t.nodes;
      }
]

removed_or_modified :
    {A : Type 0} (gone here : Bool) (f : A → A) (o : Option A)
    → (if here then map_opt f (if gone then none else o) else (if gone then none else o))
      ≡ (if gone then none else if here then map_opt f o else o)
removed_or_modified true true f o = refl
removed_or_modified true false f o = refl
removed_or_modified false true f o = refl
removed_or_modified false false f o = refl

-- A branch whose parent is in the tree, with as much fuel as the branch has ids, or more, in a tree
-- whose status messages lead to their nodes: `remove_branch` ends without a `KeyError`, and leaves
-- none of the nodes of the branch; of the others it changes one alone, the parent, whose list of
-- children loses the branch.
pub get-remove_branch :
    (fuel : ℕ) (id : String) (kids : Forest) (parent : MessageNode) (t : MessageTree)
    → IsIndexed t
    → has id t.nodes ≡ true
    → Shows t (grow id kids bare)
    → size (grow id kids bare) ≤ fuel
    → get_parent id t ≡ some parent
    → (t' : MessageTree) × (ns : List MessageNode) × (remove_branch fuel id t ≡ some (t', ns))
      × ((j : String)
          → get j t'.nodes ≡ (
              if contains j (visit (grow id kids bare))
              then none
              else if str_eq parent.node_id j
              then map_opt (drop_child id) (get j t.nodes)
              else get j t.nodes))
unfolding remove_branch
get-remove_branch fuel id kids parent t h known shows enough up =
    let ids : List String = visit (grow id kids bare) in
    let r = remove_nodes-Removes ids t h in
    (
      record r.tree { nodes = modify parent.node_id (drop_child id) r.tree.nodes },
      r.nodes,
      rw (known, up, get_descendants-visit fuel id kids t known shows enough, r.done),
      λ j.
          rw (get-modify j parent.node_id (drop_child id) r.tree.nodes, r.rest j)
            (removed_or_modified (contains j ids) (str_eq parent.node_id j) (drop_child id)
              (get j t.nodes)),
    )
