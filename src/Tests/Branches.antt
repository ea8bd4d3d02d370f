-- ===== src/Tests/Branches.antt =====
-- Runs on the branches of a tree.
use liberated_claude_code.Prelude.{
  ℕ, ◌≡◌, ◌≤◌, refl, sym, ap, ◌∙◌, inl, inr, Bool-cases, some_eq, none≢some, true, false, String,
  str_eq, eq_iff, List, [], ◌∷◌, Option, none, some, arith, if◌then◌else◌,
}
use liberated_claude_code.Dict.{get, has, put, modify, contains, map_opt}
use liberated_claude_code.Trees.Node
use liberated_claude_code.Trees.Node.{MessageState, pending, in_progress, completed, MessageNode}
use liberated_claude_code.Trees.Tree
use liberated_claude_code.Trees.Tree.{MessageTree, add_node, append_child, get_parent}
use liberated_claude_code.Trees.Repository.{TreeRepository, root_key}
use liberated_claude_code.Trees.Branch.{extend, get_descendants, remove_branch, drop_child}
use liberated_claude_code.Trees.Branch.Shape.{Forest, bare, grow, roots, visit, size, Shows}
use liberated_claude_code.Trees.Branch.Graft.{graft}
use liberated_claude_code.Trees.Branch.Grown.{Grows, planted, added, get_descendants_ends}
use liberated_claude_code.Trees.Branch.Remove.{IsIndexed, get-remove_branch}
use liberated_claude_code.Trees.Manager.{cancel_branch}
use liberated_claude_code.Trees.Manager.Branches.{stopped, get-cancel_branch}
use liberated_claude_code.Tests.Queues.{hello, never}

abbrev node_at : String → MessageState → Option String → List String → String → MessageNode
node_at node_id state parent_id children status = record {
  node_id = node_id;
  incoming = hello;
  status_message_id = status;
  state = state;
  parent_id = parent_id;
  session_id = none;
  children_ids = children;
  created_at = 0;
  completed_at = none;
  error_message = none;
  context = none;
}

abbrev seed : MessageNode
seed = node_at "a" in_progress none [] "sa"

-- "a" with the replies "b" and "c", and "d" below "b".
abbrev family : MessageTree
family = record (Tree.new seed) {
  nodes =
      ("a", node_at "a" completed none ("b" ∷ "c" ∷ []) "sa")
      ∷ ("b", node_at "b" in_progress (some "a") ("d" ∷ []) "sb")
      ∷ ("c", node_at "c" pending (some "a") [] "sc")
      ∷ ("d", node_at "d" pending (some "b") [] "sd")
      ∷ [];
  status_to_node = ("sa", "a") ∷ ("sb", "b") ∷ ("sc", "c") ∷ ("sd", "d") ∷ [];
}

abbrev below_b : Forest
below_b = grow "d" bare bare

abbrev status_key : String → Option String
status_key status_message_id = get status_message_id family.status_to_node

indexed_at :
    (k id : String) (node n : MessageNode)
    → str_eq k id ≡ true
    → some node ≡ some n
    → status_key node.status_message_id ≡ some k
    → status_key n.status_message_id ≡ some id
indexed_at k id node n s e h =
    ap (λ (m : MessageNode). status_key m.status_message_id) (sym (some_eq e))
    ∙ h
    ∙ ap some ((eq_iff k id).0 s)

family-IsIndexed : IsIndexed family
unfolding get Tree.new
family-IsIndexed id n e = elim (Bool-cases (str_eq "a" id)) [
  | inl a ↦ indexed_at "a" id _ n a (rw a at e) refl
  | inr a ↦ elim (Bool-cases (str_eq "b" id)) [
    | inl b ↦ indexed_at "b" id _ n b (rw (a, b) at e) refl
    | inr b ↦ elim (Bool-cases (str_eq "c" id)) [
      | inl c ↦ indexed_at "c" id _ n c (rw (a, b, c) at e) refl
      | inr c ↦ elim (Bool-cases (str_eq "d" id)) [
        | inl d ↦ indexed_at "d" id _ n d (rw (a, b, c, d) at e) refl
        | inr d ↦ absurd (none≢some (rw (a, b, c, d) at e))
      ]
    ]
  ]
]

b_known : has "b" family.nodes ≡ true
unfolding get Tree.new
b_known = refl

b_shown : Shows family (grow "b" below_b bare)
unfolding Shows get extend roots Tree.new
b_shown = (refl, (refl, tt, tt), tt)

b_size : size (grow "b" below_b bare) ≤ 2
unfolding size
b_size = omega arith

b_parent : get_parent "b" family ≡ some (node_at "a" completed none ("b" ∷ "c" ∷ []) "sa")
unfolding get_parent get Tree.new
b_parent = refl

get-remove_branch_example :
    (t' : MessageTree) × (ns : List MessageNode) × (remove_branch 2 "b" family ≡ some (t', ns))
    × ((j : String)
        → get j t'.nodes ≡ (
            if contains j (visit (grow "b" below_b bare))
            then none
            else if str_eq "a" j
            then map_opt (drop_child "b") (get j family.nodes)
            else get j family.nodes))
get-remove_branch_example =
    get-remove_branch 2 "b" below_b (node_at "a" completed none ("b" ∷ "c" ∷ []) "sa") family
      family-IsIndexed b_known b_shown b_size b_parent

abbrev home : TreeRepository
home = record {
  trees = ("a", family) ∷ [];
  node_to_tree = ("a", "a") ∷ ("b", "a") ∷ ("c", "a") ∷ ("d", "a") ∷ [];
}

b_key : root_key (get "b" home.node_to_tree) ≡ some "a"
unfolding get
b_key = refl

a_tree : get "a" home.trees ≡ some family
unfolding get
a_tree = refl

get-cancel_branch_example :
    (repo' : TreeRepository) × (ns : List MessageNode) × (tasks : List ℕ) × (t' : MessageTree)
    × (cancel_branch 2 never 9 "b" home ≡ some (repo', ns, tasks))
    × (get "a" repo'.trees ≡ some t')
    × ((j : String)
        → get j t'.nodes ≡ (
            if contains j (visit (grow "b" below_b bare))
            then map_opt (stopped 9) (get j family.nodes)
            else get j family.nodes))
get-cancel_branch_example =
    get-cancel_branch 2 never 9 "b" "a" below_b family home b_key a_tree b_known b_shown b_size

-- "b" is added below "a".
abbrev pair : MessageTree
pair = record (Tree.new seed) {
  nodes = ("a", append_child "b" seed) ∷ ("b", Node.new 5 "b" hello "sb" (some "a")) ∷ [];
  status_to_node = ("sa", "a") ∷ ("sb", "b") ∷ [];
}

b_is_new : has "b" (Tree.new seed).nodes ≡ false
unfolding get Tree.new
b_is_new = refl

b_added : add_node 5 "b" hello "sb" "a" (Tree.new seed) ≡ some pair
unfolding add_node get put modify Tree.new
b_added = refl

pair-Grows : Grows pair (graft "a" "b" (grow "a" bare bare))
pair-Grows =
    added 5 "b" hello "sb" "a" (Tree.new seed) pair (grow "a" bare bare) (planted seed refl)
      b_is_new b_added

a_known : has "a" pair.nodes ≡ true
unfolding get Tree.new
a_known = refl

pair_size : size (graft "a" "b" (grow "a" bare bare)) ≤ 2
unfolding size graft
pair_size = omega arith

get_descendants_ends_example :
    (kids : Forest) × (Shows pair (grow "a" kids bare)
      × (get_descendants 2 "a" pair ≡ some (visit (grow "a" kids bare))))
get_descendants_ends_example =
    get_descendants_ends 2 "a" pair (graft "a" "b" (grow "a" bare bare)) pair-Grows a_known
      pair_size
