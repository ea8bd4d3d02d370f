-- ===== src/Trees/Repository/Lookup.antt =====
-- messaging/trees/queue_manager.py: lookups in the repository after `add_to_tree`.
use liberated_claude_code.Prelude.{
  ℕ, ◌≡◌, refl, sym, ap, ◌∙◌, ◌⊎◌, inl, inr, true, false, String, str_eq, eq_iff, eq_refl, Option,
  none, some, if◌then◌else◌, Bool-cases, Option-cases, some_eq, none≢some,
}
use liberated_claude_code.Dict.{
  Dict, get, put, modify, map_opt, get-put, get-put_same, get-put_other, get-modify,
}
use liberated_claude_code.Trees.Node
use liberated_claude_code.Trees.Node.{IncomingMessage, MessageNode}
use liberated_claude_code.Trees.Tree
use liberated_claude_code.Trees.Tree.{MessageTree, append_child}
use liberated_claude_code.Trees.Repository.{
  TreeRepository, get_tree_for_node, get_node, add_to_tree, register_node, root_key, tree_at,
  node_in, has_node,
}

-- Every tree stands under its own root id.
abbrev pub RootsMatch : TreeRepository → Type 0
RootsMatch repo =
    (key : String) (tree : MessageTree) → get key repo.trees ≡ some tree → tree.root_id ≡ key

-- Where a node is found.
pub record Found (node_id : String) (repo : TreeRepository) : Type 0 where
  pub key : String
  pub tree : MessageTree
  pub key_is : root_key (get node_id repo.node_to_tree) ≡ some key
  pub tree_is : get key repo.trees ≡ some tree

node-Found :
    (node_id : String) (node : MessageNode) (repo : TreeRepository)
    → get_node node_id repo ≡ some node
    → (f : Found node_id repo) × (get node_id f.tree.nodes ≡ some node)
unfolding get_node get_tree_for_node
node-Found node_id node repo e = elim (Option-cases (root_key (get node_id repo.node_to_tree))) [
  | inl h ↦ absurd (none≢some (rw h at e))
  | inr (key, h) ↦ elim (Option-cases (get key repo.trees)) [
    | inl g ↦ absurd (none≢some (rw (h, g) at e))
    | inr (tree, g) ↦ (record { key = key; tree = tree; key_is = h; tree_is = g }, rw (h, g) at e)
  ]
]

added_nodes :
    (now : ℕ) (node_id parent : String) (incoming : IncomingMessage) (status : String)
    (p : MessageNode) (tree : MessageTree)
    → get parent tree.nodes ≡ some p
    → (t' : MessageTree) × (Tree.add_node now node_id incoming status parent tree ≡ some t')
      × (t'.root_id ≡ tree.root_id)
      × (t'.nodes
          ≡ modify parent
              (append_child node_id)
              (put node_id (Node.new now node_id incoming status (some parent)) tree.nodes))
unfolding Tree.add_node
added_nodes now node_id parent incoming status p tree e = (
  record tree {
    nodes =
        modify parent (append_child node_id)
          (put node_id (Node.new now node_id incoming status (some parent)) tree.nodes);
    status_to_node = put status node_id tree.status_to_node;
  },
  rw e refl,
  refl,
  refl,
)

root_key_again :
    (o : Option String) (key : String) → root_key o ≡ some key → root_key (some key) ≡ some key
root_key_again none key e = absurd (none≢some e)
root_key_again (some r) key e = elim (Bool-cases (str_eq r "")) [
  | inl h ↦ absurd (none≢some (rw h at e))
  | inr h ↦ let e' : some r ≡ some key = rw h at e in rw (← some_eq e') (rw h refl)
]

-- What a lookup finds after a reply was added under `parent`.
abbrev pub after_add :
    ℕ
    → String
    → String
    → IncomingMessage
    → String
    → MessageNode
    → TreeRepository
    → String
    → Option MessageNode
after_add now parent node_id incoming status p repo j =
    if str_eq node_id j
    then some (Node.new now node_id incoming status (some parent))
    else if str_eq parent j
    then some (append_child node_id p)
    else get_node j repo

nodes_after :
    (now : ℕ) (parent node_id : String) (incoming : IncomingMessage) (status : String)
    (p : MessageNode) (d : Dict MessageNode) (j : String)
    → get parent d ≡ some p
    → str_eq parent node_id ≡ false
    → get j (
        modify parent
          (append_child node_id)
          (put node_id (Node.new now node_id incoming status (some parent)) d))
      ≡ (if str_eq node_id j
          then some (Node.new now node_id incoming status (some parent))
          else if str_eq parent j
          then some (append_child node_id p)
          else get j d)
nodes_after now parent node_id incoming status p d j found apart =
    let n = Node.new now node_id incoming status (some parent) in
    get-modify j parent (append_child node_id) (put node_id n d)
    ∙ ap (λ x. if str_eq parent j then map_opt (append_child node_id) x else x)
        (get-put j node_id n d)
    ∙ cases (Bool-cases (str_eq node_id j)) (Bool-cases (str_eq parent j))
  where
    at_j : str_eq parent j ≡ true → get j d ≡ some p
    at_j h = ap (λ i. get i d) (sym ((eq_iff parent j).0 h)) ∙ found

    apart_j : str_eq node_id j ≡ true → str_eq parent j ≡ false
    apart_j h = ap (λ i. str_eq parent i) (sym ((eq_iff node_id j).0 h)) ∙ apart

    cases :
        (str_eq node_id j ≡ true) ⊎ (str_eq node_id j ≡ false)
        → (str_eq parent j ≡ true) ⊎ (str_eq parent j ≡ false)
        → (let x =
              if str_eq node_id j
              then some (Node.new now node_id incoming status (some parent))
              else get j d in
            if str_eq parent j then map_opt (append_child node_id) x else x)
          ≡ (if str_eq node_id j
              then some (Node.new now node_id incoming status (some parent))
              else if str_eq parent j
              then some (append_child node_id p)
              else get j d)
    cases (inl h) g = rw (h, apart_j h) refl
    cases (inr h) (inl g) = rw (h, g, at_j g) refl
    cases (inr h) (inr g) = rw (h, g) refl

abbrev written : String → MessageTree → String → TreeRepository → TreeRepository
written key tree node_id repo = record {
  trees = put key tree repo.trees;
  node_to_tree = put node_id key repo.node_to_tree;
}

module _ (now : ℕ) (parent node_id : String) (incoming : IncomingMessage) (status : String)
    (p : MessageNode) (repo : TreeRepository) (key : String) (tree t' : MessageTree)
    (key_is : root_key (get parent repo.node_to_tree) ≡ some key)
    (tree_is : get key repo.trees ≡ some tree) (found : get parent tree.nodes ≡ some p)
    (apart : str_eq parent node_id ≡ false)
    (nodes_are : t'.nodes
      ≡ modify parent
          (append_child node_id)
          (put node_id (Node.new now node_id incoming status (some parent)) tree.nodes)) where
  -- Without the node's own entry, a lookup under `o`.
  lookup_at :
      (j : String) (o : Option String)
      → root_key (get j repo.node_to_tree) ≡ o
      → str_eq node_id j ≡ false
      → node_in j (tree_at o (put key t' repo.trees)) ≡ (
          if str_eq parent j
          then some (append_child node_id p)
          else node_in j (tree_at o repo.trees))
  lookup_at j none at_o other = elim (Bool-cases (str_eq parent j)) [
    | inl h ↦
        let same : some key ≡ none =
          sym key_is
          ∙ ap (λ i. root_key (get i repo.node_to_tree)) ((eq_iff parent j).0 h)
          ∙ at_o in
        absurd (none≢some (sym same))
    | inr h ↦ rw h refl
  ]
  lookup_at j (some k) at_o other = elim (Bool-cases (str_eq key k)) [
    | inl e ↦
        let same : key ≡ k = (eq_iff key k).0 e in
        let at_k : get k repo.trees ≡ some tree = ap (λ i. get i repo.trees) (sym same) ∙ tree_is in
        ap (node_in j) (get-put_same k key t' repo.trees e)
        ∙ ap (get j) nodes_are
        ∙ nodes_after now parent node_id incoming status p tree.nodes j found apart
        ∙ rw (other, at_k) refl
    | inr e ↦ elim (Bool-cases (str_eq parent j)) [
      | inl h ↦
          let same : some key ≡ some k =
            sym key_is
            ∙ ap (λ i. root_key (get i repo.node_to_tree)) ((eq_iff parent j).0 h)
            ∙ at_o in
          let clash : str_eq key k ≡ true = (eq_iff key k).1 (some_eq same) in
          absurd (off_on (sym clash ∙ e))
      | inr h ↦ ap (node_in j) (get-put_other k key t' repo.trees e) ∙ rw h refl
    ]
  ]
    where
      off_on : true ≡ false → ⊥
      off_on e = cc

  lookup_written :
      (j : String)
      → get_node j (written key t' node_id repo)
        ≡ after_add now parent node_id incoming status p repo j
  unfolding get_node get_tree_for_node
  lookup_written j = elim (Bool-cases (str_eq node_id j)) [
    | inl h ↦
        ap (λ o. node_in j (tree_at (root_key o) (put key t' repo.trees)))
          (get-put_same j node_id key repo.node_to_tree h)
        ∙ ap (λ o. node_in j (tree_at o (put key t' repo.trees)))
            (root_key_again (get parent repo.node_to_tree) key key_is)
        ∙ ap (node_in j) (get-put_same key key t' repo.trees (eq_refl key))
        ∙ ap (get j) nodes_are
        ∙ nodes_after now parent node_id incoming status p tree.nodes j found apart
        ∙ rw h refl
    | inr h ↦
        ap (λ o. node_in j (tree_at (root_key o) (put key t' repo.trees)))
          (get-put_other j node_id key repo.node_to_tree h)
        ∙ lookup_at j (root_key (get j repo.node_to_tree)) refl h
        ∙ rw h refl
  ]

root_known :
    (o : Option String) (key : String) → root_key o ≡ some key → (r : String) × (o ≡ some r)
root_known none key e = absurd (none≢some e)
root_known (some r) key e = (r, refl)

get_tree_for_node-Found :
    (node_id : String) (repo : TreeRepository) (f : Found node_id repo)
    → get_tree_for_node node_id repo ≡ some f.tree
unfolding get_tree_for_node
get_tree_for_node-Found node_id repo f = ap (λ o. tree_at o repo.trees) f.key_is ∙ f.tree_is

add_to_tree-written :
    (now : ℕ) (parent node_id : String) (incoming : IncomingMessage) (status : String)
    (repo : TreeRepository) (f : Found parent repo) (t' : MessageTree)
    → Tree.add_node now node_id incoming status parent f.tree ≡ some t'
    → t'.root_id ≡ f.key
    → add_to_tree now parent node_id incoming status repo ≡ some (written f.key t' node_id repo)
unfolding add_to_tree has_node register_node
add_to_tree-written now parent node_id incoming status repo f t' added root =
    let (r, e) = root_known (get parent repo.node_to_tree) f.key f.key_is in
    rw (e, get_tree_for_node-Found parent repo f, added, f.key_is, root) refl

RootsMatch-written :
    (repo : TreeRepository) (key node_id : String) (t' : MessageTree)
    → t'.root_id ≡ key
    → RootsMatch repo
    → RootsMatch (written key t' node_id repo)
RootsMatch-written repo key node_id t' root h k u e = elim (Bool-cases (str_eq key k)) [
  | inl s ↦
      let same : some t' ≡ some u = sym (get-put_same k key t' repo.trees s) ∙ e in
      ap (λ (x : MessageTree). x.root_id) (sym (some_eq same)) ∙ root ∙ (eq_iff key k).0 s
  | inr s ↦ h k u (sym (get-put_other k key t' repo.trees s) ∙ e)
]

-- Where every tree stands under its own root id: a reply to a node that the repository finds, under
-- an id other than that node's, is added; then a lookup finds the new pending node, the parent with one more child, and any other
-- node as it was before; and every tree still stands under its own root id.
pub add_to_tree-get_node :
    (now : ℕ) (parent node_id : String) (incoming : IncomingMessage) (status : String)
    (p : MessageNode) (repo : TreeRepository)
    → RootsMatch repo
    → get_node parent repo ≡ some p
    → str_eq parent node_id ≡ false
    → (repo' : TreeRepository) × (add_to_tree now parent node_id incoming status repo ≡ some repo')
      × ((j : String) → get_node j repo' ≡ after_add now parent node_id incoming status p repo j)
      × RootsMatch repo'
add_to_tree-get_node now parent node_id incoming status p repo roots known apart =
    let (f, at_parent) = node-Found parent p repo known in
    let (t', added, same_root, nodes_are) =
      added_nodes now node_id parent incoming status p f.tree at_parent in
    let root : t'.root_id ≡ f.key = same_root ∙ roots f.key f.tree f.tree_is in
    (
      written f.key t' node_id repo,
      add_to_tree-written now parent node_id incoming status repo f t' added root,
      lookup_written now parent node_id incoming status p repo f.key f.tree t' f.key_is f.tree_is
          at_parent apart nodes_are,
      RootsMatch-written repo f.key node_id t' root roots,
    )
