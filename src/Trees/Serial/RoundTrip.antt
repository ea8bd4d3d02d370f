-- ===== src/Trees/Serial/RoundTrip.antt =====
-- messaging/trees/data.py: `from_dict` on what `to_dict` wrote.
use liberated_claude_code.Prelude.{
  ℕ, ◌≡◌, refl, sym, ap, inl, inr, arith, eq_iff, Bool-cases, Option-cases, some_eq, ◌∙◌, true,
  false, [], ◌∷◌, Option, none, some, String, str_eq, if◌then◌else◌,
}
use liberated_claude_code.Dict.{Dict, get, put, map_values, map_opt, get-put, get-map_values}
use liberated_claude_code.Trees.Tree
use liberated_claude_code.Trees.Tree.{MessageTree}
use liberated_claude_code.Trees.Node.{
  MessageState, pending, in_progress, completed, error, IncomingMessage, MessageNode,
}
use liberated_claude_code.Trees.Serial
use liberated_claude_code.Trees.Serial.{
  Value, to_dict, from_dict, state_of, state_value, optional, as_optional, time_of, optional_time,
  incoming_from_dict, incoming_to_dict, save_nodes, tree_to_dict, tree_from_dict, add_rest,
  add_node_from_dict,
}

state_of-state_value : (s : MessageState) → state_of (state_value s) ≡ some s
unfolding state_of
state_of-state_value pending = refl
state_of-state_value in_progress = refl
state_of-state_value completed = refl
state_of-state_value error = refl

as_optional-optional : (s : Option String) → as_optional (some (optional s)) ≡ some s
as_optional-optional none = refl
as_optional-optional (some s) = refl

-- What reading gives back of a message, and of a node: all but three fields of the message and the
-- node's context, which have the defaults of the constructors.
abbrev pub forgotten : ℕ → IncomingMessage → IncomingMessage
forgotten now m = record m { status_message_id = none; timestamp = now; raw_event = none }

abbrev pub forgotten_node : ℕ → MessageNode → MessageNode
forgotten_node now n = record n { incoming = forgotten now n.incoming; context = none }

incoming_from_dict-incoming_to_dict :
    (now : ℕ) (m : IncomingMessage)
    → incoming_from_dict now (incoming_to_dict m) ≡ some (forgotten now m)
unfolding incoming_from_dict get
incoming_from_dict-incoming_to_dict now m = refl

-- Every node stands under its own id, and no id stands twice.
abbrev pub IsFiled : Dict MessageNode → Type 0
IsFiled [] = Unit {0}
IsFiled ((k, n) ∷ d) = (n.node_id ≡ k) × (get k d ≡ none) × IsFiled d

abbrev first : Option MessageNode → Option MessageNode → Option MessageNode
first none y = y
first (some x) y = some x

-- A lookup after the nodes of `d` other than the root were added to `nodes`.
abbrev merged : String → Dict MessageNode → Dict MessageNode → String → Option MessageNode
merged root_id d nodes j = if str_eq root_id j then get j nodes else first (get j d) (get j nodes)

merged-nil :
    (root_id : String) (nodes : Dict MessageNode) (j : String)
    → get j nodes ≡ merged root_id [] nodes j
unfolding get
merged-nil root_id nodes j = ground arith

merged-root :
    (root_id k : String) (n : MessageNode) (d nodes : Dict MessageNode) (j : String)
    → str_eq k root_id ≡ true
    → merged root_id d nodes j ≡ merged root_id ((k, n) ∷ d) nodes j
unfolding get
merged-root root_id k n d nodes j e = ground (arith, eq_iff k root_id, eq_iff root_id j, eq_iff k j)

merged-put :
    (root_id k : String) (n : MessageNode) (d nodes : Dict MessageNode) (j : String)
    → str_eq k root_id ≡ false
    → get k d ≡ none
    → merged root_id d (put k n nodes) j ≡ merged root_id ((k, n) ∷ d) nodes j
unfolding get
merged-put root_id k n d nodes j e free =
    ground (
      arith,
      get-put j k n nodes,
      eq_iff k root_id,
      eq_iff root_id j,
      eq_iff k j,
      ap (λ i. get i d),
    )

IsFiled-get :
    (d : Dict MessageNode) (k : String) (n : MessageNode)
    → IsFiled d
    → get k d ≡ some n
    → n.node_id ≡ k
unfolding get
IsFiled-get [] k n f e = cc
IsFiled-get ((j, m) ∷ d) k n f e = ground (arith, eq_iff j k, IsFiled-get d k n f.2, f.0)

get-save_nodes :
    (isoformat : ℕ → String) (d : Dict MessageNode) (k : String) (n : MessageNode)
    → get k d ≡ some n
    → get k (save_nodes isoformat d) ≡ some (to_dict isoformat n)
unfolding get
get-save_nodes isoformat [] k n e = cc
get-save_nodes isoformat ((j, m) ∷ d) k n e = elim (Bool-cases (str_eq j k)) [
  | inl h ↦
      let same : some m ≡ some n = rw h at e in
      rw h (ap (λ (o : MessageNode). some (to_dict isoformat o)) (some_eq same))
  | inr h ↦ rw h (get-save_nodes isoformat d k n (rw h at e))
]

-- The root alone, and then the others, is all of them.
merged-all :
    (root_id : String) (n : MessageNode) (d : Dict MessageNode) (j : String)
    → get root_id d ≡ some n
    → merged root_id d ((root_id, n) ∷ []) j ≡ get j d
unfolding get
merged-all root_id n d j e = elim (Bool-cases (str_eq root_id j)) [
  | inl h ↦ rw h (sym e ∙ ap (λ i. get i d) ((eq_iff root_id j).0 h))
  | inr h ↦ elim (Option-cases (get j d)) [ inl g ↦ rw (h, g) refl | inr (m, g) ↦ rw (h, g) refl ]
]

-- A node that was written and read back.
abbrev pub restored : (Dict Value → ℕ) → (ℕ → String) → MessageNode → MessageNode
restored clock isoformat n = forgotten_node (clock (to_dict isoformat n)) n

module _ (clock : Dict Value → ℕ) (isoformat : ℕ → String) (fromisoformat : String → Option ℕ)
    (reads_back : (t : ℕ) → fromisoformat (isoformat t) ≡ some t)
    (not_empty : (t : ℕ) → str_eq (isoformat t) "" ≡ false) where
  time_of-optional_time :
      (t : Option ℕ)
      → Serial.bind (as_optional (some (optional_time isoformat t))) (time_of fromisoformat)
        ≡ some t
  time_of-optional_time none = refl
  time_of-optional_time (some t) = rw (not_empty t, reads_back t) refl

  -- Where the reading of a time takes back what its writing gave, and no time is written as the
  -- empty text: `from_dict` reads back what `to_dict` wrote for a node, with every field but four:
  -- the node's context and, of its message, the id of the status message, the time stamp and the
  -- raw event, which are what the constructors give by default.
  pub from_dict-to_dict :
      (node : MessageNode)
      → from_dict clock fromisoformat (to_dict isoformat node)
        ≡ some (restored clock isoformat node)
  unfolding to_dict from_dict get
  from_dict-to_dict node =
      rw
        (
          incoming_from_dict-incoming_to_dict (clock (to_dict isoformat node)) node.incoming,
          state_of-state_value node.state,
          as_optional-optional node.parent_id,
          as_optional-optional node.session_id,
          reads_back node.created_at,
          time_of-optional_time node.completed_at,
          as_optional-optional node.error_message,
        )
        refl

  add_rest-merged :
      (root_id : String) (d : Dict MessageNode) (t : MessageTree)
      → IsFiled d
      → (t' : MessageTree) × (add_rest clock fromisoformat root_id (save_nodes isoformat d) t
          ≡ some t')
        × ((j : String)
            → get j t'.nodes ≡ merged root_id (map_values (restored clock isoformat) d) t.nodes j)
  unfolding add_rest add_node_from_dict map_values
  add_rest-merged root_id [] t f = (t, refl, merged-nil root_id t.nodes)
  add_rest-merged root_id ((k, n) ∷ d) t f = elim (Bool-cases (str_eq k root_id)) [
    | inl e ↦
        let (t', added, all) = add_rest-merged root_id d t f.2 in
        (
          t',
          rw e added,
          λ j.
              all j
              ∙ merged-root root_id k (restored clock isoformat n)
                  (map_values (restored clock isoformat) d) t.nodes j e,
        )
    | inr e ↦
        let (t', added, all) =
          add_rest-merged root_id d (add_node_from_dict (restored clock isoformat n) t) f.2 in
        (
          t',
          rw (e, from_dict-to_dict n) added,
          λ j.
              all j
              ∙ ap
                  (λ i.
                    merged root_id (map_values (restored clock isoformat) d)
                      (put i (restored clock isoformat n) t.nodes) j)
                  f.0
              ∙ merged-put root_id k (restored clock isoformat n)
                  (map_values (restored clock isoformat) d) t.nodes j e
                  (get-map_values k (restored clock isoformat) d
                    ∙ ap (map_opt (restored clock isoformat)) f.1),
        )
  ]

  -- Where times are read back as they were written and no time is written as the empty text: a tree
  -- whose nodes stand under their own ids, each once, with its root among them, is written and read
  -- back as a tree in which every lookup finds the node that it found before, but for its context
  -- and, of its message, the id of the status message, the time stamp and the raw event.
  pub tree_from_dict-tree_to_dict :
      (t : MessageTree) (root_node : MessageNode)
      → IsFiled t.nodes
      → get t.root_id t.nodes ≡ some root_node
      → (t' : MessageTree) × (tree_from_dict clock fromisoformat (tree_to_dict isoformat t)
          ≡ some t')
        × ((j : String) → get j t'.nodes ≡ map_opt (restored clock isoformat) (get j t.nodes))
  unfolding tree_from_dict tree_to_dict Tree.new
  tree_from_dict-tree_to_dict t n f e =
      let (t', added, all) =
        add_rest-merged t.root_id t.nodes (Tree.new (restored clock isoformat n)) f in
      let root : n.node_id ≡ t.root_id = IsFiled-get t.nodes t.root_id n f e in
      (
        t',
        rw (get-save_nodes isoformat t.nodes t.root_id n e, from_dict-to_dict n) added,
        λ j.
            all j
            ∙ ap
                (λ i.
                  merged t.root_id (map_values (restored clock isoformat) t.nodes)
                    ((i, restored clock isoformat n) ∷ []) j)
                root
            ∙ merged-all t.root_id (restored clock isoformat n)
                (map_values (restored clock isoformat) t.nodes) j
                (get-map_values t.root_id (restored clock isoformat) t.nodes
                  ∙ ap (map_opt (restored clock isoformat)) e)
            ∙ get-map_values j (restored clock isoformat) t.nodes,
      )
