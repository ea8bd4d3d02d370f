-- ===== src/Trees/Branch/Graft.antt =====
-- messaging/trees/data.py: a forest to which a leaf is added.
use liberated_claude_code.Prelude.{
  ℕ, ◌≡◌, refl, sym, ap, ◌∙◌, inl, inr, Bool, true, false, ◌||◌, ◌&&◌, String, str_eq, eq_iff,
  eq_refl, List, [], ◌∷◌, ◌++◌, Option, none, some, arith, Bool-cases, if◌then◌else◌, is_some,
}
use mathlib.Core.Bool.{true≢false}
use liberated_claude_code.Dict.{Dict, get, has, put, modify, get-put, get-modify, map_opt}
use liberated_claude_code.Trees.Node
use liberated_claude_code.Trees.Node.{MessageNode, IncomingMessage}
use liberated_claude_code.Trees.Tree.{MessageTree, append_child}
use liberated_claude_code.Trees.Branch.{extend, children_of}
use liberated_claude_code.Trees.Branch.Shape.{Forest, bare, grow, roots, Shows}

-- The forest with the new id as the last child of the parent.
unfoldable pub graft : String → String → Forest → Forest
graft parent_id node_id bare = bare
graft parent_id node_id (grow id kids rest) =
    let below = graft parent_id node_id kids in
    grow id (if str_eq parent_id id then grow node_id bare below else below)
      (graft parent_id node_id rest)

roots-graft : (p n : String) (f : Forest) → roots (graft p n f) ≡ roots f
unfolding roots graft
roots-graft p n bare = refl
roots-graft p n (grow id kids rest) = ap (λ ids. id ∷ ids) (roots-graft p n rest)

-- No id of the forest is this one.
abbrev pub IsFresh : String → Forest → Type 0
IsFresh n bare = Unit {0}
IsFresh n (grow id kids rest) = (str_eq n id ≡ false) × IsFresh n kids × IsFresh n rest

extend_last :
    {A : Type 0} (xs : List A) (x : A) (stack : List A)
    → extend (xs ++ x ∷ []) stack ≡ x ∷ extend xs stack
unfolding extend
extend_last [] x stack = refl
extend_last (y ∷ xs) x stack = extend_last xs x (y ∷ stack)

-- The nodes of a tree after `add_node`.
abbrev pub grown :
    ℕ → String → IncomingMessage → String → String → Dict MessageNode → Dict MessageNode
grown now n incoming status p nodes =
    modify p (append_child n) (put n (Node.new now n incoming status (some p)) nodes)

children_other :
    (now : ℕ) (n : String) (incoming : IncomingMessage) (status p : String)
    (nodes : Dict MessageNode) (id : String)
    → str_eq n id ≡ false
    → str_eq p id ≡ false
    → children_of (get id (grown now n incoming status p nodes)) ≡ children_of (get id nodes)
children_other now n incoming status p nodes id e f = rw (
  get-modify id p (append_child n) (put n (Node.new now n incoming status (some p)) nodes),
  f,
  get-put id n (Node.new now n incoming status (some p)) nodes,
  e,
)

children_append :
    (n : String) (o : Option MessageNode)
    → is_some o ≡ true
    → children_of (map_opt (append_child n) o) ≡ children_of o ++ n ∷ []
unfolding append_child
children_append n none h = absurd (true≢false (sym h))
children_append n (some node) h = refl

children_parent :
    (now : ℕ) (n : String) (incoming : IncomingMessage) (status p : String)
    (nodes : Dict MessageNode) (id : String)
    → str_eq n id ≡ false
    → str_eq p id ≡ true
    → has p nodes ≡ true
    → children_of (get id (grown now n incoming status p nodes))
      ≡ children_of (get id nodes) ++ n ∷ []
children_parent now n incoming status p nodes id e f known =
    let same : has id nodes ≡ true = ap (λ i. has i nodes) (sym ((eq_iff p id).0 f)) ∙ known in
    rw
      (
        get-modify id p (append_child n) (put n (Node.new now n incoming status (some p)) nodes),
        f,
        get-put id n (Node.new now n incoming status (some p)) nodes,
        e,
      )
      (children_append n (get id nodes) same)

-- The new node has no children yet.
children_new :
    (now : ℕ) (n : String) (incoming : IncomingMessage) (status p : String)
    (nodes : Dict MessageNode)
    → str_eq p n ≡ false
    → children_of (get n (grown now n incoming status p nodes)) ≡ []
unfolding Node.new
children_new now n incoming status p nodes f = rw (
  get-modify n p (append_child n) (put n (Node.new now n incoming status (some p)) nodes),
  f,
  get-put n n (Node.new now n incoming status (some p)) nodes,
  eq_refl n,
)

module _ (now : ℕ) (n : String) (incoming : IncomingMessage) (status p : String)
    (t : MessageTree) where
  abbrev pub after : MessageTree
  after = record t {
    nodes = grown now n incoming status p t.nodes;
    status_to_node = put status n t.status_to_node;
  }

  pub Shows-graft :
      (f : Forest)
      → has p t.nodes ≡ true
      → str_eq p n ≡ false
      → IsFresh n f
      → Shows t f
      → Shows after (graft p n f)
  unfolding Shows graft roots extend
  Shows-graft bare known apart fresh h = tt
  Shows-graft (grow id kids rest) known apart fresh h =
      let below = Shows-graft kids known apart fresh.1 h.1 in
      let beside = Shows-graft rest known apart fresh.2 h.2 in
      elim (Bool-cases (str_eq p id)) [
        | inl e ↦
            let mine : extend (children_of (get id after.nodes)) [] ≡ n ∷ roots (graft p n kids) =
              rw (
                children_parent now n incoming status p t.nodes id fresh.0 e known,
                extend_last (children_of (get id t.nodes)) n [],
                h.0,
                roots-graft p n kids,
              ) in
            let young : extend (children_of (get n after.nodes)) [] ≡ [] =
              rw (children_new now n incoming status p t.nodes apart) in
            rw e ((mine, (young, tt, below), beside))
        | inr e ↦
            let mine : extend (children_of (get id after.nodes)) [] ≡ roots (graft p n kids) = rw (
              children_other now n incoming status p t.nodes id fresh.0 e,
              h.0,
              roots-graft p n kids,
            ) in
            rw e ((mine, below, beside))
      ]

-- The id is in the forest.
unfoldable pub among : String → Forest → Bool
among j bare = false
among j (grow id kids rest) = str_eq id j || (among j kids || among j rest)

or_new :
    (a b c e k r : Bool)
    → (a || ((b || (e && k)) || (c || (e && r)))) ≡ ((a || (b || c)) || (e && (k || r)))
or_new true b c e k r = refl
or_new false true c e k r = refl
or_new false false c false k r = ground arith
or_new false false c true k r = ground arith

or_here :
    (a b c e k r : Bool)
    → (a || ((e || (b || (e && k))) || (c || (e && r)))) ≡ ((a || (b || c)) || (e && true))
or_here true b c e k r = refl
or_here false b c true k r = ground arith
or_here false b c false k r = ground arith

pub among-graft :
    (p n j : String) (f : Forest) → among j (graft p n f) ≡ (among j f || (str_eq n j && among p f))
unfolding graft among
among-graft p n j bare = ground arith
among-graft p n j (grow id kids rest) = elim (Bool-cases (str_eq p id)) [
  | inl e ↦
      let e' : str_eq id p ≡ true = ground (arith, eq_iff p id, eq_iff id p) in
      rw (e, e', among-graft p n j kids, among-graft p n j rest)
        (or_here (str_eq id j) (among j kids) (among j rest) (str_eq n j) (among p kids)
          (among p rest))
  | inr e ↦
      let e' : str_eq id p ≡ false = ground (arith, eq_iff p id, eq_iff id p) in
      rw (e, e', among-graft p n j kids, among-graft p n j rest)
        (or_new (str_eq id j) (among j kids) (among j rest) (str_eq n j) (among p kids)
          (among p rest))
]
