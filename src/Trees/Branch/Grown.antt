-- ===== src/Trees/Branch/Grown.antt =====
-- messaging/trees/data.py: the trees that `add_node` builds.
use liberated_claude_code.Prelude.{
  ℕ, ◌≤◌, ◌≡◌, refl, sym, ap, ◌∙◌, inl, inr, Bool, true, false, ◌||◌, ◌&&◌, String, str_eq, eq_iff,
  eq_refl, [], Option, none, some, arith, Bool-cases, some_eq, none≢some, is_some,
}
use mathlib.Core.Bool.{true≢false}
use mathlib.Core.Path.{subst}
use liberated_claude_code.Dict.{Dict, get, has, put, modify, get-put, get-modify, map_opt}
use liberated_claude_code.Trees.Node
use liberated_claude_code.Trees.Node.{MessageNode, IncomingMessage}
use liberated_claude_code.Trees.Tree.{MessageTree, add_node, append_child}
use liberated_claude_code.Trees.Tree
use liberated_claude_code.Trees.Branch.{extend, get_descendants}
use liberated_claude_code.Trees.Branch.Shape.{
  Forest, bare, grow, roots, visit, size, Shows, get_descendants-visit,
}
use liberated_claude_code.Trees.Branch.Graft.{
  graft, IsFresh, grown, after, Shows-graft, among, among-graft,
}

-- The trees that start as one node without children and grow by `add_node` under new ids.
pub data Grows : MessageTree → Forest → Type 0 where
  planted :
      (root : MessageNode)
      → root.children_ids ≡ []
      → Grows (Tree.new root) (grow root.node_id bare bare)
  added :
      (now : ℕ) (n : String) (incoming : IncomingMessage) (status p : String) (t t' : MessageTree)
      (f : Forest)
      → Grows t f
      → has n t.nodes ≡ false
      → add_node now n incoming status p t ≡ some t'
      → Grows t' (graft p n f)

-- The forest is right about the child lists and about the ids.
record IsRight (t : MessageTree) (f : Forest) : Type 0 where
  shows : Shows t f
  known : (j : String) → has j t.nodes ≡ among j f

among-IsFresh : (n : String) (f : Forest) → among n f ≡ false → IsFresh n f
unfolding among
among-IsFresh n bare h = tt
among-IsFresh n (grow id kids rest) h = (
  ground (arith, eq_iff n id, eq_iff id n),
  among-IsFresh n kids (ground arith),
  among-IsFresh n rest (ground arith),
)

is_some-map_opt : {A B : Type 0} (g : A → B) (o : Option A) → is_some (map_opt g o) ≡ is_some o
is_some-map_opt g none = refl
is_some-map_opt g (some a) = refl

has-modify : {A : Type 0} (j k : String) (g : A → A) (d : Dict A) → has j (modify k g d) ≡ has j d
has-modify j k g d =
    rw (get-modify j k g d)
      (elim (Bool-cases (str_eq k j)) [ inl e ↦ rw e (is_some-map_opt g (get j d)) | inr e ↦ rw e ])

has-put :
    {A : Type 0} (j k : String) (v : A) (d : Dict A) → has j (put k v d) ≡ (str_eq k j || has j d)
has-put j k v d =
    rw (get-put j k v d) (elim (Bool-cases (str_eq k j)) [ inl e ↦ rw e | inr e ↦ rw e ])

or_swap : (a b : Bool) → (b || a) ≡ (a || (b && true))
or_swap true true = refl
or_swap true false = refl
or_swap false true = refl
or_swap false false = refl

module _ (now : ℕ) (n : String) (incoming : IncomingMessage) (status p : String) (t : MessageTree)
    (f : Forest) where
  after-IsRight :
      has p t.nodes ≡ true
      → has n t.nodes ≡ false
      → IsRight t f
      → IsRight (after now n incoming status p t) (graft p n f)
  after-IsRight there new r =
      let apart : str_eq p n ≡ false = elim (Bool-cases (str_eq p n)) [
        | inl e ↦ absurd (true≢false (sym there ∙ ap (λ i. has i t.nodes) ((eq_iff p n).0 e) ∙ new))
        | inr e ↦ e
      ] in
      let node : MessageNode = Node.new now n incoming status (some p) in
      let ids : (j : String)
          → has j (grown now n incoming status p t.nodes) ≡ among j (graft p n f) =
        λ j.
          has-modify j p (append_child n) (put n node t.nodes)
          ∙ has-put j n node t.nodes
          ∙ rw (among-graft p n j f, sym (r.known j), sym (r.known p), there)
              (or_swap (has j t.nodes) (str_eq n j)) in
      record {
        shows =
            Shows-graft now n incoming status p t f there apart
              (among-IsFresh n f (sym (r.known n) ∙ new)) r.shows;
        known = ids;
      }

Grows-IsRight : {t : MessageTree} {f : Forest} → Grows t f → IsRight t f
unfolding Tree.new Shows extend roots among get add_node
Grows-IsRight (planted root childless) = record {
  shows = (rw (eq_refl root.node_id, childless), tt, tt);
  known = λ j. elim (Bool-cases (str_eq root.node_id j)) [ inl e ↦ rw e | inr e ↦ rw e ];
}
Grows-IsRight (added now n incoming status p t t' f g new done) =
    elim (Bool-cases (has p t.nodes)) [
      | inl there ↦
          let same : some (after now n incoming status p t) ≡ some t' = rw there at done in
          subst (λ x. IsRight x (graft p n f)) (some_eq same)
            (after-IsRight now n incoming status p t f there new (Grows-IsRight g))
      | inr missing ↦ absurd (none≢some (rw missing at done))
    ]

-- The branch below an id of the forest.
branch_at :
    (t : MessageTree) (id : String) (f : Forest)
    → Shows t f
    → among id f ≡ true
    → (kids : Forest) × (Shows t (grow id kids bare) × (size (grow id kids bare) ≤ size f))
unfolding Shows among size
branch_at t id bare h e = absurd (true≢false (sym e))
branch_at t id (grow j kids rest) h e = elim (Bool-cases (str_eq j id)) [
  | inl same ↦ (kids, ((rw (sym ((eq_iff j id).0 same), h.0), h.1, tt), omega arith))
  | inr other ↦ elim (Bool-cases (among id kids)) [
    | inl below ↦ let r = branch_at t id kids h.1 below in (r.0, (r.1.0, omega (arith, r.1.1)))
    | inr beside ↦
        let r = branch_at t id rest h.2 (ground arith) in (r.0, (r.1.0, omega (arith, r.1.1)))
  ]
]

-- A tree that starts as one node without children and grows by `add_node` under ids that it does not
-- have yet, each below a node that it has: for each of its nodes, with as much fuel as its forest
-- has ids, or more, `get_descendants` ends, with the ids of a branch that is the node's by the child
-- lists, the last child first.
pub get_descendants_ends :
    (fuel : ℕ) (node_id : String) (t : MessageTree) (f : Forest)
    → Grows t f
    → has node_id t.nodes ≡ true
    → size f ≤ fuel
    → (kids : Forest) × (Shows t (grow node_id kids bare)
        × (get_descendants fuel node_id t ≡ some (visit (grow node_id kids bare))))
get_descendants_ends fuel node_id t f g known enough =
    let r = Grows-IsRight g in
    let b = branch_at t node_id f r.shows (sym (r.known node_id) ∙ known) in
    (
      b.0,
      (b.1.0, get_descendants-visit fuel node_id b.0 t known b.1.0 (omega (arith, b.1.1, enough))),
    )
