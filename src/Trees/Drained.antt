-- ===== src/Trees/Drained.antt =====
-- What draining the queue of messaging/trees/data.py does to the nodes of a tree.
use liberated_claude_code.Prelude.{
  ℕ, true, ◌≡◌, refl, ◌∙◌, inl, inr, String, str_eq, eq_iff, List, [], ◌∷◌, Option, none, some,
  arith, if◌then◌else◌, Bool-cases,
}
use liberated_claude_code.Dict.{get, modify, contains, map_opt, get-modify}
use liberated_claude_code.Trees.Node.{MessageNode, error, set_node_error_sync}
use liberated_claude_code.Trees.Tree.{MessageTree, drain, drain_one, append_found}
use liberated_claude_code.Trees.Cancel.{node_ids}

-- Each node stands under its own id.
abbrev pub IsKeyed : MessageTree → Type 0
IsKeyed t = (k : String) (n : MessageNode) → get k t.nodes ≡ some n → n.node_id ≡ k

-- The nodes of these ids have failed.
abbrev pub AllFailed : List String → MessageTree → Type 0
AllFailed ids t =
    (k : String) (n : MessageNode)
    → contains k ids ≡ true
    → get k t.nodes ≡ some n
    → n.state ≡ error

pub reported_found :
    (o : Option MessageNode) (i k : String) (ids : List String) (rest : List MessageNode)
    → ((n : MessageNode) → o ≡ some n → n.node_id ≡ i)
    → (contains k (node_ids rest) ≡ true → contains k ids ≡ true)
    → contains k (node_ids (append_found o rest)) ≡ true
    → contains k (i ∷ ids) ≡ true
unfolding contains
reported_found none i k ids rest h r c = ground (arith, r c)
reported_found (some n) i k ids rest h r c =
    ground (arith, h n refl, eq_iff n.node_id k, eq_iff i k, r)

module _ (now : ℕ) (message : String) where
  error_twice :
      (o : Option MessageNode)
      → map_opt (set_node_error_sync now message) (map_opt (set_node_error_sync now message) o)
        ≡ map_opt (set_node_error_sync now message) o
  unfolding set_node_error_sync
  error_twice none = refl
  error_twice (some n) = refl

  pub get-drain :
      (ids : List String) (t : MessageTree) (k : String)
      → get k (drain now message ids t).0.nodes ≡ (
          if contains k ids
          then map_opt (set_node_error_sync now message) (get k t.nodes)
          else get k t.nodes)
  unfolding drain contains
  get-drain [] t k = refl
  get-drain (i ∷ ids) t k = ground (
    arith,
    get-drain ids (drain_one now message i ids t) k,
    get-modify k i (set_node_error_sync now message) t.nodes,
    error_twice (get k t.nodes),
  )

  pub deque-drain :
      (ids : List String) (t : MessageTree)
      → t.queue.deque ≡ ids
      → (drain now message ids t).0.queue.deque ≡ []
  unfolding drain
  deque-drain [] t e = e
  deque-drain (i ∷ ids) t e = deque-drain ids (drain_one now message i ids t) refl

  pub error-map_opt :
      (o : Option MessageNode) (n : MessageNode)
      → map_opt (set_node_error_sync now message) o ≡ some n
      → (m : MessageNode) × (o ≡ some m) × (n.node_id ≡ m.node_id) × (n.state ≡ error)
  unfolding set_node_error_sync
  error-map_opt none n e = cc
  error-map_opt (some m) n e = (m, refl, ground arith, ground arith)

  pub IsKeyed-modify :
      (k : String) (t : MessageTree)
      → IsKeyed t
      → IsKeyed (record t { nodes = modify k (set_node_error_sync now message) t.nodes })
  IsKeyed-modify k t h j n e = elim (Bool-cases (str_eq k j)) [
    | inl p ↦
        let (m, em, id, _) =
          error-map_opt (get j t.nodes) n
            (ground (arith, get-modify j k (set_node_error_sync now message) t.nodes)) in
        id ∙ h j m em
    | inr p ↦ h j n (ground (arith, get-modify j k (set_node_error_sync now message) t.nodes))
  ]

  pub IsKeyed-drain :
      (ids : List String) (t : MessageTree) → IsKeyed t → IsKeyed (drain now message ids t).0
  unfolding drain
  IsKeyed-drain [] t h = h
  IsKeyed-drain (i ∷ ids) t h =
      IsKeyed-drain ids (drain_one now message i ids t) (IsKeyed-modify i t h)

  -- The nodes that `drain` reports stood in the queue.
  pub reported-drain :
      (ids : List String) (t : MessageTree) (k : String)
      → IsKeyed t
      → contains k (node_ids (drain now message ids t).1) ≡ true
      → contains k ids ≡ true
  unfolding drain contains
  reported-drain [] t k h c = c
  reported-drain (i ∷ ids) t k h c =
      let t' = drain_one now message i ids t in
      reported_found (get i t'.nodes) i k ids (drain now message ids t').1 (IsKeyed-modify i t h i)
        (reported-drain ids t' k (IsKeyed-modify i t h)) c

  pub AllFailed-drain_ids :
      (ids : List String) (t : MessageTree) → AllFailed ids (drain now message ids t).0
  AllFailed-drain_ids ids t k n c e =
      let (m, _, _, f) = error-map_opt (get k t.nodes) n (ground (arith, get-drain ids t k)) in f

  pub AllFailed-drain :
      (ids old : List String) (t : MessageTree)
      → AllFailed old t
      → AllFailed old (drain now message ids t).0
  AllFailed-drain ids old t h k n c e = elim (Bool-cases (contains k ids)) [
    | inl p ↦ AllFailed-drain_ids ids t k n p e
    | inr p ↦ h k n c (ground (arith, get-drain ids t k))
  ]
