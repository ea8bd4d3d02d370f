-- ===== src/Trees/Cancelled.antt =====
-- messaging/trees/queue_manager.py: the tree after `cancel_tree`.
use liberated_claude_code.Prelude.{
  ℕ, Bool, true, false, ◌≡◌, refl, ap, inl, inr, String, str_eq, eq_iff, eq_refl, List, [], ◌∷◌,
  ◌++◌, Option, none, some, arith, Bool-cases, Option-cases,
}
use mathlib.Core.Bool.{false≢true}
use liberated_claude_code.Dict.{get, modify, contains, map_opt, get-modify, get-map_values}
use liberated_claude_code.Trees.Node.{
  MessageNode, error, is_terminal, is_active, set_node_error_sync,
}
use liberated_claude_code.Trees.Queue.Laws.{contains-append}
use liberated_claude_code.Trees.Tree.{
  MessageTree, cancel_current_task, drain, drain_queue_and_mark_cancelled, reset_processing_state,
}
use liberated_claude_code.Trees.Cancel.{
  by_user, stale, cancel_if_live, cancel_running, node_ids, mark_stale, stop_running, cancel_tree,
}
use liberated_claude_code.Trees.Drained.{
  IsKeyed, AllFailed, get-drain, deque-drain, error-map_opt, IsKeyed-modify, IsKeyed-drain,
  reported-drain, AllFailed-drain_ids, AllFailed-drain,
}

-- A step that reports nodes reports failed ones, and leaves the queue and the keys alone.
pub record Stopped (t : MessageTree) (r : MessageTree × List MessageNode) : Type 0 where
  pub keyed : IsKeyed r.0
  pub failed : AllFailed (node_ids r.1) r.0
  pub same_queue : r.0.queue ≡ t.queue
  pub kept :
      (k : String) (n : MessageNode)
      → get k t.nodes ≡ some n
      → is_terminal n.state ≡ true
      → get k r.0.nodes ≡ some n

get-eq : (t : MessageTree) (i k : String) → i ≡ k → get i t.nodes ≡ get k t.nodes
get-eq t i k p = rw p

same_node :
    (t : MessageTree) (i k : String) (n node : MessageNode)
    → i ≡ k
    → get k t.nodes ≡ some n
    → get i t.nodes ≡ some node
    → n ≡ node
same_node t i k n node p e found = cc (e, found, get-eq t i k p)

module _ (now : ℕ) (t : MessageTree) (keyed : IsKeyed t) where
  Stopped-none : Stopped t (t, [])
  unfolding contains
  Stopped-none = record {
    keyed = keyed;
    failed = λ k n c e. cc;
    same_queue = refl;
    kept = λ k n e f. e;
  }

  Stopped-marked :
      (i : String) (node : MessageNode)
      → get i t.nodes ≡ some node
      → is_terminal node.state ≡ false
      → Stopped t (
        record t { nodes = modify i (set_node_error_sync now by_user) t.nodes },
        set_node_error_sync now by_user node ∷ [],
      )
  unfolding contains set_node_error_sync
  Stopped-marked i node found live = record {
    keyed = IsKeyed-modify now by_user i t keyed;
    failed = λ k n c e.
        let key : node.node_id ≡ i = keyed i node found in
        let hit : i ≡ k = ground (arith, key, eq_iff node.node_id k) in
        (error-map_opt now by_user (get k t.nodes) n (
          ground
            (arith, hit, eq_refl k, get-modify k i (set_node_error_sync now by_user) t.nodes))).3;
    same_queue = refl;
    kept = λ k n e over. elim (Bool-cases (str_eq i k)) [
      | inl p ↦
          let same : n ≡ node = same_node t i k n node ((eq_iff i k).0 p) e found in
          let clash : false ≡ true = rw (← live, ← same) over in absurd (false≢true clash)
      | inr p ↦ ground (arith, get-modify k i (set_node_error_sync now by_user) t.nodes)
    ];
  }

  Stopped-cancel_if_live : (i : String) → Stopped t (cancel_if_live now i t)
  unfolding cancel_if_live
  Stopped-cancel_if_live i = elim (Option-cases (get i t.nodes)) [
    | inl e ↦ rw (e, cancel_if_live) Stopped-none
    | inr (node, e) ↦ elim (Bool-cases (is_terminal node.state)) [
      | inl f ↦ rw (e, cancel_if_live, f) Stopped-none
      | inr f ↦ rw (e, cancel_if_live, f) (Stopped-marked i node e f)
    ]
  ]

  Stopped-cancel_running : (o : Option String) → Stopped t (cancel_running now o t)
  unfolding cancel_running
  Stopped-cancel_running none = Stopped-none
  Stopped-cancel_running (some i) = elim (Bool-cases (str_eq i "")) [
    | inl e ↦ rw e Stopped-none
    | inr e ↦ rw e (Stopped-cancel_if_live i)
  ]

  Stopped-stop_running : (o : Option ℕ) → Stopped t (stop_running now o t)
  unfolding stop_running
  Stopped-stop_running none = Stopped-none
  Stopped-stop_running (some task) = Stopped-cancel_running t.current_node_id

-- The last step of `cancel_tree`.
mark_stale-inactive :
    (now : ℕ) (message : String) (ids : List String) (n : MessageNode)
    → (contains n.node_id ids ≡ true → n.state ≡ error)
    → is_active (mark_stale now message ids n).state ≡ false
unfolding mark_stale is_active set_node_error_sync
mark_stale-inactive now message ids n h = ground arith

mark_stale-terminal :
    (now : ℕ) (message : String) (ids : List String) (n : MessageNode)
    → is_terminal n.state ≡ true
    → mark_stale now message ids n ≡ n
unfolding mark_stale is_active is_terminal
mark_stale-terminal now message ids n h = ground arith

node_ids-append : (xs ys : List MessageNode) → node_ids (xs ++ ys) ≡ node_ids xs ++ node_ids ys
node_ids-append [] ys = refl
node_ids-append (x ∷ xs) ys = rw (node_ids-append xs ys)

AllFailed-append :
    (xs ys : List String) (t : MessageTree)
    → AllFailed xs t
    → AllFailed ys t
    → AllFailed (xs ++ ys) t
AllFailed-append xs ys t hx hy k n c e = elim (Bool-cases (contains k xs)) [
  | inl p ↦ hx k n p e
  | inr p ↦ hy k n (ground (arith, contains-append k xs ys)) e
]

map_opt-some :
    (f : MessageNode → MessageNode) (o : Option MessageNode) (n : MessageNode)
    → map_opt f o ≡ some n
    → (m : MessageNode) × (o ≡ some m) × (n ≡ f m)
map_opt-some f none n e = cc
map_opt-some f (some m) n e = (m, refl, ground arith)

-- In a tree whose nodes stand under their own ids: after `cancel_tree`, every node that the tree
-- holds is neither pending nor in progress, the queue is empty, and the tree is free, with no
-- current node.
pub cancel_tree_settles :
    (done : ℕ → Bool) (now : ℕ) (t : MessageTree) (k : String) (n : MessageNode)
    → IsKeyed t
    → get k (cancel_tree done now t).tree.nodes ≡ some n
    → let t' = (cancel_tree done now t).tree in
      (is_active n.state ≡ false)
      × (t'.queue.deque ≡ [])
      × (t'.is_processing ≡ false)
      × (t'.current_node_id ≡ none)
unfolding cancel_tree drain_queue_and_mark_cancelled reset_processing_state
cancel_tree_settles done now t k n keyed e =
    let task = cancel_current_task done t in
    let r = stop_running now task t in
    let s = Stopped-stop_running now t keyed task in
    let q = drain now by_user r.0.queue.deque r.0 in
    let ids = node_ids (r.1 ++ q.1) in
    let all : AllFailed ids q.0 = rw node_ids-append (
      AllFailed-append (node_ids r.1) (node_ids q.1) q.0
        (AllFailed-drain now by_user r.0.queue.deque (node_ids r.1) r.0 s.failed)
        (λ k n c e.
          AllFailed-drain_ids now by_user r.0.queue.deque r.0 k n
            (reported-drain now by_user r.0.queue.deque r.0 k s.keyed c) e)) in
    (
      (let (m, em, same) =
            map_opt-some (mark_stale now stale ids) (get k q.0.nodes) n (rw (← get-map_values) e) in
          rw same (
            mark_stale-inactive now stale ids m (λ c.
              all k m (rw (← IsKeyed-drain now by_user r.0.queue.deque r.0 s.keyed k m em) c) em))),
      deque-drain now by_user r.0.queue.deque r.0 refl,
      refl,
      refl,
    )

-- In a tree whose nodes stand under their own ids: a node that was completed, or had failed, and is
-- not queued keeps everything under `cancel_tree`.
pub cancel_tree_keeps :
    (done : ℕ → Bool) (now : ℕ) (t : MessageTree) (k : String) (n : MessageNode)
    → IsKeyed t
    → get k t.nodes ≡ some n
    → is_terminal n.state ≡ true
    → contains k t.queue.deque ≡ false
    → get k (cancel_tree done now t).tree.nodes ≡ some n
unfolding cancel_tree drain_queue_and_mark_cancelled reset_processing_state
cancel_tree_keeps done now t k n keyed found over free =
    let r = stop_running now (cancel_current_task done t) t in
    let q = drain now by_user r.0.queue.deque r.0 in
    let ids = node_ids (r.1 ++ q.1) in
    let s = Stopped-stop_running now t keyed (cancel_current_task done t) in
    let drained : get k q.0.nodes ≡ some n =
      rw (get-drain, s.same_queue, free) (s.kept k n found over) in
    rw (get-map_values, drained) (ap some (mark_stale-terminal now stale ids n over))
