-- ===== src/Trees/Cleanup.antt =====
-- `TreeQueueManager.cleanup_stale_nodes` of messaging/trees/queue_manager.py: the loop over all trees
-- of the repository and all nodes of each, with its count.
use liberated_claude_code.Prelude.{
  ℕ, ◌+◌, ◌≡◌, refl, ap, String, [], ◌∷◌, some, arith, str_eq, if◌then◌else◌, Bool-cases, inl, inr,
}
use liberated_claude_code.Dict.{Dict, get, map_opt}
use liberated_claude_code.Trees.Node.{
  MessageNode, MessageState, pending, in_progress, completed, error, is_active, set_node_error_sync,
}
use liberated_claude_code.Trees.Tree.{MessageTree}
use liberated_claude_code.Trees.Cancel.{lost}
use liberated_claude_code.Trees.Repository.{TreeRepository, node_in}

-- The loop over the nodes of one tree: the nodes, and how many were marked.
unfoldable pub fail_stale : ℕ → Dict MessageNode → Dict MessageNode × ℕ
fail_stale now [] = ([], 0)
fail_stale now ((k, n) ∷ d) =
    let (d', count) = fail_stale now d in
    if is_active n.state
    then ((k, set_node_error_sync now lost n) ∷ d', count + 1)
    else ((k, n) ∷ d', count)

unfoldable pub cleanup_trees : ℕ → Dict MessageTree → Dict MessageTree × ℕ
cleanup_trees now [] = ([], 0)
cleanup_trees now ((k, t) ∷ d) =
    let (nodes, marked) = fail_stale now t.nodes in
    let (d', count) = cleanup_trees now d in ((k, record t { nodes = nodes }) ∷ d', marked + count)

-- The repository and the count that is returned.
unfoldable pub cleanup_stale_nodes : ℕ → TreeRepository → TreeRepository × ℕ
cleanup_stale_nodes now repo =
    let (trees, count) = cleanup_trees now repo.trees in (record repo { trees = trees }, count)

-- How many nodes are pending or in progress: in these, and in all trees.
abbrev pub waits_or_runs : MessageState → ℕ
waits_or_runs pending = 1
waits_or_runs in_progress = 1
waits_or_runs completed = 0
waits_or_runs error = 0

abbrev pub active_nodes : Dict MessageNode → ℕ
active_nodes [] = 0
active_nodes ((k, n) ∷ d) = waits_or_runs n.state + active_nodes d

abbrev pub active_in : Dict MessageTree → ℕ
active_in [] = 0
active_in ((k, t) ∷ d) = active_nodes t.nodes + active_in d

-- A node after a restart: what waited or ran has failed, now, with the message for it.
abbrev lost_node : ℕ → MessageNode → MessageNode
lost_node now n = record n {
  state = error;
  error_message = some "Lost during server restart";
  completed_at = some now;
}

abbrev pub reconciled : ℕ → MessageNode → MessageNode
reconciled now n = elim n.state [
  | pending ↦ lost_node now n
  | in_progress ↦ lost_node now n
  | completed ↦ n
  | error ↦ n
]

waits_or_runs-set_node_error_sync :
    (now : ℕ) (n : MessageNode) → waits_or_runs (set_node_error_sync now lost n).state ≡ 0
unfolding set_node_error_sync
waits_or_runs-set_node_error_sync now n = refl

is_active_lem : (s : MessageState) → waits_or_runs s ≡ (if is_active s then 1 else 0)
unfolding is_active
is_active_lem s = ground arith

reconciled_lem :
    (now : ℕ) (n : MessageNode)
    → (if is_active n.state then set_node_error_sync now lost n else n) ≡ reconciled now n
unfolding is_active set_node_error_sync
reconciled_lem now n = ground arith

fail_stale-active_nodes :
    (now : ℕ) (d : Dict MessageNode)
    → let r = fail_stale now d in (active_nodes r.0 ≡ 0) × (r.1 ≡ active_nodes d)
unfolding fail_stale
fail_stale-active_nodes now [] = (refl, refl)
fail_stale-active_nodes now ((k, n) ∷ d) =
    let h = fail_stale-active_nodes now d in
    ground (arith, h, is_active_lem n.state, waits_or_runs-set_node_error_sync now n)

get-fail_stale :
    (now : ℕ) (j : String) (d : Dict MessageNode)
    → get j (fail_stale now d).0 ≡ map_opt (reconciled now) (get j d)
unfolding fail_stale get
get-fail_stale now j [] = refl
get-fail_stale now j ((k, n) ∷ d) =
    let h = get-fail_stale now j d in
    let e = reconciled_lem now n in
    elim (Bool-cases (is_active n.state)) [
      | inl a ↦
          let same : set_node_error_sync now lost n ≡ reconciled now n = rw a at e in
          elim (Bool-cases (str_eq k j)) [ inl b ↦ rw (a, b) (ap some same) | inr b ↦ rw (a, b) h ]
      | inr a ↦
          let same : n ≡ reconciled now n = rw a at e in
          elim (Bool-cases (str_eq k j)) [ inl b ↦ rw (a, b) (ap some same) | inr b ↦ rw (a, b) h ]
    ]

cleanup_trees-active_in :
    (now : ℕ) (d : Dict MessageTree)
    → let r = cleanup_trees now d in (active_in r.0 ≡ 0) × (r.1 ≡ active_in d)
unfolding cleanup_trees
cleanup_trees-active_in now [] = (refl, refl)
cleanup_trees-active_in now ((k, t) ∷ d) =
    omega (arith, cleanup_trees-active_in now d, fail_stale-active_nodes now t.nodes)

get-cleanup_trees :
    (now : ℕ) (k j : String) (d : Dict MessageTree)
    → node_in j (get k (cleanup_trees now d).0) ≡ map_opt (reconciled now) (node_in j (get k d))
unfolding cleanup_trees get
get-cleanup_trees now k j [] = refl
get-cleanup_trees now k j ((i, t) ∷ d) = elim (Bool-cases (str_eq i k)) [
  | inl e ↦ rw e (get-fail_stale now j t.nodes)
  | inr e ↦ rw e (get-cleanup_trees now k j d)
]

-- The start-up clean-up of all trees: in whichever tree a node is looked up, a pending or running
-- one has failed and every other is as it was; no node of any tree is pending or in progress any
-- more; and the answer is the number of nodes, over all trees, that were.
pub cleanup_stale_nodes_lem :
    (now : ℕ) (repo : TreeRepository)
    → let r = cleanup_stale_nodes now repo in
      ((k j : String)
        → node_in j (get k r.0.trees) ≡ map_opt (reconciled now) (node_in j (get k repo.trees)))
      × (active_in r.0.trees ≡ 0)
      × (r.1 ≡ active_in repo.trees)
unfolding cleanup_stale_nodes
cleanup_stale_nodes_lem now repo =
    let (none_left, count) = cleanup_trees-active_in now repo.trees in
    (λ k j. get-cleanup_trees now k j repo.trees, none_left, count)
