-- ===== src/Trees/Processor/Progress.antt =====
-- messaging/trees/processor.py: one task after the other, until the queue is empty.
use liberated_claude_code.Prelude.{
  ℕ, zero, suc, ◌≡◌, refl, sym, ap, ◌∙◌, inl, inr, Bool, true, false, String, List, [], ◌∷◌, ◌++◌,
  append-nil, append_assoc, none, some, arith, ◌==◌, ==_iff, str_eq, length, if◌then◌else◌,
  Bool-cases,
}
use liberated_claude_code.Dict.{Dict, get}
use liberated_claude_code.Trees.Node.{MessageNode}
use liberated_claude_code.Trees.Queue.{SnapshotQueue, get_nowait}
use liberated_claude_code.Trees.Tree.{
  MessageTree, get_node, dequeue, set_processing_state, set_current_task, clear_current_node,
}
use liberated_claude_code.Trees.Processor.{
  Phase, Task, World, Event, created, running, cleared, begins, ends, leaves, new_task, start,
  create_task, process_dequeued, process_next, find_task, drop_task, set_task, failed_node,
  begin_task, end_task, leave_task, in_phase, step, run,
}

-- The life of the task that stands first, if nothing cancels it and its processor returns.
abbrev pub life : World → List Event
life w = elim w.tasks [
  | [] ↦ []
  | t ∷ _ ↦
      if failed_node t.node_id w.tree
      then begins t.id ∷ []
      else begins t.id ∷ ends t.id none ∷ leaves t.id ∷ []
]

unfoldable pub work_off : ℕ → ℕ → World → World
work_off zero now w = w
work_off (suc n) now w = work_off n now (run now (life w) w)

-- Every id of the queue is that of a node.
abbrev pub AllKnown : List String → Dict MessageNode → Type 0
AllKnown [] nodes = Unit {0}
AllKnown (x ∷ xs) nodes =
    ((n : MessageNode) × (get x nodes ≡ some n)) × (str_eq x "" ≡ false) × AllKnown xs nodes

-- One task, not yet begun, and these ids behind it.
pub record IsWorking (ids : List String) (w : World) : Type 0 where
  pub task : (id : ℕ) × (node_id : String) × (w.tasks ≡ new_task id node_id ∷ [])
  pub waits : w.tree.queue.deque ≡ ids
  pub known : AllKnown ids w.tree.nodes

eq_self : (n : ℕ) → (n == n) ≡ true
eq_self n = (==_iff n n).1 refl

pub in_phase-hit :
    (right : Phase → Bool) (t : Task) (act : Task → World → World) (w : World)
    → w.tasks ≡ t ∷ []
    → right t.phase ≡ true
    → in_phase right t.id act w ≡ act t w
unfolding in_phase find_task
in_phase-hit right t act w e p = ground (arith, eq_self t.id)

pub drop_alone : (t : Task) → drop_task t.id (t ∷ []) ≡ []
unfolding drop_task
drop_alone t = ground (arith, eq_self t.id)

pub set_alone : (t u : Task) → t.id ≡ u.id → set_task u (t ∷ []) ≡ u ∷ []
unfolding set_task
set_alone t u e = ground arith

-- The two ways in which a task that stands alone reaches `_process_next`.
module _ (now : ℕ) (w : World) (id : ℕ) (node_id : String) where
  abbrev at_phase : Phase → Task
  at_phase p = record { id = id; node_id = node_id; phase = p; cancelled = false }

  abbrev alone : Phase → World
  alone p = record w { tasks = at_phase p ∷ [] }

  begins_failed :
      failed_node node_id w.tree ≡ true
      → step now (begins id) (alone created) ≡ process_next (record w { tasks = [] })
  unfolding step begin_task
  begins_failed f =
      in_phase-hit _ (at_phase created) begin_task (alone created) refl refl
      ∙ simp f (ap (λ ts. process_next (record w { tasks = ts })) (drop_alone (at_phase created)))

  begins_running :
      failed_node node_id w.tree ≡ false → step now (begins id) (alone created) ≡ alone running
  unfolding step begin_task
  begins_running f =
      in_phase-hit _ (at_phase created) begin_task (alone created) refl refl
      ∙ simp f (
          ap (λ ts. record w { tasks = ts }) (set_alone (at_phase created) (at_phase running) refl))

  ends_cleared :
      step now (ends id none) (alone running)
      ≡ record w { tree = clear_current_node w.tree; tasks = at_phase cleared ∷ [] }
  unfolding step end_task
  ends_cleared =
      in_phase-hit _ (at_phase running) (end_task now none) (alone running) refl refl
      ∙ ap (λ ts. record w { tree = clear_current_node w.tree; tasks = ts })
          (set_alone (at_phase running) (at_phase cleared) refl)

  leaves_next :
      (t : MessageTree)
      → step now (leaves id) (record w { tree = t; tasks = at_phase cleared ∷ [] })
        ≡ process_next (record w { tree = t; tasks = [] })
  unfolding step leave_task
  leaves_next t =
      in_phase-hit _ (at_phase cleared) leave_task _ refl refl
      ∙ ap (λ ts. process_next (record w { tree = t; tasks = ts })) (drop_alone (at_phase cleared))

  life_failed :
      failed_node node_id w.tree ≡ true
      → run now (life (alone created)) (alone created) ≡ process_next (record w { tasks = [] })
  unfolding run
  life_failed f = simp f (begins_failed f)

  life_returned :
      failed_node node_id w.tree ≡ false
      → run now (life (alone created)) (alone created)
        ≡ process_next (record w { tree = clear_current_node w.tree; tasks = [] })
  unfolding run
  life_returned f = simp f (
      ap (λ (v : World). step now (leaves id) (step now (ends id none) v)) (begins_running f)
      ∙ ap (step now (leaves id)) ends_cleared
      ∙ leaves_next (clear_current_node w.tree))

life-next :
    (now : ℕ) (w : World) (id : ℕ) (node_id : String)
    → w.tasks ≡ new_task id node_id ∷ []
    → (t : MessageTree) × (run now (life w) w ≡ process_next (record w { tree = t; tasks = [] }))
      × (t.queue ≡ w.tree.queue)
      × (t.nodes ≡ w.tree.nodes)
unfolding clear_current_node
life-next now w id node_id e =
    let same : w ≡ record w { tasks = new_task id node_id ∷ [] } = λ i. record w { tasks = e i } in
    elim (Bool-cases (failed_node node_id w.tree)) [
      | inl f ↦ (
        w.tree,
        ap (λ (v : World). run now (life v) v) same ∙ life_failed now w id node_id f,
        refl,
        refl,
      )
      | inr f ↦ (
        clear_current_node w.tree,
        ap (λ (v : World). run now (life v) v) same ∙ life_returned now w id node_id f,
        refl,
        refl,
      )
    ]

-- `_process_next` with no task left, on a deque that is known.
next_empty :
    (w : World)
    → w.tree.queue.deque ≡ []
    → ((process_next w).tree.is_processing ≡ false)
      × ((process_next w).started ≡ w.started)
      × ((process_next w).tasks ≡ w.tasks)
unfolding process_next dequeue get_nowait process_dequeued set_processing_state
next_empty w e = ground arith

next_known :
    (w : World) (id : String) (ids : List String)
    → w.tasks ≡ []
    → w.tree.queue.deque ≡ id ∷ ids
    → AllKnown (id ∷ ids) w.tree.nodes
    → IsWorking ids (process_next w) × ((process_next w).started ≡ w.started ++ id ∷ [])
unfolding process_next dequeue get_nowait process_dequeued set_processing_state set_current_task
    start create_task get_node
next_known w id ids none_left e ((n, found), name, known) = (
  record {
    task = (w.next_id, id, ground (arith, none_left));
    waits = ground arith;
    known = ground (arith, known);
  },
  ground arith,
)

-- For a tree with one task that has not begun, and whose queue holds ids of its nodes alone,
-- none of them empty, on the schedule on which the tasks run back to back, each processor returns, nothing is cancelled and
-- nothing else happens: as many tasks later as there are ids, and its own, a task was made for
-- every id in the queue's order, no task is left, and the tree is free.
pub work_off_lem :
    (ids : List String) (now : ℕ) (w : World)
    → IsWorking ids w
    → let w' = work_off (suc (length ids)) now w in
      (w'.tree.is_processing ≡ false) × (w'.tasks ≡ []) × (w'.started ≡ w.started ++ ids)
unfolding work_off
work_off_lem [] now w h =
    let (id, node_id, e) = h.task in
    let (t, same, q, _) = life-next now w id node_id e in
    let (off, s, none_left) =
      next_empty (record w { tree = t; tasks = [] })
        (ap (λ (r : SnapshotQueue). r.deque) q ∙ h.waits) in
    rw same (off, none_left, s ∙ sym (append-nil _))
work_off_lem (x ∷ ids) now w h =
    let (id, node_id, e) = h.task in
    let (t, same, q, n) = life-next now w id node_id e in
    let (working, s) =
      next_known (record w { tree = t; tasks = [] }) x ids refl
        (ap (λ (r : SnapshotQueue). r.deque) q ∙ h.waits) (rw n h.known) in
    let (off, none_left, all) = work_off_lem ids now _ working in
    rw (same, work_off)
      (off, none_left, all ∙ ap (λ r. r ++ ids) s ∙ append_assoc w.started (x ∷ []) ids)
