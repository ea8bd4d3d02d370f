-- ===== src/Trees/Processor.antt =====
-- messaging/trees/processor.py: `enqueue_and_start`, `_process_next` and the life of the tasks that
-- `process_node` runs in. The event loop is a world with the tasks that have not yet reached the
-- critical section of their last `_process_next`; each event is one stretch of code between two
-- waits, in any order that the schedule gives.
pub mod Exclusion
pub mod Lined
pub mod Order
pub mod Progress
pub mod Stalled
use liberated_claude_code.Prelude.{
  ℕ, suc, Bool, true, false, not, ◌&&◌, String, List, [], ◌∷◌, ◌++◌, Option, none, some, ◌==◌,
  str_eq, if◌then◌else◌,
}
use liberated_claude_code.Dict.{get}
use liberated_claude_code.Trees.Node.{MessageState, error}
use liberated_claude_code.Trees.Tree.{
  MessageTree, get_node, update_state, dequeue, put_queue_unlocked, set_processing_state,
  set_current_task, clear_current_node,
}
use liberated_claude_code.Trees.Cancel.{Cancelled, cancel_node, cancel_tree}

-- A task stands before its first line, in the user's processor, or between the two critical
-- sections of its `finally`.
pub data Phase : Type 0 where
  created running cleared : Phase

pub record Task : Type 0 where
  pub id : ℕ
  pub node_id : String
  pub phase : Phase
  pub cancelled : Bool

-- `next_id` is the next task's number; `started` is what the event loop saw: the nodes that tasks were
-- created for, in order.
pub record World : Type 0 where
  pub tree : MessageTree
  pub tasks : List Task
  pub next_id : ℕ
  pub started : List String

abbrev pub new_task : ℕ → String → Task
new_task id node_id = record { id = id; node_id = node_id; phase = created; cancelled = false }

-- `asyncio.create_task(process_node(node, processor))`. Only here a task is made and `started` is
-- written.
unfoldable pub create_task : String → World → World
create_task node_id w = record w {
  tasks = w.tasks ++ new_task w.next_id node_id ∷ [];
  next_id = suc w.next_id;
  started = w.started ++ node_id ∷ [];
}

-- `set_processing_state(node_id, True)`, and a task if the node is in the tree.
unfoldable pub start : String → World → World
start node_id w =
    let busy = record w { tree = set_processing_state (some node_id) true w.tree } in
    elim (get_node node_id w.tree) [
      | none ↦ busy
      | some node ↦
          let made = create_task node_id busy in
          record made { tree = set_current_task (some w.next_id) made.tree }
    ]

-- The result is `True` for a node that was queued.
unfoldable pub enqueue_and_start : String → World → World × Bool
enqueue_and_start node_id w =
    if w.tree.is_processing
    then (record w { tree = put_queue_unlocked node_id w.tree }, true)
    else (start node_id w, false)

-- `_process_next`, with what `dequeue` returned.
unfoldable pub process_dequeued : Option String → World → World
process_dequeued none w = record w { tree = set_processing_state none false w.tree }
process_dequeued (some next) w =
    if str_eq next ""
    then record w { tree = set_processing_state none false w.tree }
    else start next w

unfoldable pub process_next : World → World
process_next w =
    let (next, tree) = dequeue w.tree in process_dequeued next (record w { tree = tree })

unfoldable pub find_task : ℕ → List Task → Option Task
find_task id [] = none
find_task id (t ∷ ts) = if t.id == id then some t else find_task id ts

unfoldable pub drop_task : ℕ → List Task → List Task
drop_task id [] = []
drop_task id (t ∷ ts) = if t.id == id then ts else t ∷ drop_task id ts

unfoldable pub set_task : Task → List Task → List Task
set_task task [] = []
set_task task (t ∷ ts) = if t.id == task.id then task ∷ ts else t ∷ set_task task ts

abbrev pub is_error : MessageState → Bool
is_error error = true
is_error _ = false

abbrev pub failed_node : String → MessageTree → Bool
failed_node node_id t = elim (get node_id t.nodes) [ none ↦ false | some n ↦ is_error n.state ]

-- The first lines of `process_node`: a task that was cancelled before them ends there, a node that
-- has failed is skipped, any other is handed to the processor.
unfoldable pub begin_task : Task → World → World
begin_task task w =
    if task.cancelled
    then record w { tasks = drop_task task.id w.tasks }
    else if failed_node task.node_id w.tree
    then process_next (record w { tasks = drop_task task.id w.tasks })
    else record w { tasks = set_task (record task { phase = running }) w.tasks }

-- The processor returns, is cancelled, or raises another exception (whose message is given); then
-- the first critical section of `finally`.
unfoldable pub end_task : ℕ → Option String → Task → World → World
end_task now raised task w =
    let tree : MessageTree = elim raised [
      | none ↦ w.tree
      | some message ↦ update_state now task.node_id error none (some message) w.tree
    ] in
    record w {
      tree = clear_current_node tree;
      tasks = set_task (record task { phase = cleared }) w.tasks;
    }

unfoldable pub leave_task : Task → World → World
leave_task task w = process_next (record w { tasks = drop_task task.id w.tasks })

abbrev pub is_done : List Task → ℕ → Bool
is_done tasks id = elim (find_task id tasks) [ none ↦ true | some t ↦ false ]

-- `task.cancel()`
unfoldable pub cancel_task : Option ℕ → List Task → List Task
cancel_task none tasks = tasks
cancel_task (some id) tasks = elim (find_task id tasks) [
  | none ↦ tasks
  | some t ↦ set_task (record t { cancelled = true }) tasks
]

unfoldable pub apply_cancelled : Cancelled → World → World
apply_cancelled c w = record w { tree = c.tree; tasks = cancel_task c.task w.tasks }

-- What the event loop may run next. `submits` is a call of `enqueue_and_start`, `updates` a call of
-- `update_state`, `cancels` and `cancels_tree` the calls of the manager.
pub data Event : Type 0 where
  submits : String → Event
  begins : ℕ → Event
  ends : ℕ → Option String → Event
  leaves : ℕ → Event
  updates : String → MessageState → Event
  cancels : String → Event
  cancels_tree : Event

unfoldable pub in_phase : (Phase → Bool) → ℕ → (Task → World → World) → World → World
in_phase right id act w = elim (find_task id w.tasks) [
  | none ↦ w
  | some task ↦ if right task.phase then act task w else w
]

abbrev pub is_created : Phase → Bool
is_created created = true
is_created _ = false

abbrev pub is_running : Phase → Bool
is_running running = true
is_running _ = false

abbrev pub is_cleared : Phase → Bool
is_cleared cleared = true
is_cleared _ = false

-- An event that is not enabled changes nothing.
unfoldable pub step : ℕ → Event → World → World
step now (submits node_id) w = (enqueue_and_start node_id w).0
step now (begins id) w = in_phase is_created id begin_task w
step now (ends id raised) w = in_phase is_running id (end_task now raised) w
step now (leaves id) w = in_phase is_cleared id leave_task w
step now (updates node_id state) w = record w {
  tree = update_state now node_id state none none w.tree;
}
step now (cancels node_id) w = apply_cancelled (cancel_node (is_done w.tasks) now node_id w.tree) w
step now cancels_tree w = apply_cancelled (cancel_tree (is_done w.tasks) now w.tree) w

unfoldable pub run : ℕ → List Event → World → World
run now [] w = w
run now (e ∷ es) w = run now es (step now e w)

abbrev pub idle : MessageTree → World
idle t = record {
  tree = record t { is_processing = false; current_node_id = none; current_task = none };
  tasks = [];
  next_id = 0;
  started = [];
}
