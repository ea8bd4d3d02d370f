-- ===== src/Trees/Processor/Stalled.antt =====
-- messaging/trees/processor.py: a tree that is busy and has no task.
use liberated_claude_code.Prelude.{
  ℕ, ◌≡◌, refl, ap, ◌∙◌, Bool, true, false, String, List, [], ◌∷◌, Option, none, some, arith,
  str_eq,
}
use liberated_claude_code.Dict.{get}
use liberated_claude_code.Trees.Queue.{get_nowait}
use liberated_claude_code.Trees.Tree.{
  get_node, update_state, dequeue, put_queue_unlocked, set_processing_state,
}
use liberated_claude_code.Trees.Processor.{
  Phase, Task, World, Event, created, submits, begins, ends, leaves, updates, cancels, cancels_tree,
  start, enqueue_and_start, process_dequeued, process_next, find_task, drop_task, begin_task,
  cancel_task, apply_cancelled, in_phase, step, run, is_done,
}
use liberated_claude_code.Trees.Processor.Exclusion.{IsMild, AllMild, is_processing-cancel_node}
use liberated_claude_code.Trees.Processor.Progress.{in_phase-hit, drop_alone}

pub record IsStalled (started : List String) (w : World) : Type 0 where
  pub busy : w.tree.is_processing ≡ true
  pub idle_loop : w.tasks ≡ []
  pub history : w.started ≡ started

in_phase-none :
    (right : Phase → Bool) (id : ℕ) (act : Task → World → World) (w : World)
    → w.tasks ≡ []
    → in_phase right id act w ≡ w
unfolding in_phase find_task
in_phase-none right id act w e = ground (arith, e)

cancel_task-nil : (o : Option ℕ) → cancel_task o [] ≡ []
unfolding cancel_task find_task
cancel_task-nil none = refl
cancel_task-nil (some id) = refl

enqueue-IsStalled :
    (s : List String) (id : String) (w : World)
    → IsStalled s w
    → IsStalled s (enqueue_and_start id w).0
unfolding enqueue_and_start put_queue_unlocked
enqueue-IsStalled s id w h =
    simp h.busy (record { busy = refl; idle_loop = h.idle_loop; history = h.history })

step-IsStalled :
    (s : List String) (now : ℕ) (e : Event) (w : World)
    → IsMild e
    → IsStalled s w
    → IsStalled s (step now e w)
unfolding step update_state apply_cancelled
step-IsStalled s now (submits id) w m h = enqueue-IsStalled s id w h
step-IsStalled s now (begins id) w m h = rw (in_phase-none _ id begin_task w h.idle_loop) h
step-IsStalled s now (ends id raised) w m h = rw (in_phase-none _ id _ w h.idle_loop) h
step-IsStalled s now (leaves id) w m h = rw (in_phase-none _ id _ w h.idle_loop) h
step-IsStalled s now (updates id state) w m h = record {
  busy = h.busy;
  idle_loop = h.idle_loop;
  history = h.history;
}
step-IsStalled s now (cancels id) w m h = record {
  busy = is_processing-cancel_node (is_done w.tasks) now id w.tree ∙ h.busy;
  idle_loop = ap (cancel_task _) h.idle_loop ∙ cancel_task-nil _;
  history = h.history;
}
step-IsStalled s now cancels_tree w m h = absurd m

run-IsStalled :
    (s : List String) (now : ℕ) (es : List Event) (w : World)
    → AllMild es
    → IsStalled s w
    → IsStalled s (run now es w)
unfolding run
run-IsStalled s now [] w m h = h
run-IsStalled s now (e ∷ es) w m h =
    run-IsStalled s now es (step now e w) m.1 (step-IsStalled s now e w m.0 h)

-- When `_process_next`, with no task left, takes an id that is not empty and not in the tree, the
-- tree is marked busy and no task is made: whatever is submitted later, no node is started again, as long as `cancel_tree` is
-- not called.
pub unknown_head_stalls :
    (now : ℕ) (id : String) (ids : List String) (w : World) (es : List Event)
    → w.tasks ≡ []
    → w.tree.queue.deque ≡ id ∷ ids
    → str_eq id "" ≡ false
    → get id w.tree.nodes ≡ none
    → AllMild es
    → IsStalled w.started (run now es (process_next w))
unfolding process_next dequeue get_nowait process_dequeued start set_processing_state get_node
unknown_head_stalls now id ids w es none_left e name gone m =
    run-IsStalled _ now es (process_next w) m
      (record { busy = ground arith; idle_loop = ground arith; history = ground arith })

begins_cancelled :
    (now : ℕ) (t : Task) (w : World)
    → w.tasks ≡ t ∷ []
    → t.phase ≡ created
    → t.cancelled ≡ true
    → step now (begins t.id) w ≡ record w { tasks = [] }
unfolding step begin_task
begins_cancelled now t w alone p c =
    in_phase-hit _ t begin_task w alone (ground (arith, p))
    ∙ simp c (ap (λ ts. record w { tasks = ts }) (ap (drop_task t.id) alone ∙ drop_alone t))

-- The only task of a busy tree, cancelled before its first line, runs no `finally`: the tree stays busy with no
-- task, and no node is started again, as long as `cancel_tree` is not called.
pub early_cancel_stalls :
    (now : ℕ) (t : Task) (w : World) (es : List Event)
    → w.tasks ≡ t ∷ []
    → t.phase ≡ created
    → t.cancelled ≡ true
    → w.tree.is_processing ≡ true
    → AllMild es
    → IsStalled w.started (run now (begins t.id ∷ es) w)
unfolding run
early_cancel_stalls now t w es alone p c busy m =
    let gone = begins_cancelled now t w alone p c in
    run-IsStalled _ now es (step now (begins t.id) w) m
      (rw gone (record { busy = busy; idle_loop = refl; history = refl }))
