-- ===== src/Tests/Processes.antt =====
-- Runs of the processor.
use liberated_claude_code.Prelude.{◌≡◌, refl, false, true, List, [], ◌∷◌, ◌++◌, none, some, length}
use liberated_claude_code.Dict.{get, modify, map_values, contains, discard}
use liberated_claude_code.Trees.Node.{pending, is_active, is_terminal, set_node_error_sync}
use liberated_claude_code.Trees.Tree
use liberated_claude_code.Trees.Tree.{MessageTree}
use liberated_claude_code.Trees.Cancel
use liberated_claude_code.Trees.Cancel.{cancel_tree}
use liberated_claude_code.Trees.Processor
use liberated_claude_code.Trees.Processor.{
  Task, created, running, World, Event, submits, begins, ends, leaves, updates, cancels,
  cancels_tree, new_task, process_next, step, run, idle,
}
use liberated_claude_code.Trees.Processor.Exclusion.{
  IsExclusive, run-idle-IsExclusive, cancel_tree_lets_two_run,
}
use liberated_claude_code.Trees.Processor.Order.{all_submitted, AllPlain, run-order}
use liberated_claude_code.Trees.Processor.Lined.{IsLast}
use liberated_claude_code.Trees.Processor.Progress.{work_off, IsWorking, work_off_lem}
use liberated_claude_code.Trees.Processor.Stalled.{
  IsStalled, unknown_head_stalls, early_cancel_stalls,
}
use liberated_claude_code.Tests.Queues.{node_in_state, three}

-- "b" waits for "a", and runs after it.
abbrev schedule : List Event
schedule = submits "a" ∷ submits "b" ∷ begins 0 ∷ ends 0 (some "failed") ∷ leaves 0 ∷ begins 1 ∷ []

run-idle-IsExclusive_example : IsExclusive (run 5 (cancels "b" ∷ schedule) (idle three))
run-idle-IsExclusive_example =
    run-idle-IsExclusive 5 (cancels "b" ∷ schedule) three
      (tt, (tt, (tt, (tt, (tt, (tt, (tt, tt)))))))

abbrev calm_three : MessageTree
calm_three = record three { queue = record { deque = []; set = [] } }

schedule-AllPlain : AllPlain calm_three.nodes schedule
unfolding get
schedule-AllPlain = ((refl, refl), ((refl, refl), (tt, (tt, (tt, (tt, tt))))))

run-order_example :
    let w = run 5 schedule (idle calm_three) in
    (w.started ++ w.tree.queue.deque ≡ all_submitted schedule)
    × (w.tree.is_processing ≡ false → (w.started ≡ all_submitted schedule) × (w.tasks ≡ []))
    × (w.tree.is_processing ≡ true → IsLast w)
run-order_example = run-order 5 schedule calm_three refl schedule-AllPlain

-- "a" has a task that has not begun, and "b" waits.
abbrev working : World
working = record { tree = three; tasks = new_task 0 "a" ∷ []; next_id = 1; started = "a" ∷ [] }

three_b : get "b" three.nodes ≡ some (node_in_state "b" pending)
unfolding get
three_b = refl

working-IsWorking : IsWorking ("b" ∷ []) working
working-IsWorking = record {
  task = (0, "a", refl);
  waits = refl;
  known = ((node_in_state "b" pending, three_b), refl, tt);
}

work_off_lem_example :
    let w' = work_off 2 5 working in
    (w'.tree.is_processing ≡ false) × (w'.tasks ≡ []) × (w'.started ≡ "a" ∷ "b" ∷ [])
work_off_lem_example = work_off_lem ("b" ∷ []) 5 working working-IsWorking

-- The task of "a" runs.
abbrev busy : World
busy = record {
  tree = three;
  tasks = record { id = 0; node_id = "a"; phase = running; cancelled = false } ∷ [];
  next_id = 1;
  started = "a" ∷ [];
}

cancelled_b :
    get "b" (step 9 cancels_tree busy).tree.nodes
    ≡ some (set_node_error_sync 9 "Cancelled by user" (node_in_state "b" pending))
unfolding step Processor.apply_cancelled cancel_tree get Cancel.stop_running Cancel.cancel_running
    Cancel.cancel_if_live Cancel.mark_stale Tree.cancel_current_task
    Tree.drain_queue_and_mark_cancelled Tree.drain Tree.reset_processing_state modify contains
    discard is_active is_terminal set_node_error_sync map_values Processor.find_task
cancelled_b = refl

cancel_tree_lets_two_run_example : length (run 9 (cancels_tree ∷ submits "b" ∷ []) busy).tasks ≡ 2
cancel_tree_lets_two_run_example =
    cancel_tree_lets_two_run 9 "b" busy
      (record { id = 0; node_id = "a"; phase = running; cancelled = false })
      (set_node_error_sync 9 "Cancelled by user" (node_in_state "b" pending)) refl cancelled_b

-- "z" waits, but its branch was removed.
abbrev orphaned : World
orphaned = record {
  tree = record three { queue = record { deque = "z" ∷ "b" ∷ []; set = "z" ∷ "b" ∷ [] } };
  tasks = [];
  next_id = 1;
  started = "a" ∷ [];
}

no_z : get "z" orphaned.tree.nodes ≡ none
unfolding get
no_z = refl

unknown_head_stalls_example :
    IsStalled ("a" ∷ []) (run 5 (submits "b" ∷ []) (process_next orphaned))
unknown_head_stalls_example =
    unknown_head_stalls 5 "z" ("b" ∷ []) orphaned (submits "b" ∷ []) refl refl refl no_z (tt, tt)

abbrev early : World
early = record {
  tree = three;
  tasks = record { id = 0; node_id = "a"; phase = created; cancelled = true } ∷ [];
  next_id = 1;
  started = "a" ∷ [];
}

early_cancel_stalls_example : IsStalled ("a" ∷ []) (run 5 (begins 0 ∷ submits "b" ∷ []) early)
early_cancel_stalls_example =
    early_cancel_stalls 5 (record { id = 0; node_id = "a"; phase = created; cancelled = true })
      early (submits "b" ∷ []) refl refl refl refl (tt, tt)
