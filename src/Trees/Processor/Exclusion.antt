-- ===== src/Trees/Processor/Exclusion.antt =====
-- messaging/trees/processor.py: how many tasks of a tree are alive.
use liberated_claude_code.Prelude.{
  ℕ, ◌≤◌, ◌≡◌, ◌+◌, refl, sym, ap, ◌∙◌, inl, inr, Bool, false, String, List, [], ◌∷◌, Option, none,
  some, arith, str_eq, length, length-append, Bool-cases, Option-cases,
}
use liberated_claude_code.Dict.{get}
use liberated_claude_code.Trees.Node.{MessageNode}
use liberated_claude_code.Trees.Tree.{
  MessageTree, get_node, update_state, put_queue_unlocked, set_processing_state, set_current_task,
  clear_current_node, reset_processing_state, remove_from_queue,
}
use liberated_claude_code.Trees.Cancel.{cancel_node, cancel_tree}
use liberated_claude_code.Trees.Processor.{
  Phase, Task, World, new_task, Event, submits, begins, ends, leaves, updates, cancels,
  cancels_tree, start, create_task, enqueue_and_start, process_dequeued, process_next, find_task,
  drop_task, set_task, begin_task, end_task, leave_task, cancel_task, apply_cancelled, failed_node,
  in_phase, step, run, idle, is_done,
}

-- One task at most, and none while the tree is free.
pub record IsExclusive (w : World) : Type 0 where
  pub one : length w.tasks ≤ 1
  pub free : w.tree.is_processing ≡ false → w.tasks ≡ []

start-IsExclusive : (id : String) (w : World) → w.tasks ≡ [] → IsExclusive (start id w)
unfolding start create_task set_processing_state set_current_task
start-IsExclusive id w e = ground arith

process_dequeued-IsExclusive :
    (o : Option String) (w : World) → w.tasks ≡ [] → IsExclusive (process_dequeued o w)
unfolding process_dequeued set_processing_state
process_dequeued-IsExclusive none w e = ground arith
process_dequeued-IsExclusive (some id) w e = elim (Bool-cases (str_eq id "")) [
  | inl h ↦ rw h (ground arith)
  | inr h ↦ rw h (start-IsExclusive id w e)
]

process_next-IsExclusive : (w : World) → w.tasks ≡ [] → IsExclusive (process_next w)
unfolding process_next
process_next-IsExclusive w e = process_dequeued-IsExclusive _ _ e

length-set_task : (t : Task) (ts : List Task) → length (set_task t ts) ≡ length ts
unfolding set_task
length-set_task t [] = refl
length-set_task t (s ∷ ts) = ground (arith, length-set_task t ts)

-- The only task is the one that was found.
pub drop-found :
    (id : ℕ) (t : Task) (ts : List Task)
    → length ts ≤ 1
    → find_task id ts ≡ some t
    → drop_task t.id ts ≡ []
unfolding find_task drop_task
drop-found id t [] h e = refl
drop-found id t (s ∷ []) h e = ground arith
drop-found id t (s ∷ u ∷ ts) h e = absurd (omega arith)

find_task-nil : (id : ℕ) (t : Task) → find_task id [] ≡ some t → ⊥
unfolding find_task
find_task-nil id t e = cc

find_task-busy :
    (id : ℕ) (t : Task) (w : World)
    → IsExclusive w
    → find_task id w.tasks ≡ some t
    → w.tree.is_processing ≡ false
    → ⊥
find_task-busy id t w h found off = find_task-nil id t (rw (← h.free off) found)

set_task-IsExclusive :
    (id : ℕ) (t u : Task) (w : World) (tree : MessageTree)
    → IsExclusive w
    → find_task id w.tasks ≡ some t
    → tree.is_processing ≡ w.tree.is_processing
    → IsExclusive (record w { tree = tree; tasks = set_task u w.tasks })
set_task-IsExclusive id t u w tree h found same = record {
  one = omega (arith, length-set_task u w.tasks, h.one);
  free = λ off. absurd (find_task-busy id t w h found (sym same ∙ off));
}

begin_task-IsExclusive :
    (id : ℕ) (t : Task) (w : World)
    → IsExclusive w
    → find_task id w.tasks ≡ some t
    → IsExclusive (begin_task t w)
unfolding begin_task
begin_task-IsExclusive id t w h found =
    let gone = drop-found id t w.tasks h.one found in
    elim (Bool-cases t.cancelled) [
      | inl e ↦ simp e (record { one = rw gone (omega arith); free = λ off. gone })
      | inr e ↦ elim (Bool-cases (failed_node t.node_id w.tree)) [
        | inl f ↦ simp (e, f) (process_next-IsExclusive _ gone)
        | inr f ↦ simp (e, f) (set_task-IsExclusive id t _ w w.tree h found refl)
      ]
    ]

end_task-IsExclusive :
    (now id : ℕ) (raised : Option String) (t : Task) (w : World)
    → IsExclusive w
    → find_task id w.tasks ≡ some t
    → IsExclusive (end_task now raised t w)
unfolding end_task clear_current_node update_state
end_task-IsExclusive now id none t w h found = set_task-IsExclusive id t _ w _ h found refl
end_task-IsExclusive now id (some message) t w h found =
    set_task-IsExclusive id t _ w _ h found refl

in_phase-IsExclusive :
    (right : Phase → Bool) (id : ℕ) (act : Task → World → World) (w : World)
    → IsExclusive w
    → ((t : Task) → find_task id w.tasks ≡ some t → IsExclusive (act t w))
    → IsExclusive (in_phase right id act w)
unfolding in_phase
in_phase-IsExclusive right id act w h acts = elim (Option-cases (find_task id w.tasks)) [
  | inl e ↦ rw (e, in_phase) h
  | inr (t, e) ↦ elim (Bool-cases (right t.phase)) [
    | inl p ↦ rw (e, in_phase, p) (acts t e)
    | inr p ↦ rw (e, in_phase, p) h
  ]
]

cancel_task-IsExclusive :
    (o : Option ℕ) (w : World) (tree : MessageTree)
    → IsExclusive w
    → tree.is_processing ≡ w.tree.is_processing
    → IsExclusive (record w { tree = tree; tasks = cancel_task o w.tasks })
unfolding cancel_task
cancel_task-IsExclusive none w tree h same = record {
  one = h.one;
  free = λ off. h.free (sym same ∙ off);
}
cancel_task-IsExclusive (some id) w tree h same = elim (Option-cases (find_task id w.tasks)) [
  | inl e ↦ rw (e, cancel_task) (record { one = h.one; free = λ off. h.free (sym same ∙ off) })
  | inr (t, e) ↦ rw (e, cancel_task) (set_task-IsExclusive id t _ w tree h e same)
]

pub is_processing-cancel_node :
    (done : ℕ → Bool) (now : ℕ) (id : String) (t : MessageTree)
    → (cancel_node done now id t).tree.is_processing ≡ t.is_processing
unfolding cancel_node remove_from_queue
is_processing-cancel_node done now id t = ground arith

enqueue-IsExclusive :
    (id : String) (w : World) → IsExclusive w → IsExclusive (enqueue_and_start id w).0
unfolding enqueue_and_start put_queue_unlocked
enqueue-IsExclusive id w h = elim (Bool-cases w.tree.is_processing) [
  | inl e ↦ simp e (record { one = h.one; free = λ off. cc })
  | inr e ↦ simp e (start-IsExclusive id w (h.free e))
]

abbrev pub IsMild : Event → Type 0
IsMild cancels_tree = ⊥
IsMild _ = Unit {0}

pub step-IsExclusive :
    (now : ℕ) (e : Event) (w : World) → IsMild e → IsExclusive w → IsExclusive (step now e w)
unfolding step
step-IsExclusive now (submits id) w m h = enqueue-IsExclusive id w h
step-IsExclusive now (begins id) w m h =
    in_phase-IsExclusive _ id begin_task w h (λ t e. begin_task-IsExclusive id t w h e)
step-IsExclusive now (ends id raised) w m h =
    in_phase-IsExclusive _ id (end_task now raised) w h
      (λ t e. end_task-IsExclusive now id raised t w h e)
step-IsExclusive now (leaves id) w m h =
    in_phase-IsExclusive _ id leave_task w h
      (λ t e. unfold leave_task in process_next-IsExclusive _ (drop-found id t w.tasks h.one e))
step-IsExclusive now (updates id state) w m h =
    unfold update_state in record { one = h.one; free = h.free }
step-IsExclusive now (cancels id) w m h =
    unfold apply_cancelled in
    cancel_task-IsExclusive _ w _ h (is_processing-cancel_node (is_done w.tasks) now id w.tree)
step-IsExclusive now cancels_tree w m h = absurd m

abbrev pub AllMild : List Event → Type 0
AllMild [] = Unit {0}
AllMild (e ∷ es) = IsMild e × AllMild es

run-IsExclusive :
    (now : ℕ) (es : List Event) (w : World)
    → AllMild es
    → IsExclusive w
    → IsExclusive (run now es w)
unfolding run
run-IsExclusive now [] w m h = h
run-IsExclusive now (e ∷ es) w m h =
    run-IsExclusive now es (step now e w) m.1 (step-IsExclusive now e w m.0 h)

-- From an idle tree, whatever is submitted, run, updated and cancelled node by node, in any order,
-- at most one task of the tree is alive, and none while the tree counts as free.
pub run-idle-IsExclusive :
    (now : ℕ) (es : List Event) (t : MessageTree) → AllMild es → IsExclusive (run now es (idle t))
run-idle-IsExclusive now es t m =
    run-IsExclusive now es (idle t) m (record { one = omega arith; free = λ e. refl })

length-cancel_task : (o : Option ℕ) (ts : List Task) → length (cancel_task o ts) ≡ length ts
unfolding cancel_task
length-cancel_task none ts = refl
length-cancel_task (some id) ts = elim (Option-cases (find_task id ts)) [
  | inl e ↦ rw (e, cancel_task)
  | inr (t, e) ↦ rw (e, cancel_task) (length-set_task _ ts)
]

length-start :
    (b : String) (w : World) (n : MessageNode)
    → get b w.tree.nodes ≡ some n
    → length (start b w).tasks ≡ length w.tasks + 1
unfolding start create_task get_node
length-start b w n found =
    rw (found, start) (omega (arith, length-append {0} w.tasks (new_task w.next_id b ∷ [])))

enqueue-free :
    (b : String) (w : World) → w.tree.is_processing ≡ false → (enqueue_and_start b w).0 ≡ start b w
unfolding enqueue_and_start
enqueue-free b w e = simp e

after-cancels_tree :
    (now : ℕ) (w : World)
    → let w' = step now cancels_tree w in
      (w'.tree.is_processing ≡ false) × (length w'.tasks ≡ length w.tasks)
unfolding step apply_cancelled cancel_tree reset_processing_state
after-cancels_tree now w = (refl, length-cancel_task _ w.tasks)

-- `cancel_tree` frees the tree while the task that it told to stop has not ended: where one
-- task is alive, a node of the tree that is submitted after `cancel_tree` gets a task beside it.
pub cancel_tree_lets_two_run :
    (now : ℕ) (b : String) (w : World) (t : Task) (n : MessageNode)
    → w.tasks ≡ t ∷ []
    → get b (step now cancels_tree w).tree.nodes ≡ some n
    → length (run now (cancels_tree ∷ submits b ∷ []) w).tasks ≡ 2
unfolding run step
cancel_tree_lets_two_run now b w t n one found =
    let w' = step now cancels_tree w in
    let (off, same) = after-cancels_tree now w in
    omega (
      arith,
      ap (λ (v : World). length v.tasks) (enqueue-free b w' off),
      length-start b w' n found,
      same,
      ap length one,
    )
