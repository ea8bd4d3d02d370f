-- ===== src/Trees/Processor/Order.antt =====
-- messaging/trees/processor.py: the order in which the nodes are started.
use liberated_claude_code.Prelude.{
  ℕ, ◌≡◌, refl, sym, ap, ◌∙◌, inl, inr, Bool, true, false, String, List, [], ◌∷◌, ◌++◌, append-nil,
  append_assoc, Option, none, some, arith, str_eq, Bool-cases, Option-cases,
}
use mathlib.Core.Bool.{false≢true}
use liberated_claude_code.Dict.{Dict, get, has, modify, get-modify}
use liberated_claude_code.Trees.Node.{MessageNode, MessageState}
use liberated_claude_code.Trees.Tree.{MessageTree, update_state, clear_current_node}
use liberated_claude_code.Trees.Processor.{
  Phase, running, cleared, Task, World, Event, submits, begins, ends, leaves, updates, cancels,
  cancels_tree, process_next, find_task, drop_task, set_task, failed_node, begin_task, end_task,
  leave_task, in_phase, step, run, idle,
}
use liberated_claude_code.Trees.Processor.Progress.{drop_alone, set_alone}
use liberated_claude_code.Trees.Processor.Lined.{
  IsLast, IsOrdered, enqueue-IsOrdered, process_next-IsOrdered, only_task, moved-IsOrdered,
}

abbrev pub submitted : Event → List String
submitted (submits id) = id ∷ []
submitted _ = []

abbrev pub all_submitted : List Event → List String
all_submitted [] = []
all_submitted (e ∷ es) = submitted e ++ all_submitted es

module _ (known : Dict MessageNode) where
  in_phase-IsOrdered :
      (requested : List String) (right : Phase → Bool) (id : ℕ) (act : Task → World → World)
      (w : World)
      → IsOrdered known requested w
      → ((t : Task) → find_task id w.tasks ≡ some t → IsOrdered known requested (act t w))
      → IsOrdered known requested (in_phase right id act w)
  unfolding in_phase
  in_phase-IsOrdered requested right id act w h acts = elim (Option-cases (find_task id w.tasks)) [
    | inl e ↦ rw (e, in_phase) h
    | inr (t, e) ↦ elim (Bool-cases (right t.phase)) [
      | inl p ↦ rw (e, in_phase, p) (acts t e)
      | inr p ↦ rw (e, in_phase, p) h
    ]
  ]

  -- The task is gone, and `_process_next` follows.
  dropped-IsOrdered :
      (requested : List String) (t : Task) (w : World)
      → IsOrdered known requested w
      → w.tasks ≡ t ∷ []
      → IsOrdered known requested (process_next (record w { tasks = drop_task t.id w.tasks }))
  dropped-IsOrdered requested t w h alone =
      process_next-IsOrdered known requested _
        (record { order = h.lined.order; named = h.lined.named; keeps = h.lined.keeps })
        (ap (drop_task t.id) alone ∙ drop_alone t)

  begin_task-IsOrdered :
      (requested : List String) (w : World) (id : ℕ) (t : Task)
      → IsOrdered known requested w
      → find_task id w.tasks ≡ some t
      → IsOrdered known requested (begin_task t w)
  unfolding begin_task
  begin_task-IsOrdered requested w id t h e =
      let (on, alone, live, last) = only_task known requested id t w h e in
      elim (Bool-cases (failed_node t.node_id w.tree)) [
        | inl f ↦ simp (live, f) (dropped-IsOrdered requested t w h alone)
        | inr f ↦
            let begun : Task = record {
              id = t.id;
              node_id = t.node_id;
              phase = running;
              cancelled = false;
            } in
            simp (live, f)
              (moved-IsOrdered known requested t begun w
                (record w { tasks = set_task begun w.tasks }) h on
                (ap (set_task begun) alone ∙ set_alone t begun refl) refl last refl refl refl
                (λ j. refl))
      ]

  has-modify :
      (j k : String) (f : MessageNode → MessageNode) (d : Dict MessageNode)
      → has j (modify k f d) ≡ has j d
  has-modify j k f d = elim (Option-cases (get j d)) [
    | inl e ↦ ground (arith, get-modify j k f d, e)
    | inr (n, e) ↦ ground (arith, get-modify j k f d, e)
  ]

  end_task-IsOrdered :
      (requested : List String) (now : ℕ) (raised : Option String) (w : World) (id : ℕ) (t : Task)
      → IsOrdered known requested w
      → find_task id w.tasks ≡ some t
      → IsOrdered known requested (end_task now raised t w)
  unfolding end_task clear_current_node update_state
  end_task-IsOrdered requested now none w id t h e =
      let (on, alone, live, last) = only_task known requested id t w h e in
      let ended : Task = record t { phase = cleared } in
      moved-IsOrdered known requested t ended w (end_task now none t w) h on
        (ap (set_task ended) alone ∙ set_alone t ended refl) live last refl refl refl (λ j. refl)
  end_task-IsOrdered requested now (some m) w id t h e =
      let (on, alone, live, last) = only_task known requested id t w h e in
      let ended : Task = record t { phase = cleared } in
      moved-IsOrdered known requested t ended w (end_task now (some m) t w) h on
        (ap (set_task ended) alone ∙ set_alone t ended refl) live last refl refl refl
        (λ j. has-modify j t.node_id _ w.tree.nodes)

  -- Submissions of nodes of the tree, with an id that is not empty, and all that the tasks do; no
  -- cancellation.
  abbrev pub IsPlain : Event → Type 0
  IsPlain (submits id) = (str_eq id "" ≡ false) × (has id known ≡ true)
  IsPlain (cancels id) = ⊥
  IsPlain cancels_tree = ⊥
  IsPlain _ = Unit {0}

  update-IsOrdered :
      (requested : List String) (now : ℕ) (id : String) (state : MessageState) (w : World)
      → IsOrdered known requested w
      → IsOrdered known requested (step now (updates id state) w)
  unfolding step update_state
  update-IsOrdered requested now id state w h = record {
    lined = record {
      order = h.lined.order;
      named = h.lined.named;
      keeps = λ j. has-modify j id _ w.tree.nodes ∙ h.lined.keeps j;
    };
    free = h.free;
    idle_loop = h.idle_loop;
    busy = h.busy;
  }

  step-IsOrdered :
      (requested : List String) (now : ℕ) (e : Event) (w : World)
      → IsPlain e
      → IsOrdered known requested w
      → IsOrdered known (requested ++ submitted e) (step now e w)
  unfolding step
  step-IsOrdered requested now (submits id) w p h = enqueue-IsOrdered known requested id w p.0 p.1 h
  step-IsOrdered requested now (begins id) w p h = rw append-nil (
      in_phase-IsOrdered requested _ id begin_task w h
        (λ t e. begin_task-IsOrdered requested w id t h e))
  step-IsOrdered requested now (ends id raised) w p h = rw append-nil (
      in_phase-IsOrdered requested _ id (end_task now raised) w h
        (λ t e. end_task-IsOrdered requested now raised w id t h e))
  step-IsOrdered requested now (leaves id) w p h = rw append-nil (
      in_phase-IsOrdered requested _ id leave_task w h (λ t e.
        unfold leave_task in
        dropped-IsOrdered requested t w h (only_task known requested id t w h e).1))
  step-IsOrdered requested now (updates id state) w p h =
      rw append-nil (update-IsOrdered requested now id state w h)
  step-IsOrdered requested now (cancels id) w p h = absurd p
  step-IsOrdered requested now cancels_tree w p h = absurd p

  abbrev pub AllPlain : List Event → Type 0
  AllPlain [] = Unit {0}
  AllPlain (e ∷ es) = IsPlain e × AllPlain es

  run-IsOrdered :
      (requested : List String) (now : ℕ) (es : List Event) (w : World)
      → AllPlain es
      → IsOrdered known requested w
      → IsOrdered known (requested ++ all_submitted es) (run now es w)
  unfolding run
  run-IsOrdered requested now [] w p h = rw append-nil h
  run-IsOrdered requested now (e ∷ es) w p h = rw (← append_assoc) (
      run-IsOrdered (requested ++ submitted e) now es (step now e w) p.1
        (step-IsOrdered requested now e w p.0 h))

-- From an idle tree with an empty queue, on every schedule with no cancellation that submits nodes of
-- the tree whose ids are not empty: the nodes that tasks were made for, followed by those that wait, are the nodes that
-- were submitted, in that order; when the tree is not busy, all that were submitted got their task and no task
-- is left; and when it is busy there is exactly one task, that of the node that was started last, and
-- nothing has cancelled it.
pub run-order :
    (now : ℕ) (es : List Event) (t : MessageTree)
    → t.queue.deque ≡ []
    → AllPlain t.nodes es
    → let w = run now es (idle t) in
      (w.started ++ w.tree.queue.deque ≡ all_submitted es)
      × (w.tree.is_processing ≡ false → (w.started ≡ all_submitted es) × (w.tasks ≡ []))
      × (w.tree.is_processing ≡ true → IsLast w)
run-order now es t empty p =
    let h = run-IsOrdered t.nodes [] now es (idle t) p (record {
      lined = record { order = empty; named = rw empty tt; keeps = λ j. refl };
      free = λ off. empty;
      idle_loop = λ off. refl;
      busy = λ on. absurd (false≢true on);
    }) in
    let w = run now es (idle t) in
    (
      h.lined.order,
      λ off. (
        sym (append-nil _) ∙ ap (λ q. w.started ++ q) (sym (h.free off)) ∙ h.lined.order,
        h.idle_loop off,
      ),
      h.busy,
    )
