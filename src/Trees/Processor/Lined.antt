-- ===== src/Trees/Processor/Lined.antt =====
-- messaging/trees/processor.py: what is started and what waits, from one critical section to the next.
use liberated_claude_code.Prelude.{
  ℕ, ◌≡◌, refl, sym, ap, ◌∙◌, inl, inr, true, false, String, List, [], ◌∷◌, ◌++◌, append-nil,
  append_assoc, some, none≢some, arith, str_eq, Bool-cases, Option-cases,
}
use mathlib.Core.Bool.{false≢true}
use liberated_claude_code.Dict.{Dict, get, has}
use liberated_claude_code.Trees.Node.{MessageNode}
use liberated_claude_code.Trees.Queue.{put_nowait, get_nowait}
use liberated_claude_code.Trees.Tree.{
  get_node, dequeue, put_queue_unlocked, set_processing_state, set_current_task,
}
use liberated_claude_code.Trees.Processor.{
  Task, World, start, new_task, create_task, enqueue_and_start, process_dequeued, process_next,
  find_task,
}

-- The only task is that of the node that was started last, and nothing has cancelled it.
abbrev pub IsLast : World → Type 0
IsLast w =
    (t : Task) × (w.tasks ≡ t ∷ [])
    × (t.cancelled ≡ false)
    × ((before : List String) × (w.started ≡ before ++ t.node_id ∷ []))

module _ (known : Dict MessageNode) where
  -- Ids that are not empty, each that of a node.
  abbrev pub AllNamed : List String → Type 0
  AllNamed [] = Unit {0}
  AllNamed (x ∷ xs) = (str_eq x "" ≡ false) × (has x known ≡ true) × AllNamed xs

  -- What was started, and then what waits, is what was submitted.
  pub record IsLined (requested : List String) (w : World) : Type 0 where
    pub order : w.started ++ w.tree.queue.deque ≡ requested
    pub named : AllNamed w.tree.queue.deque
    pub keeps : (j : String) → has j w.tree.nodes ≡ has j known

  -- A tree that is free has no task and no queue; one that is busy has one task.
  pub record IsOrdered (requested : List String) (w : World) : Type 0 where
    pub lined : IsLined requested w
    pub free : w.tree.is_processing ≡ false → w.tree.queue.deque ≡ []
    pub idle_loop : w.tree.is_processing ≡ false → w.tasks ≡ []
    pub busy : w.tree.is_processing ≡ true → IsLast w

  start_lem :
      (id : String) (w : World)
      → has id w.tree.nodes ≡ true
      → ((start id w).started ≡ w.started ++ id ∷ [])
        × ((start id w).tree.queue ≡ w.tree.queue)
        × ((start id w).tree.is_processing ≡ true)
        × ((start id w).tree.nodes ≡ w.tree.nodes)
        × ((start id w).tasks ≡ w.tasks ++ new_task w.next_id id ∷ [])
  unfolding start create_task set_processing_state set_current_task get_node
  start_lem id w e = elim (Option-cases (get id w.tree.nodes)) [
    | inl n ↦ (let no : false ≡ true = rw n at e in absurd (false≢true no))
    | inr (v, n) ↦ rw (start, get_node, n) (refl, refl, refl, refl, refl)
  ]

  AllNamed-append :
      (xs : List String) (x : String)
      → AllNamed xs
      → str_eq x "" ≡ false
      → has x known ≡ true
      → AllNamed (xs ++ x ∷ [])
  AllNamed-append [] x h e k = (e, k, tt)
  AllNamed-append (y ∷ xs) x h e k = (h.0, h.1, AllNamed-append xs x h.2 e k)

  start-IsOrdered :
      (requested : List String) (id : String) (w : World)
      → w.started ++ (id ∷ w.tree.queue.deque) ≡ requested
      → AllNamed w.tree.queue.deque
      → ((j : String) → has j w.tree.nodes ≡ has j known)
      → has id known ≡ true
      → w.tasks ≡ []
      → IsOrdered requested (start id w)
  start-IsOrdered requested id w order named keeps here none_left =
      let (s, q, b, n, ts) = start_lem id w (keeps id ∙ here) in
      record {
        lined = record {
          order = rw (s, q, append_assoc) order;
          named = rw q named;
          keeps = λ j. rw n (keeps j);
        };
        free = λ off. absurd (false≢true (sym off ∙ b));
        idle_loop = λ off. absurd (false≢true (sym off ∙ b));
        busy = λ on. (
          new_task w.next_id id,
          ts ∙ ap (λ l. l ++ new_task w.next_id id ∷ []) none_left,
          refl,
          (w.started, s),
        );
      }

  pub enqueue-IsOrdered :
      (requested : List String) (id : String) (w : World)
      → str_eq id "" ≡ false
      → has id known ≡ true
      → IsOrdered requested w
      → IsOrdered (requested ++ id ∷ []) (enqueue_and_start id w).0
  unfolding enqueue_and_start put_queue_unlocked put_nowait
  enqueue-IsOrdered requested id w name here h = elim (Bool-cases w.tree.is_processing) [
    | inl e ↦ simp e (record {
      lined = record {
        order = rw (← append_assoc) (ap (λ r. r ++ id ∷ []) h.lined.order);
        named = AllNamed-append w.tree.queue.deque id h.lined.named name here;
        keeps = h.lined.keeps;
      };
      free = λ off. cc;
      idle_loop = λ off. cc;
      busy = λ on. h.busy e;
    })
    | inr e ↦
        let waits = h.free e in
        let all : w.started ≡ requested =
          sym (append-nil _) ∙ ap (λ q. w.started ++ q) (sym waits) ∙ h.lined.order in
        simp e (
          start-IsOrdered _ id w (rw (waits, all)) h.lined.named h.lined.keeps here (h.idle_loop e))
  ]

  -- `_process_next` on a deque that is known.
  next_of-IsOrdered :
      (requested : List String) (w : World) (ids set : List String)
      → let w' = record w { tree = record w.tree { queue = record { deque = ids; set = set } } } in
        IsLined requested w' → w.tasks ≡ [] → IsOrdered requested (process_next w')
  unfolding process_next dequeue get_nowait process_dequeued set_processing_state
  next_of-IsOrdered requested w [] set h none_left = record {
    lined = record { order = h.order; named = tt; keeps = h.keeps };
    free = λ off. refl;
    idle_loop = λ off. none_left;
    busy = λ on. absurd (false≢true on);
  }
  next_of-IsOrdered requested w (id ∷ ids) set h none_left =
      rw h.named.0 (start-IsOrdered requested id _ h.order h.named.2 h.keeps h.named.1 none_left)

  pub process_next-IsOrdered :
      (requested : List String) (w : World)
      → IsLined requested w
      → w.tasks ≡ []
      → IsOrdered requested (process_next w)
  process_next-IsOrdered requested w h none_left =
      next_of-IsOrdered requested w w.tree.queue.deque w.tree.queue.set h none_left

  -- A task that is found is the only one.
  pub only_task :
      (requested : List String) (id : ℕ) (t : Task) (w : World)
      → IsOrdered requested w
      → find_task id w.tasks ≡ some t
      → (w.tree.is_processing ≡ true)
        × (w.tasks ≡ t ∷ [])
        × (t.cancelled ≡ false)
        × ((before : List String) × (w.started ≡ before ++ t.node_id ∷ []))
  unfolding find_task
  only_task requested id t w h e = elim (Bool-cases w.tree.is_processing) [
    | inl on ↦
        let (u, alone, live, (before, s)) = h.busy on in
        let found : find_task id (u ∷ []) ≡ some t = rw alone at e in
        let same : u ≡ t = ground arith in
        (
          on,
          alone ∙ ap (λ v. v ∷ []) same,
          ap (λ (v : Task). v.cancelled) (sym same) ∙ live,
          (before, s ∙ ap (λ (v : Task). before ++ v.node_id ∷ []) same),
        )
    | inr off ↦
        (let found : find_task id [] ≡ some t = rw (h.idle_loop off) at e in
          absurd (none≢some found))
  ]

  -- A change of the only task's phase, and of the nodes' fields.
  pub moved-IsOrdered :
      (requested : List String) (t u : Task) (w w' : World)
      → IsOrdered requested w
      → w.tree.is_processing ≡ true
      → w'.tasks ≡ u ∷ []
      → u.cancelled ≡ false
      → ((before : List String) × (w.started ≡ before ++ u.node_id ∷ []))
      → w'.started ≡ w.started
      → w'.tree.queue ≡ w.tree.queue
      → w'.tree.is_processing ≡ w.tree.is_processing
      → ((j : String) → has j w'.tree.nodes ≡ has j w.tree.nodes)
      → IsOrdered requested w'
  moved-IsOrdered requested t u w w' h on alone live (before, last) s q b n = record {
    lined = record {
      order = rw (s, q) h.lined.order;
      named = rw q h.lined.named;
      keeps = λ j. n j ∙ h.lined.keeps j;
    };
    free = λ off. absurd (false≢true (sym off ∙ b ∙ on));
    idle_loop = λ off. absurd (false≢true (sym off ∙ b ∙ on));
    busy = λ still. (u, alone, live, (before, s ∙ last));
  }
