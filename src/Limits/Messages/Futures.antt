-- ===== src/Limits/Messages/Futures.antt =====
-- messaging/limiter.py: the tasks and futures of the queue, over any run of the callers and the
-- worker.
use liberated_claude_code.Prelude.{
  ℕ, ◌+◌, ◌≡◌, refl, sym, ap, ◌∙◌, inl, inr, Bool, true, false, String, str_eq, eq_iff, eq_refl,
  List, [], ◌∷◌, ◌++◌, none, some, arith, append-nil, ◌==◌, if◌then◌else◌, Bool-cases, Option-cases,
  some_eq, none≢some,
}
use liberated_claude_code.Dict.{Dict, get, put, del, keys, contains}
use liberated_claude_code.Dict.Keys.{
  IsDistinct, contains-keys-put, contains-keys-del, IsDistinct-put, IsDistinct-del, del-absent,
  get-absent, get-present,
}
use liberated_claude_code.Trees.Queue.Laws.{contains-append}
use liberated_claude_code.Limits.Messages.{
  QueuedTask, MessagingRateLimiter, new, enqueue_internal_multi, Taken, waits, missing, takes,
  take_key, take_task,
}

-- A caller's `_enqueue_internal_multi`, or the worker's section under the condition.
pub data Event : Type 0 where
  queues : ℕ → List ℕ → String → Bool → Event
  works : Event

-- The limiter, the futures that the worker was handed, and whether it met a `KeyError`.
pub record Run : Type 0 where
  pub limiter : MessagingRateLimiter
  pub handed : List ℕ
  pub faulted : Bool

abbrev after_take : Taken → Run → Run
after_take waits r = r
after_take (missing k) r = record r { faulted = true }
after_take (takes k task l) r = record r { limiter = l; handed = r.handed ++ task.futures }

unfoldable pub step : Event → Run → Run
step (queues func futures key front) r = record r {
  limiter = enqueue_internal_multi func futures key front r.limiter;
}
step works r = after_take (take_task r.limiter) r

unfoldable pub run : List Event → Run → Run
run [] r = r
run (e ∷ es) r = run es (step e r)

abbrev pub fresh : Run
fresh = record { limiter = new; handed = []; faulted = false }

unfoldable pub count : ℕ → List ℕ → ℕ
count f [] = 0
count f (g ∷ gs) = (if g == f then 1 else 0) + count f gs

-- The futures of all tasks that wait.
abbrev pub pending : Dict QueuedTask → List ℕ
pending [] = []
pending ((k, t) ∷ d) = t.futures ++ pending d

-- The futures that the callers brought.
abbrev pub brought : List Event → List ℕ
brought [] = []
brought (queues func futures key front ∷ es) = futures ++ brought es
brought (works ∷ es) = brought es

count-append : (f : ℕ) (xs ys : List ℕ) → count f (xs ++ ys) ≡ count f xs + count f ys
unfolding count
count-append f [] ys = omega arith
count-append f (x ∷ xs) ys = omega (arith, count-append f xs ys)

-- The list and the map hold the same keys, each once.
pub record InStep (l : MessagingRateLimiter) : Type 0 where
  pub same : (k : String) → contains k l.queue_list ≡ contains k (keys l.queue_map)
  pub once : IsDistinct l.queue_list
  pub unique : IsDistinct (keys l.queue_map)

pending-put_new :
    (f : ℕ) (k : String) (t : QueuedTask) (d : Dict QueuedTask)
    → contains k (keys d) ≡ false
    → count f (pending (put k t d)) ≡ count f (pending d) + count f t.futures
unfolding put contains
pending-put_new f k t [] h = omega (arith, count-append f t.futures [])
pending-put_new f k t ((j, s) ∷ d) h = elim (Bool-cases (str_eq j k)) [
  | inl e ↦ absurd (on_off (rw e at h))
  | inr e ↦ rw e (
      omega (
        arith,
        count-append f s.futures (pending (put k t d)),
        count-append f s.futures (pending d),
        pending-put_new f k t d (rw e at h),
      ))
]
  where
    on_off : true ≡ false → ⊥
    on_off p = cc

pending-put_old :
    (f : ℕ) (k : String) (t old : QueuedTask) (d : Dict QueuedTask)
    → get k d ≡ some old
    → count f (pending (put k t d)) + count f old.futures ≡ count f (pending d) + count f t.futures
unfolding put get
pending-put_old f k t old [] h = cc
pending-put_old f k t old ((j, s) ∷ d) h = elim (Bool-cases (str_eq j k)) [
  | inl e ↦
      let same : some s ≡ some old = rw e at h in
      let at_f : count f s.futures ≡ count f old.futures =
        ap (λ (u : QueuedTask). count f u.futures) (some_eq same) in
      rw e (
        omega
          (arith, count-append f t.futures (pending d), count-append f s.futures (pending d), at_f))
  | inr e ↦ rw e (
      omega (
        arith,
        count-append f s.futures (pending (put k t d)),
        count-append f s.futures (pending d),
        pending-put_old f k t old d (rw e at h),
      ))
]

pending-del :
    (f : ℕ) (k : String) (t : QueuedTask) (d : Dict QueuedTask)
    → IsDistinct (keys d)
    → get k d ≡ some t
    → count f (pending (del k d)) + count f t.futures ≡ count f (pending d)
unfolding del get
pending-del f k t [] u h = cc
pending-del f k t ((j, s) ∷ d) u h = elim (Bool-cases (str_eq j k)) [
  | inl e ↦
      let same : some s ≡ some t = rw e at h in
      let at_f : count f s.futures ≡ count f t.futures =
        ap (λ (v : QueuedTask). count f v.futures) (some_eq same) in
      let gone : del k d ≡ d =
        del-absent k d (ap (λ i. contains i (keys d)) (sym ((eq_iff j k).0 e)) ∙ u.0) in
      rw (e, gone) (omega (arith, count-append f s.futures (pending d), at_f))
  | inr e ↦ rw e (
      omega (
        arith,
        count-append f s.futures (pending (del k d)),
        count-append f s.futures (pending d),
        pending-del f k t d u.1 (rw e at h),
      ))
]

absent_of_none : (k : String) (d : Dict QueuedTask) → get k d ≡ none → contains k (keys d) ≡ false
absent_of_none k d h = elim (Bool-cases (contains k (keys d))) [
  | inl e ↦ let (t, g) = get-present k d e in absurd (none≢some (sym h ∙ g))
  | inr e ↦ e
]

IsDistinct-snoc :
    (k : String) (xs : List String)
    → contains k xs ≡ false
    → IsDistinct xs
    → IsDistinct (xs ++ k ∷ [])
unfolding contains
IsDistinct-snoc k [] n h = (refl, tt)
IsDistinct-snoc k (x ∷ xs) n h = (
  ground (arith, contains-append x xs (k ∷ []), eq_iff k x, eq_iff x k, h.0, n),
  IsDistinct-snoc k xs (ground (arith, n)) h.1,
)

put_first-InStep :
    (func : ℕ) (futures : List ℕ) (k : String) (front : Bool) (l : MessagingRateLimiter)
    → get k l.queue_map ≡ none
    → InStep l
    → InStep (record l {
      queue_map = put k (record { func = func; futures = futures }) l.queue_map;
      queue_list = if front then k ∷ l.queue_list else l.queue_list ++ k ∷ [];
    })
unfolding contains
put_first-InStep func futures k front l h i =
    let t : QueuedTask = record { func = func; futures = futures } in
    let gone = i.same k ∙ absent_of_none k l.queue_map h in
    record {
      same = λ j. ground (
        arith,
        contains-keys-put j k t l.queue_map,
        contains-append j l.queue_list (k ∷ []),
        i.same j,
        eq_iff k j,
      );
      once = ground (arith, gone, i.once, IsDistinct-snoc k l.queue_list gone i.once);
      unique = IsDistinct-put k t l.queue_map i.unique;
    }

present_of_some :
    (k : String) (t : QueuedTask) (d : Dict QueuedTask)
    → get k d ≡ some t
    → contains k (keys d) ≡ true
present_of_some k t d h = elim (Bool-cases (contains k (keys d))) [
  | inl e ↦ e
  | inr e ↦ absurd (none≢some (sym (get-absent k d e) ∙ h))
]

put_again-InStep :
    (k : String) (t old : QueuedTask) (l : MessagingRateLimiter)
    → get k l.queue_map ≡ some old
    → InStep l
    → InStep (record l { queue_map = put k t l.queue_map })
put_again-InStep k t old l h i =
    let known = present_of_some k old l.queue_map h in
    record {
      same = λ j.
          ground (arith, contains-keys-put j k t l.queue_map, i.same j, eq_iff k j, at_key j known);
      once = i.once;
      unique = IsDistinct-put k t l.queue_map i.unique;
    }
  where
    at_key :
        (j : String)
        → contains k (keys l.queue_map) ≡ true
        → str_eq k j ≡ true
        → contains j (keys l.queue_map) ≡ true
    at_key j known e = ap (λ x. contains x (keys l.queue_map)) (sym ((eq_iff k j).0 e)) ∙ known

-- What a step keeps: no fault, the agreement, and the number of times each future is there.
record Kept (f : ℕ) (more : ℕ) (r r' : Run) : Type 0 where
  whole : r'.faulted ≡ false
  agreed : InStep r'.limiter
  counted :
      count f r'.handed + count f (pending r'.limiter.queue_map)
      ≡ count f r.handed + count f (pending r.limiter.queue_map) + more

queues-Kept :
    (f func : ℕ) (futures : List ℕ) (k : String) (front : Bool) (r : Run)
    → r.faulted ≡ false
    → InStep r.limiter
    → Kept f (count f futures) r (step (queues func futures k front) r)
unfolding step enqueue_internal_multi
queues-Kept f func futures k front r fine i = elim (Option-cases (get k r.limiter.queue_map)) [
  | inl e ↦
      let t : QueuedTask = record { func = func; futures = futures } in
      let n = pending-put_new f k t r.limiter.queue_map (absent_of_none k r.limiter.queue_map e) in
      let a = put_first-InStep func futures k front r.limiter e i in
      rw (e, enqueue_internal_multi)
        (record { whole = fine; agreed = a; counted = omega (arith, n) })
  | inr (old, e) ↦
      let t : QueuedTask = record { func = func; futures = old.futures ++ futures } in
      let n = pending-put_old f k t old r.limiter.queue_map e in
      let a = put_again-InStep k t old r.limiter e i in
      rw (e, enqueue_internal_multi)
        (record {
          whole = fine;
          agreed = a;
          counted = omega (arith, n, count-append f old.futures futures);
        })
]

taken-InStep :
    (k : String) (ks : List String) (d : Dict QueuedTask) (p : ℕ)
    → InStep (record { queue_list = k ∷ ks; queue_map = d; paused_until = p })
    → InStep (record { queue_list = ks; queue_map = del k d; paused_until = p })
unfolding contains
taken-InStep k ks d p i = record {
  same = λ j. ground (arith, contains-keys-del j k d, i.same j, eq_iff k j, here j, i.once.0);
  once = i.once.1;
  unique = IsDistinct-del k d i.unique;
}
  where
    here : (j : String) → str_eq k j ≡ true → contains j ks ≡ false
    here j e = ap (λ x. contains x ks) (sym ((eq_iff k j).0 e)) ∙ i.once.0

first_known :
    (k : String) (ks : List String) (d : Dict QueuedTask) (p : ℕ)
    → InStep (record { queue_list = k ∷ ks; queue_map = d; paused_until = p })
    → contains k (keys d) ≡ true
unfolding contains
first_known k ks d p i = sym (i.same k) ∙ rw (eq_refl k) refl

works-Kept :
    (f : ℕ) (list : List String) (d : Dict QueuedTask) (p : ℕ) (handed : List ℕ) (faulted : Bool)
    → let l : MessagingRateLimiter = record {
      queue_list = list;
      queue_map = d;
      paused_until = p;
    } in
      let r : Run = record { limiter = l; handed = handed; faulted = faulted } in
      faulted ≡ false → InStep l → Kept f 0 r (after_take (take_key list l) r)
works-Kept f [] d p handed faulted fine i = record {
  whole = fine;
  agreed = i;
  counted = omega arith;
}
works-Kept f (k ∷ ks) d p handed faulted fine i =
    let (t, e) = get-present k d (first_known k ks d p i) in
    let n = pending-del f k t d i.unique e in
    rw e (record {
      whole = fine;
      agreed = taken-InStep k ks d p i;
      counted = omega (arith, n, count-append f handed t.futures);
    })

step-Kept :
    (f : ℕ) (e : Event) (r : Run)
    → r.faulted ≡ false
    → InStep r.limiter
    → Kept f (count f (brought (e ∷ []))) r (step e r)
unfolding step take_task count
step-Kept f (queues func futures k front) r fine i =
    rw append-nil (queues-Kept f func futures k front r fine i)
step-Kept f works r fine i =
    works-Kept f r.limiter.queue_list r.limiter.queue_map r.limiter.paused_until r.handed r.faulted
      fine i

run-Kept :
    (f : ℕ) (es : List Event) (r : Run)
    → r.faulted ≡ false
    → InStep r.limiter
    → Kept f (count f (brought es)) r (run es r)
unfolding run count
run-Kept f [] r fine i = record { whole = fine; agreed = i; counted = omega arith }
run-Kept f (e ∷ es) r fine i =
    let a = step-Kept f e r fine i in
    let b = run-Kept f es (step e r) a.whole a.agreed in
    record {
      whole = b.whole;
      agreed = b.agreed;
      counted = omega (arith, a.counted, b.counted, brought-cons f e es);
    }
  where
    brought-cons :
        (f : ℕ) (e : Event) (es : List Event)
        → count f (brought (e ∷ es)) ≡ count f (brought (e ∷ [])) + count f (brought es)
    brought-cons f (queues func futures k front) es =
        omega (arith, count-append f futures (brought es), count-append f futures [])
    brought-cons f works es = omega arith

-- From an empty queue, whatever callers queue under whatever keys and whenever the worker takes a
-- task: the worker never meets a key with no task, the list and the map hold the same keys, each
-- once, and every future that was brought is handed to the worker or waits, exactly as often.
pub run-keeps_futures :
    (es : List Event) (f : ℕ)
    → let r = run es fresh in
      (r.faulted ≡ false)
      × InStep r.limiter
      × (count f r.handed + count f (pending r.limiter.queue_map) ≡ count f (brought es))
unfolding count
run-keeps_futures es f =
    let k = run-Kept f es fresh refl (record { same = λ j. refl; once = tt; unique = tt }) in
    (k.whole, k.agreed, omega (arith, k.counted))
