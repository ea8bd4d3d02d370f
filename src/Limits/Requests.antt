-- ===== src/Limits/Requests.antt =====
-- `GlobalRateLimiter` of providers/rate_limit.py. The random part of a delay is an argument, and so
-- is what each call of the client comes to.
pub mod Retry
pub mod Streams
use liberated_claude_code.Prelude.{
  ℕ, zero, suc, ◌+◌, ◌-◌, ◌*◌, ◌^◌, Bool, true, false, ◌||◌, List, [], ◌∷◌, Option, none, some, ltb,
  leb, ◌==◌, if◌then◌else◌,
}
use liberated_claude_code.Limits.Window.{attempt}

-- `slots` are the free places of the semaphore.
pub record GlobalRateLimiter : Type 0 where
  pub rate_limit : ℕ
  pub rate_window : ℕ
  pub request_times : List ℕ
  pub blocked_until : ℕ
  pub slots : ℕ

-- `none` is a `ValueError`.
unfoldable pub new : ℕ → ℕ → ℕ → Option GlobalRateLimiter
new rate_limit rate_window max_concurrency =
    if (rate_limit == 0) || (rate_window == 0) || (max_concurrency == 0)
    then none
    else some (record {
      rate_limit = rate_limit;
      rate_window = rate_window;
      request_times = [];
      blocked_until = 0;
      slots = max_concurrency;
    })

-- `value or default`
abbrev pub or_default : Option ℕ → ℕ → ℕ
or_default none d = d
or_default (some zero) d = d
or_default (some (suc n)) d = suc n

-- The instance that is there, or a new one; the second part is the class's `_instance` after it.
unfoldable pub get_instance :
    Option ℕ
    → Option ℕ
    → ℕ
    → Option GlobalRateLimiter
    → Option GlobalRateLimiter × Option GlobalRateLimiter
get_instance rate_limit rate_window max_concurrency (some limiter) = (some limiter, some limiter)
get_instance rate_limit rate_window max_concurrency none =
    let made = new (or_default rate_limit 40) (or_default rate_window 60) max_concurrency in
    (made, made)

-- The class's `_instance` after `reset_instance`.
abbrev pub reset_instance : Option GlobalRateLimiter → Option GlobalRateLimiter
reset_instance instance_before = none

-- One turn of `_acquire_proactive_slot`.
unfoldable pub acquire_proactive_slot : ℕ → GlobalRateLimiter → GlobalRateLimiter × Option ℕ
acquire_proactive_slot now l =
    let r = attempt l.rate_limit l.rate_window now l.request_times in
    (record l { request_times = r.0 }, r.1)

unfoldable pub set_blocked : ℕ → ℕ → GlobalRateLimiter → GlobalRateLimiter
set_blocked now seconds l = record l { blocked_until = now + seconds }

unfoldable pub is_blocked : ℕ → GlobalRateLimiter → Bool
is_blocked now l = ltb now l.blocked_until

unfoldable pub remaining_wait : ℕ → GlobalRateLimiter → ℕ
remaining_wait now l = l.blocked_until - now

-- The first part of `wait_if_blocked`: how long to sleep, and the answer of the call.
unfoldable pub reactive_wait : ℕ → GlobalRateLimiter → ℕ × Bool
reactive_wait now l = if ltb now l.blocked_until then (l.blocked_until - now, true) else (0, false)

-- `wait_if_blocked`, called at the time `now`, up to the first turn for a slot, at the time `later`
-- behind the sleep: the limiter, what the turn says, and the answer of the call.
unfoldable pub wait_if_blocked : ℕ → ℕ → GlobalRateLimiter → (GlobalRateLimiter × Option ℕ) × Bool
wait_if_blocked now later l = (acquire_proactive_slot later l, (reactive_wait now l).1)

-- `concurrency_slot`: `none` is a wait for a place.
unfoldable pub enter_slot : GlobalRateLimiter → Option GlobalRateLimiter
enter_slot l = if l.slots == 0 then none else some (record l { slots = l.slots - 1 })

unfoldable pub leave_slot : GlobalRateLimiter → GlobalRateLimiter
leave_slot l = record l { slots = l.slots + 1 }

-- `min(base_delay * 2**attempt, max_delay) + jitter`
unfoldable pub backoff : ℕ → ℕ → ℕ → ℕ → ℕ
backoff base_delay max_delay attempt jitter =
    let delay = base_delay * 2 ^ attempt in
    (if leb delay max_delay then delay else max_delay) + jitter

-- What a call of `fn` comes to: a result, the 429 of the provider, or another exception.
pub data Reply {ℓ κ} (A : Type ℓ) (E : Type κ) : Type (ℓ ⊔ κ) where
  returned : A → Reply A E
  rate_limited : E → Reply A E
  raised : E → Reply A E

-- The turns of the loop of `_acquire_proactive_slot`, at these times, up to the one that is granted.
unfoldable pub acquire_turns : List ℕ → GlobalRateLimiter → GlobalRateLimiter
acquire_turns [] l = l
acquire_turns (now ∷ later) l =
    let (l', wait) = acquire_proactive_slot now l in
    let rest = acquire_turns later l' in elim wait [ none ↦ l' | some d ↦ rest ]

-- When each attempt begins to wait, the times of its turns for a slot, when it is refused, and what
-- others do to the limiter while it sleeps after that.
pub record Pace : Type 0 where
  pub begins_at : ℕ → ℕ
  pub turns : ℕ → List ℕ
  pub refused_at : ℕ → ℕ
  pub others : ℕ → GlobalRateLimiter → GlobalRateLimiter

-- How `execute_with_retry` ends: the delays that it slept and blocked all requests for, how long
-- each attempt waited for the end of a block, and the limiter.
pub record Ended {ℓ κ} (A : Type ℓ) (E : Type κ) : Type (ℓ ⊔ κ) where
  pub reply : Reply A E
  pub delays : List ℕ
  pub waits : List ℕ
  pub limiter : GlobalRateLimiter

abbrev pub delayed {ℓ κ} : {A : Type ℓ} {E : Type κ} → ℕ → ℕ → Ended A E → Ended A E
delayed wait d r = record r { delays = d ∷ r.delays; waits = wait ∷ r.waits }

abbrev pub ended {ℓ κ} : {A : Type ℓ} {E : Type κ} → ℕ → GlobalRateLimiter → Reply A E → Ended A E
ended wait l x = record { reply = x; delays = []; waits = wait ∷ []; limiter = l }

-- A 429 goes on to the next attempt.
abbrev pub after_reply {ℓ κ} :
    {A : Type ℓ} {E : Type κ} → ℕ → GlobalRateLimiter → Reply A E → Ended A E → Ended A E
after_reply wait l (returned a) rest = ended wait l (returned a)
after_reply wait l (raised e) rest = ended wait l (raised e)
after_reply wait l (rate_limited e) rest = rest

module _ {ℓ κ} {A : Type ℓ} {E : Type κ} (base_delay max_delay : ℕ) (jitter : ℕ → ℕ) (pace : Pace)
    (fn : ℕ → Reply A E) where
  -- The attempts from number `attempt` on, with `left` retries left; `fn n` is what attempt number
  -- `n` comes to. Before each, `wait_if_blocked`; after a 429, `set_blocked` and the sleep. The last
  -- 429 is raised.
  unfoldable pub retry_from : ℕ → ℕ → GlobalRateLimiter → Ended A E
  retry_from zero attempt l =
      ended (reactive_wait (pace.begins_at attempt) l).0 (acquire_turns (pace.turns attempt) l)
        (fn attempt)
  retry_from (suc left) attempt l =
      let wait = (reactive_wait (pace.begins_at attempt) l).0 in
      let l' = acquire_turns (pace.turns attempt) l in
      let delay = backoff base_delay max_delay attempt (jitter attempt) in
      let blocked = set_blocked (pace.refused_at attempt) delay l' in
      let rest = delayed wait delay (retry_from left (suc attempt) (pace.others attempt blocked)) in
      after_reply wait l' (fn attempt) rest

  unfoldable pub execute_with_retry : ℕ → GlobalRateLimiter → Ended A E
  execute_with_retry max_retries l = retry_from max_retries 0 l
