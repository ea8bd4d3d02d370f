-- ===== src/Tests/Limits.antt =====
-- Runs of the rate limiters.
use liberated_claude_code.Prelude.{
  ℕ, zero, suc, ◌≡◌, ◌≤◌, ◌+◌, ◌*◌, refl, true, false, List, [], ◌∷◌, none, some, arith,
}
use liberated_claude_code.Limits.Window.{attempt, drop_old}
use liberated_claude_code.Limits.Window.Bounds.{
  granted, in_window, in_window-granted-le, attempt_after_wait,
}
use liberated_claude_code.Limits.Requests.{GlobalRateLimiter, Pace, Reply, returned, rate_limited}
use liberated_claude_code.Limits.Requests.Streams.{
  Signal, goes_on, fails, asks, held, signals, signals-held,
}
use liberated_claude_code.Limits.Messages.Futures.{
  Event, queues, works, InStep, run, fresh, count, pending, brought, run-keeps_futures,
}

in_window-granted-le_example : in_window 10 1 (granted 2 10 (1 ∷ 4 ∷ 7 ∷ 11 ∷ 20 ∷ []) []) ≤ 2
in_window-granted-le_example =
    in_window-granted-le 2 10 0 (1 ∷ 4 ∷ 7 ∷ 11 ∷ 20 ∷ []) 1
      (omega arith, (omega arith, (omega arith, (omega arith, (omega arith, tt)))))

-- A limiter of two slots in ten seconds, tried again too early and then in time.
refused_example : (attempt 2 10 7 (1 ∷ 4 ∷ [])).1 ≡ some 4
unfolding attempt drop_old
refused_example = refl

attempt_after_wait_example : (attempt 2 10 11 (attempt 2 10 7 (1 ∷ 4 ∷ [])).0).1 ≡ none
attempt_after_wait_example =
    attempt_after_wait 2 10 7 11 4 (1 ∷ 4 ∷ []) (omega arith) (omega arith) refused_example
      (omega arith)

-- The first two attempts are refused.
abbrev busy_twice : ℕ → Reply ℕ ℕ
busy_twice zero = rate_limited 429
busy_twice (suc zero) = rate_limited 429
busy_twice (suc (suc n)) = returned n

abbrev half : ℕ → ℕ
half n = 1

abbrev one_place : GlobalRateLimiter
one_place = record {
  rate_limit = 40;
  rate_window = 60;
  request_times = [];
  blocked_until = 0;
  slots = 1;
}

-- Alone with the limiter; every attempt comes 100 seconds behind the last.
abbrev alone : Pace
alone = record {
  begins_at = λ n. n * 100;
  turns = λ n. n * 100 ∷ [];
  refused_at = λ n. n * 100 + 1;
  others = λ n l. l;
}

-- The second stream waits, is cancelled there, and the first one ends.
abbrev one_of_two : List (ℕ × Signal)
one_of_two = (0, goes_on) ∷ (1, goes_on) ∷ (1, fails) ∷ (0, goes_on) ∷ []

signals-held_example :
    let r = signals one_of_two (asks ∷ asks ∷ []) one_place in held r.0 + r.1.slots ≡ 1
signals-held_example = signals-held one_of_two (asks ∷ asks ∷ []) one_place

-- Two updates of one message, one of which the worker takes with the other.
abbrev updates : List Event
updates =
    queues 1 (10 ∷ []) "edit" false
    ∷ queues 2 (11 ∷ []) "edit" false
    ∷ queues 3 (12 ∷ []) "send" true
    ∷ works
    ∷ works
    ∷ []

run-keeps_futures_example :
    let r = run updates fresh in
    (r.faulted ≡ false)
    × InStep r.limiter
    × (count 11 r.handed + count 11 (pending r.limiter.queue_map) ≡ count 11 (brought updates))
run-keeps_futures_example = run-keeps_futures updates 11
