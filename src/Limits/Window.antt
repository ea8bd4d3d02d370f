-- ===== src/Limits/Window.antt =====
-- The window of `SlidingWindowLimiter` in messaging/limiter.py, which providers/rate_limit.py
-- repeats.
pub mod Bounds
use liberated_claude_code.Prelude.{
  ℕ, suc, ◌+◌, ◌-◌, List, [], ◌∷◌, ◌++◌, Option, none, some, ltb, leb, length, if◌then◌else◌,
}

-- `while times and times[0] <= cutoff: times.popleft()`, for the cutoff `now - window`.
unfoldable pub drop_old : ℕ → ℕ → List ℕ → List ℕ
drop_old window now [] = []
drop_old window now (t ∷ ts) =
    let rest = drop_old window now ts in if leb (t + window) now then rest else t ∷ ts

-- `max(0.0, (oldest + window) - now)`
abbrev pub wait_time : ℕ → ℕ → List ℕ → ℕ
wait_time window now [] = 0
wait_time window now (oldest ∷ ts) = oldest + window - now

-- One turn of the loop in `acquire`: the times that are kept, and how long to sleep before the next
-- turn, or `none` if the slot was granted.
unfoldable pub attempt : ℕ → ℕ → ℕ → List ℕ → List ℕ × Option ℕ
attempt limit window now times =
    let kept = drop_old window now times in
    if ltb (length kept) limit
    then (kept ++ now ∷ [], none)
    else (kept, some (wait_time window now kept))
