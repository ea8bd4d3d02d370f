-- ===== src/Limits/Requests/Streams.antt =====
-- providers/rate_limit.py: `concurrency_slot`, and the streams that are opened in it. Acquiring the
-- semaphore stands before the `try`; the body of the `async with` stands at the `yield`.
use liberated_claude_code.Prelude.{
  ℕ, zero, suc, ◌+◌, ◌≡◌, refl, ◌∙◌, List, [], ◌∷◌, Option, none, some, arith,
}
use liberated_claude_code.Limits.Requests.{GlobalRateLimiter, enter_slot, leave_slot}

-- A stream stands before `acquire`, at the `yield`, or behind the `finally`.
pub data Phase : Type 0 where
  asks holds over : Phase

-- What happens to a stream: it goes on (its body returns), or an exception, a cancellation say, is
-- raised where it stands.
pub data Signal : Type 0 where
  goes_on fails : Signal

abbrev admitted : GlobalRateLimiter → Option GlobalRateLimiter → Phase × GlobalRateLimiter
admitted l none = (asks, l)
admitted l (some l') = (holds, l')

-- An exception at `acquire` leaves at once; one at the `yield` passes through `finally`.
unfoldable pub concurrency_slot : Signal → Phase → GlobalRateLimiter → Phase × GlobalRateLimiter
concurrency_slot goes_on asks l = admitted l (enter_slot l)
concurrency_slot fails asks l = (over, l)
concurrency_slot signal holds l = (over, leave_slot l)
concurrency_slot signal over l = (over, l)

-- The stream at an index gets a signal; an index beyond the list changes nothing.
unfoldable pub signal_at :
    ℕ → Signal → List Phase → GlobalRateLimiter → List Phase × GlobalRateLimiter
signal_at i signal [] l = ([], l)
signal_at zero signal (p ∷ ps) l = let (p', l') = concurrency_slot signal p l in (p' ∷ ps, l')
signal_at (suc i) signal (p ∷ ps) l = let (ps', l') = signal_at i signal ps l in (p ∷ ps', l')

unfoldable pub signals :
    List (ℕ × Signal) → List Phase → GlobalRateLimiter → List Phase × GlobalRateLimiter
signals [] ps l = (ps, l)
signals (e ∷ es) ps l = let (ps', l') = signal_at e.0 e.1 ps l in signals es ps' l'

abbrev pub place_of : Phase → ℕ
place_of holds = 1
place_of _ = 0

-- How many streams are open.
abbrev pub held : List Phase → ℕ
held [] = 0
held (p ∷ ps) = place_of p + held ps

concurrency_slot-place :
    (signal : Signal) (p : Phase) (l : GlobalRateLimiter)
    → let r = concurrency_slot signal p l in place_of r.0 + r.1.slots ≡ place_of p + l.slots
unfolding concurrency_slot enter_slot leave_slot
concurrency_slot-place signal p l = ground arith

signal_at-held :
    (i : ℕ) (signal : Signal) (ps : List Phase) (l : GlobalRateLimiter)
    → let r = signal_at i signal ps l in held r.0 + r.1.slots ≡ held ps + l.slots
unfolding signal_at
signal_at-held i signal [] l = refl
signal_at-held zero signal (p ∷ ps) l = omega (arith, concurrency_slot-place signal p l)
signal_at-held (suc i) signal (p ∷ ps) l = omega (arith, signal_at-held i signal ps l)

-- However the streams go on, fail or are cancelled, while they wait for a place too: the places
-- that are free and those of the streams that are open are together what they were. None is lost
-- and none is given back twice.
pub signals-held :
    (es : List (ℕ × Signal)) (ps : List Phase) (l : GlobalRateLimiter)
    → let r = signals es ps l in held r.0 + r.1.slots ≡ held ps + l.slots
unfolding signals
signals-held [] ps l = refl
signals-held (e ∷ es) ps l =
    let r = signal_at e.0 e.1 ps l in signals-held es r.0 r.1 ∙ signal_at-held e.0 e.1 ps l
