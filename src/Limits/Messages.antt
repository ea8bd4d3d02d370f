-- ===== src/Limits/Messages.antt =====
-- `MessagingRateLimiter` of messaging/limiter.py: the queue of tasks under keys, what its worker
-- does with a task, and the retries of `fire_and_forget`. A callable and a future are known by
-- numbers; what a call comes to is an argument. The lower case of a text and the reading of a number
-- are parameters.
pub mod Futures
use liberated_claude_code.Prelude.{
  ℕ, zero, suc, ◌+◌, ◌-◌, ◌^◌, Bool, true, false, not, ◌&&◌, ◌||◌, String, List, [], ◌∷◌, ◌++◌,
  Option, none, some, ltb, if◌then◌else◌, drop,
}
use liberated_claude_code.Text.{Text, codes, find}
use liberated_claude_code.Dict.{Dict, get, put, del}
use liberated_claude_code.Errors.{is_space, lstrip, contains_text}

pub record QueuedTask : Type 0 where
  pub func : ℕ
  pub futures : List ℕ

pub record MessagingRateLimiter : Type 0 where
  pub queue_list : List String
  pub queue_map : Dict QueuedTask
  pub paused_until : ℕ

abbrev pub new : MessagingRateLimiter
new = record { queue_list = []; queue_map = []; paused_until = 0 }

-- A key that waits already gets the new callable, and the futures of both.
unfoldable pub enqueue_internal_multi :
    ℕ → List ℕ → String → Bool → MessagingRateLimiter → MessagingRateLimiter
enqueue_internal_multi func futures dedup_key front l = elim (get dedup_key l.queue_map) [
  | some old ↦ record l {
    queue_map =
        put dedup_key (record { func = func; futures = old.futures ++ futures }) l.queue_map;
  }
  | none ↦ record l {
    queue_map = put dedup_key (record { func = func; futures = futures }) l.queue_map;
    queue_list = if front then dedup_key ∷ l.queue_list else l.queue_list ++ dedup_key ∷ [];
  }
]

abbrev pub enqueue_internal : ℕ → ℕ → String → Bool → MessagingRateLimiter → MessagingRateLimiter
enqueue_internal func future dedup_key front =
    enqueue_internal_multi func (future ∷ []) dedup_key front

-- What the worker finds: nothing yet, a key with no task (a `KeyError`), or a task.
pub data Taken : Type 0 where
  waits : Taken
  missing : String → Taken
  takes : String → QueuedTask → MessagingRateLimiter → Taken

abbrev pub take_found : String → List String → MessagingRateLimiter → Option QueuedTask → Taken
take_found dedup_key keys l none = missing dedup_key
take_found dedup_key keys l (some task) =
    takes dedup_key task (record l { queue_list = keys; queue_map = del dedup_key l.queue_map })

abbrev pub take_key : List String → MessagingRateLimiter → Taken
take_key [] l = waits
take_key (dedup_key ∷ keys) l = take_found dedup_key keys l (get dedup_key l.queue_map)

-- The worker's section under the condition.
unfoldable pub take_task : MessagingRateLimiter → Taken
take_task l = take_key l.queue_list l

-- How long the worker sleeps for a pause before it goes on.
unfoldable pub pause_left : ℕ → MessagingRateLimiter → ℕ
pause_left now l = if ltb now l.paused_until then l.paused_until - now else 0

-- An exception of a task: its text, and the attribute `seconds` if it has one.
pub record Failure : Type 0 where
  pub message : Text
  pub seconds : Option ℕ

-- text.split("after ")[1], if there is one
abbrev after_rest : Option ℕ → Text → Option Text
after_rest none s = none
after_rest (some i) s = some (drop (i + 6) s)

abbrev upto : Option ℕ → Text → Text
upto none s = s
upto (some zero) s = []
upto (some (suc i)) [] = []
upto (some (suc i)) (c ∷ s) = c ∷ upto (some i) s

abbrev cut_after : Option Text → Option Text
cut_after none = none
cut_after (some rest) = some (upto (find (codes "after ") rest) rest)

unfoldable pub second_part : Text → Option Text
second_part error_msg = cut_after (after_rest (find (codes "after ") error_msg) error_msg)

unfoldable pub until_space : Text → Text
until_space [] = []
until_space (c ∷ s) = let rest = until_space s in if is_space c then [] else c ∷ rest

-- text.split()[0], or `none` where there is no word
abbrev first_word : Text → Option Text
first_word s = elim (lstrip s) [ [] ↦ none | c ∷ t ↦ some (until_space (c ∷ t)) ]

-- `for f in futures: if not f.done()`
unfoldable pub undone : (ℕ → Bool) → List ℕ → List ℕ
undone is_done [] = []
undone is_done (f ∷ fs) = let rest = undone is_done fs in if is_done f then rest else f ∷ rest

module _ (lower : Text → Text) (int : Text → Option ℕ) where
  abbrev int_of : Option Text → ℕ
  int_of none = 30
  int_of (some word) = elim (int word) [ none ↦ 30 | some n ↦ n ]

  abbrev word_of : Option Text → Option Text
  word_of none = none
  word_of (some part) = first_word part

  abbrev seconds_of : Option ℕ → Text → ℕ
  seconds_of (some n) error_msg = n
  seconds_of none error_msg = int_of (word_of (second_part error_msg))

  -- The pause that an exception asks for, if its text speaks of a flood or a wait.
  unfoldable pub flood_wait : Failure → Option ℕ
  flood_wait e =
      let error_msg = lower e.message in
      if contains_text (codes "flood") error_msg || contains_text (codes "wait") error_msg
      then some (seconds_of e.seconds error_msg)
      else none

  abbrev paused : ℕ → Option ℕ → MessagingRateLimiter → MessagingRateLimiter
  paused now none l = l
  paused now (some seconds) l = record l { paused_until = now + seconds }

  -- The futures of the task that are not done yet get the result (`true`) or the exception
  -- (`false`), and a flood pauses the worker.
  unfoldable pub settle :
      (ℕ → Bool)
      → ℕ
      → Option Failure
      → QueuedTask
      → MessagingRateLimiter
      → MessagingRateLimiter × List ℕ × Bool
  settle is_done now none task l = (l, undone is_done task.futures, true)
  settle is_done now (some e) task l =
      (paused now (flood_wait e) l, undone is_done task.futures, false)

  -- `fire_and_forget` retries what looks like a lost connection.
  unfoldable pub is_transient : Failure → Bool
  is_transient e =
      let error_msg = lower e.message in
      contains_text (codes "connect") error_msg
      || (contains_text (codes "timeout") error_msg || contains_text (codes "broken") error_msg)

  -- The attempts from number `attempt` on, with `left` more; the waits, and how the last one ended.
  unfoldable pub forget_from : (ℕ → Option Failure) → ℕ → ℕ → List ℕ × Option Failure
  forget_from outcome zero attempt = ([], outcome attempt)
  forget_from outcome (suc left) attempt =
      let rest = forget_from outcome left (suc attempt) in
      elim (outcome attempt) [
        | none ↦ ([], none)
        | some e ↦ if is_transient e then (2 ^ attempt ∷ rest.0, rest.1) else ([], some e)
      ]

  unfoldable pub fire_and_forget : (ℕ → Option Failure) → List ℕ × Option Failure
  fire_and_forget outcome = forget_from outcome 2 0
