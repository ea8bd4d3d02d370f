-- ===== src/Trees/Queue.antt =====
-- `_SnapshotQueue` of messaging/trees/data.py: a deque with a set beside it.
pub mod Laws
use liberated_claude_code.Prelude.{
  ℕ, Bool, true, false, String, List, [], ◌∷◌, ◌++◌, Option, none, some, if◌then◌else◌, length,
}
use liberated_claude_code.Dict.{contains, discard, add}

pub record SnapshotQueue : Type 0 where
  pub deque : List String
  pub set : List String

abbrev pub empty : SnapshotQueue
empty = record { deque = []; set = [] }

-- `put` and `put_nowait`
unfoldable pub put_nowait : String → SnapshotQueue → SnapshotQueue
put_nowait item q = record { deque = q.deque ++ item ∷ []; set = add item q.set }

-- `none` is `asyncio.QueueEmpty`.
unfoldable pub get_nowait : SnapshotQueue → Option (String × SnapshotQueue)
get_nowait q = elim q.deque [
  | [] ↦ none
  | item ∷ rest ↦ some (item, record { deque = rest; set = discard item q.set })
]

unfoldable pub qsize : SnapshotQueue → ℕ
qsize q = length q.deque

unfoldable pub get_snapshot : SnapshotQueue → List String
get_snapshot q = q.deque

unfoldable pub remove_if_present : String → SnapshotQueue → Bool × SnapshotQueue
remove_if_present item q =
    if contains item q.set
    then (true, record { deque = discard item q.deque; set = discard item q.set })
    else (false, q)
