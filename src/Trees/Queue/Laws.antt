-- ===== src/Trees/Queue/Laws.antt =====
-- `_SnapshotQueue` of messaging/trees/data.py: the set beside the deque.
use liberated_claude_code.Prelude.{
  true, false, String, str_eq, eq_iff, eq_refl, ◌≡◌, refl, List, [], ◌∷◌, ◌++◌, some, arith,
  if◌then◌else◌,
}
use liberated_claude_code.Dict.{contains, discard, contains-discard, contains-add}
use liberated_claude_code.Dict.Keys.{IsDistinct}
use liberated_claude_code.Trees.Queue.{SnapshotQueue, put_nowait, get_nowait, remove_if_present}

-- Membership in the set is membership in the deque.
abbrev pub InSync : SnapshotQueue → Type 0
InSync q = (x : String) → contains x q.set ≡ contains x q.deque

pub contains-append :
    (x : String) (xs ys : List String)
    → contains x (xs ++ ys) ≡ (if contains x xs then true else contains x ys)
unfolding contains
contains-append x [] ys = refl
contains-append x (y ∷ xs) ys = ground (arith, contains-append x xs ys)

pub put_nowait-InSync : (x : String) (q : SnapshotQueue) → InSync q → InSync (put_nowait x q)
unfolding put_nowait contains
put_nowait-InSync x q h y =
    ground (arith, h y, contains-add x y q.set, contains-append y q.deque (x ∷ []))

pub remove_if_present-InSync :
    (x : String) (q : SnapshotQueue) → InSync q → InSync (remove_if_present x q).1
unfolding remove_if_present
remove_if_present-InSync x q h y =
    ground (arith, h y, contains-discard x y q.set, contains-discard x y q.deque)

absent : (x y : String) (xs : List String) → str_eq x y ≡ true → contains x xs ≡ contains y xs
absent x y xs h = rw ((eq_iff x y).0 h)

tail-InSync :
    (x : String) (xs s : List String)
    → InSync (record { deque = x ∷ xs; set = s })
    → IsDistinct (x ∷ xs)
    → InSync (record { deque = xs; set = discard x s })
unfolding contains
tail-InSync x xs s h (fresh, d) y = ground (arith, h y, contains-discard x y s, absent x y xs)

taken-InSync :
    (xs s : List String) (x : String) (q' : SnapshotQueue)
    → InSync (record { deque = xs; set = s })
    → IsDistinct xs
    → get_nowait (record { deque = xs; set = s }) ≡ some (x, q')
    → InSync q' × IsDistinct q'.deque
unfolding get_nowait
taken-InSync [] s x q' h d e = cc
taken-InSync (y ∷ xs) s x q' h d e =
    let same : q' ≡ record { deque = xs; set = discard y s } = ground (arith, e) in
    rw same (tail-InSync y xs s h d, d.1)

-- Where the set is in step with the deque and no item is queued twice, `get_nowait` keeps both so.
pub get_nowait-InSync :
    (q : SnapshotQueue) (x : String) (q' : SnapshotQueue)
    → InSync q
    → IsDistinct q.deque
    → get_nowait q ≡ some (x, q')
    → InSync q' × IsDistinct q'.deque
get_nowait-InSync q x q' h d e = taken-InSync q.deque q.set x q' h d e

discard-absent : (x : String) (xs : List String) → contains x xs ≡ false → discard x xs ≡ xs
unfolding contains discard
discard-absent x [] h = refl
discard-absent x (y ∷ xs) h = ground (arith, discard-absent x xs)

-- Where the set is in step with the deque, `remove_if_present` answers whether the item was queued
-- and leaves the deque without it, the other items in their order.
pub remove_if_present_lem :
    (x : String) (q : SnapshotQueue)
    → InSync q
    → ((remove_if_present x q).0 ≡ contains x q.deque)
      × ((remove_if_present x q).1.deque ≡ discard x q.deque)
unfolding remove_if_present
remove_if_present_lem x q h = ground (arith, h x, discard-absent x q.deque)

-- An item that is queued a second time cannot be removed once its first copy was taken.
pub duplicate_not_removed :
    (x : String) (rest : List String) (q q' : SnapshotQueue)
    → q.deque ≡ x ∷ rest
    → contains x rest ≡ true
    → get_nowait q ≡ some (x, q')
    → (remove_if_present x q' ≡ (false, q')) × (contains x q'.deque ≡ true)
unfolding get_nowait remove_if_present
duplicate_not_removed x rest q q' e c g = ground (arith, contains-discard x x q.set, eq_refl x)
