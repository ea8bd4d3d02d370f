-- ===== src/Tests/Saved.antt =====
-- Runs of the serialisation.
use Prim.Native.Char.{Char}
use liberated_claude_code.Prelude.{
  ℕ, zero, suc, ◌≡◌, refl, false, [], ◌∷◌, Option, none, some, String, str_eq, eq_iff, inl, inr,
  Bool-cases,
}
use liberated_claude_code.Trees.Node.{pending, in_progress}
use liberated_claude_code.Dict.{Dict, get, map_opt, keys, contains}
use liberated_claude_code.Dict.Keys.{IsDistinct}
use liberated_claude_code.Trees.Repository.{TreeRepository, get_node}
use liberated_claude_code.Trees.Repository.Saved
use liberated_claude_code.Trees.Repository.Saved.Restored.{AllFiled, get_node-from_dict}
use liberated_claude_code.Trees.Tree.{MessageTree}
use liberated_claude_code.Trees.Serial.{Value, to_dict, from_dict, tree_to_dict, tree_from_dict}
use liberated_claude_code.Trees.Serial.RoundTrip.{
  IsFiled, restored, from_dict-to_dict, tree_from_dict-tree_to_dict,
}
use liberated_claude_code.Tests.Queues.{node_in_state, three}

abbrev stroke : Char
stroke = "|"

-- A time as strokes, one more than the number.
abbrev strokes : ℕ → String
strokes zero = String.◌∷◌ stroke String.[]
strokes (suc n) = String.◌∷◌ stroke (strokes n)

abbrev time_of : String → Option ℕ
time_of String.[] = none
time_of (String.◌∷◌ c String.[]) = some 0
time_of (String.◌∷◌ c (String.◌∷◌ d s)) = elim (time_of (String.◌∷◌ d s)) [
  | none ↦ none
  | some n ↦ some (suc n)
]

time_of-strokes : (t : ℕ) → time_of (strokes t) ≡ some t
time_of-strokes zero = refl
time_of-strokes (suc zero) = refl
time_of-strokes (suc (suc t)) = rw (time_of-strokes (suc t)) refl

strokes-filled : (t : ℕ) → str_eq (strokes t) "" ≡ false
strokes-filled zero = refl
strokes-filled (suc t) = elim (Bool-cases (str_eq (strokes (suc t)) "")) [
  | inl h ↦ let clash : strokes (suc t) ≡ "" = (eq_iff (strokes (suc t)) "").0 h in cc
  | inr h ↦ h
]

-- Everything is read at one time.
abbrev read_at : Dict Value → ℕ
read_at d = 100

from_dict-to_dict_example :
    from_dict read_at time_of (to_dict strokes (node_in_state "a" pending))
    ≡ some (restored read_at strokes (node_in_state "a" pending))
from_dict-to_dict_example =
    from_dict-to_dict read_at strokes time_of time_of-strokes strokes-filled
      (node_in_state "a" pending)

three-IsFiled : IsFiled three.nodes
unfolding get
three-IsFiled = (refl, refl, (refl, refl, (refl, refl, tt)))

three_a : get "a" three.nodes ≡ some (node_in_state "a" in_progress)
unfolding get
three_a = refl

tree_from_dict-tree_to_dict_example :
    (t' : MessageTree) × (tree_from_dict read_at time_of (tree_to_dict strokes three) ≡ some t')
    × ((j : String) → get j t'.nodes ≡ map_opt (restored read_at strokes) (get j three.nodes))
tree_from_dict-tree_to_dict_example =
    tree_from_dict-tree_to_dict read_at strokes time_of time_of-strokes strokes-filled three
      (node_in_state "a" in_progress) three-IsFiled three_a

abbrev home : TreeRepository
home = record { trees = ("a", three) ∷ []; node_to_tree = ("a", "a") ∷ ("b", "a") ∷ [] }

home-IsDistinct : IsDistinct (keys home.trees)
unfolding contains
home-IsDistinct = (refl, tt)

home-AllFiled : AllFiled home.trees
home-AllFiled = ((three-IsFiled, (node_in_state "a" in_progress, three_a)), tt)

get_node-from_dict_example :
    (repo' : TreeRepository) × ((Saved.from_dict read_at time_of (Saved.to_dict strokes home)
        ≡ some repo')
      × ((node_id : String)
          → get_node node_id repo' ≡ map_opt (restored read_at strokes) (get_node node_id home)))
get_node-from_dict_example =
    get_node-from_dict read_at strokes time_of time_of-strokes strokes-filled home home-IsDistinct
      home-AllFiled
