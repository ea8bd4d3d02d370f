-- ===== src/Trees/Repository/Saved.antt =====
-- `to_dict` and `from_dict` of `TreeRepository`, messaging/trees/repository.py.
pub mod Restored
use liberated_claude_code.Prelude.{ℕ, List, [], ◌∷◌, Option, none, some, String}
use liberated_claude_code.Dict.{Dict, put}
use liberated_claude_code.Trees.Tree.{MessageTree}
use liberated_claude_code.Trees.Serial.{Value, SavedTree, tree_to_dict, tree_from_dict, bind}
use liberated_claude_code.Trees.Repository.{TreeRepository}

pub record SavedRepository : Type 0 where
  pub trees : Dict SavedTree
  pub node_to_tree : Dict String

abbrev pub save_trees : (ℕ → String) → Dict MessageTree → Dict SavedTree
save_trees isoformat [] = []
save_trees isoformat ((root_id, t) ∷ d) =
    (root_id, tree_to_dict isoformat t) ∷ save_trees isoformat d

unfoldable pub to_dict : (ℕ → String) → TreeRepository → SavedRepository
to_dict isoformat repo = record {
  trees = save_trees isoformat repo.trees;
  node_to_tree = repo.node_to_tree;
}

-- The trees read so far, and the next ones.
unfoldable pub load_trees :
    (Dict Value → ℕ)
    → (String → Option ℕ)
    → Dict SavedTree
    → Dict MessageTree
    → Option (Dict MessageTree)
load_trees clock fromisoformat [] trees = some trees
load_trees clock fromisoformat ((root_id, saved) ∷ d) trees =
    bind (tree_from_dict clock fromisoformat saved)
      λ t. load_trees clock fromisoformat d (put root_id t trees)

abbrev pub repository_of : Dict String → Option (Dict MessageTree) → Option TreeRepository
repository_of node_to_tree none = none
repository_of node_to_tree (some trees) =
    some (record { trees = trees; node_to_tree = node_to_tree })

unfoldable pub from_dict :
    (Dict Value → ℕ) → (String → Option ℕ) → SavedRepository → Option TreeRepository
from_dict clock fromisoformat saved =
    repository_of saved.node_to_tree (load_trees clock fromisoformat saved.trees [])
