-- ===== src/Trees/Repository/Saved/Restored.antt =====
-- messaging/trees/repository.py: a repository that is saved and read back.
use liberated_claude_code.Prelude.{
  ℕ, ◌≡◌, refl, sym, ap, ◌∙◌, inl, inr, false, [], ◌∷◌, Option, none, some, String, str_eq, eq_iff,
  Bool-cases,
}
use liberated_claude_code.Dict.{Dict, get, put, keys, map_opt, get-put}
use liberated_claude_code.Dict.Keys.{IsDistinct, get-absent}
use liberated_claude_code.Trees.Node.{MessageNode}
use liberated_claude_code.Trees.Tree.{MessageTree}
use liberated_claude_code.Trees.Serial.{Value}
use liberated_claude_code.Trees.Serial.RoundTrip.{IsFiled, restored, tree_from_dict-tree_to_dict}
use liberated_claude_code.Trees.Repository.{
  TreeRepository, root_key, tree_at, node_in, get_tree_for_node, get_node,
}
use liberated_claude_code.Trees.Repository.Saved.{save_trees, to_dict, load_trees, from_dict}

-- The nodes of each tree stand under their own ids, each once, with the root among them.
abbrev pub AllFiled : Dict MessageTree → Type 0
AllFiled [] = Unit {0}
AllFiled ((k, t) ∷ d) =
    (IsFiled t.nodes × ((root_node : MessageNode) × (get t.root_id t.nodes ≡ some root_node)))
    × AllFiled d

-- A lookup in the tree that was saved, or else in the one that was read before.
abbrev loaded_in :
    (Dict Value → ℕ)
    → (ℕ → String)
    → String
    → Option MessageTree
    → Option MessageTree
    → Option MessageNode
loaded_in clock isoformat j none o = node_in j o
loaded_in clock isoformat j (some t) o = map_opt (restored clock isoformat) (get j t.nodes)

-- The trees that were read have the nodes of the saved ones, and of those read before.
abbrev Loaded :
    (Dict Value → ℕ)
    → (ℕ → String)
    → Dict MessageTree
    → Dict MessageTree
    → Option (Dict MessageTree)
    → Type 0
Loaded clock isoformat trees before o =
    (after : Dict MessageTree) × ((o ≡ some after)
      × ((k j : String)
          → node_in j (get k after) ≡ loaded_in clock isoformat j (get k trees) (get k before)))

module _ (clock : Dict Value → ℕ) (isoformat : ℕ → String) (fromisoformat : String → Option ℕ)
    (read : (t : ℕ) → fromisoformat (isoformat t) ≡ some t)
    (filled : (t : ℕ) → str_eq (isoformat t) "" ≡ false) where
  load_trees-Loaded :
      (d before : Dict MessageTree)
      → IsDistinct (keys d)
      → AllFiled d
      → Loaded clock isoformat d before
          (load_trees clock fromisoformat (save_trees isoformat d) before)
  unfolding load_trees get
  load_trees-Loaded [] before u f = (before, (refl, λ k j. refl))
  load_trees-Loaded ((k₀, t) ∷ d) before u f =
      let one =
        tree_from_dict-tree_to_dict clock isoformat fromisoformat read filled t f.0.1.0 f.0.0
          f.0.1.1 in
      let rest = load_trees-Loaded d (put k₀ one.0 before) u.1 f.1 in
      (
        rest.0,
        (
          rw (one.1, rest.1.0),
          λ k j. rest.1.1 k j ∙ (elim (Bool-cases (str_eq k₀ k)) [
            | inl e ↦
                let gone : get k d ≡ none =
                  ap (λ i. get i d) (sym ((eq_iff k₀ k).0 e)) ∙ get-absent k₀ d u.0 in
                rw (gone, get-put k k₀ one.0 before, e) (one.2 j)
            | inr e ↦ rw (get-put k k₀ one.0 before, e)
          ]),
        ),
      )

  loaded_in-none :
      (j : String) (o : Option MessageTree)
      → loaded_in clock isoformat j o none ≡ map_opt (restored clock isoformat) (node_in j o)
  loaded_in-none j none = refl
  loaded_in-none j (some t) = refl

  node_in-tree_at :
      (after trees : Dict MessageTree) (j : String) (o : Option String)
      → ((k : String)
          → node_in j (get k after) ≡ map_opt (restored clock isoformat) (node_in j (get k trees)))
      → node_in j (tree_at o after)
        ≡ map_opt (restored clock isoformat) (node_in j (tree_at o trees))
  node_in-tree_at after trees j none h = refl
  node_in-tree_at after trees j (some k) h = h k

  -- Where times are read back as they were written and no time is written as the empty text: a
  -- repository whose trees stand under different ids, and whose trees' nodes stand under their own
  -- ids, each once, with the root among them, is written and read back as a repository in which
  -- every lookup of a node finds the node that it found before, but for its context and, of its
  -- message, the id of the status message, the time stamp and the raw event, which are not saved.
  pub get_node-from_dict :
      (repo : TreeRepository)
      → IsDistinct (keys repo.trees)
      → AllFiled repo.trees
      → (repo' : TreeRepository) × ((from_dict clock fromisoformat (to_dict isoformat repo)
            ≡ some repo')
          × ((node_id : String)
              → get_node node_id repo'
                ≡ map_opt (restored clock isoformat) (get_node node_id repo)))
  unfolding from_dict to_dict get_node get_tree_for_node get
  get_node-from_dict repo u f =
      let (after, (done, found)) = load_trees-Loaded repo.trees [] u f in
      (
        record { trees = after; node_to_tree = repo.node_to_tree },
        (
          rw done,
          λ j.
              node_in-tree_at after repo.trees j (root_key (get j repo.node_to_tree))
                (λ k. found k j ∙ loaded_in-none j (get k repo.trees)),
        ),
      )
