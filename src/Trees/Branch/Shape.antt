-- ===== src/Trees/Branch/Shape.antt =====
-- messaging/trees/data.py: trees whose child lists form a tree, and what `get_descendants` finds there.
use liberated_claude_code.Prelude.{
  ℕ, suc, ◌+◌, ◌-◌, ◌≤◌, ◌≡◌, refl, sym, ap, ◌∙◌, true, String, List, [], ◌∷◌, ◌++◌, append_assoc,
  append-nil, Option, none, some, arith,
}
use liberated_claude_code.Dict.{get, has}
use liberated_claude_code.Trees.Tree.{MessageTree}
use liberated_claude_code.Trees.Branch.{extend, children_of, prepend, descend, get_descendants}

-- Ids with the branches below them, in the order of the visit: the last child comes first.
pub data Forest : Type 0 where
  bare : Forest
  grow : String → Forest → Forest → Forest

unfoldable pub roots : Forest → List String
roots bare = []
roots (grow id kids rest) = id ∷ roots rest

unfoldable pub visit : Forest → List String
visit bare = []
visit (grow id kids rest) = id ∷ visit kids ++ visit rest

unfoldable pub size : Forest → ℕ
size bare = 0
size (grow id kids rest) = suc (size kids + size rest)

-- The child lists of the tree are as the forest says.
unfoldable pub Shows : MessageTree → Forest → Type 0
Shows t bare = Unit {0}
Shows t (grow id kids rest) =
    (extend (children_of (get id t.nodes)) [] ≡ roots kids) × Shows t kids × Shows t rest

extend-append : {A : Type 0} (xs ys zs : List A) → extend xs (ys ++ zs) ≡ extend xs ys ++ zs
unfolding extend
extend-append [] ys zs = refl
extend-append (x ∷ xs) ys zs = extend-append xs (x ∷ ys) zs

prepend-prepend :
    {A : Type 0} (xs ys : List A) (o : Option (List A))
    → prepend xs (prepend ys o) ≡ prepend (xs ++ ys) o
prepend-prepend xs ys none = refl
prepend-prepend xs ys (some zs) = ap some (sym (append_assoc xs ys zs))

prepend-nil : {A : Type 0} (o : Option (List A)) → prepend [] o ≡ o
prepend-nil none = refl
prepend-nil (some zs) = refl

-- The size and `more`.
unfoldable turns : Forest → ℕ → ℕ
turns bare more = more
turns (grow id kids rest) more = suc (turns kids (turns rest more))

turns-size : (f : Forest) (more : ℕ) → turns f more ≡ size f + more
unfolding turns size
turns-size bare more = omega arith
turns-size (grow id kids rest) more =
    omega (arith, turns-size kids (turns rest more), turns-size rest more)

-- The loop works a forest off in the order of the visit, one turn per id.
descend-Shows :
    (t : MessageTree) (f : Forest) (more : ℕ) (stack : List String)
    → Shows t f
    → descend (turns f more) t (roots f ++ stack) ≡ prepend (visit f) (descend more t stack)
unfolding descend Shows roots visit turns
descend-Shows t bare more stack h = sym (prepend-nil (descend more t stack))
descend-Shows t (grow id kids rest) more stack h = rw (
  extend-append (children_of (get id t.nodes)) [] (roots rest ++ stack),
  h.0,
  descend-Shows t kids (turns rest more) (roots rest ++ stack) h.1,
  descend-Shows t rest more stack h.2,
  prepend-prepend,
  prepend-prepend,
)

-- A tree's child lists below `node_id`, which is in the tree, form the branch `grow node_id kids`:
-- with as much fuel as the branch has ids, or more, `get_descendants` ends, and finds the ids of the
-- branch in the order of a walk that visits the last child first.
pub get_descendants-visit :
    (fuel : ℕ) (node_id : String) (kids : Forest) (t : MessageTree)
    → has node_id t.nodes ≡ true
    → Shows t (grow node_id kids bare)
    → size (grow node_id kids bare) ≤ fuel
    → get_descendants fuel node_id t ≡ some (visit (grow node_id kids bare))
unfolding get_descendants roots descend
get_descendants-visit fuel node_id kids t known h enough =
    let f : Forest = grow node_id kids bare in
    let whole : turns f (fuel - size f) ≡ fuel =
      omega (arith, turns-size f (fuel - size f), enough) in
    let found : descend fuel t (node_id ∷ []) ≡ some (visit f) =
      ap (λ n. descend n t (node_id ∷ [])) (sym whole)
      ∙ descend-Shows t f (fuel - size f) [] h
      ∙ ap some (append-nil (visit f)) in
    rw (known, found)
