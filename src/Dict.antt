-- ===== src/Dict.antt =====
-- Python's `dict` with text keys: entries in insertion order, a key at most once when built by
-- `put`; and the sets of texts that the program keeps beside its lists.
pub mod Keys
use liberated_claude_code.Prelude.{
  Bool, true, false, String, str_eq, eq_iff, ◌≡◌, refl, List, [], ◌∷◌, Option, none, some, arith,
  if◌then◌else◌, is_some,
}

abbrev pub Dict {ℓ} : Type ℓ → Type ℓ
Dict V = List (String × V)

module _ {ℓ} {V : Type ℓ} where
  -- d.get(k)
  unfoldable pub get : String → Dict V → Option V
  get k [] = none
  get k ((j, v) ∷ d) = if str_eq j k then some v else get k d

  -- k in d
  abbrev pub has : String → Dict V → Bool
  has k d = is_some (get k d)

  -- d[k] = v: an old key keeps its place.
  unfoldable pub put : String → V → Dict V → Dict V
  put k v [] = (k, v) ∷ []
  put k v ((j, w) ∷ d) = if str_eq j k then (j, v) ∷ d else (j, w) ∷ put k v d

  -- del d[k], d.pop(k, None)
  unfoldable pub del : String → Dict V → Dict V
  del k [] = []
  del k ((j, v) ∷ d) = let rest = del k d in if str_eq j k then rest else (j, v) ∷ rest

  -- A write to the object that is stored under `k`.
  unfoldable pub modify : String → (V → V) → Dict V → Dict V
  modify k f [] = []
  modify k f ((j, v) ∷ d) = if str_eq j k then (j, f v) ∷ d else (j, v) ∷ modify k f d

  -- list(d.values()), list(d.keys())
  abbrev pub values : Dict V → List V
  values [] = []
  values ((j, v) ∷ d) = v ∷ values d

  abbrev pub keys : Dict V → List String
  keys [] = []
  keys ((j, v) ∷ d) = j ∷ keys d

  -- A write to every stored object.
  unfoldable pub map_values : (V → V) → Dict V → Dict V
  map_values f [] = []
  map_values f ((j, v) ∷ d) = (j, f v) ∷ map_values f d

abbrev pub map_opt {ℓ κ} : {A : Type ℓ} {B : Type κ} → (A → B) → Option A → Option B
map_opt f none = none
map_opt f (some a) = some (f a)

module _ {ℓ} {V : Type ℓ} where
  pub get-put :
      (j k : String) (v : V) (d : Dict V)
      → get j (put k v d) ≡ (if str_eq k j then some v else get j d)
  unfolding get put
  get-put j k v [] = refl
  get-put j k v ((i, w) ∷ d) = ground (arith, eq_iff k j, eq_iff i k, eq_iff i j, get-put j k v d)

  pub get-put_same :
      (j k : String) (v : V) (d : Dict V) → str_eq k j ≡ true → get j (put k v d) ≡ some v
  get-put_same j k v d e = rw (get-put j k v d, e) refl

  pub get-put_other :
      (j k : String) (v : V) (d : Dict V) → str_eq k j ≡ false → get j (put k v d) ≡ get j d
  get-put_other j k v d e = rw (get-put j k v d, e) refl

  pub get-del :
      (j k : String) (d : Dict V) → get j (del k d) ≡ (if str_eq k j then none else get j d)
  unfolding get del
  get-del j k [] = ground arith
  get-del j k ((i, w) ∷ d) = ground (arith, eq_iff k j, eq_iff i k, eq_iff i j, get-del j k d)

  pub get-modify :
      (j k : String) (f : V → V) (d : Dict V)
      → get j (modify k f d) ≡ (if str_eq k j then map_opt f (get j d) else get j d)
  unfolding get modify
  get-modify j k f [] = ground arith
  get-modify j k f ((i, w) ∷ d) =
      ground (arith, eq_iff k j, eq_iff i k, eq_iff i j, get-modify j k f d)

  pub get-map_values :
      (j : String) (f : V → V) (d : Dict V) → get j (map_values f d) ≡ map_opt f (get j d)
  unfolding get map_values
  get-map_values j f [] = refl
  get-map_values j f ((i, w) ∷ d) = ground (arith, get-map_values j f d)

pub ruleset dict_laws = (get-put, get-del, get-modify, get-map_values)

-- x in xs
unfoldable pub contains : String → List String → Bool
contains x [] = false
contains x (y ∷ ys) = if str_eq y x then true else contains x ys

-- xs without x
unfoldable pub discard : String → List String → List String
discard x [] = []
discard x (y ∷ ys) = let rest = discard x ys in if str_eq y x then rest else y ∷ rest

-- s.add(x)
unfoldable pub add : String → List String → List String
add x s = if contains x s then s else x ∷ s

pub contains-discard :
    (x y : String) (s : List String)
    → contains y (discard x s) ≡ (if str_eq x y then false else contains y s)
unfolding contains discard
contains-discard x y [] = ground arith
contains-discard x y (z ∷ s) =
    ground (arith, eq_iff x y, eq_iff z x, eq_iff z y, contains-discard x y s)

contains-eq : (x y : String) (s : List String) → x ≡ y → contains x s ≡ contains y s
contains-eq x y s e = rw e

pub contains-add :
    (x y : String) (s : List String)
    → contains y (add x s) ≡ (if str_eq x y then true else contains y s)
unfolding contains add
contains-add x y s = ground (arith, eq_iff x y, contains-eq x y s)
