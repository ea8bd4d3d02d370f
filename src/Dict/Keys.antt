-- ===== src/Dict/Keys.antt =====
-- The keys of a dictionary after a write and after a removal.
use liberated_claude_code.Prelude.{
  true, false, String, str_eq, eq_iff, ◌≡◌, refl, List, [], ◌∷◌, none, some, arith, if◌then◌else◌,
  inl, inr, Bool-cases,
}
use liberated_claude_code.Dict.{Dict, get, put, del, keys, contains}

-- No text occurs twice.
abbrev pub IsDistinct : List String → Type 0
IsDistinct [] = Unit {0}
IsDistinct (x ∷ xs) = (contains x xs ≡ false) × IsDistinct xs

module _ {ℓ} {V : Type ℓ} where
  pub contains-keys-put :
      (j k : String) (v : V) (d : Dict V)
      → contains j (keys (put k v d)) ≡ (if str_eq k j then true else contains j (keys d))
  unfolding contains put
  contains-keys-put j k v [] = ground (arith, eq_iff k j)
  contains-keys-put j k v ((i, w) ∷ d) =
      ground (arith, eq_iff k j, eq_iff i k, eq_iff i j, contains-keys-put j k v d)

  pub contains-keys-del :
      (j k : String) (d : Dict V)
      → contains j (keys (del k d)) ≡ (if str_eq k j then false else contains j (keys d))
  unfolding contains del
  contains-keys-del j k [] = ground arith
  contains-keys-del j k ((i, w) ∷ d) =
      ground (arith, eq_iff k j, eq_iff i k, eq_iff i j, contains-keys-del j k d)

  pub IsDistinct-put :
      (k : String) (v : V) (d : Dict V) → IsDistinct (keys d) → IsDistinct (keys (put k v d))
  unfolding put contains
  IsDistinct-put k v [] h = (refl, tt)
  IsDistinct-put k v ((i, w) ∷ d) h = elim (Bool-cases (str_eq i k)) [
    | inl e ↦ rw e h
    | inr e ↦ rw e (
      ground (arith, contains-keys-put i k v d, h.0, eq_iff i k, eq_iff k i),
      IsDistinct-put k v d h.1,
    )
  ]

  pub IsDistinct-del : (k : String) (d : Dict V) → IsDistinct (keys d) → IsDistinct (keys (del k d))
  unfolding del
  IsDistinct-del k [] h = tt
  IsDistinct-del k ((i, w) ∷ d) h = elim (Bool-cases (str_eq i k)) [
    | inl e ↦ rw e (IsDistinct-del k d h.1)
    | inr e ↦ rw e (ground (arith, contains-keys-del i k d, h.0), IsDistinct-del k d h.1)
  ]

  pub del-absent : (k : String) (d : Dict V) → contains k (keys d) ≡ false → del k d ≡ d
  unfolding del contains
  del-absent k [] h = refl
  del-absent k ((i, w) ∷ d) h = ground (arith, eq_iff i k, del-absent k d)

  pub get-absent : (k : String) (d : Dict V) → contains k (keys d) ≡ false → get k d ≡ none
  unfolding get contains
  get-absent k [] h = refl
  get-absent k ((i, w) ∷ d) h = ground (arith, eq_iff i k, get-absent k d)

  pub get-present :
      (k : String) (d : Dict V) → contains k (keys d) ≡ true → (v : V) × (get k d ≡ some v)
  unfolding get contains
  get-present k [] h = cc
  get-present k ((i, w) ∷ d) h = elim (Bool-cases (str_eq i k)) [
    | inl e ↦ (w, rw e refl)
    | inr e ↦ let (v, g) = get-present k d (rw e at h) in (v, rw e g)
  ]
