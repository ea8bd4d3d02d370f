-- ===== src/Think/Scan.antt =====
-- Where tags can stand in a text that goes on: a tag that is completed by later characters starts
-- at the last '<'.
use liberated_claude_code.Prelude.{
  ℕ, zero, suc, ◌<◌, ◌≡◌, ◌≢◌, ◌⊎◌, inl, inr, refl, true, false, [], ◌∷◌, ◌++◌, none, some, arith,
  length,
}
use liberated_claude_code.Text.{Text, starts_with, find, rfind}

pub starts_with-append : (t s x : Text) → starts_with t s ≡ true → starts_with t (s ++ x) ≡ true
unfolding starts_with
starts_with-append [] s x h = refl
starts_with-append (c ∷ t) [] x h = cc
starts_with-append (c ∷ t) (d ∷ s) x h = ground (arith, starts_with-append t s x)

-- A tag at the head of `s ++ x` stands in `s`, or `s` is a proper prefix of it.
pub starts_with-append_cases :
    (t s x : Text)
    → starts_with t (s ++ x) ≡ true
    → (starts_with t s ≡ true) ⊎ ((starts_with s t ≡ true) × (length s < length t))
unfolding starts_with
starts_with-append_cases [] s x h = inl refl
starts_with-append_cases (c ∷ t) [] x h = inr (refl, omega arith)
starts_with-append_cases (c ∷ t) (d ∷ s) x h = ground (arith, starts_with-append_cases t s x)

pub rfind-prefix :
    (c : ℕ) (s t : Text) → starts_with s t ≡ true → rfind c t ≡ none → rfind c s ≡ none
unfolding starts_with rfind
rfind-prefix c [] t h n = refl
rfind-prefix c (d ∷ s) [] h n = cc
rfind-prefix c (d ∷ s) (e ∷ t) h n = ground (arith, rfind-prefix c s t)

-- A position that is found holds the text, and no earlier one does.
pub find-cons :
    (t : Text) (c : ℕ) (s : Text) (i : ℕ)
    → find t (c ∷ s) ≡ some (suc i)
    → (starts_with t (c ∷ s) ≡ false) × (find t s ≡ some i)
unfolding find
find-cons t c s i h = ground arith

pub find-cons_none :
    (t : Text) (c : ℕ) (s : Text)
    → find t (c ∷ s) ≡ none
    → (starts_with t (c ∷ s) ≡ false) × (find t s ≡ none)
unfolding find
find-cons_none t c s h = ground arith

pub find-zero : (t s : Text) → find t s ≡ some 0 → starts_with t s ≡ true
unfolding find
find-zero t [] h = ground arith
find-zero t (c ∷ s) h = ground arith

pub rfind-cons_none : (k c : ℕ) (s : Text) → rfind k (c ∷ s) ≡ none → rfind k s ≡ none
unfolding rfind
rfind-cons_none k c s h = ground arith

-- A text that starts with '<' has a last '<', so it is found behind one that stands later.
pub starts_with-rfind : (k : ℕ) (t s : Text) → starts_with (k ∷ t) s ≡ true → rfind k s ≢ none
unfolding starts_with rfind
starts_with-rfind k t [] h e = cc
starts_with-rfind k t (c ∷ s) h e = ground arith

pub find-rfind : (k : ℕ) (t s : Text) (i : ℕ) → find (k ∷ t) s ≡ some i → rfind k s ≢ none
find-rfind k t s zero h = starts_with-rfind k t s (find-zero (k ∷ t) s h)
find-rfind k t [] (suc i) h = λ e. unfold find starts_with in cc
find-rfind k t (c ∷ s) (suc i) h =
    λ e. find-rfind k t s i (find-cons (k ∷ t) c s i h).1 (rfind-cons_none k c s e)
