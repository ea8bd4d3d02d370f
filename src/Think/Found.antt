-- ===== src/Think/Found.antt =====
-- What the positions that `find` and `rfind` return say of the tags in the buffer.
use liberated_claude_code.Prelude.{
  ℕ, zero, suc, ◌≤◌, ◌≡◌, ◌≢◌, ◌⊎◌, inl, inr, refl, Bool, true, false, [], ◌∷◌, none, some, arith,
  drop,
}
use liberated_claude_code.Text.{Text, starts_with, find, rfind}
use liberated_claude_code.Think.{open_tag, close_tag}
use liberated_claude_code.Think.Spec.{tag_at}
use liberated_claude_code.Think.Scan.{find-cons, find-cons_none, find-zero, find-rfind}
use liberated_claude_code.Think.Step.{Before, NoTag, rfind-cons_suc}

-- The text `t` does not occur before position `i`.
abbrev pub NotBefore : Text → Text → ℕ → Type 0
NotBefore t b i = (find t b ≡ none) ⊎ ((j : ℕ) × (find t b ≡ some j) × (i ≤ j))

NotBefore-cons :
    (t : Text) (c : ℕ) (s : Text) (i : ℕ)
    → NotBefore t (c ∷ s) (suc i)
    → (starts_with t (c ∷ s) ≡ false) × NotBefore t s i
NotBefore-cons t c s i (inl e) = let (h, r) = find-cons_none t c s e in (h, inl r)
NotBefore-cons t c s i (inr (zero, e, l)) = absurd (omega arith)
NotBefore-cons t c s i (inr (suc j, e, l)) =
    let (h, r) = find-cons t c s j e in (h, inr (j, r, omega arith))

find-nil : (k : ℕ) (t : Text) (i : ℕ) → find (k ∷ t) [] ≢ some i
unfolding find starts_with
find-nil k t i e = cc

pub Before-outside :
    (t : Text) (b : Text) (i : ℕ)
    → find (b'<' ∷ t) b ≡ some i
    → NotBefore open_tag b i
    → NotBefore close_tag b i
    → Before false b i
unfolding tag_at
Before-outside t b zero e o c = tt
Before-outside t [] (suc i) e o c = absurd (find-nil b'<' t (suc i) e)
Before-outside t (a ∷ b) (suc i) e o c =
    let (ho, o') = NotBefore-cons open_tag a b i o in
    let (hc, c') = NotBefore-cons close_tag a b i c in
    let e' = (find-cons (b'<' ∷ t) a b i e).1 in
    (ground arith, find-rfind b'<' t b i e', Before-outside t b i e' o' c')

pub Before-inside : (b : Text) (i : ℕ) → find close_tag b ≡ some i → Before true b i
unfolding tag_at
Before-inside b zero e = tt
Before-inside [] (suc i) e = absurd (find-nil b'<' (drop 1 close_tag) (suc i) e)
Before-inside (a ∷ b) (suc i) e =
    let (h, e') = find-cons close_tag a b i e in
    (ground arith, find-rfind b'<' (drop 1 close_tag) b i e', Before-inside b i e')

pub NoTag-outside : (b : Text) → find open_tag b ≡ none → find close_tag b ≡ none → NoTag false b
unfolding tag_at
NoTag-outside [] o c = tt
NoTag-outside (a ∷ b) o c =
    let (ho, o') = find-cons_none open_tag a b o in
    let (hc, c') = find-cons_none close_tag a b c in (ground arith, NoTag-outside b o' c')

pub NoTag-inside : (b : Text) → find close_tag b ≡ none → NoTag true b
unfolding tag_at
NoTag-inside [] c = tt
NoTag-inside (a ∷ b) c =
    let (hc, c') = find-cons_none close_tag a b c in (ground arith, NoTag-inside b c')

pub Before-rfind : (m : Bool) (b : Text) (i : ℕ) → NoTag m b → rfind b'<' b ≡ some i → Before m b i
unfolding rfind
Before-rfind m b zero n e = tt
Before-rfind m [] (suc i) n e = cc
Before-rfind m (a ∷ b) (suc i) (h, n) e =
    let e' = rfind-cons_suc b'<' a b i e in (h, (λ z. cc), Before-rfind m b i n e')

pub starts_with-drop-find :
    (t b : Text) (i : ℕ) → find t b ≡ some i → starts_with t (drop i b) ≡ true
starts_with-drop-find t b zero e = find-zero t b e
starts_with-drop-find t [] (suc i) e = absurd (unfold find in ground arith)
starts_with-drop-find t (a ∷ b) (suc i) e = starts_with-drop-find t b i (find-cons t a b i e).1

pub NotBefore-weaken : (t b : Text) (i : ℕ) → NotBefore t b (suc i) → NotBefore t b i
NotBefore-weaken t b i (inl e) = inl e
NotBefore-weaken t b i (inr (j, e, l)) = inr (j, e, omega arith)

-- The two tags part at their second character.
pub starts_with-tags : (s : Text) → starts_with close_tag s ≡ true → starts_with open_tag s ≡ false
unfolding starts_with
starts_with-tags [] h = refl
starts_with-tags (a ∷ []) h = ground arith
starts_with-tags (a ∷ c ∷ s) h = ground arith
