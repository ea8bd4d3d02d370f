-- ===== src/Think/Step.antt =====
-- What one cut of the buffer does to the reading of Think/Spec.antt, whatever text follows.
use liberated_claude_code.Prelude.{
  ℕ, zero, suc, ◌-◌, ◌≤◌, ◌<◌, ◌≡◌, ◌≢◌, ◌⊎◌, inl, inr, refl, ap, ◌∙◌, Bool, true, false, ◌&&◌, [],
  ◌∷◌, ◌++◌, none, some, arith, ltb, length, take, drop, Bool-cases,
}
use liberated_claude_code.Text.{Text, starts_with, rfind}
use liberated_claude_code.Think.{open_tag, close_tag, partial_outside, partial_inside}
use liberated_claude_code.Think.Spec.{label, mode_type, tag_at, split}
use liberated_claude_code.Think.Scan.{starts_with-append_cases, rfind-prefix, rfind-cons_none}

abbrev pub partial_tag : Bool → Text → Bool
partial_tag true s = partial_inside s
partial_tag false s = partial_outside s

-- No tag stands at the head of `c ∷ s`, and none can be completed there.
starts_with-append_none :
    (k : ℕ) (t : Text) (c : ℕ) (s x : Text)
    → rfind k t ≡ none
    → starts_with (k ∷ t) (c ∷ s) ≡ false
    → (rfind k s ≢ none)
      ⊎ (ltb (length (c ∷ s)) (length (k ∷ t)) && starts_with (c ∷ s) (k ∷ t) ≡ false)
    → starts_with (k ∷ t) ((c ∷ s) ++ x) ≡ false
starts_with-append_none k t c s x once here late =
    elim (Bool-cases (starts_with (k ∷ t) ((c ∷ s) ++ x))) [
      | inr e ↦ e
      | inl e ↦ elim (starts_with-append_cases (k ∷ t) (c ∷ s) x e) [
        | inl now ↦ ground (arith, now, here)
        | inr (pre, short) ↦ elim late [
          | inl more ↦ absurd (more (rfind-prefix k s t (unfold starts_with in ground arith) once))
          | inr not_partial ↦ ground (arith, pre, short, not_partial)
        ]
      ]
    ]

once_open : rfind b'<' (drop 1 open_tag) ≡ none
unfolding rfind
once_open = refl

once_close : rfind b'<' (drop 1 close_tag) ≡ none
unfolding rfind
once_close = refl

pub tag_at-append_none :
    (m : Bool) (c : ℕ) (s x : Text)
    → tag_at m (c ∷ s) ≡ none
    → (rfind b'<' s ≢ none) ⊎ (partial_tag m (c ∷ s) ≡ false)
    → tag_at m ((c ∷ s) ++ x) ≡ none
unfolding tag_at partial_inside partial_outside
tag_at-append_none true c s x here late =
    ground
      (arith, starts_with-append_none b'<' (drop 1 close_tag) c s x once_close (ground arith) late)
tag_at-append_none false c s x here (inl more) = ground (
  arith,
  starts_with-append_none b'<' (drop 1 open_tag) c s x once_open (ground arith) (inl more),
  starts_with-append_none b'<' (drop 1 close_tag) c s x once_close (ground arith) (inl more),
)
tag_at-append_none false c s x here (inr late) = ground (
  arith,
  starts_with-append_none b'<' (drop 1 open_tag) c s x once_open (ground arith)
      (inr (ground arith)),
  starts_with-append_none b'<' (drop 1 close_tag) c s x once_close (ground arith)
      (inr (ground arith)),
)

-- Before position `i` no tag stands, and a '<' stands behind each character.
abbrev pub Before : Bool → Text → ℕ → Type 0
Before m b zero = Unit {0}
Before m [] (suc i) = ⊥
Before m (c ∷ s) (suc i) = (tag_at m (c ∷ s) ≡ none) × (rfind b'<' s ≢ none) × Before m s i

split-none :
    (m : Bool) (c : ℕ) (s : Text)
    → tag_at m (c ∷ s) ≡ none
    → split 0 m (c ∷ s) ≡ (mode_type m, c) ∷ split 0 m s
unfolding split
split-none m c s h = rw (h, split)

pub split-take :
    (m : Bool) (b : Text) (i : ℕ) (x : Text)
    → Before m b i
    → split 0 m (b ++ x) ≡ label (mode_type m) (take i b) ++ split 0 m (drop i b ++ x)
split-take m b zero x h = refl
split-take m [] (suc i) x h = absurd h
split-take m (c ∷ s) (suc i) x (here, more, rest) =
    split-none m c (s ++ x) (tag_at-append_none m c s x here (inl more))
    ∙ ap (λ r. (mode_type m, c) ∷ r) (split-take m s i x rest)

-- A text with no tag, whose end is no partial tag, is passed on whole.
abbrev pub NoTag : Bool → Text → Type 0
NoTag m [] = Unit {0}
NoTag m (c ∷ s) = (tag_at m (c ∷ s) ≡ none) × NoTag m s

abbrev pub IsSettled : Bool → Text → Type 0
IsSettled m b =
    (rfind b'<' b ≡ none) ⊎ ((i : ℕ) × (rfind b'<' b ≡ some i) × (partial_tag m (drop i b) ≡ false))

partial_tag-none :
    (m : Bool) (c : ℕ) (s : Text) → rfind b'<' (c ∷ s) ≡ none → partial_tag m (c ∷ s) ≡ false
unfolding rfind partial_inside partial_outside starts_with
partial_tag-none true c s h = ground arith
partial_tag-none false c s h = ground arith

pub rfind-cons_zero : (k c : ℕ) (s : Text) → rfind k (c ∷ s) ≡ some 0 → rfind k s ≡ none
unfolding rfind
rfind-cons_zero k c s h = ground arith

pub rfind-cons_suc :
    (k c : ℕ) (s : Text) (i : ℕ) → rfind k (c ∷ s) ≡ some (suc i) → rfind k s ≡ some i
unfolding rfind
rfind-cons_suc k c s i h = ground arith

pub split-settled :
    (m : Bool) (b x : Text)
    → NoTag m b
    → IsSettled m b
    → split 0 m (b ++ x) ≡ label (mode_type m) b ++ split 0 m x
split-settled m [] x n s = refl
split-settled m (c ∷ b) x (here, n) (inl e) =
    split-none m c (b ++ x) (tag_at-append_none m c b x here (inr (partial_tag-none m c b e)))
    ∙ ap (λ r. (mode_type m, c) ∷ r) (split-settled m b x n (inl (rfind-cons_none b'<' c b e)))
split-settled m (c ∷ b) x (here, n) (inr (zero, e, p)) =
    split-none m c (b ++ x) (tag_at-append_none m c b x here (inr p))
    ∙ ap (λ r. (mode_type m, c) ∷ r) (split-settled m b x n (inl (rfind-cons_zero b'<' c b e)))
split-settled m (c ∷ b) x (here, n) (inr (suc i, e, p)) =
    let e' = rfind-cons_suc b'<' c b i e in
    split-none m c (b ++ x) (tag_at-append_none m c b x here (inl (λ z. cc)))
    ∙ ap (λ r. (mode_type m, c) ∷ r) (split-settled m b x n (inr (i, e', p)))

-- At the end of the stream nothing follows, and a text with no tag is passed on whole.
pub split-NoTag : (m : Bool) (b : Text) → NoTag m b → split 0 m b ≡ label (mode_type m) b
unfolding split
split-NoTag m [] n = refl
split-NoTag m (c ∷ b) (here, n) =
    split-none m c b here ∙ ap (λ r. (mode_type m, c) ∷ r) (split-NoTag m b n)

-- A tag at the head switches the mode and is dropped.
split-skip :
    (n : ℕ) (m : Bool) (s x : Text) → n ≤ length s → split n m (s ++ x) ≡ split 0 m (drop n s ++ x)
unfolding split
split-skip zero m s x h = refl
split-skip (suc n) m [] x h = absurd (omega arith)
split-skip (suc n) m (c ∷ s) x h = split-skip n m s x (omega arith)

pub length-starts_with : (t s : Text) → starts_with t s ≡ true → length t ≤ length s
unfolding starts_with
length-starts_with [] s h = omega arith
length-starts_with (c ∷ t) [] h = cc
length-starts_with (c ∷ t) (d ∷ s) h = ground (arith, length-starts_with t s)

pub split-tag :
    (m : Bool) (n : ℕ) (m' : Bool) (s x : Text)
    → 0 < n
    → n ≤ length s
    → tag_at m (s ++ x) ≡ some (n, m')
    → split 0 m (s ++ x) ≡ split 0 m' (drop n s ++ x)
unfolding split
split-tag m (suc n) m' [] x pos len h = absurd (omega arith)
split-tag m (suc n) m' (c ∷ s) x pos len h =
    let e : suc n - 1 ≡ n = omega arith in rw (h, split, e) (split-skip n m' s x (omega arith))
split-tag m zero m' s x pos len h = absurd (omega arith)
