-- ===== src/Think/Good.antt =====
-- Each round of the loop of `feed` reads the buffer as Think/Spec.antt does, and makes progress or
-- leaves a buffer with no tag in it.
use liberated_claude_code.Prelude.{
  ℕ, zero, suc, ◌+◌, ◌≤◌, ◌<◌, ◌≡◌, ◌⊎◌, inl, inr, refl, ap, ◌∙◌, Bool, true, false, [], ◌∷◌, ◌++◌,
  Option, none, some, arith, ltb, length, take, drop, length-drop, drop-drop, Bool-cases,
  Option-cases,
}
use liberated_claude_code.Text.{Text, starts_with, find, rfind}
use liberated_claude_code.Think.{
  ContentType, text, thinking, ContentChunk, ThinkTagParser, open_tag, close_tag,
  chunk_unless_empty, cut, emit_all, hold_partial, partial_outside, partial_inside,
  parse_outside_at, parse_outside_think, parse_inside_at, parse_inside_think, parse_step,
}
use liberated_claude_code.Think.Spec.{label, label_chunk?, mode_type, tag_at, split}
use liberated_claude_code.Think.Scan.{starts_with-append}
use liberated_claude_code.Think.Step.{
  partial_tag, Before, NoTag, IsSettled, split-take, split-settled, split-tag, length-starts_with,
}
use liberated_claude_code.Think.Found.{
  NotBefore, Before-outside, Before-inside, Before-rfind, NoTag-outside, NoTag-inside,
  starts_with-drop-find, NotBefore-weaken, starts_with-tags,
}

abbrev pub at : Bool → Text → ThinkTagParser
at m b = record { buffer = b; in_think_tag = m }

pub record IsGood (m : Bool) (b : Text) (r : Option ContentChunk × ThinkTagParser) : Type 0 where
  pub sound :
      (x : Text)
      → split 0 m (b ++ x) ≡ label_chunk? r.0 ++ split 0 r.1.in_think_tag (r.1.buffer ++ x)
  pub moves :
      ((r.0 ≡ none) × (r.1 ≡ at m b) × NoTag m b × (length b < 8)) ⊎ (length r.1.buffer < length b)

pub label-chunk_unless_empty :
    (t : ContentType) (s : Text) → label_chunk? (chunk_unless_empty t s) ≡ label t s
label-chunk_unless_empty t [] = refl
label-chunk_unless_empty t (c ∷ s) = refl

-- A tag was found at position `i`.
cut-IsGood :
    (m : Bool) (c : ℕ) (s : Text) (i n : ℕ) (m' : Bool)
    → Before m (c ∷ s) i
    → 0 < n
    → n ≤ length (drop i (c ∷ s))
    → ((x : Text) → tag_at m (drop i (c ∷ s) ++ x) ≡ some (n, m'))
    → IsGood m (c ∷ s) (cut (mode_type m) i n m' (at m (c ∷ s)))
cut-IsGood m c s i n m' before pos len tag = record {
  sound = λ x.
      split-take m (c ∷ s) i x before
      ∙ rw (label-chunk_unless_empty, ← drop-drop n i)
          (ap (λ r. label (mode_type m) (take i (c ∷ s)) ++ r)
            (split-tag m n m' (drop i (c ∷ s)) x pos len (tag x)));
  moves = inr (omega (arith, length-drop {0} (i + n) (c ∷ s), length-drop {0} i (c ∷ s)));
}

-- No tag was found.
settled-IsGood :
    (m : Bool) (c : ℕ) (s : Text)
    → NoTag m (c ∷ s)
    → IsSettled m (c ∷ s)
    → IsGood m (c ∷ s) (emit_all (mode_type m) (at m (c ∷ s)))
settled-IsGood m c s n e = record {
  sound = λ x. split-settled m (c ∷ s) x n e;
  moves = inr (omega arith);
}

partial_tag-short : (m : Bool) (s : Text) → partial_tag m s ≡ true → length s < 8
unfolding partial_inside partial_outside
partial_tag-short true s h = ground arith
partial_tag-short false s h = ground arith

held-IsGood :
    (m : Bool) (c : ℕ) (s : Text) (i : ℕ)
    → NoTag m (c ∷ s)
    → rfind b'<' (c ∷ s) ≡ some i
    → partial_tag m (drop i (c ∷ s)) ≡ true
    → IsGood m (c ∷ s) (chunk_unless_empty (mode_type m) (take i (c ∷ s)), at m (drop i (c ∷ s)))
held-IsGood m c s zero n e h = record {
  sound = λ x. refl;
  moves = inl (refl, refl, n, partial_tag-short m (c ∷ s) h);
}
held-IsGood m c s (suc i) n e h = record {
  sound = λ x. split-take m (c ∷ s) (suc i) x (Before-rfind m (c ∷ s) (suc i) n e);
  moves = inr (omega (arith, length-drop {0} i s));
}

hold_partial-IsGood :
    (m : Bool) (c : ℕ) (s : Text)
    → NoTag m (c ∷ s)
    → IsGood m
        (c ∷ s)
        (hold_partial (mode_type m) (partial_tag m) (rfind b'<' (c ∷ s)) (at m (c ∷ s)))
unfolding hold_partial
hold_partial-IsGood m c s n = elim (Option-cases (rfind b'<' (c ∷ s))) [
  | inl e ↦ rw (e, hold_partial) (settled-IsGood m c s n (inl e))
  | inr (i, e) ↦ elim (Bool-cases (partial_tag m (drop i (c ∷ s)))) [
    | inl p ↦ rw (e, hold_partial, p) (held-IsGood m c s i n e p)
    | inr p ↦ rw (e, hold_partial, p) (settled-IsGood m c s n (inr (i, e, p)))
  ]
]

tag_length : (t s : Text) (i : ℕ) → find t s ≡ some i → length t ≤ length (drop i s)
tag_length t s i e = length-starts_with t (drop i s) (starts_with-drop-find t s i e)

found_tag :
    (t s : Text) (i : ℕ) (x : Text) → find t s ≡ some i → starts_with t (drop i s ++ x) ≡ true
found_tag t s i x e = starts_with-append t (drop i s) x (starts_with-drop-find t s i e)

-- `<think>` comes first.
open_first-IsGood :
    (c : ℕ) (s : Text) (i : ℕ)
    → find open_tag (c ∷ s) ≡ some i
    → NotBefore close_tag (c ∷ s) i
    → IsGood false (c ∷ s) (cut text i 7 true (at false (c ∷ s)))
unfolding tag_at
open_first-IsGood c s i e n =
    cut-IsGood false c s i 7 true
      (Before-outside (drop 1 open_tag) (c ∷ s) i e (inr (i, e, omega arith)) n) (omega arith)
      (tag_length open_tag (c ∷ s) i e) (λ x. rw (found_tag open_tag (c ∷ s) i x e))

-- A stray `</think>` comes first.
orphan_first-IsGood :
    (c : ℕ) (s : Text) (i : ℕ)
    → find close_tag (c ∷ s) ≡ some i
    → NotBefore open_tag (c ∷ s) (suc i)
    → IsGood false (c ∷ s) (cut text i 8 false (at false (c ∷ s)))
unfolding tag_at
orphan_first-IsGood c s i e n =
    cut-IsGood false c s i 8 false
      (Before-outside (drop 1 close_tag) (c ∷ s) i e (NotBefore-weaken open_tag (c ∷ s) i n)
        (inr (i, e, omega arith)))
      (omega arith) (tag_length close_tag (c ∷ s) i e)
      (λ x. let tag = found_tag close_tag (c ∷ s) i x e in rw (starts_with-tags _ tag, tag))

inside_tag-IsGood :
    (c : ℕ) (s : Text) (i : ℕ)
    → find close_tag (c ∷ s) ≡ some i
    → IsGood true (c ∷ s) (cut thinking i 8 false (at true (c ∷ s)))
unfolding tag_at
inside_tag-IsGood c s i e =
    cut-IsGood true c s i 8 false (Before-inside (c ∷ s) i e) (omega arith)
      (tag_length close_tag (c ∷ s) i e) (λ x. rw (found_tag close_tag (c ∷ s) i x e))

outside-IsGood :
    (c : ℕ) (s : Text) (o k : Option ℕ)
    → find open_tag (c ∷ s) ≡ o
    → find close_tag (c ∷ s) ≡ k
    → IsGood false (c ∷ s) (parse_outside_at o k (at false (c ∷ s)))
unfolding parse_outside_at
outside-IsGood c s none none eo ek = hold_partial-IsGood false c s (NoTag-outside (c ∷ s) eo ek)
outside-IsGood c s (some i) none eo ek = open_first-IsGood c s i eo (inl ek)
outside-IsGood c s none (some j) eo ek = orphan_first-IsGood c s j ek (inl eo)
outside-IsGood c s (some i) (some j) eo ek = elim (Bool-cases (ltb j i)) [
  | inl h ↦ rw h (orphan_first-IsGood c s j ek (inr (i, eo, ground arith)))
  | inr h ↦ rw h (open_first-IsGood c s i eo (inr (j, ek, ground arith)))
]

inside-IsGood :
    (c : ℕ) (s : Text) (k : Option ℕ)
    → find close_tag (c ∷ s) ≡ k
    → IsGood true (c ∷ s) (parse_inside_at k (at true (c ∷ s)))
unfolding parse_inside_at
inside-IsGood c s none e = hold_partial-IsGood true c s (NoTag-inside (c ∷ s) e)
inside-IsGood c s (some i) e = inside_tag-IsGood c s i e

pub parse_step-IsGood : (m : Bool) (c : ℕ) (s : Text) → IsGood m (c ∷ s) (parse_step (at m (c ∷ s)))
unfolding parse_step parse_outside_think parse_inside_think
parse_step-IsGood false c s = outside-IsGood c s _ _ refl refl
parse_step-IsGood true c s = inside-IsGood c s _ refl
