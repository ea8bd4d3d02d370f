-- ===== src/Heuristic/Shrinks.antt =====
-- providers/common/heuristic_tool_parser.py: a match takes characters off the buffer.
use liberated_claude_code.Prelude.{
  ℕ, suc, ◌≤◌, ◌<◌, inl, inr, Bool, true, false, ◌&&◌, [], ◌∷◌, Option, none, some, ◌==◌, length,
  length-drop, drop, arith, Bool-cases, if◌then◌else◌,
}
use liberated_claude_code.Text.{Text, codes, starts_with}
use liberated_claude_code.Errors.{is_space, lstrip}
use liberated_claude_code.Heuristic.Patterns.{
  bullet, shift, first_of, search, until_gt, unless_empty, tag_name, function_at, close_tag,
  is_last_newline, kept, until_close, ParamMatch, with_key, param_at,
}

-- What follows a match, if there is one, has less than `n` characters.
abbrev pub Below {ℓ} : {A : Type ℓ} → (A → Text) → ℕ → Option A → Type 0
Below rest n none = Unit {0}
Below rest n (some a) = length (rest a) < n

abbrev pub behind_match {ℓ} : {A : Type ℓ} → (A → Text) → Text × A → Text
behind_match rest (before, a) = rest a

Below-first_of :
    {A : Type 0} (rest : A → Text) (c n : ℕ) (o : Option A) (later : Option (Text × A))
    → Below rest (suc n) o
    → Below (behind_match rest) n later
    → Below (behind_match rest) (suc n) (first_of o (shift c later))
Below-first_of rest c n (some a) later h k = h
Below-first_of rest c n none none h k = tt
Below-first_of rest c n none (some (before, a)) h k = omega (arith, k)

pub search-Below :
    {A : Type 0} (rest : A → Text) (p : Text → Option A)
    → ((s : Text) → Below rest (length s) (p s))
    → (s : Text) → Below (behind_match rest) (length s) (search p s)
unfolding search
search-Below rest p h [] = tt
search-Below rest p h (c ∷ s) =
    Below-first_of rest c (length s) (p (c ∷ s)) (search p s) (h (c ∷ s)) (search-Below rest p h s)

abbrev pub second : Text × Text → Text
second (name, rest) = rest

Below-shift :
    (c n : ℕ) (o : Option (Text × Text)) → Below second n o → Below second (suc n) (shift c o)
Below-shift c n none h = tt
Below-shift c n (some (name, rest)) h = omega (arith, h)

until_gt-Below : (s : Text) → Below second (length s) (until_gt s)
unfolding until_gt
until_gt-Below [] = tt
until_gt-Below (c ∷ s) = elim (Bool-cases (c == b'>')) [
  | inl e ↦ rw e (omega arith)
  | inr e ↦ rw e (Below-shift c (length s) (until_gt s) (until_gt-Below s))
]

Below-unless_empty :
    (n : ℕ) (o : Option (Text × Text)) → Below second n o → Below second n (unless_empty o)
Below-unless_empty n none h = tt
Below-unless_empty n (some ([], rest)) h = tt
Below-unless_empty n (some (c ∷ name, rest)) h = h

Below-le :
    {A : Type 0} (rest : A → Text) (n m : ℕ) (o : Option A)
    → n ≤ m
    → Below rest n o
    → Below rest m o
Below-le rest n m none le h = tt
Below-le rest n m (some a) le h = omega (arith, h, le)

tag_name-Below : (k : ℕ) (s : Text) → Below second (length s) (tag_name (drop k s))
unfolding tag_name
tag_name-Below k s =
    Below-le second (length (drop k s)) (length s) (unless_empty (until_gt (drop k s)))
      (omega (arith, length-drop k s))
      (Below-unless_empty (length (drop k s)) (until_gt (drop k s)) (until_gt-Below (drop k s)))

length-lstrip : (s : Text) → length (lstrip s) ≤ length s
unfolding lstrip
length-lstrip [] = omega arith
length-lstrip (c ∷ s) = elim (Bool-cases (is_space c)) [
  | inl e ↦ rw e (omega (arith, length-lstrip s))
  | inr e ↦ rw e (omega arith)
]

pub function_at-Below : (s : Text) → Below second (length s) (function_at s)
unfolding function_at
function_at-Below [] = tt
function_at-Below (c ∷ s) =
    elim (Bool-cases ((c == bullet) && starts_with (codes "<function=") (lstrip s))) [
      | inl e ↦ rw e (
          Below-le second (length (lstrip s)) (suc (length s)) (tag_name (drop 10 (lstrip s)))
            (omega (arith, length-lstrip s)) (tag_name-Below 10 (lstrip s)))
      | inr e ↦ rw e tt
    ]

abbrev pub param_rest : ParamMatch → Text
param_rest m = m.rest

abbrev third : Text × Bool × Text → Text
third (value, closed, rest) = rest

choice-le :
    (t : Bool) (n : ℕ) (x y : Text × Bool × Text)
    → length (third x) ≤ n
    → length (third y) ≤ n
    → length (third (if t then x else y)) ≤ n
choice-le true n x y h k = h
choice-le false n x y h k = k

until_close-le : (s : Text) → length (third (until_close s)) ≤ length s
unfolding until_close
until_close-le [] = omega arith
until_close-le (c ∷ s) =
    choice-le (starts_with close_tag (c ∷ s)) (suc (length s)) ([], true, drop 11 s)
      (if is_last_newline (c ∷ s) then ([], false, c ∷ s) else kept c (until_close s))
      (omega (arith, length-drop 11 s))
      (choice-le (is_last_newline (c ∷ s)) (suc (length s)) ([], false, c ∷ s)
        (kept c (until_close s)) (omega arith) (omega (arith, until_close-le s)))

with_key-Below :
    (n : ℕ) (o : Option (Text × Text)) → Below second n o → Below param_rest n (with_key o)
with_key-Below n none h = tt
with_key-Below n (some (key, body)) h = omega (arith, h, until_close-le body)

pub param_at-Below : (s : Text) → Below param_rest (length s) (param_at s)
unfolding param_at
param_at-Below s = elim (Bool-cases (starts_with (codes "<parameter=") s)) [
  | inl e ↦ rw e (with_key-Below (length s) (tag_name (drop 11 s)) (tag_name-Below 11 s))
  | inr e ↦ rw e tt
]
