-- ===== src/Heuristic/Patterns.antt =====
-- The regular expressions of providers/common/heuristic_tool_parser.py, and the control tokens.
use liberated_claude_code.Prelude.{
  ℕ, zero, suc, ◌+◌, ◌-◌, Bool, true, false, ◌&&◌, ◌||◌, [], ◌∷◌, ◌++◌, Option, none, some, leb,
  ◌==◌, take, drop, if◌then◌else◌,
}
use liberated_claude_code.Text.{Text, codes, starts_with}
use liberated_claude_code.Errors.{lstrip, contains_text}

-- The character U+25CF, which starts a tool call.
abbrev pub bullet : ℕ
bullet = 9679

abbrev pub shift {ℓ} : {A : Type ℓ} → ℕ → Option (Text × A) → Option (Text × A)
shift c none = none
shift c (some (before, a)) = some (c ∷ before, a)

abbrev pub first_of {ℓ} : {A : Type ℓ} → Option A → Option (Text × A) → Option (Text × A)
first_of none later = later
first_of (some a) later = some ([], a)

-- pattern.search(s), for a pattern that never matches the empty text: what stands before the first
-- match, and the match.
unfoldable pub search {ℓ} : {A : Type ℓ} → (Text → Option A) → Text → Option (Text × A)
search p [] = none
search p (c ∷ s) = first_of (p (c ∷ s)) (shift c (search p s))

-- `([^>]*)>` at the start of a text: the group, and what follows.
unfoldable pub until_gt : Text → Option (Text × Text)
until_gt [] = none
until_gt (c ∷ s) = let rest = shift c (until_gt s) in if c == b'>' then some ([], s) else rest

-- `([^>]+)>`
abbrev pub unless_empty : Option (Text × Text) → Option (Text × Text)
unless_empty none = none
unless_empty (some ([], rest)) = none
unless_empty (some (c ∷ name, rest)) = some (c ∷ name, rest)

unfoldable pub tag_name : Text → Option (Text × Text)
tag_name s = unless_empty (until_gt s)

-- `_FUNC_START_PATTERN` at the start of a text: the name, and what follows the match.
unfoldable pub function_at : Text → Option (Text × Text)
function_at [] = none
function_at (c ∷ s) =
    if (c == bullet) && starts_with (codes "<function=") (lstrip s)
    then tag_name (drop 10 (lstrip s))
    else none

abbrev pub close_tag : Text
close_tag = codes "</parameter>"

abbrev pub is_last_newline : Text → Bool
is_last_newline [] = true
is_last_newline (c ∷ []) = c == 10
is_last_newline (c ∷ d ∷ s) = false

abbrev pub kept : ℕ → Text × Bool × Text → Text × Bool × Text
kept c (value, closed, rest) = (c ∷ value, closed, rest)

-- `(.*?)(?:</parameter>|$)` at the start of a text: the group, whether the closing tag was there, and
-- what follows. `$` also stands before a last newline.
unfoldable pub until_close : Text → Text × Bool × Text
until_close [] = ([], false, [])
until_close (c ∷ s) =
    let more = kept c (until_close s) in
    if starts_with close_tag (c ∷ s)
    then ([], true, drop 11 s)
    else if is_last_newline (c ∷ s)
    then ([], false, c ∷ s)
    else more

-- A match of `_PARAM_PATTERN`: its groups, the whole of it, and what follows.
pub record ParamMatch : Type 0 where
  pub key : Text
  pub value : Text
  pub whole : Text
  pub rest : Text

abbrev pub param_of : Text → Text × Bool × Text → ParamMatch
param_of key (value, closed, rest) = record {
  key = key;
  value = value;
  whole = codes "<parameter=" ++ key ++ codes ">" ++ value ++ (if closed then close_tag else []);
  rest = rest;
}

abbrev pub with_key : Option (Text × Text) → Option ParamMatch
with_key none = none
with_key (some (key, body)) = some (param_of key (until_close body))

unfoldable pub param_at : Text → Option ParamMatch
param_at s = if starts_with (codes "<parameter=") s then with_key (tag_name (drop 11 s)) else none

-- `<parameter=([^>]+)>(.*)$` at the start of a text: the groups.
unfoldable pub open_param_at : Text → Option (Text × Text)
open_param_at s = if starts_with (codes "<parameter=") s then tag_name (drop 11 s) else none

-- How many characters follow that are neither | nor >.
unfoldable pub run_length : Text → ℕ
run_length [] = 0
run_length (c ∷ s) = let more = suc (run_length s) in if (c == b'|') || (c == b'>') then 0 else more

-- The length of the match of `_CONTROL_TOKEN_RE` at the start of a text.
unfoldable pub control_length : Text → Option ℕ
control_length s =
    let n = run_length (drop 2 s) in
    if starts_with (codes "<|") s
      && (leb 1 n && (leb n 80 && starts_with (codes "|>") (drop (n + 2) s)))
    then some (n + 4)
    else none

-- `_CONTROL_TOKEN_RE.sub("", s)`, where the first `skip` characters belong to a match.
unfoldable pub strip_from : ℕ → Text → Text
strip_from skip [] = []
strip_from (suc skip) (c ∷ s) = strip_from skip s
strip_from zero (c ∷ s) = elim (control_length (c ∷ s)) [
  | none ↦ c ∷ strip_from 0 s
  | some n ↦ strip_from (n - 1) s
]

unfoldable pub strip_control_tokens : Text → Text
strip_control_tokens s = strip_from 0 s

-- s.rfind("<|")
unfoldable pub rfind_control : Text → Option ℕ
rfind_control [] = none
rfind_control (c ∷ s) = elim (rfind_control s) [
  | some i ↦ some (suc i)
  | none ↦ if starts_with (codes "<|") (c ∷ s) then some 0 else none
]

abbrev split_at : Option ℕ → Text → Text × Text
split_at none s = ([], s)
split_at (some start) s =
    if contains_text (codes "|>") (drop start s) then ([], s) else (take start s, drop start s)

-- `_split_incomplete_control_token_tail`: what may be passed on, and the buffer that is left.
unfoldable pub split_incomplete_control_token_tail : Text → Text × Text
split_incomplete_control_token_tail buffer = split_at (rfind_control buffer) buffer
