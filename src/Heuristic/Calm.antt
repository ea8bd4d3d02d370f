-- ===== src/Heuristic/Calm.antt =====
-- providers/common/heuristic_tool_parser.py: text that is no tool call.
use liberated_claude_code.Prelude.{
  ℕ, ◌<◌, ◌≡◌, refl, ap, inl, inr, Bool, true, false, not, ◌&&◌, [], ◌∷◌, append-nil, none, some,
  ◌==◌, ==_iff, ltb, length, arith, Bool-cases,
}
use liberated_claude_code.Text.{Text, codes, starts_with, find}
use liberated_claude_code.Heuristic.Patterns.{
  bullet, search, function_at, strip_from, strip_control_tokens, control_length, rfind_control,
  split_incomplete_control_token_tail,
}
use liberated_claude_code.Errors.{is_space, lstrip}
use liberated_claude_code.Heuristic.Parser.{
  HeuristicToolParser, plain, matching_function, new, turn, feed_loop, feed, concat, flush,
}

-- The character is not in the text.
unfoldable pub lacks : ℕ → Text → Bool
lacks c [] = true
lacks c (d ∷ s) = not (d == c) && lacks c s

-- No pattern that starts with this character is found.
find-lacks : (c : ℕ) (p s : Text) → lacks c s ≡ true → find (c ∷ p) s ≡ none
unfolding find lacks starts_with
find-lacks c p [] h = refl
find-lacks c p (d ∷ s) h =
    let other : (c == d) ≡ false = ground (arith, ==_iff c d, ==_iff d c) in
    rw (other, find-lacks c p s (ground arith))

starts_with-lacks : (c : ℕ) (p s : Text) → lacks c s ≡ true → starts_with (c ∷ p) s ≡ false
unfolding lacks starts_with
starts_with-lacks c p [] h = refl
starts_with-lacks c p (d ∷ s) h =
    let other : (c == d) ≡ false = ground (arith, ==_iff c d, ==_iff d c) in rw other

control_length-lacks : (s : Text) → lacks b'<' s ≡ true → control_length s ≡ none
unfolding control_length
control_length-lacks s h = rw (starts_with-lacks b'<' (codes "|") s h)

strip_from-lacks : (s : Text) → lacks b'<' s ≡ true → strip_from 0 s ≡ s
unfolding strip_from lacks
strip_from-lacks [] h = refl
strip_from-lacks (d ∷ s) h =
    rw (strip_from, control_length-lacks (d ∷ s) h)
      (ap (λ r. d ∷ r) (strip_from-lacks s (ground arith)))

rfind_control-lacks : (s : Text) → lacks b'<' s ≡ true → rfind_control s ≡ none
unfolding rfind_control lacks
rfind_control-lacks [] h = refl
rfind_control-lacks (d ∷ s) h =
    rw (rfind_control-lacks s (ground arith), starts_with-lacks b'<' (codes "|") (d ∷ s) h)

lacks-bullet : (s : Text) → lacks b'<' s ≡ true → lacks b'<' (bullet ∷ s) ≡ true
unfolding lacks
lacks-bullet s h = h

found_first : (s : Text) → find (bullet ∷ []) (bullet ∷ s) ≡ some 0
unfolding find starts_with
found_first s = refl

lacks-lstrip : (c : ℕ) (s : Text) → lacks c s ≡ true → lacks c (lstrip s) ≡ true
unfolding lacks lstrip
lacks-lstrip c [] h = refl
lacks-lstrip c (d ∷ s) h = elim (Bool-cases (is_space d)) [
  | inl e ↦ rw e (lacks-lstrip c s (ground arith))
  | inr e ↦ rw e h
]

function_at-lacks : (s : Text) → lacks b'<' s ≡ true → function_at s ≡ none
unfolding function_at lacks
function_at-lacks [] h = refl
function_at-lacks (d ∷ s) h =
    rw (starts_with-lacks b'<' (codes "function=") (lstrip s) (lacks-lstrip b'<' s (ground arith)))
      (elim (Bool-cases (d == bullet)) [ inl e ↦ rw e | inr e ↦ rw e ])

search-function_at-lacks : (s : Text) → lacks b'<' s ≡ true → search function_at s ≡ none
unfolding search lacks
search-function_at-lacks [] h = refl
search-function_at-lacks (d ∷ s) h =
    rw (function_at-lacks (d ∷ s) h, search-function_at-lacks s (ground arith))

module _ (uuid : ℕ → Text) where
  -- A text with neither a bullet nor a `<`, fed to a parser that is outside a tool call with nothing
  -- held back: it is passed on unchanged and at once, no tool call is found, and the parser is as it
  -- was.
  pub feed_lem :
      (s : Text) (p : HeuristicToolParser)
      → lacks bullet s ≡ true
      → lacks b'<' s ≡ true
      → feed uuid s (record p { state = plain; buffer = [] })
        ≡ some (record p { state = plain; buffer = [] }, s, [])
  unfolding feed strip_control_tokens feed_loop turn split_incomplete_control_token_tail concat
  feed_lem s p calm bare =
      rw (
        strip_from-lacks s bare,
        find-lacks bullet [] s calm,
        rfind_control-lacks s bare,
        append-nil,
      )

  -- A text with no `<`, of less than a hundred characters, behind a bullet, fed to a new parser that
  -- is then flushed: no text and no tool call comes out of either, and the text is lost.
  pub feed_flush_loses :
      (s : Text)
      → lacks b'<' s ≡ true
      → length s < 100
      → (p : HeuristicToolParser) × ((feed uuid (bullet ∷ s) new ≡ some (p, [], []))
          × ((flush p).1 ≡ []))
  unfolding feed strip_control_tokens feed_loop turn flush concat
  feed_flush_loses s bare short =
      let whole : lacks b'<' (bullet ∷ s) ≡ true = lacks-bullet s bare in
      let few : ltb 100 (length (bullet ∷ s)) ≡ false = ground arith in
      (
        record new { buffer = bullet ∷ s; state = matching_function },
        (
          rw (
            strip_from-lacks (bullet ∷ s) whole,
            found_first s,
            search-function_at-lacks (bullet ∷ s) whole,
            few,
          ),
          refl,
        ),
      )
