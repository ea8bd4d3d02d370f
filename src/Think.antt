-- ===== src/Think.antt =====
-- providers/common/think_parser.py: the streaming parser of <think>...</think> tags.
pub mod Spec
mod Scan
mod Step
mod Found
mod Good
pub mod Streaming
use liberated_claude_code.Prelude.{
  ℕ, zero, suc, Bool, true, false, ◌&&◌, ◌||◌, List, [], ◌∷◌, ◌++◌, Option, none, some, ◌+◌, ◌-◌,
  ltb, ◌==◌, if◌then◌else◌, length, take, drop,
}
use liberated_claude_code.Text.{Text, codes, starts_with, find, rfind}

pub data ContentType : Type 0 where
  text thinking : ContentType

pub record ContentChunk : Type 0 where
  pub type : ContentType
  pub content : Text

-- `_buffer` and `_in_think_tag`.
pub record ThinkTagParser : Type 0 where
  pub buffer : Text
  pub in_think_tag : Bool

abbrev pub new : ThinkTagParser
new = record { buffer = []; in_think_tag = false }

abbrev pub open_tag : Text
open_tag = codes "<think>"

abbrev pub close_tag : Text
close_tag = codes "</think>"

-- `if content: return ContentChunk(type, content)`, else `return None`.
abbrev pub chunk_unless_empty : ContentType → Text → Option ContentChunk
chunk_unless_empty t [] = none
chunk_unless_empty t (c ∷ s) = some (record { type = t; content = c ∷ s })

-- Emit what stands before position `i`, drop `n` characters from there, and go on in mode `m`.
abbrev pub cut : ContentType → ℕ → ℕ → Bool → ThinkTagParser → Option ContentChunk × ThinkTagParser
cut t i n m p = (
  chunk_unless_empty t (take i p.buffer),
  record { buffer = drop (i + n) p.buffer; in_think_tag = m },
)

-- Emit the whole buffer.
abbrev pub emit_all : ContentType → ThinkTagParser → Option ContentChunk × ThinkTagParser
emit_all t p = (chunk_unless_empty t p.buffer, record p { buffer = [] })

-- The test for a partial <think> or </think> at the end.
unfoldable pub partial_outside : Text → Bool
partial_outside potential_tag =
    (ltb (length potential_tag) 7 && starts_with potential_tag open_tag)
    || (ltb (length potential_tag) 8 && starts_with potential_tag close_tag)

unfoldable pub partial_inside : Text → Bool
partial_inside potential_tag = ltb (length potential_tag) 8 && starts_with potential_tag close_tag

-- No tag was found: hold back a partial tag at the end, or emit everything.
unfoldable pub hold_partial :
    ContentType → (Text → Bool) → Option ℕ → ThinkTagParser → Option ContentChunk × ThinkTagParser
hold_partial t partial none p = emit_all t p
hold_partial t partial (some last_bracket) p =
    if partial (drop last_bracket p.buffer)
    then (
      chunk_unless_empty t (take last_bracket p.buffer),
      record p { buffer = drop last_bracket p.buffer },
    )
    else emit_all t p

-- The branches of `_parse_outside_think`, by the positions of the two tags.
unfoldable pub parse_outside_at :
    Option ℕ → Option ℕ → ThinkTagParser → Option ContentChunk × ThinkTagParser
parse_outside_at none none p = hold_partial text partial_outside (rfind b'<' p.buffer) p
parse_outside_at (some think_start) none p = cut text think_start 7 true p
parse_outside_at none (some orphan_close) p = cut text orphan_close 8 p.in_think_tag p
parse_outside_at (some think_start) (some orphan_close) p =
    if ltb orphan_close think_start
    then cut text orphan_close 8 p.in_think_tag p
    else cut text think_start 7 true p

unfoldable pub parse_outside_think : ThinkTagParser → Option ContentChunk × ThinkTagParser
parse_outside_think p = parse_outside_at (find open_tag p.buffer) (find close_tag p.buffer) p

unfoldable pub parse_inside_at : Option ℕ → ThinkTagParser → Option ContentChunk × ThinkTagParser
parse_inside_at none p = hold_partial thinking partial_inside (rfind b'<' p.buffer) p
parse_inside_at (some think_end) p = cut thinking think_end 8 false p

unfoldable pub parse_inside_think : ThinkTagParser → Option ContentChunk × ThinkTagParser
parse_inside_think p = parse_inside_at (find close_tag p.buffer) p

-- One round of the loop of `feed`.
unfoldable pub parse_step : ThinkTagParser → Option ContentChunk × ThinkTagParser
parse_step p = if p.in_think_tag then parse_inside_think p else parse_outside_think p

abbrev yield_chunk :
    ContentChunk
    → Option (List ContentChunk × ThinkTagParser)
    → Option (List ContentChunk × ThinkTagParser)
yield_chunk c none = none
yield_chunk c (some (cs, p)) = some (c ∷ cs, p)

-- The rest of a round: yield the chunk and go on, stop if nothing was consumed, or go on.
unfoldable pub after_step :
    ℕ
    → Option ContentChunk
    → ThinkTagParser
    → Option (List ContentChunk × ThinkTagParser)
    → Option (List ContentChunk × ThinkTagParser)
after_step prev_len (some c) p rest = yield_chunk c rest
after_step prev_len none p rest = if length p.buffer == prev_len then some ([], p) else rest

-- `while self._buffer:` with fuel; `none` means that the fuel ran out.
unfoldable pub feed_loop : ℕ → ThinkTagParser → Option (List ContentChunk × ThinkTagParser)
feed_loop zero p = none
feed_loop (suc fuel) p =
    let (chunk, p') = parse_step p in
    let rest = feed_loop fuel p' in
    elim p.buffer [ [] ↦ some ([], p) | _ ∷ _ ↦ after_step (length p.buffer) chunk p' rest ]

unfoldable pub feed : Text → ThinkTagParser → Option (List ContentChunk × ThinkTagParser)
feed content p =
    let p' : ThinkTagParser = record p { buffer = p.buffer ++ content } in
    feed_loop (suc (length p'.buffer)) p'

unfoldable pub flush : ThinkTagParser → Option ContentChunk × ThinkTagParser
flush p = emit_all (if p.in_think_tag then thinking else text) p
