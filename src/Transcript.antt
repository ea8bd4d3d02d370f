-- ===== src/Transcript.antt =====
-- messaging/transcript.py: the segments and the buffer. A segment is a shared object: the buffer's
-- other fields name it by its position, and a tool call by its number in `tools`.
pub mod Subagents
pub mod Apply
pub mod Render
pub mod Fits
pub mod Kinds
pub mod Blocks
pub mod Stacks
pub mod Runs
pub mod Nested
use liberated_claude_code.Prelude.{
  ℕ, zero, suc, ◌+◌, ◌/◌, ◌%◌, Bool, true, false, not, ◌&&◌, ◌||◌, String, List, [], ◌∷◌, ◌++◌,
  Option, none, some, ltb, ◌==◌, is_some, length, if◌then◌else◌,
}
use liberated_claude_code.Text.{Text, codes, starts_with}
use liberated_claude_code.Errors.{strip, contains_text}
use liberated_claude_code.Sse.Tools.{is_empty}
use liberated_claude_code.Json.{
  Value, Fields, text, object, get_or, is_truthy, str, str_or_empty, text_eq,
}
use liberated_claude_code.Events.{ParsedEvent}
use liberated_claude_code.Events

pub record ToolCallSegment : Type 0 where
  pub tool_use_id : Text
  pub name : Text
  pub closed : Bool
  pub indent_level : ℕ

pub record SubagentSegment : Type 0 where
  pub description : Text
  pub tool_calls : ℕ
  pub tools_used : List Text
  pub current_tool : Option ℕ

pub record ToolResultSegment : Type 0 where
  pub tool_use_id : Text
  pub name : Option Text
  pub content_text : Text
  pub is_error : Bool

pub data Segment : Type 0 where
  thinking_segment text_segment : List Text → Segment
  tool_call_segment : ℕ → Segment
  tool_result_segment : ToolResultSegment → Segment
  subagent_segment : SubagentSegment → Segment
  error_segment : Text → Segment

-- A dictionary from block indices, and one from ids.
abbrev pub Indices : Type 0
Indices = List (ℕ × ℕ)

unfoldable pub get_index : ℕ → Indices → Option ℕ
get_index k [] = none
get_index k ((j, v) ∷ d) = if j == k then some v else get_index k d

unfoldable pub pop_index : ℕ → Indices → Indices
pop_index k [] = []
pop_index k ((j, v) ∷ d) = let rest = pop_index k d in if j == k then rest else (j, v) ∷ rest

-- d[k] = v
abbrev pub set_index : ℕ → ℕ → Indices → Indices
set_index k v d = (k, v) ∷ pop_index k d

unfoldable pub get_name : Text → List (Text × Text) → Option Text
get_name k [] = none
get_name k ((j, v) ∷ d) = if text_eq j k then some v else get_name k d

-- The stack has its top first.
pub record TranscriptBuffer : Type 0 where
  pub segments : List Segment
  pub tools : List ToolCallSegment
  pub open_thinking_by_index : Indices
  pub open_text_by_index : Indices
  pub open_tools_by_index : Indices
  pub tool_name_by_id : List (Text × Text)
  pub show_tool_results : Bool
  pub subagent_stack : List Text
  pub subagent_segments : List ℕ

abbrev pub new : Bool → TranscriptBuffer
new show_tool_results = record {
  segments = [];
  tools = [];
  open_thinking_by_index = [];
  open_text_by_index = [];
  open_tools_by_index = [];
  tool_name_by_id = [];
  show_tool_results = show_tool_results;
  subagent_stack = [];
  subagent_segments = [];
}

unfoldable pub modify_at {ℓ} : {A : Type ℓ} → ℕ → (A → A) → List A → List A
modify_at n f [] = []
modify_at zero f (x ∷ xs) = f x ∷ xs
modify_at (suc n) f (x ∷ xs) = x ∷ modify_at n f xs

unfoldable pub in_subagent : TranscriptBuffer → Bool
in_subagent b = elim b.subagent_stack [ [] ↦ false | id ∷ ids ↦ true ]

abbrev pub add_segment : Segment → TranscriptBuffer → TranscriptBuffer
add_segment seg b = record b { segments = b.segments ++ seg ∷ [] }

-- `seg.append(t)`: an empty text is not kept.
unfoldable pub append_part : Text → Segment → Segment
append_part [] seg = seg
append_part (c ∷ t) (thinking_segment parts) = thinking_segment (parts ++ (c ∷ t) ∷ [])
append_part (c ∷ t) (text_segment parts) = text_segment (parts ++ (c ∷ t) ∷ [])
append_part (c ∷ t) seg = seg

abbrev pub open_at : Option ℕ → ℕ → Indices → Indices
open_at none seg d = d
open_at (some idx) seg d = set_index idx seg d

abbrev pub found_at : Option ℕ → Indices → Option ℕ
found_at none d = none
found_at (some idx) d = get_index idx d

abbrev pub drop_at : Option ℕ → Indices → Indices
drop_at none d = d
drop_at (some idx) d = pop_index idx d

unfoldable pub thinking_stop : Option ℕ → TranscriptBuffer → TranscriptBuffer
thinking_stop idx b = record b { open_thinking_by_index = drop_at idx b.open_thinking_by_index }

unfoldable pub text_stop : Option ℕ → TranscriptBuffer → TranscriptBuffer
text_stop idx b = record b { open_text_by_index = drop_at idx b.open_text_by_index }

abbrev pub close_tool : Option ℕ → List ToolCallSegment → List ToolCallSegment
close_tool none tools = tools
close_tool (some n) tools = modify_at n (λ seg. record seg { closed = true }) tools

unfoldable pub tool_use_stop : Option ℕ → TranscriptBuffer → TranscriptBuffer
tool_use_stop idx b = record b {
  open_tools_by_index = drop_at idx b.open_tools_by_index;
  tools = close_tool (found_at idx b.open_tools_by_index) b.tools;
}

-- The first kind of segment that is open under the index is stopped.
unfoldable pub block_stop : Option ℕ → TranscriptBuffer → TranscriptBuffer
block_stop idx b =
    if is_some (found_at idx b.open_tools_by_index)
    then tool_use_stop idx b
    else if is_some (found_at idx b.open_thinking_by_index)
    then thinking_stop idx b
    else if is_some (found_at idx b.open_text_by_index)
    then text_stop idx b
    else b

-- `if idx >= 0: self.apply({"type": "block_stop", "index": idx})`: no block is open below 0.
abbrev pub close_previous : Option ℕ → TranscriptBuffer → TranscriptBuffer
close_previous none b = b
close_previous (some idx) b = block_stop (some idx) b

unfoldable pub thinking_start : Option ℕ → TranscriptBuffer → TranscriptBuffer
thinking_start idx b₀ =
    let b = close_previous idx b₀ in
    record (add_segment (thinking_segment []) b) {
      open_thinking_by_index = open_at idx (length b.segments) b.open_thinking_by_index;
    }

unfoldable pub text_start : Option ℕ → TranscriptBuffer → TranscriptBuffer
text_start idx b₀ =
    let b = close_previous idx b₀ in
    record (add_segment (text_segment []) b) {
      open_text_by_index = open_at idx (length b.segments) b.open_text_by_index;
    }

abbrev pub append_thinking : Option ℕ → Option ℕ → Text → TranscriptBuffer → TranscriptBuffer
append_thinking idx (some seg) t b = record b {
  segments = modify_at seg (append_part t) b.segments;
}
append_thinking idx none t b = record (add_segment (append_part t (thinking_segment [])) b) {
  open_thinking_by_index = open_at idx (length b.segments) b.open_thinking_by_index;
}

-- A delta for an index that is not open opens a segment.
unfoldable pub thinking_delta : Option ℕ → Text → TranscriptBuffer → TranscriptBuffer
thinking_delta idx t b = append_thinking idx (found_at idx b.open_thinking_by_index) t b

abbrev pub append_text : Option ℕ → Option ℕ → Text → TranscriptBuffer → TranscriptBuffer
append_text idx (some seg) t b = record b { segments = modify_at seg (append_part t) b.segments }
append_text idx none t b = record (add_segment (append_part t (text_segment [])) b) {
  open_text_by_index = open_at idx (length b.segments) b.open_text_by_index;
}

unfoldable pub text_delta : Option ℕ → Text → TranscriptBuffer → TranscriptBuffer
text_delta idx t b = append_text idx (found_at idx b.open_text_by_index) t b
