-- ===== src/Transcript/Subagents.antt =====
-- messaging/transcript.py: the stack of open subagents, and tool calls.
use liberated_claude_code.Prelude.{
  ℕ, zero, suc, ◌+◌, ◌/◌, ◌%◌, Bool, true, false, not, ◌&&◌, ◌||◌, List, [], ◌∷◌, ◌++◌, Option,
  none, some, ltb, length, if◌then◌else◌,
}
use liberated_claude_code.Text.{Text, codes, starts_with}
use liberated_claude_code.Errors.{strip}
use liberated_claude_code.Sse.Tools.{is_empty}
use liberated_claude_code.Json.{text_eq}
use liberated_claude_code.Transcript.{
  ToolCallSegment, ToolResultSegment, Segment, TranscriptBuffer, tool_call_segment,
  tool_result_segment, subagent_segment, modify_at, in_subagent, add_segment, open_at, close_tool,
}

-- str(n)
unfoldable pub decimal_from : ℕ → ℕ → Text → Text
decimal_from zero n acc = acc
decimal_from (suc fuel) n acc =
    let more = decimal_from fuel (n / 10) ((b'0' + n % 10) ∷ acc) in
    if ltb n 10 then (b'0' + n) ∷ acc else more

unfoldable pub decimal : ℕ → Text
decimal n = decimal_from (suc n) n []

-- `text or default`
abbrev pub or_else : Text → Text → Text
or_else [] d = d
or_else (c ∷ t) d = c ∷ t

-- Some providers leave out the id.
unfoldable pub subagent_push : Text → ℕ → TranscriptBuffer → TranscriptBuffer
subagent_push tool_id seg b = record b {
  subagent_stack =
      or_else (strip tool_id) (codes "__task_" ++ decimal (suc (length b.subagent_stack)))
      ∷ b.subagent_stack;
  subagent_segments = seg ∷ b.subagent_segments;
}

-- The ids are the same, but for what one of them has behind the other.
unfoldable pub ids_roughly_match : Text → Text → Bool
ids_roughly_match stack_id result_id =
    not (is_empty stack_id)
    && not (is_empty result_id)
    && (starts_with result_id stack_id || starts_with stack_id result_id)

abbrev pub pop_one : List ℕ → List ℕ
pop_one [] = []
pop_one (s ∷ ss) = ss

-- The stacks without their tops down to the first id that matches, or `none` where no id does.
unfoldable pub pop_matching : Text → List Text → List ℕ → Option (List Text × List ℕ)
pop_matching tool_id [] segs = none
pop_matching tool_id (id ∷ ids) segs =
    let rest = pop_matching tool_id ids (pop_one segs) in
    if ids_roughly_match id tool_id then some (ids, pop_one segs) else rest

abbrev pub popped_to : Option (List Text × List ℕ) → TranscriptBuffer → TranscriptBuffer × Bool
popped_to none b = (b, false)
popped_to (some (ids, segs)) b = (record b { subagent_stack = ids; subagent_segments = segs }, true)

abbrev pub top_of : List Text → Text
top_of [] = []
top_of (id ∷ ids) = id

abbrev pub rest_of : List Text → List Text
rest_of [] = []
rest_of (id ∷ ids) = ids

abbrev pub is_synthetic : Text → Bool
is_synthetic id = starts_with (codes "__task_") id

-- With no id, only a synthetic top is closed.
unfoldable pub subagent_pop : Text → TranscriptBuffer → TranscriptBuffer × Bool
subagent_pop tool_id b =
    if is_empty (strip tool_id)
    then (if is_synthetic (top_of b.subagent_stack)
        then (
          record b {
            subagent_stack = rest_of b.subagent_stack;
            subagent_segments = pop_one b.subagent_segments;
          },
          true,
        )
        else (b, false))
    else popped_to (pop_matching (strip tool_id) b.subagent_stack b.subagent_segments) b

abbrev pub has_text : Text → List Text → Bool
has_text t [] = false
has_text t (u ∷ us) = text_eq u t || has_text t us

abbrev pub add_text : Text → List Text → List Text
add_text t us = if has_text t us then us else t ∷ us

-- A tool call in a subagent takes the place of the one that the subagent shows.
unfoldable pub set_current_tool_call : ℕ → Text → Segment → Segment
set_current_tool_call tool name (subagent_segment s) = subagent_segment (record s {
  tools_used = add_text name s.tools_used;
  tool_calls = suc s.tool_calls;
  current_tool = some tool;
})
set_current_tool_call tool name seg = seg

abbrev pub tool_call : Text → Text → ℕ → ToolCallSegment
tool_call tool_id name indent_level = record {
  tool_use_id = tool_id;
  name = or_else name (codes "tool");
  closed = false;
  indent_level = indent_level;
}

abbrev pub add_tool : ToolCallSegment → TranscriptBuffer → TranscriptBuffer
add_tool seg b = record b { tools = b.tools ++ seg ∷ [] }

-- A tool call stands alone, or in the subagent whose segment is given.
unfoldable pub tool_call_in : List ℕ → Text → Text → TranscriptBuffer → TranscriptBuffer
tool_call_in [] tool_id name b =
    add_segment (tool_call_segment (length b.tools)) (add_tool (tool_call tool_id name 0) b)
tool_call_in (parent ∷ parents) tool_id name b = record (add_tool (tool_call tool_id name 1) b) {
  segments =
      modify_at parent (set_current_tool_call (length b.tools) (or_else name (codes "tool")))
        b.segments;
}

abbrev pub current_subagents : TranscriptBuffer → List ℕ
current_subagents b = if in_subagent b then b.subagent_segments else []

abbrev pub name_tool : Text → Text → TranscriptBuffer → TranscriptBuffer
name_tool [] name b = b
name_tool (c ∷ tool_id) name b = record b {
  tool_name_by_id = (c ∷ tool_id, name) ∷ b.tool_name_by_id;
}

unfoldable pub open_subagent : Text → Text → TranscriptBuffer → TranscriptBuffer
open_subagent tool_id heading b = subagent_push tool_id (length b.segments) (
    add_segment
      (subagent_segment (record {
        description = or_else heading (codes "Subagent");
        tool_calls = 0;
        tools_used = [];
        current_tool = none;
      }))
      b)

abbrev pub open_tool : Option ℕ → ℕ → TranscriptBuffer → TranscriptBuffer
open_tool idx tool b = record b { open_tools_by_index = open_at idx tool b.open_tools_by_index }

abbrev pub close_last : ℕ → TranscriptBuffer → TranscriptBuffer
close_last tool b = record b { tools = close_tool (some tool) b.tools }

abbrev pub is_task : Text → Bool
is_task name = text_eq name (codes "Task")

abbrev pub shown_result : ToolResultSegment → TranscriptBuffer → TranscriptBuffer
shown_result seg b = if b.show_tool_results then add_segment (tool_result_segment seg) b else b

abbrev pub none_or_task : Option Text → Bool
none_or_task none = true
none_or_task (some name) = is_task name
