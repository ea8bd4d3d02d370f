-- ===== src/Transcript/Runs.antt =====
-- messaging/transcript.py: what the buffer's positions name, over every run of events.
use liberated_claude_code.Prelude.{
  ℕ, ◌<◌, refl, Bool, true, false, List, [], ◌∷◌, ◌++◌, Option, none, some, length, length-append,
  arith,
}
use liberated_claude_code.Text.{Text, codes}
use liberated_claude_code.Json.{Value, str}
use liberated_claude_code.Errors.{strip}
use liberated_claude_code.Events.{ParsedEvent}
use liberated_claude_code.Events
use liberated_claude_code.Transcript.{
  Segment, ToolCallSegment, ToolResultSegment, TranscriptBuffer, tool_call_segment,
  tool_result_segment, subagent_segment, new, in_subagent, close_previous, get_name,
}
use liberated_claude_code.Transcript.Subagents.{
  subagent_pop, set_current_tool_call, tool_call_in, open_subagent, name_tool, open_tool,
  shown_result, tool_call, add_tool, current_subagents, is_task, or_else,
}
use liberated_claude_code.Transcript.Apply.{
  tool_use_start, tool_use, close_subagent, tool_result, apply, apply_all, reconciled, tool_name,
  task_heading_from_input,
}
use liberated_claude_code.Transcript.Kinds.{
  positions, IsValid, kind_at-length, AllBelow-le, kind-set_current_tool_call,
}
use liberated_claude_code.Transcript.Blocks.{
  if-IsValid, AllBelow-open_at, add_segment-IsValid, modify_at-IsValid, thinking_stop-IsValid,
  text_stop-IsValid, close_tool-IsValid, tool_use_stop-IsValid, block_stop-IsValid,
  close_previous-IsValid, thinking_start-IsValid, text_start-IsValid, thinking_delta-IsValid,
  text_delta-IsValid,
}
use liberated_claude_code.Transcript.Stacks.{subagent_push-IsValid, subagent_pop-IsValid}

add_tool-IsValid : (t : ToolCallSegment) {b : TranscriptBuffer} → IsValid b → IsValid (add_tool t b)
add_tool-IsValid t {b} v = record {
  same_depth = v.same_depth;
  subagents = v.subagents;
  open_thinking = v.open_thinking;
  open_text = v.open_text;
  open_tools =
      AllBelow-le (length b.tools) (length (b.tools ++ t ∷ [])) (positions b.open_tools_by_index)
        (omega (arith, length-append b.tools (t ∷ []))) v.open_tools;
}

tool_call_in-IsValid :
    (parents : List ℕ) (id name : Text) {b : TranscriptBuffer}
    → IsValid b
    → IsValid (tool_call_in parents id name b)
unfolding tool_call_in
tool_call_in-IsValid [] id name {b} v =
    add_segment-IsValid (tool_call_segment (length b.tools))
      (add_tool-IsValid (tool_call id name 0) v)
tool_call_in-IsValid (parent ∷ parents) id name {b} v =
    let n : Text = or_else name (codes "tool") in
    modify_at-IsValid (set_current_tool_call (length b.tools) n)
      (kind-set_current_tool_call (length b.tools) n) parent
      (add_tool-IsValid (tool_call id name 1) v)

-- The new tool call is one of the tools.
length-tool_call_in :
    (parents : List ℕ) (id name : Text) (b : TranscriptBuffer)
    → length b.tools < length (tool_call_in parents id name b).tools
unfolding tool_call_in
length-tool_call_in [] id name b = omega (arith, length-append b.tools (tool_call id name 0 ∷ []))
length-tool_call_in (parent ∷ parents) id name b =
    omega (arith, length-append b.tools (tool_call id name 1 ∷ []))

open_tool-IsValid :
    (idx : Option ℕ) (n : ℕ) {b : TranscriptBuffer}
    → n < length b.tools
    → IsValid b
    → IsValid (open_tool idx n b)
open_tool-IsValid idx n {b} lt v = record {
  same_depth = v.same_depth;
  subagents = v.subagents;
  open_thinking = v.open_thinking;
  open_text = v.open_text;
  open_tools = AllBelow-open_at (length b.tools) idx n b.open_tools_by_index lt v.open_tools;
}

name_tool-IsValid :
    (id name : Text) {b : TranscriptBuffer} → IsValid b → IsValid (name_tool id name b)
name_tool-IsValid [] name v = v
name_tool-IsValid (c ∷ id) name v = record {
  same_depth = v.same_depth;
  subagents = v.subagents;
  open_thinking = v.open_thinking;
  open_text = v.open_text;
  open_tools = v.open_tools;
}

open_subagent-IsValid :
    (id heading : Text) {b : TranscriptBuffer} → IsValid b → IsValid (open_subagent id heading b)
unfolding open_subagent
open_subagent-IsValid id heading {b} v =
    let s : Segment = subagent_segment (record {
      description = or_else heading (codes "Subagent");
      tool_calls = 0;
      tools_used = [];
      current_tool = none;
    }) in
    subagent_push-IsValid id (length b.segments) (kind_at-length b.segments s)
      (add_segment-IsValid s v)

shown_result-IsValid :
    (seg : ToolResultSegment) {b : TranscriptBuffer} → IsValid b → IsValid (shown_result seg b)
shown_result-IsValid seg {b} v =
    if-IsValid b.show_tool_results (add_segment-IsValid (tool_result_segment seg) v) v

module _ (repr : Value → Text) (dumps : Value → Text) (lower : Text → Text) where
  tool_use_start-IsValid :
      (idx : Option ℕ) (id : Text) (name inp : Value) {b : TranscriptBuffer}
      → IsValid b
      → IsValid (tool_use_start repr dumps lower idx id name inp b)
  unfolding tool_use_start
  tool_use_start-IsValid idx id name inp {b = b₀} v₀ =
      let n : Text = tool_name repr dumps lower name in
      let b : TranscriptBuffer = name_tool (strip id) n (close_previous idx b₀) in
      let v : IsValid b = name_tool-IsValid (strip id) n (close_previous-IsValid idx v₀) in
      if-IsValid (is_task n)
        (open_subagent-IsValid (strip id) (task_heading_from_input repr dumps lower inp) v)
        (open_tool-IsValid idx (length b.tools)
          (length-tool_call_in (current_subagents b) (strip id) n b)
          (tool_call_in-IsValid (current_subagents b) (strip id) n v))

  tool_use-IsValid :
      (id : Text) (name inp : Value) {b : TranscriptBuffer}
      → IsValid b
      → IsValid (tool_use repr dumps lower id name inp b)
  unfolding tool_use
  tool_use-IsValid id name inp {b = b₀} v₀ =
      let n : Text = tool_name repr dumps lower name in
      let b : TranscriptBuffer = name_tool (strip id) n b₀ in
      let v : IsValid b = name_tool-IsValid (strip id) n v₀ in
      if-IsValid (is_task n)
        (open_subagent-IsValid (strip id) (task_heading_from_input repr dumps lower inp) v)
        (close_tool-IsValid (some (length b.tools))
          (tool_call_in-IsValid (current_subagents b) (strip id) n v))

  reconciled-IsValid :
      (id : Text) (name : Option Text) (r : TranscriptBuffer × Bool)
      → IsValid r.0
      → IsValid (reconciled repr dumps lower id name r)
  reconciled-IsValid id name (b, true) v = v
  reconciled-IsValid id name (b, false) v = if-IsValid _ (subagent_pop-IsValid [] v) v

  close_subagent-IsValid :
      (id : Text) {b : TranscriptBuffer}
      → IsValid b
      → IsValid (close_subagent repr dumps lower id b)
  unfolding close_subagent
  close_subagent-IsValid id {b} v =
      if-IsValid (in_subagent b)
        (reconciled-IsValid id (get_name id b.tool_name_by_id) (subagent_pop id b)
          (subagent_pop-IsValid id v))
        v

  tool_result-IsValid :
      (id : Text) (content : Value) (is_error : Bool) {b : TranscriptBuffer}
      → IsValid b
      → IsValid (tool_result repr dumps lower id content is_error b)
  unfolding tool_result
  tool_result-IsValid id content is_error v =
      shown_result-IsValid _ (close_subagent-IsValid (strip id) v)

  apply-IsValid :
      (e : ParsedEvent) {b : TranscriptBuffer} → IsValid b → IsValid (apply repr dumps lower e b)
  unfolding apply
  apply-IsValid (Events.thinking_start idx) {b} v =
      if-IsValid (in_subagent b) v (thinking_start-IsValid idx v)
  apply-IsValid (Events.thinking_delta idx t) {b} v =
      if-IsValid (in_subagent b) v (thinking_delta-IsValid idx (str repr t) v)
  apply-IsValid (Events.thinking_chunk t) {b} v =
      if-IsValid (in_subagent b) v (thinking_delta-IsValid none (str repr t) v)
  apply-IsValid (Events.thinking_stop idx) v = thinking_stop-IsValid idx v
  apply-IsValid (Events.text_start idx) {b} v =
      if-IsValid (in_subagent b) v (text_start-IsValid idx v)
  apply-IsValid (Events.text_delta idx t) {b} v =
      if-IsValid (in_subagent b) v (text_delta-IsValid idx (str repr t) v)
  apply-IsValid (Events.text_chunk t) {b} v =
      if-IsValid (in_subagent b) v (text_delta-IsValid none (str repr t) v)
  apply-IsValid (Events.text_stop idx) v = text_stop-IsValid idx v
  apply-IsValid (Events.tool_use_start idx id name inp) v = tool_use_start-IsValid idx id name inp v
  apply-IsValid (Events.tool_use_delta idx t) v = v
  apply-IsValid (Events.tool_use_stop idx) v = tool_use_stop-IsValid idx v
  apply-IsValid (Events.block_stop idx) v = block_stop-IsValid idx v
  apply-IsValid (Events.tool_use id name inp) v = tool_use-IsValid id name inp v
  apply-IsValid (Events.tool_result id content is_error) v =
      tool_result-IsValid id content is_error v
  apply-IsValid (Events.error t) v = add_segment-IsValid _ v
  apply-IsValid (Events.complete ok) v = v

  run-IsValid :
      (es : List ParsedEvent) {b : TranscriptBuffer}
      → IsValid b
      → IsValid (apply_all repr dumps lower es b)
  unfolding apply_all
  run-IsValid [] v = v
  run-IsValid (e ∷ es) v = run-IsValid es (apply-IsValid e v)

  -- Every run of events on a new buffer leaves it well formed: the two stacks of subagents are as
  -- deep as each other, a position on the stack holds a subagent's segment, a position that is open
  -- for thinking or for text holds a segment of that kind, and an open tool call is a known one.
  pub apply_all-IsValid :
      (show : Bool) (es : List ParsedEvent) → IsValid (apply_all repr dumps lower es (new show))
  apply_all-IsValid show es = run-IsValid es (record {
    same_depth = refl;
    subagents = tt;
    open_thinking = tt;
    open_text = tt;
    open_tools = tt;
  })
