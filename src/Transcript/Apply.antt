-- ===== src/Transcript/Apply.antt =====
-- messaging/transcript.py: `apply`, for one parsed event. The text of a value that is no text, the
-- printing of a tool's result and the lower case of a text are parameters.
use liberated_claude_code.Prelude.{
  ℕ, Bool, true, false, not, ◌&&◌, String, List, [], ◌∷◌, Option, none, length, if◌then◌else◌,
}
use liberated_claude_code.Text.{Text, codes}
use liberated_claude_code.Errors.{strip, contains_text}
use liberated_claude_code.Sse.Tools.{is_empty}
use liberated_claude_code.Json.{Value, Fields, text, object, get_or, is_truthy, str, str_or_empty}
use liberated_claude_code.Events.{ParsedEvent}
use liberated_claude_code.Events
use liberated_claude_code.Transcript.{
  TranscriptBuffer, error_segment, get_name, in_subagent, add_segment, thinking_stop, text_stop,
  tool_use_stop, block_stop, close_previous, thinking_start, text_start, thinking_delta, text_delta,
}
use liberated_claude_code.Transcript.Subagents.{
  or_else, top_of, is_synthetic, subagent_pop, tool_call_in, current_subagents, name_tool,
  open_subagent, open_tool, close_last, is_task, shown_result, none_or_task,
}

-- `str(value)`, `json.dumps` and `str.lower`.
module _ (repr : Value → Text) (dumps : Value → Text) (lower : Text → Text) where
  abbrev heading_part : String → Fields → Text
  heading_part key inp = strip (str_or_empty repr (get_or key (text []) inp))

  unfoldable pub task_heading_from_input : Value → Text
  task_heading_from_input (object inp) = or_else (heading_part "description" inp) (
      or_else (heading_part "subagent_type" inp)
        (or_else (heading_part "type" inp) (codes "Subagent")))
  task_heading_from_input _ = codes "Subagent"

  -- `str(value or "tool")`
  abbrev pub tool_name : Value → Text
  tool_name v = if is_truthy v then str repr v else codes "tool"

  unfoldable pub tool_use_start :
      Option ℕ → Text → Value → Value → TranscriptBuffer → TranscriptBuffer
  tool_use_start idx id name inp b₀ =
      let b = name_tool (strip id) (tool_name name) (close_previous idx b₀) in
      if is_task (tool_name name)
      then open_subagent (strip id) (task_heading_from_input inp) b
      else open_tool idx (length b.tools)
          (tool_call_in (current_subagents b) (strip id) (tool_name name) b)

  unfoldable pub tool_use : Text → Value → Value → TranscriptBuffer → TranscriptBuffer
  tool_use id name inp b₀ =
      let b = name_tool (strip id) (tool_name name) b₀ in
      if is_task (tool_name name)
      then open_subagent (strip id) (task_heading_from_input inp) b
      else close_last (length b.tools)
          (tool_call_in (current_subagents b) (strip id) (tool_name name) b)

  -- Where the id of the stack is synthetic, the result may have a real id.
  abbrev pub reconciled : Text → Option Text → TranscriptBuffer × Bool → TranscriptBuffer
  reconciled tool_id name (popped, true) = popped
  reconciled tool_id name (b, false) =
      if not (is_empty tool_id)
        && is_synthetic (top_of b.subagent_stack)
        && none_or_task name
        && contains_text (codes "task") (lower tool_id)
      then (subagent_pop [] b).0
      else b

  unfoldable pub close_subagent : Text → TranscriptBuffer → TranscriptBuffer
  close_subagent tool_id b =
      if in_subagent b
      then reconciled tool_id (get_name tool_id b.tool_name_by_id) (subagent_pop tool_id b)
      else b

  abbrev content_text : Value → Text
  content_text (text t) = t
  content_text v = dumps v

  unfoldable pub tool_result : Text → Value → Bool → TranscriptBuffer → TranscriptBuffer
  tool_result id content is_error b =
      shown_result
        (record {
          tool_use_id = strip id;
          name = get_name (strip id) b.tool_name_by_id;
          content_text = content_text content;
          is_error = is_error;
        })
        (close_subagent (strip id) b)

  abbrev pub unless_in_subagent :
      (TranscriptBuffer → TranscriptBuffer) → TranscriptBuffer → TranscriptBuffer
  unless_in_subagent f b = if in_subagent b then b else f b

  unfoldable pub apply : ParsedEvent → TranscriptBuffer → TranscriptBuffer
  apply (Events.thinking_start idx) b = unless_in_subagent (thinking_start idx) b
  apply (Events.thinking_delta idx v) b = unless_in_subagent (thinking_delta idx (str repr v)) b
  apply (Events.thinking_chunk v) b = unless_in_subagent (thinking_delta none (str repr v)) b
  apply (Events.thinking_stop idx) b = thinking_stop idx b
  apply (Events.text_start idx) b = unless_in_subagent (text_start idx) b
  apply (Events.text_delta idx v) b = unless_in_subagent (text_delta idx (str repr v)) b
  apply (Events.text_chunk v) b = unless_in_subagent (text_delta none (str repr v)) b
  apply (Events.text_stop idx) b = text_stop idx b
  apply (Events.tool_use_start idx id name inp) b = tool_use_start idx id name inp b
  apply (Events.tool_use_delta idx v) b = b
  apply (Events.tool_use_stop idx) b = tool_use_stop idx b
  apply (Events.block_stop idx) b = block_stop idx b
  apply (Events.tool_use id name inp) b = tool_use id name inp b
  apply (Events.tool_result id content is_error) b = tool_result id content is_error b
  apply (Events.error v) b =
      add_segment (error_segment (or_else (str repr v) (codes "Unknown error"))) b
  apply (Events.complete ok) b = b

  -- A run of events, the first one first.
  unfoldable pub apply_all : List ParsedEvent → TranscriptBuffer → TranscriptBuffer
  apply_all [] b = b
  apply_all (e ∷ es) b = apply_all es (apply e b)
