-- ===== src/Stream/Response.antt =====
-- The rest of `_stream_response_impl` of providers/openai_compat.py.
use liberated_claude_code.Prelude.{
  ℕ, Bool, true, false, not, ◌&&◌, List, [], ◌∷◌, ◌++◌, Option, none, some, String, str_eq, is_some,
  if◌then◌else◌,
}
use liberated_claude_code.Text.{Text, codes}
use liberated_claude_code.Think
use liberated_claude_code.Think.{ContentType, text, thinking, ContentChunk, ThinkTagParser}
use liberated_claude_code.Sse.Tools.{Flag, is_false, JsonLib, is_empty}
use liberated_claude_code.Sse.Builder.{
  SseBuilder, SseEvent, Emit, Emitted, pure, when, ◌>>◌, each, guarded, message_start,
  message_delta, message_stop, tool_use_block, input_json_delta, new, emit_thinking_delta,
  emit_text_delta, ensure_thinking_block, ensure_text_block, close_content_blocks, close_all_blocks,
  whole_block, emit_error, estimate_output_tokens, map_stop_reason,
}
use liberated_claude_code.Stream.Chunk.{
  Chunk, Choice, ChoiceDelta, ToolCallDelta, ToolUse, ToolParser,
}
use liberated_claude_code.Stream.ToolCalls.{text_eq, process_tool_call, flush_buffers}

abbrev pub emit_thinking : Text → Emit
emit_thinking content = ensure_thinking_block >> emit_thinking_delta content

abbrev pub emit_text : Text → Emit
emit_text content = ensure_text_block >> emit_text_delta content

-- `if reasoning:`
unfoldable pub emit_reasoning : Option Text → Emit
emit_reasoning none = pure
emit_reasoning (some reasoning) = when (not (is_empty reasoning)) (emit_thinking reasoning)

module _ (json : JsonLib) where
  open json use {Items, dumps}

  -- `Task` is never run in the background.
  unfoldable pub tool_input : ToolUse json → Flag × Items
  tool_input tool_use =
      if text_eq tool_use.name (codes "Task") then (is_false, tool_use.input.1) else tool_use.input

  -- A tool call that was found in the text is a block of its own.
  unfoldable pub emit_tool_use : ToolUse json → Emit
  emit_tool_use tool_use =
      close_content_blocks
      >> whole_block (tool_use_block tool_use.id tool_use.name)
          (input_json_delta (dumps (tool_input tool_use)))

-- The tokens of the usage that was last reported, or the estimate, which may raise.
abbrev pub count_output : Option (Text → Option ℕ) → Option ℕ → SseBuilder → Option ℕ
count_output encoder (some completion_tokens) b = some completion_tokens
count_output encoder none b = estimate_output_tokens encoder b

-- The events up to `close_all_blocks`, then the end of the message; an exception of the count leaves
-- the handler before it.
abbrev pub end_message : String → ℕ → Option ℕ → List SseEvent → List SseEvent × Bool
end_message stop_reason input_tokens none events = (events, true)
end_message stop_reason input_tokens (some output_tokens) events =
    (events ++ message_delta stop_reason input_tokens output_tokens ∷ message_stop ∷ [], false)

module _ (json : JsonLib) (parser : ToolParser json) (uuid : ℕ → Text) where
  open parser use {State, initial, feed, flush}

  -- The states of the two parsers, and what was last heard of the finish and the usage.
  pub record Session : Type 0 where
    pub think : ThinkTagParser
    pub tools : State
    pub finish_reason : Option String
    pub usage : Option ℕ

  abbrev pub start : Session
  start = record { think = Think.new; tools = initial; finish_reason = none; usage = none }

  unfoldable pub emit_filtered : Text → Emit
  emit_filtered filtered_text = when (not (is_empty filtered_text)) (emit_text filtered_text)

  -- One part of the think parser's answer.
  unfoldable pub handle_part : ContentChunk → State → State × Emit
  handle_part part s = elim part.type [
    | thinking ↦ (s, emit_thinking part.content)
    | text ↦
        let (filtered_text, detected_tools, s') = feed part.content s in
        (s', emit_filtered filtered_text >> each (emit_tool_use json) detected_tools)
  ]

  unfoldable pub handle_parts : List ContentChunk → State → State × Emit
  handle_parts [] s = (s, pure)
  handle_parts (part ∷ parts) s =
      let (s', first) = handle_part part s in
      let (s'', rest) = handle_parts parts s' in (s'', first >> rest)

  -- `if delta.content:`; the parser always answers.
  unfoldable pub handle_content : Option Text → Session → Session × Emit
  handle_content none p = (p, pure)
  handle_content (some content) p =
      let parts = Think.feed content p.think in
      if is_empty content then (p, pure) else elim parts [
        | none ↦ (p, pure)
        | some (cs, think) ↦
            let (s, act) = handle_parts cs p.tools in (record p { think = think; tools = s }, act)
      ]

  -- `if delta.tool_calls:`
  unfoldable pub handle_tool_calls : List ToolCallDelta → Emit
  handle_tool_calls [] = pure
  handle_tool_calls (tc ∷ tcs) =
      close_content_blocks >> each (process_tool_call json uuid) (tc ∷ tcs)

  unfoldable pub handle_delta : ChoiceDelta → Session → Session × Emit
  handle_delta delta p =
      let (p', act) = handle_content delta.content p in
      (p', emit_reasoning delta.reasoning_content >> act >> handle_tool_calls delta.tool_calls)

  abbrev note_usage : Option ℕ → Session → Session
  note_usage none p = p
  note_usage (some n) p = record p { usage = some n }

  abbrev note_finish : Option String → Session → Session
  note_finish none p = p
  note_finish (some reason) p =
      if str_eq reason "" then p else record p { finish_reason = some reason }

  -- A chunk with no choice, or no delta, yields nothing.
  unfoldable pub handle_choice : Option Choice → Session → Session × Emit
  handle_choice none p = (p, pure)
  handle_choice (some choice) p = elim choice.delta [
    | none ↦ (p, pure)
    | some delta ↦ handle_delta delta (note_finish choice.finish_reason p)
  ]

  unfoldable pub handle_chunk : Chunk → Session → Session × Emit
  handle_chunk chunk p = handle_choice chunk.choice (note_usage chunk.usage p)

  -- `async for chunk in stream:`; an exception ends the loop.
  unfoldable pub handle_chunks : List Chunk → Session → SseBuilder → Session × Emitted
  handle_chunks [] p b = (p, pure b)
  handle_chunks (chunk ∷ chunks) p b =
      let (p', act) = handle_chunk chunk p in
      let r = act b in
      let (p'', s) = handle_chunks chunks p' r.sse in
      if r.raised
      then (p', r)
      else (p'', record { sse = s.sse; events = r.events ++ s.events; raised = s.raised })

  -- What the think parser held back; it does not go through the tool parser.
  unfoldable pub emit_remaining : Option ContentChunk → Emit
  emit_remaining none = pure
  emit_remaining (some part) = elim part.type [
    | thinking ↦ emit_thinking part.content
    | text ↦ emit_text part.content
  ]

  abbrev no_tools : SseBuilder → Bool
  no_tools b = elim b.tool_states [ [] ↦ true | _ ∷ _ ↦ false ]

  -- An answer with no text and no tool call gets one blank.
  unfoldable pub ensure_content : Bool → Emit
  ensure_content error_occurred =
      guarded (λ b. not error_occurred && (not (is_some b.text_index) && no_tools b))
        (emit_text (codes " "))

  unfoldable pub emit_failure : Option Text → Emit
  emit_failure none = pure
  emit_failure (some message) = close_content_blocks >> emit_error message

  -- From the error, if any, to the end of the blocks.
  unfoldable pub finish_blocks : Option Text → Session → Emit
  finish_blocks error_message p =
      emit_failure error_message
      >> emit_remaining (Think.flush p.think).0
      >> each (emit_tool_use json) (flush p.tools).0
      >> ensure_content (is_some error_message)
      >> flush_buffers json
      >> close_all_blocks

  -- The whole answer, and whether an exception leaves the handler. `body_raises` says that
  -- `_build_request_body` raised, before the first event. `failure` is the text for an exception of
  -- the client, at the end of the chunks that came; `internal` that for an exception of the handling
  -- itself.
  unfoldable pub stream_response :
      Bool → Option (Text → Option ℕ) → ℕ → Text → List Chunk → Option Text → List SseEvent × Bool
  stream_response body_raises encoder input_tokens internal chunks failure =
      let (p, r) = handle_chunks chunks start (new input_tokens) in
      let error_message = if r.raised then some internal else failure in
      let f = finish_blocks error_message p r.sse in
      let output_tokens = count_output encoder p.usage f.sse in
      let events = message_start input_tokens ∷ (r.events ++ f.events) in
      if body_raises
      then ([], true)
      else if f.raised
      then (events, true)
      else end_message (map_stop_reason p.finish_reason) input_tokens output_tokens events
