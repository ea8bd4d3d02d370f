-- ===== src/Stream/ToolCalls.antt =====
-- `_process_tool_call` and `_flush_task_arg_buffers` of providers/openai_compat.py.
use liberated_claude_code.Prelude.{
  ℕ, Bool, true, false, not, ◌&&◌, ◌||◌, [], ◌∷◌, ◌++◌, Option, none, some, length, if◌then◌else◌,
}
use liberated_claude_code.Text.{Text, codes, starts_with}
use liberated_claude_code.Sse.Tools.{
  JsonLib, get_tool, is_empty, register_tool_name, Buffered, incomplete, complete, no_object,
  buffer_task_args, flush_task_arg_buffers,
}
use liberated_claude_code.Sse.Builder.{
  SseBuilder, Emit, pure, when, ◌>>◌, each, start_tool_block, emit_tool_delta,
}
use liberated_claude_code.Stream.Chunk.{
  ToolIndex, missing, negative, at, FunctionDelta, ToolCallDelta,
}

-- `text or default`
abbrev pub or_default : Option Text → Text → Text
or_default none d = d
or_default (some []) d = d
or_default (some (c ∷ s)) d = c ∷ s

abbrev pub is_truthy : Option Text → Bool
is_truthy none = false
is_truthy (some t) = not (is_empty t)

-- s == t, of texts
abbrev pub text_eq : Text → Text → Bool
text_eq s t = starts_with s t && starts_with t s

-- An exception, with nothing yielded before it.
abbrev pub raise : Emit
raise b = record { sse = b; events = []; raised = true }

unfoldable pub register_name : ℕ → Option Text → Emit
register_name k none b = pure b
register_name k (some name) b =
    pure (record b { tool_states = register_tool_name k name b.tool_states })

module _ (uuid : ℕ → Text) where
  abbrev pub tool_id : Option Text → SseBuilder → Text
  tool_id id b = or_default id (codes "tool_" ++ uuid b.next_index)

  -- A call that has a name or an id is started.
  unfoldable pub start_named : ℕ → Option Text → Emit
  start_named k id b = elim (get_tool k b.tool_states) [
    | none ↦ when (is_truthy id) (start_tool_block k (tool_id id b) []) b
    | some state ↦
        when (not state.started && (not (is_empty state.name) || is_truthy id))
          (start_tool_block k (tool_id id b) state.name) b
  ]

  -- Arguments start a call that has neither.
  unfoldable pub start_for_arguments : ℕ → Option Text → Emit
  start_for_arguments k id b = elim (get_tool k b.tool_states) [
    | none ↦ start_tool_block k (tool_id id b) (codes "tool_call") b
    | some state ↦
        when (not state.started)
          (start_tool_block k (tool_id id b) (or_default (some state.name) (codes "tool_call"))) b
  ]

module _ (json : JsonLib) where
  open json use {Items, dumps}

  unfoldable pub emit_buffered : ℕ → Buffered json → Emit
  emit_buffered k incomplete b = pure b
  emit_buffered k (complete args) b = emit_tool_delta k (dumps args) b
  emit_buffered k no_object b = raise b

  -- The arguments of `Task` are held back until they are whole.
  unfoldable pub emit_arguments : ℕ → Text → Emit
  emit_arguments k args b = elim (get_tool k b.tool_states) [
    | none ↦ emit_tool_delta k args b
    | some state ↦
        if text_eq state.name (codes "Task")
        then (let r = buffer_task_args json k args b.tool_states in
            emit_buffered k r.1 (record b { tool_states = r.0 }))
        else emit_tool_delta k args b
  ]

  unfoldable pub flush_buffers : Emit
  flush_buffers b =
      let r = flush_task_arg_buffers json b.tool_states in
      each (λ p. emit_tool_delta p.0 p.1) r.1 (record b { tool_states = r.0 })

  unfoldable pub process_arguments : (ℕ → Text) → ℕ → Option Text → Option Text → Emit
  process_arguments uuid k id none = pure
  process_arguments uuid k id (some args) =
      when (not (is_empty args)) (start_for_arguments uuid k id >> emit_arguments k args)

  -- The call with this index.
  unfoldable pub process_at : (ℕ → Text) → ℕ → Option Text → FunctionDelta → Emit
  process_at uuid k id function =
      register_name k function.name
      >> start_named uuid k id
      >> process_arguments uuid k id function.arguments

  -- `tc.function.name` raises where there is no function, and `tc_index < 0` where there is no index;
  -- an index below 0 is the next free one.
  abbrev pub process_function : (ℕ → Text) → ToolIndex → Option Text → Option FunctionDelta → Emit
  process_function uuid index id none = raise
  process_function uuid missing id (some function) = raise
  process_function uuid negative id (some function) =
      λ b. process_at uuid (length b.tool_states) id function b
  process_function uuid (at k) id (some function) = process_at uuid k id function

  unfoldable pub process_tool_call : (ℕ → Text) → ToolCallDelta → Emit
  process_tool_call uuid tc = process_function uuid tc.index tc.id tc.function
