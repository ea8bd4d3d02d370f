-- ===== src/Sse/Builder.antt =====
-- `SSEBuilder` and the indices of `ContentBlockManager` of providers/common/sse_builder.py.
use liberated_claude_code.Prelude.{
  ℕ, suc, ◌+◌, ◌*◌, ◌/◌, Bool, true, false, not, List, [], ◌∷◌, ◌++◌, Option, none, some, length,
  String, str_eq, if◌then◌else◌,
}
use liberated_claude_code.Text.{Text}
use liberated_claude_code.Sse.Tools.{ToolCallState, ToolStates, get_tool, put_tool, named, is_empty}

pub data Block : Type 0 where
  thinking_block text_block : Block
  tool_use_block : Text → Text → Block

pub data Delta : Type 0 where
  thinking_delta text_delta input_json_delta : Text → Delta

pub data SseEvent : Type 0 where
  message_start : ℕ → SseEvent
  content_block_start : Option ℕ → Block → SseEvent
  content_block_delta : Option ℕ → Delta → SseEvent
  content_block_stop : Option ℕ → SseEvent
  message_delta : String → ℕ → ℕ → SseEvent
  message_stop : SseEvent

pub record SseBuilder : Type 0 where
  pub input_tokens : ℕ
  pub next_index : ℕ
  pub thinking_index : Option ℕ
  pub text_index : Option ℕ
  pub thinking_started : Bool
  pub text_started : Bool
  pub tool_states : ToolStates
  pub accumulated_text_parts : List Text
  pub accumulated_reasoning_parts : List Text

unfoldable pub new : ℕ → SseBuilder
new input_tokens = record {
  input_tokens = input_tokens;
  next_index = 0;
  thinking_index = none;
  text_index = none;
  thinking_started = false;
  text_started = false;
  tool_states = [];
  accumulated_text_parts = [];
  accumulated_reasoning_parts = [];
}

-- A method that yields events. `raised` says that an exception left it, after those events.
pub record Emitted : Type 0 where
  pub sse : SseBuilder
  pub events : List SseEvent
  pub raised : Bool

abbrev pub Emit : Type 0
Emit = SseBuilder → Emitted

abbrev pub pure : Emit
pure b = record { sse = b; events = []; raised = false }

abbrev pub yields : SseEvent → SseBuilder → Emitted
yields e b = record { sse = b; events = e ∷ []; raised = false }

-- One method after the other; what follows an exception is not run.
infixl 5 ◌>>◌
unfoldable pub ◌>>◌ : Emit → Emit → Emit
◌>>◌ f g b =
    let r = f b in
    let s = g r.sse in
    if r.raised then r else record { sse = s.sse; events = r.events ++ s.events; raised = s.raised }

abbrev pub when : Bool → Emit → Emit
when true f = f
when false f = pure

unfoldable pub each {ℓ} : {A : Type ℓ} → (A → Emit) → List A → Emit
each f [] b = pure b
each f (x ∷ xs) b = (f x >> each f xs) b

unfoldable pub start_thinking_block : Emit
start_thinking_block b = yields (content_block_start (some b.next_index) thinking_block) (record b {
  thinking_index = some b.next_index;
  next_index = suc b.next_index;
  thinking_started = true;
})

unfoldable pub emit_thinking_delta : Text → Emit
emit_thinking_delta content b =
    yields (content_block_delta b.thinking_index (thinking_delta content))
      (record b { accumulated_reasoning_parts = b.accumulated_reasoning_parts ++ content ∷ [] })

unfoldable pub stop_thinking_block : Emit
stop_thinking_block b =
    yields (content_block_stop b.thinking_index) (record b { thinking_started = false })

unfoldable pub start_text_block : Emit
start_text_block b = yields (content_block_start (some b.next_index) text_block) (record b {
  text_index = some b.next_index;
  next_index = suc b.next_index;
  text_started = true;
})

unfoldable pub emit_text_delta : Text → Emit
emit_text_delta content b =
    yields (content_block_delta b.text_index (text_delta content))
      (record b { accumulated_text_parts = b.accumulated_text_parts ++ content ∷ [] })

unfoldable pub stop_text_block : Emit
stop_text_block b = yields (content_block_stop b.text_index) (record b { text_started = false })

abbrev pub started_tool : Option ToolCallState → ℕ → Text → Text → ToolCallState
started_tool none block_idx tool_id name = record (named name) {
  block_index = some block_idx;
  tool_id = tool_id;
  started = true;
}
started_tool (some state) block_idx tool_id name = record state {
  block_index = some block_idx;
  tool_id = tool_id;
  started = true;
}

unfoldable pub start_tool_block : ℕ → Text → Text → Emit
start_tool_block tool_index tool_id name b =
    let state = started_tool (get_tool tool_index b.tool_states) b.next_index tool_id name in
    yields (content_block_start (some b.next_index) (tool_use_block tool_id name)) (record b {
      next_index = suc b.next_index;
      tool_states = put_tool tool_index state b.tool_states;
    })

-- A missing tool is a `KeyError`.
unfoldable pub emit_tool_delta : ℕ → Text → Emit
emit_tool_delta tool_index partial_json b = elim (get_tool tool_index b.tool_states) [
  | none ↦ record { sse = b; events = []; raised = true }
  | some state ↦
      yields (content_block_delta state.block_index (input_json_delta partial_json)) (record b {
        tool_states =
            put_tool tool_index (record state { contents = state.contents ++ partial_json ∷ [] })
              b.tool_states;
      })
]

unfoldable pub stop_tool_block : ℕ → Emit
stop_tool_block tool_index b = elim (get_tool tool_index b.tool_states) [
  | none ↦ record { sse = b; events = []; raised = true }
  | some state ↦ yields (content_block_stop state.block_index) b
]

-- `if test: yield f()`, on the builder as it stands.
unfoldable pub guarded : (SseBuilder → Bool) → Emit → Emit
guarded test f b = when (test b) f b

unfoldable pub ensure_thinking_block : Emit
ensure_thinking_block =
    guarded (λ b. b.text_started) stop_text_block
    >> guarded (λ b. not b.thinking_started) start_thinking_block

unfoldable pub ensure_text_block : Emit
ensure_text_block =
    guarded (λ b. b.thinking_started) stop_thinking_block
    >> guarded (λ b. not b.text_started) start_text_block

unfoldable pub close_content_blocks : Emit
close_content_blocks =
    guarded (λ b. b.thinking_started) stop_thinking_block
    >> guarded (λ b. b.text_started) stop_text_block

-- The started tools of the snapshot, in order.
unfoldable pub stop_tools : ToolStates → Emit
stop_tools [] b = pure b
stop_tools ((k, s) ∷ d) b = (when s.started (stop_tool_block k) >> stop_tools d) b

unfoldable pub close_all_blocks : Emit
close_all_blocks = close_content_blocks >> λ b. stop_tools b.tool_states b

-- `allocate_index`, and a block of its own around one delta.
unfoldable pub whole_block : Block → Delta → Emit
whole_block block delta b = record {
  sse = record b { next_index = suc b.next_index };
  events =
      content_block_start (some b.next_index) block
      ∷ content_block_delta (some b.next_index) delta
      ∷ content_block_stop (some b.next_index)
      ∷ [];
  raised = false;
}

unfoldable pub emit_error : Text → Emit
emit_error error_message = whole_block text_block (text_delta error_message)

abbrev pub join : List Text → Text
join [] = []
join (s ∷ ss) = s ++ join ss

abbrev count_started : ToolStates → ℕ
count_started [] = 0
count_started ((k, s) ∷ d) = (if s.started then 1 else 0) + count_started d

-- A sum of counts, of which one may have raised.
abbrev pub plus : Option ℕ → Option ℕ → Option ℕ
plus none n = none
plus (some m) none = none
plus (some m) (some n) = some (m + n)

-- What the tools add to the estimate, by the encoder.
abbrev pub tool_tokens : (Text → Option ℕ) → ToolStates → Option ℕ
tool_tokens encoded [] = some 0
tool_tokens encoded ((k, s) ∷ d) =
    plus (encoded s.name)
      (plus (encoded (join s.contents)) (plus (some 15) (tool_tokens encoded d)))

-- The number of tokens of a text by `tiktoken`, or `none` where it is not installed. For a text with
-- a special token in it, `encode` raises a `ValueError`: no number, and no estimate.
unfoldable pub estimate_output_tokens : Option (Text → Option ℕ) → SseBuilder → Option ℕ
estimate_output_tokens none b = some (
    length (join b.accumulated_text_parts) / 4
    + length (join b.accumulated_reasoning_parts) / 4
    + count_started b.tool_states * 50)
estimate_output_tokens (some encoded) b =
    let text = join b.accumulated_text_parts in
    let reasoning = join b.accumulated_reasoning_parts in
    let block_count =
      (if is_empty reasoning then 0 else 1)
      + (if is_empty text then 0 else 1)
      + count_started b.tool_states in
    plus (encoded text)
      (plus (encoded reasoning) (plus (tool_tokens encoded b.tool_states) (some (block_count * 4))))

-- STOP_REASON_MAP and `map_stop_reason`; an empty reason counts as none.
unfoldable pub map_stop_reason : Option String → String
map_stop_reason none = "end_turn"
map_stop_reason (some openai_reason) =
    if str_eq openai_reason "stop"
    then "end_turn"
    else if str_eq openai_reason "length"
    then "max_tokens"
    else if str_eq openai_reason "tool_calls"
    then "tool_use"
    else if str_eq openai_reason "content_filter"
    then "end_turn"
    else "end_turn"
