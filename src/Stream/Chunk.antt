-- ===== src/Stream/Chunk.antt =====
-- What a chunk of the OpenAI stream holds, as far as providers/openai_compat.py reads it.
use liberated_claude_code.Prelude.{ℕ, List, Option, String}
use liberated_claude_code.Text.{Text}
use liberated_claude_code.Sse.Tools.{Flag, JsonLib}

-- `tc.index`: `None`, a number below 0, or a number.
pub data ToolIndex : Type 0 where
  missing negative : ToolIndex
  at : ℕ → ToolIndex

pub record FunctionDelta : Type 0 where
  pub name : Option Text
  pub arguments : Option Text

pub record ToolCallDelta : Type 0 where
  pub index : ToolIndex
  pub id : Option Text
  pub function : Option FunctionDelta

pub record ChoiceDelta : Type 0 where
  pub reasoning_content : Option Text
  pub content : Option Text
  pub tool_calls : List ToolCallDelta

pub record Choice : Type 0 where
  pub finish_reason : Option String
  pub delta : Option ChoiceDelta

-- The first choice, and the completion tokens of the usage.
pub record Chunk : Type 0 where
  pub usage : Option ℕ
  pub choice : Option Choice

module _ (json : JsonLib) where
  open json use {Items}

  -- A tool call that was found in the text.
  pub record ToolUse : Type 0 where
    pub id : Text
    pub name : Text
    pub input : Flag × Items

  -- The interface of providers/common/heuristic_tool_parser.py.
  pub record ToolParser : Type 1 where
    pub State : Type 0
    pub initial : State
    pub feed : Text → State → Text × List ToolUse × State
    pub flush : State → List ToolUse × State
