-- ===== src/Convert/Body.antt =====
-- providers/common/message_converter.py: tools, the system prompt and the body of a request; and
-- providers/common/text.py.
use liberated_claude_code.Prelude.{ℕ, zero, suc, Bool, List, [], ◌∷◌, ◌++◌, Option, none, some}
use liberated_claude_code.Text.{Text, join}
use liberated_claude_code.Errors.{strip}
use liberated_claude_code.Json.{Value, Fields}
use liberated_claude_code.Convert.{
  Message, OpenaiMessage, system, blank_line, convert_messages, Content, plain, blocks, Block,
  text_block,
}

pub data SystemPrompt : Type 0 where
  prompt : Text → SystemPrompt
  parts : List Text → SystemPrompt

-- `if system:` and `convert_system_prompt`.
unfoldable pub convert_system_prompt : Option SystemPrompt → Option Text
convert_system_prompt none = none
convert_system_prompt (some (prompt [])) = none
convert_system_prompt (some (prompt (c ∷ s))) = some (c ∷ s)
convert_system_prompt (some (parts [])) = none
convert_system_prompt (some (parts (t ∷ ts))) = some (strip (join blank_line (t ∷ ts)))

pub record Tool : Type 0 where
  pub name : Text
  pub description : Option Text
  pub input_schema : Fields

abbrev or_empty : Option Text → Text
or_empty none = []
or_empty (some t) = t

pub record OpenaiTool : Type 0 where
  pub name : Text
  pub description : Text
  pub parameters : Fields

unfoldable pub convert_tools : List Tool → List OpenaiTool
convert_tools [] = []
convert_tools (t ∷ ts) =
    record { name = t.name; description = or_empty t.description; parameters = t.input_schema }
    ∷ convert_tools ts

pub record MessagesRequest : Type 0 where
  pub model : Text
  pub max_tokens : Option ℕ
  pub messages : List Message
  pub system : Option SystemPrompt
  pub stop_sequences : List Text
  pub temperature : Option Value
  pub top_p : Option Value
  pub tools : List Tool
  pub tool_choice : Fields

-- The body of the request. A list or a dictionary is empty where its key is not set.
pub record RequestBody : Type 0 where
  pub model : Text
  pub messages : List OpenaiMessage
  pub max_tokens : Option ℕ
  pub temperature : Option Value
  pub top_p : Option Value
  pub stop : List Text
  pub tools : List OpenaiTool
  pub tool_choice : Fields

-- max_tokens or default_max_tokens
abbrev or_default : Option ℕ → Option ℕ → Option ℕ
or_default none default = default
or_default (some zero) default = default
or_default (some (suc n)) default = some (suc n)

abbrev pub with_system : Option Text → List OpenaiMessage → List OpenaiMessage
with_system none ms = ms
with_system (some s) ms = system s ∷ ms

abbrev body_of : Option ℕ → MessagesRequest → Option (List OpenaiMessage) → Option RequestBody
body_of default_max_tokens r none = none
body_of default_max_tokens r (some ms) = some (record {
  model = r.model;
  messages = with_system (convert_system_prompt r.system) ms;
  max_tokens = or_default r.max_tokens default_max_tokens;
  temperature = r.temperature;
  top_p = r.top_p;
  stop = r.stop_sequences;
  tools = convert_tools r.tools;
  tool_choice = r.tool_choice;
})

unfoldable pub build_base_request_body :
    (Value → Text) → (Value → Text) → Option ℕ → Bool → MessagesRequest → Option RequestBody
build_base_request_body repr dumps default_max_tokens include_reasoning r =
    body_of default_max_tokens r (convert_messages repr dumps include_reasoning r.messages)

-- The text of a block that has one; only blocks of text do.
abbrev block_text : Block → Text
block_text (text_block t) = t
block_text _ = []

abbrev block_texts : List Block → Text
block_texts [] = []
block_texts (b ∷ bs) = block_text b ++ block_texts bs

-- `extract_text_from_content`
unfoldable pub extract_text_from_content : Content → Text
extract_text_from_content (plain s) = s
extract_text_from_content (blocks bs) = block_texts bs
