-- ===== src/Convert.antt =====
-- providers/common/message_converter.py: Anthropic messages, as api/models/anthropic.py reads them,
-- in the form of OpenAI. `str` of a value and `json.dumps` are parameters. `none` is the `TypeError`
-- of a join over something that is no text.
pub mod Readable
pub mod Kept
pub mod Body
use liberated_claude_code.Prelude.{
  ℕ, zero, suc, Bool, true, false, not, ◌&&◌, String, List, [], ◌∷◌, ◌++◌, Option, none, some,
  if◌then◌else◌,
}
use liberated_claude_code.Text.{Text, codes, join}
use liberated_claude_code.Sse.Tools.{is_empty}
use liberated_claude_code.Errors.{strip}
use liberated_claude_code.Json.{
  Value, Items, Fields, text, list, object, nil, cons, get_or, is_truthy, str,
}

pub data Role : Type 0 where
  user assistant : Role

pub data Block : Type 0 where
  text_block thinking_block : Text → Block
  image_block : Block
  tool_use_block : Text → Text → Fields → Block
  tool_result_block : Text → Value → Block

pub data Content : Type 0 where
  plain : Text → Content
  blocks : List Block → Content

pub record Message : Type 0 where
  pub role : Role
  pub content : Content

pub record ToolCall : Type 0 where
  pub id : Text
  pub name : Text
  pub arguments : Text

-- A message of the request. The list of tool calls is empty where the key is not set.
pub data OpenaiMessage : Type 0 where
  said : Role → Text → OpenaiMessage
  answered : Text → List ToolCall → Option Text → OpenaiMessage
  system : Text → OpenaiMessage
  tool : Text → Text → OpenaiMessage

abbrev newline : Text
newline = 10 ∷ []

abbrev pub blank_line : Text
blank_line = 10 ∷ 10 ∷ []

-- flush_text()
abbrev pub flush_text : List Text → List OpenaiMessage
flush_text [] = []
flush_text (t ∷ ts) = said user (join newline (t ∷ ts)) ∷ []

abbrev pub answer_with :
    Text → List Text → Option Text → Option (List OpenaiMessage) → Option (List OpenaiMessage)
answer_with id texts none rest = none
answer_with id texts (some content) none = none
answer_with id texts (some content) (some rest) = some (flush_text texts ++ tool id content ∷ rest)

-- "content or one space": an assistant's message is never empty.
abbrev pub content_or_space : Text → List ToolCall → Text
content_or_space [] [] = codes " "
content_or_space [] (c ∷ cs) = []
content_or_space (c ∷ s) calls = c ∷ s

abbrev reasoning : Bool → List Text → Option Text
reasoning false thinking = none
reasoning true [] = none
reasoning true (t ∷ ts) = some (join newline (t ∷ ts))

module _ (repr : Value → Text) (dumps : Value → Text) where
  abbrev pub content_parts : List Block → List Text
  content_parts [] = []
  content_parts (text_block t ∷ bs) = t ∷ content_parts bs
  content_parts (thinking_block t ∷ bs) =
      (codes "<think>\n" ++ t ++ codes "\n</think>") ∷ content_parts bs
  content_parts (image_block ∷ bs) = content_parts bs
  content_parts (tool_use_block id name input ∷ bs) = content_parts bs
  content_parts (tool_result_block id content ∷ bs) = content_parts bs

  abbrev pub thinking_parts : List Block → List Text
  thinking_parts [] = []
  thinking_parts (thinking_block t ∷ bs) = t ∷ thinking_parts bs
  thinking_parts (text_block t ∷ bs) = thinking_parts bs
  thinking_parts (image_block ∷ bs) = thinking_parts bs
  thinking_parts (tool_use_block id name input ∷ bs) = thinking_parts bs
  thinking_parts (tool_result_block id content ∷ bs) = thinking_parts bs

  abbrev pub tool_calls : List Block → List ToolCall
  tool_calls [] = []
  tool_calls (tool_use_block id name input ∷ bs) =
      record { id = id; name = name; arguments = dumps (object input) } ∷ tool_calls bs
  tool_calls (text_block t ∷ bs) = tool_calls bs
  tool_calls (thinking_block t ∷ bs) = tool_calls bs
  tool_calls (image_block ∷ bs) = tool_calls bs
  tool_calls (tool_result_block id content ∷ bs) = tool_calls bs

  unfoldable pub convert_assistant_message : Bool → List Block → OpenaiMessage
  convert_assistant_message include_reasoning content =
      answered (content_or_space (join blank_line (content_parts content)) (tool_calls content))
        (tool_calls content) (reasoning include_reasoning (thinking_parts content))

  abbrev pub as_text : Value → Option Text
  as_text (text t) = some t
  as_text _ = none

  -- item.get("text", str(item)), or str(item)
  abbrev pub item_text : Value → Option Text
  item_text (object d) = as_text (get_or "text" (text (repr (object d))) d)
  item_text v = some (str repr v)

  abbrev pub more_texts : Option Text → Option (List Text) → Option (List Text)
  more_texts none rest = none
  more_texts (some t) none = none
  more_texts (some t) (some ts) = some (t ∷ ts)

  unfoldable pub item_texts : Items → Option (List Text)
  item_texts nil = some []
  item_texts (cons v vs) = more_texts (item_text v) (item_texts vs)

  abbrev pub joined : Option (List Text) → Option Text
  joined none = none
  joined (some ts) = some (join newline ts)

  -- The text of a tool's result.
  unfoldable pub tool_content : Value → Option Text
  tool_content (list vs) = joined (item_texts vs)
  tool_content v = some (if is_truthy v then str repr v else [])

  -- The loop over the blocks of a user's message, with the texts since the last tool result.
  unfoldable pub convert_user_from : List Text → List Block → Option (List OpenaiMessage)
  convert_user_from texts [] = some (flush_text texts)
  convert_user_from texts (text_block t ∷ bs) = convert_user_from (texts ++ t ∷ []) bs
  convert_user_from texts (tool_result_block id content ∷ bs) =
      answer_with id texts (tool_content content) (convert_user_from [] bs)
  convert_user_from texts (thinking_block t ∷ bs) = convert_user_from texts bs
  convert_user_from texts (image_block ∷ bs) = convert_user_from texts bs
  convert_user_from texts (tool_use_block id name input ∷ bs) = convert_user_from texts bs

  abbrev pub convert_message : Bool → Role → Content → Option (List OpenaiMessage)
  convert_message include_reasoning role (plain s) = some (said role s ∷ [])
  convert_message include_reasoning assistant (blocks bs) =
      some (convert_assistant_message include_reasoning bs ∷ [])
  convert_message include_reasoning user (blocks bs) = convert_user_from [] bs

  abbrev pub both :
      Option (List OpenaiMessage) → Option (List OpenaiMessage) → Option (List OpenaiMessage)
  both none rest = none
  both (some ms) none = none
  both (some ms) (some rest) = some (ms ++ rest)

  unfoldable pub convert_messages : Bool → List Message → Option (List OpenaiMessage)
  convert_messages include_reasoning [] = some []
  convert_messages include_reasoning (m ∷ ms) =
      both (convert_message include_reasoning m.role m.content)
        (convert_messages include_reasoning ms)
