-- ===== src/Events.antt =====
-- messaging/event_parser.py: `parse_cli_event`. The text of a value that is no text is a parameter.
-- The index of an event is read as a number at once: `none` is an index below 0, or none at all.
pub mod Written
use liberated_claude_code.Prelude.{
  ℕ, zero, suc, Bool, true, false, not, ◌&&◌, ◌||◌, String, List, [], ◌∷◌, ◌++◌, Option, none, some,
  if◌then◌else◌,
}
use liberated_claude_code.Text.{Text, codes}
use liberated_claude_code.Errors.{strip}
use liberated_claude_code.Json
use liberated_claude_code.Json.{
  Value, Items, Fields, null, num, negative, fraction, text, list, object, nil, cons, end, field,
  get, get_or, is_truthy, is_text, or_null, str, str_or_empty,
}

-- The dictionaries that the parser returns, and those that the transcript sends to itself.
pub data ParsedEvent : Type 0 where
  thinking_start text_start thinking_stop text_stop tool_use_stop block_stop :
      Option ℕ → ParsedEvent
  thinking_delta text_delta tool_use_delta : Option ℕ → Value → ParsedEvent
  thinking_chunk text_chunk : Value → ParsedEvent
  tool_use_start : Option ℕ → Text → Value → Value → ParsedEvent
  tool_use : Text → Value → Value → ParsedEvent
  tool_result : Text → Value → Bool → ParsedEvent
  error : Value → ParsedEvent
  complete : Bool → ParsedEvent

abbrev empty : Value
empty = text []

-- event.get("index", -1)
abbrev as_index : Option Value → Option ℕ
as_index (some (num n)) = some n
as_index _ = none

unfoldable pub index_of : Fields → Option ℕ
index_of event = as_index (get "index" event)

-- isinstance(value, list)
abbrev as_list : Value → Option Items
as_list (list xs) = some xs
as_list _ = none

abbrev as_object : Value → Option Fields
as_object (object d) = some d
as_object _ = none

-- `not msg_obj and isinstance(content, list)`: the content as a message.
abbrev content_as_message : Value → Option Value → Value
content_as_message msg (some (list xs)) =
    if is_truthy msg then msg else object (field "content" (list xs) end)
content_as_message msg _ = msg

abbrev message_in : Value → Value
message_in (object res) = content_as_message (or_null (get "message" res)) (get "content" res)
message_in _ = null

-- The message of a "result" event, in the places where it may stand.
unfoldable pub result_message : Fields → Value
result_message event =
    let inner = message_in (or_null (get "result" event)) in
    let msg = if is_truthy inner then inner else or_null (get "message" event) in
    content_as_message msg (get "content" event)

abbrev type_of : Fields → Value
type_of event = or_null (get "type" event)

unfoldable pub message_object : Fields → Value
message_object event =
    if is_text "assistant" (type_of event) || is_text "user" (type_of event)
    then or_null (get "message" event)
    else if is_text "result" (type_of event)
    then result_message event
    else null

module _ (repr : Value → Text) where
  -- `str(value or "").strip()`
  abbrev clean : Value → Text
  clean v = strip (str_or_empty repr v)

  -- One content block of a message.
  unfoldable pub parse_block : Fields → List ParsedEvent
  parse_block c =
      let ctype = type_of c in
      if is_text "text" ctype
      then text_chunk (get_or "text" empty c) ∷ []
      else if is_text "thinking" ctype
      then thinking_chunk (get_or "thinking" empty c) ∷ []
      else if is_text "tool_use" ctype
      then tool_use (clean (get_or "id" empty c)) (get_or "name" empty c) (or_null (get "input" c))
        ∷ []
      else if is_text "tool_result" ctype
      then tool_result (clean (get_or "tool_use_id" empty c)) (or_null (get "content" c))
          (is_truthy (or_null (get "is_error" c)))
        ∷ []
      else []

  abbrev parse_item : Value → List ParsedEvent
  parse_item (object c) = parse_block c
  parse_item _ = []

  -- The content blocks of a message, in their order; what is no dictionary is passed over.
  unfoldable pub parse_items : Items → List ParsedEvent
  parse_items nil = []
  parse_items (cons v vs) = parse_item v ++ parse_items vs

  abbrev parse_content : Value → List ParsedEvent
  parse_content (list xs) = parse_items xs
  parse_content _ = []

  abbrev parse_message : Value → List ParsedEvent
  parse_message (object msg) = parse_content (get_or "content" (list nil) msg)
  parse_message _ = []

  abbrev parse_delta : Option ℕ → Value → List ParsedEvent
  parse_delta index (object delta) =
      if is_text "text_delta" (type_of delta)
      then text_delta index (get_or "text" empty delta) ∷ []
      else if is_text "thinking_delta" (type_of delta)
      then thinking_delta index (get_or "thinking" empty delta) ∷ []
      else if is_text "input_json_delta" (type_of delta)
      then tool_use_delta index (get_or "partial_json" empty delta) ∷ []
      else []
  parse_delta index _ = []

  abbrev parse_start : Option ℕ → Value → List ParsedEvent
  parse_start index (object block) =
      if is_text "thinking" (type_of block)
      then thinking_start index ∷ []
      else if is_text "text" (type_of block)
      then text_start index ∷ []
      else if is_text "tool_use" (type_of block)
      then tool_use_start index (clean (get_or "id" empty block)) (get_or "name" empty block)
          (or_null (get "input" block))
        ∷ []
      else []
  parse_start index _ = []

  abbrev error_message : Value → Value
  error_message (object err) = or_null (get "message" err)
  error_message v = text (str repr v)

  abbrev is_zero : Value → Bool
  is_zero (num zero) = true
  is_zero (Value.bool false) = true
  is_zero (fraction zero_valued t) = zero_valued
  is_zero _ = false

  -- An exit code of 0 is a success; any other is an error with the text of `stderr`, if there is one.
  unfoldable pub parse_exit : Fields → List ParsedEvent
  parse_exit event =
      let code = get_or "code" (num 0) event in
      let stderr = or_null (get "stderr" event) in
      if is_zero code
      then complete true ∷ []
      else error (
          if is_truthy stderr
          then stderr
          else text (codes "Process exited with code " ++ str repr code))
        ∷ complete false
        ∷ []

  -- The branches after the messages.
  unfoldable pub parse_other : Fields → List ParsedEvent
  parse_other event =
      let etype = type_of event in
      if is_text "content_block_delta" etype
      then parse_delta (index_of event) (get_or "delta" (object end) event)
      else if is_text "content_block_start" etype
      then parse_start (index_of event) (get_or "content_block" (object end) event)
      else if is_text "content_block_stop" etype
      then block_stop (index_of event) ∷ []
      else if is_text "error" etype
      then error (error_message (or_null (get "error" event))) ∷ []
      else if is_text "exit" etype
      then parse_exit event
      else []

  abbrev pub or_parse : List ParsedEvent → List ParsedEvent → List ParsedEvent
  or_parse [] others = others
  or_parse (e ∷ es) others = e ∷ es

  -- What is no dictionary, and a "system" event, holds nothing.
  unfoldable pub parse_cli_event : Value → List ParsedEvent
  parse_cli_event (object event) =
      if is_text "system" (type_of event)
      then []
      else or_parse (parse_message (message_object event)) (parse_other event)
  parse_cli_event _ = []
