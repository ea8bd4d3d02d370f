-- ===== src/Events/Written.antt =====
-- messaging/event_parser.py: the messages whose blocks are known, and their events.
use liberated_claude_code.Prelude.{
  ◌≡◌, refl, ap, Bool, true, false, List, [], ◌∷◌, map, if◌then◌else◌,
}
use liberated_claude_code.Text.{Text, codes, starts_with}
use liberated_claude_code.Errors.{strip}
use liberated_claude_code.Json.{
  Value, Items, text, list, object, nil, cons, end, field, get, get_or, is_text, is_truthy, str,
  str_or_empty,
}
use liberated_claude_code.Events.{
  ParsedEvent, thinking_chunk, text_chunk, tool_use, tool_result, message_object, parse_block,
  parse_items, parse_other, parse_cli_event, or_parse,
}

-- The content blocks of a message.
pub data Block : Type 0 where
  says thinks : Text → Block
  uses : Text → Text → Value → Block
  answers : Text → Value → Bool → Block

-- A block as the client writes it.
unfoldable pub written : Block → Value
written (says t) = object (field "type" (text (codes "text")) (field "text" (text t) end))
written (thinks t) = object (field "type" (text (codes "thinking")) (field "thinking" (text t) end))
written (uses id name inp) = object (
    field "type" (text (codes "tool_use"))
      (field "id" (text id) (field "name" (text name) (field "input" inp end))))
written (answers id content is_error) = object (
    field "type" (text (codes "tool_result")) (
      field "tool_use_id" (text id)
        (field "content" content (field "is_error" (Value.bool is_error) end))))

-- The event of a block; an id stands there without white space around it.
unfoldable pub event_of : Block → ParsedEvent
event_of (says t) = text_chunk (text t)
event_of (thinks t) = thinking_chunk (text t)
event_of (uses id name inp) = tool_use (strip id) (text name) inp
event_of (answers id content is_error) = tool_result (strip id) content is_error

unfoldable pub all_written : List Block → Items
all_written [] = nil
all_written (b ∷ bs) = cons (written b) (all_written bs)

-- An event of the type "assistant" or "user" that carries the blocks.
unfoldable pub message_event : Bool → List Block → Value
message_event assistant bs = object (
    field "type" (text (if assistant then codes "assistant" else codes "user"))
      (field "message" (object (field "content" (list (all_written bs)) end)) end))

module _ (repr : Value → Text) where
  str_or_empty-text : (t : Text) → str_or_empty repr (text t) ≡ t
  unfolding str_or_empty is_truthy str
  str_or_empty-text [] = refl
  str_or_empty-text (c ∷ t) = refl

  parse_items-all_written : (bs : List Block) → parse_items repr (all_written bs) ≡ map event_of bs
  unfolding parse_items parse_block get get_or is_text written event_of is_truthy starts_with
      all_written
  parse_items-all_written [] = refl
  parse_items-all_written (says t ∷ bs) =
      ap (λ es. text_chunk (text t) ∷ es) (parse_items-all_written bs)
  parse_items-all_written (thinks t ∷ bs) =
      ap (λ es. thinking_chunk (text t) ∷ es) (parse_items-all_written bs)
  parse_items-all_written (uses id name inp ∷ bs) =
      rw (str_or_empty-text, parse_items-all_written bs)
  parse_items-all_written (answers id content is_error ∷ bs) =
      rw (str_or_empty-text, parse_items-all_written bs)

  or_parse_filled : (bs : List Block) → or_parse repr (map event_of bs) [] ≡ map event_of bs
  or_parse_filled [] = refl
  or_parse_filled (b ∷ bs) = refl

  -- A message of the assistant or of the user, with any number of blocks of text, thinking, tool
  -- calls and tool results in any order, is read as one event per block, in the same order, each
  -- with its block's text, id, name, input or content; an id without the white space around it.
  pub parse_cli_event-message_event :
      (assistant : Bool) (bs : List Block)
      → parse_cli_event repr (message_event assistant bs) ≡ map event_of bs
  unfolding parse_cli_event message_event message_object parse_other is_text get get_or starts_with
      is_truthy
  parse_cli_event-message_event true bs = rw (parse_items-all_written bs, or_parse_filled bs)
  parse_cli_event-message_event false bs = rw (parse_items-all_written bs, or_parse_filled bs)
