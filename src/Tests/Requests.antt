-- ===== src/Tests/Requests.antt =====
-- Runs of the conversion of requests.
use liberated_claude_code.Prelude.{◌≡◌, true, false, List, [], ◌∷◌, none, some, if◌then◌else◌}
use liberated_claude_code.Text.{Text, codes}
use liberated_claude_code.Json.{Value, text, end}
use liberated_claude_code.Dict.{map_opt}
use liberated_claude_code.Convert.{
  user, assistant, text_block, tool_use_block, tool_result_block, blocks, Message, convert_messages,
  convert_assistant_message,
}
use liberated_claude_code.Convert.Kept.{
  marks_out, marks_in, all_readable, is_blank, marks_out-convert_messages,
  is_blank-convert_assistant_message,
}

abbrev printed : Value → Text
printed v = codes "{}"

-- A tool call and its result between texts.
abbrev talk : List Message
talk =
    record {
      role = assistant;
      content =
          blocks (
            text_block (codes "Let me see.") ∷ tool_use_block (codes "t1") (codes "Read") end ∷ []);
    }
    ∷ record {
      role = user;
      content = blocks (
          text_block (codes "Yes")
          ∷ tool_result_block (codes "t1") (text (codes "ok"))
          ∷ text_block (codes "Go on")
          ∷ []);
    }
    ∷ []

marks_out-convert_messages_example :
    map_opt marks_out (convert_messages printed printed false talk)
    ≡ (if all_readable talk then some (marks_in talk) else none)
marks_out-convert_messages_example = marks_out-convert_messages printed printed false talk

is_blank-convert_assistant_message_example :
    is_blank printed printed (convert_assistant_message printed printed true (text_block [] ∷ []))
    ≡ false
is_blank-convert_assistant_message_example =
    is_blank-convert_assistant_message printed printed true (text_block [] ∷ [])
