-- ===== src/Convert/Kept.antt =====
-- providers/common/message_converter.py: the tool calls and tool results of a request.
use liberated_claude_code.Prelude.{
  ◌≡◌, refl, sym, ap, ◌∙◌, Bool, true, false, ◌&&◌, List, [], ◌∷◌, ◌++◌, append_assoc, append-nil,
  Option, none, some, some_eq, none≢some, is_some, if◌then◌else◌,
}
use liberated_claude_code.Text.{Text, join}
use liberated_claude_code.Sse.Tools.{is_empty}
use liberated_claude_code.Json.{Value}
use liberated_claude_code.Dict.{map_opt}
use liberated_claude_code.Convert.{
  Role, user, assistant, Block, text_block, thinking_block, image_block, tool_use_block,
  tool_result_block, Content, plain, blocks, Message, ToolCall, OpenaiMessage, said, answered, tool,
  system, flush_text, answer_with, content_or_space, blank_line, tool_calls, content_parts,
  convert_assistant_message, tool_content, convert_user_from, convert_message, both,
  convert_messages,
}
use liberated_claude_code.Convert.Readable.{readable_result, is_some-tool_content}

-- A tool call or a tool result, by its id.
pub data Mark : Type 0 where
  called resulted : Text → Mark

abbrev pub calls : List ToolCall → List Mark
calls [] = []
calls (c ∷ cs) = called c.id ∷ calls cs

-- The marks of the messages that go out, in order.
abbrev pub marks_out : List OpenaiMessage → List Mark
marks_out [] = []
marks_out (said role t ∷ ms) = marks_out ms
marks_out (system t ∷ ms) = marks_out ms
marks_out (answered t cs reasoning ∷ ms) = calls cs ++ marks_out ms
marks_out (tool id t ∷ ms) = resulted id ∷ marks_out ms

-- The ids of the tool calls in an assistant's message, and of the tool results in a user's.
abbrev pub calls_in : List Block → List Mark
calls_in [] = []
calls_in (tool_use_block id name input ∷ bs) = called id ∷ calls_in bs
calls_in (text_block t ∷ bs) = calls_in bs
calls_in (thinking_block t ∷ bs) = calls_in bs
calls_in (image_block ∷ bs) = calls_in bs
calls_in (tool_result_block id content ∷ bs) = calls_in bs

abbrev pub results_in : List Block → List Mark
results_in [] = []
results_in (tool_result_block id content ∷ bs) = resulted id ∷ results_in bs
results_in (text_block t ∷ bs) = results_in bs
results_in (thinking_block t ∷ bs) = results_in bs
results_in (image_block ∷ bs) = results_in bs
results_in (tool_use_block id name input ∷ bs) = results_in bs

abbrev pub marks_of : Role → Content → List Mark
marks_of role (plain t) = []
marks_of assistant (blocks bs) = calls_in bs
marks_of user (blocks bs) = results_in bs

abbrev pub marks_in : List Message → List Mark
marks_in [] = []
marks_in (m ∷ ms) = marks_of m.role m.content ++ marks_in ms

marks_out-append :
    (xs ys : List OpenaiMessage) → marks_out (xs ++ ys) ≡ marks_out xs ++ marks_out ys
marks_out-append [] ys = refl
marks_out-append (said role t ∷ xs) ys = marks_out-append xs ys
marks_out-append (system t ∷ xs) ys = marks_out-append xs ys
marks_out-append (answered t cs r ∷ xs) ys =
    ap (λ ms. calls cs ++ ms) (marks_out-append xs ys)
    ∙ sym (append_assoc (calls cs) (marks_out xs) (marks_out ys))
marks_out-append (tool id t ∷ xs) ys = ap (λ ms. resulted id ∷ ms) (marks_out-append xs ys)

marks_out-flush_text :
    (texts : List Text) (ms : List OpenaiMessage)
    → marks_out (flush_text texts ++ ms) ≡ marks_out ms
marks_out-flush_text [] ms = refl
marks_out-flush_text (t ∷ ts) ms = refl

abbrev pub no_calls : List ToolCall → Bool
no_calls [] = true
no_calls (c ∷ cs) = false

content_or_space_lem :
    (s : Text) (cs : List ToolCall) → (is_empty (content_or_space s cs) && no_calls cs) ≡ false
content_or_space_lem [] [] = refl
content_or_space_lem [] (c ∷ cs) = refl
content_or_space_lem (c ∷ s) cs = refl

-- The tool results among these blocks are readable.
abbrev pub readable : List Block → Bool
readable [] = true
readable (tool_result_block id content ∷ bs) = readable_result content && readable bs
readable (text_block t ∷ bs) = readable bs
readable (thinking_block t ∷ bs) = readable bs
readable (image_block ∷ bs) = readable bs
readable (tool_use_block id name input ∷ bs) = readable bs

abbrev pub readable_content : Role → Content → Bool
readable_content role (plain t) = true
readable_content assistant (blocks bs) = true
readable_content user (blocks bs) = readable bs

abbrev pub all_readable : List Message → Bool
all_readable [] = true
all_readable (m ∷ ms) = readable_content m.role m.content && all_readable ms

module _ (repr : Value → Text) (dumps : Value → Text) where
  marks_out-answer_with :
      (id : Text) (texts : List Text) (o : Option Text) (rest : Option (List OpenaiMessage))
      (r : Bool) (ms : List Mark)
      → map_opt marks_out rest ≡ (if r then some ms else none)
      → map_opt marks_out (answer_with id texts o rest)
        ≡ (if is_some o && r then some (resulted id ∷ ms) else none)
  marks_out-answer_with id texts none rest r ms h = refl
  marks_out-answer_with id texts (some c) none true ms h = absurd (none≢some h)
  marks_out-answer_with id texts (some c) none false ms h = refl
  marks_out-answer_with id texts (some c) (some xs) true ms h =
      ap some
        (marks_out-flush_text texts (tool id c ∷ xs) ∙ ap (λ ns. resulted id ∷ ns) (some_eq h))
  marks_out-answer_with id texts (some c) (some xs) false ms h = absurd (none≢some (sym h))

  marks_out-both :
      (o rest : Option (List OpenaiMessage)) (a b : Bool) (ms ns : List Mark)
      → map_opt marks_out o ≡ (if a then some ms else none)
      → map_opt marks_out rest ≡ (if b then some ns else none)
      → map_opt marks_out (both repr dumps o rest) ≡ (if a && b then some (ms ++ ns) else none)
  marks_out-both none rest true b ms ns h k = absurd (none≢some h)
  marks_out-both none rest false b ms ns h k = refl
  marks_out-both (some xs) rest false b ms ns h k = absurd (none≢some (sym h))
  marks_out-both (some xs) none true true ms ns h k = absurd (none≢some k)
  marks_out-both (some xs) none true false ms ns h k = refl
  marks_out-both (some xs) (some ys) true false ms ns h k = absurd (none≢some (sym k))
  marks_out-both (some xs) (some ys) true true ms ns h k = ap some (
      marks_out-append xs ys
      ∙ ap (λ l. l ++ marks_out ys) (some_eq h)
      ∙ ap (λ l. ms ++ l) (some_eq k))

  marks_out-convert_user_from :
      (texts : List Text) (bs : List Block)
      → map_opt marks_out (convert_user_from repr dumps texts bs)
        ≡ (if readable bs then some (results_in bs) else none)
  unfolding convert_user_from
  marks_out-convert_user_from texts [] =
      ap some (ap marks_out (sym (append-nil (flush_text texts))) ∙ marks_out-flush_text texts [])
  marks_out-convert_user_from texts (text_block t ∷ bs) =
      marks_out-convert_user_from (texts ++ t ∷ []) bs
  marks_out-convert_user_from texts (thinking_block t ∷ bs) = marks_out-convert_user_from texts bs
  marks_out-convert_user_from texts (image_block ∷ bs) = marks_out-convert_user_from texts bs
  marks_out-convert_user_from texts (tool_use_block id name input ∷ bs) =
      marks_out-convert_user_from texts bs
  marks_out-convert_user_from texts (tool_result_block id content ∷ bs) =
      marks_out-answer_with id texts (tool_content repr dumps content)
        (convert_user_from repr dumps [] bs) (readable bs) (results_in bs)
        (marks_out-convert_user_from [] bs)
      ∙ ap (λ b. if b && readable bs then some (resulted id ∷ results_in bs) else none)
          (is_some-tool_content repr dumps content)

  calls-tool_calls : (bs : List Block) → calls (tool_calls repr dumps bs) ≡ calls_in bs
  calls-tool_calls [] = refl
  calls-tool_calls (tool_use_block id name input ∷ bs) =
      ap (λ ms. called id ∷ ms) (calls-tool_calls bs)
  calls-tool_calls (text_block t ∷ bs) = calls-tool_calls bs
  calls-tool_calls (thinking_block t ∷ bs) = calls-tool_calls bs
  calls-tool_calls (image_block ∷ bs) = calls-tool_calls bs
  calls-tool_calls (tool_result_block id content ∷ bs) = calls-tool_calls bs

  marks_out-convert_message :
      (inc : Bool) (role : Role) (content : Content)
      → map_opt marks_out (convert_message repr dumps inc role content)
        ≡ (if readable_content role content then some (marks_of role content) else none)
  unfolding convert_assistant_message
  marks_out-convert_message inc role (plain t) = refl
  marks_out-convert_message inc assistant (blocks bs) =
      ap some (append-nil (calls (tool_calls repr dumps bs)) ∙ calls-tool_calls bs)
  marks_out-convert_message inc user (blocks bs) = marks_out-convert_user_from [] bs

  -- The conversion of messages fails exactly where a list that a tool gave as its result has an
  -- object whose last entry under "text" is no text. Otherwise the messages that go out call the same tools as the
  -- assistant's blocks and answer the same calls as the user's blocks, by id, each once and in the
  -- same order.
  pub marks_out-convert_messages :
      (include_reasoning : Bool) (ms : List Message)
      → map_opt marks_out (convert_messages repr dumps include_reasoning ms)
        ≡ (if all_readable ms then some (marks_in ms) else none)
  unfolding convert_messages
  marks_out-convert_messages inc [] = refl
  marks_out-convert_messages inc (m ∷ ms) =
      marks_out-both (convert_message repr dumps inc m.role m.content)
        (convert_messages repr dumps inc ms) (readable_content m.role m.content) (all_readable ms)
        (marks_of m.role m.content) (marks_in ms) (marks_out-convert_message inc m.role m.content)
        (marks_out-convert_messages inc ms)

  -- A message with nothing in it.
  abbrev pub is_blank : OpenaiMessage → Bool
  is_blank (answered t calls reasoning) = is_empty t && no_calls calls
  is_blank (said role t) = is_empty t
  is_blank (tool id t) = is_empty t
  is_blank (system t) = is_empty t

  -- Whatever blocks the assistant's message has, or none at all: the converted message has a content
  -- that is not empty, or a tool call.
  pub is_blank-convert_assistant_message :
      (include_reasoning : Bool) (bs : List Block)
      → is_blank (convert_assistant_message repr dumps include_reasoning bs) ≡ false
  unfolding convert_assistant_message
  is_blank-convert_assistant_message inc bs =
      content_or_space_lem (join blank_line (content_parts repr dumps bs))
        (tool_calls repr dumps bs)
