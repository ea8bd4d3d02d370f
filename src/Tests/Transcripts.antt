-- ===== src/Tests/Transcripts.antt =====
-- Runs of the event parser and of the transcript.
use liberated_claude_code.Prelude.{
  ℕ, ◌≡◌, ◌≤◌, ◌<◌, refl, true, false, List, [], ◌∷◌, map, some, arith, length, drop,
}
use liberated_claude_code.Text.{Text, codes, join}
use liberated_claude_code.Json.{Value, null, text, str}
use liberated_claude_code.Events.{
  ParsedEvent, parse_cli_event, text_chunk, text_delta, text_start, tool_use, tool_result,
}
use liberated_claude_code.Events.Written.{
  Block, says, uses, answers, message_event, event_of, parse_cli_event-message_event,
}
use liberated_claude_code.Transcript.{TranscriptBuffer, new, append_part, in_subagent}
use liberated_claude_code.Transcript.Subagents.{subagent_push, subagent_pop}
use liberated_claude_code.Transcript.Apply.{apply, apply_all}
use liberated_claude_code.Transcript
use liberated_claude_code.Transcript.Render.{
  RenderCtx, non_empty, render_segment, tail_of, concat, render, rendered, join_parts,
  status_text_of,
}
use liberated_claude_code.Transcript.Kinds.{IsValid}
use liberated_claude_code.Transcript.Runs.{apply_all-IsValid}
use liberated_claude_code.Transcript.Fits.{render-le, render-longest}
use liberated_claude_code.Transcript.Nested.{subagent_pop-subagent_push}

-- The text of a value that is none.
abbrev unread : Value → Text
unread v = codes "?"

abbrev same : Text → Text
same s = s

abbrev as_given : List Text → List Text
as_given ts = ts

abbrev blocks : List Block
blocks =
    says (codes "Hello")
    ∷ uses (codes " t1 ") (codes "Task") null
    ∷ answers (codes "t1") null false
    ∷ []

parse_cli_event-message_event_example :
    parse_cli_event unread (message_event true blocks) ≡ map event_of blocks
parse_cli_event-message_event_example = parse_cli_event-message_event unread true blocks

abbrev events : List ParsedEvent
events =
    text_start (some 0)
    ∷ text_delta (some 0) (text (codes "Hello"))
    ∷ tool_use (codes "t1") (text (codes "Task")) null
    ∷ tool_use (codes "t2") (text (codes "Read")) null
    ∷ tool_result (codes "t1") null false
    ∷ text_chunk (text (codes "Done"))
    ∷ []

abbrev told : TranscriptBuffer
told = apply_all unread unread same events (new true)

apply_all-IsValid_example : IsValid (apply_all unread unread same events (new true))
apply_all-IsValid_example = apply_all-IsValid unread unread same true events

abbrev plain_ctx : RenderCtx
plain_ctx = record {
  bold = same;
  code_inline = same;
  escape_code = same;
  escape_text = same;
  render_markdown = same;
  thinking_tail_max = some 1000;
  tool_output_tail_max = some 1600;
  text_tail_max = some 2000;
}

render-le_example : length (render plain_ctx as_given 30 (codes "busy") told) ≤ 30
render-le_example = render-le plain_ctx as_given 30 (codes "busy") told (omega arith)

-- Two segments, of which the last fits with the marker.
abbrev two_texts : TranscriptBuffer
two_texts =
    apply_all unread unread same
      (text_chunk (text (codes "a first text that is long"))
        ∷ text_chunk (text (codes "second text"))
        ∷ [])
      (new true)

two_parts :
    rendered plain_ctx as_given two_texts
    ≡ codes "a first text that is long" ∷ codes "second text" ∷ []
unfolding rendered non_empty render_segment apply_all apply Transcript.text_delta append_part
    tail_of concat in_subagent str
two_parts = refl

too_long :
    30
    < length (
        join_parts plain_ctx as_given
          (status_text_of plain_ctx as_given [])
          false
          (rendered plain_ctx as_given two_texts))
unfolding join_parts join
too_long = rw two_parts (omega arith)

last_fits :
    length (
      join_parts plain_ctx as_given
        (status_text_of plain_ctx as_given [])
        true
        (drop 1 (rendered plain_ctx as_given two_texts)))
    ≤ 30
unfolding join_parts join
last_fits = rw two_parts (omega arith)

render-longest_example :
    (i : ℕ) × ((i ≤ 1)
      × (render plain_ctx as_given 30 [] two_texts
          ≡ join_parts plain_ctx as_given
              (status_text_of plain_ctx as_given [])
              true
              (drop i (rendered plain_ctx as_given two_texts))))
render-longest_example =
    render-longest plain_ctx as_given 30 [] two_texts 1 too_long (rw two_parts (omega arith))
      last_fits

subagent_pop-subagent_push_example :
    subagent_pop (codes " ") (subagent_push (codes " ") 0 (new true)) ≡ (new true, true)
subagent_pop-subagent_push_example = subagent_pop-subagent_push (codes " ") 0 (new true)
