-- ===== src/Tests/Streams.antt =====
-- Runs of the think parser, of the builder and of the whole answer.
use liberated_claude_code.Prelude.{
  ℕ, ◌<◌, ◌≡◌, true, false, List, [], ◌∷◌, ◌++◌, Option, none, some, length,
}
use liberated_claude_code.Text.{Text, codes}
use liberated_claude_code.Think
use liberated_claude_code.Think.{ContentChunk, ThinkTagParser, feed, flush}
use liberated_claude_code.Think.Spec.{label_chunks, label_chunk?, split}
use liberated_claude_code.Think.Streaming.{join, feed_all, stream-eq-split, feed_holds_short}
use liberated_claude_code.Sse.Tools.{unset, JsonLib}
use liberated_claude_code.Sse.Builder
use liberated_claude_code.Sse.Protocol.{fresh}
use liberated_claude_code.Sse.Compose.{ensure_text_block-Triple}
use liberated_claude_code.Sse.Close.{Closes, close_all_blocks-Closes}
use liberated_claude_code.Stream.Chunk.{at, Chunk, ToolParser}
use liberated_claude_code.Stream.Response
use liberated_claude_code.Stream.WellFormed.{Agree-new, Answers, stream_response-IsWellFormed}

-- "a<think>b</think>c", cut inside both tags.
abbrev pieces : List Text
pieces = codes "a<thi" ∷ codes "nk>b</" ∷ codes "think>c" ∷ []

stream-eq-split_example :
    (cs : List ContentChunk) × (p : ThinkTagParser) × (feed_all Think.new pieces ≡ some (cs, p))
    × (label_chunks cs ++ label_chunk? (flush p).0 ≡ split 0 false (join pieces))
stream-eq-split_example = stream-eq-split pieces

feed_holds_short_example :
    (r : List ContentChunk × ThinkTagParser) × (feed
        (codes "x</thi")
        (record { buffer = []; in_think_tag = true })
      ≡ some r)
    × (length r.1.buffer < 8)
feed_holds_short_example =
    feed_holds_short (codes "x</thi") (record { buffer = []; in_think_tag = true })

-- Any text is an object with nothing but itself.
abbrev plain_json : JsonLib
plain_json = record { Items = Text; loads = λ t. some (some (unset, t)); dumps = λ p. p.1 }

-- A parser that finds no tool call in the text.
abbrev plain_parser : ToolParser plain_json
plain_parser = record {
  State = Unit {0};
  initial = tt;
  feed = λ t s. (t, [], tt);
  flush = λ s. ([], tt);
}

abbrev uuid : ℕ → Text
uuid n = codes "u"

abbrev said : Chunk
said = record {
  usage = none;
  choice = some (record {
    finish_reason = none;
    delta = some (record {
      reasoning_content = some (codes "hm");
      content = some (codes "hi");
      tool_calls = [];
    });
  });
}

abbrev called : Chunk
called = record {
  usage = some 7;
  choice = some (record {
    finish_reason = some "tool_calls";
    delta = some (record {
      reasoning_content = none;
      content = none;
      tool_calls =
          record {
            index = at 0;
            id = some (codes "t");
            function = some (record { name = some (codes "Task"); arguments = some (codes "{}") });
          }
          ∷ [];
    });
  });
}

-- An encoder that raises on every text.
abbrev strict : Text → Option ℕ
strict t = none

stream_response-IsWellFormed_example : Answers plain_json plain_parser uuid false (some strict) 3 (
    Response.stream_response plain_json plain_parser uuid false
      (some strict)
      3
      (codes "!")
      (said ∷ called ∷ [])
      none)
stream_response-IsWellFormed_example =
    stream_response-IsWellFormed plain_json plain_parser uuid false (some strict) 3 (codes "!")
      (said ∷ called ∷ []) none

abbrev opened : Builder.SseBuilder
opened = (Builder.ensure_text_block (Builder.new 5)).sse

close_all_blocks-Closes_example :
    Closes
      (ensure_text_block-Triple.at (Builder.new 5) fresh (Agree-new 5) tt).0
      opened
      Builder.close_all_blocks
close_all_blocks-Closes_example =
    close_all_blocks-Closes opened
      (ensure_text_block-Triple.at (Builder.new 5) fresh (Agree-new 5) tt).0
      (ensure_text_block-Triple.at (Builder.new 5) fresh (Agree-new 5) tt).2
