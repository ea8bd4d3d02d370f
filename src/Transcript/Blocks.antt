-- ===== src/Transcript/Blocks.antt =====
-- messaging/transcript.py: the content blocks, and what the buffer's positions name.
use liberated_claude_code.Prelude.{
  ℕ, ◌<◌, ◌≡◌, refl, ap, ◌∙◌, Bool, true, false, List, [], ◌∷◌, ◌++◌, Option, none, some, length,
  arith, is_some, if◌then◌else◌,
}
use liberated_claude_code.Text.{Text}
use liberated_claude_code.Transcript.{
  Segment, ToolCallSegment, TranscriptBuffer, Indices, thinking_segment, text_segment, modify_at,
  append_part, add_segment, thinking_stop, text_stop, tool_use_stop, block_stop, thinking_start,
  text_start, thinking_delta, text_delta, open_at, found_at, drop_at, append_thinking, append_text,
  close_tool, close_previous,
}
use liberated_claude_code.Transcript.Kinds.{
  Kind, thinking, plain, subagent, kind, kind_at, AllAt, AllBelow, positions, IsValid,
  kind_at-length, AllAt-append, AllAt-modify_at, AllAt-pop_index, AllBelow-pop_index, AllBelow-le,
  length-modify_at, kind-append_part,
}

AllAt-drop_at :
    (k : Kind) (segs : List Segment) (idx : Option ℕ) (d : Indices)
    → AllAt k segs (positions d)
    → AllAt k segs (positions (drop_at idx d))
AllAt-drop_at k segs none d h = h
AllAt-drop_at k segs (some i) d h = AllAt-pop_index k segs i d h

AllAt-open_at :
    (k : Kind) (segs : List Segment) (idx : Option ℕ) (n : ℕ) (d : Indices)
    → kind_at segs n ≡ some k
    → AllAt k segs (positions d)
    → AllAt k segs (positions (open_at idx n d))
AllAt-open_at k segs none n d e h = h
AllAt-open_at k segs (some i) n d e h = (e, AllAt-pop_index k segs i d h)

AllBelow-drop_at :
    (bound : ℕ) (idx : Option ℕ) (d : Indices)
    → AllBelow bound (positions d)
    → AllBelow bound (positions (drop_at idx d))
AllBelow-drop_at bound none d h = h
AllBelow-drop_at bound (some i) d h = AllBelow-pop_index bound i d h

pub AllBelow-open_at :
    (bound : ℕ) (idx : Option ℕ) (n : ℕ) (d : Indices)
    → n < bound
    → AllBelow bound (positions d)
    → AllBelow bound (positions (open_at idx n d))
AllBelow-open_at bound none n d e h = h
AllBelow-open_at bound (some i) n d e h = (e, AllBelow-pop_index bound i d h)

length-close_tool :
    (o : Option ℕ) (tools : List ToolCallSegment) → length (close_tool o tools) ≡ length tools
length-close_tool none tools = refl
length-close_tool (some n) tools = length-modify_at n (λ seg. record seg { closed = true }) tools

pub add_segment-IsValid :
    (s : Segment) {b : TranscriptBuffer} → IsValid b → IsValid (add_segment s b)
add_segment-IsValid s {b} v = record {
  subagents = AllAt-append subagent b.segments s b.subagent_segments v.subagents;
  open_thinking =
      AllAt-append thinking b.segments s (positions b.open_thinking_by_index) v.open_thinking;
  open_text = AllAt-append plain b.segments s (positions b.open_text_by_index) v.open_text;
  same_depth = v.same_depth;
  open_tools = v.open_tools;
}

pub modify_at-IsValid :
    (f : Segment → Segment) (same : (s : Segment) → kind (f s) ≡ kind s) (n : ℕ)
    {b : TranscriptBuffer}
    → IsValid b
    → IsValid (record b { segments = modify_at n f b.segments })
modify_at-IsValid f same n {b} v = record {
  subagents = AllAt-modify_at f same subagent b.segments n b.subagent_segments v.subagents;
  open_thinking =
      AllAt-modify_at f same thinking b.segments n (positions b.open_thinking_by_index)
        v.open_thinking;
  open_text =
      AllAt-modify_at f same plain b.segments n (positions b.open_text_by_index) v.open_text;
  same_depth = v.same_depth;
  open_tools = v.open_tools;
}

pub thinking_stop-IsValid :
    (idx : Option ℕ) {b : TranscriptBuffer} → IsValid b → IsValid (thinking_stop idx b)
unfolding thinking_stop
thinking_stop-IsValid idx {b} v = record {
  open_thinking = AllAt-drop_at thinking b.segments idx b.open_thinking_by_index v.open_thinking;
  same_depth = v.same_depth;
  subagents = v.subagents;
  open_text = v.open_text;
  open_tools = v.open_tools;
}

pub text_stop-IsValid :
    (idx : Option ℕ) {b : TranscriptBuffer} → IsValid b → IsValid (text_stop idx b)
unfolding text_stop
text_stop-IsValid idx {b} v = record {
  open_text = AllAt-drop_at plain b.segments idx b.open_text_by_index v.open_text;
  same_depth = v.same_depth;
  subagents = v.subagents;
  open_thinking = v.open_thinking;
  open_tools = v.open_tools;
}

pub close_tool-IsValid :
    (o : Option ℕ) {b : TranscriptBuffer}
    → IsValid b
    → IsValid (record b { tools = close_tool o b.tools })
close_tool-IsValid o {b} v = record {
  open_tools =
      AllBelow-le (length b.tools) (length (close_tool o b.tools)) (positions b.open_tools_by_index)
        (omega (arith, length-close_tool o b.tools)) v.open_tools;
  same_depth = v.same_depth;
  subagents = v.subagents;
  open_thinking = v.open_thinking;
  open_text = v.open_text;
}

pub tool_use_stop-IsValid :
    (idx : Option ℕ) {b : TranscriptBuffer} → IsValid b → IsValid (tool_use_stop idx b)
unfolding tool_use_stop
tool_use_stop-IsValid idx {b} v =
    close_tool-IsValid (found_at idx b.open_tools_by_index)
      {b = record b { open_tools_by_index = drop_at idx b.open_tools_by_index }}
      (record {
        same_depth = v.same_depth;
        subagents = v.subagents;
        open_thinking = v.open_thinking;
        open_text = v.open_text;
        open_tools = AllBelow-drop_at (length b.tools) idx b.open_tools_by_index v.open_tools;
      })

pub if-IsValid :
    (t : Bool) {b c : TranscriptBuffer} → IsValid b → IsValid c → IsValid (if t then b else c)
if-IsValid true v w = v
if-IsValid false v w = w

pub block_stop-IsValid :
    (idx : Option ℕ) {b : TranscriptBuffer} → IsValid b → IsValid (block_stop idx b)
unfolding block_stop
block_stop-IsValid idx {b} v =
    if-IsValid (is_some (found_at idx b.open_tools_by_index)) (tool_use_stop-IsValid idx v) (
      if-IsValid (is_some (found_at idx b.open_thinking_by_index)) (thinking_stop-IsValid idx v)
        (if-IsValid (is_some (found_at idx b.open_text_by_index)) (text_stop-IsValid idx v) v))

pub close_previous-IsValid :
    (idx : Option ℕ) {b : TranscriptBuffer} → IsValid b → IsValid (close_previous idx b)
close_previous-IsValid none v = v
close_previous-IsValid (some i) v = block_stop-IsValid (some i) v

-- A new segment, open under the index.
open_thinking-IsValid :
    (idx : Option ℕ) (s : Segment) {b : TranscriptBuffer}
    → kind s ≡ thinking
    → IsValid b
    → IsValid (record (add_segment s b) {
      open_thinking_by_index = open_at idx (length b.segments) b.open_thinking_by_index;
    })
open_thinking-IsValid idx s {b} e v =
    let w = (add_segment-IsValid s v) in
    record {
      open_thinking =
          AllAt-open_at thinking (b.segments ++ s ∷ []) idx (length b.segments)
            b.open_thinking_by_index (kind_at-length b.segments s ∙ ap some e)
            (AllAt-append thinking b.segments s (positions b.open_thinking_by_index)
              v.open_thinking);
      same_depth = w.same_depth;
      subagents = w.subagents;
      open_text = w.open_text;
      open_tools = w.open_tools;
    }

open_text-IsValid :
    (idx : Option ℕ) (s : Segment) {b : TranscriptBuffer}
    → kind s ≡ plain
    → IsValid b
    → IsValid (record (add_segment s b) {
      open_text_by_index = open_at idx (length b.segments) b.open_text_by_index;
    })
open_text-IsValid idx s {b} e v =
    let w = (add_segment-IsValid s v) in
    record {
      open_text =
          AllAt-open_at plain (b.segments ++ s ∷ []) idx (length b.segments) b.open_text_by_index
            (kind_at-length b.segments s ∙ ap some e)
            (AllAt-append plain b.segments s (positions b.open_text_by_index) v.open_text);
      same_depth = w.same_depth;
      subagents = w.subagents;
      open_thinking = w.open_thinking;
      open_tools = w.open_tools;
    }

pub thinking_start-IsValid :
    (idx : Option ℕ) {b : TranscriptBuffer} → IsValid b → IsValid (thinking_start idx b)
unfolding thinking_start
thinking_start-IsValid idx v =
    open_thinking-IsValid idx (thinking_segment []) refl (close_previous-IsValid idx v)

pub text_start-IsValid :
    (idx : Option ℕ) {b : TranscriptBuffer} → IsValid b → IsValid (text_start idx b)
unfolding text_start
text_start-IsValid idx v =
    open_text-IsValid idx (text_segment []) refl (close_previous-IsValid idx v)

append_thinking-IsValid :
    (idx o : Option ℕ) (t : Text) {b : TranscriptBuffer}
    → IsValid b
    → IsValid (append_thinking idx o t b)
append_thinking-IsValid idx (some n) t v =
    modify_at-IsValid (append_part t) (kind-append_part t) n v
append_thinking-IsValid idx none t v =
    open_thinking-IsValid idx (append_part t (thinking_segment []))
      (kind-append_part t (thinking_segment [])) v

append_text-IsValid :
    (idx o : Option ℕ) (t : Text) {b : TranscriptBuffer}
    → IsValid b
    → IsValid (append_text idx o t b)
append_text-IsValid idx (some n) t v = modify_at-IsValid (append_part t) (kind-append_part t) n v
append_text-IsValid idx none t v =
    open_text-IsValid idx (append_part t (text_segment [])) (kind-append_part t (text_segment [])) v

pub thinking_delta-IsValid :
    (idx : Option ℕ) (t : Text) {b : TranscriptBuffer}
    → IsValid b
    → IsValid (thinking_delta idx t b)
unfolding thinking_delta
thinking_delta-IsValid idx t {b} v =
    append_thinking-IsValid idx (found_at idx b.open_thinking_by_index) t v

pub text_delta-IsValid :
    (idx : Option ℕ) (t : Text) {b : TranscriptBuffer} → IsValid b → IsValid (text_delta idx t b)
unfolding text_delta
text_delta-IsValid idx t {b} v = append_text-IsValid idx (found_at idx b.open_text_by_index) t v
