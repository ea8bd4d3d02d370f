-- ===== src/Transcript/Render.antt =====
-- messaging/transcript.py: the rendering of the segments and of the buffer. The chat's markup is a
-- parameter, and a method of it that raises is left aside. The order of the names is a parameter.
use liberated_claude_code.Prelude.{
  ℕ, zero, suc, ◌-◌, Bool, true, false, not, ◌&&◌, ◌⊎◌, inl, inr, ◌==◌, List, [], ◌∷◌, ◌++◌, map,
  Option, none, some, ltb, leb, length, drop, if◌then◌else◌,
}
use liberated_claude_code.Text.{Text, codes, join}
use liberated_claude_code.Sse.Tools.{is_empty}
use liberated_claude_code.Transcript.{
  Segment, ToolCallSegment, SubagentSegment, ToolResultSegment, TranscriptBuffer, thinking_segment,
  text_segment, tool_call_segment, tool_result_segment, subagent_segment, error_segment,
}
use liberated_claude_code.Transcript.Subagents.{decimal}

pub record RenderCtx : Type 0 where
  pub bold : Text → Text
  pub code_inline : Text → Text
  pub escape_code : Text → Text
  pub escape_text : Text → Text
  pub render_markdown : Text → Text
  pub thinking_tail_max : Option ℕ
  pub tool_output_tail_max : Option ℕ
  pub text_tail_max : Option ℕ

-- s[-n:] for a number below 0 as well: `n - 3` where n may be less.
unfoldable pub last_of : ℕ → Text → Text
last_of n s = if ltb 3 n then drop (length s - (n - 3)) s else drop (3 - n) s

-- The last characters of a text that is longer than the bound.
unfoldable pub tail_of : Option ℕ → Text → Text
tail_of none raw = raw
tail_of (some n) raw = if ltb n (length raw) then codes "..." ++ last_of n raw else raw

unfoldable pub concat : List Text → Text
concat [] = []
concat (t ∷ ts) = t ++ concat ts

abbrev newline : Text
newline = 10 ∷ []

abbrev fenced : Text → Text
fenced inner = codes "\n```\n" ++ inner ++ codes "\n```"

unfoldable pub spaces : ℕ → Text
spaces zero = []
spaces (suc n) = codes "  " ++ spaces n

abbrev tool_at : ℕ → List ToolCallSegment → Option ToolCallSegment
tool_at n [] = none
tool_at zero (t ∷ ts) = some t
tool_at (suc n) (t ∷ ts) = tool_at n ts

module _ (ctx : RenderCtx) (sorted : List Text → List Text) where
  unfoldable pub render_tool : ToolCallSegment → Text
  render_tool seg =
      spaces seg.indent_level
      ++ codes "🛠 "
      ++ ctx.bold (codes "Tool call:")
      ++ codes " "
      ++ ctx.code_inline seg.name

  abbrev maybe_name : Option Text → Text
  maybe_name none = []
  maybe_name (some []) = []
  maybe_name (some (c ∷ name)) = codes " " ++ ctx.code_inline (c ∷ name)

  unfoldable pub render_result : ToolResultSegment → Text
  render_result seg =
      codes "📤 "
      ++ ctx.bold (if seg.is_error then codes "Tool error:" else codes "Tool result:")
      ++ maybe_name seg.name
      ++ fenced (ctx.escape_code (tail_of ctx.tool_output_tail_max seg.content_text))

  abbrev tool_line : Option ToolCallSegment → List Text
  tool_line none = []
  tool_line (some seg) = let out = render_tool seg in if is_empty out then [] else out ∷ []

  abbrev current : Option ℕ → List ToolCallSegment → Option ToolCallSegment
  current none tools = none
  current (some n) tools = tool_at n tools

  unfoldable pub render_subagent : List ToolCallSegment → SubagentSegment → Text
  render_subagent tools seg = join newline (
      (codes "🤖 " ++ ctx.bold (codes "Subagent:") ++ codes " " ++ ctx.code_inline seg.description)
        ∷ tool_line (current seg.current_tool tools)
      ++ (codes "  "
          ++ ctx.bold (codes "Tools used:")
          ++ codes " "
          ++ ctx.code_inline (codes "{" ++ join (codes ", ") (sorted seg.tools_used) ++ codes "}"))
        ∷ (codes "  "
            ++ ctx.bold (codes "Tool calls:")
            ++ codes " "
            ++ ctx.code_inline (decimal seg.tool_calls))
        ∷ [])

  abbrev shown_tool : Option ToolCallSegment → Text
  shown_tool none = []
  shown_tool (some seg) = render_tool seg

  unfoldable pub render_segment : List ToolCallSegment → Segment → Text
  render_segment tools (thinking_segment parts) =
      codes "💭 "
      ++ ctx.bold (codes "Thinking")
      ++ fenced (ctx.escape_code (tail_of ctx.thinking_tail_max (concat parts)))
  render_segment tools (text_segment parts) =
      ctx.render_markdown (tail_of ctx.text_tail_max (concat parts))
  render_segment tools (tool_call_segment n) = shown_tool (tool_at n tools)
  render_segment tools (tool_result_segment seg) = render_result seg
  render_segment tools (subagent_segment seg) = render_subagent tools seg
  render_segment tools (error_segment message) =
      codes "⚠"
      ++ 65039 ∷ codes " "
      ++ ctx.bold (codes "Error:")
      ++ codes " "
      ++ ctx.code_inline message

  unfoldable pub non_empty : List Text → List Text
  non_empty [] = []
  non_empty (t ∷ ts) = let rest = non_empty ts in if is_empty t then rest else t ∷ rest

  abbrev pub marker : Text
  marker = ctx.escape_text (codes "... (truncated)\n")

  abbrev marked : Bool → Text → Text
  marked add_marker [] = []
  marked true (c ∷ body) = marker ++ c ∷ body
  marked false (c ∷ body) = c ∷ body

  unfoldable pub join_parts : Text → Bool → List Text → Text
  join_parts status_text add_marker parts = marked add_marker (join newline parts) ++ status_text

  abbrev pub status_text_of : Text → Text
  status_text_of [] = []
  status_text_of (c ∷ status) = codes "\n\n" ++ c ∷ status

  -- The oldest parts are dropped until the text fits: the text, or the last part to be dropped.
  unfoldable pub drop_oldest : ℕ → Text → Text → List Text → Text ⊎ Text
  drop_oldest limit status_text last_part [] = inr last_part
  drop_oldest limit status_text last_part (t ∷ ts) =
      let candidate = join_parts status_text true (t ∷ ts) in
      let rest = drop_oldest limit status_text t ts in
      if leb (length candidate) limit then inl candidate else rest

  abbrev lstrip_newlines : Text → Text
  lstrip_newlines [] = []
  lstrip_newlines (c ∷ s) = let rest = lstrip_newlines s in if c == 10 then rest else c ∷ s

  -- The marker and the status alone, or the status alone.
  unfoldable pub fallback : ℕ → Text → Text
  fallback limit status =
      let minimal = marker ++ lstrip_newlines (status_text_of status) in
      if leb (length minimal) limit then minimal else status

  abbrev pub fits_tail : ℕ → Text → Text
  fits_tail budget last_part =
      if ltb budget (length last_part)
      then codes "..." ++ drop (length last_part - (budget - 3)) last_part
      else last_part

  unfoldable pub last_tail : ℕ → Text → Text → Text
  last_tail limit status last_part =
      let budget = limit - length marker - length (status_text_of status) in
      let candidate = marker ++ fits_tail budget last_part ++ status_text_of status in
      if not (is_empty last_part) && ltb 20 budget && leb (length candidate) limit
      then candidate
      else fallback limit status

  abbrev pub dropped_all : ℕ → Text → Text ⊎ Text → Text
  dropped_all limit status (inl candidate) = candidate
  dropped_all limit status (inr last_part) = last_tail limit status last_part

  -- Where no segment is shown, nothing is dropped.
  abbrev pub shorten : ℕ → Text → List Text → Text
  shorten limit status [] = status
  shorten limit status (t ∷ ts) =
      dropped_all limit status (drop_oldest limit (status_text_of status) [] (t ∷ ts))

  -- The segments that show something.
  unfoldable pub rendered : TranscriptBuffer → List Text
  rendered b = non_empty (map (render_segment b.tools) b.segments)

  -- `status` is `[]` where there is none.
  unfoldable pub render : ℕ → Text → TranscriptBuffer → Text
  render limit status b =
      let candidate = join_parts (status_text_of status) false (rendered b) in
      if leb (length candidate) limit then candidate else shorten limit status (rendered b)
