-- ===== src/Tests/Heuristics.antt =====
-- Runs of the parser of tool calls in text.
use liberated_claude_code.Prelude.{ℕ, ◌≡◌, refl, true, List, [], ◌∷◌, some, arith}
use liberated_claude_code.Text.{Text, codes, starts_with, find}
use liberated_claude_code.Errors.{lstrip, rstrip, strip, is_space}
use liberated_claude_code.Heuristic.Patterns
use liberated_claude_code.Heuristic.Patterns.{bullet}
use liberated_claude_code.Heuristic.Parser.{
  plain, ToolUse, HeuristicToolParser, new, feed_loop, turn, take_params, concat, put_parameter,
  feed, flush,
}
use liberated_claude_code.Heuristic.Calm.{lacks, feed_lem, feed_flush_loses}
use liberated_claude_code.Heuristic.Ends.{feed_ends}

abbrev numbered : ℕ → Text
numbered n = codes "1"

abbrev prose : Text
prose = codes "It rains."

prose_calm : lacks bullet prose ≡ true
unfolding lacks
prose_calm = refl

prose_bare : lacks b'<' prose ≡ true
unfolding lacks
prose_bare = refl

feed_lem_example :
    feed numbered prose (record new { state = plain; buffer = [] })
    ≡ some (record new { state = plain; buffer = [] }, prose, [])
feed_lem_example = feed_lem numbered prose new prose_calm prose_bare

feed_flush_loses_example :
    (p : HeuristicToolParser) × ((feed numbered (bullet ∷ prose) new ≡ some (p, [], []))
      × ((flush p).1 ≡ []))
feed_flush_loses_example = feed_flush_loses numbered prose prose_bare (omega arith)

abbrev call : Text
call = bullet ∷ codes " <function=Grep><parameter=pattern> a b </parameter> done"

feed_ends_example :
    (q : HeuristicToolParser) × (passed : Text) × (tools : List ToolUse) × (feed numbered call new
      ≡ some (q, passed, tools))
feed_ends_example = feed_ends numbered call new

-- A whole call with text behind it.
abbrev grep : ToolUse
grep = record {
  id = codes "toolu_heuristic_1";
  name = codes "Grep";
  input = (codes "pattern", codes "a b") ∷ [];
}

abbrev after_call : HeuristicToolParser
after_call = record new {
  current_tool_id = grep.id;
  current_function_name = grep.name;
  current_parameters = grep.input;
  ids_made = 1;
}

call_found : feed numbered call new ≡ some (after_call, codes " done", grep ∷ [])
unfolding feed feed_loop turn take_params concat put_parameter Patterns.search Patterns.until_gt
    Patterns.tag_name Patterns.function_at Patterns.until_close Patterns.param_at
    Patterns.run_length Patterns.control_length Patterns.strip_from Patterns.strip_control_tokens
    Patterns.rfind_control Patterns.split_incomplete_control_token_tail starts_with find strip
    lstrip rstrip is_space
call_found = refl
