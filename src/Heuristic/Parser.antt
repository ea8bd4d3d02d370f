-- ===== src/Heuristic/Parser.antt =====
-- `HeuristicToolParser` of providers/common/heuristic_tool_parser.py. The ids that `uuid` gives are a
-- parameter, by the number of ids made so far. The loops run on fuel, and `none` is a loop that has
-- not ended.
use liberated_claude_code.Prelude.{
  ℕ, zero, suc, Bool, true, false, not, ◌&&◌, List, [], ◌∷◌, ◌++◌, Option, none, some, ltb, length,
  take, drop, if◌then◌else◌,
}
use liberated_claude_code.Text.{Text, codes, starts_with, find}
use liberated_claude_code.Sse.Tools.{is_empty}
use liberated_claude_code.Json.{text_eq}
use liberated_claude_code.Errors.{strip, contains_text}
use liberated_claude_code.Heuristic.Patterns.{
  bullet, search, function_at, ParamMatch, param_at, open_param_at, close_tag, strip_control_tokens,
  split_incomplete_control_token_tail,
}

pub data ParserState : Type 0 where
  plain matching_function parsing_parameters : ParserState

abbrev pub Parameters : Type 0
Parameters = List (Text × Text)

-- d[key] = value
unfoldable pub put_parameter : Text → Text → Parameters → Parameters
put_parameter key value [] = (key, value) ∷ []
put_parameter key value ((k, v) ∷ d) =
    if text_eq k key then (k, value) ∷ d else (k, v) ∷ put_parameter key value d

pub record ToolUse : Type 0 where
  pub id : Text
  pub name : Text
  pub input : Parameters

pub record HeuristicToolParser : Type 0 where
  pub state : ParserState
  pub buffer : Text
  pub current_tool_id : Text
  pub current_function_name : Text
  pub current_parameters : Parameters
  pub ids_made : ℕ

abbrev pub new : HeuristicToolParser
new = record {
  state = plain;
  buffer = [];
  current_tool_id = [];
  current_function_name = [];
  current_parameters = [];
  ids_made = 0;
}

-- What a stretch of the loop's body comes to: the parser, the text that it passes on, the tool calls
-- that it found, and whether the loop ends here.
pub record Turn : Type 0 where
  pub parser : HeuristicToolParser
  pub parts : List Text
  pub tools : List ToolUse
  pub breaks : Bool

abbrev pub goes_on : HeuristicToolParser → List Text → Turn
goes_on p parts = record { parser = p; parts = parts; tools = []; breaks = false }

abbrev pub breaks_off : HeuristicToolParser → List Text → Turn
breaks_off p parts = record { parser = p; parts = parts; tools = []; breaks = true }

-- What comes behind a stretch that did not end the loop.
abbrev pub joined : Turn → Turn → Turn
joined t u = record {
  parser = u.parser;
  parts = t.parts ++ u.parts;
  tools = t.tools ++ u.tools;
  breaks = u.breaks;
}

abbrev pub unless_empty : Text → List Text
unless_empty [] = []
unless_empty (c ∷ s) = (c ∷ s) ∷ []

-- Without a bullet, all is passed on but a control token that is not whole yet.
abbrev pub no_bullet : Text × Text → HeuristicToolParser → Turn
no_bullet ([], rest) p = breaks_off (record p { buffer = [] }) (rest ∷ [])
no_bullet (c ∷ safe, rest) p = breaks_off (record p { buffer = rest }) ((c ∷ safe) ∷ [])

abbrev pub text_turn : Option ℕ → HeuristicToolParser → Turn
text_turn none p = no_bullet (split_incomplete_control_token_tail p.buffer) p
text_turn (some idx) p =
    goes_on (record p { buffer = drop idx p.buffer; state = matching_function })
      (take idx p.buffer ∷ [])

abbrev pub in_text : ParserState → HeuristicToolParser → Turn
in_text plain p = text_turn (find (bullet ∷ []) p.buffer) p
in_text matching_function p = goes_on p []
in_text parsing_parameters p = goes_on p []

module _ (uuid : ℕ → Text) where
  -- A long buffer is no tool call: its first character is text.
  abbrev pub match_turn : Option (Text × (Text × Text)) → HeuristicToolParser → Turn
  match_turn (some (before, (name, rest))) p =
      goes_on
        (record p {
          state = parsing_parameters;
          buffer = rest;
          current_function_name = strip name;
          current_tool_id = codes "toolu_heuristic_" ++ uuid p.ids_made;
          current_parameters = [];
          ids_made = suc p.ids_made;
        })
        []
  match_turn none p =
      if ltb 100 (length p.buffer)
      then goes_on (record p { buffer = drop 1 p.buffer; state = plain }) (take 1 p.buffer ∷ [])
      else breaks_off p []

  abbrev pub in_match : ParserState → HeuristicToolParser → Turn
  in_match plain p = goes_on p []
  in_match matching_function p = match_turn (search function_at p.buffer) p
  in_match parsing_parameters p = goes_on p []

abbrev pub with_param : ParamMatch → HeuristicToolParser → HeuristicToolParser
with_param m p = record p {
  current_parameters = put_parameter (strip m.key) (strip m.value) p.current_parameters;
  buffer = m.rest;
}

abbrev pub Params : Type 0
Params = Option (HeuristicToolParser × List Text)

abbrev pub behind : List Text → Params → Params
behind parts none = none
behind parts (some (p, more)) = some (p, parts ++ more)

-- `param_match and "</parameter>" in param_match.group(0)`
abbrev pub param_match :
    HeuristicToolParser → Option (Text × ParamMatch) → Option (Text × ParamMatch)
param_match p none = none
param_match p (some (before, m)) =
    if contains_text close_tag m.whole then some (before, m) else none

abbrev pub params_next :
    HeuristicToolParser → (HeuristicToolParser → Params) → Option (Text × ParamMatch) → Params
params_next p next none = some (p, [])
params_next p next (some (before, m)) = behind (unless_empty before) (next (with_param m p))

-- The whole parameters of the buffer.
unfoldable pub take_params : ℕ → HeuristicToolParser → Params
take_params zero p = none
take_params (suc fuel) p =
    params_next p (take_params fuel) (param_match p (search param_at p.buffer))

abbrev tool_of : HeuristicToolParser → ToolUse
tool_of p = record {
  id = p.current_tool_id;
  name = p.current_function_name;
  input = p.current_parameters;
}

abbrev finished : HeuristicToolParser → List Text → Turn
finished p parts = record {
  parser = record p { state = plain };
  parts = parts;
  tools = tool_of p ∷ [];
  breaks = false;
}

-- Whether the tool call is complete: another bullet comes, or text that is no tag.
abbrev pub complete_turn : Option ℕ → HeuristicToolParser → Turn
complete_turn (some idx) p =
    finished (record p { buffer = drop idx p.buffer }) (unless_empty (take idx p.buffer))
complete_turn none p =
    if not (is_empty p.buffer)
      && (not (starts_with (codes "<") (strip p.buffer))
          && not (contains_text (codes "<parameter=") p.buffer))
    then finished (record p { buffer = [] }) (p.buffer ∷ [])
    else breaks_off p []

abbrev pub params_turn : Params → Option Turn
params_turn none = none
params_turn (some (p, parts)) =
    some (joined (goes_on p parts) (complete_turn (find (bullet ∷ []) p.buffer) p))

abbrev pub in_params : ParserState → HeuristicToolParser → Option Turn
in_params plain p = some (goes_on p [])
in_params matching_function p = some (goes_on p [])
in_params parsing_parameters p = params_turn (take_params (suc (length p.buffer)) p)

abbrev pub joined_opt : Turn → Option Turn → Option Turn
joined_opt t none = none
joined_opt t (some u) = some (joined t u)

-- What follows a stretch, if it does not end the loop.
abbrev pub then_on : Turn → Option Turn → Option Turn
then_on t next = if t.breaks then some t else joined_opt t next

-- "".join(parts)
unfoldable pub concat : List Text → Text
concat [] = []
concat (t ∷ ts) = t ++ concat ts

abbrev pub outcome : Option Turn → Option (HeuristicToolParser × Text × List ToolUse)
outcome none = none
outcome (some t) = some (t.parser, concat t.parts, t.tools)

-- Turns that are enough for the loop of `feed`.
abbrev pub fuel_for : Text → ℕ
fuel_for buffer = suc (suc (length buffer))

module _ (uuid : ℕ → Text) where
  -- The body of the loop, once.
  unfoldable pub turn : HeuristicToolParser → Option Turn
  turn p =
      let t = in_text p.state p in
      let m = in_match uuid t.parser.state t.parser in
      then_on t (then_on m (in_params m.parser.state m.parser))

  abbrev pub again : Option Turn → (HeuristicToolParser → Option Turn) → Option Turn
  again none next = none
  again (some t) next = then_on t (next t.parser)

  unfoldable pub feed_loop : ℕ → HeuristicToolParser → Option Turn
  feed_loop zero p = none
  feed_loop (suc fuel) p = again (turn p) (feed_loop fuel)

  unfoldable pub feed :
      Text → HeuristicToolParser → Option (HeuristicToolParser × Text × List ToolUse)
  feed s p =
      let buffer = strip_control_tokens (p.buffer ++ s) in
      outcome (feed_loop (fuel_for buffer) (record p { buffer = buffer }))

abbrev with_partial : Option (Text × (Text × Text)) → HeuristicToolParser → HeuristicToolParser
with_partial none p = p
with_partial (some (before, (key, value))) p = record p {
  current_parameters = put_parameter (strip key) (strip value) p.current_parameters;
}

abbrev flushed : ParserState → HeuristicToolParser → HeuristicToolParser × List ToolUse
flushed plain p = (p, [])
flushed matching_function p = (p, [])
flushed parsing_parameters p =
    let q = with_partial (search open_param_at p.buffer) p in
    (record q { state = plain; buffer = [] }, tool_of q ∷ [])

unfoldable pub flush : HeuristicToolParser → HeuristicToolParser × List ToolUse
flush p = flushed p.state (record p { buffer = strip_control_tokens p.buffer })
