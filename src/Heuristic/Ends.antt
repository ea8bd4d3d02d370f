-- ===== src/Heuristic/Ends.antt =====
-- providers/common/heuristic_tool_parser.py: the loops of `feed` end.
use liberated_claude_code.Prelude.{
  ℕ, zero, suc, ◌<◌, ◌≡◌, refl, ◌⊎◌, inl, inr, List, [], ◌∷◌, ◌++◌, Option, none, some, length,
  length-drop, arith, Bool-cases,
}
use liberated_claude_code.Text.{Text, find}
use liberated_claude_code.Heuristic.Patterns.{
  bullet, search, function_at, strip_control_tokens, split_incomplete_control_token_tail,
}
use liberated_claude_code.Heuristic.Parser.{
  ParserState, plain, matching_function, parsing_parameters, ToolUse, HeuristicToolParser, Turn,
  goes_on, no_bullet, concat, joined_opt, then_on, text_turn, match_turn, in_match, in_params, turn,
  again, feed_loop, feed, outcome, fuel_for,
}
use liberated_claude_code.Heuristic.Shrinks.{second, search-Below, function_at-Below}
use liberated_claude_code.Heuristic.Stretches.{
  BackOpt, in_params-BackOpt, BackOpt-le, BackOpt-then_on, match_turn-Matched, after_match,
  no_bullet_breaks, then_on_breaks,
}

module _ (uuid : ℕ → Text) where
  -- The body of the loop behind its first stretch.
  abbrev rest_of_turn : HeuristicToolParser → Option Turn
  rest_of_turn p = let m = in_match uuid p.state p in then_on m (in_params m.parser.state m.parser)

  rest_of_turn-matching :
      (p : HeuristicToolParser)
      → p.state ≡ matching_function
      → BackOpt (length p.buffer) (rest_of_turn p)
  rest_of_turn-matching p s = rw s (
      after_match (length p.buffer)
        (match_turn uuid (search function_at p.buffer) (record p { state = matching_function }))
        (match_turn-Matched uuid (search function_at p.buffer)
          (record p { state = matching_function })
          (search-Below second function_at function_at-Below p.buffer)))

  text_turn-BackOpt :
      (o : Option ℕ) (p : HeuristicToolParser)
      → p.state ≡ plain
      → BackOpt (length p.buffer) (then_on (text_turn o p) (rest_of_turn (text_turn o p).parser))
  text_turn-BackOpt (some idx) p s =
      let q : HeuristicToolParser = (text_turn (some idx) p).parser in
      BackOpt-then_on (length p.buffer) (text_turn (some idx) p) _ (
        BackOpt-le (length q.buffer) (length p.buffer) (rest_of_turn q)
          (omega (arith, length-drop idx p.buffer)) (rest_of_turn-matching q refl))
  text_turn-BackOpt none p s =
      let r = split_incomplete_control_token_tail p.buffer in
      then_on_breaks (length p.buffer) (no_bullet r p) (rest_of_turn (no_bullet r p).parser)
        (no_bullet_breaks r p)

  turn-plain : (p : HeuristicToolParser) → p.state ≡ plain → BackOpt (length p.buffer) (turn uuid p)
  unfolding turn
  turn-plain p s =
      let q : HeuristicToolParser = record p { state = plain } in
      rw s (text_turn-BackOpt (find (bullet ∷ []) q.buffer) q refl)

  turn-matching :
      (p : HeuristicToolParser)
      → p.state ≡ matching_function
      → BackOpt (length p.buffer) (turn uuid p)
  unfolding turn
  turn-matching p s =
      let q : HeuristicToolParser = record p { state = matching_function } in
      rw s (
        BackOpt-then_on (length q.buffer) (goes_on q []) (rest_of_turn q)
          (rest_of_turn-matching q refl))

  turn-parsing :
      (p : HeuristicToolParser)
      → p.state ≡ parsing_parameters
      → BackOpt (suc (length p.buffer)) (turn uuid p)
  unfolding turn
  turn-parsing p s =
      let q : HeuristicToolParser = record p { state = parsing_parameters } in
      rw s (
        BackOpt-then_on (suc (length q.buffer)) (goes_on q []) (rest_of_turn q) (
          BackOpt-then_on (suc (length q.buffer)) (goes_on q []) (in_params parsing_parameters q)
            (in_params-BackOpt q)))

  state_cases : (s : ParserState) → (s ≡ plain) ⊎ (s ≡ matching_function) ⊎ (s ≡ parsing_parameters)
  state_cases plain = inl refl
  state_cases matching_function = inr (inl refl)
  state_cases parsing_parameters = inr (inr refl)

  turn-BackOpt : (p : HeuristicToolParser) → BackOpt (suc (length p.buffer)) (turn uuid p)
  turn-BackOpt p = elim (state_cases p.state) [
    | inl s ↦
        BackOpt-le (length p.buffer) (suc (length p.buffer)) (turn uuid p) (omega arith)
          (turn-plain p s)
    | inr (inl s) ↦
        BackOpt-le (length p.buffer) (suc (length p.buffer)) (turn uuid p) (omega arith)
          (turn-matching p s)
    | inr (inr s) ↦ turn-parsing p s
  ]

  abbrev Ends : Option Turn → Type 0
  Ends none = ⊥
  Ends (some t) = Unit {0}

  Ends-joined_opt : (t : Turn) (o : Option Turn) → Ends o → Ends (joined_opt t o)
  Ends-joined_opt t none h = h
  Ends-joined_opt t (some u) h = tt

  again-Ends :
      (n : ℕ) (o : Option Turn) (next : HeuristicToolParser → Option Turn)
      → BackOpt n o
      → ((q : HeuristicToolParser) → q.state ≡ plain → length q.buffer < n → Ends (next q))
      → Ends (again uuid o next)
  again-Ends n none next h k = h
  again-Ends n (some t) next (inl b) k = rw b tt
  again-Ends n (some t) next (inr h) k = elim (Bool-cases t.breaks) [
    | inl b ↦ rw b tt
    | inr b ↦ rw b (Ends-joined_opt t (next t.parser) (k t.parser h.0 h.1))
  ]

  feed_loop-Ends :
      (fuel : ℕ) (p : HeuristicToolParser)
      → p.state ≡ plain
      → length p.buffer < fuel
      → Ends (feed_loop uuid fuel p)
  unfolding feed_loop
  feed_loop-Ends zero p s h = absurd (omega (arith, h))
  feed_loop-Ends (suc fuel) p s h =
      again-Ends (length p.buffer) (turn uuid p) (feed_loop uuid fuel) (turn-plain p s)
        (λ q s' less. feed_loop-Ends fuel q s' (omega (arith, less, h)))

  enough_fuel : (p : HeuristicToolParser) → Ends (feed_loop uuid (fuel_for p.buffer) p)
  unfolding feed_loop
  enough_fuel p =
      again-Ends (suc (length p.buffer)) (turn uuid p) (feed_loop uuid (suc (length p.buffer)))
        (turn-BackOpt p) (λ q s less. feed_loop-Ends (suc (length p.buffer)) q s less)

  outcome-Ends :
      (o : Option Turn)
      → Ends o
      → (q : HeuristicToolParser) × (passed : Text) × (tools : List ToolUse) × (outcome o
          ≡ some (q, passed, tools))
  outcome-Ends none h = absurd h
  outcome-Ends (some t) h = (t.parser, concat t.parts, t.tools, refl)

  -- `feed` ends, whatever text it is given and whatever the parser holds, is in the middle of or has
  -- found: the loops in it never run forever.
  pub feed_ends :
      (s : Text) (p : HeuristicToolParser)
      → (q : HeuristicToolParser) × (passed : Text) × (tools : List ToolUse) × (feed uuid s p
          ≡ some (q, passed, tools))
  unfolding feed
  feed_ends s p =
      let buffer : Text = strip_control_tokens (p.buffer ++ s) in
      outcome-Ends (feed_loop uuid (fuel_for buffer) (record p { buffer = buffer }))
        (enough_fuel (record p { buffer = buffer }))
