-- ===== src/Heuristic/Stretches.antt =====
-- providers/common/heuristic_tool_parser.py: how each stretch of the loop leaves the parser.
use liberated_claude_code.Prelude.{
  ℕ, zero, suc, ◌≤◌, ◌<◌, ◌≡◌, refl, ◌⊎◌, inl, inr, true, not, ◌&&◌, List, [], ◌∷◌, Option, none,
  some, ltb, length, length-drop, arith, Bool-cases,
}
use liberated_claude_code.Text.{Text, codes, starts_with, find}
use liberated_claude_code.Sse.Tools.{is_empty}
use liberated_claude_code.Errors.{strip, contains_text}
use liberated_claude_code.Heuristic.Patterns.{bullet, search, close_tag, ParamMatch, param_at}
use liberated_claude_code.Heuristic.Parser.{
  plain, parsing_parameters, HeuristicToolParser, Turn, no_bullet, joined_opt, then_on, match_turn,
  Params, behind, param_match, with_param, unless_empty, params_next, take_params, complete_turn,
  params_turn, in_params,
}
use liberated_claude_code.Heuristic.Shrinks.{
  Below, behind_match, second, param_rest, search-Below, param_at-Below,
}

-- Parameters are taken from the buffer, and the loop ends.
abbrev ParamsEnd : HeuristicToolParser → Params → Type 0
ParamsEnd p none = ⊥
ParamsEnd p (some (q, parts)) = length q.buffer ≤ length p.buffer

ParamsEnd-behind :
    (p q : HeuristicToolParser) (parts : List Text) (o : Params)
    → length q.buffer ≤ length p.buffer
    → ParamsEnd q o
    → ParamsEnd p (behind parts o)
ParamsEnd-behind p q parts none le h = h
ParamsEnd-behind p q parts (some (r, more)) le h = omega (arith, h, le)

param_match-Below :
    (p : HeuristicToolParser) (n : ℕ) (o : Option (Text × ParamMatch))
    → Below (behind_match param_rest) n o
    → Below (behind_match param_rest) n (param_match p o)
param_match-Below p n none h = tt
param_match-Below p n (some (before, m)) h = elim (Bool-cases (contains_text close_tag m.whole)) [
  | inl e ↦ rw e h
  | inr e ↦ rw e tt
]

params_next-ParamsEnd :
    (p : HeuristicToolParser) (fuel : ℕ) (o : Option (Text × ParamMatch))
    → ((q : HeuristicToolParser) → length q.buffer < fuel → ParamsEnd q (take_params fuel q))
    → length p.buffer < suc fuel
    → Below (behind_match param_rest) (length p.buffer) o
    → ParamsEnd p (params_next p (take_params fuel) o)
params_next-ParamsEnd p fuel none next h less = omega arith
params_next-ParamsEnd p fuel (some (before, m)) next h less =
    let q : HeuristicToolParser = with_param m p in
    ParamsEnd-behind p q (unless_empty before) (take_params fuel q) (omega (arith, less))
      (next q (omega (arith, less, h)))

take_params-ParamsEnd :
    (fuel : ℕ) (p : HeuristicToolParser) → length p.buffer < fuel → ParamsEnd p (take_params fuel p)
unfolding take_params
take_params-ParamsEnd zero p h = absurd (omega (arith, h))
take_params-ParamsEnd (suc fuel) p h =
    params_next-ParamsEnd p fuel (param_match p (search param_at p.buffer))
      (take_params-ParamsEnd fuel) h
      (param_match-Below p (length p.buffer) (search param_at p.buffer)
        (search-Below param_rest param_at param_at-Below p.buffer))

-- A stretch ends the loop, or leaves the parser outside a tool call with less than `n` characters.
abbrev Back : ℕ → Turn → Type 0
Back n t = (t.breaks ≡ true) ⊎ ((t.parser.state ≡ plain) × (length t.parser.buffer < n))

abbrev pub BackOpt : ℕ → Option Turn → Type 0
BackOpt n none = ⊥
BackOpt n (some t) = Back n t

complete_turn-Back :
    (o : Option ℕ) (p : HeuristicToolParser) → Back (suc (length p.buffer)) (complete_turn o p)
complete_turn-Back (some idx) p = inr (refl, omega (arith, length-drop idx p.buffer))
complete_turn-Back none p =
    elim (Bool-cases (
      not (is_empty p.buffer)
      && (not (starts_with (codes "<") (strip p.buffer))
          && not (contains_text (codes "<parameter=") p.buffer)))) [
            | inl e ↦ rw e (inr (refl, omega arith))
            | inr e ↦ rw e (inl refl)
          ]

Back-le : (n m : ℕ) (t : Turn) → n ≤ m → Back n t → Back m t
Back-le n m t le (inl b) = inl b
Back-le n m t le (inr h) = inr (h.0, omega (arith, h.1, le))

params_turn-BackOpt :
    (p : HeuristicToolParser) (o : Params)
    → ParamsEnd p o
    → BackOpt (suc (length p.buffer)) (params_turn o)
params_turn-BackOpt p none h = h
params_turn-BackOpt p (some (q, parts)) h =
    Back-le (suc (length q.buffer)) (suc (length p.buffer))
      (complete_turn (find (bullet ∷ []) q.buffer) q) (omega (arith, h))
      (complete_turn-Back (find (bullet ∷ []) q.buffer) q)

pub in_params-BackOpt :
    (p : HeuristicToolParser) → BackOpt (suc (length p.buffer)) (in_params parsing_parameters p)
in_params-BackOpt p =
    params_turn-BackOpt p (take_params (suc (length p.buffer)) p)
      (take_params-ParamsEnd (suc (length p.buffer)) p (omega arith))

pub BackOpt-le : (n m : ℕ) (o : Option Turn) → n ≤ m → BackOpt n o → BackOpt m o
BackOpt-le n m none le h = h
BackOpt-le n m (some t) le h = Back-le n m t le h

BackOpt-joined : (n : ℕ) (t : Turn) (o : Option Turn) → BackOpt n o → BackOpt n (joined_opt t o)
BackOpt-joined n t none h = h
BackOpt-joined n t (some u) h = h

pub BackOpt-then_on : (n : ℕ) (t : Turn) (o : Option Turn) → BackOpt n o → BackOpt n (then_on t o)
BackOpt-then_on n t o h = elim (Bool-cases t.breaks) [
  | inl e ↦ rw e (inl refl)
  | inr e ↦ rw e (BackOpt-joined n t o h)
]

-- A stretch ends the loop, or it ends in one of these states with less than `n` characters.
abbrev Matched : ℕ → Turn → Type 0
Matched n t =
    (t.breaks ≡ true)
    ⊎ (((t.parser.state ≡ plain) ⊎ (t.parser.state ≡ parsing_parameters))
        × (length t.parser.buffer < n))

pub match_turn-Matched :
    (uuid : ℕ → Text) (o : Option (Text × (Text × Text))) (p : HeuristicToolParser)
    → Below (behind_match second) (length p.buffer) o
    → Matched (length p.buffer) (match_turn uuid o p)
match_turn-Matched uuid (some (before, (name, rest))) p h = inr (inr refl, h)
match_turn-Matched uuid none p h = elim (Bool-cases (ltb 100 (length p.buffer))) [
  | inl e ↦
      let long : 100 < length p.buffer = ground arith in
      rw e (inr (inl refl, omega (arith, length-drop 1 p.buffer, long)))
  | inr e ↦ rw e (inl refl)
]

-- What follows a match.
pub after_match :
    (n : ℕ) (t : Turn) → Matched n t → BackOpt n (then_on t (in_params t.parser.state t.parser))
after_match n t (inl b) = rw b (inl refl)
after_match n t (inr (inl s, h)) = BackOpt-then_on n t _ (rw s (inr (refl, h)))
after_match n t (inr (inr s, h)) =
    let q : HeuristicToolParser = record t.parser { state = parsing_parameters } in
    BackOpt-then_on n t _ (
      rw s (
        BackOpt-le (suc (length q.buffer)) n (in_params parsing_parameters q) (omega (arith, h))
          (in_params-BackOpt q)))

pub no_bullet_breaks : (r : Text × Text) (p : HeuristicToolParser) → (no_bullet r p).breaks ≡ true
no_bullet_breaks ([], rest) p = refl
no_bullet_breaks (c ∷ safe, rest) p = refl

pub then_on_breaks :
    (n : ℕ) (t : Turn) (o : Option Turn) → t.breaks ≡ true → BackOpt n (then_on t o)
then_on_breaks n t o b = rw b (inl refl)
