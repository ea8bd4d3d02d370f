-- ===== src/Transcript/Stacks.antt =====
-- messaging/transcript.py: the stacks of subagents stay parallel.
use liberated_claude_code.Prelude.{
  ℕ, suc, ◌≡◌, ap, inl, inr, List, [], ◌∷◌, Option, none, some, length, arith, Bool-cases,
}
use liberated_claude_code.Text.{Text}
use liberated_claude_code.Sse.Tools.{is_empty}
use liberated_claude_code.Errors.{strip}
use liberated_claude_code.Transcript.{Segment, TranscriptBuffer}
use liberated_claude_code.Transcript.Subagents.{
  subagent_push, pop_matching, pop_one, subagent_pop, popped_to, ids_roughly_match, is_synthetic,
  top_of, rest_of,
}
use liberated_claude_code.Transcript.Kinds.{subagent, kind_at, AllAt, IsValid}

pub subagent_push-IsValid :
    (id : Text) (n : ℕ) {b : TranscriptBuffer}
    → kind_at b.segments n ≡ some subagent
    → IsValid b
    → IsValid (subagent_push id n b)
unfolding subagent_push
subagent_push-IsValid id n e v = record {
  same_depth = ap suc v.same_depth;
  subagents = (e, v.subagents);
  open_thinking = v.open_thinking;
  open_text = v.open_text;
  open_tools = v.open_tools;
}

-- Stacks as deep as each other, whose positions hold subagents.
abbrev Parallel : List Segment → List Text → List ℕ → Type 0
Parallel segs ids ns = (length ids ≡ length ns) × AllAt subagent segs ns

stacks-IsValid :
    (ids : List Text) (ns : List ℕ) {b : TranscriptBuffer}
    → Parallel b.segments ids ns
    → IsValid b
    → IsValid (record b { subagent_stack = ids; subagent_segments = ns })
stacks-IsValid ids ns p v = record {
  same_depth = p.0;
  subagents = p.1;
  open_thinking = v.open_thinking;
  open_text = v.open_text;
  open_tools = v.open_tools;
}

abbrev AnyParallel : List Segment → Option (List Text × List ℕ) → Type 0
AnyParallel segs none = Unit {0}
AnyParallel segs (some (ids, ns)) = Parallel segs ids ns

Parallel-pop_one :
    (segs : List Segment) (id : Text) (ids : List Text) (ns : List ℕ)
    → Parallel segs (id ∷ ids) ns
    → Parallel segs ids (pop_one ns)
Parallel-pop_one segs id ids [] p = absurd (omega (arith, p.0))
Parallel-pop_one segs id ids (n ∷ ns) p = (omega (arith, p.0), p.1.1)

pop_matching-Parallel :
    (segs : List Segment) (tool_id : Text) (ids : List Text) (ns : List ℕ)
    → Parallel segs ids ns
    → AnyParallel segs (pop_matching tool_id ids ns)
unfolding pop_matching
pop_matching-Parallel segs tool_id [] ns p = tt
pop_matching-Parallel segs tool_id (id ∷ ids) ns p =
    let q = Parallel-pop_one segs id ids ns p in
    elim (Bool-cases (ids_roughly_match id tool_id)) [
      | inl e ↦ rw e q
      | inr e ↦ rw e (pop_matching-Parallel segs tool_id ids (pop_one ns) q)
    ]

popped_to-IsValid :
    (o : Option (List Text × List ℕ)) {b : TranscriptBuffer}
    → AnyParallel b.segments o
    → IsValid b
    → IsValid (popped_to o b).0
popped_to-IsValid none p v = v
popped_to-IsValid (some (ids, ns)) p v = stacks-IsValid ids ns p v

Parallel-rest_of :
    (segs : List Segment) (ids : List Text) (ns : List ℕ)
    → Parallel segs ids ns
    → Parallel segs (rest_of ids) (pop_one ns)
Parallel-rest_of segs [] [] p = p
Parallel-rest_of segs [] (n ∷ ns) p = absurd (omega (arith, p.0))
Parallel-rest_of segs (id ∷ ids) ns p = Parallel-pop_one segs id ids ns p

pub subagent_pop-IsValid :
    (id : Text) {b : TranscriptBuffer} → IsValid b → IsValid (subagent_pop id b).0
unfolding subagent_pop
subagent_pop-IsValid id {b} v = elim (Bool-cases (is_empty (strip id))) [
  | inl e ↦ elim (Bool-cases (is_synthetic (top_of b.subagent_stack))) [
    | inl f ↦
        rw (e, f)
          (stacks-IsValid (rest_of b.subagent_stack) (pop_one b.subagent_segments)
            (Parallel-rest_of b.segments b.subagent_stack b.subagent_segments
              (v.same_depth, v.subagents))
            v)
    | inr f ↦ rw (e, f) v
  ]
  | inr e ↦ rw e (
      popped_to-IsValid (pop_matching (strip id) b.subagent_stack b.subagent_segments)
        (pop_matching-Parallel b.segments (strip id) b.subagent_stack b.subagent_segments
          (v.same_depth, v.subagents))
        v)
]
