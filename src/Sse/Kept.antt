-- ===== src/Sse/Kept.antt =====
-- providers/common/sse_builder.py: when the builder agrees with the reader of its events on the
-- blocks that are open, and what it is for a method to keep that.
use liberated_claude_code.Prelude.{
  ℕ, ◌≤◌, ◌≡◌, refl, ◌∙◌, ◌⊎◌, inl, inr, true, false, [], ◌∷◌, none, some, Bool-cases,
}
use liberated_claude_code.Sse.Tools.{ToolStates, is_empty}
use liberated_claude_code.Sse.Builder.{SseBuilder, Emit, pure, ◌>>◌}
use liberated_claude_code.Sse.Protocol.{Kind, thinking, text, tool, Reader, accepts, accepts-append}
use liberated_claude_code.Sse.Slots.{slots, IsOpenAt, SlotsOpen, Holds, SlotsApart}

-- A block that is open is the builder's thinking block, its text block, or that of a started tool.
abbrev pub Owned : SseBuilder → ℕ → Kind → Type 0
Owned b i k =
    ((k ≡ thinking) × (b.thinking_started ≡ true) × (b.thinking_index ≡ some i))
    ⊎ (((k ≡ text) × (b.text_started ≡ true) × (b.text_index ≡ some i))
        ⊎ ((k ≡ tool) × Holds i (slots b.tool_states)))

-- Arguments are held back for started tools alone.
abbrev pub BuffersStarted : ToolStates → Type 0
BuffersStarted [] = Unit {0}
BuffersStarted ((k, s) ∷ d) =
    ((is_empty s.task_arg_buffer ≡ false) → s.started ≡ true) × BuffersStarted d

pub record Agree (b : SseBuilder) (r : Reader) : Type 0 where
  pub next : r.next ≡ b.next_index
  pub thinking_open : b.thinking_started ≡ true → IsOpenAt r b.thinking_index thinking
  pub text_open : b.text_started ≡ true → IsOpenAt r b.text_index text
  pub tools_open : SlotsOpen r (slots b.tool_states)
  pub apart : SlotsApart (slots b.tool_states)
  pub buffers : BuffersStarted b.tool_states
  pub owned : (i : ℕ) (k : Kind) → r.kind i ≡ some k → Owned b i k
  pub bound : (i : ℕ) → r.next ≤ i → r.kind i ≡ none

-- From a builder that agrees with the reader and meets `pre`, the events of `f` are accepted, the
-- two agree again, and unless an exception left `f` the builder meets `post`.
pub record Triple (pre : SseBuilder → Type 0) (f : Emit) (post : SseBuilder → Type 0) : Type 0 where
  pub at :
      (b : SseBuilder) (r : Reader)
      → Agree b r
      → pre b
      → (r' : Reader) × (accepts (f b).events r ≡ some r')
        × Agree (f b).sse r'
        × ((f b).raised ≡ false → post (f b).sse)

abbrev pub Any : SseBuilder → Type 0
Any b = Unit {0}

pub Triple-seq :
    (pre mid post : SseBuilder → Type 0) (f g : Emit)
    → Triple pre f mid
    → Triple mid g post
    → Triple pre (f >> g) post
unfolding ◌>>◌
Triple-seq pre mid post f g hf hg = record {
  at = λ b r a p.
      let (r', acc, a', done) = hf.at b r a p in
      elim (Bool-cases (f b).raised) [
        | inl e ↦ simp e (r', acc, a', λ x. cc)
        | inr e ↦
            let (s, acc', a'', done') = hg.at (f b).sse r' a' (done e) in
            simp e (s, accepts-append (f b).events (g (f b).sse).events r r' acc ∙ acc', a'', done')
      ];
}

pub Triple-pure : (P : SseBuilder → Type 0) → Triple P pure P
unfolding accepts
Triple-pure P = record { at = λ b r a p. (r, refl, a, λ x. p) }
