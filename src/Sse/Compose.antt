-- ===== src/Sse/Compose.antt =====
-- The methods of the builder that are put together from others.
use liberated_claude_code.Prelude.{
  ◌≡◌, inl, inr, Bool, true, false, not, List, [], ◌∷◌, Bool-cases, arith,
}
use liberated_claude_code.Sse.Builder
use liberated_claude_code.Sse.Builder.{SseBuilder, Emit, pure, when, ◌>>◌, each, guarded}
use liberated_claude_code.Sse.Kept.{Triple, Any, Triple-seq, Triple-pure}
use liberated_claude_code.Sse.Blocks.{
  Thinking, NotThinking, Texting, NotTexting, start_thinking_block-Triple, start_text_block-Triple,
  stop_thinking_block-Triple, stop_text_block-Triple,
}

pub Triple-guarded :
    (P Q : SseBuilder → Type 0) (test : SseBuilder → Bool) (f : Emit)
    → Triple (λ b. (test b ≡ true) × P b) f Q
    → ((b : SseBuilder) → test b ≡ false → P b → Q b)
    → Triple P (guarded test f) Q
unfolding guarded
Triple-guarded P Q test f h skip = record {
  at = λ b r a p. elim (Bool-cases (test b)) [
    | inl e ↦ simp e (h.at b r a (e, p))
    | inr e ↦ simp e ((Triple-pure Q).at b r a (skip b e p))
  ];
}

-- A weaker condition before, or a stronger one.
pub Triple-weaken :
    (P P' Q Q' : SseBuilder → Type 0) (f : Emit)
    → ((b : SseBuilder) → P' b → P b)
    → ((b : SseBuilder) → Q b → Q' b)
    → Triple P f Q
    → Triple P' f Q'
Triple-weaken P P' Q Q' f before after h = record {
  at = λ b r a p.
      let (r', acc, a', done) = h.at b r a (before b p) in
      (r', acc, a', λ x. after (f b).sse (done x));
}

pub Triple-when :
    (P : SseBuilder → Type 0) (c : Bool) (f : Emit) → Triple P f P → Triple P (when c f) P
Triple-when P true f h = h
Triple-when P false f h = Triple-pure P

pub Triple-each {ℓ} :
    {A : Type ℓ} (P : SseBuilder → Type 0) (f : A → Emit) (xs : List A)
    → ((x : A) → Triple P (f x) P)
    → Triple P (each f xs) P
unfolding each
Triple-each P f [] h = record { at = λ b r a p. (Triple-pure P).at b r a p }
Triple-each P f (x ∷ xs) h = record {
  at = λ b r a p. (Triple-seq P P P (f x) (each f xs) (h x) (Triple-each P f xs h)).at b r a p;
}

true_of_not : (b : Bool) → not b ≡ false → b ≡ true
true_of_not b h = ground arith

false_of_not : (b : Bool) → not b ≡ true → b ≡ false
false_of_not b h = ground arith

start_if_none-Thinking :
    Triple Any (guarded (λ b. not b.thinking_started) Builder.start_thinking_block) Thinking
start_if_none-Thinking =
    Triple-guarded Any Thinking _ _
      (Triple-weaken NotThinking _ Thinking Thinking _ (λ b p. false_of_not b.thinking_started p.0)
        (λ b p. p) start_thinking_block-Triple)
      (λ b e p. true_of_not b.thinking_started e)

start_if_none-text : Triple Any (guarded (λ b. not b.text_started) Builder.start_text_block) Texting
start_if_none-text =
    Triple-guarded Any Texting _ _
      (Triple-weaken NotTexting _ Texting Texting _ (λ b p. false_of_not b.text_started p.0)
        (λ b p. p) start_text_block-Triple)
      (λ b e p. true_of_not b.text_started e)

stop_if_text :
    (P : SseBuilder → Type 0)
    → ((b : SseBuilder) → P b → P (record b { text_started = false }))
    → Triple P (guarded (λ b. b.text_started) Builder.stop_text_block) (λ b. NotTexting b × P b)
stop_if_text P stable =
    Triple-guarded P (λ b. NotTexting b × P b) _ _ (stop_text_block-Triple P stable)
      (λ b e p. (e, p))

stop_if_thinking :
    Triple Any (guarded (λ b. b.thinking_started) Builder.stop_thinking_block) NotThinking
stop_if_thinking =
    Triple-guarded Any NotThinking _ _
      (Triple-weaken _ _ (λ b. NotThinking b × Any b) NotThinking _ (λ b p. p) (λ b p. p.0)
        (stop_thinking_block-Triple Any (λ b p. tt)))
      (λ b e p. e)

pub ensure_thinking_block-Triple : Triple Any Builder.ensure_thinking_block Thinking
unfolding Builder.ensure_thinking_block
ensure_thinking_block-Triple =
    Triple-seq Any Any Thinking _ _
      (Triple-weaken Any Any _ Any _ (λ b p. p) (λ b p. tt) (stop_if_text Any (λ b p. tt)))
      start_if_none-Thinking

pub ensure_text_block-Triple : Triple Any Builder.ensure_text_block Texting
unfolding Builder.ensure_text_block
ensure_text_block-Triple =
    Triple-seq Any Any Texting _ _
      (Triple-weaken Any Any _ Any _ (λ b p. p) (λ b p. tt) stop_if_thinking) start_if_none-text

pub close_content_blocks-Triple :
    Triple Any Builder.close_content_blocks (λ b. NotTexting b × NotThinking b)
unfolding Builder.close_content_blocks
close_content_blocks-Triple =
    Triple-seq Any NotThinking _ _ _ stop_if_thinking (stop_if_text NotThinking (λ b p. p))
