-- ===== src/Stream/Calm.antt =====
-- providers/openai_compat.py: what the answer emits apart from the tool calls of the provider.
use liberated_claude_code.Prelude.{
  ℕ, ◌≡◌, refl, Bool, true, false, not, List, [], ◌∷◌, Option, none, some,
}
use liberated_claude_code.Text.{Text, codes}
use liberated_claude_code.Think.{ContentChunk, ContentType, text, thinking}
use liberated_claude_code.Sse.Tools.{JsonLib, is_empty}
use liberated_claude_code.Sse.Builder
use liberated_claude_code.Sse.Builder.{
  SseBuilder, Emit, Emitted, pure, when, ◌>>◌, each, guarded, Block, Delta, text_block, text_delta,
  tool_use_block, input_json_delta,
}
use liberated_claude_code.Sse.Protocol.{Reader, delta_kind, block_kind}
use liberated_claude_code.Sse.Kept.{Agree, Triple, Any, Triple-seq, Triple-pure}
use liberated_claude_code.Sse.Blocks.{
  Thinking, Texting, emit_thinking_delta-Triple, emit_text_delta-Triple,
}
use liberated_claude_code.Sse.ToolBlocks.{whole_block-Triple}
use liberated_claude_code.Sse.Compose.{
  Triple-weaken, ensure_thinking_block-Triple, ensure_text_block-Triple,
  close_content_blocks-Triple,
}
use liberated_claude_code.Stream.Chunk.{ToolUse, ToolParser}
use liberated_claude_code.Stream.Response

-- No exception leaves `f`.
abbrev pub Quiet : Emit → Type 0
Quiet f = (b : SseBuilder) → (f b).raised ≡ false

Quiet-seq : (f g : Emit) → Quiet f → Quiet g → Quiet (f >> g)
unfolding ◌>>◌
Quiet-seq f g hf hg b = simp (hf b) (hg (f b).sse)

Quiet-when : (c : Bool) (f : Emit) → Quiet f → Quiet (when c f)
Quiet-when true f h b = h b
Quiet-when false f h b = refl

Quiet-guarded : (test : SseBuilder → Bool) (f : Emit) → Quiet f → Quiet (guarded test f)
unfolding guarded
Quiet-guarded test f h b = Quiet-when (test b) f h b

pub record Calm (f : Emit) : Type 0 where
  pub keeps : Triple Any f Any
  pub quiet : (b : SseBuilder) (r : Reader) → Agree b r → (f b).raised ≡ false

pub Calm-seq : (f g : Emit) → Calm f → Calm g → Calm (f >> g)
unfolding ◌>>◌
Calm-seq f g hf hg = record {
  keeps = Triple-seq Any Any Any f g hf.keeps hg.keeps;
  quiet = λ b r a.
      let (r', acc, a', done) = hf.keeps.at b r a tt in
      simp (hf.quiet b r a) (hg.quiet (f b).sse r' a');
}

pub Calm-pure : Calm pure
Calm-pure = record { keeps = Triple-pure Any; quiet = λ b r a. refl }

pub Calm-when : (c : Bool) (f : Emit) → Calm f → Calm (when c f)
Calm-when true f h = h
Calm-when false f h = Calm-pure

pub Calm-guarded : (test : SseBuilder → Bool) (f : Emit) → Calm f → Calm (guarded test f)
unfolding guarded
Calm-guarded test f h = record {
  keeps = record { at = λ b r a p. (Calm-when (test b) f h).keeps.at b r a p };
  quiet = λ b r a. (Calm-when (test b) f h).quiet b r a;
}

pub Calm-each {ℓ} :
    {A : Type ℓ} (f : A → Emit) (xs : List A) → ((x : A) → Calm (f x)) → Calm (each f xs)
unfolding each
Calm-each f [] h = record {
  keeps = record { at = λ b r a p. Calm-pure.keeps.at b r a p };
  quiet = λ b r a. refl;
}
Calm-each f (x ∷ xs) h =
    let s = Calm-seq (f x) (each f xs) (h x) (Calm-each f xs h) in
    record { keeps = record { at = λ b r a p. s.keeps.at b r a p }; quiet = λ b r a. s.quiet b r a }

Calm-of : (P : SseBuilder → Type 0) (f : Emit) → Triple Any f P → Quiet f → Calm f
Calm-of P f h q = record {
  keeps = Triple-weaken Any Any P Any f (λ b p. p) (λ b p. tt) h;
  quiet = λ b r a. q b;
}

ensure_thinking_block-Quiet : Quiet Builder.ensure_thinking_block
unfolding Builder.ensure_thinking_block Builder.stop_text_block Builder.start_thinking_block
ensure_thinking_block-Quiet =
    Quiet-seq _ _ (Quiet-guarded _ Builder.stop_text_block (λ b. refl))
      (Quiet-guarded _ Builder.start_thinking_block (λ b. refl))

ensure_text_block-Quiet : Quiet Builder.ensure_text_block
unfolding Builder.ensure_text_block Builder.stop_thinking_block Builder.start_text_block
ensure_text_block-Quiet =
    Quiet-seq _ _ (Quiet-guarded _ Builder.stop_thinking_block (λ b. refl))
      (Quiet-guarded _ Builder.start_text_block (λ b. refl))

close_content_blocks-Quiet : Quiet Builder.close_content_blocks
unfolding Builder.close_content_blocks Builder.stop_thinking_block Builder.stop_text_block
close_content_blocks-Quiet =
    Quiet-seq _ _ (Quiet-guarded _ Builder.stop_thinking_block (λ b. refl))
      (Quiet-guarded _ Builder.stop_text_block (λ b. refl))

emit_thinking_delta-Quiet : (content : Text) → Quiet (Builder.emit_thinking_delta content)
unfolding Builder.emit_thinking_delta
emit_thinking_delta-Quiet content b = refl

emit_text_delta-Quiet : (content : Text) → Quiet (Builder.emit_text_delta content)
unfolding Builder.emit_text_delta
emit_text_delta-Quiet content b = refl

whole_block-Quiet : (block : Block) (delta : Delta) → Quiet (Builder.whole_block block delta)
unfolding Builder.whole_block
whole_block-Quiet block delta b = refl

pub close_content_blocks-Calm : Calm Builder.close_content_blocks
close_content_blocks-Calm = Calm-of _ _ close_content_blocks-Triple close_content_blocks-Quiet

whole_block-Calm :
    (block : Block) (delta : Delta)
    → delta_kind delta ≡ block_kind block
    → Calm (Builder.whole_block block delta)
whole_block-Calm block delta same =
    Calm-of Any _ (whole_block-Triple Any block delta same (λ b p. p))
      (whole_block-Quiet block delta)

pub emit_thinking-Calm : (content : Text) → Calm (Response.emit_thinking content)
emit_thinking-Calm content =
    Calm-of Thinking _
      (Triple-seq Any Thinking Thinking _ _ ensure_thinking_block-Triple
        (emit_thinking_delta-Triple content))
      (Quiet-seq _ _ ensure_thinking_block-Quiet (emit_thinking_delta-Quiet content))

pub emit_text-Calm : (content : Text) → Calm (Response.emit_text content)
emit_text-Calm content =
    Calm-of Texting _
      (Triple-seq Any Texting Texting _ _ ensure_text_block-Triple (emit_text_delta-Triple content))
      (Quiet-seq _ _ ensure_text_block-Quiet (emit_text_delta-Quiet content))

pub emit_reasoning-Calm : (reasoning : Option Text) → Calm (Response.emit_reasoning reasoning)
unfolding Response.emit_reasoning
emit_reasoning-Calm none = Calm-pure
emit_reasoning-Calm (some reasoning) =
    Calm-when (not (is_empty reasoning)) _ (emit_thinking-Calm reasoning)

pub emit_tool_use-Calm :
    (json : JsonLib) (tool_use : ToolUse json) → Calm (Response.emit_tool_use json tool_use)
unfolding Response.emit_tool_use
emit_tool_use-Calm json tool_use =
    Calm-seq _ _ close_content_blocks-Calm (whole_block-Calm _ _ refl)

module _ (json : JsonLib) (parser : ToolParser json) (uuid : ℕ → Text) where
  remaining_at :
      (type : ContentType) (content : Text)
      → Calm (
          Response.emit_remaining json parser uuid
            (some (record { type = type; content = content })))
  unfolding Response.emit_remaining
  remaining_at thinking content = emit_thinking-Calm content
  remaining_at text content = emit_text-Calm content

  pub emit_remaining-Calm :
      (part : Option ContentChunk) → Calm (Response.emit_remaining json parser uuid part)
  unfolding Response.emit_remaining
  emit_remaining-Calm none = Calm-pure
  emit_remaining-Calm (some part) = remaining_at part.type part.content

  pub ensure_content-Calm :
      (error_occurred : Bool) → Calm (Response.ensure_content json parser uuid error_occurred)
  unfolding Response.ensure_content
  ensure_content-Calm error_occurred = Calm-guarded _ _ (emit_text-Calm (codes " "))

  pub emit_failure-Calm :
      (message : Option Text) → Calm (Response.emit_failure json parser uuid message)
  unfolding Response.emit_failure Builder.emit_error
  emit_failure-Calm none = Calm-pure
  emit_failure-Calm (some message) =
      Calm-seq _ _ close_content_blocks-Calm (whole_block-Calm _ _ refl)
