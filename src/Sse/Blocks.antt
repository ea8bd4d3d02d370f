-- ===== src/Sse/Blocks.antt =====
-- The thinking block and the text block: each method keeps the builder and the reader in step.
use liberated_claude_code.Prelude.{
  ℕ, ◌≡◌, ◌≢◌, refl, sym, ap, ◌∙◌, inl, inr, true, false, Option, some, arith, some_eq,
}
use liberated_claude_code.Text.{Text}
use liberated_claude_code.Sse.Builder
use liberated_claude_code.Sse.Builder.{
  Block, Delta, SseBuilder, SseEvent, Emit, Emitted, pure, when, ◌>>◌, each,
}
use liberated_claude_code.Sse.Protocol.{
  Kind, thinking, text, tool, Reader, accept, accepts, opened, closed, opened_keeps, opened_cases,
  opened-IsBounded, closed_keeps, closed_cases, closed-IsBounded, accepts_stop, accepts_delta,
}
use liberated_claude_code.Sse.Slots.{slots, IsOpenAt, SlotsOpen-mono}
use liberated_claude_code.Sse.Kept.{Triple}

pub kept_at :
    (r r' : Reader) (o : Option ℕ) (k : Kind)
    → ((i : ℕ) → r.kind i ≡ some k → r'.kind i ≡ some k)
    → IsOpenAt r o k
    → IsOpenAt r' o k
kept_at r r' o k m (i, e, h) = (i, e, m i h)

-- One index has one kind.
kind_unique :
    (r : Reader) (i j : ℕ) (k l : Kind) → i ≡ j → r.kind i ≡ some k → r.kind j ≡ some l → l ≡ k
kind_unique r i j k l e p q = some_eq (sym q ∙ ap r.kind (sym e) ∙ p)

abbrev pub NotThinking : SseBuilder → Type 0
NotThinking b = b.thinking_started ≡ false

abbrev pub Thinking : SseBuilder → Type 0
Thinking b = b.thinking_started ≡ true

abbrev pub NotTexting : SseBuilder → Type 0
NotTexting b = b.text_started ≡ false

abbrev pub Texting : SseBuilder → Type 0
Texting b = b.text_started ≡ true

pub start_thinking_block-Triple : Triple NotThinking Builder.start_thinking_block Thinking
unfolding Builder.start_thinking_block accepts accept
start_thinking_block-Triple = record {
  at = λ b r a off.
      let keeps = opened_keeps thinking r a.bound in
      (
        opened thinking r,
        ground (arith, a.next),
        record {
          next = ground (arith, a.next);
          thinking_open = λ on. (b.next_index, refl, ground (arith, a.next));
          text_open = λ on.
              kept_at r (opened thinking r) b.text_index text (λ i. keeps i text) (a.text_open on);
          tools_open =
              SlotsOpen-mono r (opened thinking r) (slots b.tool_states) (λ i. keeps i tool)
                a.tools_open;
          apart = a.apart;
          buffers = a.buffers;
          owned = λ i k e. elim (opened_cases thinking r a.bound i k e) [
            | inl (p, q) ↦ inl (q, refl, ap some (sym a.next) ∙ ap some (sym p))
            | inr p ↦ elim (a.owned i k p) [ inl (_, on, _) ↦ cc | inr more ↦ inr more ]
          ];
          bound = opened-IsBounded thinking r a.bound;
        },
        λ x. refl,
      );
}

pub start_text_block-Triple : Triple NotTexting Builder.start_text_block Texting
unfolding Builder.start_text_block accepts accept
start_text_block-Triple = record {
  at = λ b r a off.
      let keeps = opened_keeps text r a.bound in
      (
        opened text r,
        ground (arith, a.next),
        record {
          next = ground (arith, a.next);
          thinking_open = λ on.
              kept_at r (opened text r) b.thinking_index thinking (λ i. keeps i thinking)
                (a.thinking_open on);
          text_open = λ on. (b.next_index, refl, ground (arith, a.next));
          tools_open =
              SlotsOpen-mono r (opened text r) (slots b.tool_states) (λ i. keeps i tool)
                a.tools_open;
          apart = a.apart;
          buffers = a.buffers;
          owned = λ i k e. elim (opened_cases text r a.bound i k e) [
            | inl (p, q) ↦ inr (inl (q, refl, ap some (sym a.next) ∙ ap some (sym p)))
            | inr p ↦ elim (a.owned i k p) [
              | inl own ↦ inl own
              | inr (inl (_, on, _)) ↦ cc
              | inr (inr own) ↦ inr (inr own)
            ]
          ];
          bound = opened-IsBounded text r a.bound;
        },
        λ x. refl,
      );
}

-- A stop names the builder's own block, and closes no other.
pub stop_thinking_block-Triple :
    (P : SseBuilder → Type 0)
    → ((b : SseBuilder) → P b → P (record b { thinking_started = false }))
    → Triple (λ b. Thinking b × P b) Builder.stop_thinking_block (λ b. NotThinking b × P b)
unfolding Builder.stop_thinking_block accepts accept
stop_thinking_block-Triple P stable = record {
  at = λ b r a (on, p).
      let (i, at_i, here) = a.thinking_open on in
      let keeps : (j : ℕ) (k : Kind)
          → k ≢ thinking
          → r.kind j ≡ some k
          → (closed i r).kind j ≡ some k =
        λ j k n e. closed_keeps i r j k (λ q. n (kind_unique r i j thinking k q here e)) e in
      (
        closed i r,
        accepts_stop _ i _ r at_i here,
        record {
          next = a.next;
          thinking_open = λ x. cc;
          text_open = λ x.
              kept_at r (closed i r) b.text_index text (λ j. keeps j text (λ q. cc))
                (a.text_open x);
          tools_open =
              SlotsOpen-mono r (closed i r) (slots b.tool_states) (λ j. keeps j tool (λ q. cc))
                a.tools_open;
          apart = a.apart;
          buffers = a.buffers;
          owned = λ j k e.
              let (n, e') = closed_cases i r j k e in
              elim (a.owned j k e') [
                | inl (_, _, own) ↦ absurd (n (some_eq (sym at_i ∙ own)))
                | inr own ↦ inr own
              ];
          bound = closed-IsBounded i r a.bound;
        },
        λ x. (refl, stable b p),
      );
}

pub stop_text_block-Triple :
    (P : SseBuilder → Type 0)
    → ((b : SseBuilder) → P b → P (record b { text_started = false }))
    → Triple (λ b. Texting b × P b) Builder.stop_text_block (λ b. NotTexting b × P b)
unfolding Builder.stop_text_block accepts accept
stop_text_block-Triple P stable = record {
  at = λ b r a (on, p).
      let (i, at_i, here) = a.text_open on in
      let keeps : (j : ℕ) (k : Kind) → k ≢ text → r.kind j ≡ some k → (closed i r).kind j ≡ some k =
        λ j k n e. closed_keeps i r j k (λ q. n (kind_unique r i j text k q here e)) e in
      (
        closed i r,
        accepts_stop _ i _ r at_i here,
        record {
          next = a.next;
          thinking_open = λ x.
              kept_at r (closed i r) b.thinking_index thinking (λ j. keeps j thinking (λ q. cc))
                (a.thinking_open x);
          text_open = λ x. cc;
          tools_open =
              SlotsOpen-mono r (closed i r) (slots b.tool_states) (λ j. keeps j tool (λ q. cc))
                a.tools_open;
          apart = a.apart;
          buffers = a.buffers;
          owned = λ j k e.
              let (n, e') = closed_cases i r j k e in
              elim (a.owned j k e') [
                | inl own ↦ inl own
                | inr (inl (_, _, own)) ↦ absurd (n (some_eq (sym at_i ∙ own)))
                | inr (inr own) ↦ inr (inr own)
              ];
          bound = closed-IsBounded i r a.bound;
        },
        λ x. (refl, stable b p),
      );
}

pub emit_thinking_delta-Triple :
    (content : Text) → Triple Thinking (Builder.emit_thinking_delta content) Thinking
unfolding Builder.emit_thinking_delta accepts accept
emit_thinking_delta-Triple content = record {
  at = λ b r a on.
      let (i, at_i, here) = a.thinking_open on in
      (
        r,
        accepts_delta _ i _ r at_i here,
        record {
          next = a.next;
          thinking_open = a.thinking_open;
          text_open = a.text_open;
          tools_open = a.tools_open;
          apart = a.apart;
          buffers = a.buffers;
          owned = a.owned;
          bound = a.bound;
        },
        λ x. on,
      );
}

pub emit_text_delta-Triple :
    (content : Text) → Triple Texting (Builder.emit_text_delta content) Texting
unfolding Builder.emit_text_delta accepts accept
emit_text_delta-Triple content = record {
  at = λ b r a on.
      let (i, at_i, here) = a.text_open on in
      (
        r,
        accepts_delta _ i _ r at_i here,
        record {
          next = a.next;
          thinking_open = a.thinking_open;
          text_open = a.text_open;
          tools_open = a.tools_open;
          apart = a.apart;
          buffers = a.buffers;
          owned = a.owned;
          bound = a.bound;
        },
        λ x. on,
      );
}
