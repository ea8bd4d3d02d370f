-- ===== src/Sse/ToolBlocks.antt =====
-- providers/common/sse_builder.py: the methods on tool blocks, against the reader.
use liberated_claude_code.Prelude.{
  ℕ, suc, ◌≡◌, refl, sym, ap, ◌∙◌, inl, inr, true, false, [], ◌∷◌, ◌++◌, Option, none, some, arith,
  ◌==◌, ==_iff, Bool-cases, some_eq, none≢some,
}
use liberated_claude_code.Text.{Text}
use liberated_claude_code.Sse.Tools.{ToolCallState, ToolStates, get_tool, put_tool, is_empty}
use liberated_claude_code.Sse.Builder
use liberated_claude_code.Sse.Builder.{
  Block, Delta, SseBuilder, SseEvent, Emit, Emitted, pure, when, ◌>>◌, each,
}
use liberated_claude_code.Sse.Protocol.{
  Kind, thinking, text, tool, Reader, accept, accepts, opened, closed, opened_keeps, opened_cases,
  opened-IsBounded, closed-IsBounded, accepts_delta, whole_block_accepts, block_kind, delta_kind,
}
use liberated_claude_code.Sse.Slots.{
  slot, slots, get_slot, put_slot, IsFree, IsOpenAt, SlotsOpen-mono, SlotsOpen-put, SlotsApart-put,
  Holds-put_self, Holds-put_keep, Holds-open, SlotsOpen-get, slots-put_tool, get_slot-slots,
  put_slot_same,
}
use liberated_claude_code.Sse.Kept.{Agree, BuffersStarted, Triple}
use liberated_claude_code.Sse.Blocks.{kept_at}

pub get_tool-put_tool :
    (k : ℕ) (s : ToolCallState) (d : ToolStates) → get_tool k (put_tool k s d) ≡ some s
unfolding get_tool put_tool
get_tool-put_tool k s [] = ground (arith, (==_iff k k).1 refl)
get_tool-put_tool k s ((j, t) ∷ d) = ground (arith, (==_iff k k).1 refl, get_tool-put_tool k s d)

pub BuffersStarted-put :
    (k : ℕ) (s : ToolCallState) (d : ToolStates)
    → (is_empty s.task_arg_buffer ≡ false → s.started ≡ true)
    → BuffersStarted d
    → BuffersStarted (put_tool k s d)
unfolding put_tool
BuffersStarted-put k s [] h b = (h, tt)
BuffersStarted-put k s ((j, t) ∷ d) h b = elim (Bool-cases (j == k)) [
  | inl e ↦ rw e (h, b.1)
  | inr e ↦ rw e (b.0, BuffersStarted-put k s d h b.1)
]

-- What does not touch the indices, the flags and the slots keeps the agreement.
pub Agree-same :
    (b b' : SseBuilder) (r : Reader)
    → b'.next_index ≡ b.next_index
    → b'.thinking_index ≡ b.thinking_index
    → b'.text_index ≡ b.text_index
    → b'.thinking_started ≡ b.thinking_started
    → b'.text_started ≡ b.text_started
    → slots b'.tool_states ≡ slots b.tool_states
    → BuffersStarted b'.tool_states
    → Agree b r
    → Agree b' r
Agree-same b b' r n ti xi ts xs sl buf a = record {
  next = rw n a.next;
  thinking_open = rw (ti, ts) a.thinking_open;
  text_open = rw (xi, xs) a.text_open;
  tools_open = rw sl a.tools_open;
  apart = rw sl a.apart;
  buffers = buf;
  owned = rw (ti, xi, ts, xs, sl) a.owned;
  bound = a.bound;
}

abbrev pub HasTool : ℕ → SseBuilder → Type 0
HasTool k b = (s : ToolCallState) × (get_tool k b.tool_states ≡ some s) × (s.started ≡ true)

abbrev pub NoTool : ℕ → SseBuilder → Type 0
NoTool k b = (s : ToolCallState) → get_tool k b.tool_states ≡ some s → s.started ≡ false

pub IsFree-slots :
    (k : ℕ) (d : ToolStates)
    → ((s : ToolCallState) → get_tool k d ≡ some s → s.started ≡ false)
    → IsFree k (slots d)
unfolding get_tool get_slot
IsFree-slots k [] f x e = absurd (none≢some e)
IsFree-slots k ((j, s) ∷ d) f x e = elim (Bool-cases (j == k)) [
  | inl h ↦ ground (arith, h, e, f s)
  | inr h ↦ IsFree-slots k d (λ t p. f t (rw h p)) x (rw h at e)
]

pub start_tool_block-Triple :
    (k : ℕ) (tool_id name : Text)
    → Triple (NoTool k) (Builder.start_tool_block k tool_id name) (HasTool k)
unfolding Builder.start_tool_block accepts accept
start_tool_block-Triple k tool_id name = record {
  at = λ b r a off.
      let keeps = opened_keeps tool r a.bound in
      let free = IsFree-slots k b.tool_states off in
      let s = Builder.started_tool (get_tool k b.tool_states) b.next_index tool_id name in
      let held = started_tool_slot (get_tool k b.tool_states) b.next_index tool_id name in
      let same : slots (put_tool k s b.tool_states)
          ≡ put_slot k (some (some b.next_index)) (slots b.tool_states) =
        slots-put_tool k s b.tool_states ∙ ap (λ x. put_slot k x (slots b.tool_states)) held.1 in
      (
        opened tool r,
        ground (arith, a.next),
        record {
          next = ground (arith, a.next);
          thinking_open = λ on.
              kept_at r (opened tool r) b.thinking_index thinking (λ i. keeps i thinking)
                (a.thinking_open on);
          text_open = λ on.
              kept_at r (opened tool r) b.text_index text (λ i. keeps i text) (a.text_open on);
          tools_open = rw same (
              SlotsOpen-put (opened tool r) k _ (slots b.tool_states)
                (b.next_index, refl, ground (arith, a.next))
                (SlotsOpen-mono r (opened tool r) (slots b.tool_states) (λ i. keeps i tool)
                  a.tools_open));
          apart = rw same (
              SlotsApart-put k _ (slots b.tool_states)
                (λ n p hold.
                  let at_n : b.next_index ≡ n = some_eq (some_eq p) in
                  none≢some (
                    sym (a.bound n (omega (arith, a.next)))
                    ∙ Holds-open r n (slots b.tool_states) a.tools_open hold))
                a.apart);
          buffers = BuffersStarted-put k s b.tool_states (λ x. held.0) a.buffers;
          owned = λ i j e. elim (opened_cases tool r a.bound i j e) [
            | inl (p, q) ↦
                let at_i : b.next_index ≡ i = sym a.next ∙ sym p in
                inr
                  (inr (q, rw (same, ← at_i) (Holds-put_self k b.next_index (slots b.tool_states))))
            | inr p ↦ elim (a.owned i j p) [
              | inl own ↦ inl own
              | inr (inl own) ↦ inr (inl own)
              | inr (inr (q, h)) ↦
                  inr (inr (q, rw same (Holds-put_keep i k _ (slots b.tool_states) free h)))
            ]
          ];
          bound = opened-IsBounded tool r a.bound;
        },
        λ x. (s, get_tool-put_tool k s b.tool_states, held.0),
      );
}
  where
    started_tool_slot :
        (o : Option ToolCallState) (n : ℕ) (tool_id name : Text)
        → let s = Builder.started_tool o n tool_id name in
          (s.started ≡ true) × (slot s ≡ some (some n))
    started_tool_slot none n tool_id name = (refl, refl)
    started_tool_slot (some t) n tool_id name = (refl, refl)

-- A write to a tool that leaves its flag and its block alone.
pub slots_put_same :
    (k : ℕ) (s t : ToolCallState) (d : ToolStates)
    → get_tool k d ≡ some s
    → slot t ≡ slot s
    → slots (put_tool k t d) ≡ slots d
slots_put_same k s t d e q =
    slots-put_tool k t d
    ∙ put_slot_same k (slot t) (slots d) (get_slot-slots k d s e ∙ ap some (sym q))

slot_started : (s : ToolCallState) → s.started ≡ true → slot s ≡ some s.block_index
slot_started s e = rw e

tool_open :
    (b : SseBuilder) (r : Reader) (k : ℕ) (s : ToolCallState)
    → Agree b r
    → get_tool k b.tool_states ≡ some s
    → s.started ≡ true
    → IsOpenAt r s.block_index tool
tool_open b r k s a e on =
    SlotsOpen-get r k (some s.block_index) (slots b.tool_states) a.tools_open
      (get_slot-slots k b.tool_states s e ∙ ap some (slot_started s on))

pub emit_tool_delta-Triple :
    (k : ℕ) (partial_json : Text)
    → Triple (HasTool k) (Builder.emit_tool_delta k partial_json) (HasTool k)
unfolding Builder.emit_tool_delta
emit_tool_delta-Triple k partial_json = record {
  at = λ b r a (s, found, on).
      let (i, at_i, here) = tool_open b r k s a found on in
      let t = record s { contents = s.contents ++ partial_json ∷ [] } in
      rw (found, Builder.emit_tool_delta)
        (
          r,
          accepts_delta s.block_index i _ r at_i here,
          Agree-same b _ r refl refl refl refl refl (slots_put_same k s t b.tool_states found refl)
              (BuffersStarted-put k t b.tool_states (λ x. on) a.buffers) a,
          λ x. (t, get_tool-put_tool k t b.tool_states, on),
        );
}

-- A block of its own around one delta, of the block's kind.
pub whole_block-Triple :
    (P : SseBuilder → Type 0) (block : Block) (delta : Delta)
    → delta_kind delta ≡ block_kind block
    → ((b : SseBuilder) → P b → P (record b { next_index = suc b.next_index }))
    → Triple P (Builder.whole_block block delta) P
unfolding Builder.whole_block
whole_block-Triple P block delta same stable = record {
  at = λ b r a p.
      let r' = closed b.next_index (opened (block_kind block) r) in
      let keeps : (i : ℕ) (j : Kind) → r.kind i ≡ some j → r'.kind i ≡ some j =
        λ i j e. ground (arith, a.bound i, e, a.next) in
      let back : (i : ℕ) (j : Kind) → r'.kind i ≡ some j → r.kind i ≡ some j =
        λ i j e. ground (arith, e, a.next) in
      (
        r',
        whole_block_accepts block delta b.next_index r a.next same,
        record {
          next = ground (arith, a.next);
          thinking_open = λ on.
              kept_at r r' b.thinking_index thinking (λ i. keeps i thinking) (a.thinking_open on);
          text_open = λ on. kept_at r r' b.text_index text (λ i. keeps i text) (a.text_open on);
          tools_open = SlotsOpen-mono r r' (slots b.tool_states) (λ i. keeps i tool) a.tools_open;
          apart = a.apart;
          buffers = a.buffers;
          owned = λ i j e. a.owned i j (back i j e);
          bound = closed-IsBounded b.next_index _ (opened-IsBounded (block_kind block) r a.bound);
        },
        λ x. stable b p,
      );
}
