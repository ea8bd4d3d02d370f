-- ===== src/Stream/Flush.antt =====
-- providers/openai_compat.py: `_flush_task_arg_buffers`, against the reader of the events.
use liberated_claude_code.Prelude.{
  ℕ, ◌≡◌, refl, sym, ap, ◌∙◌, inl, inr, true, false, List, [], ◌∷◌, ◌++◌, Option, none, some, arith,
  ◌==◌, Bool-cases, some_eq, none≢some, ==_iff,
}
use liberated_claude_code.Text.{Text}
use liberated_claude_code.Sse.Tools.{
  ToolCallState, ToolStates, JsonLib, get_tool, is_empty, wants_flush, flush_task_arg_buffers,
}
use liberated_claude_code.Sse.Builder.{SseBuilder, ◌>>◌, each, emit_tool_delta}
use liberated_claude_code.Sse.Protocol.{Reader}
use liberated_claude_code.Sse.Slots.{Slots, slots, slot, get_slot, SlotsApart}
use liberated_claude_code.Sse.Kept.{Agree, BuffersStarted, Triple, Any, Triple-seq, Triple-pure}
use liberated_claude_code.Sse.ToolBlocks.{HasTool, slots_put_same, emit_tool_delta-Triple}
use liberated_claude_code.Stream.ToolCalls
use liberated_claude_code.Stream.Tools.{with_tools, Agree-with_tools}

abbrev Held : ℕ → Slots → Type 0
Held k d = (o : Option ℕ) × (get_slot k d ≡ some (some o))

abbrev AllHeld : List (ℕ × Text) → Slots → Type 0
AllHeld [] d = Unit {0}
AllHeld ((k, t) ∷ l) d = Held k d × AllHeld l d

started_of_slot : (s : ToolCallState) (o : Option ℕ) → slot s ≡ some o → s.started ≡ true
started_of_slot s o e = elim (Bool-cases s.started) [
  | inl x ↦ x
  | inr x ↦ absurd (none≢some (rw x at e))
]

Held-tool :
    (k : ℕ) (d : ToolStates)
    → Held k (slots d)
    → (s : ToolCallState) × (get_tool k d ≡ some s) × (s.started ≡ true)
unfolding get_slot get_tool
Held-tool k [] (o, e) = absurd (none≢some e)
Held-tool k ((j, s) ∷ d) (o, e) = elim (Bool-cases (j == k)) [
  | inl h ↦
      let e' : some (slot s) ≡ some (some o) = rw h at e in
      (s, rw h refl, started_of_slot s o (some_eq e'))
  | inr h ↦ rw h (Held-tool k d (o, rw h at e))
]

Held-cons :
    (j k : ℕ) (x : Option (Option ℕ)) (d : Slots)
    → get_slot k d ≡ none
    → Held j d
    → Held j ((k, x) ∷ d)
unfolding get_slot
Held-cons j k x d n (o, e) = elim (Bool-cases (k == j)) [
  | inl h ↦
      let same : k ≡ j = (==_iff k j).0 h in
      absurd (none≢some (sym n ∙ ap (λ i. get_slot i d) same ∙ e))
  | inr h ↦ (o, rw h e)
]

AllHeld-cons :
    (l : List (ℕ × Text)) (k : ℕ) (x : Option (Option ℕ)) (d : Slots)
    → get_slot k d ≡ none
    → AllHeld l d
    → AllHeld l ((k, x) ∷ d)
AllHeld-cons [] k x d n h = tt
AllHeld-cons ((j, t) ∷ l) k x d n h = (Held-cons j k x d n h.0, AllHeld-cons l k x d n h.1)

Held-head :
    (k : ℕ) (s : ToolCallState) (d : ToolStates) → s.started ≡ true → Held k (slots ((k, s) ∷ d))
unfolding get_slot
Held-head k s d on = (s.block_index, rw ((==_iff k k).1 refl) (rw on refl))

module _ (json : JsonLib) where
  wants_flush-buffer :
      (s : ToolCallState) → wants_flush json s ≡ true → is_empty s.task_arg_buffer ≡ false
  wants_flush-buffer s h = ground (arith, Bool-cases (is_empty s.task_arg_buffer))

  abbrev Flushed : ToolStates → ToolStates × List (ℕ × Text) → Type 0
  Flushed d r = (slots r.0 ≡ slots d) × BuffersStarted r.0 × AllHeld r.1 (slots d)

  flush_keeps :
      (d : ToolStates)
      → SlotsApart (slots d)
      → BuffersStarted d
      → Flushed d (flush_task_arg_buffers json d)
  unfolding flush_task_arg_buffers
  flush_keeps [] a h = (refl, tt, tt)
  flush_keeps ((k, s) ∷ d) a h =
      let (same, buf, held) = flush_keeps d a.2 h.1 in
      let rest = flush_task_arg_buffers json d in
      let more = AllHeld-cons rest.1 k (slot s) (slots d) a.1 held in
      elim (Bool-cases (wants_flush json s)) [
        | inl x ↦
            let on : s.started ≡ true = h.0 (wants_flush-buffer s x) in
            rw x (ap (λ z. (k, slot s) ∷ z) same, ((λ z. on), buf), (Held-head k s d on, more))
        | inr x ↦ rw x (ap (λ z. (k, slot s) ∷ z) same, (h.0, buf), more)
      ]

  abbrev HasSlots : Slots → SseBuilder → Type 0
  HasSlots d b = slots b.tool_states ≡ d

  slots-emit_tool_delta :
      (k : ℕ) (t : Text) (b : SseBuilder)
      → HasTool k b
      → slots (emit_tool_delta k t b).sse.tool_states ≡ slots b.tool_states
  unfolding emit_tool_delta
  slots-emit_tool_delta k t b (s, e, on) =
      rw (e, emit_tool_delta)
        (slots_put_same k s (record s { contents = s.contents ++ t ∷ [] }) b.tool_states e refl)

  emit_kept-Triple :
      (d : Slots) (k : ℕ) (t : Text)
      → Held k d
      → Triple (HasSlots d) (emit_tool_delta k t) (HasSlots d)
  emit_kept-Triple d k t held = record {
    at = λ b r a p.
        let has = Held-tool k b.tool_states (rw p held) in
        let (r', acc, a', done) = (emit_tool_delta-Triple k t).at b r a has in
        (r', acc, a', λ x. slots-emit_tool_delta k t b has ∙ p);
  }

  each_held-Triple :
      (d : Slots) (l : List (ℕ × Text))
      → AllHeld l d
      → Triple (HasSlots d) (each (λ (p : ℕ × Text). emit_tool_delta p.0 p.1) l) Any
  unfolding each
  each_held-Triple d [] h = record { at = λ b r a p. (Triple-pure Any).at b r a tt }
  each_held-Triple d ((k, t) ∷ l) h = record {
    at = λ b r a p.
        (Triple-seq (HasSlots d) (HasSlots d) Any _ _ (emit_kept-Triple d k t h.0)
            (each_held-Triple d l h.1)).at
          b r a p;
  }

  pub flush_buffers-Triple : Triple Any (ToolCalls.flush_buffers json) Any
  unfolding ToolCalls.flush_buffers
  flush_buffers-Triple = record {
    at = λ b r a p.
        let (same, buf, held) = flush_keeps b.tool_states a.apart a.buffers in
        let m = flush_task_arg_buffers json b.tool_states in
        (each_held-Triple (slots b.tool_states) m.1 held).at (with_tools m.0 b) r
          (Agree-with_tools m.0 b r same buf a) same;
  }

  emit_kept-quiet :
      (k : ℕ) (t : Text) (b : SseBuilder) → HasTool k b → (emit_tool_delta k t b).raised ≡ false
  unfolding emit_tool_delta
  emit_kept-quiet k t b (s, e, on) = rw (e, emit_tool_delta) refl

  each_held-quiet :
      (d : Slots) (l : List (ℕ × Text)) (b : SseBuilder)
      → AllHeld l d
      → HasSlots d b
      → (each (λ (p : ℕ × Text). emit_tool_delta p.0 p.1) l b).raised ≡ false
  unfolding each ◌>>◌
  each_held-quiet d [] b h same = refl
  each_held-quiet d ((k, t) ∷ l) b h same =
      let has = Held-tool k b.tool_states (rw same h.0) in
      let rest =
        each_held-quiet d l (emit_tool_delta k t b).sse h.1
          (slots-emit_tool_delta k t b has ∙ same) in
      simp (emit_kept-quiet k t b has) rest

  pub flush_buffers-quiet :
      (b : SseBuilder) (r : Reader) → Agree b r → (ToolCalls.flush_buffers json b).raised ≡ false
  unfolding ToolCalls.flush_buffers
  flush_buffers-quiet b r a =
      let (same, buf, held) = flush_keeps b.tool_states a.apart a.buffers in
      let m = flush_task_arg_buffers json b.tool_states in
      each_held-quiet (slots b.tool_states) m.1 (with_tools m.0 b) held same
