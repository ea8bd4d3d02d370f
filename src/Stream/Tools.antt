-- ===== src/Stream/Tools.antt =====
-- providers/openai_compat.py: the steps of `_process_tool_call`, against the reader of the events.
use liberated_claude_code.Prelude.{
  ℕ, ◌≡◌, refl, sym, ap, ◌∙◌, inl, inr, Bool, true, false, not, ◌&&◌, ◌||◌, [], ◌∷◌, ◌++◌, Option,
  none, some, arith, ◌==◌, if◌then◌else◌, Bool-cases, Option-cases, some_eq, none≢some, length,
}
use liberated_claude_code.Text.{Text, codes}
use liberated_claude_code.Sse.Tools.{
  ToolCallState, ToolStates, JsonLib, Flag, Buffered, incomplete, complete, no_object, get_tool,
  put_tool, named, is_empty, register_tool_name, merge_name, buffer_task_args, buffered_at,
}
use liberated_claude_code.Sse.Builder.{SseBuilder, when, start_tool_block, emit_tool_delta}
use liberated_claude_code.Sse.Protocol.{Reader, accepts}
use liberated_claude_code.Sse.Slots.{
  slots, slot, put_slot, slots-put_tool, SlotsOpen-put, SlotsApart-put, Holds-put_keep,
}
use liberated_claude_code.Sse.Kept.{Agree, BuffersStarted, Triple, Any, Triple-seq, Triple-pure}
use liberated_claude_code.Sse.ToolBlocks.{
  Agree-same, BuffersStarted-put, HasTool, NoTool, slots_put_same, IsFree-slots, get_tool-put_tool,
  start_tool_block-Triple, emit_tool_delta-Triple,
}
use liberated_claude_code.Sse.Compose.{Triple-weaken, Triple-when}
use liberated_claude_code.Stream.Chunk.{
  ToolIndex, missing, negative, at, FunctionDelta, ToolCallDelta,
}
use liberated_claude_code.Stream.ToolCalls
use liberated_claude_code.Stream.ToolCalls.{is_truthy, or_default, text_eq}

abbrev pub with_tools : ToolStates → SseBuilder → SseBuilder
with_tools d b = record b { tool_states = d }

pub Agree-with_tools :
    (d : ToolStates) (b : SseBuilder) (r : Reader)
    → slots d ≡ slots b.tool_states
    → BuffersStarted d
    → Agree b r
    → Agree (with_tools d b) r
Agree-with_tools d b r same buf a =
    Agree-same b (with_tools d b) r refl refl refl refl refl same buf a

pub BuffersStarted-get :
    (k : ℕ) (d : ToolStates) (s : ToolCallState)
    → get_tool k d ≡ some s
    → BuffersStarted d
    → is_empty s.task_arg_buffer ≡ false
    → s.started ≡ true
unfolding get_tool
BuffersStarted-get k [] s e h x = absurd (none≢some e)
BuffersStarted-get k ((j, t) ∷ d) s e h x = elim (Bool-cases (j == k)) [
  | inl p ↦
      let same : some t ≡ some s = rw p at e in
      let at_t : is_empty t.task_arg_buffer ≡ false =
        ap (λ (u : ToolCallState). is_empty u.task_arg_buffer) (some_eq same) ∙ x in
      ap (λ (u : ToolCallState). u.started) (sym (some_eq same)) ∙ h.0 at_t
  | inr p ↦ BuffersStarted-get k d s (rw p at e) h.1 x
]

Agree-named :
    (k : ℕ) (name : Text) (b : SseBuilder) (r : Reader)
    → get_tool k b.tool_states ≡ none
    → Agree b r
    → Agree (with_tools (put_tool k (named name) b.tool_states) b) r
Agree-named k name b r e a =
    let d = b.tool_states in
    let same : slots (put_tool k (named name) d) ≡ put_slot k none (slots d) =
      slots-put_tool k (named name) d in
    let free = IsFree-slots k d (λ s p. absurd (none≢some (sym e ∙ p))) in
    record {
      next = a.next;
      thinking_open = a.thinking_open;
      text_open = a.text_open;
      tools_open = rw same (SlotsOpen-put r k none (slots d) tt a.tools_open);
      apart = rw same (SlotsApart-put k none (slots d) (λ n p. absurd (none≢some p)) a.apart);
      buffers = BuffersStarted-put k (named name) d (λ x. cc) a.buffers;
      owned = λ i j p. elim (a.owned i j p) [
        | inl own ↦ inl own
        | inr (inl own) ↦ inr (inl own)
        | inr (inr (q, h)) ↦ inr (inr (q, rw same (Holds-put_keep i k none (slots d) free h)))
      ];
      bound = a.bound;
    }

Agree-register :
    (k : ℕ) (name : Text) (b : SseBuilder) (r : Reader)
    → Agree b r
    → Agree (with_tools (register_tool_name k name b.tool_states) b) r
unfolding register_tool_name
Agree-register k name b r a = elim (Option-cases (get_tool k b.tool_states)) [
  | inl e ↦ rw (e, register_tool_name) (Agree-named k name b r e a)
  | inr (s, e) ↦
      let t : ToolCallState = record s { name = merge_name s.name name } in
      rw (e, register_tool_name)
        (Agree-with_tools (put_tool k t b.tool_states) b r
          (slots_put_same k s t b.tool_states e refl)
          (BuffersStarted-put k t b.tool_states (BuffersStarted-get k b.tool_states s e a.buffers)
            a.buffers)
          a)
]

register_name-Triple :
    (k : ℕ) (name : Option Text) → Triple Any (ToolCalls.register_name k name) Any
unfolding ToolCalls.register_name accepts
register_name-Triple k none = record { at = λ b r a p. (r, refl, a, λ x. tt) }
register_name-Triple k (some name) = record {
  at = λ b r a p. (r, refl, Agree-register k name b r a, λ x. tt);
}

NoTool-none : (k : ℕ) (b : SseBuilder) → get_tool k b.tool_states ≡ none → NoTool k b
NoTool-none k b e s p = absurd (none≢some (sym e ∙ p))

NoTool-some :
    (k : ℕ) (b : SseBuilder) (s : ToolCallState)
    → get_tool k b.tool_states ≡ some s
    → s.started ≡ false
    → NoTool k b
NoTool-some k b s e off t p = ap (λ (u : ToolCallState). u.started) (some_eq (sym p ∙ e)) ∙ off

started_before : (s : ToolCallState) (c : Bool) → not s.started && c ≡ true → s.started ≡ false
started_before s c h = ground (arith, Bool-cases s.started)

-- A start under a test that the call was not started before.
Agree-start_when :
    (c : Bool) (k : ℕ) (tool_id name : Text) (b : SseBuilder) (r : Reader)
    → Agree b r
    → (c ≡ true → NoTool k b)
    → (c ≡ false → HasTool k b)
    → let e = when c (start_tool_block k tool_id name) b in
      (r' : Reader) × (accepts e.events r ≡ some r')
      × Agree e.sse r'
      × (e.raised ≡ false → HasTool k e.sse)
Agree-start_when true k tool_id name b r a off on =
    (start_tool_block-Triple k tool_id name).at b r a (off refl)
Agree-start_when false k tool_id name b r a off on = (Triple-pure (HasTool k)).at b r a (on refl)

Agree-maybe_start :
    (c : Bool) (k : ℕ) (tool_id name : Text) (b : SseBuilder) (r : Reader)
    → Agree b r
    → (c ≡ true → NoTool k b)
    → let e = when c (start_tool_block k tool_id name) b in
      (r' : Reader) × (accepts e.events r ≡ some r')
      × Agree e.sse r'
      × (e.raised ≡ false → Any e.sse)
Agree-maybe_start true k tool_id name b r a off =
    let (r', acc, a', done) = (start_tool_block-Triple k tool_id name).at b r a (off refl) in
    (r', acc, a', λ x. tt)
Agree-maybe_start false k tool_id name b r a off = (Triple-pure Any).at b r a tt

if_holds {ℓ} :
    {A : Type ℓ} (P : A → Type 0) (c : Bool) (x y : A) → P x → P y → P (if c then x else y)
if_holds P true x y p q = p
if_holds P false x y p q = q

module _ (uuid : ℕ → Text) where
  start_named-Triple : (k : ℕ) (id : Option Text) → Triple Any (ToolCalls.start_named uuid k id) Any
  unfolding ToolCalls.start_named
  start_named-Triple k id = record {
    at = λ b r a p. elim (Option-cases (get_tool k b.tool_states)) [
      | inl e ↦
          rw (e, ToolCalls.start_named)
            (Agree-maybe_start (is_truthy id) k (ToolCalls.tool_id uuid id b) [] b r a
              (λ x. NoTool-none k b e))
      | inr (s, e) ↦
          rw (e, ToolCalls.start_named)
            (Agree-maybe_start (not s.started && (not (is_empty s.name) || is_truthy id)) k
              (ToolCalls.tool_id uuid id b) s.name b r a
              (λ x. NoTool-some k b s e (started_before s _ x)))
    ];
  }

  start_for_arguments-Triple :
      (k : ℕ) (id : Option Text) → Triple Any (ToolCalls.start_for_arguments uuid k id) (HasTool k)
  unfolding ToolCalls.start_for_arguments
  start_for_arguments-Triple k id = record {
    at = λ b r a p. elim (Option-cases (get_tool k b.tool_states)) [
      | inl e ↦
          rw (e, ToolCalls.start_for_arguments)
            ((start_tool_block-Triple k (ToolCalls.tool_id uuid id b) (codes "tool_call")).at b r a
              (NoTool-none k b e))
      | inr (s, e) ↦
          rw (e, ToolCalls.start_for_arguments)
            (Agree-start_when (not s.started) k (ToolCalls.tool_id uuid id b)
              (or_default (some s.name) (codes "tool_call")) b r a
              (λ x. NoTool-some k b s e (ground (arith, x))) (λ x. (s, e, ground (arith, x))))
    ];
  }

module _ (json : JsonLib) where
  open json use {Items, loads, dumps}

  emit_buffered-Triple :
      (k : ℕ) (x : Buffered json) → Triple (HasTool k) (ToolCalls.emit_buffered json k x) Any
  unfolding ToolCalls.emit_buffered accepts
  emit_buffered-Triple k incomplete = record { at = λ b r a p. (r, refl, a, λ x. tt) }
  emit_buffered-Triple k (complete args) = record {
    at = λ b r a p.
        let (r', acc, a', done) = (emit_tool_delta-Triple k (dumps args)).at b r a p in
        (r', acc, a', λ x. tt);
  }
  emit_buffered-Triple k no_object = record { at = λ b r a p. (r, refl, a, λ x. tt) }

  buffered_keeps :
      (o : Option (Option (Flag × Items))) (s : ToolCallState)
      → let t = (buffered_at json o s).0 in (slot t ≡ slot s) × (t.started ≡ s.started)
  buffered_keeps none s = (refl, refl)
  buffered_keeps (some none) s = (refl, refl)
  buffered_keeps (some (some args)) s = (refl, refl)

  -- What holding back arguments leaves of the tools.
  abbrev KeptTools : ℕ → ToolStates → ToolStates → Type 0
  KeptTools k d d' =
      (slots d' ≡ slots d)
      × BuffersStarted d'
      × ((s : ToolCallState) × (get_tool k d' ≡ some s) × (s.started ≡ true))

  buffer_keeps :
      (k : ℕ) (args : Text) (d : ToolStates) (s : ToolCallState)
      → get_tool k d ≡ some s
      → s.started ≡ true
      → BuffersStarted d
      → KeptTools k d (buffer_task_args json k args d).0
  unfolding buffer_task_args
  buffer_keeps k args d s e on h =
      let s' : ToolCallState = record s { task_arg_buffer = s.task_arg_buffer ++ args } in
      let r = buffered_at json (loads s'.task_arg_buffer) s' in
      let k' = buffered_keeps (loads s'.task_arg_buffer) s' in
      rw (e, buffer_task_args)
        (if_holds (λ (m : ToolStates × Buffered json). KeptTools k d m.0) s.task_args_emitted
          (d, incomplete) (put_tool k r.0 d, r.1) (refl, h, (s, e, on))
          (
            slots_put_same k s r.0 d e k'.0,
            BuffersStarted-put k r.0 d (λ z. k'.1 ∙ on) h,
            (r.0, get_tool-put_tool k r.0 d, k'.1 ∙ on),
          ))

  pub emit_tool_delta-Any : (k : ℕ) (t : Text) → Triple (HasTool k) (emit_tool_delta k t) Any
  emit_tool_delta-Any k t =
      Triple-weaken (HasTool k) (HasTool k) (HasTool k) Any _ (λ b p. p) (λ b p. tt)
        (emit_tool_delta-Triple k t)

  emit_arguments-Triple :
      (k : ℕ) (args : Text) → Triple (HasTool k) (ToolCalls.emit_arguments json k args) Any
  unfolding ToolCalls.emit_arguments
  emit_arguments-Triple k args = record {
    at = λ b r a (s, e, on). elim (Bool-cases (text_eq s.name (codes "Task"))) [
      | inl x ↦
          let (same, buf, held) = buffer_keeps k args b.tool_states s e on a.buffers in
          let m = buffer_task_args json k args b.tool_states in
          rw (e, ToolCalls.emit_arguments)
            (simp x (
              (emit_buffered-Triple k m.1).at (with_tools m.0 b) r
                (Agree-with_tools m.0 b r same buf a) held))
      | inr x ↦
          rw (e, ToolCalls.emit_arguments)
            (simp x ((emit_tool_delta-Any k args).at b r a (s, e, on)))
    ];
  }

  process_arguments-Triple :
      (uuid : ℕ → Text) (k : ℕ) (id args : Option Text)
      → Triple Any (ToolCalls.process_arguments json uuid k id args) Any
  unfolding ToolCalls.process_arguments
  process_arguments-Triple uuid k id none = Triple-pure Any
  process_arguments-Triple uuid k id (some args) = Triple-when Any (not (is_empty args)) _ (
      Triple-seq Any (HasTool k) Any _ _ (start_for_arguments-Triple uuid k id)
        (emit_arguments-Triple k args))

  process_at-Triple :
      (uuid : ℕ → Text) (k : ℕ) (id : Option Text) (function : FunctionDelta)
      → Triple Any (ToolCalls.process_at json uuid k id function) Any
  unfolding ToolCalls.process_at
  process_at-Triple uuid k id function =
      Triple-seq Any Any Any _ _
        (Triple-seq Any Any Any _ _ (register_name-Triple k function.name)
          (start_named-Triple uuid k id))
        (process_arguments-Triple uuid k id function.arguments)

  raise-Triple : Triple Any ToolCalls.raise Any
  unfolding accepts
  raise-Triple = record { at = λ b r a p. (r, refl, a, λ x. tt) }

  process_function-Triple :
      (uuid : ℕ → Text) (index : ToolIndex) (id : Option Text) (function : Option FunctionDelta)
      → Triple Any (ToolCalls.process_function json uuid index id function) Any
  process_function-Triple uuid missing id none = raise-Triple
  process_function-Triple uuid negative id none = raise-Triple
  process_function-Triple uuid (at k) id none = raise-Triple
  process_function-Triple uuid missing id (some function) = raise-Triple
  process_function-Triple uuid negative id (some function) = record {
    at = λ b r a p. (process_at-Triple uuid (length b.tool_states) id function).at b r a p;
  }
  process_function-Triple uuid (at k) id (some function) = process_at-Triple uuid k id function

  pub process_tool_call-Triple :
      (uuid : ℕ → Text) (tc : ToolCallDelta)
      → Triple Any (ToolCalls.process_tool_call json uuid tc) Any
  unfolding ToolCalls.process_tool_call
  process_tool_call-Triple uuid tc = process_function-Triple uuid tc.index tc.id tc.function
