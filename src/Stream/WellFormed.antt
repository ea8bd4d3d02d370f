-- ===== src/Stream/WellFormed.antt =====
-- providers/openai_compat.py: the whole answer of `_stream_response_impl`.
use liberated_claude_code.Prelude.{
  ℕ, ◌≡◌, refl, ◌∙◌, ◌⊎◌, inl, inr, Bool, true, false, List, [], ◌∷◌, ◌++◌, Option, none, some,
  String, is_some, Bool-cases, Option-cases, if◌then◌else◌,
}
use liberated_claude_code.Text.{Text}
use liberated_claude_code.Think
use liberated_claude_code.Think.{ContentChunk, ContentType, text, thinking}
use liberated_claude_code.Sse.Tools.{JsonLib, is_empty}
use liberated_claude_code.Sse.Builder.{
  SseBuilder, SseEvent, Emit, ◌>>◌, message_start, message_delta, message_stop, new,
  close_all_blocks, map_stop_reason, estimate_output_tokens,
}
use liberated_claude_code.Sse.Protocol.{Reader, fresh, accepts, accepts-append}
use liberated_claude_code.Sse.Kept.{Agree, Triple, Any, Triple-seq, Triple-pure}
use liberated_claude_code.Sse.Close.{AllClosed, Closes, close_all_blocks-Closes}
use liberated_claude_code.Sse.Compose.{Triple-each}
use liberated_claude_code.Stream.Chunk.{Chunk, Choice, ChoiceDelta, ToolCallDelta, ToolParser}
use liberated_claude_code.Stream.Response
use liberated_claude_code.Stream.Tools.{process_tool_call-Triple}
use liberated_claude_code.Stream.Flush.{flush_buffers-Triple, flush_buffers-quiet}
use liberated_claude_code.Stream.Calm.{
  Calm, Calm-seq, Calm-when, Calm-each, close_content_blocks-Calm, emit_thinking-Calm,
  emit_text-Calm, emit_reasoning-Calm, emit_tool_use-Calm, emit_remaining-Calm, ensure_content-Calm,
  emit_failure-Calm,
}
use liberated_claude_code.Stream.Counted.{Raises, estimate_output_tokens-none}

pub Agree-new : (n : ℕ) → Agree (new n) fresh
unfolding new
Agree-new n = record {
  next = refl;
  thinking_open = λ e. cc;
  text_open = λ e. cc;
  tools_open = tt;
  apart = tt;
  buffers = tt;
  owned = λ i k e. cc;
  bound = λ i e. refl;
}

-- These events and the end of the message, and no exception.
abbrev pub IsEnded : ℕ → List SseEvent → List SseEvent × Bool → Type 0
IsEnded input_tokens events answer =
    (stop_reason : String) × (output_tokens : ℕ) × (answer
      ≡ (events ++ message_delta stop_reason input_tokens output_tokens ∷ message_stop ∷ [], false))

module _ (json : JsonLib) (parser : ToolParser json) (uuid : ℕ → Text) where
  open parser use {State}

  abbrev SessionOf : Type 0
  SessionOf = Response.Session json parser uuid

  handle_part-Triple :
      (part : ContentChunk) (s : State)
      → Triple Any (Response.handle_part json parser uuid part s).1 Any
  unfolding Response.handle_part Response.emit_filtered
  handle_part-Triple part s = at_type part.type part.content
    where
      at_type :
          (type : ContentType) (content : Text)
          → Triple Any
              (Response.handle_part json parser uuid
                (record { type = type; content = content })
                s).1
              Any
      at_type thinking content = (emit_thinking-Calm content).keeps
      at_type text content =
          (Calm-seq _ _ (Calm-when _ _ (emit_text-Calm _))
            (Calm-each _ _ (emit_tool_use-Calm json))).keeps

  handle_parts-Triple :
      (parts : List ContentChunk) (s : State)
      → Triple Any (Response.handle_parts json parser uuid parts s).1 Any
  unfolding Response.handle_parts
  handle_parts-Triple [] s = Triple-pure Any
  handle_parts-Triple (part ∷ parts) s =
      Triple-seq Any Any Any _ _ (handle_part-Triple part s)
        (handle_parts-Triple parts (Response.handle_part json parser uuid part s).0)

  handle_content-Triple :
      (content : Option Text) (p : SessionOf)
      → Triple Any (Response.handle_content json parser uuid content p).1 Any
  unfolding Response.handle_content
  handle_content-Triple none p = Triple-pure Any
  handle_content-Triple (some content) p = elim (Bool-cases (is_empty content)) [
    | inl e ↦ simp e (Triple-pure Any)
    | inr e ↦ elim (Option-cases (Think.feed content p.think)) [
      | inl f ↦ simp (e, f) (Triple-pure Any)
      | inr ((cs, t), f) ↦ simp (e, f) (handle_parts-Triple cs p.tools)
    ]
  ]

  handle_tool_calls-Triple :
      (tcs : List ToolCallDelta) → Triple Any (Response.handle_tool_calls json parser uuid tcs) Any
  unfolding Response.handle_tool_calls
  handle_tool_calls-Triple [] = Triple-pure Any
  handle_tool_calls-Triple (tc ∷ tcs) =
      Triple-seq Any Any Any _ _ close_content_blocks-Calm.keeps
        (Triple-each Any _ (tc ∷ tcs) (process_tool_call-Triple json uuid))

  handle_delta-Triple :
      (delta : ChoiceDelta) (p : SessionOf)
      → Triple Any (Response.handle_delta json parser uuid delta p).1 Any
  unfolding Response.handle_delta
  handle_delta-Triple delta p =
      Triple-seq Any Any Any _ _
        (Triple-seq Any Any Any _ _ (emit_reasoning-Calm delta.reasoning_content).keeps
          (handle_content-Triple delta.content p))
        (handle_tool_calls-Triple delta.tool_calls)

  handle_choice-Triple :
      (choice : Option Choice) (p : SessionOf)
      → Triple Any (Response.handle_choice json parser uuid choice p).1 Any
  unfolding Response.handle_choice
  handle_choice-Triple none p = Triple-pure Any
  handle_choice-Triple (some choice) p = elim (Option-cases choice.delta) [
    | inl e ↦ simp e (Triple-pure Any)
    | inr (delta, e) ↦ simp e (handle_delta-Triple delta _)
  ]

  handle_chunks-Agree :
      (chunks : List Chunk) (p : SessionOf) (b : SseBuilder) (r : Reader)
      → Agree b r
      → let e = (Response.handle_chunks json parser uuid chunks p b).1 in
        (r' : Reader) × (accepts e.events r ≡ some r') × Agree e.sse r'
  unfolding Response.handle_chunks Response.handle_chunk accepts
  handle_chunks-Agree [] p b r a = (r, refl, a)
  handle_chunks-Agree (chunk ∷ chunks) p b r a =
      let c = Response.handle_chunk json parser uuid chunk p in
      let (r', acc, a', done) = (handle_choice-Triple chunk.choice _).at b r a tt in
      let (s, acc', a'') = handle_chunks-Agree chunks c.0 (c.1 b).sse r' a' in
      elim (Bool-cases (c.1 b).raised) [
        | inl e ↦ simp e (r', acc, a')
        | inr e ↦ simp e (s, accepts-append _ _ r r' acc ∙ acc', a'')
      ]

  close_after :
      (f : Emit) (b : SseBuilder) (r : Reader)
      → Calm f
      → Agree b r
      → Closes r b (f >> close_all_blocks)
  unfolding ◌>>◌
  close_after f b r h a =
      let (r', acc, a', done) = h.keeps.at b r a tt in
      let c = close_all_blocks-Closes (f b).sse r' a' in
      let quiet = h.quiet b r a in
      record {
        reader = c.reader;
        accepted = simp quiet (accepts-append _ _ r r' acc ∙ c.accepted);
        all_closed = c.all_closed;
        returned = simp quiet c.returned;
      }

  finish_blocks-Closes :
      (error_message : Option Text) (p : SessionOf) (b : SseBuilder) (r : Reader)
      → Agree b r
      → Closes r b (Response.finish_blocks json parser uuid error_message p)
  unfolding Response.finish_blocks
  finish_blocks-Closes error_message p b r a =
      close_after _ b r
        (Calm-seq _ _
          (Calm-seq _ _
            (Calm-seq _ _
              (Calm-seq _ _ (emit_failure-Calm json parser uuid error_message)
                (emit_remaining-Calm json parser uuid (Think.flush p.think).0))
              (Calm-each _ _ (emit_tool_use-Calm json)))
            (ensure_content-Calm json parser uuid (is_some error_message)))
          (record { keeps = flush_buffers-Triple json; quiet = flush_buffers-quiet json }))
        a

  -- An answer whose blocks are whole: `body`, behind the start of the message, is accepted by the
  -- reader of content blocks and leaves none open. Then the message is ended and the handler returns,
  -- or an exception leaves it there, and then the encoder raises on some text.
  pub record IsWellFormed (encoder : Option (Text → Option ℕ)) (input_tokens : ℕ)
      (answer : List SseEvent × Bool) : Type 0 where
    pub body : List SseEvent
    pub reader : Reader
    pub accepted : accepts body fresh ≡ some reader
    pub all_closed : AllClosed reader
    pub ending :
        IsEnded input_tokens (message_start input_tokens ∷ body) answer
        ⊎ (Raises encoder × (answer ≡ (message_start input_tokens ∷ body, true)))

  end_message_lem :
      (encoder : Option (Text → Option ℕ)) (input_tokens : ℕ) (stop_reason : String)
      (usage : Option ℕ) (b : SseBuilder) (events : List SseEvent)
      → let answer =
          Response.end_message stop_reason input_tokens
            (Response.count_output encoder usage b)
            events in
        IsEnded input_tokens events answer ⊎ (Raises encoder × (answer ≡ (events, true)))
  end_message_lem encoder input_tokens stop_reason (some n) b events = inl (stop_reason, n, refl)
  end_message_lem encoder input_tokens stop_reason none b events =
      elim (Option-cases (estimate_output_tokens encoder b)) [
        | inl e ↦ inr (estimate_output_tokens-none encoder b e, rw e)
        | inr (n, e) ↦ inl (stop_reason, n, rw e)
      ]

  -- The answer by whether the body of the request can be built.
  abbrev pub Answers : Bool → Option (Text → Option ℕ) → ℕ → List SseEvent × Bool → Type 0
  Answers true encoder input_tokens answer = answer ≡ ([], true)
  Answers false encoder input_tokens answer = IsWellFormed encoder input_tokens answer

  -- Where the body of the request cannot be built, nothing is yielded and the exception leaves the
  -- handler. Otherwise, whatever chunks come, whether the client fails after them or the handling
  -- itself does: the answer is one message whose content blocks are opened with consecutive
  -- indices, get deltas of their own kind while they are open, and are all closed before the
  -- message ends; and the message is ended and the handler returns, unless the encoder raises on
  -- some text, when an exception may leave the handler behind the last block.
  pub stream_response-IsWellFormed :
      (body_raises : Bool) (encoder : Option (Text → Option ℕ)) (input_tokens : ℕ) (internal : Text)
      (chunks : List Chunk) (failure : Option Text)
      → Answers body_raises encoder input_tokens (
          Response.stream_response json parser uuid body_raises encoder input_tokens internal chunks
            failure)
  unfolding Response.stream_response
  stream_response-IsWellFormed true encoder input_tokens internal chunks failure = refl
  stream_response-IsWellFormed false encoder input_tokens internal chunks failure =
      let c =
        Response.handle_chunks json parser uuid chunks (Response.start json parser uuid)
          (new input_tokens) in
      let (r, acc, a) =
        handle_chunks-Agree chunks (Response.start json parser uuid) (new input_tokens) fresh
          (Agree-new input_tokens) in
      let error_message = if c.1.raised then some internal else failure in
      let f = finish_blocks-Closes error_message c.0 c.1.sse r a in
      let g = Response.finish_blocks json parser uuid error_message c.0 c.1.sse in
      record {
        body = c.1.events ++ g.events;
        reader = f.reader;
        accepted = accepts-append _ _ fresh r acc ∙ f.accepted;
        all_closed = f.all_closed;
        ending = simp f.returned (
            end_message_lem encoder input_tokens (map_stop_reason c.0.finish_reason) c.0.usage g.sse
              (message_start input_tokens ∷ (c.1.events ++ g.events)));
      }
