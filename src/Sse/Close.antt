-- ===== src/Sse/Close.antt =====
-- providers/common/sse_builder.py: the blocks that are open after `close_all_blocks`.
use liberated_claude_code.Prelude.{
  ℕ, ◌≡◌, ◌≢◌, refl, sym, ap, ◌∙◌, inl, inr, true, false, [], ◌∷◌, Option, none, some, arith, ◌==◌,
  ==_iff, Bool-cases, Option-cases, some_eq, none≢some,
}
use liberated_claude_code.Sse.Tools.{ToolCallState, ToolStates, get_tool}
use liberated_claude_code.Sse.Builder
use liberated_claude_code.Sse.Builder.{SseBuilder, Emit, Emitted, pure, when, ◌>>◌, stop_tools}
use liberated_claude_code.Sse.Protocol.{
  Kind, tool, Reader, accepts, accepts-append, closed, closed_keeps, closed_cases, accepts_stop,
}
use liberated_claude_code.Sse.Slots.{slot, slots, get_slot, Holds, SlotsOpen, SlotsApart, SlotOpen}
use liberated_claude_code.Sse.Kept.{Owned, Agree}
use liberated_claude_code.Sse.Blocks.{NotThinking, NotTexting}
use liberated_claude_code.Sse.Compose.{close_content_blocks-Triple}

-- No block is open.
abbrev pub AllClosed : Reader → Type 0
AllClosed r = (i : ℕ) → r.kind i ≡ none

-- The entries are those that a lookup in `full` finds.
abbrev AllFound : ToolStates → ToolStates → Type 0
AllFound [] full = Unit {0}
AllFound ((k, s) ∷ d) full = (get_tool k full ≡ some s) × AllFound d full

get_slot-none : (k : ℕ) (d : ToolStates) → get_slot k (slots d) ≡ none → get_tool k d ≡ none
unfolding get_slot get_tool
get_slot-none k [] e = refl
get_slot-none k ((j, s) ∷ d) e = ground (arith, get_slot-none k d)

get_tool-cons_ne :
    (j k : ℕ) (s t : ToolCallState) (d : ToolStates)
    → get_tool j d ≡ some t
    → get_tool k d ≡ none
    → get_tool j ((k, s) ∷ d) ≡ some t
unfolding get_tool
get_tool-cons_ne j k s t d e n = elim (Bool-cases (k == j)) [
  | inl h ↦
      let same : k ≡ j = (==_iff k j).0 h in
      absurd (none≢some (sym n ∙ ap (λ i. get_tool i d) same ∙ e))
  | inr h ↦ rw h e
]

AllFound-cons :
    (e : ToolStates) (k : ℕ) (s : ToolCallState) (d : ToolStates)
    → get_tool k d ≡ none
    → AllFound e d
    → AllFound e ((k, s) ∷ d)
AllFound-cons [] k s d n h = tt
AllFound-cons ((j, t) ∷ e) k s d n h =
    (get_tool-cons_ne j k s t d h.0 n, AllFound-cons e k s d n h.1)

get_tool-head : (k : ℕ) (s : ToolCallState) (d : ToolStates) → get_tool k ((k, s) ∷ d) ≡ some s
unfolding get_tool
get_tool-head k s d = rw ((==_iff k k).1 refl) refl

AllFound-self : (d : ToolStates) → SlotsApart (slots d) → AllFound d d
AllFound-self [] a = tt
AllFound-self ((k, s) ∷ d) a =
    (get_tool-head k s d, AllFound-cons d k s d (get_slot-none k d a.1) (AllFound-self d a.2))

-- The tools of `d` hold all that is open.
pub record OpenTools (d : ToolStates) (r : Reader) : Type 0 where
  pub tools_open : SlotsOpen r (slots d)
  pub apart : SlotsApart (slots d)
  pub owned : (i : ℕ) (k : Kind) → r.kind i ≡ some k → Holds i (slots d)

pub record Closes (r : Reader) (b : SseBuilder) (f : Emit) : Type 0 where
  pub reader : Reader
  pub accepted : accepts (f b).events r ≡ some reader
  pub all_closed : AllClosed reader
  pub returned : (f b).raised ≡ false

slots_mono :
    (r r' : Reader) (i : ℕ) (d : ToolStates)
    → ((j : ℕ) → i ≢ j → r.kind j ≡ some tool → r'.kind j ≡ some tool)
    → ¬ Holds i (slots d)
    → SlotsOpen r (slots d)
    → SlotsOpen r' (slots d)
slots_mono r r' i [] m n o = tt
slots_mono r r' i ((k, s) ∷ d) m n o =
    (slot_mono (slot s) (λ e. n (inl e)) o.0, slots_mono r r' i d m (λ h. n (inr h)) o.1)
  where
    slot_mono : (x : Option (Option ℕ)) → (x ≡ some (some i) → ⊥) → SlotOpen r x → SlotOpen r' x
    slot_mono none e o = tt
    slot_mono (some p) e (j, q, h) = (j, q, m j (λ same. e (ap some (q ∙ ap some (sym same)))) h)

none_of_Holds : (r : Reader) → ((i : ℕ) (k : Kind) → r.kind i ≡ some k → ⊥) → AllClosed r
none_of_Holds r h i = elim (Option-cases (r.kind i)) [ inl e ↦ e | inr (k, e) ↦ absurd (h i k e) ]

stop_tools-skip :
    (k : ℕ) (s : ToolCallState) (d : ToolStates) (b : SseBuilder)
    → s.started ≡ false
    → stop_tools ((k, s) ∷ d) b ≡ stop_tools d b
unfolding stop_tools ◌>>◌
stop_tools-skip k s d b off = simp off

stop_tool_block-found :
    (k : ℕ) (s : ToolCallState) (b : SseBuilder)
    → get_tool k b.tool_states ≡ some s
    → Builder.stop_tool_block k b
      ≡ record { sse = b; events = Builder.content_block_stop s.block_index ∷ []; raised = false }
unfolding Builder.stop_tool_block
stop_tool_block-found k s b found = rw (found, Builder.stop_tool_block) refl

stop_tools-stop :
    (k : ℕ) (s : ToolCallState) (d : ToolStates) (b : SseBuilder)
    → s.started ≡ true
    → get_tool k b.tool_states ≡ some s
    → stop_tools ((k, s) ∷ d) b ≡ record {
      sse = (stop_tools d b).sse;
      events = Builder.content_block_stop s.block_index ∷ (stop_tools d b).events;
      raised = (stop_tools d b).raised;
    }
unfolding stop_tools ◌>>◌
stop_tools-stop k s d b on found = simp (on, stop_tool_block-found k s b found)

-- One started tool is stopped.
OpenTools-stop :
    (k : ℕ) (s : ToolCallState) (d : ToolStates) (r : Reader) (i : ℕ)
    → slot s ≡ some (some i)
    → OpenTools ((k, s) ∷ d) r
    → OpenTools d (closed i r)
OpenTools-stop k s d r i at_i o = record {
  tools_open =
      slots_mono r (closed i r) i d (λ j n e. closed_keeps i r j tool n e) (o.apart.0 i at_i)
        o.tools_open.1;
  apart = o.apart.2;
  owned = λ j l e.
      let (n, e') = closed_cases i r j l e in
      elim (o.owned j l e') [ inl p ↦ absurd (n (some_eq (some_eq (sym at_i ∙ p)))) | inr h ↦ h ];
}

slot_on : (s : ToolCallState) → s.started ≡ true → slot s ≡ some s.block_index
slot_on s e = rw e

slot_off : (s : ToolCallState) → s.started ≡ false → slot s ≡ none
slot_off s e = rw e

pub stop_tools-Closes :
    (d : ToolStates) (b : SseBuilder) (r : Reader)
    → AllFound d b.tool_states
    → OpenTools d r
    → Closes r b (stop_tools d)
unfolding stop_tools accepts
stop_tools-Closes [] b r f o = record {
  reader = r;
  accepted = refl;
  all_closed = none_of_Holds r o.owned;
  returned = refl;
}
stop_tools-Closes ((k, s) ∷ d) b r f o = elim (Bool-cases s.started) [
  | inl on ↦
      let (i, at_i, here) : SlotOpen r (some s.block_index) = rw (slot_on s on) at o.tools_open.0 in
      let held = slot_on s on ∙ ap some at_i in
      let c = stop_tools-Closes d b (closed i r) f.1 (OpenTools-stop k s d r i held o) in
      let same = stop_tools-stop k s d b on f.0 in
      record {
        reader = c.reader;
        accepted =
            ap (λ (e : Emitted). accepts e.events r) same
            ∙ accepts-append (Builder.content_block_stop s.block_index ∷ []) (stop_tools d b).events
                r (closed i r) (accepts_stop s.block_index i tool r at_i here)
            ∙ c.accepted;
        all_closed = c.all_closed;
        returned = ap (λ (e : Emitted). e.raised) same ∙ c.returned;
      }
  | inr off ↦
      let rest : OpenTools d r = record {
        tools_open = o.tools_open.1;
        apart = o.apart.2;
        owned = λ i l e. elim (o.owned i l e) [
          | inl p ↦ absurd (none≢some (sym (slot_off s off) ∙ p))
          | inr h ↦ h
        ];
      } in
      let c = stop_tools-Closes d b r f.1 rest in
      let same = stop_tools-skip k s d b off in
      record {
        reader = c.reader;
        accepted = ap (λ (e : Emitted). accepts e.events r) same ∙ c.accepted;
        all_closed = c.all_closed;
        returned = ap (λ (e : Emitted). e.raised) same ∙ c.returned;
      }
]

only_tools :
    (b : SseBuilder) (i : ℕ) (k : Kind)
    → NotThinking b
    → NotTexting b
    → Owned b i k
    → Holds i (slots b.tool_states)
only_tools b i k nt nx (inl (_, on, _)) = cc
only_tools b i k nt nx (inr (inl (_, on, _))) = cc
only_tools b i k nt nx (inr (inr (_, h))) = h

not_raised-close_content_blocks : (b : SseBuilder) → (Builder.close_content_blocks b).raised ≡ false
unfolding Builder.close_content_blocks Builder.guarded ◌>>◌ Builder.stop_thinking_block
    Builder.stop_text_block
not_raised-close_content_blocks b = ground arith

-- From a builder that agrees with the reader of its events, the events of `close_all_blocks` are
-- accepted, no block is left open, and no exception leaves the method.
pub close_all_blocks-Closes :
    (b : SseBuilder) (r : Reader) → Agree b r → Closes r b Builder.close_all_blocks
unfolding Builder.close_all_blocks ◌>>◌
close_all_blocks-Closes b r a =
    let (r', acc, a', done) = close_content_blocks-Triple.at b r a tt in
    let quiet = not_raised-close_content_blocks b in
    let c = (Builder.close_content_blocks b).sse in
    let (nx, nt) = done quiet in
    let s = stop_tools-Closes c.tool_states c r' (AllFound-self c.tool_states a'.apart) (record {
      tools_open = a'.tools_open;
      apart = a'.apart;
      owned = λ i k e. only_tools c i k nt nx (a'.owned i k e);
    }) in
    record {
      reader = s.reader;
      accepted = simp quiet (accepts-append _ _ r r' acc ∙ s.accepted);
      all_closed = s.all_closed;
      returned = simp quiet s.returned;
    }
