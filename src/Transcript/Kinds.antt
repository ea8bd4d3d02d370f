-- ===== src/Transcript/Kinds.antt =====
-- messaging/transcript.py: the kinds of the segments, and changes that keep them.
use liberated_claude_code.Prelude.{
  ℕ, zero, suc, ◌<◌, ◌≤◌, ◌≡◌, refl, ap, ◌∙◌, inl, inr, List, [], ◌∷◌, ◌++◌, Option, none, some,
  ◌==◌, length, arith, Bool-cases, none≢some,
}
use liberated_claude_code.Text.{Text}
use liberated_claude_code.Transcript.{
  Segment, TranscriptBuffer, Indices, thinking_segment, text_segment, tool_call_segment,
  tool_result_segment, subagent_segment, error_segment, pop_index, modify_at, append_part,
}
use liberated_claude_code.Transcript.Subagents.{set_current_tool_call}

pub data Kind : Type 0 where
  thinking plain tool_call tool_result subagent error : Kind

abbrev pub kind : Segment → Kind
kind (thinking_segment parts) = thinking
kind (text_segment parts) = plain
kind (tool_call_segment n) = tool_call
kind (tool_result_segment seg) = tool_result
kind (subagent_segment seg) = subagent
kind (error_segment message) = error

unfoldable pub kind_at : List Segment → ℕ → Option Kind
kind_at [] n = none
kind_at (s ∷ ss) zero = some (kind s)
kind_at (s ∷ ss) (suc n) = kind_at ss n

-- All of these positions hold a segment of the kind.
abbrev pub AllAt : Kind → List Segment → List ℕ → Type 0
AllAt k segs [] = Unit {0}
AllAt k segs (n ∷ ns) = (kind_at segs n ≡ some k) × AllAt k segs ns

abbrev pub positions : Indices → List ℕ
positions [] = []
positions ((i, n) ∷ d) = n ∷ positions d

abbrev pub AllBelow : ℕ → List ℕ → Type 0
AllBelow bound [] = Unit {0}
AllBelow bound (n ∷ ns) = (n < bound) × AllBelow bound ns

pub record IsValid (b : TranscriptBuffer) : Type 0 where
  pub same_depth : length b.subagent_stack ≡ length b.subagent_segments
  pub subagents : AllAt subagent b.segments b.subagent_segments
  pub open_thinking : AllAt thinking b.segments (positions b.open_thinking_by_index)
  pub open_text : AllAt plain b.segments (positions b.open_text_by_index)
  pub open_tools : AllBelow (length b.tools) (positions b.open_tools_by_index)

pub kind_at-append :
    (segs : List Segment) (s : Segment) (n : ℕ) (k : Kind)
    → kind_at segs n ≡ some k
    → kind_at (segs ++ s ∷ []) n ≡ some k
unfolding kind_at
kind_at-append [] s n k h = absurd (none≢some h)
kind_at-append (x ∷ segs) s zero k h = h
kind_at-append (x ∷ segs) s (suc n) k h = kind_at-append segs s n k h

pub kind_at-length :
    (segs : List Segment) (s : Segment) → kind_at (segs ++ s ∷ []) (length segs) ≡ some (kind s)
unfolding kind_at
kind_at-length [] s = refl
kind_at-length (x ∷ segs) s = kind_at-length segs s

pub AllAt-append :
    (k : Kind) (segs : List Segment) (s : Segment) (ns : List ℕ)
    → AllAt k segs ns
    → AllAt k (segs ++ s ∷ []) ns
AllAt-append k segs s [] h = tt
AllAt-append k segs s (n ∷ ns) h = (kind_at-append segs s n k h.0, AllAt-append k segs s ns h.1)

-- A change that keeps every segment's kind.
pub kind_at-modify_at :
    (f : Segment → Segment) (same : (s : Segment) → kind (f s) ≡ kind s) (segs : List Segment)
    (m n : ℕ)
    → kind_at (modify_at m f segs) n ≡ kind_at segs n
unfolding kind_at modify_at
kind_at-modify_at f same [] m n = refl
kind_at-modify_at f same (x ∷ segs) zero zero = ap some (same x)
kind_at-modify_at f same (x ∷ segs) zero (suc n) = refl
kind_at-modify_at f same (x ∷ segs) (suc m) zero = refl
kind_at-modify_at f same (x ∷ segs) (suc m) (suc n) = kind_at-modify_at f same segs m n

pub AllAt-modify_at :
    (f : Segment → Segment) (same : (s : Segment) → kind (f s) ≡ kind s) (k : Kind)
    (segs : List Segment) (m : ℕ) (ns : List ℕ)
    → AllAt k segs ns
    → AllAt k (modify_at m f segs) ns
AllAt-modify_at f same k segs m [] h = tt
AllAt-modify_at f same k segs m (n ∷ ns) h =
    (kind_at-modify_at f same segs m n ∙ h.0, AllAt-modify_at f same k segs m ns h.1)

pub AllAt-pop_index :
    (k : Kind) (segs : List Segment) (i : ℕ) (d : Indices)
    → AllAt k segs (positions d)
    → AllAt k segs (positions (pop_index i d))
unfolding pop_index
AllAt-pop_index k segs i [] h = h
AllAt-pop_index k segs i ((j, n) ∷ d) h = elim (Bool-cases (j == i)) [
  | inl e ↦ rw e (AllAt-pop_index k segs i d h.1)
  | inr e ↦ rw e ((h.0, AllAt-pop_index k segs i d h.1))
]

pub AllBelow-pop_index :
    (bound i : ℕ) (d : Indices)
    → AllBelow bound (positions d)
    → AllBelow bound (positions (pop_index i d))
unfolding pop_index
AllBelow-pop_index bound i [] h = h
AllBelow-pop_index bound i ((j, n) ∷ d) h = elim (Bool-cases (j == i)) [
  | inl e ↦ rw e (AllBelow-pop_index bound i d h.1)
  | inr e ↦ rw e ((h.0, AllBelow-pop_index bound i d h.1))
]

pub AllBelow-le :
    (bound more : ℕ) (ns : List ℕ) → bound ≤ more → AllBelow bound ns → AllBelow more ns
AllBelow-le bound more [] le h = tt
AllBelow-le bound more (n ∷ ns) le h = (omega (arith, h.0, le), AllBelow-le bound more ns le h.1)

pub length-modify_at :
    {A : Type 0} (n : ℕ) (f : A → A) (xs : List A) → length (modify_at n f xs) ≡ length xs
unfolding modify_at
length-modify_at n f [] = refl
length-modify_at zero f (x ∷ xs) = refl
length-modify_at (suc n) f (x ∷ xs) = ap suc (length-modify_at n f xs)

pub kind-append_part : (t : Text) (s : Segment) → kind (append_part t s) ≡ kind s
unfolding append_part
kind-append_part [] s = refl
kind-append_part (c ∷ t) (thinking_segment parts) = refl
kind-append_part (c ∷ t) (text_segment parts) = refl
kind-append_part (c ∷ t) (tool_call_segment n) = refl
kind-append_part (c ∷ t) (tool_result_segment seg) = refl
kind-append_part (c ∷ t) (subagent_segment seg) = refl
kind-append_part (c ∷ t) (error_segment message) = refl

pub kind-set_current_tool_call :
    (n : ℕ) (name : Text) (s : Segment) → kind (set_current_tool_call n name s) ≡ kind s
unfolding set_current_tool_call
kind-set_current_tool_call n name (thinking_segment parts) = refl
kind-set_current_tool_call n name (text_segment parts) = refl
kind-set_current_tool_call n name (tool_call_segment m) = refl
kind-set_current_tool_call n name (tool_result_segment seg) = refl
kind-set_current_tool_call n name (subagent_segment seg) = refl
kind-set_current_tool_call n name (error_segment message) = refl
