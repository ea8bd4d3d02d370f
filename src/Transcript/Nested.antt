-- ===== src/Transcript/Nested.antt =====
-- messaging/transcript.py: a subagent that is opened and closed under one id.
use liberated_claude_code.Prelude.{
  ℕ, ◌≡◌, refl, sym, inl, inr, true, false, [], ◌∷◌, ◌++◌, suc, length, append-nil, ==_iff,
  Bool-cases,
}
use mathlib.Core.Bool.{true≢false}
use liberated_claude_code.Text.{Text, codes, starts_with}
use liberated_claude_code.Errors.{strip}
use liberated_claude_code.Sse.Tools.{is_empty}
use liberated_claude_code.Transcript.{TranscriptBuffer}
use liberated_claude_code.Transcript.Subagents.{
  subagent_push, subagent_pop, pop_matching, ids_roughly_match, or_else, decimal,
}

starts_with-append : (p s : Text) → starts_with p (p ++ s) ≡ true
unfolding starts_with
starts_with-append [] s = refl
starts_with-append (c ∷ p) s = rw ((==_iff c c).1 refl, starts_with-append p s)

starts_with_refl : (p : Text) → starts_with p p ≡ true
starts_with_refl p = rw append-nil at (starts_with-append p [])

or_else_nonempty : (s t : Text) → is_empty s ≡ false → or_else s t ≡ s
or_else_nonempty [] t h = absurd (true≢false h)
or_else_nonempty (c ∷ s) t h = refl

or_else_empty : (s t : Text) → is_empty s ≡ true → or_else s t ≡ t
or_else_empty [] t h = refl
or_else_empty (c ∷ s) t h = absurd (true≢false (sym h))

ids_roughly_match_refl : (s : Text) → is_empty s ≡ false → ids_roughly_match s s ≡ true
unfolding ids_roughly_match
ids_roughly_match_refl s h = rw (h, starts_with_refl s)

-- Whatever the id is, blank ones included: opening a subagent under it and then closing one under it
-- gives the buffer back, and the closing says that it found a subagent.
pub subagent_pop-subagent_push :
    (id : Text) (n : ℕ) (b : TranscriptBuffer) → subagent_pop id (subagent_push id n b) ≡ (b, true)
unfolding subagent_pop subagent_push pop_matching
subagent_pop-subagent_push id n b = elim (Bool-cases (is_empty (strip id))) [
  | inl e ↦
      let name : Text = decimal (suc (length b.subagent_stack)) in
      rw (
        e,
        or_else_empty (strip id) (codes "__task_" ++ name) e,
        starts_with-append (codes "__task_") name,
      )
  | inr e ↦ rw (
    e,
    or_else_nonempty (strip id) (codes "__task_" ++ decimal (suc (length b.subagent_stack))) e,
    ids_roughly_match_refl (strip id) e,
  )
]
