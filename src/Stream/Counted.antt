-- ===== src/Stream/Counted.antt =====
-- providers/common/sse_builder.py: when the estimate of the output raises.
use liberated_claude_code.Prelude.{
  ℕ, ◌≡◌, refl, sym, ◌⊎◌, inl, inr, none≢some, [], ◌∷◌, Option, none, some,
}
use liberated_claude_code.Text.{Text}
use liberated_claude_code.Sse.Tools.{ToolStates}
use liberated_claude_code.Sse.Builder.{SseBuilder, join, plus, tool_tokens, estimate_output_tokens}

-- The encoder raises on some text.
abbrev pub Raises : Option (Text → Option ℕ) → Type 0
Raises encoder =
    (encode : Text → Option ℕ) × (encoder ≡ some encode) × ((t : Text) × (encode t ≡ none))

plus-none : (m n : Option ℕ) → plus m n ≡ none → (m ≡ none) ⊎ (n ≡ none)
plus-none none n e = inl refl
plus-none (some m) none e = inr refl
plus-none (some m) (some n) e = absurd (none≢some (sym e))

abbrev RaisesOn : (Text → Option ℕ) → Type 0
RaisesOn encode = (t : Text) × (encode t ≡ none)

tool_tokens-none :
    (encode : Text → Option ℕ) (d : ToolStates) → tool_tokens encode d ≡ none → RaisesOn encode
tool_tokens-none encode [] e = absurd (none≢some (sym e))
tool_tokens-none encode ((k, s) ∷ d) e = elim (plus-none _ _ e) [
  | inl h ↦ (s.name, h)
  | inr h ↦ elim (plus-none _ _ h) [
    | inl i ↦ (join s.contents, i)
    | inr i ↦ elim (plus-none (some 15) _ i) [
      | inl j ↦ absurd (none≢some (sym j))
      | inr j ↦ tool_tokens-none encode d j
    ]
  ]
]

pub estimate_output_tokens-none :
    (encoder : Option (Text → Option ℕ)) (b : SseBuilder)
    → estimate_output_tokens encoder b ≡ none
    → Raises encoder
unfolding estimate_output_tokens
estimate_output_tokens-none none b e = absurd (none≢some (sym e))
estimate_output_tokens-none (some encode) b e = (
  encode,
  refl,
  (elim (plus-none _ _ e) [
    | inl h ↦ (join b.accumulated_text_parts, h)
    | inr h ↦ elim (plus-none _ _ h) [
      | inl i ↦ (join b.accumulated_reasoning_parts, i)
      | inr i ↦ elim (plus-none _ _ i) [
        | inl j ↦ tool_tokens-none encode b.tool_states j
        | inr j ↦ absurd (none≢some (sym j))
      ]
    ]
  ]),
)
