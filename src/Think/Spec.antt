-- ===== src/Think/Spec.antt =====
-- What think_parser.py promises, read off a whole text character by character: tags switch the mode
-- (or, for a stray closing tag, vanish), every other character is passed on with the mode's type.
use liberated_claude_code.Prelude.{
  ℕ, zero, suc, ◌-◌, Bool, true, false, List, [], ◌∷◌, ◌++◌, Option, none, some, if◌then◌else◌,
}
use liberated_claude_code.Text.{Text, starts_with}
use liberated_claude_code.Think.{ContentType, text, thinking, ContentChunk, open_tag, close_tag}

abbrev pub Labelled : Type 0
Labelled = List (ContentType × ℕ)

abbrev pub label : ContentType → Text → Labelled
label t [] = []
label t (c ∷ s) = (t, c) ∷ label t s

abbrev pub label_chunks : List ContentChunk → Labelled
label_chunks [] = []
label_chunks (c ∷ cs) = label c.type c.content ++ label_chunks cs

abbrev pub label_chunk? : Option ContentChunk → Labelled
label_chunk? none = []
label_chunk? (some c) = label c.type c.content

abbrev pub mode_type : Bool → ContentType
mode_type true = thinking
mode_type false = text

-- The tag at the head of a text, as its length and the mode after it.
unfoldable pub tag_at : Bool → Text → Option (ℕ × Bool)
tag_at true s = if starts_with close_tag s then some (8, false) else none
tag_at false s =
    if starts_with open_tag s
    then some (7, true)
    else if starts_with close_tag s
    then some (8, false)
    else none

-- `skip` characters of a tag are still to be passed over.
unfoldable pub split : ℕ → Bool → Text → Labelled
split skip m [] = []
split (suc skip) m (c ∷ s) = split skip m s
split zero m (c ∷ s) = elim (tag_at m (c ∷ s)) [
  | none ↦ (mode_type m, c) ∷ split zero m s
  | some (n, m') ↦ split (n - 1) m' s
]
