-- ===== src/Json.antt =====
-- The values of a JSON document, and what the program asks of them. `negative n` is the number
-- -(n + 1); of a number with a fraction part the
-- model knows whether it is zero, and its text.
use liberated_claude_code.Prelude.{
  ℕ, zero, suc, Bool, true, false, not, ◌&&◌, String, str_eq, [], ◌∷◌, Option, none, some,
  if◌then◌else◌,
}
use liberated_claude_code.Text.{Text, codes, starts_with}

mutual
  pub data Value : Type 0 where
    null : Value
    bool : Bool → Value
    num negative : ℕ → Value
    fraction : Bool → Text → Value
    text : Text → Value
    list : Items → Value
    object : Fields → Value

  pub data Items : Type 0 where
    nil : Items
    cons : Value → Items → Items

  pub data Fields : Type 0 where
    end : Fields
    field : String → Value → Fields → Fields

-- s == t
abbrev pub text_eq : Text → Text → Bool
text_eq s t = starts_with s t && starts_with t s

-- d.get(key); a key that stands twice has its last value.
unfoldable pub get : String → Fields → Option Value
get k end = none
get k (field j v d) = elim (get k d) [
  | some w ↦ some w
  | none ↦ if str_eq j k then some v else none
]

-- d.get(key, default)
unfoldable pub get_or : String → Value → Fields → Value
get_or k default d = elim (get k d) [ none ↦ default | some v ↦ v ]

-- bool(value)
unfoldable pub is_truthy : Value → Bool
is_truthy null = false
is_truthy (bool b) = b
is_truthy (num zero) = false
is_truthy (num (suc n)) = true
is_truthy (negative n) = true
is_truthy (fraction is_zero t) = not is_zero
is_truthy (text []) = false
is_truthy (text (c ∷ t)) = true
is_truthy (list nil) = false
is_truthy (list (cons v vs)) = true
is_truthy (object end) = false
is_truthy (object (field k v d)) = true

abbrev pub or_null : Option Value → Value
or_null none = null
or_null (some v) = v

-- value == s, for a text s
unfoldable pub is_text : String → Value → Bool
is_text s (text t) = text_eq t (codes s)
is_text s _ = false

-- `str(value)`, where `repr` gives the text of a value that is none.
unfoldable pub str : (Value → Text) → Value → Text
str repr (text t) = t
str repr v = repr v

-- `str(value or "")`
unfoldable pub str_or_empty : (Value → Text) → Value → Text
str_or_empty repr v = if is_truthy v then str repr v else []
