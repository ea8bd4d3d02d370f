-- ===== src/Convert/Readable.antt =====
-- providers/common/message_converter.py: which results of tools have a text.
use liberated_claude_code.Prelude.{
  ◌≡◌, refl, sym, ap, ◌∙◌, Bool, true, false, ◌&&◌, List, str_eq, Bool-cases, Option-cases, inl,
  inr, Option, none, some, is_some, if◌then◌else◌,
}
use liberated_claude_code.Text.{Text}
use liberated_claude_code.Json.{
  Value, Items, Fields, null, bool, num, negative, fraction, text, list, object, nil, cons, end,
  field, get, get_or,
}
use liberated_claude_code.Convert.{as_text, item_text, more_texts, item_texts, joined, tool_content}

abbrev pub is_a_text : Value → Bool
is_a_text (text t) = true
is_a_text _ = false

-- The last entry under "text" is a text; `so_far` where there is none.
abbrev pub last_is_text : Bool → Fields → Bool
last_is_text so_far end = so_far
last_is_text so_far (field k v d) = last_is_text (if str_eq k "text" then is_a_text v else so_far) d

-- The objects of a tool's list have a text under "text", or nothing.
abbrev pub readable_items : Items → Bool
readable_items nil = true
readable_items (cons (object d) vs) = last_is_text true d && readable_items vs
readable_items (cons v vs) = readable_items vs

abbrev pub readable_result : Value → Bool
readable_result (list vs) = readable_items vs
readable_result v = true

abbrev found_text : Bool → Option Value → Bool
found_text so_far none = so_far
found_text so_far (some v) = is_a_text v

last_is_text-get :
    (so_far : Bool) (d : Fields) → last_is_text so_far d ≡ found_text so_far (get "text" d)
unfolding get
last_is_text-get so_far end = refl
last_is_text-get so_far (field k v d) = elim (Bool-cases (str_eq k "text")) [
  | inl e ↦ elim (Option-cases (get "text" d)) [
    | inl n ↦ rw (n, e) (last_is_text-get (is_a_text v) d ∙ ap (found_text (is_a_text v)) n)
    | inr (w, n) ↦ rw (n, e) (last_is_text-get (is_a_text v) d ∙ ap (found_text (is_a_text v)) n)
  ]
  | inr e ↦ elim (Option-cases (get "text" d)) [
    | inl n ↦ rw (n, e) (last_is_text-get so_far d ∙ ap (found_text so_far) n)
    | inr (w, n) ↦ rw (n, e) (last_is_text-get so_far d ∙ ap (found_text so_far) n)
  ]
]

module _ (repr : Value → Text) (dumps : Value → Text) where
  is_some-as_text : (v : Value) → is_some (as_text repr dumps v) ≡ is_a_text v
  is_some-as_text (text t) = refl
  is_some-as_text null = refl
  is_some-as_text (bool b) = refl
  is_some-as_text (num n) = refl
  is_some-as_text (negative n) = refl
  is_some-as_text (fraction z t) = refl
  is_some-as_text (list vs) = refl
  is_some-as_text (object d) = refl

  is_some-object_text :
      (d : Fields) → is_some (item_text repr dumps (object d)) ≡ last_is_text true d
  unfolding get_or
  is_some-object_text d = elim (Option-cases (get "text" d)) [
    | inl n ↦ rw (get_or, n) (sym (last_is_text-get true d ∙ ap (found_text true) n))
    | inr (w, n) ↦
        rw (get_or, n) (is_some-as_text w ∙ sym (last_is_text-get true d ∙ ap (found_text true) n))
  ]

  is_some-more_texts :
      (o : Option Text) (rest : Option (List Text))
      → is_some (more_texts repr dumps o rest) ≡ (is_some o && is_some rest)
  is_some-more_texts none rest = refl
  is_some-more_texts (some t) none = refl
  is_some-more_texts (some t) (some ts) = refl

  is_some-item_texts : (vs : Items) → is_some (item_texts repr dumps vs) ≡ readable_items vs
  unfolding item_texts
  is_some-item_texts nil = refl
  is_some-item_texts (cons (object d) vs) =
      is_some-more_texts (item_text repr dumps (object d)) (item_texts repr dumps vs)
      ∙ ap (λ b. b && is_some (item_texts repr dumps vs)) (is_some-object_text d)
      ∙ ap (λ b. last_is_text true d && b) (is_some-item_texts vs)
  is_some-item_texts (cons null vs) =
      is_some-more_texts (item_text repr dumps null) (item_texts repr dumps vs)
      ∙ is_some-item_texts vs
  is_some-item_texts (cons (bool b) vs) =
      is_some-more_texts (item_text repr dumps (bool b)) (item_texts repr dumps vs)
      ∙ is_some-item_texts vs
  is_some-item_texts (cons (num n) vs) =
      is_some-more_texts (item_text repr dumps (num n)) (item_texts repr dumps vs)
      ∙ is_some-item_texts vs
  is_some-item_texts (cons (negative n) vs) =
      is_some-more_texts (item_text repr dumps (negative n)) (item_texts repr dumps vs)
      ∙ is_some-item_texts vs
  is_some-item_texts (cons (fraction z t) vs) =
      is_some-more_texts (item_text repr dumps (fraction z t)) (item_texts repr dumps vs)
      ∙ is_some-item_texts vs
  is_some-item_texts (cons (text t) vs) =
      is_some-more_texts (item_text repr dumps (text t)) (item_texts repr dumps vs)
      ∙ is_some-item_texts vs
  is_some-item_texts (cons (list ws) vs) =
      is_some-more_texts (item_text repr dumps (list ws)) (item_texts repr dumps vs)
      ∙ is_some-item_texts vs

  is_some-joined : (o : Option (List Text)) → is_some (joined repr dumps o) ≡ is_some o
  is_some-joined none = refl
  is_some-joined (some ts) = refl

  pub is_some-tool_content : (v : Value) → is_some (tool_content repr dumps v) ≡ readable_result v
  unfolding tool_content
  is_some-tool_content (list vs) = is_some-joined (item_texts repr dumps vs) ∙ is_some-item_texts vs
  is_some-tool_content null = refl
  is_some-tool_content (bool b) = refl
  is_some-tool_content (num n) = refl
  is_some-tool_content (negative n) = refl
  is_some-tool_content (fraction z t) = refl
  is_some-tool_content (text t) = refl
  is_some-tool_content (object d) = refl
