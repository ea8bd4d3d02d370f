-- ===== src/Errors/Mapped.antt =====
-- providers/common/error_mapping.py: the messages and the mapped exceptions.
use liberated_claude_code.Prelude.{
  ℕ, ◌≡◌, refl, Bool, true, false, ◌||◌, List, [], ◌∷◌, Option, none, some, arith, ◌==◌,
  if◌then◌else◌,
}
use liberated_claude_code.Text.{Text, codes}
use liberated_claude_code.Sse.Tools.{is_empty}
use liberated_claude_code.Errors.{
  Exception, provider, openai, http_status, read_timeout, connect_timeout, timeout, other,
  OpenaiClass, openai_authentication, openai_rate_limit, openai_bad_request, openai_internal_server,
  api_error_with, ProviderClass, authentication_error, invalid_request_error, rate_limit_error,
  overloaded_error, api_error, Outcome, contains_text, get_user_facing_error_message,
  default_message, or_else, strip, str, map_error, map_openai, map_status,
}

is_empty-or_else : (s d : Text) → is_empty d ≡ false → is_empty (or_else s d) ≡ false
is_empty-or_else [] d h = h
is_empty-or_else (c ∷ s) d h = refl

default_message-filled :
    (read_timeout_s : Option Text) (e : Exception)
    → is_empty (default_message read_timeout_s e) ≡ false
unfolding default_message
default_message-filled t e = ground arith

-- The message for the user is never empty, whatever was raised and whatever text it has.
pub is_empty-get_user_facing_error_message :
    (read_timeout_s : Option Text) (e : Exception)
    → is_empty (get_user_facing_error_message read_timeout_s e) ≡ false
unfolding get_user_facing_error_message
is_empty-get_user_facing_error_message t e =
    is_empty-or_else (strip (str e)) (default_message t e) (default_message-filled t e)

-- The 429 of the `openai` client, or of a raw response.
abbrev pub is_429 : Exception → Bool
is_429 (openai openai_rate_limit s) = true
is_429 (openai _ s) = false
is_429 (http_status n s) = n == 429
is_429 e = false

abbrev pub is_wrapped : Exception → Bool
is_wrapped (openai c s) = true
is_wrapped (http_status n s) = true
is_wrapped e = false

abbrev pub class_of : Exception → Option ProviderClass
class_of (provider p) = some p.class
class_of _ = none

abbrev pub raw_of : Exception → Text
raw_of (provider p) = p.raw_error
raw_of e = str e

-- The class for a status, as a table; any other status is an `APIError`.
abbrev pub class_table : List (ℕ × ProviderClass)
class_table =
    (400, invalid_request_error)
    ∷ (401, authentication_error)
    ∷ (403, authentication_error)
    ∷ (429, rate_limit_error)
    ∷ (502, overloaded_error)
    ∷ (503, overloaded_error)
    ∷ (504, overloaded_error)
    ∷ []

abbrev pub look_up : ℕ → List (ℕ × ProviderClass) → ProviderClass
look_up n [] = api_error
look_up n (row ∷ rows) = if n == row.0 then row.1 else look_up n rows

module _ (lower : Text → Text) where
  map_openai-again :
      (c : OpenaiClass) (message raw : Text)
      → let r = map_openai lower c message raw in map_error lower r.1 ≡ (none, r.1)
  unfolding map_openai map_error
  map_openai-again c message raw = ground arith

  map_status-again :
      (n : ℕ) (message raw : Text)
      → let r = map_status lower n message raw in map_error lower r.1 ≡ (none, r.1)
  unfolding map_status map_error
  map_status-again n message raw = ground arith

  map_error-again : (e : Exception) → let r = map_error lower e in map_error lower r.1 ≡ (none, r.1)
  unfolding map_error
  map_error-again (openai c s) =
      map_openai-again c (get_user_facing_error_message none (openai c s)) s
  map_error-again (http_status n s) =
      map_status-again n (get_user_facing_error_message none (http_status n s)) s
  map_error-again (provider p) = refl
  map_error-again (read_timeout s) = refl
  map_error-again (connect_timeout s) = refl
  map_error-again (timeout s) = refl
  map_error-again (other s) = refl

  -- The class that an exception should come out with: by its status, where the class of `openai`
  -- stands for one; an internal error of the server says in its text that it is overloaded; what
  -- is neither from `openai` nor a response keeps its class.
  abbrev pub class_for : Exception → Option ProviderClass
  class_for (openai openai_authentication s) = some (look_up 401 class_table)
  class_for (openai openai_rate_limit s) = some (look_up 429 class_table)
  class_for (openai openai_bad_request s) = some (look_up 400 class_table)
  class_for (openai openai_internal_server s) =
      if contains_text (codes "overloaded") (lower s) || contains_text (codes "capacity") (lower s)
      then some overloaded_error
      else some api_error
  class_for (openai (api_error_with status) s) = some api_error
  class_for (http_status n s) = some (look_up n class_table)
  class_for e = class_of e

  pub record IsMapped (e : Exception) (r : Outcome) : Type 0 where
    pub blocks : r.0 ≡ (if is_429 e then some 60 else none)
    pub class : class_of r.1 ≡ class_for e
    pub raw : is_wrapped e ≡ true → raw_of r.1 ≡ str e
    pub again : map_error lower r.1 ≡ (none, r.1)
