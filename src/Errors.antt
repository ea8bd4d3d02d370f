-- ===== src/Errors.antt =====
-- providers/exceptions.py and providers/common/error_mapping.py. An exception is its class, as far
-- as the code tells classes apart, with `str(e)` and the status where the code reads one. The lower
-- case of a text and the text of a number of seconds are parameters.
pub mod Mapped
use liberated_claude_code.Prelude.{
  ℕ, Bool, true, false, ◌&&◌, ◌||◌, List, [], ◌∷◌, ◌++◌, Option, none, some, String, ◌==◌, leb,
  is_some, if◌then◌else◌,
}
use liberated_claude_code.Text.{Text, codes, find}
use liberated_claude_code.Sse.Tools.{is_empty}

-- The subclasses of `ProviderError`, and the class itself.
pub data ProviderClass : Type 0 where
  authentication_error invalid_request_error rate_limit_error : ProviderClass
  overloaded_error api_error base_error : ProviderClass

pub record ProviderError : Type 0 where
  pub class : ProviderClass
  pub message : Text
  pub status_code : ℕ
  pub error_type : Text
  pub raw_error : Text

-- The classes of `openai`: an exception has the most special of them. `api_error_with` is any other
-- `APIError`, with its status if it has one.
pub data OpenaiClass : Type 0 where
  openai_authentication openai_rate_limit openai_bad_request openai_internal_server : OpenaiClass
  api_error_with : Option ℕ → OpenaiClass

pub data Exception : Type 0 where
  provider : ProviderError → Exception
  openai : OpenaiClass → Text → Exception
  http_status : ℕ → Text → Exception
  read_timeout connect_timeout timeout other : Text → Exception

-- AuthenticationError(message, raw_error=raw_error), and so on
abbrev pub authentication : Text → Text → ProviderError
authentication message raw_error = record {
  class = authentication_error;
  message = message;
  status_code = 401;
  error_type = codes "authentication_error";
  raw_error = raw_error;
}

abbrev pub invalid_request : Text → Text → ProviderError
invalid_request message raw_error = record {
  class = invalid_request_error;
  message = message;
  status_code = 400;
  error_type = codes "invalid_request_error";
  raw_error = raw_error;
}

abbrev pub rate_limit : Text → Text → ProviderError
rate_limit message raw_error = record {
  class = rate_limit_error;
  message = message;
  status_code = 429;
  error_type = codes "rate_limit_error";
  raw_error = raw_error;
}

abbrev pub overloaded : Text → Text → ProviderError
overloaded message raw_error = record {
  class = overloaded_error;
  message = message;
  status_code = 529;
  error_type = codes "overloaded_error";
  raw_error = raw_error;
}

abbrev pub api : ℕ → Text → Text → ProviderError
api status_code message raw_error = record {
  class = api_error;
  message = message;
  status_code = status_code;
  error_type = codes "api_error";
  raw_error = raw_error;
}

-- str(e)
abbrev pub str : Exception → Text
str (provider p) = p.message
str (openai c s) = s
str (http_status n s) = s
str (read_timeout s) = s
str (connect_timeout s) = s
str (timeout s) = s
str (other s) = s

-- The characters that `str.strip` takes off.
unfoldable pub is_space : ℕ → Bool
is_space c =
    (leb 9 c && leb c 13)
    || (leb 28 c && leb c 32)
    || (c == 133)
    || (c == 160)
    || (c == 5760)
    || (leb 8192 c && leb c 8202)
    || (c == 8232)
    || (c == 8233)
    || (c == 8239)
    || (c == 8287)
    || (c == 12288)

unfoldable pub lstrip : Text → Text
lstrip [] = []
lstrip (c ∷ s) = let rest = lstrip s in if is_space c then rest else c ∷ s

unfoldable pub rstrip : Text → Text
rstrip [] = []
rstrip (c ∷ s) = let rest = rstrip s in if is_empty rest && is_space c then [] else c ∷ rest

unfoldable pub strip : Text → Text
strip s = rstrip (lstrip s)

abbrev seconds : Option Text → Text → Text
seconds none otherwise = otherwise
seconds (some s) otherwise = codes "Provider request timed out after " ++ s ++ codes "s."

abbrev api_message : ℕ → Text
api_message status =
    if (status == 502) || (status == 503) || (status == 504)
    then codes "Provider is temporarily unavailable. Please retry."
    else codes "Provider API request failed."

abbrev provider_message : ProviderClass → ℕ → Text
provider_message rate_limit_error status =
    codes "Provider rate limit reached. Please retry shortly."
provider_message authentication_error status =
    codes "Provider authentication failed. Check API key."
provider_message invalid_request_error status = codes "Invalid request sent to provider."
provider_message overloaded_error status = codes "Provider is currently overloaded. Please retry."
provider_message api_error status = api_message status
provider_message base_error status = codes "Provider request failed."

abbrev unexpected : Text
unexpected = codes "Provider request failed unexpectedly."

abbrev openai_message : OpenaiClass → Text
openai_message openai_rate_limit = codes "Provider rate limit reached. Please retry shortly."
openai_message openai_authentication = codes "Provider authentication failed. Check API key."
openai_message openai_bad_request = codes "Invalid request sent to provider."
openai_message openai_internal_server = unexpected
openai_message (api_error_with status) = unexpected

-- The message for an exception whose own text is blank; `read_timeout_s` is the text of the number.
unfoldable pub default_message : Option Text → Exception → Text
default_message read_timeout_s (read_timeout s) =
    seconds read_timeout_s (codes "Provider request timed out.")
default_message read_timeout_s (connect_timeout s) = codes "Could not connect to provider."
default_message read_timeout_s (timeout s) = seconds read_timeout_s (codes "Request timed out.")
default_message read_timeout_s (provider p) = provider_message p.class p.status_code
default_message read_timeout_s (openai c s) = openai_message c
default_message read_timeout_s (http_status n s) = unexpected
default_message read_timeout_s (other s) = unexpected

-- `text or default`
abbrev pub or_else : Text → Text → Text
or_else [] d = d
or_else (c ∷ s) d = c ∷ s

unfoldable pub get_user_facing_error_message : Option Text → Exception → Text
get_user_facing_error_message read_timeout_s e =
    or_else (strip (str e)) (default_message read_timeout_s e)

abbrev suffixed : Text → Option Text → Text
suffixed base none = base
suffixed base (some request_id) =
    if is_empty request_id then base else base ++ codes " (request_id=" ++ request_id ++ codes ")"

unfoldable pub append_request_id : Text → Option Text → Text
append_request_id message request_id = suffixed (or_else (strip message) unexpected) request_id

abbrev pub contains_text : Text → Text → Bool
contains_text part s = is_some (find part s)

abbrev status_or : Option ℕ → ℕ
status_or none = 500
status_or (some n) = n

-- The exception that is raised on, and the seconds for which all requests are blocked, if any.
abbrev pub Outcome : Type 0
Outcome = Option ℕ × Exception

module _ (lower : Text → Text) where
  unfoldable pub map_openai : OpenaiClass → Text → Text → Outcome
  map_openai openai_authentication message raw = (none, provider (authentication message raw))
  map_openai openai_rate_limit message raw = (some 60, provider (rate_limit message raw))
  map_openai openai_bad_request message raw = (none, provider (invalid_request message raw))
  map_openai openai_internal_server message raw =
      if contains_text (codes "overloaded") (lower raw)
        || contains_text (codes "capacity") (lower raw)
      then (none, provider (overloaded message raw))
      else (none, provider (api 500 message raw))
  map_openai (api_error_with status) message raw =
      (none, provider (api (status_or status) message raw))

  unfoldable pub map_status : ℕ → Text → Text → Outcome
  map_status status message raw =
      if (status == 401) || (status == 403)
      then (none, provider (authentication message raw))
      else if status == 429
      then (some 60, provider (rate_limit message raw))
      else if status == 400
      then (none, provider (invalid_request message raw))
      else if (status == 502) || (status == 503) || (status == 504)
      then (none, provider (overloaded message raw))
      else (none, provider (api status message raw))

  unfoldable pub map_error : Exception → Outcome
  map_error (openai c s) = map_openai c (get_user_facing_error_message none (openai c s)) s
  map_error (http_status n s) =
      map_status n (get_user_facing_error_message none (http_status n s)) s
  map_error e = (none, e)
