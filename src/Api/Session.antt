-- ===== src/Api/Session.antt =====
-- The stored token of ui/src/lib/api.ts: `getStoredApiToken`, `resolveApiToken`, `setApiAuthToken`
-- and `clearApiAuthToken`. Of the browser's storage the model has the entry of
-- `API_AUTH_STORAGE_KEY`, whether the storage may be used at all, and which values it has room for.
pub mod Resolve
use multi_job.Prelude.{Bool, true, false, String, Option, none, some, if◌then◌else◌}
use multi_job.Js.Text.{trim, truthy, or_text}

pub record Storage : Type 0 where
  pub token : Option String
  pub accessible : Bool
  pub has_room : String → Bool

-- On the server `window` is undefined.
pub data Browser : Type 0 where
  no_window : Browser
  window : Storage → Browser

abbrev pub or_empty : Option String → String
or_empty none = ""
or_empty (some s) = s

-- What the calls throw ends in the empty `catch`.
pub get_stored_api_token : Browser → String
get_stored_api_token no_window = ""
get_stored_api_token (window s) = if s.accessible then trim (or_text (or_empty s.token) "") else ""

-- `token_env` is the value of `API_AUTH_TOKEN_ENV`.
unfoldable pub resolve_api_token : String → Browser → String
unfolding get_stored_api_token
resolve_api_token token_env b =
    let token = get_stored_api_token b in
    if truthy token then token else trim (or_text token_env "")

abbrev pub remove_item : Storage → Storage
remove_item s = if s.accessible then record s { token = none } else s

abbrev pub set_item : String → Storage → Storage
set_item value s =
    if s.accessible then (if s.has_room value then record s { token = some value } else s) else s

unfoldable pub set_api_auth_token : String → Browser → Browser
set_api_auth_token token no_window = no_window
set_api_auth_token token (window s) =
    let value = trim (or_text token "") in
    window (if truthy value then set_item value s else remove_item s)

unfoldable pub clear_api_auth_token : Browser → Browser
clear_api_auth_token no_window = no_window
clear_api_auth_token (window s) = window (remove_item s)
