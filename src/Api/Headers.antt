-- ===== src/Api/Headers.antt =====
-- The headers of a request: `buildAuthHeaders`, `buildHeaders` and `buildTriggerHeaders` of
-- ui/src/lib/api.ts. An object of headers is an association list in the order of insertion.
pub mod Lookup
use multi_job.Prelude.{
  Bool, true, false, ◌||◌, String, ◌==◌, ◌⧺◌, List, [], ◌∷◌, Option, none, some, if◌then◌else◌,
}
use multi_job.Js.Text.{trim, truthy, or_text}
use multi_job.Api.Session.{Browser, resolve_api_token}

-- `process.env` with the defaults of the module.
pub record Config : Type 0 where
  pub api_base : String
  pub auth_header : String
  pub auth_scheme : String
  pub token_env : String

abbrev pub Headers : Type 0
Headers = List (String × String)

-- `headers[key] = value`
pub assign : String → String → Headers → Headers
assign key value [] = (key, value) ∷ []
assign key value ((k, v) ∷ hs) = if k == key then (k, value) ∷ hs else (k, v) ∷ assign key value hs

-- The loop over `Object.entries(entries)`.
pub assign_all : Headers → Headers → Headers
assign_all [] hs = hs
assign_all ((k, v) ∷ entries) hs = assign_all entries (assign k v hs)

module _ (to_lower_case : String → String) (cfg : Config) where
  -- The value of the header for a token.
  pub auth_value : String → String
  auth_value token =
      let scheme = trim (or_text cfg.auth_scheme "") in
      if to_lower_case cfg.auth_header == "authorization"
      then (if truthy scheme then scheme ⧺ " " ⧺ token else token)
      else token

module _ (to_lower_case : String → String) (cfg : Config) (browser : Browser) where
  pub build_auth_headers : Headers
  unfolding auth_value
  build_auth_headers =
      let token = resolve_api_token cfg.token_env browser in
      if truthy token then (cfg.auth_header, auth_value to_lower_case cfg token) ∷ [] else []

  unfoldable pub build_headers : Bool → Headers
  unfolding build_auth_headers assign_all assign
  build_headers with_json_content_type =
      assign_all build_auth_headers
        (if with_json_content_type then ("Content-Type", "application/json") ∷ [] else [])

  -- `secret` is optional, and a blank one counts as missing.
  unfoldable pub build_trigger_headers : Bool → Option String → Headers
  unfolding build_headers
  build_trigger_headers with_json none = build_headers with_json
  build_trigger_headers with_json (some secret) =
      if truthy secret
      then assign "X-Trigger-Auth" secret (build_headers with_json)
      else build_headers with_json
