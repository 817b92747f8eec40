-- ===== src/Api/Headers/Lookup.antt =====
-- What a request says under each header's name.
use multi_job.Prelude.{
  Bool, ◌&&◌, String, ◌==◌, [], ◌∷◌, Option, none, some, if◌then◌else◌, ◌≡◌, refl, arith, eq_iff,
}
use multi_job.Js.Text.{truthy}
use multi_job.Api.Session.{Browser, resolve_api_token}
use multi_job.Api.Headers.{
  Config, Headers, assign, auth_value, build_headers, build_trigger_headers,
}

pub lookup : String → Headers → Option String
lookup key [] = none
lookup key ((k, v) ∷ hs) = if k == key then some v else lookup key hs

lookup-assign :
    (key k v : String) (hs : Headers)
    → lookup key (assign k v hs) ≡ (if k == key then some v else lookup key hs)
unfolding lookup assign
lookup-assign key k v [] = refl
lookup-assign key k v ((j, w) ∷ hs) =
    ground (arith, eq_iff j k, eq_iff j key, eq_iff k key, lookup-assign key k v hs)

module _ (to_lower_case : String → String) (cfg : Config) (browser : Browser) where
  -- Under the configured name a request carries the authorisation, if there is a token, and this
  -- wins over the content type; under Content-Type it says JSON, if that is asked for; under another
  -- name it says nothing.
  pub lookup-build_headers :
      (key : String) (json : Bool)
      → lookup key (build_headers to_lower_case cfg browser json) ≡ (
          let token = resolve_api_token cfg.token_env browser in
          if truthy token && cfg.auth_header == key
          then some (auth_value to_lower_case cfg token)
          else if json && "Content-Type" == key
          then some "application/json"
          else none)
  unfolding build_headers lookup
  lookup-build_headers key json =
      let token = resolve_api_token cfg.token_env browser in
      ground (
        arith,
        eq_iff cfg.auth_header key,
        eq_iff "Content-Type" key,
        eq_iff "Content-Type" cfg.auth_header,
      )

  -- A trigger's secret is sent under X-Trigger-Auth if it is given and no blank, and nothing else is
  -- changed by it.
  pub lookup-build_trigger_headers :
      (key : String) (json : Bool) (secret : Option String)
      → lookup key (build_trigger_headers to_lower_case cfg browser json secret) ≡ (
          let rest = lookup key (build_headers to_lower_case cfg browser json) in
          elim secret [
            | none ↦ rest
            | some s ↦ if truthy s && "X-Trigger-Auth" == key then some s else rest
          ])
  unfolding build_trigger_headers
  lookup-build_trigger_headers key json none = refl
  lookup-build_trigger_headers key json (some s) =
      ground
        (arith, lookup-assign key "X-Trigger-Auth" s (build_headers to_lower_case cfg browser json))
