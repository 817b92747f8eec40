-- ===== src/Api/Session/Resolve.antt =====
-- Which token the requests use after the stored one has been set or cleared.
use multi_job.Prelude.{◌&&◌, String, if◌then◌else◌, ◌≡◌, arith, eq_iff, Bool-cases, inl, inr}
use multi_job.Js.Text.{trim, truthy, or_text}
use multi_job.Js.Text.Trimming.{trim_idem}
use multi_job.Api.Session.{
  Storage, Browser, no_window, window, resolve_api_token, set_api_auth_token, clear_api_auth_token,
}

or_text-nil : (s : String) → or_text s "" ≡ s
or_text-nil s = ground (arith, eq_iff s "")

-- After a token is set: a blank one leaves the token of the environment; another is used, trimmed,
-- if the storage can be used and has room for it; else what was used before is used still.
pub resolve-set_api_auth_token :
    (token_env token : String) (s : Storage)
    → resolve_api_token token_env (set_api_auth_token token (window s)) ≡ (
        if truthy (trim token)
        then (if s.accessible && s.has_room (trim token)
            then trim token
            else resolve_api_token token_env (window s))
        else trim token_env)
unfolding resolve_api_token set_api_auth_token
resolve-set_api_auth_token token_env token s = ground (
  arith,
  or_text-nil token,
  or_text-nil token_env,
  trim_idem token,
  eq_iff (trim token) "",
  or_text-nil (trim token),
)

-- After the token is cleared, and on the server, the token of the environment is used.
pub resolve-clear_api_auth_token :
    (token_env : String) (b : Browser)
    → resolve_api_token token_env (clear_api_auth_token b) ≡ trim token_env
unfolding resolve_api_token clear_api_auth_token trim
resolve-clear_api_auth_token token_env no_window = ground (arith, or_text-nil token_env)
resolve-clear_api_auth_token token_env (window s) = elim (Bool-cases s.accessible) [
  | inl e ↦ rw (e, or_text-nil)
  | inr e ↦ rw (e, or_text-nil)
]
