-- ===== src/Api/Http.antt =====
-- The requests of ui/src/lib/api.ts: `getJson`, `send` and `handleApiError`. A call is its request
-- and what becomes of the answer. `fetch` is the browser's: it may fail, or answer with a status,
-- and the body of the answer may be no JSON. A body is the value that `JSON.stringify` is given.
pub mod Laws
use multi_job.Prelude.{
  ℕ, Bool, true, false, ◌&&◌, String, ◌⧺◌, List, [], ◌∷◌, Option, none, some, if◌then◌else◌, leb,
}
use multi_job.Js.Number.{show}
use multi_job.Api.Session.{Browser}
use multi_job.Api.Headers.{Config, Headers, build_headers}

pub data Method : Type 0 where
  get post put delete : Method

pub record Request (B : Type 0) : Type 0 where
  pub url : String
  pub method : Method
  pub headers : Headers
  pub body : Option B

-- A promise that is fulfilled, or rejected with an error's message.
pub data Outcome (A : Type 0) : Type 0 where
  returned : A → Outcome A
  thrown : String → Outcome A

pub record Response (T : Type 0) : Type 0 where
  pub status : ℕ
  pub status_text : String
  -- What `json()` comes to.
  pub json : Outcome T
  -- What `text()` gives.
  pub text : String

-- `response.ok`
abbrev pub is_ok : ℕ → Bool
is_ok status = leb 200 status && leb status 299

pub data Fetched (T : Type 0) : Type 0 where
  failed : String → Fetched T
  answered : Response T → Fetched T

-- A result, with the error toasts that were shown on the way.
pub record Settled (A : Type 0) : Type 0 where
  pub outcome : Outcome A
  pub toasts : List String

pub record Call (B T A : Type 0) : Type 0 where
  pub request : Request B
  pub finish : Fetched T → Settled A

unfoldable pub run : {B T A : Type 0} → (Request B → Fetched T) → Call B T A → Settled A
run fetch call = call.finish (fetch call.request)

-- The common end of `getJson` and `send`.
pub read_json : {T : Type 0} → Fetched T → Outcome T
unfolding show
read_json (failed message) = thrown message
read_json (answered r) =
    if is_ok r.status then r.json else thrown (show r.status ⧺ " " ⧺ r.status_text)

-- `handleApiError` in the `catch` of a call: its toast, and its fallback.
pub handle_api_error : {A : Type 0} → String → A → Settled A
handle_api_error message fallback = record { outcome = returned fallback; toasts = message ∷ [] }

abbrev recover : {T A : Type 0} → (T → A) → String → A → Outcome T → Settled A
recover value message fallback (returned t) = record { outcome = returned (value t); toasts = [] }
recover value message fallback (thrown error) = handle_api_error message fallback

-- `try { return value(await …) } catch (error) { return handleApiError(error, message, fallback) }`
unfoldable pub guarded : {T A : Type 0} → (T → A) → String → A → Fetched T → Settled A
unfolding read_json handle_api_error
guarded value message fallback answer = recover value message fallback (read_json answer)

-- Without a `try` the error is the caller's.
unfoldable pub unguarded : {T : Type 0} → Fetched T → Settled T
unfolding read_json
unguarded answer = record { outcome = read_json answer; toasts = [] }

module _ (to_lower_case : String → String) (cfg : Config) (browser : Browser) where
  unfoldable pub get_json : {B : Type 0} → String → Request B
  get_json path = record {
    url = cfg.api_base ⧺ path;
    method = get;
    headers = build_headers to_lower_case cfg browser false;
    body = none;
  }

  unfoldable pub send : {B : Type 0} → String → Method → Option B → Request B
  send path method none = record {
    url = cfg.api_base ⧺ path;
    method = method;
    headers = build_headers to_lower_case cfg browser false;
    body = none;
  }
  send path method (some body) = record {
    url = cfg.api_base ⧺ path;
    method = method;
    headers = build_headers to_lower_case cfg browser true;
    body = some body;
  }
