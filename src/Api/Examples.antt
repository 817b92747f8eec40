-- ===== src/Api/Examples.antt =====
-- Tests of the client of the HTTP interface, and its theorems at concrete inputs.
use multi_job.Prelude.{
  ℕ, true, false, ◌&&◌, String, List, [], ◌∷◌, none, some, if◌then◌else◌, ◌≡◌, refl,
}
use multi_job.Js.Text.{trim, truthy, join}
use multi_job.Js.Uri.{encode_form}
use multi_job.Js.LowerCase.{ascii_lower}
use multi_job.Js.Number.{natural, show}
use multi_job.Api.Session.{Storage, window, resolve_api_token, set_api_auth_token}
use multi_job.Api.Session.Resolve.{resolve-set_api_auth_token}
use multi_job.Api.Headers.{Config, build_headers}
use multi_job.Api.Http.{Response, returned, guarded}
use multi_job.Api.Http.Laws.{EndsWell, guarded-EndsWell}
use multi_job.Api.Query.{to_query_string, jobs_query}
use multi_job.Api.Health.{Health, QueueMetrics, Agent}

abbrev storage : Storage
storage = record { token = some " old "; accessible = true; has_room = λ value. true }

abbrev config : Config
config = record {
  api_base = "http://127.0.0.1:8000";
  auth_header = "Authorization";
  auth_scheme = "Bearer";
  token_env = "";
}

headers_test :
    build_headers ascii_lower config (window storage) true
    ≡ ("Content-Type", "application/json") ∷ ("Authorization", "Bearer old") ∷ []
unfolding build_headers resolve_api_token trim ascii_lower
headers_test = refl

query_test :
    to_query_string (
      jobs_query (record {
        search = some "a b&c";
        enabled = some false;
        limit = some (natural 20);
        offset = some (natural 0);
      }))
    ≡ "search=a+b%26c&enabled=false&limit=20&offset=0"
unfolding to_query_string jobs_query join encode_form show
query_test = refl

resolve-set_api_auth_token_example :
    resolve_api_token "env" (set_api_auth_token " new " (window storage)) ≡ (
      if truthy (trim " new ")
      then (if storage.accessible && storage.has_room (trim " new ")
          then trim " new "
          else resolve_api_token "env" (window storage))
      else trim "env")
resolve-set_api_auth_token_example = resolve-set_api_auth_token "env" " new " storage

abbrev response : ℕ → String → Response ℕ
response status text = record {
  status = status;
  status_text = "status";
  json = returned 5;
  text = text;
}

guarded-EndsWell_example :
    EndsWell {T = ℕ} some "Gagal membuat tugas baru" none
      (guarded some "Gagal membuat tugas baru" none)
guarded-EndsWell_example = guarded-EndsWell some "Gagal membuat tugas baru" none

abbrev agents : List Agent
agents =
    record { type = some "scheduler"; status = "offline" }
    ∷ record { type = none; status = "online" }
    ∷ record { type = some "scheduler"; status = "online" }
    ∷ []

abbrev healthy : Health
healthy = record { api_healthy = true; system_ready = true }

abbrev queue : QueueMetrics
queue = record { depth = 4; delayed = 1 }
