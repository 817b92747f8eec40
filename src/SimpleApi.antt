-- ===== src/SimpleApi.antt =====
-- The client of ui-simple: ui-simple/src/lib/api.ts. Of the browser's storage the model has its two
-- entries; the storage can be used and has room. checkHealth and getSystemMetrics are word for word
-- those of Api/Health.
pub mod Interval
use multi_job.Prelude.{
  ℕ, zero, suc, Bool, true, false, String, ◌⧺◌, List, [], ◌∷◌, ◌++◌, Option, none, some,
  if◌then◌else◌,
}
use multi_job.Js.Text.{truthy, or_text}
use multi_job.Js.Number.{JsNumber, nan, natural, negative, show}
use multi_job.Api.Http.{Method, get, post, put, Request, Call, guarded}
use multi_job.Api.Query.{Pairs, append_text, append_limit, with_query}
use multi_job.Api.Health.{QueueMetrics}

pub record SimpleStorage : Type 0 where
  pub api_base : Option String
  pub refresh_ms : Option String

abbrev or_empty_text : Option String → String
or_empty_text none = ""
or_empty_text (some s) = s

-- `default_base` is the address of the environment, or the default.
unfoldable get_api_base : (default_base : String) → SimpleStorage → String
get_api_base default_base st = or_text (or_empty_text st.api_base) default_base

unfoldable set_api_base : String → SimpleStorage → SimpleStorage
set_api_base base_url st = record st { api_base = some base_url }

abbrev default_refresh_ms : ℕ
default_refresh_ms = 10000

-- A number that is finite and positive, else the default.
abbrev pub positive_or_default : JsNumber → ℕ
positive_or_default (natural (suc n)) = suc n
positive_or_default _ = default_refresh_ms

-- `number_of` is `Number(text)`.
unfoldable pub get_refresh_interval_ms : (number_of : String → JsNumber) → SimpleStorage → ℕ
get_refresh_interval_ms number_of st =
    let stored = or_empty_text st.refresh_ms in
    positive_or_default (if truthy stored then number_of stored else nan)

unfoldable pub set_refresh_interval_ms : JsNumber → SimpleStorage → SimpleStorage
set_refresh_interval_ms value st = record st {
  refresh_ms = some (show (positive_or_default value));
}

module _ (default_base : String) (st : SimpleStorage) where
  unfoldable simple_get : {B : Type 0} → String → Request B
  unfolding get_api_base
  simple_get path = record {
    url = get_api_base default_base st ⧺ path;
    method = get;
    headers = [];
    body = none;
  }

  -- Headers only with a body.
  unfoldable simple_send : {B : Type 0} → String → Method → Option B → Request B
  unfolding get_api_base
  simple_send path method none = record {
    url = get_api_base default_base st ⧺ path;
    method = method;
    headers = [];
    body = none;
  }
  simple_send path method (some body) = record {
    url = get_api_base default_base st ⧺ path;
    method = method;
    headers = ("Content-Type", "application/json") ∷ [];
    body = some body;
  }

  unfoldable simple_get_queue_metrics : {B : Type 0} → Call B QueueMetrics QueueMetrics
  simple_get_queue_metrics = record {
    request = simple_get "/queue";
    finish = guarded (λ t. t) "Gagal memuat data antrian" (record { depth = 0; delayed = 0 });
  }

  unfoldable simple_get_connectors : {B T : Type 0} → Call B (List T) (List T)
  simple_get_connectors = record {
    request = simple_get "/connectors";
    finish = guarded (λ t. t) "Gagal memuat data koneksi" [];
  }

  unfoldable simple_get_agents : {B T : Type 0} → Call B (List T) (List T)
  simple_get_agents = record {
    request = simple_get "/agents";
    finish = guarded (λ t. t) "Gagal memuat data agen" [];
  }

  unfoldable simple_get_jobs : {B T : Type 0} → Call B (List T) (List T)
  simple_get_jobs = record {
    request = simple_get "/jobs";
    finish = guarded (λ t. t) "Gagal memuat daftar tugas" [];
  }

  unfoldable simple_create_job : {B T : Type 0} → (job : B) → Call B T (Option T)
  simple_create_job job = record {
    request = simple_send "/jobs" post (some job);
    finish = guarded some "Gagal membuat tugas" none;
  }

  unfoldable simple_enable_job : {B T : Type 0} → (job_id : String) → Call B T Bool
  simple_enable_job job_id = record {
    request = simple_send ("/jobs/" ⧺ job_id ⧺ "/enable") put none;
    finish = guarded (λ t. true) "Gagal mengaktifkan tugas" false;
  }

  unfoldable simple_disable_job : {B T : Type 0} → (job_id : String) → Call B T Bool
  simple_disable_job job_id = record {
    request = simple_send ("/jobs/" ⧺ job_id ⧺ "/disable") put none;
    finish = guarded (λ t. true) "Gagal menonaktifkan tugas" false;
  }

  unfoldable simple_trigger_job : {B T : Type 0} → (job_id : String) → Call B T Bool
  simple_trigger_job job_id = record {
    request = simple_send ("/jobs/" ⧺ job_id ⧺ "/run") post none;
    finish = guarded (λ t. true) "Gagal menjalankan tugas" false;
  }

  -- The parameters are the name of the job, the limit and the status.
  unfoldable simple_get_runs :
      {B T : Type 0}
      → (job_id : Option String) (limit : Option JsNumber) (status : Option String)
      → Call B (List T) (List T)
  simple_get_runs job_id limit status = record {
    request = simple_get (
        with_query "/runs" (
          append_text "job_id" job_id
          ++ append_limit "limit" limit
          ++ append_text "status" status));
    finish = guarded (λ t. t) "Gagal memuat riwayat proses" [];
  }

  unfoldable simple_get_run : {B T : Type 0} → (run_id : String) → Call B T (Option T)
  simple_get_run run_id = record {
    request = simple_get ("/runs/" ⧺ run_id);
    finish = guarded some "Gagal memuat detail proses" none;
  }

  unfoldable simple_get_events : {B T : Type 0} → (since : Option String) → Call B (List T) (List T)
  simple_get_events since = record {
    request = simple_get (with_query "/events" (append_text "since" since));
    finish = guarded (λ t. t) "Gagal memuat aktivitas terbaru" [];
  }
