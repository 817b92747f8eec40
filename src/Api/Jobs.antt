-- ===== src/Api/Jobs.antt =====
-- The calls for jobs and runs of ui/src/lib/api.ts.
use multi_job.Prelude.{ℕ, Bool, true, false, String, ◌⧺◌, List, [], ◌∷◌, Option, none, some}
use multi_job.Js.Number.{show}
use multi_job.Js.Uri.{encode_uri_component}
use multi_job.Api.Session.{Browser}
use multi_job.Api.Headers.{Config}
use multi_job.Api.Http.{Call, post, put, get_json, send, guarded}
use multi_job.Api.Query.{JobsParams, jobs_query, RunsParams, runs_query, with_query}

module _ (to_lower_case : String → String) (cfg : Config) (browser : Browser) where
  unfoldable pub get_jobs : {B T : Type 0} → (p : JobsParams) → Call B (List T) (List T)
  get_jobs p = record {
    request = get_json to_lower_case cfg browser (with_query "/jobs" (jobs_query p));
    finish = guarded (λ t. t) "Gagal memuat daftar tugas" [];
  }

  unfoldable pub get_agent_workflow_automations : {B T : Type 0} → Call B (List T) (List T)
  get_agent_workflow_automations = record {
    request = get_json to_lower_case cfg browser "/automation/agent-workflows";
    finish = guarded (λ t. t) "Gagal memuat job otomatis" [];
  }

  unfoldable pub upsert_agent_workflow_automation :
      {B T : Type 0} → (payload : B) → Call B T (Option T)
  upsert_agent_workflow_automation payload = record {
    request = send to_lower_case cfg browser "/automation/agent-workflow" post (some payload);
    finish = guarded some "Gagal menyimpan job otomatis" none;
  }

  unfoldable pub create_job : {B T : Type 0} → (job : B) → Call B T (Option T)
  create_job job = record {
    request = send to_lower_case cfg browser "/jobs" post (some job);
    finish = guarded some "Gagal membuat tugas baru" none;
  }

  unfoldable pub get_job_versions :
      {B T : Type 0} → (job_id : String) (limit : ℕ) → Call B (List T) (List T)
  get_job_versions job_id limit = record {
    request = get_json to_lower_case cfg browser (
        with_query ("/jobs/" ⧺ encode_uri_component job_id ⧺ "/versions")
          (("limit", show limit) ∷ []));
    finish = guarded (λ t. t) "Gagal memuat versi job" [];
  }

  unfoldable pub rollback_job_version :
      {B T : Type 0} → (job_id version_id : String) → Call B T (Option T)
  rollback_job_version job_id version_id = record {
    request =
        send to_lower_case cfg browser
          ("/jobs/" ⧺ encode_uri_component job_id ⧺ "/rollback/" ⧺ encode_uri_component version_id)
          post none;
    finish = guarded some "Gagal rollback versi job" none;
  }

  unfoldable pub enable_job : {B T : Type 0} → (job_id : String) → Call B T Bool
  enable_job job_id = record {
    request = send to_lower_case cfg browser ("/jobs/" ⧺ job_id ⧺ "/enable") put none;
    finish = guarded (λ t. true) "Gagal mengaktifkan tugas" false;
  }

  unfoldable pub disable_job : {B T : Type 0} → (job_id : String) → Call B T Bool
  disable_job job_id = record {
    request = send to_lower_case cfg browser ("/jobs/" ⧺ job_id ⧺ "/disable") put none;
    finish = guarded (λ t. true) "Gagal menonaktifkan tugas" false;
  }

  unfoldable pub trigger_job : {B T : Type 0} → (job_id : String) → Call B T Bool
  trigger_job job_id = record {
    request = send to_lower_case cfg browser ("/jobs/" ⧺ job_id ⧺ "/run") post none;
    finish = guarded (λ t. true) "Gagal menjalankan tugas" false;
  }

  unfoldable pub get_runs : {B T : Type 0} → (p : RunsParams) → Call B (List T) (List T)
  get_runs p = record {
    request = get_json to_lower_case cfg browser (with_query "/runs" (runs_query p));
    finish = guarded (λ t. t) "Gagal memuat riwayat eksekusi" [];
  }

  unfoldable pub get_run : {B T : Type 0} → (run_id : String) → Call B T (Option T)
  get_run run_id = record {
    request = get_json to_lower_case cfg browser ("/runs/" ⧺ run_id);
    finish = guarded some "Gagal memuat detail eksekusi" none;
  }
