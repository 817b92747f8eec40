-- ===== src/Api/Experiments.antt =====
-- The calls for experiments of ui/src/lib/api.ts. The body of `set_experiment_enabled` is the flag
-- of the object `{ enabled }`.
use multi_job.Prelude.{Bool, true, false, String, ◌⧺◌, List, [], Option, none, some}
use multi_job.Js.Uri.{encode_uri_component}
use multi_job.Api.Session.{Browser}
use multi_job.Api.Headers.{Config}
use multi_job.Api.Http.{Call, post, put, delete, get_json, send, guarded}
use multi_job.Api.Query.{ExperimentsParams, experiments_query, with_query}

module _ (to_lower_case : String → String) (cfg : Config) (browser : Browser) where
  unfoldable pub get_experiments :
      {B T : Type 0} → (p : ExperimentsParams) → Call B (List T) (List T)
  get_experiments p = record {
    request = get_json to_lower_case cfg browser (with_query "/experiments" (experiments_query p));
    finish = guarded (λ t. t) "Gagal memuat eksperimen" [];
  }

  unfoldable pub upsert_experiment :
      {B T : Type 0} → (experiment_id : String) (payload : B) → Call B T (Option T)
  upsert_experiment experiment_id payload = record {
    request =
        send to_lower_case cfg browser ("/experiments/" ⧺ encode_uri_component experiment_id) put
          (some payload);
    finish = guarded some "Gagal menyimpan eksperimen" none;
  }

  unfoldable pub set_experiment_enabled :
      {T : Type 0} → (experiment_id : String) (enabled : Bool) → Call Bool T (Option T)
  set_experiment_enabled experiment_id enabled = record {
    request =
        send to_lower_case cfg browser
          ("/experiments/" ⧺ encode_uri_component experiment_id ⧺ "/enabled") post (some enabled);
    finish = guarded some "Gagal mengubah status eksperimen" none;
  }

  unfoldable pub delete_experiment : {B T : Type 0} → (experiment_id : String) → Call B T Bool
  delete_experiment experiment_id = record {
    request =
        send to_lower_case cfg browser ("/experiments/" ⧺ encode_uri_component experiment_id) delete
          none;
    finish = guarded (λ t. true) "Gagal menghapus eksperimen" false;
  }
