-- ===== src/Api/Triggers.antt =====
-- The calls for triggers of ui/src/lib/api.ts that end in `handleApiError`.
use multi_job.Prelude.{Bool, true, false, String, ◌⧺◌, List, [], Option, none, some}
use multi_job.Js.Uri.{encode_uri_component}
use multi_job.Api.Session.{Browser}
use multi_job.Api.Headers.{Config}
use multi_job.Api.Http.{Call, put, delete, get_json, send, guarded}

module _ (to_lower_case : String → String) (cfg : Config) (browser : Browser) where
  unfoldable pub get_triggers : {B T : Type 0} → Call B (List T) (List T)
  get_triggers = record {
    request = get_json to_lower_case cfg browser "/triggers";
    finish = guarded (λ t. t) "Gagal memuat trigger" [];
  }

  unfoldable pub upsert_trigger :
      {B T : Type 0} → (trigger_id : String) (payload : B) → Call B T (Option T)
  upsert_trigger trigger_id payload = record {
    request =
        send to_lower_case cfg browser ("/triggers/" ⧺ encode_uri_component trigger_id) put
          (some payload);
    finish = guarded some "Gagal menyimpan trigger" none;
  }

  unfoldable pub delete_trigger : {B T : Type 0} → (trigger_id : String) → Call B T Bool
  delete_trigger trigger_id = record {
    request =
        send to_lower_case cfg browser ("/triggers/" ⧺ encode_uri_component trigger_id) delete none;
    finish = guarded (λ t. true) "Gagal menghapus trigger" false;
  }
