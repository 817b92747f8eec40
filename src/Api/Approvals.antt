-- ===== src/Api/Approvals.antt =====
-- The calls for approvals of ui/src/lib/api.ts. A payload that is missing is the empty object, which
-- the caller of the model passes.
use multi_job.Prelude.{String, ◌⧺◌, List, [], Option, none, some}
use multi_job.Api.Session.{Browser}
use multi_job.Api.Headers.{Config}
use multi_job.Api.Http.{Call, post, get_json, send, guarded}
use multi_job.Api.Query.{ApprovalsParams, approvals_query, with_query}

module _ (to_lower_case : String → String) (cfg : Config) (browser : Browser) where
  unfoldable pub get_approval_requests :
      {B T : Type 0} → (p : ApprovalsParams) → Call B (List T) (List T)
  get_approval_requests p = record {
    request = get_json to_lower_case cfg browser (with_query "/approvals" (approvals_query p));
    finish = guarded (λ t. t) "Gagal memuat approval queue" [];
  }

  unfoldable pub approve_approval_request :
      {B T : Type 0} → (approval_id : String) (payload : B) → Call B T (Option T)
  approve_approval_request approval_id payload = record {
    request =
        send to_lower_case cfg browser ("/approvals/" ⧺ approval_id ⧺ "/approve") post
          (some payload);
    finish = guarded some "Gagal approve request" none;
  }

  unfoldable pub reject_approval_request :
      {B T : Type 0} → (approval_id : String) (payload : B) → Call B T (Option T)
  reject_approval_request approval_id payload = record {
    request =
        send to_lower_case cfg browser ("/approvals/" ⧺ approval_id ⧺ "/reject") post
          (some payload);
    finish = guarded some "Gagal menolak request" none;
  }
