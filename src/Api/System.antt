-- ===== src/Api/System.antt =====
-- The calls for agents, events and audit logs of ui/src/lib/api.ts.
use multi_job.Prelude.{ℕ, String, ◌⧺◌, List, [], ◌∷◌, Option, none, some}
use multi_job.Js.Number.{show}
use multi_job.Js.Uri.{encode_uri_component}
use multi_job.Api.Session.{Browser}
use multi_job.Api.Headers.{Config}
use multi_job.Api.Http.{
  Call, Outcome, returned, thrown, Settled, read_json, delete, get_json, send, guarded,
}
use multi_job.Api.Query.{EventsParams, events_query, AuditParams, audit_query, with_query}

-- A `catch` that shows nothing.
abbrev silent : {T : Type 0} → T → Outcome T → Settled T
silent fallback (returned t) = record { outcome = returned t; toasts = [] }
silent fallback (thrown error) = record { outcome = returned fallback; toasts = [] }

module _ (to_lower_case : String → String) (cfg : Config) (browser : Browser) where
  unfoldable pub get_agents : {B T : Type 0} → Call B (List T) (List T)
  get_agents = record {
    request = get_json to_lower_case cfg browser "/agents";
    finish = guarded (λ t. t) "Gagal memuat data agen" [];
  }

  unfoldable pub get_agent_memories : {B T : Type 0} → (limit : ℕ) → Call B (List T) (List T)
  get_agent_memories limit = record {
    request =
        get_json to_lower_case cfg browser
          (with_query "/agents/memory" (("limit", show limit) ∷ []));
    finish = guarded (λ t. t) "Gagal memuat memori agen" [];
  }

  unfoldable pub reset_agent_memory : {B T : Type 0} → (agent_key : String) → Call B T (Option T)
  reset_agent_memory agent_key = record {
    request =
        send to_lower_case cfg browser ("/agents/memory/" ⧺ encode_uri_component agent_key) delete
          none;
    finish = guarded some "Gagal reset memori agen" none;
  }

  unfoldable pub get_events : {B T : Type 0} → (p : EventsParams) → Call B (List T) (List T)
  get_events p = record {
    request = get_json to_lower_case cfg browser (with_query "/events" (events_query p));
    finish = guarded (λ t. t) "Gagal memuat update skill" [];
  }

  unfoldable pub get_audit_logs : {B T : Type 0} → (p : AuditParams) → Call B (List T) (List T)
  get_audit_logs p = record {
    request = get_json to_lower_case cfg browser (with_query "/audit/logs" (audit_query p));
    finish = guarded (λ t. t) "Gagal memuat audit log" [];
  }

  -- An error shows nothing: `unavailable` is the object with the three states `error`.
  unfoldable pub get_system_infrastructure : {B T : Type 0} → (unavailable : T) → Call B T T
  get_system_infrastructure unavailable = record {
    request = get_json to_lower_case cfg browser "/system/infrastructure";
    finish = λ answer. silent unavailable (read_json answer);
  }
