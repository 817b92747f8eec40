-- ===== src/Api/Firing.antt =====
-- The calls of ui/src/lib/api.ts that fire a trigger, and `executePlannerPrompt`: their errors are
-- the caller's. `Data` is the message that the channel takes.
pub mod Laws
use multi_job.Prelude.{Bool, true, false, String, ◌⧺◌, List, [], Option, some, if◌then◌else◌}
use multi_job.Js.Text.{or_text}
use multi_job.Js.Uri.{encode_uri_component}
use multi_job.Api.Session.{Browser}
use multi_job.Api.Headers.{Config, build_trigger_headers}
use multi_job.Api.Http.{
  Call, Request, post, Response, Fetched, failed, answered, Outcome, returned, thrown, Settled,
  is_ok, send, unguarded,
}

pub parse_trigger_response : {T : Type 0} → Response T → Outcome T
parse_trigger_response r =
    if is_ok r.status then r.json else thrown (or_text r.text "Gagal memicu trigger")

pub settle : {T : Type 0} → Fetched T → Settled T
unfolding parse_trigger_response
settle (failed message) = record { outcome = thrown message; toasts = [] }
settle (answered r) = record { outcome = parse_trigger_response r; toasts = [] }

module _ (to_lower_case : String → String) (cfg : Config) (browser : Browser) where
  -- The call that the six functions share, but for the channel in the path.
  pub fire : {Data T : Type 0} → String → String → Data → Option String → Call Data T T
  unfolding settle
  fire channel trigger_id message secret = record {
    request = record {
      url = cfg.api_base ⧺ "/connectors/" ⧺ channel ⧺ "/" ⧺ encode_uri_component trigger_id;
      method = post;
      headers = build_trigger_headers to_lower_case cfg browser true secret;
      body = some message;
    };
    finish = settle;
  }

  unfoldable pub fire_trigger_webhook :
      {Data T : Type 0} → (trigger_id : String) → Data → Option String → Call Data T T
  unfolding fire
  fire_trigger_webhook = fire "webhook"

  unfoldable pub fire_trigger_telegram :
      {Data T : Type 0} → (trigger_id : String) → Data → Option String → Call Data T T
  unfolding fire
  fire_trigger_telegram = fire "telegram"

  unfoldable pub fire_trigger_email :
      {Data T : Type 0} → (trigger_id : String) → Data → Option String → Call Data T T
  unfolding fire
  fire_trigger_email = fire "email"

  unfoldable pub fire_trigger_slack :
      {Data T : Type 0} → (trigger_id : String) → Data → Option String → Call Data T T
  unfolding fire
  fire_trigger_slack = fire "slack"

  unfoldable pub fire_trigger_sms :
      {Data T : Type 0} → (trigger_id : String) → Data → Option String → Call Data T T
  unfolding fire
  fire_trigger_sms = fire "sms"

  unfoldable pub fire_trigger_voice :
      {Data T : Type 0} → (trigger_id : String) → Data → Option String → Call Data T T
  unfolding fire
  fire_trigger_voice = fire "voice"

  unfoldable pub execute_planner_prompt : {B T : Type 0} → B → Call B T T
  execute_planner_prompt payload = record {
    request = send to_lower_case cfg browser "/planner/execute" post (some payload);
    finish = unguarded;
  }
