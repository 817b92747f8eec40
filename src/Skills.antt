-- ===== src/Skills.antt =====
-- The page of the skills: ui/src/app/skills/page.tsx. `parse` is `JSON.parse`, with `none` where it
-- throws, `stringify` is `JSON.stringify(value, null, 2)`, and `to_lower_case` is `toLowerCase`.
pub mod Form
pub mod Lists
pub mod Mutations
mod Examples
use multi_job.Prelude.{ℕ, Bool, true, false, String, List, [], Option, none, some}
use multi_job.Js.Json.{Json}

pub record RateLimitConfig : Type 0 where
  pub max_runs : ℕ
  pub window_sec : ℕ

-- The fields that may be missing are options.
pub record Skill : Type 0 where
  pub skill_id : String
  pub name : String
  pub description : String
  pub job_type : String
  pub version : String
  pub runbook : String
  pub source : String
  pub default_inputs : Json
  pub command_allow_prefixes : List String
  pub allowed_channels : List String
  pub tags : List String
  pub tool_allowlist : Option (List String)
  pub required_secrets : Option (List String)
  pub rate_limit : Option RateLimitConfig
  pub allow_sensitive_commands : Bool
  pub require_approval : Bool

-- The page sets every field.
pub record SkillSpecRequest : Type 0 where
  pub name : String
  pub description : String
  pub job_type : String
  pub version : String
  pub runbook : String
  pub source : String
  pub default_inputs : Json
  pub command_allow_prefixes : List String
  pub allowed_channels : List String
  pub tags : List String
  pub tool_allowlist : List String
  pub required_secrets : List String
  pub rate_limit : RateLimitConfig
  pub allow_sensitive_commands : Bool
  pub require_approval : Bool

pub record SkillFormState : Type 0 where
  pub skill_id : String
  pub name : String
  pub job_type : String
  pub description : String
  pub version : String
  pub runbook : String
  pub source : String
  pub default_inputs : String
  pub command_prefixes : String
  pub allowed_channels : String
  pub tags : String
  pub tool_allowlist : String
  pub required_secrets : String
  pub rate_limit_max : ℕ
  pub rate_limit_window : ℕ
  pub require_approval : Bool
  pub allow_sensitive : Bool

abbrev pub initial_form : SkillFormState
initial_form = record {
  skill_id = "";
  name = "";
  job_type = "agent.workflow";
  description = "";
  version = "1.0.0";
  runbook = "";
  source = "";
  default_inputs = "{}";
  command_prefixes = "";
  allowed_channels = "";
  tags = "";
  tool_allowlist = "";
  required_secrets = "";
  rate_limit_max = 0;
  rate_limit_window = 60;
  require_approval = false;
  allow_sensitive = false;
}

-- The cells of the page.
pub record SkillsPage : Type 0 where
  pub filter_text : String
  pub form_state : SkillFormState
  pub selected_skill_id : String
  pub channel_filter : String
  pub experience_filter : String
  pub bulk_sync_json : String

-- `clearForm`
unfoldable clear_form : SkillsPage → SkillsPage
clear_form page = record page { form_state = initial_form; selected_skill_id = "" }
