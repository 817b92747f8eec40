-- ===== src/Skills/Form.antt =====
-- The form of a skill: what a skill fills it with, and what it sends.
pub mod RoundTrip
use multi_job.Prelude.{
  ℕ, Bool, true, false, Char, code, nat_eq, String, List, [], ◌∷◌, Option, none, some, length, ltb,
  if◌then◌else◌,
}
use multi_job.Js.Text.{trim, truthy, or_text, join}
use multi_job.Js.Text.Split.{is_comma, pieces}
use multi_job.Js.Json.{Json, falsy, object, end}
use multi_job.Skills.{RateLimitConfig, Skill, SkillSpecRequest, SkillFormState, SkillsPage}

-- `formatList`
abbrev format_list : List String → String
format_list value = if ltb 0 (length value) then join ", " value else "-"

-- `joinForInput`
abbrev pub join_for_input : List String → String
join_for_input value = if ltb 0 (length value) then join ", " value else ""

-- `parseListInput`
unfoldable pub parse_list_input : String → List String
parse_list_input value = pieces is_comma value

-- `normalizeDefaultInputs`
unfoldable pub normalize_default_inputs : (String → Option Json) → String → Option Json
normalize_default_inputs parse value =
    if truthy (trim value) then parse value else some (object end)

-- The payload of `upsertMutation`, for the inputs.
unfoldable pub spec_request : SkillFormState → Json → SkillSpecRequest
spec_request form default_inputs = record {
  name = trim form.name;
  description = trim form.description;
  job_type = trim form.job_type;
  version = or_text (trim form.version) "1.0.0";
  runbook = trim form.runbook;
  source = trim form.source;
  default_inputs = default_inputs;
  command_allow_prefixes = parse_list_input form.command_prefixes;
  allowed_channels = parse_list_input form.allowed_channels;
  tags = parse_list_input form.tags;
  tool_allowlist = parse_list_input form.tool_allowlist;
  required_secrets = parse_list_input form.required_secrets;
  rate_limit = record { max_runs = form.rate_limit_max; window_sec = form.rate_limit_window };
  allow_sensitive_commands = form.allow_sensitive;
  require_approval = form.require_approval;
}

abbrev pub or_nil : Option (List String) → List String
or_nil none = []
or_nil (some xs) = xs

-- `skill.rate_limit?.max_runs || 0` and `skill.rate_limit?.window_sec || 60`
abbrev pub max_runs_of : Option RateLimitConfig → ℕ
max_runs_of none = 0
max_runs_of (some r) = r.max_runs

abbrev pub window_of : Option RateLimitConfig → ℕ
window_of none = 60
window_of (some r) = if nat_eq r.window_sec 0 then 60 else r.window_sec

-- `skill.default_inputs || {}`
abbrev inputs_or_empty : Json → Json
inputs_or_empty value = if falsy value then object end else value

-- The cells of the form for a skill.
unfoldable pub form_of_skill : (Json → String) → Skill → SkillFormState
form_of_skill stringify skill = record {
  skill_id = skill.skill_id;
  name = skill.name;
  description = skill.description;
  job_type = skill.job_type;
  version = or_text skill.version "1.0.0";
  runbook = skill.runbook;
  source = skill.source;
  default_inputs = stringify (inputs_or_empty skill.default_inputs);
  command_prefixes = join_for_input skill.command_allow_prefixes;
  allowed_channels = join_for_input skill.allowed_channels;
  tags = join_for_input skill.tags;
  tool_allowlist = join_for_input (or_nil skill.tool_allowlist);
  required_secrets = join_for_input (or_nil skill.required_secrets);
  rate_limit_max = max_runs_of skill.rate_limit;
  rate_limit_window = window_of skill.rate_limit;
  require_approval = skill.require_approval;
  allow_sensitive = skill.allow_sensitive_commands;
}

-- `selectSkill`
unfoldable select_skill : (Json → String) → Skill → SkillsPage → SkillsPage
unfolding form_of_skill
select_skill stringify skill page = record page {
  selected_skill_id = skill.skill_id;
  form_state = form_of_skill stringify skill;
}
