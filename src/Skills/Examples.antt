-- ===== src/Skills/Examples.antt =====
-- The theorems on the page of the skills at concrete inputs.
use multi_job.Prelude.{
  ℕ, ◌≤◌, true, false, false≢true, eq_iff, String, List, [], ◌∷◌, Option, none, some, All, ◌≡◌, ◌≢◌,
  ◌↔◌, refl,
}
use multi_job.Js.Text.{trim}
use multi_job.Js.Json.{Json, object, end}
use multi_job.Js.Sort.Laws.{IsSorted}
use multi_job.Skills.{Skill, SkillSpecRequest, SkillsPage, initial_form}
use multi_job.Skills.Form.{form_of_skill, spec_request, normalize_default_inputs}
use multi_job.Skills.Form.RoundTrip.{
  IsStored, ReadsBack, spec_of, HasPieces, spec_request-form_of_skill,
}
use multi_job.Skills.Lists.{channels_of, more, entries_of, most_used}
use multi_job.Skills.Lists.Counts.{occurrences}
use multi_job.Skills.Lists.Ranking.{entries_of_lem}

abbrev alert : Skill
alert = record {
  skill_id = "alert";
  name = "Skill Alert Slack";
  description = "";
  job_type = "agent.workflow";
  version = "1.0.0";
  runbook = "";
  source = "";
  default_inputs = object end;
  command_allow_prefixes = "python scripts/alert-slack" ∷ [];
  allowed_channels = "slack" ∷ "sms" ∷ [];
  tags = [];
  tool_allowlist = none;
  required_secrets = none;
  rate_limit = none;
  allow_sensitive_commands = false;
  require_approval = true;
}

alert-IsStored : IsStored alert end
unfolding trim
alert-IsStored = record {
  name = refl;
  description = refl;
  job_type = refl;
  version = refl;
  versioned = λ e. false≢true ((eq_iff "1.0.0" "").1 e);
  runbook = refl;
  source = refl;
  inputs = refl;
  window = tt;
}

abbrev stringify : Json → String
stringify value = "{}"

abbrev parse : String → Option Json
parse s = some (object end)

empty-ReadsBack : ReadsBack parse stringify (object end)
unfolding trim
empty-ReadsBack = record { written = λ e. false≢true ((eq_iff "{}" "").1 e); read = refl }

spec_request-form_of_skill_example :
    let form = form_of_skill stringify alert in
    (normalize_default_inputs parse form.default_inputs ≡ some alert.default_inputs)
    × ((spec_request form alert.default_inputs ≡ spec_of alert) ↔ HasPieces alert)
spec_request-form_of_skill_example =
    spec_request-form_of_skill parse stringify alert end alert-IsStored empty-ReadsBack

abbrev skills : List Skill
skills = alert ∷ record alert { skill_id = "followup"; allowed_channels = "sms" ∷ [] } ∷ []

entries_of_lem_example :
    All
      (λ (entry : String × ℕ). (entry.0 ≢ "") × (entry.1 ≡ occurrences channels_of entry.0 skills))
      (entries_of channels_of skills)
    × IsSorted more (entries_of channels_of skills)
    × ((name : String)
        → name ≢ ""
        → occurrences channels_of name skills ≤ (most_used (entries_of channels_of skills)).1)
entries_of_lem_example = entries_of_lem channels_of skills

abbrev page : SkillsPage
page = record {
  filter_text = "";
  form_state = record initial_form { skill_id = " alert " };
  selected_skill_id = "";
  channel_filter = "";
  experience_filter = "";
  bulk_sync_json = "[]";
}

abbrev refused : String → SkillSpecRequest → Option String
refused id request = none

abbrev accepted : String → SkillSpecRequest → Option String
accepted id request = some id
