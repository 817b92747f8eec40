-- ===== src/Skills/Form/RoundTrip.antt =====
-- Selecting a skill and saving the form.
use multi_job.Prelude.{
  true, false, nat_eq, Option, none, some, String, ◌==◌, eq_iff, List, [], ◌∷◌, All, length, ltb,
  ◌≡◌, ◌≢◌, ◌↔◌, refl, ap, arith,
}
use multi_job.Js.Text.{is_space, trim, or_text, join}
use multi_job.Js.Text.Split.{is_comma}
use multi_job.Js.Text.Split.Laws.{IsPiece, pieces-join_iff}
use multi_job.Js.Json.{Json, Members, object}
use multi_job.Skills.{RateLimitConfig, Skill, SkillSpecRequest}
use multi_job.Skills.Form.{
  join_for_input, parse_list_input, or_nil, max_runs_of, window_of, normalize_default_inputs,
  spec_request, form_of_skill,
}

-- A list that the form writes is read back exactly if its texts are trimmed, not empty and without
-- commas.
list_iff :
    (xs : List String) → (parse_list_input (join_for_input xs) ≡ xs) ↔ All (IsPiece is_comma) xs
unfolding parse_list_input join
list_iff [] = pieces-join_iff is_comma "," " " refl (unfold is_space in (refl, refl, tt)) []
list_iff (x ∷ xs) =
    let e : ltb 0 (length (x ∷ xs)) ≡ true = ground arith in
    rw e (pieces-join_iff is_comma "," " " refl (unfold is_space in (refl, refl, tt)) (x ∷ xs))

-- The rate limit, if there is one, has a window that is not 0.
abbrev pub HasWindow : Option RateLimitConfig → Type 0
HasWindow none = Unit
HasWindow (some r) = nat_eq r.window_sec 0 ≡ false

-- The rate limit, 0 runs in 60 seconds if there is none.
abbrev pub limit_or_default : Option RateLimitConfig → RateLimitConfig
limit_or_default none = record { max_runs = 0; window_sec = 60 }
limit_or_default (some r) = r

limit_kept :
    (limit : Option RateLimitConfig)
    → HasWindow limit
    → record { max_runs = max_runs_of limit; window_sec = window_of limit } ≡ limit_or_default limit
limit_kept none h = refl
limit_kept (some r) h = rw h refl

-- A skill as a form stores it: trimmed texts, a version, an object of inputs, and a window that is not
-- 0 if it has a rate limit.
pub record IsStored (skill : Skill) (members : Members) : Type 0 where
  pub name : trim skill.name ≡ skill.name
  pub description : trim skill.description ≡ skill.description
  pub job_type : trim skill.job_type ≡ skill.job_type
  pub version : trim skill.version ≡ skill.version
  pub versioned : skill.version ≢ ""
  pub runbook : trim skill.runbook ≡ skill.runbook
  pub source : trim skill.source ≡ skill.source
  pub inputs : skill.default_inputs ≡ object members
  pub window : HasWindow skill.rate_limit

-- What is stored of the skill.
abbrev pub spec_of : Skill → SkillSpecRequest
spec_of skill = record {
  name = skill.name;
  description = skill.description;
  job_type = skill.job_type;
  version = skill.version;
  runbook = skill.runbook;
  source = skill.source;
  default_inputs = skill.default_inputs;
  command_allow_prefixes = skill.command_allow_prefixes;
  allowed_channels = skill.allowed_channels;
  tags = skill.tags;
  tool_allowlist = or_nil skill.tool_allowlist;
  required_secrets = or_nil skill.required_secrets;
  rate_limit = limit_or_default skill.rate_limit;
  allow_sensitive_commands = skill.allow_sensitive_commands;
  require_approval = skill.require_approval;
}

-- All lists of the skill are of texts that the form can hold.
abbrev pub HasPieces : Skill → Type 0
HasPieces skill =
    All (IsPiece is_comma) skill.command_allow_prefixes
    × All (IsPiece is_comma) skill.allowed_channels
    × All (IsPiece is_comma) skill.tags
    × All (IsPiece is_comma) (or_nil skill.tool_allowlist)
    × All (IsPiece is_comma) (or_nil skill.required_secrets)

-- The text of the inputs is no blank and is read back as the inputs.
pub record ReadsBack (parse : String → Option Json) (stringify : Json → String) (value : Json)
    : Type 0 where
  pub written : trim (stringify value) ≢ ""
  pub read : parse (stringify value) ≡ some value

-- Of a skill as a form stores it, whose inputs are read back from their text: saving the form of the
-- skill that was selected reads those inputs, and sends the skill as it is stored, with the default
-- rate limit if it has none, exactly if the texts of its lists are trimmed, not empty and without
-- commas.
pub spec_request-form_of_skill :
    (parse : String → Option Json) (stringify : Json → String) (skill : Skill) (members : Members)
    → IsStored skill members
    → ReadsBack parse stringify (object members)
    → let form = form_of_skill stringify skill in
      (normalize_default_inputs parse form.default_inputs ≡ some skill.default_inputs)
      × ((spec_request form skill.default_inputs ≡ spec_of skill) ↔ HasPieces skill)
unfolding spec_request form_of_skill normalize_default_inputs
spec_request-form_of_skill parse stringify skill members stored back =
    let there : (skill.version == "") ≡ false =
      ground (arith, eq_iff skill.version "", stored.versioned) in
    let version : or_text (trim (or_text skill.version "1.0.0")) "1.0.0" ≡ skill.version =
      rw (there, stored.version, there) refl in
    let typed : (trim (stringify (object members)) == "") ≡ false =
      ground (arith, eq_iff (trim (stringify (object members))) "", back.written) in
    let limit = limit_kept skill.rate_limit stored.window in
    (
      rw (stored.inputs, typed) back.read,
      (
        (λ e. (
          (list_iff skill.command_allow_prefixes).0
              (ap (λ (r : SkillSpecRequest). r.command_allow_prefixes) e),
          (list_iff skill.allowed_channels).0 (ap (λ (r : SkillSpecRequest). r.allowed_channels) e),
          (list_iff skill.tags).0 (ap (λ (r : SkillSpecRequest). r.tags) e),
          (list_iff (or_nil skill.tool_allowlist)).0
              (ap (λ (r : SkillSpecRequest). r.tool_allowlist) e),
          (list_iff (or_nil skill.required_secrets)).0
              (ap (λ (r : SkillSpecRequest). r.required_secrets) e),
        )),
        (λ (a, b, c, d, e).
            let a' = (list_iff skill.command_allow_prefixes).1 a in
            let b' = (list_iff skill.allowed_channels).1 b in
            let c' = (list_iff skill.tags).1 c in
            let d' = (list_iff (or_nil skill.tool_allowlist)).1 d in
            let e' = (list_iff (or_nil skill.required_secrets)).1 e in
            cc (
              a', b', c', d', e', version, limit, stored.name, stored.description, stored.job_type,
              stored.runbook, stored.source,
            )),
      ),
    )
