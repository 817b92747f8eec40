-- ===== src/Skills/Lists.antt =====
-- The list of the skills: its filters, the statistics, and the channels and tags by how often they
-- stand in the skills. An object with the counts has its keys in the order in which they came up, as
-- keys that are no numbers have.
pub mod Counts
pub mod Ranking
use multi_job.Prelude.{
  ℕ, zero, suc, ◌+◌, Bool, true, false, not, ◌&&◌, ◌||◌, String, ◌==◌, List, [], ◌∷◌, Option, none,
  some, filter, some_of, length, take, ltb, Char, if◌then◌else◌, code, nat_eq,
}
use multi_job.Js.Text.{trim, truthy, or_text}
use multi_job.Js.Dict.{Dict, lookup, put}
use multi_job.Js.Sort.{sort_by}
use multi_job.Skills.{Skill, SkillsPage}

abbrev count_or_zero : Option ℕ → ℕ
count_or_zero none = 0
count_or_zero (some n) = n

-- `if (name) counts[name] = (counts[name] || 0) + 1`
unfoldable pub count_name : String → Dict ℕ → Dict ℕ
count_name name counts =
    if truthy name then put name (count_or_zero (lookup name counts) + 1) counts else counts

unfoldable pub count_names : List String → Dict ℕ → Dict ℕ
unfolding count_name
count_names [] counts = counts
count_names (name ∷ names) counts = count_names names (count_name name counts)

-- The loop over the skills, for the list that is counted.
unfoldable pub count_skills : (Skill → List String) → List Skill → Dict ℕ → Dict ℕ
unfolding count_names
count_skills names [] counts = counts
count_skills names (skill ∷ skills) counts =
    count_skills names skills (count_names (names skill) counts)

abbrev pub more : String × ℕ → String × ℕ → Bool
more a b = ltb a.1 b.1

abbrev pub channels_of : Skill → List String
channels_of skill = skill.allowed_channels

abbrev tags_of : Skill → List String
tags_of skill = skill.tags

unfoldable pub entries_of : (Skill → List String) → List Skill → List (String × ℕ)
entries_of names skills = sort_by more (count_skills names skills [])

-- `channelEntries` and `experienceEntries`
abbrev channel_entries : List Skill → List (String × ℕ)
channel_entries skills = entries_of channels_of skills

abbrev experience_entries : List Skill → List (String × ℕ)
experience_entries skills = entries_of tags_of skills

-- `topChannels` and `topExperiences`
abbrev top : List (String × ℕ) → List (String × ℕ)
top entries = take 5 entries

-- `topChannels[0]?.[0] || "-"` and `topChannels[0]?.[1] || 0`
unfoldable pub most_used : List (String × ℕ) → String × ℕ
most_used [] = ("-", 0)
most_used ((name, count) ∷ entries) = (or_text name "-", count)

module _ (to_lower_case : String → String) (includes : String → String → Bool) where
  -- `includes s t` is `s.includes(t)`
  abbrev matches_text : String → Skill → Bool
  matches_text token skill =
      includes (to_lower_case skill.skill_id) token
      || includes (to_lower_case skill.name) token
      || includes (to_lower_case skill.job_type) token
      || some_of (λ tag. includes (to_lower_case tag) token) skill.tags

  abbrev passes : SkillsPage → Skill → Bool
  passes page skill =
      let token = to_lower_case (trim page.filter_text) in
      (not (truthy token) || matches_text token skill)
      && not (
          truthy page.channel_filter
          && not (some_of (λ channel. channel == page.channel_filter) skill.allowed_channels))
      && not (
          truthy page.experience_filter
          && not (some_of (λ tag. tag == page.experience_filter) skill.tags))

  -- `filteredSkills`
  unfoldable filtered_skills : SkillsPage → List Skill → List Skill
  filtered_skills page skills = filter (passes page) skills

record SkillStats : Type 0 where
  pub total : ℕ
  pub require_approval : ℕ
  pub allow_sensitive : ℕ

abbrev add_skill : SkillStats → Skill → SkillStats
add_skill acc skill = record {
  total = acc.total + 1;
  require_approval = acc.require_approval + (if skill.require_approval then 1 else 0);
  allow_sensitive = acc.allow_sensitive + (if skill.allow_sensitive_commands then 1 else 0);
}

-- The reduction, from the statistics that are there.
unfoldable add_skills : SkillStats → List Skill → SkillStats
add_skills acc [] = acc
add_skills acc (skill ∷ skills) = add_skills (add_skill acc skill) skills

-- `stats`
unfoldable skill_stats : List Skill → SkillStats
skill_stats skills =
    add_skills (record { total = 0; require_approval = 0; allow_sensitive = 0 }) skills

-- The buttons of the filters: the one that is chosen is given up.
unfoldable toggle_channel : String → SkillsPage → SkillsPage
toggle_channel channel page = record page {
  channel_filter = (if page.channel_filter == channel then "" else channel);
}

unfoldable toggle_experience : String → SkillsPage → SkillsPage
toggle_experience tag page = record page {
  experience_filter = (if page.experience_filter == tag then "" else tag);
}

unfoldable reset_filters : SkillsPage → SkillsPage
reset_filters page = record page { channel_filter = ""; experience_filter = "" }
