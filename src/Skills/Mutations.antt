-- ===== src/Skills/Mutations.antt =====
-- The buttons of ui/src/app/skills/page.tsx that call the server: upsertMutation, syncMutation and
-- deleteMutation. The server is a state with an operation for each call; upsertSkill and syncSkills
-- give `none` where the call's result is `undefined`, and deleteSkill a truth value. The messages that
-- the calls show of their own are in Api/Skills.
pub mod Outcome
use multi_job.Prelude.{Bool, true, false, String, List, [], ◌∷◌, Option, none, some, if◌then◌else◌}
use multi_job.Js.Text.{trim, truthy}
use multi_job.Js.Json.{Json, Items, array}
use multi_job.Skills.{Skill, SkillSpecRequest, SkillsPage, initial_form}
use multi_job.Skills.Form.{normalize_default_inputs, spec_request}

pub data Toast : Type 0 where
  success error : String → Toast

-- What a button leaves: its message, whether the list of the skills is invalidated, the page and the
-- server.
pub record Selesai (S : Type 0) : Type 0 where
  pub toast : Toast
  pub invalidated : Bool
  pub page : SkillsPage
  pub server : S

-- `onError`
abbrev pub on_error : {S : Type 0} → String → SkillsPage → S → Selesai S
on_error pesan page s = record { toast = error pesan; invalidated = false; page = page; server = s }

-- `onSuccess`, which is called for every result that is returned
abbrev pub on_success : {S : Type 0} → String → SkillsPage → S → Selesai S
on_success pesan page s = record {
  toast = success pesan;
  invalidated = true;
  page = page;
  server = s;
}

module _ {S A : Type 0} where
  -- `upsertMutation`, for the inputs that were read
  unfoldable pub simpan_inputs :
      (String → SkillSpecRequest → S → Option A × S) → SkillsPage → Option Json → S → Selesai S
  simpan_inputs upsert page none s = on_error "Default inputs harus JSON yang valid." page s
  simpan_inputs upsert page (some inputs) s =
      let skill_id = trim page.form_state.skill_id in
      let (result, s') = upsert skill_id (spec_request page.form_state inputs) s in
      on_success "Skill tersimpan." (record page { selected_skill_id = skill_id }) s'

  unfoldable pub upsert_mutation :
      (String → Option Json)
      → (String → SkillSpecRequest → S → Option A × S)
      → SkillsPage
      → S
      → Selesai S
  unfolding simpan_inputs
  upsert_mutation parse upsert page s =
      if truthy (trim page.form_state.skill_id)
      then simpan_inputs upsert page (normalize_default_inputs parse page.form_state.default_inputs)
          s
      else on_error "skill_id wajib diisi." page s

  -- `syncMutation`, for the value that was read
  unfoldable sync_parsed : (Items → S → Option A × S) → SkillsPage → Option Json → S → Selesai S
  sync_parsed sync page none s = on_error "JSON skill tidak valid." page s
  sync_parsed sync page (some (array items)) s =
      let (result, s') = sync items s in on_success "Skill disinkronkan." page s'
  sync_parsed sync page (some _) s = on_error "Format sinkron harus array." page s

  unfoldable sync_mutation :
      (String → Option Json) → (Items → S → Option A × S) → SkillsPage → S → Selesai S
  unfolding sync_parsed
  sync_mutation parse sync page s = sync_parsed sync page (parse page.bulk_sync_json) s

module _ {S : Type 0} where
  unfoldable delete_mutation : (String → S → Bool × S) → SkillsPage → S → Selesai S
  delete_mutation delete page s =
      if truthy page.selected_skill_id
      then (let (deleted, s') = delete page.selected_skill_id s in
          on_success "Skill dihapus."
            (record page { selected_skill_id = ""; form_state = initial_form }) s')
      else on_error "Pilih skill untuk dihapus." page s
