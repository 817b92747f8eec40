-- ===== src/Automation/Batch/Examples.antt =====
-- The theorems on the batch buttons at concrete inputs.
use multi_job.Prelude.{
  filter, All, ℕ, ◌+◌, true, false, String, nat_eq, List, [], ◌∷◌, ◌++◌, Option, none, some,
  if◌then◌else◌, count_of, length, ◌≡◌, ◌↔◌,
}
use multi_job.Js.LowerCase.{ascii_lower, ascii_lower-KeepsLowerCase}
use multi_job.Automation.Form.Bounds.{IsWellFormed}
use multi_job.Automation.Batch.WellFormed.{payloads-IsWellFormed}
use multi_job.Automation.Request.{AgentWorkflowAutomationRequest}
use multi_job.Automation.Form.{initial_form}
use multi_job.Saving.{simpan_semua}
use multi_job.Saving.Laws.{is_some, names_failed, kirim, simpan_semua_lem}
use multi_job.Automation.Batch.{
  invalidate, Effect, set_busy, simpan_paket, payload_jalur_inti, payload_paket_saas,
  pesan_paket_saas,
}
use multi_job.Automation.Batch.Outcome.{is_success, is_error, is_invalidation, simpan_paket-effects}

-- A server that counts the requests and refuses the second.
abbrev upsert : AgentWorkflowAutomationRequest → ℕ → Option String × ℕ
upsert payload n = ((if nat_eq n 1 then none else some payload.job_id), n + 1)

abbrev job_name : AgentWorkflowAutomationRequest → String
job_name payload = payload.job_id

abbrev three : List AgentWorkflowAutomationRequest
three = payload_jalur_inti initial_form

simpan_semua_lem_example :
    let (rs, s') = kirim upsert three 0 in
    (simpan_semua job_name upsert 0 [] three 0
      ≡ (count_of is_some rs, names_failed job_name three rs, s'))
    × (count_of is_some rs + length (names_failed job_name three rs) ≡ length three)
simpan_semua_lem_example = simpan_semua_lem job_name upsert three 0

abbrev four : List AgentWorkflowAutomationRequest
four = payload_paket_saas initial_form

simpan_paket-effects_example :
    (simpan_paket upsert pesan_paket_saas true four 0 ≡ ([], 0))
    × ((middle : List Effect) × ((simpan_paket upsert pesan_paket_saas false four 0).0
          ≡ set_busy true ∷ middle ++ set_busy false ∷ [])
        × ((count_of is_success middle ≡ 0) ↔ (count_of is_some (kirim upsert four 0).0 ≡ 0))
        × ((count_of is_error middle ≡ 0)
            ↔ (count_of is_some (kirim upsert four 0).0 ≡ length four))
        × (filter is_invalidation middle ≡ invalidate "automation-jobs" ∷ invalidate "jobs" ∷ []))
    × ((simpan_paket upsert pesan_paket_saas false four 0).1 ≡ (kirim upsert four 0).1)
simpan_paket-effects_example = simpan_paket-effects upsert pesan_paket_saas four 0

payloads-IsWellFormed_example :
    All
      (IsWellFormed ascii_lower)
      (payload_jalur_inti initial_form ++ payload_paket_saas initial_form)
payloads-IsWellFormed_example =
    payloads-IsWellFormed ascii_lower ascii_lower-KeepsLowerCase initial_form
