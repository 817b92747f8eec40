-- ===== src/Automation/Batch/Outcome.antt =====
-- What the batch buttons report, against what the server has answered.
use multi_job.Prelude.{
  ℕ, zero, suc, Bool, true, false, String, List, [], ◌∷◌, ◌++◌, Option, filter, length, count_of,
  ◌≡◌, ◌↔◌, refl, arith,
}
use multi_job.Automation.Request.{AgentWorkflowAutomationRequest}
use multi_job.Saving.Laws.{is_some, names_failed, kirim, simpan_semua_lem}
use multi_job.Automation.Batch.{
  Effect, set_busy, toast_success, toast_error, invalidate, Pesan, laporkan, simpan_paket,
}

abbrev pub is_success : Effect → Bool
is_success (toast_success m) = true
is_success _ = false

abbrev pub is_error : Effect → Bool
is_error (toast_error m) = true
is_error _ = false

abbrev pub is_invalidation : Effect → Bool
is_invalidation (invalidate key) = true
is_invalidation _ = false

-- The report of a batch, by the number of its successes and of its failures.
laporkan-counts :
    (pesan : Pesan) (n : ℕ) (gagal : List String)
    → ((count_of is_success (laporkan pesan n gagal) ≡ 0) ↔ (n ≡ 0))
      × ((count_of is_error (laporkan pesan n gagal) ≡ 0) ↔ (length gagal ≡ 0))
      × (filter is_invalidation (laporkan pesan n gagal)
          ≡ invalidate "automation-jobs" ∷ invalidate "jobs" ∷ [])
unfolding laporkan
laporkan-counts pesan zero [] = ground arith
laporkan-counts pesan zero (g ∷ gs) = ground arith
laporkan-counts pesan (suc n) [] = ground arith
laporkan-counts pesan (suc n) (g ∷ gs) = ground arith

module _ {S Job : Type 0} (upsert : AgentWorkflowAutomationRequest → S → Option Job × S) where
  -- The effects of a button that is pressed while it is not busy: the flag is set first and reset
  -- last, and between the two a success is reported exactly if a job was saved, an error exactly if
  -- one was not, and the two lists of jobs, "automation-jobs" and "jobs", are invalidated. While it is busy nothing happens, and
  -- nothing is sent.
  pub simpan_paket-effects :
      (pesan : Pesan) (ps : List AgentWorkflowAutomationRequest) (s : S)
      → (simpan_paket upsert pesan true ps s ≡ ([], s))
        × ((middle : List Effect) × ((simpan_paket upsert pesan false ps s).0
              ≡ set_busy true ∷ middle ++ set_busy false ∷ [])
            × ((count_of is_success middle ≡ 0) ↔ (count_of is_some (kirim upsert ps s).0 ≡ 0))
            × ((count_of is_error middle ≡ 0)
                ↔ (count_of is_some (kirim upsert ps s).0 ≡ length ps))
            × (filter is_invalidation middle
                ≡ invalidate "automation-jobs" ∷ invalidate "jobs" ∷ []))
        × ((simpan_paket upsert pesan false ps s).1 ≡ (kirim upsert ps s).1)
  unfolding simpan_paket
  simpan_paket-effects pesan ps s =
      let (same, all) =
        simpan_semua_lem (λ (p : AgentWorkflowAutomationRequest). p.job_id) upsert ps s in
      let rs = (kirim upsert ps s).0 in
      let n = count_of is_some rs in
      let gagal = names_failed (λ (p : AgentWorkflowAutomationRequest). p.job_id) ps rs in
      let (c, d, e) = laporkan-counts pesan n gagal in
      rw same (
        refl,
        (
          laporkan pesan n gagal,
          refl,
          c,
          ((λ z. ground (arith, d.0 z, all)), (λ z. d.1 (omega (arith, all)))),
          e,
        ),
        refl,
      )
