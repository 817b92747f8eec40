-- ===== src/Automation/Batch/WellFormed.antt =====
-- The payloads of the batch buttons keep what the form guarantees.
use multi_job.Prelude.{
  ℕ, ◌≤◌, ◌==◌, ◌&&◌, true, String, List, ◌∷◌, ◌++◌, Option, none, ◌≡◌, ◌⊎◌, inl, inr, refl, arith,
  eq_iff, All,
}
use multi_job.Js.Text.{trim, truthy}
use multi_job.Js.LowerCase.{KeepsLowerCase, may_change}
use multi_job.Automation.Prefix.{is_break, has}
use multi_job.Automation.Request.{PressurePriority}
use multi_job.Automation.Templates.{
  KunciTemplateJalur, ops_realtime, scrap_pipeline, media_generate, template_jalur_inti,
  template_payload,
}
use multi_job.Automation.Form.{FormState}
use multi_job.Automation.Form.Bounds.{
  Given, IsClean, IsWellFormed, or_text-ne-nil, simpan_job_otomatis-IsWellFormed,
}
use multi_job.Automation.Presets.{terapkan_template_jalur}
use multi_job.Automation.Presets.Sending.{
  plain_line, plain_lines, plain_lines-IsNormal, simpan-terapkan_template_jalur,
}
use multi_job.Automation.Batch.{konfigurasi_umum, payload_jalur_inti, payload_paket_saas}

is_clean : (s : String) → (trim s == s) && truthy s ≡ true → IsClean s
is_clean s h = (ground (arith, eq_iff s "", h), ground (arith, eq_iff (trim s) s, h))

module _ (to_lower_case : String → String) (keeps : KeepsLowerCase to_lower_case) where
  -- By the form that the template's button fills.
  template_payload-IsWellFormed :
      (form : FormState) (kunci : KunciTemplateJalur)
      → IsWellFormed to_lower_case (
          template_payload form.zona_waktu form.default_channel form.default_account_id
            (template_jalur_inti kunci))
  template_payload-IsWellFormed form kunci =
      (simpan_job_otomatis-IsWellFormed to_lower_case (terapkan_template_jalur kunci form) _
        (simpan-terapkan_template_jalur to_lower_case keeps kunci form)).0

  konfigurasi_umum-IsWellFormed :
      (form : FormState) (job_id prompt : String) (interval_sec : Option ℕ) (cron : Option String)
      (runs : ℕ) (priority : PressurePriority) (jitter : ℕ) (prefix : String)
      (prefixes : List String)
      → (trim job_id == job_id) && truthy job_id ≡ true
      → (trim prompt == prompt) && truthy prompt ≡ true
      → (Given (λ n. 10 ≤ n) interval_sec × (cron ≡ none))
        ⊎ ((interval_sec ≡ none) × Given (λ s. trim s ≡ s) cron)
      → 1 ≤ runs
      → plain_lines (prefix ∷ prefixes) ≡ true
      → IsWellFormed to_lower_case (
          konfigurasi_umum form job_id prompt interval_sec cron runs priority jitter
            (prefix ∷ prefixes))
  unfolding konfigurasi_umum
  konfigurasi_umum-IsWellFormed form job_id prompt i c runs priority jitter x xs h k schedule r p =
      record {
        job_id = is_clean job_id h;
        prompt = is_clean prompt k;
        schedule = schedule;
        timezone =
            or_text-ne-nil (trim form.zona_waktu) "Asia/Jakarta"
              (ground (arith, eq_iff "Asia/Jakarta" ""));
        channel =
            or_text-ne-nil (trim form.default_channel) "telegram"
              (ground (arith, eq_iff "telegram" ""));
        account =
            or_text-ne-nil (trim form.default_account_id) "default"
              (ground (arith, eq_iff "default" ""));
        flow_group = (is_clean job_id h).0;
        flow_max_active_runs = r;
        failure_threshold = omega arith;
        failure_cooldown_sec = omega arith;
        failure_cooldown_max_sec = omega arith;
        prefixes = (cc, plain_lines-IsNormal to_lower_case keeps (x ∷ xs) p);
      }

  payload_paket_saas-IsWellFormed :
      (form : FormState) → All (IsWellFormed to_lower_case) (payload_paket_saas form)
  unfolding payload_paket_saas trim plain_lines plain_line is_break may_change has
  payload_paket_saas-IsWellFormed form = (
    konfigurasi_umum-IsWellFormed form _ _ _ _ _ _ _ _ _ refl refl (inl (omega arith, refl))
        (omega arith) refl,
    (
      konfigurasi_umum-IsWellFormed form _ _ _ _ _ _ _ _ _ refl refl (inl (omega arith, refl))
          (omega arith) refl,
      (
        konfigurasi_umum-IsWellFormed form _ _ _ _ _ _ _ _ _ refl refl (inl (omega arith, refl))
            (omega arith) refl,
        (
          konfigurasi_umum-IsWellFormed form _ _ _ _ _ _ _ _ _ refl refl (inr (refl, refl))
              (omega arith) refl,
          tt,
        ),
      ),
    ),
  )

  -- Every payload of the two batch buttons is well formed, as one of the form is, if lower case ASCII
  -- texts are left alone by toLowerCase.
  pub payloads-IsWellFormed :
      (form : FormState)
      → All (IsWellFormed to_lower_case) (payload_jalur_inti form ++ payload_paket_saas form)
  unfolding payload_jalur_inti
  payloads-IsWellFormed form = (
    template_payload-IsWellFormed form ops_realtime,
    (
      template_payload-IsWellFormed form scrap_pipeline,
      (template_payload-IsWellFormed form media_generate, payload_paket_saas-IsWellFormed form),
    ),
  )
