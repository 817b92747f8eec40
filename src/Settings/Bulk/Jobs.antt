-- ===== src/Settings/Bulk/Jobs.antt =====
-- `generateJobHarianInstagram` of ui/src/app/settings/page.tsx: the daily jobs of the accounts, a reply
-- and a posting for each, and one report.
pub mod Laws
pub mod Distinct
use multi_job.Prelude.{
  ℕ, zero, suc, ◌+◌, true, String, ◌⧺◌, List, [], ◌∷◌, ◌++◌, map, Option, none, some, length,
}
use multi_job.Js.Text.{trim, or_text, join}
use multi_job.Js.Number.{show}
use multi_job.Saving.{simpan_semua}
use multi_job.Automation.Request.{
  AgentWorkflowAutomationRequest, PressurePriority, critical, normal, low,
}
use multi_job.Settings.Toasts.{Toast, if_positive, success, error, message}
use multi_job.Settings.Numbers.{batasi_angka}
use multi_job.Settings.Bulk.{BulkForm, provider_meta}
use multi_job.Settings.Bulk.Targets.{cron_posting}

-- A request and the name that it has among the failures.
pub record Kiriman : Type 0 where
  pub nama : String
  pub request : AgentWorkflowAutomationRequest

-- The fields that the three requests share.
permintaan_harian :
    BulkForm
    → (job_id prompt : String) (interval_sec : Option ℕ) (cron : Option String)
      (account_id flow_group : String) (priority : PressurePriority)
    → AgentWorkflowAutomationRequest
permintaan_harian form job_id prompt interval_sec cron account_id flow_group priority = record {
  job_id = job_id;
  prompt = prompt;
  interval_sec = interval_sec;
  cron = cron;
  enabled = some true;
  timezone = some (or_text (trim form.timezone) "Asia/Jakarta");
  default_channel = some (provider_meta form).default_channel;
  default_account_id = some account_id;
  flow_group = some flow_group;
  flow_max_active_runs = none;
  require_approval_for_missing = none;
  allow_overlap = none;
  pressure_priority = some priority;
  dispatch_jitter_sec = none;
  failure_threshold = none;
  failure_cooldown_sec = none;
  failure_cooldown_max_sec = none;
  failure_memory_enabled = none;
  command_allow_prefixes = none;
  allow_sensitive_commands = none;
  timeout_ms = none;
  max_retry = none;
  backoff_sec = none;
}

-- `replyPayload`
pub reply_payload : BulkForm → String → AgentWorkflowAutomationRequest
unfolding permintaan_harian
reply_payload form account_id =
    let meta = provider_meta form in
    permintaan_harian form (meta.job_prefix ⧺ "_reply_" ⧺ account_id)
      ("Pantau interaksi utama di " ⧺ meta.label ⧺ " akun " ⧺ account_id
        ⧺ ". Tindaklanjuti komentar/chat/notifikasi sesuai SOP, tandai isu sensitif untuk eskalasi, dan hindari jawaban berulang.")
      (some (batasi_angka form.interval_reply_detik 10 86400 60)) none account_id
      (meta.job_prefix ⧺ "_reply_ops") normal

-- `postPayload`, for the index of the account
pub post_payload : BulkForm → ℕ → String → AgentWorkflowAutomationRequest
unfolding permintaan_harian
post_payload form index account_id =
    let meta = provider_meta form in
    permintaan_harian form (meta.job_prefix ⧺ "_post_" ⧺ account_id)
      ("Jadwalkan publikasi/sinkron konten untuk "
        ⧺ meta.label
        ⧺ " akun "
        ⧺ account_id
        ⧺ " dari folder "
        ⧺ or_text (trim form.folder_konten) "C:\\Users\\user\\Desktop"
        ⧺ ". Pilih materi hari ini, proses upload/publish, lalu catat status hasil.")
      none (some (cron_posting form index)) account_id (meta.job_prefix ⧺ "_post_ops") normal

-- `reportPayload`
pub report_payload : BulkForm → String → List String → AgentWorkflowAutomationRequest
unfolding permintaan_harian
report_payload form account_id target =
    let meta = provider_meta form in
    permintaan_harian form (meta.job_prefix ⧺ "_report_night")
      ("Buat laporan operasional harian "
        ⧺ meta.label
        ⧺ " untuk akun: "
        ⧺ join ", " target
        ⧺ ". Ringkas total aktivitas sukses, total gagal, error utama, dan rekomendasi tindakan besok.")
      none
      (some (
        show (batasi_angka form.menit_report 0 59 0)
        ⧺ " "
        ⧺ show (batasi_angka form.jam_report 0 23 21)
        ⧺ " * * *"))
      (or_text account_id (meta.job_prefix ⧺ "_001")) (meta.job_prefix ⧺ "_report_ops") low

-- The requests of the loop, from an index on.
pub kiriman_akun : BulkForm → ℕ → List String → List Kiriman
unfolding reply_payload post_payload
kiriman_akun form index [] = []
kiriman_akun form index (account_id ∷ ids) =
    record { nama = account_id ⧺ ":reply"; request = reply_payload form account_id }
    ∷ record { nama = account_id ⧺ ":post"; request = post_payload form index account_id }
    ∷ kiriman_akun form (index + 1) ids

-- The report, which goes to the first account.
pub kiriman_laporan : BulkForm → String → List String → Kiriman
unfolding report_payload
kiriman_laporan form account_id target = record {
  nama = (provider_meta form).job_prefix ⧺ "_report_night";
  request = report_payload form account_id target;
}

-- All requests, in the order in which they are sent; none without an account.
unfoldable pub kiriman_harian : BulkForm → List String → List Kiriman
unfolding kiriman_akun kiriman_laporan
kiriman_harian form [] = []
kiriman_harian form (first ∷ ids) =
    kiriman_akun form 0 (first ∷ ids) ++ kiriman_laporan form first (first ∷ ids) ∷ []

module _ {S Job : Type 0} (upsert : AgentWorkflowAutomationRequest → S → Option Job × S) where
  -- `generateJobHarianInstagram`, for `ambilTargetAkunInstagramAktif()`: the toasts and the server
  unfoldable pub generate_job_harian_instagram : BulkForm → List String → S → List Toast × S
  generate_job_harian_instagram form [] s = (
    error ("Belum ada akun " ⧺ (provider_meta form).label ⧺ " aktif untuk dibuatkan job.") ∷ [],
    s,
  )
  generate_job_harian_instagram form (first ∷ ids) s =
      let (sukses, gagal, s') =
        simpan_semua (λ (k : Kiriman). k.nama) (λ (k : Kiriman). upsert k.request) 0 []
          (kiriman_harian form (first ∷ ids)) s in
      let label = (provider_meta form).label in
      (
        if_positive sukses
              (success ("Job " ⧺ label ⧺ " berhasil dibuat/diperbarui: " ⧺ show sukses ⧺ "."))
            ++ if_positive (length gagal) (error ("Sebagian job gagal dibuat: " ⧺ join ", " gagal)),
        s',
      )
