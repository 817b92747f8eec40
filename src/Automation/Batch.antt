-- ===== src/Automation/Batch.antt =====
-- The two buttons of ui/src/app/automation/page.tsx that save several jobs one after the other,
-- `siapkanTigaJalurIntiSekaligus` and `buatPaketSaas`. The server is a state with an operation for
-- `upsertAgentWorkflowAutomation`, whose result is `none` where the call's is `undefined`.
pub mod Outcome
pub mod WellFormed
mod Examples
use multi_job.Prelude.{
  ℕ, zero, suc, ◌+◌, Bool, true, false, String, ◌⧺◌, List, [], ◌∷◌, ◌++◌, map, Option, none, some,
  if◌then◌else◌, ltb, length,
}
use multi_job.Js.Text.{trim, or_text, join}
use multi_job.Js.Number.{show}
use multi_job.Saving.{simpan_semua}
use multi_job.Automation.Request.{
  AgentWorkflowAutomationRequest, PressurePriority, critical, normal, low,
}
use multi_job.Automation.Templates.{
  KunciTemplateJalur, ops_realtime, scrap_pipeline, media_generate, template_jalur_inti,
  template_payload,
}
use multi_job.Automation.Form.{FormState}

-- What the page does to the outside, in the order of the code.
pub data Effect : Type 0 where
  set_busy : Bool → Effect
  toast_success toast_error : String → Effect
  invalidate : String → Effect

-- The texts of the two toasts: what stands before and behind the number, and before the names.
pub record Pesan : Type 0 where
  pub awal : String
  pub akhir : String
  pub gagal : String

abbrev if_positive : ℕ → Effect → List Effect
if_positive zero e = []
if_positive (suc n) e = e ∷ []

pub laporkan : Pesan → ℕ → List String → List Effect
laporkan pesan berhasil gagal =
    if_positive berhasil (toast_success (pesan.awal ⧺ show berhasil ⧺ pesan.akhir))
    ++ if_positive (length gagal) (toast_error (pesan.gagal ⧺ join ", " gagal))
    ++ invalidate "automation-jobs" ∷ invalidate "jobs" ∷ []

module _ {S Job : Type 0} (upsert : AgentWorkflowAutomationRequest → S → Option Job × S) where
  -- Both buttons: nothing while busy; else the jobs are saved between the two changes of the flag.
  pub simpan_paket : Pesan → Bool → List AgentWorkflowAutomationRequest → S → List Effect × S
  unfolding laporkan
  simpan_paket pesan true payloads s = ([], s)
  simpan_paket pesan false payloads s =
      let (berhasil, gagal, s') =
        simpan_semua (λ (p : AgentWorkflowAutomationRequest). p.job_id) upsert 0 [] payloads s in
      (set_busy true ∷ laporkan pesan berhasil gagal ++ set_busy false ∷ [], s')

-- `daftarPayload` of the two buttons, for the texts of the form.
unfoldable pub payload_jalur_inti : FormState → List AgentWorkflowAutomationRequest
payload_jalur_inti form =
    let of = λ (k : KunciTemplateJalur).
      template_payload form.zona_waktu form.default_channel form.default_account_id
        (template_jalur_inti k) in
    of ops_realtime ∷ of scrap_pipeline ∷ of media_generate ∷ []

-- `konfigurasiUmum`, with the fields that the jobs of the package set themselves.
konfigurasi_umum :
    FormState
    → (job_id prompt : String) (interval_sec : Option ℕ) (cron : Option String)
      (flow_max_active_runs : ℕ) (pressure_priority : PressurePriority) (dispatch_jitter_sec : ℕ)
      (command_allow_prefixes : List String)
    → AgentWorkflowAutomationRequest
konfigurasi_umum form job_id prompt interval_sec cron runs priority jitter prefixes = record {
  job_id = job_id;
  prompt = prompt;
  interval_sec = interval_sec;
  cron = cron;
  enabled = some true;
  timezone = some (or_text (trim form.zona_waktu) "Asia/Jakarta");
  default_channel = some (or_text (trim form.default_channel) "telegram");
  default_account_id = some (or_text (trim form.default_account_id) "default");
  flow_group = some job_id;
  flow_max_active_runs = some runs;
  require_approval_for_missing = some true;
  allow_overlap = some false;
  pressure_priority = some priority;
  dispatch_jitter_sec = some jitter;
  failure_threshold = some 3;
  failure_cooldown_sec = some 120;
  failure_cooldown_max_sec = some 3600;
  failure_memory_enabled = some true;
  command_allow_prefixes = some prefixes;
  allow_sensitive_commands = some false;
  timeout_ms = some 90000;
  max_retry = some 1;
  backoff_sec = some (2 ∷ 5 ∷ []);
}

unfoldable pub payload_paket_saas : FormState → List AgentWorkflowAutomationRequest
unfolding konfigurasi_umum
payload_paket_saas form =
    konfigurasi_umum form "sales_live"
      "Proses lead masuk terbaru, lakukan assignment ke sales yang sesuai, kirim pesan awal, dan laporkan ringkasan hasil."
      (some 30) none 20 critical 5 ("python scripts/" ∷ "npm run test" ∷ "npm run build" ∷ [])
    ∷ konfigurasi_umum form "sales_followup"
        "Jalankan follow-up lead lama berdasarkan prioritas, update status, dan kirim daftar lead yang perlu tindakan manual."
        (some 180) none 10 normal 10 ("python scripts/" ∷ "npm run test" ∷ "npm run build" ∷ [])
    ∷ konfigurasi_umum form "content_publish"
        "Siapkan dan jadwalkan konten harian lintas kanal, cek status publish, lalu kirim ringkasan performa posting."
        (some 300) none 8 normal 15 ("python scripts/" ∷ "ffmpeg" ∷ "node scripts/" ∷ [])
    ∷ konfigurasi_umum form "riset_tren"
        "Riset tren terbaru, kumpulkan insight topik potensial, dan kirim rekomendasi konten prioritas."
        none (some "0 */2 * * *") 4 low 20 ("python scripts/" ∷ "npm run test" ∷ [])
    ∷ []

abbrev pub pesan_jalur_inti : Pesan
pesan_jalur_inti = record {
  awal = "Jalur inti siap: ";
  akhir = " job tersimpan.";
  gagal = "Sebagian jalur gagal disimpan: ";
}

abbrev pub pesan_paket_saas : Pesan
pesan_paket_saas = record {
  awal = "Paket SaaS tersimpan: ";
  akhir = " job berhasil.";
  gagal = "Sebagian job gagal disimpan: ";
}

module _ {S Job : Type 0} (upsert : AgentWorkflowAutomationRequest → S → Option Job × S) where
  unfoldable pub siapkan_tiga_jalur_inti : Bool → FormState → S → List Effect × S
  unfolding simpan_paket
  siapkan_tiga_jalur_inti busy form s =
      simpan_paket upsert pesan_jalur_inti busy (payload_jalur_inti form) s

  unfoldable pub buat_paket_saas : Bool → FormState → S → List Effect × S
  unfolding simpan_paket
  buat_paket_saas busy form s =
      simpan_paket upsert pesan_paket_saas busy (payload_paket_saas form) s
