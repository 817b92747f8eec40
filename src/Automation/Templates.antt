-- ===== src/Automation/Templates.antt =====
-- The three core lanes of ui/src/app/automation/page.tsx, `TEMPLATE_JALUR_INTI`, and the payload
-- that the batch button makes of one.
use multi_job.Prelude.{ℕ, Bool, true, false, String, List, [], ◌∷◌, Option, none, some}
use multi_job.Js.Text.{trim, or_text}
use multi_job.Automation.Request.{
  ModeJadwal, interval, cron, PressurePriority, critical, normal, low,
  AgentWorkflowAutomationRequest,
}

pub data KunciTemplateJalur : Type 0 where
  ops_realtime scrap_pipeline media_generate : KunciTemplateJalur

pub record TemplateJalurInti : Type 0 where
  pub judul : String
  pub deskripsi : String
  pub badge : String
  pub job_id : String
  pub prompt : String
  pub mode_jadwal : ModeJadwal
  pub interval_detik : ℕ
  pub cron : String
  pub flow_group : String
  pub flow_max_active_runs : ℕ
  pub pressure_priority : PressurePriority
  pub dispatch_jitter_sec : ℕ
  pub failure_threshold : ℕ
  pub failure_cooldown_sec : ℕ
  pub failure_cooldown_max_sec : ℕ
  pub require_approval_for_missing : Bool
  pub allow_overlap : Bool
  pub command_allow_prefixes : List String

unfoldable pub template_jalur_inti : KunciTemplateJalur → TemplateJalurInti
template_jalur_inti ops_realtime = record {
  judul = "Jalur Operasional Realtime";
  deskripsi =
      "Untuk job monitoring, assignment, dan respons cepat yang harus tetap jalan saat trafik tinggi.";
  badge = "Real-time";
  job_id = "jalur_ops_realtime";
  prompt =
      "Pantau antrian operasional realtime, proses item prioritas tinggi lebih dulu, dan kirim ringkasan status setiap siklus.";
  mode_jadwal = interval;
  interval_detik = 30;
  cron = "*/1 * * * *";
  flow_group = "ops_realtime";
  flow_max_active_runs = 20;
  pressure_priority = critical;
  dispatch_jitter_sec = 3;
  failure_threshold = 2;
  failure_cooldown_sec = 60;
  failure_cooldown_max_sec = 1800;
  require_approval_for_missing = true;
  allow_overlap = false;
  command_allow_prefixes = "python scripts/" ∷ "npm run test" ∷ "npm run build" ∷ [];
}
template_jalur_inti scrap_pipeline = record {
  judul = "Jalur Scrap Pipeline";
  deskripsi =
      "Untuk pengambilan data bertahap, normalisasi, lalu simpan hasil ke antrean berikutnya.";
  badge = "Pipeline";
  job_id = "jalur_scrap_pipeline";
  prompt =
      "Jalankan pipeline scraping bertahap, validasi hasil, simpan data bersih, lalu kirim metrik coverage dan error rate.";
  mode_jadwal = interval;
  interval_detik = 180;
  cron = "*/5 * * * *";
  flow_group = "scrap_pipeline";
  flow_max_active_runs = 12;
  pressure_priority = normal;
  dispatch_jitter_sec = 12;
  failure_threshold = 3;
  failure_cooldown_sec = 120;
  failure_cooldown_max_sec = 3600;
  require_approval_for_missing = true;
  allow_overlap = false;
  command_allow_prefixes = "python scripts/" ∷ "node scripts/" ∷ "npm run test" ∷ [];
}
template_jalur_inti media_generate = record {
  judul = "Jalur Produksi Media";
  deskripsi =
      "Untuk generate batch foto/video/konten dan publikasi terjadwal dengan beban yang lebih berat.";
  badge = "Batch Media";
  job_id = "jalur_media_generate";
  prompt =
      "Generate aset konten batch (foto/video/caption), cek kualitas dasar, lalu kirim paket siap publish beserta daftar gagal.";
  mode_jadwal = cron;
  interval_detik = 900;
  cron = "0 */2 * * *";
  flow_group = "media_generate";
  flow_max_active_runs = 8;
  pressure_priority = low;
  dispatch_jitter_sec = 20;
  failure_threshold = 3;
  failure_cooldown_sec = 180;
  failure_cooldown_max_sec = 7200;
  require_approval_for_missing = true;
  allow_overlap = false;
  command_allow_prefixes = "python scripts/" ∷ "ffmpeg" ∷ "node scripts/" ∷ [];
}

-- `cond ? value : undefined` on the schedule mode.
abbrev pub if_interval : {A : Type 0} → ModeJadwal → A → Option A
if_interval interval a = some a
if_interval cron a = none

abbrev pub if_cron : {A : Type 0} → ModeJadwal → A → Option A
if_cron interval a = none
if_cron cron a = some a

-- One element of `daftarPayload` in `siapkanTigaJalurIntiSekaligus`; the arguments are the texts of
-- the form for the time zone, the channel and the account.
unfoldable pub template_payload :
    String → String → String → TemplateJalurInti → AgentWorkflowAutomationRequest
template_payload zona_waktu default_channel default_account_id template = record {
  job_id = template.job_id;
  prompt = template.prompt;
  interval_sec = if_interval template.mode_jadwal template.interval_detik;
  cron = if_cron template.mode_jadwal template.cron;
  enabled = some true;
  timezone = some (or_text (trim zona_waktu) "Asia/Jakarta");
  default_channel = some (or_text (trim default_channel) "telegram");
  default_account_id = some (or_text (trim default_account_id) "default");
  flow_group = some template.flow_group;
  flow_max_active_runs = some template.flow_max_active_runs;
  require_approval_for_missing = some true;
  allow_overlap = some false;
  pressure_priority = some template.pressure_priority;
  dispatch_jitter_sec = some template.dispatch_jitter_sec;
  failure_threshold = some template.failure_threshold;
  failure_cooldown_sec = some template.failure_cooldown_sec;
  failure_cooldown_max_sec = some template.failure_cooldown_max_sec;
  failure_memory_enabled = some true;
  command_allow_prefixes = some template.command_allow_prefixes;
  allow_sensitive_commands = some false;
  timeout_ms = some 90000;
  max_retry = some 1;
  backoff_sec = some (2 ∷ 5 ∷ []);
}
