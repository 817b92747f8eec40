-- ===== src/Automation/Form.antt =====
-- The form of ui/src/app/automation/page.tsx: its state and the submit.
pub mod Bounds
use multi_job.Prelude.{
  ℕ, Bool, true, false, String, List, [], ◌∷◌, Option, none, some, if◌then◌else◌,
}
use multi_job.Js.Text.{trim, truthy, or_text}
use multi_job.Js.Number.{JsNumber, natural, clamped}
use multi_job.Automation.Prefix.{normalisasi_prefix_perintah}
use multi_job.Automation.Request.{
  ModeJadwal, interval, cron, PressurePriority, normal, AgentWorkflowAutomationRequest,
}
use multi_job.Automation.Templates.{KunciTemplateJalur, if_interval, if_cron}

pub data PresetAktif : Type 0 where
  custom developer content ops : PresetAktif

-- The `useState` cells that the form edits.
pub record FormState : Type 0 where
  pub id_job : String
  pub isi_prompt : String
  pub mode_jadwal : ModeJadwal
  pub interval_detik : JsNumber
  pub cron : String
  pub aktif : Bool
  pub flow_group : String
  pub flow_max_active_runs : JsNumber
  pub wajib_approval : Bool
  pub izinkan_overlap : Bool
  pub prioritas_tekanan : PressurePriority
  pub jitter_detik : JsNumber
  pub failure_threshold : JsNumber
  pub failure_cooldown_sec : JsNumber
  pub failure_cooldown_max_sec : JsNumber
  pub failure_memory_enabled : Bool
  pub prefix_perintah_input : String
  pub izinkan_perintah_sensitif : Bool
  pub zona_waktu : String
  pub default_channel : String
  pub default_account_id : String
  pub preset_aktif : PresetAktif
  pub template_jalur_aktif : Option KunciTemplateJalur

unfoldable pub initial_form : FormState
initial_form = record {
  id_job = "workflow_trend_harian";
  isi_prompt = "Cari tren TikTok niche otomotif, rangkum wawasan, lalu siapkan rekomendasi konten.";
  mode_jadwal = interval;
  interval_detik = natural 900;
  cron = "0 */2 * * *";
  aktif = true;
  flow_group = "umum";
  flow_max_active_runs = natural 10;
  wajib_approval = true;
  izinkan_overlap = false;
  prioritas_tekanan = normal;
  jitter_detik = natural 0;
  failure_threshold = natural 3;
  failure_cooldown_sec = natural 120;
  failure_cooldown_max_sec = natural 3600;
  failure_memory_enabled = true;
  prefix_perintah_input = "pytest\npython -m pytest\nnpm run build";
  izinkan_perintah_sensitif = false;
  zona_waktu = "Asia/Jakarta";
  default_channel = "telegram";
  default_account_id = "default";
  preset_aktif = custom;
  template_jalur_aktif = none;
}

-- What a submit does: the toast of a refusal, or the payload of the mutation.
pub data Submit : Type 0 where
  refused : String → Submit
  sent : AgentWorkflowAutomationRequest → Submit

abbrev pub unless_empty : List String → Option (List String)
unless_empty [] = none
unless_empty (x ∷ xs) = some (x ∷ xs)

module _ (to_lower_case : String → String) where
  unfoldable pub form_payload : FormState → AgentWorkflowAutomationRequest
  form_payload form = record {
    job_id = trim form.id_job;
    prompt = trim form.isi_prompt;
    enabled = some form.aktif;
    interval_sec = if_interval form.mode_jadwal (clamped 10 10 form.interval_detik);
    cron = if_cron form.mode_jadwal (trim form.cron);
    timezone = some (or_text (trim form.zona_waktu) "Asia/Jakarta");
    default_channel = some (or_text (trim form.default_channel) "telegram");
    default_account_id = some (or_text (trim form.default_account_id) "default");
    flow_group = some (or_text (trim form.flow_group) "umum");
    flow_max_active_runs = some (clamped 1 1 form.flow_max_active_runs);
    require_approval_for_missing = some form.wajib_approval;
    allow_overlap = some form.izinkan_overlap;
    pressure_priority = some form.prioritas_tekanan;
    dispatch_jitter_sec = some (clamped 0 0 form.jitter_detik);
    failure_threshold = some (clamped 1 3 form.failure_threshold);
    failure_cooldown_sec = some (clamped 10 120 form.failure_cooldown_sec);
    failure_cooldown_max_sec = some (clamped 10 3600 form.failure_cooldown_max_sec);
    failure_memory_enabled = some form.failure_memory_enabled;
    command_allow_prefixes =
        unless_empty (normalisasi_prefix_perintah to_lower_case form.prefix_perintah_input);
    allow_sensitive_commands = some form.izinkan_perintah_sensitif;
    timeout_ms = some 90000;
    max_retry = some 1;
    backoff_sec = some (2 ∷ 5 ∷ []);
  }

  unfoldable pub simpan_job_otomatis : FormState → Submit
  unfolding form_payload
  simpan_job_otomatis form =
      if truthy (trim form.id_job)
      then if truthy (trim form.isi_prompt)
        then sent (form_payload form)
        else refused "Instruksi tugas otomatis wajib diisi."
      else refused "ID tugas wajib diisi."
