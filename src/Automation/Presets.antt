-- ===== src/Automation/Presets.antt =====
-- The buttons of ui/src/app/automation/page.tsx that fill the form: the presets and the templates.
pub mod Sending
use multi_job.Prelude.{true, false, String, List, [], ◌∷◌, none, some, ◌⧺◌}
use multi_job.Js.Text.{join}
use multi_job.Js.Number.{natural}
use multi_job.Automation.Request.{interval, cron, critical, normal}
use multi_job.Automation.Templates.{KunciTemplateJalur, template_jalur_inti}
use multi_job.Automation.Form.{FormState, custom, developer, content, ops}

abbrev pub preset_developer_prefix : List String
preset_developer_prefix =
    "pytest" ∷ "python -m pytest" ∷ "ruff check" ∷ "mypy" ∷ "npm run test" ∷ "npm run build"
    ∷ "npm run lint" ∷ "pnpm run test" ∷ "pnpm run build" ∷ "pnpm run lint" ∷ []

abbrev pub preset_content_prefix : List String
preset_content_prefix =
    "python scripts/trend_research.py" ∷ "python scripts/generate_content.py"
    ∷ "python scripts/publish_queue.py" ∷ "ffmpeg" ∷ "node scripts/publish_content.mjs" ∷ []

abbrev pub preset_ops_prefix : List String
preset_ops_prefix =
    "pytest" ∷ "python -m pytest" ∷ "npm run build" ∷ "npm run test" ∷ "docker build"
    ∷ "docker compose build" ∷ "vercel" ∷ "netlify deploy" ∷ []

-- The presets set every cell.
unfoldable pub terapkan_preset_developer : FormState → FormState
terapkan_preset_developer form = record {
  template_jalur_aktif = none;
  preset_aktif = developer;
  id_job = "workflow_dev_harian";
  isi_prompt =
      "Tarik perubahan terbaru repo, jalankan test + lint + build, ringkas hasil, lalu kirim rekomendasi perbaikan jika ada error.";
  mode_jadwal = interval;
  interval_detik = natural 1800;
  cron = "0 */2 * * *";
  aktif = true;
  zona_waktu = "Asia/Jakarta";
  default_channel = "telegram";
  default_account_id = "default";
  flow_group = "tim_dev";
  flow_max_active_runs = natural 4;
  wajib_approval = true;
  izinkan_overlap = false;
  prioritas_tekanan = normal;
  jitter_detik = natural 5;
  failure_threshold = natural 3;
  failure_cooldown_sec = natural 120;
  failure_cooldown_max_sec = natural 3600;
  failure_memory_enabled = true;
  prefix_perintah_input = join "\n" preset_developer_prefix;
  izinkan_perintah_sensitif = false;
}

unfoldable pub terapkan_preset_content : FormState → FormState
terapkan_preset_content form = record {
  template_jalur_aktif = none;
  preset_aktif = content;
  id_job = "workflow_konten_harian";
  isi_prompt =
      "Riset tren harian dari kanal sosial yang tersedia, siapkan ide konten, buat draft caption, lalu kirim ringkasan aksi dan status publish.";
  mode_jadwal = interval;
  interval_detik = natural 3600;
  cron = "0 */4 * * *";
  aktif = true;
  zona_waktu = "Asia/Jakarta";
  default_channel = "telegram";
  default_account_id = "default";
  flow_group = "tim_konten";
  flow_max_active_runs = natural 10;
  wajib_approval = true;
  izinkan_overlap = false;
  prioritas_tekanan = normal;
  jitter_detik = natural 10;
  failure_threshold = natural 3;
  failure_cooldown_sec = natural 180;
  failure_cooldown_max_sec = natural 7200;
  failure_memory_enabled = true;
  prefix_perintah_input = join "\n" preset_content_prefix;
  izinkan_perintah_sensitif = false;
}

unfoldable pub terapkan_preset_ops : FormState → FormState
terapkan_preset_ops form = record {
  template_jalur_aktif = none;
  preset_aktif = ops;
  id_job = "workflow_ops_deploy";
  isi_prompt =
      "Validasi build dan test, cek kesiapan release, lalu jalankan deploy sesuai policy. Jika ada langkah sensitif, minta approval dulu.";
  mode_jadwal = cron;
  interval_detik = natural 1800;
  cron = "0 */6 * * *";
  aktif = true;
  zona_waktu = "Asia/Jakarta";
  default_channel = "telegram";
  default_account_id = "default";
  flow_group = "tim_ops";
  flow_max_active_runs = natural 2;
  wajib_approval = true;
  izinkan_overlap = false;
  prioritas_tekanan = critical;
  jitter_detik = natural 15;
  failure_threshold = natural 2;
  failure_cooldown_sec = natural 300;
  failure_cooldown_max_sec = natural 7200;
  failure_memory_enabled = true;
  prefix_perintah_input = join "\n" preset_ops_prefix;
  izinkan_perintah_sensitif = false;
}

-- A template keeps the time zone, the channel and the account of the form. The toast that
-- `terapkanTemplateJalur` shows is `template_toast`.
unfoldable pub terapkan_template_jalur : KunciTemplateJalur → FormState → FormState
terapkan_template_jalur kunci form =
    let template = template_jalur_inti kunci in
    record form {
      template_jalur_aktif = some kunci;
      preset_aktif = custom;
      id_job = template.job_id;
      isi_prompt = template.prompt;
      mode_jadwal = template.mode_jadwal;
      interval_detik = natural template.interval_detik;
      cron = template.cron;
      aktif = true;
      flow_group = template.flow_group;
      flow_max_active_runs = natural template.flow_max_active_runs;
      wajib_approval = template.require_approval_for_missing;
      izinkan_overlap = template.allow_overlap;
      prioritas_tekanan = template.pressure_priority;
      jitter_detik = natural template.dispatch_jitter_sec;
      failure_threshold = natural template.failure_threshold;
      failure_cooldown_sec = natural template.failure_cooldown_sec;
      failure_cooldown_max_sec = natural template.failure_cooldown_max_sec;
      failure_memory_enabled = true;
      prefix_perintah_input = join "\n" template.command_allow_prefixes;
      izinkan_perintah_sensitif = false;
    }

template_toast : KunciTemplateJalur → String
template_toast kunci =
    "Template " ⧺ (template_jalur_inti kunci).judul ⧺ " siap, tinggal cek lalu simpan."
