-- ===== src/Automation/Examples.antt =====
-- Tests of the automation page, and its theorems at concrete inputs.
use multi_job.Prelude.{
  ◌≤◌, Bool, true, false, String, List, [], ◌∷◌, map, Option, none, some, All, Subsequence,
  count_of, some_of, if◌then◌else◌, ◌≡◌, ◌≢◌, ◌↔◌, refl,
}
use multi_job.Js.Text.{trim, join}
use multi_job.Js.Number.{natural, nan, clamped, negative}
use multi_job.Js.LowerCase.{ascii_lower, ascii_lower-KeepsLowerCase}
use multi_job.Automation.Request.{low, AgentWorkflowAutomationRequest}
use multi_job.Automation.Prefix.{normalisasi_prefix_perintah, split_prefixes}
use multi_job.Automation.Prefix.Filtering.{IsCovered}
use multi_job.Automation.Prefix.RoundTrip.{
  IsNormal, normalisasi_prefix_perintah-join, normalisasi_prefix_perintah-IsNormal,
  normalisasi_prefix_perintah_complete,
}
use multi_job.Automation.Templates.{template_jalur_inti, template_payload, ops_realtime}
use multi_job.Automation.Form.{
  FormState, initial_form, sent, refused, form_payload, simpan_job_otomatis,
}
use multi_job.Automation.Form.Bounds.{
  IsWellFormed, HasDefaults, simpan_job_otomatis-IsWellFormed, simpan_job_otomatis-eq_sent_iff,
}
use multi_job.Automation.Presets.{terapkan_template_jalur}
use multi_job.Automation.Presets.Sending.{simpan-terapkan_template_jalur}
use multi_job.Automation.Lanes.{JobRow, hitung_ringkasan_jalur, SkorPrioritas, prioritas_dominan}
use multi_job.Automation.Lanes.Dominant.{skor, rank, prioritas_dominan-max}
use multi_job.Automation.Lanes.Totals.{in_lane}
use multi_job.Automation.Lanes.Order.{IsOrdered}
use multi_job.Automation.Lanes.Summary.{
  IsCounted, is_lane, hitung_ringkasan_jalur-IsCounted, hitung_ringkasan_jalur-one_row,
}

abbrev typed : String
typed = "  pytest \r\nNpm run build; ;PyTest\nffmpeg"

normalisasi_test :
    normalisasi_prefix_perintah ascii_lower typed ≡ "pytest" ∷ "Npm run build" ∷ "ffmpeg" ∷ []
unfolding normalisasi_prefix_perintah ascii_lower
normalisasi_test = refl

normalisasi_prefix_perintah-IsNormal_example :
    IsNormal ascii_lower (normalisasi_prefix_perintah ascii_lower typed)
normalisasi_prefix_perintah-IsNormal_example =
    normalisasi_prefix_perintah-IsNormal ascii_lower typed

normalisasi_prefix_perintah-join_example :
    normalisasi_prefix_perintah ascii_lower
      (join "\n" (normalisasi_prefix_perintah ascii_lower typed))
    ≡ normalisasi_prefix_perintah ascii_lower typed
normalisasi_prefix_perintah-join_example =
    normalisasi_prefix_perintah-join ascii_lower (normalisasi_prefix_perintah ascii_lower typed)
      normalisasi_prefix_perintah-IsNormal_example

normalisasi_prefix_perintah_complete_example :
    Subsequence (normalisasi_prefix_perintah ascii_lower typed) (map trim (split_prefixes typed))
    × All
        (IsCovered ascii_lower (normalisasi_prefix_perintah ascii_lower typed))
        (map trim (split_prefixes typed))
normalisasi_prefix_perintah_complete_example =
    normalisasi_prefix_perintah_complete ascii_lower typed

-- A form with numbers that are out of range, and blank defaults.
abbrev rough_form : FormState
rough_form = record initial_form {
  id_job = " j ";
  interval_detik = negative 4;
  failure_threshold = nan;
  default_channel = "  ";
}

rough_payload : AgentWorkflowAutomationRequest
rough_payload = form_payload ascii_lower rough_form

simpan_rough : simpan_job_otomatis ascii_lower rough_form ≡ sent rough_payload
unfolding simpan_job_otomatis initial_form trim rough_payload
simpan_rough = refl

rough_numbers :
    (rough_payload.interval_sec ≡ some 10)
    × (rough_payload.failure_threshold ≡ some 3)
    × (rough_payload.default_channel ≡ some "telegram")
unfolding rough_payload form_payload initial_form trim clamped
rough_numbers = (refl, refl, refl)

simpan_job_otomatis-IsWellFormed_example :
    IsWellFormed ascii_lower rough_payload × HasDefaults rough_form rough_payload
simpan_job_otomatis-IsWellFormed_example =
    simpan_job_otomatis-IsWellFormed ascii_lower rough_form rough_payload simpan_rough

simpan_job_otomatis-eq_sent_iff_example :
    (((p : AgentWorkflowAutomationRequest) × (simpan_job_otomatis ascii_lower rough_form ≡ sent p))
      ↔ ((trim rough_form.id_job ≢ "") × (trim rough_form.isi_prompt ≢ "")))
    × ((simpan_job_otomatis ascii_lower rough_form ≡ refused "ID tugas wajib diisi.")
        ↔ (trim rough_form.id_job ≡ ""))
    × ((simpan_job_otomatis ascii_lower rough_form
          ≡ refused "Instruksi tugas otomatis wajib diisi.")
        ↔ ((trim rough_form.id_job ≢ "") × (trim rough_form.isi_prompt ≡ "")))
simpan_job_otomatis-eq_sent_iff_example = simpan_job_otomatis-eq_sent_iff ascii_lower rough_form

simpan-terapkan_template_jalur_example :
    simpan_job_otomatis ascii_lower (terapkan_template_jalur ops_realtime rough_form)
    ≡ sent (
        template_payload rough_form.zona_waktu rough_form.default_channel
          rough_form.default_account_id
          (template_jalur_inti ops_realtime))
simpan-terapkan_template_jalur_example =
    simpan-terapkan_template_jalur ascii_lower ascii_lower-KeepsLowerCase ops_realtime rough_form

abbrev row : String → Bool → Option String → JobRow
row name on lane = record {
  job_id = name;
  enabled = some on;
  flow_group = lane;
  pressure_priority = some "critical";
  flow_max_active_runs = some (natural 4);
}

abbrev rows : List JobRow
rows =
    row "a" false none
    ∷ row "b" true (some " sales ")
    ∷ row "c" true (some "umum")
    ∷ row "d" true (some "sales")
    ∷ []

summary_test : map (λ r. r.flow_group) (hitung_ringkasan_jalur rows) ≡ "sales" ∷ "umum" ∷ []
unfolding hitung_ringkasan_jalur trim clamped
summary_test = refl

hitung_ringkasan_jalur-IsCounted_example : All (IsCounted rows) (hitung_ringkasan_jalur rows)
hitung_ringkasan_jalur-IsCounted_example = hitung_ringkasan_jalur-IsCounted rows

hitung_ringkasan_jalur-one_row_example :
    ((g : String)
      → count_of (is_lane g) (hitung_ringkasan_jalur rows)
        ≡ (if some_of (in_lane g) rows then 1 else 0))
    × IsOrdered (hitung_ringkasan_jalur rows)
hitung_ringkasan_jalur-one_row_example = hitung_ringkasan_jalur-one_row rows

abbrev tied : SkorPrioritas
tied = record { critical = 1; normal = 2; low = 2 }

prioritas_dominan-max_example :
    (skor tied low ≤ skor tied (prioritas_dominan tied))
    × (skor tied low ≡ skor tied (prioritas_dominan tied)
        → rank low ≤ rank (prioritas_dominan tied))
prioritas_dominan-max_example = prioritas_dominan-max tied low
