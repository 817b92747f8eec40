-- ===== src/Settings/Examples.antt =====
-- The theorems on the settings page at concrete inputs: the providers, the schedule and the bulk
-- accounts.
mod Forms
use multi_job.Prelude.{
  ℕ, ◌+◌, ◌-◌, ◌*◌, ◌/◌, ◌%◌, ◌≤◌, ◌<◌, Bool, true, false, false≢true, eq_iff, nat_eq, String, ◌==◌,
  List, [], ◌∷◌, ◌++◌, map, Option, none, some, length, get_elem?, count_of, All, if◌then◌else◌,
  ◌≡◌, ◌≢◌, ◌↔◌, refl,
}
use multi_job.Js.Text.{trim}
use multi_job.Js.Number.{natural}
use multi_job.Js.Json.{text}
use multi_job.Saving.Laws.{is_some, kirim}
use multi_job.Automation.Request.{AgentWorkflowAutomationRequest}
use multi_job.Settings.Toasts.{is_success, is_error}
use multi_job.Settings.Numbers.{batasi_angka, waktu_dengan_offset, bangun_cron_harian_dengan_offset}
use multi_job.Settings.Numbers.Schedule.{menit_hari, waktu_dengan_offset_lem}
use multi_job.Settings.Providers.{
  bulk_provider_meta, bulk_provider_group_meta, punya_provider, dikenal, grup_provider_bulk,
}
use multi_job.Settings.Providers.Groups.{dikenal-grup_provider_bulk}
use multi_job.Settings.Bulk.{
  InstagramBulkAccountRow, IntegrationAccount, BulkForm, bulk_form_awal, nama_akun, prefix_akun,
  sudah_ada, baris_kosong, tambah_baris_instagram_manual,
}
use multi_job.Settings.Bulk.Numbering.{tambah_baris_instagram_manual_total}
use multi_job.Settings.Bulk.Range.{baris_dari, buat_range_akun_instagram}
use multi_job.Settings.Bulk.Range.Laws.{
  IsRowOf, buat_range_akun_instagram_lem, buat_range_akun_instagram_idem,
}
use multi_job.Settings.Bulk.Targets.{
  JadwalPosting, jadwal_dari, cron_posting, preview_jadwal_posting, estimasi_total_job_harian,
}
use multi_job.Settings.Bulk.Targets.Preview.{cron_posting-eq_iff}
use multi_job.Settings.Bulk.Jobs.{Kiriman, kiriman_harian, generate_job_harian_instagram}
use multi_job.Settings.Bulk.Jobs.Laws.{
  generate_job_harian_instagram_lem, preview_jadwal_posting-sent,
}
use multi_job.Settings.Bulk.Jobs.Distinct.{IsDistinct, kiriman_harian-IsDistinct}
use multi_job.Settings.Bulk.Saving.{AkunBaru, simpan_semua_akun_instagram}
use multi_job.Settings.Bulk.Saving.Outcome.{
  IsSendable, akun_dikirim, simpan_semua_akun_instagram_lem,
}

waktu_dengan_offset_lem_example :
    let w = waktu_dengan_offset 23 50 1500 in
    (w.menit < 60) × (w.jam < 24) × (menit_hari w ≡ (23 * 60 + 50 + 1500) % 1440)
waktu_dengan_offset_lem_example = waktu_dengan_offset_lem 23 50 1500

dikenal-grup_provider_bulk_example :
    dikenal "slack" (grup_provider_bulk bulk_provider_meta bulk_provider_group_meta)
    ≡ punya_provider "slack" bulk_provider_meta
dikenal-grup_provider_bulk_example =
    dikenal-grup_provider_bulk bulk_provider_meta bulk_provider_group_meta "slack"

-- An editor with two rows, the first of which has the name that would come next.
abbrev form : BulkForm
form = record bulk_form_awal {
  sampai_ke = natural 3;
  rows =
      record { account_id = " ig_001 "; instagram_user_id = "178"; token = "abc"; enabled = true }
      ∷ record { account_id = "ig_007"; instagram_user_id = ""; token = ""; enabled = true }
      ∷ [];
}

abbrev tersimpan : List IntegrationAccount
tersimpan =
    record {
      provider = "instagram_graph";
      account_id = "ig_002";
      enabled = false;
      has_secret = true;
      config = ("instagram_user_id", text "179") ∷ [];
    }
    ∷ []

tambah_baris_instagram_manual_total_example :
    let ids = map (λ row. trim row.account_id) form.rows in
    let pad = batasi_angka form.pad_digit 1 6 3 in
    let mulai = batasi_angka form.mulai_dari 1 9999 1 in
    let prefix = prefix_akun form in
    (n : ℕ) × (tambah_baris_instagram_manual form
      ≡ some (record form { rows = form.rows ++ baris_kosong (nama_akun prefix pad n) ∷ [] }))
    × (mulai ≤ n)
    × (n ≤ mulai + length form.rows)
    × (sudah_ada ids (nama_akun prefix pad n) ≡ false)
    × ((j : ℕ) → mulai ≤ j → j < n → sudah_ada ids (nama_akun prefix pad j) ≡ true)
tambah_baris_instagram_manual_total_example = tambah_baris_instagram_manual_total form

buat_range_akun_instagram_lem_example :
    let form' = (buat_range_akun_instagram tersimpan form).1 in
    let mulai = batasi_angka form.mulai_dari 1 9999 1 in
    let sampai = batasi_angka form.sampai_ke 1 9999 10 in
    (sampai < mulai → form' ≡ form)
    × (mulai ≤ sampai
        → (length form'.rows + mulai ≡ sampai + 1)
          × (length form'.rows ≤ 9999)
          × ((j : ℕ)
              → mulai ≤ j
              → j ≤ sampai
              → (row : InstagramBulkAccountRow) × (get_elem? form'.rows (j - mulai) ≡ some row)
                × IsRowOf tersimpan form j row)
          × (record form' { rows = form.rows } ≡ form))
buat_range_akun_instagram_lem_example = buat_range_akun_instagram_lem tersimpan form

buat_range_akun_instagram_idem_example :
    let mulai = batasi_angka form.mulai_dari 1 9999 1 in
    let sampai = batasi_angka form.sampai_ke 1 9999 10 in
    let pad = batasi_angka form.pad_digit 1 6 3 in
    ((buat_range_akun_instagram tersimpan (buat_range_akun_instagram tersimpan form).1).1
      ≡ (buat_range_akun_instagram tersimpan form).1)
    × ((typed : ℕ → InstagramBulkAccountRow) (j : ℕ)
        → ((i : ℕ) → (typed i).account_id ≡ nama_akun (prefix_akun form) pad i)
        → mulai ≤ j
        → j ≤ sampai
        → let form' = record form { rows = baris_dari typed (sampai + 1 - mulai) mulai } in
          (user : String) × (get_elem?
              (buat_range_akun_instagram tersimpan form').1.rows
              (j - mulai)
            ≡ some (record (typed j) { instagram_user_id = user }))
          × ((typed j).instagram_user_id ≢ "" → user ≡ (typed j).instagram_user_id))
buat_range_akun_instagram_idem_example = buat_range_akun_instagram_idem tersimpan form

cron_posting-eq_iff_example :
    let jeda = batasi_angka form.jeda_posting_menit 0 120 2 in
    (cron_posting form 0 ≡ cron_posting form 720) ↔ ((0 * jeda) % 1440 ≡ (720 * jeda) % 1440)
cron_posting-eq_iff_example = cron_posting-eq_iff form 0 720

abbrev target : List String
target = "ig_001" ∷ "ig_007" ∷ []

-- A server that counts the requests and refuses the second.
abbrev upsert : AgentWorkflowAutomationRequest → ℕ → Option String × ℕ
upsert payload n = ((if nat_eq n 1 then none else some payload.job_id), n + 1)

generate_job_harian_instagram_lem_example :
    let (toasts, s') = generate_job_harian_instagram upsert form target 0 in
    let (rs, sent) = kirim (λ (k : Kiriman). upsert k.request) (kiriman_harian form target) 0 in
    (target ≡ [] → (count_of is_error toasts ≡ 1) × (s' ≡ 0))
    × (1 ≤ length target
        → (s' ≡ sent)
          × (length (kiriman_harian form target) ≡ estimasi_total_job_harian target)
          × ((count_of is_success toasts ≡ 0) ↔ (count_of is_some rs ≡ 0))
          × ((count_of is_error toasts ≡ 0)
              ↔ (count_of is_some rs ≡ estimasi_total_job_harian target)))
generate_job_harian_instagram_lem_example = generate_job_harian_instagram_lem upsert form target 0

abbrev baris_kedua : JadwalPosting
baris_kedua = record { account_id = "ig_007"; cron = cron_posting form 1 }

baris_kedua_shown : get_elem? (preview_jadwal_posting form target) 1 ≡ some baris_kedua
unfolding preview_jadwal_posting jadwal_dari cron_posting
baris_kedua_shown = refl

preview_jadwal_posting-sent_example :
    (k : Kiriman) × (get_elem? (kiriman_harian form target) (2 * 1 + 1) ≡ some k)
    × (k.request.default_account_id ≡ some baris_kedua.account_id)
    × (k.request.cron ≡ some baris_kedua.cron)
preview_jadwal_posting-sent_example =
    preview_jadwal_posting-sent form target 1 baris_kedua baris_kedua_shown

target-IsDistinct : IsDistinct target
target-IsDistinct = (((λ e. false≢true ((eq_iff "ig_001" "ig_007").1 e)), tt), (tt, tt))

kiriman_harian-IsDistinct_example :
    IsDistinct (map (λ (k : Kiriman). k.request.job_id) (kiriman_harian form target))
kiriman_harian-IsDistinct_example = kiriman_harian-IsDistinct form target target-IsDistinct

-- A server that counts the accounts.
abbrev upsert_akun : AkunBaru → ℕ → Option String × ℕ
upsert_akun akun n = (some akun.account_id, n + 1)

simpan_semua_akun_instagram_lem_example :
    let ps = akun_dikirim form form.rows in
    let (rs, sent) = kirim upsert_akun ps 0 in
    let (toasts, form', s') = simpan_semua_akun_instagram upsert_akun form 0 in
    All IsSendable ps
    × (length ps ≡ 0 → (count_of is_error toasts ≡ 1) × (form' ≡ form) × (s' ≡ 0))
    × (1 ≤ length ps
        → (s' ≡ sent)
          × ((count_of is_success toasts ≡ 0) ↔ (count_of is_some rs ≡ 0))
          × ((count_of is_error toasts ≡ 0) ↔ (count_of is_some rs ≡ length ps))
          × (form' ≡ record form {
            rows = map (λ (row : InstagramBulkAccountRow). record row { token = "" }) form.rows;
          }))
simpan_semua_akun_instagram_lem_example = simpan_semua_akun_instagram_lem upsert_akun form 0
