-- ===== src/Settings/Bulk/Targets.antt =====
-- The accounts for which ui/src/app/settings/page.tsx makes daily jobs, and what it shows of the jobs
-- beforehand. `after` is whether `a.localeCompare(b) > 0`.
pub mod Preview
use multi_job.Prelude.{
  ℕ, zero, suc, ◌+◌, ◌*◌, Bool, true, false, ◌&&◌, String, List, [], ◌∷◌, map, filter, length, ltb,
  take, if◌then◌else◌,
}
use multi_job.Js.Text.{trim, truthy}
use multi_job.Js.Sort.{sort_by}
use multi_job.Settings.Numbers.{batasi_angka, bangun_cron_harian_dengan_offset}
use multi_job.Settings.Bulk.{InstagramBulkAccountRow, IntegrationAccount, BulkForm}

-- `dariEditor`
pub dari_editor : List InstagramBulkAccountRow → List String
dari_editor rows =
    map (λ (row : String × Bool). row.0)
      (filter (λ (row : String × Bool). truthy row.0 && row.1)
        (map (λ (row : InstagramBulkAccountRow). (trim row.account_id, row.enabled)) rows))

-- `dariTersimpan`
pub dari_tersimpan : List IntegrationAccount → List String
dari_tersimpan rows = filter truthy (
    map (λ (row : IntegrationAccount). trim row.account_id)
      (filter (λ (row : IntegrationAccount). row.enabled) rows))

-- `ambilTargetAkunInstagramAktif` and `targetAkunBulkPreview`, for `akunInstagramTersimpan`
unfoldable pub target_akun :
    (String → String → Bool) → List IntegrationAccount → List InstagramBulkAccountRow → List String
unfolding dari_editor dari_tersimpan
target_akun after tersimpan rows =
    let editor = dari_editor rows in
    if ltb 0 (length editor) then sort_by after editor else sort_by after (dari_tersimpan tersimpan)

-- A row of `previewJadwalPosting`
pub record JadwalPosting : Type 0 where
  pub account_id : String
  pub cron : String

-- The schedules from an index on.
unfoldable pub jadwal_dari : (ℕ → String) → ℕ → List String → List JadwalPosting
jadwal_dari cron index [] = []
jadwal_dari cron index (account_id ∷ ids) =
    record { account_id = account_id; cron = cron index } ∷ jadwal_dari cron (index + 1) ids

-- The schedule of the account at an index, for the cells of the editor.
unfoldable pub cron_posting : BulkForm → ℕ → String
cron_posting form index =
    bangun_cron_harian_dengan_offset (batasi_angka form.jam_posting 0 23 8)
      (batasi_angka form.menit_posting_awal 0 59 0)
      (index * batasi_angka form.jeda_posting_menit 0 120 2)

-- `previewJadwalPosting`
unfoldable pub preview_jadwal_posting : BulkForm → List String → List JadwalPosting
preview_jadwal_posting form target = jadwal_dari (cron_posting form) 0 (take 6 target)

-- `estimasiTotalJobHarian`
unfoldable pub estimasi_total_job_harian : List String → ℕ
estimasi_total_job_harian [] = 0
estimasi_total_job_harian (account_id ∷ ids) = length (account_id ∷ ids) * 2 + 1

-- `jumlahBarisEditorAktif`
unfoldable pub jumlah_baris_editor_aktif : List InstagramBulkAccountRow → ℕ
jumlah_baris_editor_aktif rows =
    length
      (filter (λ (row : InstagramBulkAccountRow). truthy (trim row.account_id) && row.enabled) rows)
