-- ===== src/Settings/Bulk/Targets/Preview.antt =====
-- What the page shows of the daily jobs before they are made.
use multi_job.Prelude.{
  ℕ, ◌*◌, ◌%◌, Bool, true, ◌&&◌, String, eq_iff, List, [], ◌∷◌, length, All, ◌≡◌, ◌≢◌, ◌↔◌, refl,
  ◌∙◌, arith, Bool-cases, inl, inr, ltb,
}
use multi_job.Js.Text.{trim, truthy}
use multi_job.Js.Text.Trimming.{trim_idem}
use multi_job.Js.Sort.{sort_by}
use multi_job.Js.Sort.Laws.{length-sort_by, All-sort_by}
use multi_job.Settings.Numbers.{batasi_angka}
use multi_job.Settings.Numbers.Schedule.{bangun_cron_harian_dengan_offset-eq_iff}
use multi_job.Settings.Providers.Prefixes.{IsName}
use multi_job.Settings.Bulk.{InstagramBulkAccountRow, IntegrationAccount, BulkForm}
use multi_job.Settings.Bulk.Targets.{
  dari_editor, dari_tersimpan, target_akun, cron_posting, jumlah_baris_editor_aktif,
}

length-dari_editor :
    (rows : List InstagramBulkAccountRow)
    → length (dari_editor rows) ≡ jumlah_baris_editor_aktif rows
unfolding dari_editor jumlah_baris_editor_aktif
length-dari_editor [] = refl
length-dari_editor (row ∷ rows) = ground (arith, length-dari_editor rows)

trimmed_name : (s : String) → truthy (trim s) ≡ true → IsName (trim s)
trimmed_name s h = (trim_idem s, ground (arith, h, eq_iff (trim s) ""))

dari_editor-IsName : (rows : List InstagramBulkAccountRow) → All IsName (dari_editor rows)
unfolding dari_editor
dari_editor-IsName [] = tt
dari_editor-IsName (row ∷ rows) = elim (Bool-cases (truthy (trim row.account_id) && row.enabled)) [
  | inl e ↦ rw e (trimmed_name row.account_id (ground (arith, e)), dari_editor-IsName rows)
  | inr e ↦ rw e (dari_editor-IsName rows)
]

dari_tersimpan-IsName : (rows : List IntegrationAccount) → All IsName (dari_tersimpan rows)
unfolding dari_tersimpan
dari_tersimpan-IsName [] = tt
dari_tersimpan-IsName (row ∷ rows) = elim (Bool-cases row.enabled) [
  | inl e ↦ elim (Bool-cases (truthy (trim row.account_id))) [
    | inl d ↦ rw (e, d) (trimmed_name row.account_id d, dari_tersimpan-IsName rows)
    | inr d ↦ rw (e, d) (dari_tersimpan-IsName rows)
  ]
  | inr e ↦ rw e (dari_tersimpan-IsName rows)
]

-- The accounts have trimmed names that are not empty; they are those of the editor, as many as it
-- counts, unless it has none.
target_akun_lem :
    (after : String → String → Bool) (tersimpan : List IntegrationAccount)
    (rows : List InstagramBulkAccountRow)
    → All IsName (target_akun after tersimpan rows)
      × (jumlah_baris_editor_aktif rows ≢ 0
          → length (target_akun after tersimpan rows) ≡ jumlah_baris_editor_aktif rows)
      × (jumlah_baris_editor_aktif rows ≡ 0
          → target_akun after tersimpan rows ≡ sort_by after (dari_tersimpan tersimpan))
unfolding target_akun
target_akun_lem after tersimpan rows =
    let same = length-dari_editor rows in
    elim (Bool-cases (ltb 0 (length (dari_editor rows)))) [
      | inl e ↦ rw e (
        All-sort_by after IsName (dari_editor rows) (dari_editor-IsName rows),
        (λ h. length-sort_by after (dari_editor rows) ∙ same),
        (λ h. absurd (ground (arith, e, same, h))),
      )
      | inr e ↦ rw e (
        All-sort_by after IsName (dari_tersimpan tersimpan) (dari_tersimpan-IsName tersimpan),
        (λ h. absurd (ground (arith, e, same, h))),
        (λ h. refl),
      )
    ]

-- Two accounts post at the same time exactly if their distance in minutes is a number of whole days.
pub cron_posting-eq_iff :
    (form : BulkForm) (i j : ℕ)
    → let jeda = batasi_angka form.jeda_posting_menit 0 120 2 in
      (cron_posting form i ≡ cron_posting form j) ↔ ((i * jeda) % 1440 ≡ (j * jeda) % 1440)
unfolding cron_posting
cron_posting-eq_iff form i j =
    bangun_cron_harian_dengan_offset-eq_iff (batasi_angka form.jam_posting 0 23 8)
      (batasi_angka form.menit_posting_awal 0 59 0)
      (i * batasi_angka form.jeda_posting_menit 0 120 2)
      (j * batasi_angka form.jeda_posting_menit 0 120 2)
