-- ===== src/Settings/Bulk/Range.antt =====
-- The operations of ui/src/app/settings/page.tsx that fill the editor of the bulk accounts: the saved
-- accounts of the provider, a range of names, the saved accounts, and a preset. `after` is whether
-- `a.localeCompare(b) > 0`.
pub mod Names
pub mod Rows
pub mod Laws
use multi_job.Prelude.{
  ℕ, zero, suc, ◌+◌, ◌-◌, Bool, true, false, String, ◌==◌, ◌⧺◌, List, [], ◌∷◌, map, Option, none,
  some, filter, length, ltb, if◌then◌else◌,
}
use multi_job.Js.Text.{trim, or_text}
use multi_job.Js.Number.{natural, show}
use multi_job.Js.Dict.{Dict, lookup, index_by}
use multi_job.Js.Json.{text_or_empty}
use multi_job.Js.Sort.{sort_by}
use multi_job.Settings.Toasts.{Toast, success, error, message}
use multi_job.Settings.Numbers.{batasi_angka}
use multi_job.Settings.Providers.{BulkProviderMeta, BulkRoutinePreset, bulk_routine_presets}
use multi_job.Settings.Bulk.{
  InstagramBulkAccountRow, IntegrationAccount, BulkForm, provider_meta, nama_akun, prefix_akun,
}

-- `akunInstagramTersimpan`
unfoldable akun_instagram_tersimpan :
    (String → String → Bool) → String → List IntegrationAccount → List IntegrationAccount
akun_instagram_tersimpan after provider akun_integrasi =
    sort_by (λ (a b : IntegrationAccount). after a.account_id b.account_id)
      (filter (λ (row : IntegrationAccount). row.provider == provider) akun_integrasi)

-- `typeof config[user_id_key] === "string" ? config[user_id_key] : ""`
abbrev pub id_pengguna : String → IntegrationAccount → String
id_pengguna user_id_key saved = text_or_empty (lookup user_id_key saved.config)

-- What `draft` and `saved` leave of the row for a name.
pub baris_range :
    String
    → Option InstagramBulkAccountRow
    → Option IntegrationAccount
    → String
    → InstagramBulkAccountRow
baris_range user_id_key none none account_id = record {
  account_id = account_id;
  instagram_user_id = "";
  token = "";
  enabled = true;
}
baris_range user_id_key none (some saved) account_id = record {
  account_id = account_id;
  instagram_user_id = id_pengguna user_id_key saved;
  token = "";
  enabled = saved.enabled;
}
baris_range user_id_key (some draft) none account_id = record {
  account_id = account_id;
  instagram_user_id = or_text draft.instagram_user_id "";
  token = or_text draft.token "";
  enabled = draft.enabled;
}
baris_range user_id_key (some draft) (some saved) account_id = record {
  account_id = account_id;
  instagram_user_id = or_text draft.instagram_user_id (id_pengguna user_id_key saved);
  token = or_text draft.token "";
  enabled = draft.enabled;
}

abbrev pub sekarang_by_id : BulkForm → Dict InstagramBulkAccountRow
sekarang_by_id form = index_by (λ row. trim row.account_id) form.rows []

abbrev pub tersimpan_by_id : List IntegrationAccount → Dict IntegrationAccount
tersimpan_by_id rows = index_by (λ row. trim row.account_id) rows []

-- The loop, for so many numbers from `angka` on.
pub baris_dari : (ℕ → InstagramBulkAccountRow) → ℕ → ℕ → List InstagramBulkAccountRow
baris_dari baris zero angka = []
baris_dari baris (suc sisa) angka = baris angka ∷ baris_dari baris sisa (angka + 1)

-- The row that the range has for a number.
unfoldable pub baris_nomor : List IntegrationAccount → BulkForm → ℕ → InstagramBulkAccountRow
unfolding baris_range
baris_nomor tersimpan form angka =
    let account_id = nama_akun (prefix_akun form) (batasi_angka form.pad_digit 1 6 3) angka in
    baris_range (provider_meta form).user_id_key (lookup account_id (sekarang_by_id form))
      (lookup account_id (tersimpan_by_id tersimpan)) account_id

-- `buatRangeAkunInstagram`, for `akunInstagramTersimpan`
unfoldable pub buat_range_akun_instagram : List IntegrationAccount → BulkForm → Toast × BulkForm
unfolding baris_dari
buat_range_akun_instagram tersimpan form =
    let prefix = prefix_akun form in
    let mulai = batasi_angka form.mulai_dari 1 9999 1 in
    let sampai = batasi_angka form.sampai_ke 1 9999 10 in
    let pad = batasi_angka form.pad_digit 1 6 3 in
    let label = (provider_meta form).label in
    if ltb sampai mulai
    then (error ("Rentang akun " ⧺ label ⧺ " tidak valid (akhir < awal)."), form)
    else (
      success (
          "Range akun "
          ⧺ label
          ⧺ " "
          ⧺ nama_akun prefix pad mulai
          ⧺ " sampai "
          ⧺ nama_akun prefix pad sampai
          ⧺ " siap."),
      record form { rows = baris_dari (baris_nomor tersimpan form) (sampai + 1 - mulai) mulai },
    )

-- `muatAkunInstagramTersimpanKeEditor`
unfoldable muat_akun_instagram_tersimpan_ke_editor :
    List IntegrationAccount → BulkForm → Toast × BulkForm
muat_akun_instagram_tersimpan_ke_editor [] form =
    (message ("Belum ada akun " ⧺ (provider_meta form).label ⧺ " tersimpan."), form)
muat_akun_instagram_tersimpan_ke_editor (row ∷ rows) form =
    let meta = provider_meta form in
    let baru =
      map
        (λ (saved : IntegrationAccount). record {
          account_id = saved.account_id;
          instagram_user_id = id_pengguna meta.user_id_key saved;
          token = "";
          enabled = saved.enabled;
        })
        (row ∷ rows) in
    (
      success ("Editor " ⧺ meta.label ⧺ " diisi dari " ⧺ show (length baru) ⧺ " akun tersimpan."),
      record form { rows = baru },
    )

cari_preset : String → List BulkRoutinePreset → Option BulkRoutinePreset
cari_preset preset_id [] = none
cari_preset preset_id (row ∷ rows) =
    if row.id == preset_id then some row else cari_preset preset_id rows

-- `terapkanPresetRutinInstagram`
terapkan_preset_rutin_instagram : String → BulkForm → Option Toast × BulkForm
unfolding cari_preset
terapkan_preset_rutin_instagram preset_id form = elim (cari_preset preset_id bulk_routine_presets) [
  | none ↦ (none, form)
  | some preset ↦ (
    some (success ("Preset rutin '" ⧺ preset.label ⧺ "' diterapkan.")),
    record form {
      preset_rutin_id = preset.id;
      interval_reply_detik = natural preset.reply_interval_sec;
      jam_posting = natural preset.post_hour;
      menit_posting_awal = natural preset.post_minute;
      jeda_posting_menit = natural preset.post_stagger_minute;
      jam_report = natural preset.report_hour;
      menit_report = natural preset.report_minute;
    },
  )
]
