-- ===== src/Settings/Bulk.antt =====
-- The editor of the bulk accounts on ui/src/app/settings/page.tsx: its cells, its rows, and the
-- operations on them that send nothing.
pub mod Numbering
pub mod Range
pub mod Targets
pub mod Jobs
pub mod Saving
use multi_job.Prelude.{
  ℕ, zero, suc, ◌+◌, ◌-◌, Bool, true, false, not, String, ◌==◌, ◌⧺◌, List, [], ◌∷◌, ◌++◌, map,
  Option, none, some, filter, some_of, length, ltb, nat_eq, if◌then◌else◌,
}
use multi_job.Js.Text.{trim, truthy, or_text}
use multi_job.Js.Number.{JsNumber, nan, natural, negative, show}
use multi_job.Js.Number.Decimal.{pad_start}
use multi_job.Js.Dict.{Dict, lookup, put}
use multi_job.Js.Json.{Json, text_or_empty}
use multi_job.Js.Sort.{sort_by}
use multi_job.Settings.Toasts.{Toast, success, error, message}
use multi_job.Settings.Numbers.{batasi_angka}
use multi_job.Settings.Providers.{
  BulkProviderMeta, ambil_meta_provider_bulk, BulkRoutinePreset, bulk_routine_presets,
}

pub record InstagramBulkAccountRow : Type 0 where
  pub account_id : String
  pub instagram_user_id : String
  pub token : String
  pub enabled : Bool

-- Of a saved account the page reads these fields.
pub record IntegrationAccount : Type 0 where
  pub provider : String
  pub account_id : String
  pub enabled : Bool
  pub has_secret : Bool
  pub config : Dict Json

-- The cells of the editor.
pub record BulkForm : Type 0 where
  pub provider : String
  pub prefix_id : String
  pub mulai_dari : JsNumber
  pub sampai_ke : JsNumber
  pub pad_digit : JsNumber
  pub rows : List InstagramBulkAccountRow
  pub base_url : String
  pub timezone : String
  pub folder_konten : String
  pub interval_reply_detik : JsNumber
  pub jam_posting : JsNumber
  pub menit_posting_awal : JsNumber
  pub jeda_posting_menit : JsNumber
  pub jam_report : JsNumber
  pub menit_report : JsNumber
  pub preset_rutin_id : String

abbrev pub bulk_form_awal : BulkForm
bulk_form_awal = record {
  provider = "instagram_graph";
  prefix_id = "ig_";
  mulai_dari = natural 1;
  sampai_ke = natural 10;
  pad_digit = natural 3;
  rows = [];
  base_url = "https://graph.facebook.com/v20.0";
  timezone = "Asia/Jakarta";
  folder_konten = "C:\\Users\\user\\Desktop";
  interval_reply_detik = natural 60;
  jam_posting = natural 8;
  menit_posting_awal = natural 0;
  jeda_posting_menit = natural 2;
  jam_report = natural 21;
  menit_report = natural 0;
  preset_rutin_id = "harian_0800";
}

-- `instagramProviderMeta`
unfoldable pub provider_meta : BulkForm → BulkProviderMeta
provider_meta form = ambil_meta_provider_bulk form.provider

-- A change of the provider, with the effect on `instagramProviderMeta`.
unfoldable pilih_provider : String → BulkForm → BulkForm
pilih_provider provider form =
    let meta = ambil_meta_provider_bulk provider in
    record form {
      provider = provider;
      prefix_id = meta.default_prefix;
      base_url = or_text meta.default_base_url form.base_url;
    }

-- `Partial<InstagramBulkAccountRow>`
pub record Patch : Type 0 where
  pub account_id : Option String
  pub instagram_user_id : Option String
  pub token : Option String
  pub enabled : Option Bool

abbrev or_else {ℓ} : {A : Type ℓ} → Option A → A → A
or_else none a = a
or_else (some b) a = b

-- `{ ...row, ...patch }`
abbrev pub dengan : Patch → InstagramBulkAccountRow → InstagramBulkAccountRow
dengan patch row = record {
  account_id = or_else patch.account_id row.account_id;
  instagram_user_id = or_else patch.instagram_user_id row.instagram_user_id;
  token = or_else patch.token row.token;
  enabled = or_else patch.enabled row.enabled;
}

-- `ubahBarisInstagram`
unfoldable ubah_baris_instagram :
    ℕ → Patch → List InstagramBulkAccountRow → List InstagramBulkAccountRow
ubah_baris_instagram index patch [] = []
ubah_baris_instagram zero patch (row ∷ rows) = dengan patch row ∷ rows
ubah_baris_instagram (suc index) patch (row ∷ rows) = row ∷ ubah_baris_instagram index patch rows

-- `hapusBarisInstagram`
unfoldable hapus_baris_instagram : ℕ → List InstagramBulkAccountRow → List InstagramBulkAccountRow
hapus_baris_instagram index [] = []
hapus_baris_instagram zero (row ∷ rows) = rows
hapus_baris_instagram (suc index) (row ∷ rows) = row ∷ hapus_baris_instagram index rows

-- `${prefix}${String(nomor).padStart(pad, "0")}`
pub nama_akun : String → ℕ → ℕ → String
nama_akun prefix pad nomor = prefix ⧺ pad_start pad (show nomor)

-- `sudahAda.has(accountId)`
abbrev pub sudah_ada : List String → String → Bool
sudah_ada ids account_id = some_of (λ i. i == account_id) ids

-- The loop that looks for a number whose name is free; `none` if the fuel runs out.
pub nomor_bebas : ℕ → List String → String → ℕ → ℕ → Option ℕ
unfolding nama_akun
nomor_bebas zero ids prefix pad nomor = none
nomor_bebas (suc fuel) ids prefix pad nomor = elim (sudah_ada ids (nama_akun prefix pad nomor)) [
  | true ↦ nomor_bebas fuel ids prefix pad (nomor + 1)
  | false ↦ some nomor
]

abbrev pub prefix_akun : BulkForm → String
prefix_akun form =
    or_text (or_text (trim form.prefix_id) (provider_meta form).default_prefix) "acc_"

abbrev pub baris_kosong : String → InstagramBulkAccountRow
baris_kosong account_id = record {
  account_id = account_id;
  instagram_user_id = "";
  token = "";
  enabled = true;
}

-- `tambahBarisInstagramManual`. The loop gets one round for each row and one more.
pub tambah_baris_instagram_manual : BulkForm → Option BulkForm
unfolding nomor_bebas
tambah_baris_instagram_manual form =
    let pad = batasi_angka form.pad_digit 1 6 3 in
    let prefix = prefix_akun form in
    let ids = map (λ row. trim row.account_id) form.rows in
    let mulai = batasi_angka form.mulai_dari 1 9999 1 in
    elim (nomor_bebas (suc (length form.rows)) ids prefix pad mulai) [
      | none ↦ none
      | some nomor ↦
          some (record form { rows = form.rows ++ baris_kosong (nama_akun prefix pad nomor) ∷ [] })
    ]
