-- ===== src/Settings/JsonForms.antt =====
-- `parseMasukanObjek` and `ubahKePetaString` of ui/src/app/settings/page.tsx. `parse` is `JSON.parse`,
-- with `none` where it throws.
pub mod Laws
use multi_job.Prelude.{
  Bool, true, false, String, ◌⧺◌, List, [], ◌∷◌, Option, none, some, if◌then◌else◌,
}
use multi_job.Js.Text.{trim, truthy}
use multi_job.Js.Dict.{Dict, put}
use multi_job.Js.Json.{Json, null, bool, number, text, array, object, Members, entries, string_of}
use multi_job.Settings.Toasts.{Toast, error}

-- The message that is shown where the result is `null`, or the members of the object.
pub data Masukan : Type 0 where
  ditolak : Toast → Masukan
  diterima : Dict Json → Masukan

-- What is made of a parsed value.
unfoldable pub objek_saja : String → Option Json → Masukan
objek_saja field_name none = ditolak (error (field_name ⧺ " bukan JSON valid."))
objek_saja field_name (some (object members)) = diterima (entries members)
objek_saja field_name (some _) = ditolak (error (field_name ⧺ " harus objek JSON."))

unfoldable pub parse_masukan_objek : (String → Option Json) → String → String → Masukan
parse_masukan_objek parse raw field_name =
    let trimmed = trim raw in
    if truthy trimmed then objek_saja field_name (parse trimmed) else diterima []

-- The loop of `ubahKePetaString`, for the entries that are left.
unfoldable pub isi_peta : Dict Json → Dict String → Dict String
isi_peta [] output = output
isi_peta ((key, value) ∷ entries) output =
    let clean_key = trim key in
    isi_peta entries (if truthy clean_key then put clean_key (string_of value) output else output)

unfoldable pub ubah_ke_peta_string : Dict Json → Dict String
ubah_ke_peta_string source = isi_peta source []
