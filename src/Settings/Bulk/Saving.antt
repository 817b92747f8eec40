-- ===== src/Settings/Bulk/Saving.antt =====
-- `simpanSemuaAkunInstagram` of ui/src/app/settings/page.tsx: the rows of the editor are saved one
-- after the other. The server is a state with an operation for `upsertIntegrationAccount`.
pub mod Outcome
use multi_job.Prelude.{
  ℕ, zero, suc, Bool, String, ◌⧺◌, List, [], ◌∷◌, ◌++◌, map, Option, none, some, filter, length,
  if◌then◌else◌,
}
use multi_job.Js.Text.{some_text, trim, truthy, or_text, join}
use multi_job.Js.Number.{show}
use multi_job.Js.Dict.{Dict, put}
use multi_job.Js.Json.{Json, text}
use multi_job.Saving.{simpan_semua}
use multi_job.Settings.Toasts.{Toast, if_positive, success, error, message}
use multi_job.Settings.Bulk.{InstagramBulkAccountRow, BulkForm, provider_meta}

-- `IntegrationAccountUpsertRequest`, with the account that it is for.
pub record AkunBaru : Type 0 where
  pub provider : String
  pub account_id : String
  pub enabled : Bool
  pub secret : Option String
  pub config : Dict Json

-- `rows`
unfoldable pub baris_bersih : List InstagramBulkAccountRow → List InstagramBulkAccountRow
baris_bersih rows =
    filter (λ (row : InstagramBulkAccountRow). truthy row.account_id)
      (map
        (λ (row : InstagramBulkAccountRow). record {
          account_id = trim row.account_id;
          instagram_user_id = trim row.instagram_user_id;
          token = trim row.token;
          enabled = row.enabled;
        })
        rows)

-- `config`
unfoldable pub config_akun : BulkForm → String → Dict Json
config_akun form instagram_user_id =
    let meta = provider_meta form in
    let config = put "base_url" (text (or_text (trim form.base_url) meta.default_base_url)) [] in
    if truthy instagram_user_id
    then put meta.user_id_key (text instagram_user_id) config
    else config

-- What is sent for a row.
unfoldable pub akun_baru : BulkForm → InstagramBulkAccountRow → AkunBaru
unfolding config_akun
akun_baru form row = record {
  provider = form.provider;
  account_id = row.account_id;
  enabled = row.enabled;
  secret = some_text row.token;
  config = config_akun form row.instagram_user_id;
}

unfoldable pub tanpa_token : List InstagramBulkAccountRow → List InstagramBulkAccountRow
tanpa_token rows = map (λ (row : InstagramBulkAccountRow). record row { token = "" }) rows

module _ {S Akun : Type 0} (upsert : AkunBaru → S → Option Akun × S) where
  -- `simpanSemuaAkunInstagram`, for the rows to save
  pub simpan_baris : BulkForm → List InstagramBulkAccountRow → S → List Toast × BulkForm × S
  unfolding akun_baru tanpa_token
  simpan_baris form [] s = (
    error ("Belum ada baris akun " ⧺ (provider_meta form).label ⧺ " untuk disimpan.") ∷ [],
    form,
    s,
  )
  simpan_baris form (row ∷ rows) s =
      let (sukses, gagal, s') =
        simpan_semua (λ (akun : AkunBaru). akun.account_id) upsert 0 []
          (map (akun_baru form) (row ∷ rows)) s in
      let label = (provider_meta form).label in
      (
        if_positive sukses (
              success (
                "Akun "
                ⧺ label
                ⧺ " tersimpan: "
                ⧺ show sukses
                ⧺ " dari "
                ⧺ show (length (row ∷ rows))
                ⧺ "."))
            ++ if_positive (length gagal) (error ("Gagal menyimpan akun: " ⧺ join ", " gagal)),
        record form { rows = tanpa_token form.rows },
        s',
      )

  -- `simpanSemuaAkunInstagram`: the toasts, the editor and the server
  unfoldable pub simpan_semua_akun_instagram : BulkForm → S → List Toast × BulkForm × S
  unfolding baris_bersih simpan_baris
  simpan_semua_akun_instagram form s = simpan_baris form (baris_bersih form.rows) s
