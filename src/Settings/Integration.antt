-- ===== src/Settings/Integration.antt =====
-- The form for an account of a provider on ui/src/app/settings/page.tsx: pakaiAkunIntegrasi,
-- terapkanTemplateProviderKeForm and simpanAkunIntegrasi. `stringify` is
-- `JSON.stringify(value, null, 2)`, `parse` is `JSON.parse` and `to_lower_case` is `toLowerCase`. The
-- server is a state with an operation for `upsertIntegrationAccount`, whose result is the provider and
-- the name of the saved account, or `none` where the call's is `undefined`.
pub mod Outcome
use multi_job.Prelude.{
  Bool, true, false, ◌&&◌, String, ◌==◌, ◌⧺◌, List, [], ◌∷◌, Option, none, some, if◌then◌else◌,
}
use multi_job.Js.Text.{some_text, trim, truthy, or_text}
use multi_job.Js.Dict.{Dict, lookup, index_by}
use multi_job.Js.Json.{Json}
use multi_job.Settings.Toasts.{Toast, success, error}
use multi_job.Settings.JsonForms.{Masukan, ditolak, diterima, parse_masukan_objek}
use multi_job.Settings.Handlers.{Hasil, berhenti, sesudah_jawaban}
use multi_job.Settings.Bulk.{IntegrationAccount}
use multi_job.Settings.Catalog.{IntegrationProviderTemplate}

-- The cells of the form.
pub record IntegrationForm : Type 0 where
  pub provider : String
  pub account_id : String
  pub enabled : Bool
  pub secret : String
  pub config_text : String

abbrev integration_form_awal : IntegrationForm
integration_form_awal = record {
  provider = "openai";
  account_id = "default";
  enabled = true;
  secret = "";
  config_text = "{}";
}

pub record IntegrationAccountUpsertRequest : Type 0 where
  pub enabled : Bool
  pub secret : Option String
  pub config : Dict Json

cari_akun_integrasi : String → String → List IntegrationAccount → Option IntegrationAccount
cari_akun_integrasi provider account_id [] = none
cari_akun_integrasi provider account_id (row ∷ rows) =
    if (row.provider == provider) && (row.account_id == account_id)
    then some row
    else cari_akun_integrasi provider account_id rows

module _ (stringify : Dict Json → String) where
  -- `pakaiAkunIntegrasi`
  pub pakai_akun_integrasi :
      List IntegrationAccount → String → String → IntegrationForm → IntegrationForm
  unfolding cari_akun_integrasi
  pakai_akun_integrasi rows provider account_id form =
      elim (cari_akun_integrasi provider account_id rows) [
        | none ↦ form
        | some selected ↦ record {
          provider = selected.provider;
          account_id = selected.account_id;
          enabled = selected.enabled;
          secret = "";
          config_text = stringify selected.config;
        }
      ]

  -- `terapkanTemplateProviderKeForm`
  unfoldable terapkan_template_provider_ke_form :
      List IntegrationProviderTemplate → String → IntegrationForm → IntegrationForm
  terapkan_template_provider_ke_form katalog provider form =
      elim (lookup provider
        (index_by (λ (row : IntegrationProviderTemplate). row.provider) katalog [])) [
          | none ↦ form
          | some template ↦ record {
            provider = template.provider;
            account_id = or_text template.default_account_id "default";
            enabled = template.default_enabled;
            secret = "";
            config_text = stringify template.default_config;
          }
        ]

-- What is sent, for the configuration.
abbrev pub permintaan_akun : IntegrationForm → Dict Json → IntegrationAccountUpsertRequest
permintaan_akun form config = record {
  enabled = form.enabled;
  secret = some_text (trim form.secret);
  config = config;
}

module _ {S : Type 0} (to_lower_case : String → String) (parse : String → Option Json)
    (upsert : String
      → String
      → IntegrationAccountUpsertRequest
      → S
      → Option (String × String) × S) where
  -- `provider`
  abbrev nama_provider : IntegrationForm → String
  nama_provider form = to_lower_case (trim form.provider)

  -- The part behind the two names, for the configuration.
  unfoldable pub simpan_config : IntegrationForm → Masukan → S → Hasil IntegrationForm S
  simpan_config form (ditolak toast) s = berhenti (some toast) form s
  simpan_config form (diterima config) s =
      sesudah_jawaban
        (upsert (nama_provider form) (trim form.account_id) (permintaan_akun form config) s) form
        (λ saved. (
          record form { secret = "" },
          success ("Akun integrasi '" ⧺ saved.0 ⧺ "/" ⧺ saved.1 ⧺ "' tersimpan."),
        ))

  unfoldable pub simpan_akun_integrasi : IntegrationForm → S → Hasil IntegrationForm S
  unfolding simpan_config
  simpan_akun_integrasi form s =
      if truthy (nama_provider form)
      then if truthy (trim form.account_id)
        then simpan_config form
            (parse_masukan_objek parse form.config_text "Konfigurasi akun integrasi") s
        else berhenti (some (error "ID akun integrasi wajib diisi.")) form s
      else berhenti (some (error "Penyedia integrasi wajib diisi.")) form s
