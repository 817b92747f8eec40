-- ===== src/Settings/Integration/Outcome.antt =====
-- The branches of saving the form of a provider's account, and its prefilling by a template.
use multi_job.Prelude.{
  true, false, String, ◌==◌, eq_iff, ◌⧺◌, Option, none, some, ◌≡◌, ◌≢◌, refl, ap, ◌∙◌, arith,
}
use multi_job.Js.Text.{trim}
use multi_job.Js.Dict.{Dict}
use multi_job.Js.Json.{Json}
use multi_job.Settings.Toasts.{Toast, success, error}
use multi_job.Settings.Handlers.{Hasil, sesudah_jawaban-none, sesudah_jawaban-some}
use multi_job.Settings.JsonForms.{Masukan, ditolak, diterima, parse_masukan_objek}
use multi_job.Settings.Integration.{
  IntegrationForm, IntegrationAccountUpsertRequest, permintaan_akun, simpan_config,
  simpan_akun_integrasi,
}

-- Nothing but a message.
abbrev pub Refused : {S : Type 0} → Toast → IntegrationForm → S → Hasil IntegrationForm S
Refused toast form s = record { toast = some toast; form = form; server = s; muat_ulang = false }

module _ {S : Type 0} (to_lower_case : String → String) (parse : String → Option Json)
    (upsert : String → String → IntegrationAccountUpsertRequest → S → Option (String × String) × S)
    (form : IntegrationForm) (s : S) where
  abbrev provider : String
  provider = to_lower_case (trim form.provider)

  abbrev config : Masukan
  config = parse_masukan_objek parse form.config_text "Konfigurasi akun integrasi"

  named :
      provider ≢ ""
      → trim form.account_id ≢ ""
      → simpan_akun_integrasi to_lower_case parse upsert form s
        ≡ simpan_config to_lower_case parse upsert form config s
  unfolding simpan_akun_integrasi
  named h k =
      let e : (provider == "") ≡ false = ground (arith, eq_iff provider "", h) in
      let d : (trim form.account_id == "") ≡ false =
        ground (arith, eq_iff (trim form.account_id) "", k) in
      rw (e, d) refl

  nameless :
      provider ≢ ""
      → trim form.account_id ≡ ""
      → simpan_akun_integrasi to_lower_case parse upsert form s
        ≡ Refused (error "ID akun integrasi wajib diisi.") form s
  unfolding simpan_akun_integrasi
  nameless h k =
      let e : (provider == "") ≡ false = ground (arith, eq_iff provider "", h) in rw (e, k) refl

  no_provider :
      provider ≡ ""
      → simpan_akun_integrasi to_lower_case parse upsert form s
        ≡ Refused (error "Penyedia integrasi wajib diisi.") form s
  unfolding simpan_akun_integrasi
  no_provider h = rw h refl

  config_step :
      (m : Masukan)
      → config ≡ m
      → simpan_config to_lower_case parse upsert form config s
        ≡ simpan_config to_lower_case parse upsert form m s
  config_step m c = ap (λ n. simpan_config to_lower_case parse upsert form n s) c

  -- The guards in their order: a provider, an account and an object as configuration. What fails one is
  -- refused with one message, and nothing is sent or changed. What passes all is sent once, for the
  -- provider in lower case and the trimmed account; if it fails the form stays and nothing is shown,
  -- and if not, the typed secret is emptied, the other cells stay and the list is loaded again.
  pub simpan_akun_integrasi_lem :
      let hasil = simpan_akun_integrasi to_lower_case parse upsert form s in
      (provider ≡ "" → hasil ≡ Refused (error "Penyedia integrasi wajib diisi.") form s)
      × (provider ≢ ""
          → trim form.account_id ≡ ""
          → hasil ≡ Refused (error "ID akun integrasi wajib diisi.") form s)
      × ((toast : Toast)
          → provider ≢ ""
          → trim form.account_id ≢ ""
          → config ≡ ditolak toast
          → hasil ≡ Refused toast form s)
      × ((members : Dict Json)
          → provider ≢ ""
          → trim form.account_id ≢ ""
          → config ≡ diterima members
          → let (saved, s') =
              upsert provider (trim form.account_id) (permintaan_akun form members) s in
            (saved ≡ none
              → hasil ≡ record { toast = none; form = form; server = s'; muat_ulang = false })
            × ((name : String × String)
                → saved ≡ some name
                → hasil ≡ record {
                  toast =
                      some (success ("Akun integrasi '" ⧺ name.0 ⧺ "/" ⧺ name.1 ⧺ "' tersimpan."));
                  form = record form { secret = "" };
                  server = s';
                  muat_ulang = true;
                }))
  unfolding simpan_config
  simpan_akun_integrasi_lem = (
    no_provider,
    nameless,
    (λ toast h k c. named h k ∙ config_step _ c),
    (λ members h k c.
        let answer = upsert provider (trim form.account_id) (permintaan_akun form members) s in
        (
          (λ n. named h k ∙ config_step _ c ∙ sesudah_jawaban-none form _ answer n),
          (λ name n. named h k ∙ config_step _ c ∙ sesudah_jawaban-some form _ answer name n),
        )),
  )
