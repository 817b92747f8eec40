-- ===== src/Settings/Dashboard/Stored.antt =====
-- What is kept of the dashboard's settings and of the token between two visits of the page.
use multi_job.Prelude.{
  true, false, String, ◌==◌, eq_iff, Option, none, some, ◌≡◌, ◌≢◌, refl, ap, ◌∙◌, arith, Bool-cases,
  inl, inr,
}
use multi_job.Js.Text.{trim, truthy, or_text}
use multi_job.Api.Session.{Storage, window, resolve_api_token, set_api_auth_token}
use multi_job.Api.Session.Resolve.{resolve-set_api_auth_token}
use multi_job.Settings.Toasts.{success}
use multi_job.Settings.Dashboard.{
  PengaturanUi, DashboardForm, Penyimpanan, sesi_dari, muat_pengaturan, isi_pengaturan,
  simpan_pengaturan_ui,
}

-- The storage after the token of the cell was stored.
abbrev sesudah_token : String → Storage → Storage
sesudah_token token s = sesi_dari (set_api_auth_token token (window s)) s

accessible-sesudah_token :
    (token : String) (s : Storage) → (sesudah_token token s).accessible ≡ s.accessible
unfolding set_api_auth_token
accessible-sesudah_token token s = elim (Bool-cases (truthy (trim (or_text token "")))) [
  | inl t ↦ elim (Bool-cases s.accessible) [
    | inl a ↦ elim (Bool-cases (s.has_room (trim (or_text token "")))) [
      | inl r ↦ rw (t, a, r) refl
      | inr r ↦ rw (t, a, r) refl
    ]
    | inr a ↦ rw (t, a) refl
  ]
  | inr t ↦ elim (Bool-cases s.accessible) [ inl a ↦ rw (t, a) refl | inr a ↦ rw (t, a) refl ]
]

window-sesudah_token :
    (token : String) (s : Storage)
    → window (sesudah_token token s) ≡ set_api_auth_token token (window s)
unfolding set_api_auth_token
window-sesudah_token token s = refl

module _ (parse : String → Option PengaturanUi) (stringify : PengaturanUi → String)
    (token_env : String) where
  -- What is saved is found by the next visit, whatever its cells are: the three settings, and the token
  -- that the requests use after the saving. The text of the settings must be read back, it must not be
  -- empty, and the storage must be usable and have room for it.
  pub muat-simpan_pengaturan_ui :
      (form before : DashboardForm) (p : Penyimpanan)
      → let entri = stringify (isi_pengaturan form) in
        p.sesi.accessible ≡ true
        → p.sesi.has_room entri ≡ true
        → entri ≢ ""
        → parse entri ≡ some (isi_pengaturan form)
        → (p' : Penyimpanan) × (simpan_pengaturan_ui stringify form p
            ≡ some (success "Setelan dasbor tersimpan.", p'))
          × (muat_pengaturan parse token_env before p'
              ≡ some (
                record form {
                  token_api =
                      resolve_api_token token_env
                        (set_api_auth_token form.token_api (window p.sesi));
                },
                p',
              ))
  unfolding simpan_pengaturan_ui muat_pengaturan
  muat-simpan_pengaturan_ui form before p usable room ne read =
      let entri = stringify (isi_pengaturan form) in
      let there : (entri == "") ≡ false = ground (arith, eq_iff entri "", ne) in
      let usable' = accessible-sesudah_token form.token_api p.sesi ∙ usable in
      (
        record { pengaturan = some entri; sesi = sesudah_token form.token_api p.sesi },
        rw (usable, room) refl,
        rw (usable', there, read)
            (ap
              (λ b. some (
                record form { token_api = resolve_api_token token_env b },
                record { pengaturan = some entri; sesi = sesudah_token form.token_api p.sesi },
              ))
              (window-sesudah_token form.token_api p.sesi)),
      )

  -- A first visit shows no token: without saved settings the cells stay as they are. If the page is then
  -- saved as it is shown, a token that is stored is removed, and the requests use that of the
  -- environment.
  pub muat_pengaturan-first_visit :
      (form : DashboardForm) (p : Penyimpanan)
      → form.token_api ≡ ""
      → p.pengaturan ≡ none
      → p.sesi.accessible ≡ true
      → p.sesi.has_room (stringify (isi_pengaturan form)) ≡ true
      → (muat_pengaturan parse token_env form p ≡ some (form, p))
        × ((p' : Penyimpanan) × (simpan_pengaturan_ui stringify form p
              ≡ some (success "Setelan dasbor tersimpan.", p'))
            × (resolve_api_token token_env (window p'.sesi) ≡ trim token_env))
  unfolding simpan_pengaturan_ui muat_pengaturan
  muat_pengaturan-first_visit form p blank empty usable room =
      let entri = stringify (isi_pengaturan form) in
      (
        rw (usable, empty) refl,
        (
          record { pengaturan = some entri; sesi = sesudah_token form.token_api p.sesi },
          rw (usable, room) refl,
          ap (resolve_api_token token_env) (window-sesudah_token form.token_api p.sesi)
              ∙ resolve-set_api_auth_token token_env form.token_api p.sesi
              ∙ rw blank (unfold trim in refl),
        ),
      )
