-- ===== src/Settings/Dashboard.antt =====
-- The dashboard's own settings on ui/src/app/settings/page.tsx: the effect that loads them,
-- simpanPengaturanUi and hapusTokenApi. Of the browser's storage the model has the entry of
-- KUNCI_PENGATURAN beside the one of the token. `parse` and `stringify` are `JSON.parse` and
-- `JSON.stringify` at the settings, and `parse` is `none` where the reading of the three fields throws.
-- A result is `none` where a handler throws.
pub mod Stored
use multi_job.Prelude.{ℕ, Bool, true, false, String, Option, none, some, if◌then◌else◌}
use multi_job.Js.Text.{truthy}
use multi_job.Js.Number.{JsNumber, natural}
use multi_job.Api.Session.{
  Storage, Browser, no_window, window, resolve_api_token, set_api_auth_token, clear_api_auth_token,
}
use multi_job.Settings.Toasts.{Toast, success}

pub record PengaturanUi : Type 0 where
  pub api_base_url : String
  pub refresh_interval : JsNumber
  pub auto_refresh : Bool

pub record DashboardForm : Type 0 where
  pub url_dasar_api : String
  pub token_api : String
  pub jeda_pembaruan : JsNumber
  pub refresh_otomatis : Bool

-- `api_base` is the address of the environment, or the default.
abbrev pub dashboard_form_awal : String → DashboardForm
dashboard_form_awal api_base = record {
  url_dasar_api = api_base;
  token_api = "";
  jeda_pembaruan = natural 5;
  refresh_otomatis = true;
}

-- The entry of the settings, and the storage with the entry of the token.
pub record Penyimpanan : Type 0 where
  pub pengaturan : Option String
  pub sesi : Storage

-- The cells and the storage after an entry that is not empty was read.
abbrev terapkan_pengaturan :
    Option PengaturanUi → DashboardForm → Penyimpanan → DashboardForm × Penyimpanan
terapkan_pengaturan none form p = (form, record p { pengaturan = none })
terapkan_pengaturan (some saved) form p = (
  record form {
    url_dasar_api = saved.api_base_url;
    jeda_pembaruan = saved.refresh_interval;
    refresh_otomatis = saved.auto_refresh;
  },
  p,
)

-- The effect at the start of the page, for the entry that was read.
abbrev muat_entri :
    (String → Option PengaturanUi)
    → String
    → Option String
    → DashboardForm
    → Penyimpanan
    → DashboardForm × Penyimpanan
muat_entri parse token_env none form p = (form, p)
muat_entri parse token_env (some raw) form p =
    if truthy raw
    then (let (form', p') = terapkan_pengaturan (parse raw) form p in
        (record form' { token_api = resolve_api_token token_env (window p'.sesi) }, p'))
    else (form, p)

unfoldable pub muat_pengaturan :
    (String → Option PengaturanUi)
    → (token_env : String) → DashboardForm
    → Penyimpanan
    → Option (DashboardForm × Penyimpanan)
muat_pengaturan parse token_env form p =
    if p.sesi.accessible then some (muat_entri parse token_env p.pengaturan form p) else none

-- The storage of a browser with a window.
abbrev pub sesi_dari : Browser → Storage → Storage
sesi_dari no_window s = s
sesi_dari (window s') s = s'

abbrev pub isi_pengaturan : DashboardForm → PengaturanUi
isi_pengaturan form = record {
  api_base_url = form.url_dasar_api;
  refresh_interval = form.jeda_pembaruan;
  auto_refresh = form.refresh_otomatis;
}

unfoldable pub simpan_pengaturan_ui :
    (PengaturanUi → String) → DashboardForm → Penyimpanan → Option (Toast × Penyimpanan)
simpan_pengaturan_ui stringify form p =
    let entri = stringify (isi_pengaturan form) in
    if p.sesi.accessible
    then if p.sesi.has_room entri
      then some (
        success "Setelan dasbor tersimpan.",
        record {
          pengaturan = some entri;
          sesi = sesi_dari (set_api_auth_token form.token_api (window p.sesi)) p.sesi;
        },
      )
      else none
    else none

unfoldable hapus_token_api : DashboardForm → Penyimpanan → Toast × DashboardForm × Penyimpanan
hapus_token_api form p = (
  success "Token API dihapus dari browser.",
  record form { token_api = "" },
  record p { sesi = sesi_dari (clear_api_auth_token (window p.sesi)) p.sesi },
)
