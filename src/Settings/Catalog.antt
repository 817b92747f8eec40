-- ===== src/Settings/Catalog.antt =====
-- The catalogue of connectors on ui/src/app/settings/page.tsx: the templates that are missing, the
-- statistics, and the buttons that add templates. The server is a state with an operation for
-- `bootstrapIntegrationsCatalog`, whose result is `none` where the call's is `undefined`.
pub mod Counts
use multi_job.Prelude.{
  ℕ, zero, suc, ◌+◌, Bool, true, false, not, ◌&&◌, ◌||◌, String, ◌==◌, ◌⧺◌, List, [], ◌∷◌, map,
  Option, none, some, filter, some_of, length, ltb, if◌then◌else◌,
}
use multi_job.Js.Number.{show}
use multi_job.Js.Dict.{Dict, lookup, put}
use multi_job.Js.Json.{Json}
use multi_job.Settings.Toasts.{Toast, success, message}
use multi_job.Settings.Bulk.{IntegrationAccount}
use multi_job.Settings.Mcp.{McpIntegrationServer, McpServerTemplate}
use multi_job.Settings.Telegram.{TelegramConnectorAccount}

-- What the page reads of a template.
pub record IntegrationProviderTemplate : Type 0 where
  pub provider : String
  pub default_account_id : String
  pub default_enabled : Bool
  pub default_config : Dict Json

abbrev pub punya_akun : List IntegrationAccount → String → Bool
punya_akun akun_integrasi provider =
    some_of (λ (account : IntegrationAccount). account.provider == provider) akun_integrasi

abbrev pub punya_server : List McpIntegrationServer → String → Bool
punya_server server_mcp server_id =
    some_of (λ (server : McpIntegrationServer). server.server_id == server_id) server_mcp

-- `idTemplateProviderKurang`
unfoldable pub id_template_provider_kurang :
    List IntegrationProviderTemplate → List IntegrationAccount → List String
id_template_provider_kurang katalog akun_integrasi =
    map (λ (row : IntegrationProviderTemplate). row.provider)
      (filter (λ (row : IntegrationProviderTemplate). not (punya_akun akun_integrasi row.provider))
        katalog)

-- `idTemplateMcpKurang`
unfoldable pub id_template_mcp_kurang :
    List McpServerTemplate → List McpIntegrationServer → List String
id_template_mcp_kurang katalog server_mcp =
    map (λ (row : McpServerTemplate). row.template_id)
      (filter (λ (row : McpServerTemplate). not (punya_server server_mcp row.server_id)) katalog)

pub record StatistikKesiapan : Type 0 where
  pub provider_total : ℕ
  pub provider_configured : ℕ
  pub provider_enabled : ℕ
  pub provider_ready : ℕ
  pub mcp_total : ℕ
  pub mcp_configured : ℕ
  pub mcp_enabled : ℕ
  pub telegram_ready : Bool

-- `petaTemplateProvider.has(provider)` and `petaTemplateMcpPerServer.has(server_id)`
abbrev pub di_katalog : List IntegrationProviderTemplate → String → Bool
di_katalog katalog provider =
    some_of (λ (row : IntegrationProviderTemplate). row.provider == provider) katalog

abbrev pub di_katalog_mcp : List McpServerTemplate → String → Bool
di_katalog_mcp katalog server_id =
    some_of (λ (row : McpServerTemplate). row.server_id == server_id) katalog

-- `statistikKesiapan`
unfoldable pub statistik_kesiapan :
    List IntegrationProviderTemplate
    → List McpServerTemplate
    → List IntegrationAccount
    → List McpIntegrationServer
    → List TelegramConnectorAccount
    → StatistikKesiapan
statistik_kesiapan katalog katalog_mcp akun_integrasi server_mcp akun_telegram =
    let accounts =
      filter (λ (row : IntegrationAccount). di_katalog katalog row.provider) akun_integrasi in
    let servers =
      filter (λ (row : McpIntegrationServer). di_katalog_mcp katalog_mcp row.server_id)
        server_mcp in
    record {
      provider_total = length katalog;
      provider_configured = length accounts;
      provider_enabled = length (filter (λ (row : IntegrationAccount). row.enabled) accounts);
      provider_ready = length (filter (λ (row : IntegrationAccount). row.has_secret) accounts);
      mcp_total = length katalog_mcp;
      mcp_configured = length servers;
      mcp_enabled = length (filter (λ (row : McpIntegrationServer). row.enabled) servers);
      telegram_ready =
          some_of (λ (row : TelegramConnectorAccount). row.enabled && row.has_bot_token)
            akun_telegram;
    }

-- What `statistikAkunProviderBulk` counts of a provider.
pub record StatistikAkun : Type 0 where
  pub total : ℕ
  pub enabled : ℕ
  pub ready : ℕ

abbrev statistik_kosong : StatistikAkun
statistik_kosong = record { total = 0; enabled = 0; ready = 0 }

-- `output.get(provider) || { total: 0, enabled: 0, ready: 0 }`
abbrev pub statistik_dari : Option StatistikAkun → StatistikAkun
statistik_dari none = statistik_kosong
statistik_dari (some current) = current

unfoldable pub tambah_akun : IntegrationAccount → StatistikAkun → StatistikAkun
tambah_akun row current = record {
  total = current.total + 1;
  enabled = current.enabled + (if row.enabled then 1 else 0);
  ready = current.ready + (if row.has_secret then 1 else 0);
}

-- The loop, for the map that is there.
unfoldable pub hitung_akun : List IntegrationAccount → Dict StatistikAkun → Dict StatistikAkun
unfolding tambah_akun
hitung_akun [] output = output
hitung_akun (row ∷ rows) output =
    hitung_akun rows
      (put row.provider (tambah_akun row (statistik_dari (lookup row.provider output))) output)

unfoldable pub statistik_akun_provider_bulk : List IntegrationAccount → Dict StatistikAkun
statistik_akun_provider_bulk akun_integrasi = hitung_akun akun_integrasi []

-- `statistikProviderTerpilih`
unfoldable pub statistik_provider_terpilih : List IntegrationAccount → String → StatistikAkun
statistik_provider_terpilih akun_integrasi provider =
    statistik_dari (lookup provider (statistik_akun_provider_bulk akun_integrasi))

-- `IntegrationsBootstrapRequest`; the account is always "default" and nothing is overwritten.
record IntegrationsBootstrapRequest : Type 0 where
  pub provider_ids : Option (List String)
  pub mcp_template_ids : Option (List String)
  pub account_id : String
  pub overwrite : Bool

-- What the page reads of the answer.
record IntegrationsBootstrapResponse : Type 0 where
  pub providers_created : List String
  pub providers_updated : List String
  pub mcp_created : List String
  pub mcp_updated : List String

-- The lists that are loaded again.
record MuatUlang : Type 0 where
  pub akun_integrasi : Bool
  pub server_mcp : Bool

abbrev permintaan_bootstrap :
    Option (List String) → Option (List String) → IntegrationsBootstrapRequest
permintaan_bootstrap provider_ids mcp_template_ids = record {
  provider_ids = provider_ids;
  mcp_template_ids = mcp_template_ids;
  account_id = "default";
  overwrite = false;
}

-- Nothing without an answer, else a message and the lists to load.
abbrev sesudah_bootstrap {ℓ} :
    {S : Type ℓ}
    → Option IntegrationsBootstrapResponse × S
    → (IntegrationsBootstrapResponse → Toast)
    → MuatUlang
    → Option Toast × MuatUlang × S
sesudah_bootstrap (none, s) toast lists =
    (none, record { akun_integrasi = false; server_mcp = false }, s)
sesudah_bootstrap (some response, s) toast lists = (some (toast response), lists, s)

abbrev keduanya : MuatUlang
keduanya = record { akun_integrasi = true; server_mcp = true }

module _ {S : Type 0}
    (bootstrap : IntegrationsBootstrapRequest → S → Option IntegrationsBootstrapResponse × S) where
  unfoldable bootstrap_semua_template : S → Option Toast × MuatUlang × S
  bootstrap_semua_template s =
      sesudah_bootstrap (bootstrap (permintaan_bootstrap none none) s)
        (λ response. success (
          "Template masuk: penyedia +"
          ⧺ show (length response.providers_created)
          ⧺ ", MCP +"
          ⧺ show (length response.mcp_created)
          ⧺ "."))
        keduanya

  -- For `idTemplateProviderKurang` and `idTemplateMcpKurang`.
  unfoldable bootstrap_template_kurang :
      List String → List String → S → Option Toast × MuatUlang × S
  bootstrap_template_kurang [] [] s = (
    some (message "Semua template sudah masuk di dasbor."),
    record { akun_integrasi = false; server_mcp = false },
    s,
  )
  bootstrap_template_kurang providers mcp s =
      sesudah_bootstrap (bootstrap (permintaan_bootstrap (some providers) (some mcp)) s)
        (λ response. success (
          "Template yang kurang sudah ditambahkan. Penyedia +"
          ⧺ show (length response.providers_created)
          ⧺ ", MCP +"
          ⧺ show (length response.mcp_created)
          ⧺ "."))
        keduanya

  unfoldable bootstrap_satu_template_provider : String → S → Option Toast × MuatUlang × S
  bootstrap_satu_template_provider provider s =
      sesudah_bootstrap (bootstrap (permintaan_bootstrap (some (provider ∷ [])) (some [])) s)
        (λ response.
          if ltb 0 (length response.providers_created) || ltb 0 (length response.providers_updated)
          then success ("Template penyedia '" ⧺ provider ⧺ "' ditambahkan.")
          else message ("Template penyedia '" ⧺ provider ⧺ "' sudah ada."))
        (record { akun_integrasi = true; server_mcp = false })

  unfoldable bootstrap_satu_template_mcp : String → String → S → Option Toast × MuatUlang × S
  bootstrap_satu_template_mcp template_id label s =
      sesudah_bootstrap (bootstrap (permintaan_bootstrap (some []) (some (template_id ∷ []))) s)
        (λ response.
          if ltb 0 (length response.mcp_created) || ltb 0 (length response.mcp_updated)
          then success ("Template MCP '" ⧺ label ⧺ "' ditambahkan.")
          else message ("Template MCP '" ⧺ label ⧺ "' sudah ada."))
        (record { akun_integrasi = false; server_mcp = true })
