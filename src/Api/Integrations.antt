-- ===== src/Api/Integrations.antt =====
-- The calls for connectors and integrations of ui/src/lib/api.ts.
use multi_job.Prelude.{Bool, true, false, String, ◌⧺◌, List, [], Option, none, some, if◌then◌else◌}
use multi_job.Js.Text.{truthy}
use multi_job.Js.Uri.{encode_uri_component}
use multi_job.Api.Session.{Browser}
use multi_job.Api.Headers.{Config}
use multi_job.Api.Http.{Call, post, put, delete, get_json, send, guarded}

-- `provider ? "?provider=…" : ""`
abbrev provider_query : Option String → String
provider_query none = ""
provider_query (some provider) =
    if truthy provider then "?provider=" ⧺ encode_uri_component provider else ""

pub record IntegrationsCatalog (P M : Type 0) : Type 0 where
  pub providers : List P
  pub mcp_servers : List M

module _ (to_lower_case : String → String) (cfg : Config) (browser : Browser) where
  unfoldable pub get_connectors : {B T : Type 0} → Call B (List T) (List T)
  get_connectors = record {
    request = get_json to_lower_case cfg browser "/connectors";
    finish = guarded (λ t. t) "Gagal memuat data koneksi" [];
  }

  unfoldable pub delete_mcp_integration_server :
      {B T : Type 0} → (server_id : String) → Call B T Bool
  delete_mcp_integration_server server_id = record {
    request = send to_lower_case cfg browser ("/integrations/mcp/servers/" ⧺ server_id) delete none;
    finish = guarded (λ t. true) "Gagal menghapus MCP server" false;
  }

  unfoldable pub upsert_integration_account :
      {B T : Type 0} → (provider account_id : String) (payload : B) → Call B T (Option T)
  upsert_integration_account provider account_id payload = record {
    request =
        send to_lower_case cfg browser ("/integrations/accounts/" ⧺ provider ⧺ "/" ⧺ account_id) put
          (some payload);
    finish = guarded some "Gagal menyimpan akun integrasi" none;
  }

  unfoldable pub delete_integration_account :
      {B T : Type 0} → (provider account_id : String) → Call B T Bool
  delete_integration_account provider account_id = record {
    request =
        send to_lower_case cfg browser ("/integrations/accounts/" ⧺ provider ⧺ "/" ⧺ account_id)
          delete none;
    finish = guarded (λ t. true) "Gagal menghapus akun integrasi" false;
  }

  unfoldable pub bootstrap_integrations_catalog :
      {B T : Type 0} → (payload : B) → Call B T (Option T)
  bootstrap_integrations_catalog payload = record {
    request = send to_lower_case cfg browser "/integrations/catalog/bootstrap" post (some payload);
    finish = guarded some "Gagal menambahkan template konektor" none;
  }

  unfoldable pub get_telegram_connector_accounts : {B T : Type 0} → Call B (List T) (List T)
  get_telegram_connector_accounts = record {
    request = get_json to_lower_case cfg browser "/connector/telegram/accounts";
    finish = guarded (λ t. t) "Gagal memuat akun Telegram" [];
  }

  unfoldable pub upsert_telegram_connector_account :
      {B T : Type 0} → (account_id : String) (payload : B) → Call B T (Option T)
  upsert_telegram_connector_account account_id payload = record {
    request =
        send to_lower_case cfg browser ("/connector/telegram/accounts/" ⧺ account_id) put
          (some payload);
    finish = guarded some "Gagal menyimpan akun Telegram" none;
  }

  unfoldable pub delete_telegram_connector_account :
      {B T : Type 0} → (account_id : String) → Call B T Bool
  delete_telegram_connector_account account_id = record {
    request =
        send to_lower_case cfg browser ("/connector/telegram/accounts/" ⧺ account_id) delete none;
    finish = guarded (λ t. true) "Gagal menghapus akun Telegram" false;
  }

  unfoldable pub get_mcp_integration_servers : {B T : Type 0} → Call B (List T) (List T)
  get_mcp_integration_servers = record {
    request = get_json to_lower_case cfg browser "/integrations/mcp/servers";
    finish = guarded (λ t. t) "Gagal memuat daftar MCP server" [];
  }

  unfoldable pub upsert_mcp_integration_server :
      {B T : Type 0} → (server_id : String) (payload : B) → Call B T (Option T)
  upsert_mcp_integration_server server_id payload = record {
    request =
        send to_lower_case cfg browser ("/integrations/mcp/servers/" ⧺ server_id) put
          (some payload);
    finish = guarded some "Gagal menyimpan MCP server" none;
  }

  unfoldable pub get_integration_accounts :
      {B T : Type 0} → (provider : Option String) → Call B (List T) (List T)
  get_integration_accounts provider = record {
    request =
        get_json to_lower_case cfg browser ("/integrations/accounts" ⧺ provider_query provider);
    finish = guarded (λ t. t) "Gagal memuat akun integrasi" [];
  }

  unfoldable pub get_integrations_catalog :
      {B P M : Type 0} → Call B (IntegrationsCatalog P M) (IntegrationsCatalog P M)
  get_integrations_catalog = record {
    request = get_json to_lower_case cfg browser "/integrations/catalog";
    finish =
        guarded (λ t. t) "Gagal memuat katalog konektor"
          (record { providers = []; mcp_servers = [] });
  }
