-- ===== src/Api/Office.antt =====
-- The calls for the office pages of ui/src/lib/api.ts. The body of `send_chairman_mandate` is the
-- text of the object `{ text }`.
use multi_job.Prelude.{Bool, true, false, String, ◌⧺◌, List, [], Option, none, some, if◌then◌else◌}
use multi_job.Js.Text.{truthy}
use multi_job.Api.Session.{Browser}
use multi_job.Api.Headers.{Config}
use multi_job.Api.Http.{Call, post, get_json, send, guarded}

abbrev platform_query : Option String → String
platform_query none = ""
platform_query (some platform) = if truthy platform then "?platform=" ⧺ platform else ""

module _ (to_lower_case : String → String) (cfg : Config) (browser : Browser) where
  unfoldable pub get_branches : {B T : Type 0} → Call B (List T) (List T)
  get_branches = record {
    request = get_json to_lower_case cfg browser "/branches";
    finish = guarded (λ t. t) "Gagal memuat unit bisnis" [];
  }

  unfoldable pub add_armory_account : {B T : Type 0} → (payload : B) → Call B T (Option T)
  add_armory_account payload = record {
    request = send to_lower_case cfg browser "/armory/accounts" post (some payload);
    finish = guarded some "Gagal menambahkan akun" none;
  }

  unfoldable pub deploy_account : {B T : Type 0} → (account_id branch_id : String) → Call B T Bool
  deploy_account account_id branch_id = record {
    request =
        send to_lower_case cfg browser
          ("/armory/accounts/" ⧺ account_id ⧺ "/deploy?branch_id=" ⧺ branch_id) post none;
    finish = guarded (λ t. true) "Gagal menugaskan akun" false;
  }

  unfoldable pub get_boardroom_history : {B T : Type 0} → Call B (List T) (List T)
  get_boardroom_history = record {
    request = get_json to_lower_case cfg browser "/boardroom/history";
    finish = guarded (λ t. t) "Gagal memuat riwayat chat" [];
  }

  unfoldable pub send_chairman_mandate : {T : Type 0} → (text : String) → Call String T Bool
  send_chairman_mandate text = record {
    request = send to_lower_case cfg browser "/boardroom/chat" post (some text);
    finish = guarded (λ t. true) "Gagal mengirim mandat" false;
  }

  -- `platform ? "?platform=…" : ""`
  unfoldable pub get_armory_accounts :
      {B T : Type 0} → (platform : Option String) → Call B (List T) (List T)
  get_armory_accounts platform = record {
    request = get_json to_lower_case cfg browser ("/armory/accounts" ⧺ platform_query platform);
    finish = guarded (λ t. t) "Gagal memuat daftar akun" [];
  }
