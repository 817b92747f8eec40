-- ===== src/Settings/Examples/Forms.antt =====
-- The theorems on the settings page at concrete inputs: the forms, the statistics and the lists.
use multi_job.Prelude.{
  ℕ, ◌+◌, min, Bool, true, false, false≢true, eq_iff, ◌&&◌, String, ◌==◌, List, [], ◌∷◌, Option,
  none, some, filter, length, count_of, All, ltb, if◌then◌else◌, ◌≡◌, ◌≢◌, ◌↔◌, refl, arith,
}
use multi_job.Js.Text.{trim, truthy}
use multi_job.Js.Text.Split.Laws.{IsPiece}
use multi_job.Js.Number.{natural}
use multi_job.Js.Number.Decimal.{is_blank}
use multi_job.Js.Dict.{Dict, lookup}
use multi_job.Js.Json.{Json, text, object, member, end, entries}
use multi_job.Js.Sort.Laws.{IsSorted}
use multi_job.Api.Session.{window, resolve_api_token, set_api_auth_token}
use multi_job.Settings.Toasts.{success}
use multi_job.Settings.Providers.Prefixes.{IsName}
use multi_job.Settings.Bulk.{IntegrationAccount}
use multi_job.Settings.JsonForms.{ubah_ke_peta_string}
use multi_job.Settings.JsonForms.Laws.{texts, nilai_terakhir, lookup-ubah_ke_peta_string}
use multi_job.Settings.Telegram.{TelegramConnectorAccount, isi_dari_akun, permintaan_telegram}
use multi_job.Settings.Telegram.RoundTrip
use multi_job.Settings.Telegram.RoundTrip.{permintaan_telegram-isi_dari_akun}
use multi_job.Settings.Mcp.{
  McpIntegrationServer, McpIntegrationServerUpsertRequest, stdio, mcp_form_awal, isi_dari_server,
  permintaan_mcp, simpan_server_mcp,
}
use multi_job.Settings.Mcp.Outcome.{IsOutcome, IsObject, logged, simpan_server_mcp_lem}
use multi_job.Settings.Mcp.RoundTrip.{
  IsStored, ReadsBack, sama_dengan, simpan_server_mcp-isi_dari_server,
}
use multi_job.Settings.Catalog.{statistik_provider_terpilih}
use multi_job.Settings.Catalog.Counts.{statistik_provider_terpilih_lem}
use multi_job.Settings.Events.{SystemEvent, adalah_update_skill, daftar_update_skill}
use multi_job.Settings.Events.Latest.{daftar_update_skill_lem}
use multi_job.Settings.Dashboard.{
  PengaturanUi, DashboardForm, dashboard_form_awal, Penyimpanan, muat_pengaturan, isi_pengaturan,
  simpan_pengaturan_ui,
}
use multi_job.Settings.Dashboard.Stored.{muat-simpan_pengaturan_ui, muat_pengaturan-first_visit}

abbrev bot : TelegramConnectorAccount
bot = record {
  account_id = "bot_a01";
  enabled = true;
  has_bot_token = true;
  allowed_chat_ids = "12" ∷ "-34" ∷ [];
  use_ai = true;
  force_rule_based = true;
  run_immediately = true;
  wait_seconds = some (natural 2);
  timezone = "Asia/Jakarta";
  default_channel = "telegram";
  default_account_id = "default";
}

name : (s : String) → trim s ≡ s → truthy s ≡ true → IsName s
name s h t = (h, ground (arith, t, eq_iff s ""))

bot-IsStored : RoundTrip.IsStored bot 2
unfolding trim
bot-IsStored = record {
  waits = refl;
  short = omega arith;
  timezone = name "Asia/Jakarta" refl refl;
  default_channel = name "telegram" refl refl;
  default_account_id = name "default" refl refl;
}

permintaan_telegram-isi_dari_akun_example :
    (permintaan_telegram (isi_dari_akun bot) ≡ RoundTrip.sama_dengan bot 2)
    ↔ RoundTrip.IsUnchanged bot 2
permintaan_telegram-isi_dari_akun_example = permintaan_telegram-isi_dari_akun bot 2 bot-IsStored

-- Maps that are empty or say A=1, and their texts.
abbrev stringify : Dict String → String
stringify [] = "{}"
stringify (e ∷ d) = "{ \"A\": \"1\" }"

abbrev parse : String → Option Json
parse s =
    if s == "{}"
    then some (object end)
    else if s == "{ \"A\": \"1\" }"
    then some (object (member "A" (text "1") end))
    else none

abbrev server : McpIntegrationServer
server = record {
  server_id = "mcp_main";
  enabled = true;
  transport = stdio;
  description = "files";
  command = "npx";
  args = "-y" ∷ "my tool" ∷ [];
  url = "";
  headers = [];
  env = ("A", "1") ∷ [];
  timeout_sec = natural 20;
}

server-IsStored : IsStored server 20
unfolding trim
server-IsStored = record {
  name = name "mcp_main" refl refl;
  description = refl;
  command = refl;
  url = refl;
  headers = tt;
  env = (name "A" refl refl, tt, tt);
  time = refl;
  at_least = omega arith;
  at_most = omega arith;
}

headers-ReadsBack : ReadsBack parse stringify server.headers
unfolding trim entries
headers-ReadsBack = record {
  members = end;
  written = name "{}" refl refl;
  read = refl;
  same = refl;
}

env-ReadsBack : ReadsBack parse stringify server.env
unfolding trim entries
env-ReadsBack = record {
  members = member "A" (text "1") end;
  written = name "{ \"A\": \"1\" }" refl refl;
  read = refl;
  same = refl;
}

-- A server that counts the requests.
abbrev upsert : String → McpIntegrationServerUpsertRequest → ℕ → Option String × ℕ
upsert server_id payload n = (some server_id, n + 1)

simpan_server_mcp-isi_dari_server_example :
    let r =
      permintaan_mcp (isi_dari_server stringify server) (texts server.headers) (texts server.env) in
    ((simpan_server_mcp parse upsert (isi_dari_server stringify server) 0).server
      ≡ (upsert server.server_id r 0).1)
    × ((r ≡ sama_dengan server 20) ↔ All (IsPiece is_blank) server.args)
simpan_server_mcp-isi_dari_server_example =
    simpan_server_mcp-isi_dari_server parse stringify server 20 server-IsStored headers-ReadsBack
      env-ReadsBack upsert 0

abbrev answer : String → McpIntegrationServerUpsertRequest → Option String
answer id request = some id

simpan_server_mcp_lem_example :
    IsOutcome answer
      ((trim mcp_form_awal.server_id ≢ "")
        × IsObject parse mcp_form_awal.headers_text
        × IsObject parse mcp_form_awal.env_text)
      mcp_form_awal
      (simpan_server_mcp parse (logged answer) mcp_form_awal [])
simpan_server_mcp_lem_example = simpan_server_mcp_lem parse answer mcp_form_awal

abbrev source : Dict Json
source = (" A ", text "1") ∷ ("A", text "2") ∷ (" ", text "3") ∷ []

lookup-ubah_ke_peta_string_example :
    lookup "A" (ubah_ke_peta_string source)
    ≡ (if truthy "A" then nilai_terakhir "A" source else none)
lookup-ubah_ke_peta_string_example = lookup-ubah_ke_peta_string "A" source

abbrev accounts : List IntegrationAccount
accounts =
    record { provider = "slack"; account_id = "a"; enabled = true; has_secret = false; config = [] }
    ∷ record { provider = "line"; account_id = "b"; enabled = true; has_secret = true; config = [] }
    ∷ record {
      provider = "slack";
      account_id = "c";
      enabled = false;
      has_secret = true;
      config = [];
    }
    ∷ []

statistik_provider_terpilih_lem_example : statistik_provider_terpilih accounts "slack" ≡ record {
  total = count_of (λ (row : IntegrationAccount). row.provider == "slack") accounts;
  enabled =
      count_of (λ (row : IntegrationAccount). (row.provider == "slack") && row.enabled) accounts;
  ready =
      count_of (λ (row : IntegrationAccount). (row.provider == "slack") && row.has_secret) accounts;
}
statistik_provider_terpilih_lem_example = statistik_provider_terpilih_lem accounts "slack"

abbrev at : String → ℕ
at s = if s == "2026-01-02" then 2 else 1

abbrev time : String → Option ℕ
time s = if s == "" then none else some (at s)

abbrev events : List SystemEvent
events =
    record { id = "1"; jenis = "approval.request_created"; timestamp = "2026-01-01"; data' = [] }
    ∷ record { id = "2"; jenis = "run.started"; timestamp = "2026-01-02"; data' = [] }
    ∷ record { id = "3"; jenis = "approval.request_approved"; timestamp = "2026-01-02"; data' = [] }
    ∷ []

daftar_update_skill_lem_example :
    let shown = daftar_update_skill time events in
    (length shown ≡ min 8 (count_of adalah_update_skill events))
    × All (λ event. adalah_update_skill event ≡ true) shown
    × IsSorted (λ (a b : SystemEvent). ltb (at a.timestamp) (at b.timestamp)) shown
    × ((rest : List SystemEvent) × ((p : SystemEvent → Bool)
          → count_of p shown + count_of p rest ≡ count_of p (filter adalah_update_skill events))
        × All
            (λ (event : SystemEvent).
              All
                (λ (left : SystemEvent). ltb (at event.timestamp) (at left.timestamp) ≡ false)
                rest)
            shown)
daftar_update_skill_lem_example = daftar_update_skill_lem time at events (refl, (refl, tt))

abbrev form : DashboardForm
form = record (dashboard_form_awal "http://localhost:8000") { token_api = " secret " }

abbrev simpanan : Penyimpanan
simpanan = record {
  pengaturan = none;
  sesi = record { token = some "old"; accessible = true; has_room = λ s. true };
}

abbrev tulis : PengaturanUi → String
tulis p = "{}"

abbrev baca : String → Option PengaturanUi
baca s = some (isi_pengaturan form)

tulis_ne : tulis (isi_pengaturan form) ≢ ""
tulis_ne e = false≢true ((eq_iff "{}" "").1 e)

muat-simpan_pengaturan_ui_example :
    (p' : Penyimpanan) × (simpan_pengaturan_ui tulis form simpanan
      ≡ some (success "Setelan dasbor tersimpan.", p'))
    × (muat_pengaturan baca "env" (dashboard_form_awal "") p'
        ≡ some (
          record form {
            token_api =
                resolve_api_token "env" (set_api_auth_token form.token_api (window simpanan.sesi));
          },
          p',
        ))
muat-simpan_pengaturan_ui_example =
    muat-simpan_pengaturan_ui baca tulis "env" form (dashboard_form_awal "") simpanan refl refl
      tulis_ne refl

abbrev blank_form : DashboardForm
blank_form = dashboard_form_awal "http://localhost:8000"

muat_pengaturan-first_visit_example :
    (muat_pengaturan baca "env" blank_form simpanan ≡ some (blank_form, simpanan))
    × ((p' : Penyimpanan) × (simpan_pengaturan_ui tulis blank_form simpanan
          ≡ some (success "Setelan dasbor tersimpan.", p'))
        × (resolve_api_token "env" (window p'.sesi) ≡ trim "env"))
muat_pengaturan-first_visit_example =
    muat_pengaturan-first_visit baca tulis "env" blank_form simpanan refl refl refl refl
