-- ===== src/Settings/Mcp.antt =====
-- The form for an MCP server on ui/src/app/settings/page.tsx: pakaiServerMcp, terapkanTemplateMcpKeForm
-- and simpanServerMcp. `stringify` is `JSON.stringify(value, null, 2)` and `parse` is `JSON.parse`. The
-- server is a state with an operation for `upsertMcpIntegrationServer`, whose result is the name of the
-- saved server, or `none` where the call's is `undefined`.
pub mod RoundTrip
pub mod Outcome
use multi_job.Prelude.{
  ℕ, zero, suc, max, min, Bool, true, false, String, ◌==◌, ◌⧺◌, List, [], ◌∷◌, Option, none, some,
  if◌then◌else◌,
}
use multi_job.Js.Text.{some_text, trim, truthy, or_text, join}
use multi_job.Js.Text.Split.{pieces}
use multi_job.Js.Number.{JsNumber, nan, natural, negative}
use multi_job.Js.Number.Decimal.{is_blank}
use multi_job.Js.Dict.{Dict}
use multi_job.Js.Json.{Json}
use multi_job.Settings.Toasts.{Toast, success, error}
use multi_job.Settings.JsonForms.{
  Masukan, ditolak, diterima, parse_masukan_objek, ubah_ke_peta_string,
}
use multi_job.Settings.Handlers.{Hasil, berhenti, sesudah_jawaban}

pub data McpTransport : Type 0 where
  stdio http sse : McpTransport

-- What the page reads of a server.
pub record McpIntegrationServer : Type 0 where
  pub server_id : String
  pub enabled : Bool
  pub transport : McpTransport
  pub description : String
  pub command : String
  pub args : List String
  pub url : String
  pub headers : Dict String
  pub env : Dict String
  pub timeout_sec : JsNumber

-- What the page reads of a template of the catalogue.
pub record McpServerTemplate : Type 0 where
  pub template_id : String
  pub server_id : String
  pub label : String
  pub description : String
  pub transport : McpTransport
  pub command : String
  pub args : List String
  pub url : String
  pub headers : Dict String
  pub env : Dict String
  pub timeout_sec : JsNumber
  pub default_enabled : Bool

pub record McpIntegrationServerUpsertRequest : Type 0 where
  pub enabled : Bool
  pub transport : McpTransport
  pub description : String
  pub command : String
  pub args : List String
  pub url : String
  pub headers : Dict String
  pub env : Dict String
  pub auth_token : Option String
  pub timeout_sec : ℕ

-- The cells of the form.
pub record McpForm : Type 0 where
  pub server_id : String
  pub enabled : Bool
  pub transport : McpTransport
  pub description : String
  pub command : String
  pub args_text : String
  pub url : String
  pub headers_text : String
  pub env_text : String
  pub auth_token : String
  pub timeout_sec : JsNumber

abbrev pub mcp_form_awal : McpForm
mcp_form_awal = record {
  server_id = "mcp_main";
  enabled = true;
  transport = stdio;
  description = "";
  command = "";
  args_text = "";
  url = "";
  headers_text = "{}";
  env_text = "{}";
  auth_token = "";
  timeout_sec = natural 20;
}

cari_server_mcp : String → List McpIntegrationServer → Option McpIntegrationServer
cari_server_mcp server_id [] = none
cari_server_mcp server_id (row ∷ rows) =
    if row.server_id == server_id then some row else cari_server_mcp server_id rows

cari_template_mcp : String → List McpServerTemplate → Option McpServerTemplate
cari_template_mcp template_id [] = none
cari_template_mcp template_id (row ∷ rows) =
    if row.template_id == template_id then some row else cari_template_mcp template_id rows

-- `Number.isFinite(x) ? x : 20`
abbrev finite_or_twenty : JsNumber → JsNumber
finite_or_twenty nan = natural 20
finite_or_twenty x = x

-- `x || 20`
abbrev number_or_twenty : JsNumber → JsNumber
number_or_twenty nan = natural 20
number_or_twenty (natural zero) = natural 20
number_or_twenty x = x

module _ (stringify : Dict String → String) where
  -- The cells for a saved server.
  unfoldable pub isi_dari_server : McpIntegrationServer → McpForm
  isi_dari_server selected = record {
    server_id = selected.server_id;
    enabled = selected.enabled;
    transport = selected.transport;
    description = selected.description;
    command = selected.command;
    args_text = join " " selected.args;
    url = selected.url;
    headers_text = stringify selected.headers;
    env_text = stringify selected.env;
    auth_token = "";
    timeout_sec = finite_or_twenty selected.timeout_sec;
  }

  -- `pakaiServerMcp`
  pub pakai_server_mcp : List McpIntegrationServer → String → McpForm → McpForm
  unfolding isi_dari_server
  pakai_server_mcp rows server_id form = elim (cari_server_mcp server_id rows) [
    | none ↦ form
    | some selected ↦ isi_dari_server selected
  ]

  -- `terapkanTemplateMcpKeForm`
  pub terapkan_template_mcp_ke_form : List McpServerTemplate → String → McpForm → McpForm
  terapkan_template_mcp_ke_form rows template_id form = elim (cari_template_mcp template_id rows) [
    | none ↦ form
    | some template ↦ record {
      server_id = template.server_id;
      enabled = template.default_enabled;
      transport = template.transport;
      description = template.description;
      command = template.command;
      args_text = join " " template.args;
      url = template.url;
      headers_text = stringify template.headers;
      env_text = stringify template.env;
      auth_token = "";
      timeout_sec = number_or_twenty template.timeout_sec;
    }
  ]

-- `Math.max(1, Math.min(120, Math.floor(x || 20)))`
unfoldable pub batas_waktu : JsNumber → ℕ
batas_waktu nan = 20
batas_waktu (natural zero) = 20
batas_waktu (natural (suc n)) = max 1 (min 120 (suc n))
batas_waktu (negative n) = 1

-- `payload`, for the objects of the headers and the environment
unfoldable pub permintaan_mcp : McpForm → Dict Json → Dict Json → McpIntegrationServerUpsertRequest
permintaan_mcp form headers env = record {
  enabled = form.enabled;
  transport = form.transport;
  description = trim form.description;
  command = trim form.command;
  args = pieces is_blank form.args_text;
  url = trim form.url;
  headers = ubah_ke_peta_string headers;
  env = ubah_ke_peta_string env;
  auth_token = some_text (trim form.auth_token);
  timeout_sec = batas_waktu form.timeout_sec;
}

module _ {S : Type 0} (parse : String → Option Json)
    (upsert : String → McpIntegrationServerUpsertRequest → S → Option String × S) where
  -- The part behind the two objects.
  kirim_mcp : McpForm → Dict Json → Dict Json → S → Hasil McpForm S
  kirim_mcp form headers env s =
      sesudah_jawaban (upsert (trim form.server_id) (permintaan_mcp form headers env) s) form
        (λ saved.
          (record form { auth_token = "" }, success ("Server MCP '" ⧺ saved ⧺ "' tersimpan.")))

  -- The part behind the name of the server, for the headers and the environment. The environment is
  -- looked at only if the headers are good.
  simpan_objek : McpForm → Masukan → Masukan → S → Hasil McpForm S
  unfolding kirim_mcp
  simpan_objek form (ditolak toast) env s = berhenti (some toast) form s
  simpan_objek form (diterima headers) (ditolak toast) s = berhenti (some toast) form s
  simpan_objek form (diterima headers) (diterima env) s = kirim_mcp form headers env s

  unfoldable pub simpan_server_mcp : McpForm → S → Hasil McpForm S
  unfolding simpan_objek
  simpan_server_mcp form s =
      if truthy (trim form.server_id)
      then simpan_objek form (parse_masukan_objek parse form.headers_text "Header MCP")
          (parse_masukan_objek parse form.env_text "Lingkungan MCP") s
      else berhenti (some (error "ID server MCP wajib diisi.")) form s
