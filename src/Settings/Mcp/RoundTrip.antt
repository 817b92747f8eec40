-- ===== src/Settings/Mcp/RoundTrip.antt =====
-- Taking over a saved MCP server into the form and saving the form again.
use multi_job.Prelude.{
  ℕ, zero, suc, ◌≤◌, false, String, ◌==◌, eq_iff, Option, none, some, All, ◌≡◌, ◌≢◌, ◌↔◌, refl, sym,
  ap, ◌∙◌, arith,
}
use multi_job.Js.Text.{trim}
use multi_job.Js.Text.Split.{pieces}
use multi_job.Js.Text.Split.Laws.{IsPiece, IsPad, pieces-join_iff}
use multi_job.Js.Number.{natural}
use multi_job.Js.Number.Decimal.{is_blank}
use multi_job.Js.Dict.{Dict}
use multi_job.Js.Json.{Json, object, Members, entries}
use multi_job.Settings.Providers.Prefixes.{IsName}
use multi_job.Settings.Handlers.{Hasil, sesudah_jawaban-server}
use multi_job.Settings.JsonForms.{parse_masukan_objek, objek_saja, diterima, ubah_ke_peta_string}
use multi_job.Settings.JsonForms.Laws.{texts, IsMap, ubah_ke_peta_string-texts}
use multi_job.Settings.Mcp.Outcome.{simpan-sent}
use multi_job.Settings.Mcp.{
  McpIntegrationServer, McpIntegrationServerUpsertRequest, McpForm, isi_dari_server, batas_waktu,
  permintaan_mcp, simpan_server_mcp,
}

-- What the server has stored by a form: trimmed texts, a time limit from 1 to 120 seconds, and maps
-- whose keys are trimmed, not empty and different.
pub record IsStored (server : McpIntegrationServer) (seconds : ℕ) : Type 0 where
  pub name : IsName server.server_id
  pub description : trim server.description ≡ server.description
  pub command : trim server.command ≡ server.command
  pub url : trim server.url ≡ server.url
  pub headers : IsMap server.headers
  pub env : IsMap server.env
  pub time : server.timeout_sec ≡ natural seconds
  pub at_least : 1 ≤ seconds
  pub at_most : seconds ≤ 120

-- What `JSON.parse` and `JSON.stringify` do at a map of texts: the text that is written is trimmed and
-- not empty, and is read as the object of the map.
pub record ReadsBack (parse : String → Option Json) (stringify : Dict String → String)
    (d : Dict String) : Type 0 where
  pub members : Members
  pub written : IsName (stringify d)
  pub read : parse (stringify d) ≡ some (object members)
  pub same : entries members ≡ texts d

-- The request that leaves a saved server as it is.
abbrev pub sama_dengan : McpIntegrationServer → ℕ → McpIntegrationServerUpsertRequest
sama_dengan server seconds = record {
  enabled = server.enabled;
  transport = server.transport;
  description = server.description;
  command = server.command;
  args = server.args;
  url = server.url;
  headers = server.headers;
  env = server.env;
  auth_token = none;
  timeout_sec = seconds;
}

batas_waktu_kept :
    (seconds : ℕ) → 1 ≤ seconds → seconds ≤ 120 → batas_waktu (natural seconds) ≡ seconds
unfolding batas_waktu
batas_waktu_kept zero h k = elim h [ ]
batas_waktu_kept (suc n) h k = omega arith

module _ (parse : String → Option Json) (stringify : Dict String → String) where
  parse_masukan_objek-stringify :
      (d : Dict String) (field_name : String)
      → ReadsBack parse stringify d
      → parse_masukan_objek parse (stringify d) field_name ≡ diterima (texts d)
  unfolding parse_masukan_objek objek_saja
  parse_masukan_objek-stringify d field_name reads =
      let (trimmed, ne) = reads.written in
      let e : (stringify d == "") ≡ false = ground (arith, eq_iff (stringify d) "", ne) in
      rw (trimmed, e, reads.read) (ap diterima reads.same)

  module _ (server : McpIntegrationServer) (seconds : ℕ) (stored : IsStored server seconds)
      (headers : ReadsBack parse stringify server.headers)
      (env : ReadsBack parse stringify server.env) where
    abbrev r : McpIntegrationServerUpsertRequest
    r = permintaan_mcp (isi_dari_server stringify server) (texts server.headers) (texts server.env)

    simpan-isi_dari_server :
        {S : Type 0} (upsert : String → McpIntegrationServerUpsertRequest → S → Option String × S)
        (s : S)
        → (simpan_server_mcp parse upsert (isi_dari_server stringify server) s).server
          ≡ (upsert server.server_id r s).1
    unfolding isi_dari_server
    simpan-isi_dari_server upsert s =
        let (trimmed, ne) = stored.name in
        let form = isi_dari_server stringify server in
        let named : trim server.server_id ≢ "" = (λ e. ne (sym trimmed ∙ e)) in
        ap (λ (hasil : Hasil McpForm _). hasil.server)
          (simpan-sent parse upsert form s (texts server.headers) (texts server.env) named
            (parse_masukan_objek-stringify server.headers "Header MCP" headers)
            (parse_masukan_objek-stringify server.env "Lingkungan MCP" env))
        ∙ sesudah_jawaban-server form _ (upsert (trim server.server_id) r s)
        ∙ ap (λ name. (upsert name r s).1) trimmed

    seconds_kept : r.timeout_sec ≡ seconds
    unfolding permintaan_mcp isi_dari_server
    seconds_kept = rw stored.time (batas_waktu_kept seconds stored.at_least stored.at_most)

    r-same : (r ≡ sama_dengan server seconds) ↔ All (IsPiece is_blank) server.args
    unfolding permintaan_mcp isi_dari_server trim pieces ubah_ke_peta_string batas_waktu
    r-same =
        let pad : IsPad is_blank "" = tt in
        let (to, from) = pieces-join_iff is_blank " " "" refl pad server.args in
        (
          (λ e. to (ap (λ (q : McpIntegrationServerUpsertRequest). q.args) e)),
          (λ h.
              let args = from h in
              let hs = ubah_ke_peta_string-texts server.headers stored.headers in
              let es = ubah_ke_peta_string-texts server.env stored.env in
              cc (args, hs, es, seconds_kept, stored.description, stored.command, stored.url)),
        )

    -- Saving a server that was taken over into the form sends one request for the same server, and it
    -- sends what is saved already, and no token, exactly if no argument is empty or has white space at
    -- an end or a blank within.
    pub simpan_server_mcp-isi_dari_server :
        {S : Type 0} (upsert : String → McpIntegrationServerUpsertRequest → S → Option String × S)
        (s : S)
        → ((simpan_server_mcp parse upsert (isi_dari_server stringify server) s).server
            ≡ (upsert server.server_id r s).1)
          × ((r ≡ sama_dengan server seconds) ↔ All (IsPiece is_blank) server.args)
    simpan_server_mcp-isi_dari_server upsert s = (simpan-isi_dari_server upsert s, r-same)
