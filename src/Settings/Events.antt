-- ===== src/Settings/Events.antt =====
-- The list of the latest changes on ui/src/app/settings/page.tsx: daftarUpdateSkill and
-- formatRingkasanEvent. `time` is `new Date(timestamp).getTime()`, with `none` for NaN, and `number_of` is `Number(value)`,
-- for the values that a message may carry.
pub mod Latest
use multi_job.Prelude.{
  ℕ, zero, suc, Bool, true, false, String, ◌==◌, ◌⧺◌, List, [], ◌∷◌, Option, none, some, filter,
  some_of, take, ltb, if◌then◌else◌,
}
use multi_job.Js.Number.{JsNumber, nan, natural, negative}
use multi_job.Js.Text.{truthy}
use multi_job.Js.Dict.{Dict, lookup}
use multi_job.Js.Json.{Json, falsy, string_of, show_number}
use multi_job.Js.Sort.{sort_by}

pub record SystemEvent : Type 0 where
  pub id : String
  pub jenis : String
  pub timestamp : String
  pub data' : Dict Json

-- `JENIS_EVENT_UPDATE_SKILL`
abbrev jenis_event_update_skill : List String
jenis_event_update_skill =
    "integration.account_upserted" ∷ "integration.mcp_server_upserted"
    ∷ "integration.catalog_bootstrap" ∷ "connector.telegram.account_upserted"
    ∷ "agent.approval_requested" ∷ "approval.request_created" ∷ "approval.request_approved"
    ∷ "approval.request_rejected" ∷ "automation.agent_workflow_saved" ∷ []

abbrev pub adalah_update_skill : SystemEvent → Bool
adalah_update_skill event = some_of (λ jenis. jenis == event.jenis) jenis_event_update_skill

-- `new Date(b.timestamp).getTime() - new Date(a.timestamp).getTime() > 0`; a difference with NaN is NaN.
abbrev pub lebih_baru : Option ℕ → Option ℕ → Bool
lebih_baru (some b) (some a) = ltb a b
lebih_baru _ _ = false

-- `daftarUpdateSkill`. With a time that is not valid the comparison is not consistent, and the order
-- of `sort` depends on the engine.
unfoldable pub daftar_update_skill : (String → Option ℕ) → List SystemEvent → List SystemEvent
daftar_update_skill time events = take 8 (
    sort_by (λ (a b : SystemEvent). lebih_baru (time b.timestamp) (time a.timestamp))
      (filter adalah_update_skill events))

-- `String(data[key] || "-")`
abbrev isian : SystemEvent → String → String
isian event key = elim (lookup key event.data') [
  | none ↦ "-"
  | some value ↦ if falsy value then "-" else string_of value
]

module _ (number_of : Json → JsNumber) where
  -- `Number(data[key] || 0)`
  abbrev angka : SystemEvent → String → JsNumber
  angka event key = elim (lookup key event.data') [
    | none ↦ natural 0
    | some value ↦ if falsy value then natural 0 else number_of value
  ]

  abbrev positif : JsNumber → Bool
  positif (natural (suc n)) = true
  positif _ = false

  -- `formatRingkasanEvent`
  pub format_ringkasan_event : SystemEvent → String
  format_ringkasan_event event =
      if event.jenis == "integration.account_upserted"
      then "Akun integrasi "
        ⧺ isian event "provider"
        ⧺ "/"
        ⧺ isian event "account_id"
        ⧺ " diperbarui."
      else if event.jenis == "integration.mcp_server_upserted"
      then "Server MCP "
        ⧺ isian event "server_id"
        ⧺ " diperbarui ("
        ⧺ isian event "transport"
        ⧺ ")."
      else if event.jenis == "integration.catalog_bootstrap"
      then "Template baru ditambahkan: penyedia +"
        ⧺ show_number (angka event "providers_created")
        ⧺ ", MCP +"
        ⧺ show_number (angka event "mcp_created")
        ⧺ "."
      else if event.jenis == "connector.telegram.account_upserted"
      then "Akun Telegram " ⧺ isian event "account_id" ⧺ " diperbarui."
      else if event.jenis == "agent.approval_requested"
      then (if positif (angka event "request_count")
          then "Agen minta izin untuk "
            ⧺ show_number (angka event "request_count")
            ⧺ " puzzle/skill baru."
          else "Agen minta izin menambah puzzle/skill.")
      else if event.jenis == "approval.request_created"
      then "Antrean persetujuan bertambah: "
        ⧺ show_number (angka event "request_count")
        ⧺ " permintaan baru siap ditinjau."
      else if event.jenis == "approval.request_approved"
      then "Persetujuan " ⧺ isian event "approval_id" ⧺ " sudah disetujui."
      else if event.jenis == "approval.request_rejected"
      then "Persetujuan " ⧺ isian event "approval_id" ⧺ " ditolak."
      else if event.jenis == "automation.agent_workflow_saved"
      then "Tugas otomatis '" ⧺ isian event "job_id" ⧺ "' disimpan/diperbarui."
      else "Pembaruan sistem terbaru."
