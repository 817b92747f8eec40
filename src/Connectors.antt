-- ===== src/Connectors.antt =====
-- The page of the connections: ui/src/app/connectors/page.tsx. `to_lower_case` is `toLowerCase`,
-- `includes s t` is `s.includes(t)` and `parse` is `JSON.parse`, with `none` where it throws.
pub mod Approvals
pub mod Firing
pub mod Triggers
use multi_job.Prelude.{
  Bool, true, false, not, ◌||◌, String, ◌==◌, ◌⧺◌, List, [], ◌∷◌, Option, none, some, filter,
  if◌then◌else◌,
}
use multi_job.Js.Text.{truthy}
use multi_job.Js.Json.{Members}

-- `ambilLabelStatusKoneksi` and `ambilKelasStatusKoneksi`
unfoldable ambil_label_status_koneksi : String → String
ambil_label_status_koneksi status =
    if status == "online"
    then "Aktif"
    else if status == "degraded"
    then "Tidak Stabil"
    else "Terputus"

unfoldable ambil_kelas_status_koneksi : String → String
ambil_kelas_status_koneksi status =
    if status == "online"
    then "status-baik"
    else if status == "degraded"
    then "status-waspada"
    else "status-buruk"

-- What the page reads of a connection and of a trigger.
record Koneksi : Type 0 where
  pub channel : String
  pub account_id : String
  pub status : String

pub record Trigger : Type 0 where
  pub trigger_id : String
  pub name : String
  pub job_id : String
  pub channel : String
  pub description : String
  pub enabled : Bool
  pub requires_approval : Bool
  pub default_payload : Members

module _ (to_lower_case : String → String) (includes : String → String → Bool) where
  -- `koneksiTersaring`
  unfoldable koneksi_tersaring : String → List Koneksi → List Koneksi
  koneksi_tersaring kata_cari daftar =
      filter
        (λ (k : Koneksi).
          includes (to_lower_case (k.channel ⧺ " " ⧺ k.account_id ⧺ " " ⧺ k.status))
            (to_lower_case kata_cari))
        daftar

  -- `triggerTersaring`
  unfoldable trigger_tersaring : String → List Trigger → List Trigger
  trigger_tersaring kata_cari triggers =
      if truthy kata_cari
      then filter
          (λ (t : Trigger).
            includes (to_lower_case t.trigger_id) (to_lower_case kata_cari)
            || includes (to_lower_case t.name) (to_lower_case kata_cari))
          triggers
      else triggers

-- `triggers.find((trigger) => trigger.trigger_id === selectedTriggerId)`
cari_trigger : String → List Trigger → Option Trigger
cari_trigger trigger_id [] = none
cari_trigger trigger_id (t ∷ ts) =
    if t.trigger_id == trigger_id then some t else cari_trigger trigger_id ts
