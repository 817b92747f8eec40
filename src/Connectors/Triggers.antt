-- ===== src/Connectors/Triggers.antt =====
-- The form of a trigger on ui/src/app/connectors/page.tsx: applyTriggerToForm, resetTriggerForm,
-- upsertTriggerMutation and deleteTriggerMutation. `stringify` is `JSON.stringify(value, null, 2)`; it
-- does not throw at a value that the server has sent. The server is a state with an operation for
-- `upsertTrigger`, whose result is the name of the saved trigger, or `none` where the call's is
-- `undefined`, and one for `deleteTrigger`.
use multi_job.Prelude.{Bool, true, false, String, ◌==◌, ◌⧺◌, Option, none, some, if◌then◌else◌}
use multi_job.Js.Text.{trim, truthy, some_text}
use multi_job.Js.Json.{Json, object, Members, end}
use multi_job.Settings.Toasts.{Toast, success, error}
use multi_job.Connectors.{Trigger}

record FormTrigger : Type 0 where
  pub trigger_id : String
  pub name : String
  pub job_id : String
  pub channel : String
  pub description : String
  pub enabled : Bool
  pub requires_approval : Bool
  pub default_payload_text : String
  pub secret : String

-- `resetTriggerForm`
abbrev form_trigger_awal : FormTrigger
form_trigger_awal = record {
  trigger_id = "";
  name = "";
  job_id = "";
  channel = "";
  description = "";
  enabled = true;
  requires_approval = false;
  default_payload_text = "{}";
  secret = "";
}

-- `applyTriggerToForm`
unfoldable apply_trigger_to_form : (Json → String) → Trigger → FormTrigger
apply_trigger_to_form stringify t = record {
  trigger_id = t.trigger_id;
  name = t.name;
  job_id = t.job_id;
  channel = t.channel;
  description = t.description;
  enabled = t.enabled;
  requires_approval = t.requires_approval;
  default_payload_text = stringify (object t.default_payload);
  secret = "";
}

-- `withSecret`, with the trigger that it is for
record PermintaanTrigger : Type 0 where
  pub trigger_id : String
  pub name : String
  pub job_id : String
  pub channel : String
  pub description : String
  pub enabled : Bool
  pub default_payload : Members
  pub requires_approval : Bool
  pub secret : Option String

-- The request, or the message of the error.
data Periksa : Type 0 where
  ditolak : String → Periksa
  dikirim : PermintaanTrigger → Periksa

abbrev objek : Option Json → Option Members
objek (some (object members)) = some members
objek _ = none

-- `defaultPayload`
abbrev default_payload_of : (String → Option Json) → String → Option Members
default_payload_of parse raw = if truthy (trim raw) then objek (parse raw) else some end

module _ (to_lower_case : String → String) where
  unfoldable permintaan_trigger : FormTrigger → Option Members → Periksa
  permintaan_trigger form none = ditolak "Default payload harus berupa JSON objek."
  permintaan_trigger form (some payload) = dikirim (record {
    trigger_id = trim form.trigger_id;
    name = trim form.name;
    job_id = trim form.job_id;
    channel = to_lower_case (trim form.channel);
    description = trim form.description;
    enabled = form.enabled;
    default_payload = payload;
    requires_approval = form.requires_approval;
    secret = some_text (trim form.secret);
  })

  -- The guards of `upsertTriggerMutation`, in their order
  unfoldable periksa_trigger : (String → Option Json) → FormTrigger → Periksa
  unfolding permintaan_trigger
  periksa_trigger parse form =
      if truthy (trim form.trigger_id)
      then if truthy (trim form.name)
        then if truthy (trim form.job_id)
          then if truthy (to_lower_case (trim form.channel))
            then permintaan_trigger form (default_payload_of parse form.default_payload_text)
            else ditolak "Channel trigger wajib diisi."
          else ditolak "Job ID wajib diisi."
        else ditolak "Nama trigger wajib diisi."
      else ditolak "Trigger ID wajib diisi."

-- What a mutation leaves: its message, whether the list is invalidated, the trigger that is selected,
-- the form and the server.
record HasilTrigger (S : Type 0) : Type 0 where
  pub toast : Option Toast
  pub invalidated : Bool
  pub selected : String
  pub form : FormTrigger
  pub server : S

module _ {S : Type 0} (upsert : PermintaanTrigger → S → Option String × S) where
  -- `upsertTriggerMutation`, for the request or the error
  unfoldable kirim_trigger : Periksa → String → FormTrigger → S → HasilTrigger S
  kirim_trigger (ditolak pesan) selected form s = record {
    toast = some (error pesan);
    invalidated = false;
    selected = selected;
    form = form;
    server = s;
  }
  kirim_trigger (dikirim permintaan) selected form s =
      let (row, s') = upsert permintaan s in
      elim row [
        | none ↦ record {
          toast = none;
          invalidated = false;
          selected = selected;
          form = form;
          server = s';
        }
        | some trigger_id ↦ record {
          toast = some (success ("Trigger '" ⧺ trigger_id ⧺ "' tersimpan."));
          invalidated = true;
          selected = trigger_id;
          form = record form { secret = "" };
          server = s';
        }
      ]

module _ {S : Type 0} (delete : String → S → Bool × S) where
  -- `deleteTriggerMutation`; its `onSuccess` runs for every result of the call
  unfoldable delete_trigger_mutation : String → String → FormTrigger → S → HasilTrigger S
  delete_trigger_mutation trigger_id selected form s =
      let (deleted, s') = delete trigger_id s in
      let same = selected == trigger_id in
      record {
        toast = some (success ("Trigger '" ⧺ trigger_id ⧺ "' dihapus."));
        invalidated = true;
        selected = (if same then "" else selected);
        form = (if same then form_trigger_awal else form);
        server = s';
      }
