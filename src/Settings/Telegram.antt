-- ===== src/Settings/Telegram.antt =====
-- The form for a Telegram account on ui/src/app/settings/page.tsx: pakaiAkunTelegram and
-- simpanAkunTelegram. The server is a state with an operation for `upsertTelegramConnectorAccount`,
-- whose result is the name of the saved account, or `none` where the call's is `undefined`.
pub mod RoundTrip
use multi_job.Prelude.{
  ℕ, Bool, true, false, Char, code, String, ◌==◌, ◌⧺◌, List, [], ◌∷◌, Option, none, some, nat_eq,
  if◌then◌else◌,
}
use multi_job.Js.Text.{some_text, trim, truthy, or_text, join}
use multi_job.Js.Text.Split.{is_comma, pieces}
use multi_job.Js.Number.{JsNumber, natural}
use multi_job.Settings.Toasts.{Toast, success, error}
use multi_job.Settings.Numbers.{batasi_detik_tunggu}
use multi_job.Settings.Handlers.{Hasil, berhenti, sesudah_jawaban}

-- What the page reads of an account. `wait_seconds` may be missing.
pub record TelegramConnectorAccount : Type 0 where
  pub account_id : String
  pub enabled : Bool
  pub has_bot_token : Bool
  pub allowed_chat_ids : List String
  pub use_ai : Bool
  pub force_rule_based : Bool
  pub run_immediately : Bool
  pub wait_seconds : Option JsNumber
  pub timezone : String
  pub default_channel : String
  pub default_account_id : String

pub record TelegramConnectorAccountUpsertRequest : Type 0 where
  pub bot_token : Option String
  pub allowed_chat_ids : List String
  pub enabled : Bool
  pub use_ai : Bool
  pub force_rule_based : Bool
  pub run_immediately : Bool
  pub wait_seconds : ℕ
  pub timezone : String
  pub default_channel : String
  pub default_account_id : String

-- The cells of the form.
pub record TelegramForm : Type 0 where
  pub account_id : String
  pub bot_token : String
  pub allowed_chat_ids_text : String
  pub enabled : Bool
  pub use_ai : Bool
  pub force_rule_based : Bool
  pub run_immediately : Bool
  pub wait_seconds : JsNumber
  pub timezone : String
  pub default_channel : String
  pub default_account_id : String

abbrev telegram_form_awal : TelegramForm
telegram_form_awal = record {
  account_id = "bot_a01";
  bot_token = "";
  allowed_chat_ids_text = "";
  enabled = true;
  use_ai = true;
  force_rule_based = false;
  run_immediately = true;
  wait_seconds = natural 2;
  timezone = "Asia/Jakarta";
  default_channel = "telegram";
  default_account_id = "default";
}

-- `akunTelegram.find((row) => row.account_id === targetAccountId)`
cari_akun_telegram : String → List TelegramConnectorAccount → Option TelegramConnectorAccount
cari_akun_telegram target [] = none
cari_akun_telegram target (row ∷ rows) =
    if row.account_id == target then some row else cari_akun_telegram target rows

abbrev wait_or_two : Option JsNumber → JsNumber
wait_or_two none = natural 2
wait_or_two (some x) = x

-- The cells for a saved account.
unfoldable pub isi_dari_akun : TelegramConnectorAccount → TelegramForm
isi_dari_akun selected = record {
  account_id = selected.account_id;
  bot_token = "";
  allowed_chat_ids_text = join ", " selected.allowed_chat_ids;
  enabled = selected.enabled;
  use_ai = selected.use_ai;
  force_rule_based = selected.force_rule_based;
  run_immediately = selected.run_immediately;
  wait_seconds = natural (batasi_detik_tunggu (wait_or_two selected.wait_seconds));
  timezone = or_text selected.timezone "Asia/Jakarta";
  default_channel = or_text selected.default_channel "telegram";
  default_account_id = or_text selected.default_account_id "default";
}

-- `pakaiAkunTelegram`
pakai_akun_telegram : List TelegramConnectorAccount → String → TelegramForm → TelegramForm
unfolding isi_dari_akun
pakai_akun_telegram rows target form = elim (cari_akun_telegram target rows) [
  | none ↦ form
  | some selected ↦ isi_dari_akun selected
]

-- What `simpanAkunTelegram` sends for the cells.
unfoldable pub permintaan_telegram : TelegramForm → TelegramConnectorAccountUpsertRequest
permintaan_telegram form = record {
  bot_token = some_text (trim form.bot_token);
  allowed_chat_ids = pieces is_comma form.allowed_chat_ids_text;
  enabled = form.enabled;
  use_ai = form.use_ai;
  force_rule_based = (if form.use_ai then form.force_rule_based else false);
  run_immediately = form.run_immediately;
  wait_seconds = (if form.run_immediately then batasi_detik_tunggu form.wait_seconds else 0);
  timezone = or_text (trim form.timezone) "Asia/Jakarta";
  default_channel = or_text (trim form.default_channel) "telegram";
  default_account_id = or_text (trim form.default_account_id) "default";
}

module _ {S : Type 0}
    (upsert : String → TelegramConnectorAccountUpsertRequest → S → Option String × S) where
  unfoldable pub simpan_akun_telegram : TelegramForm → S → Hasil TelegramForm S
  simpan_akun_telegram form s =
      let account_id = trim form.account_id in
      if truthy account_id
      then sesudah_jawaban (upsert account_id (permintaan_telegram form) s) form (λ saved.
        (record form { bot_token = "" }, success ("Akun Telegram '" ⧺ saved ⧺ "' tersimpan.")))
      else berhenti (some (error "ID akun Telegram wajib diisi.")) form s
