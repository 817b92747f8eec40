-- ===== src/Connectors/Firing.antt =====
-- The test of a trigger on ui/src/app/connectors/page.tsx: fireMutation.
use multi_job.Prelude.{Bool, ◌&&◌, String, ◌==◌, Option, none, some, if◌then◌else◌}
use multi_job.Js.Text.{trim, truthy, or_text, some_text}
use multi_job.Js.Json.{Json}
use multi_job.Connectors.{Trigger}

-- The cells of the test.
record FormUji : Type 0 where
  pub secret_token : String
  pub webhook_payload_text : String
  pub telegram_chat_id : String
  pub telegram_text : String
  pub telegram_username : String
  pub email_sender : String
  pub email_subject : String
  pub email_body : String
  pub voice_caller : String
  pub voice_transcript : String
  pub voice_call_id : String
  pub slack_channel_id : String
  pub slack_user_id : String
  pub slack_command : String
  pub slack_text : String
  pub slack_response_url : String
  pub sms_phone_number : String
  pub sms_message : String

-- What a test sends, or the message of its error.
data Uji : Type 0 where
  ditolak : String → Uji
  webhook : (trigger_id : String) → Json → (secret : Option String) → Uji
  telegram : (trigger_id chat_id text : String) → (username secret : Option String) → Uji
  email : (trigger_id sender subject body : String) → (secret : Option String) → Uji
  slack :
      (trigger_id channel_id user_id command text : String)
      → (response_url secret : Option String) → Uji
  sms : (trigger_id phone_number message : String) → (secret : Option String) → Uji
  voice : (trigger_id caller transcript : String) → (call_id secret : Option String) → Uji

abbrev uji_webhook : String → Option String → Option Json → Uji
uji_webhook trigger_id secret none = ditolak "Payload webhook bukan JSON yang valid."
uji_webhook trigger_id secret (some payload) = webhook trigger_id payload secret

abbrev ada : String → Bool
ada s = truthy (trim s)

-- The cases of the channel.
unfoldable uji_kanal : (String → Option Json) → FormUji → String → String → Option String → Uji
uji_kanal parse form channel id secret =
    if channel == "webhook"
    then uji_webhook id secret (parse (or_text form.webhook_payload_text "{}"))
    else if channel == "telegram"
    then (if ada form.telegram_chat_id && ada form.telegram_text
        then telegram id (trim form.telegram_chat_id) (trim form.telegram_text)
            (some_text (trim form.telegram_username)) secret
        else ditolak "Chat ID dan teks Telegram wajib diisi.")
    else if channel == "email"
    then (if ada form.email_sender && ada form.email_subject && ada form.email_body
        then email id (trim form.email_sender) (trim form.email_subject) (trim form.email_body)
            secret
        else ditolak "Sender, subject, dan body email wajib diisi.")
    else if channel == "slack"
    then (if ada form.slack_channel_id && ada form.slack_user_id && ada form.slack_command
        then slack id (trim form.slack_channel_id) (trim form.slack_user_id)
            (trim form.slack_command) (trim form.slack_text)
            (some_text (trim form.slack_response_url)) secret
        else ditolak "Channel, user, dan command Slack wajib diisi.")
    else if channel == "sms"
    then (if ada form.sms_phone_number && ada form.sms_message
        then sms id (trim form.sms_phone_number) (trim form.sms_message) secret
        else ditolak "Nomor dan pesan SMS wajib diisi.")
    else if channel == "voice"
    then (if ada form.voice_caller && ada form.voice_transcript
        then voice id (trim form.voice_caller) (trim form.voice_transcript)
            (some_text (trim form.voice_call_id)) secret
        else ditolak "Caller dan transkrip voice wajib diisi.")
    else ditolak "Channel trigger belum mendukung pengujian ini."

-- `fireMutation`, for `selectedTrigger`
unfoldable uji_trigger : (String → Option Json) → FormUji → Option Trigger → Uji
unfolding uji_kanal
uji_trigger parse form none = ditolak "Pilih trigger yang ingin diuji."
uji_trigger parse form (some t) =
    uji_kanal parse form t.channel t.trigger_id (some_text (trim form.secret_token))
