-- ===== src/Settings/Telegram/RoundTrip.antt =====
-- Taking over a saved Telegram account into the form and saving the form again, and the branches of the
-- saving.
use multi_job.Prelude.{
  ℕ, ◌≤◌, Bool, true, false, String, ◌⧺◌, ◌==◌, eq_iff, Option, none, some, All, if◌then◌else◌, ◌≡◌,
  ◌≢◌, ◌↔◌, refl, sym, ap, ◌∙◌, arith, ◌⊎◌, inl, inr,
}
use multi_job.Js.Text.{is_space, trim, or_text}
use multi_job.Js.Text.Split.{is_comma}
use multi_job.Js.Text.Split.Laws.{IsPiece, IsPad, pieces-join_iff}
use multi_job.Js.Number.{natural}
use multi_job.Settings.Toasts.{success, error}
use multi_job.Settings.Numbers.{batasi_detik_tunggu}
use multi_job.Settings.Providers.Prefixes.{IsName}
use multi_job.Settings.Handlers.{sesudah_jawaban-none, sesudah_jawaban-some}
use multi_job.Settings.Telegram.{
  TelegramConnectorAccount, TelegramConnectorAccountUpsertRequest, TelegramForm, isi_dari_akun,
  permintaan_telegram, simpan_akun_telegram,
}

-- What the server has stored: a time of waiting from 0 to 30 seconds, and trimmed texts that are not
-- empty.
pub record IsStored (account : TelegramConnectorAccount) (wait : ℕ) : Type 0 where
  pub waits : account.wait_seconds ≡ some (natural wait)
  pub short : wait ≤ 30
  pub timezone : IsName account.timezone
  pub default_channel : IsName account.default_channel
  pub default_account_id : IsName account.default_account_id

-- What the form can send back: chat ids that are trimmed, not empty and without commas, a time of
-- waiting only if the runs start at once, and rules only with the AI.
abbrev pub IsUnchanged : TelegramConnectorAccount → ℕ → Type 0
IsUnchanged account wait =
    All (IsPiece is_comma) account.allowed_chat_ids
    × ((account.run_immediately ≡ true) ⊎ (wait ≡ 0))
    × ((account.use_ai ≡ true) ⊎ (account.force_rule_based ≡ false))

-- The request that leaves a saved account as it is.
abbrev pub sama_dengan : TelegramConnectorAccount → ℕ → TelegramConnectorAccountUpsertRequest
sama_dengan account wait = record {
  bot_token = none;
  allowed_chat_ids = account.allowed_chat_ids;
  enabled = account.enabled;
  use_ai = account.use_ai;
  force_rule_based = account.force_rule_based;
  run_immediately = account.run_immediately;
  wait_seconds = wait;
  timezone = account.timezone;
  default_channel = account.default_channel;
  default_account_id = account.default_account_id;
}

or_text_name : (s t : String) → IsName s → or_text (trim (or_text s t)) t ≡ s
or_text_name s t (h, ne) =
    let e : (s == "") ≡ false = ground (arith, eq_iff s "", ne) in rw (e, h, e) refl

rules_iff : (a b : Bool) → ((if a then b else false) ≡ b) ↔ ((a ≡ true) ⊎ (b ≡ false))
rules_iff true b = ((λ e. inl refl), (λ h. refl))
rules_iff false b = ((λ e. inr (sym e)), (λ h. elim h [ inl e ↦ cc e | inr e ↦ sym e ]))

wait_iff : (a : Bool) (n : ℕ) → ((if a then n else 0) ≡ n) ↔ ((a ≡ true) ⊎ (n ≡ 0))
wait_iff true n = ((λ e. inl refl), (λ h. refl))
wait_iff false n = ((λ e. inr (sym e)), (λ h. elim h [ inl e ↦ cc e | inr e ↦ sym e ]))

-- The number of seconds of the request, for that of the account.
abbrev detik : TelegramConnectorAccount → ℕ
detik account = (permintaan_telegram (isi_dari_akun account)).wait_seconds

detik_eq :
    (account : TelegramConnectorAccount) (wait : ℕ)
    → IsStored account wait
    → detik account ≡ (if account.run_immediately then wait else 0)
unfolding permintaan_telegram isi_dari_akun batasi_detik_tunggu
detik_eq account wait stored = rw stored.waits (ground (arith, stored.short))

-- Saving an account that was taken over into the form sends what is saved already, and no token,
-- exactly if its chat ids are trimmed, not empty and without commas, it waits only if its runs start at
-- once, and it has rules only with the AI. The texts of the account are trimmed and not empty, and it
-- waits 30 seconds at most.
pub permintaan_telegram-isi_dari_akun :
    (account : TelegramConnectorAccount) (wait : ℕ)
    → IsStored account wait
    → (permintaan_telegram (isi_dari_akun account) ≡ sama_dengan account wait)
      ↔ IsUnchanged account wait
unfolding permintaan_telegram isi_dari_akun
permintaan_telegram-isi_dari_akun account wait stored =
    let pad : IsPad is_comma " " = unfold is_space in (refl, refl, tt) in
    let (to, from) = pieces-join_iff is_comma "," " " refl pad account.allowed_chat_ids in
    let seconds = detik_eq account wait stored in
    let (wait_to, wait_from) = wait_iff account.run_immediately wait in
    let (rules_to, rules_from) = rules_iff account.use_ai account.force_rule_based in
    (
      (λ e. (
        to (ap (λ (r : TelegramConnectorAccountUpsertRequest). r.allowed_chat_ids) e),
        wait_to
            (sym seconds ∙ ap (λ (r : TelegramConnectorAccountUpsertRequest). r.wait_seconds) e),
        rules_to (ap (λ (r : TelegramConnectorAccountUpsertRequest). r.force_rule_based) e),
      )),
      (λ (h, w, r).
          let ids = from h in
          let time = seconds ∙ wait_from w in
          let rules = rules_from r in
          let zone = or_text_name account.timezone "Asia/Jakarta" stored.timezone in
          let channel = or_text_name account.default_channel "telegram" stored.default_channel in
          let id = or_text_name account.default_account_id "default" stored.default_account_id in
          let none_typed : trim "" ≡ "" = unfold trim in refl in
          cc (ids, time, rules, zone, channel, id, none_typed)),
    )

module _ {S : Type 0}
    (upsert : String → TelegramConnectorAccountUpsertRequest → S → Option String × S) where
  -- Without a name an error is shown, and nothing is sent or changed. Else one request is sent, for the
  -- trimmed name; if it fails the form stays and nothing is shown, and if not, the typed token is
  -- emptied, the other cells stay and the list is loaded again.
  pub simpan_akun_telegram_lem :
      (form : TelegramForm) (s : S)
      → let account_id = trim form.account_id in
        let (saved, s') = upsert account_id (permintaan_telegram form) s in
        let hasil = simpan_akun_telegram upsert form s in
        (account_id ≡ ""
          → hasil ≡ record {
            toast = some (error "ID akun Telegram wajib diisi.");
            form = form;
            server = s;
            muat_ulang = false;
          })
        × (account_id ≢ ""
            → (saved ≡ none
                → hasil ≡ record { toast = none; form = form; server = s'; muat_ulang = false })
              × ((name : String)
                  → saved ≡ some name
                  → hasil ≡ record {
                    toast = some (success ("Akun Telegram '" ⧺ name ⧺ "' tersimpan."));
                    form = record form { bot_token = "" };
                    server = s';
                    muat_ulang = true;
                  }))
  unfolding simpan_akun_telegram
  simpan_akun_telegram_lem form s = (
    (λ e. rw e refl),
    (λ ne.
        let e : (trim form.account_id == "") ≡ false =
          ground (arith, eq_iff (trim form.account_id) "", ne) in
        rw e (
          sesudah_jawaban-none form _ (upsert (trim form.account_id) (permintaan_telegram form) s),
          sesudah_jawaban-some form _ (upsert (trim form.account_id) (permintaan_telegram form) s),
        )),
  )
