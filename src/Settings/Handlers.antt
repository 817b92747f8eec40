-- ===== src/Settings/Handlers.antt =====
-- What a handler of ui/src/app/settings/page.tsx does that sends at most one request: the message that
-- it shows, the cells of its form, the server, and whether the page loads its list again. The last
-- part models the deletions, which ask first: hapusAkunTelegram, hapusServerMcp and
-- hapusAkunIntegrasi.
use multi_job.Prelude.{Bool, true, false, String, ◌⧺◌, Option, none, some, ◌≡◌, refl, ap}
use multi_job.Settings.Toasts.{Toast, success}

pub record Hasil (F S : Type 0) : Type 0 where
  pub toast : Option Toast
  pub form : F
  pub server : S
  pub muat_ulang : Bool

-- Nothing but a message, if there is one.
abbrev pub berhenti : {F S : Type 0} → Option Toast → F → S → Hasil F S
berhenti toast form server = record {
  toast = toast;
  form = form;
  server = server;
  muat_ulang = false;
}

-- What follows an answer: nothing if the call has failed, else a new form, a message and a reload.
abbrev pub sesudah_jawaban : {F S A : Type 0} → Option A × S → F → (A → F × Toast) → Hasil F S
sesudah_jawaban (none, server) form f = berhenti none form server
sesudah_jawaban (some saved, server) form f = record {
  toast = some ((f saved).1);
  form = (f saved).0;
  server = server;
  muat_ulang = true;
}

module _ {F S A : Type 0} (form : F) (f : A → F × Toast) where
  pub sesudah_jawaban-server :
      (answer : Option A × S) → (sesudah_jawaban answer form f).server ≡ answer.1
  sesudah_jawaban-server (none, s) = refl
  sesudah_jawaban-server (some a, s) = refl

  pub sesudah_jawaban-none :
      (answer : Option A × S)
      → answer.0 ≡ none
      → sesudah_jawaban answer form f ≡ berhenti none form answer.1
  sesudah_jawaban-none (none, s) h = refl
  sesudah_jawaban-none (some a, s) h = cc h

  pub sesudah_jawaban-some :
      (answer : Option A × S) (a : A)
      → answer.0 ≡ some a
      → sesudah_jawaban answer form f
        ≡ record { toast = some ((f a).1); form = (f a).0; server = answer.1; muat_ulang = true }
  sesudah_jawaban-some (none, s) a h = cc h
  sesudah_jawaban-some (some b, s) a h =
      let same : b ≡ a = cc h in ap (λ c. sesudah_jawaban (some c, s) form f) same

-- A deletion, for the answer to `window.confirm` and the operation of the server.
hapus : {F S : Type 0} → Bool → (S → Bool × S) → Toast → F → S → Hasil F S
hapus false delete toast form s = berhenti none form s
hapus true delete toast form s =
    let (deleted, s') = delete s in
    elim deleted [
      | false ↦ berhenti none form s'
      | true ↦ record { toast = some toast; form = form; server = s'; muat_ulang = true }
    ]

module _ {F S : Type 0} where
  unfoldable hapus_akun_telegram :
      (String → S → Bool × S) → (confirmed : Bool) → String → F → S → Hasil F S
  unfolding hapus
  hapus_akun_telegram delete confirmed account_id form s =
      hapus confirmed (delete account_id) (success ("Akun Telegram '" ⧺ account_id ⧺ "' dihapus."))
        form s

  unfoldable hapus_server_mcp :
      (String → S → Bool × S) → (confirmed : Bool) → String → F → S → Hasil F S
  unfolding hapus
  hapus_server_mcp delete confirmed server_id form s =
      hapus confirmed (delete server_id) (success ("Server MCP '" ⧺ server_id ⧺ "' dihapus.")) form
        s

  unfoldable hapus_akun_integrasi :
      (String → String → S → Bool × S) → (confirmed : Bool) → String → String → F → S → Hasil F S
  unfolding hapus
  hapus_akun_integrasi delete confirmed provider account_id form s =
      hapus confirmed (delete provider account_id)
        (success ("Akun integrasi '" ⧺ provider ⧺ "/" ⧺ account_id ⧺ "' dihapus.")) form s
