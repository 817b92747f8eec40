-- ===== src/Settings/Mcp/Outcome.antt =====
-- The branches of saving the form of an MCP server.
use multi_job.Prelude.{
  zero, suc, ◌≤◌, true, false, false≢true, if◌then◌else◌, All, List, [], ◌∷◌, ◌++◌, length, ◌↔◌,
  ◌⊎◌, inl, inr, Bool-cases, Option-cases, String, ◌⧺◌, ◌==◌, eq_iff, Option, none, some, ◌≡◌, ◌≢◌,
  refl, ap, ◌∙◌, arith,
}
use multi_job.Js.Text.{trim}
use multi_job.Js.Number.{JsNumber, nan, natural, negative}
use multi_job.Js.Dict.{Dict}
use multi_job.Js.Json.{Json, null, bool, number, text, array, object, Members}
use multi_job.Settings.Toasts.{Toast, success}
use multi_job.Settings.Handlers.{Hasil, berhenti, sesudah_jawaban}
use multi_job.Settings.JsonForms.{Masukan, ditolak, diterima, objek_saja, parse_masukan_objek}
use multi_job.Settings.Mcp.{
  McpIntegrationServerUpsertRequest, McpForm, batas_waktu, permintaan_mcp, kirim_mcp, simpan_objek,
  simpan_server_mcp,
}

-- The time limit is from 1 to 120 seconds, whatever is typed.
batas_waktu-bounds : (x : JsNumber) → (1 ≤ batas_waktu x) × (batas_waktu x ≤ 120)
unfolding batas_waktu
batas_waktu-bounds nan = (omega arith, omega arith)
batas_waktu-bounds (natural zero) = (omega arith, omega arith)
batas_waktu-bounds (natural (suc n)) = (omega arith, omega arith)
batas_waktu-bounds (negative n) = (omega arith, omega arith)

module _ {S : Type 0} (parse : String → Option Json)
    (upsert : String → McpIntegrationServerUpsertRequest → S → Option String × S) (form : McpForm)
    (s : S) where
  abbrev headers : Masukan
  headers = parse_masukan_objek parse form.headers_text "Header MCP"

  abbrev env : Masukan
  env = parse_masukan_objek parse form.env_text "Lingkungan MCP"

  simpan-named :
      trim form.server_id ≢ ""
      → simpan_server_mcp parse upsert form s ≡ simpan_objek parse upsert form headers env s
  unfolding simpan_server_mcp
  simpan-named ne =
      let e : (trim form.server_id == "") ≡ false =
        ground (arith, eq_iff (trim form.server_id) "", ne) in
      rw e refl

  simpan_objek-good :
      (hs es : Dict Json)
      → headers ≡ diterima hs
      → env ≡ diterima es
      → simpan_objek parse upsert form headers env s ≡ kirim_mcp parse upsert form hs es s
  unfolding simpan_objek
  simpan_objek-good hs es h e =
      ap (λ m. simpan_objek parse upsert form m env s) h
      ∙ ap (λ n. simpan_objek parse upsert form (diterima hs) n s) e

  pub simpan-sent :
      (hs es : Dict Json)
      → trim form.server_id ≢ ""
      → headers ≡ diterima hs
      → env ≡ diterima es
      → simpan_server_mcp parse upsert form s
        ≡ sesudah_jawaban
            (upsert (trim form.server_id) (permintaan_mcp form hs es) s)
            form
            (λ saved.
              (record form { auth_token = "" }, success ("Server MCP '" ⧺ saved ⧺ "' tersimpan.")))
  unfolding kirim_mcp
  simpan-sent hs es ne h e = simpan-named ne ∙ simpan_objek-good hs es h e

-- The requests that a server has got.
abbrev pub Log : Type 0
Log = List (String × McpIntegrationServerUpsertRequest)

-- A server that keeps a log and answers as the first argument says.
abbrev pub logged :
    (String → McpIntegrationServerUpsertRequest → Option String)
    → String
    → McpIntegrationServerUpsertRequest
    → Log
    → Option String × Log
logged answer id request log = (answer id request, log ++ (id, request) ∷ [])

-- The text is a blank or is read as an object.
abbrev pub IsObject : (String → Option Json) → String → Type 0
IsObject parse raw =
    (trim raw ≡ "") ⊎ ((members : Members) × (parse (trim raw) ≡ some (object members)))

abbrev IsAccepted : Masukan → Type 0
IsAccepted (ditolak toast) = ⊥
IsAccepted (diterima d) = Unit

objek_saja-IsAccepted :
    (name : String) (o : Option Json)
    → IsAccepted (objek_saja name o) ↔ ((members : Members) × (o ≡ some (object members)))
unfolding objek_saja
objek_saja-IsAccepted name none = ((λ h. absurd h), (λ (m, e). cc e))
objek_saja-IsAccepted name (some null) = ((λ h. absurd h), (λ (m, e). cc e))
objek_saja-IsAccepted name (some (bool b)) = ((λ h. absurd h), (λ (m, e). cc e))
objek_saja-IsAccepted name (some (number n)) = ((λ h. absurd h), (λ (m, e). cc e))
objek_saja-IsAccepted name (some (text s)) = ((λ h. absurd h), (λ (m, e). cc e))
objek_saja-IsAccepted name (some (array xs)) = ((λ h. absurd h), (λ (m, e). cc e))
objek_saja-IsAccepted name (some (object m)) = ((λ h. (m, refl)), (λ h. tt))

parse_masukan_objek-IsAccepted :
    (parse : String → Option Json) (raw name : String)
    → IsAccepted (parse_masukan_objek parse raw name) ↔ IsObject parse raw
unfolding parse_masukan_objek
parse_masukan_objek-IsAccepted parse raw name = elim (Bool-cases (trim raw == "")) [
  | inl e ↦ rw e ((λ h. inl ((eq_iff (trim raw) "").0 e)), (λ h. tt))
  | inr e ↦
      let (to, from) = objek_saja-IsAccepted name (parse (trim raw)) in
      rw e (
        (λ h. inr (to h)),
        (λ h. elim h [
          | inl blank ↦ absurd (false≢true (cc (e, (eq_iff (trim raw) "").1 blank)))
          | inr read ↦ from read
        ]),
      )
]

-- What a saving leaves, if `good` says when a request is sent.
abbrev pub IsOutcome :
    (String → McpIntegrationServerUpsertRequest → Option String)
    → Type 0
    → McpForm
    → Hasil McpForm Log
    → Type 0
IsOutcome answer good form hasil =
    (length hasil.server ≤ 1)
    × All (λ request. request.0 ≡ trim form.server_id) hasil.server
    × ((length hasil.server ≡ 1) ↔ good)
    × ((hasil.muat_ulang ≡ true) ↔ (
        (id : String) × (r : McpIntegrationServerUpsertRequest) × (name : String) × (hasil.server
          ≡ (id, r) ∷ [])
        × (answer id r ≡ some name)))
    × ((hasil.toast ≡ none) ↔ (
        (id : String) × (r : McpIntegrationServerUpsertRequest) × (hasil.server ≡ (id, r) ∷ [])
        × (answer id r ≡ none)))
    × (hasil.form ≡ (if hasil.muat_ulang then record form { auth_token = "" } else form))

module _ (answer : String → McpIntegrationServerUpsertRequest → Option String)
    (form : McpForm) where
  refused-IsOutcome :
      {good : Type 0} (toast : Toast)
      → (good → ⊥)
      → IsOutcome answer good form (berhenti (some toast) form [])
  refused-IsOutcome toast bad = (
    omega arith,
    tt,
    ((λ e. absurd (omega (arith, e))), (λ g. absurd (bad g))),
    ((λ e. cc e), (λ (id, r, name, e, h). cc e)),
    ((λ e. cc e), (λ (id, r, e, h). cc e)),
    refl,
  )

  head : Log → Option String
  head [] = none
  head ((id, r) ∷ rest) = answer id r

  sent-IsOutcome :
      {good : Type 0} (r : McpIntegrationServerUpsertRequest) (message : String → Toast)
      → good
      → IsOutcome answer good form (
          sesudah_jawaban
            (logged answer (trim form.server_id) r [])
            form
            (λ saved. (record form { auth_token = "" }, message saved)))
  unfolding head
  sent-IsOutcome r message g = elim (Option-cases (answer (trim form.server_id) r)) [
    | inl n ↦ rw n (
      omega arith,
      (refl, tt),
      ((λ e. g), (λ h. refl)),
      ((λ e. cc e), (λ (id', r', name, e, h). cc (n, ap head e, h))),
      ((λ e. (trim form.server_id, r, refl, n)), (λ h. refl)),
      refl,
    )
    | inr (name, n) ↦ rw n (
      omega arith,
      (refl, tt),
      ((λ e. g), (λ h. refl)),
      ((λ e. (trim form.server_id, r, name, refl, n)), (λ h. refl)),
      ((λ e. cc e), (λ (id', r', e, h). cc (n, ap head e, h))),
      refl,
    )
  ]

  simpan_objek-IsOutcome :
      (parse : String → Option Json) (h e : Masukan)
      → IsOutcome answer
          (IsAccepted h × IsAccepted e)
          form
          (simpan_objek parse (logged answer) form h e [])
  unfolding simpan_objek kirim_mcp
  simpan_objek-IsOutcome parse (ditolak toast) e = refused-IsOutcome toast (λ g. g.0)
  simpan_objek-IsOutcome parse (diterima hs) (ditolak toast) = refused-IsOutcome toast (λ g. g.1)
  simpan_objek-IsOutcome parse (diterima hs) (diterima es) =
      sent-IsOutcome (permintaan_mcp form hs es)
        (λ saved. success ("Server MCP '" ⧺ saved ⧺ "' tersimpan.")) (tt, tt)

IsOutcome-iff :
    {good good' : Type 0} (answer : String → McpIntegrationServerUpsertRequest → Option String)
    (form : McpForm) (hasil : Hasil McpForm Log)
    → (good ↔ good')
    → IsOutcome answer good form hasil
    → IsOutcome answer good' form hasil
IsOutcome-iff answer form hasil (to, from) (a, n, (b, b'), c, d, e) =
    (a, n, ((λ h. to (b h)), (λ h. b' (from h))), c, d, e)

-- A saving sends one request at most, for the trimmed name, and it sends one exactly if the server has a name and both the
-- headers and the environment are blanks or objects. The list is loaded again exactly if the request
-- is answered by a name, and then the typed token is emptied; otherwise no cell changes. A message is
-- shown unless a request fails.
pub simpan_server_mcp_lem :
    (parse : String → Option Json)
    (answer : String → McpIntegrationServerUpsertRequest → Option String) (form : McpForm)
    → IsOutcome answer
        ((trim form.server_id ≢ "")
          × IsObject parse form.headers_text
          × IsObject parse form.env_text)
        form
        (simpan_server_mcp parse (logged answer) form [])
unfolding simpan_server_mcp
simpan_server_mcp_lem parse answer form =
    let (h, h') = parse_masukan_objek-IsAccepted parse form.headers_text "Header MCP" in
    let (k, k') = parse_masukan_objek-IsAccepted parse form.env_text "Lingkungan MCP" in
    elim (Bool-cases (trim form.server_id == "")) [
      | inl e ↦
          rw e (refused-IsOutcome answer form _ (λ g. g.0 ((eq_iff (trim form.server_id) "").0 e)))
      | inr e ↦
          let named : trim form.server_id ≢ "" =
            (λ z. false≢true (cc (e, (eq_iff (trim form.server_id) "").1 z))) in
          rw e (
            IsOutcome-iff answer form _ ((λ (a, b). (named, h a, k b)), (λ (n, a, b). (h' a, k' b)))
              (simpan_objek-IsOutcome answer form parse _ _))
    ]
