-- ===== src/Settings/Bulk/Saving/Outcome.antt =====
-- What saving the editor's rows sends, and what it leaves in the editor.
use multi_job.Prelude.{
  ◌≤◌, String, ◌==◌, eq_iff, List, [], ◌∷◌, map, Option, none, some, if◌then◌else◌, length,
  count_of, All, ◌≡◌, ◌≢◌, ◌↔◌, refl, arith, Bool-cases, inl, inr,
}
use multi_job.Js.Text.{some_text, trim, truthy, or_text}
use multi_job.Js.Text.Trimming.{trim_idem}
use multi_job.Saving.Laws.{is_some, kirim, simpan_semua_lem}
use multi_job.Settings.Toasts.{is_success, is_error, toasts_counts}
use multi_job.Settings.Providers.Prefixes.{IsName}
use multi_job.Js.Dict.{Dict, put}
use multi_job.Js.Json.{Json, text}
use multi_job.Settings.Bulk.{InstagramBulkAccountRow, BulkForm, provider_meta}
use multi_job.Settings.Bulk.Numbering.{length-map}
use multi_job.Settings.Bulk.Saving.{
  AkunBaru, config_akun, baris_bersih, akun_baru, tanpa_token, simpan_baris,
  simpan_semua_akun_instagram,
}

-- A request names an account, and a secret that it has is not empty.
pub record IsSendable (akun : AkunBaru) : Type 0 where
  pub name : IsName akun.account_id
  pub secret : akun.secret ≢ some ""

secret_ne : (s : String) → some_text s ≢ some ""
secret_ne s e = elim (Bool-cases (s == "")) [
  | inl t ↦ cc (t, e)
  | inr f ↦ let same : s ≡ "" = cc (f, e) in cc (f, (eq_iff s "").1 same)
]

akun_baru-IsSendable :
    (form : BulkForm) (rows : List InstagramBulkAccountRow)
    → All IsSendable (map (akun_baru form) (baris_bersih rows))
unfolding baris_bersih akun_baru
akun_baru-IsSendable form [] = tt
akun_baru-IsSendable form (row ∷ rows) = elim (Bool-cases (truthy (trim row.account_id))) [
  | inl e ↦ rw e (
    record {
      name = (trim_idem row.account_id, ground (arith, e, eq_iff (trim row.account_id) ""));
      secret = secret_ne (trim row.token);
    },
    akun_baru-IsSendable form rows,
  )
  | inr e ↦ rw e (akun_baru-IsSendable form rows)
]

-- The settings of an account: the base address, and the user if one is named.
abbrev pub isi_config : BulkForm → String → Dict Json
isi_config form user =
    let base : String × Json =
      ("base_url", text (or_text (trim form.base_url) (provider_meta form).default_base_url)) in
    if user == "" then base ∷ [] else put (provider_meta form).user_id_key (text user) (base ∷ [])

-- One request for each row with a name that is no blank, in the order of the rows.
unfoldable pub akun_dikirim : BulkForm → List InstagramBulkAccountRow → List AkunBaru
akun_dikirim form [] = []
akun_dikirim form (row ∷ rows) =
    let rest = akun_dikirim form rows in
    if trim row.account_id == ""
    then rest
    else record {
      provider = form.provider;
      account_id = trim row.account_id;
      enabled = row.enabled;
      secret = (if trim row.token == "" then none else some (trim row.token));
      config = isi_config form (trim row.instagram_user_id);
    }
      ∷ rest

config_akun-isi : (form : BulkForm) (user : String) → config_akun form user ≡ isi_config form user
unfolding config_akun put
config_akun-isi form user = ground arith

akun_dikirim-eq :
    (form : BulkForm) (rows : List InstagramBulkAccountRow)
    → akun_dikirim form rows ≡ map (akun_baru form) (baris_bersih rows)
unfolding akun_dikirim baris_bersih akun_baru
akun_dikirim-eq form [] = refl
akun_dikirim-eq form (row ∷ rows) = elim (Bool-cases (trim row.account_id == "")) [
  | inl e ↦ rw e (akun_dikirim-eq form rows)
  | inr e ↦
      rw (e, config_akun-isi form (trim row.instagram_user_id), akun_dikirim-eq form rows)
        (elim (Bool-cases (trim row.token == "")) [ inl t ↦ rw t refl | inr t ↦ rw t refl ])
]

module _ {S Akun : Type 0} (upsert : AkunBaru → S → Option Akun × S) where
  simpan_baris_lem :
      (form : BulkForm) (rows : List InstagramBulkAccountRow) (s : S)
      → let (rs, sent) = kirim upsert (map (akun_baru form) rows) s in
        let (toasts, form', s') = simpan_baris upsert form rows s in
        (length rows ≡ 0 → (count_of is_error toasts ≡ 1) × (form' ≡ form) × (s' ≡ s))
        × (1 ≤ length rows
            → (s' ≡ sent)
              × ((count_of is_success toasts ≡ 0) ↔ (count_of is_some rs ≡ 0))
              × ((count_of is_error toasts ≡ 0) ↔ (count_of is_some rs ≡ length rows))
              × (form' ≡ record form {
                rows = map (λ (row : InstagramBulkAccountRow). record row { token = "" }) form.rows;
              }))
  unfolding simpan_baris tanpa_token
  simpan_baris_lem form [] s = ((λ h. (refl, refl, refl)), (λ h. absurd (omega arith)))
  simpan_baris_lem form (row ∷ rows) s =
      let ps = map (akun_baru form) (row ∷ rows) in
      let n = count_of is_some (kirim upsert ps s).0 in
      let (same, all) = simpan_semua_lem (λ (akun : AkunBaru). akun.account_id) upsert ps s in
      let size = length-map (akun_baru form) (row ∷ rows) in
      (
        (λ h. absurd (omega (arith, h))),
        (λ h. rw same (
          refl,
          (toasts_counts _ _ _ _).0,
          (
            (λ z. omega (arith, (toasts_counts _ _ n _).1.0 z, all, size)),
            (λ z. (toasts_counts _ _ n _).1.1 (omega (arith, all, size, z))),
          ),
          refl,
        )),
      )

  -- Without a row whose name is no blank an error is shown and nothing is sent or changed. Else one
  -- request is sent for each such row, disabled ones included, in order and even if some fail, with
  -- trimmed texts and a secret only if a token is typed; a success is shown exactly if one was saved,
  -- an error exactly if one was not. The token of every row in the editor is emptied, and its other
  -- cells stay.
  pub simpan_semua_akun_instagram_lem :
      (form : BulkForm) (s : S)
      → let ps = akun_dikirim form form.rows in
        let (rs, sent) = kirim upsert ps s in
        let (toasts, form', s') = simpan_semua_akun_instagram upsert form s in
        All IsSendable ps
        × (length ps ≡ 0 → (count_of is_error toasts ≡ 1) × (form' ≡ form) × (s' ≡ s))
        × (1 ≤ length ps
            → (s' ≡ sent)
              × ((count_of is_success toasts ≡ 0) ↔ (count_of is_some rs ≡ 0))
              × ((count_of is_error toasts ≡ 0) ↔ (count_of is_some rs ≡ length ps))
              × (form' ≡ record form {
                rows = map (λ (row : InstagramBulkAccountRow). record row { token = "" }) form.rows;
              }))
  unfolding simpan_semua_akun_instagram
  simpan_semua_akun_instagram_lem form s =
      let (empty, many) = simpan_baris_lem form (baris_bersih form.rows) s in
      let size = length-map (akun_baru form) (baris_bersih form.rows) in
      rw (akun_dikirim-eq form form.rows, size) (akun_baru-IsSendable form form.rows, empty, many)
