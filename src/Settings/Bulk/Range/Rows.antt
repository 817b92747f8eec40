-- ===== src/Settings/Bulk/Range/Rows.antt =====
-- The row of one name: what it takes from the editor and from the saved account.
use multi_job.Prelude.{
  if◌then◌else◌, true, eq_iff, ◌≢◌, String, ◌==◌, Option, none, some, ◌≡◌, refl, arith, Bool-cases,
  inl, inr,
}
use multi_job.Js.Text.{or_text}
use multi_job.Settings.Bulk.{InstagramBulkAccountRow, IntegrationAccount}
use multi_job.Settings.Bulk.Range.{baris_range, id_pengguna}

pub baris_range-account_id :
    (key : String) (draft : Option InstagramBulkAccountRow) (saved : Option IntegrationAccount)
    (name : String)
    → (baris_range key draft saved name).account_id ≡ name
unfolding baris_range
baris_range-account_id key none none name = refl
baris_range-account_id key none (some saved) name = refl
baris_range-account_id key (some draft) none name = refl
baris_range-account_id key (some draft) (some saved) name = refl

or_text_again : (s t : String) → or_text (or_text s t) t ≡ or_text s t
or_text_again s t = elim (Bool-cases (s == "")) [
  | inl e ↦ elim (Bool-cases (t == "")) [ inl d ↦ rw (e, d) refl | inr d ↦ rw (e, d) refl ]
  | inr e ↦ rw (e, e) refl
]

or_text_self : (t : String) → or_text t t ≡ t
or_text_self t = elim (Bool-cases (t == "")) [ inl e ↦ rw e refl | inr e ↦ rw e refl ]

-- A row that takes over what it has itself stays as it is.
pub baris_range_again :
    (key : String) (draft : Option InstagramBulkAccountRow) (saved : Option IntegrationAccount)
    (name : String)
    → baris_range key (some (baris_range key draft saved name)) saved name
      ≡ baris_range key draft saved name
unfolding baris_range
baris_range_again key none none name = refl
baris_range_again key none (some saved) name = rw (or_text_self (id_pengguna key saved)) refl
baris_range_again key (some draft) none name =
    rw (or_text_again draft.instagram_user_id "", or_text_again draft.token "") refl
baris_range_again key (some draft) (some saved) name =
    rw (or_text_again draft.instagram_user_id (id_pengguna key saved), or_text_again draft.token "")
      refl

or_text-nil : (s : String) → or_text s "" ≡ s
or_text-nil s = ground (arith, eq_iff s "")

-- A row that is typed stays, and only a blank user is filled in.
pub baris_range-typed :
    (key : String) (draft : InstagramBulkAccountRow) (saved : Option IntegrationAccount)
    (name : String)
    → draft.account_id ≡ name
    → (user : String) × (baris_range key (some draft) saved name
        ≡ record draft { instagram_user_id = user })
      × (draft.instagram_user_id ≢ "" → user ≡ draft.instagram_user_id)
unfolding baris_range
baris_range-typed key draft none name h =
    let token = or_text-nil draft.token in
    let user = or_text-nil draft.instagram_user_id in
    (or_text draft.instagram_user_id "", cc (h, token), (λ ne. user))
baris_range-typed key draft (some saved) name h =
    let token = or_text-nil draft.token in
    (
      or_text draft.instagram_user_id (id_pengguna key saved),
      cc (h, token),
      (λ ne. ground (arith, eq_iff draft.instagram_user_id "", ne)),
    )

-- The user of a saved account, blank without one.
abbrev pub saved_user : String → Option IntegrationAccount → String
saved_user key none = ""
saved_user key (some saved) = id_pengguna key saved

-- The cells of a row: those of the editor's row of that name, with the saved user in place of a blank
-- one; without such a row, the saved account's, and no token; without either, blanks, and enabled.
pub HasCells :
    String
    → Option InstagramBulkAccountRow
    → Option IntegrationAccount
    → InstagramBulkAccountRow
    → Type 0
HasCells key (some draft) saved row =
    (row.token ≡ draft.token)
    × (row.enabled ≡ draft.enabled)
    × (row.instagram_user_id
        ≡ (if draft.instagram_user_id == "" then saved_user key saved else draft.instagram_user_id))
HasCells key none (some saved) row =
    (row.token ≡ "")
    × (row.enabled ≡ saved.enabled)
    × (row.instagram_user_id ≡ saved_user key (some saved))
HasCells key none none row = (row.token ≡ "") × (row.enabled ≡ true) × (row.instagram_user_id ≡ "")

or_text_if : (s t : String) → or_text s t ≡ (if s == "" then t else s)
or_text_if s t = ground (arith, eq_iff s "")

pub baris_range-HasCells :
    (key : String) (draft : Option InstagramBulkAccountRow) (saved : Option IntegrationAccount)
    (name : String)
    → HasCells key draft saved (baris_range key draft saved name)
unfolding baris_range HasCells
baris_range-HasCells key none none name = (refl, refl, refl)
baris_range-HasCells key none (some saved) name = (refl, refl, refl)
baris_range-HasCells key (some draft) none name =
    (or_text-nil draft.token, refl, or_text_if draft.instagram_user_id "")
baris_range-HasCells key (some draft) (some saved) name =
    (or_text-nil draft.token, refl, or_text_if draft.instagram_user_id (id_pengguna key saved))
