-- ===== src/Settings/Bulk/Range/Laws.antt =====
-- What the range of names makes of the editor's rows.
use multi_job.Prelude.{
  ℕ, ◌+◌, ◌-◌, ◌≤◌, ◌<◌, true, false, ◌≢◌, String, ◌⧺◌, List, [], some, length, ltb, get_elem?, ◌≡◌,
  refl, sym, ap, ◌∙◌, arith, Bool-cases, inl, inr,
}
use multi_job.Js.Number.{show}
use multi_job.Js.Number.Decimal.{pad_start}
use multi_job.Js.Dict.{lookup}
use multi_job.Settings.Toasts.{success}
use multi_job.Settings.Numbers.{batasi_angka, batasi_angka_bounds}
use multi_job.Settings.Bulk.{
  InstagramBulkAccountRow, IntegrationAccount, BulkForm, provider_meta, nama_akun, prefix_akun,
}
use multi_job.Settings.Bulk.Range.{
  baris_range, sekarang_by_id, tersimpan_by_id, baris_dari, baris_nomor, buat_range_akun_instagram,
}
use multi_job.Settings.Bulk.Range.Names.{
  prefix_akun-IsName, length-baris_dari, get_elem?-baris_dari, baris_dari-eq, lookup-index_by,
}
use multi_job.Settings.Bulk.Range.Rows.{
  baris_range-account_id, baris_range_again, baris_range-typed, HasCells, baris_range-HasCells,
}

module _ (tersimpan : List IntegrationAccount) (form : BulkForm) where
  abbrev nama : ℕ → String
  nama j = nama_akun (prefix_akun form) (batasi_angka form.pad_digit 1 6 3) j

  -- The rows that the range makes, in the editor.
  abbrev terisi : ℕ → ℕ → BulkForm
  terisi n a = record form { rows = baris_dari (baris_nomor tersimpan form) n a }

  -- Rows that carry the names of the range, in the editor: each is found again.
  sekarang-typed :
      (typed : ℕ → InstagramBulkAccountRow) (n a j : ℕ)
      → ((i : ℕ) → (typed i).account_id ≡ nama i)
      → a ≤ j
      → j < a + n
      → lookup (nama j) (sekarang_by_id (record form { rows = baris_dari typed n a }))
        ≡ some (typed j)
  sekarang-typed typed n a j names h k =
      lookup-index_by (prefix_akun form) (batasi_angka form.pad_digit 1 6 3)
        (prefix_akun-IsName form) typed n a j [] names
      ∙ ground (arith, h, k)

  baris_nomor-typed :
      (typed : ℕ → InstagramBulkAccountRow) (n a j : ℕ)
      → ((i : ℕ) → (typed i).account_id ≡ nama i)
      → a ≤ j
      → j < a + n
      → (user : String) × (baris_nomor tersimpan (record form { rows = baris_dari typed n a }) j
          ≡ record (typed j) { instagram_user_id = user })
        × ((typed j).instagram_user_id ≢ "" → user ≡ (typed j).instagram_user_id)
  unfolding baris_nomor provider_meta
  baris_nomor-typed typed n a j names h k =
      let saved = lookup (nama j) (tersimpan_by_id tersimpan) in
      let key = (provider_meta form).user_id_key in
      let (user, same, kept) = baris_range-typed key (typed j) saved (nama j) (names j) in
      (
        user,
        ap (λ draft. baris_range key draft saved (nama j)) (sekarang-typed typed n a j names h k)
            ∙ same,
        kept,
      )

  baris_nomor_again :
      (n a j : ℕ)
      → a ≤ j
      → j < a + n
      → baris_nomor tersimpan (terisi n a) j ≡ baris_nomor tersimpan form j
  unfolding baris_nomor provider_meta
  baris_nomor_again n a j h k =
      let found : lookup (nama j) (sekarang_by_id (terisi n a))
          ≡ some (baris_nomor tersimpan form j) =
        sekarang-typed (baris_nomor tersimpan form) n a j
          (λ i. unfold baris_nomor in baris_range-account_id _ _ _ _) h k in
      let saved = lookup (nama j) (tersimpan_by_id tersimpan) in
      let key = (provider_meta form).user_id_key in
      ap (λ draft. baris_range key draft saved (nama j)) found
      ∙ baris_range_again key (lookup (nama j) (sekarang_by_id form)) saved (nama j)

  abbrev mulai : ℕ
  mulai = batasi_angka form.mulai_dari 1 9999 1

  abbrev sampai : ℕ
  sampai = batasi_angka form.sampai_ke 1 9999 10

  buat_range-backward : sampai < mulai → ((buat_range_akun_instagram tersimpan form).1 ≡ form)
  unfolding buat_range_akun_instagram
  buat_range-backward h = let t : ltb sampai mulai ≡ true = ground (arith, h) in rw t refl

  buat_range-forward :
      mulai ≤ sampai
      → buat_range_akun_instagram tersimpan form ≡ (
        success (
            "Range akun "
            ⧺ (provider_meta form).label
            ⧺ " "
            ⧺ nama mulai
            ⧺ " sampai "
            ⧺ nama sampai
            ⧺ " siap."),
        terisi (sampai + 1 - mulai) mulai,
      )
  unfolding buat_range_akun_instagram
  buat_range-forward h = let t : ltb sampai mulai ≡ false = ground (arith, h) in rw t refl

  -- The row is named by the prefix and the padded number, and has the cells of that name.
  pub IsRowOf : ℕ → InstagramBulkAccountRow → Type 0
  IsRowOf j row =
      let name = prefix_akun form ⧺ pad_start (batasi_angka form.pad_digit 1 6 3) (show j) in
      (row.account_id ≡ name)
      × HasCells (provider_meta form).user_id_key (lookup name (sekarang_by_id form))
          (lookup name (tersimpan_by_id tersimpan)) row

  baris_nomor-IsRowOf : (j : ℕ) → IsRowOf j (baris_nomor tersimpan form j)
  unfolding baris_nomor nama_akun IsRowOf
  baris_nomor-IsRowOf j = (baris_range-account_id _ _ _ _, baris_range-HasCells _ _ _ _)

  -- A range that ends before it begins is refused and changes nothing. Else the rows are as many as its
  -- numbers, at most 9999, and no other cell is changed. Each number's row stands in its place, named
  -- by the prefix and the padded number; its cells are those of the editor's row of that name, with the
  -- saved user in place of a blank one, or else those of the saved account, without a token, or else
  -- blanks.
  pub buat_range_akun_instagram_lem :
      let form' = (buat_range_akun_instagram tersimpan form).1 in
      (sampai < mulai → form' ≡ form)
      × (mulai ≤ sampai
          → (length form'.rows + mulai ≡ sampai + 1)
            × (length form'.rows ≤ 9999)
            × ((j : ℕ)
                → mulai ≤ j
                → j ≤ sampai
                → (row : InstagramBulkAccountRow) × (get_elem? form'.rows (j - mulai) ≡ some row)
                  × IsRowOf j row)
            × (record form' { rows = form.rows } ≡ form))
  buat_range_akun_instagram_lem = (
    buat_range-backward,
    λ h.
        let rows = baris_dari (baris_nomor tersimpan form) (sampai + 1 - mulai) mulai in
        let (low, high) =
          batasi_angka_bounds form.mulai_dari 1 9999 1 (omega arith) (omega arith) in
        let (low', high') =
          batasi_angka_bounds form.sampai_ke 1 9999 10 (omega arith) (omega arith) in
        let size = length-baris_dari (baris_nomor tersimpan form) (sampai + 1 - mulai) mulai in
        rw (buat_range-forward h) (
          omega (arith, size),
          omega (arith, size, low, high'),
          (λ j a b. (
            baris_nomor tersimpan form j,
            get_elem?-baris_dari (baris_nomor tersimpan form) (sampai + 1 - mulai) mulai (j - mulai)
                  (omega (arith, a, b))
                ∙ ap (λ i. some (baris_nomor tersimpan form i)) (omega (arith, a, b)),
            baris_nomor-IsRowOf j,
          )),
          refl,
        ),
  )

typed-stays :
    (tersimpan : List IntegrationAccount) (form : BulkForm) (typed : ℕ → InstagramBulkAccountRow)
    (j : ℕ)
    → ((i : ℕ) → (typed i).account_id ≡ nama tersimpan form i)
    → mulai tersimpan form ≤ j
    → j ≤ sampai tersimpan form
    → let a = mulai tersimpan form in
      let form' = record form { rows = baris_dari typed (sampai tersimpan form + 1 - a) a } in
      (user : String) × (get_elem? (buat_range_akun_instagram tersimpan form').1.rows (j - a)
        ≡ some (record (typed j) { instagram_user_id = user }))
      × ((typed j).instagram_user_id ≢ "" → user ≡ (typed j).instagram_user_id)
typed-stays tersimpan form typed j names h k =
    let a = mulai tersimpan form in
    let n = sampai tersimpan form + 1 - a in
    let form' : BulkForm = record form { rows = baris_dari typed n a } in
    let (user, same, kept) =
      baris_nomor-typed tersimpan form typed n a j names h (omega (arith, h, k)) in
    (
      user,
      rw (buat_range-forward tersimpan form' (omega (arith, h, k))) (
          get_elem?-baris_dari (baris_nomor tersimpan form') n a (j - a) (omega (arith, h, k))
          ∙ ap (λ i. some (baris_nomor tersimpan form' i)) (omega (arith, h, k))
          ∙ ap some same),
      kept,
    )

pressed_again :
    (tersimpan : List IntegrationAccount) (form : BulkForm)
    → (buat_range_akun_instagram tersimpan (buat_range_akun_instagram tersimpan form).1).1
      ≡ (buat_range_akun_instagram tersimpan form).1
pressed_again tersimpan form =
    let a = mulai tersimpan form in
    let b = sampai tersimpan form in
    elim (Bool-cases (ltb b a)) [
      | inl t ↦
          let same = buat_range-backward tersimpan form (ground (arith, t)) in
          ap (λ f. (buat_range_akun_instagram tersimpan f).1) same
      | inr f ↦
          let h : a ≤ b = ground (arith, f) in
          let n = b + 1 - a in
          let form' = terisi tersimpan form n a in
          let one = ap (λ r. r.1) (buat_range-forward tersimpan form h) in
          let two = ap (λ r. r.1) (buat_range-forward tersimpan form' h) in
          ap (λ f. (buat_range_akun_instagram tersimpan f).1) one
          ∙ two
          ∙ ap (λ rows. record form { rows = rows })
              (baris_dari-eq (baris_nomor tersimpan form') (baris_nomor tersimpan form) n a
                (baris_nomor_again tersimpan form n a))
          ∙ sym one
    ]

-- Pressed a second time, the button changes nothing. And what is typed in the rows of a range stays
-- when the button is pressed: if the rows carry the names of the range, each keeps its name, its token,
-- whether it is enabled, and its user; only a blank user may be filled in.
pub buat_range_akun_instagram_idem :
    (tersimpan : List IntegrationAccount) (form : BulkForm)
    → let mulai = batasi_angka form.mulai_dari 1 9999 1 in
      let sampai = batasi_angka form.sampai_ke 1 9999 10 in
      let pad = batasi_angka form.pad_digit 1 6 3 in
      ((buat_range_akun_instagram tersimpan (buat_range_akun_instagram tersimpan form).1).1
        ≡ (buat_range_akun_instagram tersimpan form).1)
      × ((typed : ℕ → InstagramBulkAccountRow) (j : ℕ)
          → ((i : ℕ) → (typed i).account_id ≡ nama_akun (prefix_akun form) pad i)
          → mulai ≤ j
          → j ≤ sampai
          → let form' = record form { rows = baris_dari typed (sampai + 1 - mulai) mulai } in
            (user : String) × (get_elem?
                (buat_range_akun_instagram tersimpan form').1.rows
                (j - mulai)
              ≡ some (record (typed j) { instagram_user_id = user }))
            × ((typed j).instagram_user_id ≢ "" → user ≡ (typed j).instagram_user_id))
buat_range_akun_instagram_idem tersimpan form =
    (pressed_again tersimpan form, typed-stays tersimpan form)
