-- ===== src/Settings/Bulk/Numbering.antt =====
-- The search for a free number ends: the names of the numbers differ, and there are fewer rows than
-- names that are tried.
use multi_job.Prelude.{
  ◌⊎◌, ℕ, zero, suc, ◌+◌, ◌≤◌, ◌<◌, true, false, String, ◌==◌, eq_iff, List, [], ◌∷◌, ◌++◌, map,
  none, some, length, if◌then◌else◌, ◌≡◌, ◌≢◌, refl, subst, sym, ap, ◌∙◌, arith, Bool-cases,
  Option-cases, inl, inr,
}
use multi_job.Js.Text.{trim}
use multi_job.Js.Number.{show}
use multi_job.Js.Number.Decimal.{pad_start, append_left_cancel, pad_start-show_inj}
use multi_job.Settings.Numbers.{batasi_angka}
use multi_job.Settings.Bulk.{
  InstagramBulkAccountRow, BulkForm, nama_akun, sudah_ada, nomor_bebas, prefix_akun, baris_kosong,
  tambah_baris_instagram_manual,
}

pub nama_akun_inj :
    (prefix : String) (pad m n : ℕ) → nama_akun prefix pad m ≡ nama_akun prefix pad n → m ≡ n
unfolding nama_akun
nama_akun_inj prefix pad m n e =
    pad_start-show_inj pad m n
      (append_left_cancel prefix (pad_start pad (show m)) (pad_start pad (show n)) e)

-- The list without the first occurrence of a text.
without_first : String → List String → List String
without_first s [] = []
without_first s (t ∷ ts) = if t == s then ts else t ∷ without_first s ts

length-without_first :
    (s : String) (ts : List String)
    → sudah_ada ts s ≡ true
    → suc (length (without_first s ts)) ≡ length ts
unfolding without_first
length-without_first s [] h = cc
length-without_first s (t ∷ ts) h = ground (arith, h, length-without_first s ts)

sudah_ada-without_first :
    (s u : String) (ts : List String)
    → u ≢ s
    → sudah_ada ts u ≡ true
    → sudah_ada (without_first s ts) u ≡ true
unfolding without_first
sudah_ada-without_first s u [] ne h = cc
sudah_ada-without_first s u (t ∷ ts) ne h =
    ground (arith, h, ne, eq_iff t s, eq_iff t u, sudah_ada-without_first s u ts ne)

eq_or_lt : (m n : ℕ) → m ≤ n → (m ≡ n) ⊎ (m + 1 ≤ n)
eq_or_lt zero zero h = inl refl
eq_or_lt zero (suc n) h = inr (omega arith)
eq_or_lt (suc m) zero h = elim h [ ]
eq_or_lt (suc m) (suc n) h = elim (eq_or_lt m n (omega arith)) [
  | inl e ↦ inl (ap suc e)
  | inr b ↦ inr (omega (arith, b))
]

module _ (prefix : String) (pad : ℕ) where
  -- Numbers in a row whose names are all taken are no more than the names.
  taken_le :
      (k start : ℕ) (ids : List String)
      → ((j : ℕ) → start ≤ j → j < start + k → sudah_ada ids (nama_akun prefix pad j) ≡ true)
      → k ≤ length ids
  taken_le zero start ids taken = omega arith
  taken_le (suc k) start ids taken =
      let name = nama_akun prefix pad start in
      let here : sudah_ada ids name ≡ true = taken start (omega arith) (omega arith) in
      let rest = taken_le k (start + 1) (without_first name ids) (λ j h b.
        sudah_ada-without_first name (nama_akun prefix pad j) ids
          (λ e. absurd (omega (arith, nama_akun_inj prefix pad j start e)))
          (taken j (omega arith) (omega arith))) in
      omega (arith, rest, length-without_first name ids here)

  nomor_bebas_taken :
      (fuel start : ℕ) (ids : List String)
      → sudah_ada ids (nama_akun prefix pad start) ≡ true
      → nomor_bebas (suc fuel) ids prefix pad start ≡ nomor_bebas fuel ids prefix pad (start + 1)
  unfolding nomor_bebas
  nomor_bebas_taken fuel start ids t = rw (t, nomor_bebas)

  nomor_bebas_free :
      (fuel start : ℕ) (ids : List String)
      → sudah_ada ids (nama_akun prefix pad start) ≡ false
      → nomor_bebas (suc fuel) ids prefix pad start ≡ some start
  unfolding nomor_bebas
  nomor_bebas_free fuel start ids f = rw (f, nomor_bebas)

  nomor_bebas-none :
      (fuel start : ℕ) (ids : List String)
      → nomor_bebas fuel ids prefix pad start ≡ none
      → (j : ℕ) → start ≤ j
      → j < start + fuel
      → sudah_ada ids (nama_akun prefix pad j) ≡ true
  unfolding nomor_bebas
  nomor_bebas-none zero start ids e j h b = absurd (omega arith)
  nomor_bebas-none (suc fuel) start ids e j h b =
      elim (Bool-cases (sudah_ada ids (nama_akun prefix pad start))) [
        | inl t ↦ elim (eq_or_lt start j h) [
          | inl same ↦ subst (λ i. sudah_ada ids (nama_akun prefix pad i) ≡ true) same t
          | inr later ↦
              nomor_bebas-none fuel (start + 1) ids (sym (nomor_bebas_taken fuel start ids t) ∙ e) j
                later (omega arith)
        ]
        | inr f ↦ cc (nomor_bebas_free fuel start ids f, e)
      ]

  nomor_bebas-some :
      (fuel start : ℕ) (ids : List String) (n : ℕ)
      → nomor_bebas fuel ids prefix pad start ≡ some n
      → (start ≤ n)
        × (n < start + fuel)
        × (sudah_ada ids (nama_akun prefix pad n) ≡ false)
        × ((j : ℕ) → start ≤ j → j < n → sudah_ada ids (nama_akun prefix pad j) ≡ true)
  unfolding nomor_bebas
  nomor_bebas-some zero start ids n e = cc
  nomor_bebas-some (suc fuel) start ids n e =
      elim (Bool-cases (sudah_ada ids (nama_akun prefix pad start))) [
        | inl t ↦
            let (a, b, c, d) =
              nomor_bebas-some fuel (start + 1) ids n
                (sym (nomor_bebas_taken fuel start ids t) ∙ e) in
            (
              omega (arith, a),
              omega (arith, b),
              c,
              (λ j h k. elim (eq_or_lt start j h) [
                | inl same ↦ subst (λ i. sudah_ada ids (nama_akun prefix pad i) ≡ true) same t
                | inr later ↦ d j later k
              ]),
            )
        | inr f ↦
            let same : start ≡ n = cc (nomor_bebas_free fuel start ids f, e) in
            (
              omega (arith, same),
              omega (arith, same),
              subst (λ i. sudah_ada ids (nama_akun prefix pad i) ≡ false) same f,
              (λ j h k. absurd (omega (arith, same))),
            )
      ]

pub length-map {ℓ κ} :
    {A : Type ℓ} {B : Type κ} (f : A → B) (xs : List A) → length (map f xs) ≡ length xs
length-map f [] = refl
length-map f (x ∷ xs) = ap suc (length-map f xs)

-- A row is always added, with the first number from the start on whose name no row has, and at most as
-- many numbers are passed over as there are rows; the other rows stay.
pub tambah_baris_instagram_manual_total :
    (form : BulkForm)
    → let ids = map (λ row. trim row.account_id) form.rows in
      let pad = batasi_angka form.pad_digit 1 6 3 in
      let mulai = batasi_angka form.mulai_dari 1 9999 1 in
      let prefix = prefix_akun form in
      (n : ℕ) × (tambah_baris_instagram_manual form
        ≡ some (record form { rows = form.rows ++ baris_kosong (nama_akun prefix pad n) ∷ [] }))
      × (mulai ≤ n)
      × (n ≤ mulai + length form.rows)
      × (sudah_ada ids (nama_akun prefix pad n) ≡ false)
      × ((j : ℕ) → mulai ≤ j → j < n → sudah_ada ids (nama_akun prefix pad j) ≡ true)
unfolding tambah_baris_instagram_manual
tambah_baris_instagram_manual_total form =
    let ids = map (λ row. trim row.account_id) form.rows in
    let pad = batasi_angka form.pad_digit 1 6 3 in
    let mulai = batasi_angka form.mulai_dari 1 9999 1 in
    let prefix = prefix_akun form in
    let fuel = suc (length form.rows) in
    let rows_ids : length ids ≡ length form.rows =
      length-map (λ (row : InstagramBulkAccountRow). trim row.account_id) form.rows in
    elim (Option-cases (nomor_bebas fuel ids prefix pad mulai)) [
      | inl e ↦
          let many =
            taken_le prefix pad fuel mulai ids (nomor_bebas-none prefix pad fuel mulai ids e) in
          absurd (omega (arith, many, rows_ids))
      | inr (n, e) ↦
          let (a, b, c, d) = nomor_bebas-some prefix pad fuel mulai ids n e in
          (n, rw (e, tambah_baris_instagram_manual), a, omega (arith, b), c, d)
    ]
