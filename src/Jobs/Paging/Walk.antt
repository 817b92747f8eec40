-- ===== src/Jobs/Paging/Walk.antt =====
-- The pages in a row show every row once; and the request of a page.
use multi_job.Prelude.{
  ℕ, zero, suc, ◌+◌, ◌-◌, ◌*◌, ◌≤◌, ◌<◌, Bool, ◌==◌, eq_iff, List, [], ◌∷◌, ◌++◌, if◌then◌else◌,
  length, take, drop, length-take, take-append-drop, drop-drop, take-all, drop-all, ◌≡◌, ◌≢◌, ◌⊎◌,
  refl, sym, ◌∙◌, ap, arith, Bool-cases, inl, inr, nat_eq,
}
use multi_job.Js.Text.{trim}
use multi_job.Js.Number.{show}
use multi_job.Api.Query.{jobs_query, append_flag}
use multi_job.Jobs.Paging.{
  Saringan, Aksi, cari, pilih_status, sebelumnya, berikutnya, reset, langkah,
  ada_halaman_berikutnya, offset_halaman, permintaan, filter_enabled,
}

module _ {ℓ} {A : Type ℓ} (batas : ℕ) (serve : ℕ → ℕ → List A) where
  -- The rows that are shown from a page on, going to the next page while there is one. The fuel bounds
  -- the pages.
  pub jelajah : ℕ → ℕ → List A
  jelajah zero halaman = []
  jelajah (suc f) halaman =
      let rows = serve batas (offset_halaman batas halaman) in
      let later = rows ++ jelajah f (halaman + 1) in
      if ada_halaman_berikutnya batas rows then later else rows

  jelajah-eq :
      (xs : List A)
      → ((limit offset : ℕ) → serve limit offset ≡ take limit (drop offset xs))
      → (f p : ℕ) → length xs < (p + f) * batas
      → jelajah f (p + 1) ≡ drop (p * batas) xs
  unfolding jelajah ada_halaman_berikutnya
  jelajah-eq xs serves zero p h = sym (drop-all (p * batas) xs (grind arith))
  jelajah-eq xs serves (suc f) p h =
      let ys = drop (p * batas) xs in
      let back : p + 1 - 1 ≡ p = omega arith in
      let rows : serve batas ((p + 1 - 1) * batas) ≡ take batas ys =
        serves batas ((p + 1 - 1) * batas)
        ∙ ap (λ (q : ℕ). take batas (drop (q * batas) xs)) back in
      let far : length xs < (p + 1 + f) * batas = grind arith in
      let later : jelajah f (p + 1 + 1) ≡ drop batas ys =
        jelajah-eq xs serves f (p + 1) far
        ∙ ap (λ (n : ℕ). drop n xs) (grind arith)
        ∙ sym (drop-drop batas (p * batas) xs) in
      elim (Bool-cases (nat_eq (length (take batas ys)) batas)) [
        | inl full ↦ rw (rows, full, later) (take-append-drop batas ys)
        | inr part ↦ rw (rows, part) (take-all batas ys (ground (arith, length-take batas ys)))
      ]

  -- From the first page on, going on while there is a next page, every row of the list is shown once
  -- and in its order, if the server gives the part of a fixed list that is asked for, and a page has
  -- room. One round for each page and one more are enough.
  pub jelajah-all :
      (xs : List A)
      → ((limit offset : ℕ) → serve limit offset ≡ take limit (drop offset xs))
      → (f : ℕ) → length xs < f * batas
      → jelajah f 1 ≡ xs
  jelajah-all xs serves f h =
      let start : 0 * batas ≡ 0 = omega arith in
      jelajah-eq xs serves f 0 (omega (arith, h)) ∙ ap (λ (n : ℕ). drop n xs) start

-- The page is at least 1 whatever is done.
pub langkah-page :
    (ada menyegarkan : Bool) (s : Saringan) (a : Aksi)
    → 1 ≤ s.halaman_aktif
    → 1 ≤ (langkah ada menyegarkan s a).halaman_aktif
unfolding langkah
langkah-page ada menyegarkan s (cari teks) h = ground arith
langkah-page ada menyegarkan s (pilih_status status) h = ground arith
langkah-page ada menyegarkan s sebelumnya h = ground arith
langkah-page ada menyegarkan s berikutnya h = ground arith
langkah-page ada menyegarkan s reset h = ground arith

-- A change of the trimmed search or of the status goes back to the first page, and no other page is
-- reached but the one before and the one behind.
pub langkah-halaman :
    (ada menyegarkan : Bool) (s : Saringan) (a : Aksi)
    → 1 ≤ s.halaman_aktif
    → let s' = langkah ada menyegarkan s a in
      ((trim s.kata_cari ≢ trim s'.kata_cari) ⊎ (s.status_filter ≢ s'.status_filter)
        → s'.halaman_aktif ≡ 1)
      × ((s'.halaman_aktif ≡ 1)
          ⊎ (s'.halaman_aktif ≤ s.halaman_aktif + 1) × (s.halaman_aktif ≤ s'.halaman_aktif + 1))
unfolding langkah
langkah-halaman ada menyegarkan s (cari teks) h =
    ground (arith, eq_iff (trim s.kata_cari) (trim teks), eq_iff s.status_filter s.status_filter)
langkah-halaman ada menyegarkan s (pilih_status status) h =
    ground (arith, eq_iff (trim s.kata_cari) (trim s.kata_cari), eq_iff s.status_filter status)
langkah-halaman ada menyegarkan s sebelumnya h = ground arith
langkah-halaman ada menyegarkan s berikutnya h = ground arith
langkah-halaman ada menyegarkan s reset h = ground arith

-- The request of a page asks for 20 rows behind those of the pages before it, whatever the filters
-- are; it names a search exactly if the trimmed text is no blank, and a status exactly if one of the
-- two is chosen.
pub jobs_query-permintaan :
    (s : Saringan)
    → jobs_query (permintaan s)
      ≡ (if trim s.kata_cari == "" then [] else ("search", trim s.kata_cari) ∷ [])
        ++ append_flag "enabled" (filter_enabled s.status_filter)
        ++ ("limit", "20") ∷ []
        ++ ("offset", show ((s.halaman_aktif - 1) * 20)) ∷ []
unfolding jobs_query permintaan
jobs_query-permintaan s = elim (Bool-cases (trim s.kata_cari == "")) [
  | inl e ↦ rw e (unfold show in refl)
  | inr e ↦ rw (e, e) (unfold show in refl)
]
