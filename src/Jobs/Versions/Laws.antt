-- ===== src/Jobs/Versions/Laws.antt =====
-- How often the versions of a job are requested, and whose details are open.
use multi_job.Prelude.{
  ℕ, ◌+◌, ◌≤◌, Bool, true, false, String, ◌==◌, eq_iff, List, [], ◌∷◌, Option, none, some,
  if◌then◌else◌, count_of, count_of-append, nat_eq, ◌≡◌, ◌∙◌, inl, inr, refl, arith, Bool-cases,
  get_elem?, length,
}
use multi_job.Js.Dict.{lookup, lookup-put, lookup-without}
use multi_job.Jobs.Versions.{
  JobSpecVersion, PanelVersi, Effect, load_versions, toast_error, toggle_panel_versi,
  buka_detail_spec_versi_aktif, toggle_detail_spec_versi, detail_of, muat_versi_job, buka_pertama,
  muat_versi_job_selesai, buka_detail_spec_versi_aktif_selesai, Menunggu, panel_menunggu,
  detail_menunggu, dijawab, Langkah, tombol_panel, tombol_detail, tombol_versi, jawaban, Halaman,
  langkah_versi, jalankan, panel_dibuka, detail_dibuka, dijawab_di, ditekan,
}

abbrev pub is_load : String → Effect → Bool
is_load job_id (load_versions j) = j == job_id
is_load job_id _ = false

abbrev pub is_error : Effect → Bool
is_error (toast_error message) = true
is_error _ = false

abbrev pub has_rows : String → PanelVersi → ℕ
has_rows job_id p = elim (lookup job_id p.versi_per_job) [ none ↦ 0 | some rows ↦ 1 ]

pub has_rows_le : (j : String) (p : PanelVersi) → has_rows j p ≤ 1
has_rows_le j p = ground arith

pub dijawab-known :
    (j : String) (m : Menunggu) (rows : List JobSpecVersion) (p : PanelVersi)
    → (count_of (is_load j) (dijawab m rows p).1 ≡ 0)
      × (has_rows j p ≤ has_rows j (dijawab m rows p).0)
unfolding dijawab buka_detail_spec_versi_aktif_selesai muat_versi_job_selesai buka_pertama
dijawab-known j (panel_menunggu k) rows p =
    ground (arith, eq_iff k j, lookup-put j k rows p.versi_per_job)
dijawab-known j (detail_menunggu k) [] p =
    ground (arith, eq_iff k j, lookup-put j k [] p.versi_per_job)
dijawab-known j (detail_menunggu k) (r ∷ rows) p =
    ground (arith, eq_iff k j, lookup-put j k (r ∷ rows) p.versi_per_job)

pub buka_pertama-known :
    (j k : String) (rows : List JobSpecVersion) (p : PanelVersi)
    → (count_of (is_load j) (buka_pertama k rows p).1 ≡ 0)
      × ((buka_pertama k rows p).0.versi_per_job ≡ p.versi_per_job)
unfolding buka_pertama
buka_pertama-known j k [] p = (refl, refl)
buka_pertama-known j k (r ∷ rows) p = (refl, refl)

-- A press of a button: rows that are known stay, and of a job with known rows none are requested.
panel_dibuka-known :
    (j k : String) (o : Option (List JobSpecVersion)) (p : PanelVersi)
    → lookup k p.versi_per_job ≡ o
    → let (p', es) = panel_dibuka k o p in
      (count_of (is_load j) es + has_rows j p ≤ 1) × (has_rows j p ≤ has_rows j p')
unfolding panel_dibuka muat_versi_job
panel_dibuka-known j k none p e = ground (arith, e, eq_iff k j)
panel_dibuka-known j k (some rows) p e = (omega (arith, has_rows_le j p), omega arith)

detail_dibuka-known :
    (j k : String) (o : Option (List JobSpecVersion)) (p : PanelVersi)
    → lookup k p.versi_per_job ≡ o
    → let (p', es) = detail_dibuka k o p in
      (count_of (is_load j) es + has_rows j p ≤ 1) × (has_rows j p ≤ has_rows j p')
unfolding detail_dibuka muat_versi_job
detail_dibuka-known j k none p e = ground (arith, e, eq_iff k j)
detail_dibuka-known j k (some rows) p e =
    let (a, b) = buka_pertama-known j k rows p in ground (arith, a, b, has_rows_le j p)

toggle-known :
    (j k : String) (p : PanelVersi)
    → let (p', es) = toggle_panel_versi k p in
      (count_of (is_load j) es + has_rows j p ≤ 1) × (has_rows j p ≤ has_rows j p')
unfolding toggle_panel_versi
toggle-known j k p = elim (Bool-cases (p.job_panel_versi_aktif == k)) [
  | inl e ↦ rw e (omega (arith, has_rows_le j p), omega arith)
  | inr e ↦ rw e (panel_dibuka-known j k (lookup k p.versi_per_job) _ refl)
]

dijawab_di-known :
    (j : String) (n : ℕ) (rows : List JobSpecVersion) (o : Option Menunggu) (h : Halaman)
    → let (h', es) = dijawab_di n rows o h in
      (count_of (is_load j) es + has_rows j h.panel ≤ 1)
      × (has_rows j h.panel ≤ has_rows j h'.panel)
unfolding dijawab_di
dijawab_di-known j n rows none h = (omega (arith, has_rows_le j h.panel), omega arith)
dijawab_di-known j n rows (some m) h =
    let (a, b) = dijawab-known j m rows h.panel in (omega (arith, a, has_rows_le j h.panel), b)

ditekan-known :
    (j k : String) (m : Menunggu) (o : PanelVersi × List Effect) (h : Halaman)
    → (count_of (is_load j) o.1 + has_rows j h.panel ≤ 1) × (has_rows j h.panel ≤ has_rows j o.0)
    → let (h', es) = ditekan k m o h in
      (count_of (is_load j) es + has_rows j h.panel ≤ 1)
      × (has_rows j h.panel ≤ has_rows j h'.panel)
ditekan-known j k m (p, es) h known = elim (Bool-cases (h.panel.sedang_memuat_versi_job_id == k)) [
  | inl e ↦ rw e (omega (arith, has_rows_le j h.panel), omega arith)
  | inr e ↦ rw e known
]

langkah_versi-known :
    (j : String) (l : Langkah) (h : Halaman)
    → let (h', es) = langkah_versi l h in
      (count_of (is_load j) es + has_rows j h.panel ≤ 1)
      × (has_rows j h.panel ≤ has_rows j h'.panel)
unfolding langkah_versi toggle_detail_spec_versi buka_detail_spec_versi_aktif
langkah_versi-known j (tombol_panel k) h = ditekan-known j k _ _ h (toggle-known j k h.panel)
langkah_versi-known j (tombol_detail k) h =
    ditekan-known j k _ _ h (detail_dibuka-known j k (lookup k h.panel.versi_per_job) _ refl)
langkah_versi-known j (tombol_versi k v) h = ground arith
langkah_versi-known j (jawaban n rows) h = dijawab_di-known j n rows (get_elem? h.menunggu n) h

pub jalankan-known :
    (j : String) (ls : List Langkah) (h : Halaman)
    → has_rows j h.panel ≡ 1
    → count_of (is_load j) (jalankan ls h).1 ≡ 0
unfolding jalankan
jalankan-known j [] h known = refl
jalankan-known j (l ∷ ls) h known =
    let (h', es) = langkah_versi l h in
    let (a, b) = langkah_versi-known j l h in
    let stays : has_rows j h'.panel ≡ 1 = omega (arith, b, known, has_rows_le j h'.panel) in
    count_of-append (is_load j) es (jalankan ls h').1
    ∙ omega (arith, a, known, jalankan-known j ls h' stays)

-- The detail button of a version opens the version's detail in place of another of its job, closes it
-- if it is the one that is open, and changes no other job's.
pub detail_of-toggle :
    (j k version_id : String) (p : PanelVersi)
    → detail_of j (toggle_detail_spec_versi k version_id p)
      ≡ (if k == j then (if detail_of k p == version_id then "" else version_id) else detail_of j p)
unfolding toggle_detail_spec_versi
detail_of-toggle j k v p = ground (
  arith,
  eq_iff k j,
  eq_iff (detail_of k p) v,
  lookup-put j k v p.versi_detail_aktif_per_job,
  lookup-without j k p.versi_detail_aktif_per_job,
)

abbrev pub first_id : String → List JobSpecVersion → String
first_id other [] = other
first_id other (v ∷ vs) = v.version_id

buka_pertama-cases :
    (job_id : String) (rows : List JobSpecVersion) (p : PanelVersi)
    → let (p', es) = buka_pertama job_id rows p in
      (p'.job_panel_versi_aktif ≡ p.job_panel_versi_aktif)
      × (p'.versi_per_job ≡ p.versi_per_job)
      × (detail_of job_id p' ≡ first_id (detail_of job_id p) rows)
      × (count_of is_error es ≡ (if nat_eq (length rows) 0 then 1 else 0))
unfolding buka_pertama
buka_pertama-cases job_id [] p = (refl, refl, refl, refl)
buka_pertama-cases job_id (v ∷ vs) p = (
  refl,
  refl,
  ground (
    arith,
    eq_iff job_id job_id,
    lookup-put job_id job_id v.version_id p.versi_detail_aktif_per_job,
  ),
  ground arith,
)
