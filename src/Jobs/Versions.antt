-- ===== src/Jobs/Versions.antt =====
-- The versions of a job on ui/src/app/jobs/page.tsx: the panel, the rows that have been loaded, the
-- version whose detail is open, and the rollback. A handler that waits for the server is two steps or
-- more: what it does up to the request, and what it does with the answer. Between the two any other
-- step may come.
pub mod Laws
pub mod Single
use multi_job.Prelude.{
  ℕ, zero, suc, get_elem?, ◌+◌, Bool, true, false, String, ◌==◌, ◌⧺◌, List, [], ◌∷◌, ◌++◌, Option,
  none, some, if◌then◌else◌, length,
}
use multi_job.Js.Dict.{Dict, lookup, put, without}

-- Of a version the page's operations read the name.
pub record JobSpecVersion : Type 0 where
  pub version_id : String

pub record PanelVersi : Type 0 where
  pub job_panel_versi_aktif : String
  pub versi_per_job : Dict (List JobSpecVersion)
  pub versi_detail_aktif_per_job : Dict String
  pub sedang_memuat_versi_job_id : String
  pub sedang_rollback_version_id : String

abbrev pub panel_awal : PanelVersi
panel_awal = record {
  job_panel_versi_aktif = "";
  versi_per_job = [];
  versi_detail_aktif_per_job = [];
  sedang_memuat_versi_job_id = "";
  sedang_rollback_version_id = "";
}

-- `totalVersiTermuat`
pub total_versi_termuat : Dict (List JobSpecVersion) → ℕ
total_versi_termuat [] = 0
total_versi_termuat ((job_id, rows) ∷ m) = length rows + total_versi_termuat m

-- What the outside sees of an operation: the jobs whose versions are requested, the rollbacks that are
-- requested, the toasts, and the reloads of the list.
pub data Effect : Type 0 where
  load_versions : String → Effect
  request_rollback : String → String → Effect
  toast_success toast_error : String → Effect
  refetch : Effect

-- `muatVersiJob` up to its request
pub muat_versi_job : String → PanelVersi → PanelVersi × List Effect
muat_versi_job job_id p =
    (record p { sedang_memuat_versi_job_id = job_id }, load_versions job_id ∷ [])

-- `muatVersiJob` from the answer on; `getJobVersions` gives no rows if its request fails. The loading
-- flag is reset whichever job it names.
pub muat_versi_job_selesai : String → List JobSpecVersion → PanelVersi → PanelVersi
muat_versi_job_selesai job_id rows p = record p {
  versi_per_job = put job_id rows p.versi_per_job;
  sedang_memuat_versi_job_id = "";
}

-- `togglePanelVersi` from its second test on, for the rows that are known
pub panel_dibuka : String → Option (List JobSpecVersion) → PanelVersi → PanelVersi × List Effect
unfolding muat_versi_job
panel_dibuka job_id none p = muat_versi_job job_id p
panel_dibuka job_id (some known) p = (p, [])

-- `togglePanelVersi`, behind whose request nothing but the end of `muatVersiJob` follows
pub toggle_panel_versi : String → PanelVersi → PanelVersi × List Effect
unfolding panel_dibuka
toggle_panel_versi job_id p =
    if p.job_panel_versi_aktif == job_id
    then (record p { job_panel_versi_aktif = "" }, [])
    else panel_dibuka job_id (lookup job_id p.versi_per_job)
        (record p { job_panel_versi_aktif = job_id })

-- `bukaDetailSpecVersiAktif` from the rows on
pub buka_pertama : String → List JobSpecVersion → PanelVersi → PanelVersi × List Effect
buka_pertama job_id [] p = (p, toast_error ("Versi job '" ⧺ job_id ⧺ "' belum tersedia.") ∷ [])
buka_pertama job_id (versi ∷ rows) p = (
  record p {
    versi_detail_aktif_per_job = put job_id versi.version_id p.versi_detail_aktif_per_job;
  },
  [],
)

-- `bukaDetailSpecVersiAktif` behind its first line, for the rows that are known
pub detail_dibuka : String → Option (List JobSpecVersion) → PanelVersi → PanelVersi × List Effect
unfolding muat_versi_job buka_pertama
detail_dibuka job_id none p = muat_versi_job job_id p
detail_dibuka job_id (some known) p = buka_pertama job_id known p

-- `bukaDetailSpecVersiAktif` up to its request, or to its end if the rows are known
pub buka_detail_spec_versi_aktif : String → PanelVersi → PanelVersi × List Effect
unfolding detail_dibuka
buka_detail_spec_versi_aktif job_id p =
    detail_dibuka job_id (lookup job_id p.versi_per_job)
      (record p { job_panel_versi_aktif = job_id })

-- `bukaDetailSpecVersiAktif` from the answer on
pub buka_detail_spec_versi_aktif_selesai :
    String → List JobSpecVersion → PanelVersi → PanelVersi × List Effect
unfolding muat_versi_job_selesai buka_pertama
buka_detail_spec_versi_aktif_selesai job_id rows p =
    buka_pertama job_id rows (muat_versi_job_selesai job_id rows p)

abbrev pub detail_of : String → PanelVersi → String
detail_of job_id p = elim (lookup job_id p.versi_detail_aktif_per_job) [ none ↦ "" | some v ↦ v ]

-- `toggleDetailSpecVersi`
pub toggle_detail_spec_versi : String → String → PanelVersi → PanelVersi
toggle_detail_spec_versi job_id version_id p =
    if detail_of job_id p == version_id
    then record p { versi_detail_aktif_per_job = without job_id p.versi_detail_aktif_per_job }
    else record p {
      versi_detail_aktif_per_job = put job_id version_id p.versi_detail_aktif_per_job;
    }

-- `rollbackVersiJob` up to its request, for the answer of `confirm`
pub rollback_versi_job : String → String → Bool → PanelVersi → PanelVersi × List Effect
rollback_versi_job job_id version_id false p = (p, [])
rollback_versi_job job_id version_id true p =
    (record p { sedang_rollback_version_id = version_id }, request_rollback job_id version_id ∷ [])

-- `rollbackVersiJob` from the answer on, for whether it is a result: the list and the versions are
-- loaded again. The end of `muatVersiJob` follows as for the others.
pub rollback_versi_job_dijawab : String → String → Bool → PanelVersi → PanelVersi × List Effect
unfolding muat_versi_job
rollback_versi_job_dijawab job_id version_id false p =
    (record p { sedang_rollback_version_id = "" }, [])
rollback_versi_job_dijawab job_id version_id true p =
    let (p', loads) = muat_versi_job job_id p in
    (
      p',
      toast_success ("Job '" ⧺ job_id ⧺ "' berhasil rollback ke versi " ⧺ version_id ⧺ ".")
          ∷ refetch
          ∷ loads,
    )

-- `rollbackVersiJob` when both have been loaded
pub rollback_versi_job_selesai : PanelVersi → PanelVersi
rollback_versi_job_selesai p = record p { sedang_rollback_version_id = "" }

-- A request for versions that has not been answered, by the handler that waits for it.
pub data Menunggu : Type 0 where
  panel_menunggu detail_menunggu : String → Menunggu

-- The answer to a request.
pub dijawab : Menunggu → List JobSpecVersion → PanelVersi → PanelVersi × List Effect
unfolding buka_detail_spec_versi_aktif_selesai muat_versi_job_selesai
dijawab (panel_menunggu job_id) rows p = (muat_versi_job_selesai job_id rows p, [])
dijawab (detail_menunggu job_id) rows p = buka_detail_spec_versi_aktif_selesai job_id rows p

-- What may happen next: the buttons, and the answer to one of the requests, in any order.
pub data Langkah : Type 0 where
  tombol_panel tombol_detail : String → Langkah
  tombol_versi : String → String → Langkah
  jawaban : ℕ → List JobSpecVersion → Langkah

pub record Halaman : Type 0 where
  pub panel : PanelVersi
  pub menunggu : List Menunggu

abbrev pub tunggu : Menunggu → List Effect → List Menunggu → List Menunggu
tunggu m (load_versions job_id ∷ es) ms = ms ++ m ∷ []
tunggu m _ ms = ms

pub tanpa : ℕ → List Menunggu → List Menunggu
tanpa n [] = []
tanpa zero (m ∷ ms) = ms
tanpa (suc n) (m ∷ ms) = m ∷ tanpa n ms

-- The answer to the request at a place, if there is one.
pub dijawab_di : ℕ → List JobSpecVersion → Option Menunggu → Halaman → Halaman × List Effect
unfolding dijawab tanpa
dijawab_di n rows none h = (h, [])
dijawab_di n rows (some m) h =
    let (p, es) = dijawab m rows h.panel in
    (record { panel = p; menunggu = tanpa n h.menunggu }, es)

-- A press of a button of a job, for the handler that waits and what the handler does.
abbrev pub ditekan : String → Menunggu → PanelVersi × List Effect → Halaman → Halaman × List Effect
ditekan job_id m (p, es) h =
    if h.panel.sedang_memuat_versi_job_id == job_id
    then (h, [])
    else (record { panel = p; menunggu = tunggu m es h.menunggu }, es)

-- One step. The two buttons of a job are disabled while the flag names it.
pub langkah_versi : Langkah → Halaman → Halaman × List Effect
unfolding toggle_panel_versi buka_detail_spec_versi_aktif toggle_detail_spec_versi dijawab_di
langkah_versi (tombol_panel job_id) h =
    ditekan job_id (panel_menunggu job_id) (toggle_panel_versi job_id h.panel) h
langkah_versi (tombol_detail job_id) h =
    ditekan job_id (detail_menunggu job_id) (buka_detail_spec_versi_aktif job_id h.panel) h
langkah_versi (tombol_versi job_id version_id) h =
    (record h { panel = toggle_detail_spec_versi job_id version_id h.panel }, [])
langkah_versi (jawaban n rows) h = dijawab_di n rows (get_elem? h.menunggu n) h

unfoldable pub jalankan : List Langkah → Halaman → Halaman × List Effect
unfolding langkah_versi
jalankan [] h = (h, [])
jalankan (l ∷ ls) h =
    let (h', es) = langkah_versi l h in let (h'', es') = jalankan ls h' in (h'', es ++ es')
