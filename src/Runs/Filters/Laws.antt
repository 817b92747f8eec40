-- ===== src/Runs/Filters/Laws.antt =====
-- What the actions on the page of the runs keep, and when a reset is possible.
use multi_job.Prelude.{
  ◌+◌, ◌-◌, ◌*◌, ◌≤◌, Bool, String, ◌==◌, eq_iff, [], ◌∷◌, ◌++◌, if◌then◌else◌, ◌≡◌, ◌⊎◌, arith,
}
use multi_job.Js.Text.{trim}
use multi_job.Js.Number.{show}
use multi_job.Api.Query.{Pairs, runs_query}
use multi_job.Runs.Filters.{
  SaringanRun, AksiRun, cari_run, pilih_status_run, isi_id_tugas, toggle_detail_run, sebelumnya_run,
  berikutnya_run, reset_run, langkah_run, permintaan_run,
}

-- The three filters that a request carries.
abbrev pub SameFilters : SaringanRun → SaringanRun → Type 0
SameFilters s s' =
    (trim s.kata_cari ≡ trim s'.kata_cari)
    × (s.status_filter ≡ s'.status_filter)
    × (trim s.id_tugas ≡ trim s'.id_tugas)

-- After an action on a page that is at least 1, the page is at least 1; it is 1, or else the filters
-- that a request carries are the same and the page has moved by one at most.
pub langkah_run-halaman :
    (ada menyegarkan : Bool) (s : SaringanRun) (a : AksiRun)
    → 1 ≤ s.halaman_aktif
    → let s' = langkah_run ada menyegarkan s a in
      (1 ≤ s'.halaman_aktif)
      × ((s'.halaman_aktif ≡ 1)
          ⊎ (SameFilters s s'
              × (s'.halaman_aktif ≤ s.halaman_aktif + 1)
              × (s.halaman_aktif ≤ s'.halaman_aktif + 1)))
unfolding langkah_run
langkah_run-halaman ada menyegarkan s (cari_run teks) h = ground (
  arith,
  eq_iff (trim s.kata_cari) (trim teks),
  eq_iff s.status_filter s.status_filter,
  eq_iff (trim s.id_tugas) (trim s.id_tugas),
)
langkah_run-halaman ada menyegarkan s (pilih_status_run status) h = ground (
  arith,
  eq_iff (trim s.kata_cari) (trim s.kata_cari),
  eq_iff s.status_filter status,
  eq_iff (trim s.id_tugas) (trim s.id_tugas),
)
langkah_run-halaman ada menyegarkan s (isi_id_tugas teks) h = ground (
  arith,
  eq_iff (trim s.kata_cari) (trim s.kata_cari),
  eq_iff s.status_filter s.status_filter,
  eq_iff (trim s.id_tugas) (trim teks),
)
langkah_run-halaman ada menyegarkan s (toggle_detail_run run_id) h = ground arith
langkah_run-halaman ada menyegarkan s sebelumnya_run h = ground arith
langkah_run-halaman ada menyegarkan s berikutnya_run h = ground arith
langkah_run-halaman ada menyegarkan s reset_run h = ground arith

abbrev pub named : String → String → Pairs
named key teks = if teks == "" then [] else (key, teks) ∷ []

-- The query string of a page: the job and the search if their trimmed texts are no blanks, 30 rows,
-- the status unless it is "all" or blank, and the offset of the pages before.
pub runs_query-permintaan_run :
    (s : SaringanRun)
    → runs_query (permintaan_run s)
      ≡ named "job_id" (trim s.id_tugas)
        ++ ("limit", "30") ∷ []
        ++ (if s.status_filter == "all" then [] else named "status" s.status_filter)
        ++ named "search" (trim s.kata_cari)
        ++ ("offset", show ((s.halaman_aktif - 1) * 30)) ∷ []
unfolding runs_query permintaan_run show
runs_query-permintaan_run s = ground arith
