-- ===== src/Runs/Examples.antt =====
-- Tests of the page of the runs, and its theorems at concrete inputs.
use multi_job.Prelude.{◌+◌, ◌*◌, ◌≤◌, String, List, [], ◌∷◌, none, some, length, ◌≡◌, refl, arith}
use multi_job.Js.Number.{JsNumber, nan, natural}
use multi_job.Runs.Stats.{
  Run, statistik_run, hitung_semua_run, hitung_run, round_or_zero, round_div,
}
use multi_job.Runs.Stats.Counts.{sampel_of}
use multi_job.Runs.Stats.Bounds.{success_rate-near, rata_durasi_ms-between}
use multi_job.Runs.Filters.{SaringanRun}

abbrev run : String → JsNumber → Run
run status durasi = record { status = status; duration_ms = some durasi }

abbrev runs : List Run
runs =
    run "success" (natural 900)
    ∷ run "failed" (natural 1201)
    ∷ run "success" (natural 0)
    ∷ run "queued" nan
    ∷ record { status = "running"; duration_ms = none }
    ∷ []

statistik_test :
    ((statistik_run runs).success_rate ≡ 67) × ((statistik_run runs).rata_durasi_ms ≡ 1051)
unfolding statistik_run hitung_semua_run hitung_run round_or_zero round_div
statistik_test = (refl, refl)

success_rate-near_example :
    let s = statistik_run runs in
    (s.success_rate ≤ 100)
    × (s.selesai ≡ 0 → s.success_rate ≡ 0)
    × (1 ≤ s.selesai
        → (2 * (s.success_rate * s.selesai) ≤ 2 * (s.success * 100) + s.selesai)
          × (2 * (s.success * 100) ≤ 2 * (s.success_rate * s.selesai) + s.selesai))
success_rate-near_example = success_rate-near runs

rata_durasi_ms-between_example :
    (sampel_of runs ≡ [] → (statistik_run runs).rata_durasi_ms ≡ 0)
    × (1 ≤ length (sampel_of runs)
        → (900 ≤ (statistik_run runs).rata_durasi_ms)
          × ((statistik_run runs).rata_durasi_ms ≤ 1201))
rata_durasi_ms-between_example =
    rata_durasi_ms-between 900 1201 runs
      ((omega arith, omega arith), ((omega arith, omega arith), tt))

abbrev second_page : SaringanRun
second_page = record {
  kata_cari = "";
  status_filter = "failed";
  id_tugas = " sync ";
  halaman_aktif = 2;
  run_detail_aktif = "r1";
}
