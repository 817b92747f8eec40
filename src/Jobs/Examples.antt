-- ===== src/Jobs/Examples.antt =====
-- Tests of the page of the jobs, and its theorems at concrete inputs.
use multi_job.Prelude.{
  ℕ, true, false, String, List, [], ◌∷◌, none, some, count_of, take, drop, ◌≡◌, refl, arith,
}
use multi_job.Js.Number.{natural, nan}
use multi_job.Js.Dict.{lookup}
use multi_job.Jobs.Paging.{Saringan}
use multi_job.Jobs.Paging.Walk.{jelajah, jelajah-all}
use multi_job.Jobs.Stats.{Tugas}
use multi_job.Jobs.Versions.{
  JobSpecVersion, PanelVersi, panel_awal, toggle_detail_spec_versi, Halaman, Langkah, tombol_panel,
  tombol_detail, jawaban, jalankan,
}
use multi_job.Jobs.Versions.Laws.{is_load}

abbrev five : List ℕ
five = 1 ∷ 2 ∷ 3 ∷ 4 ∷ 5 ∷ []

jelajah-all_example : jelajah 2 (λ limit offset. take limit (drop offset five)) 3 1 ≡ five
jelajah-all_example =
    jelajah-all 2 (λ limit offset. take limit (drop offset five)) five (λ limit offset. refl) 3
      (omega arith)

abbrev third_page : Saringan
third_page = record { kata_cari = " sync "; status_filter = "all"; halaman_aktif = 3 }

abbrev tasks : List Tugas
tasks =
    record { enabled = some true; interval_sec = some (natural 30); cron = some "0 * * * *" }
    ∷ record { enabled = none; interval_sec = some (natural 0); cron = some "0 * * * *" }
    ∷ record { enabled = some false; interval_sec = some nan; cron = some "" }
    ∷ []

abbrev version : String → JobSpecVersion
version name = record { version_id = name }

abbrev page : Halaman
page = record { panel = panel_awal; menunggu = [] }

-- The first request fails and is answered by no rows; a second would be answered by one.
abbrev openings : List Langkah
openings =
    tombol_panel "j"
    ∷ tombol_panel "j"
    ∷ jawaban 0 []
    ∷ tombol_panel "j"
    ∷ tombol_detail "j"
    ∷ jawaban 0 (version "v2" ∷ [])
    ∷ []

-- The flag names one job: with another job's request under way, the first one's are sent again.
two_jobs :
    count_of
      (is_load "j")
      (jalankan (tombol_panel "j" ∷ tombol_panel "k" ∷ tombol_panel "j" ∷ []) page).1
    ≡ 2
unfolding jalankan lookup
two_jobs = refl

abbrev opened_panel : PanelVersi
opened_panel = toggle_detail_spec_versi "j" "v1" panel_awal
