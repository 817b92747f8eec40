-- ===== src/Jobs/Versions/Single.antt =====
-- How often the versions of a job are requested while only its buttons are pressed, on
-- ui/src/app/jobs/page.tsx.
use multi_job.Prelude.{ℕ, ◌+◌, String, List, [], ◌∷◌, none, count_of, ◌≡◌, length}
use multi_job.Js.Dict.{lookup}
use multi_job.Jobs.Versions.{
  PanelVersi, Effect, Menunggu, panel_menunggu, detail_menunggu, Langkah, tombol_panel,
  tombol_detail, Halaman, tunggu,
}
use multi_job.Jobs.Versions.Laws.{is_load, has_rows}

-- The step is no press of another job's opening buttons.
abbrev pub IsOnly : String → Langkah → Type 0
IsOnly j (tombol_panel k) = k ≡ j
IsOnly j (tombol_detail k) = k ≡ j
IsOnly j _ = Unit

abbrev job_of : Menunggu → String
job_of (panel_menunggu k) = k
job_of (detail_menunggu k) = k

-- Nothing is waited for, or the rows of the job, which the flag names and which are not known.
abbrev IsCalm : String → PanelVersi → List Menunggu → Type 0
IsCalm j p [] = Unit
IsCalm j p (m ∷ []) =
    (job_of m ≡ j) × (p.sedang_memuat_versi_job_id ≡ j) × (lookup j p.versi_per_job ≡ none)
IsCalm j p (m ∷ n ∷ ms) = ⊥

-- The requests of a job that are under way or answered.
abbrev terpakai : String → PanelVersi → List Menunggu → ℕ
terpakai j p ms = length ms + has_rows j p

abbrev Kept : String → PanelVersi → List Menunggu → Halaman × List Effect → Type 0
Kept j p ms (h, es) =
    IsCalm j h.panel h.menunggu
    × (count_of (is_load j) es + terpakai j p ms ≡ terpakai j h.panel h.menunggu)

-- A press, for what is waited for and the result of the handler.
abbrev setelah_tekan : Menunggu → List Menunggu → PanelVersi × List Effect → Halaman × List Effect
setelah_tekan m ms (p, es) = (record { panel = p; menunggu = tunggu m es ms }, es)
