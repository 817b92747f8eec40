-- ===== src/Runs/Filters.antt =====
-- The filters, the pages and the detail of ui/src/app/runs/page.tsx.
pub mod Laws
use multi_job.Prelude.{
  ℕ, ◌+◌, ◌-◌, max, Bool, true, false, ◌&&◌, ◌||◌, not, String, ◌==◌, List, [], ◌∷◌, Option, none,
  some, if◌then◌else◌, leb,
}
use multi_job.Js.Text.{trim, truthy}
use multi_job.Js.Number.{natural}
use multi_job.Api.Query.{RunsParams}
use multi_job.Jobs.Paging.{offset_halaman}

abbrev pub batas_run_per_halaman : ℕ
batas_run_per_halaman = 30

pub record SaringanRun : Type 0 where
  pub kata_cari : String
  pub status_filter : String
  pub id_tugas : String
  pub halaman_aktif : ℕ
  pub run_detail_aktif : String

abbrev pub saringan_run_awal : SaringanRun
saringan_run_awal = record {
  kata_cari = "";
  status_filter = "all";
  id_tugas = "";
  halaman_aktif = 1;
  run_detail_aktif = "";
}

-- `useEffect(() => setHalamanAktif(1), [queryCari, statusFilter, idTugasTrim])` after a change.
efek_halaman_run : SaringanRun → SaringanRun → SaringanRun
efek_halaman_run lama baru =
    if trim lama.kata_cari == trim baru.kata_cari
      && lama.status_filter == baru.status_filter
      && trim lama.id_tugas == trim baru.id_tugas
    then baru
    else record baru { halaman_aktif = 1 }

pub data AksiRun : Type 0 where
  cari_run pilih_status_run isi_id_tugas toggle_detail_run : String → AksiRun
  sebelumnya_run berikutnya_run reset_run : AksiRun

pub ada_filter_run_aktif : SaringanRun → Bool
ada_filter_run_aktif s =
    truthy (trim s.kata_cari) || not (s.status_filter == "all") || truthy (trim s.id_tugas)

-- One action. `ada` is `adaHalamanBerikutnya`, and `menyegarkan` is `sedangMenyegarkan`; a button that
-- is disabled does nothing.
pub langkah_run : Bool → Bool → SaringanRun → AksiRun → SaringanRun
unfolding efek_halaman_run ada_filter_run_aktif
langkah_run ada menyegarkan s (cari_run teks) = efek_halaman_run s (record s { kata_cari = teks })
langkah_run ada menyegarkan s (pilih_status_run status) =
    efek_halaman_run s (record s { status_filter = status })
langkah_run ada menyegarkan s (isi_id_tugas teks) =
    efek_halaman_run s (record s { id_tugas = teks })
langkah_run ada menyegarkan s (toggle_detail_run run_id) = record s {
  run_detail_aktif = if s.run_detail_aktif == run_id then "" else run_id;
}
langkah_run ada menyegarkan s sebelumnya_run =
    if leb s.halaman_aktif 1 || menyegarkan
    then s
    else record s { halaman_aktif = max 1 (s.halaman_aktif - 1) }
langkah_run ada menyegarkan s berikutnya_run =
    if not ada || menyegarkan then s else record s { halaman_aktif = s.halaman_aktif + 1 }
langkah_run ada menyegarkan s reset_run = if ada_filter_run_aktif s then saringan_run_awal else s

abbrev or_undefined : String → Option String
or_undefined teks = if truthy teks then some teks else none

-- The parameters of `getRuns` in the page's query.
unfoldable pub permintaan_run : SaringanRun → RunsParams
permintaan_run s = record {
  job_id = or_undefined (trim s.id_tugas);
  limit = some (natural batas_run_per_halaman);
  status = if s.status_filter == "all" then none else some s.status_filter;
  search = or_undefined (trim s.kata_cari);
  offset = some (natural (offset_halaman batas_run_per_halaman s.halaman_aktif));
}
