-- ===== src/Jobs/Paging.antt =====
-- The filters and the pages of ui/src/app/jobs/page.tsx: the cells `kataCari`, `statusFilter` and
-- `halamanAktif`, the buttons, the effect that goes back to the first page, and the request.
pub mod Walk
use multi_job.Prelude.{
  ℕ, ◌+◌, ◌-◌, ◌*◌, max, Bool, true, false, ◌&&◌, ◌||◌, not, String, ◌==◌, List, Option, none, some,
  if◌then◌else◌, length, nat_eq, leb,
}
use multi_job.Js.Text.{trim, truthy}
use multi_job.Js.Number.{natural}
use multi_job.Api.Query.{JobsParams}

abbrev pub batas_per_halaman : ℕ
batas_per_halaman = 20

pub record Saringan : Type 0 where
  pub kata_cari : String
  pub status_filter : String
  pub halaman_aktif : ℕ

abbrev pub saringan_awal : Saringan
saringan_awal = record { kata_cari = ""; status_filter = "all"; halaman_aktif = 1 }

-- `useEffect(() => setHalamanAktif(1), [queryCari, statusFilter])` after a change of the cells.
efek_halaman : Saringan → Saringan → Saringan
efek_halaman lama baru =
    if trim lama.kata_cari == trim baru.kata_cari && lama.status_filter == baru.status_filter
    then baru
    else record baru { halaman_aktif = 1 }

pub data Aksi : Type 0 where
  cari pilih_status : String → Aksi
  sebelumnya berikutnya reset : Aksi

-- `adaHalamanBerikutnya`, of the rows that the page shows.
pub ada_halaman_berikutnya {ℓ} : {A : Type ℓ} → ℕ → List A → Bool
ada_halaman_berikutnya batas rows = nat_eq (length rows) batas

pub ada_filter_aktif : Saringan → Bool
ada_filter_aktif s = truthy (trim s.kata_cari) || not (s.status_filter == "all")

-- One action. `ada` is `adaHalamanBerikutnya`, and `menyegarkan` is `sedangMenyegarkan`; a button that
-- is disabled does nothing.
pub langkah : Bool → Bool → Saringan → Aksi → Saringan
unfolding efek_halaman ada_filter_aktif
langkah ada menyegarkan s (cari teks) = efek_halaman s (record s { kata_cari = teks })
langkah ada menyegarkan s (pilih_status status) =
    efek_halaman s (record s { status_filter = status })
langkah ada menyegarkan s sebelumnya =
    if leb s.halaman_aktif 1 || menyegarkan
    then s
    else record s { halaman_aktif = max 1 (s.halaman_aktif - 1) }
langkah ada menyegarkan s berikutnya =
    if not ada || menyegarkan then s else record s { halaman_aktif = s.halaman_aktif + 1 }
langkah ada menyegarkan s reset = if ada_filter_aktif s then saringan_awal else s

-- `offsetHalaman`, of a page that is at least 1.
abbrev pub offset_halaman : ℕ → ℕ → ℕ
offset_halaman batas halaman = (halaman - 1) * batas

abbrev pub filter_enabled : String → Option Bool
filter_enabled status =
    if status == "enabled" then some true else if status == "disabled" then some false else none

-- The parameters of `getJobs` in the page's query.
unfoldable pub permintaan : Saringan → JobsParams
permintaan s = record {
  search = if truthy (trim s.kata_cari) then some (trim s.kata_cari) else none;
  enabled = filter_enabled s.status_filter;
  limit = some (natural batas_per_halaman);
  offset = some (natural (offset_halaman batas_per_halaman s.halaman_aktif));
}
