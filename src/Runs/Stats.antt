-- ===== src/Runs/Stats.antt =====
-- The statistics of ui/src/app/runs/page.tsx. `Math.round` of a quotient is computed without rounding
-- errors, which is what the floating point gives for the rows of a page, of which there are 30 at most.
pub mod Rounding
pub mod Counts
pub mod Bounds
use multi_job.Prelude.{
  ℕ, zero, suc, ◌+◌, ◌*◌, ◌/◌, Bool, true, false, String, ◌==◌, List, [], ◌∷◌, Option, none, some,
  if◌then◌else◌, length,
}
use multi_job.Js.Number.{JsNumber, nan, natural, negative}

-- Of a run the statistics read the status and `result?.duration_ms`.
pub record Run : Type 0 where
  pub status : String
  pub duration_ms : Option JsNumber

-- The six variables of the loop.
pub record HitunganRun : Type 0 where
  pub queued : ℕ
  pub running : ℕ
  pub success : ℕ
  pub failed : ℕ
  pub total_durasi : ℕ
  pub total_durasi_sampel : ℕ

abbrev pub hitungan_awal : HitunganRun
hitungan_awal = record {
  queued = 0;
  running = 0;
  success = 0;
  failed = 0;
  total_durasi = 0;
  total_durasi_sampel = 0;
}

-- The durations that count: finite numbers above 0.
abbrev pub sampel : Option JsNumber → Option ℕ
sampel (some (natural (suc n))) = some (suc n)
sampel _ = none

abbrev tambah_durasi : Option ℕ → HitunganRun → HitunganRun
tambah_durasi none h = h
tambah_durasi (some durasi) h = record h {
  total_durasi = h.total_durasi + durasi;
  total_durasi_sampel = h.total_durasi_sampel + 1;
}

abbrev pub satu : Bool → ℕ
satu b = if b then 1 else 0

-- One round of the loop.
unfoldable pub hitung_run : HitunganRun → Run → HitunganRun
hitung_run h run = tambah_durasi (sampel run.duration_ms) (record h {
  queued = h.queued + satu (run.status == "queued");
  running = h.running + satu (run.status == "running");
  success = h.success + satu (run.status == "success");
  failed = h.failed + satu (run.status == "failed");
})

unfoldable pub hitung_semua_run : HitunganRun → List Run → HitunganRun
hitung_semua_run h [] = h
hitung_semua_run h (run ∷ runs) = hitung_semua_run (hitung_run h run) runs

-- `Math.round(a / b)`: the half is rounded up.
unfoldable pub round_div : ℕ → ℕ → ℕ
round_div a b = (2 * a + b) / (2 * b)

-- `b > 0 ? Math.round(a / b) : 0`
unfoldable pub round_or_zero : ℕ → ℕ → ℕ
unfolding round_div
round_or_zero a zero = 0
round_or_zero a (suc b) = round_div a (suc b)

pub record StatistikRun : Type 0 where
  pub total : ℕ
  pub queued : ℕ
  pub running : ℕ
  pub success : ℕ
  pub failed : ℕ
  pub selesai : ℕ
  pub success_rate : ℕ
  pub rata_durasi_ms : ℕ
  pub ditampilkan : ℕ

unfoldable pub statistik_run : List Run → StatistikRun
unfolding hitung_semua_run hitung_run round_or_zero
statistik_run daftar_run =
    let h = hitung_semua_run hitungan_awal daftar_run in
    let total = length daftar_run in
    let selesai = h.success + h.failed in
    record {
      total = total;
      queued = h.queued;
      running = h.running;
      success = h.success;
      failed = h.failed;
      selesai = selesai;
      success_rate = round_or_zero (h.success * 100) selesai;
      rata_durasi_ms = round_or_zero h.total_durasi h.total_durasi_sampel;
      ditampilkan = total;
    }
