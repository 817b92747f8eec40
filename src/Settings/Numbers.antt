-- ===== src/Settings/Numbers.antt =====
-- `batasiDetikTunggu`, `batasiAngka` and `bangunCronHarianDenganOffset` of
-- ui/src/app/settings/page.tsx. A number that is not finite is `nan`. The schedule is built of numbers
-- that `batasiAngka` has bounded, so that its hours and minutes are natural numbers.
pub mod Schedule
use multi_job.Prelude.{ℕ, ◌+◌, ◌*◌, ◌/◌, ◌%◌, ◌≤◌, min, max, String, ◌⧺◌, ◌≡◌, refl, arith}
use multi_job.Js.Number.{JsNumber, nan, natural, negative, show}

unfoldable pub batasi_detik_tunggu : JsNumber → ℕ
batasi_detik_tunggu nan = 0
batasi_detik_tunggu (natural n) = max 0 (min 30 n)
batasi_detik_tunggu (negative n) = 0

-- `minimum` is a natural number at every call, so that a negative number becomes it.
unfoldable pub batasi_angka : JsNumber → ℕ → ℕ → ℕ → ℕ
batasi_angka nan minimum maksimum fallback = fallback
batasi_angka (natural n) minimum maksimum fallback = max minimum (min maksimum n)
batasi_angka (negative n) minimum maksimum fallback = minimum

pub batasi_angka_bounds :
    (x : JsNumber) (lo hi fallback : ℕ)
    → lo ≤ fallback
    → fallback ≤ hi
    → (lo ≤ batasi_angka x lo hi fallback) × (batasi_angka x lo hi fallback ≤ hi)
unfolding batasi_angka
batasi_angka_bounds nan lo hi fallback h k = (h, k)
batasi_angka_bounds (natural n) lo hi fallback h k = (omega arith, omega arith)
batasi_angka_bounds (negative n) lo hi fallback h k = (omega arith, omega arith)

-- `menitFinal` and `jamFinal`.
pub record WaktuHarian : Type 0 where
  pub menit : ℕ
  pub jam : ℕ

unfoldable pub waktu_dengan_offset : ℕ → ℕ → ℕ → WaktuHarian
waktu_dengan_offset jam_awal menit_awal offset_menit =
    let total_menit = menit_awal + offset_menit in
    let extra_jam = total_menit / 60 in
    record { menit = (total_menit % 60 + 60) % 60; jam = ((jam_awal + extra_jam) % 24 + 24) % 24 }

-- `${menit} ${jam} * * *`
abbrev pub cron_harian : WaktuHarian → String
cron_harian w = show w.menit ⧺ " " ⧺ show w.jam ⧺ " * * *"

unfoldable pub bangun_cron_harian_dengan_offset : ℕ → ℕ → ℕ → String
unfolding waktu_dengan_offset
bangun_cron_harian_dengan_offset jam_awal menit_awal offset_menit =
    cron_harian (waktu_dengan_offset jam_awal menit_awal offset_menit)
