-- ===== src/Runs/Stats/Bounds.antt =====
-- The success rate and the average duration of the runs.
use multi_job.Prelude.{ℕ, ◌+◌, ◌*◌, ◌≤◌, List, [], ◌∷◌, length, All, ◌≡◌, inl, inr, ap, arith}
use multi_job.Runs.Stats.{Run, hitungan_awal, hitung_semua_run, round_or_zero, statistik_run}
use multi_job.Runs.Stats.Rounding.{
  round_div_near, round_div_between, round_or_zero_zero, round_or_zero_eq, zero_or_pos,
}
use multi_job.Runs.Stats.Counts.{hitung_semua_run-eq, sampel_of, sum}

percentage :
    (s f : ℕ)
    → let rate = round_or_zero (s * 100) (s + f) in
      (rate ≤ 100)
      × (s + f ≡ 0 → rate ≡ 0)
      × (1 ≤ s + f
          → (2 * (rate * (s + f)) ≤ 2 * (s * 100) + (s + f))
            × (2 * (s * 100) ≤ 2 * (rate * (s + f)) + (s + f)))
percentage s f = (
  elim (zero_or_pos (s + f)) [
    | inl e ↦ omega (arith, round_or_zero_zero (s * 100) (s + f) e)
    | inr h ↦ omega (
      arith,
      round_or_zero_eq (s * 100) (s + f) h,
      (round_div_between 0 100 (s * 100) (s + f) h (omega arith) (omega arith)).1,
    )
  ],
  round_or_zero_zero (s * 100) (s + f),
  (λ h. rw (round_or_zero_eq (s * 100) (s + f) h) (round_div_near (s * 100) (s + f) h)),
)

-- The success rate is a percentage: 100 at most, 0 without a finished run, and else off by half a
-- point at most from the share of the successes among the finished runs.
pub success_rate-near :
    (runs : List Run)
    → let s = statistik_run runs in
      (s.success_rate ≤ 100)
      × (s.selesai ≡ 0 → s.success_rate ≡ 0)
      × (1 ≤ s.selesai
          → (2 * (s.success_rate * s.selesai) ≤ 2 * (s.success * 100) + s.selesai)
            × (2 * (s.success * 100) ≤ 2 * (s.success_rate * s.selesai) + s.selesai))
unfolding statistik_run
success_rate-near runs =
    let h = hitung_semua_run hitungan_awal runs in percentage h.success h.failed

sum_between :
    (lo hi : ℕ) (ns : List ℕ)
    → All (λ n. (lo ≤ n) × (n ≤ hi)) ns
    → (lo * length ns ≤ sum ns) × (sum ns ≤ hi * length ns)
sum_between lo hi [] h = (omega arith, omega arith)
sum_between lo hi (n ∷ ns) ((l, u), h) =
    let (a, b) = sum_between lo hi ns h in (grind arith, grind arith)

-- The average duration lies between two bounds if every duration above 0 does and there is one;
-- without one it is 0.
pub rata_durasi_ms-between :
    (lo hi : ℕ) (runs : List Run)
    → All (λ n. (lo ≤ n) × (n ≤ hi)) (sampel_of runs)
    → (sampel_of runs ≡ [] → (statistik_run runs).rata_durasi_ms ≡ 0)
      × (1 ≤ length (sampel_of runs)
          → (lo ≤ (statistik_run runs).rata_durasi_ms) × ((statistik_run runs).rata_durasi_ms ≤ hi))
unfolding statistik_run
rata_durasi_ms-between lo hi runs h =
    let (l, u) = sum_between lo hi (sampel_of runs) h in
    let a = sum (sampel_of runs) in
    let b = length (sampel_of runs) in
    rw (hitung_semua_run-eq hitungan_awal runs) (
      (λ e. round_or_zero_zero (0 + a) (0 + b) (ap (λ ns. 0 + length ns) e)),
      (λ k.
          let k' : 1 ≤ 0 + b = omega (arith, k) in
          rw (round_or_zero_eq (0 + a) (0 + b) k')
            (round_div_between lo hi (0 + a) (0 + b) k' (grind arith) (grind arith))),
    )
