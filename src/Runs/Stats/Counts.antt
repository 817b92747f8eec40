-- ===== src/Runs/Stats/Counts.antt =====
-- The counters of the loop over the runs.
use multi_job.Prelude.{
  ℕ, ◌+◌, ◌≤◌, Bool, String, ◌==◌, eq_iff, List, [], ◌∷◌, none, some, if◌then◌else◌, length,
  count_of, All, ◌≡◌, ◌⊎◌, inl, inr, Bool-cases, refl, ◌∙◌, arith,
}
use multi_job.Runs.Stats.{
  Run, HitunganRun, hitungan_awal, sampel, satu, hitung_run, hitung_semua_run, statistik_run,
}

-- The durations that count, and their sum.
abbrev pub sampel_of : List Run → List ℕ
sampel_of [] = []
sampel_of (run ∷ runs) = elim (sampel run.duration_ms) [
  | none ↦ sampel_of runs
  | some n ↦ n ∷ sampel_of runs
]

abbrev pub sum : List ℕ → ℕ
sum [] = 0
sum (n ∷ ns) = n + sum ns

abbrev pub has_status : String → Run → Bool
has_status s run = run.status == s

hitung_run-plus :
    (h : HitunganRun) (run : Run) (runs : List Run) (q r s f : ℕ)
    → let h' = hitung_run h run in
      ◌≡◌ {A = HitunganRun}
        (record {
          queued = h'.queued + q;
          running = h'.running + r;
          success = h'.success + s;
          failed = h'.failed + f;
          total_durasi = h'.total_durasi + sum (sampel_of runs);
          total_durasi_sampel = h'.total_durasi_sampel + length (sampel_of runs);
        })
        (record {
          queued = h.queued + (satu (has_status "queued" run) + q);
          running = h.running + (satu (has_status "running" run) + r);
          success = h.success + (satu (has_status "success" run) + s);
          failed = h.failed + (satu (has_status "failed" run) + f);
          total_durasi = h.total_durasi + sum (sampel_of (run ∷ runs));
          total_durasi_sampel = h.total_durasi_sampel + length (sampel_of (run ∷ runs));
        })
unfolding hitung_run
hitung_run-plus h run runs q r s f = ground arith

pub hitung_semua_run-eq :
    (h : HitunganRun) (runs : List Run)
    → hitung_semua_run h runs ≡ record {
      queued = h.queued + count_of (has_status "queued") runs;
      running = h.running + count_of (has_status "running") runs;
      success = h.success + count_of (has_status "success") runs;
      failed = h.failed + count_of (has_status "failed") runs;
      total_durasi = h.total_durasi + sum (sampel_of runs);
      total_durasi_sampel = h.total_durasi_sampel + length (sampel_of runs);
    }
unfolding hitung_semua_run
hitung_semua_run-eq h [] = ground arith
hitung_semua_run-eq h (run ∷ runs) =
    hitung_semua_run-eq (hitung_run h run) runs ∙ hitung_run-plus h run runs _ _ _ _

abbrev states_of : String → ℕ
states_of s =
    (if s == "queued" then 1 else 0)
    + (if s == "running" then 1 else 0)
    + (if s == "success" then 1 else 0)
    + (if s == "failed" then 1 else 0)

states_of_le : (s : String) → states_of s ≤ 1
states_of_le s = elim (Bool-cases (s == "queued")) [
  | inl e ↦ rw ((eq_iff s "queued").0 e) (omega arith)
  | inr e₁ ↦ elim (Bool-cases (s == "running")) [
    | inl e ↦ rw ((eq_iff s "running").0 e) (omega arith)
    | inr e₂ ↦ elim (Bool-cases (s == "success")) [
      | inl e ↦ rw ((eq_iff s "success").0 e) (omega arith)
      | inr e₃ ↦ rw (e₁, e₂, e₃) (ground arith)
    ]
  ]
]

-- A run in one of the four states of the interface.
abbrev pub HasKnownStatus : Run → Type 0
HasKnownStatus run =
    (run.status ≡ "queued")
    ⊎ (run.status ≡ "running")
    ⊎ (run.status ≡ "success")
    ⊎ (run.status ≡ "failed")

states_of_eq : (run : Run) → HasKnownStatus run → states_of run.status ≡ 1
states_of_eq run (inl e) = rw e refl
states_of_eq run (inr (inl e)) = rw e refl
states_of_eq run (inr (inr (inl e))) = rw e refl
states_of_eq run (inr (inr (inr e))) = rw e refl

abbrev in_states : List Run → ℕ
in_states runs =
    count_of (has_status "queued") runs
    + count_of (has_status "running") runs
    + count_of (has_status "success") runs
    + count_of (has_status "failed") runs

in_states-cons :
    (run : Run) (runs : List Run) → in_states (run ∷ runs) ≡ states_of run.status + in_states runs
in_states-cons run runs = omega arith

counts_le : (runs : List Run) → in_states runs ≤ length runs
counts_le [] = omega arith
counts_le (run ∷ runs) =
    omega (arith, in_states-cons run runs, states_of_le run.status, counts_le runs)

counts_eq : (runs : List Run) → All HasKnownStatus runs → in_states runs ≡ length runs
counts_eq [] h = refl
counts_eq (run ∷ runs) (k, h) =
    omega (arith, in_states-cons run runs, states_of_eq run k, counts_eq runs h)

-- The four counters are the numbers of the runs in each state; their sum is the total if each run is
-- in one of these states, and else less than it or equal.
pub statistik_run-counts :
    (runs : List Run)
    → let s = statistik_run runs in
      (s.queued ≡ count_of (has_status "queued") runs)
      × (s.running ≡ count_of (has_status "running") runs)
      × (s.success ≡ count_of (has_status "success") runs)
      × (s.failed ≡ count_of (has_status "failed") runs)
      × (s.queued + s.running + s.selesai ≤ s.total)
      × (All HasKnownStatus runs → s.queued + s.running + s.selesai ≡ s.total)
      × (s.total ≡ length runs)
unfolding statistik_run
statistik_run-counts runs = rw (hitung_semua_run-eq hitungan_awal runs) (
  omega arith,
  omega arith,
  omega arith,
  omega arith,
  omega (arith, counts_le runs),
  (λ h. omega (arith, counts_eq runs h)),
  refl,
)
