-- ===== src/Automation/Lanes/Summary.antt =====
-- The summary as a whole: one row for each lane that has a job, counted, and no job left out.
use multi_job.Prelude.{
  ℕ, ◌+◌, ◌≤◌, ◌<◌, take, not, Bool, true, false, ◌||◌, String, ◌==◌, eq_iff, eq_refl, List, [],
  ◌∷◌, ◌++◌, map, none, some, if◌then◌else◌, filter, some_of, count_of, All, length, ◌≡◌, refl, ◌∙◌,
  ap, arith, Bool-cases, inl, inr,
}
use multi_job.Automation.Request.{PressurePriority, critical, normal, low}
use multi_job.Automation.Lanes.{
  is_true, prioritas_valid, SkorPrioritas, prioritas_dominan, JobRow, flow_group_of, Agregat,
  agregat_kosong, tambah_job, Peta, punya, ubah, catat, agregasi, RingkasanJalur, ringkas,
  hitung_ringkasan_jalur,
}
use multi_job.Automation.Lanes.Totals.{
  is_prioritas, sum_limit, lookup, in_lane, hitung, lookup-agregasi_eq,
}
use multi_job.Automation.Lanes.Order.{
  IsOrdered, urutkan-IsOrdered, All-urutkan, count_of-urutkan, jumlah_job, jumlah_job-urutkan,
}

punya-ubah :
    (g key : String) (f : Agregat → Agregat) (m : Peta) → punya g (ubah key f m) ≡ punya g m
unfolding punya ubah
punya-ubah g key f [] = refl
punya-ubah g key f ((k, v) ∷ m) = ground (arith, punya-ubah g key f m)

punya-append :
    (g k : String) (a : Agregat) (m : Peta) → punya g (m ++ (k, a) ∷ []) ≡ (punya g m || k == g)
unfolding punya
punya-append g k a [] = ground arith
punya-append g k a ((j, v) ∷ m) = ground (arith, punya-append g k a m)

-- No two entries of the map have the same key.
abbrev HasDistinctKeys : Peta → Type 0
HasDistinctKeys [] = Unit
HasDistinctKeys ((k, v) ∷ m) = (punya k m ≡ false) × HasDistinctKeys m

ubah-HasDistinctKeys :
    (key : String) (f : Agregat → Agregat) (m : Peta)
    → HasDistinctKeys m
    → HasDistinctKeys (ubah key f m)
unfolding ubah
ubah-HasDistinctKeys key f [] h = tt
ubah-HasDistinctKeys key f ((k, v) ∷ m) (h, hs) = elim (Bool-cases (k == key)) [
  | inl e ↦ rw e (h, hs)
  | inr e ↦ rw (e, punya-ubah k key f m) (h, ubah-HasDistinctKeys key f m hs)
]

append-HasDistinctKeys :
    (key : String) (a : Agregat) (m : Peta)
    → punya key m ≡ false
    → HasDistinctKeys m
    → HasDistinctKeys (m ++ (key, a) ∷ [])
unfolding punya
append-HasDistinctKeys key a [] f h = (refl, tt)
append-HasDistinctKeys key a ((k, v) ∷ m) f (h, hs) = (
  ground (arith, punya-append k key a m, eq_iff key k, eq_iff k key),
  append-HasDistinctKeys key a m (ground arith) hs,
)

catat-HasDistinctKeys :
    (m : Peta) (row : JobRow) → HasDistinctKeys m → HasDistinctKeys (catat m row)
unfolding catat
catat-HasDistinctKeys m row h = elim (Bool-cases (punya (flow_group_of row) m)) [
  | inl e ↦ rw e (ubah-HasDistinctKeys _ _ m h)
  | inr e ↦ rw e (ubah-HasDistinctKeys _ _ _ (append-HasDistinctKeys _ agregat_kosong m e h))
]

agregasi-HasDistinctKeys :
    (m : Peta) (rows : List JobRow) → HasDistinctKeys m → HasDistinctKeys (agregasi m rows)
unfolding agregasi
agregasi-HasDistinctKeys m [] h = h
agregasi-HasDistinctKeys m (row ∷ rows) h =
    agregasi-HasDistinctKeys (catat m row) rows (catat-HasDistinctKeys m row h)

other_keys : (k : String) (m : Peta) → punya k m ≡ false → All (λ e. (k == e.0) ≡ false) m
unfolding punya
other_keys k [] h = tt
other_keys k ((j, v) ∷ m) h =
    (ground (arith, eq_iff j k, eq_iff k j), other_keys k m (ground arith))

found_in_tail :
    (k : String) (v : Agregat) (m es : Peta)
    → All (λ e. (k == e.0) ≡ false) es
    → All (λ e. lookup e.0 m ≡ some e.1) es
    → All (λ e. lookup e.0 ((k, v) ∷ m) ≡ some e.1) es
unfolding lookup
found_in_tail k v m [] h f = tt
found_in_tail k v m ((j, w) ∷ es) (h, hs) (f, fs) = (rw h f, found_in_tail k v m es hs fs)

entries_found : (m : Peta) → HasDistinctKeys m → All (λ e. lookup e.0 m ≡ some e.1) m
unfolding lookup
entries_found [] h = tt
entries_found ((k, v) ∷ m) (h, hs) =
    (rw (eq_refl k), found_in_tail k v m m (other_keys k m h) (entries_found m hs))

-- The dominant priority, by the numbers of critical, normal and low jobs: the most frequent one, and
-- on a tie the more urgent one.
pub IsDominant : (c n l : ℕ) → PressurePriority → Type 0
IsDominant c n l critical = (n ≤ c) × (l ≤ c)
IsDominant c n l normal = (c < n) × (l ≤ n)
IsDominant c n l low = (c < l) × (n < l)

prioritas_dominan-IsDominant :
    (s : SkorPrioritas) → IsDominant s.critical s.normal s.low (prioritas_dominan s)
unfolding prioritas_dominan IsDominant
prioritas_dominan-IsDominant s = ground arith

-- The row is what counting the jobs of its lane gives, and its lane has a job.
pub record IsCounted (jobs : List JobRow) (r : RingkasanJalur) : Type 0 where
  pub total_job : r.total_job ≡ length (filter (in_lane r.flow_group) jobs)
  pub aktif : r.aktif ≡ count_of (λ row. is_true row.enabled) (filter (in_lane r.flow_group) jobs)
  pub nonaktif :
      r.nonaktif ≡ count_of (λ row. not (is_true row.enabled)) (filter (in_lane r.flow_group) jobs)
  pub limit_run_total : r.limit_run_total ≡ sum_limit (filter (in_lane r.flow_group) jobs)
  pub dominan :
      IsDominant
        (count_of
          (λ row. is_prioritas critical (prioritas_valid row))
          (filter (in_lane r.flow_group) jobs))
        (count_of
          (λ row. is_prioritas normal (prioritas_valid row))
          (filter (in_lane r.flow_group) jobs))
        (count_of
          (λ row. is_prioritas low (prioritas_valid row))
          (filter (in_lane r.flow_group) jobs))
        r.prioritas_dominan
  pub daftar_job :
      r.daftar_job ≡ take 4 (map (λ row. row.job_id) (filter (in_lane r.flow_group) jobs))
  pub inhabited : some_of (in_lane r.flow_group) jobs ≡ true

count_of-all : (rows : List JobRow) → count_of (λ row. true) rows ≡ length rows
count_of-all [] = refl
count_of-all (row ∷ rows) = omega (arith, count_of-all rows)

entry-counted :
    (jobs : List JobRow) (k : String) (v : Agregat)
    → lookup k (agregasi [] jobs) ≡ some v
    → (v ≡ hitung (filter (in_lane k) jobs)) × (some_of (in_lane k) jobs ≡ true)
entry-counted jobs k v h = ground (arith, lookup-agregasi_eq k jobs)

entry-IsCounted :
    (jobs : List JobRow) (k : String) (v : Agregat)
    → lookup k (agregasi [] jobs) ≡ some v
    → IsCounted jobs (ringkas (k, v))
unfolding ringkas hitung
entry-IsCounted jobs k v h =
    let (e, some_job) = entry-counted jobs k v h in
    rw e (record {
      total_job = count_of-all (filter (in_lane k) jobs);
      aktif = refl;
      nonaktif = refl;
      limit_run_total = refl;
      dominan = prioritas_dominan-IsDominant (hitung (filter (in_lane k) jobs)).skor_prioritas;
      daftar_job = refl;
      inhabited = some_job;
    })

IsCounted-ringkas :
    (jobs : List JobRow) (m : Peta)
    → All (λ e. lookup e.0 (agregasi [] jobs) ≡ some e.1) m
    → All (IsCounted jobs) (map ringkas m)
IsCounted-ringkas jobs [] h = tt
IsCounted-ringkas jobs ((k, v) ∷ m) (h, hs) =
    (entry-IsCounted jobs k v h, IsCounted-ringkas jobs m hs)

-- Every row of the summary is what counting the jobs of its lane gives: how many there are, how many
-- are active and inactive, the sum of their limits, the priority that most of them have, the more
-- urgent one on a tie, and the names of the first four; and its lane has a job.
pub hitung_ringkasan_jalur-IsCounted :
    (jobs : List JobRow) → All (IsCounted jobs) (hitung_ringkasan_jalur jobs)
unfolding hitung_ringkasan_jalur
hitung_ringkasan_jalur-IsCounted jobs =
    All-urutkan (IsCounted jobs) (map ringkas (agregasi [] jobs)) (
      IsCounted-ringkas jobs (agregasi [] jobs)
        (entries_found (agregasi [] jobs) (agregasi-HasDistinctKeys [] jobs tt)))

abbrev pub is_lane : String → RingkasanJalur → Bool
is_lane g r = r.flow_group == g

count_of-ringkas :
    (g : String) (m : Peta)
    → HasDistinctKeys m
    → count_of (is_lane g) (map ringkas m) ≡ (if punya g m then 1 else 0)
unfolding ringkas punya
count_of-ringkas g [] h = refl
count_of-ringkas g ((k, v) ∷ m) (h, hs) = ground (arith, eq_iff k g, count_of-ringkas g m hs)

punya-lookup :
    (g : String) (m : Peta) → punya g m ≡ (elim (lookup g m) [ none ↦ false | some v ↦ true ])
unfolding punya lookup
punya-lookup g [] = refl
punya-lookup g ((k, v) ∷ m) = ground (arith, punya-lookup g m)

-- A lane that has a job has one row, and a lane that has none has no row. The rows are ordered: more
-- active jobs first, and among as many active jobs more jobs first.
pub hitung_ringkasan_jalur-one_row :
    (jobs : List JobRow)
    → ((g : String)
        → count_of (is_lane g) (hitung_ringkasan_jalur jobs)
          ≡ (if some_of (in_lane g) jobs then 1 else 0))
      × IsOrdered (hitung_ringkasan_jalur jobs)
unfolding hitung_ringkasan_jalur
hitung_ringkasan_jalur-one_row jobs =
    let m = agregasi [] jobs in
    (
      (λ g. ground (
        arith,
        count_of-urutkan (is_lane g) (map ringkas m),
        count_of-ringkas g m (agregasi-HasDistinctKeys [] jobs tt),
        punya-lookup g m,
        lookup-agregasi_eq g jobs,
      )),
      urutkan-IsOrdered (map ringkas m),
    )

-- The sum over a map.
jumlah : Peta → ℕ
jumlah [] = 0
jumlah ((k, v) ∷ m) = v.total_job + jumlah m

jumlah-ubah :
    (row : JobRow) (key : String) (m : Peta)
    → punya key m ≡ true
    → jumlah (ubah key (tambah_job row) m) ≡ jumlah m + 1
unfolding jumlah ubah punya tambah_job
jumlah-ubah row key [] h = cc
jumlah-ubah row key ((k, v) ∷ m) h = ground (arith, jumlah-ubah row key m)

jumlah-append : (key : String) (m : Peta) → jumlah (m ++ (key, agregat_kosong) ∷ []) ≡ jumlah m
unfolding jumlah
jumlah-append key [] = refl
jumlah-append key ((k, v) ∷ m) = omega (arith, jumlah-append key m)

jumlah-catat : (m : Peta) (row : JobRow) → jumlah (catat m row) ≡ jumlah m + 1
unfolding catat
jumlah-catat m row =
    let key = flow_group_of row in
    elim (Bool-cases (punya key m)) [
      | inl e ↦ rw e (jumlah-ubah row key m e)
      | inr e ↦
          let there = punya-append key key agregat_kosong m in
          rw e (
            jumlah-ubah row key _ (ground (arith, there, eq_iff key key))
            ∙ ap (λ n. n + 1) (jumlah-append key m))
    ]

jumlah-agregasi :
    (m : Peta) (rows : List JobRow) → jumlah (agregasi m rows) ≡ jumlah m + length rows
unfolding agregasi
jumlah-agregasi m [] = omega arith
jumlah-agregasi m (row ∷ rows) =
    omega (arith, jumlah-agregasi (catat m row) rows, jumlah-catat m row)

jumlah_job-ringkas : (m : Peta) → jumlah_job (map ringkas m) ≡ jumlah m
unfolding jumlah_job jumlah ringkas
jumlah_job-ringkas [] = refl
jumlah_job-ringkas ((k, v) ∷ m) = omega (arith, jumlah_job-ringkas m)

-- Every job is counted once: the totals of the rows add up to the number of the jobs.
pub hitung_ringkasan_jalur-sum :
    (jobs : List JobRow) → jumlah_job (hitung_ringkasan_jalur jobs) ≡ length jobs
unfolding hitung_ringkasan_jalur jumlah
hitung_ringkasan_jalur-sum jobs =
    jumlah_job-urutkan (map ringkas (agregasi [] jobs))
    ∙ jumlah_job-ringkas (agregasi [] jobs)
    ∙ jumlah-agregasi [] jobs
    ∙ omega arith
