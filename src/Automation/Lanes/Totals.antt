-- ===== src/Automation/Lanes/Totals.antt =====
-- The aggregate of a lane, by counting: what the map holds under a lane's name after the loop.
use multi_job.Prelude.{
  ℕ, ◌+◌, Bool, true, false, not, String, ◌==◌, eq_iff, List, [], ◌∷◌, ◌++◌, map, Option, none,
  some, if◌then◌else◌, filter, count_of, some_of, ◌≡◌, refl, ◌∙◌, ap, arith, Bool-cases, inl, inr,
  append-nil, append_assoc,
}
use multi_job.Automation.Request.{PressurePriority, critical, normal, low}
use multi_job.Automation.Lanes.{
  JobRow, is_true, flow_group_of, prioritas_valid, limit_run, Agregat, agregat_kosong, tambah_job,
  Peta, punya, ubah, catat, agregasi,
}

unfoldable pub lookup : String → Peta → Option Agregat
lookup key [] = none
lookup key ((k, v) ∷ m) = if k == key then some v else lookup key m

abbrev pub in_lane : String → JobRow → Bool
in_lane g row = flow_group_of row == g

-- What one row does to the aggregate of lane `g`.
abbrev or_empty : Option Agregat → Agregat
or_empty none = agregat_kosong
or_empty (some a) = a

catat_jalur : String → Option Agregat → JobRow → Option Agregat
catat_jalur g o row = if in_lane g row then some (tambah_job row (or_empty o)) else o

lookup-ubah :
    (g key : String) (f : Agregat → Agregat) (m : Peta)
    → lookup g (ubah key f m)
      ≡ (if key == g then (elim (lookup g m) [ none ↦ none | some a ↦ some (f a) ]) else lookup g m)
unfolding lookup ubah
lookup-ubah g key f [] = ground arith
lookup-ubah g key f ((k, v) ∷ m) =
    ground (arith, eq_iff k key, eq_iff k g, eq_iff key g, lookup-ubah g key f m)

punya-lookup :
    (key : String) (m : Peta)
    → (if punya key m then some (or_empty (lookup key m)) else none) ≡ lookup key m
unfolding punya lookup
punya-lookup key [] = refl
punya-lookup key ((k, v) ∷ m) = ground (arith, punya-lookup key m)

lookup-append :
    (g k : String) (a : Agregat) (m : Peta)
    → lookup g (m ++ (k, a) ∷ [])
      ≡ (elim (lookup g m) [ none ↦ (if k == g then some a else none) | some v ↦ some v ])
unfolding lookup
lookup-append g k a [] = refl
lookup-append g k a ((j, v) ∷ m) = ground (arith, lookup-append g k a m)

lookup-catat :
    (g : String) (m : Peta) (row : JobRow) → lookup g (catat m row) ≡ catat_jalur g (lookup g m) row
unfolding catat catat_jalur
lookup-catat g m row =
    let key = flow_group_of row in
    elim (Bool-cases (punya key m)) [
      | inl h ↦ rw h (rw lookup-ubah (ground (arith, eq_iff key g, punya-lookup key m)))
      | inr h ↦
          rw h (rw (lookup-ubah, lookup-append) (ground (arith, eq_iff key g, punya-lookup key m)))
    ]

-- The rounds of the loop, as lane `g` sees them.
jalur : String → Option Agregat → List JobRow → Option Agregat
jalur g o [] = o
jalur g o (row ∷ rows) = jalur g (catat_jalur g o row) rows

lookup-agregasi :
    (g : String) (m : Peta) (rows : List JobRow)
    → lookup g (agregasi m rows) ≡ jalur g (lookup g m) rows
unfolding agregasi jalur
lookup-agregasi g m [] = refl
lookup-agregasi g m (row ∷ rows) =
    lookup-agregasi g (catat m row) rows ∙ ap (λ o. jalur g o rows) (lookup-catat g m row)

pub is_prioritas : PressurePriority → PressurePriority → Bool
is_prioritas critical critical = true
is_prioritas normal normal = true
is_prioritas low low = true
is_prioritas _ _ = false

pub sum_limit : List JobRow → ℕ
sum_limit [] = 0
sum_limit (row ∷ rows) = limit_run row + sum_limit rows

-- The aggregate of the rows of one lane, by counting.
unfoldable pub hitung : List JobRow → Agregat
hitung rows = record {
  total_job = count_of (λ row. true) rows;
  aktif = count_of (λ row. is_true row.enabled) rows;
  nonaktif = count_of (λ row. not (is_true row.enabled)) rows;
  limit_run_total = sum_limit rows;
  skor_prioritas = record {
    critical = count_of (λ row. is_prioritas critical (prioritas_valid row)) rows;
    normal = count_of (λ row. is_prioritas normal (prioritas_valid row)) rows;
    low = count_of (λ row. is_prioritas low (prioritas_valid row)) rows;
  };
  daftar_job = map (λ row. row.job_id) rows;
}

-- Two aggregates of one lane together.
gabung : Agregat → Agregat → Agregat
gabung a b = record {
  total_job = a.total_job + b.total_job;
  aktif = a.aktif + b.aktif;
  nonaktif = a.nonaktif + b.nonaktif;
  limit_run_total = a.limit_run_total + b.limit_run_total;
  skor_prioritas = record {
    critical = a.skor_prioritas.critical + b.skor_prioritas.critical;
    normal = a.skor_prioritas.normal + b.skor_prioritas.normal;
    low = a.skor_prioritas.low + b.skor_prioritas.low;
  };
  daftar_job = a.daftar_job ++ b.daftar_job;
}

gabung-tambah_job :
    (a : Agregat) (row : JobRow) (rows : List JobRow)
    → gabung (tambah_job row a) (hitung rows) ≡ gabung a (hitung (row ∷ rows))
unfolding gabung tambah_job hitung sum_limit is_prioritas
gabung-tambah_job a row rows =
    ground
      (arith, append_assoc a.daftar_job (row.job_id ∷ []) (map (λ (r : JobRow). r.job_id) rows))

gabung-nil : (a : Agregat) → gabung a (hitung []) ≡ a
unfolding gabung hitung sum_limit
gabung-nil a = ground (arith, append-nil a.daftar_job)

gabung-kosong : (rows : List JobRow) → gabung agregat_kosong (hitung rows) ≡ hitung rows
unfolding gabung hitung
gabung-kosong rows = ground arith

jalur-some :
    (g : String) (a : Agregat) (rows : List JobRow)
    → jalur g (some a) rows ≡ some (gabung a (hitung (filter (in_lane g) rows)))
unfolding jalur catat_jalur
jalur-some g a [] = rw gabung-nil
jalur-some g a (row ∷ rows) = elim (Bool-cases (in_lane g row)) [
  | inl h ↦ rw h (jalur-some g (tambah_job row a) rows ∙ ap some (gabung-tambah_job a row _))
  | inr h ↦ rw h (jalur-some g a rows)
]

jalur-none :
    (g : String) (rows : List JobRow)
    → jalur g none rows
      ≡ (if some_of (in_lane g) rows then some (hitung (filter (in_lane g) rows)) else none)
unfolding jalur catat_jalur
jalur-none g [] = refl
jalur-none g (row ∷ rows) = elim (Bool-cases (in_lane g row)) [
  | inl h ↦ rw h (
      jalur-some g (tambah_job row agregat_kosong) rows
      ∙ ap some (gabung-tambah_job agregat_kosong row _ ∙ gabung-kosong _))
  | inr h ↦ rw h (jalur-none g rows)
]

-- What the map holds for a lane after the loop.
pub lookup-agregasi_eq :
    (g : String) (rows : List JobRow)
    → lookup g (agregasi [] rows)
      ≡ (if some_of (in_lane g) rows then some (hitung (filter (in_lane g) rows)) else none)
unfolding lookup
lookup-agregasi_eq g rows = lookup-agregasi g [] rows ∙ jalur-none g rows
