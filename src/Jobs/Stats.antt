-- ===== src/Jobs/Stats.antt =====
-- `formatJadwal` and the statistics of ui/src/app/jobs/page.tsx.
use multi_job.Prelude.{
  ℕ, zero, suc, ◌+◌, ◌-◌, Bool, true, false, not, count_of-le-length, String, ◌⧺◌, List, [], ◌∷◌,
  Option, none, some, if◌then◌else◌, length, count_of, ◌≡◌, refl, ◌∙◌, arith,
}
use multi_job.Js.Text.{truthy}
use multi_job.Js.Number.{JsNumber, nan, natural, negative, show}

pub data JobScheduleKind : Type 0 where
  interval cron none_kind : JobScheduleKind

pub record Jadwal : Type 0 where
  pub kind : JobScheduleKind
  pub label : String

-- Of a job the page reads `enabled` and the two fields of `schedule`.
pub record Tugas : Type 0 where
  pub enabled : Option Bool
  pub interval_sec : Option JsNumber
  pub cron : Option String

abbrev cron_jadwal : Option String → Jadwal
cron_jadwal none = record { kind = none_kind; label = "Tanpa Jadwal" }
cron_jadwal (some c) =
    if truthy c
    then record { kind = cron; label = c }
    else record { kind = none_kind; label = "Tanpa Jadwal" }

pub format_jadwal : Option JsNumber → Option String → Jadwal
format_jadwal (some (natural (suc n))) c = record {
  kind = interval;
  label = "Setiap " ⧺ show (suc n) ⧺ " detik";
}
format_jadwal _ c = cron_jadwal c

pub record Statistik : Type 0 where
  pub total : ℕ
  pub aktif : ℕ
  pub nonaktif : ℕ
  pub interval : ℕ
  pub cron : ℕ
  pub tanpa_jadwal : ℕ
  pub ditampilkan : ℕ

-- The four counters of the loop.
pub record Hitungan : Type 0 where
  pub aktif : ℕ
  pub interval : ℕ
  pub cron : ℕ
  pub tanpa_jadwal : ℕ

abbrev pub is_true : Option Bool → Bool
is_true none = false
is_true (some b) = b

abbrev tambah_kind : JobScheduleKind → Hitungan → Hitungan
tambah_kind JobScheduleKind.interval h = record h { interval = h.interval + 1 }
tambah_kind JobScheduleKind.cron h = record h { cron = h.cron + 1 }
tambah_kind none_kind h = record h { tanpa_jadwal = h.tanpa_jadwal + 1 }

pub hitung_satu : Hitungan → Tugas → Hitungan
unfolding format_jadwal
hitung_satu h t =
    let h' = if is_true t.enabled then record h { aktif = h.aktif + 1 } else h in
    tambah_kind (format_jadwal t.interval_sec t.cron).kind h'

pub hitung_semua : Hitungan → List Tugas → Hitungan
hitung_semua h [] = h
hitung_semua h (t ∷ ts) = hitung_semua (hitung_satu h t) ts

unfoldable pub statistik : List Tugas → Statistik
unfolding hitung_semua hitung_satu
statistik daftar_tugas =
    let h =
      hitung_semua (record { aktif = 0; interval = 0; cron = 0; tanpa_jadwal = 0 }) daftar_tugas in
    let total = length daftar_tugas in
    record {
      total = total;
      aktif = h.aktif;
      nonaktif = total - h.aktif;
      interval = h.interval;
      cron = h.cron;
      tanpa_jadwal = h.tanpa_jadwal;
      ditampilkan = total;
    }

-- A job with an interval above 0.
abbrev pub has_interval : Tugas → Bool
has_interval t = elim t.interval_sec [
  | none ↦ false
  | some n ↦ elim n [
    | nan ↦ false
    | natural k ↦ (elim k [ zero ↦ false | suc j ↦ true ])
    | negative k ↦ false
  ]
]

-- A job without one, with a cron expression that is no blank.
abbrev pub has_cron : Tugas → Bool
has_cron t = if has_interval t then false else (elim t.cron [ none ↦ false | some c ↦ truthy c ])

-- A job with neither.
abbrev pub has_no_schedule : Tugas → Bool
has_no_schedule t = if has_interval t then false else not (has_cron t)

hitung_satu-eq :
    (h : Hitungan) (t : Tugas) (a i c n : ℕ)
    → ◌≡◌ {A = Hitungan}
        (record {
          aktif = (hitung_satu h t).aktif + a;
          interval = (hitung_satu h t).interval + i;
          cron = (hitung_satu h t).cron + c;
          tanpa_jadwal = (hitung_satu h t).tanpa_jadwal + n;
        })
        (record {
          aktif = h.aktif + ((if is_true t.enabled then 1 else 0) + a);
          interval = h.interval + ((if has_interval t then 1 else 0) + i);
          cron = h.cron + ((if has_cron t then 1 else 0) + c);
          tanpa_jadwal = h.tanpa_jadwal + ((if has_no_schedule t then 1 else 0) + n);
        })
unfolding hitung_satu format_jadwal
hitung_satu-eq h t a i c n = ground arith

hitung_semua-eq :
    (h : Hitungan) (ts : List Tugas)
    → hitung_semua h ts ≡ record {
      aktif = h.aktif + count_of (λ t. is_true t.enabled) ts;
      interval = h.interval + count_of has_interval ts;
      cron = h.cron + count_of has_cron ts;
      tanpa_jadwal = h.tanpa_jadwal + count_of has_no_schedule ts;
    }
unfolding hitung_semua
hitung_semua-eq h [] = ground arith
hitung_semua-eq h (t ∷ ts) = hitung_semua-eq (hitung_satu h t) ts ∙ hitung_satu-eq h t _ _ _ _

kinds_split :
    (ts : List Tugas)
    → count_of has_interval ts + count_of has_cron ts + count_of has_no_schedule ts ≡ length ts
kinds_split [] = refl
kinds_split (t ∷ ts) = ground (arith, kinds_split ts)

-- Each job is counted as active or inactive, and as one with an interval above 0, with a cron
-- expression or with no schedule; an interval goes before a cron expression.
pub statistik-counts :
    (ts : List Tugas)
    → let s = statistik ts in
      (s.aktif ≡ count_of (λ t. is_true t.enabled) ts)
      × (s.interval ≡ count_of has_interval ts)
      × (s.cron ≡ count_of has_cron ts)
      × (s.aktif + s.nonaktif ≡ s.total)
      × (s.interval + s.cron + s.tanpa_jadwal ≡ s.total)
      × (s.total ≡ length ts)
unfolding statistik
statistik-counts ts =
    let all = hitung_semua-eq (record { aktif = 0; interval = 0; cron = 0; tanpa_jadwal = 0 }) ts in
    let active = count_of-le-length (λ (t : Tugas). is_true t.enabled) ts in
    rw all (omega (arith, active, kinds_split ts))
