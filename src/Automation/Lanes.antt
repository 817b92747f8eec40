-- ===== src/Automation/Lanes.antt =====
-- `hitungRingkasanJalur` of ui/src/app/automation/page.tsx: the summary of the jobs by lane.
-- Of a job it reads the fields of `JobRow`. An input that is missing is `none`; the casts of the
-- source (`as string`, `as number`) are the types of the fields.
pub mod Dominant
pub mod Totals
pub mod Order
pub mod Summary
use multi_job.Prelude.{
  ℕ, ◌+◌, Bool, true, false, ◌&&◌, ◌||◌, not, String, ◌==◌, List, [], ◌∷◌, ◌++◌, map, Option, none,
  some, if◌then◌else◌, ltb, leb, nat_eq, take,
}
use multi_job.Js.Text.{trim, or_text}
use multi_job.Js.Number.{JsNumber, natural, clamped}
use multi_job.Automation.Request.{PressurePriority, critical, normal, low}

pub record JobRow : Type 0 where
  pub job_id : String
  pub enabled : Option Bool
  pub flow_group : Option String
  pub pressure_priority : Option String
  pub flow_max_active_runs : Option JsNumber

abbrev pub text_or_empty : Option String → String
text_or_empty none = ""
text_or_empty (some s) = s

abbrev pub number_or_zero : Option JsNumber → JsNumber
number_or_zero none = natural 0
number_or_zero (some n) = n

abbrev pub is_true : Option Bool → Bool
is_true none = false
is_true (some b) = b

-- `flowGroup`, `prioritasValid` and `limitRun` of the loop's body.
unfoldable pub flow_group_of : JobRow → String
flow_group_of row = or_text (trim (or_text (text_or_empty row.flow_group) "umum")) "umum"

unfoldable pub prioritas_valid : JobRow → PressurePriority
prioritas_valid row =
    let prioritas = or_text (text_or_empty row.pressure_priority) "normal" in
    if prioritas == "critical" then critical else if prioritas == "low" then low else normal

unfoldable pub limit_run : JobRow → ℕ
limit_run row = clamped 0 0 (number_or_zero row.flow_max_active_runs)

pub record SkorPrioritas : Type 0 where
  pub critical : ℕ
  pub normal : ℕ
  pub low : ℕ

pub record Agregat : Type 0 where
  pub total_job : ℕ
  pub aktif : ℕ
  pub nonaktif : ℕ
  pub limit_run_total : ℕ
  pub skor_prioritas : SkorPrioritas
  pub daftar_job : List String

abbrev pub agregat_kosong : Agregat
agregat_kosong = record {
  total_job = 0;
  aktif = 0;
  nonaktif = 0;
  limit_run_total = 0;
  skor_prioritas = record { critical = 0; normal = 0; low = 0 };
  daftar_job = [];
}

abbrev pub tambah_skor : PressurePriority → SkorPrioritas → SkorPrioritas
tambah_skor PressurePriority.critical s = record s { critical = s.critical + 1 }
tambah_skor PressurePriority.normal s = record s { normal = s.normal + 1 }
tambah_skor PressurePriority.low s = record s { low = s.low + 1 }

-- The changes that the body makes to `data`.
pub tambah_job : JobRow → Agregat → Agregat
tambah_job row data' = record {
  total_job = data'.total_job + 1;
  aktif = if is_true row.enabled then data'.aktif + 1 else data'.aktif;
  nonaktif = if is_true row.enabled then data'.nonaktif else data'.nonaktif + 1;
  limit_run_total = data'.limit_run_total + limit_run row;
  skor_prioritas = tambah_skor (prioritas_valid row) data'.skor_prioritas;
  daftar_job = data'.daftar_job ++ row.job_id ∷ [];
}

-- The `Map`, in the order of insertion.
abbrev pub Peta : Type 0
Peta = List (String × Agregat)

pub punya : String → Peta → Bool
punya key [] = false
punya key ((k, v) ∷ m) = k == key || punya key m

-- `agregat.get(key)` with the changes that are made to what it finds.
pub ubah : String → (Agregat → Agregat) → Peta → Peta
ubah key f [] = []
ubah key f ((k, v) ∷ m) = if k == key then (k, f v) ∷ m else (k, v) ∷ ubah key f m

-- One round of the loop.
pub catat : Peta → JobRow → Peta
catat m row =
    let key = flow_group_of row in
    let m' = if punya key m then m else m ++ (key, agregat_kosong) ∷ [] in
    ubah key (tambah_job row) m'

pub agregasi : Peta → List JobRow → Peta
agregasi m [] = m
agregasi m (row ∷ rows) = agregasi (catat m row) rows

pub record RingkasanJalur : Type 0 where
  pub flow_group : String
  pub total_job : ℕ
  pub aktif : ℕ
  pub nonaktif : ℕ
  pub limit_run_total : ℕ
  pub prioritas_dominan : PressurePriority
  pub daftar_job : List String

pub prioritas_dominan : SkorPrioritas → PressurePriority
prioritas_dominan skor =
    if leb skor.normal skor.critical && leb skor.low skor.critical
    then critical
    else if leb skor.low skor.normal
    then normal
    else low

pub ringkas : String × Agregat → RingkasanJalur
ringkas (flow_group, data') = record {
  flow_group = flow_group;
  total_job = data'.total_job;
  aktif = data'.aktif;
  nonaktif = data'.nonaktif;
  limit_run_total = data'.limit_run_total;
  prioritas_dominan = prioritas_dominan data'.skor_prioritas;
  daftar_job = take 4 data'.daftar_job;
}

-- The comparison of `sort` puts `b` before `a`.
pub sesudah : RingkasanJalur → RingkasanJalur → Bool
sesudah a b = if nat_eq b.aktif a.aktif then ltb a.total_job b.total_job else ltb a.aktif b.aktif

-- `sort` is stable: an element stays in front of those that are not to be put before it.
pub sisipkan : RingkasanJalur → List RingkasanJalur → List RingkasanJalur
sisipkan a [] = a ∷ []
sisipkan a (b ∷ bs) = if sesudah a b then b ∷ sisipkan a bs else a ∷ b ∷ bs

pub urutkan : List RingkasanJalur → List RingkasanJalur
unfolding sisipkan sesudah
urutkan [] = []
urutkan (a ∷ as') = sisipkan a (urutkan as')

unfoldable pub hitung_ringkasan_jalur : List JobRow → List RingkasanJalur
unfolding agregasi catat punya ubah tambah_job limit_run prioritas_valid flow_group_of urutkan
    ringkas prioritas_dominan
hitung_ringkasan_jalur jobs = urutkan (map ringkas (agregasi [] jobs))
