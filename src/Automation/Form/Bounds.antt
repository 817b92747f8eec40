-- ===== src/Automation/Form/Bounds.antt =====
-- The payload of a submit: its texts, its schedule, its numbers and its prefixes.
use multi_job.Prelude.{
  ℕ, ◌≤◌, String, List, [], ◌∷◌, Option, none, some, ◌≡◌, ◌≢◌, ◌↔◌, refl, arith, eq_iff,
  if◌then◌else◌, ◌⊎◌, inl, inr, subst,
}
use multi_job.Js.Text.{trim, truthy, or_text}
use multi_job.Js.Text.Trimming.{trim_idem}
use multi_job.Js.Number.{clamped, low-le-clamped}
use multi_job.Automation.Prefix.RoundTrip.{IsNormal, normalisasi_prefix_perintah-IsNormal}
use multi_job.Automation.Request.{ModeJadwal, interval, cron, AgentWorkflowAutomationRequest}
use multi_job.Automation.Templates.{if_interval, if_cron}
use multi_job.Automation.Form.{
  FormState, refused, sent, unless_empty, form_payload, simpan_job_otomatis,
}

-- The option holds a value that satisfies the predicate.
abbrev pub Given : {A : Type 0} → (A → Type 0) → Option A → Type 0
Given P none = ⊥
Given P (some a) = P a

-- If the option holds a value, it satisfies the predicate.
abbrev pub IfGiven : {A : Type 0} → (A → Type 0) → Option A → Type 0
IfGiven P none = Unit
IfGiven P (some a) = P a

-- A text that the server takes: no blank, and trimmed.
abbrev pub IsClean : String → Type 0
IsClean s = (s ≢ "") × (trim s ≡ s)

-- One of interval and cron expression is given, and not the other.
abbrev pub HasOneSchedule : AgentWorkflowAutomationRequest → Type 0
HasOneSchedule p =
    (Given (λ n. 10 ≤ n) p.interval_sec × (p.cron ≡ none))
    ⊎ ((p.interval_sec ≡ none) × Given (λ s. trim s ≡ s) p.cron)

pub record IsWellFormed (to_lower_case : String → String) (p : AgentWorkflowAutomationRequest)
    : Type 0 where
  pub job_id : IsClean p.job_id
  pub prompt : IsClean p.prompt
  pub schedule : HasOneSchedule p
  pub timezone : Given (λ s. s ≢ "") p.timezone
  pub channel : Given (λ s. s ≢ "") p.default_channel
  pub account : Given (λ s. s ≢ "") p.default_account_id
  pub flow_group : Given (λ s. s ≢ "") p.flow_group
  pub flow_max_active_runs : Given (λ n. 1 ≤ n) p.flow_max_active_runs
  pub failure_threshold : Given (λ n. 1 ≤ n) p.failure_threshold
  pub failure_cooldown_sec : Given (λ n. 10 ≤ n) p.failure_cooldown_sec
  pub failure_cooldown_max_sec : Given (λ n. 10 ≤ n) p.failure_cooldown_max_sec
  pub prefixes : IfGiven (λ xs. (xs ≢ []) × IsNormal to_lower_case xs) p.command_allow_prefixes

-- The field holds the trimmed text of the cell, or the default if that is blank.
abbrev pub IsDefaulted : String → String → Option String → Type 0
IsDefaulted default cell field =
    (trim cell ≡ "" → field ≡ some default) × (trim cell ≢ "" → field ≡ some (trim cell))

IsDefaulted-or_text :
    (default cell : String) → IsDefaulted default cell (some (or_text (trim cell) default))
IsDefaulted-or_text default cell = (
  (λ h. ground (arith, eq_iff (trim cell) "", h)),
  (λ h. ground (arith, eq_iff (trim cell) "", h)),
)

-- The four texts that have a default.
pub record HasDefaults (form : FormState) (p : AgentWorkflowAutomationRequest) : Type 0 where
  pub timezone : IsDefaulted "Asia/Jakarta" form.zona_waktu p.timezone
  pub channel : IsDefaulted "telegram" form.default_channel p.default_channel
  pub account : IsDefaulted "default" form.default_account_id p.default_account_id
  pub flow_group : IsDefaulted "umum" form.flow_group p.flow_group

pub or_text-ne-nil : (s t : String) → t ≢ "" → (if truthy s then s else t) ≢ ""
or_text-ne-nil s t h = ground (arith, eq_iff s "")

one_schedule :
    (mode : ModeJadwal) (n : ℕ) (c : String)
    → 10 ≤ n
    → trim c ≡ c
    → (Given (λ n. 10 ≤ n) (if_interval mode n) × (if_cron mode c ≡ none))
      ⊎ ((if_interval mode n ≡ none) × Given (λ s. trim s ≡ s) (if_cron mode c))
one_schedule interval n c h k = inl (h, refl)
one_schedule cron n c h k = inr (refl, k)

module _ (to_lower_case : String → String) where
  unless_empty-IsNormal :
      (xs : List String)
      → IsNormal to_lower_case xs
      → IfGiven (λ xs. (xs ≢ []) × IsNormal to_lower_case xs) (unless_empty xs)
  unless_empty-IsNormal [] h = tt
  unless_empty-IsNormal (x ∷ xs) h = (cc, h)

  form_payload-IsWellFormed :
      (form : FormState)
      → trim form.id_job ≢ ""
      → trim form.isi_prompt ≢ ""
      → IsWellFormed to_lower_case (form_payload to_lower_case form)
  unfolding form_payload
  form_payload-IsWellFormed form h k = record {
    job_id = (h, trim_idem form.id_job);
    prompt = (k, trim_idem form.isi_prompt);
    schedule =
        one_schedule form.mode_jadwal (clamped 10 10 form.interval_detik) (trim form.cron)
          (low-le-clamped 10 10 form.interval_detik) (trim_idem form.cron);
    timezone =
        or_text-ne-nil (trim form.zona_waktu) "Asia/Jakarta"
          (ground (arith, eq_iff "Asia/Jakarta" ""));
    channel =
        or_text-ne-nil (trim form.default_channel) "telegram"
          (ground (arith, eq_iff "telegram" ""));
    account =
        or_text-ne-nil (trim form.default_account_id) "default"
          (ground (arith, eq_iff "default" ""));
    flow_group = or_text-ne-nil (trim form.flow_group) "umum" (ground (arith, eq_iff "umum" ""));
    flow_max_active_runs = low-le-clamped 1 1 form.flow_max_active_runs;
    failure_threshold = low-le-clamped 1 3 form.failure_threshold;
    failure_cooldown_sec = low-le-clamped 10 120 form.failure_cooldown_sec;
    failure_cooldown_max_sec = low-le-clamped 10 3600 form.failure_cooldown_max_sec;
    prefixes =
        unless_empty-IsNormal _
          (normalisasi_prefix_perintah-IsNormal to_lower_case form.prefix_perintah_input);
  }

  form_payload-HasDefaults : (form : FormState) → HasDefaults form (form_payload to_lower_case form)
  unfolding form_payload
  form_payload-HasDefaults form = record {
    timezone = IsDefaulted-or_text "Asia/Jakarta" form.zona_waktu;
    channel = IsDefaulted-or_text "telegram" form.default_channel;
    account = IsDefaulted-or_text "default" form.default_account_id;
    flow_group = IsDefaulted-or_text "umum" form.flow_group;
  }

  simpan_job_otomatis-cases :
      (form : FormState) (p : AgentWorkflowAutomationRequest)
      → simpan_job_otomatis to_lower_case form ≡ sent p
      → (trim form.id_job ≢ "")
        × (trim form.isi_prompt ≢ "")
        × (form_payload to_lower_case form ≡ p)
  unfolding simpan_job_otomatis
  simpan_job_otomatis-cases form p e =
      ground (arith, eq_iff (trim form.id_job) "", eq_iff (trim form.isi_prompt) "")

  -- Whatever the form holds, what a submit sends is well formed: the job's name and the prompt are
  -- trimmed and no blanks, there is an interval of 10 seconds or more or else a trimmed cron
  -- expression, each number is at least its bound, and the prefixes are left out or are a normal list
  -- that is not empty. The time zone, channel, account and lane are the trimmed cells, with
  -- "Asia/Jakarta", "telegram", "default" and "umum" in place of blank ones.
  pub simpan_job_otomatis-IsWellFormed :
      (form : FormState) (p : AgentWorkflowAutomationRequest)
      → simpan_job_otomatis to_lower_case form ≡ sent p
      → IsWellFormed to_lower_case p × HasDefaults form p
  simpan_job_otomatis-IsWellFormed form p e =
      let (h, k, same) = simpan_job_otomatis-cases form p e in
      (
        subst (IsWellFormed to_lower_case) same (form_payload-IsWellFormed form h k),
        subst (HasDefaults form) same (form_payload-HasDefaults form),
      )

  -- A submit sends a payload exactly if the job's name and the prompt are no blanks. Otherwise it
  -- shows the message for the name, if that is a blank, and else the one for the prompt.
  pub simpan_job_otomatis-eq_sent_iff :
      (form : FormState)
      → (((p : AgentWorkflowAutomationRequest) × (simpan_job_otomatis to_lower_case form ≡ sent p))
          ↔ ((trim form.id_job ≢ "") × (trim form.isi_prompt ≢ "")))
        × ((simpan_job_otomatis to_lower_case form ≡ refused "ID tugas wajib diisi.")
            ↔ (trim form.id_job ≡ ""))
        × ((simpan_job_otomatis to_lower_case form
              ≡ refused "Instruksi tugas otomatis wajib diisi.")
            ↔ ((trim form.id_job ≢ "") × (trim form.isi_prompt ≡ "")))
  unfolding simpan_job_otomatis
  simpan_job_otomatis-eq_sent_iff form =
      let no_name = eq_iff (trim form.id_job) "" in
      let no_prompt = eq_iff (trim form.isi_prompt) "" in
      let distinct = eq_iff "ID tugas wajib diisi." "Instruksi tugas otomatis wajib diisi." in
      (
        (
          (λ e. ground (arith, e.1, no_name, no_prompt)),
          (λ h. (form_payload to_lower_case form, ground (arith, no_name, no_prompt))),
        ),
        ground (arith, no_name, no_prompt, distinct),
        ground (arith, no_name, no_prompt, distinct),
      )
