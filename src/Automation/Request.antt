-- ===== src/Automation/Request.antt =====
-- The data of the automation page: `AgentWorkflowAutomationRequest` of ui/src/lib/api.ts, and the
-- schedule modes and priorities.
use multi_job.Prelude.{ℕ, Bool, String, List, Option}

pub data ModeJadwal : Type 0 where
  interval cron : ModeJadwal

pub data PressurePriority : Type 0 where
  critical normal low : PressurePriority

-- The fields of TypeScript that may be left out are options.
pub record AgentWorkflowAutomationRequest : Type 0 where
  pub job_id : String
  pub prompt : String
  pub interval_sec : Option ℕ
  pub cron : Option String
  pub enabled : Option Bool
  pub timezone : Option String
  pub default_channel : Option String
  pub default_account_id : Option String
  pub flow_group : Option String
  pub flow_max_active_runs : Option ℕ
  pub require_approval_for_missing : Option Bool
  pub allow_overlap : Option Bool
  pub pressure_priority : Option PressurePriority
  pub dispatch_jitter_sec : Option ℕ
  pub failure_threshold : Option ℕ
  pub failure_cooldown_sec : Option ℕ
  pub failure_cooldown_max_sec : Option ℕ
  pub failure_memory_enabled : Option Bool
  pub command_allow_prefixes : Option (List String)
  pub allow_sensitive_commands : Option Bool
  pub timeout_ms : Option ℕ
  pub max_retry : Option ℕ
  pub backoff_sec : Option (List ℕ)
