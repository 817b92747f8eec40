-- ===== src/Api/Health.antt =====
-- `checkHealth`, `getQueueMetrics` and `getSystemMetrics` of ui/src/lib/api.ts, and the calls beside
-- them that have a fallback of their own. The answers to the requests of a `Promise.all` are given.
pub mod Laws
use multi_job.Prelude.{
  ℕ, Bool, true, false, not, ◌&&◌, String, ◌==◌, List, [], ◌∷◌, ◌++◌, Option, none, some,
  if◌then◌else◌, filter, length, some_of,
}
use multi_job.Api.Session.{Browser}
use multi_job.Api.Headers.{Config}
use multi_job.Api.Http.{
  Call, Response, Fetched, failed, answered, Outcome, returned, thrown, Settled, is_ok, get_json,
  guarded,
}

pub record Health : Type 0 where
  pub api_healthy : Bool
  pub system_ready : Bool

-- The answers to /healthz and to /readyz. If one request fails, `Promise.all` rejects.
unfoldable pub check_health : {T : Type 0} → Fetched T → Fetched T → Health
check_health (answered health) (answered ready) = record {
  api_healthy = is_ok health.status;
  system_ready = is_ok ready.status;
}
check_health (answered health) (failed m) = record { api_healthy = false; system_ready = false }
check_health (failed m) ready = record { api_healthy = false; system_ready = false }

pub record QueueMetrics : Type 0 where
  pub depth : ℕ
  pub delayed : ℕ

-- Of an agent the metrics read the type, which may be missing, and the status.
pub record Agent : Type 0 where
  pub type : Option String
  pub status : String

pub record SystemMetrics : Type 0 where
  pub queue_depth : ℕ
  pub delayed_count : ℕ
  pub worker_count : ℕ
  pub scheduler_online : Bool
  pub redis_online : Bool
  pub api_online : Bool

-- `agent.type === "scheduler"`
pub is_scheduler : Agent → Bool
is_scheduler agent = elim agent.type [ none ↦ false | some t ↦ t == "scheduler" ]

pub is_online : Agent → Bool
is_online agent = agent.status == "online"

pub system_metrics : Health → QueueMetrics → List Agent → SystemMetrics
system_metrics health queue agents = record {
  queue_depth = queue.depth;
  delayed_count = queue.delayed;
  worker_count = length (filter (λ agent. not (is_scheduler agent)) agents);
  scheduler_online = some_of (λ agent. is_scheduler agent && is_online agent) agents;
  redis_online = health.system_ready;
  api_online = health.api_healthy;
}

-- `await` of one call after another: a rejection ends the row, and the toasts stay.
pub and_then : {A B : Type 0} → Settled A → (A → Settled B) → Settled B
and_then m f = elim m.outcome [
  | returned a ↦
      let rest = f a in record { outcome = rest.outcome; toasts = m.toasts ++ rest.toasts }
  | thrown e ↦ record { outcome = thrown e; toasts = m.toasts }
]

module _ (to_lower_case : String → String) (cfg : Config) (browser : Browser) where
  unfoldable pub get_queue_metrics : {B : Type 0} → Call B QueueMetrics QueueMetrics
  get_queue_metrics = record {
    request = get_json to_lower_case cfg browser "/queue";
    finish = guarded (λ t. t) "Gagal memuat metrik antrean" (record { depth = 0; delayed = 0 });
  }

-- The toasts of the queue's call and of the agents' call come in some order; here in this one.
unfoldable pub get_system_metrics :
    Health → Settled QueueMetrics → Settled (List Agent) → Settled SystemMetrics
unfolding and_then system_metrics is_scheduler is_online
get_system_metrics health queue agents = and_then queue (λ q.
    and_then agents (λ a. record { outcome = returned (system_metrics health q a); toasts = [] }))
