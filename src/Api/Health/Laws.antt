-- ===== src/Api/Health/Laws.antt =====
-- The system metrics for every combination of answers.
use multi_job.Prelude.{
  ◌+◌, ◌≤◌, Bool, true, not, ◌&&◌, String, List, [], ◌∷◌, ◌++◌, length, some_of, count_of,
  length-filter, ◌≡◌, ◌↔◌, inl, inr, refl, arith, length-append,
}
use multi_job.Api.Session.{Browser}
use multi_job.Api.Headers.{Config}
use multi_job.Api.Http.{Fetched, failed, answered, Response, returned, Settled, guarded}
use multi_job.Api.Http.Laws.{guarded-EndsWell}
use multi_job.Api.System.{get_agents}
use multi_job.Api.Health.{
  Health, check_health, QueueMetrics, get_queue_metrics, Agent, SystemMetrics, is_scheduler,
  is_online, system_metrics, get_system_metrics,
}

-- The interface counts as healthy exactly if both requests are answered and the one for /healthz
-- with a status from 200 to 299; the system as ready likewise by the answer for /readyz.
pub check_health_iff :
    {T : Type 0} (health ready : Fetched T)
    → (((check_health health ready).api_healthy ≡ true) ↔ (
        (a : Response T) × (b : Response T) × (health ≡ answered a)
        × (ready ≡ answered b)
        × (200 ≤ a.status)
        × (a.status ≤ 299)))
      × (((check_health health ready).system_ready ≡ true) ↔ (
          (a : Response T) × (b : Response T) × (health ≡ answered a)
          × (ready ≡ answered b)
          × (200 ≤ b.status)
          × (b.status ≤ 299)))
unfolding check_health
check_health_iff (answered a) (answered b) = (
  ((λ e. (a, b, refl, refl, ground arith, ground arith)), (λ (x, y, p, q, h, k). ground arith)),
  ((λ e. (a, b, refl, refl, ground arith, ground arith)), (λ (x, y, p, q, h, k). ground arith)),
)
check_health_iff (answered a) (failed m) =
    (((λ e. cc), (λ (x, y, p, q, h, k). cc)), ((λ e. cc), (λ (x, y, p, q, h, k). cc)))
check_health_iff (failed m) r =
    (((λ e. cc), (λ (x, y, p, q, h, k). cc)), ((λ e. cc), (λ (x, y, p, q, h, k). cc)))

count_split :
    (agents : List Agent)
    → count_of (λ a. not (is_scheduler a)) agents + count_of is_scheduler agents ≡ length agents
count_split [] = refl
count_split (a ∷ as') = ground (arith, count_split as')

some_of-count_of :
    (p : Agent → Bool) (agents : List Agent) → (some_of p agents ≡ true) ↔ (1 ≤ count_of p agents)
some_of-count_of p [] = ((λ e. cc), (λ h. elim h [ ]))
some_of-count_of p (a ∷ as') = ground (arith, some_of-count_of p as')

-- Each agent is counted as a worker or is a scheduler, and a scheduler counts as online exactly if
-- some agent is a scheduler and online.
pub system_metrics-agents :
    (health : Health) (queue : QueueMetrics) (agents : List Agent)
    → let m = system_metrics health queue agents in
      (m.worker_count + count_of is_scheduler agents ≡ length agents)
      × ((m.scheduler_online ≡ true) ↔ (1 ≤ count_of (λ a. is_scheduler a && is_online a) agents))
unfolding system_metrics
system_metrics-agents health queue agents = (
  omega (arith, length-filter (λ a. not (is_scheduler a)) agents, count_split agents),
  some_of-count_of _ agents,
)

-- A call that has a result, with one toast at most.
abbrev EndsQuietly : {A : Type 0} → Settled A → Type 0
EndsQuietly {A} s =
    (a : A) × (toasts : List String) × (s ≡ record { outcome = returned a; toasts = toasts })
    × (length toasts ≤ 1)

guarded-EndsQuietly :
    {T A : Type 0} (value : T → A) (message : String) (fallback : A) (answer : Fetched T)
    → EndsQuietly (guarded value message fallback answer)
guarded-EndsQuietly value message fallback answer =
    elim (guarded-EndsWell value message fallback answer) [
      | inl (t, d, e) ↦ (value t, [], e, omega arith)
      | inr (d, e) ↦ (fallback, message ∷ [], e, omega arith)
    ]

metrics_total :
    (health : Health) (queue : Settled QueueMetrics) (agents : Settled (List Agent))
    → EndsQuietly queue
    → EndsQuietly agents
    → let s = get_system_metrics health queue agents in
      (m : SystemMetrics) × (s.outcome ≡ returned m) × (length s.toasts ≤ 2)
unfolding get_system_metrics
metrics_total health queue agents (q, tq, e, h) (a, ta, e', k) =
    rw (e, e')
      (
        system_metrics health q a,
        refl,
        omega (arith, length-append tq (ta ++ []), length-append ta []),
      )

-- Whatever is answered to the four requests, the metrics are there, and each of the two guarded calls
-- shows one toast at most.
pub get_system_metrics_total :
    (to_lower_case : String → String) (cfg : Config) (browser : Browser) {T : Type 0}
    (health ready : Fetched T) (queue : Fetched QueueMetrics) (agents : Fetched (List Agent))
    → let s =
        get_system_metrics
          (check_health health ready)
          ((get_queue_metrics to_lower_case cfg browser {B = T}).finish queue)
          ((get_agents to_lower_case cfg browser {B = T}).finish agents) in
      (m : SystemMetrics) × (s.outcome ≡ returned m) × (length s.toasts ≤ 2)
unfolding get_queue_metrics get_agents
get_system_metrics_total to_lower_case cfg browser health ready queue agents =
    metrics_total (check_health health ready)
      (guarded (λ t. t) "Gagal memuat metrik antrean" (record { depth = 0; delayed = 0 }) queue)
      (guarded (λ t. t) "Gagal memuat data agen" [] agents) (guarded-EndsQuietly _ _ _ queue)
      (guarded-EndsQuietly _ _ _ agents)
