-- ===== src/Metrics.antt =====
-- crates/omega-common/src/metrics.rs: the in-memory metrics. Instants and durations are numbers of
-- nanoseconds; the JSONL file behind `record` is a best-effort copy that nothing reads, and is left
-- out.
pub mod Ring
pub mod Summary
pub mod Totals
pub mod Tests
use ashat_coding_agent.Base.{
  ℕ, ◌-◌, ◌+◌, ◌^◌, ◌%◌, Bool, Option, List, [], ◌∷◌, ◌++◌, String, reverse, take, length, ◌==◌,
  if◌then◌else◌,
}
use ashat_coding_agent.Base.Map.{insert, remove, nat_eq}
use ashat_coding_agent.Types.{Event, Intent, ProxyError}

abbrev pub in_memory_cap : ℕ
in_memory_cap = 1024

abbrev pub event_cap : ℕ
event_cap = 64

-- The texts of `error_category`.
pub data ErrorCategory : Type 0 where
  displayed : ProxyError → ErrorCategory
  upstream_http : (code : ℕ) → ErrorCategory
  cross_server_http : (id : String) → (port code : ℕ) → ErrorCategory

-- `pool` is left out, since it has one value.
pub record MetricRecord : Type 0 where
  pub timestamp : ℕ
  pub intent : Intent
  pub target_port : ℕ
  pub success : Bool
  pub latency : ℕ
  pub queue_wait : ℕ
  pub prompt_tokens : ℕ
  pub completion_tokens : ℕ
  pub time_to_first_token : Option ℕ
  pub error_category : Option ErrorCategory

pub record MetricsStore : Type 0 where
  pub records : List MetricRecord
  pub recent_events : List Event
  pub active_runs : List (ℕ × ℕ)
  pub active_requests : ℕ

unfoldable pub open_store : MetricsStore
open_store = record { records = []; recent_events = []; active_runs = []; active_requests = 0 }

-- `if len == cap { pop_front }; push_back`
abbrev pub push_capped {ℓ} : {A : Type ℓ} → ℕ → A → List A → List A
push_capped cap a [] = a ∷ []
push_capped cap a (x ∷ xs) = if length (x ∷ xs) == cap then xs ++ a ∷ [] else (x ∷ xs) ++ a ∷ []

unfoldable pub record_metric : MetricRecord → MetricsStore → MetricsStore
record_metric rec m = record m { records = push_capped in_memory_cap rec m.records }

unfoldable pub event : Event → MetricsStore → MetricsStore
event e m = record m { recent_events = push_capped event_cap e m.recent_events }

-- `iter().rev().take(n)`
unfoldable pub recent_events : ℕ → MetricsStore → List Event
recent_events n m = take n (reverse m.recent_events)

-- `AtomicUsize` on a 64-bit machine: both wrap.
unfoldable pub request_started : MetricsStore → MetricsStore
request_started m = record m { active_requests = (m.active_requests + 1) % 2 ^ 64 }

unfoldable pub request_finished : MetricsStore → MetricsStore
request_finished m = record m { active_requests = (m.active_requests + 2 ^ 64 - 1) % 2 ^ 64 }

unfoldable pub mark_run_start : ℕ → ℕ → MetricsStore → MetricsStore
mark_run_start port now m = record m { active_runs = insert port now m.active_runs }

unfoldable pub mark_run_finish : ℕ → MetricsStore → MetricsStore
mark_run_finish port m = record m { active_runs = remove port m.active_runs }
