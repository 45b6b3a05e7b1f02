-- ===== src/Metrics/Summary.antt =====
-- The views of crates/omega-common/src/metrics.rs on its store: `summary`, `active_run_etas` and
-- `dashboard_timeseries`. Instants and durations are nanoseconds. A quotient of floats is a pair of
-- numbers; the sums and the extremes of the token rates, which add quotients, are left out.
use ashat_coding_agent.Base.{
  ℕ, ◌+◌, ◌-◌, ◌*◌, ◌/◌, Bool, true, false, ◌||◌, ◌==◌, Option, none, some, List, [], ◌∷◌, String,
  map, reverse, length, ltb, leb, if◌then◌else◌, filter,
}
use ashat_coding_agent.Base.Map.{remove, nat_eq}
use ashat_coding_agent.Types.{Event}
use ashat_coding_agent.Metrics.{MetricRecord, MetricsStore, ErrorCategory, recent_events}

abbrev pub second : ℕ
second = 1000000000

pub record Ratio : Type 0 where
  pub num : ℕ
  pub den : ℕ

pub record LaneAccumulator : Type 0 where
  pub total_requests : ℕ
  pub success_count : ℕ
  pub failure_count : ℕ
  pub total_latency : ℕ
  pub prompt_tokens : ℕ
  pub completion_tokens : ℕ
  pub quickest_latency : ℕ
  pub slowest_latency : ℕ
  pub latest_latency : ℕ
  pub last_request_time : Option ℕ
  pub last_failure_code : Option ErrorCategory

abbrev pub default_accumulator : LaneAccumulator
default_accumulator = record {
  total_requests = 0;
  success_count = 0;
  failure_count = 0;
  total_latency = 0;
  prompt_tokens = 0;
  completion_tokens = 0;
  quickest_latency = 0;
  slowest_latency = 0;
  latest_latency = 0;
  last_request_time = none;
  last_failure_code = none;
}

-- The counts do not come near 2 ^ 64: the store holds 1024 records.
unfoldable pub observe : MetricRecord → LaneAccumulator → LaneAccumulator
observe rec a =
    let total = a.total_requests + 1 in
    record {
      total_requests = total;
      success_count = if rec.success then a.success_count + 1 else a.success_count;
      failure_count = if rec.success then a.failure_count else a.failure_count + 1;
      total_latency = a.total_latency + rec.latency;
      prompt_tokens = a.prompt_tokens + rec.prompt_tokens;
      completion_tokens = a.completion_tokens + rec.completion_tokens;
      quickest_latency =
          if (total == 1) || ltb rec.latency a.quickest_latency
          then rec.latency
          else a.quickest_latency;
      slowest_latency =
          if ltb a.slowest_latency rec.latency then rec.latency else a.slowest_latency;
      latest_latency = rec.latency;
      last_request_time = some rec.timestamp;
      last_failure_code = if rec.success then a.last_failure_code else rec.error_category;
    }

unfoldable pub observe_all : List MetricRecord → LaneAccumulator → LaneAccumulator
observe_all [] a = a
observe_all (rec ∷ rs) a = observe_all rs (observe rec a)

pub data LaneState : Type 0 where
  offline degraded online : LaneState

-- The fields that are not fixed by the label alone.
pub record LaneStatus : Type 0 where
  pub label : String
  pub available : Bool
  pub ready : Bool
  pub lane_state : LaneState
  pub total_requests : ℕ
  pub success_rate : Ratio
  pub total_prompt_tokens : ℕ
  pub total_completion_tokens : ℕ
  pub latest_generation_rate : Ratio
  pub avg_total_latency : Ratio
  pub last_request_time : Option ℕ
  pub last_failure_code : Option ErrorCategory

abbrev pub nought : Ratio
nought = record { num = 0; den = 1 }

unfoldable pub placeholder : String → LaneStatus
placeholder label = record {
  label = label;
  available = false;
  ready = false;
  lane_state = offline;
  total_requests = 0;
  success_rate = nought;
  total_prompt_tokens = 0;
  total_completion_tokens = 0;
  latest_generation_rate = nought;
  avg_total_latency = nought;
  last_request_time = none;
  last_failure_code = none;
}

-- Tokens in a second: the tokens of all records over the latency of the latest one.
unfoldable pub to_lane_status : String → LaneAccumulator → LaneStatus
unfolding placeholder
to_lane_status label a = if a.total_requests == 0 then placeholder label else record {
  label = label;
  available = ltb a.failure_count a.success_count;
  ready = true;
  lane_state = if ltb a.success_count a.failure_count then degraded else online;
  total_requests = a.total_requests;
  success_rate = record { num = a.success_count * 100; den = a.total_requests };
  total_prompt_tokens = a.prompt_tokens;
  total_completion_tokens = a.completion_tokens;
  latest_generation_rate =
      if ltb 0 a.latest_latency
      then record { num = a.completion_tokens * second; den = a.latest_latency }
      else nought;
  avg_total_latency = record { num = a.total_latency; den = a.total_requests };
  last_request_time = a.last_request_time;
  last_failure_code = a.last_failure_code;
}

-- The lanes of the two peers are placeholders here.
pub record PublicMetrics : Type 0 where
  pub omega : LaneStatus
  pub active_requests : ℕ
  pub requests_last_5m : ℕ
  pub total_events : ℕ
  pub recent_events : List Event

-- A record from the future is recent.
abbrev pub is_recent : ℕ → MetricRecord → Bool
is_recent now rec = ltb ((now - rec.timestamp) / second) 300

unfoldable pub summary : ℕ → MetricsStore → PublicMetrics
unfolding observe_all observe to_lane_status
summary now m = record {
  omega = to_lane_status "Omega" (observe_all m.records default_accumulator);
  active_requests = m.active_requests;
  requests_last_5m = length (filter (is_recent now) m.records);
  total_events = length m.records;
  recent_events = recent_events 20 m;
}

pub record ActiveRunEta : Type 0 where
  pub port : ℕ
  pub elapsed : ℕ
  pub eta : Ratio

unfoldable pub sum_latency : List MetricRecord → ℕ
sum_latency [] = 0
sum_latency (rec ∷ rs) = rec.latency + sum_latency rs

-- The average latency; 60 seconds where there is no record.
unfoldable pub average : List MetricRecord → Ratio
unfolding sum_latency
average [] = record { num = 60 * second; den = 1 }
average (rec ∷ rs) = record { num = sum_latency (rec ∷ rs); den = length (rec ∷ rs) }

-- Three times the average and a minute.
abbrev pub is_stale : Ratio → ℕ → Bool
is_stale avg elapsed = ltb (avg.num * 3 + 60 * second * avg.den) (elapsed * avg.den)

abbrev pub eta_of : Ratio → ℕ → ℕ → ActiveRunEta
eta_of avg port elapsed = record {
  port = port;
  elapsed = elapsed;
  eta = record { num = avg.num - elapsed * avg.den; den = avg.den };
}

-- The loop over the runs: the estimates, and the stale ports.
unfoldable pub run_etas : Ratio → ℕ → List (ℕ × ℕ) → List ActiveRunEta × List ℕ
run_etas avg now [] = ([], [])
run_etas avg now ((port, start) ∷ runs) =
    let (out, stale) = run_etas avg now runs in
    if is_stale avg (now - start)
    then (out, port ∷ stale)
    else (eta_of avg port (now - start) ∷ out, stale)

abbrev pub remove_all : List ℕ → List (ℕ × ℕ) → List (ℕ × ℕ)
remove_all [] runs = runs
remove_all (port ∷ ports) runs = remove_all ports (remove port runs)

unfoldable pub active_run_etas : ℕ → MetricsStore → List ActiveRunEta × MetricsStore
unfolding run_etas average
active_run_etas now m =
    let (out, stale) = run_etas (average m.records) now m.active_runs in
    (out, record m { active_runs = remove_all stale m.active_runs })

pub record TelemetryFrame : Type 0 where
  pub timestamp : ℕ
  pub generation_rate : Option Ratio
  pub prompt_rate : Option Ratio
  pub total_latency : ℕ
  pub time_to_first_token : Option ℕ
  pub success : Bool

abbrev pub rate_of : (tokens latency : ℕ) → Option Ratio
rate_of tokens latency =
    if ltb 0 tokens
    then if ltb 0 latency then some (record { num = tokens * second; den = latency }) else none
    else none

abbrev pub frame_of : MetricRecord → TelemetryFrame
frame_of r = record {
  timestamp = r.timestamp;
  generation_rate = rate_of r.completion_tokens r.latency;
  prompt_rate = rate_of r.prompt_tokens r.latency;
  total_latency = r.latency;
  time_to_first_token = r.time_to_first_token;
  success = r.success;
}

-- `sort_by` is stable.
unfoldable pub insert_frame : TelemetryFrame → List TelemetryFrame → List TelemetryFrame
insert_frame f [] = f ∷ []
insert_frame f (g ∷ gs) = if leb f.timestamp g.timestamp then f ∷ g ∷ gs else g ∷ insert_frame f gs

unfoldable pub sort_frames : List TelemetryFrame → List TelemetryFrame
unfolding insert_frame
sort_frames [] = []
sort_frames (f ∷ fs) = insert_frame f (sort_frames fs)

-- The frames and the events; the peers' frames are empty here.
unfoldable pub dashboard_timeseries : MetricsStore → List TelemetryFrame × List Event
unfolding sort_frames
dashboard_timeseries m = (sort_frames (map frame_of m.records), reverse (recent_events 64 m))
