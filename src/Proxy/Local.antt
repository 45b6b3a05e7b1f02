-- ===== src/Proxy/Local.antt =====
-- `CodingAgentProxy` of crates/omega-core/src/proxy.rs: a request that is served by a lane of the
-- demand pool. An `InstanceGuard` that is dropped goes back by `drop_guard`, a `RequestActivity`
-- by `request_finished`. The request log that is written beside it cannot fail the call, and is left out.
use ashat_coding_agent.Base.{ℕ, ◌-◌, true, false, Option, none, some, List}
use ashat_coding_agent.Base.Result.{Result, ok, err}
use ashat_coding_agent.Json.{Value}
use ashat_coding_agent.Types.{ChatRequest, Intent, ProxyError, none_available, DemandAcquireError}
use ashat_coding_agent.Metrics.{
  MetricRecord, MetricsStore, ErrorCategory, displayed, record_metric, request_started,
  request_finished,
}
use ashat_coding_agent.Demand.{World, InstanceGuard, SpawnOutcome, Wake, acquire, drop_guard}
use ashat_coding_agent.Proxy.Annotate.{with_lane}
use ashat_coding_agent.Proxy.Send.{Upstream, or_decode, send_non_stream_to, usage_tokens, port_text}

abbrev pub on_metrics : (MetricsStore → MetricsStore) → World → World
on_metrics f w = record w { metrics = f w.metrics }

abbrev pub release : ℕ → InstanceGuard → World → World
release now g w = record w { pool = drop_guard now g w.pool }

-- When a call is made: its admission, the first byte sent, and its end.
pub record Times : Type 0 where
  pub admission : ℕ
  pub started : ℕ
  pub finish : ℕ

abbrev pub success_record : Intent → InstanceGuard → Times → ℕ × ℕ → MetricRecord
success_record intent g t (prompt, completion) = record {
  timestamp = t.finish;
  intent = intent;
  target_port = g.port;
  success = true;
  latency = t.finish - t.started;
  queue_wait = 0;
  prompt_tokens = prompt;
  completion_tokens = completion;
  time_to_first_token = none;
  error_category = none;
}

abbrev pub failure_record :
    Intent → InstanceGuard → (timestamp latency : ℕ) → ErrorCategory → MetricRecord
failure_record intent g timestamp latency category = record {
  timestamp = timestamp;
  intent = intent;
  target_port = g.port;
  success = false;
  latency = latency;
  queue_wait = 0;
  prompt_tokens = 0;
  completion_tokens = 0;
  time_to_first_token = none;
  error_category = some category;
}

module _ {C : Type 0} (u : Upstream C) (intent : Intent) (t : Times) where
  -- `from_value` of the reply with the lane put in, behind its metric.
  unfoldable pub parsed :
      InstanceGuard → Result ProxyError C → World → Result ProxyError (C × InstanceGuard) × World
  parsed g (ok c) w = (ok (c, g), w)
  parsed g (err e) w = (err e, release t.finish g w)

  unfoldable pub answered :
      InstanceGuard
      → Result ProxyError Value
      → World
      → Result ProxyError (C × InstanceGuard) × World
  unfolding parsed port_text
  answered g (ok v) w =
      parsed g (or_decode (u.from_value (with_lane (port_text g.port) v)))
        (on_metrics (record_metric (success_record intent g t (usage_tokens v))) w)
  answered g (err e) w = (
    err e,
    release t.finish g (
        on_metrics
          (record_metric (failure_record intent g t.finish (t.finish - t.started) (displayed e)))
          w),
  )

  -- `forward` behind `acquire`.
  unfoldable pub forwarded :
      ChatRequest
      → Result DemandAcquireError InstanceGuard × World
      → Result ProxyError (C × InstanceGuard) × World
  forwarded request (err e, w) = (err none_available, w)
  forwarded request (ok g, w) =
      answered g (send_non_stream_to u ((w.pool).spec).host g.port request) w

abbrev pub closed {ℓ} : {A : Type ℓ} → A × World → A × World
closed (r, w) = (r, on_metrics request_finished w)

abbrev pub and_then {ℓ κ} : {A : Type ℓ} {B : Type κ} → Option A → (A → B) → Option B
and_then none f = none
and_then (some a) f = some (f a)

-- `none` is a call that still waits for its lane.
unfoldable pub forward :
    {C : Type 0}
    → Upstream C
    → (timeout : ℕ) → Times
    → SpawnOutcome
    → List Wake
    → ChatRequest
    → Intent
    → World
    → Option (Result ProxyError (C × InstanceGuard) × World)
forward u timeout t outcome wakes request intent w =
    and_then (acquire t.admission timeout outcome wakes (on_metrics request_started w))
      λ got. closed (forwarded u intent t request got)
