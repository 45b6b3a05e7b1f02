-- ===== src/Proxy/Stream.antt =====
-- `forward_streaming` of `CodingAgentProxy` and its `GuardedStream` in
-- crates/omega-core/src/proxy.rs: the stream owns the lane and the activity until it is dropped.
use ashat_coding_agent.Base.{
  ℕ, ◌-◌, true, false, Option, none, some, List, [], ◌∷◌, ◌==◌, if◌then◌else◌,
}
use ashat_coding_agent.Base.Text.{Text, codes, strip_prefix}
use ashat_coding_agent.Base.Result.{Result, ok, err, ◌>>=◌}
use ashat_coding_agent.Json.{
  Value, boolean, object, member, no_members, with_member, get, first_item,
}
use ashat_coding_agent.Types.{
  ChatRequest, Intent, ProxyError, connection, status, none_available, DemandAcquireError,
}
use ashat_coding_agent.Metrics.{
  MetricRecord, MetricsStore, displayed, upstream_http, record_metric, request_started,
  request_finished,
}
use ashat_coding_agent.Demand.{World, InstanceGuard, SpawnOutcome, Wake, acquire}
use ashat_coding_agent.Proxy.{
  Bytes, Poll, event, error, finished, pending, LaneAnnotatingStream, poll_next,
}
use ashat_coding_agent.Proxy.Annotate.{prefix}
use ashat_coding_agent.Proxy.Send.{
  Upstream, Opened, unsent, refused, body, built, or_decode, with_stream, tokens, port_text,
}
use ashat_coding_agent.Proxy.Local.{Times, on_metrics, release, failure_record, closed, and_then}

-- What the stream has read of the events that it handed on.
pub record Usage : Type 0 where
  pub first_token : Option ℕ
  pub prompt_tokens : ℕ
  pub completion_tokens : ℕ

pub record GuardedStream : Type 0 where
  pub inner : LaneAnnotatingStream
  pub lane : Text
  pub intent : Intent
  pub started : ℕ
  pub usage : Usage
  pub guard : InstanceGuard

-- `split` at `\n`.
abbrev cons_head : ℕ → List Bytes → List Bytes
cons_head c [] = (c ∷ []) ∷ []
cons_head c (l ∷ ls) = (c ∷ l) ∷ ls

unfoldable pub split_lines : Bytes → List Bytes
split_lines [] = [] ∷ []
split_lines (c ∷ s) = let rest = split_lines s in if c == 10 then [] ∷ rest else cons_head c rest

abbrev first_or : ℕ → Option Value → Option ℕ → Option ℕ
first_or elapsed choice (some t) = some t
first_or elapsed (some choice) none = some elapsed
first_or elapsed none none = none

abbrev with_usage : Option Value → Usage → Usage
with_usage none s = s
with_usage (some usage) s = record s {
  prompt_tokens = tokens (codes "prompt_tokens") (some usage);
  completion_tokens = tokens (codes "completion_tokens") (some usage);
}

abbrev pub on_value : ℕ → Option Value → Usage → Usage
on_value elapsed none s = s
on_value elapsed (some v) s = with_usage (get (codes "usage") (some v)) (record s {
  first_token = first_or elapsed (first_item (get (codes "choices") (some v))) s.first_token;
})

abbrev payload_value : (Bytes → Option Value) → Option Bytes → Option Value
payload_value from_slice none = none
payload_value from_slice (some payload) = from_slice payload

-- `elapsed` is the time since the stream was opened.
unfoldable pub update_stream_usage :
    (from_slice : Bytes → Option Value) → (elapsed : ℕ) → List Bytes → Usage → Usage
update_stream_usage from_slice elapsed [] s = s
update_stream_usage from_slice elapsed (line ∷ lines) s =
    update_stream_usage from_slice elapsed lines
      (on_value elapsed (payload_value from_slice (strip_prefix prefix line)) s)

module _ (g : GuardedStream) (now : ℕ) where
  abbrev pub end_record : MetricRecord
  end_record = record {
    timestamp = now;
    intent = g.intent;
    target_port = (g.guard).port;
    success = true;
    latency = now - g.started;
    queue_wait = 0;
    prompt_tokens = (g.usage).prompt_tokens;
    completion_tokens = (g.usage).completion_tokens;
    time_to_first_token = (g.usage).first_token;
    error_category = none;
  }

  abbrev pub error_record : ProxyError → MetricRecord
  error_record e = record end_record { success = false; error_category = some (displayed e) }

  -- What `poll_next` of the guarded stream does with that of the inner one.
  unfoldable pub polled :
      (from_slice : Bytes → Option Value)
      → Poll × LaneAnnotatingStream
      → MetricsStore
      → Poll × GuardedStream × MetricsStore
  unfolding split_lines update_stream_usage
  polled from_slice (event bytes, inner) m = (
    event bytes,
    record g {
      inner = inner;
      usage = update_stream_usage from_slice (now - g.started) (split_lines bytes) g.usage;
    },
    m,
  )
  polled from_slice (finished, inner) m =
      (finished, record g { inner = inner }, record_metric end_record m)
  polled from_slice (error e, inner) m =
      (error e, record g { inner = inner }, record_metric (error_record e) m)
  polled from_slice (pending, inner) m = (pending, record g { inner = inner }, m)

-- `annotate` puts a lane into an event.
unfoldable pub poll_guarded :
    (annotate : Text → Bytes → Bytes) (from_slice : Bytes → Option Value)
    → (now : ℕ) → GuardedStream
    → MetricsStore
    → Poll × GuardedStream × MetricsStore
unfolding polled
poll_guarded annotate from_slice now g m =
    polled g now from_slice (poll_next (annotate g.lane) (g.inner).buffer (g.inner).byte_stream) m

-- The fields of the stream are dropped in order: the activity, then the lane.
unfoldable pub drop_stream : ℕ → GuardedStream → World → World
drop_stream now g w = release now g.guard (on_metrics request_finished w)

-- `"stream_options": {"include_usage": true}`
abbrev with_options : Value → Value
with_options v =
    with_member (codes "stream_options")
      (object (member (codes "include_usage") (boolean true) no_members)) (with_stream true v)

module _ (intent : Intent) (t : Times) where
  -- Behind `send`: the stream keeps the guard and the activity.
  unfoldable pub opened :
      InstanceGuard → Result ProxyError Opened → World → Result ProxyError GuardedStream × World
  opened g (err e) w = closed (err e, release t.finish g w)
  opened g (ok (unsent e)) w = closed (err (connection e), release t.finish g w)
  opened g (ok (refused code)) w = closed (
    err (status code),
    release t.finish g
        (on_metrics (record_metric (failure_record intent g t.finish 0 (upstream_http code))) w),
  )
  opened g (ok (body items)) w = (
    ok (record {
      inner = record { byte_stream = items; buffer = [] };
      lane = port_text g.port;
      intent = intent;
      started = t.finish;
      usage = record { first_token = none; prompt_tokens = 0; completion_tokens = 0 };
      guard = g;
    }),
    w,
  )

  unfoldable pub streamed :
      {C : Type 0}
      → Upstream C
      → ChatRequest
      → Result DemandAcquireError InstanceGuard × World
      → Result ProxyError GuardedStream × World
  unfolding opened
  streamed u request (err e, w) = closed (err none_available, w)
  streamed u request (ok g, w) =
      opened g
        (built u.build_error >>= λ _. or_decode (u.to_value request) >>= λ v. ok (
          u.open_stream (record {
            secure = false;
            host = ((w.pool).spec).host;
            port = g.port;
            api_key = none;
            events = true;
            body = with_options v;
          })))
        w

unfoldable pub forward_streaming :
    {C : Type 0}
    → Upstream C
    → (timeout : ℕ) → Times
    → SpawnOutcome
    → List Wake
    → ChatRequest
    → Intent
    → World
    → Option (Result ProxyError GuardedStream × World)
unfolding streamed
forward_streaming u timeout t outcome wakes request intent w =
    and_then (acquire t.admission timeout outcome wakes (on_metrics request_started w))
      (streamed intent t u request)
