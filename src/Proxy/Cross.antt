-- ===== src/Proxy/Cross.antt =====
-- `CrossServerProxy` of crates/omega-core/src/proxy.rs: a request that goes to another server of the
-- row chain. Its stream is the annotating one, with no guard.
use ashat_coding_agent.Base.{ℕ, ◌-◌, Bool, true, false, Option, none, some, []}
use ashat_coding_agent.Base.Text.{Text, codes}
use ashat_coding_agent.Base.Result.{Result, ok, err, ◌>>=◌}
use ashat_coding_agent.Json.{Value}
use ashat_coding_agent.Types.{
  BackendServer, ChatRequest, Intent, ProxyError, connection, status, decode,
}
use ashat_coding_agent.Metrics.{
  MetricRecord, MetricsStore, ErrorCategory, cross_server_http, record_metric,
}
use ashat_coding_agent.Proxy.{LaneAnnotatingStream}
use ashat_coding_agent.Proxy.Annotate.{with_lane}
use ashat_coding_agent.Proxy.Send.{
  Upstream, Post, Reply, Opened, unsent, refused, malformed, json, body, built, or_decode,
  with_stream,
}

pub record CrossServerStream : Type 0 where
  pub inner : LaneAnnotatingStream
  pub lane : Text

-- Both calls write no token counts and no time to the first token.
abbrev pub cross_record :
    Intent → BackendServer → (now latency : ℕ) → Bool → Option ErrorCategory → MetricRecord
cross_record intent b now latency success category = record {
  timestamp = now;
  intent = intent;
  target_port = b.port;
  success = success;
  latency = latency;
  queue_wait = 0;
  prompt_tokens = 0;
  completion_tokens = 0;
  time_to_first_token = none;
  error_category = category;
}

abbrev pub refusal : Intent → BackendServer → (now code : ℕ) → MetricRecord
refusal intent b now code =
    cross_record intent b now 0 false (some (cross_server_http b.id b.port code))

abbrev pub id_text : BackendServer → Text
id_text b = codes b.id

abbrev post : BackendServer → Bool → Value → Post
post b events v = record {
  secure = true;
  host = b.host;
  port = b.port;
  api_key = b.api_key;
  events = events;
  body = with_stream events v;
}

module _ {C : Type 0} (u : Upstream C) (intent : Intent) (b : BackendServer) (started now : ℕ) where
  unfoldable pub cross_reply : Reply → MetricsStore → Result ProxyError C × MetricsStore
  cross_reply (Reply.unsent e) m = (err (connection e), m)
  cross_reply (Reply.refused code) m =
      (err (status code), record_metric (refusal intent b now code) m)
  cross_reply (malformed e) m = (err (decode e), m)
  cross_reply (json v) m = (
    or_decode (u.from_value (with_lane (id_text b) v)),
    record_metric (cross_record intent b now (now - started) true none) m,
  )

  abbrev sent : Result ProxyError Reply → MetricsStore → Result ProxyError C × MetricsStore
  sent (err e) m = (err e, m)
  sent (ok r) m = cross_reply r m

  unfoldable pub cross_forward : ChatRequest → MetricsStore → Result ProxyError C × MetricsStore
  unfolding cross_reply
  cross_forward request m =
      sent
        (built u.build_error >>= λ _.
          or_decode (u.to_value request) >>= λ v. ok (u.send (post b false v)))
        m

  unfoldable pub cross_opened :
      Opened → MetricsStore → Result ProxyError CrossServerStream × MetricsStore
  cross_opened (unsent e) m = (err (connection e), m)
  cross_opened (refused code) m = (err (status code), record_metric (refusal intent b now code) m)
  cross_opened (body items) m = (
    ok (record { inner = record { byte_stream = items; buffer = [] }; lane = id_text b }),
    record_metric (cross_record intent b now 0 true none) m,
  )

  abbrev connected :
      Result ProxyError Opened → MetricsStore → Result ProxyError CrossServerStream × MetricsStore
  connected (err e) m = (err e, m)
  connected (ok o) m = cross_opened o m

  unfoldable pub cross_forward_streaming :
      ChatRequest → MetricsStore → Result ProxyError CrossServerStream × MetricsStore
  unfolding cross_opened
  cross_forward_streaming request m =
      connected
        (built u.build_error >>= λ _.
          or_decode (u.to_value request) >>= λ v. ok (u.open_stream (post b true v)))
        m
