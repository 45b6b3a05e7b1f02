-- ===== src/Handlers.antt =====
-- crates/omega-server/src/handlers.rs: `POST /v1/chat/completions`, composed of the router, the two
-- proxies and the tool loop. axum's body reader, serde's derived parser, the servers that answer and
-- the clock are outside the source; the tool loop is an operation of the state.
pub mod Admin
pub mod Retry
pub mod Tests
pub mod Validation
pub mod Statuses
use ashat_coding_agent.Base.{
  ℕ, ◌+◌, Bool, true, false, ◌&&◌, Option, none, some, List, [], ◌∷◌, String, str_eq, length, ltb,
  if◌then◌else◌,
}
use ashat_coding_agent.Base.Result.{Result, ok, err}
use ashat_coding_agent.Types.{
  BackendServer, ChatMessage, ChatRequest, Intent, ProxyError, connection, RouterError,
  AgentOperation,
}
use ashat_coding_agent.Router.{RowRouter, pick, mark_unhealthy}
use ashat_coding_agent.Metrics.{MetricsStore}
use ashat_coding_agent.Demand.{World, InstanceGuard, SpawnOutcome, Wake}
use ashat_coding_agent.Proxy.{Bytes}
use ashat_coding_agent.Proxy.Send.{Upstream}
use ashat_coding_agent.Proxy.Local.{Times, release, forward, on_metrics, and_then}
use ashat_coding_agent.Proxy.Stream.{GuardedStream, forward_streaming}
use ashat_coding_agent.Proxy.Cross.{CrossServerStream, cross_forward, cross_forward_streaming}

pub record AppState : Type 0 where
  pub router : RowRouter
  pub world : World

-- The body of a 503: a fixed text, or the text of a proxy error.
pub data Problem : Type 0 where
  chain_exhausted : Problem
  proxy_failed : ProxyError → Problem

-- `C` is a chat response of a lane, `T` one of the tool loop. `agent_events` is the latter as two
-- events, itself and the end mark of a stream.
pub data Response (C T : Type 0) : Type 0 where
  json : C → Response C T
  agent_json : T → Response C T
  agent_events : T → Response C T
  local_stream : GuardedStream → Response C T
  remote_stream : CrossServerStream → Response C T
  bad_request : (message : String) → Response C T
  unavailable : Problem → Response C T

abbrev pub status_code : {C T : Type 0} → Response C T → ℕ
status_code (bad_request message) = 400
status_code (unavailable p) = 503
status_code _ = 200

abbrev pub error_response : {C T : Type 0} → ProxyError → Response C T
error_response e = unavailable (proxy_failed e)

abbrev pub max_body : ℕ
max_body = 1048576

abbrev pub messages_checked : ChatRequest → List ChatMessage → Result String ChatRequest
messages_checked r [] = err "Missing or empty messages"
messages_checked r (m ∷ ms) = ok r

abbrev pub json_checked : Option ChatRequest → Result String ChatRequest
json_checked none = err "Invalid JSON body"
json_checked (some r) = messages_checked r r.messages

abbrev pub size_checked : (Bytes → Option ChatRequest) → Option Bytes → Result String ChatRequest
size_checked from_slice none = err "Invalid JSON body"
size_checked from_slice (some raw) =
    if ltb max_body (length raw)
    then err "Request body too large"
    else json_checked (from_slice raw)

-- The checks before any work is done. `to_bytes limit` is what axum reads of the body.
unfoldable pub validate :
    (from_slice : Bytes → Option ChatRequest) (to_bytes : ℕ → Option Bytes)
    → Result String ChatRequest
validate from_slice to_bytes = size_checked from_slice (to_bytes (max_body + 1))

abbrev pub intent_of : Option AgentOperation → Intent
intent_of (some AgentOperation.agent) = Intent.code
intent_of _ = Intent.chat

abbrev pub is_code : Intent → Bool
is_code Intent.code = true
is_code _ = false

abbrev pub streams : ChatRequest → Bool
streams r = elim r.stream [ some b ↦ b | none ↦ false ]

-- A round of the row chain: the probes' answers, and the times before and behind them.
pub record Round : Type 0 where
  pub probe : BackendServer → Bool
  pub now : ℕ
  pub later : ℕ

-- An attempt to reach another server: who answers it, and when it starts and ends.
pub record Attempt (C : Type 0) : Type 0 where
  pub upstream : Upstream C
  pub started : ℕ
  pub finish : ℕ

-- What the rest of the world does during a call of `chat`.
pub record Outside (C : Type 0) : Type 0 where
  pub round : Round
  pub first : Attempt C
  pub failed_at : ℕ
  pub again : Round
  pub second : Attempt C
  pub lane : Upstream C
  pub times : Times
  pub timeout : ℕ
  pub outcome : SpawnOutcome
  pub wakes : List Wake

module _ {C T : Type 0} (o : Outside C)
    (run : ChatRequest → World → Option (Result ProxyError T × World)) where
  abbrev pub agent_response : Bool → Result ProxyError T → Response C T
  agent_response stream_mode (ok t) = if stream_mode then agent_events t else agent_json t
  agent_response stream_mode (err e) = error_response e

  abbrev pub Reached : Type 0
  Reached = Option (Response C T × AppState)

  abbrev pub at_world : AppState → Response C T × World → Response C T × AppState
  at_world st (r, w) = (r, record st { world = w })

  abbrev pub with_response : Bool → Result ProxyError T × World → Response C T × World
  with_response stream_mode (result, w) = (agent_response stream_mode result, w)

  unfoldable pub forward_tool_loop : ChatRequest → AppState → Reached
  forward_tool_loop r st =
      and_then (run r st.world) (λ out. at_world st (with_response (streams r) out))

  -- `drop(guard)` behind a response.
  abbrev pub local_response : Result ProxyError (C × InstanceGuard) × World → Response C T × World
  local_response (ok (c, g), w) = (json c, release (o.times).finish g w)
  local_response (err e, w) = (error_response e, w)

  abbrev pub stream_response : Result ProxyError GuardedStream × World → Response C T × World
  stream_response (ok s, w) = (local_stream s, w)
  stream_response (err e, w) = (error_response e, w)

  unfoldable pub forward_local : ChatRequest → Intent → AppState → Reached
  forward_local r intent st =
      if streams r
      then and_then (forward_streaming o.lane o.timeout o.times o.outcome o.wakes r intent st.world)
          (λ out. at_world st (stream_response out))
      else and_then (forward o.lane o.timeout o.times o.outcome o.wakes r intent st.world)
          (λ out. at_world st (local_response out))

  abbrev pub on_store :
      AppState
      → Result ProxyError (Response C T) × MetricsStore
      → Result ProxyError (Response C T) × AppState
  on_store st (r, m) = (r, record st { world = on_metrics (λ old. m) st.world })

  abbrev pub as_json :
      Result ProxyError C × MetricsStore → Result ProxyError (Response C T) × MetricsStore
  as_json (ok c, m) = (ok (json c), m)
  as_json (err e, m) = (err e, m)

  abbrev pub as_stream :
      Result ProxyError CrossServerStream × MetricsStore
      → Result ProxyError (Response C T) × MetricsStore
  as_stream (ok s, m) = (ok (remote_stream s), m)
  as_stream (err e, m) = (err e, m)

  unfoldable pub forward_cross_server :
      Attempt C
      → ChatRequest
      → Intent
      → BackendServer
      → AppState
      → Result ProxyError (Response C T) × AppState
  forward_cross_server a r intent b st =
      let m = (st.world).metrics in
      on_store st (
        if streams r
        then as_stream (cross_forward_streaming a.upstream intent b a.started a.finish r m)
        else as_json (cross_forward a.upstream intent b a.started a.finish r m))

  abbrev pub answer : Result ProxyError (Response C T) × AppState → Response C T × AppState
  answer (ok r, st) = (r, st)
  answer (err e, st) = (error_response e, st)

  -- The second `pick`, behind the failure `e` of the backend `b`.
  unfoldable pub repick :
      ChatRequest
      → Intent
      → BackendServer
      → ProxyError
      → AppState
      → Option (Result RouterError BackendServer × RowRouter)
      → Reached
  repick r intent b e st none = none
  repick r intent b e st (some (err x, router)) =
      some (error_response e, record st { router = router })
  repick r intent b e st (some (ok next, router)) =
      let st' : AppState = record st { router = router } in
      if str_eq next.id b.id
      then some (error_response e, st')
      else some (answer (forward_cross_server o.second r intent next st'))

  -- The first attempt at another server, and the retry.
  unfoldable pub first_answer :
      ChatRequest → Intent → BackendServer → Result ProxyError (Response C T) × AppState → Reached
  unfolding repick
  first_answer r intent b (ok response, st) = some (response, st)
  first_answer r intent b (err (connection e), st) =
      let marked = mark_unhealthy b.id o.failed_at st.router in
      repick r intent b (connection e) (record st { router = marked })
        (pick (o.again).probe (o.again).now (o.again).later marked)
  first_answer r intent b (err e, st) = some (error_response e, st)

  unfoldable pub serve : ChatRequest → Intent → BackendServer → AppState → Reached
  unfolding forward_tool_loop forward_local first_answer
  serve r intent b st =
      if str_eq b.id "omega" && is_code intent
      then forward_tool_loop r st
      else if str_eq b.id "omega"
      then forward_local r intent st
      else first_answer r intent b (forward_cross_server o.first r intent b st)

  unfoldable pub picked :
      ChatRequest → AppState → Option (Result RouterError BackendServer × RowRouter) → Reached
  unfolding serve
  picked r st none = none
  picked r st (some (err x, router)) =
      some (unavailable Problem.chain_exhausted, record st { router = router })
  picked r st (some (ok b, router)) =
      serve r (intent_of r.operation) b (record st { router = router })

  abbrev pub routed : AppState → Result String ChatRequest → Reached
  routed st (err message) = some (bad_request message, st)
  routed st (ok r) = picked r st (pick (o.round).probe (o.round).now (o.round).later st.router)

  -- `none` is a call that still waits for a lane (or a panic of the router, which `pick` excludes).
  unfoldable pub chat :
      (from_slice : Bytes → Option ChatRequest) (to_bytes : ℕ → Option Bytes) → AppState → Reached
  unfolding validate picked
  chat from_slice to_bytes st = routed st (validate from_slice to_bytes)
