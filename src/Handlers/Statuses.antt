-- ===== src/Handlers/Statuses.antt =====
-- The answers of `chat`: a 400 for the requests that it refuses, and for no other.
use ashat_coding_agent.Base.{
  ℕ, ◌≡◌, refl, ◌⊎◌, inl, inr, Bool, true, false, Option, none, some, String, Bool-cases, str_eq,
}
use ashat_coding_agent.Base.Result.{Result, ok, err}
use ashat_coding_agent.Types.{
  BackendServer, ChatRequest, Intent, ProxyError, connection, status, decode, none_available,
  RouterError,
}
use ashat_coding_agent.Router.{RowRouter, mark_unhealthy}
use ashat_coding_agent.Demand.{World, InstanceGuard}
use ashat_coding_agent.Metrics.{MetricsStore}
use ashat_coding_agent.Proxy.{Bytes}
use ashat_coding_agent.Proxy.Local.{and_then}
use ashat_coding_agent.Proxy.Stream.{GuardedStream}
use ashat_coding_agent.Proxy.Cross.{CrossServerStream}
use ashat_coding_agent.Handlers.{
  AppState, Response, bad_request, Outside, status_code, validate, intent_of, streams, Reached,
  at_world, with_response, on_store, forward_tool_loop, local_response, stream_response,
  forward_local, Attempt, as_json, as_stream, forward_cross_server, answer, repick, first_answer,
  serve, picked, chat, routed, is_code,
}
use ashat_coding_agent.Handlers.Validation.{Reads, IsRefused, IsAccepted, Judged, validate-Judged}

-- The answers behind the checks.
abbrev pub IsServed : ℕ → Type 0
IsServed code = (code ≡ 200) ⊎ (code ≡ 503)

module _ {C T : Type 0} (o : Outside C)
    (run : ChatRequest → World → Option (Result ProxyError T × World)) where
  abbrev Serves : Reached o run → Type 0
  Serves none = Unit
  Serves (some (response, st)) = IsServed (status_code response)

  and_then-Serves :
      {A : Type 0} (m : Option A) (f : A → Response C T × AppState)
      → ((a : A) → IsServed (status_code (f a).0))
      → Serves (and_then m f)
  and_then-Serves none f h = tt
  and_then-Serves (some a) f h = h a

  agent-Serves :
      (b : Bool) (st : AppState) (out : Result ProxyError T × World)
      → IsServed (status_code (at_world o run st (with_response o run b out)).0)
  agent-Serves true st (ok t, w) = inl refl
  agent-Serves false st (ok t, w) = inl refl
  agent-Serves b st (err e, w) = inr refl

  local-Serves :
      (st : AppState) (out : Result ProxyError (C × InstanceGuard) × World)
      → IsServed (status_code (at_world o run st (local_response o run out)).0)
  local-Serves st (ok (c, g), w) = inl refl
  local-Serves st (err e, w) = inr refl

  stream-Serves :
      (st : AppState) (out : Result ProxyError GuardedStream × World)
      → IsServed (status_code (at_world o run st (stream_response o run out)).0)
  stream-Serves st (ok s, w) = inl refl
  stream-Serves st (err e, w) = inr refl

  forward_local-Serves :
      (r : ChatRequest) (intent : Intent) (st : AppState) → Serves (forward_local o run r intent st)
  unfolding forward_local
  forward_local-Serves r intent st = elim (Bool-cases (streams r)) [
    | inl e ↦ rw e (and_then-Serves _ _ (stream-Serves st))
    | inr e ↦ rw e (and_then-Serves _ _ (local-Serves st))
  ]

  -- A response that a proxy hands on.
  abbrev Hands : Result ProxyError (Response C T) × AppState → Type 0
  Hands (ok response, st) = status_code response ≡ 200
  Hands (err e, st) = Unit

  cross-Hands :
      (st : AppState) (out : Result ProxyError C × MetricsStore)
      → Hands (on_store o run st (as_json o run out))
  cross-Hands st (ok c, m) = refl
  cross-Hands st (err e, m) = tt

  cross_stream-Hands :
      (st : AppState) (out : Result ProxyError CrossServerStream × MetricsStore)
      → Hands (on_store o run st (as_stream o run out))
  cross_stream-Hands st (ok s, m) = refl
  cross_stream-Hands st (err e, m) = tt

  forward_cross_server-Hands :
      (a : Attempt C) (r : ChatRequest) (intent : Intent) (b : BackendServer) (st : AppState)
      → Hands (forward_cross_server o run a r intent b st)
  unfolding forward_cross_server
  forward_cross_server-Hands a r intent b st = elim (Bool-cases (streams r)) [
    | inl e ↦ rw e (cross_stream-Hands st _)
    | inr e ↦ rw e (cross-Hands st _)
  ]

  answer-Serves :
      (out : Result ProxyError (Response C T) × AppState)
      → Hands out
      → Serves (some (answer o run out))
  answer-Serves (ok response, st) h = inl h
  answer-Serves (err e, st) h = inr refl

  repick-Serves :
      (r : ChatRequest) (intent : Intent) (b : BackendServer) (e : ProxyError) (st : AppState)
      (p : Option (Result RouterError BackendServer × RowRouter))
      → Serves (repick o run r intent b e st p)
  unfolding repick
  repick-Serves r intent b e st none = tt
  repick-Serves r intent b e st (some (err x, router)) = inr refl
  repick-Serves r intent b e st (some (ok next, router)) = elim (Bool-cases (str_eq next.id b.id)) [
    | inl same ↦ rw same (inr refl)
    | inr other ↦ rw other (answer-Serves _ (forward_cross_server-Hands _ r intent next _))
  ]

  first_answer-Serves :
      (r : ChatRequest) (intent : Intent) (b : BackendServer)
      (out : Result ProxyError (Response C T) × AppState)
      → Hands out
      → Serves (first_answer o run r intent b out)
  unfolding first_answer
  first_answer-Serves r intent b (ok response, st) h = inl h
  first_answer-Serves r intent b (err (connection e), st) h =
      repick-Serves r intent b (connection e)
        (record st { router = mark_unhealthy b.id o.failed_at st.router }) _
  first_answer-Serves r intent b (err (status code), st) h = inr refl
  first_answer-Serves r intent b (err (decode e), st) h = inr refl
  first_answer-Serves r intent b (err none_available, st) h = inr refl

  serve-Serves :
      (r : ChatRequest) (intent : Intent) (b : BackendServer) (st : AppState)
      → Serves (serve o run r intent b st)
  unfolding serve forward_tool_loop
  serve-Serves r intent b st = elim (Bool-cases (str_eq b.id "omega")) [
    | inl here ↦ elim (Bool-cases (is_code intent)) [
      | inl code ↦ rw (here, code) (and_then-Serves _ _ (agent-Serves (streams r) st))
      | inr plain ↦ rw (here, plain) (forward_local-Serves r intent st)
    ]
    | inr there ↦
        rw there (first_answer-Serves r intent b _ (forward_cross_server-Hands _ r intent b st))
  ]

  picked-Serves :
      (r : ChatRequest) (st : AppState) (p : Option (Result RouterError BackendServer × RowRouter))
      → Serves (picked o run r st p)
  unfolding picked
  picked-Serves r st none = tt
  picked-Serves r st (some (err x, router)) = inr refl
  picked-Serves r st (some (ok b, router)) =
      serve-Serves r (intent_of r.operation) b (record st { router = router })

  -- A call of `chat`: refused, or handed on to a backend.
  abbrev pub IsAnswered : (Bytes → Option ChatRequest) → Bytes → AppState → Reached o run → Type 0
  IsAnswered from_slice raw st out =
      ((message : String) × IsRefused from_slice raw message
        × (out ≡ some (bad_request message, st)))
      ⊎ ((r : ChatRequest) × IsAccepted from_slice raw r × Serves out)

  routed-IsAnswered :
      (from_slice : Bytes → Option ChatRequest) (raw : Bytes) (st : AppState)
      (checked : Result String ChatRequest)
      → Judged from_slice raw checked
      → IsAnswered from_slice raw st (routed o run st checked)
  routed-IsAnswered from_slice raw st (err message) why = inl (message, why, refl)
  routed-IsAnswered from_slice raw st (ok r) fine = inr (r, fine, picked-Serves r st _)

  -- Over a reader that fails beyond its limit, `chat` answers 400 and leaves the router, the pool
  -- and the metrics alone exactly if the body is too long, is not a chat request, or has no
  -- messages, with that reason as its message; but "Request body too large" is said of one length
  -- only, 1 MiB and 1 byte: a longer body is called invalid JSON. Any other request that is
  -- answered gets a 200 or a 503.
  pub chat-IsAnswered :
      (from_slice : Bytes → Option ChatRequest) (to_bytes : ℕ → Option Bytes) (raw : Bytes)
      (st : AppState)
      → Reads raw to_bytes
      → IsAnswered from_slice raw st (chat o run from_slice to_bytes st)
  unfolding chat
  chat-IsAnswered from_slice to_bytes raw st reads =
      routed-IsAnswered from_slice raw st (validate from_slice to_bytes)
        (validate-Judged from_slice raw to_bytes reads)
