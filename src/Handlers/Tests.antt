-- ===== src/Handlers/Tests.antt =====
-- Runs of `chat` and instances of its theorems: two backends, of which one cannot be reached.
use ashat_coding_agent.Base.{
  ◌≡◌, refl, some, none, true, false, Option, [], ◌∷◌, arith, ℕ, leb, if◌then◌else◌, eq_iff, inl,
  inr,
}
use ashat_coding_agent.Base.Int.{pos, ◌+ℤ◌, ◌-ℤ◌}
use ashat_coding_agent.Base.Text.{Text, codes}
use ashat_coding_agent.Base.Result.{Result, ok, err}
use ashat_coding_agent.Json.{object, no_members}
use ashat_coding_agent.Types.{
  BackendServer, ChatRequest, Intent, ProxyError, connection, no_ports_available,
}
use ashat_coding_agent.Metrics.{record_metric}
use ashat_coding_agent.Router.{
  RowRouter, pick, refresh, healthy_set, select_healthy, select_weighted, round, scan, visit,
  record_probes, mark_unhealthy, positions_of, find_position,
}
use ashat_coding_agent.Router.Pick.{IsChain}
use ashat_coding_agent.Demand.{DemandPool, World, refused}
use ashat_coding_agent.Proxy.{Bytes}
use ashat_coding_agent.Proxy.Send.{Upstream, Post, Reply, Opened}
use ashat_coding_agent.Proxy.Cross.{cross_forward}
use ashat_coding_agent.Handlers.{
  AppState, Response, Round, Outside, chat, first_answer, forward_cross_server,
}
use ashat_coding_agent.Handlers.Statuses.{IsAnswered, chat-IsAnswered}
use ashat_coding_agent.Handlers.Retry.{Follows, first_answer-Follows}

abbrev omega_row : BackendServer
omega_row = record {
  id = "omega";
  host = "10.0.0.1";
  port = 8080;
  api_key = none;
  enabled = true;
  weight = 1;
}

abbrev beta_row : BackendServer
beta_row = record omega_row { id = "beta"; host = "10.0.0.2"; weight = 2 }

abbrev two_rows : RowRouter
two_rows = record {
  backends = omega_row ∷ beta_row ∷ [];
  health = [];
  current = pos 0 ∷ pos 0 ∷ [];
}

beta_not_omega : ¬ (beta_row.id ≡ omega_row.id)
beta_not_omega e = ground (arith, (eq_iff "beta" "omega").1 e)

two_rows-IsChain : IsChain two_rows
two_rows-IsChain = record {
  chain = ((λ m. elim m [ inl e ↦ beta_not_omega e | inr x ↦ x ]), ((λ m. m), tt));
  aligned = refl;
}

abbrev empty_pool : DemandPool
empty_pool = record {
  spec = record {
    binary = "llama-server";
    model = "model.gguf";
    ctx = 4096;
    threads = 4;
    gpu_layers = 0;
    host = "127.0.0.1";
    mlock = false;
    always_alive = false;
  };
  baseline_port = none;
  free_ports = [];
  active = [];
  idle_since = [];
  baseline_child = none;
  queue = record { tickets = []; limit = 2; notified = 0 };
  spawn_attempts_threshold = 3;
  consecutive_spawn_failures = 0;
  last_failure_reason = none;
  last_startup_latency_ms = 9;
}

abbrev app : AppState
app = record {
  router = two_rows;
  world = record {
    pool = empty_pool;
    metrics = record { records = []; recent_events = []; active_runs = []; active_requests = 0 };
  };
}

abbrev serving : (Post → Reply) → Upstream Text
serving send = record {
  build_error = none;
  to_value = λ r. ok (object no_members);
  from_value = λ v. ok (codes "hello");
  send = send;
  open_stream = λ p. Opened.body [];
}

abbrev all_up : (now : ℕ) → Round
all_up now = record { probe = λ b. true; now = now; later = now }

-- The first server cannot be reached, the second answers.
abbrev down_then_up : Outside Text
down_then_up = record {
  round = all_up 100;
  first = record { upstream = serving (λ p. Reply.unsent "refused"); started = 101; finish = 102 };
  failed_at = 102;
  again = all_up 103;
  second = record {
    upstream = serving (λ p. Reply.json (object no_members));
    started = 104;
    finish = 105;
  };
  lane = serving (λ p. Reply.unsent "refused");
  times = record { admission = 110; started = 111; finish = 112 };
  timeout = 100;
  outcome = refused no_ports_available;
  wakes = [];
}

abbrev no_agent : ChatRequest → World → Option (Result ProxyError Text × World)
no_agent r w = none

abbrev greeting : ChatRequest
greeting = record {
  model = none;
  messages = record { role = codes "user"; content = codes "hi"; tool_call_id = none } ∷ [];
  max_tokens = none;
  temperature = none;
  top_p = none;
  stream = none;
  operation = none;
  tools = none;
}

abbrev parse : Bytes → Option ChatRequest
parse raw = some greeting

abbrev reader : ℕ → Option Bytes
reader limit = if leb 2 limit then some (123 ∷ 125 ∷ []) else none

-- `beta` is picked, cannot be reached, and the request goes to `omega` over the network.
answered_by_omega :
    (st : AppState) × (chat down_then_up no_agent parse reader app
      ≡ some (Response.json (codes "hello"), st))
unfolding chat pick refresh healthy_set select_healthy select_weighted round scan visit ◌+ℤ◌ ◌-ℤ◌
    record_probes mark_unhealthy positions_of find_position forward_cross_server cross_forward
    record_metric
answered_by_omega = (_, refl)

chat-IsAnswered_example :
    IsAnswered down_then_up no_agent parse
      (123 ∷ 125 ∷ [])
      app
      (chat down_then_up no_agent parse reader app)
chat-IsAnswered_example =
    chat-IsAnswered down_then_up no_agent parse reader (123 ∷ 125 ∷ []) app (λ limit. refl)

abbrev unreached : Result ProxyError (Response Text Text) × AppState
unreached = (err (connection "refused"), app)

first_answer-Follows_example :
    Follows down_then_up no_agent greeting Intent.chat beta_row unreached two_rows-IsChain
      (first_answer down_then_up no_agent greeting Intent.chat beta_row unreached)
first_answer-Follows_example =
    first_answer-Follows down_then_up no_agent greeting Intent.chat beta_row unreached
      two_rows-IsChain (omega arith)
