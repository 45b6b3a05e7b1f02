-- ===== src/Proxy/Tests.antt =====
-- Runs of the event stream's model and instances of its theorems.
use ashat_coding_agent.Base.{◌≡◌, refl, some, none, true, false, map, List, [], ◌∷◌, ◌++◌, arith}
use ashat_coding_agent.Base.Map.{nat_eq}
use ashat_coding_agent.Base.Text.{Text, codes}
use ashat_coding_agent.Base.Result.{ok, err}
use ashat_coding_agent.Json.{object, no_members}
use ashat_coding_agent.Types.{ChatRequest, Intent, decode, no_ports_available}
use ashat_coding_agent.Metrics.{MetricRecord, record_metric, request_started, request_finished}
use ashat_coding_agent.Demand.{
  DemandPool, World, InstanceGuard, SpawnOutcome, refused, acquire, take_idle, drop_guard,
}
use ashat_coding_agent.Proxy.Send.{Upstream, Reply, Opened, send_non_stream_to, usage_tokens}
use ashat_coding_agent.Proxy.Local.{Times, forward, forwarded, answered, parsed}
use ashat_coding_agent.Proxy.Stream.{forward_streaming}
use ashat_coding_agent.Proxy.Balance.{StreamBalanced, forward_streaming-IsBalanced}
use ashat_coding_agent.Proxy.Records.{IsRecorded, forwarded-IsRecorded}
use ashat_coding_agent.Proxy.{Bytes, find_event_boundary, poll_next}
use ashat_coding_agent.Proxy.Chunks.{
  concat, drain, chunks, drain-concat, handed, AreEvents, drain_all,
}

-- `a\n\nb`, cut inside the boundary.
abbrev cut : List Bytes
cut = (97 ∷ 10 ∷ []) ∷ (10 ∷ 98 ∷ []) ∷ []

two_events : drain (λ b. 1 ∷ b) 9 [] (chunks cut) ≡ some ((1 ∷ 97 ∷ 10 ∷ 10 ∷ []) ∷ (98 ∷ []) ∷ [])
unfolding drain poll_next find_event_boundary
two_events = refl

drain-concat_example :
    drain (λ b. 1 ∷ b) 9 (97 ∷ []) (chunks cut) ≡ drain (λ b. 1 ∷ b) 9 ((97 ∷ []) ++ concat cut) []
drain-concat_example = drain-concat (λ b. 1 ∷ b) 9 (97 ∷ []) cut

drain_all_example :
    (pieces : List Bytes) × (drain (λ b. 1 ∷ b) 9 [] (chunks cut)
      ≡ some (map (handed (λ b. 1 ∷ b)) pieces))
    × (concat pieces ≡ concat cut)
    × AreEvents pieces
drain_all_example = drain_all (λ b. 1 ∷ b) 8 cut (omega arith)

abbrev idle_pool : DemandPool
idle_pool = record {
  spec = record {
    binary = "llama-server";
    model = "model.gguf";
    ctx = 4096;
    threads = 4;
    gpu_layers = 0;
    host = "127.0.0.1";
    mlock = false;
    always_alive = false;
  };
  baseline_port = none;
  free_ports = [];
  active = (18081, 777) ∷ [];
  idle_since = (18081, 40) ∷ [];
  baseline_child = none;
  queue = record { tickets = []; limit = 2; notified = 0 };
  spawn_attempts_threshold = 3;
  consecutive_spawn_failures = 0;
  last_failure_reason = none;
  last_startup_latency_ms = 9;
}

abbrev idle_world : World
idle_world = record {
  pool = idle_pool;
  metrics = record { records = []; recent_events = []; active_runs = []; active_requests = 2 };
}

-- A server that answers with JSON that is no chat response.
abbrev odd_server : Upstream Text
odd_server = record {
  build_error = none;
  to_value = λ r. ok (object no_members);
  from_value = λ v. err "missing field";
  send = λ p. Reply.json (object no_members);
  open_stream = λ p. Opened.body [];
}

abbrev hello : ChatRequest
hello = record {
  model = none;
  messages = record { role = codes "user"; content = codes "hi"; tool_call_id = none } ∷ [];
  max_tokens = none;
  temperature = none;
  top_p = none;
  stream = none;
  operation = none;
  tools = none;
}

abbrev soon : Times
soon = record { admission = 50; started = 51; finish = 60 }

abbrev no_spawn : SpawnOutcome
no_spawn = refused no_ports_available

abbrev lane : InstanceGuard
lane = record { port = 18081; is_baseline = false }

-- The lane goes back to the idle table, and the failed call is recorded as a success.
odd_reply :
    (w : World) × (forward odd_server 100 soon no_spawn [] hello Intent.chat idle_world
      ≡ some (err (decode "missing field"), w))
    × ((w.pool).idle_since ≡ (18081, 60) ∷ [])
    × (map (λ (r : MetricRecord). r.success) (w.metrics).records ≡ true ∷ [])
unfolding forward acquire take_idle forwarded answered parsed send_non_stream_to usage_tokens
    record_metric drop_guard request_started request_finished
odd_reply = (_, refl, refl, refl)

forward_streaming-IsBalanced_example :
    StreamBalanced odd_server Intent.chat soon hello 2
      (forward_streaming odd_server 100 soon no_spawn [] hello Intent.chat idle_world)
forward_streaming-IsBalanced_example =
    forward_streaming-IsBalanced odd_server Intent.chat soon hello 100 no_spawn [] idle_world
      (omega arith) tt

forwarded-IsRecorded_example :
    IsRecorded odd_server Intent.chat soon lane idle_world
      (send_non_stream_to odd_server "127.0.0.1" 18081 hello)
      (forwarded odd_server Intent.chat soon hello (ok lane, idle_world))
forwarded-IsRecorded_example =
    forwarded-IsRecorded odd_server Intent.chat soon lane hello idle_world
