-- ===== src/Demand/Tests.antt =====
-- Runs of the demand pool's model and instances of its theorems.
use ashat_coding_agent.Base.{
  ℕ, Bool, true, leb, ◌↔◌, ◌≤◌, ◌<◌, ◌≡◌, refl, some, none, List, [], ◌∷◌, false, arith, count,
}
use ashat_coding_agent.Demand.Baseline.{IsRespawned, respawn_baseline, respawn_baseline-IsRespawned}
use ashat_coding_agent.Demand.Spawn.{wait_for_health, wait_for_health_lem}
use ashat_coding_agent.Base.Map.{lookup, nat_eq}
use ashat_coding_agent.Base.Result.{ok}
use ashat_coding_agent.Queue
use ashat_coding_agent.Metrics.{MetricsStore}
use ashat_coding_agent.Demand.{
  DemandSpec, DemandPool, DemandPoolBuilder, World, build, healthy, Wake, woken, timed_out,
  pop_free, spawned_child, healthy_step, drop_guard, take_idle, expired, reap_one, kill_active,
  wait_and_pump, enqueue_and_wait, after_wait, spawn_on_demand, InstanceGuard,
}
use ashat_coding_agent.Demand.Lanes.{
  Lanes, Reach, here, next, pop, spawn, serve, give_back, IsOwned, IsOnce, fresh,
}
use ashat_coding_agent.Demand.Reaper.{with_pool, reap_race}
use ashat_coding_agent.Demand.Waiting.{
  tickets, Leaves, enqueue_and_wait-tickets, GetsNone, wait_and_pump-starves,
}

abbrev test_spec : DemandSpec
test_spec = record {
  binary = "llama-server";
  model = "model.gguf";
  ctx = 4096;
  threads = 4;
  gpu_layers = 0;
  host = "127.0.0.1";
  mlock = false;
  always_alive = false;
}

abbrev test_builder : DemandPoolBuilder
test_builder = record { spec = test_spec; queue_max = 2; spawn_attempts_threshold = 3 }

abbrev test_store : MetricsStore
test_store = record { records = []; recent_events = []; active_runs = []; active_requests = 0 }

abbrev test_ports : List ℕ
test_ports = 18081 ∷ 18082 ∷ []

test-IsOnce : IsOnce test_ports
test-IsOnce x = ground arith

abbrev start_state : Lanes
start_state = fresh test_builder test_ports test_store

-- A lane is spawned, served and given back.
run_to_idle : (t : Lanes) × Reach start_state t × (((t.world).pool).idle_since ≡ (18081, 50) ∷ [])
unfolding build pop_free spawned_child healthy_step drop_guard Queue.new Queue.notify_slot_available
run_to_idle = (
  _,
  next
      (next (next (next here (pop 18081 _ refl)) (spawn 18081 777 (omega arith)))
        (serve 18081 9 (omega arith)))
      (give_back 18081 50 (omega arith)),
  refl,
)

-- A shutdown kills the children of the idle lanes, which stay in the table of idle lanes.
killed : (kill_active ((run_to_idle.0).world).pool).active ≡ []
unfolding kill_active
killed = refl

idle_IsOwned : IsOwned test_ports run_to_idle.0
unfolding run_to_idle build pop_free spawned_child healthy_step drop_guard Queue.new
    Queue.notify_slot_available
idle_IsOwned = record { placed = λ x. ground arith; running = λ x. ground arith }

idle_pool : DemandPool
idle_pool = ((run_to_idle.0).world).pool

reap_race_example :
    (p : DemandPool) × (take_idle idle_pool ≡ some (18081, p))
    × (0 < count 18081 (expired 100 200 idle_pool.idle_since))
    × (0 < count 18081 (reap_one 18081 p).free_ports)
    × (lookup 18081 (reap_one 18081 p).active ≡ none)
    × (¬ IsOwned test_ports (record (with_pool run_to_idle.0 (reap_one 18081 p)) {
      held = 18081 ∷ (run_to_idle.0).held;
    }))
unfolding idle_pool
reap_race_example =
    reap_race test_ports run_to_idle.0 100 200 18081 50 [] test-IsOnce idle_IsOwned run_to_idle.2
      (omega arith)

abbrev busy_pool : DemandPool
busy_pool = record {
  spec = test_spec;
  baseline_port = none;
  free_ports = [];
  active = (18081, 777) ∷ [];
  idle_since = [];
  baseline_child = none;
  queue = record { tickets = []; limit = 2; notified = 0 };
  spawn_attempts_threshold = 3;
  consecutive_spawn_failures = 0;
  last_failure_reason = none;
  last_startup_latency_ms = 9;
}

abbrev busy_world : World
busy_world = record { pool = busy_pool; metrics = test_store }

-- The holder of the only lane gives it back, and the waiter is woken.
abbrev release : World → World
release w = record w { pool = record (w.pool) { free_ports = []; idle_since = (18081, 60) ∷ [] } }

-- The reaper frees the port while the waiter sleeps.
abbrev freed : World → World
freed w = record w { pool = record (w.pool) { free_ports = 18081 ∷ [] } }

abbrev fail_then_get : List Wake
fail_then_get = woken 60 release (healthy 778 5) ∷ woken 70 freed (healthy 778 5) ∷ []

-- The queue is empty, and one deep behind a successful call.
queue_grows :
    (g : InstanceGuard) × (w : World) × (enqueue_and_wait 50 100 fail_then_get busy_world
      ≡ some (ok g, w))
    × (tickets w ≡ 1)
unfolding enqueue_and_wait Queue.try_enqueue wait_and_pump after_wait spawn_on_demand pop_free
    spawned_child healthy_step
queue_grows = (_, _, refl, refl)

enqueue_and_wait-tickets_example : Leaves 0 (enqueue_and_wait 50 100 fail_then_get busy_world)
enqueue_and_wait-tickets_example =
    enqueue_and_wait-tickets 50 100 fail_then_get busy_world ((λ w. refl), ((λ w. refl), tt))

wait_and_pump-starves_example :
    GetsNone
      (wait_and_pump 150 50 (woken 60 release (healthy 778 5) ∷ timed_out release ∷ []) busy_world)
wait_and_pump-starves_example =
    wait_and_pump-starves 150 50 (woken 60 release (healthy 778 5) ∷ timed_out release ∷ [])
      busy_world ((λ w. refl), ((λ w. refl), tt))

abbrev third_attempt : ℕ → Bool
third_attempt n = leb 3 n

wait_for_health_lem_example :
    (wait_for_health none "http://127.0.0.1:18081/health" third_attempt ≡ ok tt)
    ↔ ((k : ℕ) × (1 ≤ k) × (k ≤ 60) × (third_attempt k ≡ true))
wait_for_health_lem_example = wait_for_health_lem "http://127.0.0.1:18081/health" third_attempt

abbrev baseline_world : World
baseline_world = record busy_world {
  pool = record busy_pool {
    spec = record test_spec { always_alive = true };
    baseline_port = some 18080;
    baseline_child = some 700;
  };
}

respawn_baseline-IsRespawned_example :
    IsRespawned (λ c. true) 18080 (healthy 701 5) (respawn_baseline (healthy 701 5) baseline_world)
respawn_baseline-IsRespawned_example =
    respawn_baseline-IsRespawned (λ c. true) 18080 (healthy 701 5) baseline_world refl refl
