-- ===== src/Demand/Baseline.antt =====
-- The always-on baseline child of a pool, its shutdown and its snapshot, in
-- crates/omega-core/src/demand.rs.
use ashat_coding_agent.Base.{
  ℕ, ◌+◌, Bool, true, false, Option, none, some, List, [], map, ◌&&◌, ltb, if◌then◌else◌, length,
}
use ashat_coding_agent.Base.Map.{nat_eq}
use ashat_coding_agent.Base.Result.{Result, ok, err}
use ashat_coding_agent.Types.{
  DemandSpawnError, no_ports_available, binary_not_found, Event, baseline_ready, baseline_respawned,
  baseline_respawn_failed, display, health_gave_up, baseline_abandoned,
}
use ashat_coding_agent.Queue.{depth}
use ashat_coding_agent.Metrics.{event}
use ashat_coding_agent.Base.{◌≡◌, arith}
use ashat_coding_agent.Demand.{
  DemandPool, World, Failure, SpawnOutcome, refused, unhealthy, healthy,
}

-- The children that are killed, and the pool.
unfoldable pub kill_active : DemandPool → List ℕ × DemandPool
kill_active p = (map (λ e. e.1) p.active, record p { active = [] })

-- `child_alive` stands for `try_wait`.
unfoldable pub baseline_alive : (child_alive : ℕ → Bool) → DemandPool → Bool
baseline_alive child_alive p =
    if (p.spec).always_alive
    then elim p.baseline_child [ none ↦ false | some child ↦ child_alive child ]
    else true

pub record PoolSnapshotCompact : Type 0 where
  pub ports_total : ℕ
  pub ports_active : ℕ
  pub baseline_alive : Bool
  pub extras_active : List ℕ
  pub free_ports : List ℕ
  pub queue_depth : ℕ
  pub queue_limit : ℕ
  pub last_failure_reason : Option Failure
  pub worker_startup_latency_ms : Option ℕ

abbrev is_some : {A : Type 0} → Option A → Bool
is_some none = false
is_some (some a) = true

unfoldable pub snapshot : (child_alive : ℕ → Bool) → DemandPool → PoolSnapshotCompact
snapshot child_alive p =
    let active_ports = map (λ (e : ℕ × ℕ). e.0) p.active in
    let alive = baseline_alive child_alive p in
    record {
      ports_total =
          length p.free_ports + length active_ports + (if is_some p.baseline_port then 1 else 0);
      ports_active = length active_ports + (if alive && (p.spec).always_alive then 1 else 0);
      baseline_alive = alive;
      extras_active = active_ports;
      free_ports = p.free_ports;
      queue_depth = depth p.queue;
      queue_limit = (p.queue).limit;
      last_failure_reason = p.last_failure_reason;
      worker_startup_latency_ms =
          if ltb 0 p.last_startup_latency_ms then some p.last_startup_latency_ms else none;
    }

-- The tail that `seed_baseline` and `respawn_baseline` share: `ready` and `failed` are their events.
abbrev baseline_outcome :
    (ready : Event)
    → (failed : DemandSpawnError → Event) → ℕ
    → SpawnOutcome
    → World
    → Result DemandSpawnError ℕ × World
baseline_outcome ready failed port (refused e) w = (err e, w)
baseline_outcome ready failed port (unhealthy child e) w =
    (err (health_gave_up (display e)), record w { metrics = event (failed e) w.metrics })
baseline_outcome ready failed port (healthy child ms) w = (
  ok port,
  record {
    pool = record (w.pool) { baseline_child = some child };
    metrics = event ready w.metrics;
  },
)

unfoldable pub seed_baseline : SpawnOutcome → World → Result DemandSpawnError ℕ × World
unfolding event
seed_baseline outcome w =
    if ((w.pool).spec).always_alive
    then elim (w.pool).baseline_port [
      | none ↦ (err no_ports_available, w)
      | some port ↦ baseline_outcome (baseline_ready port) (baseline_abandoned port) port outcome w
    ]
    else (err binary_not_found, w)

unfoldable pub respawn_baseline : SpawnOutcome → World → Result DemandSpawnError ℕ × World
unfolding event
respawn_baseline outcome w = elim (w.pool).baseline_port [
  | none ↦ (err no_ports_available, w)
  | some port ↦
      baseline_outcome (baseline_respawned port) (baseline_respawn_failed port) port outcome
        (record w { pool = record (w.pool) { baseline_child = none } })
]

-- What a respawn comes to, by what starting the child comes to.
abbrev pub IsRespawned :
    (child_alive : ℕ → Bool) → ℕ → SpawnOutcome → Result DemandSpawnError ℕ × World → Type 0
IsRespawned child_alive port (refused e) (r, w) =
    (r ≡ err e) × (baseline_alive child_alive w.pool ≡ false)
IsRespawned child_alive port (unhealthy child e) (r, w) =
    (r ≡ err (health_gave_up (display e))) × (baseline_alive child_alive w.pool ≡ false)
IsRespawned child_alive port (healthy child ms) (r, w) =
    (r ≡ ok port) × (baseline_alive child_alive w.pool ≡ child_alive child)

-- In an always-alive pool with a baseline port, a respawn forgets the old child in any case: behind
-- a failure the baseline is not alive, and behind a success it is alive exactly if the new child is.
pub respawn_baseline-IsRespawned :
    (child_alive : ℕ → Bool) (port : ℕ) (o : SpawnOutcome) (w : World)
    → ((w.pool).spec).always_alive ≡ true
    → (w.pool).baseline_port ≡ some port
    → IsRespawned child_alive port o (respawn_baseline o w)
unfolding respawn_baseline baseline_alive event
respawn_baseline-IsRespawned child_alive port (refused e) w a p = ground (arith, a, p)
respawn_baseline-IsRespawned child_alive port (unhealthy child e) w a p = ground (arith, a, p)
respawn_baseline-IsRespawned child_alive port (healthy child ms) w a p = ground (arith, a, p)
