-- ===== src/Demand.antt =====
-- crates/omega-core/src/demand.rs: the spawn-on-demand pool of `llama-server` children. The
-- processes and their /health answers are outside the source: what a spawn comes to is an
-- argument, `SpawnOutcome`. A child is known by its process id. Maps from ports are association
-- lists, so `keys().next()` is the head: the table's order is left open by ranging over lists.
pub mod Lanes
pub mod Reaper
pub mod Waiting
pub mod Spawn
pub mod Baseline
pub mod Tests
use ashat_coding_agent.Base.{
  ℕ, ◌+◌, ◌-◌, ◌^◌, ◌%◌, Bool, true, false, Option, none, some, List, [], ◌∷◌, ◌++◌, map, String,
  leb, ◌&&◌, ltb, if◌then◌else◌, length,
}
use ashat_coding_agent.Base.Map.{lookup, insert, remove, nat_eq}
use ashat_coding_agent.Base.Result.{Result, ok, err}
use ashat_coding_agent.Types.{
  DemandSpawnError, no_ports_available, binary_not_found, DemandAcquireError, pool_exhausted,
  queue_aged_out, Event, spawn_succeeded, spawn_abandoned, spawn_failed, baseline_ready,
  baseline_respawned, baseline_respawn_failed, display, health_gave_up, baseline_abandoned,
}
use ashat_coding_agent.Queue.{WaitQueue, try_enqueue, notify_slot_available, depth}
use ashat_coding_agent.Queue
use ashat_coding_agent.Metrics.{MetricsStore, event}

pub record DemandSpec : Type 0 where
  pub binary : String
  pub model : String
  pub ctx : ℕ
  pub threads : ℕ
  pub gpu_layers : ℕ
  pub host : String
  pub mlock : Bool
  pub always_alive : Bool

-- The texts of `last_failure_reason`.
pub data Failure : Type 0 where
  health_failed : (port : ℕ) → DemandSpawnError → Failure
  spawn_refused : DemandSpawnError → Failure
  threshold_exceeded : Failure
  aged_out : Failure

pub record DemandPool : Type 0 where
  pub spec : DemandSpec
  pub baseline_port : Option ℕ
  pub free_ports : List ℕ
  pub active : List (ℕ × ℕ)
  pub idle_since : List (ℕ × ℕ)
  pub baseline_child : Option ℕ
  pub queue : WaitQueue
  pub spawn_attempts_threshold : ℕ
  pub consecutive_spawn_failures : ℕ
  pub last_failure_reason : Option Failure
  pub last_startup_latency_ms : ℕ

-- The pool with the metrics store that its methods are handed.
pub record World : Type 0 where
  pub pool : DemandPool
  pub metrics : MetricsStore

pub record InstanceGuard : Type 0 where
  pub port : ℕ
  pub is_baseline : Bool

pub record DemandPoolBuilder : Type 0 where
  pub spec : DemandSpec
  pub queue_max : ℕ
  pub spawn_attempts_threshold : ℕ

unfoldable pub builder : DemandSpec → DemandPoolBuilder
builder spec = record { spec = spec; queue_max = 32; spawn_attempts_threshold = 3 }

unfoldable pub queue_max : ℕ → DemandPoolBuilder → DemandPoolBuilder
queue_max n b = record b { queue_max = n }

unfoldable pub spawn_attempts_before_503 : ℕ → DemandPoolBuilder → DemandPoolBuilder
spawn_attempts_before_503 n b = record b { spawn_attempts_threshold = n }

abbrev first : List ℕ → Option ℕ
first [] = none
first (p ∷ ps) = some p

unfoldable pub build : DemandPoolBuilder → List ℕ → DemandPool
unfolding Queue.new
build b ports = record {
  spec = b.spec;
  baseline_port = if b.spec.always_alive then first ports else none;
  free_ports = ports;
  active = [];
  idle_since = [];
  baseline_child = none;
  queue = Queue.new b.queue_max;
  spawn_attempts_threshold = b.spawn_attempts_threshold;
  consecutive_spawn_failures = 0;
  last_failure_reason = none;
  last_startup_latency_ms = 0;
}

-- What `spawn_llama_server` and `wait_for_health` come to: no process, a process that never gets
-- healthy, or a healthy one after some milliseconds.
pub data SpawnOutcome : Type 0 where
  refused : DemandSpawnError → SpawnOutcome
  unhealthy : (child : ℕ) → DemandSpawnError → SpawnOutcome
  healthy : (child latency_ms : ℕ) → SpawnOutcome

-- `AtomicU32`.
abbrev pub u32_mod : ℕ
u32_mod = 2 ^ 32

-- The steps of `spawn_on_demand`, each under its lock.
unfoldable pub pop_free : DemandPool → Option (ℕ × DemandPool)
pop_free p = elim p.free_ports [
  | [] ↦ none
  | port ∷ rest ↦ some (port, record p { free_ports = rest })
]

unfoldable pub spawned_child : ℕ → ℕ → DemandPool → DemandPool
spawned_child port child p = record p { active = insert port child p.active }

unfoldable pub health_failed_step : ℕ → DemandSpawnError → World → World
unfolding event notify_slot_available
health_failed_step port e w =
    let p = w.pool in
    record {
      pool = record p {
        active = remove port p.active;
        free_ports = p.free_ports ++ port ∷ [];
        last_failure_reason = some (health_failed port e);
        queue = notify_slot_available p.queue;
      };
      metrics = event (spawn_abandoned port) w.metrics;
    }

unfoldable pub healthy_step : ℕ → ℕ → World → World
unfolding event
healthy_step port latency_ms w = record {
  pool = record (w.pool) { last_startup_latency_ms = latency_ms; consecutive_spawn_failures = 0 };
  metrics = event (spawn_succeeded port) w.metrics;
}

unfoldable pub refused_step : ℕ → DemandSpawnError → World → World
unfolding event notify_slot_available
refused_step port e w =
    let p = w.pool in
    record {
      pool = record p {
        free_ports = p.free_ports ++ port ∷ [];
        last_failure_reason = some (spawn_refused e);
        consecutive_spawn_failures = (p.consecutive_spawn_failures + 1) % u32_mod;
        queue = notify_slot_available p.queue;
      };
      metrics = event (spawn_failed port e) w.metrics;
    }

abbrev spawned_guard : ℕ → InstanceGuard
spawned_guard port = record { port = port; is_baseline = false }

-- `none` if no port is free or the spawn fails.
unfoldable pub spawn_on_demand : SpawnOutcome → World → Option InstanceGuard × World
spawn_on_demand outcome w = elim (pop_free w.pool) [
  | none ↦ (none, w)
  | some (port, p) ↦
      let popped : World = record w { pool = p } in
      elim outcome [
        | refused e ↦ (none, refused_step port e popped)
        | unhealthy child e ↦
            (none, health_failed_step port e (record popped { pool = spawned_child port child p }))
        | healthy child ms ↦ (
          some (spawned_guard port),
          healthy_step port ms (record popped { pool = spawned_child port child p }),
        )
      ]
]

unfoldable pub take_idle : DemandPool → Option (ℕ × DemandPool)
take_idle p = elim p.idle_since [
  | [] ↦ none
  | (port, since) ∷ rest ↦ some (port, record p { idle_since = remove port p.idle_since })
]

-- What the waiter in `wait_and_pump` meets: it is woken after other tasks did something to the
-- world, and a spawn attempt comes to `outcome` and is over at the time `at`; or the wait times out.
pub data Wake : Type 0 where
  woken : (at : ℕ) → (others : World → World) → (outcome : SpawnOutcome) → Wake
  timed_out : (others : World → World) → Wake

-- The deadline is checked before each wait; `at` of the first round is the time of the call. The
-- end of the list stands for a waiter that is still waiting: `none`.
unfoldable pub wait_and_pump :
    (deadline now : ℕ)
    → List Wake
    → World
    → Option (Result DemandAcquireError InstanceGuard × World)
wait_and_pump deadline now [] w = if leb deadline now then some (err queue_aged_out, w) else none
wait_and_pump deadline now (timed_out others ∷ rest) w =
    if leb deadline now then some (err queue_aged_out, w) else some (err queue_aged_out, others w)
wait_and_pump deadline now (woken at others outcome ∷ rest) w =
    let after = spawn_on_demand outcome (others w) in
    let again = wait_and_pump deadline at rest after.1 in
    if leb deadline now
    then some (err queue_aged_out, w)
    else elim after.0 [ some guard ↦ some (ok guard, after.1) | none ↦ again ]

unfoldable pub set_last_failure : Failure → World → World
set_last_failure f w = record w { pool = record (w.pool) { last_failure_reason = some f } }

abbrev on_queue : (WaitQueue → WaitQueue) → World → World
on_queue f w = record w { pool = record (w.pool) { queue = f (w.pool).queue } }

-- Behind the wait: an error gives the head ticket back, a success keeps it.
unfoldable pub after_wait :
    Result DemandAcquireError InstanceGuard × World
    → Result DemandAcquireError InstanceGuard × World
after_wait (ok guard, w) = (ok guard, w)
after_wait (err e, w) = (err e, set_last_failure aged_out (on_queue Queue.remove w))

-- The slow path of `acquire`.
unfoldable pub enqueue_and_wait :
    (now timeout : ℕ) → List Wake → World → Option (Result DemandAcquireError InstanceGuard × World)
enqueue_and_wait now timeout wakes w =
    let p = w.pool in
    let (accepted, queue) = try_enqueue p.queue in
    if accepted
    then elim (wait_and_pump (now + timeout) now wakes
        (record w { pool = record p { queue = queue } })) [
          | none ↦ none
          | some outcome ↦ some (after_wait outcome)
        ]
    else let fails = (p.consecutive_spawn_failures + 1) % u32_mod in
      let counted : World = record w { pool = record p { consecutive_spawn_failures = fails } } in
      some (
        err pool_exhausted,
        if ltb p.spawn_attempts_threshold fails
            then set_last_failure threshold_exceeded counted
            else counted,
      )

abbrev or_zero : Option ℕ → ℕ
or_zero none = 0
or_zero (some p) = p

-- `acquire` at time `now`: `outcome` is that of the first spawn, `wakes` what the waiter meets.
-- `none` means that the call is still waiting.
unfoldable pub acquire :
    (now timeout : ℕ)
    → SpawnOutcome
    → List Wake
    → World
    → Option (Result DemandAcquireError InstanceGuard × World)
acquire now timeout outcome wakes w =
    let p = w.pool in
    if (p.spec).always_alive
    then some (
      ok (record { port = or_zero p.baseline_port; is_baseline = true }),
      record w { pool = record p { consecutive_spawn_failures = 0 } },
    )
    else elim (take_idle p) [
      | some (port, p') ↦ some (ok (spawned_guard port), record w { pool = p' })
      | none ↦
          let (found, w') = spawn_on_demand outcome w in
          elim found [
            | some guard ↦ some (ok guard, w')
            | none ↦ enqueue_and_wait now timeout wakes w'
          ]
    ]

-- `Drop for InstanceGuard` at time `now`.
unfoldable pub drop_guard : ℕ → InstanceGuard → DemandPool → DemandPool
drop_guard now g p =
    if g.is_baseline then record p { queue = notify_slot_available p.queue } else record p {
      idle_since = insert g.port now p.idle_since;
      queue = notify_slot_available p.queue;
    }

-- The ports that have been idle for the retention time.
unfoldable pub expired : (timeout now : ℕ) → List (ℕ × ℕ) → List ℕ
expired timeout now [] = []
expired timeout now ((port, since) ∷ rest) =
    let later = expired timeout now rest in
    if leb timeout (now - since) then port ∷ later else later

-- One round of the loop in `reap_idle`.
unfoldable pub reap_one : ℕ → DemandPool → DemandPool
reap_one port p =
    let q : DemandPool = record p { idle_since = remove port p.idle_since } in
    elim (lookup port q.active) [
      | none ↦ q
      | some child ↦ record q {
        active = remove port q.active;
        free_ports = q.free_ports ++ port ∷ [];
        queue = notify_slot_available q.queue;
      }
    ]

unfoldable pub reap_all : List ℕ → DemandPool → DemandPool
reap_all [] p = p
reap_all (port ∷ ports) p = reap_all ports (reap_one port p)

-- `reap_idle`, when nothing else touches the pool between its two parts.
unfoldable pub reap_idle : (timeout now : ℕ) → DemandPool → DemandPool
reap_idle timeout now p = reap_all (expired timeout now p.idle_since) p

-- `kill_active`, at shutdown: every child is killed, and nothing else changes.
unfoldable pub kill_active : DemandPool → DemandPool
kill_active p = record p { active = [] }
