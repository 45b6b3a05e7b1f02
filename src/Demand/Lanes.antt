-- ===== src/Demand/Lanes.antt =====
-- The lanes of a pool under concurrency: every task works in steps under the pool's locks, and the
-- steps of all tasks interleave freely. Where a step stands for several locks in a row, the port it
-- moves is in no table between them, so that no other task can reach it. A task that is cancelled takes
-- no more steps: what it holds stays with it. The reaper lists ports in one step and takes each of
-- them in a later one, whatever has become of the lane in between.
use ashat_coding_agent.Base.{
  ℕ, ◌+◌, ◌≤◌, ◌<◌, ◌≡◌, ◌++◌, some, List, [], ◌∷◌, arith, ==_iff, count, erase, count-append,
}
use ashat_coding_agent.Base.Map.{keys, nat_eq, count-keys-remove, lookup_of_count}
use ashat_coding_agent.Types.{DemandSpawnError}
use ashat_coding_agent.Metrics.{MetricsStore}
use ashat_coding_agent.Demand.{
  DemandPool, World, DemandPoolBuilder, build, spawned_guard, pop_free, spawned_child, refused_step,
  health_failed_step, healthy_step, take_idle, drop_guard, expired, reap_one, kill_active,
}

-- A pool with what its tasks hold: ports taken for a spawn, ports whose child is being probed,
-- ports of live guards, and ports that the reaper has listed.
pub record Lanes : Type 0 where
  pub world : World
  pub popped : List ℕ
  pub probing : List ℕ
  pub held : List ℕ
  pub listed : List ℕ

pub data Step (s : Lanes) : Lanes → Type 0 where
  pop :
      (port : ℕ) (p : DemandPool)
      → pop_free (s.world).pool ≡ some (port, p)
      → Step s (record s { world = record (s.world) { pool = p }; popped = port ∷ s.popped })
  refuse :
      (port : ℕ) (e : DemandSpawnError)
      → 0 < count port s.popped
      → Step s (record s { world = refused_step port e s.world; popped = erase port s.popped })
  spawn :
      (port child : ℕ)
      → 0 < count port s.popped
      → Step s (record s {
        world = record (s.world) { pool = spawned_child port child (s.world).pool };
        popped = erase port s.popped;
        probing = port ∷ s.probing;
      })
  fail :
      (port : ℕ) (e : DemandSpawnError)
      → 0 < count port s.probing
      → Step s
          (record s { world = health_failed_step port e s.world; probing = erase port s.probing })
  serve :
      (port latency_ms : ℕ)
      → 0 < count port s.probing
      → Step s (record s {
        world = healthy_step port latency_ms s.world;
        probing = erase port s.probing;
        held = port ∷ s.held;
      })
  reuse :
      (port : ℕ) (p : DemandPool)
      → take_idle (s.world).pool ≡ some (port, p)
      → Step s (record s { world = record (s.world) { pool = p }; held = port ∷ s.held })
  give_back :
      (port now : ℕ)
      → 0 < count port s.held
      → Step s (record s {
        world = record (s.world) { pool = drop_guard now (spawned_guard port) (s.world).pool };
        held = erase port s.held;
      })
  list :
      (timeout now : ℕ)
      → Step s (record s { listed = expired timeout now ((s.world).pool).idle_since ++ s.listed })
  reap :
      (port : ℕ)
      → 0 < count port s.listed
      → Step s (record s {
        world = record (s.world) { pool = reap_one port (s.world).pool };
        listed = erase port s.listed;
      })
  shut_down : Step s (record s { world = record (s.world) { pool = kill_active (s.world).pool } })

pub data Reach (s : Lanes) : Lanes → Type 0 where
  here : Reach s s
  next : {t u : Lanes} → Reach s t → Step t u → Reach s u

-- Every configured port is at one place: free, taken, probed, held or idle; and a child is
-- recorded exactly for the ports that are probed, held or idle.
pub record IsOwned (ports : List ℕ) (s : Lanes) : Type 0 where
  pub placed :
      (x : ℕ)
      → count x ((s.world).pool).free_ports
          + count x s.popped
          + count x s.probing
          + count x s.held
          + count x (keys ((s.world).pool).idle_since)
        ≡ count x ports
  pub running :
      (x : ℕ)
      → count x (keys ((s.world).pool).active)
        ≡ count x s.probing + count x s.held + count x (keys ((s.world).pool).idle_since)

abbrev pub IsOnce : List ℕ → Type 0
IsOnce ports = (x : ℕ) → count x ports ≤ 1

-- The two steps that can lose the placement: the reaper takes a listed lane that is not idle any
-- more, and a shutdown.
pub data Strays (s : Lanes) : Lanes → Type 0 where
  taken :
      (port : ℕ)
      → 0 < count port s.listed
      → count port (keys ((s.world).pool).idle_since) ≡ 0
      → Strays s (record s {
        world = record (s.world) { pool = reap_one port (s.world).pool };
        listed = erase port s.listed;
      })
  closing : Strays s (record s { world = record (s.world) { pool = kill_active (s.world).pool } })

-- Everything was at one place until one of the two steps.
abbrev pub WasLost : List ℕ → Lanes → Lanes → Type 0
WasLost ports s t = (a : Lanes) × (b : Lanes) × Reach s a × IsOwned ports a × Strays a b × Reach b t

module _ (ports : List ℕ) (once : IsOnce ports) where
  pub reap-IsOwned :
      (s : Lanes) (port : ℕ) (l : List ℕ)
      → 0 < count port (keys ((s.world).pool).idle_since)
      → IsOwned ports s
      → IsOwned ports (record s {
        world = record (s.world) { pool = reap_one port (s.world).pool };
        listed = l;
      })
  unfolding reap_one
  reap-IsOwned s port l h v =
      let (child, alive) =
        lookup_of_count port ((s.world).pool).active (ground (arith, v.running port)) in
      record {
        placed = λ x. ground (
          arith,
          alive,
          once x,
          v.placed x,
          count-keys-remove x port ((s.world).pool).idle_since,
          count-append x ((s.world).pool).free_ports (port ∷ []),
          ==_iff port x,
        );
        running = λ x. ground (
          arith,
          alive,
          once x,
          v.placed x,
          v.running x,
          count-keys-remove x port ((s.world).pool).idle_since,
          count-keys-remove x port ((s.world).pool).active,
          ==_iff port x,
        );
      }

abbrev pub fresh : DemandPoolBuilder → List ℕ → MetricsStore → Lanes
fresh b ports m = record {
  world = record { pool = build b ports; metrics = m };
  popped = [];
  probing = [];
  held = [];
  listed = [];
}
