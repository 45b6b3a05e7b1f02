-- ===== src/Demand/Reaper.antt =====
-- The idle reaper of crates/omega-core/src/demand.rs: `reap_idle` in one go, and interrupted between
-- its two parts.
use ashat_coding_agent.Base.{
  ℕ, ◌+◌, ◌-◌, ◌≤◌, ◌<◌, ◌≡◌, ◌⊎◌, none, some, List, [], ◌∷◌, ◌++◌, arith, count, count-append,
}
use ashat_coding_agent.Base.Map.{lookup, remove, nat_eq, lookup-remove, lookup_of_count}
use ashat_coding_agent.Demand.{DemandPool, take_idle, expired, reap_one}
use ashat_coding_agent.Demand.Lanes.{Lanes, Reach, IsOwned, IsOnce}

abbrev pub with_pool : Lanes → DemandPool → Lanes
with_pool s p = record s { world = record (s.world) { pool = p } }

abbrev listing : Lanes → DemandPool → List ℕ → Lanes
listing s p l = record s { world = record (s.world) { pool = p }; listed = l }

-- Listed ports that are idle, each listed once, are reaped by steps, and everything stays at one
-- place.
module _ (all : List ℕ) (all_once : IsOnce all) (s : Lanes) where
  Reaped : DemandPool → List ℕ → Type 0
  Reaped p l = IsOwned all (listing s p l) × Reach s (listing s p l)

-- What `reap_idle` does with a lane that is idle since some time.
abbrev pub IsKept : (timeout now q since : ℕ) → DemandPool → DemandPool → Type 0
IsKept timeout now q since p p' =
    ((now - since < timeout) × (lookup q p'.idle_since ≡ some since))
    ⊎ ((timeout ≤ now - since)
        × (lookup q p'.idle_since ≡ none)
        × (count q p'.free_ports ≡ count q p.free_ports + 1))

-- If a lane is idle past the retention time when the reaper lists it, and a caller takes it before
-- the reaper comes to it, then the reaper kills it under its guard: the port is free again while
-- it is held, so the ports are no longer each at one place.
pub reap_race :
    (ports : List ℕ) (s : Lanes) (timeout now port since : ℕ) (rest : List (ℕ × ℕ))
    → IsOnce ports
    → IsOwned ports s
    → ((s.world).pool).idle_since ≡ (port, since) ∷ rest
    → timeout ≤ now - since
    → (p : DemandPool) × (take_idle (s.world).pool ≡ some (port, p))
      × (0 < count port (expired timeout now ((s.world).pool).idle_since))
      × (0 < count port (reap_one port p).free_ports)
      × (lookup port (reap_one port p).active ≡ none)
      × (¬ IsOwned ports (record (with_pool s (reap_one port p)) { held = port ∷ s.held }))
unfolding take_idle expired reap_one
reap_race ports s timeout now port since rest once v e old = (
  record pool { idle_since = remove port pool.idle_since },
  ground (arith, e),
  ground (arith, e, old),
  ground (arith, child.1, freed),
  ground (arith, child.1, lookup-remove port port pool.active),
  λ w. ground (arith, child.1, freed, w.placed port, once port),
)
  where
    pool : DemandPool
    pool = (s.world).pool

    child : (c : ℕ) × (lookup port pool.active ≡ some c)
    child = lookup_of_count port pool.active (ground (arith, v.running port, e))

    freed : count port (pool.free_ports ++ port ∷ []) ≡ count port pool.free_ports + 1
    freed = ground (arith, count-append port pool.free_ports (port ∷ []))
