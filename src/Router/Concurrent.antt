-- ===== src/Router/Concurrent.antt =====
-- `pick` of crates/omega-core/src/router.rs among other tasks: it takes the lock of the cache three
-- times, and between these other picks and marks change the cache.
use ashat_coding_agent.Base.{
  ℕ, ◌≡◌, refl, Bool, true, Option, some, [], ◌∷◌, arith, In, Distinct, filter, In-filter_intro,
}
use ashat_coding_agent.Base.Map.{string_eq}
use ashat_coding_agent.Base.Result.{Result, err}
use ashat_coding_agent.Types.{BackendServer, RouterError, chain_exhausted}
use ashat_coding_agent.Router.{
  RowRouter, needs_probe, record_probes, is_healthy, refresh, healthy_set, select_healthy, pick,
  mark_unhealthy,
}
use ashat_coding_agent.Router.Positions.{ids}
use ashat_coding_agent.Router.Health.{ids-filter, record_probed}

-- The answers of the probes that the state `r` called for, written into the state as it is by then.
unfoldable pub recorded :
    (BackendServer → Bool) → (now later : ℕ) → (r behind : RowRouter) → RowRouter
recorded probe now later r behind = record behind {
  health =
      record_probes probe later
        (filter (needs_probe now r.health) (filter (λ b. b.enabled) r.backends)) behind.health;
}

-- `pick` with what other tasks do to the router while the probes run, before the cache is read and
-- before the weights are locked.
unfoldable pub pick_during :
    (probe : BackendServer → Bool) (now later : ℕ)
    (probing reading choosing : RowRouter → RowRouter)
    → RowRouter
    → Option (Result RouterError BackendServer × RowRouter)
pick_during probe now later probing reading choosing r = elim (filter (λ b. b.enabled) r.backends) [
  | [] ↦ some (err chain_exhausted, r)
  | _ ∷ _ ↦
      let read = reading (recorded probe now later r (probing r)) in
      select_healthy (filter (is_healthy read.health) (filter (λ b. b.enabled) r.backends))
        (choosing read)
]

-- With no other task it is `pick`.
pick_during-alone :
    (probe : BackendServer → Bool) (now later : ℕ) (r : RowRouter)
    → pick_during probe now later (λ s. s) (λ s. s) (λ s. s) r ≡ pick probe now later r
unfolding pick_during recorded pick refresh healthy_set
pick_during-alone probe now later r = refl

-- A mark that comes while a pick waits for the probes is lost if the pick had asked for the marked
-- backend and it answers: then the pick writes it down as healthy again, whatever else other tasks do
-- to the cache in the meantime.
pub mark_unhealthy-lost :
    (probe : BackendServer → Bool) (now later t : ℕ) (others : RowRouter → RowRouter)
    (r : RowRouter) (b : BackendServer)
    → Distinct (ids r.backends)
    → In b r.backends
    → b.enabled ≡ true
    → needs_probe now r.health b ≡ true
    → probe b ≡ true
    → is_healthy (recorded probe now later r (others (mark_unhealthy b.id t r))).health b ≡ true
unfolding recorded
mark_unhealthy-lost probe now later t others r b chain inside on due up =
    let due_ones =
      filter (needs_probe now r.health) (filter (λ (x : BackendServer). x.enabled) r.backends) in
    let asked : In b due_ones =
      In-filter_intro (needs_probe now r.health) b
        (filter (λ (x : BackendServer). x.enabled) r.backends)
        (In-filter_intro (λ (x : BackendServer). x.enabled) b r.backends inside on) due in
    ground (
      arith,
      up,
      record_probed probe later b due_ones (others (mark_unhealthy b.id t r)).health
          (ids-filter (needs_probe now r.health)
            (filter (λ (x : BackendServer). x.enabled) r.backends)
            (ids-filter (λ (x : BackendServer). x.enabled) r.backends chain))
          asked,
    )
