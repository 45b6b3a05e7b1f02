-- ===== src/Router.antt =====
-- crates/omega-core/src/router.rs: the row-chain router. Running weights are ℤ for the source's
-- `i64`. `Instant`s are numbers of milliseconds. The HTTP probe is outside the source: `pick`
-- takes its answers as a function of the backend, and the time at which they arrive.
pub mod Positions
pub mod Loop
pub mod Round
pub mod Fairness
pub mod Shares
pub mod Cycle
pub mod Health
pub mod Pick
pub mod Concurrent
pub mod Tests
use ashat_coding_agent.Base.{
  ℕ, zero, suc, ◌+◌, ◌-◌, ◌^◌, max, ◌≡◌, Bool, true, false, not, ◌&&◌, Option, none, some, List, [],
  ◌∷◌, String, str_eq, ltb, if◌then◌else◌, get_elem?, get_or, set, length, replicate, filter,
}
use ashat_coding_agent.Base.Int.{ℤ, pos, negsuc, ◌+ℤ◌, ◌-ℤ◌, ltb_ℤ}
use ashat_coding_agent.Base.Map.{lookup, insert, string_eq}
use ashat_coding_agent.Base.Result.{Result, ok, err}
use ashat_coding_agent.Types.{BackendServer, RouterError, chain_exhausted}

-- The constants, in milliseconds.
abbrev pub health_ttl : ℕ
health_ttl = 5000

abbrev pub fail_ttl : ℕ
fail_ttl = 2000

pub record HealthEntry : Type 0 where
  pub healthy : Bool
  pub checked_at : ℕ

abbrev pub ttl : HealthEntry → ℕ
ttl e = if e.healthy then health_ttl else fail_ttl

abbrev pub Cache : Type 0
Cache = List (String × HealthEntry)

pub record RowRouter : Type 0 where
  pub backends : List BackendServer
  pub health : Cache
  pub current : List ℤ

unfoldable pub new : List BackendServer → RowRouter
new backends = record {
  backends = backends;
  health = [];
  current = replicate (length backends) (pos 0);
}

-- `weight.max(1)`
abbrev pub weight_of : BackendServer → ℕ
weight_of b = max b.weight 1

-- `backends.iter().position(|b| b.id == id)`
unfoldable pub find_position : String → List BackendServer → Option ℕ
find_position id [] = none
find_position id (b ∷ bs) =
    if str_eq b.id id
    then some 0
    else elim (find_position id bs) [ none ↦ none | some i ↦ some (suc i) ]

-- `filter_map`: a backend that is not in the chain is dropped.
unfoldable pub positions_of : List BackendServer → List BackendServer → List ℕ
positions_of backends [] = []
positions_of backends (h ∷ hs) =
    let rest = positions_of backends hs in
    elim (find_position h.id backends) [ none ↦ rest | some p ↦ p ∷ rest ]

-- `self.backends[pos].weight.max(1)`; a position comes from `find_position`, so it is in range.
abbrev pub weight_at : List BackendServer → ℕ → ℕ
weight_at [] p = 1
weight_at (b ∷ bs) zero = weight_of b
weight_at (b ∷ bs) (suc p) = weight_at bs p

-- `current[pos]`, in range for the same reason.
abbrev pub score : List ℤ → ℕ → ℤ
score current p = get_or current p (pos 0)

-- The variables of the loop in `select_weighted`.
pub record Scan : Type 0 where
  pub current : List ℤ
  pub total : ℕ
  pub best_idx : ℕ
  pub best_pos : ℕ
  pub best_score : ℤ

-- One round of the loop: `i` is the index in the healthy set, `p` the position in the chain.
unfoldable pub visit : List BackendServer → ℕ → ℕ → Scan → Scan
visit backends i p s =
    let weight = weight_at backends p in
    let raised = score s.current p +ℤ pos weight in
    let current = set s.current p raised in
    if ltb_ℤ s.best_score raised
    then record {
      current = current;
      total = s.total + weight;
      best_idx = i;
      best_pos = p;
      best_score = raised;
    }
    else record s { current = current; total = s.total + weight }

unfoldable pub scan : List BackendServer → ℕ → List ℕ → Scan → Scan
scan backends i [] s = s
scan backends i (p ∷ ps) s = scan backends (suc i) ps (visit backends i p s)

abbrev pub i64_min : ℤ
i64_min = negsuc (2 ^ 63 - 1)

abbrev pub start : List ℤ → ℕ → Scan
start current p = record {
  current = current;
  total = 0;
  best_idx = 0;
  best_pos = p;
  best_score = i64_min;
}

-- The index of the winner and the weights after the round; `none` is the panic of `positions[0]`.
unfoldable pub round : List BackendServer → List ℕ → List ℤ → Option (Scan × List ℤ)
round backends [] current = none
round backends (p ∷ ps) current =
    let s = scan backends 0 (p ∷ ps) (start current p) in
    some (s, set s.current s.best_pos (score s.current s.best_pos -ℤ pos s.total))

-- `none` is a panic: an empty healthy set, or an index out of range.
unfoldable pub select_weighted : RowRouter → List BackendServer → Option (BackendServer × RowRouter)
select_weighted r healthy = elim (round r.backends (positions_of r.backends healthy) r.current) [
  | none ↦ none
  | some (s, current) ↦ elim (get_elem? healthy s.best_idx) [
    | none ↦ none
    | some b ↦ some (b, record r { current = current })
  ]
]

-- A backend is probed unless its entry is younger than the entry's time to live.
abbrev pub needs_probe : ℕ → Cache → BackendServer → Bool
needs_probe now cache b = elim (lookup b.id cache) [
  | none ↦ true
  | some e ↦ not (ltb (now - e.checked_at) (ttl e))
]

-- The results of the probes, written back one by one.
unfoldable pub record_probes : (BackendServer → Bool) → ℕ → List BackendServer → Cache → Cache
record_probes probe at [] cache = cache
record_probes probe at (b ∷ bs) cache =
    record_probes probe at bs (insert b.id (record { healthy = probe b; checked_at = at }) cache)

abbrev pub is_healthy : Cache → BackendServer → Bool
is_healthy cache b = elim (lookup b.id cache) [ none ↦ false | some e ↦ e.healthy ]

-- The cache behind the probes of `pick`.
unfoldable pub refresh : (BackendServer → Bool) → ℕ → ℕ → RowRouter → Cache
refresh probe now later r =
    let candidates = filter (λ b. b.enabled) r.backends in
    record_probes probe later (filter (needs_probe now r.health) candidates) r.health

-- The candidates that the refreshed cache calls healthy.
unfoldable pub healthy_set : Cache → RowRouter → List BackendServer
healthy_set cache r = filter (is_healthy cache) (filter (λ b. b.enabled) r.backends)

-- `none` is a panic in `select_weighted`.
unfoldable pub select_healthy :
    List BackendServer → RowRouter → Option (Result RouterError BackendServer × RowRouter)
select_healthy [] r = some (err chain_exhausted, r)
select_healthy (h ∷ hs) r = elim (select_weighted r (h ∷ hs)) [
  | none ↦ none
  | some (b, r') ↦ some (ok b, r')
]

-- `pick` at time `now`, with the answers of the probes and the time `later` of their arrival.
-- No other task changes the cache in between; `pick_during` of Concurrent is `pick` among others.
unfoldable pub pick :
    (BackendServer → Bool)
    → ℕ
    → ℕ
    → RowRouter
    → Option (Result RouterError BackendServer × RowRouter)
pick probe now later r = elim (filter (λ b. b.enabled) r.backends) [
  | [] ↦ some (err chain_exhausted, r)
  | _ ∷ _ ↦
      let cache = refresh probe now later r in
      select_healthy (healthy_set cache r) (record r { health = cache })
]

unfoldable pub mark_unhealthy : String → ℕ → RowRouter → RowRouter
mark_unhealthy id now r = record r {
  health = insert id (record { healthy = false; checked_at = now }) r.health;
}
