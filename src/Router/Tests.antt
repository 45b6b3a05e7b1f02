-- ===== src/Router/Tests.antt =====
-- Runs of the router's model, as in the tests of router.rs, and instances of its theorems.
use ashat_coding_agent.Base.{
  ◌^◌, ℕ, str_eq, length, All, ◌+◌, ◌*◌, ◌≤◌, ◌<◌, ◌≡◌, ◌≢◌, refl, ◌⊎◌, inl, inr, Option, some,
  none, List, [], ◌∷◌, map, true, Bool, arith, String, eq_iff, In, Distinct,
}
use ashat_coding_agent.Base.Int.{◌+ℤ◌, ◌-ℤ◌, pos, neg_part, pos_part}
use ashat_coding_agent.Base.Map.{insert, string_eq}
use ashat_coding_agent.Base.Result.{Result, ok, err}
use ashat_coding_agent.Types.{BackendServer, RouterError, chain_exhausted}
use ashat_coding_agent.Router.{
  RowRouter, new, score, weight_of, select_weighted, refresh, pick, mark_unhealthy, positions_of,
  round, visit, scan, find_position, record_probes, healthy_set, select_healthy, is_healthy,
}
use ashat_coding_agent.Router.Positions.{ids, position}
use ashat_coding_agent.Router.Fairness.{weights}
use ashat_coding_agent.Router.Shares.{picks, count_id}
use ashat_coding_agent.Router.Cycle.{picks_cycle, picks_share, picks_bounds}
use ashat_coding_agent.Router.Concurrent.{recorded, pick_during, mark_unhealthy-lost}
use ashat_coding_agent.Router.Pick.{IsChain, IsUsable, pick_lem}

abbrev backend : String → ℕ → BackendServer
backend id weight = record {
  id = id;
  host = "127.0.0.1";
  port = 8080;
  api_key = none;
  enabled = true;
  weight = weight;
}

abbrev omega_row : BackendServer
omega_row = backend "omega" 2

abbrev beta_row : BackendServer
beta_row = backend "beta" 1

abbrev two_rows : List BackendServer
two_rows = omega_row ∷ beta_row ∷ []

beta_not_omega : beta_row.id ≢ omega_row.id
beta_not_omega e = ground (arith, (eq_iff "beta" "omega").1 e)

two-Distinct : Distinct (ids two_rows)
two-Distinct = (λ m. elim m [ inl e ↦ beta_not_omega e | inr x ↦ x ], (λ m. m, tt))

picked_ids : Option (List BackendServer × RowRouter) → List String
picked_ids none = []
picked_ids (some (bs, r)) = map (λ b. b.id) bs

-- Weights 2 and 1: the winners of two cycles.
two_cycles :
    picked_ids (picks 6 (new two_rows) two_rows)
    ≡ "omega" ∷ "beta" ∷ "omega" ∷ "omega" ∷ "beta" ∷ "omega" ∷ []
unfolding picks select_weighted round scan visit positions_of find_position new picked_ids ◌+ℤ◌ ◌-ℤ◌
two_cycles = refl

two_members : All (λ g. In g two_rows) two_rows
two_members = (inl refl, (inr (inl refl), tt))

picks_cycle_example :
    (bs : List BackendServer) × (r : RowRouter) × (picks (weights two_rows) (new two_rows) two_rows
      ≡ some (bs, r))
    × ((g : BackendServer)
        → In g two_rows
        → (count_id g.id bs ≡ weight_of g) × (score r.current (position two_rows g) ≡ pos 0))
picks_cycle_example =
    picks_cycle two_rows omega_row (beta_row ∷ []) two-Distinct two_members two-Distinct
      (omega arith)

picks_share_example :
    (bs : List BackendServer) × (r : RowRouter) × (picks 4 (new two_rows) two_rows ≡ some (bs, r))
    × (length bs ≡ 4)
    × All (λ b. In b two_rows) bs
    × ((g : BackendServer)
        → In g two_rows
        → weights two_rows * count_id g.id bs < 4 * weight_of g + weights two_rows)
picks_share_example =
    picks_share two_rows omega_row (beta_row ∷ []) two-Distinct two_members two-Distinct
      (omega arith) 4

picks_bounds_example :
    (bs : List BackendServer) × (r : RowRouter) × (picks 4 (new two_rows) two_rows ≡ some (bs, r))
    × ((g : BackendServer)
        → In g two_rows
        → (neg_part (score r.current (position two_rows g))
            < pos_part (score r.current (position two_rows g)) + weights two_rows)
          × (pos_part (score r.current (position two_rows g))
              ≤ neg_part (score r.current (position two_rows g)) + weights two_rows * 1)
          × (neg_part (score r.current (position two_rows g)) < 2 ^ 63)
          × (pos_part (score r.current (position two_rows g)) + weight_of g < 2 ^ 63))
picks_bounds_example =
    picks_bounds two_rows omega_row (beta_row ∷ []) two-Distinct two_members two-Distinct
      (omega arith) 4 (omega arith)

abbrev only_beta : BackendServer → Bool
only_beta b = str_eq b.id "beta"

two_IsChain : IsChain (new two_rows)
unfolding new
two_IsChain = record { chain = two-Distinct; aligned = refl }

-- omega is down: its probe fails and beta is picked.
picked : Option (Result RouterError BackendServer × RowRouter) → Option String
picked (some (ok b, r)) = some b.id
picked (some (err e, r)) = none
picked none = none

omega_down : picked (pick only_beta 10 20 (new two_rows)) ≡ some "beta"
unfolding picked pick refresh healthy_set record_probes select_healthy select_weighted round scan
    visit positions_of find_position new ◌+ℤ◌
omega_down = refl

pick_lem_example :
    ((b : BackendServer) × (r' : RowRouter) × (pick only_beta 10 20 (new two_rows)
        ≡ some (ok b, r'))
      × IsUsable only_beta 10 20 (new two_rows) two_IsChain b
      × IsChain r'
      × (r'.health ≡ refresh only_beta 10 20 (new two_rows)))
    ⊎ (((b : BackendServer) → ¬ IsUsable only_beta 10 20 (new two_rows) two_IsChain b)
        × (r' : RowRouter) × (pick only_beta 10 20 (new two_rows) ≡ some (err chain_exhausted, r'))
        × IsChain r')
pick_lem_example = pick_lem only_beta 10 20 (new two_rows) two_IsChain

abbrev one_row : RowRouter
one_row = record { backends = beta_row ∷ []; health = []; current = pos 0 ∷ [] }

one_IsChain : IsChain one_row
one_IsChain = record { chain = (λ m. m, tt); aligned = refl }

abbrev behind_mark : RowRouter
behind_mark = record (mark_unhealthy "omega" 100 one_row) {
  health =
      insert "beta" (record { healthy = true; checked_at = 120 })
        (mark_unhealthy "omega" 100 one_row).health;
}

marked_run :
    pick (λ b. true) 110 120 (mark_unhealthy "omega" 100 one_row) ≡ some (ok beta_row, behind_mark)
unfolding pick refresh healthy_set record_probes select_healthy select_weighted round scan visit
    positions_of find_position mark_unhealthy ◌+ℤ◌ ◌-ℤ◌
marked_run = refl

abbrev unchanged : RowRouter → RowRouter
unchanged r = r

-- The failure of the only backend is noted while a pick probes it: the pick returns it.
mark_overwritten :
    picked (pick_during (λ b. true) 10 20 (mark_unhealthy "beta" 15) unchanged unchanged one_row)
    ≡ some "beta"
unfolding picked pick_during recorded record_probes select_healthy select_weighted round scan visit
    positions_of find_position mark_unhealthy ◌+ℤ◌ ◌-ℤ◌
mark_overwritten = refl

mark_unhealthy-lost_example :
    is_healthy
      (recorded (λ b. true) 10 20 one_row (unchanged (mark_unhealthy "beta" 15 one_row))).health
      beta_row
    ≡ true
mark_unhealthy-lost_example =
    mark_unhealthy-lost (λ b. true) 10 20 15 unchanged one_row beta_row (one_IsChain.chain)
      (inl refl) refl refl refl
