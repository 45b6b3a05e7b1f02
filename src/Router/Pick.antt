-- ===== src/Router/Pick.antt =====
-- `pick`: which backend it may return, when it gives up, and what `mark_unhealthy` does to it.
use ashat_coding_agent.Base.{
  ℕ, ◌+◌, ◌<◌, ◌≡◌, refl, ap, ◌∙◌, sym, ◌⊎◌, inl, inr, ◌≢◌, Option, some, List, [], ◌∷◌, arith, map,
  String, eq_iff, Bool, true, false, Bool-cases, if◌then◌else◌, List-cases, get_elem?, set, length,
  length-set, All, In, Distinct, filter, In-filter, In-filter_intro,
}
use ashat_coding_agent.Base.Int.{ℤ, pos, ◌-ℤ◌}
use ashat_coding_agent.Base.Map.{lookup-insert, string_eq}
use ashat_coding_agent.Base.Result.{Result, ok, err}
use native.Mathlib.Nat.{zero-add}
use ashat_coding_agent.Types.{BackendServer, RouterError, chain_exhausted}
use ashat_coding_agent.Router.{
  RowRouter, score, Scan, fail_ttl, start, scan, round, select_weighted, needs_probe, is_healthy,
  refresh, healthy_set, select_healthy, pick, mark_unhealthy,
}
use ashat_coding_agent.Router.Health.{
  ids-filter, All-intro, record_other, record_probed, fresh_out, healthy_of, healthy_same,
  IsTrusted, IsDue, answer_usable, usable_answer,
}
use ashat_coding_agent.Router.Loop.{scan-Winner, length-scan}
use ashat_coding_agent.Router.Positions.{
  ids, get_elem?-map, position, positions_of-map, positions-Distinct, positions_bounds,
}

-- Selection over a non-empty set of chain members never panics, whatever the running weights.
module _ (r : RowRouter) (h : BackendServer) (hs : List BackendServer)
    (chain : Distinct (ids r.backends)) (aligned : length r.current ≡ length r.backends)
    (members : All (λ g. In g r.backends) (h ∷ hs)) (distinct : Distinct (ids (h ∷ hs))) where
  sweep : Scan
  sweep =
      scan r.backends 0 (map (position r.backends) (h ∷ hs))
        (start r.current (position r.backends h))

  sweep_found : (b : BackendServer) × (get_elem? (h ∷ hs) sweep.best_idx ≡ some b) × In b (h ∷ hs)
  unfolding sweep
  sweep_found =
      elim (scan-Winner r.backends 0 (map (position r.backends) (h ∷ hs))
        (start r.current (position r.backends h))
        (positions-Distinct r.backends chain (h ∷ hs) members distinct)
        (positions_bounds r.backends chain _ (h ∷ hs) (sym aligned) members)) [
          | inl (e, _, _) ↦ (h, rw e refl, inl refl)
          | inr (j, e, at, _) ↦
              let (b, found, _, m) = get_elem?-map (position r.backends) (h ∷ hs) j _ at in
              (b, rw e (rw (zero-add j) found), m)
        ]

  charged : List ℤ
  charged = set sweep.current sweep.best_pos (score sweep.current sweep.best_pos -ℤ pos sweep.total)

  length-charged : length charged ≡ length r.current
  unfolding charged sweep
  length-charged =
      length-set sweep.current sweep.best_pos _
      ∙ length-scan r.backends 0 (map (position r.backends) (h ∷ hs))
          (start r.current (position r.backends h))

  pub select_weighted_total :
      (b : BackendServer) × (r' : RowRouter) × (select_weighted r (h ∷ hs) ≡ some (b, r'))
      × In b (h ∷ hs)
      × (r'.backends ≡ r.backends)
      × (r'.health ≡ r.health)
      × (length r'.current ≡ length r'.backends)
  unfolding select_weighted round sweep charged
  select_weighted_total =
      let (b, found, m) = sweep_found in
      (
        b,
        record r { current = charged },
        rw (select_weighted, positions_of-map r.backends chain (h ∷ hs) members, found) refl,
        m,
        refl,
        refl,
        length-charged ∙ aligned,
      )

-- What the construction of the router gives and no operation changes.
pub record IsChain (r : RowRouter) : Type 0 where
  pub chain : Distinct (ids r.backends)
  pub aligned : length r.current ≡ length r.backends

module _ (probe : BackendServer → Bool) (now later : ℕ) (r : RowRouter) (v : IsChain r) where
  candidates : List BackendServer
  candidates = filter (λ b. b.enabled) r.backends

  -- What the refreshed cache says of an enabled backend: the probe's answer if it was probed, and
  -- the entry that was fresh otherwise.
  refresh_lem :
      (b : BackendServer)
      → In b candidates
      → is_healthy (refresh probe now later r) b
        ≡ (if needs_probe now r.health b then probe b else is_healthy r.health b)
  unfolding refresh candidates
  refresh_lem b m = elim (Bool-cases (needs_probe now r.health b)) [
    | inl e ↦ rw e (
        healthy_of _ b _ (
          record_probed probe later b (filter (needs_probe now r.health) candidates) r.health
            (ids-filter _ candidates (ids-filter _ r.backends v.chain))
            (In-filter_intro _ b candidates m e)))
    | inr e ↦ rw e (
        healthy_same _ r.health b (
          record_other probe later b.id (filter (needs_probe now r.health) candidates) r.health
            (fresh_out now r.health b candidates e)))
  ]

  -- A backend is usable if it is enabled and either answers its probe or, probed recently enough,
  -- is still trusted as healthy.
  abbrev pub IsUsable : BackendServer → Type 0
  IsUsable b =
      In b r.backends
      × (b.enabled ≡ true)
      × (IsTrusted now r.health b ⊎ (IsDue now r.health b × (probe b ≡ true)))

  IsUsable-of_In :
      (b : BackendServer) → In b (healthy_set (refresh probe now later r) r) → IsUsable b
  unfolding healthy_set candidates
  IsUsable-of_In b m =
      let (c, h) = In-filter _ b candidates m in
      let (inside, on) = In-filter _ b r.backends c in
      (inside, on, answer_usable probe now r.health b (sym (refresh_lem b c) ∙ h))

  In-of_IsUsable :
      (b : BackendServer) → IsUsable b → In b (healthy_set (refresh probe now later r) r)
  unfolding healthy_set candidates
  In-of_IsUsable b (inside, on, h) =
      let c = In-filter_intro (λ (x : BackendServer). x.enabled) b r.backends inside on in
      In-filter_intro _ b candidates c (refresh_lem b c ∙ usable_answer probe now r.health b h)

  healthy_set_members : All (λ g. In g r.backends) (healthy_set (refresh probe now later r) r)
  healthy_set_members = All-intro _ _ (λ b m. (IsUsable-of_In b m).0)

  healthy_set-Distinct : Distinct (ids (healthy_set (refresh probe now later r) r))
  unfolding healthy_set
  healthy_set-Distinct = ids-filter _ _ (ids-filter _ r.backends v.chain)

  refreshed : RowRouter
  refreshed = record r { health = refresh probe now later r }

  abbrev Picks : Option (Result RouterError BackendServer × RowRouter) → Type 0
  Picks o =
      ((b : BackendServer) × (r' : RowRouter) × (o ≡ some (ok b, r'))
        × IsUsable b
        × IsChain r'
        × (r'.health ≡ refresh probe now later r))
      ⊎ (((b : BackendServer) → ¬ IsUsable b)
          × (r' : RowRouter) × (o ≡ some (err chain_exhausted, r'))
          × IsChain r')

  select-Picks :
      (hs : List BackendServer)
      → healthy_set (refresh probe now later r) r ≡ hs
      → Picks (select_healthy hs refreshed)
  unfolding select_healthy refreshed
  select-Picks [] e = inr (
    (λ b u. rw e at (In-of_IsUsable b u)),
    refreshed,
    refl,
    record { chain = v.chain; aligned = v.aligned },
  )
  select-Picks (h ∷ hs) e =
      let (b, r', ran, m, same, health, aligned) =
        select_weighted_total refreshed h hs v.chain v.aligned (rw e at healthy_set_members)
          (rw e at healthy_set-Distinct) in
      inl (
        b,
        r',
        ground (arith, ran),
        IsUsable-of_In b (rw e m),
        record { chain = rw same v.chain; aligned = aligned },
        health,
      )

  -- Over a chain with distinct ids, a `pick` that no other task interrupts never panics. It returns a
  -- usable backend, and leaves the refreshed health entries, if there is one; and it answers
  -- `ChainExhausted` exactly if there is
  -- none: it does not fall back to a backend that is down.
  pub pick_lem :
      ((b : BackendServer) × (r' : RowRouter) × (pick probe now later r ≡ some (ok b, r'))
        × IsUsable b
        × IsChain r'
        × (r'.health ≡ refresh probe now later r))
      ⊎ (((b : BackendServer) → ¬ IsUsable b)
          × (r' : RowRouter) × (pick probe now later r ≡ some (err chain_exhausted, r'))
          × IsChain r')
  unfolding pick refreshed
  pick_lem = elim (List-cases (filter (λ b. b.enabled) r.backends)) [
    | inl e ↦ inr (
      (λ b u. rw e at (In-filter_intro (λ (x : BackendServer). x.enabled) b r.backends u.0 u.1)),
      r,
      rw (pick, e) refl,
      v,
    )
    | inr (h, hs, e) ↦ rw (pick, e) (select-Picks _ refl)
  ]

-- A backend that is marked unhealthy at time `t` is not returned by a `pick` that starts within the two
-- seconds of the failure entry's life, if no other task changes the cache in between.
pub pick-mark_unhealthy :
    (probe : BackendServer → Bool) (now later t : ℕ) (r : RowRouter) (id : String)
    (b : BackendServer) (r' : RowRouter)
    → IsChain r
    → now < t + fail_ttl
    → pick probe now later (mark_unhealthy id t r) ≡ some (ok b, r')
    → b.id ≢ id
unfolding mark_unhealthy
pick-mark_unhealthy probe now later t r id b r' v soon ran same =
    elim (pick_lem probe now later marked (record { chain = v.chain; aligned = v.aligned })) [
      | inl (c, q, ran', usable, _, _) ↦
          let equal : c ≡ b = cc (ran, ran') in
          not_usable c (ap (λ (x : BackendServer). x.id) equal ∙ same) usable.2
      | inr (_, q, ran', _) ↦ cc (ran, ran')
    ]
  where
    marked : RowRouter
    marked = mark_unhealthy id t r

    not_usable :
        (c : BackendServer)
        → c.id ≡ id
        → ¬ (IsTrusted now marked.health c ⊎ (IsDue now marked.health c × (probe c ≡ true)))
    not_usable c e u = ground (
      arith,
      lookup-insert id c.id (record { healthy = false; checked_at = t }) r.health,
      eq_iff id c.id,
      usable_answer probe now marked.health c u,
      e,
    )
