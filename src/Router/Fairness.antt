-- ===== src/Router/Fairness.antt =====
-- One call of `select_weighted` in crates/omega-core/src/router.rs in a row of calls with one healthy
-- set.
use ashat_coding_agent.Base.{
  ℕ, ◌+◌, ◌<◌, ◌^◌, ◌≡◌, refl, ap, ◌∙◌, sym, subst, inl, inr, ◌≢◌, some, List, [], ◌∷◌, arith, map,
  str_eq, eq_iff, Bool-cases, if◌then◌else◌, length, All, In, Distinct, All-of_In,
}
use ashat_coding_agent.Base.Int.{ℤ, pos, ◌+ℤ◌, int_laws, eq_of_parts, parts_of_eq}
use ashat_coding_agent.Types.{BackendServer}
use ashat_coding_agent.Router.{RowRouter, Scan, round, select_weighted, score, weight_at, weight_of}
use ashat_coding_agent.Router.Loop.{total_weight}
use ashat_coding_agent.Router.Positions.{
  ids, In-map, get_elem?-map, position, position_of_id, weight_at-position, position_inj,
  positions_of-map, positions-Distinct, positions_bounds,
}
use ashat_coding_agent.Router.Round.{IsBalanced, IsTurn, round_lem}

-- The sum of the weights of a healthy set.
abbrev pub weights : List BackendServer → ℕ
weights [] = 0
weights (h ∷ hs) = weight_of h + weights hs

abbrev pub positions : RowRouter → List BackendServer → List ℕ
positions r hs = map (position r.backends) hs

-- What `new` establishes and every selection over `hs` keeps.
pub record IsReady (r : RowRouter) (hs : List BackendServer) : Type 0 where
  pub chain : Distinct (ids r.backends)
  pub aligned : length r.current ≡ length r.backends
  pub members : All (λ h. In h r.backends) hs
  pub distinct : Distinct (ids hs)
  pub scores : IsBalanced (weights hs) r.current (positions r hs)

-- The share of a call: the winner `b` pays the whole weight, all others are raised.
pub record IsShare (r r' : RowRouter) (hs : List BackendServer) (b : BackendServer) : Type 0 where
  pub healthy : In b hs
  pub same_backends : r'.backends ≡ r.backends
  pub moved :
      (h : BackendServer)
      → In h hs
      → score r'.current (position r.backends h) +ℤ pos (if str_eq b.id h.id then weights hs else 0)
        ≡ score r.current (position r.backends h) +ℤ pos (weight_of h)
  pub untouched : (q : ℕ) → ¬ In q (positions r hs) → score r'.current q ≡ score r.current q

total_weight-positions :
    (bs : List BackendServer) (d : Distinct (ids bs)) (hs : List BackendServer)
    → All (λ h. In h bs) hs
    → total_weight bs (map (position bs) hs) ≡ weights hs
total_weight-positions bs d [] m = refl
total_weight-positions bs d (h ∷ hs) m =
    omega (arith, weight_at-position bs d h m.0, total_weight-positions bs d hs m.1)

module _ (r : RowRouter) (h : BackendServer) (hs : List BackendServer) (v : IsReady r (h ∷ hs))
    (small : weights (h ∷ hs) < 2 ^ 63) where
  same_total : total_weight r.backends (positions r (h ∷ hs)) ≡ weights (h ∷ hs)
  same_total = total_weight-positions r.backends v.chain (h ∷ hs) v.members

  inside : (g : BackendServer) → In g (h ∷ hs) → In g r.backends
  inside g m = All-of_In (λ x. In x r.backends) (h ∷ hs) g v.members m

  turn :
      (s : Scan) × (c' : List ℤ) × (round r.backends (positions r (h ∷ hs)) r.current
        ≡ some (s, c'))
      × IsTurn r.backends (positions r (h ∷ hs)) r.current s c'
      × IsBalanced (total_weight r.backends (positions r (h ∷ hs))) c' (positions r (h ∷ hs))
  turn =
      round_lem r.backends (positions r (h ∷ hs)) r.current (λ e. cc)
        (positions-Distinct r.backends v.chain (h ∷ hs) v.members v.distinct)
        (positions_bounds r.backends v.chain _ (h ∷ hs) (sym v.aligned) v.members)
        (omega (arith, same_total))
        (subst (λ w. IsBalanced w r.current (positions r (h ∷ hs))) (sym same_total) v.scores)

  module _ (s : Scan) (c' : List ℤ) (b : BackendServer)
      (t : IsTurn r.backends (positions r (h ∷ hs)) r.current s c')
      (same : position r.backends b ≡ s.best_pos) (member : In b (h ∷ hs)) where
    turn_moved :
        (g : BackendServer)
        → In g (h ∷ hs)
        → score c' (position r.backends g) +ℤ pos (if str_eq b.id g.id then weights (h ∷ hs) else 0)
          ≡ score r.current (position r.backends g) +ℤ pos (weight_of g)
    turn_moved g m = elim (Bool-cases (str_eq b.id g.id)) [
      | inl e ↦
          let here : position r.backends g ≡ s.best_pos =
            sym (position_of_id r.backends b g ((eq_iff b.id g.id).0 e)) ∙ same in
          rw e (
            ap (λ (z : ℕ). score c' (position r.backends g) +ℤ pos z) (sym same_total)
            ∙ subst
                (λ z.
                  score c' z +ℤ pos (total_weight r.backends (positions r (h ∷ hs)))
                  ≡ score r.current z +ℤ pos (weight_at r.backends z))
                (sym here) t.paid
            ∙ ap (λ (z : ℕ). score r.current (position r.backends g) +ℤ pos z)
                (weight_at-position r.backends v.chain g (inside g m)))
      | inr e ↦
          let other : position r.backends g ≢ s.best_pos = λ q. cc (
            (eq_iff b.id g.id).1 (
              position_inj r.backends v.chain b g (inside b member) (inside g m) (same ∙ sym q))) in
          rw e (
            eq_of_parts _ _ (
              omega (
                int_laws,
                parts_of_eq _ _ (
                    t.raised (position r.backends g) (In-map (position r.backends) g (h ∷ hs) m)
                      other),
                weight_at-position r.backends v.chain g (inside g m),
              )))
    ]

  -- Selection returns a healthy backend, whose share is charged, and can be repeated.
  pub select_weighted-IsShare :
      (b : BackendServer) × (r' : RowRouter) × (select_weighted r (h ∷ hs) ≡ some (b, r'))
      × IsShare r r' (h ∷ hs) b
      × IsReady r' (h ∷ hs)
  unfolding select_weighted
  select_weighted-IsShare =
      let (s, c', ran, t, bal) = turn in
      let (b, at, same, member) =
        get_elem?-map (position r.backends) (h ∷ hs) s.best_idx s.best_pos t.indexed in
      (
        b,
        record r { current = c' },
        rw (select_weighted, positions_of-map r.backends v.chain (h ∷ hs) v.members, ran, at),
        record {
          healthy = member;
          same_backends = refl;
          moved = turn_moved s c' b t same member;
          untouched = t.untouched;
        },
        record {
          chain = v.chain;
          aligned = t.same_length ∙ v.aligned;
          members = v.members;
          distinct = v.distinct;
          scores = subst (λ w. IsBalanced w c' (positions r (h ∷ hs))) same_total bal;
        },
      )
