-- ===== src/Router/Shares.antt =====
-- Repeated selection in crates/omega-core/src/router.rs, and the account of each backend.
use ashat_coding_agent.Base.{
  ℕ, zero, suc, ◌+◌, ◌*◌, ◌<◌, ◌^◌, ◌≡◌, refl, ap, ◌∙◌, subst, inl, inr, Option, none, some, List,
  [], ◌∷◌, arith, String, str_eq, Bool-cases, if◌then◌else◌, length, All, In,
}
use ashat_coding_agent.Base.Int.{ℤ, pos, pos_part, neg_part, ◌+ℤ◌, int_laws, parts_of_eq}
use ashat_coding_agent.Types.{BackendServer}
use ashat_coding_agent.Router.{RowRouter, select_weighted, score, weight_of}
use ashat_coding_agent.Router.Positions.{position}
use ashat_coding_agent.Router.Fairness.{weights, IsReady, select_weighted-IsShare}

-- `n` selections in a row over one healthy set, with the backends they return.
unfoldable pub picks : ℕ → RowRouter → List BackendServer → Option (List BackendServer × RowRouter)
picks zero r hs = some ([], r)
picks (suc n) r hs = elim (select_weighted r hs) [
  | none ↦ none
  | some (b, r') ↦ elim (picks n r' hs) [ none ↦ none | some (bs, r'') ↦ some (b ∷ bs, r'') ]
]

abbrev pub count_id : String → List BackendServer → ℕ
count_id id [] = 0
count_id id (b ∷ bs) = (if str_eq b.id id then 1 else 0) + count_id id bs

-- The account after `n` selections: what a backend was paid for plus what it is owed.
pub record IsRun (n : ℕ) (r r' : RowRouter) (hs bs : List BackendServer) : Type 0 where
  pub ready : IsReady r' hs
  pub same_backends : r'.backends ≡ r.backends
  pub returned : length bs ≡ n
  pub healthy : All (λ b. In b hs) bs
  pub account :
      (g : BackendServer)
      → In g hs
      → pos_part (score r'.current (position r.backends g))
          + neg_part (score r.current (position r.backends g))
          + weights hs * count_id g.id bs
        ≡ neg_part (score r'.current (position r.backends g))
          + pos_part (score r.current (position r.backends g))
          + n * weight_of g

account_step :
    (s s' s'' : ℤ) (x c n w total all : ℕ)
    → s' +ℤ pos x ≡ s +ℤ pos w
    → pos_part s'' + neg_part s' + total * c ≡ neg_part s'' + pos_part s' + n * w
    → all ≡ x + total * c
    → pos_part s'' + neg_part s + all ≡ neg_part s'' + pos_part s + suc n * w
account_step s s' s'' x c n w total all moved rest split = omega (int_laws, parts_of_eq _ _ moved)

module _ (h : BackendServer) (hs : List BackendServer) (small : weights (h ∷ hs) < 2 ^ 63) where
  paid :
      (b g : BackendServer) (bs : List BackendServer) (w : ℕ)
      → w * count_id g.id (b ∷ bs) ≡ (if str_eq b.id g.id then w else 0) + w * count_id g.id bs
  paid b g bs w = elim (Bool-cases (str_eq b.id g.id)) [
    | inl e ↦ rw e (omega arith)
    | inr e ↦ rw e (omega arith)
  ]

  pub picks-IsRun :
      (n : ℕ) (r : RowRouter)
      → IsReady r (h ∷ hs)
      → (bs : List BackendServer) × (r' : RowRouter) × (picks n r (h ∷ hs) ≡ some (bs, r'))
        × IsRun n r r' (h ∷ hs) bs
  unfolding picks
  picks-IsRun zero r v = (
    [],
    r,
    refl,
    record {
      ready = v;
      same_backends = refl;
      returned = refl;
      healthy = tt;
      account = λ g m. omega arith;
    },
  )
  picks-IsRun (suc n) r v =
      let (b, r', ran, share, v') = select_weighted-IsShare r h hs v small in
      let (bs, r'', later, run) = picks-IsRun n r' v' in
      (
        b ∷ bs,
        r'',
        ground (arith, ran, later),
        record {
          ready = run.ready;
          same_backends = run.same_backends ∙ share.same_backends;
          returned = ap suc run.returned;
          healthy = (share.healthy, run.healthy);
          account = λ g m.
              account_step (score r.current (position r.backends g))
                (score r'.current (position r.backends g))
                (score r''.current (position r.backends g)) _ (count_id g.id bs) n (weight_of g)
                (weights (h ∷ hs)) _ (share.moved g m)
                (subst
                  (λ l.
                    pos_part (score r''.current (position l g))
                      + neg_part (score r'.current (position l g))
                      + weights (h ∷ hs) * count_id g.id bs
                    ≡ neg_part (score r''.current (position l g))
                      + pos_part (score r'.current (position l g))
                      + n * weight_of g)
                  share.same_backends (run.account g m))
                (paid b g bs (weights (h ∷ hs)));
        },
      )
