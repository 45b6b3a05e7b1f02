-- ===== src/Router/Cycle.antt =====
-- About repeated `select_weighted` in crates/omega-core/src/router.rs from fresh weights: the counts
-- of the winners and the sizes of the running weights.
use ashat_coding_agent.Base.{
  ℕ, zero, suc, ◌+◌, ◌*◌, ◌<◌, ◌≤◌, ◌^◌, ◌≡◌, refl, ap, ◌∙◌, sym, subst, inl, inr, some, List, [],
  ◌∷◌, arith, map, str_eq, eq_iff, if◌then◌else◌, length, All, In, Distinct, replicate,
  length-replicate, length-map,
}
use ashat_coding_agent.Base.Int.{
  ℤ, pos, negsuc, pos_part, neg_part, int_laws, eq_of_parts, parts_of_eq,
}
use ashat_coding_agent.Types.{BackendServer}
use ashat_coding_agent.Router.{RowRouter, new, score, weight_of}
use ashat_coding_agent.Router.Positions.{ids, In-map, position}
use ashat_coding_agent.Router.Round.{sum_scores}
use ashat_coding_agent.Router.Fairness.{weights, IsReady}
use ashat_coding_agent.Router.Shares.{picks, picks-IsRun, IsRun, count_id}

abbrev count_all : List BackendServer → List BackendServer → ℕ
count_all [] bs = 0
count_all (g ∷ gs) bs = count_id g.id bs + count_all gs bs

abbrev hits : BackendServer → List BackendServer → ℕ
hits b [] = 0
hits b (g ∷ gs) = (if str_eq b.id g.id then 1 else 0) + hits b gs

hits_none : (b : BackendServer) (gs : List BackendServer) → ¬ In b.id (ids gs) → hits b gs ≡ 0
hits_none b [] h = refl
hits_none b (g ∷ gs) h =
    ground (
      arith,
      eq_iff b.id g.id,
      hits_none b gs (λ m. h (inr m)),
      λ (e : b.id ≡ g.id). h (inl (sym e)),
    )

hits_one :
    (b : BackendServer) (gs : List BackendServer) → Distinct (ids gs) → In b gs → hits b gs ≡ 1
hits_one b [] d m = elim m [ ]
hits_one b (g ∷ gs) d (inl e) =
    let same : g.id ≡ b.id = ap (λ (x : BackendServer). x.id) e in
    rw ((eq_iff b.id g.id).1 (sym same))
      (omega (arith, hits_none b gs (subst (λ i. ¬ In i (ids gs)) same d.0)))
hits_one b (g ∷ gs) d (inr m) = ground (
  arith,
  eq_iff b.id g.id,
  hits_one b gs d.1 m,
  λ (e : b.id ≡ g.id).
      d.0 (subst (λ i. In i (ids gs)) e (In-map (λ (x : BackendServer). x.id) b gs m)),
)

count_all-cons :
    (gs : List BackendServer) (b : BackendServer) (bs : List BackendServer)
    → count_all gs (b ∷ bs) ≡ hits b gs + count_all gs bs
count_all-cons [] b bs = omega arith
count_all-cons (g ∷ gs) b bs = omega (arith, count_all-cons gs b bs)

count_all-nil : (gs : List BackendServer) → count_all gs [] ≡ 0
count_all-nil [] = refl
count_all-nil (g ∷ gs) = omega (arith, count_all-nil gs)

-- Every selection is counted once over a healthy set of distinct ids.
count_all-length :
    (gs bs : List BackendServer)
    → Distinct (ids gs)
    → All (λ b. In b gs) bs
    → count_all gs bs ≡ length bs
count_all-length gs [] d m = count_all-nil gs
count_all-length gs (b ∷ bs) d m =
    omega (arith, count_all-cons gs b bs, hits_one b gs d m.0, count_all-length gs bs d m.1)

count_all-le :
    (gs bs : List BackendServer)
    → ((g : BackendServer) → In g gs → count_id g.id bs ≤ weight_of g)
    → count_all gs bs ≤ weights gs
count_all-le [] bs h = omega arith
count_all-le (g ∷ gs) bs h = omega (arith, h g (inl refl), count_all-le gs bs (λ x m. h x (inr m)))

-- Counts that are at most the weights and have the same sum are the weights.
count_exact :
    (gs bs : List BackendServer)
    → ((g : BackendServer) → In g gs → count_id g.id bs ≤ weight_of g)
    → count_all gs bs ≡ weights gs
    → (g : BackendServer) → In g gs
    → count_id g.id bs ≡ weight_of g
count_exact [] bs h e g m = elim m [ ]
count_exact (x ∷ gs) bs h e g (inl same) =
    subst (λ (y : BackendServer). count_id y.id bs ≡ weight_of y) same
      (omega (arith, e, h x (inl refl), count_all-le gs bs (λ y m. h y (inr m))))
count_exact (x ∷ gs) bs h e g (inr m) =
    count_exact gs bs (λ y k. h y (inr k))
      (omega (arith, e, h x (inl refl), count_all-le gs bs (λ y k. h y (inr k)))) g m

le_of_mul : (w a b : ℕ) → w * a < w * b + w → a ≤ b
le_of_mul w a b h = grind arith

-- What is above `-w` everywhere and adds up to nothing is below `w` times the number of others.
sum-above :
    (w : ℕ) (c : List ℤ) (ps : List ℕ)
    → ((q : ℕ) → In q ps → neg_part (score c q) < pos_part (score c q) + w)
    → neg_part (sum_scores c ps) ≤ pos_part (sum_scores c ps) + w * length ps
sum-above w c [] h = omega arith
sum-above w c (p ∷ ps) h = omega (int_laws, h p (inl refl), sum-above w c ps (λ q m. h q (inr m)))

score-below :
    (w : ℕ) (c : List ℤ) (p : ℕ) (ps : List ℕ) (q : ℕ)
    → ((q : ℕ) → In q (p ∷ ps) → neg_part (score c q) < pos_part (score c q) + w)
    → In q (p ∷ ps)
    → pos_part (score c q) + neg_part (sum_scores c (p ∷ ps))
      ≤ neg_part (score c q) + pos_part (sum_scores c (p ∷ ps)) + w * length ps
score-below w c p ps q h (inl e) =
    subst
      (λ z.
        pos_part (score c z) + neg_part (sum_scores c (p ∷ ps))
        ≤ neg_part (score c z) + pos_part (sum_scores c (p ∷ ps)) + w * length ps)
      e (omega (int_laws, sum-above w c ps (λ z m. h z (inr m))))
score-below w c p (x ∷ ps) q h (inr m) =
    omega (int_laws, h p (inl refl), score-below w c x ps q (λ z k. h z (inr k)) m)
score-below w c p [] q h (inr m) = elim m [ ]

score-zeros : (n q : ℕ) → score (replicate n (pos 0)) q ≡ pos 0
score-zeros zero q = refl
score-zeros (suc n) zero = refl
score-zeros (suc n) (suc q) = score-zeros n q

sum-zeros : (n : ℕ) (ps : List ℕ) → sum_scores (replicate n (pos 0)) ps ≡ pos 0
sum-zeros n [] = refl
sum-zeros n (p ∷ ps) =
    eq_of_parts _ _
      (omega (int_laws, parts_of_eq _ _ (score-zeros n p), parts_of_eq _ _ (sum-zeros n ps)))

-- The sums of a selection stay in 64 bits: a running weight is one number, above or below 0.
no_overflow :
    (z : ℤ) (most w total : ℕ)
    → pos_part z ≤ neg_part z + most
    → w ≤ total
    → most + total < 2 ^ 63
    → pos_part z + w < 2 ^ 63
no_overflow (pos n) most w total h k l = omega (arith, h, k, l)
no_overflow (negsuc n) most w total h k l = omega (arith, k, l)

no_underflow :
    (z : ℤ) (total : ℕ) → neg_part z < pos_part z + total → total < 2 ^ 63 → neg_part z < 2 ^ 63
no_underflow (pos n) total h k = omega (arith, k)
no_underflow (negsuc n) total h k = omega (arith, h, k)

weight_of-le : (g : BackendServer) (hs : List BackendServer) → In g hs → weight_of g ≤ weights hs
weight_of-le g [] m = elim m [ ]
weight_of-le g (h ∷ hs) (inl e) = omega (arith, ap weight_of e)
weight_of-le g (h ∷ hs) (inr m) = omega (arith, weight_of-le g hs m)

module _ (backends : List BackendServer) (h : BackendServer) (hs : List BackendServer)
    (chain : Distinct (ids backends)) (members : All (λ g. In g backends) (h ∷ hs))
    (distinct : Distinct (ids (h ∷ hs))) (small : weights (h ∷ hs) < 2 ^ 63) where
  new-IsReady : IsReady (new backends) (h ∷ hs)
  unfolding new
  new-IsReady = record {
    chain = chain;
    aligned = length-replicate (length backends) (pos 0);
    members = members;
    distinct = distinct;
    scores = record {
      balanced = sum-zeros (length backends) (map (position backends) (h ∷ hs));
      above = λ q m. omega (int_laws, parts_of_eq _ _ (score-zeros (length backends) q));
    };
  }

  score-new : (q : ℕ) → score (new backends).current q ≡ pos 0
  unfolding new
  score-new q = score-zeros (length backends) q

  run :
      (n : ℕ)
      → (bs : List BackendServer) × (r : RowRouter) × (picks n (new backends) (h ∷ hs)
          ≡ some (bs, r))
        × IsRun n (new backends) r (h ∷ hs) bs
  run n = picks-IsRun h hs small n (new backends) new-IsReady

  account_new :
      (n : ℕ) (bs : List BackendServer) (r : RowRouter)
      → IsRun n (new backends) r (h ∷ hs) bs
      → (g : BackendServer) → In g (h ∷ hs)
      → (pos_part (score r.current (position backends g)) + weights (h ∷ hs) * count_id g.id bs
          ≡ neg_part (score r.current (position backends g)) + n * weight_of g)
        × (neg_part (score r.current (position backends g))
            < pos_part (score r.current (position backends g)) + weights (h ∷ hs))
  unfolding new
  account_new n bs r i g m =
      let zero_start = parts_of_eq _ _ (score-zeros (length backends) (position backends g)) in
      (
        omega (arith, i.account g m, zero_start),
        subst
            (λ l.
              neg_part (score r.current (position l g))
              < pos_part (score r.current (position l g)) + weights (h ∷ hs))
            i.same_backends
            (i.ready.scores.above (position r.backends g)
              (In-map (position r.backends) g (h ∷ hs) m)),
      )

  -- From fresh running weights, any number of selections over a non-empty healthy set of chain
  -- members (ids distinct, weights below 2^63 in sum) runs without a panic and returns only
  -- healthy backends. At every point `n` a backend `g` has been returned less often than
  -- n * weight / total + 1.
  pub picks_share :
      (n : ℕ)
      → (bs : List BackendServer) × (r : RowRouter) × (picks n (new backends) (h ∷ hs)
          ≡ some (bs, r))
        × (length bs ≡ n)
        × All (λ b. In b (h ∷ hs)) bs
        × ((g : BackendServer)
            → In g (h ∷ hs)
            → weights (h ∷ hs) * count_id g.id bs < n * weight_of g + weights (h ∷ hs))
  picks_share n =
      let (bs, r, ran, i) = run n in
      (
        bs,
        r,
        ran,
        i.returned,
        i.healthy,
        λ g m. omega (arith, (account_new n bs r i g m).0, (account_new n bs r i g m).1),
      )

  exact_counts :
      (bs : List BackendServer) (r : RowRouter)
      → IsRun (weights (h ∷ hs)) (new backends) r (h ∷ hs) bs
      → (g : BackendServer) → In g (h ∷ hs)
      → count_id g.id bs ≡ weight_of g
  exact_counts bs r i =
      count_exact (h ∷ hs) bs
        (λ g m. le_of_mul (weights (h ∷ hs)) (count_id g.id bs) (weight_of g) (
          omega (
            arith,
            (account_new (weights (h ∷ hs)) bs r i g m).0,
            (account_new (weights (h ∷ hs)) bs r i g m).1,
          )))
        (count_all-length (h ∷ hs) bs distinct i.healthy ∙ i.returned)

  -- From fresh running weights, over a non-empty healthy set of chain members (ids distinct, weights
  -- below 2^63 in sum): one cycle, as many selections as the weights add up to, returns each healthy
  -- backend exactly as often as its weight says (0 counts as 1), and leaves its running weight at 0.
  pub picks_cycle :
      (bs : List BackendServer) × (r : RowRouter) × (picks
          (weights (h ∷ hs))
          (new backends)
          (h ∷ hs)
        ≡ some (bs, r))
      × ((g : BackendServer)
          → In g (h ∷ hs)
          → (count_id g.id bs ≡ weight_of g) × (score r.current (position backends g) ≡ pos 0))
  picks_cycle =
      let (bs, r, ran, i) = run (weights (h ∷ hs)) in
      let counts = exact_counts bs r i in
      (
        bs,
        r,
        ran,
        λ g m. (
          counts g m,
          eq_of_parts _ _ (
              omega (
                arith,
                (account_new (weights (h ∷ hs)) bs r i g m).0,
                ap (λ (c : ℕ). weights (h ∷ hs) * c) (counts g m),
              )),
        ),
      )

  below :
      (n : ℕ) (bs : List BackendServer) (r : RowRouter)
      → IsRun n (new backends) r (h ∷ hs) bs
      → (g : BackendServer) → In g (h ∷ hs)
      → pos_part (score r.current (position backends g))
        ≤ neg_part (score r.current (position backends g)) + weights (h ∷ hs) * length hs
  unfolding new
  below n bs r i g m =
      subst
        (λ l.
          pos_part (score r.current (position l g))
          ≤ neg_part (score r.current (position l g)) + weights (h ∷ hs) * length hs)
        i.same_backends
        (omega (
          arith,
          score-below (weights (h ∷ hs)) r.current (position r.backends h)
              (map (position r.backends) hs) (position r.backends g) i.ready.scores.above
              (In-map (position r.backends) g (h ∷ hs) m),
          parts_of_eq _ _ i.ready.scores.balanced,
          ap (λ (k : ℕ). weights (h ∷ hs) * k) (length-map hs (position r.backends)),
        ))

  -- From fresh running weights, over a non-empty healthy set of chain members (ids distinct) whose
  -- total weight times their number is below 2^63: after any number of selections each healthy
  -- backend's running weight is above -total and at most total * (number of healthy backends - 1),
  -- and it fits in an `i64`, as it is and with the backend's own weight added, which is what the next
  -- selection does to it before the winner is charged.
  pub picks_bounds :
      (n : ℕ)
      → weights (h ∷ hs) * length hs + weights (h ∷ hs) < 2 ^ 63
      → (bs : List BackendServer) × (r : RowRouter) × (picks n (new backends) (h ∷ hs)
          ≡ some (bs, r))
        × ((g : BackendServer)
            → In g (h ∷ hs)
            → (neg_part (score r.current (position backends g))
                < pos_part (score r.current (position backends g)) + weights (h ∷ hs))
              × (pos_part (score r.current (position backends g))
                  ≤ neg_part (score r.current (position backends g)) + weights (h ∷ hs) * length hs)
              × (neg_part (score r.current (position backends g)) < 2 ^ 63)
              × (pos_part (score r.current (position backends g)) + weight_of g < 2 ^ 63))
  picks_bounds n fits =
      let (bs, r, ran, i) = run n in
      (
        bs,
        r,
        ran,
        λ g m.
            let low = (account_new n bs r i g m).1 in
            let high = below n bs r i g m in
            (
              low,
              high,
              no_underflow (score r.current (position backends g)) (weights (h ∷ hs)) low
                  (omega (arith, fits)),
              no_overflow (score r.current (position backends g)) (weights (h ∷ hs) * length hs)
                  (weight_of g) (weights (h ∷ hs)) high (weight_of-le g (h ∷ hs) m) fits,
            ),
      )
