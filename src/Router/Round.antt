-- ===== src/Router/Round.antt =====
-- One round of `select_weighted` in crates/omega-core/src/router.rs over a fixed set of positions:
-- the sum of the running weights, their lower bound, and who pays.
use ashat_coding_agent.Base.{
  ℕ, zero, suc, subst, ◌+◌, ◌<◌, ◌^◌, ◌≡◌, refl, ◌∙◌, sym, inl, inr, ◌≢◌, some, List, [], ◌∷◌,
  arith, get_elem?, set, length, length-set, get_or-set_self, get_or-set_ne, All, In, Distinct,
  All-of_In, ◌==◌, false, Bool-cases, ==_iff,
}
use ashat_coding_agent.Base.Int.{
  pos_part, ℤ, pos, neg_part, ◌+ℤ◌, ◌-ℤ◌, ◌≤ℤ◌, ◌<ℤ◌, int_laws, eq_of_parts, parts_of_eq, ltb_ℤ,
  ltb_ℤ→lt, ltb_ℤ-false→le,
}
use native.Mathlib.Nat.{zero-add}
use ashat_coding_agent.Types.{BackendServer}
use ashat_coding_agent.Router.{Scan, scan, start, round, score, weight_at}
use ashat_coding_agent.Router.Loop.{
  total_weight, length-scan, score-scan_member, score-scan_out, total-scan, best-scan_in,
  scan-Winner,
}

abbrev pub sum_scores : List ℤ → List ℕ → ℤ
sum_scores c [] = pos 0
sum_scores c (p ∷ ps) = score c p +ℤ sum_scores c ps

sum-nonpos :
    (c : List ℤ) (ps : List ℕ) → ((q : ℕ) → In q ps → score c q ≤ℤ pos 0) → sum_scores c ps ≤ℤ pos 0
sum-nonpos c [] h = omega arith
sum-nonpos c (p ∷ ps) h = omega (int_laws, h p (inl refl), sum-nonpos c ps (λ q m. h q (inr m)))

sum-raised :
    (backends : List BackendServer) (c c' : List ℤ) (ps : List ℕ)
    → ((q : ℕ) → In q ps → score c' q ≡ score c q +ℤ pos (weight_at backends q))
    → sum_scores c' ps ≡ sum_scores c ps +ℤ pos (total_weight backends ps)
sum-raised backends c c' [] h = omega int_laws
sum-raised backends c c' (p ∷ ps) h =
    rw (h p (inl refl), sum-raised backends c c' ps (λ q m. h q (inr m))) (omega int_laws)

module _ (c : List ℤ) (b : ℕ) (v : ℤ) where
  sum-set_out : (ps : List ℕ) → ¬ In b ps → sum_scores (set c b v) ps ≡ sum_scores c ps
  sum-set_out [] h = refl
  sum-set_out (p ∷ ps) h =
      rw (get_or-set_ne c b p v (pos 0) (λ e. h (inl (sym e))), sum-set_out ps (λ m. h (inr m)))
        refl

  sum-set_member :
      (ps : List ℕ)
      → Distinct ps
      → In b ps
      → b < length c
      → sum_scores (set c b v) ps +ℤ score c b ≡ sum_scores c ps +ℤ v
  sum-set_member [] d m l = elim m [ ]
  sum-set_member (p ∷ ps) d (inl e) l =
      rw (e, get_or-set_self c b v (pos 0) l, sum-set_out ps (rw e at d.0)) (omega int_laws)
  sum-set_member (p ∷ ps) d (inr m) l =
      rw (get_or-set_ne c b p v (pos 0) (λ e. d.0 (rw (← e) m)))
        (omega (int_laws, parts_of_eq _ _ (sum-set_member ps d.1 m l)))

-- The running weights between rounds: they add up to nothing, and none is as low as minus the
-- total weight.
pub record IsBalanced (total : ℕ) (c : List ℤ) (ps : List ℕ) : Type 0 where
  pub balanced : sum_scores c ps ≡ pos 0
  pub above : (q : ℕ) → In q ps → neg_part (score c q) < pos_part (score c q) + total

-- What a round does: `s` tells the winner, `c'` are the weights behind it.
pub record IsTurn (backends : List BackendServer) (ps : List ℕ) (c : List ℤ) (s : Scan)
    (c' : List ℤ) : Type 0 where
  pub indexed : get_elem? ps s.best_idx ≡ some s.best_pos
  pub chosen : In s.best_pos ps
  pub paid :
      score c' s.best_pos +ℤ pos (total_weight backends ps)
      ≡ score c s.best_pos +ℤ pos (weight_at backends s.best_pos)
  pub raised :
      (q : ℕ) → In q ps → q ≢ s.best_pos → score c' q ≡ score c q +ℤ pos (weight_at backends q)
  pub untouched : (q : ℕ) → ¬ In q ps → score c' q ≡ score c q
  pub same_length : length c' ≡ length c

In-of_get_elem? : {A : Type 0} (xs : List A) (j : ℕ) (a : A) → get_elem? xs j ≡ some a → In a xs
In-of_get_elem? [] j a h = ground arith
In-of_get_elem? (x ∷ xs) zero a h = inl (ground arith)
In-of_get_elem? (x ∷ xs) (suc j) a h = inr (In-of_get_elem? xs j a h)

ne_of_==-false : (a b : ℕ) → (a == b) ≡ false → a ≢ b
ne_of_==-false a b h = ground arith

weight_at-pos : (backends : List BackendServer) (p : ℕ) → 0 < weight_at backends p
weight_at-pos [] p = omega arith
weight_at-pos (b ∷ bs) zero = omega arith
weight_at-pos (b ∷ bs) (suc p) = weight_at-pos bs p

module _ (backends : List BackendServer) (p : ℕ) (rest : List ℕ) (c : List ℤ) where
  positions : List ℕ
  positions = p ∷ rest

  swept : Scan
  swept = scan backends 0 positions (start c p)

  swept_length : length swept.current ≡ length c
  unfolding swept
  swept_length = length-scan backends 0 positions (start c p)

  swept_out : (q : ℕ) → ¬ In q positions → score swept.current q ≡ score c q
  unfolding swept
  swept_out q h = score-scan_out backends 0 q positions (start c p) h

  total-pos : 0 < total_weight backends positions
  unfolding positions
  total-pos = omega (arith, weight_at-pos backends p)

  module _ (d : Distinct positions) (r : All (λ q. q < length c) positions) where
    swept_scores :
        (q : ℕ) → In q positions → score swept.current q ≡ score c q +ℤ pos (weight_at backends q)
    unfolding swept positions
    swept_scores q m = score-scan_member backends 0 q positions (start c p) d r m

    swept_best : (q : ℕ) → In q positions → score swept.current q ≤ℤ swept.best_score
    unfolding swept positions
    swept_best q m = best-scan_in backends 0 q positions (start c p) d r m

    swept_sum :
        sum_scores swept.current positions
        ≡ sum_scores c positions +ℤ pos (total_weight backends positions)
    swept_sum = sum-raised backends c swept.current positions swept_scores

    module _ (w : total_weight backends positions < 2 ^ 63)
        (v : IsBalanced (total_weight backends positions) c positions) where
      -- The sweep finds a position: every raised weight is above `i64::MIN`.
      swept_found :
          (get_elem? positions swept.best_idx ≡ some swept.best_pos)
          × (swept.best_score ≡ score swept.current swept.best_pos)
      unfolding swept positions
      swept_found = elim (scan-Winner backends 0 positions (start c p) d r) [
        | inl (_, _, e) ↦ absurd (
            omega (
              int_laws,
              parts_of_eq _ _ e,
              parts_of_eq _ _ (swept_scores p (inl refl)),
              swept_best p (inl refl),
              v.above p (inl refl),
            ))
        | inr (j, ei, ep, es) ↦ (rw ei (rw (zero-add j) ep), es)
      ]

      swept_member : In swept.best_pos positions
      swept_member = In-of_get_elem? positions swept.best_idx swept.best_pos swept_found.0

      swept_total : swept.total ≡ total_weight backends positions
      unfolding swept positions
      swept_total = total-scan backends 0 positions (start c p) ∙ zero-add _

      -- Some weight is positive, since they add up to the total.
      swept_positive : pos 0 <ℤ score swept.current swept.best_pos
      swept_positive = elim (Bool-cases (ltb_ℤ (pos 0) best)) [
        | inl e ↦ ltb_ℤ→lt (pos 0) best e
        | inr e ↦ absurd (
            omega (
              int_laws,
              sum-nonpos swept.current positions (λ q m. omega (
                int_laws,
                swept_best q m,
                parts_of_eq _ _ swept_found.1,
                ltb_ℤ-false→le (pos 0) best e,
              )),
              parts_of_eq _ _ swept_sum,
              parts_of_eq _ _ v.balanced,
              total-pos,
            ))
      ]
        where
          best : ℤ
          best = score swept.current swept.best_pos

      c_after : List ℤ
      c_after =
          set swept.current swept.best_pos (score swept.current swept.best_pos -ℤ pos swept.total)

      best_in_range : swept.best_pos < length swept.current
      best_in_range =
          rw swept_length (All-of_In (λ q. q < length c) positions swept.best_pos r swept_member)

      paid_best :
          score c_after swept.best_pos ≡ score swept.current swept.best_pos -ℤ pos swept.total
      unfolding c_after
      paid_best = get_or-set_self swept.current swept.best_pos _ (pos 0) best_in_range

      kept_other : (q : ℕ) → q ≢ swept.best_pos → score c_after q ≡ score swept.current q
      unfolding c_after
      kept_other q h = get_or-set_ne swept.current swept.best_pos q _ (pos 0) (λ e. h (sym e))

      after_sum :
          sum_scores c_after positions +ℤ score swept.current swept.best_pos
          ≡ sum_scores swept.current positions
            +ℤ (score swept.current swept.best_pos -ℤ pos swept.total)
      unfolding c_after
      after_sum =
          sum-set_member swept.current swept.best_pos _ positions d swept_member best_in_range

      above_best :
          neg_part (score c_after swept.best_pos)
          < pos_part (score c_after swept.best_pos) + total_weight backends positions
      above_best =
          omega (int_laws, parts_of_eq _ _ paid_best, swept_positive, swept_total, total-pos)

      after-IsBalanced : IsBalanced (total_weight backends positions) c_after positions
      after-IsBalanced = record {
        balanced = eq_of_parts _ _ (
            omega (
              int_laws,
              parts_of_eq _ _ after_sum,
              parts_of_eq _ _ swept_sum,
              parts_of_eq _ _ v.balanced,
              swept_total,
            ));
        above = λ q m. elim (Bool-cases (q == swept.best_pos)) [
          | inl e ↦
              subst
                (λ z.
                  neg_part (score c_after z)
                  < pos_part (score c_after z) + total_weight backends positions)
                (sym ((==_iff q swept.best_pos).0 e)) above_best
          | inr e ↦ omega (
            int_laws,
            v.above q m,
            parts_of_eq _ _ (kept_other q (λ h. ne_of_==-false q swept.best_pos e h)),
            parts_of_eq _ _ (swept_scores q m),
          )
        ];
      }

      after-IsTurn : IsTurn backends positions c swept c_after
      unfolding c_after
      after-IsTurn = record {
        indexed = swept_found.0;
        chosen = swept_member;
        paid = eq_of_parts _ _ (
            omega (
              int_laws,
              parts_of_eq _ _ paid_best,
              parts_of_eq _ _ (swept_scores swept.best_pos swept_member),
              swept_total,
            ));
        raised = λ q m h. kept_other q h ∙ swept_scores q m;
        untouched = λ q h. kept_other q (λ e. h (rw e swept_member)) ∙ swept_out q h;
        same_length = length-set swept.current swept.best_pos _ ∙ swept_length;
      }

      round-IsTurn :
          (round backends positions c ≡ some (swept, c_after))
          × IsTurn backends positions c swept c_after
          × IsBalanced (total_weight backends positions) c_after positions
      unfolding c_after round swept positions
      round-IsTurn = (refl, after-IsTurn, after-IsBalanced)

-- A round over distinct positions in range, from balanced weights, does not panic, and is a turn
-- that leaves them balanced.
pub round_lem :
    (backends : List BackendServer) (ps : List ℕ) (c : List ℤ)
    → ps ≢ []
    → Distinct ps
    → All (λ q. q < length c) ps
    → total_weight backends ps < 2 ^ 63
    → IsBalanced (total_weight backends ps) c ps
    → (s : Scan) × (c' : List ℤ) × (round backends ps c ≡ some (s, c'))
      × IsTurn backends ps c s c'
      × IsBalanced (total_weight backends ps) c' ps
unfolding positions
round_lem backends [] c n d r w v = absurd (n refl)
round_lem backends (p ∷ rest) c n d r w v =
    let (ran, turn, balanced) = round-IsTurn backends p rest c d r w v in
    (swept backends p rest c, c_after backends p rest c d r w v, ran, turn, balanced)
