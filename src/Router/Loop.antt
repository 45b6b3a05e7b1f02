-- ===== src/Router/Loop.antt =====
-- The loop of `select_weighted`: what one sweep over the positions does to the weights, and which
-- position it leaves as the best.
use ashat_coding_agent.Base.{
  ℕ, suc, ◌+◌, ◌<◌, ◌≡◌, refl, ap, ◌∙◌, sym, ◌⊎◌, inl, inr, ◌≢◌, some, List, [], ◌∷◌, arith,
  Bool-cases, get_elem?, length, length-set, get_or-set_self, get_or-set_ne, All, In, Distinct,
}
use ashat_coding_agent.Base.Int.{ℤ, pos, ◌+ℤ◌, ◌≤ℤ◌, ◌<ℤ◌, ltb_ℤ, ltb_ℤ→lt, ltb_ℤ-false→le}
use ashat_coding_agent.Types.{BackendServer}
use ashat_coding_agent.Router.{Scan, visit, scan, score, weight_at}

abbrev pub total_weight : List BackendServer → List ℕ → ℕ
total_weight backends [] = 0
total_weight backends (p ∷ ps) = weight_at backends p + total_weight backends ps

module _ (backends : List BackendServer) where
  length-visit : (i p : ℕ) (s : Scan) → length (visit backends i p s).current ≡ length s.current
  unfolding visit
  length-visit i p s =
      ground (arith, length-set s.current p (score s.current p +ℤ pos (weight_at backends p)))

  score-visit_self :
      (i p : ℕ) (s : Scan)
      → p < length s.current
      → score (visit backends i p s).current p ≡ score s.current p +ℤ pos (weight_at backends p)
  unfolding visit
  score-visit_self i p s h = ground (
    arith,
    get_or-set_self s.current p (score s.current p +ℤ pos (weight_at backends p)) (pos 0) h,
  )

  score-visit_ne :
      (i p q : ℕ) (s : Scan) → p ≢ q → score (visit backends i p s).current q ≡ score s.current q
  unfolding visit
  score-visit_ne i p q s h = ground (
    arith,
    get_or-set_ne s.current p q (score s.current p +ℤ pos (weight_at backends p)) (pos 0) h,
  )

  total-visit : (i p : ℕ) (s : Scan) → (visit backends i p s).total ≡ s.total + weight_at backends p
  unfolding visit
  total-visit i p s = ground arith

  -- A visit takes the position over only if its raised weight is above the best so far.
  best-visit :
      (i p : ℕ) (s : Scan)
      → let t = visit backends i p s in
        let raised = score s.current p +ℤ pos (weight_at backends p) in
        ((s.best_score <ℤ raised) × (t.best_idx ≡ i) × (t.best_pos ≡ p) × (t.best_score ≡ raised))
        ⊎ ((raised ≤ℤ s.best_score)
            × (t.best_idx ≡ s.best_idx)
            × (t.best_pos ≡ s.best_pos)
            × (t.best_score ≡ s.best_score))
  unfolding visit
  best-visit i p s = elim (Bool-cases (ltb_ℤ s.best_score raised)) [
    | inl e ↦ rw e (inl (ltb_ℤ→lt s.best_score raised e, refl, refl, refl))
    | inr e ↦ rw e (inr (ltb_ℤ-false→le s.best_score raised e, refl, refl, refl))
  ]
    where
      raised : ℤ
      raised = score s.current p +ℤ pos (weight_at backends p)

  best-visit_le :
      (i p : ℕ) (s : Scan)
      → (s.best_score ≤ℤ (visit backends i p s).best_score)
        × (score s.current p +ℤ pos (weight_at backends p) ≤ℤ (visit backends i p s).best_score)
  best-visit_le i p s = elim (best-visit i p s) [
    | inl (h, _, _, e) ↦ rw e (omega arith, omega arith)
    | inr (h, _, _, e) ↦ rw e (omega arith, omega arith)
  ]

  pub length-scan :
      (i : ℕ) (ps : List ℕ) (s : Scan) → length (scan backends i ps s).current ≡ length s.current
  unfolding scan
  length-scan i [] s = refl
  length-scan i (p ∷ ps) s = length-scan (suc i) ps (visit backends i p s) ∙ length-visit i p s

  pub score-scan_out :
      (i q : ℕ) (ps : List ℕ) (s : Scan)
      → ¬ In q ps
      → score (scan backends i ps s).current q ≡ score s.current q
  unfolding scan
  score-scan_out i q [] s h = refl
  score-scan_out i q (p ∷ ps) s h =
      score-scan_out (suc i) q ps (visit backends i p s) (λ m. h (inr m))
      ∙ score-visit_ne i p q s (λ e. h (inl e))

  pub total-scan :
      (i : ℕ) (ps : List ℕ) (s : Scan)
      → (scan backends i ps s).total ≡ s.total + total_weight backends ps
  unfolding scan
  total-scan i [] s = omega arith
  total-scan i (p ∷ ps) s =
      omega (arith, total-scan (suc i) ps (visit backends i p s), total-visit i p s)

  pub score-scan_member :
      (i q : ℕ) (ps : List ℕ) (s : Scan)
      → Distinct ps
      → All (λ p. p < length s.current) ps
      → In q ps
      → score (scan backends i ps s).current q ≡ score s.current q +ℤ pos (weight_at backends q)
  unfolding scan
  score-scan_member i q [] s d r m = elim m [ ]
  score-scan_member i q (p ∷ ps) s d r (inl e) =
      rw (← e) (score-scan_out (suc i) p ps (visit backends i p s) d.0 ∙ score-visit_self i p s r.0)
  score-scan_member i q (p ∷ ps) s d r (inr m) =
      let t = visit backends i p s in
      score-scan_member (suc i) q ps t d.1 (rw (length-visit i p s) r.1) m
      ∙ ap (λ z. z +ℤ pos (weight_at backends q)) (score-visit_ne i p q s (λ e. d.0 (rw e m)))

  best-scan_le :
      (i : ℕ) (ps : List ℕ) (s : Scan) → s.best_score ≤ℤ (scan backends i ps s).best_score
  unfolding scan
  best-scan_le i [] s = omega arith
  best-scan_le i (p ∷ ps) s =
      omega (arith, best-scan_le (suc i) ps (visit backends i p s), (best-visit_le i p s).0)

  -- The best score is at least that of every visited position.
  pub best-scan_in :
      (i q : ℕ) (ps : List ℕ) (s : Scan)
      → Distinct ps
      → All (λ p. p < length s.current) ps
      → In q ps
      → score (scan backends i ps s).current q ≤ℤ (scan backends i ps s).best_score
  unfolding scan
  best-scan_in i q [] s d r m = elim m [ ]
  best-scan_in i q (p ∷ ps) s d r (inl e) =
      rw (← e, score-scan_out (suc i) p ps (visit backends i p s) d.0, score-visit_self i p s r.0)
        (omega (arith, best-scan_le (suc i) ps (visit backends i p s), (best-visit_le i p s).1))
  best-scan_in i q (p ∷ ps) s d r (inr m) =
      best-scan_in (suc i) q ps (visit backends i p s) d.1 (rw (length-visit i p s) r.1) m

  -- Where the best position comes from.
  abbrev pub Winner : ℕ → List ℕ → Scan → Scan → Type 0
  Winner i ps s t =
      ((t.best_idx ≡ s.best_idx) × (t.best_pos ≡ s.best_pos) × (t.best_score ≡ s.best_score))
      ⊎ ((j : ℕ) × (t.best_idx ≡ i + j)
          × (get_elem? ps j ≡ some t.best_pos)
          × (t.best_score ≡ score t.current t.best_pos))

  pub scan-Winner :
      (i : ℕ) (ps : List ℕ) (s : Scan)
      → Distinct ps
      → All (λ p. p < length s.current) ps
      → Winner i ps s (scan backends i ps s)
  unfolding scan
  scan-Winner i [] s d r = inl (refl, refl, refl)
  scan-Winner i (p ∷ ps) s d r = elim (scan-Winner (suc i) ps t d.1 (rw (length-visit i p s) r.1)) [
    | inl (ei, ep, es) ↦ elim (best-visit i p s) [
      | inl (h, fi, fp, fs) ↦ inr (
        0,
        omega arith,
        ap some (sym (ep ∙ fp)),
        es
            ∙ fs
            ∙ sym (score-visit_self i p s r.0)
            ∙ sym (score-scan_out (suc i) p ps t d.0)
            ∙ ap (score (scan backends (suc i) ps t).current) (sym (ep ∙ fp)),
      )
      | inr (h, fi, fp, fs) ↦ inl (ei ∙ fi, ep ∙ fp, es ∙ fs)
    ]
    | inr (j, ei, ep, es) ↦ inr (suc j, omega arith, ep, es)
  ]
    where
      t : Scan
      t = visit backends i p s
