-- ===== src/Metrics/Ring.antt =====
-- The two bounded trails of the metrics store in crates/omega-common/src/metrics.rs.
use ashat_coding_agent.Base.{
  ℕ, ◌-◌, ◌≤◌, ◌<◌, ◌≡◌, refl, ◌∙◌, List, [], ◌∷◌, ◌++◌, arith, reverse, take, drop, length,
  length-append, ◌==◌, Bool-cases, ==_iff, inl, inr, suc, ap,
}
use mathlib.Core.List.{append_assoc, append-nil}
use ashat_coding_agent.Types.{Event}
use ashat_coding_agent.Metrics.{
  MetricsStore, MetricRecord, open_store, push_capped, event, record_metric, recent_events,
  event_cap, in_memory_cap,
}

push_all {ℓ} : {A : Type ℓ} → ℕ → List A → List A → List A
push_all cap [] l = l
push_all cap (x ∷ xs) l = push_all cap xs (push_capped cap x l)

drop_shift {ℓ} :
    {A : Type ℓ} (cap : ℕ) (y x : A) (l xs : List A)
    → length (y ∷ l) ≡ cap
    → drop (length ((l ++ x ∷ []) ++ xs) - cap) ((l ++ x ∷ []) ++ xs)
      ≡ drop (length ((y ∷ l) ++ x ∷ xs) - cap) ((y ∷ l) ++ x ∷ xs)
drop_shift cap y x l xs h =
    let short : length (l ++ x ∷ xs) - cap ≡ length xs =
      omega (arith, h, length-append l (x ∷ xs)) in
    let long : suc (length (l ++ x ∷ xs)) - cap ≡ suc (length xs) =
      omega (arith, h, length-append l (x ∷ xs)) in
    rw (append_assoc l (x ∷ []) xs, short, long) refl

push_all-drop {ℓ} :
    {A : Type ℓ} (cap : ℕ) (xs l : List A)
    → 0 < cap
    → length l ≤ cap
    → push_all cap xs l ≡ drop (length (l ++ xs) - cap) (l ++ xs)
unfolding push_all
push_all-drop cap [] l p h =
    let none_lost : length l - cap ≡ 0 = omega (arith, h) in rw (append-nil l, none_lost) refl
push_all-drop cap (x ∷ xs) [] p h = push_all-drop cap xs (x ∷ []) p (omega (arith, p))
push_all-drop cap (x ∷ xs) (y ∷ l) p h = elim (Bool-cases (length (y ∷ l) == cap)) [
  | inl e ↦ rw e (
      push_all-drop cap xs (l ++ x ∷ []) p
        (ground (arith, length-append l (x ∷ []), ==_iff (length (y ∷ l)) cap, e))
      ∙ drop_shift cap y x l xs (ground (arith, ==_iff (length (y ∷ l)) cap, e)))
  | inr e ↦ rw e (
      push_all-drop cap xs ((y ∷ l) ++ x ∷ []) p
        (ground (arith, length-append l (x ∷ []), ==_iff (length (y ∷ l)) cap, e))
      ∙ ap (λ t. drop (length t - cap) t) (append_assoc (y ∷ l) (x ∷ []) xs))
]

-- The store behind some events, and behind some records.
abbrev pub events : List Event → MetricsStore → MetricsStore
events [] m = m
events (e ∷ es) m = events es (event e m)

abbrev pub records : List MetricRecord → MetricsStore → MetricsStore
records [] m = m
records (r ∷ rs) m = records rs (record_metric r m)

events-push_all :
    (es : List Event) (m : MetricsStore)
    → (events es m).recent_events ≡ push_all event_cap es m.recent_events
unfolding event push_all
events-push_all [] m = refl
events-push_all (e ∷ es) m = events-push_all es (event e m)

records-push_all :
    (rs : List MetricRecord) (m : MetricsStore)
    → (records rs m).records ≡ push_all in_memory_cap rs m.records
unfolding record_metric push_all
records-push_all [] m = refl
records-push_all (r ∷ rs) m = records-push_all rs (record_metric r m)

-- Behind any events, `recent_events n` of a new store answers with the newest event first, then
-- the older ones, up to `n` of the last 64 (its comment says "oldest-first").
pub recent_events_lem :
    (n : ℕ) (es : List Event)
    → recent_events n (events es open_store) ≡ take n (reverse (drop (length es - 64) es))
unfolding recent_events open_store
recent_events_lem n es =
    ap (λ l. take n (reverse l))
      (events-push_all es _ ∙ push_all-drop 64 es [] (omega arith) (omega arith))

-- Behind any records, a new store holds the last 1024 of them in the order of their arrival.
pub records_lem :
    (rs : List MetricRecord) → (records rs open_store).records ≡ drop (length rs - 1024) rs
unfolding open_store
records_lem rs = records-push_all rs _ ∙ push_all-drop 1024 rs [] (omega arith) (omega arith)
