-- ===== src/Metrics/Totals.antt =====
-- What the views show of the records and events that the store was given.
use ashat_coding_agent.Base.{
  ℕ, zero, suc, subst, length-reverse, length-drop, ◌+◌, ◌-◌, ◌*◌, ◌<◌, ◌⊎◌, ltb→lt, Option, none,
  some, ◌≤◌, ◌≡◌, refl, ap, ◌∙◌, List, [], ◌∷◌, map, reverse, take, drop, length, arith, inl, inr,
  ltb, leb, if◌then◌else◌, All, Bool-cases,
}
use mathlib.Core.List.{Perm, reverse-reverse}
use mathlib.Core.List.Perm
use ashat_coding_agent.Types.{Event}
use ashat_coding_agent.Metrics.{
  MetricRecord, MetricsStore, event, event_cap, push_capped, record_metric, open_store,
  recent_events,
}
use ashat_coding_agent.Metrics.Ring.{events, records, recent_events_lem, records_lem}
use ashat_coding_agent.Metrics.Summary.{
  LaneAccumulator, default_accumulator, observe, observe_all, LaneStatus, to_lane_status,
  placeholder, summary, TelemetryFrame, frame_of, insert_frame, sort_frames, dashboard_timeseries,
  Ratio, second, rate_of,
}

-- Sums over records, written down apart from the accumulator.
abbrev pub successes : List MetricRecord → ℕ
successes [] = 0
successes (r ∷ rs) = (if r.success then 1 else 0) + successes rs

abbrev pub failures : List MetricRecord → ℕ
failures [] = 0
failures (r ∷ rs) = (if r.success then 0 else 1) + failures rs

abbrev pub sum_of : (MetricRecord → ℕ) → List MetricRecord → ℕ
sum_of f [] = 0
sum_of f (r ∷ rs) = f r + sum_of f rs

-- What observing some records adds.
pub record IsObserved (rs : List MetricRecord) (a b : LaneAccumulator) : Type 0 where
  pub requests : b.total_requests ≡ a.total_requests + length rs
  pub good : b.success_count ≡ a.success_count + successes rs
  pub bad : b.failure_count ≡ a.failure_count + failures rs
  pub prompts : b.prompt_tokens ≡ a.prompt_tokens + sum_of (λ r. r.prompt_tokens) rs
  pub completions : b.completion_tokens ≡ a.completion_tokens + sum_of (λ r. r.completion_tokens) rs

observe_all-IsObserved :
    (rs : List MetricRecord) (a : LaneAccumulator) → IsObserved rs a (observe_all rs a)
unfolding observe_all observe
observe_all-IsObserved [] a = omega arith
observe_all-IsObserved (r ∷ rs) a = ground (arith, observe_all-IsObserved rs (observe r a))

-- The lane's status shows the sums, also where there is no record.
pub record IsTotalled (rs : List MetricRecord) (s : LaneStatus) : Type 0 where
  pub requests : s.total_requests ≡ length rs
  pub prompts : s.total_prompt_tokens ≡ sum_of (λ r. r.prompt_tokens) rs
  pub completions : s.total_completion_tokens ≡ sum_of (λ r. r.completion_tokens) rs
  pub availability : s.available ≡ ltb (failures rs) (successes rs)

to_lane_status-IsTotalled :
    (rs : List MetricRecord) (a : LaneAccumulator)
    → IsObserved rs default_accumulator a
    → IsTotalled rs (to_lane_status "Omega" a)
unfolding to_lane_status placeholder
to_lane_status-IsTotalled [] a h = ground arith
to_lane_status-IsTotalled (r ∷ rs) a h = ground arith

abbrev pub IsSorted : List TelemetryFrame → Type 0
IsSorted [] = Unit
IsSorted (f ∷ fs) = All (λ g. f.timestamp ≤ g.timestamp) fs × IsSorted fs

All-insert_frame :
    (n : ℕ) (f : TelemetryFrame) (fs : List TelemetryFrame)
    → n ≤ f.timestamp
    → All (λ g. n ≤ g.timestamp) fs
    → All (λ g. n ≤ g.timestamp) (insert_frame f fs)
unfolding insert_frame
All-insert_frame n f [] h k = (h, tt)
All-insert_frame n f (g ∷ gs) h k = elim (Bool-cases (leb f.timestamp g.timestamp)) [
  | inl e ↦ rw e (h, k)
  | inr e ↦ rw e (k.0, All-insert_frame n f gs h k.1)
]

All-later :
    (m n : ℕ) (fs : List TelemetryFrame)
    → m ≤ n
    → All (λ g. n ≤ g.timestamp) fs
    → All (λ g. m ≤ g.timestamp) fs
All-later m n [] h k = tt
All-later m n (g ∷ gs) h k = (omega (arith, k.0), All-later m n gs h k.1)

insert_frame-IsSorted :
    (f : TelemetryFrame) (fs : List TelemetryFrame) → IsSorted fs → IsSorted (insert_frame f fs)
unfolding insert_frame
insert_frame-IsSorted f [] h = (tt, tt)
insert_frame-IsSorted f (g ∷ gs) h = elim (Bool-cases (leb f.timestamp g.timestamp)) [
  | inl e ↦
      rw e ((ground (arith, e), All-later f.timestamp g.timestamp gs (ground (arith, e)) h.0), h)
  | inr e ↦
      rw e
        (All-insert_frame g.timestamp f gs (ground (arith, e)) h.0, insert_frame-IsSorted f gs h.1)
]

sort_frames-IsSorted : (fs : List TelemetryFrame) → IsSorted (sort_frames fs)
unfolding sort_frames
sort_frames-IsSorted [] = tt
sort_frames-IsSorted (f ∷ fs) = insert_frame-IsSorted f (sort_frames fs) (sort_frames-IsSorted fs)

-- Two lists of the same length, related place by place.
abbrev pub IsPairwise {ℓ κ} :
    {A : Type ℓ} {B : Type κ} → (A → B → Type 0) → List A → List B → Type 0
IsPairwise R [] [] = Unit
IsPairwise R [] (b ∷ bs) = ⊥
IsPairwise R (a ∷ rest) [] = ⊥
IsPairwise R (a ∷ rest) (b ∷ bs) = R a b × IsPairwise R rest bs

-- What a frame shows of a record, written down apart from the conversion: its time, latency, first
-- token and success, and the tokens over the latency where both are positive.
abbrev pub IsRate : ℕ → ℕ → Option Ratio → Type 0
IsRate tokens latency none = (tokens ≡ 0) ⊎ (latency ≡ 0)
IsRate tokens latency (some q) =
    (0 < tokens) × (0 < latency) × (q.num ≡ tokens * second) × (q.den ≡ latency)

pub record Shows (r : MetricRecord) (f : TelemetryFrame) : Type 0 where
  pub time : f.timestamp ≡ r.timestamp
  pub took : f.total_latency ≡ r.latency
  pub first_token : f.time_to_first_token ≡ r.time_to_first_token
  pub good : f.success ≡ r.success
  pub generation : IsRate r.completion_tokens r.latency f.generation_rate
  pub prompt : IsRate r.prompt_tokens r.latency f.prompt_rate

rate_of-IsRate : (tokens latency : ℕ) → IsRate tokens latency (rate_of tokens latency)
rate_of-IsRate tokens latency = elim (Bool-cases (ltb 0 tokens)) [
  | inr e ↦ rw e (inl (ground (arith, e)))
  | inl e ↦ elim (Bool-cases (ltb 0 latency)) [
    | inr f ↦ rw (e, f) (inr (ground (arith, f)))
    | inl f ↦ rw (e, f) (ltb→lt _ _ e, ltb→lt _ _ f, refl, refl)
  ]
]

frame_of-Shows : (r : MetricRecord) → Shows r (frame_of r)
frame_of-Shows r = record {
  time = refl;
  took = refl;
  first_token = refl;
  good = refl;
  generation = rate_of-IsRate r.completion_tokens r.latency;
  prompt = rate_of-IsRate r.prompt_tokens r.latency;
}

-- The frames are those of the records, one for each, in another order.
abbrev pub AreShown : List MetricRecord → List TelemetryFrame → Type 0
AreShown rs fs = (gs : List TelemetryFrame) × Perm fs gs × IsPairwise Shows rs gs

map-IsPairwise : (rs : List MetricRecord) → IsPairwise Shows rs (map frame_of rs)
map-IsPairwise [] = tt
map-IsPairwise (r ∷ rs) = (frame_of-Shows r, map-IsPairwise rs)

insert_frame-perm :
    (f : TelemetryFrame) (fs : List TelemetryFrame) → Perm (insert_frame f fs) (f ∷ fs)
unfolding insert_frame
insert_frame-perm f [] = Perm.refl (f ∷ [])
insert_frame-perm f (g ∷ gs) = elim (Bool-cases (leb f.timestamp g.timestamp)) [
  | inl e ↦ rw e (Perm.refl (f ∷ g ∷ gs))
  | inr e ↦ rw e (Perm.trans (Perm.cons g (insert_frame-perm f gs)) (Perm.swap f g gs))
]

sort_frames-perm : (fs : List TelemetryFrame) → Perm (sort_frames fs) fs
unfolding sort_frames
sort_frames-perm [] = Perm.refl []
sort_frames-perm (f ∷ fs) =
    Perm.trans (insert_frame-perm f (sort_frames fs)) (Perm.cons f (sort_frames-perm fs))

events-records : (es : List Event) (m : MetricsStore) → (events es m).records ≡ m.records
unfolding event
events-records [] m = refl
events-records (e ∷ es) m = events-records es (event e m)

records-events :
    (rs : List MetricRecord) (m : MetricsStore) → (records rs m).recent_events ≡ m.recent_events
unfolding record_metric
records-events [] m = refl
records-events (r ∷ rs) m = records-events rs (record_metric r m)

same_events :
    (es : List Event) (m m' : MetricsStore)
    → m.recent_events ≡ m'.recent_events
    → (events es m).recent_events ≡ (events es m').recent_events
unfolding event
same_events [] m m' h = h
same_events (e ∷ es) m m' h =
    same_events es (event e m) (event e m') (ap (push_capped event_cap e) h)

take_all {ℓ} : {A : Type ℓ} (n : ℕ) (xs : List A) → length xs ≤ n → take n xs ≡ xs
take_all zero [] h = refl
take_all zero (x ∷ xs) h = absurd (omega arith)
take_all (suc n) [] h = refl
take_all (suc n) (x ∷ xs) h = ap (λ t. x ∷ t) (take_all n xs (omega arith))

-- The records and the events that a new store keeps.
abbrev pub kept_records : List MetricRecord → List MetricRecord
kept_records rs = drop (length rs - 1024) rs

abbrev pub kept_events : List Event → List Event
kept_events es = drop (length es - 64) es

abbrev pub filled : List MetricRecord → List Event → MetricsStore
filled rs es = events es (records rs open_store)

filled-records :
    (rs : List MetricRecord) (es : List Event) → (filled rs es).records ≡ kept_records rs
filled-records rs es = events-records es (records rs open_store) ∙ records_lem rs

filled-recent_events :
    (n : ℕ) (rs : List MetricRecord) (es : List Event)
    → recent_events n (filled rs es) ≡ take n (reverse (kept_events es))
unfolding recent_events
filled-recent_events n rs es =
    ap (λ (l : List Event). take n (reverse l))
      (same_events es (records rs open_store) open_store (records-events rs open_store))
    ∙ recent_events_lem n es

oldest_first :
    (rs : List MetricRecord) (es : List Event)
    → reverse (recent_events 64 (filled rs es)) ≡ kept_events es
oldest_first rs es =
    ap reverse (
      filled-recent_events 64 rs es
      ∙ take_all 64 (reverse (kept_events es))
          (omega (arith, length-reverse (kept_events es), length-drop (length es - 64) es)))
    ∙ reverse-reverse (kept_events es)

-- Behind any records and events, the views of a new store show the last 1024 records and the last
-- 64 events: the summary's totals are the sums over those records, its lane is available exactly if
-- more of them succeeded than failed, and its events are the 20 newest, newest first; the dashboard
-- has one frame for each of those records, which shows its time, latency, rates, first token and
-- success, sorted by time, and those events, oldest first.
pub views_lem :
    (now : ℕ) (rs : List MetricRecord) (es : List Event)
    → ((summary now (filled rs es)).total_events ≡ length (kept_records rs))
      × IsTotalled (kept_records rs) (summary now (filled rs es)).omega
      × ((summary now (filled rs es)).recent_events ≡ take 20 (reverse (kept_events es)))
      × IsSorted (dashboard_timeseries (filled rs es)).0
      × AreShown (kept_records rs) (dashboard_timeseries (filled rs es)).0
      × ((dashboard_timeseries (filled rs es)).1 ≡ kept_events es)
unfolding summary dashboard_timeseries
views_lem now rs es = (
  ap length (filled-records rs es),
  subst (λ (l : List MetricRecord). IsTotalled l (summary now (filled rs es)).omega)
      (filled-records rs es)
      (to_lane_status-IsTotalled (filled rs es).records _
        (observe_all-IsObserved (filled rs es).records default_accumulator)),
  filled-recent_events 20 rs es,
  sort_frames-IsSorted (map frame_of (filled rs es).records),
  subst (λ (l : List MetricRecord). AreShown l (sort_frames (map frame_of (filled rs es).records)))
      (filled-records rs es)
      (
        map frame_of (filled rs es).records,
        sort_frames-perm (map frame_of (filled rs es).records),
        map-IsPairwise (filled rs es).records,
      ),
  oldest_first rs es,
)
