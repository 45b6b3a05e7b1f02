-- ===== src/ToolLoop/Agent/Closing.antt =====
-- What a run of the agent loop leaves in the metrics store.
use ashat_coding_agent.Base.{
  ℕ, ◌≡◌, ◌≢◌, ==_iff, refl, true, false, Option, none, some, List, arith,
}
use ashat_coding_agent.Base.Map.{lookup, insert, lookup-insert, lookup-remove, nat_eq}
use ashat_coding_agent.Base.Text.{Text}
use ashat_coding_agent.Base.Result.{Result, ok, err}
use ashat_coding_agent.Types.{ProxyError}
use ashat_coding_agent.Metrics.{
  displayed, MetricRecord, MetricsStore, push_capped, in_memory_cap, record_metric, mark_run_start,
  mark_run_finish,
}
use ashat_coding_agent.ToolLoop.Agent.{
  ToolOutcome, RunState, FinalText, metric, finish_run, finished, run_loop, run_held,
}
use ashat_coding_agent.Json.{Value}
use ashat_coding_agent.Types.{ChatMessage}

-- What the end of a run leaves in the metrics store.
abbrev pub IsEnded : ℕ → MetricsStore → Result ProxyError FinalText → MetricsStore → Type 0
IsEnded port m r m' =
    (lookup port m'.active_runs ≡ none)
    × ((q : ℕ) → q ≢ port → lookup q m'.active_runs ≡ lookup q m.active_runs)
    × ((rec : MetricRecord) × (m'.records ≡ push_capped in_memory_cap rec m.records)
        × (rec.target_port ≡ port)
        × (rec.success ≡ elim r [ ok _ ↦ true | err _ ↦ false ]))

-- A run that is cut off is listed as active, and has no record.
abbrev pub IsLeft : (port start : ℕ) → MetricsStore → MetricsStore → Type 0
IsLeft port start m m' =
    (lookup port m'.active_runs ≡ some start)
    × ((q : ℕ) → q ≢ port → lookup q m'.active_runs ≡ lookup q m.active_runs)
    × (m'.records ≡ m.records)

abbrev pub IsClosed :
    (port start : ℕ) → MetricsStore → Option (Result ProxyError FinalText) → MetricsStore → Type 0
IsClosed port start m none m' = IsLeft port start m m'
IsClosed port start m (some r) m' = IsEnded port m r m'

active_runs-closed :
    (port start : ℕ) (m : MetricsStore)
    → lookup port (mark_run_finish port (mark_run_start port start m)).active_runs ≡ none
unfolding mark_run_finish
active_runs-closed port start m =
    ground (arith, lookup-remove port port (mark_run_start port start m).active_runs)

active_runs-other :
    (port start : ℕ) (m : MetricsStore) (q : ℕ)
    → q ≢ port
    → lookup q (mark_run_finish port (mark_run_start port start m)).active_runs
      ≡ lookup q m.active_runs
unfolding mark_run_finish mark_run_start
active_runs-other port start m q h = ground (
  arith,
  lookup-remove port q (insert port start m.active_runs),
  lookup-insert port q start m.active_runs,
  ==_iff port q,
  h,
)

finish_run-IsEnded :
    (budget port start finish : ℕ) (r : Result ProxyError RunState) (m : MetricsStore)
    → IsEnded port m
        (finish_run budget port start finish r (mark_run_start port start m)).0
        (finish_run budget port start finish r (mark_run_start port start m)).1
unfolding finish_run record_metric mark_run_finish mark_run_start
finish_run-IsEnded budget port start finish (ok s) m = (
  active_runs-closed port start m,
  active_runs-other port start m,
  (metric port start finish none true, refl, refl, refl),
)
finish_run-IsEnded budget port start finish (err e) m = (
  active_runs-closed port start m,
  active_runs-other port start m,
  (metric port start finish (some (displayed e)) false, refl, refl, refl),
)

finished-IsClosed :
    (budget port start finish : ℕ) (r : Option (Result ProxyError RunState)) (m : MetricsStore)
    → IsClosed port start m
        (finished budget port start finish r (mark_run_start port start m)).0
        (finished budget port start finish r (mark_run_start port start m)).1
unfolding mark_run_start
finished-IsClosed budget port start finish none m = (
  ground (arith, lookup-insert port port start m.active_runs, ==_iff port port),
  λ q h. ground (arith, lookup-insert port q start m.active_runs, ==_iff port q, h),
  refl,
)
finished-IsClosed budget port start finish (some r) m =
    finish_run-IsEnded budget port start finish r m

module _ {W : Type 0} (from_str : Text → Option Value) (to_lowercase : Text → Text)
    (execute : Text → Value → W → Option ToolOutcome × W)
    (sender : ℕ → List ChatMessage → Option (Result ProxyError Value)) where
  -- A run that holds a lane and comes to its end leaves its port out of the active runs and every
  -- other port's entry as it was, and adds one record, for its port, which says success exactly if
  -- the run has a final text. A run that is cut off, because a tool panics or the request is dropped,
  -- stays among the active runs and adds no record.
  pub run_held-IsClosed :
      (budget port start finish : ℕ) (s : RunState) (w : W) (m : MetricsStore)
      → IsClosed port start m
          (run_held from_str to_lowercase execute sender budget port start finish s w m).0
          (run_held from_str to_lowercase execute sender budget port start finish s w m).1
  unfolding run_held
  run_held-IsClosed budget port start finish s w m =
      finished-IsClosed budget port start finish
        (run_loop from_str to_lowercase execute sender budget 0 s w).0 m
