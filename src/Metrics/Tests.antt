-- ===== src/Metrics/Tests.antt =====
-- Instances of the theorems on the metrics store.
use ashat_coding_agent.Base.{
  refl, ◌≡◌, List, [], ◌∷◌, reverse, take, length, true, false, none, ◌*◌,
}
use ashat_coding_agent.Types.{Event, spawn_succeeded, spawn_abandoned, Intent}
use ashat_coding_agent.Metrics.{MetricRecord, open_store, recent_events, record_metric, event}
use ashat_coding_agent.Metrics.Summary.{summary, dashboard_timeseries, second}
use ashat_coding_agent.Metrics.Totals.{
  filled, kept_records, kept_events, IsTotalled, AreShown, IsSorted, views_lem,
}
use ashat_coding_agent.Metrics.Ring.{events}

abbrev two_events : List Event
two_events = spawn_succeeded 18081 ∷ spawn_abandoned 18082 ∷ []

newest_first : recent_events 1 (events two_events open_store) ≡ spawn_abandoned 18082 ∷ []
unfolding recent_events event open_store
newest_first = refl

abbrev one_record : MetricRecord
one_record = record {
  timestamp = 0;
  intent = Intent.code;
  target_port = 18081;
  success = true;
  latency = 7;
  queue_wait = 0;
  prompt_tokens = 0;
  completion_tokens = 0;
  time_to_first_token = none;
  error_category = none;
}

abbrev two_records : List MetricRecord
two_records = one_record ∷ record one_record { success = false; completion_tokens = 40 } ∷ []

-- The rate of the latest record counts the tokens of all.
latest_rate :
    (summary 9 (filled two_records two_events)).omega.latest_generation_rate
    ≡ record { num = 40 * second; den = 7 }
unfolding summary record_metric event open_store
latest_rate = refl

views_lem_example :
    ((summary 9 (filled two_records two_events)).total_events ≡ length (kept_records two_records))
    × IsTotalled (kept_records two_records) (summary 9 (filled two_records two_events)).omega
    × ((summary 9 (filled two_records two_events)).recent_events
        ≡ take 20 (reverse (kept_events two_events)))
    × IsSorted (dashboard_timeseries (filled two_records two_events)).0
    × AreShown (kept_records two_records) (dashboard_timeseries (filled two_records two_events)).0
    × ((dashboard_timeseries (filled two_records two_events)).1 ≡ kept_events two_events)
views_lem_example = views_lem 9 two_records two_events
