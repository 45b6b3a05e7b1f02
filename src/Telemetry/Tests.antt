-- ===== src/Telemetry/Tests.antt =====
-- Runs of the telemetry cache.
use ashat_coding_agent.Base.{ℕ, ◌≡◌, refl, none, some, [], ◌∷◌, true}
use ashat_coding_agent.Types.{BackendServer}
use ashat_coding_agent.Telemetry.{Client, new, snapshot, poll, insert_all, refresh}

abbrev beta : BackendServer
beta = record {
  id = "beta";
  host = "10.0.0.2";
  port = 443;
  api_key = none;
  enabled = true;
  weight = 1;
}

abbrev reachable : Client ℕ ℕ ℕ
reachable = record {
  get_status = λ r. some 1;
  get_metrics = λ r. some 2;
  get_timeseries = λ r. none;
}

abbrev unreachable : Client ℕ ℕ ℕ
unreachable = record { get_status = λ r. none; get_metrics = λ r. none; get_timeseries = λ r. none }

-- A peer that is no longer reached loses what it has answered before.
forgotten :
    snapshot (refresh unreachable (refresh reachable (new (beta ∷ []))))
    ≡ ("beta", record { status = none; metrics = none; timeseries = none }) ∷ []
unfolding poll insert_all refresh
forgotten = refl
