-- ===== src/Proxy/Records.antt =====
-- What `forward` of `CodingAgentProxy` does with the lane that it got, and what it records.
use ashat_coding_agent.Base.{◌-◌, ◌≡◌, refl, ◌⊎◌, inl, inr, Bool, true, false, some, String}
use ashat_coding_agent.Base.Result.{Result, ok, err}
use ashat_coding_agent.Json.{Value}
use ashat_coding_agent.Types.{ChatRequest, Intent, ProxyError, decode}
use ashat_coding_agent.Metrics.{MetricRecord, displayed, record_metric}
use ashat_coding_agent.Demand.{World, InstanceGuard, drop_guard}
use ashat_coding_agent.Proxy.Annotate.{with_lane}
use ashat_coding_agent.Proxy.Send.{Upstream, or_decode, send_non_stream_to, port_text, usage_tokens}
use ashat_coding_agent.Proxy.Local.{
  Times, success_record, failure_record, parsed, answered, forwarded,
}

abbrev pub is_ok : {A B : Type 0} → Result A B → Bool
is_ok (ok a) = true
is_ok (err e) = false

module _ {C : Type 0} (u : Upstream C) (intent : Intent) (t : Times) (g : InstanceGuard) where
  -- The lane stays with the caller, or is given back to the pool.
  abbrev pub Settles : World → MetricRecord → Result ProxyError (C × InstanceGuard) → World → Type 0
  Settles w rec (ok (c, g')) w' = (g' ≡ g) × (w'.pool ≡ w.pool) × (rec.success ≡ true)
  Settles w rec (err e) w' =
      (w'.pool ≡ drop_guard t.finish g w.pool)
      × (((rec.success ≡ false) × (rec.error_category ≡ some (displayed e)))
          ⊎ ((rec.success ≡ true) × (text : String) × (e ≡ decode text)))

  abbrev pub IsRecorded :
      World → Result ProxyError Value → Result ProxyError (C × InstanceGuard) × World → Type 0
  IsRecorded w reply out =
      (rec : MetricRecord) × (out.1.metrics ≡ record_metric rec w.metrics)
      × (rec.target_port ≡ g.port)
      × (rec.intent ≡ intent)
      × (rec.success ≡ is_ok reply)
      × Settles w rec out.0 out.1

  parsed-IsRecorded :
      (v : Value) (w : World) (r : Result String C)
      → IsRecorded w (ok v) (
          parsed u intent t g (or_decode r) (record w {
            metrics = record_metric (success_record intent g t (usage_tokens v)) w.metrics;
          }))
  unfolding parsed
  parsed-IsRecorded v w (ok c) =
      (success_record intent g t (usage_tokens v), refl, refl, refl, refl, (refl, refl, refl))
  parsed-IsRecorded v w (err e) = (
    success_record intent g t (usage_tokens v),
    refl,
    refl,
    refl,
    refl,
    (refl, inr (refl, e, refl)),
  )

  answered-IsRecorded :
      (reply : Result ProxyError Value) (w : World)
      → IsRecorded w reply (answered u intent t g reply w)
  unfolding answered
  answered-IsRecorded (ok v) w =
      parsed-IsRecorded v w (u.from_value (with_lane (port_text g.port) v))
  answered-IsRecorded (err e) w = (
    failure_record intent g t.finish (t.finish - t.started) (displayed e),
    refl,
    refl,
    refl,
    refl,
    (refl, inl (refl, refl)),
  )

  -- With a lane, `forward` adds exactly one record, for the lane's port, which says success exactly
  -- if the lane answered with JSON. A response comes with the lane still held and the pool as it
  -- was. Behind an error the lane is back in the pool, and the record names the error, except that
  -- JSON which is not a chat response is recorded as a success and answered as a decode error.
  pub forwarded-IsRecorded :
      (request : ChatRequest) (w : World)
      → IsRecorded w
          (send_non_stream_to u ((w.pool).spec).host g.port request)
          (forwarded u intent t request (ok g, w))
  unfolding forwarded
  forwarded-IsRecorded request w =
      answered-IsRecorded (send_non_stream_to u ((w.pool).spec).host g.port request) w
