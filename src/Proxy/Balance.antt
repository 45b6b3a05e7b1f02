-- ===== src/Proxy/Balance.antt =====
-- The counter of active requests over a call of `CodingAgentProxy`.
use ashat_coding_agent.Base.{
  ℕ, ◌+◌, ◌%◌, ◌^◌, ◌<◌, ◌≡◌, refl, ◌∙◌, Option, none, some, List, arith, Bool-cases, Option-cases,
  inl, inr, All, subst, leb,
}
use ashat_coding_agent.Base.Result.{Result, ok, err}
use ashat_coding_agent.Json.{Value}
use ashat_coding_agent.Types.{ChatRequest, Intent, ProxyError, DemandAcquireError}
use ashat_coding_agent.Metrics.{event, record_metric, request_started, request_finished}
use ashat_coding_agent.Queue.{try_enqueue}
use ashat_coding_agent.Demand.{
  World, InstanceGuard, SpawnOutcome, refused, unhealthy, healthy, pop_free, spawned_child,
  refused_step, health_failed_step, healthy_step, spawn_on_demand, Wake, wait_and_pump, after_wait,
  enqueue_and_wait, set_last_failure, take_idle, acquire,
}
use ashat_coding_agent.Demand.Waiting.{
  tickets, enqueued, Spares, Outcome, Keeps, wait_and_pump-Keeps,
}
use ashat_coding_agent.Proxy.Send.{Upstream, Opened, unsent, body}
use ashat_coding_agent.Proxy.Local.{
  Times, on_metrics, release, parsed, answered, forwarded, closed, and_then, forward,
}
use ashat_coding_agent.Proxy.Stream.{
  GuardedStream, drop_stream, opened, streamed, forward_streaming,
}

abbrev pub active : World → ℕ
active w = w.metrics.active_requests

spawn_on_demand-active : (o : SpawnOutcome) (w : World) → active (spawn_on_demand o w).1 ≡ active w
unfolding spawn_on_demand pop_free spawned_child refused_step health_failed_step healthy_step event
spawn_on_demand-active (refused e) w = ground arith
spawn_on_demand-active (unhealthy child e) w = ground arith
spawn_on_demand-active (healthy child ms) w = ground arith

after_wait-Keeps :
    (n : ℕ) (o : Outcome)
    → Keeps active n o
    → Keeps active n (elim o [ none ↦ none | some r ↦ some (after_wait r) ])
unfolding after_wait set_last_failure
after_wait-Keeps n none k = tt
after_wait-Keeps n (some (ok g, w)) k = k
after_wait-Keeps n (some (err e, w)) k = k

module _ (timeout : ℕ) (wakes : List Wake) (spared : All (Spares active) wakes) where
  enqueue_and_wait-Keeps :
      (now : ℕ) (w : World) → Keeps active (active w) (enqueue_and_wait now timeout wakes w)
  unfolding enqueue_and_wait try_enqueue set_last_failure
  enqueue_and_wait-Keeps now w = elim (Bool-cases (leb ((w.pool).queue).limit (tickets w))) [
    | inl e ↦ rw e (ground arith)
    | inr e ↦ rw e (
        after_wait-Keeps (active w) (wait_and_pump (now + timeout) now wakes (enqueued w)) (
          wait_and_pump-Keeps active spawn_on_demand-active (now + timeout) now wakes (enqueued w)
            spared))
  ]

  acquire-Keeps :
      (now : ℕ) (o : SpawnOutcome) (w : World)
      → Keeps active (active w) (acquire now timeout o wakes w)
  unfolding acquire take_idle
  acquire-Keeps now o w = elim (Bool-cases ((w.pool).spec).always_alive) [
    | inl e ↦ rw e refl
    | inr e ↦ elim (Option-cases (take_idle w.pool)) [
      | inr ((port, p'), t) ↦ rw (e, t) refl
      | inl t ↦ elim (Option-cases (spawn_on_demand o w).0) [
        | inr (g, s) ↦ rw (e, t, s) (spawn_on_demand-active o w)
        | inl s ↦
            rw (e, t, s)
              (subst
                (λ n. Keeps active n (enqueue_and_wait now timeout wakes (spawn_on_demand o w).1))
                (spawn_on_demand-active o w) (enqueue_and_wait-Keeps now (spawn_on_demand o w).1))
      ]
    ]
  ]

started_finished :
    (w : World)
    → active w < 2 ^ 64
    → active (on_metrics request_finished (on_metrics request_started w)) ≡ active w
unfolding request_started request_finished
started_finished w h = omega arith

-- What was acquired, with the request counted.
abbrev Starts : ℕ → Outcome → Type 0
Starts n o = Keeps active ((n + 1) % 2 ^ 64) o

finished_back :
    (n : ℕ) (w : World)
    → n < 2 ^ 64
    → active w ≡ (n + 1) % 2 ^ 64
    → active (on_metrics request_finished w) ≡ n
unfolding request_finished
finished_back n w h e = omega (arith, e)

release-active : (now : ℕ) (g : InstanceGuard) (w : World) → active (release now g w) ≡ active w
release-active now g w = refl

module _ {C : Type 0} (u : Upstream C) (intent : Intent) (t : Times) (request : ChatRequest) where
  parsed-active :
      (g : InstanceGuard) (r : Result ProxyError C) (w : World)
      → active (parsed u intent t g r w).1 ≡ active w
  unfolding parsed
  parsed-active g (ok c) w = refl
  parsed-active g (err e) w = refl

  answered-active :
      (g : InstanceGuard) (r : Result ProxyError Value) (w : World)
      → active (answered u intent t g r w).1 ≡ active w
  unfolding answered record_metric
  answered-active g (ok v) w = parsed-active g _ _
  answered-active g (err e) w = refl

  forwarded-active :
      (got : Result DemandAcquireError InstanceGuard × World)
      → active (forwarded u intent t request got).1 ≡ active got.1
  unfolding forwarded
  forwarded-active (err e, w) = refl
  forwarded-active (ok g, w) = answered-active g _ w

  abbrev Balanced : ℕ → Option (Result ProxyError (C × InstanceGuard) × World) → Type 0
  Balanced n none = Unit
  Balanced n (some (r, w)) = active w ≡ n

  closed-Balanced :
      (n : ℕ) (o : Outcome)
      → n < 2 ^ 64
      → Starts n o
      → Balanced n (and_then o (λ got. closed (forwarded u intent t request got)))
  closed-Balanced n none h k = tt
  closed-Balanced n (some got) h k =
      finished_back n (forwarded u intent t request got).1 h (forwarded-active got ∙ k)

  -- A `forward` that returns leaves the number as it was.
  forward-IsBalanced :
      (timeout : ℕ) (outcome : SpawnOutcome) (wakes : List Wake) (w : World)
      → active w < 2 ^ 64
      → All (Spares active) wakes
      → Balanced (active w) (forward u timeout t outcome wakes request intent w)
  unfolding forward request_started
  forward-IsBalanced timeout outcome wakes w h k =
      closed-Balanced (active w) (acquire _ _ outcome wakes _) h
        (acquire-Keeps timeout wakes k _ outcome (on_metrics request_started w))

  -- A stream keeps its request counted until it is dropped.
  abbrev pub StreamBalanced : ℕ → Option (Result ProxyError GuardedStream × World) → Type 0
  StreamBalanced n none = Unit
  StreamBalanced n (some (err e, w)) = active w ≡ n
  StreamBalanced n (some (ok g, w)) =
      (active w ≡ (n + 1) % 2 ^ 64)
      × ((now : ℕ) (w' : World) → active w' ≡ active w → active (drop_stream now g w') ≡ n)

  opened-StreamBalanced :
      (n : ℕ) (g : InstanceGuard) (r : Result ProxyError Opened) (w : World)
      → n < 2 ^ 64
      → active w ≡ (n + 1) % 2 ^ 64
      → StreamBalanced n (some (opened intent t g r w))
  unfolding opened drop_stream record_metric request_finished
  opened-StreamBalanced n g (err e) w h k = finished_back n w h k
  opened-StreamBalanced n g (ok (unsent e)) w h k = finished_back n w h k
  opened-StreamBalanced n g (ok (Opened.refused code)) w h k = finished_back n w h k
  opened-StreamBalanced n g (ok (body items)) w h k = (k, λ now w' e. finished_back n w' h (e ∙ k))

  streamed-StreamBalanced :
      (n : ℕ) (o : Outcome)
      → n < 2 ^ 64
      → Starts n o
      → StreamBalanced n (and_then o (streamed intent t u request))
  unfolding streamed
  streamed-StreamBalanced n none h k = tt
  streamed-StreamBalanced n (some (err e, w)) h k = finished_back n w h k
  streamed-StreamBalanced n (some (ok g, w)) h k = opened-StreamBalanced n g _ w h k

  -- Suppose that the tasks which run while a call waits leave the number of active requests as it
  -- is. A `forward_streaming` of a `CodingAgentProxy` that returns an error leaves the number as it
  -- was; one that returns a stream has raised it by one, and when the stream is dropped, with the number
  -- as it was left, it comes back.
  pub forward_streaming-IsBalanced :
      (timeout : ℕ) (outcome : SpawnOutcome) (wakes : List Wake) (w : World)
      → active w < 2 ^ 64
      → All (Spares active) wakes
      → StreamBalanced (active w) (forward_streaming u timeout t outcome wakes request intent w)
  unfolding forward_streaming request_started
  forward_streaming-IsBalanced timeout outcome wakes w h k =
      streamed-StreamBalanced (active w) (acquire _ _ outcome wakes _) h
        (acquire-Keeps timeout wakes k _ outcome (on_metrics request_started w))
