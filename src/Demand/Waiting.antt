-- ===== src/Demand/Waiting.antt =====
-- The slow path of `acquire`: what the wait does to the ticket queue, and which lanes it can get.
use ashat_coding_agent.Base.{
  ℕ, ◌+◌, ◌≡◌, refl, ◌∙◌, Option, none, some, List, [], ◌∷◌, ◌++◌, arith, Bool-cases, Option-cases,
  subst, leb, inl, inr, length-append, All,
}
use ashat_coding_agent.Base.Result.{Result, ok, err}
use ashat_coding_agent.Types.{DemandAcquireError, queue_aged_out}
use ashat_coding_agent.Queue.{ticket, depth, try_enqueue}
use ashat_coding_agent.Queue.Laws.{depth-remove}
use ashat_coding_agent.Demand.{
  World, InstanceGuard, SpawnOutcome, refused, unhealthy, healthy, pop_free, spawned_child,
  refused_step, health_failed_step, healthy_step, spawn_on_demand, Wake, woken, timed_out,
  wait_and_pump, after_wait, enqueue_and_wait, set_last_failure,
}

abbrev pub tickets : World → ℕ
tickets w = depth ((w.pool).queue)

spawn_on_demand-tickets :
    (o : SpawnOutcome) (w : World) → tickets (spawn_on_demand o w).1 ≡ tickets w
unfolding spawn_on_demand pop_free spawned_child refused_step health_failed_step healthy_step
spawn_on_demand-tickets (refused e) w = ground arith
spawn_on_demand-tickets (unhealthy child e) w = ground arith
spawn_on_demand-tickets (healthy child ms) w = ground arith

-- The other tasks leave a number that is read off the world as it is.
abbrev pub Spares : (World → ℕ) → Wake → Type 0
Spares f (woken at others outcome) = (w : World) → f (others w) ≡ f w
Spares f (timed_out others) = (w : World) → f (others w) ≡ f w

-- The number of tickets, in particular.
abbrev pub KeepsTickets : Wake → Type 0
KeepsTickets = Spares tickets

abbrev pub Outcome : Type 0
Outcome = Option (Result DemandAcquireError InstanceGuard × World)

abbrev pub Keeps : (World → ℕ) → ℕ → Outcome → Type 0
Keeps f n none = Unit
Keeps f n (some (r, w)) = f w ≡ n

module _ (f : World → ℕ)
    (spared : (o : SpawnOutcome) (w : World) → f (spawn_on_demand o w).1 ≡ f w) where
  pub wait_and_pump-Keeps :
      (deadline now : ℕ) (wakes : List Wake) (w : World)
      → All (Spares f) wakes
      → Keeps f (f w) (wait_and_pump deadline now wakes w)
  unfolding wait_and_pump
  wait_and_pump-Keeps deadline now [] w k = elim (Bool-cases (leb deadline now)) [
    | inl e ↦ rw e refl
    | inr e ↦ rw e tt
  ]
  wait_and_pump-Keeps deadline now (timed_out others ∷ rest) w k =
      elim (Bool-cases (leb deadline now)) [ inl e ↦ rw e refl | inr e ↦ rw e (k.0 w) ]
  wait_and_pump-Keeps deadline now (woken at others outcome ∷ rest) w k =
      elim (Bool-cases (leb deadline now)) [
        | inl e ↦ rw e refl
        | inr e ↦ elim (Option-cases (spawn_on_demand outcome (others w)).0) [
          | inl s ↦
              rw (e, s)
                (subst
                  (λ n.
                    Keeps f n
                      (wait_and_pump deadline at rest (spawn_on_demand outcome (others w)).1))
                  (spared outcome (others w) ∙ k.0 w)
                  (wait_and_pump-Keeps deadline at rest (spawn_on_demand outcome (others w)).1 k.1))
          | inr (g, s) ↦ rw (e, s) (spared outcome (others w) ∙ k.0 w)
        ]
      ]

-- The number of tickets behind the slow path: one more after a success, the same after an error
-- and while the call is waiting one more again.
abbrev pub Leaves : ℕ → Outcome → Type 0
Leaves n none = Unit
Leaves n (some (ok g, w)) = tickets w ≡ n + 1
Leaves n (some (err e, w)) = tickets w ≡ n

after_wait-Leaves :
    (n : ℕ) (o : Outcome)
    → Keeps tickets (n + 1) o
    → Leaves n (elim o [ none ↦ none | some r ↦ some (after_wait r) ])
unfolding after_wait set_last_failure
after_wait-Leaves n none k = tt
after_wait-Leaves n (some (ok g, w)) k = k
after_wait-Leaves n (some (err e, w)) k = omega (arith, depth-remove (w.pool).queue, k)

abbrev pub enqueued : World → World
enqueued w =
    let p = w.pool in
    record w {
      pool = record p { queue = record (p.queue) { tickets = (p.queue).tickets ++ ticket ∷ [] } };
    }

-- If the other tasks leave the ticket queue alone, a caller that goes through the queue and gets
-- a lane leaves its ticket behind, so the queue is one deeper for good; a caller that is refused
-- or times out leaves the queue as deep as it was.
pub enqueue_and_wait-tickets :
    (now timeout : ℕ) (wakes : List Wake) (w : World)
    → All KeepsTickets wakes
    → Leaves (tickets w) (enqueue_and_wait now timeout wakes w)
unfolding enqueue_and_wait try_enqueue set_last_failure
enqueue_and_wait-tickets now timeout wakes w k =
    elim (Bool-cases (leb ((w.pool).queue).limit (tickets w))) [
      | inl e ↦ rw e (ground arith)
      | inr e ↦ rw e (
          after_wait-Leaves (tickets w) (wait_and_pump (now + timeout) now wakes (enqueued w)) (
            subst (λ n. Keeps tickets n (wait_and_pump (now + timeout) now wakes (enqueued w)))
              (length-append (((w.pool).queue).tickets) (ticket ∷ []))
              (wait_and_pump-Keeps tickets spawn_on_demand-tickets (now + timeout) now wakes
                (enqueued w) k)))
    ]

-- The other tasks leave no port free: they may release lanes into the idle table.
abbrev pub FreesNone : Wake → Type 0
FreesNone (woken at others outcome) = (w : World) → (others w).pool.free_ports ≡ []
FreesNone (timed_out others) = (w : World) → (others w).pool.free_ports ≡ []

abbrev pub GetsNone : Option (Result DemandAcquireError InstanceGuard × World) → Type 0
GetsNone none = Unit
GetsNone (some (ok g, w)) = ⊥
GetsNone (some (err e, w)) = e ≡ queue_aged_out

spawn_on_demand-full :
    (o : SpawnOutcome) (w : World) → (w.pool).free_ports ≡ [] → (spawn_on_demand o w).0 ≡ none
unfolding spawn_on_demand pop_free
spawn_on_demand-full o w f = rw f refl

-- A waiter in the queue is never given a lane while no port is free, whatever the other tasks do
-- to the idle table meanwhile, and however long it waits: it only ends with `QueueAgedOut`.
pub wait_and_pump-starves :
    (deadline now : ℕ) (wakes : List Wake) (w : World)
    → All FreesNone wakes
    → GetsNone (wait_and_pump deadline now wakes w)
unfolding wait_and_pump
wait_and_pump-starves deadline now [] w k = elim (Bool-cases (leb deadline now)) [
  | inl e ↦ rw e refl
  | inr e ↦ rw e tt
]
wait_and_pump-starves deadline now (timed_out others ∷ rest) w k =
    elim (Bool-cases (leb deadline now)) [ inl e ↦ rw e refl | inr e ↦ rw e refl ]
wait_and_pump-starves deadline now (woken at others outcome ∷ rest) w k =
    elim (Bool-cases (leb deadline now)) [
      | inl e ↦ rw e refl
      | inr e ↦
          rw (e, spawn_on_demand-full outcome (others w) (k.0 w))
            (wait_and_pump-starves deadline at rest (spawn_on_demand outcome (others w)).1 k.1)
    ]
