-- ===== src/Queue/Laws.antt =====
-- About the ticket queue of crates/omega-core/src/queue.rs: its depth and its limit.
use ashat_coding_agent.Base.{
  ◌-◌, ℕ, ◌≤◌, ◌≡◌, refl, ◌++◌, List, [], ◌∷◌, arith, length, length-append,
}
use ashat_coding_agent.Queue.{
  pop_front, WaitQueue, Ticket, ticket, depth, new, try_enqueue, notify_slot_available, remove,
}

pub data Op : Type 0 where
  enqueue notify drop_head : Op

-- Any of the operations that change the queue.
pub step : Op → WaitQueue → WaitQueue
step enqueue q = (try_enqueue q).1
step notify q = notify_slot_available q
step drop_head q = remove q

pub run : List Op → WaitQueue → WaitQueue
run [] q = q
run (o ∷ os) q = run os (step o q)

length-pop_append : (ts : List Ticket) → length (pop_front (ts ++ ticket ∷ [])) ≡ length ts
length-pop_append [] = refl
length-pop_append (t ∷ ts) = omega (arith, length-append ts (ticket ∷ []))

length-pop : (ts : List Ticket) → length (pop_front ts) ≡ length ts - 1
length-pop [] = omega arith
length-pop (t ∷ ts) = omega arith

pub depth-remove : (q : WaitQueue) → depth (remove q) ≡ depth q - 1
unfolding remove
depth-remove q = length-pop q.tickets

length-pop_le : (ts : List Ticket) → length (pop_front ts) ≤ length ts
length-pop_le [] = omega arith
length-pop_le (t ∷ ts) = omega arith

step-bounded : (o : Op) (q : WaitQueue) → depth q ≤ q.limit → depth (step o q) ≤ (step o q).limit
unfolding step try_enqueue notify_slot_available remove
step-bounded enqueue q h = ground (arith, length-append q.tickets (ticket ∷ []))
step-bounded notify q h = h
step-bounded drop_head q h = omega (arith, length-pop_le q.tickets)

step-limit : (o : Op) (q : WaitQueue) → (step o q).limit ≡ q.limit
unfolding step try_enqueue notify_slot_available remove
step-limit enqueue q = ground arith
step-limit notify q = ground arith
step-limit drop_head q = ground arith

run-bounded : (os : List Op) (q : WaitQueue) → depth q ≤ q.limit → depth (run os q) ≤ q.limit
unfolding run
run-bounded [] q h = h
run-bounded (o ∷ os) q h =
    omega (arith, run-bounded os (step o q) (step-bounded o q h), step-limit o q)

-- Whatever is done to a new queue, it holds no more tickets than its limit.
pub run-new_bounded : (os : List Op) (limit : ℕ) → depth (run os (new limit)) ≤ limit
unfolding new
run-new_bounded os limit = run-bounded os (new limit) (omega arith)
