-- ===== src/Queue.antt =====
-- crates/omega-core/src/queue.rs: the bounded ticket queue of a demand pool. `Notify` is tokio's:
-- `notify_waiters` stores no permit, so the state keeps only how often it was called.
pub mod Laws
pub mod Tests
use ashat_coding_agent.Base.{
  ℕ, suc, Bool, true, false, List, [], ◌∷◌, ◌++◌, leb, if◌then◌else◌, length,
}

pub data Ticket : Type 0 where
  ticket : Ticket

pub record WaitQueue : Type 0 where
  pub tickets : List Ticket
  pub limit : ℕ
  pub notified : ℕ

unfoldable pub new : ℕ → WaitQueue
new limit = record { tickets = []; limit = limit; notified = 0 }

abbrev pub depth : WaitQueue → ℕ
depth q = length q.tickets

unfoldable pub try_enqueue : WaitQueue → Bool × WaitQueue
try_enqueue q =
    if leb q.limit (length q.tickets)
    then (false, q)
    else (true, record q { tickets = q.tickets ++ ticket ∷ [] })

unfoldable pub notify_slot_available : WaitQueue → WaitQueue
notify_slot_available q = record q { notified = suc q.notified }

abbrev pop_front : List Ticket → List Ticket
pop_front [] = []
pop_front (t ∷ ts) = ts

-- `VecDeque::pop_front`, which does nothing on an empty queue.
unfoldable pub remove : WaitQueue → WaitQueue
remove q = record q { tickets = pop_front q.tickets }
