-- ===== src/Queue/Tests.antt =====
-- Instances of the queue's theorems.
use ashat_coding_agent.Base.{◌≤◌, [], ◌∷◌}
use ashat_coding_agent.Queue.{WaitQueue, ticket, depth, new}
use ashat_coding_agent.Queue.Laws.{enqueue, drop_head, run, run-new_bounded}

run-new_bounded_example :
    depth (run (enqueue ∷ enqueue ∷ drop_head ∷ enqueue ∷ enqueue ∷ []) (new 2)) ≤ 2
run-new_bounded_example = run-new_bounded (enqueue ∷ enqueue ∷ drop_head ∷ enqueue ∷ enqueue ∷ []) 2

abbrev one_ticket : WaitQueue
one_ticket = record { tickets = ticket ∷ []; limit = 2; notified = 0 }
