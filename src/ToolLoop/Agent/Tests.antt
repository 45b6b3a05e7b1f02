-- ===== src/ToolLoop/Agent/Tests.antt =====
-- Runs of the agent loop's model, as in the tests of tool_loop.rs, and instances of its theorems.
use ashat_coding_agent.Base.{ℕ, zero, suc, ◌≡◌, refl, Option, none, some, List, [], ◌∷◌}
use ashat_coding_agent.Base.Text.{Text, codes}
use ashat_coding_agent.Base.Result.{Result, ok}
use ashat_coding_agent.Types.{ProxyError}
use ashat_coding_agent.Metrics.{MetricsStore, mark_run_start}
use ashat_coding_agent.ToolLoop.Agent.{
  ToolOutcome, RunState, answered_text, parse_response, extract_content, act, run_loop, run_held,
  finish_run,
}
use ashat_coding_agent.Json.{Value, string, array, object, no_items, item, no_members, member}
use ashat_coding_agent.Types.{ChatMessage}
use ashat_coding_agent.ToolLoop.Agent.Trail.{IsTrail, run_loop-IsTrail}
use ashat_coding_agent.ToolLoop.Agent.Closing.{IsClosed, run_held-IsClosed}

abbrev reply_of : Value → Value
reply_of message = object (
    member (codes "choices")
      (array (item (object (member (codes "message") message no_members)) no_items)) no_members)

abbrev says : Text → Value
says text = reply_of (object (member (codes "content") (string text) no_members))

abbrev calls : Text → Value
calls name = reply_of (
    object (
      member (codes "tool_calls")
        (array (
          item
            (object (
              member (codes "function") (object (member (codes "name") (string name) no_members))
                no_members))
            no_items))
        no_members))

-- The model calls a tool first and answers then.
abbrev script : ℕ → List ChatMessage → Option (Result ProxyError Value)
script zero ms = some (ok (calls (codes " glob ")))
script (suc n) ms = some (ok (says (codes " done ")))

abbrev no_args : Text → Option Value
no_args s = none

abbrev same_case : Text → Text
same_case s = s

-- The workspace counts its tool calls.
abbrev count_calls : Text → Value → ℕ → Option ToolOutcome × ℕ
count_calls name args n = (some (record { output = name; written = none }), suc n)

abbrev empty_store : MetricsStore
empty_store = record { records = []; recent_events = []; active_runs = []; active_requests = 0 }

abbrev first_state : RunState
first_state = record {
  messages = [];
  written = [];
  answered = none;
  last_text = [];
  iterations = 0;
}

ends_with_answer :
    (run_held no_args same_case count_calls script 5 18081 10 20 first_state 0 empty_store).0
    ≡ some (ok (answered_text (codes "done")))
unfolding run_held run_loop act parse_response extract_content finish_run
ends_with_answer = refl

-- A tool that panics leaves its run among the active ones.
abbrev panics : Text → Value → ℕ → Option ToolOutcome × ℕ
panics name args n = (none, n)

left_active :
    (run_held no_args same_case panics script 5 18081 10 20 first_state 0 empty_store).1.active_runs
    ≡ (18081, 10) ∷ []
unfolding run_held run_loop act parse_response extract_content mark_run_start
left_active = refl

run_loop-IsTrail_example :
    IsTrail no_args same_case count_calls script 5 0 first_state 0
      (run_loop no_args same_case count_calls script 5 0 first_state 0)
run_loop-IsTrail_example =
    run_loop-IsTrail no_args same_case count_calls script 5 0 first_state 0 refl

run_held-IsClosed_example :
    IsClosed 18081 10 empty_store
      (run_held no_args same_case count_calls script 5 18081 10 20 first_state 0 empty_store).0
      (run_held no_args same_case count_calls script 5 18081 10 20 first_state 0 empty_store).1
run_held-IsClosed_example =
    run_held-IsClosed no_args same_case count_calls script 5 18081 10 20 first_state 0 empty_store
