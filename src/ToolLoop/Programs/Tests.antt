-- ===== src/ToolLoop/Programs/Tests.antt =====
-- Runs of the tools that start a program.
use ashat_coding_agent.Base.{◌≡◌, refl, Option, none, some, List, [], ◌∷◌, take, true, false}
use ashat_coding_agent.Base.Text.{Text, codes, text_eq}
use ashat_coding_agent.Base.Result.{ok, err}
use ashat_coding_agent.ToolLoop.{truncate}
use ashat_coding_agent.ToolLoop.Programs.{
  exited, timed_out, ToolLoopConfig, run_command, git_status, printed, gather, searched,
  search_answer,
}
use ashat_coding_agent.ToolLoop.Programs.Matches.{matches, searched-matches}

abbrev limits : ToolLoopConfig
limits = record { command_timeout = 60; output_max_chars = 8 }

failing_command :
    run_command
      (λ c. exited false (codes "Some(1)") (codes "out") (codes " "))
      (codes "make")
      limits
    ≡ ok (codes "exit cod... [truncated]")
unfolding run_command truncate
failing_command = refl

slow_command :
    run_command (λ c. timed_out) (codes "make") limits ≡ err (codes "command timed out after 60s")
unfolding run_command
slow_command = refl

unchanged_tree :
    git_status (λ args. exited true (codes "Some(0)") (codes "\n") []) limits
    ≡ ok (codes "(clean — no changes)\n")
unfolding git_status
unchanged_tree = refl

-- A match as a line that starts with `m`.
abbrev test_match : Text → Option Text
test_match [] = none
test_match (c ∷ s) = elim (text_eq (c ∷ []) (codes "m")) [ true ↦ some s | false ↦ none ]

-- Both matches would fit, but the second stands behind the first `2 * 2` lines.
abbrev begin_end : List Text
begin_end = codes "begin" ∷ codes "m1" ∷ codes "end" ∷ codes "begin" ∷ codes "m2" ∷ codes "end" ∷ []

second_match_lost :
    searched test_match 2 (printed begin_end [])
    ≡ ok (codes "1" ∷ codes "... (showing 2 of more matches)" ∷ [])
unfolding searched gather
second_match_lost = refl

searched-matches_example :
    searched test_match 2 (printed begin_end [])
    ≡ search_answer 2 begin_end [] (take 2 (matches test_match (take 4 begin_end)))
searched-matches_example = searched-matches test_match 2 begin_end []
