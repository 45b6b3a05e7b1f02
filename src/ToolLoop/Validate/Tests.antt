-- ===== src/ToolLoop/Validate/Tests.antt =====
-- Runs of the syntax checks.
use ashat_coding_agent.Base.{◌≡◌, refl, none, some, [], ◌∷◌, true, false}
use ashat_coding_agent.Base.Text.{codes}
use ashat_coding_agent.Base.Result.{err}
use ashat_coding_agent.Models.{extension}
use ashat_coding_agent.ToolLoop.{truncate}
use ashat_coding_agent.ToolLoop.Edit.{Disk}
use ashat_coding_agent.ToolLoop.Programs.{ToolLoopConfig, timed_out}
use ashat_coding_agent.ToolLoop.Validate.{
  Tools, checker_of, validate_json_abs, validate_file_abs, validate_sweep,
}

abbrev tools : Tools
tools = record {
  is_file = λ p. true;
  run = λ prog args. timed_out;
  parse = λ s. err (codes "EOF");
  to_lowercase = λ s. s;
}

abbrev disk : Disk
disk = record {
  base = none;
  content = λ p. some (codes "{");
  real = λ p. p;
  refuses_dir = λ p. false;
  refuses_write = λ p. false;
}

abbrev limits : ToolLoopConfig
limits = record { command_timeout = 60; output_max_chars = 80 }

-- A JSON file that does not parse is reported as fine; a checker that times out is not.
swept : validate_sweep tools disk ((codes "a.json" ∷ []) ∷ (codes "b.py" ∷ []) ∷ []) limits ≡ (
    record { path = codes "a.json"; is_ok = true; detail = codes "/a.json: JSON error: EOF" }
    ∷ record { path = codes "b.py"; is_ok = false; detail = codes "validation timed out" }
    ∷ [])
unfolding validate_sweep validate_file_abs checker_of validate_json_abs extension truncate
swept = refl
