-- ===== src/Models/Tests.antt =====
-- Runs of the model choice and an instance of its theorem.
use ashat_coding_agent.Base.{◌≡◌, refl, Option, none, some, List, [], ◌∷◌}
use ashat_coding_agent.Base.Text.{codes}
use ashat_coding_agent.Models.{DirEntry, discover}
use ashat_coding_agent.Models.Choice.{Runs, discover-Runs}

abbrev test_dir : Option (List (Option DirEntry))
test_dir = some (
    some (record { name = some (codes "x-1.2B-Instruct-Q8.gguf"); len = some 900 })
    ∷ none
    ∷ some (record { name = some (codes "x-1.2B-Instruct-Q4.gguf"); len = some 500 })
    ∷ some (record { name = some (codes "router-450M.gguf"); len = some 100 })
    ∷ some (record { name = some (codes "x-1.2B-Instruct.txt"); len = some 1 })
    ∷ [])

smallest_runs :
    (discover (codes "models") test_dir none).inference_path
    ≡ codes "models/x-1.2B-Instruct-Q4.gguf"
unfolding discover
smallest_runs = refl

hint_runs :
    (discover (codes "models") test_dir (some (codes "router-450M.gguf"))).inference_label
    ≡ codes "router-450M.gguf"
unfolding discover
hint_runs = refl

discover-Runs_example : Runs (codes "models") none (discover (codes "models") test_dir none)
discover-Runs_example = discover-Runs (codes "models") test_dir none
