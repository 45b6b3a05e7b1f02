-- ===== src/ToolLoop/Tests.antt =====
-- Runs of the tools' model, as in the tests of tool_loop.rs, and instances of its theorems.
use ashat_coding_agent.Base.{
  ◌≤◌, if◌then◌else◌, ◌≡◌, refl, some, none, [], ◌∷◌, ◌++◌, true, false, arith, All,
}
use ashat_coding_agent.Base.Text.{Text, codes}
use ashat_coding_agent.Base.Result.{ok, err}
use ashat_coding_agent.ToolLoop.{
  FilePath, escapes, absolute_path, safe_join, components, components_behind, pieces, resolve,
  below_base, is_absolute, pop, starts_with,
}
use ashat_coding_agent.ToolLoop.Paths.{IsName, Joined, safe_join-Joined}
use ashat_coding_agent.ToolLoop.Edit.{
  Disk, write_file, str_replace_tool, replace_in, count_matches, path_eq, usize_max, replacen, read,
  write,
}
use ashat_coding_agent.Json.{Value, string, object, member, no_members}
use ashat_coding_agent.ToolLoop.Execute.{execute_tool, run_tool, after_write, tool_of}
use ashat_coding_agent.ToolLoop.Execute.Written.{Records, execute_tool-Records}
use ashat_coding_agent.ToolLoop.Edit.Replace.{Replaced, replace_in_lem}

abbrev pub work : FilePath
work = codes "srv" ∷ codes "agent" ∷ []

joins_below : safe_join (some work) (codes "./a//b.rs") ≡ ok (work ++ codes "a" ∷ codes "b.rs" ∷ [])
unfolding safe_join components components_behind pieces resolve below_base is_absolute starts_with
joins_below = refl

parent_refused : safe_join (some work) (codes "../x") ≡ err escapes
unfolding safe_join components components_behind pieces resolve below_base is_absolute starts_with
    pop
parent_refused = refl

absolute_refused : safe_join (some work) (codes "/etc/passwd") ≡ err absolute_path
unfolding safe_join is_absolute
absolute_refused = refl

pub work_names : All IsName work
work_names = (
  record {
    nonempty = λ e. ground (arith, e);
    not_dot = λ e. ground (arith, e);
    not_dots = λ e. ground (arith, e);
    no_slash = ground arith;
  },
  (
    record {
      nonempty = λ e. ground (arith, e);
      not_dot = λ e. ground (arith, e);
      not_dots = λ e. ground (arith, e);
      no_slash = ground arith;
    },
    tt,
  ),
)

safe_join-Joined_example : Joined work (safe_join (some work) (codes "a/../b.rs"))
safe_join-Joined_example = safe_join-Joined work (codes "a/../b.rs") work_names

abbrev pub test_disk : Disk
test_disk = record {
  base = some work;
  content = λ p. if path_eq p (work ++ codes "a.rs" ∷ []) then some (codes "x = x;") else none;
  real = λ p. p;
  refuses_dir = λ p. false;
  refuses_write = λ p. false;
}

-- Both occurrences are swapped.
both_swapped :
    (d : Disk) × (str_replace_tool (codes "a.rs") (codes "x") (codes "yy") true test_disk
      ≡ (ok 2, d))
    × (d.content (work ++ codes "a.rs" ∷ []) ≡ some (codes "yy = yy;"))
unfolding str_replace_tool safe_join components components_behind pieces resolve below_base
    is_absolute starts_with read replace_in count_matches replacen write
both_swapped = (_, refl, refl)

few_matches : count_matches (codes "x") 0 (codes "x = x;") ≤ usize_max
unfolding count_matches
few_matches = omega arith

replace_in_lem_example :
    Replaced (codes "x") (codes "yy") false (work ++ codes "a.rs" ∷ []) (codes "x = x;") test_disk (
      replace_in
        (codes "x")
        (codes "yy")
        false
        (work ++ codes "a.rs" ∷ [])
        (codes "x = x;")
        test_disk)
replace_in_lem_example =
    replace_in_lem 120 [] (codes "yy") false (work ++ codes "a.rs" ∷ []) (codes "x = x;") test_disk
      few_matches

abbrev write_args : Value
write_args = object (
    member (codes "path") (string (codes "b.rs"))
      (member (codes "content") (string (codes "1")) no_members))

abbrev no_others : Text → Value → Disk → Text × Disk
no_others name args d = ([], d)

written_below :
    (execute_tool no_others (λ p d. 1) true 100 (codes "write-file") write_args test_disk).0.written
    ≡ some (work ++ codes "b.rs" ∷ [])
unfolding execute_tool run_tool after_write write_file safe_join components components_behind pieces
    resolve below_base is_absolute starts_with write pop
written_below = refl

execute_tool-Records_example :
    Records work
      (tool_of (codes "write-file"))
      write_args
      (execute_tool no_others (λ p d. 1) true 100 (codes "write-file") write_args test_disk)
execute_tool-Records_example =
    execute_tool-Records no_others (λ p d. 1) work work_names true 100 (codes "write-file")
      write_args test_disk refl
