-- ===== src/ToolLoop/Execute.antt =====
-- `execute_tool` of crates/omega-core/src/tool_loop.rs: which tool a name selects, and the outcome.
-- The tools that start programs, use a regex or glob engine or list directories are an argument, by
-- their name; what they answer is text.
pub mod Written
use Prim.Native.String
use ashat_coding_agent.Base.{
  ℕ, Bool, true, false, ◌||◌, Option, none, some, List, [], ◌∷◌, String, if◌then◌else◌,
}
use ashat_coding_agent.Base.Text.{Text, codes, text_eq}
use ashat_coding_agent.Base.Result.{Result, ok, err}
use ashat_coding_agent.ToolLoop.{FilePath, JoinError}
use ashat_coding_agent.Json.{Value, object, boolean, get, as_str}
use ashat_coding_agent.ToolLoop.Edit.{Disk, ToolError, read_file, write_file, str_replace_tool}

-- The texts of an outcome, one constructor for each that the source formats.
pub data Output : Type 0 where
  plain : Text → Output
  failed : ToolError → Output
  workspace_unavailable : Output
  wrote : (path : Text) → (size : ℕ) → Output
  replaced : (times : ℕ) → (path : Text) → Output
  unknown_tool : (name : Text) → Output

pub record Outcome : Type 0 where
  pub output : Output
  pub written : Option FilePath

abbrev text_arg : String → Value → Text
text_arg key args = elim (as_str (get (codes key) (some args))) [ none ↦ [] | some s ↦ s ]

abbrev bool_arg : String → Value → Bool
bool_arg key args = elim (get (codes key) (some args)) [ some (boolean b) ↦ b | _ ↦ false ]

-- The tools by the names they go by.
pub data Tool : Type 0 where
  tool_read_file tool_write_file tool_str_replace : Tool
  other_tool : Tool
  no_tool : Tool

abbrev is_one_of : Text → List String → Bool
is_one_of name [] = false
is_one_of name (s ∷ ss) = text_eq name (codes s) || is_one_of name ss

abbrev pub tool_of : Text → Tool
tool_of name =
    if is_one_of name ("read_file" ∷ "read-files" ∷ [])
    then tool_read_file
    else if is_one_of name ("write_file" ∷ "write-file" ∷ [])
    then tool_write_file
    else if is_one_of name ("str_replace" ∷ "str-replace" ∷ [])
    then tool_str_replace
    else if is_one_of name (
        "sed_replace" ∷ "sed-replace" ∷ "list_dir" ∷ "list-directory" ∷ "tree" ∷ "glob"
        ∷ "code_search" ∷ "code-search" ∷ "run_command" ∷ "run-terminal-command" ∷ "apply_patch"
        ∷ "apply-patch" ∷ "git_status" ∷ "git-status" ∷ "git_diff" ∷ "git-diff" ∷ "validate" ∷ [])
    then other_tool
    else no_tool

abbrev not_written : Output → Outcome
not_written o = record { output = o; written = none }

-- An outcome of `write_file` and of `str_replace`.
unfoldable pub after_write :
    (size_of : FilePath → Disk → ℕ) → Text → Result ToolError FilePath × Disk → Outcome × Disk
after_write size_of path (ok joined, d) =
    (record { output = wrote path (size_of joined d); written = some joined }, d)
after_write size_of path (err e, d) = (not_written (failed e), d)

unfoldable pub after_replace : Text → Result ToolError ℕ × Disk → Outcome × Disk
after_replace path (ok times, d) = (not_written (replaced times path), d)
after_replace path (err e, d) = (not_written (failed e), d)

unfoldable pub after_read : Result ToolError Text → Outcome
after_read (ok text) = not_written (plain text)
after_read (err e) = not_written (failed e)

-- `size_of` is what the disk says of a file's length, `others` the tools that are not modelled.
unfoldable pub run_tool :
    (others : Text → Value → Disk → Text × Disk)
    → (size_of : FilePath → Disk → ℕ) → (max : ℕ) → (name : Text) → Value
    → Disk
    → Tool
    → Outcome × Disk
run_tool others size_of max name args d tool_read_file =
    (after_read (read_file d (text_arg "path" args) max), d)
run_tool others size_of max name args d tool_write_file =
    after_write size_of (text_arg "path" args)
      (write_file (text_arg "path" args) (text_arg "content" args) d)
run_tool others size_of max name args d tool_str_replace = after_replace (text_arg "path" args) (
    str_replace_tool (text_arg "path" args) (text_arg "old_string" args)
      (text_arg "new_string" args) (bool_arg "allow_multiple" args) d)
run_tool others size_of max name args d other_tool =
    let (text, d') = others name args d in (not_written (plain text), d')
run_tool others size_of max name args d no_tool = (not_written (unknown_tool name), d)

-- `available` is whether the workspace directory can be made.
unfoldable pub execute_tool :
    (others : Text → Value → Disk → Text × Disk)
    → (size_of : FilePath → Disk → ℕ) → (available : Bool) → (max : ℕ) → (name : Text) → Value
    → Disk
    → Outcome × Disk
execute_tool others size_of available max name args d =
    if available
    then run_tool others size_of max name args d (tool_of name)
    else (not_written workspace_unavailable, d)
