-- ===== src/ToolLoop/Execute/Written.antt =====
-- The files that a run records as written, which its validation sweep checks.
use ashat_coding_agent.Base.{
  ℕ, ◌≡◌, refl, ◌⊎◌, inl, inr, Bool, true, false, Bool-cases, none, some, All,
}
use ashat_coding_agent.Base.Text.{Text}
use ashat_coding_agent.Base.Result.{Result, ok, err, Result-cases}
use ashat_coding_agent.ToolLoop.{FilePath, safe_join}
use ashat_coding_agent.ToolLoop.Paths.{IsName}
use ashat_coding_agent.Json.{Value}
use ashat_coding_agent.ToolLoop.Edit.{Disk, ToolError, write, dir_refused, write_file}
use ashat_coding_agent.ToolLoop.Edit.Replace.{path_eq_self, write_refused, write_done}
use ashat_coding_agent.ToolLoop.Edit.Confined.{IsBelow, joined-IsBelow}
use ashat_coding_agent.ToolLoop.Execute.{
  Outcome, text_arg, Tool, tool_read_file, tool_write_file, tool_str_replace, other_tool, no_tool,
  tool_of, after_write, after_replace, after_read, run_tool, execute_tool,
}

-- A write that succeeds: the path is below the workspace and holds the text.
abbrev Writes : FilePath → Text → Result ToolError FilePath × Disk → Type 0
Writes base text (err e, d) = Unit
Writes base text (ok p, d) = IsBelow base p × (d.content (d.real p) ≡ some text)

write-Writes :
    (base p : FilePath) (text : Text) (d : Disk)
    → IsBelow base p
    → Writes base text (write p text d)
write-Writes base p text d b = elim (Bool-cases (d.refuses_write p)) [
  | inl e ↦ rw (write_refused p text d e) tt
  | inr e ↦ rw (write_done p text d e) (b, rw (path_eq_self (d.real p)) refl)
]

write_file-Writes :
    (base : FilePath) (rel text : Text) (d : Disk)
    → d.base ≡ some base
    → All IsName base
    → Writes base text (write_file rel text d)
unfolding write_file
write_file-Writes base rel text d same n = elim (Result-cases (safe_join (some base) rel)) [
  | inr (j, e) ↦ rw (write_file, same, e) tt
  | inl (p, e) ↦ elim (Bool-cases (dir_refused p d)) [
    | inl f ↦ rw (write_file, same, e, f) tt
    | inr f ↦
        rw (write_file, same, e, f) (write-Writes base p text d (joined-IsBelow base rel p n e))
  ]
]

-- What an outcome records as written.
abbrev pub Records : FilePath → Tool → Value → Outcome × Disk → Type 0
Records base t args (o, d) =
    (o.written ≡ none)
    ⊎ ((t ≡ tool_write_file)
        × ((p : FilePath) × (o.written ≡ some p)
            × IsBelow base p
            × (d.content (d.real p) ≡ some (text_arg "content" args))))

after_write-Records :
    (base : FilePath) (size_of : FilePath → Disk → ℕ) (path : Text) (args : Value)
    (r : Result ToolError FilePath × Disk)
    → Writes base (text_arg "content" args) r
    → Records base tool_write_file args (after_write size_of path r)
unfolding after_write
after_write-Records base size_of path args (ok p, d) (b, c) = inr (refl, (p, refl, b, c))
after_write-Records base size_of path args (err e, d) w = inl refl

after_replace-written :
    (path : Text) (r : Result ToolError ℕ × Disk) → (after_replace path r).0.written ≡ none
unfolding after_replace
after_replace-written path (ok times, d) = refl
after_replace-written path (err e, d) = refl

after_read-written : (r : Result ToolError Text) → (after_read r).written ≡ none
unfolding after_read
after_read-written (ok text) = refl
after_read-written (err e) = refl

module _ (others : Text → Value → Disk → Text × Disk) (size_of : FilePath → Disk → ℕ)
    (base : FilePath) (names : All IsName base) where
  run_tool-Records :
      (max : ℕ) (name : Text) (args : Value) (d : Disk)
      → d.base ≡ some base
      → (t : Tool) → Records base t args (run_tool others size_of max name args d t)
  unfolding run_tool
  run_tool-Records max name args d same tool_read_file = inl (after_read-written _)
  run_tool-Records max name args d same tool_write_file =
      after_write-Records base size_of (text_arg "path" args) args _
        (write_file-Writes base (text_arg "path" args) (text_arg "content" args) d same names)
  run_tool-Records max name args d same tool_str_replace =
      inl (after_replace-written (text_arg "path" args) _)
  run_tool-Records max name args d same other_tool = inl refl
  run_tool-Records max name args d same no_tool = inl refl

  -- From a workspace at a canonical path: a tool call records a file as written only if it is a
  -- `write_file` call; the file then lies below the workspace and holds the content that the call
  -- asked for. Files that `str_replace` and the other tools change are not recorded.
  pub execute_tool-Records :
      (available : Bool) (max : ℕ) (name : Text) (args : Value) (d : Disk)
      → d.base ≡ some base
      → Records base (tool_of name) args (execute_tool others size_of available max name args d)
  unfolding execute_tool
  execute_tool-Records true max name args d same =
      run_tool-Records max name args d same (tool_of name)
  execute_tool-Records false max name args d same = inl refl
