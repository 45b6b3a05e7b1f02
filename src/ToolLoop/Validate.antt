-- ===== src/ToolLoop/Validate.antt =====
-- The syntax checks of crates/omega-core/src/tool_loop.rs: `validate_file_abs`, `validate_json_abs`
-- and `validate_sweep`. What a checker comes to, the JSON parser and the table of lower-case letters
-- are arguments.
pub mod Tests
use ashat_coding_agent.Base.{
  ℕ, ◌≡◌, refl, ap, Bool, true, false, Option, none, some, List, [], ◌∷◌, ◌++◌, String, map,
  if◌then◌else◌,
}
use ashat_coding_agent.Base.Text.{Text, codes, text_eq}
use ashat_coding_agent.Base.Result.{Result, ok, err}
use ashat_coding_agent.Json.{Value, or_else}
use ashat_coding_agent.Models.{extension}
use ashat_coding_agent.ToolLoop.{FilePath, truncate}
use ashat_coding_agent.ToolLoop.Edit.{Disk}
use ashat_coding_agent.ToolLoop.Listing.{slashed}
use ashat_coding_agent.ToolLoop.Programs.{
  Process, not_started, wait_failed, timed_out, exited, ToolLoopConfig, trim,
}

-- What the checks ask of the world outside: which paths are files, how a program ends on its
-- arguments, how text is parsed as JSON, and how text is lowered.
pub record Tools : Type 0 where
  pub is_file : FilePath → Bool
  pub run : Text → List Text → Process
  pub parse : Text → Result Text Value
  pub to_lowercase : Text → Text

abbrev shown : FilePath → Text
shown p = codes "/" ++ slashed p

-- `Path::file_name`
abbrev file_name : FilePath → Option Text
file_name [] = none
file_name (s ∷ []) = some s
file_name (s ∷ t ∷ p) = file_name (t ∷ p)

abbrev extension_of : Option Text → Text
extension_of none = []
extension_of (some name) = or_else [] (extension name)

-- How a file is checked, by its extension.
pub data Checker : Type 0 where
  program : (prog : String) → (args : List Text) → Checker
  json : Checker
  no_checker : Checker

abbrev ends_in : Text → List String → Bool
ends_in ext [] = false
ends_in ext (s ∷ ss) = if text_eq ext (codes s) then true else ends_in ext ss

abbrev python_check : Text
python_check = codes "import ast,sys; ast.parse(open(sys.argv[1],encoding='utf-8').read())"

unfoldable pub checker_of : (ext rel : Text) → Checker
checker_of ext rel =
    if ends_in ext ("py" ∷ [])
    then program "python3" (codes "-c" ∷ python_check ∷ rel ∷ [])
    else if ends_in ext ("js" ∷ "mjs" ∷ "cjs" ∷ [])
    then program "node" (codes "--check" ∷ rel ∷ [])
    else if ends_in ext ("sh" ∷ "bash" ∷ [])
    then program "bash" (codes "-n" ∷ rel ∷ [])
    else if ends_in ext ("json" ∷ [])
    then json
    else no_checker

abbrev parsed_text : Text → Result Text Value → Text
parsed_text rel (ok v) = rel ++ codes ": JSON OK"
parsed_text rel (err e) = rel ++ codes ": JSON error: " ++ e

-- The text of the system's read error is left out.
unfoldable pub validate_json_abs : Tools → Disk → FilePath → (rel : Text) → Text
validate_json_abs t d path rel = elim (d.content (d.real path)) [
  | none ↦ rel ++ codes ": read error: "
  | some s ↦ parsed_text rel (t.parse s)
]

abbrev checked : String → (rel : Text) → ToolLoopConfig → Process → Result Text Text
checked prog rel cfg (not_started e) =
    err (codes "validator " ++ codes prog ++ codes " unavailable: " ++ e)
checked prog rel cfg (wait_failed e) = err (codes "validator failed: " ++ e)
checked prog rel cfg timed_out = err (codes "validation timed out")
checked prog rel cfg (exited true code stdout stderr) = ok (rel ++ codes ": syntax OK")
checked prog rel cfg (exited false code stdout stderr) =
    err (rel ++ codes ": syntax error\n" ++ truncate (trim stderr) cfg.output_max_chars)

abbrev check_with :
    Tools → Disk → FilePath → (ext rel : Text) → ToolLoopConfig → Checker → Result Text Text
check_with t d path ext rel cfg (program prog args) = checked prog rel cfg (t.run (codes prog) args)
check_with t d path ext rel cfg json = ok (validate_json_abs t d path rel)
check_with t d path ext rel cfg no_checker =
    ok (codes "no syntax checker registered for ." ++ ext ++ codes "; skipped")

unfoldable pub validate_file_abs : Tools → Disk → FilePath → ToolLoopConfig → Result Text Text
validate_file_abs t d path cfg =
    let ext = t.to_lowercase (extension_of (file_name path)) in
    if t.is_file path
    then check_with t d path ext (shown path) cfg (checker_of ext (shown path))
    else err (codes "not a file: " ++ shown path)

-- An entry of the report.
pub record Checked : Type 0 where
  pub path : Text
  pub is_ok : Bool
  pub detail : Text

abbrev entry_of : (rel : Text) → Result Text Text → Checked
entry_of rel (ok detail) = record { path = rel; is_ok = true; detail = detail }
entry_of rel (err detail) = record { path = rel; is_ok = false; detail = detail }

abbrev name_of : FilePath → Text
name_of p = or_else (shown p) (file_name p)

unfoldable pub validate_sweep : Tools → Disk → List FilePath → ToolLoopConfig → List Checked
validate_sweep t d [] cfg = []
validate_sweep t d (p ∷ ps) cfg =
    entry_of (name_of p) (validate_file_abs t d p cfg) ∷ validate_sweep t d ps cfg

entry_of-path : (rel : Text) (r : Result Text Text) → (entry_of rel r).path ≡ rel
entry_of-path rel (ok detail) = refl
entry_of-path rel (err detail) = refl

-- A sweep reports each written file once, in order, by its name.
validate_sweep-names :
    (t : Tools) (d : Disk) (ps : List FilePath) (cfg : ToolLoopConfig)
    → map (λ c. c.path) (validate_sweep t d ps cfg) ≡ map name_of ps
unfolding validate_sweep
validate_sweep-names t d [] cfg = refl
validate_sweep-names t d (p ∷ ps) cfg =
    rw (entry_of-path (name_of p) (validate_file_abs t d p cfg), validate_sweep-names t d ps cfg)
      refl
