-- ===== src/ToolLoop/Programs.antt =====
-- The tools of crates/omega-core/src/tool_loop.rs that start a program: `run_command`, `git_status`,
-- `git_diff` and `code_search`. What the program comes to is an argument, given the arguments that
-- it is started with.
pub mod Matches
pub mod Tests
use ashat_coding_agent.Base.{
  ℕ, zero, suc, ◌+◌, ◌*◌, ◌%◌, ◌^◌, Bool, true, false, not, Option, none, some, List, [], ◌∷◌, ◌++◌,
  String, filter, take, length, reverse, ltb, leb, ◌==◌, if◌then◌else◌,
}
use ashat_coding_agent.Base.Text.{Text, codes, text_eq}
use ashat_coding_agent.Base.Result.{Result, ok, err}
use ashat_coding_agent.Json.{Value, get, as_str, as_u64, or_else}
use ashat_coding_agent.Proxy.Send.{digits}
use ashat_coding_agent.ToolLoop.{
  FilePath, is_whitespace, is_blank, is_absolute, truncate, cons_head, Component, normal,
  parent_dir, components,
}
use ashat_coding_agent.ToolLoop.Listing.{slashed, behind}

-- The end of a program: it cannot be started, waiting for it fails, it exceeds the timeout and is
-- killed, or it exits. `code` is the exit code as it is printed.
pub data Process : Type 0 where
  not_started : (error : Text) → Process
  wait_failed : (error : Text) → Process
  timed_out : Process
  exited : (success : Bool) → (code stdout stderr : Text) → Process

pub record ToolLoopConfig : Type 0 where
  pub command_timeout : ℕ
  pub output_max_chars : ℕ

abbrev timeout_text : String → ToolLoopConfig → Text
timeout_text what cfg =
    codes what ++ codes " timed out after " ++ digits 20 cfg.command_timeout ++ codes "s"

abbrev trim_start : Text → Text
trim_start [] = []
trim_start (c ∷ s) = if is_whitespace c then trim_start s else c ∷ s

abbrev trim_end : Text → Text
trim_end s = reverse (trim_start (reverse s))

abbrev pub trim : Text → Text
trim s = trim_end (trim_start s)

abbrev command_text : (success : Bool) → (code stdout stderr : Text) → Text
command_text success code stdout stderr =
    (if success then [] else codes "exit code " ++ code ++ codes "\n")
    ++ stdout
    ++ (if is_blank stderr then [] else codes "\nstderr: " ++ stderr)

abbrev command_answer : ToolLoopConfig → Process → Result Text Text
command_answer cfg (not_started e) = err (codes "failed to start shell: " ++ e)
command_answer cfg (wait_failed e) = err (codes "command failed: " ++ e)
command_answer cfg timed_out = err (timeout_text "command" cfg)
command_answer cfg (exited success code stdout stderr) =
    ok (truncate (command_text success code stdout stderr) cfg.output_max_chars)

-- `shell` is `sh -c` in the workspace.
unfoldable pub run_command : (shell : Text → Process) → Text → ToolLoopConfig → Result Text Text
run_command shell command cfg =
    if is_blank command then err (codes "empty command") else command_answer cfg (shell command)

abbrev git_failed : String → (code stderr : Text) → Text
git_failed what code stderr =
    codes what ++ codes " failed (exit " ++ code ++ codes "): " ++ trim stderr

abbrev status_text : Text → Text
status_text [] = codes "(clean — no changes)\n"
status_text (c ∷ s) = (c ∷ s) ++ codes "\n"

abbrev diff_text : ℕ → Text → Text
diff_text max [] = codes "(no diff — working tree clean)\n"
diff_text max (c ∷ s) = truncate (c ∷ s) max

-- How an answer of git is read: `what` names the command in the errors.
abbrev git_answer : String → (Text → Text) → ToolLoopConfig → Process → Result Text Text
git_answer what show cfg (not_started e) = err (codes "failed to run git: " ++ e)
git_answer what show cfg (wait_failed e) = err (codes what ++ codes " failed: " ++ e)
git_answer what show cfg timed_out = err (timeout_text what cfg)
git_answer what show cfg (exited true code stdout stderr) = ok (show (trim stdout))
git_answer what show cfg (exited false code stdout stderr) = err (git_failed what code stderr)

-- `git` is the program in the workspace, by its arguments.
unfoldable pub git_status : (git : List Text → Process) → ToolLoopConfig → Result Text Text
git_status git cfg =
    git_answer "git status" status_text cfg (git (codes "status" ∷ codes "--short" ∷ []))

abbrev range_args : (staged : Bool) → (base : Text) → List Text
range_args true base = codes "diff" ∷ codes "--staged" ∷ []
range_args false [] = codes "diff" ∷ []
range_args false (c ∷ base) = codes "diff" ∷ (c ∷ base) ∷ []

abbrev path_args : Text → List Text
path_args [] = []
path_args (c ∷ path) = codes "--" ∷ (c ∷ path) ∷ []

unfoldable pub git_diff :
    (git : List Text → Process)
    → (path : Text) → (staged : Bool) → (base : Text) → ToolLoopConfig
    → Result Text Text
git_diff git path staged base cfg =
    git_answer "git diff" (diff_text cfg.output_max_chars) cfg
      (git (range_args staged base ++ path_args path))

-- `rg`'s answer to a search: it is not installed, cannot be run, or has printed lines and errors.
pub data RipGrep : Type 0 where
  not_installed : RipGrep
  not_run : (error : Text) → RipGrep
  printed : (stdout : List Text) → (stderr : Text) → RipGrep

-- `split_whitespace`: the pieces between white space, without the empty ones.
abbrev split_at_white : Text → List Text
split_at_white [] = [] ∷ []
split_at_white (c ∷ s) =
    let rest = split_at_white s in if is_whitespace c then [] ∷ rest else cons_head c rest

abbrev is_word : Text → Bool
is_word [] = false
is_word (c ∷ s) = true

abbrev split_whitespace : Text → List Text
split_whitespace s = filter is_word (split_at_white s)

abbrev search_args : (dir : FilePath) → (pattern flags : Text) → List Text
search_args dir pattern flags =
    codes "--json"
    ∷ codes "--max-count"
    ∷ codes "1"
    ∷ codes "--max-filesize"
    ∷ codes "1M"
    ∷ codes "--no-binary"
    ∷ (split_whitespace flags ++ pattern ∷ (codes "/" ++ slashed dir) ∷ [])

-- The names of a path that has no `..`; `rg` prints the paths below the directory that it is given.
abbrev names_of : List Component → FilePath
names_of [] = []
names_of (normal s ∷ cs) = s ∷ names_of cs
names_of (parent_dir ∷ cs) = codes ".." ∷ names_of cs
names_of (c ∷ cs) = names_of cs

abbrev relative_file : (dir : FilePath) → Text → Text
relative_file dir file =
    elim (if is_absolute file then behind dir (names_of (components file)) else none) [
      | none ↦ file
      | some q ↦ slashed q
    ]

abbrev field : String → Option Value → Option Value
field key v = get (codes key) v

abbrev match_line : (dir : FilePath) → Value → Text
match_line dir v =
    let data_ = field "data" (some v) in
    relative_file dir (or_else (codes "?") (as_str (field "text" (field "path" data_))))
    ++ codes ":"
    ++ digits 20 (or_else 0 (as_u64 (field "line_number" data_)))
    ++ codes ":"
    ++ trim_end (or_else [] (as_str (field "text" (field "lines" data_))))

-- `parse` is the JSON parser.
abbrev pub match_of : (parse : Text → Option Value) → (dir : FilePath) → Text → Option Text
match_of parse dir line = elim (parse line) [
  | none ↦ none
  | some v ↦
      if text_eq (or_else [] (as_str (field "type" (some v)))) (codes "match")
      then some (match_line dir v)
      else none
]

abbrev pub push_match : List Text → Option Text → List Text
push_match rs none = rs
push_match rs (some m) = rs ++ m ∷ []

-- The loop over the lines that `rg` printed.
unfoldable pub gather :
    (match : Text → Option Text) → (max : ℕ) → List Text → (results : List Text) → List Text
gather match max [] rs = rs
gather match max (l ∷ ls) rs =
    let pushed = push_match rs (match l) in
    let rest = gather match max ls pushed in if leb max (length pushed) then pushed else rest

abbrev pub more_mark : (max : ℕ) → List Text → List Text
more_mark max stdout =
    if ltb max (length stdout)
    then (codes "... (showing " ++ digits 20 max ++ codes " of more matches)") ∷ []
    else []

abbrev pub no_matches : (stderr : Text) → Result Text (List Text)
no_matches stderr =
    if is_blank stderr
    then ok (codes "(no matches)" ∷ [])
    else err (codes "ripgrep error: " ++ stderr)

abbrev pub search_answer :
    (max : ℕ) → (stdout : List Text) → (stderr : Text) → List Text → Result Text (List Text)
search_answer max stdout stderr [] = no_matches stderr
search_answer max stdout stderr (r ∷ rs) = ok ((r ∷ rs) ++ more_mark max stdout)

-- `max_results * 2` on a 64-bit machine, which wraps in a release build.
abbrev pub doubled : ℕ → ℕ
doubled max = (max * 2) % 2 ^ 64

unfoldable pub searched :
    (match : Text → Option Text) → (max : ℕ) → RipGrep → Result Text (List Text)
searched match max not_installed = err (
    codes
      "ripgrep (rg) is not installed. Install it with: cargo install ripgrep, or sudo apt install ripgrep")
searched match max (not_run e) = err (codes "failed to run rg: " ++ e)
searched match max (printed stdout stderr) =
    search_answer max stdout stderr (gather match max (take (doubled max) stdout) [])

unfoldable pub code_search :
    (parse : Text → Option Value)
    → (rg : List Text → RipGrep) → (dir : FilePath) → (pattern flags : Text) → (max_results : ℕ)
    → Result Text (List Text)
code_search parse rg dir pattern flags max =
    if is_blank pattern
    then err (codes "search pattern is empty")
    else searched (match_of parse dir) max (rg (search_args dir pattern flags))
