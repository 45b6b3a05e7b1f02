-- ===== src/ToolLoop/Edit.antt =====
-- The file tools of crates/omega-core/src/tool_loop.rs: `read_file`, `write_file` and `str_replace`.
pub mod Replace
pub mod Confined
use ashat_coding_agent.Base.{
  ℕ, zero, suc, ◌+◌, ◌-◌, ◌^◌, Bool, true, false, not, ◌&&◌, Option, none, some, List, [], ◌∷◌,
  ◌++◌, ltb, ◌==◌, if◌then◌else◌, length,
}
use ashat_coding_agent.Base.Text.{Text, text_eq, strip_prefix}
use ashat_coding_agent.Base.Result.{Result, ok, err}
use ashat_coding_agent.ToolLoop.{FilePath, pop, JoinError, safe_join, truncate}

abbrev pub path_eq : FilePath → FilePath → Bool
path_eq [] [] = true
path_eq [] (s ∷ p) = false
path_eq (s ∷ p) [] = false
path_eq (s ∷ p) (t ∷ q) = text_eq s t && path_eq p q

-- What the tools see of the disk: the workspace's canonical path, the files that can be read as
-- text, and the paths that cannot be created or written.
-- `real` is where the system's lookup of a path ends, which follows symbolic links; `content` is by
-- the places at which lookups end.
pub record Disk : Type 0 where
  pub base : Option FilePath
  pub content : FilePath → Option Text
  pub real : FilePath → FilePath
  pub refuses_dir : FilePath → Bool
  pub refuses_write : FilePath → Bool

pub data ToolError : Type 0 where
  join_failed : JoinError → ToolError
  read_failed mkdir_failed write_failed : ToolError
  old_string_empty old_string_not_found : ToolError
  old_string_ambiguous : (times : ℕ) → ToolError

-- `std::fs::write`
unfoldable pub write : FilePath → Text → Disk → Result ToolError FilePath × Disk
write p text d =
    if d.refuses_write p
    then (err write_failed, d)
    else (ok p, record d { content = λ q. if path_eq (d.real p) q then some text else d.content q })

-- `std::fs::read_to_string`
unfoldable pub read : FilePath → Disk → Result ToolError Text
read p d = elim (d.content (d.real p)) [ none ↦ err read_failed | some text ↦ ok text ]

unfoldable pub read_file : Disk → Text → ℕ → Result ToolError Text
read_file d rel max = elim (safe_join d.base rel) [
  | err e ↦ err (join_failed e)
  | ok joined ↦ elim (read joined d) [ err e ↦ err e | ok text ↦ ok (truncate text max) ]
]

abbrev pub dir_refused : FilePath → Disk → Bool
dir_refused p d = elim (pop p) [ none ↦ false | some parent ↦ d.refuses_dir parent ]

unfoldable pub write_file : Text → Text → Disk → Result ToolError FilePath × Disk
write_file rel text d = elim (safe_join d.base rel) [
  | err e ↦ (err (join_failed e), d)
  | ok joined ↦ if dir_refused joined d then (err mkdir_failed, d) else write joined text d
]

-- `s.matches(old).count()`: the occurrences from the left, without overlap. `skip` characters of
-- the last one are still to be passed over.
unfoldable pub count_matches : (old : Text) → (skip : ℕ) → Text → ℕ
count_matches old skip [] = 0
count_matches old (suc k) (c ∷ s) = count_matches old k s
count_matches old zero (c ∷ s) = elim (strip_prefix old (c ∷ s)) [
  | none ↦ count_matches old 0 s
  | some _ ↦ suc (count_matches old (length old - 1) s)
]

-- `s.replacen(old, new, n)`
unfoldable pub replacen : (old new : Text) → (n skip : ℕ) → Text → Text
replacen old new n skip [] = []
replacen old new n (suc k) (c ∷ s) = replacen old new n k s
replacen old new n zero (c ∷ s) = elim (strip_prefix old (c ∷ s)) [
  | none ↦ c ∷ replacen old new n 0 s
  | some _ ↦ elim n [ zero ↦ c ∷ s | suc m ↦ new ++ replacen old new m (length old - 1) s ]
]

abbrev pub usize_max : ℕ
usize_max = 2 ^ 64 - 1

abbrev with_times : ℕ → Result ToolError FilePath × Disk → Result ToolError ℕ × Disk
with_times times (err e, d) = (err e, d)
with_times times (ok p, d) = (ok times, d)

-- The answer holds the number of occurrences.
unfoldable pub replace_in :
    (old new : Text) → Bool → FilePath → Text → Disk → Result ToolError ℕ × Disk
replace_in old new allow joined text d =
    let times = count_matches old 0 text in
    if times == 0
    then (err old_string_not_found, d)
    else if ltb 1 times && not allow
    then (err (old_string_ambiguous times), d)
    else with_times times
        (write joined (replacen old new (if allow then usize_max else 1) 0 text) d)

abbrev is_empty : Text → Bool
is_empty [] = true
is_empty (c ∷ s) = false

unfoldable pub str_replace_tool : (rel old new : Text) → Bool → Disk → Result ToolError ℕ × Disk
str_replace_tool rel old new allow d =
    if is_empty old then (err old_string_empty, d) else elim (safe_join d.base rel) [
      | err e ↦ (err (join_failed e), d)
      | ok joined ↦ elim (read joined d) [
        | err e ↦ (err e, d)
        | ok text ↦ replace_in old new allow joined text d
      ]
    ]
