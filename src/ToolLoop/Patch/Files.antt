-- ===== src/ToolLoop/Patch/Files.antt =====
-- The loop of `apply_patch` in crates/omega-core/src/tool_loop.rs over the files of a diff: headers,
-- deletion, creation and the rewriting of a file by its hunks.
use ashat_coding_agent.Base.{
  ℕ, zero, suc, Bool, true, false, not, ◌&&◌, ◌||◌, Option, none, some, List, [], ◌∷◌, ◌++◌, length,
  ◌==◌, reverse, if◌then◌else◌,
}
use ashat_coding_agent.Base.Text.{Text, codes, text_eq, strip_prefix}
use ashat_coding_agent.Base.Result.{Result, ok, err}
use ashat_coding_agent.Json.{or_else}
use ashat_coding_agent.ToolLoop.{FilePath, JoinError, cons_head, is_blank, safe_join}
use ashat_coding_agent.ToolLoop.Edit.{Disk, ToolError, path_eq, write, read, dir_refused}
use ashat_coding_agent.ToolLoop.Programs.{trim}
use ashat_coding_agent.ToolLoop.Patch.{
  Hunk, is_hunk_header, is_old_header, collect, PatchError, apply_hunks,
}

-- `str::lines`: a line break ends a line, with a carriage return in front of it.
abbrev at_breaks : Text → List Text
at_breaks [] = [] ∷ []
at_breaks (c ∷ s) = let rest = at_breaks s in if c == 10 then [] ∷ rest else cons_head c rest

abbrev behind_return : Text → Text
behind_return [] = []
behind_return (c ∷ r) = if c == 13 then r else c ∷ r

abbrev last_line : Text → List Text
last_line [] = []
last_line (c ∷ s) = (c ∷ s) ∷ []

abbrev ended_lines : List Text → List Text
ended_lines [] = []
ended_lines (p ∷ []) = last_line p
ended_lines (p ∷ q ∷ ps) = reverse (behind_return (reverse p)) ∷ ended_lines (q ∷ ps)

abbrev pub str_lines : Text → List Text
str_lines s = ended_lines (at_breaks s)

-- `lines.join("\n")`
abbrev join_lines : List Text → Text
join_lines [] = []
join_lines (l ∷ []) = l
join_lines (l ∷ m ∷ ls) = l ++ 10 ∷ join_lines (m ∷ ls)

abbrev first_is_break : Text → Bool
first_is_break [] = false
first_is_break (c ∷ s) = c == 10

abbrev ends_with_break : Text → Bool
ends_with_break s = first_is_break (reverse s)

pub data FileError : Type 0 where
  empty_diff no_hunks panicked no_fuel : FileError
  expected_new_header : (line : Text) → FileError
  join_failed : JoinError → FileError
  delete_failed mkdir_failed : FileError
  tool_failed : ToolError → FileError
  hunk_failed : PatchError → FileError

abbrev is_some {ℓ} : {A : Type ℓ} → Option A → Bool
is_some none = false
is_some (some a) = true

-- The disk with the files that cannot be read as text and the symbolic links.
pub record Files : Type 0 where
  pub disk : Disk
  pub other_file : FilePath → Bool
  pub is_link : FilePath → Bool

abbrev pub is_file : FilePath → Files → Bool
is_file p d = is_some (d.disk.content (d.disk.real p)) || d.other_file (d.disk.real p)

-- The file at a place is gone.
abbrev pub deleted : FilePath → Files → Files
deleted p d = record d {
  disk = record d.disk { content = λ q. if path_eq p q then none else d.disk.content q };
  other_file = λ q. if path_eq p q then false else d.other_file q;
}

-- A link is gone, and what it leads to stays.
abbrev pub unlinked : FilePath → Files → Files
unlinked p d = record d {
  disk = record d.disk { real = λ q. if path_eq p q then p else d.disk.real q };
  is_link = λ q. if path_eq p q then false else d.is_link q;
}

-- `std::fs::remove_file`, which follows the links to directories on its path, but not the last.
abbrev pub remove : FilePath → Files → Files
remove p d = if d.is_link p then unlinked p d else deleted (d.disk.real p) d

abbrev pub Done : Type 0
Done = Result FileError (List Text) × Files

-- `refuses` are the paths that cannot be deleted.
abbrev pub delete_at : (refuses : FilePath → Bool) → (old : Text) → FilePath → Files → Done
delete_at refuses old p d =
    if is_file p d
    then (if refuses p
        then (err delete_failed, d)
        else (ok ((codes "deleted " ++ old) ∷ []), remove p d))
    else (ok [], d)

abbrev pub delete_file : (refuses : FilePath → Bool) → (old : Text) → Files → Done
delete_file refuses old d = elim (safe_join d.disk.base old) [
  | err e ↦ (err (join_failed e), d)
  | ok p ↦ delete_at refuses old p d
]

abbrev pub reported : Text → Files → Result ToolError FilePath × Disk → Done
reported line d (ok p, after) = (ok (line ∷ []), record d { disk = after })
reported line d (err e, after) = (err (tool_failed e), record d { disk = after })

-- The added lines of a hunk.
abbrev added : List Text → Text
added [] = []
added (l ∷ ls) = elim (strip_prefix (codes "+") l) [
  | none ↦ added ls
  | some rest ↦ rest ++ 10 ∷ added ls
]

abbrev pub created_text : List Hunk → Text
created_text [] = []
created_text (h ∷ hs) = added h.lines ++ created_text hs

abbrev pub create_at : (new : Text) → List Hunk → FilePath → Files → Done
create_at new hs p d =
    if dir_refused p d.disk
    then (err mkdir_failed, d)
    else reported (codes "created " ++ new) d (write p (created_text hs) d.disk)

abbrev pub create_file : (new : Text) → List Hunk → Files → Done
create_file new hs d = elim (safe_join d.disk.base new) [
  | err e ↦ (err (join_failed e), d)
  | ok p ↦ create_at new hs p d
]

abbrev pub new_text : (original : Text) → List Text → Text
new_text original lines =
    let text = join_lines lines in
    if ends_with_break original && not (ends_with_break text) then text ++ 10 ∷ [] else text

abbrev pub rewrite_with :
    (new : Text)
    → FilePath
    → (original : Text) → Option (Result PatchError (List Text))
    → Files
    → Done
rewrite_with new p original none d = (err panicked, d)
rewrite_with new p original (some (err e)) d = (err (hunk_failed e), d)
rewrite_with new p original (some (ok lines)) d =
    reported (codes "patched " ++ new) d (write p (new_text original lines) d.disk)

abbrev pub modify_at : (new : Text) → List Hunk → FilePath → Files → Done
modify_at new hs p d = elim (read p d.disk) [
  | err e ↦ (err (tool_failed e), d)
  | ok original ↦ rewrite_with new p original (apply_hunks hs (str_lines original)) d
]

abbrev pub modify_file : (new : Text) → List Hunk → Files → Done
modify_file new hs d = elim (safe_join d.disk.base new) [
  | err e ↦ (err (join_failed e), d)
  | ok p ↦ modify_at new hs p d
]

-- A file of the diff, and the lines behind its headers.
pub record Section : Type 0 where
  pub old_path : Text
  pub new_path : Text
  pub rest : List Text

-- `find`: the first header and the lines behind it.
abbrev pub find_header : List Text → Option (Text × List Text)
find_header [] = none
find_header (l ∷ ls) = let found = find_header ls in if is_old_header l then some (l, ls) else found

abbrev pub skip_to_hunk : List Text → List Text
skip_to_hunk [] = []
skip_to_hunk (l ∷ ls) = let rest = skip_to_hunk ls in if is_hunk_header l then l ∷ ls else rest

abbrev without : Text → Text → Text
without p s = or_else s (strip_prefix p s)

abbrev path_of : (mark side : Text) → Text → Text
path_of mark side line = without side (trim (or_else [] (strip_prefix mark line)))

abbrev pub section_of : (header from_line : Text) → List Text → Result FileError Section
section_of header from_line ls = elim (strip_prefix (codes "+++ ") from_line) [
  | none ↦ err (expected_new_header from_line)
  | some _ ↦ ok record {
    old_path = path_of (codes "--- ") (codes "a/") header;
    new_path = path_of (codes "+++ ") (codes "b/") from_line;
    rest = skip_to_hunk ls;
  }
]

-- A missing line is empty.
abbrev pub headed : Text × List Text → Result FileError Section
headed (header, []) = section_of header [] []
headed (header, l ∷ ls) = section_of header l ls

abbrev pub dev_null : Text
dev_null = codes "/dev/null"

-- What is done for a file, and the lines that are left over.
abbrev pub apply_section : (refuses : FilePath → Bool) → Section → Files → Done
apply_section refuses s d =
    let hunks = (collect none s.rest).0 in
    if text_eq s.new_path dev_null
    then delete_file refuses s.old_path d
    else if text_eq s.old_path dev_null
    then create_file s.new_path hunks d
    else modify_file s.new_path hunks d

abbrev pub left_over : Section → List Text
left_over s = if text_eq s.new_path dev_null then s.rest else (collect none s.rest).1

-- What follows a file: the loop goes on with the lines that are left over. What an earlier file has
-- changed stays changed when a later one fails.
abbrev pub after_section :
    (continue : List Text → List Text → Files → Done) → List Text → (out : List Text) → Done → Done
after_section continue ls out (err e, d) = (err e, d)
after_section continue ls out (ok more, d) = continue ls (out ++ more) d

abbrev pub headed_section :
    (refuses : FilePath → Bool)
    → (continue : List Text → List Text → Files → Done) → Result FileError Section
    → (out : List Text) → Files
    → Done
headed_section refuses continue (err e) out d = (err e, d)
headed_section refuses continue (ok s) out d =
    after_section continue (left_over s) out (apply_section refuses s d)

abbrev pub next_section :
    (refuses : FilePath → Bool)
    → (continue : List Text → List Text → Files → Done) → Option (Text × List Text)
    → (out : List Text) → Files
    → Done
next_section refuses continue none out d = (ok out, d)
next_section refuses continue (some found) out d =
    headed_section refuses continue (headed found) out d

-- The loop, on fuel.
unfoldable pub apply_sections :
    (refuses : FilePath → Bool) → (fuel : ℕ) → List Text → (out : List Text) → Files → Done
apply_sections refuses zero ls out d = (err no_fuel, d)
apply_sections refuses (suc fuel) ls out d =
    next_section refuses (apply_sections refuses fuel) (find_header ls) out d

abbrev pub or_no_hunks : Done → Done
or_no_hunks (ok [], d) = (err no_hunks, d)
or_no_hunks (ok (l ∷ ls), d) = (ok (l ∷ ls), d)
or_no_hunks (err e, d) = (err e, d)

-- The fuel is one more than the lines of the diff, each of which is read once.
unfoldable pub apply_patch : (refuses : FilePath → Bool) → (diff : Text) → Files → Done
apply_patch refuses diff d =
    if is_blank diff
    then (err empty_diff, d)
    else or_no_hunks (apply_sections refuses (suc (length (str_lines diff))) (str_lines diff) [] d)
