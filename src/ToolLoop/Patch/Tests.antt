-- ===== src/ToolLoop/Patch/Tests.antt =====
-- Runs of the patch tool's model and instances of its theorems.
use ashat_coding_agent.Base.{
  inl, inr, ◌≡◌, refl, ◌≢◌, Bool, false, some, none, List, [], ◌∷◌, ◌++◌, true,
}
use ashat_coding_agent.Base.Int.{pos}
use ashat_coding_agent.Base.Text.{Text, codes}
use ashat_coding_agent.Base.Result.{ok, err}
use ashat_coding_agent.ToolLoop.Patch.{
  Change, collect, parse_start, parse_i64, apply_change, apply_hunk, apply_hunks, apply_sorted,
  sort_hunks, insert_hunk, classify_all, classify, no_change, search, fits, splice, line_index,
}
use ashat_coding_agent.ToolLoop.Patch.Collect.{hunk_of, collect_two, parse_start-comma}
use ashat_coding_agent.ToolLoop.{
  FilePath, safe_join, components, components_behind, pieces, resolve, below_base, is_absolute,
  starts_with, pop,
}
use ashat_coding_agent.ToolLoop.Tests.{work, work_names, test_disk}
use ashat_coding_agent.ToolLoop.Edit.{Disk, write_file, str_replace_tool, read, write}
use ashat_coding_agent.ToolLoop.Edit.Confined.{IsConfined}
use ashat_coding_agent.ToolLoop.Patch.Files.{
  Files, expected_new_header, no_fuel, apply_sections, apply_patch,
}
use ashat_coding_agent.ToolLoop.Patch.Confined.{file_tools-IsConfined}
use ashat_coding_agent.ToolLoop.Patch.Ends.{apply_patch-ends}

abbrev header_one : Text
header_one = codes "@@ -1,3 +1,3 @@"

abbrev header_two : Text
header_two = codes "@@ -9,2 +9,2 @@ fn main"

-- Only a start without a count is read.
starts : (parse_start (codes "@@ -9 +9 @@") ≡ pos 9) × (parse_start header_two ≡ pos 1)
unfolding parse_start parse_i64
starts = (refl, refl)

abbrev body_one : List Text
body_one = codes " a" ∷ codes "-b" ∷ codes "+c" ∷ codes " d" ∷ []

abbrev body_two : List Text
body_two = codes " y" ∷ codes "+z" ∷ []

collect_two_example :
    collect none (header_one ∷ body_one ++ header_two ∷ body_two)
    ≡ (hunk_of header_one body_one ∷ [], [])
collect_two_example =
    collect_two header_one header_two body_one body_two refl refl (refl, (refl, (refl, (refl, tt))))
      ((refl, refl), ((refl, refl), tt))

abbrev change_one : Change
change_one = record {
  seen_minus_plus = true;
  ctx_before = codes "a" ∷ [];
  removals = codes "b" ∷ [];
  additions = codes "c" ∷ [];
  ctx_after = codes "d" ∷ [];
}

classified : classify_all body_one no_change ≡ change_one
unfolding classify_all classify
classified = refl

abbrev old_lines : List Text
old_lines = codes "a" ∷ codes "b" ∷ codes "d" ∷ codes "e" ∷ []

abbrev new_lines : List Text
new_lines = codes "a" ∷ codes "c" ∷ codes "d" ∷ codes "e" ∷ []

applied : apply_hunks (hunk_of header_one body_one ∷ []) old_lines ≡ some (ok new_lines)
unfolding apply_hunks apply_sorted sort_hunks insert_hunk apply_hunk apply_change classify_all
    classify search fits splice line_index parse_start parse_i64
applied = refl

-- A start of 0 panics on its index.
emptied_panics :
    apply_hunks (hunk_of (codes "@@ -1 +0 @@") (codes "-a" ∷ []) ∷ []) (codes "a" ∷ []) ≡ none
unfolding apply_hunks apply_sorted sort_hunks insert_hunk apply_hunk apply_change classify_all
    classify search fits splice line_index parse_start parse_i64
emptied_panics = refl

parse_start-comma_example : parse_start header_two ≡ pos 1
parse_start-comma_example = parse_start-comma header_two (codes "+9,2") refl (inr (inr (inl refl)))

abbrev test_files : Files
test_files = record { disk = test_disk; other_file = λ p. false; is_link = λ p. false }

abbrev none_refused : FilePath → Bool
none_refused p = false

-- A link in the workspace that leads out of it lets `write_file` change a file outside.
abbrev linked_disk : Disk
linked_disk = record test_disk { real = λ p. codes "etc" ∷ codes "passwd" ∷ [] }

written_outside :
    (write_file (codes "link") (codes "1") linked_disk).1.content
      (codes "etc" ∷ codes "passwd" ∷ [])
    ≡ some (codes "1")
unfolding write_file safe_join components components_behind pieces resolve below_base is_absolute
    starts_with write pop
written_outside = refl

abbrev edit_diff : Text
edit_diff = codes "--- a/a.rs\n+++ b/a.rs\n@@ -1 +1 @@\n-x = x;\n+y;\n"

patched_file :
    (d : Files) × (apply_patch none_refused edit_diff test_files
      ≡ (ok (codes "patched a.rs" ∷ []), d))
    × (d.disk.content (work ++ codes "a.rs" ∷ []) ≡ some (codes "y;"))
unfolding apply_patch apply_sections collect parse_start parse_i64 apply_hunks apply_sorted
    sort_hunks insert_hunk apply_hunk apply_change classify_all classify search fits splice
    line_index safe_join components components_behind pieces resolve below_base is_absolute
    starts_with read write
patched_file = (_, refl, refl)

-- A deleted line that begins with two dashes and a space is taken for the header of another file.
abbrev delete_diff : Text
delete_diff = codes "--- a/b.sql\n+++ /dev/null\n@@ -1 +0,0 @@\n--- all rows\n-select 1;\n"

deletion_refused :
    (apply_patch none_refused delete_diff test_files).0
    ≡ err (expected_new_header (codes "-select 1;"))
unfolding apply_patch apply_sections collect safe_join components components_behind pieces resolve
    below_base is_absolute starts_with
deletion_refused = refl

file_tools-IsConfined_example :
    IsConfined work test_disk (write_file (codes "a.rs") (codes "1") test_disk).1
    × IsConfined work test_disk
        (str_replace_tool (codes "a.rs") (codes "x") (codes "yy") true test_disk).1
    × IsConfined work test_disk (apply_patch none_refused edit_diff test_files).1.disk
file_tools-IsConfined_example =
    file_tools-IsConfined work (codes "a.rs") (codes "1") (codes "x") (codes "yy") edit_diff true
      none_refused test_files refl work_names (λ p below. below)

apply_patch-ends_example : (apply_patch none_refused edit_diff test_files).0 ≢ err no_fuel
apply_patch-ends_example = apply_patch-ends none_refused edit_diff test_files
