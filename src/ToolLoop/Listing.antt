-- ===== src/ToolLoop/Listing.antt =====
-- The listing tools of crates/omega-core/src/tool_loop.rs: `list_dir`, `tree` and `glob_files`. What
-- the directories hold and what the glob engine finds are arguments. Text that is printed line by
-- line is the list of its lines, each without its line break.
pub mod Capped
pub mod Tests
use ashat_coding_agent.Base.{
  ℕ, zero, suc, ◌+◌, Bool, true, false, not, ◌&&◌, ◌||◌, Option, none, some, List, [], ◌∷◌, ◌++◌,
  String, map, take, length, ltb, leb, ◌==◌, if◌then◌else◌,
}
use ashat_coding_agent.Base.Text.{Text, codes}
use ashat_coding_agent.Base.Result.{Result, ok, err, ◌>>=◌}
use ashat_coding_agent.Proxy.Send.{digits}
use ashat_coding_agent.ToolLoop.{FilePath, JoinError, starts_with, is_absolute, safe_join}

-- A directory as `tree` reads it: an entry is a file, a directory (an unreadable one shows no
-- entries), a symbolic link, or an entry without metadata.
mutual
  pub data Node : Type 0 where
    file symlink no_metadata : Node
    directory : Entries → Node

  pub data Entries : Type 0 where
    no_entries : Entries
    entry : Text → Node → Entries → Entries

pub data ListError : Type 0 where
  join_failed : JoinError → ListError
  not_a_directory : FilePath → ListError
  read_dir_failed invalid_pattern glob_read_error metadata_error : ListError

-- An entry that is shown.
pub record Shown : Type 0 where
  pub name : Text
  pub is_dir : Bool
  pub below : Entries

abbrev shown_file : Text → Shown
shown_file name = record { name = name; is_dir = false; below = no_entries }

abbrev shown_dir : Text → Entries → Shown
shown_dir name es = record { name = name; is_dir = true; below = es }

-- Symbolic links and entries without metadata are left out.
abbrev pub visible : Entries → List Shown
visible no_entries = []
visible (entry name file es) = shown_file name ∷ visible es
visible (entry name (directory ds) es) = shown_dir name ds ∷ visible es
visible (entry name symlink es) = visible es
visible (entry name no_metadata es) = visible es

-- `Ord` of text: by code points from the left.
abbrev text_lt : Text → Text → Bool
text_lt s [] = false
text_lt [] (d ∷ t) = true
text_lt (c ∷ s) (d ∷ t) = ltb c d || ((c == d) && text_lt s t)

-- Directories first, by name within each kind.
abbrev pub comes_before : Shown → Shown → Bool
comes_before a b =
    (a.is_dir && not b.is_dir)
    || (not (a.is_dir && not b.is_dir) && not (b.is_dir && not a.is_dir) && text_lt a.name b.name)

-- A stable sort: an element goes behind those that it is not strictly before.
abbrev pub insert_by : {A : Type 0} → (A → A → Bool) → A → List A → List A
insert_by lt a [] = a ∷ []
insert_by lt a (b ∷ bs) = let rest = insert_by lt a bs in if lt b a then b ∷ rest else a ∷ b ∷ bs

abbrev pub sort_by : {A : Type 0} → (A → A → Bool) → List A → List A
sort_by lt [] = []
sort_by lt (a ∷ xs) = insert_by lt a (sort_by lt xs)

-- The lines so far and their counter.
pub record Listing : Type 0 where
  pub out : List Text
  pub line_count : ℕ

abbrev pub max_lines : ℕ
max_lines = 500

abbrev pub push_line : Text → Listing → Listing
push_line l st = record { out = st.out ++ l ∷ []; line_count = st.line_count + 1 }

abbrev pub is_last : List Shown → Bool
is_last [] = true
is_last (e ∷ es) = false

abbrev display : Shown → Text
display e = if e.is_dir then e.name ++ codes "/" else e.name

-- The line of an entry; `last` is whether no entry follows it.
abbrev pub entry_line : (prefix : Text) → (last : Bool) → Shown → Text
entry_line prefix last e = prefix ++ ((if last then codes "└── " else codes "├── ") ++ display e)

abbrev pub child_prefix : (prefix : Text) → (last : Bool) → Text
child_prefix prefix last = prefix ++ (if last then codes "    " else codes "│   ")

-- The loop over the entries; `descend` lists a directory below.
unfoldable pub children :
    (descend : Text → Entries → Listing → Listing)
    → (prefix : Text) → List Shown
    → Listing
    → Listing
children descend prefix [] st = st
children descend prefix (e ∷ es) st =
    let pushed = push_line (entry_line prefix (is_last es) e) st in
    let listed =
      if e.is_dir then descend (child_prefix prefix (is_last es)) e.below pushed else pushed in
    let rest = children descend prefix es listed in if leb max_lines st.line_count then st else rest

unfoldable pub tree_recurse : (depth : ℕ) → (prefix : Text) → Entries → Listing → Listing
tree_recurse zero prefix es st = st
tree_recurse (suc depth) prefix es st =
    if leb max_lines st.line_count
    then st
    else children (tree_recurse depth) prefix (sort_by comes_before (visible es)) st

-- `file_name` of a canonical path, or `.` for the root.
abbrev pub root_name : FilePath → Text
root_name [] = codes "."
root_name (s ∷ []) = s
root_name (s ∷ t ∷ p) = root_name (t ∷ p)

abbrev pub joined : Result JoinError FilePath → Result ListError FilePath
joined (ok p) = ok p
joined (err e) = err (join_failed e)

-- The directory itself, or a path in it; `base` is its canonical path.
abbrev pub target_of :
    (dir : FilePath) → (base : Option FilePath) → Text → Result ListError FilePath
target_of dir base [] = ok dir
target_of dir base (c ∷ s) = joined (safe_join base (c ∷ s))

abbrev pub truncated_line : Text
truncated_line = codes "... (truncated at 500 lines)"

abbrev closed : Listing → List Text
closed st = if leb max_lines st.line_count then st.out ++ truncated_line ∷ [] else st.out

unfoldable pub tree_at : ℕ → FilePath → Option Node → Result ListError (List Text)
tree_at max_depth target (some (directory es)) =
    ok (
      closed
        (tree_recurse max_depth [] es (record { out = root_name target ∷ []; line_count = 1 })))
tree_at max_depth target _ = err (not_a_directory target)

-- `look` is what stands at a path.
unfoldable pub tree :
    (look : FilePath → Option Node)
    → (dir : FilePath) → (base : Option FilePath) → Text
    → ℕ
    → Result ListError (List Text)
tree look dir base subpath max_depth =
    target_of dir base subpath >>= λ target. tree_at max_depth target (look target)

-- What `read_dir` yields: each entry is an error or a name with whether it is a directory.
abbrev dir_lines : List (Option (Text × Bool)) → Result ListError (List Text)
dir_lines [] = ok []
dir_lines (none ∷ es) = err read_dir_failed
dir_lines (some (name, is_dir) ∷ es) = dir_lines es >>= λ ls.
    ok (((if is_dir then codes "dir " else codes "file") ++ codes " " ++ name) ∷ ls)

abbrev or_line : String → List Text → List Text
or_line s [] = codes s ∷ []
or_line s (l ∷ ls) = l ∷ ls

unfoldable pub list_dir : Option (List (Option (Text × Bool))) → Result ListError (List Text)
list_dir none = err read_dir_failed
list_dir (some es) = dir_lines es >>= λ ls. ok (or_line "(empty)" ls)

-- A path that the glob engine yields, with the time of its last change (0 where the system does not
-- know it).
pub data Hit : Type 0 where
  unreadable : Hit
  without_metadata : Hit
  hit : FilePath → (modified : ℕ) → Hit

abbrev hits_of : List Hit → Result ListError (List (FilePath × ℕ))
hits_of [] = ok []
hits_of (unreadable ∷ hs) = err glob_read_error
hits_of (without_metadata ∷ hs) = err metadata_error
hits_of (hit p t ∷ hs) = hits_of hs >>= λ ps. ok ((p, t) ∷ ps)

abbrev newer : FilePath × ℕ → FilePath × ℕ → Bool
newer (p, s) (q, t) = ltb t s

abbrev pub slashed : FilePath → Text
slashed [] = []
slashed (s ∷ []) = s
slashed (s ∷ t ∷ p) = s ++ codes "/" ++ slashed (t ∷ p)

-- `Path::strip_prefix`, or the whole path.
abbrev pub behind : (dir path : FilePath) → Option FilePath
behind [] p = some p
behind (s ∷ dir) [] = none
behind (s ∷ dir) (t ∷ p) = if starts_with (t ∷ p) (s ∷ []) then behind dir p else none

abbrev pub relative : (dir path : FilePath) → Text
relative dir p = elim (behind dir p) [ none ↦ codes "/" ++ slashed p | some q ↦ slashed q ]

-- `dir.join(pattern)`: an absolute pattern stands for itself.
abbrev full_pattern : (dir : FilePath) → Text → Text
full_pattern dir pattern =
    if is_absolute pattern then pattern else codes "/" ++ slashed dir ++ codes "/" ++ pattern

abbrev glob_lines : (dir : FilePath) → (count : ℕ) → List (FilePath × ℕ) → List Text
glob_lines dir count ps =
    or_line "(no matches)" (map (λ p. relative dir p.0) (take 250 ps))
    ++ (if ltb 250 count
        then (codes "... (" ++ digits 20 count ++ codes " total, showing 250)") ∷ []
        else [])

-- `glob` is the engine: no list for a pattern that it refuses.
unfoldable pub glob_files :
    (glob : Text → Option (List Hit)) → (dir : FilePath) → Text → Result ListError (List Text)
glob_files glob dir pattern = elim (glob (full_pattern dir pattern)) [
  | none ↦ err invalid_pattern
  | some hs ↦ hits_of hs >>= λ ps. ok (glob_lines dir (length ps) (sort_by newer ps))
]
