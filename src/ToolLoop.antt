-- ===== src/ToolLoop.antt =====
-- crates/omega-core/src/tool_loop.rs: the tools that the coding agent runs in its workspace.
-- Paths are lists of segments below `/`, text is a list of code points. What the disk refuses to
-- do, and where the workspace is, is an argument.
pub mod Paths
pub mod Tests
pub mod Edit
pub mod Agent
pub mod Execute
pub mod Patch
pub mod Listing
pub mod Programs
pub mod Validate
use ashat_coding_agent.Base.{
  ℕ, zero, suc, ◌+◌, ◌-◌, ◌≡◌, Bool, true, false, not, ◌&&◌, ◌||◌, Option, none, some, List, [],
  ◌∷◌, ◌++◌, leb, ◌==◌, if◌then◌else◌, length, take,
}
use ashat_coding_agent.Base.Text.{Text, codes, text_eq, strip_prefix}
use ashat_coding_agent.Base.Result.{Result, ok, err, ◌>>=◌}

-- `char::is_whitespace`
abbrev pub is_whitespace : ℕ → Bool
is_whitespace c =
    (leb 9 c && leb c 13)
    || (c == 32)
    || (c == 133)
    || (c == 160)
    || (c == 5760)
    || (leb 8192 c && leb c 8202)
    || (c == 8232)
    || (c == 8233)
    || (c == 8239)
    || (c == 8287)
    || (c == 12288)

-- `s.trim().is_empty()`
abbrev pub is_blank : Text → Bool
is_blank [] = true
is_blank (c ∷ s) = is_whitespace c && is_blank s

abbrev pub cons_head : ℕ → List Text → List Text
cons_head c [] = (c ∷ []) ∷ []
cons_head c (p ∷ ps) = (c ∷ p) ∷ ps

-- The pieces between the slashes.
unfoldable pub pieces : Text → List Text
pieces [] = [] ∷ []
pieces (c ∷ s) = let rest = pieces s in if c == 47 then [] ∷ rest else cons_head c rest

pub data Component : Type 0 where
  root_dir : Component
  cur_dir : Component
  parent_dir : Component
  normal : Text → Component

-- The components of pieces behind the first: an empty piece and a `.` are left out.
unfoldable pub components_behind : List Text → List Component
components_behind [] = []
components_behind (p ∷ ps) =
    let rest = components_behind ps in
    if text_eq p [] || text_eq p (codes ".")
    then rest
    else if text_eq p (codes "..")
    then parent_dir ∷ rest
    else normal p ∷ rest

-- `Path::components` on Unix: a leading `.` is kept.
unfoldable pub components : Text → List Component
components s = elim (pieces s) [
  | [] ↦ []
  | p ∷ ps ↦
      if text_eq p []
      then root_dir ∷ components_behind ps
      else if text_eq p (codes ".")
      then cur_dir ∷ components_behind ps
      else components_behind (p ∷ ps)
]

unfoldable pub is_absolute : Text → Bool
is_absolute [] = false
is_absolute (c ∷ s) = c == 47

abbrev pub FilePath : Type 0
FilePath = List Text

-- `PathBuf::pop`: there is nothing to pop at the root.
unfoldable pub pop : FilePath → Option FilePath
pop [] = none
pop (s ∷ []) = some []
pop (s ∷ t ∷ p) = elim (pop (t ∷ p)) [ none ↦ none | some q ↦ some (s ∷ q) ]

-- `Path::starts_with`, by whole components.
unfoldable pub starts_with : FilePath → FilePath → Bool
starts_with p [] = true
starts_with [] (b ∷ bs) = false
starts_with (s ∷ p) (b ∷ bs) = text_eq s b && starts_with p bs

pub data JoinError : Type 0 where
  empty_path absolute_path workspace_unavailable escapes unsupported : JoinError

-- The loop of `safe_join`.
unfoldable pub resolve : List Component → FilePath → Result JoinError FilePath
resolve [] cur = ok cur
resolve (cur_dir ∷ cs) cur = resolve cs cur
resolve (parent_dir ∷ cs) cur = elim (pop cur) [ none ↦ err escapes | some up ↦ resolve cs up ]
resolve (normal s ∷ cs) cur = resolve cs (cur ++ s ∷ [])
resolve (root_dir ∷ cs) cur = err unsupported

unfoldable pub below_base : FilePath → FilePath → Result JoinError FilePath
below_base base cur = if starts_with cur base then ok cur else err escapes

-- `base` is what `dir.canonicalize()` gives.
unfoldable pub safe_join : Option FilePath → Text → Result JoinError FilePath
safe_join base rel =
    if is_blank rel
    then err empty_path
    else if is_absolute rel
    then err absolute_path
    else elim base [
      | none ↦ err workspace_unavailable
      | some b ↦ resolve (components rel) b >>= below_base b
    ]

-- At most `max` characters, and a mark where the rest was.
unfoldable pub truncate : Text → ℕ → Text
truncate s max = if leb (length s) max then s else take max s ++ codes "... [truncated]"
