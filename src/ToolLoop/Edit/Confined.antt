-- ===== src/ToolLoop/Edit/Confined.antt =====
-- Which files the writing tools of crates/omega-core/src/tool_loop.rs can change.
use ashat_coding_agent.Base.{
  ℕ, ◌≡◌, refl, subst, Bool-cases, some, ◌++◌, ◌⊎◌, inl, inr, Bool, ◌==◌, ltb, not, ◌&&◌,
  if◌then◌else◌, All,
}
use ashat_coding_agent.Base.Text.{Text}
use ashat_coding_agent.Base.Result.{Result, ok, err, Result-cases}
use ashat_coding_agent.ToolLoop.{FilePath, safe_join}
use ashat_coding_agent.ToolLoop.Paths.{IsName, safe_join-Joined}
use ashat_coding_agent.ToolLoop.Edit.{
  path_eq, Disk, ToolError, read, write, dir_refused, write_file, with_times, count_matches,
  replacen, replace_in, usize_max, str_replace_tool, is_empty,
}
use ashat_coding_agent.ToolLoop.Edit.Replace.{path_eq→eq, write_refused, write_done}

-- Strictly or not below the workspace, by segments that name entries.
abbrev pub IsBelow : FilePath → FilePath → Type 0
IsBelow base p = (rest : FilePath) × (p ≡ base ++ rest) × All IsName rest

-- Every file is as it was or lies below the workspace.
abbrev pub IsConfined : FilePath → Disk → Disk → Type 0
IsConfined base d d' = (q : FilePath) → (d'.content q ≡ d.content q) ⊎ IsBelow base q

unchanged : (base : FilePath) (d : Disk) → IsConfined base d d
unchanged base d q = inl refl

-- No symbolic link in the workspace leads out of it.
abbrev pub StaysInside : FilePath → Disk → Type 0
StaysInside base d = (p : FilePath) → IsBelow base p → IsBelow base (d.real p)

pub write-IsConfined :
    (base p : FilePath) (t : Text) (d : Disk)
    → IsBelow base (d.real p)
    → IsConfined base d (write p t d).1
write-IsConfined base p t d b q = elim (Bool-cases (d.refuses_write p)) [
  | inl e ↦ rw (write_refused p t d e) (inl refl)
  | inr e ↦ rw (write_done p t d e) (elim (Bool-cases (path_eq (d.real p) q)) [
    | inl f ↦ inr (subst (IsBelow base) (path_eq→eq (d.real p) q f) b)
    | inr f ↦ rw f (inl refl)
  ])
]

pub joined-IsBelow :
    (base : FilePath) (rel : Text) (p : FilePath)
    → All IsName base
    → safe_join (some base) rel ≡ ok p
    → IsBelow base p
joined-IsBelow base rel p n e = rw e at (safe_join-Joined base rel n)

with_times-disk : (times : ℕ) (r : Result ToolError FilePath × Disk) → (with_times times r).1 ≡ r.1
with_times-disk times (ok p, d) = refl
with_times-disk times (err e, d) = refl

replace_in-IsConfined :
    (base p : FilePath) (old new : Text) (allow : Bool) (t : Text) (d : Disk)
    → IsBelow base (d.real p)
    → IsConfined base d (replace_in old new allow p t d).1
unfolding replace_in
replace_in-IsConfined base p old new allow t d b q =
    elim (Bool-cases (count_matches old 0 t == 0)) [
      | inl e ↦ rw e (inl refl)
      | inr e ↦ elim (Bool-cases (ltb 1 (count_matches old 0 t) && not allow)) [
        | inl f ↦ rw (e, f) (inl refl)
        | inr f ↦
            let after = write p (replacen old new (if allow then usize_max else 1) 0 t) d in
            rw (e, f, with_times-disk (count_matches old 0 t) after)
              (write-IsConfined base p (replacen old new (if allow then usize_max else 1) 0 t) d b
                q)
      ]
    ]

write_file-IsConfined :
    (base : FilePath) (rel text : Text) (d : Disk)
    → d.base ≡ some base
    → All IsName base
    → StaysInside base d
    → IsConfined base d (write_file rel text d).1
unfolding write_file
write_file-IsConfined base rel text d same n links q =
    elim (Result-cases (safe_join (some base) rel)) [
      | inr (j, e) ↦ rw (write_file, same, e) (inl refl)
      | inl (p, e) ↦ elim (Bool-cases (dir_refused p d)) [
        | inl f ↦ rw (write_file, same, e, f) (inl refl)
        | inr f ↦
            rw (write_file, same, e, f)
              (write-IsConfined base p text d (links p (joined-IsBelow base rel p n e)) q)
      ]
    ]

str_replace_tool-IsConfined :
    (base : FilePath) (rel old new : Text) (allow : Bool) (d : Disk)
    → d.base ≡ some base
    → All IsName base
    → StaysInside base d
    → IsConfined base d (str_replace_tool rel old new allow d).1
unfolding str_replace_tool
str_replace_tool-IsConfined base rel old new allow d same n links q =
    elim (Bool-cases (is_empty old)) [
      | inl f ↦ rw f (inl refl)
      | inr f ↦ elim (Result-cases (safe_join (some base) rel)) [
        | inr (j, e) ↦ rw (f, same, e) (inl refl)
        | inl (p, e) ↦ elim (Result-cases (read p d)) [
          | inr (x, g) ↦ rw (f, same, e, g) (inl refl)
          | inl (t, g) ↦
              rw (f, same, e, g)
                (replace_in-IsConfined base p old new allow t d
                  (links p (joined-IsBelow base rel p n e)) q)
        ]
      ]
    ]

-- Both of the tools that edit one file.
pub edit_tools-IsConfined :
    (base : FilePath) (rel text old new : Text) (allow : Bool) (d : Disk)
    → d.base ≡ some base
    → All IsName base
    → StaysInside base d
    → IsConfined base d (write_file rel text d).1
      × IsConfined base d (str_replace_tool rel old new allow d).1
edit_tools-IsConfined base rel text old new allow d same n links = (
  write_file-IsConfined base rel text d same n links,
  str_replace_tool-IsConfined base rel old new allow d same n links,
)
