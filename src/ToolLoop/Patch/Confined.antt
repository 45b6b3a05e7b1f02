-- ===== src/ToolLoop/Patch/Confined.antt =====
-- Which files `apply_patch` can change.
use ashat_coding_agent.Base.{
  ℕ, zero, suc, ◌≡◌, refl, ◌∙◌, subst, inl, inr, Bool, Bool-cases, Option, none, some, List, [],
  ◌∷◌, ◌++◌, length, All,
}
use ashat_coding_agent.Base.Text.{Text, text_eq}
use ashat_coding_agent.Base.Result.{Result, ok, err, Result-cases}
use ashat_coding_agent.ToolLoop.{FilePath, safe_join, is_blank}
use ashat_coding_agent.ToolLoop.Paths.{IsName}
use ashat_coding_agent.ToolLoop.Edit.{
  Disk, ToolError, path_eq, write, read, dir_refused, write_file, str_replace_tool,
}
use ashat_coding_agent.ToolLoop.Edit.Replace.{write_refused, write_done, path_eq→eq}
use ashat_coding_agent.ToolLoop.Edit.Confined.{
  IsBelow, IsConfined, StaysInside, write-IsConfined, joined-IsBelow, edit_tools-IsConfined,
}
use ashat_coding_agent.ToolLoop.Patch.{Hunk, PatchError, apply_hunks, collect}
use ashat_coding_agent.ToolLoop.Patch.Files.{
  FileError, Files, is_file, deleted, unlinked, remove, Done, delete_at, delete_file, reported,
  created_text, create_at, create_file, new_text, rewrite_with, modify_at, modify_file, str_lines,
  Section, find_header, headed, dev_null, apply_section, left_over, after_section, headed_section,
  next_section, apply_sections, or_no_hunks, apply_patch,
}

module _ (base : FilePath) (names : All IsName base) where
  -- The workspace is where it should be, and no link leads out of it.
  abbrev IsHome : Files → Type 0
  IsHome d = (d.disk.base ≡ some base) × StaysInside base d.disk

  -- The workspace stays what it is, and all files outside of it stay as they are.
  abbrev Stays : Files → Files → Type 0
  Stays d d' = IsHome d' × IsConfined base d.disk d'.disk

  unmoved : (d : Files) → IsHome d → Stays d d
  unmoved d e = (e, λ q. inl refl)

  Stays-trans : (d e f : Files) → Stays d e → Stays e f → Stays d f
  Stays-trans d e f (_, h) (b, g) = (
    b,
    λ q. elim (g q) [
      | inr below ↦ inr below
      | inl same ↦ elim (h q) [ inr below ↦ inr below | inl before ↦ inl (same ∙ before) ]
    ],
  )

  write-base : (p : FilePath) (t : Text) (d : Disk) → (write p t d).1.base ≡ d.base
  write-base p t d = elim (Bool-cases (d.refuses_write p)) [
    | inl e ↦ rw (write_refused p t d e) refl
    | inr e ↦ rw (write_done p t d e) refl
  ]

  write-real : (p : FilePath) (t : Text) (d : Disk) → (write p t d).1.real ≡ d.real
  write-real p t d = elim (Bool-cases (d.refuses_write p)) [
    | inl e ↦ rw (write_refused p t d e) refl
    | inr e ↦ rw (write_done p t d e) refl
  ]

  reported-disk :
      (line : Text) (d : Files) (r : Result ToolError FilePath × Disk)
      → (reported line d r).1.disk ≡ r.1
  reported-disk line d (ok p, after) = refl
  reported-disk line d (err e, after) = refl

  written-Stays :
      (line : Text) (p : FilePath) (t : Text) (d : Files)
      → IsHome d
      → IsBelow base p
      → Stays d (reported line d (write p t d.disk)).1
  written-Stays line p t d e b = rw (reported-disk line d (write p t d.disk)) (
    (write-base p t d.disk ∙ e.0, λ q below. rw (write-real p t d.disk) (e.1 q below)),
    write-IsConfined base p t d.disk (e.1 p b),
  )

  deleted-Stays : (p : FilePath) (d : Files) → IsHome d → IsBelow base p → Stays d (deleted p d)
  deleted-Stays p d e b = (
    e,
    λ q. elim (Bool-cases (path_eq p q)) [
      | inl f ↦ inr (subst (IsBelow base) (path_eq→eq p q f) b)
      | inr f ↦ rw f (inl refl)
    ],
  )

  unlinked-Stays : (p : FilePath) (d : Files) → IsHome d → IsBelow base p → Stays d (unlinked p d)
  unlinked-Stays p d e b = (
    (
      e.0,
      λ q below. elim (Bool-cases (path_eq p q)) [ inl f ↦ rw f b | inr f ↦ rw f (e.1 q below) ],
    ),
    λ q. inl refl,
  )

  removed-Stays : (p : FilePath) (d : Files) → IsHome d → IsBelow base p → Stays d (remove p d)
  removed-Stays p d e b = elim (Bool-cases (d.is_link p)) [
    | inl f ↦ rw f (unlinked-Stays p d e b)
    | inr f ↦ rw f (deleted-Stays (d.disk.real p) d e (e.1 p b))
  ]

  delete_at-Stays :
      (refuses : FilePath → Bool) (old : Text) (p : FilePath) (d : Files)
      → IsHome d
      → IsBelow base p
      → Stays d (delete_at refuses old p d).1
  delete_at-Stays refuses old p d e b = elim (Bool-cases (is_file p d)) [
    | inr f ↦ rw f (unmoved d e)
    | inl f ↦ elim (Bool-cases (refuses p)) [
      | inl g ↦ rw (f, g) (unmoved d e)
      | inr g ↦ rw (f, g) (removed-Stays p d e b)
    ]
  ]

  create_at-Stays :
      (new : Text) (hs : List Hunk) (p : FilePath) (d : Files)
      → IsHome d
      → IsBelow base p
      → Stays d (create_at new hs p d).1
  create_at-Stays new hs p d e b = elim (Bool-cases (dir_refused p d.disk)) [
    | inl f ↦ rw f (unmoved d e)
    | inr f ↦ rw f (written-Stays _ p (created_text hs) d e b)
  ]

  rewrite_with-Stays :
      (new : Text) (p : FilePath) (original : Text) (r : Option (Result PatchError (List Text)))
      (d : Files)
      → IsHome d
      → IsBelow base p
      → Stays d (rewrite_with new p original r d).1
  rewrite_with-Stays new p original none d e b = unmoved d e
  rewrite_with-Stays new p original (some (err x)) d e b = unmoved d e
  rewrite_with-Stays new p original (some (ok lines)) d e b =
      written-Stays _ p (new_text original lines) d e b

  modify_at-Stays :
      (new : Text) (hs : List Hunk) (p : FilePath) (d : Files)
      → IsHome d
      → IsBelow base p
      → Stays d (modify_at new hs p d).1
  modify_at-Stays new hs p d e b = elim (Result-cases (read p d.disk)) [
    | inr (x, f) ↦ rw (modify_at, f) (unmoved d e)
    | inl (original, f) ↦
        rw (modify_at, f)
          (rewrite_with-Stays new p original (apply_hunks hs (str_lines original)) d e b)
  ]

  delete_file-Stays :
      (refuses : FilePath → Bool) (old : Text) (d : Files)
      → IsHome d
      → Stays d (delete_file refuses old d).1
  delete_file-Stays refuses old d e = elim (Result-cases (safe_join (some base) old)) [
    | inr (x, f) ↦ rw (delete_file, e.0, f) (unmoved d e)
    | inl (p, f) ↦
        rw (delete_file, e.0, f)
          (delete_at-Stays refuses old p d e (joined-IsBelow base old p names f))
  ]

  create_file-Stays :
      (new : Text) (hs : List Hunk) (d : Files) → IsHome d → Stays d (create_file new hs d).1
  create_file-Stays new hs d e = elim (Result-cases (safe_join (some base) new)) [
    | inr (x, f) ↦ rw (create_file, e.0, f) (unmoved d e)
    | inl (p, f) ↦
        rw (create_file, e.0, f) (create_at-Stays new hs p d e (joined-IsBelow base new p names f))
  ]

  modify_file-Stays :
      (new : Text) (hs : List Hunk) (d : Files) → IsHome d → Stays d (modify_file new hs d).1
  modify_file-Stays new hs d e = elim (Result-cases (safe_join (some base) new)) [
    | inr (x, f) ↦ rw (modify_file, e.0, f) (unmoved d e)
    | inl (p, f) ↦
        rw (modify_file, e.0, f) (modify_at-Stays new hs p d e (joined-IsBelow base new p names f))
  ]

  apply_section-Stays :
      (refuses : FilePath → Bool) (s : Section) (d : Files)
      → IsHome d
      → Stays d (apply_section refuses s d).1
  apply_section-Stays refuses s d e = elim (Bool-cases (text_eq s.new_path dev_null)) [
    | inl f ↦ rw f (delete_file-Stays refuses s.old_path d e)
    | inr f ↦ elim (Bool-cases (text_eq s.old_path dev_null)) [
      | inl g ↦ rw (f, g) (create_file-Stays s.new_path (collect none s.rest).0 d e)
      | inr g ↦ rw (f, g) (modify_file-Stays s.new_path (collect none s.rest).0 d e)
    ]
  ]

  module _ (continue : List Text → List Text → Files → Done)
      (kept : (ls out : List Text) (d : Files) → IsHome d → Stays d (continue ls out d).1) where
    after_section-Stays :
        (d : Files) (ls out : List Text) (r : Done)
        → Stays d r.1
        → Stays d (after_section continue ls out r).1
    after_section-Stays d ls out (err x, after) h = h
    after_section-Stays d ls out (ok more, after) h =
        Stays-trans d after (continue ls (out ++ more) after).1 h (kept ls (out ++ more) after h.0)

    headed_section-Stays :
        (refuses : FilePath → Bool) (r : Result FileError Section) (out : List Text) (d : Files)
        → IsHome d
        → Stays d (headed_section refuses continue r out d).1
    headed_section-Stays refuses (err x) out d e = unmoved d e
    headed_section-Stays refuses (ok s) out d e =
        after_section-Stays d (left_over s) out (apply_section refuses s d)
          (apply_section-Stays refuses s d e)

    next_section-Stays :
        (refuses : FilePath → Bool) (found : Option (Text × List Text)) (out : List Text)
        (d : Files)
        → IsHome d
        → Stays d (next_section refuses continue found out d).1
    next_section-Stays refuses none out d e = unmoved d e
    next_section-Stays refuses (some found) out d e =
        headed_section-Stays refuses (headed found) out d e

  apply_sections-Stays :
      (refuses : FilePath → Bool) (fuel : ℕ) (ls out : List Text) (d : Files)
      → IsHome d
      → Stays d (apply_sections refuses fuel ls out d).1
  unfolding apply_sections
  apply_sections-Stays refuses zero ls out d e = unmoved d e
  apply_sections-Stays refuses (suc fuel) ls out d e =
      next_section-Stays (apply_sections refuses fuel) (apply_sections-Stays refuses fuel) refuses
        (find_header ls) out d e

or_no_hunks-disk : (r : Done) → (or_no_hunks r).1 ≡ r.1
or_no_hunks-disk (ok [], d) = refl
or_no_hunks-disk (ok (l ∷ ls), d) = refl
or_no_hunks-disk (err e, d) = refl

apply_patch-IsConfined :
    (base : FilePath) (refuses : FilePath → Bool) (diff : Text) (d : Files)
    → d.disk.base ≡ some base
    → All IsName base
    → StaysInside base d.disk
    → IsConfined base d.disk (apply_patch refuses diff d).1.disk
unfolding apply_patch
apply_patch-IsConfined base refuses diff d e names links q = elim (Bool-cases (is_blank diff)) [
  | inl f ↦ rw f (inl refl)
  | inr f ↦
      let ls = str_lines diff in
      let r = apply_sections refuses (suc (length ls)) ls [] d in
      rw (f, or_no_hunks-disk r)
        ((apply_sections-Stays base names refuses (suc (length ls)) ls [] d (e, links)).1 q)
]

-- The file tools `write_file`, `str_replace` and `apply_patch`, from a workspace at a canonical
-- path with no symbolic link in it that leads out: whatever path, content, strings and diff they are given, and whatever they answer, every
-- file outside the workspace is as it was.
pub file_tools-IsConfined :
    (base : FilePath) (rel text old new diff : Text) (allow : Bool) (refuses : FilePath → Bool)
    (d : Files)
    → d.disk.base ≡ some base
    → All IsName base
    → StaysInside base d.disk
    → IsConfined base d.disk (write_file rel text d.disk).1
      × IsConfined base d.disk (str_replace_tool rel old new allow d.disk).1
      × IsConfined base d.disk (apply_patch refuses diff d).1.disk
file_tools-IsConfined base rel text old new diff allow refuses d e names links =
    let edited = edit_tools-IsConfined base rel text old new allow d.disk e names links in
    (edited.0, edited.1, apply_patch-IsConfined base refuses diff d e names links)
