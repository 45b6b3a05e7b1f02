-- ===== src/ToolLoop/Patch/Ends.antt =====
-- The fuel of `apply_patch` is never used up: every file of a diff takes lines off it.
use ashat_coding_agent.Base.{
  ℕ, zero, suc, ◌≤◌, ◌<◌, ◌≡◌, ◌≢◌, refl, inl, inr, Bool, true, false, Bool-cases, Option, none,
  some, Option-cases, List, [], ◌∷◌, ◌++◌, length, arith, ◌||◌,
}
use ashat_coding_agent.Base.Text.{Text, text_eq, codes, strip_prefix}
use ashat_coding_agent.Base.Result.{Result, ok, err, Result-cases}
use ashat_coding_agent.ToolLoop.{FilePath, safe_join, is_blank}
use ashat_coding_agent.ToolLoop.Edit.{Disk, ToolError, write, read, dir_refused}
use ashat_coding_agent.ToolLoop.Patch.{
  Hunk, PatchError, is_hunk_header, is_diff_header, is_old_header, apply_hunks, collect,
}
use ashat_coding_agent.ToolLoop.Patch.Files.{
  FileError, no_fuel, Files, is_file, Done, delete_at, delete_file, reported, created_text,
  create_at, create_file, new_text, rewrite_with, modify_at, modify_file, str_lines, Section,
  find_header, skip_to_hunk, section_of, headed, dev_null, apply_section, left_over, after_section,
  headed_section, apply_sections, or_no_hunks, apply_patch,
}

abbrev is_other : FileError → Bool
is_other no_fuel = false
is_other _ = true

-- Whether a result is another one than the missing fuel.
abbrev has_ended : Done → Bool
has_ended (ok out, d) = true
has_ended (err e, d) = is_other e

delete_at-ends :
    (refuses : FilePath → Bool) (old : Text) (p : FilePath) (d : Files)
    → has_ended (delete_at refuses old p d) ≡ true
delete_at-ends refuses old p d = elim (Bool-cases (is_file p d)) [
  | inr f ↦ rw f refl
  | inl f ↦ elim (Bool-cases (refuses p)) [ inl g ↦ rw (f, g) refl | inr g ↦ rw (f, g) refl ]
]

reported-ends :
    (line : Text) (d : Files) (r : Result ToolError FilePath × Disk)
    → has_ended (reported line d r) ≡ true
reported-ends line d (ok p, after) = refl
reported-ends line d (err e, after) = refl

create_at-ends :
    (new : Text) (hs : List Hunk) (p : FilePath) (d : Files)
    → has_ended (create_at new hs p d) ≡ true
create_at-ends new hs p d = elim (Bool-cases (dir_refused p d.disk)) [
  | inl f ↦ rw f refl
  | inr f ↦ rw f (reported-ends _ d (write p (created_text hs) d.disk))
]

rewrite_with-ends :
    (new : Text) (p : FilePath) (original : Text) (r : Option (Result PatchError (List Text)))
    (d : Files)
    → has_ended (rewrite_with new p original r d) ≡ true
rewrite_with-ends new p original none d = refl
rewrite_with-ends new p original (some (err x)) d = refl
rewrite_with-ends new p original (some (ok lines)) d =
    reported-ends _ d (write p (new_text original lines) d.disk)

modify_at-ends :
    (new : Text) (hs : List Hunk) (p : FilePath) (d : Files)
    → has_ended (modify_at new hs p d) ≡ true
modify_at-ends new hs p d = elim (Result-cases (read p d.disk)) [
  | inr (x, f) ↦ rw (modify_at, f) refl
  | inl (original, f) ↦
      rw (modify_at, f) (rewrite_with-ends new p original (apply_hunks hs (str_lines original)) d)
]

delete_file-ends :
    (refuses : FilePath → Bool) (old : Text) (d : Files)
    → has_ended (delete_file refuses old d) ≡ true
delete_file-ends refuses old d = elim (Result-cases (safe_join d.disk.base old)) [
  | inr (x, f) ↦ rw (delete_file, f) refl
  | inl (p, f) ↦ rw (delete_file, f) (delete_at-ends refuses old p d)
]

create_file-ends :
    (new : Text) (hs : List Hunk) (d : Files) → has_ended (create_file new hs d) ≡ true
create_file-ends new hs d = elim (Result-cases (safe_join d.disk.base new)) [
  | inr (x, f) ↦ rw (create_file, f) refl
  | inl (p, f) ↦ rw (create_file, f) (create_at-ends new hs p d)
]

modify_file-ends :
    (new : Text) (hs : List Hunk) (d : Files) → has_ended (modify_file new hs d) ≡ true
modify_file-ends new hs d = elim (Result-cases (safe_join d.disk.base new)) [
  | inr (x, f) ↦ rw (modify_file, f) refl
  | inl (p, f) ↦ rw (modify_file, f) (modify_at-ends new hs p d)
]

apply_section-ends :
    (refuses : FilePath → Bool) (s : Section) (d : Files)
    → has_ended (apply_section refuses s d) ≡ true
apply_section-ends refuses s d = elim (Bool-cases (text_eq s.new_path dev_null)) [
  | inl f ↦ rw f (delete_file-ends refuses s.old_path d)
  | inr f ↦ elim (Bool-cases (text_eq s.old_path dev_null)) [
    | inl g ↦ rw (f, g) (create_file-ends s.new_path (collect none s.rest).0 d)
    | inr g ↦ rw (f, g) (modify_file-ends s.new_path (collect none s.rest).0 d)
  ]
]

skip_to_hunk-length : (ls : List Text) → length (skip_to_hunk ls) ≤ length ls
skip_to_hunk-length [] = omega arith
skip_to_hunk-length (l ∷ ls) = elim (Bool-cases (is_hunk_header l)) [
  | inl f ↦ rw f (omega arith)
  | inr f ↦ rw f (omega (arith, skip_to_hunk-length ls))
]

collect-length : (o : Option Hunk) (ls : List Text) → length (collect o ls).1 ≤ length ls
unfolding collect
collect-length none [] = omega arith
collect-length (some h) [] = omega arith
collect-length none (l ∷ ls) = elim (Bool-cases (is_hunk_header l)) [
  | inl f ↦ rw f (omega (arith, collect-length (some _) ls))
  | inr f ↦ elim (Bool-cases (is_diff_header l || is_old_header l)) [
    | inl g ↦ rw (f, g) (omega arith)
    | inr g ↦ rw (f, g) (omega (arith, collect-length none ls))
  ]
]
collect-length (some h) (l ∷ ls) = elim (Bool-cases (is_hunk_header l || is_diff_header l)) [
  | inl f ↦ rw f (omega (arith, collect-length none ls))
  | inr f ↦ rw f (omega (arith, collect-length (some _) ls))
]

left_over-length : (s : Section) → length (left_over s) ≤ length s.rest
left_over-length s = elim (Bool-cases (text_eq s.new_path dev_null)) [
  | inl f ↦ rw f (omega arith)
  | inr f ↦ rw f (collect-length none s.rest)
]

-- At most `n` lines are left behind the headers.
abbrev Shorter : ℕ → Result FileError Section → Type 0
Shorter n (err e) = is_other e ≡ true
Shorter n (ok s) = length s.rest ≤ n

section_of-Shorter :
    (header from_line : Text) (ls : List Text)
    → Shorter (length ls) (section_of header from_line ls)
section_of-Shorter header from_line ls =
    elim (Option-cases (strip_prefix (codes "+++ ") from_line)) [
      | inl e ↦ rw (section_of, e) refl
      | inr (r, e) ↦ rw (section_of, e) (skip_to_hunk-length ls)
    ]

headed-Shorter : (header : Text) (ls : List Text) → Shorter (length ls) (headed (header, ls))
headed-Shorter header [] = section_of-Shorter header [] []
headed-Shorter header (l ∷ ls) =
    longer (length ls) (section_of header l ls) (section_of-Shorter header l ls)
  where
    longer : (n : ℕ) (r : Result FileError Section) → Shorter n r → Shorter (suc n) r
    longer n (err e) h = h
    longer n (ok s) h = omega arith

find_header-length :
    (ls : List Text) (header : Text) (rest : List Text)
    → find_header ls ≡ some (header, rest)
    → length rest < length ls
find_header-length [] header rest e = ground (arith, e)
find_header-length (l ∷ ls) header rest e = elim (Bool-cases (is_old_header l)) [
  | inl f ↦ let g = rw (find_header, f) at e in ground (arith, g)
  | inr f ↦ let g = rw (find_header, f) at e in omega (arith, find_header-length ls header rest g)
]

module _ (continue : List Text → List Text → Files → Done) (n : ℕ)
    (ends : (ls out : List Text) (d : Files)
      → length ls ≤ n
      → has_ended (continue ls out d) ≡ true) where
  after_section-ends :
      (ls out : List Text) (r : Done)
      → length ls ≤ n
      → has_ended r ≡ true
      → has_ended (after_section continue ls out r) ≡ true
  after_section-ends ls out (err e, d) h g = g
  after_section-ends ls out (ok more, d) h g = ends ls (out ++ more) d h

  headed_section-ends :
      (refuses : FilePath → Bool) (r : Result FileError Section) (out : List Text) (d : Files)
      → Shorter n r
      → has_ended (headed_section refuses continue r out d) ≡ true
  headed_section-ends refuses (err e) out d h = h
  headed_section-ends refuses (ok s) out d h =
      after_section-ends (left_over s) out (apply_section refuses s d)
        (omega (arith, left_over-length s)) (apply_section-ends refuses s d)

weaken : (m n : ℕ) (r : Result FileError Section) → m ≤ n → Shorter m r → Shorter n r
weaken m n (err e) h g = g
weaken m n (ok s) h g = omega arith

none_below : (n : ℕ) → n < 0 → ⊥
none_below n h = omega arith

apply_sections-ends :
    (refuses : FilePath → Bool) (fuel : ℕ) (ls out : List Text) (d : Files)
    → length ls < fuel
    → has_ended (apply_sections refuses fuel ls out d) ≡ true
unfolding apply_sections
apply_sections-ends refuses zero ls out d h = absurd (none_below (length ls) h)
apply_sections-ends refuses (suc fuel) ls out d h = elim (Option-cases (find_header ls)) [
  | inl e ↦ rw e refl
  | inr ((header, rest), e) ↦ rw e (
      headed_section-ends (apply_sections refuses fuel) (length rest)
        (λ ms more after g.
          apply_sections-ends refuses fuel ms more after
            (omega (arith, find_header-length ls header rest e)))
        refuses (headed (header, rest)) out d (headed-Shorter header rest))
]

or_no_hunks-ends : (r : Done) → has_ended r ≡ true → has_ended (or_no_hunks r) ≡ true
or_no_hunks-ends (ok [], d) h = refl
or_no_hunks-ends (ok (l ∷ ls), d) h = refl
or_no_hunks-ends (err e, d) h = h

ended_lem : (r : Done) → has_ended r ≡ true → r.0 ≢ err no_fuel
ended_lem (ok out, d) h e = ground (arith, e)
ended_lem (err x, d) h e = ground (arith, e, h)

-- `apply_patch` comes to its end on every diff: the fuel, one more than the lines of the diff, is
-- enough, so that its answer is never the lack of fuel.
pub apply_patch-ends :
    (refuses : FilePath → Bool) (diff : Text) (d : Files)
    → (apply_patch refuses diff d).0 ≢ err no_fuel
unfolding apply_patch
apply_patch-ends refuses diff d = elim (Bool-cases (is_blank diff)) [
  | inl f ↦ rw f (λ e. ground (arith, e))
  | inr f ↦
      let ls = str_lines diff in
      let r = apply_sections refuses (suc (length ls)) ls [] d in
      rw f (
        ended_lem (or_no_hunks r) (
          or_no_hunks-ends r (apply_sections-ends refuses (suc (length ls)) ls [] d (omega arith))))
]
