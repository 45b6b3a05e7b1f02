-- ===== src/ToolLoop/Patch.antt =====
-- `apply_patch` of crates/omega-core/src/tool_loop.rs: the hunks of one file of a unified diff, and
-- how each is applied to the file's lines.
pub mod Apply
pub mod Collect
pub mod Files
pub mod Confined
pub mod Ends
pub mod Tests
use ashat_coding_agent.Base.{
  ℕ, zero, suc, ◌+◌, ◌-◌, ◌*◌, ◌^◌, min, Bool, true, false, ◌&&◌, ◌||◌, Option, none, some, List,
  [], ◌∷◌, ◌++◌, leb, ltb, ◌==◌, if◌then◌else◌, length, take, drop,
}
use ashat_coding_agent.Base.Int.{ℤ, pos, negsuc, ltb_ℤ}
use ashat_coding_agent.Base.Text.{Text, codes, text_eq, strip_prefix}
use ashat_coding_agent.Base.Result.{Result, ok, err}
use ashat_coding_agent.ToolLoop.{is_whitespace}

pub record Hunk : Type 0 where
  pub new_start : ℤ
  pub lines : List Text

abbrev has_prefix : Text → Text → Bool
has_prefix p l = elim (strip_prefix p l) [ none ↦ false | some _ ↦ true ]

abbrev pub is_hunk_header : Text → Bool
is_hunk_header = has_prefix (codes "@@ ")

abbrev pub is_diff_header : Text → Bool
is_diff_header = has_prefix (codes "diff ")

abbrev pub is_old_header : Text → Bool
is_old_header = has_prefix (codes "--- ")

-- `parse::<i64>()` of text without a leading `+`.
abbrev digits : ℕ → Text → Option ℕ
digits n [] = some n
digits n (c ∷ s) =
    let rest = digits (10 * n + (c - 48)) s in if leb 48 c && leb c 57 then rest else none

abbrev negated : ℕ → ℤ
negated zero = pos 0
negated (suc n) = negsuc n

unfoldable pub parse_i64 : Text → Option ℤ
parse_i64 [] = none
parse_i64 (c ∷ s) =
    if c == 45
    then elim s [
      | [] ↦ none
      | d ∷ ds ↦ elim (digits 0 (d ∷ ds)) [
        | none ↦ none
        | some n ↦ if leb n (2 ^ 63) then some (negated n) else none
      ]
    ]
    else elim (digits 0 (c ∷ s)) [
      | none ↦ none
      | some n ↦ if ltb n (2 ^ 63) then some (pos n) else none
    ]

-- The text before the first ` @@`.
abbrev before_mark : Text → Text
before_mark [] = []
before_mark (c ∷ s) = if has_prefix (codes " @@") (c ∷ s) then [] else c ∷ before_mark s

-- `split_whitespace().nth(1)`: the word under way, and whether one is complete.
abbrev second_word : (inside first_done : Bool) → Text → Text → Option Text
second_word inside true word [] = if inside then some word else none
second_word inside false word [] = none
second_word inside first_done word (c ∷ s) = elim (is_whitespace c) [
  | false ↦ second_word true first_done (word ++ c ∷ []) s
  | true ↦ elim inside [
    | false ↦ second_word false first_done [] s
    | true ↦ elim first_done [ true ↦ some word | false ↦ second_word false true [] s ]
  ]
]

abbrev trim_plus : Text → Text
trim_plus [] = []
trim_plus (c ∷ s) = if c == 43 then trim_plus s else c ∷ s

abbrev or_else {ℓ} : {A : Type ℓ} → A → Option A → A
or_else d none = d
or_else d (some a) = a

-- The start of the new lines, from the rest of the header behind its `@@ `.
unfoldable pub parse_start : Text → ℤ
parse_start header =
    let nums = before_mark (or_else [] (strip_prefix (codes "@@ ") header)) in
    or_else (pos 1) (parse_i64 (trim_plus (or_else (codes "+1") (second_word false false [] nums))))

-- The two nested loops that collect the hunks of a file: outside of a hunk, or inside of one whose
-- lines so far are given. The line that ends a hunk is consumed. The lines left over come second.
unfoldable pub collect : Option Hunk → List Text → List Hunk × List Text
collect none [] = ([], [])
collect (some h) [] = (h ∷ [], [])
collect none (l ∷ ls) = elim (is_hunk_header l) [
  | true ↦ collect (some (record { new_start = parse_start l; lines = [] })) ls
  | false ↦ elim (is_diff_header l || is_old_header l) [
    | true ↦ ([], l ∷ ls)
    | false ↦ collect none ls
  ]
]
collect (some h) (l ∷ ls) = elim (is_hunk_header l || is_diff_header l) [
  | true ↦ let ended = collect none ls in (h ∷ ended.0, ended.1)
  | false ↦ collect (some (record h { lines = h.lines ++ l ∷ [] })) ls
]

-- The lines of a hunk by their first character.
pub record Change : Type 0 where
  pub seen_minus_plus : Bool
  pub ctx_before : List Text
  pub removals : List Text
  pub additions : List Text
  pub ctx_after : List Text

unfoldable pub classify : Text → Change → Change
classify [] c = c
classify (k ∷ rest) c =
    if k == 45
    then record c { seen_minus_plus = true; removals = c.removals ++ rest ∷ [] }
    else if k == 43
    then record c { seen_minus_plus = true; additions = c.additions ++ rest ∷ [] }
    else if k == 32
    then (if c.seen_minus_plus
        then record c { ctx_after = c.ctx_after ++ rest ∷ [] }
        else record c { ctx_before = c.ctx_before ++ rest ∷ [] })
    else c

unfoldable pub classify_all : List Text → Change → Change
classify_all [] c = c
classify_all (l ∷ ls) c = classify_all ls (classify l c)

abbrev pub no_change : Change
no_change = record {
  seen_minus_plus = false;
  ctx_before = [];
  removals = [];
  additions = [];
  ctx_after = [];
}

-- `(new_start - 1) as usize` on a 64-bit machine.
unfoldable pub line_index : ℤ → ℕ
line_index (pos zero) = 2 ^ 64 - 1
line_index (pos (suc n)) = n
line_index (negsuc n) = 2 ^ 64 - 2 - n

-- The lines start with the given ones.
abbrev pub lines_start : List Text → List Text → Bool
lines_start [] ls = true
lines_start (p ∷ ps) [] = false
lines_start (p ∷ ps) (l ∷ ls) = text_eq l p && lines_start ps ls

-- Context, removals and context are found at a line.
unfoldable pub fits : Change → List Text → ℕ → Bool
fits c lines candidate =
    leb (candidate + (length c.ctx_before + length c.removals + length c.ctx_after)) (length lines)
    && (lines_start c.ctx_before (drop candidate lines)
        && (lines_start c.removals (drop (candidate + length c.ctx_before) lines)
            && lines_start c.ctx_after
                (drop (candidate + length c.ctx_before + length c.removals) lines)))

-- The search goes up from a line, `offsets` lines at most.
unfoldable pub search : Change → List Text → (offsets candidate : ℕ) → Option ℕ
search c lines zero candidate = if fits c lines candidate then some candidate else none
search c lines (suc k) candidate =
    let further = search c lines k (candidate - 1) in
    if fits c lines candidate then some candidate else further

pub data PatchError : Type 0 where
  context_not_found past_end mismatch : PatchError

abbrev pub anchor : ℤ → Change → List Text → Option ℕ
anchor new_start c lines =
    if length c.ctx_before == 0
    then some (line_index new_start)
    else let from = min (line_index new_start) (length lines) in search c lines (min from 50) from

-- The lines behind a hunk whose changes start at a line; `none` is the panic of an index that is
-- not a `usize`.
unfoldable pub splice : Change → ℕ → List Text → Option (Result PatchError (List Text))
splice c at lines =
    let end = at + length c.removals in
    if leb (2 ^ 64) end
    then none
    else if ltb (length lines) end
    then some (err past_end)
    else if lines_start c.removals (drop at lines)
    then some (ok (take at lines ++ c.additions ++ drop end lines))
    else some (err mismatch)

unfoldable pub apply_change : ℤ → Change → List Text → Option (Result PatchError (List Text))
apply_change new_start c lines = elim (anchor new_start c lines) [
  | none ↦ some (err context_not_found)
  | some a ↦ splice c (a + length c.ctx_before) lines
]

unfoldable pub apply_hunk : Hunk → List Text → Option (Result PatchError (List Text))
apply_hunk h = apply_change h.new_start (classify_all h.lines no_change)

-- `sort_by(|a, b| b.0.cmp(&a.0))`: stable, the last hunk first.
unfoldable pub insert_hunk : Hunk → List Hunk → List Hunk
insert_hunk h [] = h ∷ []
insert_hunk h (g ∷ gs) =
    let rest = insert_hunk h gs in if ltb_ℤ h.new_start g.new_start then g ∷ rest else h ∷ g ∷ gs

unfoldable pub sort_hunks : List Hunk → List Hunk
sort_hunks [] = []
sort_hunks (h ∷ hs) = insert_hunk h (sort_hunks hs)

unfoldable pub apply_sorted : List Hunk → List Text → Option (Result PatchError (List Text))
apply_sorted [] lines = some (ok lines)
apply_sorted (h ∷ hs) lines = elim (apply_hunk h lines) [
  | none ↦ none
  | some (err e) ↦ some (err e)
  | some (ok after) ↦ apply_sorted hs after
]

-- The lines of an existing file behind all hunks of its section.
unfoldable pub apply_hunks : List Hunk → List Text → Option (Result PatchError (List Text))
apply_hunks hs = apply_sorted (sort_hunks hs)
