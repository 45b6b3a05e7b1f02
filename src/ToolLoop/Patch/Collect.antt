-- ===== src/ToolLoop/Patch/Collect.antt =====
-- Which hunks are collected from the lines of one file.
use ashat_coding_agent.Base.Int.{pos}
use ashat_coding_agent.Base.{
  ℕ, arith, Option, ◌+◌, ◌-◌, ◌*◌, In, inl, inr, ◌≡◌, refl, ap, sym, ◌∙◌, true, false, ◌||◌, none,
  some, List, [], ◌∷◌, ◌++◌, All,
}
use mathlib.Core.List.{append_assoc, append-nil}
use ashat_coding_agent.Base.Text.{Text, codes, strip_prefix}
use ashat_coding_agent.ToolLoop.Patch.{
  Hunk, is_hunk_header, is_diff_header, is_old_header, parse_start, parse_i64, digits, trim_plus,
  second_word, before_mark, or_else, collect,
}

-- A line that opens neither a hunk nor a file of a `diff` command.
abbrev pub IsBody : Text → Type 0
IsBody l = (is_hunk_header l || is_diff_header l) ≡ false

-- A line that the search for the next hunk passes over.
abbrev pub IsPassed : Text → Type 0
IsPassed l = (is_hunk_header l ≡ false) × ((is_diff_header l || is_old_header l) ≡ false)

abbrev pub hunk_of : Text → List Text → Hunk
hunk_of header body = record { new_start = parse_start header; lines = body }

collect-inside :
    (h : Hunk) (body rest : List Text)
    → All IsBody body
    → collect (some h) (body ++ rest) ≡ collect (some (record h { lines = h.lines ++ body })) rest
unfolding collect
collect-inside h [] rest a =
    ap (λ t. collect (some (record h { lines = t })) rest) (sym (append-nil h.lines))
collect-inside h (l ∷ body) rest a = rw a.0 (
    collect-inside (record h { lines = h.lines ++ l ∷ [] }) body rest a.1
    ∙ ap (λ t. collect (some (record h { lines = t })) rest) (append_assoc h.lines (l ∷ []) body))

collect-passed : (body : List Text) → All IsPassed body → collect none body ≡ ([], [])
unfolding collect
collect-passed [] a = refl
collect-passed (l ∷ body) a = rw (a.0.0, a.0.1) (collect-passed body a.1)

-- The lines of a single hunk are collected whole, with the start that its header names.
collect_single :
    (header : Text) (body : List Text)
    → is_hunk_header header ≡ true
    → All IsBody body
    → collect none (header ∷ body) ≡ (hunk_of header body ∷ [], [])
unfolding collect
collect_single header body h a = rw h (
    ap (λ t. collect (some (hunk_of header [])) t) (sym (append-nil body))
    ∙ collect-inside (hunk_of header []) body [] a)

-- If a file's section has two hunks, and no body line starts like a header, then the header that
-- ends the first hunk is consumed and the second hunk is dropped with all its lines.
pub collect_two :
    (first second : Text) (body lost : List Text)
    → is_hunk_header first ≡ true
    → is_hunk_header second ≡ true
    → All IsBody body
    → All IsPassed lost
    → collect none (first ∷ body ++ second ∷ lost) ≡ (hunk_of first body ∷ [], [])
unfolding collect
collect_two first second body lost f s a b = rw f (
    collect-inside (hunk_of first []) body (second ∷ lost) a
    ∙ rw (collect, s, collect-passed lost b) refl)

digits-comma : (n : ℕ) (s : Text) → In 44 s → digits n s ≡ none
digits-comma n [] m = elim m [ ]
digits-comma n (c ∷ s) (inl e) = ground (arith, e)
digits-comma n (c ∷ s) (inr m) = ground (arith, digits-comma (10 * n + (c - 48)) s m)

parse_i64-comma : (s : Text) → In 44 s → parse_i64 s ≡ none
unfolding parse_i64
parse_i64-comma [] m = elim m [ ]
parse_i64-comma (c ∷ []) m = ground (arith, digits-comma 0 (c ∷ []) m, m)
parse_i64-comma (c ∷ d ∷ ds) (inl e) = ground (arith, digits-comma 0 (c ∷ d ∷ ds) (inl e), e)
parse_i64-comma (c ∷ d ∷ ds) (inr m) =
    ground (arith, digits-comma 0 (c ∷ d ∷ ds) (inr m), digits-comma 0 (d ∷ ds) m)

trim_plus-comma : (s : Text) → In 44 s → In 44 (trim_plus s)
trim_plus-comma [] m = m
trim_plus-comma (c ∷ s) (inl e) = ground (arith, e)
trim_plus-comma (c ∷ s) (inr m) = ground (arith, trim_plus-comma s m)

-- The second word between the marks of a hunk header, which holds the new range.
abbrev pub new_range : Text → Option Text
new_range header =
    second_word false false [] (before_mark (or_else [] (strip_prefix (codes "@@ ") header)))

-- If the new range of a header has a comma, as in `+9,2`, then its start is read as 1.
pub parse_start-comma :
    (header range : Text) → new_range header ≡ some range → In 44 range → parse_start header ≡ pos 1
unfolding parse_start
parse_start-comma header range e m =
    rw (e, parse_i64-comma (trim_plus range) (trim_plus-comma range m)) refl
