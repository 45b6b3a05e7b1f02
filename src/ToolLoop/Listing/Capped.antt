-- ===== src/ToolLoop/Listing/Capped.antt =====
-- What `tree` prints, against the whole tree without a bound.
use ashat_coding_agent.Base.{
  ℕ, zero, suc, ◌+◌, ◌≡◌, refl, ap, sym, inl, inr, Bool, true, false, Bool-cases, Option, some,
  List, [], ◌∷◌, ◌++◌, take, length, leb, min, arith, if◌then◌else◌,
}
use ashat_coding_agent.Base.Text.{Text}
use ashat_coding_agent.Base.Result.{ok}
use ashat_coding_agent.ToolLoop.{FilePath}
use ashat_coding_agent.ToolLoop.Listing.{
  Entries, Node, directory, Shown, visible, comes_before, sort_by, Listing, max_lines, push_line,
  is_last, entry_line, child_prefix, children, tree_recurse, root_name, target_of, truncated_line,
  tree_at, tree,
}

-- The lines of a directory to a depth, in order, each directory followed by what it holds.
abbrev pub lines_of :
    (below : Text → Entries → List Text) → (prefix : Text) → List Shown → List Text
lines_of below prefix [] = []
lines_of below prefix (e ∷ es) =
    entry_line prefix (is_last es) e
    ∷ ((if e.is_dir then below (child_prefix prefix (is_last es)) e.below else [])
        ++ lines_of below prefix es)

abbrev pub whole : (depth : ℕ) → (prefix : Text) → Entries → List Text
whole zero prefix es = []
whole (suc depth) prefix es = lines_of (whole depth) prefix (sort_by comes_before (visible es))

-- The lines that still fit are pushed.
abbrev push_lines : List Text → Listing → Listing
push_lines [] st = st
push_lines (l ∷ ls) st =
    let rest = push_lines ls (push_line l st) in if leb max_lines st.line_count then st else rest

full : (ls : List Text) (st : Listing) → leb max_lines st.line_count ≡ true → push_lines ls st ≡ st
full [] st h = refl
full (l ∷ ls) st h = rw h refl

push_lines-append :
    (xs ys : List Text) (st : Listing) → push_lines (xs ++ ys) st ≡ push_lines ys (push_lines xs st)
push_lines-append [] ys st = refl
push_lines-append (x ∷ xs) ys st = elim (Bool-cases (leb max_lines st.line_count)) [
  | inl h ↦ rw h (sym (full ys st h))
  | inr h ↦ rw h (push_lines-append xs ys (push_line x st))
]

module _ (descend : Text → Entries → Listing → Listing) (below : Text → Entries → List Text)
    (same : (p : Text) (es : Entries) (st : Listing)
      → descend p es st ≡ push_lines (below p es) st) where
  descend_if :
      (dir : Bool) (p : Text) (es : Entries) (st : Listing)
      → (if dir then descend p es st else st) ≡ push_lines (if dir then below p es else []) st
  descend_if true p es st = same p es st
  descend_if false p es st = refl

  children_lem :
      (p : Text) (es : List Shown) (st : Listing)
      → children descend p es st ≡ push_lines (lines_of below p es) st
  unfolding children
  children_lem p [] st = refl
  children_lem p (e ∷ es) st = elim (Bool-cases (leb max_lines st.line_count)) [
    | inl h ↦ rw h refl
    | inr h ↦
        let pushed = push_line (entry_line p (is_last es) e) st in
        let held = if e.is_dir then below (child_prefix p (is_last es)) e.below else [] in
        rw
          (
            h,
            descend_if e.is_dir (child_prefix p (is_last es)) e.below pushed,
            push_lines-append held (lines_of below p es) pushed,
          )
          (children_lem p es (push_lines held pushed))
  ]

tree_recurse_lem :
    (depth : ℕ) (p : Text) (es : Entries) (st : Listing)
    → tree_recurse depth p es st ≡ push_lines (whole depth p es) st
unfolding tree_recurse
tree_recurse_lem zero p es st = refl
tree_recurse_lem (suc depth) p es st = elim (Bool-cases (leb max_lines st.line_count)) [
  | inl h ↦ rw h (sym (full (whole (suc depth) p es) st h))
  | inr h ↦ rw h (
      children_lem (tree_recurse depth) (whole depth) (tree_recurse_lem depth) p
        (sort_by comes_before (visible es)) st)
]

append_one : (xs : List Text) (l : Text) (ls : List Text) → (xs ++ l ∷ []) ++ ls ≡ xs ++ l ∷ ls
append_one [] l ls = refl
append_one (x ∷ xs) l ls = ap (λ r. x ∷ r) (append_one xs l ls)

append_nil : (xs : List Text) → xs ++ [] ≡ xs
append_nil [] = refl
append_nil (x ∷ xs) = ap (λ r. x ∷ r) (append_nil xs)

at_cap : (count : ℕ) → count + 0 ≡ max_lines → leb max_lines count ≡ true
at_cap count h = ground arith

below_cap : (count left : ℕ) → count + suc left ≡ max_lines → leb max_lines count ≡ false
below_cap count left h = ground arith

-- `left` lines still fit.
push_lines-out :
    (ls : List Text) (left : ℕ) (st : Listing)
    → st.line_count + left ≡ max_lines
    → (push_lines ls st).out ≡ st.out ++ take left ls
push_lines-out [] zero st h = sym (append_nil st.out)
push_lines-out [] (suc left) st h = sym (append_nil st.out)
push_lines-out (l ∷ ls) zero st h = rw (at_cap st.line_count h) (sym (append_nil st.out))
push_lines-out (l ∷ ls) (suc left) st h =
    rw (below_cap st.line_count left h, push_lines-out ls left (push_line l st) (omega arith))
      (append_one st.out l (take left ls))

push_lines-count :
    (ls : List Text) (left : ℕ) (st : Listing)
    → st.line_count + left ≡ max_lines
    → (push_lines ls st).line_count ≡ st.line_count + min left (length ls)
push_lines-count [] left st h = omega arith
push_lines-count (l ∷ ls) zero st h = rw (at_cap st.line_count h) (omega arith)
push_lines-count (l ∷ ls) (suc left) st h =
    rw (below_cap st.line_count left h, push_lines-count ls left (push_line l st) (omega arith))
      (omega arith)

-- The first 500 lines, and the mark where there are 500 or more.
abbrev pub cap : List Text → List Text
cap ls = take max_lines ls ++ (if leb max_lines (length ls) then truncated_line ∷ [] else [])

marked :
    (b : Bool) (out : List Text)
    → (if b then out ++ truncated_line ∷ [] else out)
      ≡ out ++ (if b then truncated_line ∷ [] else [])
marked true out = refl
marked false out = sym (append_nil out)

full_count : (count n : ℕ) → count ≡ 1 + min 499 n → leb max_lines count ≡ leb max_lines (suc n)
full_count count n h = ground arith

-- For a directory in the workspace, `tree` prints its name and the lines of everything below it to
-- the given depth, in order, up to 500 lines in total, and then a mark of truncation exactly if
-- these lines are 500 or more.
pub tree-cap :
    (look : FilePath → Option Node) (dir : FilePath) (base : Option FilePath) (sub : Text)
    (depth : ℕ) (target : FilePath) (es : Entries)
    → target_of dir base sub ≡ ok target
    → look target ≡ some (directory es)
    → tree look dir base sub depth ≡ ok (cap (root_name target ∷ whole depth [] es))
unfolding tree tree_at
tree-cap look dir base sub depth target es e l =
    let root : Listing = record { out = root_name target ∷ []; line_count = 1 } in
    let ls = whole depth [] es in
    rw
      (
        e,
        l,
        tree_recurse_lem depth [] es root,
        full_count (push_lines ls root).line_count (length ls) (push_lines-count ls 499 root refl),
        push_lines-out ls 499 root refl,
        marked (leb max_lines (suc (length ls))) (root_name target ∷ take 499 ls),
      )
      refl
