-- ===== src/ToolLoop/Programs/Matches.antt =====
-- What `code_search` answers, against the lines that `rg` printed.
use ashat_coding_agent.Base.{
  ℕ, zero, suc, ◌+◌, ◌≡◌, refl, ap, sym, inl, inr, true, false, Option, none, some, Option-cases,
  List, [], ◌∷◌, ◌++◌, take, length, length-append, leb, arith, if◌then◌else◌,
}
use ashat_coding_agent.Base.Text.{Text}
use ashat_coding_agent.ToolLoop.Programs.{gather, search_answer, printed, searched, doubled}

abbrev prepend : Option Text → List Text → List Text
prepend none ms = ms
prepend (some m) ms = m ∷ ms

-- The matches among the lines.
abbrev pub matches : (Text → Option Text) → List Text → List Text
matches match [] = []
matches match (l ∷ ls) = prepend (match l) (matches match ls)

append_one : (xs : List Text) (m : Text) (ms : List Text) → (xs ++ m ∷ []) ++ ms ≡ xs ++ m ∷ ms
append_one [] m ms = refl
append_one (x ∷ xs) m ms = ap (λ r. x ∷ r) (append_one xs m ms)

append_nil : (xs : List Text) → xs ++ [] ≡ xs
append_nil [] = refl
append_nil (x ∷ xs) = ap (λ r. x ∷ r) (append_nil xs)

short : (n max left : ℕ) → n + suc left ≡ max → leb max n ≡ false
short n max left h = ground arith

module _ (match : Text → Option Text) (max : ℕ) where
  pushed_last :
      (rs : List Text) (m : Text) → length rs + 1 ≡ max → leb max (length (rs ++ m ∷ [])) ≡ true
  pushed_last rs m h = ground (arith, length-append rs (m ∷ []))

  matches-cons :
      (l : Text) (ls : List Text) → matches match (l ∷ ls) ≡ prepend (match l) (matches match ls)
  matches-cons l ls = refl

  -- One match is pushed, and the loop goes on if there is room.
  push_lem :
      (ls rs : List Text) (m : Text) (left : ℕ)
      → length rs + suc left ≡ max
      → ((k : ℕ)
          → length (rs ++ m ∷ []) + suc k ≡ max
          → gather match max ls (rs ++ m ∷ []) ≡ (rs ++ m ∷ []) ++ take (suc k) (matches match ls))
      → (if leb max (length (rs ++ m ∷ []))
          then rs ++ m ∷ []
          else gather match max ls (rs ++ m ∷ []))
        ≡ rs ++ m ∷ take left (matches match ls)
  push_lem ls rs m zero h rest = rw (pushed_last rs m h) refl
  push_lem ls rs m (suc k) h rest =
      let room : length (rs ++ m ∷ []) + suc k ≡ max = omega (arith, length-append rs (m ∷ [])) in
      rw (short (length (rs ++ m ∷ [])) max k room, rest k room)
        (append_one rs m (take (suc k) (matches match ls)))

  gather_lem :
      (ls rs : List Text) (left : ℕ)
      → length rs + suc left ≡ max
      → gather match max ls rs ≡ rs ++ take (suc left) (matches match ls)
  unfolding gather
  gather_lem [] rs left h = sym (append_nil rs)
  gather_lem (l ∷ ls) rs left h = elim (Option-cases (match l)) [
    | inl e ↦ rw (matches-cons l ls, e, short (length rs) max left h) (gather_lem ls rs left h)
    | inr (m, e) ↦
        rw (matches-cons l ls, e) (push_lem ls rs m left h (λ k. gather_lem ls (rs ++ m ∷ []) k))
  ]

gather_all :
    (match : Text → Option Text) (max : ℕ) (ls : List Text)
    → gather match max (take (doubled max) ls) [] ≡ take max (matches match (take (doubled max) ls))
unfolding gather
gather_all match zero ls = refl
gather_all match (suc max) ls =
    gather_lem match (suc max) (take (doubled (suc max)) ls) [] max (omega arith)

-- A search that `rg` has printed lines for shows, in order, the first `max` matches among the first
-- `2 * max` lines (the product taken modulo 2^64), which also count the lines that are not matches.
pub searched-matches :
    (match : Text → Option Text) (max : ℕ) (stdout : List Text) (stderr : Text)
    → searched match max (printed stdout stderr)
      ≡ search_answer max stdout stderr (take max (matches match (take (doubled max) stdout)))
unfolding searched
searched-matches match max stdout stderr = rw (gather_all match max stdout) refl
