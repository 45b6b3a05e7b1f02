-- ===== src/ToolLoop/Patch/Apply.antt =====
-- How a hunk changes the lines of a file.
use ashat_coding_agent.Base.{
  ℕ, zero, suc, ◌+◌, ◌^◌, ◌<◌, ◌≤◌, min, ◌≡◌, true, List, ◌++◌, length, drop,
}
use ashat_coding_agent.Base.Int.{ℤ, pos, negsuc}
use ashat_coding_agent.Base.Text.{Text}
use ashat_coding_agent.ToolLoop.Patch.{Change, fits}

-- What `parse::<i64>()` yields.
abbrev pub IsI64 : ℤ → Type 0
IsI64 (pos n) = n < 2 ^ 63
IsI64 (negsuc n) = n < 2 ^ 63

-- The changed lines start at the line that the header names, counted from 1.
abbrev pub IsPlaced : ℤ → Change → List Text → List Text → Type 0
IsPlaced new_start c lines out =
    (before : List Text) × (after : List Text) × (lines ≡ before ++ (c.removals ++ after))
    × (out ≡ before ++ (c.additions ++ after))
    × (new_start ≡ pos (suc (length before)))

-- A place at or up to 50 lines above the line that the header names, or above the end of the file,
-- where that comes first or the header names no line.
abbrev pub IsNear : ℤ → (size place : ℕ) → Type 0
IsNear (pos (suc n)) size place = (place ≤ min n size) × (min n size ≤ place + 50)
IsNear (pos zero) size place = (place ≤ size) × (size ≤ place + 50)
IsNear (negsuc n) size place = (place ≤ size) × (size ≤ place + 50)

-- The changed lines with their context and what stands around it.
abbrev pub IsAnchored : ℤ → Change → List Text → List Text → Type 0
IsAnchored new_start c lines out =
    (before : List Text) × (after : List Text) × (lines
      ≡ before ++ (c.ctx_before ++ (c.removals ++ (c.ctx_after ++ after))))
    × (out ≡ before ++ (c.ctx_before ++ (c.additions ++ (c.ctx_after ++ after))))
    × IsNear new_start (length lines) (length before)

module _ (c : Change) (lines : List Text) (a : ℕ) (found : fits c lines a ≡ true) where
  abbrev rest : List Text
  rest = drop (length c.ctx_after) (drop (a + length c.ctx_before + length c.removals) lines)
