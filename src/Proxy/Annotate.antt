-- ===== src/Proxy/Annotate.antt =====
-- `annotate_event` of crates/omega-core/src/proxy.rs: the `"lane"` member that is put into the JSON
-- payload of an event. The UTF-8 check, the JSON parser and the printer are arguments.
pub mod Reading
pub mod Tests
use ashat_coding_agent.Base.{
  ℕ, suc, ◌+◌, ◌≤◌, ◌≡◌, ◌≢◌, refl, ap, ◌∙◌, sym, ◌⊎◌, ◌↔◌, inl, inr, Bool, true, false, ◌||◌,
  Option, none, some, List, [], ◌∷◌, ◌++◌, arith, ◌==◌, if◌then◌else◌, length, All, Bool-cases,
  Option-cases,
}
use ashat_coding_agent.Base.Text.{Text, codes, text_eq, strip_prefix, strip_prefix_iff}
use mathlib.Core.List.{append_assoc}
use ashat_coding_agent.Json.{Value, string, with_member}
use ashat_coding_agent.Proxy.{Bytes}

abbrev pub under {ℓ} : {A : Type ℓ} → ℕ → Option (Bytes × A) → Option (Bytes × A)
under c none = none
under c (some (before, rest)) = some (c ∷ before, rest)

-- `find`, with the text cut at the first occurrence.
unfoldable pub find : Bytes → Bytes → Option (Bytes × Bytes)
find p [] = none
find p (c ∷ s) =
    let later = find p s in
    elim (strip_prefix p (c ∷ s)) [ some rest ↦ some ([], rest) | none ↦ under c later ]

abbrev pub under_line : ℕ → Bytes × Bytes → Bytes × Bytes
under_line c (line, rest) = (c ∷ line, rest)

-- The line up to the next `\n`, and the text from there.
unfoldable pub next_line : Bytes → Bytes × Bytes
next_line [] = ([], [])
next_line (c ∷ s) = let later = next_line s in if c == 10 then ([], c ∷ s) else under_line c later

abbrev pub is_break : ℕ → Bool
is_break c = (c == 10) || (c == 13)

abbrev trimmed : ℕ → Bytes → Bytes
trimmed c [] = if is_break c then [] else c ∷ []
trimmed c (d ∷ s) = c ∷ d ∷ s

-- `trim_end_matches`
unfoldable pub trim_end : Bytes → Bytes
trim_end [] = []
trim_end (c ∷ s) = trimmed c (trim_end s)

abbrev pub prefix : Bytes
prefix = codes "data: "

abbrev pub with_line : Option (Bytes × Bytes) → Option (Bytes × Bytes × Bytes)
with_line none = none
with_line (some (before, rest)) = let (line, tail) = next_line rest in some (before, line, tail)

-- What stands before the first `data: `, the line behind it, and what follows.
unfoldable pub parts : Bytes → Option (Bytes × Bytes × Bytes)
unfolding find next_line
parts e = with_line (find prefix e)

abbrev pub with_lane : Text → Value → Value
with_lane lane v = with_member (codes "lane") (string lane) v

module _ (is_utf8 : Bytes → Bool) (from_str : Bytes → Option Value) (to_string : Value → Bytes)
    (lane : Text) where
  -- The event's bytes, its parts, and what its payload parses to.
  abbrev pub rebuilt : Bytes → Bytes → Bytes → Option Value → Bytes
  rebuilt e before tail none = e
  rebuilt e before tail (some v) = before ++ (prefix ++ (to_string (with_lane lane v) ++ tail))

  abbrev pub annotate_parts : Bytes → Option (Bytes × Bytes × Bytes) → Bytes
  annotate_parts e none = e
  annotate_parts e (some (before, line, tail)) =
      let payload = trim_end line in
      if text_eq payload (codes "[DONE]") then e else rebuilt e before tail (from_str payload)

  unfoldable pub annotate_event : Bytes → Bytes
  unfolding parts trim_end
  annotate_event e = if is_utf8 e then annotate_parts e (parts e) else e
