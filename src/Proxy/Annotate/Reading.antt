-- ===== src/Proxy/Annotate/Reading.antt =====
-- What a client reads from an annotated event: the value that the lane sent, with the lane put in.
use ashat_coding_agent.Base.{
  ℕ, ◌≤◌, ◌≡◌, refl, ap, ◌∙◌, sym, ◌⊎◌, inl, inr, Bool, true, false, Option, none, some, [], ◌∷◌,
  ◌++◌, arith, if◌then◌else◌, length, length-append, subst, All, Bool-cases, Option-cases,
}
use ashat_coding_agent.Base.Text.{Text, codes, text_eq, text_eq_iff, strip_prefix, strip_prefix_iff}
use mathlib.Core.List.{append_assoc}
use ashat_coding_agent.Json.{Value}
use ashat_coding_agent.Proxy.{Bytes}
use ashat_coding_agent.Proxy.Annotate.{
  find, under, with_line, next_line, is_break, trim_end, prefix, parts, with_lane, annotate_parts,
  annotate_event,
}

-- Whether a text starts with the prefix is decided by as many bytes as the prefix has.
strip_prefix-none :
    (p x r r' : Bytes)
    → length p ≤ length x
    → strip_prefix p (x ++ r) ≡ none
    → strip_prefix p (x ++ r') ≡ none
strip_prefix-none [] x r r' l e = cc
strip_prefix-none (q ∷ p) [] r r' l e = absurd (omega arith)
strip_prefix-none (q ∷ p) (c ∷ x) r r' l e = ground (arith, strip_prefix-none p x r r')

strip_prefix-append : (p r : Bytes) → strip_prefix p (p ++ r) ≡ some r
strip_prefix-append p r = (strip_prefix_iff p (p ++ r) r).1 refl

under-some :
    (c : ℕ) (o : Option (Bytes × Bytes)) (before rest : Bytes)
    → under c o ≡ some (before, rest)
    → (b : Bytes) × (o ≡ some (b, rest)) × (before ≡ c ∷ b)
under-some c none before rest e = cc
under-some c (some (b, r)) before rest e = (b, cc, cc)

-- One step of `find`: the prefix stands here, or it is found behind this byte.
find-step :
    (p s : Bytes) (c : ℕ) (before rest : Bytes)
    → find p (c ∷ s) ≡ some (before, rest)
    → ((before ≡ []) × (strip_prefix p (c ∷ s) ≡ some rest))
      ⊎ ((b : Bytes) × (find p s ≡ some (b, rest))
          × (before ≡ c ∷ b)
          × (strip_prefix p (c ∷ s) ≡ none))
unfolding find
find-step p s c before rest e = elim (Option-cases (strip_prefix p (c ∷ s))) [
  | inl away ↦
      let (b, found, same) = under-some c (find p s) before rest (rw (away, find) at e) in
      inr (b, found, same, away)
  | inr (r, here) ↦ inl (ground (arith, here), ground (arith, here))
]

find-append : (p s before rest : Bytes) → find p s ≡ some (before, rest) → s ≡ before ++ (p ++ rest)
find-append p [] before rest e = unfold find in cc
find-append p (c ∷ s) before rest e = elim (find-step p s c before rest e) [
  | inl (empty, here) ↦ rw empty ((strip_prefix_iff p (c ∷ s) rest).0 here)
  | inr (b, found, same, _) ↦ rw same (ap (λ (t : Bytes). c ∷ t) (find-append p s b rest found))
]

find_here :
    (p s : Bytes) (c : ℕ) (rest : Bytes)
    → strip_prefix p (c ∷ s) ≡ some rest
    → find p (c ∷ s) ≡ some ([], rest)
unfolding find
find_here p s c rest e = rw (e, find) refl

find_later :
    (p s : Bytes) (c : ℕ) (before rest : Bytes)
    → strip_prefix p (c ∷ s) ≡ none
    → find p s ≡ some (before, rest)
    → find p (c ∷ s) ≡ some (c ∷ before, rest)
unfolding find
find_later p s c before rest e later = rw (e, find) (ap (under c) later)

-- A text that does not start with the prefix does not start with it when the text behind a later
-- copy of the prefix changes.
away_again :
    (p b s rest rest' : Bytes) (c : ℕ)
    → s ≡ b ++ (p ++ rest)
    → strip_prefix p (c ∷ s) ≡ none
    → strip_prefix p (c ∷ (b ++ (p ++ rest'))) ≡ none
away_again p b s rest rest' c e away =
    subst (λ (t : Bytes). strip_prefix p (c ∷ t) ≡ none) (append_assoc b p rest')
      (strip_prefix-none p (c ∷ (b ++ p)) rest rest' (omega (arith, length-append b p)) (
        subst (λ (t : Bytes). strip_prefix p (c ∷ t) ≡ none) (e ∙ sym (append_assoc b p rest))
          away))

-- The same place is found again when the text behind it changes.
find-again :
    (q : ℕ) (p s before rest rest' : Bytes)
    → find (q ∷ p) s ≡ some (before, rest)
    → find (q ∷ p) (before ++ ((q ∷ p) ++ rest')) ≡ some (before, rest')
find-again q p [] before rest rest' e = unfold find in cc
find-again q p (c ∷ s) before rest rest' e = elim (find-step (q ∷ p) s c before rest e) [
  | inl (empty, here) ↦
      rw empty (find_here (q ∷ p) (p ++ rest') q rest' (strip_prefix-append (q ∷ p) rest'))
  | inr (b, found, same, away) ↦ rw same (
      find_later (q ∷ p) (b ++ ((q ∷ p) ++ rest')) c b rest'
        (away_again (q ∷ p) b s rest rest' c (find-append (q ∷ p) s b rest found) away)
        (find-again q p s b rest rest' found))
]

next_line-stops : (s : Bytes) → next_line (next_line s).1 ≡ ([], (next_line s).1)
unfolding next_line
next_line-stops [] = refl
next_line-stops (c ∷ s) = ground (arith, next_line-stops s)

next_line-append :
    (line tail : Bytes)
    → All (λ c. is_break c ≡ false) line
    → next_line tail ≡ ([], tail)
    → next_line (line ++ tail) ≡ (line, tail)
unfolding next_line
next_line-append [] tail clean stop = stop
next_line-append (c ∷ line) tail clean stop =
    ground (arith, next_line-append line tail clean.1 stop)

trim_end-clean : (s : Bytes) → All (λ c. is_break c ≡ false) s → trim_end s ≡ s
unfolding trim_end
trim_end-clean [] clean = refl
trim_end-clean (c ∷ []) clean = ground arith
trim_end-clean (c ∷ d ∷ s) clean = rw (trim_end-clean (d ∷ s) clean.1)

with_line-some :
    (o : Option (Bytes × Bytes)) (before line tail : Bytes)
    → with_line o ≡ some (before, line, tail)
    → (rest : Bytes) × (o ≡ some (before, rest)) × (next_line rest ≡ (line, tail))
with_line-some none before line tail e = cc
with_line-some (some (b, r)) before line tail e = (r, cc, cc)

-- Another line in the place of this one is read back.
parts-again :
    (e before line tail line' : Bytes)
    → parts e ≡ some (before, line, tail)
    → All (λ c. is_break c ≡ false) line'
    → parts (before ++ (prefix ++ (line' ++ tail))) ≡ some (before, line', tail)
parts-again e before line tail line' found clean =
    let (rest, at, cut) = with_line-some (find prefix e) before line tail (unfold parts in found) in
    let stop : next_line tail ≡ ([], tail) =
      subst (λ (p : Bytes × Bytes). next_line p.1 ≡ ([], p.1)) cut (next_line-stops rest) in
    unfold parts in
    rw (find-again 100 (codes "ata: ") e before rest (line' ++ tail) at)
      (ap (λ (p : Bytes × Bytes). some (before, p.0, p.1)) (next_line-append line' tail clean stop))

-- The payload of an event, and its value.
abbrev payload_of : Option (Bytes × Bytes × Bytes) → Option Bytes
payload_of none = none
payload_of (some (before, line, tail)) = some (trim_end line)

abbrev pub payload : Bytes → Option Bytes
payload e = payload_of (parts e)

abbrev parsed : (Bytes → Option Value) → Option Bytes → Option Value
parsed from_str none = none
parsed from_str (some p) = from_str p

abbrev pub value_of : (Bytes → Option Value) → Bytes → Option Value
value_of from_str e = parsed from_str (payload e)

-- The values that the event `e` and the event `a` in its place show a client.
abbrev pub IsAnnotated : (Bytes → Option Value) → Text → Bytes → Bytes → Type 0
IsAnnotated from_str lane e a =
    (v : Value) × (before : Bytes) × (line : Bytes) × (line' : Bytes) × (tail : Bytes) × (value_of
        from_str e
      ≡ some v)
    × (value_of from_str a ≡ some (with_lane lane v))
    × (e ≡ before ++ (prefix ++ (line ++ tail)))
    × (a ≡ before ++ (prefix ++ (line' ++ tail)))

abbrev pub IsExempt : (Bytes → Bool) → (Bytes → Option Value) → Bytes → Type 0
IsExempt is_utf8 from_str e =
    (is_utf8 e ≡ false) ⊎ ((payload e ≡ some (codes "[DONE]")) ⊎ (value_of from_str e ≡ none))

next_line-joins : (s : Bytes) → (next_line s).0 ++ (next_line s).1 ≡ s
unfolding next_line
next_line-joins [] = refl
next_line-joins (c ∷ s) = ground (arith, next_line-joins s)

parts-joins :
    (e before line tail : Bytes)
    → parts e ≡ some (before, line, tail)
    → e ≡ before ++ (prefix ++ (line ++ tail))
parts-joins e before line tail found =
    let (rest, at, cut) = with_line-some (find prefix e) before line tail (unfold parts in found) in
    find-append prefix e before rest at
    ∙ ap (λ (r : Bytes). before ++ (prefix ++ r))
        (sym (next_line-joins rest) ∙ ap (λ (p : Bytes × Bytes). p.0 ++ p.1) cut)

module _ (is_utf8 : Bytes → Bool) (from_str : Bytes → Option Value) (to_string : Value → Bytes)
    (lane : Text) (prints : (v : Value) → All (λ c. is_break c ≡ false) (to_string v))
    (back : (t : Bytes) (v : Value)
      → from_str t ≡ some v
      → from_str (to_string (with_lane lane v)) ≡ some (with_lane lane v)) where
  abbrev pub annotated : Bytes → Bytes
  annotated = annotate_event is_utf8 from_str to_string lane

  value_again :
      (e before line tail line' : Bytes) (v : Value)
      → parts e ≡ some (before, line, tail)
      → All (λ c. is_break c ≡ false) line'
      → from_str line' ≡ some v
      → value_of from_str (before ++ (prefix ++ (line' ++ tail))) ≡ some v
  value_again e before line tail line' v found clean reads =
      ap (λ (o : Option (Bytes × Bytes × Bytes)). parsed from_str (payload_of o))
        (parts-again e before line tail line' found clean)
      ∙ (ap from_str (trim_end-clean line' clean) ∙ reads)

  rebuilt-IsAnnotated :
      (e before line tail : Bytes) (v : Value)
      → parts e ≡ some (before, line, tail)
      → from_str (trim_end line) ≡ some v
      → IsAnnotated from_str lane e (before ++ (prefix ++ (to_string (with_lane lane v) ++ tail)))
  rebuilt-IsAnnotated e before line tail v found reads = (
    v,
    before,
    line,
    to_string (with_lane lane v),
    tail,
    ap (λ (o : Option (Bytes × Bytes × Bytes)). parsed from_str (payload_of o)) found ∙ reads,
    value_again e before line tail (to_string (with_lane lane v)) (with_lane lane v) found
        (prints (with_lane lane v)) (back (trim_end line) v reads),
    parts-joins e before line tail found,
    refl,
  )

  abbrev Outcome : Bytes → Bytes → Type 0
  Outcome e a = (IsExempt is_utf8 from_str e × (a ≡ e)) ⊎ IsAnnotated from_str lane e a

  abbrev annotated_parts : Bytes → Option (Bytes × Bytes × Bytes) → Bytes
  annotated_parts = annotate_parts is_utf8 from_str to_string lane

  parts-Outcome :
      (e : Bytes) (o : Option (Bytes × Bytes × Bytes))
      → parts e ≡ o
      → Outcome e (annotated_parts e o)
  parts-Outcome e none found = inl (
    inr (inr (ap (λ (o : Option (Bytes × Bytes × Bytes)). parsed from_str (payload_of o)) found)),
    refl,
  )
  parts-Outcome e (some (b, l, t)) found =
      elim (Bool-cases (text_eq (trim_end l) (codes "[DONE]"))) [
        | inl done ↦ inl (
          inr (
              inl (
                ap payload_of found
                ∙ ap some ((text_eq_iff (trim_end l) (codes "[DONE]")).0 done))),
          rw done refl,
        )
        | inr more ↦ elim (Option-cases (from_str (trim_end l))) [
          | inl bad ↦ inl (
            inr (
                inr (
                  ap (λ (o : Option (Bytes × Bytes × Bytes)). parsed from_str (payload_of o)) found
                  ∙ bad)),
            rw (more, bad) refl,
          )
          | inr (v, reads) ↦ inr (rw (more, reads) (rebuilt-IsAnnotated e b l t v found reads))
        ]
      ]

  checked-Outcome :
      (e : Bytes) (text : Bool)
      → is_utf8 e ≡ text
      → Outcome e (if text then annotated_parts e (parts e) else e)
  checked-Outcome e true valid = parts-Outcome e (parts e) refl
  checked-Outcome e false invalid = inl (inl invalid, refl)

  -- If the printer writes no line break, and what it writes for a parsed value with the lane put in
  -- is parsed back to that value, then an annotated event shows a client the value that the lane
  -- sent with the lane put in (if it is an object), and differs from the lane's event in its first
  -- `data: ` line only. Any other event is handed on as it came: it is not UTF-8, has no such line
  -- or no JSON in it, or is the end mark of a stream.
  pub annotate_event-reads :
      (e : Bytes)
      → (IsExempt is_utf8 from_str e × (annotated e ≡ e))
        ⊎ IsAnnotated from_str lane e (annotated e)
  unfolding annotate_event
  annotate_event-reads e = checked-Outcome e (is_utf8 e) refl
