-- ===== src/ToolLoop/Edit/Replace.antt =====
-- What `str_replace` of crates/omega-core/src/tool_loop.rs does to the text and to the disk.
use ashat_coding_agent.Base.{
  ℕ, zero, suc, ◌-◌, ◌≤◌, ◌<◌, ◌≡◌, refl, ◌≢◌, subst, ap, sym, ◌∙◌, Option-cases, Bool-cases, some,
  List, [], ◌∷◌, ◌++◌, arith, ==_iff, length, drop, ◌⊎◌, inl, inr, Bool, true, false, ◌==◌, ltb,
  not, ◌&&◌, if◌then◌else◌,
}
use ashat_coding_agent.Base.Text.{Text, strip_prefix, text_eq_iff, strip_prefix_iff}
use ashat_coding_agent.Base.Result.{Result, ok, err}
use ashat_coding_agent.ToolLoop.{FilePath}
use ashat_coding_agent.ToolLoop.Edit.{
  path_eq, Disk, ToolError, write_failed, old_string_not_found, old_string_ambiguous, write,
  count_matches, replacen, replace_in, usize_max,
}

-- Pieces with a separator between them.
abbrev pub join : Text → Text → List Text → Text
join sep first [] = first
join sep first (p ∷ ps) = first ++ sep ++ join sep p ps

-- The pieces of `s` between the occurrences of `old`, which the new text has between those of `new`.
abbrev pub IsSwap : (old new s t : Text) → ℕ → Type 0
IsSwap old new s t times =
    (first : Text) × (rest : List Text) × (s ≡ join old first rest)
    × (t ≡ join new first rest)
    × (length rest ≡ times)

drop-append : (xs ys : Text) → drop (length xs) (xs ++ ys) ≡ ys
drop-append [] ys = refl
drop-append (x ∷ xs) ys = drop-append xs ys

cons-join :
    (c : ℕ) (sep first : Text) (rest : List Text)
    → c ∷ join sep first rest ≡ join sep (c ∷ first) rest
cons-join c sep first [] = refl
cons-join c sep first (p ∷ ps) = refl

kept_head :
    (c : ℕ) (old new s t : Text) (times : ℕ)
    → IsSwap old new s t times
    → IsSwap old new (c ∷ s) (c ∷ t) times
kept_head c old new s t times (first, rest, p, q, l) = (
  c ∷ first,
  rest,
  ap (λ u. c ∷ u) p ∙ cons-join c old first rest,
  ap (λ u. c ∷ u) q ∙ cons-join c new first rest,
  l,
)

swapped_head :
    (old new s t : Text) (times : ℕ)
    → IsSwap old new s t times
    → IsSwap old new (old ++ s) (new ++ t) (suc times)
swapped_head old new s t times (first, rest, p, q, l) =
    ([], first ∷ rest, ap (λ u. old ++ u) p, ap (λ u. new ++ u) q, ap suc l)

module _ (o : ℕ) (os new : Text) where
  -- What is left to pass over of an occurrence behind its first character.
  abbrev behind : ℕ
  behind = length (o ∷ os) - 1

  drop-behind : (c : ℕ) (s r : Text) → c ∷ s ≡ (o ∷ os) ++ r → drop behind s ≡ r
  drop-behind c s r e =
      let short : behind ≡ length os = omega arith in
      rw short (ap (λ t. drop (length os) t) (ap (λ t. drop 1 t) e) ∙ drop-append os r)

  fewer :
      (m c : ℕ) (s : Text)
      → count_matches (o ∷ os) 0 (c ∷ s) ≤ suc m
      → (r : Text) → strip_prefix (o ∷ os) (c ∷ s) ≡ some r
      → count_matches (o ∷ os) behind s ≤ m
  unfolding count_matches
  fewer m c s h r e = ground (arith, h, e)

  replacen-IsSwap :
      (n k : ℕ) (s : Text)
      → count_matches (o ∷ os) k s ≤ n
      → IsSwap (o ∷ os) new (drop k s) (replacen (o ∷ os) new n k s) (count_matches (o ∷ os) k s)
  unfolding replacen count_matches
  replacen-IsSwap n zero [] h = ([], [], refl, refl, refl)
  replacen-IsSwap n (suc k) [] h = ([], [], refl, refl, refl)
  replacen-IsSwap n (suc k) (c ∷ s) h = replacen-IsSwap n k s h
  replacen-IsSwap zero zero (c ∷ s) h = elim (Option-cases (strip_prefix (o ∷ os) (c ∷ s))) [
    | inl e ↦
        rw (replacen, count_matches, e)
          (kept_head c (o ∷ os) new s _ _ (replacen-IsSwap zero 0 s (rw (count_matches, e) at h)))
    | inr (r, e) ↦ ground (arith, h, e)
  ]
  replacen-IsSwap (suc m) zero (c ∷ s) h = elim (Option-cases (strip_prefix (o ∷ os) (c ∷ s))) [
    | inl e ↦
        rw (replacen, count_matches, e)
          (kept_head c (o ∷ os) new s _ _
            (replacen-IsSwap (suc m) 0 s (rw (count_matches, e) at h)))
    | inr (r, e) ↦
        let split : c ∷ s ≡ (o ∷ os) ++ r = (strip_prefix_iff (o ∷ os) (c ∷ s) r).0 e in
        rw (replacen, count_matches, e)
          (subst
            (λ u.
              IsSwap (o ∷ os) new u (new ++ replacen (o ∷ os) new m behind s)
                (suc (count_matches (o ∷ os) behind s)))
            (sym split)
            (swapped_head (o ∷ os) new r (replacen (o ∷ os) new m behind s) _ (
              subst
                (λ u.
                  IsSwap (o ∷ os) new u (replacen (o ∷ os) new m behind s)
                    (count_matches (o ∷ os) behind s))
                (drop-behind c s r split) (replacen-IsSwap m behind s (fewer m c s h r e)))))
  ]

pub path_eq_self : (p : FilePath) → path_eq p p ≡ true
path_eq_self [] = refl
path_eq_self (s ∷ p) = ground (arith, text_eq_iff s s, path_eq_self p)

pub path_eq→eq : (p q : FilePath) → path_eq p q ≡ true → p ≡ q
path_eq→eq [] [] e = refl
path_eq→eq [] (t ∷ q) e = ground (arith, e)
path_eq→eq (s ∷ p) [] e = ground (arith, e)
path_eq→eq (s ∷ p) (t ∷ q) e =
    ground (arith, e, text_eq_iff s t, path_eq→eq p q (ground (arith, e)))

-- The errors of a replacement and when they come: no occurrence, several that are not allowed, or a
-- file that cannot be written.
abbrev pub IsRefusal : (allow : Bool) → FilePath → Disk → (count : ℕ) → ToolError → Type 0
IsRefusal allow p d count old_string_not_found = count ≡ 0
IsRefusal allow p d count (old_string_ambiguous n) = (n ≡ count) × (1 < count) × (allow ≡ false)
IsRefusal allow p d count write_failed = d.refuses_write p ≡ true
IsRefusal allow p d count _ = ⊥

-- What a replacement does to a disk. On success the answer is the number of occurrences, of which
-- there is at least one, and just one unless several are allowed; the file has every one of them
-- swapped, and all other files are as they were. On an error nothing changed.
abbrev pub Replaced :
    (old new : Text) → Bool → FilePath → Text → Disk → Result ToolError ℕ × Disk → Type 0
Replaced old new allow p s d (ok times, d') =
    (times ≡ count_matches old 0 s)
    × (0 < times)
    × ((allow ≡ true) ⊎ (times ≡ 1))
    × ((t : Text) × (d'.content (d.real p) ≡ some t) × IsSwap old new s t times)
    × ((q : FilePath) → q ≢ d.real p → d'.content q ≡ d.content q)
Replaced old new allow p s d (err e, d') = (d' ≡ d) × IsRefusal allow p d (count_matches old 0 s) e

abbrev swapped : Bool → ℕ → Text → Text → Text → Text
swapped allow o os new s = replacen (o ∷ os) new (if allow then usize_max else 1) 0 s

pub write_refused :
    (p : FilePath) (t : Text) (d : Disk)
    → d.refuses_write p ≡ true
    → write p t d ≡ (err write_failed, d)
unfolding write
write_refused p t d g = rw (write, g) refl

pub write_done :
    (p : FilePath) (t : Text) (d : Disk)
    → d.refuses_write p ≡ false
    → write p t d
      ≡ (ok p, record d { content = λ q. if path_eq (d.real p) q then some t else d.content q })
unfolding write
write_done p t d g = rw (write, g) refl

limit_enough :
    (allow : Bool) (times : ℕ)
    → times ≤ usize_max
    → (ltb 1 times && not allow) ≡ false
    → times ≤ (if allow then usize_max else 1)
limit_enough true times few f = few
limit_enough false times few f = ground (arith, f)

single_or_allowed :
    (allow : Bool) (times : ℕ)
    → times ≢ 0
    → (ltb 1 times && not allow) ≡ false
    → (allow ≡ true) ⊎ (times ≡ 1)
single_or_allowed true times h f = inl refl
single_or_allowed false times h f = inr (ground (arith, h, f))

several : (allow : Bool) (times : ℕ) → (ltb 1 times && not allow) ≡ true → 1 < times
several true times f = ground (arith, f)
several false times f = ground (arith, f)

refused : (allow : Bool) (times : ℕ) → (ltb 1 times && not allow) ≡ true → allow ≡ false
refused true times f = ground (arith, f)
refused false times f = refl

-- `str_replace` on a file that holds `s`, with a non-empty `old_string` and no more than `usize::MAX`
-- occurrences. On success the answer is the number of occurrences, at least one, and just one unless
-- `allow_multiple` is set; the new text is the old one with all of them swapped for `new_string`, and
-- every other file is untouched. An error leaves the disk as it was, and is for a text without an
-- occurrence, for one with several where they are not allowed, or for a write that the disk refuses.
pub replace_in_lem :
    (o : ℕ) (os new : Text) (allow : Bool) (p : FilePath) (s : Text) (d : Disk)
    → count_matches (o ∷ os) 0 s ≤ usize_max
    → Replaced (o ∷ os) new allow p s d (replace_in (o ∷ os) new allow p s d)
unfolding replace_in
replace_in_lem o os new allow p s d few = elim (Bool-cases (count_matches (o ∷ os) 0 s == 0)) [
  | inl e ↦ rw e (refl, (==_iff (count_matches (o ∷ os) 0 s) 0).0 e)
  | inr e ↦ elim (Bool-cases (ltb 1 (count_matches (o ∷ os) 0 s) && not allow)) [
    | inl f ↦
        rw (e, f) (refl, (refl, several allow (count_matches (o ∷ os) 0 s) f, refused allow _ f))
    | inr f ↦ elim (Bool-cases (d.refuses_write p)) [
      | inl g ↦ rw (e, f, write_refused p (swapped allow o os new s) d g) (refl, g)
      | inr g ↦
          rw (e, f, write_done p (swapped allow o os new s) d g)
            (
              refl,
              ground (arith, e),
              single_or_allowed allow (count_matches (o ∷ os) 0 s) (ground (arith, e)) f,
              (
                replacen (o ∷ os) new (if allow then usize_max else 1) 0 s,
                rw (path_eq_self (d.real p)) refl,
                replacen-IsSwap o os new (if allow then usize_max else 1) 0 s
                    (limit_enough allow (count_matches (o ∷ os) 0 s) few f),
              ),
              λ q h. ground (arith, path_eq→eq (d.real p) q, h),
            )
    ]
  ]
]
