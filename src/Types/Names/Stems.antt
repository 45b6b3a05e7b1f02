-- ===== src/Types/Names/Stems.antt =====
-- What the public model names may be: a file name or its stem, never a path.
use ashat_coding_agent.Base.{
  ℕ, zero, suc, ◌≡◌, ◌≢◌, refl, ap, sym, ◌∙◌, subst, ◌⊎◌, inl, inr, Bool, true, false, ◌||◌, Option,
  none, some, List, [], ◌∷◌, ◌++◌, arith, map, reverse, take, length, All, In, Bool-cases, ◌==◌,
  if◌then◌else◌,
}
use ashat_coding_agent.Base.Text.{Text, codes, text_eq, strip_prefix_iff}
use mathlib.Core.List.{reverse-append, reverse-reverse}
use ashat_coding_agent.ToolLoop.{
  Component, root_dir, cur_dir, parent_dir, normal, components, pieces, components_behind,
  cons_head,
}
use ashat_coding_agent.Types.Names.{
  model_file_exts, lower, reversed, strip_suffix, strip_exts, cut, strip_model_ext, last_normal,
  file_name, or_model, named, public_model_name, stem_or, sanitized, sanitize_model_name,
}

abbrev pub HasNoSlash : Text → Type 0
HasNoSlash = All (λ c. c ≢ 47)

-- The name itself, or the name without one of the extensions, however that is capitalised.
abbrev StemBy : List Text → Text → Text → Type 0
StemBy exts name out =
    (out ≡ name) ⊎ ((ext : Text) × In ext exts × (map lower name ≡ map lower out ++ ext))

abbrev pub IsStem : Text → Text → Type 0
IsStem name out = StemBy model_file_exts name out

All-take : (P : ℕ → Type 0) (n : ℕ) (s : Text) → All P s → All P (take n s)
All-take P zero s h = tt
All-take P (suc n) [] h = tt
All-take P (suc n) (c ∷ s) h = (h.0, All-take P n s h.1)

map-take : (n : ℕ) (s : Text) → map lower (take n s) ≡ take n (map lower s)
map-take zero s = refl
map-take (suc n) [] = refl
map-take (suc n) (c ∷ s) = ap (λ (t : Text). lower c ∷ t) (map-take n s)

take-length : (s t : Text) → take (length s) (s ++ t) ≡ s
take-length [] t = refl
take-length (c ∷ s) t = ap (λ (r : Text). c ∷ r) (take-length s t)

reversed-some : (o : Option Text) (s : Text) → reversed o ≡ some s → o ≡ some (reverse s)
reversed-some none s e = cc
reversed-some (some r) s e =
    let same : reverse r ≡ s = cc in ap some (sym (reverse-reverse r) ∙ ap reverse same)

strip_suffix-some : (ext s stem : Text) → strip_suffix ext s ≡ some stem → s ≡ stem ++ ext
unfolding strip_suffix
strip_suffix-some ext s stem e =
    let back : reverse s ≡ reverse ext ++ reverse stem =
      (strip_prefix_iff (reverse ext) (reverse s) (reverse stem)).0 (reversed-some _ stem e) in
    sym (reverse-reverse s)
    ∙ ap reverse (back ∙ sym (reverse-append stem ext))
    ∙ reverse-reverse (stem ++ ext)

-- What a loop over some extensions makes of a name.
abbrev IsCut : List Text → Text → Text → Type 0
IsCut exts name out = StemBy exts name out × (HasNoSlash name → HasNoSlash out)

wider : (exts : List Text) (ext name out : Text) → IsCut exts name out → IsCut (ext ∷ exts) name out
wider exts ext name out (inl e, h) = (inl e, h)
wider exts ext name out (inr (x, m, e), h) = (inr (x, inr m, e), h)

lower_stem :
    (name stem ext : Text)
    → map lower name ≡ stem ++ ext
    → map lower name ≡ map lower (take (length stem) name) ++ ext
lower_stem name stem ext e =
    e
    ∙ ap (λ (t : Text). t ++ ext)
        (sym (map-take (length stem) name ∙ ap (take (length stem)) e ∙ take-length stem ext))

cut-IsCut :
    (exts : List Text) (ext name rest : Text) (o : Option Text)
    → strip_suffix ext (map lower name) ≡ o
    → IsCut exts name rest
    → IsCut (ext ∷ exts) name (cut name rest o)
cut-IsCut exts ext name rest none e h = wider exts ext name rest h
cut-IsCut exts ext name rest (some stem) e h = (
  inr (ext, inl refl, lower_stem name stem ext (strip_suffix-some ext (map lower name) stem e)),
  λ clean. All-take (λ c. c ≢ 47) (length stem) name clean,
)

strip_exts-IsCut : (exts : List Text) (name : Text) → IsCut exts name (strip_exts exts name)
unfolding strip_exts
strip_exts-IsCut [] name = (inl refl, λ h. h)
strip_exts-IsCut (ext ∷ exts) name =
    cut-IsCut exts ext name (strip_exts exts name) _ refl (strip_exts-IsCut exts name)

strip_model_ext-IsCut : (name : Text) → IsCut model_file_exts name (strip_model_ext name)
unfolding strip_model_ext
strip_model_ext-IsCut name = strip_exts-IsCut model_file_exts name

cons_head-IsClean :
    (c : ℕ) (ps : List Text)
    → (c == 47) ≡ false
    → All HasNoSlash ps
    → All HasNoSlash (cons_head c ps)
cons_head-IsClean c [] e h = (((λ same. ground (arith, same)), tt), tt)
cons_head-IsClean c (p ∷ ps) e h = (((λ same. ground (arith, same)), h.0), h.1)

pieces-IsClean : (s : Text) → All HasNoSlash (pieces s)
unfolding pieces
pieces-IsClean [] = (tt, tt)
pieces-IsClean (c ∷ s) = elim (Bool-cases (c == 47)) [
  | inl e ↦ rw e (tt, pieces-IsClean s)
  | inr e ↦ rw e (cons_head-IsClean c (pieces s) e (pieces-IsClean s))
]

abbrev IsClean : Component → Type 0
IsClean (normal s) = HasNoSlash s × (s ≢ [])
IsClean _ = Unit

branch :
    (b : Bool) (cs ds : List Component)
    → All IsClean cs
    → (b ≡ false → All IsClean ds)
    → All IsClean (if b then cs else ds)
branch true cs ds h k = h
branch false cs ds h k = k refl

not_empty : (p : Text) (b : Bool) → (text_eq p [] || b) ≡ false → p ≢ []
not_empty [] b e = cc
not_empty (c ∷ p) b e = λ same. cc

components_behind-IsClean :
    (ps : List Text) → All HasNoSlash ps → All IsClean (components_behind ps)
unfolding components_behind
components_behind-IsClean [] h = tt
components_behind-IsClean (p ∷ ps) h =
    let rest = components_behind-IsClean ps h.1 in
    branch (text_eq p [] || text_eq p (codes ".")) (components_behind ps)
      (if text_eq p (codes "..")
        then parent_dir ∷ components_behind ps
        else normal p ∷ components_behind ps)
      rest
      (λ e.
        branch (text_eq p (codes "..")) (parent_dir ∷ components_behind ps)
          (normal p ∷ components_behind ps) (tt, rest)
          (λ _. ((h.0, not_empty p (text_eq p (codes ".")) e), rest)))

listed-IsClean :
    (ps : List Text)
    → All HasNoSlash ps
    → All IsClean (elim ps [
      | [] ↦ []
      | p ∷ qs ↦
          if text_eq p []
          then root_dir ∷ components_behind qs
          else if text_eq p (codes ".")
          then cur_dir ∷ components_behind qs
          else components_behind (p ∷ qs)
    ])
listed-IsClean [] h = tt
listed-IsClean (p ∷ qs) h =
    let rest = components_behind-IsClean qs h.1 in
    branch (text_eq p []) (root_dir ∷ components_behind qs)
      (if text_eq p (codes ".") then cur_dir ∷ components_behind qs else components_behind (p ∷ qs))
      (tt, rest)
      (λ _.
        branch (text_eq p (codes ".")) (cur_dir ∷ components_behind qs) (components_behind (p ∷ qs))
          (tt, rest) (λ _. components_behind-IsClean (p ∷ qs) h))

components-IsClean : (s : Text) → All IsClean (components s)
unfolding components
components-IsClean s = listed-IsClean (pieces s) (pieces-IsClean s)

last_normal-IsClean :
    (cs : List Component) (s : Text)
    → All IsClean cs
    → last_normal cs ≡ some s
    → HasNoSlash s × (s ≢ [])
last_normal-IsClean [] s h e = cc
last_normal-IsClean (normal t ∷ []) s h e =
    let same : t ≡ s = cc in subst (λ (x : Text). HasNoSlash x × (x ≢ [])) same h.0
last_normal-IsClean (root_dir ∷ []) s h e = cc
last_normal-IsClean (cur_dir ∷ []) s h e = cc
last_normal-IsClean (parent_dir ∷ []) s h e = cc
last_normal-IsClean (c ∷ d ∷ cs) s h e = last_normal-IsClean (d ∷ cs) s h.1 e

file_name-IsClean : (s name : Text) → file_name s ≡ some name → HasNoSlash name × (name ≢ [])
unfolding file_name
file_name-IsClean s name e = last_normal-IsClean (components s) name (components-IsClean s) e

-- A name that may be shown for the path.
abbrev pub IsPublic : Text → Text → Type 0
IsPublic path out =
    HasNoSlash out
    × ((out ≡ codes "model") ⊎ ((name : Text) × (file_name path ≡ some name) × IsStem name out))

or_model-ne-nil : (s : Text) → or_model s ≢ []
or_model-ne-nil [] = λ e. cc
or_model-ne-nil (c ∷ s) = λ e. cc

or_model-IsPublic :
    (path name s : Text)
    → file_name path ≡ some name
    → HasNoSlash s
    → IsStem name s
    → IsPublic path (or_model s)
or_model-IsPublic path name [] e h k = (ground arith, inl refl)
or_model-IsPublic path name (c ∷ s) e h k = (h, inr (name, e, k))

named-IsPublic : (path : Text) (o : Option Text) → file_name path ≡ o → IsPublic path (named o)
named-IsPublic path none e = (ground arith, inl refl)
named-IsPublic path (some name) e =
    let (stem, clean) = strip_model_ext-IsCut name in
    or_model-IsPublic path name (strip_model_ext name) e (clean (file_name-IsClean path name e).0)
      stem

-- A path that has no file name.
abbrev pub IsBare : Text → Text → Type 0
IsBare raw out =
    (file_name raw ≡ none) × (((raw ≡ []) × (out ≡ codes "model")) ⊎ ((raw ≢ []) × IsStem raw out))

sanitized-IsBare : (raw : Text) → file_name raw ≡ none → IsBare raw (sanitized raw)
sanitized-IsBare [] e = (e, inl (refl, refl))
sanitized-IsBare (c ∷ s) e = (e, inr ((λ h. cc), (strip_model_ext-IsCut (c ∷ s)).0))

sanitized_name :
    (raw name : Text)
    → file_name raw ≡ some name
    → HasNoSlash (sanitized (stem_or raw (some name)))
      × IsStem name (sanitized (stem_or raw (some name)))
sanitized_name raw [] e = absurd ((file_name-IsClean raw [] e).1 refl)
sanitized_name raw (c ∷ s) e =
    let (stem, clean) = strip_model_ext-IsCut (c ∷ s) in
    (clean (file_name-IsClean raw (c ∷ s) e).0, stem)

sanitize-cases :
    (raw : Text) (o : Option Text)
    → file_name raw ≡ o
    → IsPublic raw (sanitized (stem_or raw o)) ⊎ IsBare raw (sanitized (stem_or raw o))
sanitize-cases raw none e = inr (sanitized-IsBare raw e)
sanitize-cases raw (some name) e =
    let (clean, stem) = sanitized_name raw name e in inl (clean, inr (name, e, stem))

named-ne-nil : (o : Option Text) → named o ≢ []
named-ne-nil none = λ e. cc
named-ne-nil (some s) = or_model-ne-nil (strip_model_ext s)

-- `public_model_name` is never empty and has no slash: it is "model", or the path's file name as it
-- is or without one of the four extensions in any case. So is `sanitize_model_name`, except that it
-- may be empty and that a text without a file name, such as one that ends in `..`, is shown whole,
-- slashes included, less an extension.
pub public_names_lem :
    (raw : Text)
    → ((public_model_name raw ≢ []) × IsPublic raw (public_model_name raw))
      × (IsPublic raw (sanitize_model_name raw) ⊎ IsBare raw (sanitize_model_name raw))
unfolding public_model_name sanitize_model_name
public_names_lem raw = (
  (named-ne-nil (file_name raw), named-IsPublic raw (file_name raw) refl),
  sanitize-cases raw (file_name raw) refl,
)
