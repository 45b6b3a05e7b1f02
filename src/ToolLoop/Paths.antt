-- ===== src/ToolLoop/Paths.antt =====
-- Which paths `safe_join` of crates/omega-core/src/tool_loop.rs accepts, and where they lie.
use ashat_coding_agent.Base.{
  ℕ, ◌≡◌, ◌≢◌, refl, ap, sym, ◌∙◌, subst, true, false, Bool-cases, List-cases, Option-cases, some,
  List, [], ◌∷◌, ◌++◌, arith, ◌==◌, ==_iff, ◌⊎◌, inl, inr, All, All-append,
}
use mathlib.Core.List.{append_assoc, append-nil}
use ashat_coding_agent.Base.Text.{Text, codes, text_eq, text_eq_iff}
use ashat_coding_agent.Base.Result.{Result, ok, err, ◌>>=◌}
use ashat_coding_agent.ToolLoop.{
  cons_head, pieces, Component, root_dir, cur_dir, parent_dir, normal, components_behind,
  components, is_absolute, is_blank, FilePath, pop, starts_with, JoinError, empty_path,
  absolute_path, escapes, resolve, below_base, safe_join,
}

-- A segment that names an entry: not empty, `.` or `..`, and without a slash.
pub record IsName (s : Text) : Type 0 where
  pub nonempty : s ≢ []
  pub not_dot : s ≢ codes "."
  pub not_dots : s ≢ codes ".."
  pub no_slash : All (λ c. c ≢ 47) s

abbrev NoSlash : Text → Type 0
NoSlash s = All (λ c. c ≢ 47) s

NoSlash-cons_head :
    (c : ℕ) (ps : List Text) → c ≢ 47 → All NoSlash ps → All NoSlash (cons_head c ps)
NoSlash-cons_head c [] h a = ((h, tt), tt)
NoSlash-cons_head c (p ∷ ps) h a = ((h, a.0), a.1)

pieces-NoSlash : (s : Text) → All NoSlash (pieces s)
unfolding pieces
pieces-NoSlash [] = (tt, tt)
pieces-NoSlash (c ∷ s) = elim (Bool-cases (c == 47)) [
  | inl e ↦ rw e (tt, pieces-NoSlash s)
  | inr e ↦
      rw e (NoSlash-cons_head c (pieces s) (ground (arith, e, ==_iff c 47)) (pieces-NoSlash s))
]

-- What `components` may hold of a path that is not absolute.
abbrev IsStep : Component → Type 0
IsStep root_dir = ⊥
IsStep cur_dir = Unit
IsStep parent_dir = Unit
IsStep (normal s) = IsName s

differs : (s t : Text) → text_eq s t ≡ false → s ≢ t
differs s t e = ground (arith, text_eq_iff s t, e)

behind-IsStep : (ps : List Text) → All NoSlash ps → All IsStep (components_behind ps)
unfolding components_behind
behind-IsStep [] a = tt
behind-IsStep (p ∷ ps) a = elim (Bool-cases (text_eq p [])) [
  | inl e ↦ rw e (behind-IsStep ps a.1)
  | inr e ↦ elim (Bool-cases (text_eq p (codes "."))) [
    | inl f ↦ rw (e, f) (behind-IsStep ps a.1)
    | inr f ↦ elim (Bool-cases (text_eq p (codes ".."))) [
      | inl g ↦ rw (e, f, g) (tt, behind-IsStep ps a.1)
      | inr g ↦
          rw (e, f, g)
            (
              record {
                nonempty = differs p [] e;
                not_dot = differs p (codes ".") f;
                not_dots = differs p (codes "..") g;
                no_slash = a.0;
              },
              behind-IsStep ps a.1,
            )
    ]
  ]
]

first_piece :
    (c : ℕ) (s : Text)
    → (c == 47) ≡ false
    → (p : Text) × (ps : List Text) × (pieces (c ∷ s) ≡ (c ∷ p) ∷ ps)
unfolding pieces
first_piece c s e = elim (List-cases (pieces s)) [
  | inl f ↦ ([], [], rw (pieces, e, f) refl)
  | inr (p, ps, f) ↦ (p, ps, rw (pieces, e, f) refl)
]

components-IsStep :
    (s : Text) → is_blank s ≡ false → is_absolute s ≡ false → All IsStep (components s)
unfolding components is_absolute
components-IsStep [] b e = ground (arith, b)
components-IsStep (c ∷ s) b e =
    let (p, ps, f) = first_piece c s e in
    let clean : All NoSlash ((c ∷ p) ∷ ps) = rw f at (pieces-NoSlash (c ∷ s)) in
    elim (Bool-cases (text_eq (c ∷ p) (codes "."))) [
      | inl g ↦ rw (components, f, g) (tt, behind-IsStep ps clean.1)
      | inr g ↦ rw (components, f, g) (behind-IsStep ((c ∷ p) ∷ ps) clean)
    ]

pop-All : (P : Text → Type 0) (p q : FilePath) → pop p ≡ some q → All P p → All P q
unfolding pop
pop-All P [] q e a = ground (arith, e)
pop-All P (s ∷ []) q e a = ground (arith, e)
pop-All P (s ∷ t ∷ p) q e a = elim (Option-cases (pop (t ∷ p))) [
  | inl f ↦ ground (arith, e, f)
  | inr (u, f) ↦
      let same : s ∷ u ≡ q = ground (arith, e, f) in
      subst (All P) same (a.0, pop-All P (t ∷ p) u f a.1)
]

starts_with-split :
    (p base : FilePath) → starts_with p base ≡ true → (rest : FilePath) × (p ≡ base ++ rest)
unfolding starts_with
starts_with-split p [] e = (p, refl)
starts_with-split [] (b ∷ bs) e = ground (arith, e)
starts_with-split (s ∷ p) (b ∷ bs) e =
    let (rest, f) = starts_with-split p bs (ground (arith, e)) in
    (rest, ground (arith, e, f, text_eq_iff s b))

All-right : (P : Text → Type 0) (xs ys : FilePath) → All P (xs ++ ys) → All P ys
All-right P [] ys a = a
All-right P (x ∷ xs) ys a = All-right P xs ys a.1

-- What `resolve` may answer from a clean path: a clean path, or that the path leaves the root.
abbrev Resolved : Result JoinError FilePath → Type 0
Resolved (ok p) = All IsName p
Resolved (err e) = e ≡ escapes

resolve-Resolved :
    (cs : List Component) (cur : FilePath)
    → All IsStep cs
    → All IsName cur
    → Resolved (resolve cs cur)
unfolding resolve
resolve-Resolved [] cur a n = n
resolve-Resolved (cur_dir ∷ cs) cur a n = resolve-Resolved cs cur a.1 n
resolve-Resolved (parent_dir ∷ cs) cur a n = elim (Option-cases (pop cur)) [
  | inl e ↦ rw (resolve, e) refl
  | inr (up, e) ↦ rw (resolve, e) (resolve-Resolved cs up a.1 (pop-All IsName cur up e n))
]
resolve-Resolved (normal s ∷ cs) cur a n =
    resolve-Resolved cs (cur ++ s ∷ []) a.1 (All-append IsName cur (s ∷ []) n (a.0, tt))
resolve-Resolved (root_dir ∷ cs) cur a n = elim a.0 [ ]

-- A joined path lies below the workspace, by segments that name entries; the errors.
abbrev pub Joined : FilePath → Result JoinError FilePath → Type 0
Joined base (ok p) = (rest : FilePath) × (p ≡ base ++ rest) × All IsName rest
Joined base (err e) = (e ≡ empty_path) ⊎ ((e ≡ absolute_path) ⊎ (e ≡ escapes))

below_base-Joined :
    (base : FilePath) (r : Result JoinError FilePath)
    → Resolved r
    → Joined base (r >>= below_base base)
unfolding below_base
below_base-Joined base (err e) v = inr (inr v)
below_base-Joined base (ok p) v = elim (Bool-cases (starts_with p base)) [
  | inl e ↦
      let (rest, f) = starts_with-split p base e in
      rw e (rest, f, All-right IsName base rest (subst (All IsName) f v))
  | inr e ↦ rw e (inr (inr refl))
]

-- From a workspace at a canonical path, whatever text a tool is given as its path: the joined path
-- is the workspace followed by segments that name entries, none of them `..`, or the text is
-- refused as blank, absolute or escaping; `unsupported path component` is never the answer.
pub safe_join-Joined :
    (base : FilePath) (rel : Text) → All IsName base → Joined base (safe_join (some base) rel)
unfolding safe_join
safe_join-Joined base rel n = elim (Bool-cases (is_blank rel)) [
  | inl e ↦ rw e (inl refl)
  | inr e ↦ elim (Bool-cases (is_absolute rel)) [
    | inl f ↦ rw (e, f) (inr (inl refl))
    | inr f ↦
        rw (e, f)
          (below_base-Joined base (resolve (components rel) base)
            (resolve-Resolved (components rel) base (components-IsStep rel e f) n))
  ]
]

-- The segments that a path text names.
abbrev pub names : List Component → FilePath
names [] = []
names (normal s ∷ cs) = s ∷ names cs
names (cur_dir ∷ cs) = names cs
names (parent_dir ∷ cs) = names cs
names (root_dir ∷ cs) = names cs

abbrev pub IsDown : Component → Type 0
IsDown root_dir = Unit
IsDown cur_dir = Unit
IsDown parent_dir = ⊥
IsDown (normal s) = Unit

resolve-down :
    (cs : List Component) (cur : FilePath)
    → All IsStep cs
    → All IsDown cs
    → resolve cs cur ≡ ok (cur ++ names cs)
unfolding resolve
resolve-down [] cur a d = ap ok (sym (append-nil cur))
resolve-down (cur_dir ∷ cs) cur a d = resolve-down cs cur a.1 d.1
resolve-down (parent_dir ∷ cs) cur a d = elim d.0 [ ]
resolve-down (root_dir ∷ cs) cur a d = elim a.0 [ ]
resolve-down (normal s ∷ cs) cur a d =
    resolve-down cs (cur ++ s ∷ []) a.1 d.1 ∙ ap ok (append_assoc cur (s ∷ []) (names cs))

text_eq_self : (s : Text) → text_eq s s ≡ true
text_eq_self s = ground (arith, text_eq_iff s s)

starts_with-append : (base rest : FilePath) → starts_with (base ++ rest) base ≡ true
unfolding starts_with
starts_with-append [] rest = refl
starts_with-append (b ∷ bs) rest = rw (text_eq_self b, starts_with-append bs rest) refl

-- A path text that is not blank, not absolute and has no `..` is never refused: it joins to the
-- workspace followed by the segments it names.
safe_join-down :
    (base : FilePath) (rel : Text)
    → is_blank rel ≡ false
    → is_absolute rel ≡ false
    → All IsDown (components rel)
    → safe_join (some base) rel ≡ ok (base ++ names (components rel))
unfolding safe_join below_base
safe_join-down base rel e f d =
    rw
      (
        safe_join,
        e,
        f,
        resolve-down (components rel) base (components-IsStep rel e f) d,
        starts_with-append base (names (components rel)),
      )
      refl
