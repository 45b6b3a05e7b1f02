-- ===== src/Config/Binary.antt =====
-- Where the `llama-server` binary is looked for.
use ashat_coding_agent.Base.{
  ◌≡◌, refl, ap, ◌<◌, ◌⊎◌, inl, inr, Bool, true, false, ◌||◌, Option, none, some, List, [], ◌∷◌,
  ◌++◌, arith, ltb, length, All, if◌then◌else◌,
}
use ashat_coding_agent.Base.Text.{Text}
use ashat_coding_agent.ToolLoop.{is_absolute, components}
use ashat_coding_agent.Models.{join}
use ashat_coding_agent.Config.{split_dirs, search_dirs, search_path, resolve_llama_binary}

abbrev pub dirs_of : Option Text → List Text
dirs_of none = []
dirs_of (some paths) = split_dirs paths

-- A name that is a path, not a bare command.
abbrev pub IsLocated : Text → Type 0
IsLocated name = (is_absolute name ≡ true) ⊎ (1 < length (components name))

module _ (is_file : Text → Bool) (name : Text) where
  abbrev pub Misses : Text → Type 0
  Misses dir = is_file (join dir name) ≡ false

  -- The first directory that has the file, or none does.
  abbrev pub IsFound : List Text → Text → Type 0
  IsFound dirs out =
      ((before : List Text) × (dir : Text) × (after : List Text) × (dirs ≡ before ++ dir ∷ after)
        × All Misses before
        × (is_file (join dir name) ≡ true)
        × (out ≡ join dir name))
      ⊎ (All Misses dirs × (out ≡ name))

  behind :
      (dir out : Text) (dirs : List Text) → Misses dir → IsFound dirs out → IsFound (dir ∷ dirs) out
  behind dir out dirs miss (inl (before, d, after, e, none_there, there, same)) =
      inl
        (dir ∷ before, d, after, ap (λ (l : List Text). dir ∷ l) e, (miss, none_there), there, same)
  behind dir out dirs miss (inr (none_there, same)) = inr ((miss, none_there), same)

  found_or :
      (b : Bool) (dir out : Text) (dirs : List Text)
      → is_file (join dir name) ≡ b
      → IsFound dirs out
      → IsFound (dir ∷ dirs) (if b then join dir name else out)
  found_or true dir out dirs e h = inl ([], dir, dirs, refl, tt, e, refl)
  found_or false dir out dirs e h = behind dir out dirs e h

  search_dirs-IsFound : (dirs : List Text) → IsFound dirs (search_dirs is_file name dirs)
  unfolding search_dirs
  search_dirs-IsFound [] = inr (tt, refl)
  search_dirs-IsFound (dir ∷ dirs) =
      found_or (is_file (join dir name)) dir (search_dirs is_file name dirs) dirs refl
        (search_dirs-IsFound dirs)

  search_path-IsFound :
      (path : Option Text) → IsFound (dirs_of path) (search_path is_file name path)
  search_path-IsFound none = inr (tt, refl)
  search_path-IsFound (some paths) = search_dirs-IsFound (split_dirs paths)

  abbrev Resolves : Option Text → Text → Type 0
  Resolves path out =
      (IsLocated name × (out ≡ name)) ⊎ ((¬ IsLocated name) × IsFound (dirs_of path) out)

  by_kind :
      (a b : Bool) (path : Option Text)
      → is_absolute name ≡ a
      → ltb 1 (length (components name)) ≡ b
      → Resolves path (if a || b then name else search_path is_file name path)
  by_kind true b path e f = inl (inl e, refl)
  by_kind false true path e f = inl (inr (ground (arith, f)), refl)
  by_kind false false path e f = inr (
    (λ l. elim l [ inl absolute ↦ cc (e, absolute) | inr several ↦ ground (arith, several, f) ]),
    search_path-IsFound path,
  )

  -- A name that is absolute or has several components is run as it is. A bare name is run from the
  -- first directory of `PATH` that has a file of that name, and as it is if none has.
  pub resolve_llama_binary_lem :
      (path : Option Text)
      → (IsLocated name × (resolve_llama_binary is_file path name ≡ name))
        ⊎ ((¬ IsLocated name) × IsFound (dirs_of path) (resolve_llama_binary is_file path name))
  unfolding resolve_llama_binary
  resolve_llama_binary_lem path =
      by_kind (is_absolute name) (ltb 1 (length (components name))) path refl refl
