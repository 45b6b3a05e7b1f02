-- ===== src/Models/Choice.antt =====
-- Which of the discovered models is run.
use ashat_coding_agent.Base.{
  ◌≤◌, ◌≡◌, refl, ap, sym, subst, ◌≢◌, ◌⊎◌, inl, inr, Bool, true, false, Option, none, some, List,
  [], ◌∷◌, arith, leb, if◌then◌else◌, filter, In, In-filter, In-filter_intro, Bool-cases,
}
use ashat_coding_agent.Base.Text.{Text, text_eq, text_eq_iff}
use ashat_coding_agent.Json.{or_else}
use ashat_coding_agent.Models.{
  join, DirEntry, DiscoveredModel, ModelSet, gguf_entries, is_instruct, find_entry, smaller,
  min_by_bytes, joined, hinted, first_of, pick_entry, pick, default_model, entries_of, discover,
}

-- The hint names an entry; or it does not, and the model is the smallest instruct model, or there
-- is no such model.
abbrev pub Hinted : Option Text → List DiscoveredModel → DiscoveredModel → Type 0
Hinted hint entries e = In e entries × (hint ≡ some e.file_name)

abbrev pub HasNoHint : Option Text → List DiscoveredModel → Type 0
HasNoHint hint entries = (e : DiscoveredModel) → ¬ Hinted hint entries e

abbrev pub IsSmallest : List DiscoveredModel → DiscoveredModel → Type 0
IsSmallest entries e =
    In e entries
    × (is_instruct e ≡ true)
    × ((other : DiscoveredModel)
        → In other entries
        → is_instruct other ≡ true
        → e.bytes ≤ other.bytes)

find_entry-some :
    (name : Text) (entries : List DiscoveredModel) (e : DiscoveredModel)
    → find_entry name entries ≡ some e
    → In e entries × (e.file_name ≡ name)
unfolding find_entry
find_entry-some name [] e h = cc
find_entry-some name (x ∷ xs) e h = elim (Bool-cases (text_eq x.file_name name)) [
  | inl same ↦
      let equal : x ≡ e = ground (arith, same) in
      (
        inl equal,
        subst (λ (y : DiscoveredModel). y.file_name ≡ name) equal
            ((text_eq_iff x.file_name name).0 same),
      )
  | inr other ↦
      let (m, found) = find_entry-some name xs e (rw (other, find_entry) at h) in (inr m, found)
]

find_entry-none :
    (name : Text) (entries : List DiscoveredModel)
    → find_entry name entries ≡ none
    → (e : DiscoveredModel) → In e entries
    → ¬ (e.file_name ≡ name)
unfolding find_entry
find_entry-none name [] h e m same = elim m [ ]
find_entry-none name (x ∷ xs) h e (inl equal) same =
    ground (arith, text_eq_iff x.file_name name, ap (λ (y : DiscoveredModel). y.file_name) equal)
find_entry-none name (x ∷ xs) h e (inr m) same =
    find_entry-none name xs (ground (arith, text_eq_iff x.file_name name)) e m same

abbrev Least : List DiscoveredModel → Option DiscoveredModel → Type 0
Least es none = (other : DiscoveredModel) → ¬ In other es
Least es (some e) = In e es × ((other : DiscoveredModel) → In other es → e.bytes ≤ other.bytes)

same_bytes : (x y : DiscoveredModel) → x ≡ y → x.bytes ≡ y.bytes
same_bytes x y e = ap (λ (m : DiscoveredModel). m.bytes) e

alone_smallest :
    (x : DiscoveredModel) (xs : List DiscoveredModel)
    → Least xs none
    → (other : DiscoveredModel) → In other (x ∷ xs)
    → x.bytes ≤ other.bytes
alone_smallest x xs h other (inl e) = omega (arith, same_bytes x other e)
alone_smallest x xs h other (inr m) = absurd (h other m)

still_smallest :
    (x e : DiscoveredModel) (xs : List DiscoveredModel)
    → e.bytes ≤ x.bytes
    → ((other : DiscoveredModel) → In other xs → e.bytes ≤ other.bytes)
    → (other : DiscoveredModel) → In other (x ∷ xs)
    → e.bytes ≤ other.bytes
still_smallest x e xs below h other (inl same) = omega (arith, same_bytes x other same)
still_smallest x e xs below h other (inr m) = h other m

new_smallest :
    (x f : DiscoveredModel) (xs : List DiscoveredModel)
    → x.bytes ≤ f.bytes
    → ((other : DiscoveredModel) → In other xs → f.bytes ≤ other.bytes)
    → (other : DiscoveredModel) → In other (x ∷ xs)
    → x.bytes ≤ other.bytes
new_smallest x f xs below h other (inl same) = omega (arith, same_bytes x other same)
new_smallest x f xs below h other (inr m) = omega (arith, h other m)

smaller_of :
    (x f : DiscoveredModel) (xs : List DiscoveredModel) (b : Bool)
    → leb x.bytes f.bytes ≡ b
    → Least xs (some f)
    → Least (x ∷ xs) (some (if b then x else f))
smaller_of x f xs true e h = (inl refl, new_smallest x f xs (ground (arith, e)) h.1)
smaller_of x f xs false e h = (inr h.0, still_smallest x f xs (ground (arith, e)) h.1)

smaller-Least :
    (x : DiscoveredModel) (xs : List DiscoveredModel) (o : Option DiscoveredModel)
    → Least xs o
    → Least (x ∷ xs) (some (smaller x o))
smaller-Least x xs none h = (inl refl, alone_smallest x xs h)
smaller-Least x xs (some f) h = smaller_of x f xs (leb x.bytes f.bytes) refl h

min_by_bytes-Least : (es : List DiscoveredModel) → Least es (min_by_bytes es)
unfolding min_by_bytes
min_by_bytes-Least [] = λ other m. m
min_by_bytes-Least (x ∷ xs) = smaller-Least x xs (min_by_bytes xs) (min_by_bytes-Least xs)

-- The entry that is chosen.
abbrev pub Chosen : Option Text → List DiscoveredModel → Option DiscoveredModel → Type 0
Chosen hint entries none =
    HasNoHint hint entries × ((e : DiscoveredModel) → In e entries → is_instruct e ≢ true)
Chosen hint entries (some e) =
    Hinted hint entries e ⊎ (HasNoHint hint entries × IsSmallest entries e)

abbrev Names : Option Text → List DiscoveredModel → Option DiscoveredModel → Type 0
Names hint entries none = HasNoHint hint entries
Names hint entries (some e) = Hinted hint entries e

hinted-Names :
    (hint : Option Text) (entries : List DiscoveredModel) (o : Option DiscoveredModel)
    → hinted hint entries ≡ o
    → Names hint entries o
hinted-Names none entries none h = λ e found. cc found.1
hinted-Names none entries (some e) h = cc
hinted-Names (some name) entries none h =
    λ e found. find_entry-none name entries h e found.0 (ground (arith, found.1))
hinted-Names (some name) entries (some e) h =
    let (m, same) = find_entry-some name entries e h in (m, ap some (sym same))

smallest-Chosen :
    (hint : Option Text) (entries : List DiscoveredModel) (o : Option DiscoveredModel)
    → HasNoHint hint entries
    → Least (filter is_instruct entries) o
    → Chosen hint entries o
smallest-Chosen hint entries none no_hint h =
    (no_hint, λ e m instruct. h e (In-filter_intro is_instruct e entries m instruct))
smallest-Chosen hint entries (some e) no_hint h =
    let (m, instruct) = In-filter is_instruct e entries h.0 in
    inr (
      no_hint,
      (m, instruct, λ other n small. h.1 other (In-filter_intro is_instruct other entries n small)),
    )

first_of-Chosen :
    (hint : Option Text) (entries : List DiscoveredModel) (o : Option DiscoveredModel)
    → hinted hint entries ≡ o
    → Chosen hint entries (first_of o (min_by_bytes (filter is_instruct entries)))
first_of-Chosen hint entries none h =
    smallest-Chosen hint entries (min_by_bytes (filter is_instruct entries))
      (hinted-Names hint entries none h) (min_by_bytes-Least (filter is_instruct entries))
first_of-Chosen hint entries (some e) h = inl (hinted-Names hint entries (some e) h)

-- What is run from a directory.
abbrev pub Runs : Text → Option Text → ModelSet → Type 0
Runs dir hint set =
    ((e : DiscoveredModel) × Chosen hint set.discovered (some e)
      × (set.inference_path ≡ join dir e.file_name))
    ⊎ (Chosen hint set.discovered none × (set.inference_path ≡ join dir default_model))

Runs-intro :
    (dir : Text) (hint : Option Text) (set : ModelSet) (o : Option DiscoveredModel)
    → Chosen hint set.discovered o
    → set.inference_path ≡ or_else (join dir default_model) (joined dir o)
    → Runs dir hint set
Runs-intro dir hint set none h e = inr (h, e)
Runs-intro dir hint set (some m) h e = inl (m, h, e)

-- The server runs the discovered model that the hint names. Without such a model it runs the
-- smallest of those whose name says `1.2B` and `Instruct`, and if there is none, the default path
-- below the directory, whether or not a file is there.
pub discover-Runs :
    (dir : Text) (listing : Option (List (Option DirEntry))) (hint : Option Text)
    → Runs dir hint (discover dir listing hint)
unfolding discover pick pick_entry
discover-Runs dir listing hint =
    Runs-intro dir hint (discover dir listing hint)
      (pick_entry (gguf_entries (entries_of listing)) hint)
      (first_of-Chosen hint (gguf_entries (entries_of listing))
        (hinted hint (gguf_entries (entries_of listing))) refl)
      refl
