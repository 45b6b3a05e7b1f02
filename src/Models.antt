-- ===== src/Models.antt =====
-- crates/omega-common/src/models.rs: which model file the server runs. The directory listing is an
-- argument; an entry that cannot be read is `none`.
pub mod Choice
pub mod Tests
use ashat_coding_agent.Base.{
  ℕ, Bool, true, false, not, ◌&&◌, Option, none, some, List, [], ◌∷◌, ◌++◌, reverse, leb, ◌==◌,
  if◌then◌else◌, filter,
}
use ashat_coding_agent.Base.Text.{Text, codes, text_eq, strip_prefix}
use ashat_coding_agent.Json.{or_else}
use ashat_coding_agent.ToolLoop.{is_absolute}
use ashat_coding_agent.Types.Names.{file_name}

-- `Path::join`
abbrev pub ends_in_slash : Text → Bool
ends_in_slash [] = true
ends_in_slash (c ∷ []) = c == 47
ends_in_slash (c ∷ d ∷ s) = ends_in_slash (d ∷ s)

unfoldable pub join : Text → Text → Text
unfolding is_absolute
join dir name =
    if is_absolute name
    then name
    else if ends_in_slash dir
    then dir ++ name
    else dir ++ (codes "/" ++ name)

-- An entry of the directory: its name, if it is text, and its size, if it can be asked.
pub record DirEntry : Type 0 where
  pub name : Option Text
  pub len : Option ℕ

pub record DiscoveredModel : Type 0 where
  pub file_name : Text
  pub bytes : ℕ
  pub model_name : Text

pub record ModelSet : Type 0 where
  pub discovered : List DiscoveredModel
  pub inference_path : Text
  pub inference_label : Text

-- Behind the last dot of a reversed name; a leading dot starts no extension.
abbrev reversed_extension : Text → Text → Option Text
reversed_extension ext [] = none
reversed_extension ext (c ∷ []) = none
reversed_extension ext (c ∷ d ∷ s) =
    let rest = reversed_extension (c ∷ ext) (d ∷ s) in if c == 46 then some ext else rest

-- `Path::extension` of a file name.
unfoldable pub extension : Text → Option Text
extension name = reversed_extension [] (reverse name)

abbrev has_extension : Text → Option Text → Bool
has_extension ext none = false
has_extension ext (some e) = text_eq e ext

abbrev listed : Text → Option ℕ → Option DiscoveredModel
listed name none = none
listed name (some n) =
    if has_extension (codes "gguf") (extension name)
    then some (record { file_name = name; bytes = n; model_name = name })
    else none

abbrev entry_model : Option DirEntry → Option DiscoveredModel
entry_model none = none
entry_model (some e) = elim e.name [ none ↦ none | some name ↦ listed name e.len ]

abbrev kept : Option DiscoveredModel → List DiscoveredModel → List DiscoveredModel
kept none ms = ms
kept (some m) ms = m ∷ ms

-- `filter_map` over the listing.
unfoldable pub gguf_entries : List (Option DirEntry) → List DiscoveredModel
unfolding extension
gguf_entries [] = []
gguf_entries (e ∷ es) = kept (entry_model e) (gguf_entries es)

unfoldable pub contains : Text → Text → Bool
contains part [] = elim (strip_prefix part []) [ none ↦ false | some r ↦ true ]
contains part (c ∷ s) =
    let rest = contains part s in elim (strip_prefix part (c ∷ s)) [ none ↦ rest | some r ↦ true ]

unfoldable pub is_instruct : DiscoveredModel → Bool
unfolding contains
is_instruct e = contains (codes "1.2B") e.file_name && contains (codes "Instruct") e.file_name

-- `find`
unfoldable pub find_entry : Text → List DiscoveredModel → Option DiscoveredModel
find_entry name [] = none
find_entry name (e ∷ es) = if text_eq e.file_name name then some e else find_entry name es

abbrev pub smaller : DiscoveredModel → Option DiscoveredModel → DiscoveredModel
smaller e none = e
smaller e (some f) = if leb e.bytes f.bytes then e else f

-- `min_by_key`: the first of the smallest.
unfoldable pub min_by_bytes : List DiscoveredModel → Option DiscoveredModel
min_by_bytes [] = none
min_by_bytes (e ∷ es) = some (smaller e (min_by_bytes es))

abbrev pub joined : Text → Option DiscoveredModel → Option Text
joined dir none = none
joined dir (some e) = some (join dir e.file_name)

abbrev pub hinted : Option Text → List DiscoveredModel → Option DiscoveredModel
hinted none entries = none
hinted (some name) entries = find_entry name entries

abbrev pub first_of {ℓ} : {A : Type ℓ} → Option A → Option A → Option A
first_of none b = b
first_of (some a) b = some a

unfoldable pub pick_entry : List DiscoveredModel → Option Text → Option DiscoveredModel
unfolding find_entry min_by_bytes is_instruct
pick_entry entries hint = first_of (hinted hint entries) (min_by_bytes (filter is_instruct entries))

unfoldable pub pick : Text → List DiscoveredModel → Option Text → Option Text
unfolding pick_entry join
pick dir entries hint = joined dir (pick_entry entries hint)

abbrev pub default_model : Text
default_model = codes "LFM2.5-1.2B-Instruct-Q4_K_M.gguf"

abbrev pub entries_of : Option (List (Option DirEntry)) → List (Option DirEntry)
entries_of none = []
entries_of (some es) = es

unfoldable pub discover : Text → Option (List (Option DirEntry)) → Option Text → ModelSet
unfolding gguf_entries pick file_name
discover dir listing hint =
    let entries = gguf_entries (entries_of listing) in
    let path = or_else (join dir default_model) (pick dir entries hint) in
    record {
      discovered = entries;
      inference_path = path;
      inference_label = or_else (codes "inference.gguf") (file_name path);
    }
