-- ===== src/Types/Names.antt =====
-- The model names of crates/omega-common/src/types.rs that are shown to the public:
-- `public_model_name` and `sanitize_model_name`. Lengths are in code points; the source's byte
-- offsets cut at the same place, since lowering ASCII letters changes no length.
pub mod Stems
pub mod Tests
use ashat_coding_agent.Base.{
  ℕ, ◌+◌, Bool, ◌&&◌, Option, none, some, List, [], ◌∷◌, map, reverse, take, length, leb,
  if◌then◌else◌,
}
use ashat_coding_agent.Base.Text.{Text, codes, strip_prefix}
use ashat_coding_agent.ToolLoop.{
  Component, root_dir, cur_dir, parent_dir, normal, components, pieces, components_behind,
}

abbrev pub model_file_exts : List Text
model_file_exts = codes ".gguf" ∷ codes ".bin" ∷ codes ".safetensors" ∷ codes ".onnx" ∷ []

-- `to_ascii_lowercase`
abbrev pub lower : ℕ → ℕ
lower c = if leb 65 c && leb c 90 then c + 32 else c

abbrev pub reversed : Option Text → Option Text
reversed none = none
reversed (some s) = some (reverse s)

-- `strip_suffix`
unfoldable pub strip_suffix : Text → Text → Option Text
strip_suffix ext s = reversed (strip_prefix (reverse ext) (reverse s))

abbrev pub cut : Text → Text → Option Text → Text
cut name rest none = rest
cut name rest (some stem) = take (length stem) name

-- The loop over the extensions.
unfoldable pub strip_exts : List Text → Text → Text
strip_exts [] name = name
strip_exts (ext ∷ exts) name = cut name (strip_exts exts name) (strip_suffix ext (map lower name))

unfoldable pub strip_model_ext : Text → Text
unfolding strip_exts strip_suffix
strip_model_ext = strip_exts model_file_exts

abbrev pub last_normal : List Component → Option Text
last_normal [] = none
last_normal (normal s ∷ []) = some s
last_normal (root_dir ∷ []) = none
last_normal (cur_dir ∷ []) = none
last_normal (parent_dir ∷ []) = none
last_normal (c ∷ d ∷ cs) = last_normal (d ∷ cs)

-- `Path::file_name`: the last component, if it is a name.
unfoldable pub file_name : Text → Option Text
unfolding components pieces components_behind
file_name path = last_normal (components path)

abbrev pub or_model : Text → Text
or_model [] = codes "model"
or_model (c ∷ s) = c ∷ s

abbrev pub named : Option Text → Text
named none = codes "model"
named (some s) = or_model (strip_model_ext s)

unfoldable pub public_model_name : Text → Text
unfolding file_name strip_model_ext
public_model_name path = named (file_name path)

-- `filter(|s| !s.is_empty())` and the fallback on the raw text.
abbrev pub stem_or : Text → Option Text → Text
stem_or raw none = raw
stem_or raw (some []) = raw
stem_or raw (some (c ∷ s)) = c ∷ s

abbrev pub sanitized : Text → Text
sanitized [] = codes "model"
sanitized (c ∷ s) = strip_model_ext (c ∷ s)

unfoldable pub sanitize_model_name : Text → Text
unfolding file_name strip_model_ext
sanitize_model_name raw = sanitized (stem_or raw (file_name raw))
