-- ===== src/Types/Names/Tests.antt =====
-- Runs of the name functions, those of the source's tests among them.
use ashat_coding_agent.Base.{◌≡◌, ◌≢◌, ◌⊎◌, refl, []}
use ashat_coding_agent.Base.Text.{Text, codes}
use ashat_coding_agent.Types.Names.Stems.{IsPublic, IsBare, public_names_lem}
use ashat_coding_agent.Types.Names.{public_model_name, sanitize_model_name}

strips_directory :
    public_model_name (codes "/home/opc/models/LFM2.5-1.2B-Instruct-Q4_K_M.gguf")
    ≡ codes "LFM2.5-1.2B-Instruct-Q4_K_M"
unfolding public_model_name
strips_directory = refl

keeps_dots : sanitize_model_name (codes "LFM2.5-1.2B.GGUF") ≡ codes "LFM2.5-1.2B"
unfolding sanitize_model_name
keeps_dots = refl

-- A path that ends in `..` has no file name, and is shown whole.
shows_path : sanitize_model_name (codes "/srv/models/..") ≡ codes "/srv/models/.."
unfolding sanitize_model_name
shows_path = refl

shows_nothing : sanitize_model_name (codes "/srv/.bin") ≡ []
unfolding sanitize_model_name
shows_nothing = refl

abbrev no_name : Text
no_name = codes "/srv/models/.."

public_names_lem_example :
    ((public_model_name no_name ≢ []) × IsPublic no_name (public_model_name no_name))
    × (IsPublic no_name (sanitize_model_name no_name)
        ⊎ IsBare no_name (sanitize_model_name no_name))
public_names_lem_example = public_names_lem no_name
