-- ===== src/ToolLoop/Listing/Tests.antt =====
-- Runs of the listing tools, and an instance of the theorem on `tree`.
use ashat_coding_agent.Base.{◌≡◌, refl, Option, none, some, [], ◌∷◌, true, false}
use ashat_coding_agent.Base.Text.{codes}
use ashat_coding_agent.Base.Result.{ok}
use ashat_coding_agent.ToolLoop.{FilePath, starts_with, is_absolute}
use ashat_coding_agent.ToolLoop.Listing.{
  Node, Entries, file, symlink, directory, no_entries, entry, hit, children, tree_recurse, tree_at,
  tree, list_dir, glob_files, root_name,
}
use ashat_coding_agent.ToolLoop.Listing.Capped.{whole, cap, tree-cap}

abbrev work : FilePath
work = codes "agent" ∷ []

abbrev sources : Entries
sources = entry (codes "main.rs") file no_entries

abbrev project : Entries
project = entry (codes "b.md") file (
    entry (codes "link") symlink
      (entry (codes "src") (directory sources) (entry (codes "a.md") file no_entries)))

abbrev look : FilePath → Option Node
look p = some (directory project)

tree_test :
    tree look work none [] 4
    ≡ ok (
        codes "agent"
        ∷ codes "├── src/"
        ∷ codes "│   └── main.rs"
        ∷ codes "├── a.md"
        ∷ codes "└── b.md"
        ∷ [])
unfolding tree tree_at tree_recurse children
tree_test = refl

list_test :
    list_dir (some (some (codes "a.md", false) ∷ some (codes "src", true) ∷ []))
    ≡ ok (codes "file a.md" ∷ codes "dir  src" ∷ [])
unfolding list_dir
list_test = refl

-- A pattern that is absolute is handed to the engine as it is.
glob_test :
    glob_files
      (λ p. some (hit (codes "etc" ∷ codes "a.conf" ∷ []) 5 ∷ []))
      work
      (codes "/etc/*.conf")
    ≡ ok (codes "/etc/a.conf" ∷ [])
unfolding glob_files starts_with is_absolute
glob_test = refl

tree-cap_example : tree look work none [] 4 ≡ ok (cap (root_name work ∷ whole 4 [] project))
tree-cap_example = tree-cap look work none [] 4 work project refl refl
