-- ===== src/Auth/Tests.antt =====
-- Instances of the theorems on the key checks.
use ashat_coding_agent.Base.{◌≡◌, ◌≢◌, ◌↔◌, refl, Option, String, some, none}
use ashat_coding_agent.Auth.{
  Keys, next, unauthorized, require_ashat_key, require_admin_key, require_ashat_key_lem,
}

abbrev one_key : Keys
one_key = record { ash_key = "k"; admin_key = none }

abbrev given : Option String
given = some "k"

-- An empty key lets nobody in, not even with an empty header.
empty_refused :
    require_ashat_key (record { ash_key = ""; admin_key = none }) (some "")
    ≡ unauthorized "Missing or invalid X-Ashat-Key"
unfolding require_ashat_key
empty_refused = refl

require_ashat_key_lem_example :
    (require_ashat_key one_key given ≡ next)
    ↔ ((one_key.ash_key ≢ "") × (given ≡ some one_key.ash_key))
require_ashat_key_lem_example = require_ashat_key_lem one_key given

-- Without an admin key the shared one opens the admin routes.
shared_admin : require_admin_key one_key given ≡ next
unfolding require_admin_key
shared_admin = refl
