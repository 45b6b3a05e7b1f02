-- ===== src/Auth.antt =====
-- crates/omega-server/src/auth.rs: the two middlewares that compare the `X-Ashat-Key` header with a
-- configured key. A header that is missing or not text is `none`.
pub mod Tests
use ashat_coding_agent.Base.{
  Bool, true, false, not, ◌||◌, ◌≡◌, ◌≢◌, ◌↔◌, Option, none, some, String, str_eq, eq_iff, arith,
  if◌then◌else◌,
}

pub record Keys : Type 0 where
  pub ash_key : String
  pub admin_key : Option String

-- The request goes on to the handler, or is answered 401 with a message.
pub data Gate : Type 0 where
  next : Gate
  unauthorized : (message : String) → Gate

abbrev supplied_or_empty : Option String → String
supplied_or_empty none = ""
supplied_or_empty (some s) = s

unfoldable pub require_ashat_key : Keys → Option String → Gate
require_ashat_key keys header =
    let supplied = supplied_or_empty header in
    if str_eq keys.ash_key "" || not (str_eq supplied keys.ash_key)
    then unauthorized "Missing or invalid X-Ashat-Key"
    else next

abbrev pub expected_key : Keys → String
expected_key keys = elim keys.admin_key [ none ↦ keys.ash_key | some k ↦ k ]

unfoldable pub require_admin_key : Keys → Option String → Gate
require_admin_key keys header =
    let supplied = supplied_or_empty header in
    if str_eq (expected_key keys) "" || not (str_eq supplied (expected_key keys))
    then unauthorized "Missing or invalid admin key"
    else next

-- The comparison that both make.
compare :
    (key message : String) (header : Option String)
    → ((if str_eq key "" || not (str_eq (supplied_or_empty header) key)
          then unauthorized message
          else next)
        ≡ next)
      ↔ ((key ≢ "") × (header ≡ some key))
compare key message none = ground (arith, eq_iff key "", eq_iff "" key)
compare key message (some s) = ground (arith, eq_iff key "", eq_iff s key)

-- A request passes the key check exactly if a key is configured and the header holds it.
pub require_ashat_key_lem :
    (keys : Keys) (header : Option String)
    → (require_ashat_key keys header ≡ next) ↔ ((keys.ash_key ≢ "") × (header ≡ some keys.ash_key))
unfolding require_ashat_key
require_ashat_key_lem keys = compare keys.ash_key "Missing or invalid X-Ashat-Key"

-- A request passes the admin check exactly if the header holds the admin key, or the shared key
-- where no admin key is configured, and that key is not empty.
pub require_admin_key_lem :
    (keys : Keys) (header : Option String)
    → (require_admin_key keys header ≡ next)
      ↔ ((expected_key keys ≢ "") × (header ≡ some (expected_key keys)))
unfolding require_admin_key
require_admin_key_lem keys = compare (expected_key keys) "Missing or invalid admin key"
