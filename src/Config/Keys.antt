-- ===== src/Config/Keys.antt =====
-- Which key opens the admin routes of a server that runs on a loaded configuration.
use ashat_coding_agent.Base.{
  ◌≡◌, ◌≢◌, refl, subst, ◌⊎◌, ◌↔◌, inl, inr, Option, none, some, String, str_eq, eq_iff, arith,
  Bool-cases,
}
use ashat_coding_agent.Config.{AppConfig, System, FileConfig, non_empty, resolve_admin_key, load}
use ashat_coding_agent.Auth.{Keys, next, expected_key, require_admin_key, require_admin_key_lem}

abbrev pub keys_of : AppConfig → Keys
keys_of c = record { ash_key = c.ash_key; admin_key = c.admin_key }

-- A key that is set and not empty.
abbrev pub Has : Option String → String → Type 0
Has o k = (o ≡ some k) × (k ≢ "")

abbrev pub HasNone : Option String → Type 0
HasNone o = (k : String) → ¬ Has o k

-- The admin key: the environment's, then the file's, then the shared one.
abbrev pub IsAdminKey : (variable file : Option String) → (shared key : String) → Type 0
IsAdminKey variable file shared key =
    Has variable key
    ⊎ ((HasNone variable × Has file key) ⊎ (HasNone variable × HasNone file × (key ≡ shared)))

non_empty-cases :
    (o : Option String)
    → ((k : String) × Has o k × (non_empty o ≡ some k)) ⊎ (HasNone o × (non_empty o ≡ none))
non_empty-cases none = inr ((λ k h. cc (h.0)), refl)
non_empty-cases (some k) = elim (Bool-cases (str_eq k "")) [
  | inl e ↦ inr ((λ j h. ground (arith, h.0, h.1, (eq_iff k "").0 e)), rw e refl)
  | inr e ↦ inl (k, (refl, λ h. ground (arith, (eq_iff k "").1 h, e)), rw e refl)
]

non_empty-set : (k : String) → k ≢ "" → non_empty (some k) ≡ some k
non_empty-set k h = ground (arith, eq_iff k "")

abbrev loaded : Option String → Option String → String → Keys
loaded variable file shared = record {
  ash_key = shared;
  admin_key = resolve_admin_key variable file;
}

resolved_key :
    (variable file : Option String) (shared : String)
    → (k : String) × IsAdminKey variable file shared k
      × (expected_key (loaded variable file shared) ≡ k)
unfolding resolve_admin_key
resolved_key variable file shared = elim (non_empty-cases variable) [
  | inl (k, set, e) ↦ (k, inl set, rw (e, non_empty-set k set.1) refl)
  | inr (unset, e) ↦ elim (non_empty-cases file) [
    | inl (k, set, f) ↦ (k, inr (inl (unset, set)), rw (e, f) refl)
    | inr (unset', f) ↦ (shared, inr (inr (unset, unset', refl)), rw (e, f) refl)
  ]
]

-- On a loaded configuration the admin routes are opened by one key only: the variable
-- `ASHAT_ADMIN_KEY` if it is set and not empty, else the file's `admin_key` if that is, else the
-- shared key. A header passes exactly if it is that key and the key is not empty.
pub load-require_admin_key :
    (s : System) (file : FileConfig)
    → (k : String) × IsAdminKey (s.env "ASHAT_ADMIN_KEY") file.admin_key file.ash_key k
      × ((header : Option String)
          → (require_admin_key (keys_of (load s file)) header ≡ next)
            ↔ ((k ≢ "") × (header ≡ some k)))
unfolding load
load-require_admin_key s file =
    let (k, is_key, e) = resolved_key (s.env "ASHAT_ADMIN_KEY") file.admin_key file.ash_key in
    (
      k,
      is_key,
      λ header.
          subst
            (λ (j : String).
              (require_admin_key (loaded (s.env "ASHAT_ADMIN_KEY") file.admin_key file.ash_key)
                  header
                ≡ next)
              ↔ ((j ≢ "") × (header ≡ some j)))
            e
            (require_admin_key_lem (loaded (s.env "ASHAT_ADMIN_KEY") file.admin_key file.ash_key)
              header),
    )
