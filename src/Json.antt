-- ===== src/Json.antt =====
-- `serde_json::Value`, which the proxy, the handlers and the tool loop walk. Parsing and printing
-- are the library's: they are arguments where they are used. A number is kept as it is written.
use ashat_coding_agent.Base.{
  ℕ, ◌+◌, ◌-◌, ◌*◌, ◌^◌, ◌≡◌, refl, Bool, ◌&&◌, Option, none, some, [], ◌∷◌, arith, ltb, leb,
  if◌then◌else◌,
}
use ashat_coding_agent.Base.Text.{Text, text_eq, text_eq_iff}

mutual
  pub data Value : Type 0 where
    null : Value
    boolean : Bool → Value
    number : Text → Value
    string : Text → Value
    array : Items → Value
    object : Members → Value

  pub data Items : Type 0 where
    no_items : Items
    item : Value → Items → Items

  pub data Members : Type 0 where
    no_members : Members
    member : Text → Value → Members → Members

abbrev pub member_of : Text → Members → Option Value
member_of key no_members = none
member_of key (member k v ms) = if text_eq k key then some v else member_of key ms

-- `Map::insert`: replaces the value of a key that is there. The order of the members is the map's.
abbrev pub insert_member : Text → Value → Members → Members
insert_member key v no_members = member key v no_members
insert_member key v (member k w ms) =
    if text_eq k key then member key v ms else member k w (insert_member key v ms)

-- `if let Some(obj) = value.as_object_mut() { obj.insert(key, v) }`
abbrev pub with_member : Text → Value → Value → Value
with_member key v (object ms) = object (insert_member key v ms)
with_member key v other = other

-- `get` by a key, and the first item of an array.
abbrev pub get : Text → Option Value → Option Value
get key (some (object ms)) = member_of key ms
get key _ = none

abbrev pub first_item : Option Value → Option Value
first_item (some (array (item v vs))) = some v
first_item _ = none

abbrev pub as_str : Option Value → Option Text
as_str (some (string s)) = some s
as_str _ = none

-- A number that is written in digits only and fits in 64 bits.
abbrev digits_value : ℕ → Text → Option ℕ
digits_value n [] = some n
digits_value n (c ∷ s) =
    let rest = digits_value (n * 10 + (c - 48)) s in if leb 48 c && leb c 57 then rest else none

abbrev below_u64 : Option ℕ → Option ℕ
below_u64 none = none
below_u64 (some n) = if ltb n (2 ^ 64) then some n else none

abbrev number_u64 : Text → Option ℕ
number_u64 [] = none
number_u64 (c ∷ s) = below_u64 (digits_value 0 (c ∷ s))

abbrev pub as_u64 : Option Value → Option ℕ
as_u64 (some (number t)) = number_u64 t
as_u64 _ = none

abbrev pub or_else {ℓ} : {A : Type ℓ} → A → Option A → A
or_else d none = d
or_else d (some a) = a

-- What a map says after an insertion.
pub member_of-insert_member :
    (key j : Text) (v : Value) (ms : Members)
    → member_of j (insert_member key v ms) ≡ (if text_eq key j then some v else member_of j ms)
member_of-insert_member key j v no_members = refl
member_of-insert_member key j v (member k w ms) = ground (
  arith,
  text_eq_iff k key,
  text_eq_iff key j,
  text_eq_iff k j,
  member_of-insert_member key j v ms,
)
