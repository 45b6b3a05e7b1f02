-- ===== src/Base/Map.antt =====
-- `HashMap` as an association list: the order of the entries is the iteration order, which the
-- program leaves to the table.
use Prim.Native.Nat.{ℕ, ◌<◌, max}
use Prim.Native.String.{String}
use mathlib.Core.Path.{◌≡◌, refl}
use mathlib.Core.Logic.{◌↔◌, inl, inr}
use mathlib.Core.Bool.{Bool, true}
use mathlib.Core.List.{List, [], ◌∷◌}
use mathlib.Core.Option.{Option, none, some}
use native.Mathlib.Omega.{arith}
use text.Mathlib.Text.{◌==◌ as str_eq}
use text.Mathlib.TextEquality.{eq_iff}
use ashat_coding_agent.Base.Lists.{count}
use ashat_coding_agent.Base.Tests.{◌==◌ as nat_beq, ==_iff, if◌then◌else◌, Bool-cases}

pub record Eq {ℓ} (K : Type ℓ) : Type ℓ where
  pub beq : K → K → Bool
  pub beq_iff : (a b : K) → (beq a b ≡ true) ↔ (a ≡ b)

instance abbrev pub nat_eq : Eq ℕ
nat_eq = record { beq = nat_beq; beq_iff = ==_iff }

instance abbrev pub string_eq : Eq String
string_eq = record { beq = str_eq; beq_iff = eq_iff }

module _ {ℓ κ} {K : Type κ} {V : Type ℓ} ⦃e : Eq K⦄ where
  abbrev pub lookup : K → List (K × V) → Option V
  lookup k [] = none
  lookup k ((j, v) ∷ m) = if e.beq j k then some v else lookup k m

  abbrev pub insert : K → V → List (K × V) → List (K × V)
  insert k v [] = (k, v) ∷ []
  insert k v ((j, w) ∷ m) = if e.beq j k then (k, v) ∷ m else (j, w) ∷ insert k v m

  -- Removes every entry of the key.
  abbrev pub remove : K → List (K × V) → List (K × V)
  remove k [] = []
  remove k ((j, v) ∷ m) = if e.beq j k then remove k m else (j, v) ∷ remove k m

  pub lookup-insert :
      (k j : K) (v : V) (m : List (K × V))
      → lookup j (insert k v m) ≡ (if e.beq k j then some v else lookup j m)
  lookup-insert k j v [] = refl
  lookup-insert k j v ((i, w) ∷ m) =
      ground (arith, e.beq_iff k j, e.beq_iff i k, e.beq_iff i j, lookup-insert k j v m)

  pub lookup-remove :
      (k j : K) (m : List (K × V))
      → lookup j (remove k m) ≡ (if e.beq k j then none else lookup j m)
  lookup-remove k j [] = ground arith
  lookup-remove k j ((i, w) ∷ m) =
      ground (arith, e.beq_iff k j, e.beq_iff i k, e.beq_iff i j, lookup-remove k j m)

abbrev pub keys {ℓ κ} : {K : Type κ} {V : Type ℓ} → List (K × V) → List K
keys [] = []
keys ((k, v) ∷ m) = k ∷ keys m

module _ {V : Type 0} where
  pub count-keys-insert :
      (x k : ℕ) (v : V) (m : List (ℕ × V))
      → count x (keys (insert k v m))
        ≡ (if nat_beq k x then max 1 (count x (keys m)) else count x (keys m))
  count-keys-insert x k v [] = ground arith
  count-keys-insert x k v ((j, w) ∷ m) = ground (arith, count-keys-insert x k v m)

  pub count-keys-remove :
      (x k : ℕ) (m : List (ℕ × V))
      → count x (keys (remove k m)) ≡ (if nat_beq k x then 0 else count x (keys m))
  count-keys-remove x k [] = ground arith
  count-keys-remove x k ((j, w) ∷ m) = ground (arith, count-keys-remove x k m)

  pub lookup_of_count :
      (k : ℕ) (m : List (ℕ × V)) → 0 < count k (keys m) → (v : V) × (lookup k m ≡ some v)
  lookup_of_count k [] h = absurd (omega arith)
  lookup_of_count k ((j, w) ∷ m) h = elim (Bool-cases (nat_beq j k)) [
    | inl e ↦ (w, rw e refl)
    | inr e ↦ rw e (lookup_of_count k m (ground arith))
  ]
