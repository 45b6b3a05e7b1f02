-- ===== src/Router/Positions.antt =====
-- The positions of the healthy backends in the chain, when the chain's ids are distinct.
use ashat_coding_agent.Base.{
  ℕ, zero, suc, ◌<◌, ◌≡◌, refl, ap, ◌∙◌, sym, inl, inr, none, some, List, [], ◌∷◌, arith, map,
  String, eq_iff, get_elem?, length, All, In, Distinct,
}
use ashat_coding_agent.Types.{BackendServer}
use ashat_coding_agent.Router.{find_position, positions_of, weight_at, weight_of}

abbrev pub ids : List BackendServer → List String
ids = map (λ b. b.id)

pub In-map : {A B : Type 0} (f : A → B) (a : A) (xs : List A) → In a xs → In (f a) (map f xs)
In-map f a [] m = elim m [ ]
In-map f a (x ∷ xs) (inl e) = inl (ap f e)
In-map f a (x ∷ xs) (inr m) = inr (In-map f a xs m)

pub get_elem?-map :
    {A B : Type 0} (f : A → B) (xs : List A) (j : ℕ) (b : B)
    → get_elem? (map f xs) j ≡ some b
    → (a : A) × (get_elem? xs j ≡ some a) × (f a ≡ b) × In a xs
get_elem?-map f [] j b h = cc
get_elem?-map f (x ∷ xs) zero b h = (x, refl, ground arith, inl refl)
get_elem?-map f (x ∷ xs) (suc j) b h =
    let (a, e, q, m) = get_elem?-map f xs j b h in (a, e, q, inr m)

find_position_lem :
    (id : String) (bs : List BackendServer) (p : ℕ)
    → find_position id bs ≡ some p
    → (b : BackendServer) × (get_elem? bs p ≡ some b) × (b.id ≡ id) × (p < length bs)
unfolding find_position
find_position_lem id [] p h = cc
find_position_lem id (b ∷ bs) zero h = (b, refl, (eq_iff b.id id).0 (ground arith), omega arith)
find_position_lem id (b ∷ bs) (suc p) h =
    let found : find_position id bs ≡ some p = ground arith in
    let (c, e, i, l) = find_position_lem id bs p found in (c, e, i, omega arith)

-- The position of a backend in the chain.
pub position : List BackendServer → BackendServer → ℕ
position bs h = elim (find_position h.id bs) [ none ↦ 0 | some p ↦ p ]

pub position_of_id :
    (bs : List BackendServer) (a b : BackendServer) → a.id ≡ b.id → position bs a ≡ position bs b
unfolding position
position_of_id bs a b e = rw e refl

find_position_of_In :
    (bs : List BackendServer) (b : BackendServer)
    → Distinct (ids bs)
    → In b bs
    → (p : ℕ) × (find_position b.id bs ≡ some p) × (weight_at bs p ≡ weight_of b)
unfolding find_position
find_position_of_In [] b d m = elim m [ ]
find_position_of_In (x ∷ bs) b d (inl e) =
    (0, rw ((eq_iff x.id b.id).1 (ap (λ (y : BackendServer). y.id) e)) refl, rw e refl)
find_position_of_In (x ∷ bs) b d (inr m) =
    let (p, found, w) = find_position_of_In bs b d.1 m in
    (
      suc p,
      ground (arith, eq_iff x.id b.id, found, λ (e : x.id ≡ b.id). d.0 (rw e (In-map _ b bs m))),
      w,
    )

-- The positions of a healthy set whose members stand in the chain under distinct ids.
module _ (bs : List BackendServer) (d : Distinct (ids bs)) where
  find-position : (b : BackendServer) → In b bs → find_position b.id bs ≡ some (position bs b)
  unfolding position
  find-position b m = let (p, found, _) = find_position_of_In bs b d m in ground (arith, found)

  pub weight_at-position :
      (b : BackendServer) → In b bs → weight_at bs (position bs b) ≡ weight_of b
  unfolding position
  weight_at-position b m =
      let (p, found, w) = find_position_of_In bs b d m in rw (found, position) w

  pub position-lt : (b : BackendServer) → In b bs → position bs b < length bs
  position-lt b m = (find_position_lem b.id bs _ (find-position b m)).3

  pub position_inj :
      (a b : BackendServer) → In a bs → In b bs → position bs a ≡ position bs b → a.id ≡ b.id
  position_inj a b m n e =
      let (x, ex, ix, _) = find_position_lem a.id bs _ (find-position a m) in
      let (y, ey, iy, _) = find_position_lem b.id bs _ (find-position b n) in
      let same : x ≡ y = cc (ex, ey, ap (get_elem? bs) e) in
      sym ix ∙ ap (λ (z : BackendServer). z.id) same ∙ iy

  pub positions_of-map :
      (hs : List BackendServer) → All (λ h. In h bs) hs → positions_of bs hs ≡ map (position bs) hs
  unfolding positions_of
  positions_of-map [] m = refl
  positions_of-map (h ∷ hs) m =
      rw (find-position h m.0, positions_of) (ap (λ r. position bs h ∷ r) (positions_of-map hs m.1))

  -- A position of the set comes from a member.
  pub position-out :
      (h : BackendServer) (hs : List BackendServer)
      → In h bs
      → All (λ g. In g bs) hs
      → ¬ In h.id (ids hs)
      → ¬ In (position bs h) (map (position bs) hs)
  position-out h [] m ms out i = elim i [ ]
  position-out h (g ∷ hs) m ms out (inl e) = out (inl (position_inj g h ms.0 m e))
  position-out h (g ∷ hs) m ms out (inr i) = position-out h hs m ms.1 (λ o. out (inr o)) i

  pub positions-Distinct :
      (hs : List BackendServer)
      → All (λ h. In h bs) hs
      → Distinct (ids hs)
      → Distinct (map (position bs) hs)
  positions-Distinct [] m k = tt
  positions-Distinct (h ∷ hs) m k = (position-out h hs m.0 m.1 k.0, positions-Distinct hs m.1 k.1)

  pub positions_bounds :
      (n : ℕ) (hs : List BackendServer)
      → length bs ≡ n
      → All (λ h. In h bs) hs
      → All (λ p. p < n) (map (position bs) hs)
  positions_bounds n [] e m = tt
  positions_bounds n (h ∷ hs) e m = (omega (arith, position-lt h m.0), positions_bounds n hs e m.1)
