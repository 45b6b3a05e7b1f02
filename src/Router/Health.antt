-- ===== src/Router/Health.antt =====
-- The probe cache of the router: which entries are fresh, and what the probes write back.
use ashat_coding_agent.Base.{
  ℕ, ◌<◌, ◌≡◌, refl, ◌∙◌, subst, ◌⊎◌, inl, inr, none, Option-cases, ltb, ◌-◌, ◌≤◌, some, List, [],
  ◌∷◌, arith, String, eq_iff, eq_refl, Bool, true, false, Bool-cases, if◌then◌else◌, All, In,
  Distinct, filter,
}
use ashat_coding_agent.Base.Map.{lookup, lookup-insert, string_eq}
use ashat_coding_agent.Types.{BackendServer}
use ashat_coding_agent.Router.{Cache, HealthEntry, ttl, needs_probe, record_probes, is_healthy}
use ashat_coding_agent.Router.Positions.{ids}

keep_head :
    (i : String) (b : BackendServer) (cs bs : List BackendServer)
    → (In i (ids cs) → In i (ids bs))
    → In i (ids (b ∷ cs))
    → In i (ids (b ∷ bs))
keep_head i b cs bs rest (inl e) = inl e
keep_head i b cs bs rest (inr m) = inr (rest m)

ids-filter_sub :
    (t : BackendServer → Bool) (i : String) (bs : List BackendServer)
    → In i (ids (filter t bs))
    → In i (ids bs)
ids-filter_sub t i [] m = elim m [ ]
ids-filter_sub t i (b ∷ bs) m = elim (Bool-cases (t b)) [
  | inl e ↦ keep_head i b (filter t bs) bs (ids-filter_sub t i bs) (rw e at m)
  | inr e ↦ inr (ids-filter_sub t i bs (rw e at m))
]

pub ids-filter :
    (t : BackendServer → Bool) (bs : List BackendServer)
    → Distinct (ids bs)
    → Distinct (ids (filter t bs))
ids-filter t [] d = tt
ids-filter t (b ∷ bs) d = elim (Bool-cases (t b)) [
  | inl e ↦ rw e (λ m. d.0 (ids-filter_sub t b.id bs m), ids-filter t bs d.1)
  | inr e ↦ rw e (ids-filter t bs d.1)
]

pub All-intro :
    (P : BackendServer → Type 0) (bs : List BackendServer)
    → ((b : BackendServer) → In b bs → P b)
    → All P bs
All-intro P [] h = tt
All-intro P (b ∷ bs) h = (h b (inl refl), All-intro P bs (λ x m. h x (inr m)))

-- The cache behind the probes, key by key.
pub record_other :
    (probe : BackendServer → Bool) (at : ℕ) (i : String) (bs : List BackendServer) (cache : Cache)
    → ¬ In i (ids bs)
    → lookup i (record_probes probe at bs cache) ≡ lookup i cache
unfolding record_probes
record_other probe at i [] cache h = refl
record_other probe at i (b ∷ bs) cache h =
    record_other probe at i bs _ (λ m. h (inr m))
    ∙ ground (
      arith,
      lookup-insert b.id i (record { healthy = probe b; checked_at = at }) cache,
      eq_iff b.id i,
      λ (e : b.id ≡ i). h (inl e),
    )

pub record_probed :
    (probe : BackendServer → Bool) (at : ℕ) (b : BackendServer) (bs : List BackendServer)
    (cache : Cache)
    → Distinct (ids bs)
    → In b bs
    → lookup b.id (record_probes probe at bs cache)
      ≡ some (record { healthy = probe b; checked_at = at })
unfolding record_probes
record_probed probe at b [] cache d m = elim m [ ]
record_probed probe at b (x ∷ bs) cache d (inl e) =
    subst
      (λ (y : BackendServer).
        lookup y.id (record_probes probe at (x ∷ bs) cache)
        ≡ some (record { healthy = probe y; checked_at = at }))
      e
      (record_other probe at x.id bs _ d.0
        ∙ ground (
          arith,
          lookup-insert x.id x.id (record { healthy = probe x; checked_at = at }) cache,
          eq_refl x.id,
        ))
record_probed probe at b (x ∷ bs) cache d (inr m) = record_probed probe at b bs _ d.1 m

needs_probe_id :
    (now : ℕ) (cache : Cache) (a b : BackendServer)
    → a.id ≡ b.id
    → needs_probe now cache a ≡ needs_probe now cache b
needs_probe_id now cache a b e = rw e refl

fresh_head :
    (now : ℕ) (cache : Cache) (b x : BackendServer) (cs : List BackendServer)
    → needs_probe now cache b ≡ false
    → needs_probe now cache x ≡ true
    → ¬ In b.id (ids cs)
    → ¬ In b.id (ids (x ∷ cs))
fresh_head now cache b x cs e h rest (inl same) = cc (needs_probe_id now cache x b same, e, h)
fresh_head now cache b x cs e h rest (inr m) = rest m

pub fresh_out :
    (now : ℕ) (cache : Cache) (b : BackendServer) (cs : List BackendServer)
    → needs_probe now cache b ≡ false
    → ¬ In b.id (ids (filter (needs_probe now cache) cs))
fresh_out now cache b [] e m = m
fresh_out now cache b (x ∷ cs) e m = elim (Bool-cases (needs_probe now cache x)) [
  | inl h ↦
      fresh_head now cache b x (filter (needs_probe now cache) cs) e h (fresh_out now cache b cs e)
        (rw h at m)
  | inr h ↦ fresh_out now cache b cs e (rw h at m)
]

pub healthy_of :
    (c : Cache) (b : BackendServer) (e : HealthEntry)
    → lookup b.id c ≡ some e
    → is_healthy c b ≡ e.healthy
healthy_of c b e h = ground (arith, h)

pub healthy_same :
    (c c' : Cache) (b : BackendServer)
    → lookup b.id c ≡ lookup b.id c'
    → is_healthy c b ≡ is_healthy c' b
healthy_same c c' b h = ground (arith, h)

-- A backend whose entry says healthy and is younger than five seconds.
abbrev pub IsTrusted : ℕ → Cache → BackendServer → Type 0
IsTrusted now cache b =
    (e : HealthEntry) × (lookup b.id cache ≡ some e)
    × (e.healthy ≡ true)
    × (now - e.checked_at < 5000)

-- A backend without an entry, or with one that is five seconds old, or two if it says unhealthy.
abbrev pub IsDue : ℕ → Cache → BackendServer → Type 0
IsDue now cache b =
    (lookup b.id cache ≡ none)
    ⊎ ((e : HealthEntry) × (lookup b.id cache ≡ some e)
        × ((if e.healthy then 5000 else 2000) ≤ now - e.checked_at))

abbrev pub answer : (BackendServer → Bool) → ℕ → Cache → BackendServer → Bool
answer probe now cache b = if needs_probe now cache b then probe b else is_healthy cache b

pub answer_usable :
    (probe : BackendServer → Bool) (now : ℕ) (cache : Cache) (b : BackendServer)
    → answer probe now cache b ≡ true
    → IsTrusted now cache b ⊎ (IsDue now cache b × (probe b ≡ true))
answer_usable probe now cache b h = elim (Option-cases (lookup b.id cache)) [
  | inl e ↦ inr (inl e, ground (arith, h, e))
  | inr (x, e) ↦ elim (Bool-cases (ltb (now - x.checked_at) (ttl x))) [
    | inl f ↦ inl (x, e, ground (arith, h, e, f), ground (arith, h, e, f))
    | inr f ↦ inr (inr (x, e, ground (arith, f)), ground (arith, h, e, f))
  ]
]

pub usable_answer :
    (probe : BackendServer → Bool) (now : ℕ) (cache : Cache) (b : BackendServer)
    → IsTrusted now cache b ⊎ (IsDue now cache b × (probe b ≡ true))
    → answer probe now cache b ≡ true
usable_answer probe now cache b (inl (x, e, h, young)) = ground (arith, e, h, young)
usable_answer probe now cache b (inr (inl e, h)) = ground (arith, e, h)
usable_answer probe now cache b (inr (inr (x, e, old), h)) = ground (arith, e, old, h)
