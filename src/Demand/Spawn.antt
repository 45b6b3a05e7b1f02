-- ===== src/Demand/Spawn.antt =====
-- Starting a child in crates/omega-core/src/demand.rs: `spawn_llama_server` and `wait_for_health`,
-- which give the pool its `SpawnOutcome`. What the system and the child answer is an argument.
use Prim.Native.String
use ashat_coding_agent.Base.{
  ℕ, zero, suc, ◌+◌, ◌≤◌, ◌<◌, ◌≡◌, ◌≢◌, refl, ◌↔◌, Bool, true, false, Bool-cases, inl, inr, Option,
  none, some, List, [], ◌∷◌, ◌++◌, String, arith, if◌then◌else◌,
}
use ashat_coding_agent.Base.Result.{Result, ok, err}
use ashat_coding_agent.Types.{DemandSpawnError, missing_model, commander_spawn, health_gave_up}
use ashat_coding_agent.Demand.{DemandSpec, SpawnOutcome, refused, unhealthy, healthy}

-- An argument of the command line: a text, or a number that is printed.
pub data Arg : Type 0 where
  word : String → Arg
  shown : ℕ → Arg

unfoldable pub command_args : DemandSpec → ℕ → List Arg
command_args spec port =
    let args =
      word "--host"
      ∷ word spec.host
      ∷ word "--port"
      ∷ shown port
      ∷ word "-m"
      ∷ word spec.model
      ∷ word "-c"
      ∷ shown spec.ctx
      ∷ word "-t"
      ∷ shown spec.threads
      ∷ word "-ngl"
      ∷ shown spec.gpu_layers
      ∷ [] in
    if spec.mlock then args ++ word "--mlock" ∷ [] else args

-- `exists` is whether the model file is there, `spawn` starts the program on its arguments.
unfoldable pub spawn_llama_server :
    (exists : Bool)
    → (spawn : String → List Arg → Result String ℕ) → DemandSpec
    → ℕ
    → Result DemandSpawnError ℕ
spawn_llama_server exists spawn spec port =
    if exists
    then elim (spawn spec.binary (command_args spec port)) [
      | ok child ↦ ok child
      | err e ↦ err (commander_spawn e)
    ]
    else err missing_model

-- The loop over the attempts: `left` more, the next of which is `attempt`.
unfoldable pub poll_health : (success : ℕ → Bool) → (left attempt : ℕ) → Bool
poll_health success zero attempt = false
poll_health success (suc n) attempt =
    let rest = poll_health success n (suc attempt) in if success attempt then true else rest

-- `client` is the error of the HTTP client's builder, if it has one.
unfoldable pub wait_for_health :
    (client : Option String)
    → (url : String) → (success : ℕ → Bool) → Result DemandSpawnError (Unit {0})
wait_for_health (some e) url success = err (health_gave_up e)
wait_for_health none url success =
    if poll_health success 60 1
    then ok tt
    else err (health_gave_up (String.◌++◌ url " never reported healthy in 30 s"))

-- Both in a row, as `spawn_on_demand` calls them.
unfoldable pub spawn_outcome :
    Result DemandSpawnError ℕ → Result DemandSpawnError (Unit {0}) → (latency_ms : ℕ) → SpawnOutcome
spawn_outcome (err e) health ms = refused e
spawn_outcome (ok child) (err e) ms = unhealthy child e
spawn_outcome (ok child) (ok _) ms = healthy child ms

poll_health-some :
    (success : ℕ → Bool) (n a : ℕ)
    → poll_health success n a ≡ true
    → (k : ℕ) × (a ≤ k) × (k < a + n) × (success k ≡ true)
unfolding poll_health
poll_health-some success zero a e = ground (arith, e)
poll_health-some success (suc n) a e = elim (Bool-cases (success a)) [
  | inl f ↦ (a, omega arith, omega arith, f)
  | inr f ↦
      let (k, low, high, g) = poll_health-some success n (suc a) (ground (arith, e, f)) in
      (k, omega (arith, low), omega (arith, high), g)
]

some-poll_health :
    (success : ℕ → Bool) (n a k : ℕ)
    → a ≤ k
    → k < a + n
    → success k ≡ true
    → poll_health success n a ≡ true
unfolding poll_health
some-poll_health success zero a k low high g = absurd (omega (arith, low, high))
some-poll_health success (suc n) a k low high g = elim (Bool-cases (success a)) [
  | inl f ↦ rw f refl
  | inr f ↦
      let other : a ≢ k = (λ e. ground (arith, f, g, e)) in
      rw f
        (some-poll_health success n (suc a) k (omega (arith, low, other)) (omega (arith, high)) g)
]

in_sixty :
    (success : ℕ → Bool)
    → (k : ℕ) × (1 ≤ k) × (k < 1 + 60) × (success k ≡ true)
    → (k : ℕ) × (1 ≤ k) × (k ≤ 60) × (success k ≡ true)
in_sixty success (k, low, high, g) = (k, low, omega (arith, high), g)

-- With a client, a child counts as healthy exactly if one of the attempts 1 to 60 is answered with
-- success.
pub wait_for_health_lem :
    (url : String) (success : ℕ → Bool)
    → (wait_for_health none url success ≡ ok tt)
      ↔ ((k : ℕ) × (1 ≤ k) × (k ≤ 60) × (success k ≡ true))
unfolding wait_for_health
wait_for_health_lem url success = elim (Bool-cases (poll_health success 60 1)) [
  | inl e ↦ rw e (λ _. in_sixty success (poll_health-some success 60 1 e), λ _. refl)
  | inr e ↦ rw e (
    λ f. ground (arith, f),
    λ (k, low, high, g).
        ground (arith, e, some-poll_health success 60 1 k low (omega (arith, high)) g),
  )
]
