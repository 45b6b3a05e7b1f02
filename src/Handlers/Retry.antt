-- ===== src/Handlers/Retry.antt =====
-- The second attempt of `chat` when another server cannot be reached.
use ashat_coding_agent.Base.{
  ℕ, ◌+◌, ◌<◌, ◌≡◌, ◌≢◌, refl, ap, ◌∙◌, ◌⊎◌, inl, inr, false, Option, some, String, str_eq, eq_iff,
  arith,
}
use ashat_coding_agent.Base.Result.{Result, ok, err}
use ashat_coding_agent.Types.{
  BackendServer, ChatRequest, Intent, ProxyError, connection, status, decode, none_available,
  RouterError, chain_exhausted,
}
use ashat_coding_agent.Router.{RowRouter, fail_ttl, mark_unhealthy}
use ashat_coding_agent.Router.Pick.{IsChain, IsUsable, pick_lem, pick-mark_unhealthy}
use ashat_coding_agent.Demand.{World}
use ashat_coding_agent.Handlers.{
  AppState, Response, Outside, error_response, forward_cross_server, answer, Reached, repick,
  first_answer,
}

pub marked_chain :
    (id : String) (t : ℕ) (r : RowRouter) → IsChain r → IsChain (mark_unhealthy id t r)
unfolding mark_unhealthy
marked_chain id t r v = record { chain = v.chain; aligned = v.aligned }

str_eq-false : (s t : String) → s ≢ t → str_eq s t ≡ false
str_eq-false s t h = ground (arith, eq_iff s t)

module _ {C T : Type 0} (o : Outside C)
    (run : ChatRequest → World → Option (Result ProxyError T × World)) (r : ChatRequest)
    (intent : Intent) (b : BackendServer) where
  abbrev marked : AppState → RowRouter
  marked st = mark_unhealthy b.id o.failed_at st.router

  abbrev at_router : AppState → RowRouter → AppState
  at_router st router = record st { router = router }

  abbrev Usable : (st : AppState) → IsChain st.router → BackendServer → Type 0
  Usable st v =
      IsUsable (o.again).probe (o.again).now (o.again).later (marked st)
        (marked_chain b.id o.failed_at st.router v)

  -- The request went to `next`, or there was no backend left.
  abbrev IsRetried : (st : AppState) → IsChain st.router → ProxyError → Reached o run → Type 0
  IsRetried st v e out =
      ((next : BackendServer) × (router : RowRouter) × (out
          ≡ some (
              answer o run
                (forward_cross_server o run o.second r intent next (at_router st router))))
        × (next.id ≢ b.id)
        × Usable st v next
        × IsChain router)
      ⊎ (((x : BackendServer) → ¬ Usable st v x)
          × (router : RowRouter) × (out ≡ some (error_response e, at_router st router))
          × IsChain router)

  abbrev again :
      AppState → ProxyError → Option (Result RouterError BackendServer × RowRouter) → Reached o run
  again st e = repick o run r intent b e (at_router st (marked st))

  to_next :
      (st : AppState) (e : ProxyError) (next : BackendServer) (router : RowRouter)
      → next.id ≢ b.id
      → again st e (some (ok next, router))
        ≡ some
            (answer o run (forward_cross_server o run o.second r intent next (at_router st router)))
  unfolding repick
  to_next st e next router other = rw (str_eq-false next.id b.id other) refl

  to_none :
      (st : AppState) (e : ProxyError) (x : RouterError) (router : RowRouter)
      → again st e (some (err x, router)) ≡ some (error_response e, at_router st router)
  unfolding repick
  to_none st e x router = refl

  retried :
      (st : AppState) (v : IsChain st.router) (e : String)
      → (o.again).now < o.failed_at + fail_ttl
      → IsRetried st v (connection e) (first_answer o run r intent b (err (connection e), st))
  unfolding first_answer
  retried st v e soon =
      elim (pick_lem (o.again).probe (o.again).now (o.again).later (marked st)
        (marked_chain b.id o.failed_at st.router v)) [
          | inl (next, router, ran, usable, chain, _) ↦
              let other =
                pick-mark_unhealthy (o.again).probe (o.again).now (o.again).later o.failed_at
                  st.router b.id next router v soon ran in
              inl (
                next,
                router,
                ap (again st (connection e)) ran ∙ to_next st (connection e) next router other,
                other,
                usable,
                chain,
              )
          | inr (unusable, router, ran, chain) ↦ inr (
            unusable,
            router,
            ap (again st (connection e)) ran ∙ to_none st (connection e) chain_exhausted router,
            chain,
          )
        ]

  -- What comes of the first attempt, by how it ended.
  abbrev pub Follows :
      (first : Result ProxyError (Response C T) × AppState)
      → IsChain (first.1).router
      → Reached o run
      → Type 0
  Follows (ok response, st) v out = out ≡ some (response, st)
  Follows (err (connection e), st) v out = IsRetried st v (connection e) out
  Follows (err e, st) v out = out ≡ some (error_response e, st)

  -- A response of the first server, and any error of it but `Connection`, is answered as it is,
  -- and no other server is asked. Behind a `Connection` error of `b`, over a chain with distinct
  -- ids and if the second `pick` starts within the two seconds of the failure entry: the request
  -- goes once more, to a usable backend with another id, whose response or error is the answer; or
  -- no backend is usable and the answer is the first error. The call never panics, and the second
  -- attempt is one over the network also if that backend is `omega`, which is served here.
  pub first_answer-Follows :
      (first : Result ProxyError (Response C T) × AppState) (v : IsChain (first.1).router)
      → (o.again).now < o.failed_at + fail_ttl
      → Follows first v (first_answer o run r intent b first)
  unfolding first_answer
  first_answer-Follows (ok response, st) v soon = refl
  first_answer-Follows (err (connection e), st) v soon = retried st v e soon
  first_answer-Follows (err (status code), st) v soon = refl
  first_answer-Follows (err (decode e), st) v soon = refl
  first_answer-Follows (err none_available, st) v soon = refl
