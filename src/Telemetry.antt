-- ===== src/Telemetry.antt =====
-- crates/omega-server/src/peer_telemetry.rs: the cache of what the peers answer. What a peer answers
-- to a request, as decoded, is an argument; its three types are parameters.
pub mod Tests
use ashat_coding_agent.Base.{
  ◌≡◌, refl, Bool-cases, ◌⊎◌, inl, inr, Option, none, some, List, [], ◌∷◌, String, map,
  if◌then◌else◌,
}
use ashat_coding_agent.Base.Map.{insert, lookup, lookup-insert, string_eq}
use ashat_coding_agent.Types.{BackendServer}

pub record PeerSnapshot (S M T : Type 0) : Type 0 where
  pub status : Option S
  pub metrics : Option M
  pub timeseries : Option T

pub record PeerTelemetry (S M T : Type 0) : Type 0 where
  pub peers : List BackendServer
  pub inner : List (String × PeerSnapshot S M T)

-- A GET over `https`, with the peer's key if it has one.
pub record Get : Type 0 where
  pub peer : BackendServer
  pub path : String
  pub ashat_key : Option String

abbrev request_of : BackendServer → String → Get
request_of peer path = record { peer = peer; path = path; ashat_key = peer.api_key }

-- The client: `none` for a request that fails or an answer that is not of its type.
pub record Client (S M T : Type 0) : Type 0 where
  pub get_status : Get → Option S
  pub get_metrics : Get → Option M
  pub get_timeseries : Get → Option T

module _ {S M T : Type 0} where
  abbrev pub new : List BackendServer → PeerTelemetry S M T
  new peers = record { peers = peers; inner = [] }

  abbrev pub peer_ids : PeerTelemetry S M T → List String
  peer_ids t = map (λ p. p.id) t.peers

  abbrev pub snapshot : PeerTelemetry S M T → List (String × PeerSnapshot S M T)
  snapshot t = t.inner

  unfoldable pub poll : Client S M T → BackendServer → PeerSnapshot S M T
  poll c peer = record {
    status = c.get_status (request_of peer "/api/public_status");
    metrics = c.get_metrics (request_of peer "/api/public_metrics");
    timeseries = c.get_timeseries (request_of peer "/api/dashboard_timeseries");
  }

  -- The loop over the peers and their results.
  unfoldable pub insert_all :
      Client S M T
      → List BackendServer
      → List (String × PeerSnapshot S M T)
      → List (String × PeerSnapshot S M T)
  insert_all c [] cache = cache
  insert_all c (p ∷ ps) cache = insert_all c ps (insert p.id (poll c p) cache)

  unfoldable pub refresh : Client S M T → PeerTelemetry S M T → PeerTelemetry S M T
  refresh c t = record t { inner = insert_all c t.peers t.inner }

  -- What the last peer of an id answers, or what was known before.
  abbrev newest :
      Client S M T
      → String
      → List BackendServer
      → Option (PeerSnapshot S M T)
      → Option (PeerSnapshot S M T)
  newest c id [] before = before
  newest c id (p ∷ ps) before =
      newest c id ps (if string_eq.beq p.id id then some (poll c p) else before)

  insert_all-lookup :
      (c : Client S M T) (id : String) (ps : List BackendServer)
      (cache : List (String × PeerSnapshot S M T))
      → lookup id (insert_all c ps cache) ≡ newest c id ps (lookup id cache)
  unfolding insert_all
  insert_all-lookup c id [] cache = refl
  insert_all-lookup c id (p ∷ ps) cache =
      rw
        (
          insert_all-lookup c id ps (insert p.id (poll c p) cache),
          lookup-insert p.id id (poll c p) cache,
        )
        refl

  -- After a refresh, the cache holds for each peer what it has just answered, also if that is
  -- nothing; the entry of any other id is kept.
  refresh-snapshot :
      (c : Client S M T) (t : PeerTelemetry S M T) (id : String)
      → lookup id (snapshot (refresh c t)) ≡ newest c id t.peers (lookup id (snapshot t))
  unfolding refresh
  refresh-snapshot c t id = insert_all-lookup c id t.peers t.inner
