-- ===== src/Proxy.antt =====
-- crates/omega-core/src/proxy.rs: the stream that hands on the server-sent events of a lane, one
-- event at a time. Bytes are numbers. What is put into an event, `annotate_event`, is an argument:
-- the theorems hold for any.
pub mod Chunks
pub mod Annotate
pub mod Send
pub mod Local
pub mod Stream
pub mod Cross
pub mod Balance
pub mod Records
pub mod Tests
use ashat_coding_agent.Base.{
  ℕ, zero, suc, ◌+◌, Bool, ◌&&◌, Option, none, some, List, [], ◌∷◌, ◌++◌, ◌==◌, if◌then◌else◌, take,
  drop,
}
use ashat_coding_agent.Types.{ProxyError}

abbrev pub Bytes : Type 0
Bytes = List ℕ

-- What a poll of the upstream gives; the end of a list of them is the end of the stream.
pub data Item : Type 0 where
  chunk : Bytes → Item
  failure : ProxyError → Item
  not_ready : Item

-- What a poll of this stream gives.
pub data Poll : Type 0 where
  event : Bytes → Poll
  error : ProxyError → Poll
  finished : Poll
  pending : Poll

unfoldable pub find_event_boundary : Bytes → Option ℕ
find_event_boundary [] = none
find_event_boundary (a ∷ []) = none
find_event_boundary (a ∷ b ∷ s) =
    let later = find_event_boundary (b ∷ s) in
    if (a == 10) && (b == 10) then some 0 else elim later [ none ↦ none | some i ↦ some (suc i) ]

pub record LaneAnnotatingStream : Type 0 where
  pub byte_stream : List Item
  pub buffer : Bytes

-- `poll_next` on a buffer and an upstream.
unfoldable pub poll_next :
    (annotate : Bytes → Bytes) → Bytes → List Item → Poll × LaneAnnotatingStream
poll_next annotate buffer [] = elim (find_event_boundary buffer) [
  | some i ↦ (
    event (annotate (take (i + 2) buffer)),
    record { byte_stream = []; buffer = drop (i + 2) buffer },
  )
  | none ↦ elim buffer [
    | [] ↦ (finished, record { byte_stream = []; buffer = [] })
    | c ∷ s ↦ (event (c ∷ s), record { byte_stream = []; buffer = [] })
  ]
]
poll_next annotate buffer (i ∷ items) = elim (find_event_boundary buffer) [
  | some n ↦ (
    event (annotate (take (n + 2) buffer)),
    record { byte_stream = i ∷ items; buffer = drop (n + 2) buffer },
  )
  | none ↦ elim i [
    | chunk bytes ↦ poll_next annotate (buffer ++ bytes) items
    | failure e ↦ (error e, record { byte_stream = items; buffer = buffer })
    | not_ready ↦ (pending, record { byte_stream = items; buffer = buffer })
  ]
]
