-- ===== src/Lib.antt =====
-- AshatCodingAgent: an OpenAI-compatible gateway in front of local `llama-server` processes.
--
-- A request is routed over the row chain (crates/omega-core/src/router.rs) to a backend, or served
-- here by a lane of the demand pool (crates/omega-core/src/demand.rs), which spawns, reuses and
-- reaps `llama-server` children and lets callers wait in a bounded ticket queue
-- (crates/omega-core/src/queue.rs). A coding request holds one lane while the tool loop
-- (crates/omega-core/src/tool_loop.rs) runs the model's tool calls inside a workspace directory.
-- What happens is counted in the metrics store (crates/omega-common/src/metrics.rs).
--
-- The files:
--   Base       shared names: native numbers, lists, integers, maps as association lists, text,
--              results, and the case lemmas.
--   Json       `serde_json::Value`, which the proxies, the handlers and the tool loop walk.
--   Types      crates/omega-common/src/types.rs: the shared structs and enums; in Names, the public
--              names of models.
--   Config     crates/omega-common/src/config.rs: `AppConfig::load`, the admin key (Keys) and the
--              search for the inference binary (Binary).
--   Models     crates/omega-common/src/models.rs: `discover` and `pick`.
--   Metrics    crates/omega-common/src/metrics.rs: `MetricsStore`, its two bounded trails and its
--              counters; in Summary, the views that are computed from them.
--   Router     router.rs: `RowRouter` with `select_weighted`, `pick` and `mark_unhealthy`. The loop
--              of `select_weighted` is `scan` of `visit`; `pick` is `refresh`, `healthy_set` and
--              `select_healthy`. Proofs: Positions and Loop (one sweep), Round (one selection),
--              Fairness and Shares (the accounts of many), Cycle, Pick; in Concurrent, `pick` with
--              what other tasks do between its locks.
--   Queue      queue.rs: `WaitQueue`.
--   Demand     demand.rs: `DemandPool`. The methods are composed of the parts that run under one
--              lock; Lanes gives those parts as steps of concurrent tasks, the two parts of the reaper
--              and the shutdown included. Spawn is about starting
--              a child, Baseline about the always-on one, Reaper about `reap_idle`, Waiting about
--              `wait_and_pump`.
--   ToolLoop   tool_loop.rs: `safe_join`; in Edit, the tools that read and write files; in Listing,
--              those that list directories; in Programs, those that start a program; in Validate,
--              the syntax checks; in Patch, `apply_patch`: how hunks are collected, placed and
--              applied, and in Files the loop over the files of a diff; in Agent, `parse_response`
--              and the rounds of `run`, which hand messages to the model until it answers or the
--              budget is used; in Execute, `execute_tool`.
--   Proxy      crates/omega-core/src/proxy.rs: the stream that cuts a lane's bytes into events
--              (Chunks is about cutting), the lane that is put into each of them (Annotate), the
--              request to a lane (Send), `forward` (Local), `forward_streaming` and its end
--              (Stream), and the senders to another server (Cross).
--   Auth       crates/omega-server/src/auth.rs: the two key checks.
--   Handlers   crates/omega-server/src/handlers.rs: `chat` with its checks (Validation), composed
--              of the router, the pool and the proxies; in Admin, the routes that run scripts.
--   Telemetry  crates/omega-server/src/peer_telemetry.rs: the cache of what the peers answer.
--   The Tests modules hold runs on concrete inputs and instances of the theorems.
--
-- The modelling: numbers are unbounded unless a wrap-around is written out (the atomic counters);
-- the router's `i64` weights are integers that do not overflow. Instants are milliseconds in the
-- router and the pool, nanoseconds in the metrics. A panic is `none`. `HashMap`s are association
-- lists, and theorems range over all of them, whatever the order of iteration. Every loop is
-- structural recursion, but for two on fuel: `drain` polls a stream to its end and counts its polls,
-- of which one more than the bytes is enough; the loop of `apply_patch` takes one unit for each file,
-- and one more than the lines of the diff is enough.
--
-- From outside the source, as arguments: the answers of the HTTP probes and of the HTTP client, the
-- JSON parser and printer, the body that a request's reader yields, the environment and the parsed
-- configuration file, what directories hold and the glob engine finds, what spawning a process and
-- its health check come to, what scripts and programs print, what other tasks do while a waiter
-- sleeps, which files the disk refuses to write, the model's replies, and in Agent what a
-- tool does, or that it panics. Symbolic links are followed by the system, which says where a lookup
-- ends, and not by `safe_join`.
--
-- Not modelled: the status pages and the other answers that only copy snapshots into JSON, the
-- log of the agent workspace, logging, start-up, the sums of token rates (floating point), the
-- timestamps of reports and `sed_replace` (a regex engine).
pub mod Auth
pub mod Base
pub mod Config
pub mod Demand
pub mod Handlers
pub mod Json
pub mod Metrics
pub mod Models
pub mod Proxy
pub mod Queue
pub mod Router
pub mod Telemetry
pub mod ToolLoop
pub mod Types
