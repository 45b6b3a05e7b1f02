-- ===== src/Types.antt =====
-- crates/omega-common/src/types.rs: the structs and enums that several components share.
pub mod Names
use Prim.Native.String
use ashat_coding_agent.Base.{ℕ, Bool, Option, List, String}
use ashat_coding_agent.Base.Text.{Text}
use ashat_coding_agent.Json.{Value}

-- A row of `row_chain`.
pub record BackendServer : Type 0 where
  pub id : String
  pub host : String
  pub port : ℕ
  pub api_key : Option String
  pub enabled : Bool
  pub weight : ℕ

pub data RouterError : Type 0 where
  chain_exhausted : RouterError

-- `MissingModel` and so on; the text of an I/O or health error is kept as it is.
pub data DemandSpawnError : Type 0 where
  missing_model : DemandSpawnError
  no_ports_available : DemandSpawnError
  binary_not_found : DemandSpawnError
  commander_spawn : String → DemandSpawnError
  health_gave_up : String → DemandSpawnError

-- `Display`
abbrev pub display : DemandSpawnError → String
display missing_model = "no GGUF model path supplied to demand pool"
display no_ports_available = "no free port in the demand-pool list"
display binary_not_found = "llama-server binary could not be located"
display (commander_spawn e) = String.◌++◌ "failed to spawn child process: " e
display (health_gave_up s) = String.◌++◌ "child /health did not pass: " s

pub data DemandAcquireError : Type 0 where
  pool_exhausted queue_aged_out : DemandAcquireError

pub data ProxyError : Type 0 where
  connection : String → ProxyError
  status : ℕ → ProxyError
  decode : String → ProxyError
  none_available : ProxyError

-- `tool_call_id` is left out of the JSON if it is none.
pub record ChatMessage : Type 0 where
  pub role : Text
  pub content : Text
  pub tool_call_id : Option Text

pub data AgentOperation : Type 0 where
  chat agent vision : AgentOperation

-- The two floating-point settings are kept as they are written.
pub record ChatRequest : Type 0 where
  pub model : Option Text
  pub messages : List ChatMessage
  pub max_tokens : Option ℕ
  pub temperature : Option Text
  pub top_p : Option Text
  pub stream : Option Bool
  pub operation : Option AgentOperation
  pub tools : Option (List Value)

pub data Intent : Type 0 where
  chat status code unknown : Intent

-- The lines of the event log, one constructor for each message that the source formats.
pub data Event : Type 0 where
  spawn_succeeded : (port : ℕ) → Event
  spawn_abandoned : (port : ℕ) → Event
  spawn_failed : (port : ℕ) → DemandSpawnError → Event
  baseline_ready : (port : ℕ) → Event
  baseline_respawned : (port : ℕ) → Event
  baseline_abandoned : (port : ℕ) → DemandSpawnError → Event
  baseline_respawn_failed : (port : ℕ) → DemandSpawnError → Event
