-- ===== src/Config.antt =====
-- crates/omega-common/src/config.rs: `AppConfig::load`. The environment, the working directory, the
-- file system and the parsed `server-config.json` are arguments; a field that may be missing from
-- the file is an option there.
pub mod Keys
pub mod Binary
pub mod Tests
use ashat_coding_agent.Base.{
  ℕ, Bool, true, false, not, ◌||◌, Option, none, some, List, [], ◌∷◌, ◌==◌, ltb, length,
  if◌then◌else◌, String, str_eq,
}
use ashat_coding_agent.Base.Text.{Text, codes}
use ashat_coding_agent.Json.{or_else}
use ashat_coding_agent.Types.{BackendServer}
use ashat_coding_agent.ToolLoop.{is_absolute, components, pieces, components_behind}
use ashat_coding_agent.Models.{DirEntry, join, discover, first_of}

pub record InferenceSection : Type 0 where
  pub context : ℕ
  pub timeout_seconds : ℕ
  pub llama_threads : ℕ
  pub llama_gpu_layers : ℕ
  pub llama_mlock : Bool
  pub max_tokens : ℕ

pub record CodingAgentPoolSection : Type 0 where
  pub ports : List ℕ
  pub queue_max : ℕ
  pub spawn_attempts_before_503 : ℕ
  pub admission_timeout_seconds : ℕ

pub record HubSection : Type 0 where
  pub enabled : Bool
  pub url : String

pub record ToolLoopSection : Type 0 where
  pub max_iterations : ℕ
  pub command_timeout_seconds : ℕ
  pub output_max_chars : ℕ

pub record UpdatePeer : Type 0 where
  pub host : Text
  pub install : Text
  pub port : ℕ
  pub enabled : Bool

pub record UpdateSection : Type 0 where
  pub peers : List UpdatePeer
  pub timeout_seconds : ℕ

-- The file as it is written: the sections with the fields that may be left out.
pub record FileConfig : Type 0 where
  pub ash_key : String
  pub admin_key : Option String
  pub bind : String
  pub models_dir : Option Text
  pub inference_hint : Option Text
  pub context : ℕ
  pub timeout_seconds : ℕ
  pub llama_threads : Option ℕ
  pub llama_gpu_layers : Option ℕ
  pub llama_mlock : Option Bool
  pub max_tokens : Option ℕ
  pub ports : List ℕ
  pub queue_max : Option ℕ
  pub spawn_attempts_before_503 : Option ℕ
  pub admission_timeout_seconds : Option ℕ
  pub row_chain : List BackendServer
  pub persist_path : Option Text
  pub hub_enabled : Option Bool
  pub hub_url : Option String
  pub workspace_dir : Option Text
  pub max_iterations : Option ℕ
  pub command_timeout_seconds : Option ℕ
  pub output_max_chars : Option ℕ
  pub peers : Option (List UpdatePeer)
  pub update_timeout_seconds : Option ℕ

-- The defaults of the sections.
unfoldable pub inference_section : FileConfig → InferenceSection
inference_section f = record {
  context = f.context;
  timeout_seconds = f.timeout_seconds;
  llama_threads = or_else 2 f.llama_threads;
  llama_gpu_layers = or_else 0 f.llama_gpu_layers;
  llama_mlock = or_else false f.llama_mlock;
  max_tokens = or_else 1024 f.max_tokens;
}

unfoldable pub pool_section : FileConfig → CodingAgentPoolSection
pool_section f = record {
  ports = f.ports;
  queue_max = or_else 32 f.queue_max;
  spawn_attempts_before_503 = or_else 3 f.spawn_attempts_before_503;
  admission_timeout_seconds = or_else 15 f.admission_timeout_seconds;
}

unfoldable pub hub_section : FileConfig → HubSection
hub_section f = record { enabled = or_else false f.hub_enabled; url = or_else "" f.hub_url }

unfoldable pub tool_loop_section : FileConfig → ToolLoopSection
tool_loop_section f = record {
  max_iterations = or_else 5 f.max_iterations;
  command_timeout_seconds = or_else 10 f.command_timeout_seconds;
  output_max_chars = or_else 4000 f.output_max_chars;
}

unfoldable pub update_section : FileConfig → UpdateSection
update_section f = record {
  peers = or_else [] f.peers;
  timeout_seconds = or_else 600 f.update_timeout_seconds;
}

pub record AppConfig : Type 0 where
  pub bind : String
  pub ash_key : String
  pub admin_key : Option String
  pub llama_binary : Text
  pub inference_model : Text
  pub inference : InferenceSection
  pub coding_agent_pool : CodingAgentPoolSection
  pub backends : List BackendServer
  pub metrics_path : Text
  pub hub : HubSection
  pub workspace_dir : Text
  pub tool_loop : ToolLoopSection
  pub update : UpdateSection
  pub project_root : Text

-- What `load` asks the system. A variable that is unset or not text is `none`.
pub record System : Type 0 where
  pub env : String → Option String
  pub current_dir : Option Text
  pub read_dir : Text → Option (List (Option DirEntry))
  pub is_file : Text → Bool

abbrev pub text_of : Option String → Option Text
text_of none = none
text_of (some s) = some (codes s)

-- `filter(|k| !k.is_empty())`
abbrev pub non_empty : Option String → Option String
non_empty none = none
non_empty (some k) = if str_eq k "" then none else some k

unfoldable pub resolve_admin_key : (variable file : Option String) → Option String
resolve_admin_key variable file = non_empty (first_of (non_empty variable) file)

abbrev cons_head : ℕ → List Text → List Text
cons_head c [] = (c ∷ []) ∷ []
cons_head c (p ∷ ps) = (c ∷ p) ∷ ps

-- `split(':')`
unfoldable pub split_dirs : Text → List Text
split_dirs [] = [] ∷ []
split_dirs (c ∷ s) = let rest = split_dirs s in if c == 58 then [] ∷ rest else cons_head c rest

-- The loop over the directories.
unfoldable pub search_dirs : (Text → Bool) → Text → List Text → Text
search_dirs is_file name [] = name
search_dirs is_file name (dir ∷ dirs) =
    if is_file (join dir name) then join dir name else search_dirs is_file name dirs

abbrev pub search_path : (Text → Bool) → Text → Option Text → Text
search_path is_file name none = name
search_path is_file name (some paths) = search_dirs is_file name (split_dirs paths)

unfoldable pub resolve_llama_binary : (Text → Bool) → Option Text → Text → Text
unfolding search_dirs split_dirs is_absolute components pieces components_behind join
resolve_llama_binary is_file path name =
    if is_absolute name || ltb 1 (length (components name))
    then name
    else search_path is_file name path

abbrev pub root_of : System → Text
root_of s = or_else (or_else [] s.current_dir) (text_of (s.env "ASHAT_PROJECT_ROOT"))

unfoldable pub load : System → FileConfig → AppConfig
unfolding resolve_admin_key resolve_llama_binary discover join inference_section pool_section
    hub_section tool_loop_section update_section
load s file =
    let root = root_of s in
    let models_dir = join root (or_else (codes "models") file.models_dir) in
    let resolved = discover models_dir (s.read_dir models_dir) file.inference_hint in
    record {
      bind = or_else file.bind (s.env "OMEGA_BIND");
      ash_key = file.ash_key;
      admin_key = resolve_admin_key (s.env "ASHAT_ADMIN_KEY") file.admin_key;
      llama_binary =
          resolve_llama_binary s.is_file (text_of (s.env "PATH"))
            (or_else (codes "llama-server") (text_of (s.env "ASHAT_LLAMA_BIN")));
      inference_model = resolved.inference_path;
      inference = inference_section file;
      coding_agent_pool = pool_section file;
      backends = file.row_chain;
      metrics_path =
          or_else (join root (or_else (codes "logs/metrics.jsonl") file.persist_path))
            (text_of (s.env "OMEGA_METRICS_PATH"));
      hub = hub_section file;
      workspace_dir = join root (or_else (codes "workspaces") file.workspace_dir);
      tool_loop = tool_loop_section file;
      update = update_section file;
      project_root = root;
    }
