-- ===== src/Config/Tests.antt =====
-- Runs of `load` and instances of its theorems.
use ashat_coding_agent.Base.{
  ◌≡◌, ◌≢◌, ◌⊎◌, ◌↔◌, refl, Bool, Option, none, some, [], String, str_eq, if◌then◌else◌,
}
use ashat_coding_agent.Base.Text.{Text, codes, text_eq}
use ashat_coding_agent.Auth.{next, require_admin_key}
use ashat_coding_agent.Config.{System, FileConfig, load, resolve_llama_binary}
use ashat_coding_agent.Config.Keys.{keys_of, IsAdminKey, load-require_admin_key}
use ashat_coding_agent.Config.Binary.{IsLocated, IsFound, dirs_of, resolve_llama_binary_lem}

abbrev test_file : FileConfig
test_file = record {
  ash_key = "shared";
  admin_key = some "";
  bind = "0.0.0.0:8080";
  models_dir = none;
  inference_hint = none;
  context = 4096;
  timeout_seconds = 120;
  llama_threads = none;
  llama_gpu_layers = none;
  llama_mlock = none;
  max_tokens = none;
  ports = [];
  queue_max = none;
  spawn_attempts_before_503 = none;
  admission_timeout_seconds = none;
  row_chain = [];
  persist_path = none;
  hub_enabled = none;
  hub_url = none;
  workspace_dir = none;
  max_iterations = none;
  command_timeout_seconds = none;
  output_max_chars = none;
  peers = none;
  update_timeout_seconds = none;
}

abbrev test_env : String → Option String
test_env k =
    if str_eq k "PATH"
    then some "/bin:/opt/llama"
    else if str_eq k "ASHAT_ADMIN_KEY"
    then some ""
    else none

abbrev has_llama : Text → Bool
has_llama p = text_eq p (codes "/opt/llama/llama-server")

abbrev test_system : System
test_system = record {
  env = test_env;
  current_dir = some (codes "/srv");
  read_dir = λ p. none;
  is_file = has_llama;
}

loaded_binary : (load test_system test_file).llama_binary ≡ codes "/opt/llama/llama-server"
unfolding load
loaded_binary = refl

loaded_model :
    (load test_system test_file).inference_model
    ≡ codes "/srv/models/LFM2.5-1.2B-Instruct-Q4_K_M.gguf"
unfolding load
loaded_model = refl

-- Empty admin keys count as unset.
loaded_admin_key : (load test_system test_file).admin_key ≡ none
unfolding load
loaded_admin_key = refl

load-require_admin_key_example :
    (k : String) × IsAdminKey (test_env "ASHAT_ADMIN_KEY") (some "") "shared" k
    × ((header : Option String)
        → (require_admin_key (keys_of (load test_system test_file)) header ≡ next)
          ↔ ((k ≢ "") × (header ≡ some k)))
load-require_admin_key_example = load-require_admin_key test_system test_file

abbrev dirs : Option Text
dirs = some (codes "/bin:/opt/llama")

abbrev llama : Text
llama = codes "llama-server"

resolve_llama_binary_lem_example :
    (IsLocated llama × (resolve_llama_binary has_llama dirs llama ≡ llama))
    ⊎ ((¬ IsLocated llama)
        × IsFound has_llama llama (dirs_of dirs) (resolve_llama_binary has_llama dirs llama))
resolve_llama_binary_lem_example = resolve_llama_binary_lem has_llama llama dirs
