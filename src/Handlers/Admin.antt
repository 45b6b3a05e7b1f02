-- ===== src/Handlers/Admin.antt =====
-- The admin routes of crates/omega-server/src/handlers.rs, `admin_update` and `github_sync`, which run
-- scripts. What a script comes to within its budget is an argument.
pub mod Updates
pub mod Tests
use ashat_coding_agent.Base.{
  ℕ, Bool, true, false, not, ◌&&◌, ◌||◌, Option, none, some, List, [], ◌∷◌, ◌++◌, reverse, take,
  length, leb, filter, if◌then◌else◌,
}
use ashat_coding_agent.Base.Text.{Text, codes, text_eq}
use ashat_coding_agent.Json.{
  Value, boolean, string, object, member, no_members, get, as_str, or_else,
}
use ashat_coding_agent.ToolLoop.{is_blank}
use ashat_coding_agent.Config.{UpdatePeer}
use ashat_coding_agent.Proxy.{Bytes}
use ashat_coding_agent.Proxy.Send.{digits}

-- The end of a script: it cannot be started, waiting for it fails, it exceeds its budget, or it
-- exits.
pub data Process : Type 0 where
  not_spawned : (error : Text) → Process
  wait_failed : (error : Text) → Process
  timed_out : Process
  exited : (success : Bool) → (stdout stderr : Text) → Process

abbrev pub truncated_mark : Text
truncated_mark = codes "...[truncated]\n"

-- The last `max` characters.
unfoldable pub truncate_tail : Text → ℕ → Text
truncate_tail s max =
    if leb (length s) max then s else truncated_mark ++ reverse (take max (reverse s))

abbrev pub with_stderr : Text → Text → Text
with_stderr stdout stderr =
    if is_blank stderr then stdout else stdout ++ (codes "\n[stderr]\n" ++ stderr)

pub data SeedStatus : Type 0 where
  ok failed error timeout : SeedStatus

pub record SeedOutcome : Type 0 where
  pub status : SeedStatus
  pub output : Text

-- A `u64` has 20 digits at most.
abbrev seconds_text : ℕ → Text
seconds_text = digits 20

unfoldable pub run_seed_script : (budget : ℕ) → Process → SeedOutcome
unfolding truncate_tail
run_seed_script budget (not_spawned e) = record {
  status = error;
  output = codes "failed to spawn seed_slave.sh: " ++ e;
}
run_seed_script budget (wait_failed e) = record {
  status = error;
  output = codes "seed process error: " ++ e;
}
run_seed_script budget timed_out = record {
  status = timeout;
  output =
      codes "seed exceeded the "
      ++ (seconds_text budget
          ++ codes "s budget; child killed (rollback copy is in place on the peer)");
}
run_seed_script budget (exited success stdout stderr) = record {
  status = if success then ok else failed;
  output = truncate_tail (with_stderr stdout stderr) 4096;
}

pub record PeerReport : Type 0 where
  pub host : Text
  pub install : Text
  pub port : ℕ
  pub status : SeedStatus
  pub elapsed_seconds : ℕ
  pub output_tail : Text

abbrev pub is_ok : SeedStatus → Bool
is_ok ok = true
is_ok _ = false

pub data UpdateReport : Type 0 where
  noop : UpdateReport
  report : (any_failed : Bool) → List PeerReport → UpdateReport

abbrev pub report_of : UpdatePeer → ℕ → SeedOutcome → PeerReport
report_of p elapsed o = record {
  host = p.host;
  install = p.install;
  port = p.port;
  status = o.status;
  elapsed_seconds = elapsed;
  output_tail = o.output;
}

module _ {W : Type 0} (script : UpdatePeer → W → (Process × ℕ) × W) (budget : ℕ) where
  -- The loop over the peers: whether one failed, the results, and the world behind the scripts.
  unfoldable pub update_peers :
      List UpdatePeer → Bool → List PeerReport → W → (Bool × List PeerReport) × W
  unfolding run_seed_script
  update_peers [] any_failed results w = ((any_failed, results), w)
  update_peers (p ∷ ps) any_failed results w =
      let ((process, elapsed), w') = script p w in
      let outcome = run_seed_script budget process in
      update_peers ps (any_failed || not (is_ok outcome.status))
        (results ++ report_of p elapsed outcome ∷ []) w'

  abbrev pub update_enabled : List UpdatePeer → W → UpdateReport × W
  update_enabled [] w = (noop, w)
  update_enabled (p ∷ ps) w =
      let ((any_failed, results), w') = update_peers (p ∷ ps) false [] w in
      (report any_failed results, w')

  -- Behind the key check; the update lock is held for the loop.
  unfoldable pub admin_update : List UpdatePeer → W → UpdateReport × W
  unfolding update_peers
  admin_update peers w = update_enabled (filter (λ p. p.enabled) peers) w

pub data SyncMode : Type 0 where
  status pull push : SyncMode

abbrev pub mode_of : Text → Option SyncMode
mode_of s =
    if text_eq s (codes "status")
    then some SyncMode.status
    else if text_eq s (codes "pull")
    then some pull
    else if text_eq s (codes "push")
    then some push
    else none

abbrev pub budget_of : SyncMode → ℕ
budget_of SyncMode.status = 90
budget_of pull = 1500
budget_of push = 180

-- Only `pull` holds the update lock.
abbrev pub takes_lock : SyncMode → Bool
takes_lock pull = true
takes_lock _ = false

pub record ScriptOutcome : Type 0 where
  pub success : Bool
  pub stdout : Text
  pub stderr : Text

-- `script` is the path as it is shown in the message.
unfoldable pub run_script_capture : (script : Text) (budget : ℕ) → Process → ScriptOutcome
run_script_capture script budget (not_spawned e) = record {
  success = false;
  stdout = [];
  stderr = codes "failed to spawn " ++ (script ++ (codes ": " ++ e));
}
run_script_capture script budget (wait_failed e) = record {
  success = false;
  stdout = [];
  stderr = codes "script error: " ++ e;
}
run_script_capture script budget timed_out = record {
  success = false;
  stdout = [];
  stderr = codes "script exceeded the " ++ (seconds_text budget ++ codes "s budget; child killed");
}
run_script_capture script budget (exited success stdout stderr) = record {
  success = success;
  stdout = stdout;
  stderr = stderr;
}

pub data SyncResponse : Type 0 where
  bad_body : SyncResponse
  unknown_mode : Text → SyncResponse
  synced : SyncMode → (success : Bool) → (report : Value) → (output_tail : Text) → SyncResponse

-- The report when the script printed no JSON.
abbrev pub no_report : ScriptOutcome → Value
no_report o = object (
    member (codes "ok") (boolean o.success) (
      member (codes "message")
        (string (codes "script produced no JSON report: " ++ truncate_tail o.stderr 300))
        no_members))

module _ {W : Type 0} (from_str : Bytes → Option Value) (path : Text)
    (script : SyncMode → W → Process × W) where
  abbrev pub sync_response : SyncMode → ScriptOutcome → SyncResponse
  sync_response mode o =
      synced mode o.success (or_else (no_report o) (from_str o.stdout))
        (truncate_tail (with_stderr o.stdout o.stderr) 4096)

  abbrev pub sync_mode : Text → Option SyncMode → W → SyncResponse × W
  sync_mode text none w = (unknown_mode text, w)
  sync_mode text (some mode) w =
      let (process, w') = script mode w in
      (sync_response mode (run_script_capture path (budget_of mode) process), w')

  abbrev pub sync_body : Option Bytes → W → SyncResponse × W
  sync_body none w = (bad_body, w)
  sync_body (some raw) w =
      let text = or_else (codes "status") (as_str (get (codes "mode") (from_str raw))) in
      sync_mode text (mode_of text) w

  -- `to_bytes limit` is what axum reads of the body.
  unfoldable pub github_sync : (to_bytes : ℕ → Option Bytes) → W → SyncResponse × W
  unfolding run_script_capture truncate_tail
  github_sync to_bytes w = sync_body (to_bytes 16384) w
