-- ===== src/Handlers/Admin/Tests.antt =====
-- Runs of the admin routes and an instance of the theorem on updates.
use ashat_coding_agent.Base.{
  ℕ, zero, suc, ◌+◌, ◌≡◌, refl, true, false, Option, none, some, List, [], ◌∷◌, filter,
}
use ashat_coding_agent.Base.Text.{codes}
use ashat_coding_agent.Json.{Value}
use ashat_coding_agent.Config.{UpdatePeer}
use ashat_coding_agent.Proxy.{Bytes}
use ashat_coding_agent.Handlers.Admin.{
  Process, exited, timed_out, truncate_tail, admin_update, SyncResponse, github_sync, SyncMode,
}
use ashat_coding_agent.Handlers.Admin.Updates.{IsReported, admin_update-IsReported}

abbrev beta_peer : UpdatePeer
beta_peer = record {
  host = codes "opc@beta";
  install = codes "/srv/slave";
  port = 8082;
  enabled = true;
}

abbrev test_peers : List UpdatePeer
test_peers =
    beta_peer ∷ record beta_peer { enabled = false } ∷ record beta_peer { port = 8083 } ∷ []

-- The first script ends well, the second exceeds its budget.
abbrev scripts : UpdatePeer → ℕ → (Process × ℕ) × ℕ
scripts p zero = ((exited true (codes "seeded") (codes " \n"), 7), 1)
scripts p (suc n) = ((timed_out, 600), n + 2)

last_characters : truncate_tail (codes "abcdef") 2 ≡ codes "...[truncated]\nef"
unfolding truncate_tail
last_characters = refl

abbrev no_value : Bytes → Option Value
no_value raw = none

abbrev bodies : ℕ → Option Bytes
bodies limit = some []

-- A body that is no JSON asks for the status.
abbrev shown : SyncResponse × ℕ → Option SyncMode
shown (SyncResponse.synced mode success report tail, n) = some mode
shown (other, n) = none

default_status :
    shown (github_sync no_value (codes "sync.sh") (λ mode n. (timed_out, n + 1)) bodies 0)
    ≡ some SyncMode.status
unfolding github_sync
default_status = refl

admin_update-IsReported_example :
    IsReported scripts 600
      (filter (λ (p : UpdatePeer). p.enabled) test_peers)
      0
      (admin_update scripts 600 test_peers 0)
admin_update-IsReported_example = admin_update-IsReported scripts 600 test_peers 0
