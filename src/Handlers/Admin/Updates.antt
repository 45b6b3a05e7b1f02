-- ===== src/Handlers/Admin/Updates.antt =====
-- What `admin_update` reports of the peers.
use ashat_coding_agent.Base.{
  ℕ, ◌+◌, ◌≤◌, ◌≡◌, ◌≢◌, refl, ap, sym, ◌∙◌, ◌⊎◌, inl, inr, Bool, true, false, not, ◌&&◌, ◌||◌,
  List, [], ◌∷◌, ◌++◌, arith, reverse, take, length, length-append, length-take, length-reverse,
  leb, filter, Bool-cases, if◌then◌else◌,
}
use mathlib.Core.List.{append_assoc, append-nil}
use ashat_coding_agent.Base.Text.{Text}
use ashat_coding_agent.Config.{UpdatePeer}
use ashat_coding_agent.Handlers.Admin.{
  Process, not_spawned, wait_failed, timed_out, exited, truncated_mark, truncate_tail, with_stderr,
  SeedStatus, ok, failed, error, timeout, run_seed_script, PeerReport, is_ok, UpdateReport, noop,
  report, report_of, update_peers, update_enabled, admin_update,
}

-- The kept part is the end of the text.
truncate_tail-length : (s : Text) (max : ℕ) → length (truncate_tail s max) ≤ max + 15
unfolding truncate_tail
truncate_tail-length s max = elim (Bool-cases (leb (length s) max)) [
  | inl e ↦ rw e (ground (arith, e))
  | inr e ↦ rw e (
      omega (
        arith,
        length-append truncated_mark (reverse (take max (reverse s))),
        length-reverse (take max (reverse s)),
        length-take max (reverse s),
      ))
]

-- The output of a script that ran to its end is bounded.
abbrev pub IsBounded : SeedStatus → Text → Type 0
IsBounded ok s = length s ≤ 4096 + 15
IsBounded failed s = length s ≤ 4096 + 15
IsBounded error s = Unit
IsBounded timeout s = Unit

exited-IsBounded :
    (success : Bool) (s : Text)
    → length s ≤ 4096 + 15
    → IsBounded (if success then ok else failed) s
exited-IsBounded true s h = h
exited-IsBounded false s h = h

seed-IsBounded :
    (budget : ℕ) (p : Process)
    → IsBounded (run_seed_script budget p).status (run_seed_script budget p).output
unfolding run_seed_script
seed-IsBounded budget (not_spawned e) = tt
seed-IsBounded budget (wait_failed e) = tt
seed-IsBounded budget timed_out = tt
seed-IsBounded budget (exited success stdout stderr) =
    exited-IsBounded success _ (truncate_tail-length (with_stderr stdout stderr) 4096)

-- How a script ended, apart from how it is reported.
abbrev pub ends_well : Process → Bool
ends_well (exited success stdout stderr) = success
ends_well timed_out = false
ends_well (not_spawned e) = false
ends_well (wait_failed e) = false

-- The status that a script's end is reported with.
abbrev pub IsStatus : Process → SeedStatus → Type 0
IsStatus (exited true stdout stderr) s = s ≡ ok
IsStatus (exited false stdout stderr) s = s ≡ failed
IsStatus timed_out s = s ≡ timeout
IsStatus (not_spawned e) s = s ≡ error
IsStatus (wait_failed e) s = s ≡ error

seed-IsStatus : (budget : ℕ) (p : Process) → IsStatus p (run_seed_script budget p).status
unfolding run_seed_script
seed-IsStatus budget (exited true stdout stderr) = refl
seed-IsStatus budget (exited false stdout stderr) = refl
seed-IsStatus budget timed_out = refl
seed-IsStatus budget (not_spawned e) = refl
seed-IsStatus budget (wait_failed e) = refl

seed-is_ok : (budget : ℕ) (p : Process) → is_ok (run_seed_script budget p).status ≡ ends_well p
unfolding run_seed_script
seed-is_ok budget (exited true stdout stderr) = refl
seed-is_ok budget (exited false stdout stderr) = refl
seed-is_ok budget timed_out = refl
seed-is_ok budget (not_spawned e) = refl
seed-is_ok budget (wait_failed e) = refl

failed_so_far : (a b c : Bool) → ((a || not b) || not c) ≡ (a || not (b && c))
failed_so_far true b c = refl
failed_so_far false true c = refl
failed_so_far false false c = refl

no_failure : (a : Bool) → a ≡ (a || not true)
no_failure true = refl
no_failure false = refl

module _ {W : Type 0} (script : UpdatePeer → W → (Process × ℕ) × W) where
  -- One report for each peer, in order: the scripts run one behind the other, and each report shows
  -- how its own script ended and how long it took.
  abbrev pub Reports : List UpdatePeer → List PeerReport → W → Type 0
  Reports [] [] w = Unit
  Reports [] (r ∷ rs) w = ⊥
  Reports (p ∷ ps) [] w = ⊥
  Reports (p ∷ ps) (r ∷ rs) w =
      (r.host ≡ p.host)
      × (r.install ≡ p.install)
      × (r.port ≡ p.port)
      × IsStatus (script p w).0.0 r.status
      × (r.elapsed_seconds ≡ (script p w).0.1)
      × IsBounded r.status r.output_tail
      × Reports ps rs (script p w).1

  -- Whether all scripts end well.
  abbrev pub all_well : List UpdatePeer → W → Bool
  all_well [] w = true
  all_well (p ∷ ps) w = ends_well (script p w).0.0 && all_well ps (script p w).1

module _ {W : Type 0} (script : UpdatePeer → W → (Process × ℕ) × W) (budget : ℕ) where
  -- The loop adds the reports of the peers that are left.
  update_peers-Reports :
      (ps : List UpdatePeer) (any_failed : Bool) (results : List PeerReport) (w : W)
      → (rs : List PeerReport) × ((update_peers script budget ps any_failed results w).0
          ≡ (any_failed || not (all_well script ps w), results ++ rs))
        × Reports script ps rs w
  unfolding update_peers
  update_peers-Reports [] any_failed results w =
      ([], (λ i. (no_failure any_failed i, sym (append-nil results) i)), tt)
  update_peers-Reports (p ∷ ps) any_failed results w =
      let outcome = run_seed_script budget (script p w).0.0 in
      let r = report_of p (script p w).0.1 outcome in
      let (rs, e, h) =
        update_peers-Reports ps (any_failed || not (is_ok outcome.status)) (results ++ r ∷ [])
          (script p w).1 in
      (
        r ∷ rs,
        e ∙ (λ i. (
          (ap (λ (b : Bool). (any_failed || not b) || not (all_well script ps (script p w).1))
                  (seed-is_ok budget (script p w).0.0)
                ∙ failed_so_far any_failed (ends_well (script p w).0.0)
                    (all_well script ps (script p w).1))
              i,
          append_assoc results (r ∷ []) rs i,
        )),
        (
          refl,
          refl,
          refl,
          seed-IsStatus budget (script p w).0.0,
          refl,
          seed-IsBounded budget (script p w).0.0,
          h,
        ),
      )

  -- The outcome for the enabled peers.
  abbrev pub IsReported : List UpdatePeer → W → UpdateReport × W → Type 0
  IsReported enabled w out =
      ((enabled ≡ []) × (out ≡ (noop, w)))
      ⊎ ((enabled ≢ [])
          × (rs : List PeerReport) × (out.0 ≡ report (not (all_well script enabled w)) rs)
          × Reports script enabled rs w)

  update_enabled-IsReported :
      (enabled : List UpdatePeer) (w : W)
      → IsReported enabled w (update_enabled script budget enabled w)
  update_enabled-IsReported [] w = inl (refl, refl)
  update_enabled-IsReported (p ∷ ps) w =
      let (rs, e, h) = update_peers-Reports (p ∷ ps) false [] w in
      inr ((λ empty. cc), rs, ap (λ (x : Bool × List PeerReport). report x.0 x.1) e, h)

  -- With no enabled peer, `admin_update` runs nothing and says so. Otherwise it runs the scripts of
  -- the enabled peers one behind the other, in the order of the configuration, and reports each once:
  -- `ok` for a script that exits with success, `failed` for one that exits without, `timeout` and
  -- `error` else, with its duration. It says that the update was partial exactly if a script did not
  -- exit with success, and shows at most 4096 characters and a mark of what a script that exited
  -- printed.
  pub admin_update-IsReported :
      (peers : List UpdatePeer) (w : W)
      → IsReported
          (filter (λ (p : UpdatePeer). p.enabled) peers)
          w
          (admin_update script budget peers w)
  unfolding admin_update
  admin_update-IsReported peers w = update_enabled-IsReported (filter (λ p. p.enabled) peers) w
