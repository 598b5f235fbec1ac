-- ===== src/Supervisor/Recovery.antt =====
-- src/supervisor.rs: `maybe_write_recovery`.
pub mod Pass
use fleetcom.Common.{
  ℕ, ◌-◌, Bool, true, false, not, ◌&&◌, ◌||◌, Option, none, some, List, [], ◌∷◌, leb, if◌then◌else◌,
}
use fleetcom.Text.{Text, text_eq, utf8}
use fleetcom.Task.Row.{Task}
use fleetcom.Session.{SessionConfig}
use fleetcom.Supervisor.Host.{Host, Result, ok, err}
use fleetcom.Supervisor.Labels.{fnv1a_hex}
use fleetcom.Supervisor.Messages.{recovery_failed}
use fleetcom.Supervisor.State.{Supervisor, Recovery, notify}
use fleetcom.Supervisor.Assets.{sessions_root}
use fleetcom.Supervisor.Recipe.{session_config, recovery_dir}

abbrev pub since : ℕ → Option ℕ → ℕ → Bool
since now none wait = false
since now (some t) wait = leb wait (now - t)

unfoldable pub debounce_due : ℕ → Recovery → Bool
debounce_due now r = since now r.last_mutation r.debounce

unfoldable pub cadence_due : ℕ → Recovery → Bool
cadence_due now r = leb r.cadence (now - r.last_cadence)

-- A due pass takes the pending mutation, and a cadence pass starts a new interval.
unfoldable pub start_pass : ℕ → Recovery → Recovery
unfolding cadence_due
start_pass now r = record r {
  last_cadence = if cadence_due now r then now else r.last_cadence;
  last_mutation = none;
}

-- The last write had this root and this content, and its file is still there.
abbrev pub unchanged_since : Host → Text → Text → Option (Text × Text × Text) → Bool
unchanged_since h root hash none = false
unchanged_since h root hash (some (r, dest, last)) =
    text_eq r root && (text_eq last hash && h.exists dest)

module _ {E : Type 0} where
  -- The outcome of a write: only the first of consecutive failures is reported.
  abbrev pub wrote : Text → Text → Supervisor E → Result Text → Supervisor E
  wrote root hash s (ok dest) = record s {
    recovery = record s.recovery { last_written = some (root, dest, hash); failing = false };
  }
  wrote root hash s (err e) =
      if s.recovery.failing
      then s
      else notify (recovery_failed e) (record s { recovery = record s.recovery { failing = true } })

  abbrev pub write_recipe : Host → Text → Supervisor E → Supervisor E
  write_recipe h root s =
      let cfg = session_config h s in
      let hash = fnv1a_hex (utf8 (h.fingerprint_json cfg)) in
      if unchanged_since h root hash s.recovery.last_written
      then s
      else wrote root hash s
          (h.save_recovery_in (recovery_dir root) s.recovery.stem h.recovery_label cfg)

  abbrev pub write_under : Host → Supervisor E → Option Text → Supervisor E
  write_under h s none = s
  write_under h s (some root) = write_recipe h root s

  -- An empty recipe replaces no snapshot.
  abbrev pub write_tasks : Host → Supervisor E → List (Task E) → Supervisor E
  write_tasks h s [] = s
  write_tasks h s (t ∷ ts) = write_under h s (sessions_root h s)

  unfoldable pub maybe_write_recovery : Host → Supervisor E → Supervisor E
  unfolding debounce_due start_pass
  maybe_write_recovery h s =
      let now = h.seen.now in
      let s' = record s { recovery = start_pass now s.recovery } in
      if s.recovery.enabled && (debounce_due now s.recovery || cadence_due now s.recovery)
      then write_tasks h s' s'.tasks
      else s
