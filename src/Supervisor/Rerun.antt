-- ===== src/Supervisor/Rerun.antt =====
-- src/supervisor.rs: `rerun`, and `current_resume_id` of src/task.rs, which it asks.
pub mod Identity
use fleetcom.Common.{ℕ, suc, Bool, Option, none, some, List, [], ◌∷◌, if◌then◌else◌, is_none}
use fleetcom.Text.{Text}
use fleetcom.Protocol.{LaunchContext}
use fleetcom.Terminal.{Terminal}
use fleetcom.Task.Process.{Process, poll_exit}
use fleetcom.Task.Row.{Task}
use fleetcom.Supervisor.Host.{Host, Result, ok, err}
use fleetcom.Supervisor.Messages.{no_task, still_running, spawn_failed}
use fleetcom.Supervisor.State.{
  Supervisor, notify, id_eq, by_id, update_task, with_task, on_run, is_live, retire,
}
use fleetcom.Supervisor.Spawn.{
  Launch, literal, managed, map_result, refused_agent, resolve_agent, context, or_notice,
  with_notice, spawn_task,
}

-- A value, or else the next source.
abbrev pub or_else : {A : Type 0} → Option A → Option A → Option A
or_else none later = later
or_else (some a) later = some a

abbrev captured : Host → Text → Option ℕ → Option Text → Option Text
captured h agent pid none = none
captured h agent pid (some file) = h.captured_id agent file pid

module _ {E : Type 0} where
  abbrev live_session : Host → Text → Text → Process E → Option ℕ → Option Text
  live_session h agent cwd p none = none
  live_session h agent cwd p (some pid) =
      h.live_session_id agent pid cwd p.spawned_at p.harness_home

  abbrev run_resume_id : Host → Text → Option Text → Option (Process E) → Option Text
  run_resume_id h cwd none process = none
  run_resume_id h cwd (some agent) none = none
  run_resume_id h cwd (some agent) (some p) =
      or_else (captured h agent p.pid p.capture_file) (live_session h agent cwd p p.pid)

  -- `Task::current_resume_id`: the capture file, then the live registry, then the spawn-time id.
  unfoldable pub current_resume_id : Host → Task E → Option Text
  current_resume_id h t = or_else (run_resume_id h t.cwd t.harness t.process) t.resume_id

  -- The launch that repeats a task: by its harness, or by its text.
  abbrev pub relaunch : Host → Task E → LaunchContext → Option Text → Result Launch
  relaunch h t ctx none = ok (literal t.command)
  relaunch h t ctx (some agent) =
      map_result managed (refused_agent (resolve_agent h agent ctx (current_resume_id h t)))

  -- The row keeps its identity and takes the launch state of the fresh task.
  abbrev pub take_launch : Task E → Task E → Task E
  take_launch fresh t = record t {
    harness = fresh.harness;
    run = fresh.run;
    resume_id = fresh.resume_id;
    process = fresh.process;
  }

  abbrev pub retire_old : ℕ → Option (Process E) → Supervisor E → Supervisor E
  retire_old now none s = s
  retire_old now (some p) s = retire now p s

  -- Reset the fingerprint for the replacement task's screen.
  abbrev pub forget_screen : ℕ → Supervisor E → Supervisor E
  forget_screen id s = if id_eq s.watched (some id) then record s { last_screen = none } else s

  abbrev pub replaced :
      Host → ℕ → Task E → Supervisor E → Result (Task E × Option Text) → Supervisor E
  replaced h id t s (err e) = notify (spawn_failed e) s
  replaced h id t s (ok (fresh, notice)) =
      forget_screen id (
        retire_old h.seen.now t.process
          (with_task id (take_launch fresh) (with_notice id notice s)))

  -- The mark is cleared before the id is used again.
  abbrev pub unmark : ℕ → Supervisor E → Supervisor E
  unmark id s = if id_eq s.flagship (some id) then record s { flagship = none } else s

module _ {E : Type 0} ⦃t : Terminal E⦄ where
  abbrev pub respawn : Host → ℕ → Task E → Supervisor E → LaunchContext → Launch → Supervisor E
  respawn h id old s ctx launch =
      let (s', r) = spawn_task h id (suc old.run) launch old.cwd ctx.env s in replaced h id old s' r

  -- `rerun` of the task found under `id`, its exit polled.
  abbrev pub rerun_task : Host → ℕ → Task E → Supervisor E → Supervisor E
  rerun_task h id old s =
      or_notice (context s.launch) s
        λ ctx. or_notice (relaunch h old ctx old.harness) s λ launch. respawn h id old s ctx launch

  abbrev pub rerun_found : Host → ℕ → Supervisor E → Option (Task E) → Supervisor E
  rerun_found h id s none = notify (no_task id) s
  rerun_found h id s (some old) =
      let polled = on_run (poll_exit h.seen) old in
      let s' = with_task id (on_run (poll_exit h.seen)) s in
      if is_live polled.process
      then notify still_running s'
      else rerun_task h id polled (unmark id s')

  unfoldable pub rerun : Host → ℕ → Supervisor E → Supervisor E
  rerun h id s = rerun_found h id s (by_id id s.tasks)
