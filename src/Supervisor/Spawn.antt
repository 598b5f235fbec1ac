-- ===== src/Supervisor/Spawn.antt =====
-- src/supervisor.rs: launching tasks. `spawn_task`, `admit`, `enroll` and the two spawn handlers.
use fleetcom.Common.{
  ℕ, suc, length, Option, none, some, List, [], ◌∷◌, ◌++◌, ltb, leb, if◌then◌else◌,
}
use fleetcom.Text.{Text, text, byte_len}
use fleetcom.Protocol.{LaunchContext, env_get, spawned}
use fleetcom.Terminal.{Terminal}
use fleetcom.Task.Process.{Process, new}
use fleetcom.Task.Row.{Task, stopped_task}
use fleetcom.Supervisor.Host.{
  Host, Result, ok, err, literal_exec, managed_exec, Intent, fresh, resume, Plan,
}
use fleetcom.Supervisor.Labels.{normalize_label, normalize_group}
use fleetcom.Supervisor.Messages.{
  no_context, assets_unavailable, task_notice, spawn_failed, task_limit, command_too_long,
  not_spawning, no_agent, not_on_path,
}
use fleetcom.Supervisor.Assets.{ensure_capture_assets}
use fleetcom.Supervisor.State.{Supervisor, emit, notify, or_empty, max_command_len}

-- `ManagedLaunch`, its harness by name, and `Launch`.
pub record ManagedLaunch : Type 0 where
  pub agent : Text
  pub binary : Text
  pub intent : Intent

pub data Launch : Type 0 where
  literal : Text → Launch
  managed : ManagedLaunch → Launch

abbrev intent_of : Option Text → Intent
intent_of none = fresh
intent_of (some id) = resume id

abbrev pub fresh_id : Host → ℕ → ℕ → Intent → Option Text
fresh_id h id run fresh = h.uuid_v4 id run
fresh_id h id run (resume r) = none

abbrev found_binary : Text → Option Text → Option Text → Result ManagedLaunch
found_binary agent r none = err (not_on_path agent)
found_binary agent r (some binary) =
    ok (record { agent = agent; binary = binary; intent = intent_of r })

unfoldable pub resolve_agent : Host → Text → LaunchContext → Option Text → Result ManagedLaunch
unfolding env_get text
resolve_agent h agent launch r =
    if h.registered agent
    then found_binary agent r (h.find_on_path agent (or_empty (env_get launch.env (text "PATH"))))
    else err (no_agent (h.debug agent))

-- `map` of `io::Result`, and the notice of a refused agent.
abbrev pub map_result : {A B : Type 0} → (A → B) → Result A → Result B
map_result f (ok a) = ok (f a)
map_result f (err e) = err e

abbrev pub refused_agent : Result ManagedLaunch → Result ManagedLaunch
refused_agent (ok m) = ok m
refused_agent (err why) = err (not_spawning why)

-- `launch_or_refuse`.
abbrev pub context : Option LaunchContext → Result LaunchContext
context none = err no_context
context (some ctx) = ok ctx

abbrev pub plan_launch : Host → ℕ → ℕ → ManagedLaunch → Text → Option Text → Plan
plan_launch h id run m capture home =
    h.plan m.agent m.intent (fresh_id h id run m.intent) capture home

module _ {E : Type 0} where
  -- `enroll`: the only place where the ID counter advances.
  unfoldable pub enroll : Task E → Option Text → Option Text → Supervisor E → Supervisor E
  enroll t group name s = record s {
    next_id = suc s.next_id;
    tasks = s.tasks ++ record t { group = normalize_group group; name = normalize_label name } ∷ [];
  }

  -- The guards of the spawn handlers: each gives its notice, or what it lets through.
  abbrev pub below_task_ceiling : Supervisor E → Result (Unit {0})
  below_task_ceiling s =
      if leb s.max_tasks (length s.tasks) then err (task_limit s.max_tasks) else ok tt

  abbrev pub or_notice : {A : Type 0} → Result A → Supervisor E → (A → Supervisor E) → Supervisor E
  or_notice (err msg) s f = notify msg s
  or_notice (ok a) s f = f a

  -- A launch notice, and `report_spawn` of a task admitted under `id`.
  abbrev pub with_notice : ℕ → Option Text → Supervisor E → Supervisor E
  with_notice id none s = s
  with_notice id (some notice) s = notify (task_notice id notice) s

  unfoldable pub report_spawn : ℕ → Result (Option Text) → Supervisor E → Supervisor E
  report_spawn id (ok notice) s = emit (spawned id) (with_notice id notice s)
  report_spawn id (err e) s = notify (spawn_failed e) s

module _ {E : Type 0} ⦃t : Terminal E⦄ where
  -- The run that `Process::spawn` returns once the pty has started the program.
  abbrev first_run : Host → Supervisor E → Option ℕ → Process E
  first_run h s pid = new (t.open_screen s.rows s.cols s.scrollback) s.rows s.cols pid h.seen.now

  -- `spawn_task` of a literal: the text is run as it is.
  abbrev pub literal_task : Host → ℕ → ℕ → Text → Text → Supervisor E → Option ℕ → Task E
  literal_task h id run command cwd s pid = record (stopped_task id command cwd none none) {
    run = run;
    process = some (first_run h s pid);
  }

  -- `spawn_task` of a managed launch: its plan is made before the program starts, and the run keeps
  -- the harness home and the capture path.
  abbrev pub managed_task :
      Host → ℕ → ℕ → Text → Text → Supervisor E → Text → Option Text → Plan → Option ℕ → Task E
  managed_task h id run agent cwd s capture home plan pid =
      record (stopped_task id agent cwd (some agent) plan.resume_id) {
        run = run;
        process =
            some (record (first_run h s pid) { harness_home = home; capture_file = some capture });
      }

  abbrev pub start_managed :
      Host
      → ℕ
      → ℕ
      → ManagedLaunch
      → Text
      → List (Text × Text)
      → Supervisor E
      → Option Text
      → Result (Task E × Option Text)
  start_managed h id run m cwd env s none = err assets_unavailable
  start_managed h id run m cwd env s (some assets) =
      let capture = h.capture_path assets id run in
      let home = h.resolve_home env m.agent in
      let plan = plan_launch h id run m capture home in
      map_result (λ pid. (managed_task h id run m.agent cwd s capture home plan pid, plan.notice))
        (h.open_pty id run m.agent (managed_exec m.binary plan.args) cwd (env ++ plan.env))

  -- `spawn_task`: the supervisor may gain capture assets; the task and the launch notice, or the
  -- error.
  unfoldable pub spawn_task :
      Host
      → ℕ
      → ℕ
      → Launch
      → Text
      → List (Text × Text)
      → Supervisor E
      → Supervisor E × Result (Task E × Option Text)
  unfolding stopped_task new
  spawn_task h id run (literal command) cwd env s = (
    s,
    map_result (λ pid. (literal_task h id run command cwd s pid, none))
        (h.open_pty id run command literal_exec cwd env),
  )
  spawn_task h id run (managed m) cwd env s =
      let (s', assets) = ensure_capture_assets h s in
      (s', start_managed h id run m cwd env s' assets)

  abbrev pub admitted :
      Option Text
      → Option Text
      → Supervisor E
      → Result (Task E × Option Text)
      → Supervisor E × Result (Option Text)
  admitted group name s (err e) = (s, err e)
  admitted group name s (ok (task, notice)) = (enroll task group name s, ok notice)

  -- `admit`: under the next id; the id is `next_id` before the call.
  unfoldable pub admit :
      Host
      → Launch
      → Text
      → List (Text × Text)
      → Option Text
      → Option Text
      → Supervisor E
      → Supervisor E × Result (Option Text)
  admit h launch cwd env group name s =
      let (s', r) = spawn_task h s.next_id 0 launch cwd env s in admitted group name s' r

  abbrev pub admit_and_report :
      Host → Launch → Text → Option Text → Supervisor E → LaunchContext → Supervisor E
  admit_and_report h launch cwd group s ctx =
      let (s', r) = admit h launch cwd ctx.env group none s in report_spawn s.next_id r s'

  -- `spawn`.
  unfoldable pub spawn : Host → Text → Text → Option Text → Supervisor E → Supervisor E
  spawn h command cwd group s =
      let len = byte_len command in
      if ltb max_command_len len
      then notify (command_too_long len max_command_len) s
      else or_notice (below_task_ceiling s) s λ _.
        or_notice (context s.launch) s λ ctx. admit_and_report h (literal command) cwd group s ctx

  -- `spawn_agent`.
  unfoldable pub spawn_agent : Host → Text → Text → Option Text → Supervisor E → Supervisor E
  unfolding resolve_agent
  spawn_agent h agent cwd group s = or_notice (below_task_ceiling s) s λ _.
      or_notice (context s.launch) s λ ctx.
        or_notice (refused_agent (resolve_agent h agent ctx none)) s
          λ m. admit_and_report h (managed m) cwd group s ctx
