-- ===== src/Supervisor/Reap.antt =====
-- src/supervisor.rs: `reap`, and `shutdown_all` with its loop. Freezing the preview of an exited run
-- is left out. A run that goes out of scope is dropped by `drop_run`.
use fleetcom.Common.{
  ℕ, zero, suc, ◌+◌, Bool, true, false, not, ◌&&◌, ◌||◌, Option, none, some, List, [], ◌∷◌, ◌++◌,
  ltb, if◌then◌else◌, is_some, is_none,
}
use fleetcom.Task.Process.{
  Process, Observation, Call, poll_exit, overdue, force_kill, try_collect, drop_run, terminate,
}
use fleetcom.Task.Row.{Task}
use fleetcom.Supervisor.State.{Supervisor, Recovery, flagship_holder}

-- `last_mutation = Some(now)`.
abbrev pub touch : ℕ → Recovery → Recovery
touch now r = record r { last_mutation = some now }

module _ {E : Type 0} where
  -- A method over a list of runs, with the calls that it made.
  unfoldable pub each_run :
      (Process E → Process E × List Call) → List (Process E) → List (Process E) × List Call
  each_run f [] = ([], [])
  each_run f (p ∷ ps) = let (q, cs) = f p in let (qs, ds) = each_run f ps in (q ∷ qs, cs ++ ds)

  -- The same over the runs of the tasks.
  abbrev pub run_with :
      (Process E → Process E × List Call) → Option (Process E) → Option (Process E) × List Call
  run_with f none = (none, [])
  run_with f (some p) = let (q, cs) = f p in (some q, cs)

  unfoldable pub each_task :
      (Process E → Process E × List Call) → List (Task E) → List (Task E) × List Call
  each_task f [] = ([], [])
  each_task f (t ∷ ts) =
      let (q, cs) = run_with f t.process in
      let (us, ds) = each_task f ts in (record t { process = q } ∷ us, cs ++ ds)

  -- Latch the exit, and escalate an overdue TERM.
  unfoldable pub reap_run : Observation → ℕ → Process E → Process E × List Call
  reap_run o grace p =
      let q = poll_exit o p in if overdue o.now grace q then force_kill q else (q, [])

  -- Whether the run of a task exits now: it was live, and its exit is latched.
  abbrev exits : Observation → Option (Process E) → Bool
  exits o none = false
  exits o (some p) = is_none p.finished && is_some (poll_exit o p).finished

  unfoldable pub any_exit : Observation → List (Task E) → Bool
  any_exit o [] = false
  any_exit o (t ∷ ts) = exits o t.process || any_exit o ts

  -- `retain_mut(|t| !t.try_collect())`: what is collected is dropped.
  unfoldable pub retain_uncollected : Observation → List (Process E) → List (Process E) × List Call
  retain_uncollected o [] = ([], [])
  retain_uncollected o (p ∷ ps) =
      let (q, cs) = try_collect o p in
      let (qs, ds) = retain_uncollected o ps in
      if q.reaped then (qs, cs ++ ((drop_run o q).1 ++ ds)) else (q ∷ qs, cs ++ ds)

  abbrev pub reaped_state : Observation → Bool → Supervisor E → Supervisor E
  reaped_state o exited s =
      let cleared = is_some s.flagship && is_none (flagship_holder s) in
      record s {
        flagship = if cleared then none else s.flagship;
        recovery = if exited || cleared then touch o.now s.recovery else s.recovery;
      }

  unfoldable pub reap : Observation → Supervisor E → Supervisor E
  reap o s =
      let (ts, cs) = each_task (reap_run o s.kill_grace) s.tasks in
      let (ps, ds) = each_run (reap_run o s.kill_grace) s.graveyard in
      let (rest, es) = retain_uncollected o ps in
      reaped_state o (any_exit o s.tasks)
        (record s { tasks = ts; graveyard = rest; calls = s.calls ++ (cs ++ (ds ++ es)) })

  abbrev pub owns_nothing : List (Task E) → List (Process E) → Bool
  owns_nothing [] [] = true
  owns_nothing [] (p ∷ ps) = false
  owns_nothing (t ∷ ts) ps = false

  -- The loop of `shutdown_all`: `round` counts its rounds, and `fuel` bounds them. A round reads the
  -- clock, sleeps and reaps. `none` means that the fuel ran out.
  unfoldable pub await_grace : ℕ → (ℕ → Observation) → ℕ → ℕ → Supervisor E → Option (Supervisor E)
  await_grace zero later deadline round s = none
  await_grace (suc fuel) later deadline round s =
      let rest = await_grace fuel later deadline (suc round) (reap (later (suc round)) s) in
      if not (owns_nothing s.tasks s.graveyard) && ltb (later round).now deadline
      then rest
      else some s

  -- `tasks.clear()` and `graveyard.clear()`: each run is dropped.
  unfoldable pub clear_all : Observation → Supervisor E → Supervisor E
  clear_all o s =
      let (ts, cs) = each_task (drop_run o) s.tasks in
      let (ps, ds) = each_run (drop_run o) s.graveyard in
      record s { tasks = []; graveyard = []; calls = s.calls ++ (cs ++ ds) }

  abbrev pub cleared_after : Observation → Option (Supervisor E) → Option (Supervisor E)
  cleared_after o none = none
  cleared_after o (some s) = some (clear_all o s)

  -- `shutdown_all`, with the observation under which what is left is dropped.
  unfoldable pub shutdown_all :
      ℕ → ℕ → (ℕ → Observation) → Observation → Supervisor E → Option (Supervisor E)
  shutdown_all fuel now later last s =
      let (ts, cs) = each_task (terminate now) s.tasks in
      cleared_after last (
        await_grace fuel later (now + s.kill_grace) 0
          (record s { tasks = ts; calls = s.calls ++ cs }))
