-- ===== src/Supervisor/Sessions.antt =====
-- src/supervisor.rs: recipes. `session_config`, saving, listing, and loading by `materialize`.
use fleetcom.Common.{
  ℕ, ◌+◌, Bool, true, false, ◌&&◌, ◌||◌, Option, none, some, List, [], ◌∷◌, ◌++◌, ltb, leb, ◌==◌,
  if◌then◌else◌, length, is_none,
}
use fleetcom.Text.{Text, byte_len}
use fleetcom.Path.{resolve}
use fleetcom.Protocol.{LaunchContext}
use fleetcom.Terminal.{Terminal}
use fleetcom.Task.Row.{Task, stopped_task}
use fleetcom.Session.{EntryKind, literal, managed, SessionEntry, SessionConfig}
use fleetcom.Supervisor.Host.{Host, Result, ok, err, Loaded, loaded, not_found, load_error}
use fleetcom.Supervisor.Messages
use fleetcom.Supervisor.State.{Supervisor, notify, with_task, flagship_holder, max_command_len}
use fleetcom.Supervisor.Assets.{sessions_root}
use fleetcom.Supervisor.Spawn.{Launch, map_result, resolve_agent, context, or_notice, admit, enroll}
use fleetcom.Supervisor.Recipe.{recovery_dir}

-- `LoadOutcome`.
pub record LoadOutcome : Type 0 where
  pub spawned : ℕ
  pub stopped : ℕ
  pub skipped : ℕ
  pub failed : ℕ
  pub notes : List Text

abbrev pub no_outcome : LoadOutcome
no_outcome = record { spawned = 0; stopped = 0; skipped = 0; failed = 0; notes = [] }

abbrev when : Bool → Text → List Text → List Text
when b clause rest = if b then clause ∷ rest else rest

-- `LoadOutcome::clauses`.
unfoldable pub clauses : LoadOutcome → List Text
clauses o = when (ltb 0 o.stopped) (Messages.stopped_clause o.stopped) (
    when (ltb 0 o.skipped) (Messages.skipped_clause o.skipped)
      (when (ltb 0 o.failed) (Messages.failed_clause o.failed) []))

abbrev pub skip : ℕ → LoadOutcome → LoadOutcome
skip n o = record o { skipped = o.skipped + n }

abbrev pub fail : Text → LoadOutcome → LoadOutcome
fail note o = record o { failed = o.failed + 1; notes = o.notes ++ note ∷ [] }

abbrev note_list : Option Text → List Text
note_list none = []
note_list (some n) = n ∷ []

-- A literal entry past the length limit.
abbrev pub too_long : EntryKind → Bool
too_long (literal command) = ltb max_command_len (byte_len command)
too_long (managed agent resume) = false

-- The launch of an entry.
abbrev pub entry_launch : Host → LaunchContext → EntryKind → Result Launch
entry_launch h ctx (literal command) = ok (Launch.literal command)
entry_launch h ctx (managed agent resume) =
    map_result Launch.managed (resolve_agent h agent ctx resume)

-- The summary of `load_session`: zero tasks are reported for an empty recipe only.
abbrev session_parts : LoadOutcome → List Text
session_parts o =
    when (ltb 0 o.spawned || ((o.stopped == 0) && ((o.skipped == 0) && (o.failed == 0))))
      (Messages.task_count o.spawned) (clauses o)

abbrev pub session_summary : Text → LoadOutcome → Text
session_summary name o = Messages.annotate (Messages.loaded_session name (session_parts o)) o.notes

abbrev pub recovery_summary : LoadOutcome → Text
recovery_summary o = Messages.annotate (Messages.loaded_recovery (clauses o)) o.notes

module _ {E : Type 0} where
  -- The row of a stopped entry, or the note about its unknown agent.
  abbrev pub stopped_row : Host → ℕ → Text → EntryKind → Result (Task E)
  stopped_row h id dir (literal command) = ok (stopped_task id command dir none none)
  stopped_row h id dir (managed agent resume) =
      if h.registered agent
      then ok (stopped_task id agent dir (some agent) resume)
      else err (Messages.no_agent (h.debug agent))

  abbrev pub load_stopped :
      SessionEntry → Supervisor E → LoadOutcome → Result (Task E) → Supervisor E × LoadOutcome
  load_stopped e s out (err note) = (s, fail note out)
  load_stopped e s out (ok t) = (
    enroll (record t { tagged = e.tagged }) e.group e.name s,
    record out { stopped = out.stopped + 1 },
  )

  -- The marks of an admitted entry: its tag, and the flagship where no live task is marked.
  abbrev pub restore_tag : ℕ → SessionEntry → Supervisor E → Supervisor E
  restore_tag id e s = if e.tagged then with_task id (λ t. record t { tagged = true }) s else s

  abbrev pub restore_flagship : ℕ → SessionEntry → Supervisor E → Supervisor E
  restore_flagship id e s =
      if e.flagship && is_none (flagship_holder s) then record s { flagship = some id } else s

  abbrev pub restored :
      ℕ
      → SessionEntry
      → LoadOutcome
      → Supervisor E
      → Result (Option Text)
      → Supervisor E × LoadOutcome
  restored id e out s (err why) = (s, fail (Messages.spawn_failed why) out)
  restored id e out s (ok notice) = (
    restore_flagship id e (restore_tag id e s),
    record out { spawned = out.spawned + 1; notes = out.notes ++ note_list notice },
  )

module _ {E : Type 0} ⦃t : Terminal E⦄ where
  abbrev pub load_live :
      Host
      → LaunchContext
      → Text
      → SessionEntry
      → LoadOutcome
      → Supervisor E
      → Result Launch
      → Supervisor E × LoadOutcome
  load_live h ctx dir e out s (err why) = (s, fail why out)
  load_live h ctx dir e out s (ok launch) =
      let (s', r) = admit h launch dir ctx.env e.group e.name s in restored s.next_id e out s' r

  -- One round of the inner loop of `materialize`.
  unfoldable pub load_entry :
      Host
      → LaunchContext
      → Text
      → SessionEntry
      → Supervisor E
      → LoadOutcome
      → Supervisor E × LoadOutcome
  load_entry h ctx dir e s out =
      if leb s.max_tasks (length s.tasks) || too_long e.kind
      then (s, skip 1 out)
      else if e.stopped
      then load_stopped e s out (stopped_row h s.next_id dir e.kind)
      else load_live h ctx dir e out s (entry_launch h ctx e.kind)

  unfoldable pub load_entries :
      Host
      → LaunchContext
      → Text
      → List SessionEntry
      → Supervisor E
      → LoadOutcome
      → Supervisor E × LoadOutcome
  load_entries h ctx dir [] s out = (s, out)
  load_entries h ctx dir (e ∷ es) s out =
      let (s', out') = load_entry h ctx dir e s out in load_entries h ctx dir es s' out'

  unfoldable pub load_dirs :
      Host → LaunchContext → SessionConfig → Supervisor E → LoadOutcome → Supervisor E × LoadOutcome
  load_dirs h ctx [] s out = (s, out)
  load_dirs h ctx ((dir, es) ∷ rest) s out =
      let path = resolve h.home ctx.cwd dir in
      let (s', out') =
        if h.is_dir path then load_entries h ctx path es s out else (s, skip (length es) out) in
      load_dirs h ctx rest s' out'

  -- `materialize`, under the launch context that it asks for.
  unfoldable pub materialize :
      Host → LaunchContext → SessionConfig → Supervisor E → Supervisor E × LoadOutcome
  materialize h ctx cfg s = load_dirs h ctx cfg s no_outcome

  -- `load_config`, then `materialize` and its summary.
  abbrev pub load_with : Host → Text → (LoadOutcome → Text) → Supervisor E → Loaded → Supervisor E
  load_with h subject summary s not_found = notify (Messages.absent subject) s
  load_with h subject summary s (load_error e) = notify (Messages.load_failed subject e) s
  load_with h subject summary s (loaded cfg) =
      or_notice (context s.launch) s
        λ ctx. let (s', out) = materialize h ctx cfg s in notify (summary out) s'

  abbrev pub load_under :
      Host
      → Text
      → (LoadOutcome → Text)
      → (Text → Loaded)
      → Supervisor E
      → Option Text
      → Supervisor E
  load_under h subject summary load s none = notify Messages.load_without_root s
  load_under h subject summary load s (some root) = load_with h subject summary s (load root)

  unfoldable pub load_session : Host → Text → Supervisor E → Supervisor E
  load_session h name s =
      load_under h (Messages.session_subject name) (session_summary name)
        (λ root. h.load_in root name) s (sessions_root h s)

  unfoldable pub load_recovery : Host → Text → Supervisor E → Supervisor E
  load_recovery h stem s =
      load_under h (Messages.recovery_subject stem) recovery_summary
        (λ root. h.load_recovery_in (recovery_dir root) stem) s (sessions_root h s)
