-- ===== src/Supervisor/Invariant/Sessions.antt =====
-- Loading a recipe keeps the invariant of the task set: each admission is below the ceiling.
use fleetcom.Common.{
  ℕ, ◌<◌, ◌≡◌, refl, sym, subst, inl, inr, Bool, true, false, Option, none, some, List, [], ◌∷◌,
  length, leb, arith, Bool-cases, ◌||◌, ◌&&◌, if◌then◌else◌, is_none,
}
use fleetcom.Text.{Text}
use fleetcom.Path.{resolve}
use fleetcom.Protocol.{LaunchContext}
use fleetcom.Terminal.{Terminal}
use fleetcom.Task.Row.{Task, stopped_task}
use fleetcom.Session.{SessionEntry, SessionConfig, EntryKind, literal, managed}
use fleetcom.Supervisor.Host.{Host, Result, ok, err, Loaded, loaded, not_found, load_error}
use fleetcom.Supervisor.State.{Supervisor, flagship_holder}
use fleetcom.Supervisor.Messages
use fleetcom.Supervisor.Recipe.{recovery_dir}
use fleetcom.Supervisor.Assets.{sessions_root}
use fleetcom.Supervisor.Spawn.{Launch, context}
use fleetcom.Supervisor.Sessions.{
  LoadOutcome, load_stopped, restored, restore_tag, restore_flagship, load_live, load_entry,
  load_entries, load_dirs, materialize, stopped_row, too_long, no_outcome, skip, load_with,
  load_under, load_session, load_recovery, session_summary, recovery_summary,
}
use fleetcom.Supervisor.Invariant.Ids.{Steps, Steps-refl, Steps-trans, SameIds-Steps, Uncollected}
use fleetcom.Supervisor.Invariant.Handlers.{with_task-SameIds}
use fleetcom.Supervisor.Invariant.Loading.{admit-Steps, enroll-Steps}
use fleetcom.Supervisor.Invariant.Commands.{SameSet-Steps, notify-Steps, or_notice-Steps}

-- The row of a stopped entry stands under the id that it was built for, and has no run.
abbrev Row : {E : Type 0} → ℕ → Result (Task E) → Type 0
Row id (err e) = Unit {0}
Row id (ok t) = (t.id ≡ id) × (t.process ≡ none)

stopped_row-Row :
    (E : Type 0) (h : Host) (id : ℕ) (dir : Text) (k : EntryKind)
    → Row id (stopped_row {E = E} h id dir k)
unfolding stopped_task
stopped_row-Row E h id dir (literal command) = (refl, refl)
stopped_row-Row E h id dir (managed agent resume) = elim (Bool-cases (h.registered agent)) [
  | inl e ↦ rw e (refl, refl)
  | inr e ↦ rw e tt
]

module _ {E : Type 0} where
  load_stopped-Steps :
      (e : SessionEntry) (s : Supervisor E) (out : LoadOutcome) (r : Result (Task E))
      → Row s.next_id r
      → length s.tasks < s.max_tasks
      → Steps s (load_stopped e s out r).0
  load_stopped-Steps e s out (err note) row room = Steps-refl s
  load_stopped-Steps e s out (ok t) row room =
      enroll-Steps (record t { tagged = e.tagged }) e.group e.name s row.0
        (subst Uncollected (sym row.1) tt) room

  restore_tag-Steps : (id : ℕ) (e : SessionEntry) (s : Supervisor E) → Steps s (restore_tag id e s)
  restore_tag-Steps id e s = elim (Bool-cases e.tagged) [
    | inl p ↦ simp p (
        SameIds-Steps
          (with_task-SameIds id (λ t. record t { tagged = true }) s (λ t. refl) (λ t v. v)))
    | inr p ↦ simp p (Steps-refl s)
  ]

  restore_flagship-Steps :
      (id : ℕ) (e : SessionEntry) (s : Supervisor E) → Steps s (restore_flagship id e s)
  restore_flagship-Steps id e s = elim (Bool-cases (e.flagship && is_none (flagship_holder s))) [
    | inl p ↦ rw p (
        SameSet-Steps (record { tasks = refl; graveyard = refl; next_id = refl; max_tasks = refl }))
    | inr p ↦ rw p (Steps-refl s)
  ]

  restored-Steps :
      (id : ℕ) (e : SessionEntry) (out : LoadOutcome) (s : Supervisor E) (r : Result (Option Text))
      → Steps s (restored id e out s r).0
  restored-Steps id e out s (err why) = Steps-refl s
  restored-Steps id e out s (ok notice) =
      Steps-trans (restore_tag-Steps id e s) (restore_flagship-Steps id e (restore_tag id e s))

module _ {E : Type 0} ⦃t : Terminal E⦄ where
  load_live-Steps :
      (h : Host) (ctx : LaunchContext) (dir : Text) (e : SessionEntry) (out : LoadOutcome)
      (s : Supervisor E) (r : Result Launch)
      → length s.tasks < s.max_tasks
      → Steps s (load_live h ctx dir e out s r).0
  load_live-Steps h ctx dir e out s (err why) room = Steps-refl s
  load_live-Steps h ctx dir e out s (ok launch) room =
      Steps-trans (admit-Steps h launch dir ctx.env e.group e.name s room)
        (restored-Steps s.next_id e out _ _)

  load_entry-Steps :
      (h : Host) (ctx : LaunchContext) (dir : Text) (e : SessionEntry) (s : Supervisor E)
      (out : LoadOutcome)
      → Steps s (load_entry h ctx dir e s out).0
  unfolding load_entry
  load_entry-Steps h ctx dir e s out =
      elim (Bool-cases (leb s.max_tasks (length s.tasks) || too_long e.kind)) [
        | inl full ↦ rw full (Steps-refl s)
        | inr free ↦
            let room : length s.tasks < s.max_tasks = ground (arith, free) in
            rw free (elim (Bool-cases e.stopped) [
              | inl p ↦
                  simp p
                    (load_stopped-Steps e s out _ (stopped_row-Row E h s.next_id dir e.kind) room)
              | inr p ↦ simp p (load_live-Steps h ctx dir e out s _ room)
            ])
      ]

  load_entries-Steps :
      (h : Host) (ctx : LaunchContext) (dir : Text) (es : List SessionEntry) (s : Supervisor E)
      (out : LoadOutcome)
      → Steps s (load_entries h ctx dir es s out).0
  unfolding load_entries
  load_entries-Steps h ctx dir [] s out = Steps-refl s
  load_entries-Steps h ctx dir (e ∷ es) s out =
      Steps-trans (load_entry-Steps h ctx dir e s out) (load_entries-Steps h ctx dir es _ _)

  load_dir-Steps :
      (h : Host) (ctx : LaunchContext) (path : Text) (es : List SessionEntry) (s : Supervisor E)
      (out : LoadOutcome) (b : Bool)
      → Steps s (if b then load_entries h ctx path es s out else (s, skip (length es) out)).0
  load_dir-Steps h ctx path es s out true = load_entries-Steps h ctx path es s out
  load_dir-Steps h ctx path es s out false = Steps-refl s

  load_dirs-Steps :
      (h : Host) (ctx : LaunchContext) (cfg : SessionConfig) (s : Supervisor E) (out : LoadOutcome)
      → Steps s (load_dirs h ctx cfg s out).0
  unfolding load_dirs
  load_dirs-Steps h ctx [] s out = Steps-refl s
  load_dirs-Steps h ctx ((dir, es) ∷ rest) s out =
      Steps-trans
        (load_dir-Steps h ctx (resolve h.home ctx.cwd dir) es s out
          (h.is_dir (resolve h.home ctx.cwd dir)))
        (load_dirs-Steps h ctx rest _ _)

  load_with-Steps :
      (h : Host) (subject : Text) (summary : LoadOutcome → Text) (s : Supervisor E) (l : Loaded)
      → Steps s (load_with h subject summary s l)
  unfolding materialize
  load_with-Steps h subject summary s not_found = notify-Steps _ s
  load_with-Steps h subject summary s (load_error e) = notify-Steps _ s
  load_with-Steps h subject summary s (loaded cfg) =
      or_notice-Steps (context s.launch) s _
        λ ctx _. Steps-trans (load_dirs-Steps h ctx cfg s no_outcome) (notify-Steps _ _)

  load_under-Steps :
      (h : Host) (subject : Text) (summary : LoadOutcome → Text) (load : Text → Loaded)
      (s : Supervisor E) (root : Option Text)
      → Steps s (load_under h subject summary load s root)
  load_under-Steps h subject summary load s none = notify-Steps _ s
  load_under-Steps h subject summary load s (some root) =
      load_with-Steps h subject summary s (load root)

  pub load_session-Steps :
      (h : Host) (name : Text) (s : Supervisor E) → Steps s (load_session h name s)
  unfolding load_session
  load_session-Steps h name s =
      load_under-Steps h (Messages.session_subject name) (session_summary name)
        (λ root. h.load_in root name) s (sessions_root h s)

  pub load_recovery-Steps :
      (h : Host) (stem : Text) (s : Supervisor E) → Steps s (load_recovery h stem s)
  unfolding load_recovery
  load_recovery-Steps h stem s =
      load_under-Steps h (Messages.recovery_subject stem) recovery_summary
        (λ root. h.load_recovery_in (recovery_dir root) stem) s (sessions_root h s)
