-- ===== src/Supervisor/Invariant/Commands.antt =====
-- Every command keeps the invariant of the task set.
use fleetcom.Common.{
  ℕ, ◌<◌, ◌≡◌, refl, sym, ap, subst, inl, inr, Option, none, some, length, arith, Bool-cases, ltb,
}
use fleetcom.Text.{Text, byte_len}
use fleetcom.Protocol.{LaunchContext, Event}
use fleetcom.Terminal.{Terminal}
use fleetcom.Supervisor.Host.{Host, Result, ok, err}
use fleetcom.Supervisor.State.{Supervisor, emit, notify, max_command_len}
use fleetcom.Supervisor.Spawn.{
  Launch, report_spawn, with_notice, admit_and_report, below_task_ceiling, context, or_notice,
  spawn, spawn_agent, refused_agent, resolve_agent, literal, managed,
}
use fleetcom.Supervisor.Invariant.Ids.{
  ids, SameIds, Steps, Steps-refl, Steps-trans, SameIds-Steps, Held, Buried,
}
use fleetcom.Supervisor.Invariant.Loading.{admit-Steps}

module _ {E : Type 0} where
  -- What the invariant looks at is the same.
  pub record SameSet (s u : Supervisor E) : Type 0 where
    pub tasks : u.tasks ≡ s.tasks
    pub graveyard : u.graveyard ≡ s.graveyard
    pub next_id : u.next_id ≡ s.next_id
    pub max_tasks : u.max_tasks ≡ s.max_tasks

  pub SameSet-SameIds : {s u : Supervisor E} → SameSet s u → SameIds s u
  SameSet-SameIds {s} {u} e = record {
    same = ap ids e.tasks;
    counter = e.next_id;
    ceiling = e.max_tasks;
    holds = λ v b. (subst Held (sym e.tasks) v, subst Buried (sym e.graveyard) b);
  }

  pub SameSet-Steps : {s u : Supervisor E} → SameSet s u → Steps s u
  SameSet-Steps e = SameIds-Steps (SameSet-SameIds e)

  pub notify-Steps : (msg : Text) (s : Supervisor E) → Steps s (notify msg s)
  notify-Steps msg s =
      SameSet-Steps (record { tasks = refl; graveyard = refl; next_id = refl; max_tasks = refl })

  pub emit-Steps : (e : Event) (s : Supervisor E) → Steps s (emit e s)
  emit-Steps e s =
      SameSet-Steps (record { tasks = refl; graveyard = refl; next_id = refl; max_tasks = refl })

  pub with_notice-Steps :
      (id : ℕ) (n : Option Text) (s : Supervisor E) → Steps s (with_notice id n s)
  with_notice-Steps id none s = Steps-refl s
  with_notice-Steps id (some n) s = notify-Steps _ s

  pub report_spawn-Steps :
      (id : ℕ) (r : Result (Option Text)) (s : Supervisor E) → Steps s (report_spawn id r s)
  unfolding report_spawn
  report_spawn-Steps id (ok n) s = Steps-trans (with_notice-Steps id n s) (emit-Steps _ _)
  report_spawn-Steps id (err e) s = notify-Steps _ s

  -- A guard that refuses only adds its notice.
  pub or_notice-Steps :
      {A : Type 0} (r : Result A) (s : Supervisor E) (f : A → Supervisor E)
      → ((a : A) → r ≡ ok a → Steps s (f a))
      → Steps s (or_notice r s f)
  or_notice-Steps (err msg) s f keeps = notify-Steps msg s
  or_notice-Steps (ok a) s f keeps = keeps a refl

  room-below_task_ceiling :
      (s : Supervisor E) (u : Unit {0}) → below_task_ceiling s ≡ ok u → length s.tasks < s.max_tasks
  room-below_task_ceiling s u e = ground (arith, e)

module _ {E : Type 0} ⦃t : Terminal E⦄ where
  admit_and_report-Steps :
      (h : Host) (l : Launch) (cwd : Text) (group : Option Text) (s : Supervisor E)
      (ctx : LaunchContext)
      → length s.tasks < s.max_tasks
      → Steps s (admit_and_report h l cwd group s ctx)
  admit_and_report-Steps h l cwd group s ctx room =
      Steps-trans (admit-Steps h l cwd ctx.env group none s room) (report_spawn-Steps _ _ _)

  pub spawn-Steps :
      (h : Host) (command cwd : Text) (group : Option Text) (s : Supervisor E)
      → Steps s (spawn h command cwd group s)
  unfolding spawn
  spawn-Steps h command cwd group s = elim (Bool-cases (ltb max_command_len (byte_len command))) [
    | inl e ↦ rw e (notify-Steps _ s)
    | inr e ↦ rw e (
        or_notice-Steps (below_task_ceiling s) s _ λ u room.
          or_notice-Steps (context s.launch) s _ λ ctx _.
            admit_and_report-Steps h (literal command) cwd group s ctx
              (room-below_task_ceiling s u room))
  ]

  pub spawn_agent-Steps :
      (h : Host) (agent cwd : Text) (group : Option Text) (s : Supervisor E)
      → Steps s (spawn_agent h agent cwd group s)
  unfolding spawn_agent
  spawn_agent-Steps h agent cwd group s = or_notice-Steps (below_task_ceiling s) s _ λ u room.
      or_notice-Steps (context s.launch) s _ λ ctx _.
        or_notice-Steps (refused_agent (resolve_agent h agent ctx none)) s _ λ m _.
          admit_and_report-Steps h (managed m) cwd group s ctx (room-below_task_ceiling s u room)
