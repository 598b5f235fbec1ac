-- ===== src/Supervisor/Invariant/Loading.antt =====
-- The handlers that add tasks keep the invariant and hand out fresh ids only.
use fleetcom.Common.{
  ℕ, ◌<◌, ◌≡◌, refl, sym, ap, subst, ◌⊎◌, inl, inr, true, Option, none, some, List, [], ◌∷◌, ◌++◌,
  All-append, length, length-append, arith,
}
use fleetcom.Text.{Text}
use fleetcom.Terminal.{Terminal}
use fleetcom.Task.Process.{new}
use fleetcom.Task.Row.{Task}
use fleetcom.Supervisor.Host.{Host, Result, ok, err, Plan}
use fleetcom.Supervisor.State.{Supervisor}
use fleetcom.Supervisor.Assets.{ensure_capture_assets}
use fleetcom.Supervisor.Spawn.{
  Launch, literal, managed, ManagedLaunch, map_result, literal_task, managed_task, start_managed,
  plan_launch, enroll, spawn_task, admitted, admit,
}
use fleetcom.Supervisor.Invariant.Ids.{
  ids, has, ids-append, Ascending-append, Held, Uncollected, Buried, SameIds, Steps, Steps-refl,
  SameIds-Steps, Steps-trans,
}

module _ {E : Type 0} where
  -- What a launch leaves alone: everything but the capture assets.
  pub record Unchanged (s u : Supervisor E) : Type 0 where
    pub tasks : u.tasks ≡ s.tasks
    pub graveyard : u.graveyard ≡ s.graveyard
    pub next_id : u.next_id ≡ s.next_id
    pub max_tasks : u.max_tasks ≡ s.max_tasks
    pub flagship : u.flagship ≡ s.flagship

  pub ensure_capture_assets-Unchanged :
      (h : Host) (s : Supervisor E) → Unchanged s (ensure_capture_assets h s).0
  unfolding ensure_capture_assets
  ensure_capture_assets-Unchanged h s = ground arith

  pub Unchanged-SameIds : {s u : Supervisor E} → Unchanged s u → SameIds s u
  Unchanged-SameIds {s} {u} e = record {
    same = ap ids e.tasks;
    counter = e.next_id;
    ceiling = e.max_tasks;
    holds = λ v b. (subst Held (sym e.tasks) v, subst Buried (sym e.graveyard) b);
  }

  has-ids-append :
      (i : ℕ) (ts : List (Task E)) (t : Task E)
      → has i (ids (ts ++ t ∷ [])) ≡ true
      → (has i (ids ts) ≡ true) ⊎ (i ≡ t.id)
  has-ids-append i [] t h = ground (arith, h)
  has-ids-append i (u ∷ ts) t h = ground (arith, h, has-ids-append i ts t)

  -- A task under the next id joins a set below its ceiling.
  pub enroll-Steps :
      (t : Task E) (group name : Option Text) (s : Supervisor E)
      → t.id ≡ s.next_id
      → Uncollected t.process
      → length s.tasks < s.max_tasks
      → Steps s (enroll t group name s)
  unfolding enroll
  enroll-Steps t group name s e held room = record {
    keeps = λ v. record {
      ascending = rw (ids-append, e) (Ascending-append 1 s.next_id (ids s.tasks) v.ascending);
      capped = omega (arith, length-append {0} s.tasks, room);
      held = All-append (λ (u : Task E). Uncollected u.process) s.tasks _ v.held (held, tt);
      buried = v.buried;
    };
    advances = omega arith;
    fresh = λ i h. elim (has-ids-append i s.tasks _ h) [
      | inl old ↦ inl old
      | inr new ↦ inr (omega (arith, e, new))
    ];
  }

  -- A launch gives a task under its id, whose leader is not collected.
  abbrev pub Launched : ℕ → Result (Task E × Option Text) → Type 0
  Launched id (err e) = Unit {0}
  Launched id (ok (t, notice)) = (t.id ≡ id) × Uncollected t.process

module _ {E : Type 0} ⦃t : Terminal E⦄ where
  literal-Launched :
      (h : Host) (id run : ℕ) (command cwd : Text) (s : Supervisor E) (r : Result (Option ℕ))
      → Launched id (map_result (λ pid. (literal_task h id run command cwd s pid, none)) r)
  unfolding spawn_task
  literal-Launched h id run command cwd s (err e) = tt
  literal-Launched h id run command cwd s (ok pid) = (refl, refl)

  managed-Launched :
      (h : Host) (id run : ℕ) (agent cwd : Text) (s : Supervisor E) (capture : Text)
      (home : Option Text) (plan : Plan) (r : Result (Option ℕ))
      → Launched id (
          map_result
            (λ pid. (managed_task h id run agent cwd s capture home plan pid, plan.notice))
            r)
  unfolding spawn_task
  managed-Launched h id run agent cwd s capture home plan (err e) = tt
  managed-Launched h id run agent cwd s capture home plan (ok pid) = (refl, refl)

  start_managed-Launched :
      (h : Host) (id run : ℕ) (m : ManagedLaunch) (cwd : Text) (env : List (Text × Text))
      (s : Supervisor E) (assets : Option Text)
      → Launched id (start_managed h id run m cwd env s assets)
  start_managed-Launched h id run m cwd env s none = tt
  start_managed-Launched h id run m cwd env s (some assets) =
      let capture = h.capture_path assets id run in
      let home = h.resolve_home env m.agent in
      managed-Launched h id run m.agent cwd s capture home (plan_launch h id run m capture home) _

  pub spawn_task-Launched :
      (h : Host) (id run : ℕ) (l : Launch) (cwd : Text) (env : List (Text × Text))
      (s : Supervisor E)
      → Unchanged s (spawn_task h id run l cwd env s).0
        × Launched id (spawn_task h id run l cwd env s).1
  unfolding spawn_task
  spawn_task-Launched h id run (literal command) cwd env s = (
    record { tasks = refl; graveyard = refl; next_id = refl; max_tasks = refl; flagship = refl },
    literal-Launched h id run command cwd s _,
  )
  spawn_task-Launched h id run (managed m) cwd env s = (
    ensure_capture_assets-Unchanged h s,
    start_managed-Launched h id run m cwd env (ensure_capture_assets h s).0
        (ensure_capture_assets h s).1,
  )

  admitted-Steps :
      (group name : Option Text) (s : Supervisor E) (r : Result (Task E × Option Text))
      → Launched s.next_id r
      → length s.tasks < s.max_tasks
      → Steps s (admitted group name s r).0
  admitted-Steps group name s (err e) l room = Steps-refl s
  admitted-Steps group name s (ok (task, notice)) l room =
      enroll-Steps task group name s l.0 l.1 room

  -- Below the ceiling an admission keeps the invariant.
  pub admit-Steps :
      (h : Host) (l : Launch) (cwd : Text) (env : List (Text × Text)) (group name : Option Text)
      (s : Supervisor E)
      → length s.tasks < s.max_tasks
      → Steps s (admit h l cwd env group name s).0
  unfolding admit
  admit-Steps h l cwd env group name s room =
      let (same, launched) = spawn_task-Launched h s.next_id 0 l cwd env s in
      let r = (spawn_task h s.next_id 0 l cwd env s).1 in
      Steps-trans (SameIds-Steps (Unchanged-SameIds same)) (
        admitted-Steps group name _ _ (subst (λ n. Launched n r) (sym same.next_id) launched)
          (rw (same.tasks, same.max_tasks) room))
