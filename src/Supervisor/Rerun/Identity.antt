-- ===== src/Supervisor/Rerun/Identity.antt =====
-- src/supervisor.rs, `rerun`: what a row keeps, and which runs leave it.
use fleetcom.Common.{
  ℕ, suc, ◌≡◌, refl, sym, ap, ◌∙◌, ◌⊎◌, inl, inr, Bool, true, false, Option, none, some, List, [],
  ◌∷◌, ◌++◌, arith, if◌then◌else◌, Bool-cases, ◌==◌, some-injective, append-nil,
}
use fleetcom.Text.{Text}
use fleetcom.Terminal.{Terminal}
use fleetcom.Task.Process.{Process, terminate, poll_exit}
use fleetcom.Task.Row.{Task}
use fleetcom.Supervisor.Host.{Host, Result, ok, err}
use fleetcom.Supervisor.State.{
  Supervisor, notify, by_id, update_task, with_task, on_run, is_live, retire,
}
use fleetcom.Supervisor.Messages.{still_running}
use fleetcom.Supervisor.Spawn.{
  ManagedLaunch, Launch, literal, managed, map_result, context, or_notice, with_notice, spawn_task,
  start_managed, literal_task, managed_task, plan_launch,
}
use fleetcom.Supervisor.Assets.{ensure_capture_assets}
use fleetcom.Supervisor.Rerun.{
  rerun, rerun_found, rerun_task, relaunch, replaced, take_launch, retire_old, forget_screen,
  unmark,
}
use fleetcom.Supervisor.Invariant.Loading.{spawn_task-Launched}

module _ {E : Type 0} where
  -- What the user gave a row, and its id.
  abbrev pub identity : Task E → ℕ × Text × Text × Bool × Option Text × Option Text
  identity t = (t.id, t.command, t.cwd, t.tagged, t.group, t.name)

  abbrev pub rows : List (Task E) → List (ℕ × Text × Text × Bool × Option Text × Option Text)
  rows [] = []
  rows (t ∷ ts) = identity t ∷ rows ts

  -- The runs of the rows, in order.
  abbrev pub runs : List (Task E) → List (Option (Process E))
  runs [] = []
  runs (t ∷ ts) = t.process ∷ runs ts

  -- What a run leaves in the graveyard, its group terminated.
  abbrev pub retired : ℕ → Option (Process E) → List (Process E)
  retired now none = []
  retired now (some p) = (terminate now p).0 ∷ []

  -- No row has lost its run; at most the exit of the run under the id was polled.
  abbrev pub Keeps : Host → ℕ → Supervisor E → Supervisor E → Type 0
  Keeps h id s u =
      (u.graveyard ≡ s.graveyard)
      × ((runs u.tasks ≡ runs s.tasks)
          ⊎ (runs u.tasks ≡ runs (update_task id (on_run (poll_exit h.seen)) s.tasks)))

  -- The row under the id has a new run and no other row has; its old run, which its exit has ended, if
  -- there was one, has joined the graveyard.
  abbrev pub Renews : Host → ℕ → Supervisor E → Supervisor E → Type 0
  Renews h id s u =
      (front : List (Task E)) × (old : Task E) × (back : List (Task E)) × (new : Process E)
      × (s.tasks ≡ front ++ old ∷ back)
      × (old.id ≡ id)
      × (is_live (on_run (poll_exit h.seen) old).process ≡ false)
      × (runs u.tasks ≡ runs front ++ some new ∷ runs back)
      × (u.graveyard ≡ s.graveyard ++ retired h.seen.now (on_run (poll_exit h.seen) old).process)

  pub record Replaces (h : Host) (id : ℕ) (s u : Supervisor E) : Type 0 where
    pub same_rows : rows u.tasks ≡ rows s.tasks
    pub outcome : Keeps h id s u ⊎ Renews h id s u

  -- Tasks and graveyard are those of before, or the task under the id took a launch.
  abbrev Relaunched : ℕ → ℕ → Option (Process E) → Supervisor E → Supervisor E → Type 0
  Relaunched now id old s u =
      ((u.tasks ≡ s.tasks) × (u.graveyard ≡ s.graveyard))
      ⊎ ((fresh : Task E) × (new : Process E) × (fresh.process ≡ some new)
          × (u.tasks ≡ update_task id (take_launch fresh) s.tasks)
          × (u.graveyard ≡ s.graveyard ++ retired now old))

  record Same (s u : Supervisor E) : Type 0 where
    pub tasks : u.tasks ≡ s.tasks
    pub graves : u.graveyard ≡ s.graveyard

  before :
      (now id : ℕ) (old : Option (Process E)) (s u v : Supervisor E)
      → Same s u
      → Relaunched now id old u v
      → Relaunched now id old s v
  before now id old s u v same (inl k) = inl (k.0 ∙ same.tasks, k.1 ∙ same.graves)
  before now id old s u v same (inr (fresh, new, e, ts, gs)) = inr (
    fresh,
    new,
    e,
    ts ∙ ap (update_task id (take_launch fresh)) same.tasks,
    gs ∙ ap (λ g. g ++ retired now old) same.graves,
  )

  rows-update_task :
      (id : ℕ) (f : Task E → Task E) (ts : List (Task E))
      → ((t : Task E) → identity (f t) ≡ identity t)
      → rows (update_task id f ts) ≡ rows ts
  unfolding update_task
  rows-update_task id f [] keeps = refl
  rows-update_task id f (t ∷ ts) keeps = ground (arith, keeps t, rows-update_task id f ts keeps)

  rows-append : (xs ys : List (Task E)) → rows (xs ++ ys) ≡ rows xs ++ rows ys
  rows-append [] ys = refl
  rows-append (x ∷ xs) ys = ap (identity x ∷◌) (rows-append xs ys)

  runs-append : (xs ys : List (Task E)) → runs (xs ++ ys) ≡ runs xs ++ runs ys
  runs-append [] ys = refl
  runs-append (x ∷ xs) ys = ap (x.process ∷◌) (runs-append xs ys)

  -- Where the task under an id stands.
  abbrev Found : ℕ → Task E → List (Task E) → Type 0
  Found id old ts =
      (front : List (Task E)) × (back : List (Task E)) × (ts ≡ front ++ old ∷ back)
      × (old.id ≡ id)
      × ((f : Task E → Task E) → update_task id f ts ≡ front ++ f old ∷ back)

  by_id-Found :
      (id : ℕ) (old : Task E) (ts : List (Task E)) → by_id id ts ≡ some old → Found id old ts
  unfolding by_id update_task
  by_id-Found id old [] e = cc
  by_id-Found id old (t ∷ ts) e = elim (Bool-cases (t.id == id)) [
    | inl here ↦
        let q : some t ≡ some old = rw here at e in
        let same = some-injective q in
        (
          [],
          ts,
          ap (◌∷ ts) same,
          ap (λ (u : Task E). u.id) (sym same) ∙ ground (arith, here),
          (λ f. rw here (ap (λ u. f u ∷ ts) same)),
        )
    | inr there ↦
        let q : by_id id ts ≡ some old = rw there at e in
        let (front, back, parts, named, updates) = by_id-Found id old ts q in
        (t ∷ front, back, ap (t ∷◌) parts, named, (λ f. rw there (ap (t ∷◌) (updates f))))
  ]

  update_task-update_task :
      (id : ℕ) (f g : Task E → Task E) (ts : List (Task E))
      → ((t : Task E) → (f t).id ≡ t.id)
      → update_task id g (update_task id f ts) ≡ update_task id (λ t. g (f t)) ts
  unfolding update_task
  update_task-update_task id f g [] keeps = refl
  update_task-update_task id f g (t ∷ ts) keeps =
      ground (arith, keeps t, update_task-update_task id f g ts keeps)

  with_notice-Same : (id : ℕ) (n : Option Text) (s : Supervisor E) → Same s (with_notice id n s)
  with_notice-Same id none s = record { tasks = refl; graves = refl }
  with_notice-Same id (some n) s = record { tasks = refl; graves = refl }

  forget_screen-Same : (id : ℕ) (s : Supervisor E) → Same s (forget_screen id s)
  forget_screen-Same id s = record { tasks = ground arith; graves = ground arith }

  unmark-Same : (id : ℕ) (s : Supervisor E) → Same s (unmark id s)
  unmark-Same id s = record { tasks = ground arith; graves = ground arith }

  retire_old-graves :
      (now : ℕ) (o : Option (Process E)) (s : Supervisor E)
      → ((retire_old now o s).tasks ≡ s.tasks)
        × ((retire_old now o s).graveyard ≡ s.graveyard ++ retired now o)
  unfolding retire
  retire_old-graves now none s = (refl, sym (append-nil s.graveyard))
  retire_old-graves now (some p) s = (refl, refl)

  -- A launch gives its task a run.
  abbrev pub Started : Result (Task E × Option Text) → Type 0
  Started (err e) = Unit {0}
  Started (ok (t, notice)) = (p : Process E) × (t.process ≡ some p)

  replaced-Relaunched :
      (h : Host) (id : ℕ) (old : Task E) (s : Supervisor E) (r : Result (Task E × Option Text))
      → Started r
      → Relaunched h.seen.now id old.process s (replaced h id old s r)
  unfolding with_task
  replaced-Relaunched h id old s (err e) st = inl (refl, refl)
  replaced-Relaunched h id old s (ok (fresh, notice)) st =
      let n = with_notice-Same id notice s in
      let s' = with_task id (take_launch fresh) (with_notice id notice s) in
      let (ts, gs) = retire_old-graves h.seen.now old.process s' in
      let f = forget_screen-Same id (retire_old h.seen.now old.process s') in
      inr (
        fresh,
        st.0,
        st.1,
        f.tasks ∙ ts ∙ ap (update_task id (take_launch fresh)) n.tasks,
        f.graves ∙ gs ∙ ap (λ g. g ++ retired h.seen.now old.process) n.graves,
      )

  or_notice-Relaunched :
      {A : Type 0} (now id : ℕ) (o : Option (Process E)) (r : Result A) (s : Supervisor E)
      (f : A → Supervisor E)
      → ((a : A) → Relaunched now id o s (f a))
      → Relaunched now id o s (or_notice r s f)
  or_notice-Relaunched now id o (err msg) s f each = inl (refl, refl)
  or_notice-Relaunched now id o (ok a) s f each = each a

  -- From the polled supervisor to the one before the poll.
  Relaunched-Replaces :
      (h : Host) (id : ℕ) (s u : Supervisor E) (old : Task E)
      → by_id id s.tasks ≡ some old
      → is_live (on_run (poll_exit h.seen) old).process ≡ false
      → Relaunched h.seen.now id
          (on_run (poll_exit h.seen) old).process
          (with_task id (on_run (poll_exit h.seen)) s)
          u
      → Replaces h id s u
  unfolding with_task
  Relaunched-Replaces h id s u old e dead (inl (ts, gs)) = record {
    same_rows = ap rows ts ∙ rows-update_task id (on_run (poll_exit h.seen)) s.tasks (λ t. refl);
    outcome = inl (gs, inr (ap runs ts));
  }
  Relaunched-Replaces h id s u old e dead (inr (fresh, new, started, ts, gs)) =
      let poll = on_run {E = E} (poll_exit h.seen) in
      let (front, back, parts, named, updates) = by_id-Found id old s.tasks e in
      let both : u.tasks ≡ update_task id (λ t. take_launch fresh (poll t)) s.tasks =
        ts ∙ update_task-update_task id poll (take_launch fresh) s.tasks (λ t. refl) in
      record {
        same_rows =
            ap rows both
            ∙ rows-update_task id (λ t. take_launch fresh (poll t)) s.tasks (λ t. refl);
        outcome = inr (
          front,
          old,
          back,
          new,
          parts,
          named,
          dead,
          ap runs (both ∙ updates (λ t. take_launch fresh (poll t)))
              ∙ runs-append front (take_launch fresh (poll old) ∷ back)
              ∙ ap (λ o. runs front ++ o ∷ runs back) started,
          gs,
        );
      }

module _ {E : Type 0} ⦃t : Terminal E⦄ where
  start_managed-Started :
      (h : Host) (id run : ℕ) (m : ManagedLaunch) (cwd : Text) (env : List (Text × Text))
      (s : Supervisor E) (assets : Option Text)
      → Started (start_managed h id run m cwd env s assets)
  start_managed-Started h id run m cwd env s none = tt
  start_managed-Started h id run m cwd env s (some assets) = by_pty _
    where
      by_pty :
          (r : Result (Option ℕ))
          → Started (
              map_result
                (λ pid. (
                  managed_task h id run m.agent cwd s
                      (h.capture_path assets id run)
                      (h.resolve_home env m.agent)
                      (plan_launch h id run m
                        (h.capture_path assets id run)
                        (h.resolve_home env m.agent))
                      pid,
                  (plan_launch h id run m
                      (h.capture_path assets id run)
                      (h.resolve_home env m.agent)).notice,
                ))
                r)
      by_pty (err e) = tt
      by_pty (ok pid) = (_, refl)

  spawn_task-Started :
      (h : Host) (id run : ℕ) (l : Launch) (cwd : Text) (env : List (Text × Text))
      (s : Supervisor E)
      → Started (spawn_task h id run l cwd env s).1
  unfolding spawn_task
  spawn_task-Started h id run (literal command) cwd env s = by_pty _
    where
      by_pty :
          (r : Result (Option ℕ))
          → Started (map_result (λ pid. (literal_task h id run command cwd s pid, none)) r)
      by_pty (err e) = tt
      by_pty (ok pid) = (_, refl)
  spawn_task-Started h id run (managed m) cwd env s =
      start_managed-Started h id run m cwd env (ensure_capture_assets h s).0
        (ensure_capture_assets h s).1

  rerun_task-Relaunched :
      (h : Host) (id : ℕ) (old : Task E) (s : Supervisor E)
      → Relaunched h.seen.now id old.process s (rerun_task h id old s)
  rerun_task-Relaunched h id old s =
      or_notice-Relaunched h.seen.now id old.process (context s.launch) s _ λ ctx.
        or_notice-Relaunched h.seen.now id old.process (relaunch h old ctx old.harness) s _ λ l.
          let same = (spawn_task-Launched h id (suc old.run) l old.cwd ctx.env s).0 in
          let s' = (spawn_task h id (suc old.run) l old.cwd ctx.env s).0 in
          let r = (spawn_task h id (suc old.run) l old.cwd ctx.env s).1 in
          before h.seen.now id old.process s s' (replaced h id old s' r)
            (record { tasks = same.tasks; graves = same.graveyard })
            (replaced-Relaunched h id old s' r
              (spawn_task-Started h id (suc old.run) l old.cwd ctx.env s))

  rerun_found-Replaces :
      (h : Host) (id : ℕ) (s : Supervisor E) (found : Option (Task E))
      → by_id id s.tasks ≡ found
      → Replaces h id s (rerun_found h id s found)
  unfolding with_task
  rerun_found-Replaces h id s none e = record { same_rows = refl; outcome = inl (refl, inl refl) }
  rerun_found-Replaces h id s (some old) e =
      by_life (is_live (on_run (poll_exit h.seen) old).process) refl
    where
      s' : Supervisor E
      s' = with_task id (on_run (poll_exit h.seen)) s

      by_life :
          (live : Bool)
          → is_live (on_run (poll_exit h.seen) old).process ≡ live
          → Replaces h id s (
              if live
              then notify still_running s'
              else rerun_task h id (on_run (poll_exit h.seen) old) (unmark id s'))
      by_life true live = record {
        same_rows = rows-update_task id (on_run (poll_exit h.seen)) s.tasks (λ u. refl);
        outcome = inl (refl, inr refl);
      }
      by_life false dead =
          let polled = on_run (poll_exit h.seen) old in
          let u = rerun_task h id polled (unmark id s') in
          Relaunched-Replaces h id s u old e dead (
            before h.seen.now id polled.process s' (unmark id s') u (unmark-Same id s')
              (rerun_task-Relaunched h id polled (unmark id s')))

  -- A rerun, on every branch, keeps the number and order of the rows, and of each row its id,
  -- command, directory, tag, group and name. Either no run leaves its row, the graveyard is as it was,
  -- and at most the exit of the run under the id was polled; or the first row under the id has a new
  -- run, all other rows keep theirs, and its old run, which is not live once polled, is terminated and
  -- joins the graveyard, where it had one.
  pub rerun-Replaces : (h : Host) (id : ℕ) (s : Supervisor E) → Replaces h id s (rerun h id s)
  unfolding rerun
  rerun-Replaces h id s = rerun_found-Replaces h id s (by_id id s.tasks) refl
