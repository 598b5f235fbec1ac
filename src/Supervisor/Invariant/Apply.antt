-- ===== src/Supervisor/Invariant/Apply.antt =====
-- Every command, and every reaping, keeps the invariant of the task set.
use fleetcom.Common.{
  ℕ, some-injective, ◌≤◌, ◌≡◌, refl, sym, subst, ◌⊎◌, inl, Bool, true, false, Option, none, some,
  arith, if◌then◌else◌,
}
use fleetcom.Text.{Text}
use fleetcom.Protocol.{
  Command, spawn, spawn_agent, kill, remove, restart, tag, flagship, set_group, set_name, resize,
  watch, paste, mouse, key, scrollback, save_session, load_session, load_recovery, list_sessions,
  shutdown,
}
use fleetcom.Terminal.{Terminal}
use fleetcom.Task.Process.{Process, Observation, terminate}
use fleetcom.Task.Row.{Task}
use fleetcom.Task.Input.{settled, scroll_view, send_paste, send_mouse, send_key}
use fleetcom.Supervisor.Host.{Host}
use fleetcom.Supervisor.State.{Supervisor, with_task, remove_task, on_run, run_of, retire}
use fleetcom.Supervisor.Apply.{kill_task, remove_row, retire_run, handle, apply, affects_recipe}
use fleetcom.Supervisor.Reap.{reap, touch}
use fleetcom.Supervisor.Recipe
use fleetcom.Supervisor.Assets.{sessions_root}
use fleetcom.Supervisor.Invariant.Ids.{
  ids, has, Ascending-remove_task, has-remove_task, length-remove_task, Inv, Steps, Steps-refl,
  Steps-trans, SameIds-Steps, Uncollected, Buried,
}
use fleetcom.Supervisor.Invariant.Handlers.{
  with_task-SameIds, on_run-Uncollected, Held-remove_task, Held-run_of, retire-Buried, reap-SameIds,
  reaped-terminate,
}
use fleetcom.Supervisor.Invariant.Commands.{
  SameSet-Steps, notify-Steps, emit-Steps, spawn-Steps, spawn_agent-Steps,
}
use fleetcom.Supervisor.Invariant.Rerun.{rerun-SameIds}
use fleetcom.Supervisor.Invariant.Delivery.{
  deliver-Steps, resize_tasks-Steps, watch_task-Steps, reaped-scroll_view, reaped-send_paste,
  reaped-send_mouse, reaped-send_key,
}
use fleetcom.Supervisor.Invariant.Sessions.{load_session-Steps, load_recovery-Steps}
use fleetcom.Supervisor.Invariant.Ending.{shutdown_all-Steps}

module _ {E : Type 0} where
  kill_task-Steps : (now id : ℕ) (s : Supervisor E) → Steps s (kill_task now id s)
  unfolding kill_task
  kill_task-Steps now id s =
      Steps-trans
        (SameIds-Steps (
          with_task-SameIds id (on_run (λ p. (terminate now p).0)) s (λ t. refl)
            (on_run-Uncollected (λ p. (terminate now p).0) (reaped-terminate now))))
        (SameSet-Steps
          (record { tasks = refl; graveyard = refl; next_id = refl; max_tasks = refl }))

  retire_run-Buried :
      (now : ℕ) (o : Option (Process E)) (s : Supervisor E)
      → Uncollected o
      → Buried s.graveyard
      → Buried (retire_run now o s).graveyard
  retire_run-Buried now none s u b = b
  retire_run-Buried now (some p) s u b = retire-Buried now p s u b

  retire_run_keeps :
      (now : ℕ) (o : Option (Process E)) (s : Supervisor E)
      → ((retire_run now o s).tasks ≡ s.tasks)
        × ((retire_run now o s).next_id ≡ s.next_id)
        × ((retire_run now o s).max_tasks ≡ s.max_tasks)
  unfolding retire
  retire_run_keeps now none s = (refl, refl, refl)
  retire_run_keeps now (some p) s = (refl, refl, refl)

  remove_row-Steps : (now id : ℕ) (s : Supervisor E) → Steps s (remove_row now id s)
  unfolding remove_row
  remove_row-Steps now id s =
      let left = record s { tasks = remove_task id s.tasks } in
      let k = retire_run_keeps now (run_of id s.tasks) left in
      record {
        keeps = λ v. record {
          ascending = rw (k.0, k.1) (Ascending-remove_task 1 s.next_id id s.tasks v.ascending);
          capped = rw (k.0, k.2) (omega (arith, length-remove_task id s.tasks, v.capped));
          held = rw k.0 (Held-remove_task id s.tasks v.held);
          buried =
              retire_run-Buried now (run_of id s.tasks) left (Held-run_of id s.tasks v.held)
                v.buried;
        };
        advances = omega (arith, k.1);
        fresh = λ i h. inl (has-remove_task i id s.tasks (rw k.0 at h));
      }

  save_session-Steps :
      (h : Host) (name : Text) (s : Supervisor E) → Steps s (Recipe.save_session h name s)
  unfolding Recipe.save_session
  save_session-Steps h name s = notify-Steps _ s

  listing-Steps : (h : Host) (o : Option Text) (s : Supervisor E) → Steps s (Recipe.listing h o s)
  listing-Steps h none s = emit-Steps _ s
  listing-Steps h (some root) s = emit-Steps _ s

  list_sessions-Steps : (h : Host) (s : Supervisor E) → Steps s (Recipe.list_sessions h s)
  unfolding Recipe.list_sessions
  list_sessions-Steps h s = listing-Steps h (sessions_root h s) s

  -- `Tag`, `SetGroup` and `SetName` change one label of a row.
  relabel-Steps :
      (id : ℕ) (f : Task E → Task E) (s : Supervisor E)
      → ((u : Task E) → (f u).id ≡ u.id)
      → ((u : Task E) → (f u).process ≡ u.process)
      → Steps s (with_task id f s)
  relabel-Steps id f s same run =
      SameIds-Steps (with_task-SameIds id f s same (λ u v. subst Uncollected (sym (run u)) v))

module _ {E : Type 0} ⦃t : Terminal E⦄ where
  handle-Steps :
      (fuel : ℕ) (h : Host) (cmd : Command) (s u : Supervisor E)
      → handle fuel h cmd s ≡ some u
      → Steps s u
  handle-Steps fuel h (spawn command cwd group) s u e =
      subst (Steps s) (some-injective e) (spawn-Steps h command cwd group s)
  handle-Steps fuel h (spawn_agent agent cwd group) s u e =
      subst (Steps s) (some-injective e) (spawn_agent-Steps h agent cwd group s)
  handle-Steps fuel h (kill id) s u e =
      subst (Steps s) (some-injective e) (kill_task-Steps h.seen.now id s)
  handle-Steps fuel h (remove id) s u e =
      subst (Steps s) (some-injective e) (remove_row-Steps h.seen.now id s)
  handle-Steps fuel h (restart id) s u e =
      subst (Steps s) (some-injective e) (SameIds-Steps (rerun-SameIds h id s))
  handle-Steps fuel h (tag id on) s u e =
      subst (Steps s) (some-injective e) (relabel-Steps id _ s (λ w. refl) (λ w. refl))
  handle-Steps fuel h (flagship id) s u e =
      subst (Steps s) (some-injective e) (
        SameSet-Steps (record { tasks = refl; graveyard = refl; next_id = refl; max_tasks = refl }))
  handle-Steps fuel h (set_group id group) s u e =
      subst (Steps s) (some-injective e) (relabel-Steps id _ s (λ w. refl) (λ w. refl))
  handle-Steps fuel h (set_name id name) s u e =
      subst (Steps s) (some-injective e) (relabel-Steps id _ s (λ w. refl) (λ w. refl))
  handle-Steps fuel h (resize rows cols) s u e =
      subst (Steps s) (some-injective e) (resize_tasks-Steps h rows cols s)
  handle-Steps fuel h (watch id attached) s u e =
      subst (Steps s) (some-injective e) (watch_task-Steps id attached s)
  handle-Steps fuel h (paste id bytes) s u e = subst (Steps s) (some-injective e) (
      deliver-Steps id _ (λ p. send_paste bytes (settled (h.taken_off id) p)) s
        (λ p. reaped-send_paste bytes (settled (h.taken_off id) p)))
  handle-Steps fuel h (mouse id kind col row) s u e = subst (Steps s) (some-injective e) (
      deliver-Steps id _ (λ p. send_mouse kind col row (settled (h.taken_off id) p)) s
        (λ p. reaped-send_mouse kind col row (settled (h.taken_off id) p)))
  handle-Steps fuel h (key id code mods) s u e = subst (Steps s) (some-injective e) (
      deliver-Steps id _ (λ p. send_key code mods (settled (h.taken_off id) p)) s
        (λ p. reaped-send_key code mods (settled (h.taken_off id) p)))
  handle-Steps fuel h (scrollback id action) s u e = subst (Steps s) (some-injective e) (
      SameIds-Steps (
        with_task-SameIds id (on_run (scroll_view action)) s (λ w. refl)
          (on_run-Uncollected (scroll_view action) (reaped-scroll_view action))))
  handle-Steps fuel h (save_session name) s u e =
      subst (Steps s) (some-injective e) (save_session-Steps h name s)
  handle-Steps fuel h (load_session name) s u e =
      subst (Steps s) (some-injective e) (load_session-Steps h name s)
  handle-Steps fuel h (load_recovery stem) s u e =
      subst (Steps s) (some-injective e) (load_recovery-Steps h stem s)
  handle-Steps fuel h list_sessions s u e =
      subst (Steps s) (some-injective e) (list_sessions-Steps h s)
  handle-Steps fuel h shutdown s u e = shutdown_all-Steps fuel h.seen.now h.later h.last s u e

  armed-Steps :
      (now : ℕ) (b : Bool) (s : Supervisor E)
      → Steps s (if b then record s { recovery = touch now s.recovery } else s)
  armed-Steps now false s = Steps-refl s
  armed-Steps now true s =
      SameSet-Steps (record { tasks = refl; graveyard = refl; next_id = refl; max_tasks = refl })

  apply-Steps :
      (fuel : ℕ) (h : Host) (cmd : Command) (s u : Supervisor E)
      → apply fuel h cmd s ≡ some u
      → Steps s u
  unfolding apply
  apply-Steps fuel h cmd s u e =
      Steps-trans (armed-Steps h.seen.now (affects_recipe cmd) s) (handle-Steps fuel h cmd _ u e)

  -- Between commands the supervisor's task set is well-formed (`Inv`): ids ascend strictly below the
  -- counter, the task ceiling holds, no row's leader is collected, and every run in the graveyard
  -- was sent TERM and is not collected. Every client command that returns keeps that, never lowers
  -- the id counter, and leaves rows whose ids were there before or are fresh from the counter.
  pub apply-Inv :
      (fuel : ℕ) (h : Host) (cmd : Command) (s u : Supervisor E)
      → Inv s
      → apply fuel h cmd s ≡ some u
      → Inv u
        × (s.next_id ≤ u.next_id)
        × ((i : ℕ) → has i (ids u.tasks) ≡ true → (has i (ids s.tasks) ≡ true) ⊎ (s.next_id ≤ i))
  apply-Inv fuel h cmd s u v e =
      let k = apply-Steps fuel h cmd s u e in (k.keeps v, k.advances, k.fresh)

module _ {E : Type 0} where
  -- One round of reaping keeps the same invariant, the ids and the counter.
  pub reap-Inv :
      (o : Observation) (s : Supervisor E)
      → Inv s
      → Inv (reap o s) × (ids (reap o s).tasks ≡ ids s.tasks) × ((reap o s).next_id ≡ s.next_id)
  reap-Inv o s v = let k = reap-SameIds o s in ((SameIds-Steps k).keeps v, k.same, k.counter)
