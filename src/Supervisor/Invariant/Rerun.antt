-- ===== src/Supervisor/Invariant/Rerun.antt =====
-- A rerun keeps every id, and its old run goes to the graveyard with TERM sent.
use fleetcom.Common.{ℕ, suc, ◌≡◌, refl, Bool, true, false, Option, none, some, arith, if◌then◌else◌}
use fleetcom.Text.{Text}
use fleetcom.Terminal.{Terminal}
use fleetcom.Task.Process.{Process, Observation, poll_exit}
use fleetcom.Task.Row.{Task}
use fleetcom.Supervisor.Host.{Host, Result, ok, err}
use fleetcom.Supervisor.State.{Supervisor, notify, by_id, with_task, on_run, retire, is_live}
use fleetcom.Supervisor.Spawn.{context, or_notice, with_notice}
use fleetcom.Supervisor.Messages.{still_running}
use fleetcom.Supervisor.Rerun.{
  rerun, rerun_found, rerun_task, replaced, unmark, forget_screen, retire_old, relaunch,
  take_launch,
}
use fleetcom.Supervisor.Invariant.Ids.{
  SameIds, SameIdsIf, SameIdsIf-trans, weaken, discharge, Uncollected,
}
use fleetcom.Supervisor.Invariant.Handlers.{
  with_task-SameIds, on_run-Uncollected, Held-by_id, retire-Buried, poll_exit_keeps,
}
use fleetcom.Supervisor.Invariant.Loading.{spawn_task-Launched, Unchanged-SameIds, Launched}
use fleetcom.Supervisor.Invariant.Commands.{SameSet-SameIds}

module _ {E : Type 0} where
  or_notice-SameIdsIf :
      {A P : Type 0} (r : Result A) (s : Supervisor E) (f : A → Supervisor E)
      → ((a : A) → SameIdsIf P s (f a))
      → SameIdsIf P s (or_notice r s f)
  or_notice-SameIdsIf (err msg) s f keeps = weaken (
      SameSet-SameIds (record { tasks = refl; graveyard = refl; next_id = refl; max_tasks = refl }))
  or_notice-SameIdsIf (ok a) s f keeps = keeps a

  with_notice-SameIds :
      (id : ℕ) (n : Option Text) (s : Supervisor E) → SameIds s (with_notice id n s)
  with_notice-SameIds id none s =
      SameSet-SameIds (record { tasks = refl; graveyard = refl; next_id = refl; max_tasks = refl })
  with_notice-SameIds id (some n) s =
      SameSet-SameIds (record { tasks = refl; graveyard = refl; next_id = refl; max_tasks = refl })

  forget_screen-SameIds : (id : ℕ) (s : Supervisor E) → SameIds s (forget_screen id s)
  forget_screen-SameIds id s = SameSet-SameIds (ground arith)

  unmark-SameIds : (id : ℕ) (s : Supervisor E) → SameIds s (unmark id s)
  unmark-SameIds id s = SameSet-SameIds (ground arith)

  retire_old-SameIdsIf :
      (now : ℕ) (o : Option (Process E)) (s : Supervisor E)
      → SameIdsIf (Uncollected o) s (retire_old now o s)
  retire_old-SameIdsIf now none s = record {
    same = refl;
    counter = refl;
    ceiling = refl;
    holds = λ p v b. (v, b);
  }
  retire_old-SameIdsIf now (some p) s = record {
    same = unfold retire in refl;
    counter = unfold retire in refl;
    ceiling = unfold retire in refl;
    holds = λ e v b. (unfold retire in v, retire-Buried now p s e b);
  }

  take_launch-SameIds :
      (id : ℕ) (fresh : Task E) (s : Supervisor E)
      → Uncollected fresh.process
      → SameIds s (with_task id (take_launch fresh) s)
  take_launch-SameIds id fresh s u =
      with_task-SameIds id (take_launch fresh) s (λ t. refl) (λ t v. u)

  replaced-SameIdsIf :
      (h : Host) (id : ℕ) (old : Task E) (s : Supervisor E) (r : Result (Task E × Option Text))
      → Launched id r
      → SameIdsIf (Uncollected old.process) s (replaced h id old s r)
  replaced-SameIdsIf h id old s (err e) l = weaken (
      SameSet-SameIds (record { tasks = refl; graveyard = refl; next_id = refl; max_tasks = refl }))
  replaced-SameIdsIf h id old s (ok (fresh, notice)) l =
      SameIdsIf-trans (weaken (with_notice-SameIds id notice s)) (
        SameIdsIf-trans (weaken (take_launch-SameIds id fresh (with_notice id notice s) l.1)) (
          SameIdsIf-trans (retire_old-SameIdsIf h.seen.now old.process _)
            (weaken (forget_screen-SameIds id _))))

  -- The run found under an id, with its exit polled, is not collected.
  polled-Uncollected :
      (o : Observation) (t : Task E)
      → Uncollected t.process
      → Uncollected (on_run (poll_exit o) t).process
  polled-Uncollected o t u = on_run-Uncollected (poll_exit o) (λ p. (poll_exit_keeps o p).0) t u

module _ {E : Type 0} ⦃t : Terminal E⦄ where
  rerun_task-SameIdsIf :
      (h : Host) (id : ℕ) (old : Task E) (s : Supervisor E)
      → SameIdsIf (Uncollected old.process) s (rerun_task h id old s)
  rerun_task-SameIdsIf h id old s = or_notice-SameIdsIf (context s.launch) s _ λ ctx.
      or_notice-SameIdsIf (relaunch h old ctx old.harness) s _ λ l.
        let (same, launched) = spawn_task-Launched h id (suc old.run) l old.cwd ctx.env s in
        SameIdsIf-trans (weaken (Unchanged-SameIds same)) (replaced-SameIdsIf h id old _ _ launched)

  rerun_live-SameIdsIf :
      (h : Host) (id : ℕ) (old : Task E) (s : Supervisor E) (b : Bool)
      → SameIdsIf
          (Uncollected old.process)
          s
          (if b then notify still_running s else rerun_task h id old (unmark id s))
  rerun_live-SameIdsIf h id old s true = weaken (
      SameSet-SameIds (record { tasks = refl; graveyard = refl; next_id = refl; max_tasks = refl }))
  rerun_live-SameIdsIf h id old s false =
      SameIdsIf-trans (weaken (unmark-SameIds id s)) (rerun_task-SameIdsIf h id old (unmark id s))

  rerun_found-SameIds :
      (h : Host) (id : ℕ) (s : Supervisor E) (found : Option (Task E))
      → by_id id s.tasks ≡ found
      → SameIds s (rerun_found h id s found)
  rerun_found-SameIds h id s none e =
      SameSet-SameIds (record { tasks = refl; graveyard = refl; next_id = refl; max_tasks = refl })
  rerun_found-SameIds h id s (some old) e =
      discharge (λ v. polled-Uncollected h.seen old (Held-by_id id s.tasks old e v))
        (with_task-SameIds id (on_run (poll_exit h.seen)) s (λ u. refl) (polled-Uncollected h.seen))
        (rerun_live-SameIdsIf h id (on_run (poll_exit h.seen) old) _
          (is_live (on_run (poll_exit h.seen) old).process))

  pub rerun-SameIds : (h : Host) (id : ℕ) (s : Supervisor E) → SameIds s (rerun h id s)
  unfolding rerun
  rerun-SameIds h id s = rerun_found-SameIds h id s (by_id id s.tasks) refl
