-- ===== src/Supervisor/Shutdown.antt =====
-- src/supervisor.rs, `shutdown_all`: its loop ends, and it leaves nothing behind.
use fleetcom.Common.{
  ℕ, zero, suc, ◌+◌, ◌*◌, ◌≤◌, ◌<◌, ◌≡◌, refl, ap, subst, ◌∙◌, false, not, ◌&&◌, ◌⊎◌, inl, inr, All,
  Option, none, some, List, [], ◌∷◌, ◌++◌, ltb, arith, Bool-cases, some-injective, All-append,
}
use fleetcom.Protocol.{shutdown}
use fleetcom.Terminal.{Terminal}
use fleetcom.Task.Process.{
  Process, Observation, Call, killpg, sigkill, terminate, poll_exit, force_kill, drop_run,
}
use fleetcom.Task.Row.{Task}
use fleetcom.Supervisor.Host.{Host}
use fleetcom.Supervisor.State.{Supervisor}
use fleetcom.Supervisor.Reap.{
  each_task, run_with, reap_run, reap, await_grace, shutdown_all, clear_all, cleared_after,
  owns_nothing,
}
use fleetcom.Supervisor.Apply.{apply, affects_recipe}
use fleetcom.Supervisor.Invariant.Ids.{Held, Uncollected, Inv}
use fleetcom.Supervisor.Invariant.Handlers.{reap_run_keeps}

-- Some call of the list is the given one.
abbrev pub Calls : Call → List Call → Type 0
Calls c [] = ⊥
Calls c (d ∷ ds) = (d ≡ c) ⊎ Calls c ds

pub Calls-left : (c : Call) (ds es : List Call) → Calls c ds → Calls c (ds ++ es)
Calls-left c [] es h = absurd h
Calls-left c (d ∷ ds) es h = elim h [ inl e ↦ inl e | inr r ↦ inr (Calls-left c ds es r) ]

pub Calls-right : (c : Call) (ds es : List Call) → Calls c es → Calls c (ds ++ es)
Calls-right c [] es h = h
Calls-right c (d ∷ ds) es h = inr (Calls-right c ds es h)

widen :
    (ns : List ℕ) (cs ds : List Call)
    → ((c : Call) → Calls c cs → Calls c ds)
    → All (λ pid. Calls (killpg pid sigkill) cs) ns
    → All (λ pid. Calls (killpg pid sigkill) ds) ns
widen [] cs ds more a = tt
widen (n ∷ ns) cs ds more a = (more (killpg n sigkill) a.0, widen ns cs ds more a.1)

module _ {E : Type 0} where
  -- The loop sleeps 25 ms in each round, so it passes its deadline.
  await_grace-returns :
      (fuel : ℕ) (later : ℕ → Observation) (deadline round : ℕ) (s : Supervisor E)
      → ((r : ℕ) → (later r).now + 25000000 ≤ (later (suc r)).now)
      → deadline < (later round).now + 25000000 * fuel
      → (u : Supervisor E) × (await_grace (suc fuel) later deadline round s ≡ some u)
  unfolding await_grace
  await_grace-returns zero later deadline round s sleeps enough = (s, ground (arith, enough))
  await_grace-returns (suc fuel) later deadline round s sleeps enough =
      elim (Bool-cases (not (owns_nothing s.tasks s.graveyard) && ltb (later round).now deadline)) [
        | inl b ↦ rw b (
            await_grace-returns fuel later deadline (suc round) (reap (later (suc round)) s) sleeps
              (omega (arith, enough, sleeps round)))
        | inr b ↦ (s, rw b refl)
      ]

  -- The pid of a run, and the pids of the runs that the rows hold.
  abbrev run_pid : Option (Process E) → List ℕ
  run_pid none = []
  run_pid (some p) = elim p.pid [ none ↦ [] | some pid ↦ pid ∷ [] ]

  abbrev pub pids : List (Task E) → List ℕ
  pids [] = []
  pids (t ∷ ts) = run_pid t.process ++ pids ts

  -- A method that leaves the pid and the collection of a run alone does so over the rows.
  each_task_keeps :
      (f : Process E → Process E × List Call) (ts : List (Task E))
      → ((p : Process E) → ((f p).0.pid ≡ p.pid) × ((f p).0.reaped ≡ p.reaped))
      → (pids (each_task f ts).0 ≡ pids ts) × (Held ts → Held (each_task f ts).0)
  unfolding each_task
  each_task_keeps f [] keeps = (refl, λ v. v)
  each_task_keeps f (t ∷ ts) keeps =
      let (pid, held) = each_task_keeps f ts keeps in
      let run = by_run t.process in
      (
        ap (◌++ pids (each_task f ts).0) run.0 ∙ ap (run_pid t.process ++◌) pid,
        λ v. (run.1 v.0, held v.1),
      )
    where
      by_run :
          (o : Option (Process E))
          → (run_pid (run_with f o).0 ≡ run_pid o) × (Uncollected o → Uncollected (run_with f o).0)
      by_run none = (refl, λ v. v)
      by_run (some p) = (
        ap (λ (o : Option ℕ). elim o [ none ↦ [] | some pid ↦ pid ∷ [] ]) (keeps p).0,
        λ v. (keeps p).1 ∙ v,
      )

  terminate_keeps :
      (now : ℕ) (p : Process E)
      → ((terminate now p).0.pid ≡ p.pid) × ((terminate now p).0.reaped ≡ p.reaped)
  unfolding terminate
  terminate_keeps now p = ground arith

  pid-poll_exit : (o : Observation) (p : Process E) → (poll_exit o p).pid ≡ p.pid
  unfolding poll_exit
  pid-poll_exit o p = ground arith

  reap_run_keeps_pid :
      (o : Observation) (grace : ℕ) (p : Process E)
      → ((reap_run o grace p).0.pid ≡ p.pid) × ((reap_run o grace p).0.reaped ≡ p.reaped)
  unfolding reap_run force_kill
  reap_run_keeps_pid o grace p = (ground (arith, pid-poll_exit o p), (reap_run_keeps o grace p).0)

  reap_keeps :
      (o : Observation) (s : Supervisor E)
      → (pids (reap o s).tasks ≡ pids s.tasks) × (Held s.tasks → Held (reap o s).tasks)
  unfolding reap
  reap_keeps o s =
      each_task_keeps (reap_run o s.kill_grace) s.tasks (reap_run_keeps_pid o s.kill_grace)

  await_grace_keeps :
      (fuel : ℕ) (later : ℕ → Observation) (deadline round : ℕ) (s u : Supervisor E)
      → await_grace fuel later deadline round s ≡ some u
      → (pids u.tasks ≡ pids s.tasks) × (Held s.tasks → Held u.tasks)
  unfolding await_grace
  await_grace_keeps zero later deadline round s u e = cc
  await_grace_keeps (suc fuel) later deadline round s u e =
      elim (Bool-cases (not (owns_nothing s.tasks s.graveyard) && ltb (later round).now deadline)) [
        | inl b ↦
            let rest =
              await_grace_keeps fuel later deadline (suc round) (reap (later (suc round)) s) u
                (rw b at e) in
            let one = reap_keeps (later (suc round)) s in (rest.0 ∙ one.0, λ v. rest.1 (one.1 v))
        | inr b ↦
            let q : some s ≡ some u = rw b at e in
            subst
              (λ (w : Supervisor E). (pids w.tasks ≡ pids s.tasks) × (Held s.tasks → Held w.tasks))
              (some-injective q) (refl, λ v. v)
      ]

  -- A run that is dropped uncollected is sent KILL.
  drop_run_kills :
      (o : Observation) (p : Process E)
      → p.reaped ≡ false
      → All (λ pid. Calls (killpg pid sigkill) (drop_run o p).1) (run_pid (some p))
  unfolding drop_run force_kill
  drop_run_kills o p live = by_pid p.pid refl
    where
      by_pid :
          (n : Option ℕ)
          → p.pid ≡ n
          → All
              (λ pid. Calls (killpg pid sigkill) (drop_run o p).1)
              (elim n [ none ↦ [] | some pid ↦ pid ∷ [] ])
      by_pid none e = tt
      by_pid (some pid) e = (rw (live, e) (inl refl), tt)

  each_drop_kills :
      (o : Observation) (ts : List (Task E))
      → Held ts
      → All (λ pid. Calls (killpg pid sigkill) (each_task (drop_run o) ts).1) (pids ts)
  unfolding each_task
  each_drop_kills o [] v = tt
  each_drop_kills o (t ∷ ts) v =
      All-append _ (run_pid t.process) (pids ts)
        (widen (run_pid t.process) _ _ (λ c. Calls-left c _ _) (by_run t.process v.0))
        (widen (pids ts) _ _ (λ c. Calls-right c _ _) (each_drop_kills o ts v.1))
    where
      by_run :
          (r : Option (Process E))
          → Uncollected r
          → All (λ pid. Calls (killpg pid sigkill) (run_with (drop_run o) r).1) (run_pid r)
      by_run none u = tt
      by_run (some p) u = drop_run_kills o p u

  -- What is left when the loop ends is dropped.
  clear_all_kills :
      (o : Observation) (s : Supervisor E)
      → Held s.tasks
      → ((clear_all o s).tasks ≡ [])
        × ((clear_all o s).graveyard ≡ [])
        × All (λ pid. Calls (killpg pid sigkill) (clear_all o s).calls) (pids s.tasks)
  unfolding clear_all
  clear_all_kills o s v = (
    refl,
    refl,
    widen (pids s.tasks) _ _ (λ c a. Calls-right c s.calls _ (Calls-left c _ _ a))
        (each_drop_kills o s.tasks v),
  )

  cleared_after_kills :
      (last : Observation) (v u : Supervisor E) (o : Option (Supervisor E)) (ns : List ℕ)
      → o ≡ some v
      → Held v.tasks
      → pids v.tasks ≡ ns
      → (w : Supervisor E) × (cleared_after last o ≡ some w)
        × (w.tasks ≡ [])
        × (w.graveyard ≡ [])
        × All (λ pid. Calls (killpg pid sigkill) w.calls) ns
  cleared_after_kills last v u none ns e held same = cc
  cleared_after_kills last v u (some x) ns e held same =
      let q : x ≡ v = some-injective e in
      let k = clear_all_kills last v held in
      (clear_all last v, ap (λ y. some (clear_all last y)) q, k.0, k.1, rw same at k.2)

module _ {E : Type 0} ⦃t : Terminal E⦄ where
  -- The shutdown command returns as soon as the fuel covers the grace period in rounds of 25 ms,
  -- counted from the round's first clock reading: it leaves no task and no retired run, and the
  -- process group of every run that a row held was sent KILL.
  pub shutdown_ends :
      (fuel : ℕ) (h : Host) (s : Supervisor E)
      → Inv s
      → ((r : ℕ) → (h.later r).now + 25000000 ≤ (h.later (suc r)).now)
      → h.seen.now + s.kill_grace < (h.later 0).now + 25000000 * fuel
      → (u : Supervisor E) × (apply (suc fuel) h shutdown s ≡ some u)
        × (u.tasks ≡ [])
        × (u.graveyard ≡ [])
        × All (λ pid. Calls (killpg pid sigkill) u.calls) (pids s.tasks)
  unfolding apply affects_recipe shutdown_all
  shutdown_ends fuel h s v sleeps enough =
      let termed = each_task_keeps (terminate h.seen.now) s.tasks (terminate_keeps h.seen.now) in
      let (u, e) =
        await_grace-returns fuel h.later (h.seen.now + s.kill_grace) 0
          (record s {
            tasks = (each_task (terminate h.seen.now) s.tasks).0;
            calls = s.calls ++ (each_task (terminate h.seen.now) s.tasks).1;
          })
          sleeps enough in
      let k = await_grace_keeps (suc fuel) h.later (h.seen.now + s.kill_grace) 0 _ u e in
      cleared_after_kills h.last u u _ (pids s.tasks) e (k.1 (termed.1 v.held)) (k.0 ∙ termed.0)
