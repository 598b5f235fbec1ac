-- ===== src/Supervisor/Invariant/Handlers.antt =====
-- The handlers that neither add nor remove a task keep the invariant and hand out no id.
use fleetcom.Common.{
  ℕ, ◌≡◌, refl, inl, inr, false, Option, none, some, List, [], ◌∷◌, All-append, arith, Bool-cases,
  Option-cases, ◌∙◌, ◌==◌, subst,
}
use fleetcom.Task.Process.{
  Process, Observation, Call, terminate, poll_exit, force_kill, try_collect, collect,
}
use fleetcom.Task.Row.{Task}
use fleetcom.Supervisor.State.{
  Supervisor, by_id, update_task, with_task, on_run, on_process, run_of, retire, remove_task,
}
use fleetcom.Supervisor.Reap.{each_task, run_with, each_run, reap_run, retain_uncollected, reap}
use fleetcom.Supervisor.Invariant.Ids.{
  ids-update_task, ids-each_task, Held, Uncollected, Buried, Retired, SameIds,
}

module _ {E : Type 0} where
  pub Held-update_task :
      (id : ℕ) (f : Task E → Task E) (ts : List (Task E))
      → ((t : Task E) → Uncollected t.process → Uncollected (f t).process)
      → Held ts
      → Held (update_task id f ts)
  unfolding update_task
  Held-update_task id f [] keeps v = v
  Held-update_task id f (t ∷ ts) keeps v =
      ground (arith, keeps t v.0, Held-update_task id f ts keeps v.1)

  pub Held-remove_task : (id : ℕ) (ts : List (Task E)) → Held ts → Held (remove_task id ts)
  unfolding remove_task
  Held-remove_task id [] v = v
  Held-remove_task id (t ∷ ts) v = ground (arith, Held-remove_task id ts v.1)

  pub Held-by_id :
      (id : ℕ) (ts : List (Task E)) (t : Task E)
      → by_id id ts ≡ some t
      → Held ts
      → Uncollected t.process
  unfolding by_id
  Held-by_id id [] t e v = cc
  Held-by_id id (u ∷ ts) t e v = elim (Bool-cases (u.id == id)) [
    | inl p ↦
        let q : u ≡ t = ground (arith, e, p) in subst (λ (w : Task E). Uncollected w.process) q v.0
    | inr p ↦ Held-by_id id ts t (ground (arith, e, p)) v.1
  ]

  pub Held-run_of : (id : ℕ) (ts : List (Task E)) → Held ts → Uncollected (run_of id ts)
  Held-run_of id ts v = elim (Option-cases (by_id id ts)) [
    | inl e ↦ let q : none ≡ run_of id ts = ground (arith, e) in subst Uncollected q tt
    | inr (t, e) ↦
        let q : t.process ≡ run_of id ts = ground (arith, e) in
        subst Uncollected q (Held-by_id id ts t e v)
  ]

  pub Held-each_task :
      (f : Process E → Process E × List Call) (ts : List (Task E))
      → ((p : Process E) → p.reaped ≡ false → (f p).0.reaped ≡ false)
      → Held ts
      → Held (each_task f ts).0
  unfolding each_task
  Held-each_task f [] keeps v = v
  Held-each_task f (t ∷ ts) keeps v = (run (t.process) v.0, Held-each_task f ts keeps v.1)
    where
      run : (o : Option (Process E)) → Uncollected o → Uncollected (run_with f o).0
      run none u = u
      run (some p) u = keeps p u

  -- A change of the row under an id that leaves its id and the collection of its run alone.
  pub with_task-SameIds :
      (id : ℕ) (f : Task E → Task E) (s : Supervisor E)
      → ((t : Task E) → (f t).id ≡ t.id)
      → ((t : Task E) → Uncollected t.process → Uncollected (f t).process)
      → SameIds s (with_task id f s)
  unfolding with_task
  with_task-SameIds id f s same keeps = record {
    same = ids-update_task id f s.tasks same;
    counter = refl;
    ceiling = refl;
    holds = λ v b. (Held-update_task id f s.tasks keeps v, b);
  }

  pub on_run-Uncollected :
      (f : Process E → Process E)
      → ((p : Process E) → (f p).reaped ≡ p.reaped)
      → (t : Task E) → Uncollected t.process
      → Uncollected (on_run f t).process
  on_run-Uncollected f keeps t v = by_run t.process v
    where
      by_run : (o : Option (Process E)) → Uncollected o → Uncollected (on_process f o)
      by_run none v = v
      by_run (some p) v = keeps p ∙ v

  pub reaped-terminate : (now : ℕ) (p : Process E) → (terminate now p).0.reaped ≡ p.reaped
  unfolding terminate
  reaped-terminate now p = ground arith

  terminate-Retired : (now : ℕ) (p : Process E) → p.reaped ≡ false → Retired (terminate now p).0
  unfolding terminate
  terminate-Retired now p e = ground arith

  -- A run that leaves its row goes to the graveyard with TERM sent.
  pub retire-Buried :
      (now : ℕ) (p : Process E) (s : Supervisor E)
      → p.reaped ≡ false
      → Buried s.graveyard
      → Buried (retire now p s).graveyard
  unfolding retire
  retire-Buried now p s e b =
      All-append Retired s.graveyard ((terminate now p).0 ∷ []) b (terminate-Retired now p e, tt)

  pub poll_exit_keeps :
      (o : Observation) (p : Process E)
      → ((poll_exit o p).reaped ≡ p.reaped) × ((poll_exit o p).term_sent ≡ p.term_sent)
  unfolding poll_exit
  poll_exit_keeps o p = ground arith

  pub reap_run_keeps :
      (o : Observation) (grace : ℕ) (p : Process E)
      → ((reap_run o grace p).0.reaped ≡ p.reaped)
        × ((reap_run o grace p).0.term_sent ≡ p.term_sent)
  unfolding reap_run force_kill
  reap_run_keeps o grace p = ground (arith, poll_exit_keeps o p)

  reap_run-Buried :
      (o : Observation) (grace : ℕ) (ps : List (Process E))
      → Buried ps
      → Buried (each_run (reap_run o grace) ps).0
  unfolding each_run
  reap_run-Buried o grace [] b = b
  reap_run-Buried o grace (p ∷ ps) b =
      let (r, m) = reap_run_keeps o grace p in
      ((rw m b.0.0, r ∙ b.0.1), reap_run-Buried o grace ps b.1)

  term_sent-try_collect :
      (o : Observation) (p : Process E) → (try_collect o p).0.term_sent ≡ p.term_sent
  unfolding try_collect collect
  term_sent-try_collect o p = ground arith

  retain_uncollected-Buried :
      (o : Observation) (ps : List (Process E)) → Buried ps → Buried (retain_uncollected o ps).0
  unfolding retain_uncollected
  retain_uncollected-Buried o [] b = b
  retain_uncollected-Buried o (p ∷ ps) b =
      let rest = retain_uncollected-Buried o ps b.1 in
      elim (Bool-cases (try_collect o p).0.reaped) [
        | inl e ↦ rw e rest
        | inr e ↦ rw e ((rw (term_sent-try_collect o p) b.0.0, e), rest)
      ]

  -- `reap` keeps every row, and the graveyard holds what could not be collected.
  pub reap-SameIds : (o : Observation) (s : Supervisor E) → SameIds s (reap o s)
  unfolding reap
  reap-SameIds o s = record {
    same = ids-each_task (reap_run o s.kill_grace) s.tasks;
    counter = refl;
    ceiling = refl;
    holds = λ v b. (
      Held-each_task (reap_run o s.kill_grace) s.tasks
          (λ p e. (reap_run_keeps o s.kill_grace p).0 ∙ e) v,
      retain_uncollected-Buried o _ (reap_run-Buried o s.kill_grace s.graveyard b),
    );
  }
