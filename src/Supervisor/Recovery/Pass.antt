-- ===== src/Supervisor/Recovery/Pass.antt =====
-- src/supervisor.rs, `maybe_write_recovery`: when a pass runs, and what it reports.
use fleetcom.Common.{
  ℕ, ◌-◌, ◌<◌, ◌≡◌, refl, ◌⊎◌, inl, inr, Bool, true, false, ◌||◌, Option, none, some, List, [], ◌∷◌,
  ◌++◌, leb, arith, if◌then◌else◌,
}
use fleetcom.Text.{Text}
use fleetcom.Protocol.{status}
use fleetcom.Task.Row.{Task}
use fleetcom.Supervisor.Host.{Host, Result, ok, err}
use fleetcom.Supervisor.Messages.{recovery_failed}
use fleetcom.Supervisor.State.{Supervisor, Recovery, notify}
use fleetcom.Supervisor.Assets.{sessions_root}
use fleetcom.Supervisor.Recovery.{
  debounce_due, cadence_due, start_pass, wrote, write_recipe, write_under, write_tasks,
  maybe_write_recovery,
}

-- A pass is due.
abbrev pub due : ℕ → Recovery → Bool
due now r = debounce_due now r || cadence_due now r

-- A pass that has started settles both timers.
started-not_due :
    (now : ℕ) (r r' : Recovery)
    → 0 < r.cadence
    → r'.last_mutation ≡ (start_pass now r).last_mutation
    → r'.last_cadence ≡ (start_pass now r).last_cadence
    → r'.cadence ≡ r.cadence
    → due now r' ≡ false
unfolding start_pass debounce_due cadence_due
started-not_due now r r' long m l c =
    rw (m, l, c) (elapsed (leb r.cadence (now - r.last_cadence)) refl)
  where
    elapsed :
        (b : Bool)
        → leb r.cadence (now - r.last_cadence) ≡ b
        → leb r.cadence (now - (if b then now else r.last_cadence)) ≡ false
    elapsed true e = ground (arith, long)
    elapsed false e = e

module _ {E : Type 0} where
  -- A pass leaves the fleet alone. It reports nothing, or its failure after a pass that had not
  -- failed; it does not touch the two timers.
  record Reports (s u : Supervisor E) : Type 0 where
    pub tasks : u.tasks ≡ s.tasks
    pub graveyard : u.graveyard ≡ s.graveyard
    pub calls : u.calls ≡ s.calls
    pub next_id : u.next_id ≡ s.next_id
    pub max_tasks : u.max_tasks ≡ s.max_tasks
    pub timers :
        (u.recovery.last_mutation ≡ s.recovery.last_mutation)
        × (u.recovery.last_cadence ≡ s.recovery.last_cadence)
        × (u.recovery.cadence ≡ s.recovery.cadence)
    pub reported :
        (u.events ≡ s.events)
        ⊎ ((e : Text) × (u.events ≡ s.events ++ status (recovery_failed e) ∷ [])
            × (s.recovery.failing ≡ false)
            × (u.recovery.failing ≡ true))

  Reports-refl : (s : Supervisor E) → Reports s s
  Reports-refl s = record {
    tasks = refl;
    graveyard = refl;
    calls = refl;
    next_id = refl;
    max_tasks = refl;
    timers = (refl, refl, refl);
    reported = inl refl;
  }

  wrote-Reports :
      (root hash : Text) (s : Supervisor E) (r : Result Text) → Reports s (wrote root hash s r)
  wrote-Reports root hash s (ok dest) = record {
    tasks = refl;
    graveyard = refl;
    calls = refl;
    next_id = refl;
    max_tasks = refl;
    timers = (refl, refl, refl);
    reported = inl refl;
  }
  wrote-Reports root hash s (err e) = failed s.recovery.failing refl
    where
      failed :
          (b : Bool)
          → s.recovery.failing ≡ b
          → Reports s (
              if b
              then s
              else notify
                  (recovery_failed e)
                  (record s { recovery = record s.recovery { failing = true } }))
      failed true f = Reports-refl s
      failed false f = record {
        tasks = refl;
        graveyard = refl;
        calls = refl;
        next_id = refl;
        max_tasks = refl;
        timers = (refl, refl, refl);
        reported = inr (e, refl, f, refl);
      }

  unless-Reports : (b : Bool) (s u : Supervisor E) → Reports s u → Reports s (if b then s else u)
  unless-Reports true s u r = Reports-refl s
  unless-Reports false s u r = r

  write_recipe-Reports :
      (h : Host) (root : Text) (s : Supervisor E) → Reports s (write_recipe h root s)
  write_recipe-Reports h root s = unless-Reports _ s _ (wrote-Reports root _ s _)

  write_under-Reports :
      (h : Host) (s : Supervisor E) (o : Option Text) → Reports s (write_under h s o)
  write_under-Reports h s none = Reports-refl s
  write_under-Reports h s (some root) = write_recipe-Reports h root s

  write_tasks-Reports :
      (h : Host) (s : Supervisor E) (ts : List (Task E)) → Reports s (write_tasks h s ts)
  write_tasks-Reports h s [] = Reports-refl s
  write_tasks-Reports h s (t ∷ ts) = write_under-Reports h s (sessions_root h s)

  -- What a call does where recovery is enabled.
  pub record Settles (now : ℕ) (s u : Supervisor E) : Type 0 where
    pub tasks : u.tasks ≡ s.tasks
    pub graveyard : u.graveyard ≡ s.graveyard
    pub not_due : due now u.recovery ≡ false
    pub reported :
        (u.events ≡ s.events)
        ⊎ ((e : Text) × (u.events ≡ s.events ++ status (recovery_failed e) ∷ [])
            × (s.recovery.failing ≡ false)
            × (u.recovery.failing ≡ true))

  pass-Settles :
      (h : Host) (s : Supervisor E) (b : Bool)
      → 0 < s.recovery.cadence
      → (b ≡ false → due h.seen.now s.recovery ≡ false)
      → Settles h.seen.now s (
          if b
          then write_tasks h (record s { recovery = start_pass h.seen.now s.recovery }) s.tasks
          else s)
  unfolding start_pass
  pass-Settles h s false long idle = record {
    tasks = refl;
    graveyard = refl;
    not_due = idle refl;
    reported = inl refl;
  }
  pass-Settles h s true long idle =
      let r =
        write_tasks-Reports h (record s { recovery = start_pass h.seen.now s.recovery }) s.tasks in
      record {
        tasks = r.tasks;
        graveyard = r.graveyard;
        not_due = started-not_due h.seen.now s.recovery _ long r.timers.0 r.timers.1 r.timers.2;
        reported = r.reported;
      }

  -- Where recovery is enabled, with a cadence above zero, a call leaves the tasks and the graveyard
  -- alone, no further pass is due at the same time, and the only event that it can add is the
  -- report of a failure, which it adds where the last pass had not failed.
  pub maybe_write_recovery-Settles :
      (h : Host) (s : Supervisor E)
      → s.recovery.enabled ≡ true
      → 0 < s.recovery.cadence
      → Settles h.seen.now s (maybe_write_recovery h s)
  unfolding maybe_write_recovery
  maybe_write_recovery-Settles h s on long = pass-Settles h s _ long (λ e. rw on at e)

  -- The events of any call, due or not.
  pub maybe_write_recovery_reports :
      (h : Host) (s : Supervisor E)
      → ((maybe_write_recovery h s).events ≡ s.events)
        ⊎ ((e : Text) × ((maybe_write_recovery h s).events
              ≡ s.events ++ status (recovery_failed e) ∷ []))
  unfolding maybe_write_recovery start_pass
  maybe_write_recovery_reports h s = by_due _
    where
      by_due :
          (b : Bool)
          → ((if b
                then write_tasks h
                    (record s { recovery = start_pass h.seen.now s.recovery })
                    s.tasks
                else s).events
              ≡ s.events)
            ⊎ ((e : Text) × ((if b
                    then write_tasks h
                        (record s { recovery = start_pass h.seen.now s.recovery })
                        s.tasks
                    else s).events
                  ≡ s.events ++ status (recovery_failed e) ∷ []))
      by_due false = inl refl
      by_due true =
          elim (write_tasks-Reports h (record s { recovery = start_pass h.seen.now s.recovery })
            s.tasks).reported [ inl q ↦ inl q | inr (e, q, f, g) ↦ inr (e, q) ]

  -- A call, due or not, leaves the task set alone.
  pub maybe_write_recovery_keeps :
      (h : Host) (s : Supervisor E)
      → ((maybe_write_recovery h s).tasks ≡ s.tasks)
        × ((maybe_write_recovery h s).graveyard ≡ s.graveyard)
        × ((maybe_write_recovery h s).next_id ≡ s.next_id)
        × ((maybe_write_recovery h s).max_tasks ≡ s.max_tasks)
  unfolding maybe_write_recovery start_pass
  maybe_write_recovery_keeps h s = by_due _
    where
      written : Supervisor E
      written = write_tasks h (record s { recovery = start_pass h.seen.now s.recovery }) s.tasks

      by_due :
          (b : Bool)
          → ((if b then written else s).tasks ≡ s.tasks)
            × ((if b then written else s).graveyard ≡ s.graveyard)
            × ((if b then written else s).next_id ≡ s.next_id)
            × ((if b then written else s).max_tasks ≡ s.max_tasks)
      by_due false = (refl, refl, refl, refl)
      by_due true =
          let r =
            write_tasks-Reports h (record s { recovery = start_pass h.seen.now s.recovery })
              s.tasks in
          (r.tasks, r.graveyard, r.next_id, r.max_tasks)
