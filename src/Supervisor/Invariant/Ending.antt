-- ===== src/Supervisor/Invariant/Ending.antt =====
-- The end of a fleet, `shutdown_all` of src/supervisor.rs, keeps the invariant as well.
use fleetcom.Common.{
  ℕ, zero, suc, ◌+◌, some-injective, ◌≡◌, refl, subst, ◌∙◌, inl, inr, not, Option, none, some, ◌++◌,
  arith, Bool-cases, ◌&&◌, ltb,
}
use fleetcom.Task.Process.{Observation, terminate}
use fleetcom.Supervisor.State.{Supervisor}
use fleetcom.Supervisor.Reap.{
  each_task, reap, await_grace, shutdown_all, clear_all, cleared_after, owns_nothing,
}
use fleetcom.Supervisor.Invariant.Ids.{
  ids, ids-each_task, Steps, Steps-refl, Steps-trans, SameIds, SameIds-Steps, Ascending-le,
}
use fleetcom.Supervisor.Invariant.Handlers.{Held-each_task, reap-SameIds, reaped-terminate}

module _ {E : Type 0} where
  clear_all-Steps : (o : Observation) (s : Supervisor E) → Steps s (clear_all o s)
  unfolding clear_all
  clear_all-Steps o s = record {
    keeps = λ v. record {
      ascending = Ascending-le 1 s.next_id (ids s.tasks) v.ascending;
      capped = omega arith;
      held = tt;
      buried = tt;
    };
    advances = omega arith;
    fresh = λ i h. cc;
  }

  await_grace-Steps :
      (fuel : ℕ) (later : ℕ → Observation) (deadline round : ℕ) (s u : Supervisor E)
      → await_grace fuel later deadline round s ≡ some u
      → Steps s u
  unfolding await_grace
  await_grace-Steps zero later deadline round s u e = cc
  await_grace-Steps (suc fuel) later deadline round s u e =
      elim (Bool-cases (not (owns_nothing s.tasks s.graveyard) && ltb (later round).now deadline)) [
        | inl b ↦ Steps-trans (SameIds-Steps (reap-SameIds (later (suc round)) s)) (
            await_grace-Steps fuel later deadline (suc round) (reap (later (suc round)) s) u
              (rw b at e))
        | inr b ↦
            let q : some s ≡ some u = rw b at e in subst (Steps s) (some-injective q) (Steps-refl s)
      ]

  cleared_after-Steps :
      (last : Observation) (s u : Supervisor E) (o : Option (Supervisor E))
      → ((v : Supervisor E) → o ≡ some v → Steps s v)
      → cleared_after last o ≡ some u
      → Steps s u
  cleared_after-Steps last s u none steps e = cc
  cleared_after-Steps last s u (some v) steps e =
      subst (Steps s) (some-injective e) (Steps-trans (steps v refl) (clear_all-Steps last v))

  pub shutdown_all-Steps :
      (fuel now : ℕ) (later : ℕ → Observation) (last : Observation) (s u : Supervisor E)
      → shutdown_all fuel now later last s ≡ some u
      → Steps s u
  unfolding shutdown_all
  shutdown_all-Steps fuel now later last s u e =
      cleared_after-Steps last s u (await_grace fuel later (now + s.kill_grace) 0 _)
        (λ v r. Steps-trans (SameIds-Steps termed) (await_grace-Steps fuel later _ 0 _ v r)) e
    where
      termed : SameIds s (record s {
        tasks = (each_task (terminate now) s.tasks).0;
        calls = s.calls ++ (each_task (terminate now) s.tasks).1;
      })
      termed = record {
        same = ids-each_task (terminate now) s.tasks;
        counter = refl;
        ceiling = refl;
        holds = λ v b.
            (Held-each_task (terminate now) s.tasks (λ p r. reaped-terminate now p ∙ r) v, b);
      }
