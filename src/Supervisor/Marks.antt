-- ===== src/Supervisor/Marks.antt =====
-- src/supervisor.rs: which task may hold the flagship mark.
use fleetcom.Common.{
  ℕ, ◌≡◌, refl, ◌⊎◌, inl, inr, true, ◌&&◌, Option, none, some, List, is_some, is_none, Bool-cases,
  if◌then◌else◌,
}
use fleetcom.Task.Process.{Observation}
use fleetcom.Task.Row.{Task}
use fleetcom.Supervisor.State.{Supervisor, flagship_holder, live_holder, run_of, is_live}
use fleetcom.Supervisor.Reap.{reap}

module _ {E : Type 0} where
  -- The marked row holds a run that has not finished.
  abbrev pub Marked : List (Task E) → Option ℕ → Type 0
  Marked ts none = Unit {0}
  Marked ts (some id) = is_live (run_of id ts) ≡ true

  -- The mark after a reaping, over the rows that it leaves.
  abbrev settled : List (Task E) → Option ℕ → Option ℕ
  settled ts mark = if is_some mark && is_none (live_holder ts mark) then none else mark

  settled-Marked :
      (ts : List (Task E)) (mark : Option ℕ)
      → Marked ts (settled ts mark) × ((settled ts mark ≡ mark) ⊎ (settled ts mark ≡ none))
  settled-Marked ts none = (tt, inl refl)
  settled-Marked ts (some id) = elim (Bool-cases (is_live (run_of id ts))) [
    | inl e ↦ rw e (e, inl refl)
    | inr e ↦ rw e (tt, inr refl)
  ]

  -- After a round of reaping the flagship mark is on a task that is still in the set with a live
  -- run, or it is gone; a round never moves the mark to another task.
  pub reap-Marked :
      (o : Observation) (s : Supervisor E)
      → Marked (reap o s).tasks (reap o s).flagship
        × (((reap o s).flagship ≡ s.flagship) ⊎ ((reap o s).flagship ≡ none))
  unfolding reap flagship_holder
  reap-Marked o s = settled-Marked (reap o s).tasks s.flagship
