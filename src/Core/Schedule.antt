-- ===== src/Core/Schedule.antt =====
-- When src/core.rs ticks.
use fleetcom.Common.{
  ℕ, ◌+◌, ◌-◌, ◌≤◌, ◌<◌, ◌≡◌, ◌↔◌, ◌⊎◌, Bool, true, false, Option, none, some, arith,
}
use fleetcom.Terminal.{Terminal}
use fleetcom.Supervisor.Host.{Host}
use fleetcom.Supervisor.State.{Supervisor}
use fleetcom.Core.{wait_for, ready_to_tick, frame_min, fallback, Flow, goes_on, ends, Loop}

-- Waiting as long as `wait_for` says makes a tick due, and no shorter wait does: the loop neither
-- spins before a tick is due nor sleeps past it. The wait never exceeds the idle backstop.
pub ready_to_tick-wait_for :
    (dirty : Bool) (since waited : ℕ)
    → ((ready_to_tick dirty (since + waited) ≡ true) ↔ (wait_for dirty since ≤ waited))
      × (wait_for dirty since ≤ fallback)
unfolding ready_to_tick wait_for
ready_to_tick-wait_for true since waited = ground arith
ready_to_tick-wait_for false since waited = ground arith

module _ {E : Type 0} ⦃t : Terminal E⦄ where
  -- A predicate of the loop that goes on, where it does.
  abbrev pub Onward : (Loop E → Type 0) → Option (Flow (Loop E)) → Type 0
  Onward P none = Unit {0}
  Onward P (some (ends x l)) = Unit {0}
  Onward P (some (goes_on l)) = P l

  -- The last tick is as before.
  abbrev SameTick : ℕ → Loop E → Type 0
  SameTick at l = l.last_tick ≡ at

  -- A round ticked at `now`, at least the frame floor after the last tick, and nothing is pending;
  -- or it did not, the idle backstop has not passed, and nothing is pending past the floor.
  abbrev pub Paced : ℕ → ℕ → Loop E → Type 0
  Paced at now l =
      ((l.last_tick ≡ now) × (l.dirty ≡ false) × (frame_min ≤ now - at))
      ⊎ ((l.last_tick ≡ at) × (now - at < fallback) × (l.dirty ≡ true → now - at < frame_min))
