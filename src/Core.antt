-- ===== src/Core.antt =====
-- src/core.rs: the loop that serves wakes and ticks. One round takes what the channel, the clock, the
-- stop flag and the sink answer in it; times are nanoseconds. `none` is a shutdown that ran out of
-- fuel.
pub mod Schedule
use fleetcom.Common.{
  ℕ, ◌+◌, ◌-◌, Bool, true, false, ◌&&◌, ◌||◌, Option, none, some, List, [], ◌∷◌, leb, if◌then◌else◌,
}
use fleetcom.Protocol.{Command, Event, shutdown}
use fleetcom.Terminal.{Terminal}
use fleetcom.Supervisor.Host.{Host}
use fleetcom.Supervisor.State.{Supervisor, drain}
use fleetcom.Supervisor.Apply.{apply}
use fleetcom.Supervisor.Tick.{tick}

pub data Wake : Type 0 where
  cmd : Command → Wake
  output hangup : Wake

pub data LoopExit : Type 0 where
  shutdown_exit client_gone : LoopExit

-- `FRAME_MIN` and `FALLBACK`.
abbrev pub frame_min : ℕ
frame_min = 8000000

abbrev pub fallback : ℕ
fallback = 200000000

unfoldable pub wait_for : Bool → ℕ → ℕ
wait_for dirty since_last_tick = (if dirty then frame_min else fallback) - since_last_tick

unfoldable pub ready_to_tick : Bool → ℕ → Bool
ready_to_tick dirty since_last_tick =
    leb frame_min since_last_tick && (dirty || leb fallback since_last_tick)

-- `recv_timeout`.
pub data Received : Type 0 where
  got : Host → Wake → Received
  timed_out disconnected : Received

-- What a round meets: the stop flag, the first wake, the wakes that `try_recv` gives then, each with
-- the system behind it, the system behind a stop and a tick, the clock at the tick, and the sink.
pub record Round : Type 0 where
  pub stop : Bool
  pub received : Received
  pub burst : List (Host × Wake)
  pub system : Host
  pub now : ℕ
  pub sink : Event → Bool

-- The loop goes on, or ends.
pub data Flow (A : Type 0) : Type 0 where
  goes_on : A → Flow A
  ends : LoopExit → A → Flow A

-- The events that are emitted up to a failure.
abbrev pub ship : (Event → Bool) → List Event → Bool
ship sink [] = true
ship sink (e ∷ es) = sink e && ship sink es

pub record Loop (E : Type 0) : Type 0 where
  pub sup : Supervisor E
  pub dirty : Bool
  pub last_tick : ℕ

module _ {E : Type 0} ⦃t : Terminal E⦄ where
  abbrev pub stirred : Loop E → Option (Supervisor E) → Option (Flow (Loop E))
  stirred l none = none
  stirred l (some s) = some (goes_on (record l { sup = s; dirty = true }))

  abbrev pub stopped_by : Loop E → Option (Supervisor E) → Option (Flow (Loop E))
  stopped_by l none = none
  stopped_by l (some s) = some (ends shutdown_exit (record l { sup = s }))

  -- `apply` of one wake.
  unfoldable pub apply_wake : ℕ → Host → Wake → Loop E → Option (Flow (Loop E))
  apply_wake fuel h (cmd shutdown) l = stopped_by l (apply fuel h shutdown l.sup)
  apply_wake fuel h (cmd c) l = stirred l (apply fuel h c l.sup)
  apply_wake fuel h output l = some (goes_on (record l { dirty = true }))
  apply_wake fuel h hangup l = some (ends client_gone l)

  abbrev pub and_then :
      (Loop E → Option (Flow (Loop E))) → Option (Flow (Loop E)) → Option (Flow (Loop E))
  and_then f none = none
  and_then f (some (ends x l)) = some (ends x l)
  and_then f (some (goes_on l)) = f l

  unfoldable pub apply_burst : ℕ → List (Host × Wake) → Loop E → Option (Flow (Loop E))
  unfolding apply_wake
  apply_burst fuel [] l = some (goes_on l)
  apply_burst fuel ((h, w) ∷ ws) l = and_then (apply_burst fuel ws) (apply_wake fuel h w l)

  abbrev pub receive : ℕ → Received → Loop E → Option (Flow (Loop E))
  receive fuel (got h w) l = apply_wake fuel h w l
  receive fuel timed_out l = some (goes_on l)
  receive fuel disconnected l = some (ends client_gone l)

  -- The tick, where one is due.
  abbrev pub ticked : Round → Loop E → Option (Flow (Loop E))
  ticked r l =
      let (s, events) = drain (tick r.system l.sup) in
      if ship r.sink events
      then some (goes_on (record { sup = s; dirty = false; last_tick = r.now }))
      else some (ends client_gone (record l { sup = s; last_tick = r.now }))

  abbrev pub tick_if_due : Round → Loop E → Option (Flow (Loop E))
  tick_if_due r l =
      if ready_to_tick l.dirty (r.now - l.last_tick) then ticked r l else some (goes_on l)

  -- One round of `run_loop`.
  unfoldable pub round : ℕ → Round → Loop E → Option (Flow (Loop E))
  unfolding apply_burst ready_to_tick
  round fuel r l =
      if r.stop
      then stopped_by l (apply fuel r.system shutdown l.sup)
      else and_then (tick_if_due r)
          (and_then (apply_burst fuel r.burst) (receive fuel r.received l))

  -- `run_loop` over the rounds that it meets; the loop that the last round leaves, or its end.
  unfoldable pub run_loop : ℕ → List Round → Loop E → Option (Flow (Loop E))
  unfolding round
  run_loop fuel [] l = some (goes_on l)
  run_loop fuel (r ∷ rs) l = and_then (run_loop fuel rs) (round fuel r l)
