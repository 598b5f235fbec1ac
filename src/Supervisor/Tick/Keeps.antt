-- ===== src/Supervisor/Tick/Keeps.antt =====
-- A tick of src/supervisor.rs keeps the task set.
use fleetcom.Common.{
  ℕ, ◌≤◌, ◌≡◌, refl, ap, ◌∙◌, Bool, true, false, Option, none, some, List, [], ◌∷◌, ◌++◌,
  if◌then◌else◌,
}
use fleetcom.Text.{Text}
use fleetcom.Protocol.{screen, ScreenView}
use fleetcom.Terminal.{Terminal, Stores}
use fleetcom.Task.Process.{Process}
use fleetcom.Task.Row.{Task}
use fleetcom.Task.Input.{flush_sync, drain_stores, forward_replies, queue_write}
use fleetcom.Supervisor.Host.{Host}
use fleetcom.Supervisor.State.{Supervisor, by_id, emit}
use fleetcom.Supervisor.Reap.{reap}
use fleetcom.Supervisor.Recovery.Pass.{maybe_write_recovery_keeps}
use fleetcom.Supervisor.Tick.{
  tick, snapshot, serviced, forwarding, copies, oversized, forward, show_found, show_watched,
  take_snapshot,
}
use fleetcom.Supervisor.Invariant.Ids.{
  ids, Held, Uncollected, Inv, Steps, Steps-refl, Steps-trans, SameIds-Steps,
}
use fleetcom.Supervisor.Invariant.Handlers.{reap-SameIds}
use fleetcom.Supervisor.Invariant.Commands.{SameSet-Steps}
use fleetcom.Supervisor.Invariant.Delivery.{reaped-queue_write}

module _ {E : Type 0} ⦃t : Terminal E⦄ where
  reaped-forward_replies :
      (rs : List (List ℕ)) (p : Process E) → (forward_replies rs p).reaped ≡ p.reaped
  unfolding forward_replies
  reaped-forward_replies [] p = refl
  reaped-forward_replies (r ∷ rs) p =
      reaped-forward_replies rs (queue_write r p).0 ∙ reaped-queue_write r p

  serviced-Uncollected : (o : Option (Process E)) → Uncollected o → Uncollected (serviced o).0
  unfolding drain_stores flush_sync
  serviced-Uncollected none v = v
  serviced-Uncollected (some p) v = reaped-forward_replies (t.flush_expired_sync p.parser).1 _ ∙ v

  snapshot_keeps :
      (h : Host) (now : ℕ) (mark fwd : Option ℕ) (ts : List (Task E))
      → (ids (snapshot h now mark fwd ts).0 ≡ ids ts)
        × (Held ts → Held (snapshot h now mark fwd ts).0)
  unfolding snapshot
  snapshot_keeps h now mark fwd [] = (refl, λ v. v)
  snapshot_keeps h now mark fwd (u ∷ us) =
      let (same, held) = snapshot_keeps h now mark fwd us in
      (ap (u.id ∷◌) same, λ v. (serviced-Uncollected u.process v.0, held v.1))

  forward-Steps : (o : Option (ℕ × Stores)) (s : Supervisor E) → Steps s (forward o s)
  forward-Steps none s = Steps-refl s
  forward-Steps (some (id, c)) s = by_size c.oversized_len
    where
      by_size :
          (o : Option ℕ)
          → Steps s (oversized o (record s { events = s.events ++ copies id c.stores }))
      by_size none =
          SameSet-Steps
            (record { tasks = refl; graveyard = refl; next_id = refl; max_tasks = refl })
      by_size (some n) =
          SameSet-Steps
            (record { tasks = refl; graveyard = refl; next_id = refl; max_tasks = refl })

  show-Steps :
      (view : ScreenView) (lines : List Text) (s : Supervisor E) (b : Bool)
      → Steps s (
          if b
          then s
          else emit (screen (record view { lines = lines })) (record s { last_screen = some view }))
  show-Steps view lines s true = Steps-refl s
  show-Steps view lines s false =
      SameSet-Steps (record { tasks = refl; graveyard = refl; next_id = refl; max_tasks = refl })

  show_watched-Steps : (o : Option ℕ) (s : Supervisor E) → Steps s (show_watched o s)
  show_watched-Steps none s = Steps-refl s
  show_watched-Steps (some id) s = by_row (by_id id s.tasks)
    where
      by_row : (o : Option (Task E)) → Steps s (show_found id o s)
      by_row none = Steps-refl s
      by_row (some u) = show-Steps _ _ s _

  take_snapshot-Steps : (h : Host) (s : Supervisor E) → Steps s (take_snapshot h s)
  take_snapshot-Steps h s =
      let k =
        snapshot_keeps h h.seen.now s.flagship (forwarding s.watched s.watch_attached) s.tasks in
      Steps-trans
        (SameIds-Steps
          (record { same = k.0; counter = refl; ceiling = refl; holds = λ v b. (k.1 v, b) }))
        (Steps-trans (forward-Steps _ _) (show_watched-Steps s.watched _))

  -- A tick, whatever the system answers, keeps the task set well-formed and never lowers the id
  -- counter.
  pub tick-Inv :
      (h : Host) (s : Supervisor E) → Inv s → Inv (tick h s) × (s.next_id ≤ (tick h s).next_id)
  unfolding tick
  tick-Inv h s v =
      let k = maybe_write_recovery_keeps h (take_snapshot h (reap h.seen s)) in
      let steps = Steps-trans (SameIds-Steps (reap-SameIds h.seen s)) (
        Steps-trans (take_snapshot-Steps h (reap h.seen s)) (
          SameSet-Steps
            (record { tasks = k.0; graveyard = k.1; next_id = k.2; max_tasks = k.3 }))) in
      (steps.keeps v, steps.advances)
