-- ===== src/Supervisor/Tick/Events.antt =====
-- The events of a tick of src/supervisor.rs.
use fleetcom.Common.{
  ℕ, ◌≡◌, refl, sym, ap, ◌∙◌, inl, inr, Bool, true, false, Option, none, some, List, [], ◌∷◌, ◌++◌,
  ◌==◌, All, All-append, arith, Bool-cases, if◌then◌else◌, append-nil, append_assoc,
}
use fleetcom.Text.{Text}
use fleetcom.Protocol.{
  Event, tasks, screen, clipboard_copy, status, TaskView, ScreenView, ClipboardKind,
}
use fleetcom.Terminal.{Terminal, Stores}
use fleetcom.Task.Row.{Task}
use fleetcom.Supervisor.Host.{Host}
use fleetcom.Supervisor.State.{Supervisor, emit, by_id}
use fleetcom.Supervisor.Reap.{reap}
use fleetcom.Supervisor.Rerun.{or_else}
use fleetcom.Supervisor.Recovery.{maybe_write_recovery}
use fleetcom.Supervisor.Tick.{
  tick, snapshot, serviced, forwarded, forwarding, copies, forward, show_found, show_watched,
  oversized,
}
use fleetcom.Supervisor.Invariant.Ids.{ids, Ascending, Inv}
use fleetcom.Supervisor.Invariant.Apply.{reap-Inv}
use fleetcom.Supervisor.Marks.{Marked, reap-Marked}
use fleetcom.Supervisor.Messages.{recovery_failed}
use fleetcom.Supervisor.Recovery.Pass.{maybe_write_recovery_reports}
use fleetcom.Supervisor.Tick.Snapshot.{
  MarkLive, view_ids, snapshot-MarkLive, ids-snapshot, Settled, marked-LiveAt,
}

-- A clipboard copy is only of the forwarding watch.
abbrev pub Permitted : Option ℕ → Event → Type 0
Permitted fwd (clipboard_copy id kind text) = fwd ≡ some id
Permitted fwd _ = Unit {0}

-- The stores that a snapshot forwards are those of the forwarding watch.
abbrev From : Option ℕ → Option (ℕ × Stores) → Type 0
From fwd none = Unit {0}
From fwd (some (id, c)) = fwd ≡ some id

forwarded-From : (fwd : Option ℕ) (id : ℕ) (o : Option Stores) → From fwd (forwarded fwd id o)
forwarded-From fwd id none = tt
forwarded-From none id (some c) = tt
forwarded-From (some a) id (some c) = elim (Bool-cases (a == id)) [
  | inl e ↦ rw e (ap some (ground (arith, e)))
  | inr e ↦ rw e tt
]

or_else-From :
    (fwd : Option ℕ) (a b : Option (ℕ × Stores)) → From fwd a → From fwd b → From fwd (or_else a b)
or_else-From fwd none b va vb = vb
or_else-From fwd (some c) b va vb = va

copies-Permitted :
    (fwd : Option ℕ) (id : ℕ) (cs : List (ClipboardKind × Text))
    → fwd ≡ some id
    → All (Permitted fwd) (copies id cs)
copies-Permitted fwd id [] e = tt
copies-Permitted fwd id ((k, x) ∷ cs) e = (e, copies-Permitted fwd id cs e)

module _ {E : Type 0} where
  -- The events grow by permitted ones.
  record Grows (fwd : Option ℕ) (s u : Supervisor E) : Type 0 where
    pub added : List Event
    pub grown : u.events ≡ s.events ++ added
    pub permitted : All (Permitted fwd) added

  Grows-refl : (fwd : Option ℕ) (s : Supervisor E) → Grows fwd s s
  Grows-refl fwd s = record { added = []; grown = sym (append-nil s.events); permitted = tt }

  Grows-trans :
      {fwd : Option ℕ} {s u v : Supervisor E} → Grows fwd s u → Grows fwd u v → Grows fwd s v
  Grows-trans {fwd} {s} {u} {v} a b = record {
    added = a.added ++ b.added;
    grown = b.grown ∙ ap (◌++ b.added) a.grown ∙ append_assoc s.events a.added b.added;
    permitted = All-append (Permitted fwd) a.added b.added a.permitted b.permitted;
  }

  maybe_write_recovery-Grows :
      (fwd : Option ℕ) (h : Host) (s : Supervisor E) → Grows fwd s (maybe_write_recovery h s)
  maybe_write_recovery-Grows fwd h s = elim (maybe_write_recovery_reports h s) [
    | inl q ↦ record { added = []; grown = q ∙ sym (append-nil s.events); permitted = tt }
    | inr (e, q) ↦ record {
      added = status (recovery_failed e) ∷ [];
      grown = q;
      permitted = (tt, tt);
    }
  ]

module _ {E : Type 0} ⦃t : Terminal E⦄ where
  snapshot-From :
      (h : Host) (now : ℕ) (mark fwd : Option ℕ) (ts : List (Task E))
      → From fwd (snapshot h now mark fwd ts).2
  unfolding snapshot
  snapshot-From h now mark fwd [] = tt
  snapshot-From h now mark fwd (u ∷ us) =
      or_else-From fwd (snapshot h now mark fwd us).2 _ (snapshot-From h now mark fwd us)
        (forwarded-From fwd u.id (serviced u.process).1)

  forward-Grows :
      (fwd : Option ℕ) (o : Option (ℕ × Stores)) (s : Supervisor E)
      → From fwd o
      → Grows fwd s (forward o s)
  forward-Grows fwd none s v = Grows-refl fwd s
  forward-Grows fwd (some (id, c)) s v = by_size c.oversized_len
    where
      by_size :
          (o : Option ℕ)
          → Grows fwd s (oversized o (record s { events = s.events ++ copies id c.stores }))
      by_size none = record {
        added = copies id c.stores;
        grown = refl;
        permitted = copies-Permitted fwd id c.stores v;
      }
      by_size (some len) = record {
        added = copies id c.stores ++ _ ∷ [];
        grown = append_assoc s.events (copies id c.stores) _;
        permitted =
            All-append (Permitted fwd) (copies id c.stores) _ (copies-Permitted fwd id c.stores v)
              (tt, tt);
      }

  show-Grows :
      (fwd : Option ℕ) (view : ScreenView) (lines : List Text) (s : Supervisor E) (b : Bool)
      → Grows fwd s (
          if b
          then s
          else emit (screen (record view { lines = lines })) (record s { last_screen = some view }))
  show-Grows fwd view lines s true = Grows-refl fwd s
  show-Grows fwd view lines s false = record { added = _ ∷ []; grown = refl; permitted = (tt, tt) }

  show_watched-Grows : (fwd o : Option ℕ) (s : Supervisor E) → Grows fwd s (show_watched o s)
  show_watched-Grows fwd none s = Grows-refl fwd s
  show_watched-Grows fwd (some id) s = by_row (by_id id s.tasks)
    where
      by_row : (o : Option (Task E)) → Grows fwd s (show_found id o s)
      by_row none = Grows-refl fwd s
      by_row (some u) = show-Grows fwd _ _ s _

  Marked-Settled :
      (hi : ℕ) (mark : Option ℕ) (ts : List (Task E))
      → Ascending 1 hi (ids ts)
      → Marked ts mark
      → Settled mark ts
  Marked-Settled hi none ts a live = tt
  Marked-Settled hi (some m) ts a live = marked-LiveAt 1 hi m ts a live

  -- From a well-formed fleet a tick first emits one snapshot, with a view for each row in order; a
  -- view that carries the flagship mark is of a live run, never of a finished or a stopped one. Of
  -- the events that follow, a clipboard copy is only of the watched task, and only while the
  -- watch is attached.
  pub tick-Snapshot :
      (h : Host) (s : Supervisor E)
      → Inv s
      → (views : List TaskView) × (rest : List Event) × ((tick h s).events
          ≡ s.events ++ tasks views ∷ rest)
        × (view_ids views ≡ ids s.tasks)
        × MarkLive views
        × All (Permitted (forwarding s.watched s.watch_attached)) rest
  unfolding tick reap
  tick-Snapshot h s v =
      let r = reap h.seen s in
      let fwd = forwarding s.watched s.watch_attached in
      let shot = snapshot h h.seen.now r.flagship fwd r.tasks in
      let first = emit (tasks shot.1) (record r { tasks = shot.0 }) in
      let k = reap-Inv h.seen s v in
      let g =
        Grows-trans
          (forward-Grows fwd shot.2 first (snapshot-From h h.seen.now r.flagship fwd r.tasks))
          (Grows-trans (show_watched-Grows fwd s.watched (forward shot.2 first))
            (maybe_write_recovery-Grows fwd h (show_watched s.watched (forward shot.2 first)))) in
      (
        shot.1,
        g.added,
        g.grown ∙ append_assoc s.events (tasks shot.1 ∷ []) g.added,
        ids-snapshot h h.seen.now r.flagship fwd r.tasks ∙ k.1,
        snapshot-MarkLive h h.seen.now r.flagship fwd r.tasks
            (Marked-Settled r.next_id r.flagship r.tasks k.0.ascending (reap-Marked h.seen s).0),
        g.permitted,
      )
