-- ===== src/Supervisor/Tick/Snapshot.antt =====
-- What a tick of src/supervisor.rs emits.
use fleetcom.Common.{
  ℕ, suc, ◌<◌, ◌≡◌, refl, sym, ap, subst, ◌∙◌, inl, inr, Bool, true, false, Option, none, some,
  List, [], ◌∷◌, ◌==◌, All, arith, Bool-cases, is_none, if◌then◌else◌,
}
use fleetcom.Protocol.{TaskView, finished}
use fleetcom.Terminal.{Terminal}
use fleetcom.Task.Process.{Process, lifecycle}
use fleetcom.Task.Row.{Task}
use fleetcom.Task.Input.{flush_sync, drain_stores, forward_replies, queue_write, write_through}
use fleetcom.Supervisor.Host.{Host}
use fleetcom.Supervisor.State.{by_id, id_eq, is_live, run_of, idle_after}
use fleetcom.Supervisor.Tick.{snapshot, task_view, serviced}
use fleetcom.Supervisor.Invariant.Ids.{ids, Ascending}

-- A view that carries the mark is of a live run.
abbrev pub MarkLive : List TaskView → Type 0
MarkLive = All (λ v. v.flagship ≡ true → finished v.lifecycle ≡ false)

abbrev pub view_ids : List TaskView → List ℕ
view_ids [] = []
view_ids (v ∷ vs) = v.id ∷ view_ids vs

module _ {E : Type 0} where
  -- Where ids ascend, the row of a live mark is the only one with its id.
  abbrev LiveAt : ℕ → List (Task E) → Type 0
  LiveAt m = All (λ (t : Task E). t.id ≡ m → is_live t.process ≡ true)

  no_later : (lo hi m : ℕ) (ts : List (Task E)) → m < lo → Ascending lo hi (ids ts) → LiveAt m ts
  no_later lo hi m [] low a = tt
  no_later lo hi m (t ∷ ts) low a = (
    (λ e. absurd (omega (arith, low, a.0, e))),
    no_later (suc t.id) hi m ts (omega (arith, low, a.0)) a.1,
  )

  run_of-cons :
      (m : ℕ) (t : Task E) (ts : List (Task E)) (b : Bool)
      → (t.id == m) ≡ b
      → run_of m (t ∷ ts) ≡ (if b then t.process else run_of m ts)
  unfolding by_id
  run_of-cons m t ts true e =
      ap (λ b. elim (if b then some t else by_id m ts) [ none ↦ none | some u ↦ u.process ]) e
  run_of-cons m t ts false e =
      ap (λ b. elim (if b then some t else by_id m ts) [ none ↦ none | some u ↦ u.process ]) e

  pub marked-LiveAt :
      (lo hi m : ℕ) (ts : List (Task E))
      → Ascending lo hi (ids ts)
      → is_live (run_of m ts) ≡ true
      → LiveAt m ts
  unfolding by_id
  marked-LiveAt lo hi m [] a live = tt
  marked-LiveAt lo hi m (t ∷ ts) a live = elim (Bool-cases (t.id == m)) [
    | inl e ↦ (
      (λ same.
          subst (λ o. is_live o ≡ true) (run_of-cons m t ts (t.id == m) refl ∙ rw e refl) live),
      no_later (suc t.id) hi m ts (ground (arith, e)) a.1,
    )
    | inr e ↦ (
      (λ same. absurd (ground (arith, e, same))),
      marked-LiveAt (suc t.id) hi m ts a.1
          (subst (λ o. is_live o ≡ true) (run_of-cons m t ts (t.id == m) refl ∙ rw e refl) live),
    )
  ]

  lifecycle-finished :
      (now : ℕ) (p : Process E)
      → is_none p.finished ≡ true
      → finished (lifecycle now idle_after p) ≡ false
  unfolding lifecycle finished
  lifecycle-finished now p live = ground (arith, live)

module _ {E : Type 0} ⦃t : Terminal E⦄ where
  finished-forward_replies :
      (rs : List (List ℕ)) (p : Process E) → (forward_replies rs p).finished ≡ p.finished
  unfolding forward_replies queue_write
  finished-forward_replies [] p = refl
  finished-forward_replies (r ∷ rs) p =
      finished-forward_replies rs (queue_write r p).0 ∙ by_sender p.input_tx
    where
      by_sender : (o : Option (List (List ℕ))) → (write_through o r p).0.finished ≡ p.finished
      by_sender none = refl
      by_sender (some sent) = ground arith

  finished-serviced : (p : Process E) → (drain_stores (flush_sync p)).0.finished ≡ p.finished
  unfolding drain_stores flush_sync
  finished-serviced p = finished-forward_replies (t.flush_expired_sync p.parser).1 _

  task_view-MarkLive :
      (h : Host) (now : ℕ) (mark : Option ℕ) (u : Task E) (o : Option (Process E))
      → is_live o ≡ true
      → finished (task_view h now mark u (serviced o).0).lifecycle ≡ false
  unfolding task_view
  task_view-MarkLive h now mark u none live = cc
  task_view-MarkLive h now mark u (some p) live =
      lifecycle-finished now (drain_stores (flush_sync p)).0
        (ap is_none (finished-serviced p) ∙ live)

  flagship-task_view :
      (h : Host) (now : ℕ) (mark : Option ℕ) (u : Task E) (o : Option (Process E))
      → (task_view h now mark u o).flagship ≡ id_eq mark (some u.id)
  unfolding task_view
  flagship-task_view h now mark u none = refl
  flagship-task_view h now mark u (some p) = refl

  -- The rows that a mark may be on are live.
  abbrev pub Settled : Option ℕ → List (Task E) → Type 0
  Settled none ts = Unit {0}
  Settled (some m) ts = LiveAt m ts

  pub snapshot-MarkLive :
      (h : Host) (now : ℕ) (mark fwd : Option ℕ) (ts : List (Task E))
      → Settled mark ts
      → MarkLive (snapshot h now mark fwd ts).1
  unfolding snapshot
  snapshot-MarkLive h now mark fwd [] v = tt
  snapshot-MarkLive h now none fwd (u ∷ us) v = (
    (λ e. cc (e, flagship-task_view h now none u (serviced u.process).0)),
    snapshot-MarkLive h now none fwd us tt,
  )
  snapshot-MarkLive h now (some m) fwd (u ∷ us) v = (
    (λ e. task_view-MarkLive h now (some m) u u.process (
        v.0
          (matched m u.id (sym (flagship-task_view h now (some m) u (serviced u.process).0) ∙ e)))),
    snapshot-MarkLive h now (some m) fwd us v.1,
  )
    where
      matched : (a b : ℕ) → (a == b) ≡ true → b ≡ a
      matched a b e = ground (arith, e)

  pub ids-snapshot :
      (h : Host) (now : ℕ) (mark fwd : Option ℕ) (ts : List (Task E))
      → view_ids (snapshot h now mark fwd ts).1 ≡ ids ts
  unfolding snapshot task_view
  ids-snapshot h now mark fwd [] = refl
  ids-snapshot h now mark fwd (u ∷ us) =
      ap (λ i. i ∷ view_ids (snapshot h now mark fwd us).1) (own (serviced u.process).0)
      ∙ ap (u.id ∷◌) (ids-snapshot h now mark fwd us)
    where
      own : (o : Option (Process E)) → (task_view h now mark u o).id ≡ u.id
      own none = refl
      own (some p) = refl
