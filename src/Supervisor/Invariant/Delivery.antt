-- ===== src/Supervisor/Invariant/Delivery.antt =====
-- Input, scrolling and resizing: src/task.rs changes a run behind its row, and leaves it uncollected.
use fleetcom.Common.{
  ℕ, ◌≡◌, refl, ◌∙◌, Bool, true, false, Option, none, some, List, [], ◌∷◌, arith, ap, ◌&&◌, ◌||◌,
  not, if◌then◌else◌,
}
use fleetcom.Text.{Text}
use fleetcom.Protocol.{ScrollAction, MouseKind, Key, Mods, live}
use fleetcom.Terminal.{Terminal, bracketed_paste, application_cursor}
use fleetcom.Terminal.Input.{paste_bytes, mouse_bytes, key_bytes}
use fleetcom.Task.Process.{Process}
use fleetcom.Task.Row.{Task}
use fleetcom.Task.Input.{
  Sent, accepted, refused, write_through, send_some, scroll_view, resize_run, drain_stores,
  send_paste, send_mouse, send_key, send_input, queue_write,
}
use fleetcom.Supervisor.Host.{Host}
use fleetcom.Supervisor.State.{Supervisor, with_task, on_run, run_of, id_eq}
use fleetcom.Supervisor.Apply.{
  deliver, deliver_to, delivered, resize_tasks, resize_all, watch_task, at_id, clamp_dim, fit_cols,
}
use fleetcom.Supervisor.Invariant.Ids.{
  ids, ids-update_task, Steps, Steps-trans, SameIds, SameIds-Steps, Held, Uncollected,
}
use fleetcom.Supervisor.Invariant.Handlers.{on_run-Uncollected, Held-update_task, Held-run_of}
use fleetcom.Supervisor.Invariant.Commands.{notify-Steps}

module _ {E : Type 0} where
  pub reaped-queue_write : (m : List ℕ) (p : Process E) → (queue_write m p).0.reaped ≡ p.reaped
  unfolding queue_write
  reaped-queue_write m p = by_sender p.input_tx
    where
      by_sender : (o : Option (List (List ℕ))) → (write_through o m p).0.reaped ≡ p.reaped
      by_sender none = refl
      by_sender (some sent) = ground arith

  -- A run put back under its id, where the row's run was uncollected and so is the new one.
  with_run-SameIds :
      (id : ℕ) (p : Process E) (s : Supervisor E)
      → (Held s.tasks → p.reaped ≡ false)
      → SameIds s (with_task id (on_run (λ _. p)) s)
  unfolding with_task
  with_run-SameIds id p s keeps = record {
    same = ids-update_task id (on_run (λ _. p)) s.tasks (λ u. refl);
    counter = refl;
    ceiling = refl;
    holds = λ v b.
        (Held-update_task id (on_run (λ _. p)) s.tasks (λ u w. put u.process (keeps v)) v, b);
  }
    where
      put :
          (o : Option (Process E))
          → p.reaped ≡ false
          → Uncollected (elim o [ none ↦ none | some _ ↦ some p ])
      put none e = tt
      put (some q) e = e

  delivered-Steps :
      (id : ℕ) (what : Text) (s : Supervisor E) (r : Process E × Sent)
      → (Held s.tasks → r.0.reaped ≡ false)
      → Steps s (delivered id what s r)
  delivered-Steps id what s (p, accepted) keeps = SameIds-Steps (with_run-SameIds id p s keeps)
  delivered-Steps id what s (p, refused n) keeps =
      Steps-trans (SameIds-Steps (with_run-SameIds id p s keeps)) (notify-Steps _ _)

  pub deliver-Steps :
      (id : ℕ) (what : Text) (f : Process E → Process E × Sent) (s : Supervisor E)
      → ((p : Process E) → (f p).0.reaped ≡ p.reaped)
      → Steps s (deliver id what f s)
  unfolding deliver
  deliver-Steps id what f s keeps = by_run (run_of id s.tasks) (Held-run_of id s.tasks)
    where
      by_run :
          (o : Option (Process E))
          → (Held s.tasks → Uncollected o)
          → Steps s (deliver_to id what f s o)
      by_run none u =
          SameIds-Steps
            (record { same = refl; counter = refl; ceiling = refl; holds = λ v b. (v, b) })
      by_run (some p) u = delivered-Steps id what s (f p) (λ v. keeps p ∙ u v)

module _ {E : Type 0} ⦃t : Terminal E⦄ where
  pub reaped-scroll_view : (a : ScrollAction) (p : Process E) → (scroll_view a p).reaped ≡ p.reaped
  unfolding scroll_view
  reaped-scroll_view a p = refl

  pub reaped-send_input :
      (bytes : List ℕ) (p : Process E) → (send_input bytes p).0.reaped ≡ p.reaped
  unfolding send_input
  reaped-send_input bytes p =
      reaped-queue_write bytes (scroll_view live p) ∙ reaped-scroll_view live p

  reaped-send_some : (o : Option (List ℕ)) (p : Process E) → (send_some o p).0.reaped ≡ p.reaped
  reaped-send_some none p = refl
  reaped-send_some (some b) p = reaped-send_input b p

  pub reaped-send_paste : (b : List ℕ) (p : Process E) → (send_paste b p).0.reaped ≡ p.reaped
  unfolding send_paste
  reaped-send_paste b p =
      reaped-send_input (paste_bytes (bracketed_paste (t.term_mode p.parser)) b) p

  pub reaped-send_mouse :
      (kind : MouseKind) (col row : ℕ) (p : Process E)
      → (send_mouse kind col row p).0.reaped ≡ p.reaped
  unfolding send_mouse
  reaped-send_mouse kind col row p =
      reaped-send_some (mouse_bytes (t.term_mode p.parser) kind col row) p

  pub reaped-send_key :
      (code : Key) (mods : Mods) (p : Process E) → (send_key code mods p).0.reaped ≡ p.reaped
  unfolding send_key
  reaped-send_key code mods p =
      reaped-send_some (key_bytes (application_cursor (t.term_mode p.parser)) code mods) p

  reaped-resize_run :
      (g : Bool) (rows cols : ℕ) (p : Process E) → (resize_run g rows cols p).reaped ≡ p.reaped
  unfolding resize_run
  reaped-resize_run true rows cols p = refl
  reaped-resize_run false rows cols p = refl

  ids-resize_all :
      (h : Host) (rows cols : ℕ) (ts : List (Task E)) → ids (resize_all h rows cols ts) ≡ ids ts
  ids-resize_all h rows cols [] = refl
  ids-resize_all h rows cols (u ∷ us) = ap (u.id ∷◌) (ids-resize_all h rows cols us)

  Held-resize_all :
      (h : Host) (rows cols : ℕ) (ts : List (Task E)) → Held ts → Held (resize_all h rows cols ts)
  Held-resize_all h rows cols [] v = v
  Held-resize_all h rows cols (u ∷ us) v = (
    on_run-Uncollected (λ p. resize_run (h.pty_resizes p.pid) rows cols p)
        (λ p. reaped-resize_run (h.pty_resizes p.pid) rows cols p) u v.0,
    Held-resize_all h rows cols us v.1,
  )

  pub resize_tasks-Steps :
      (h : Host) (rows cols : ℕ) (s : Supervisor E) → Steps s (resize_tasks h rows cols s)
  unfolding resize_tasks
  resize_tasks-Steps h rows cols s =
      let r = clamp_dim rows in
      let c = fit_cols r (clamp_dim cols) in
      SameIds-Steps (record {
        same = ids-resize_all h r c s.tasks;
        counter = refl;
        ceiling = refl;
        holds = λ v b. (Held-resize_all h r c s.tasks v, b);
      })

  reaped-drain_stores : (p : Process E) → (drain_stores p).0.reaped ≡ p.reaped
  unfolding drain_stores
  reaped-drain_stores p = refl

  at_id_keeps :
      (o : Option ℕ) (f : Process E → Process E) (ts : List (Task E))
      → ((p : Process E) → (f p).reaped ≡ p.reaped)
      → (ids (at_id o f ts) ≡ ids ts) × (Held ts → Held (at_id o f ts))
  at_id_keeps none f ts keeps = (refl, λ v. v)
  at_id_keeps (some id) f ts keeps = (
    ids-update_task id (on_run f) ts (λ u. refl),
    Held-update_task id (on_run f) ts (on_run-Uncollected f keeps),
  )

  pub watch_task-Steps :
      (id : Option ℕ) (attached : Bool) (s : Supervisor E) → Steps s (watch_task id attached s)
  unfolding watch_task
  watch_task-Steps id attached s =
      by_watch (id_eq id s.watched)
        ((attached && s.watch_attached) || (not attached && not s.watch_attached))
    where
      before : (b : Bool) → List (Task E)
      before b = if b then s.tasks else at_id s.watched (scroll_view live) s.tasks

      before_keeps : (b : Bool) → (ids (before b) ≡ ids s.tasks) × (Held s.tasks → Held (before b))
      before_keeps true = (refl, λ v. v)
      before_keeps false =
          at_id_keeps s.watched (scroll_view live) s.tasks (reaped-scroll_view live)

      after_keeps :
          (b : Bool)
          → (ids (at_id id (λ p. (drain_stores p).0) (before b)) ≡ ids s.tasks)
            × (Held s.tasks → Held (at_id id (λ p. (drain_stores p).0) (before b)))
      after_keeps b =
          let k = at_id_keeps id (λ p. (drain_stores p).0) (before b) reaped-drain_stores in
          let l = before_keeps b in (k.0 ∙ l.0, λ v. k.1 (l.1 v))

      by_watch :
          (b m : Bool)
          → Steps s (
              if b && m
              then record s { watched = id; watch_attached = attached; tasks = before b }
              else record s {
                watched = id;
                watch_attached = attached;
                tasks = at_id id (λ p. (drain_stores p).0) (before b);
                last_screen = none;
              })
      by_watch true true = SameIds-Steps (record {
        same = (before_keeps true).0;
        counter = refl;
        ceiling = refl;
        holds = λ v b. ((before_keeps true).1 v, b);
      })
      by_watch true false = SameIds-Steps (record {
        same = (after_keeps true).0;
        counter = refl;
        ceiling = refl;
        holds = λ v b. ((after_keeps true).1 v, b);
      })
      by_watch false m = SameIds-Steps (record {
        same = (after_keeps false).0;
        counter = refl;
        ceiling = refl;
        holds = λ v b. ((after_keeps false).1 v, b);
      })
