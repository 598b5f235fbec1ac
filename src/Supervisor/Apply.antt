-- ===== src/Supervisor/Apply.antt =====
-- src/supervisor.rs: `apply`, one client command. `none` is a shutdown loop that ran out of fuel.
use fleetcom.Common.{
  ℕ, ◌*◌, ◌/◌, Bool, true, false, not, ◌&&◌, ◌||◌, Option, none, some, List, [], ◌∷◌, ◌++◌, ltb,
  if◌then◌else◌, min, max,
}
use fleetcom.Text.{Text, text}
use fleetcom.Protocol.{
  Command, spawn, spawn_agent, kill, remove, restart, tag, flagship, set_group, set_name, resize,
  watch, paste, mouse, key, scrollback, save_session, load_session, load_recovery, list_sessions,
  shutdown, live,
}
use fleetcom.Terminal.{Terminal}
use fleetcom.Task.Process.{Process, Call, terminate}
use fleetcom.Task.Row.{Task}
use fleetcom.Task.Input.{
  settled, Sent, accepted, refused, scroll_view, resize_run, drain_stores, send_paste, send_mouse,
  send_key,
}
use fleetcom.Supervisor.Host.{Host}
use fleetcom.Supervisor.Labels.{normalize_label, normalize_group}
use fleetcom.Supervisor.Messages.{input_dropped}
use fleetcom.Supervisor.State.{
  Supervisor, notify, id_eq, update_task, with_task, remove_task, on_run, run_of, retire, max_dim,
  max_cells,
}
use fleetcom.Supervisor.Reap.{touch, shutdown_all}
use fleetcom.Supervisor.Spawn
use fleetcom.Supervisor.Rerun.{rerun}
use fleetcom.Supervisor.Recipe
use fleetcom.Supervisor.Sessions

unfoldable pub affects_recipe : Command → Bool
affects_recipe (spawn command cwd group) = true
affects_recipe (spawn_agent agent cwd group) = true
affects_recipe (remove id) = true
affects_recipe (restart id) = true
affects_recipe (set_group id group) = true
affects_recipe (set_name id name) = true
affects_recipe (tag id on) = true
affects_recipe (flagship id) = true
affects_recipe (load_session name) = true
affects_recipe (load_recovery stem) = true
affects_recipe _ = false

-- `u16::clamp(1, MAX_DIM)`.
abbrev pub clamp_dim : ℕ → ℕ
clamp_dim n = max 1 (min n max_dim)

-- The columns that fit beside the rows.
unfoldable pub fit_cols : ℕ → ℕ → ℕ
fit_cols rows cols = if ltb max_cells (rows * cols) then max_cells / rows else cols

module _ {E : Type 0} where
  abbrev pub terminate_run : ℕ → Option (Process E) → List Call
  terminate_run now none = []
  terminate_run now (some p) = (terminate now p).1

  -- `Kill`.
  unfoldable pub kill_task : ℕ → ℕ → Supervisor E → Supervisor E
  kill_task now id s = record (with_task id (on_run (λ p. (terminate now p).0)) s) {
    calls = s.calls ++ terminate_run now (run_of id s.tasks);
  }

  abbrev pub retire_run : ℕ → Option (Process E) → Supervisor E → Supervisor E
  retire_run now none s = s
  retire_run now (some p) s = retire now p s

  -- `Remove`.
  unfoldable pub remove_row : ℕ → ℕ → Supervisor E → Supervisor E
  remove_row now id s =
      retire_run now (run_of id s.tasks) (record s { tasks = remove_task id s.tasks })

  -- The run that a delivery changed is put back, and a refusal is reported.
  abbrev pub delivered : ℕ → Text → Supervisor E → Process E × Sent → Supervisor E
  delivered id what s (p, accepted) = with_task id (on_run (λ _. p)) s
  delivered id what s (p, refused len) =
      notify (input_dropped id what len) (with_task id (on_run (λ _. p)) s)

  abbrev pub deliver_to :
      ℕ → Text → (Process E → Process E × Sent) → Supervisor E → Option (Process E) → Supervisor E
  deliver_to id what f s none = s
  deliver_to id what f s (some p) = delivered id what s (f p)

  -- `deliver`.
  unfoldable pub deliver : ℕ → Text → (Process E → Process E × Sent) → Supervisor E → Supervisor E
  deliver id what f s = deliver_to id what f s (run_of id s.tasks)

module _ {E : Type 0} ⦃t : Terminal E⦄ where
  -- `Resize`: clamp each dimension, keep the rows, and cut the columns to the grid's area.
  abbrev pub resize_all : Host → ℕ → ℕ → List (Task E) → List (Task E)
  resize_all h rows cols [] = []
  resize_all h rows cols (u ∷ us) =
      on_run (λ p. resize_run (h.pty_resizes p.pid) rows cols p) u ∷ resize_all h rows cols us

  unfoldable pub resize_tasks : Host → ℕ → ℕ → Supervisor E → Supervisor E
  resize_tasks h rows cols s =
      let r = clamp_dim rows in
      let c = fit_cols r (clamp_dim cols) in
      record s { rows = r; cols = c; tasks = resize_all h r c s.tasks }

  -- `Watch`: the old watch returns to the live viewport, and a new one starts without old stores.
  abbrev pub at_id : Option ℕ → (Process E → Process E) → List (Task E) → List (Task E)
  at_id none f ts = ts
  at_id (some id) f ts = update_task id (on_run f) ts

  unfoldable pub watch_task : Option ℕ → Bool → Supervisor E → Supervisor E
  watch_task id attached s =
      let same = id_eq id s.watched in
      let same_mode = (attached && s.watch_attached) || (not attached && not s.watch_attached) in
      let left = if same then s.tasks else at_id s.watched (scroll_view live) s.tasks in
      if same && same_mode
      then record s { watched = id; watch_attached = attached; tasks = left }
      else record s {
        watched = id;
        watch_attached = attached;
        tasks = at_id id (λ p. (drain_stores p).0) left;
        last_screen = none;
      }

  abbrev pub handle : ℕ → Host → Command → Supervisor E → Option (Supervisor E)
  handle fuel h (spawn command cwd group) s = some (Spawn.spawn h command cwd group s)
  handle fuel h (spawn_agent agent cwd group) s = some (Spawn.spawn_agent h agent cwd group s)
  handle fuel h (kill id) s = some (kill_task h.seen.now id s)
  handle fuel h (remove id) s = some (remove_row h.seen.now id s)
  handle fuel h (restart id) s = some (rerun h id s)
  handle fuel h (tag id on) s = some (with_task id (λ u. record u { tagged = on }) s)
  handle fuel h (flagship id) s = some (record s { flagship = id })
  handle fuel h (set_group id group) s =
      some (with_task id (λ u. record u { group = normalize_group group }) s)
  handle fuel h (set_name id name) s =
      some (with_task id (λ u. record u { name = normalize_label name }) s)
  handle fuel h (resize rows cols) s = some (resize_tasks h rows cols s)
  handle fuel h (watch id attached) s = some (watch_task id attached s)
  handle fuel h (paste id bytes) s =
      some (deliver id (text "paste") (λ p. send_paste bytes (settled (h.taken_off id) p)) s)
  handle fuel h (mouse id kind col row) s = some (
      deliver id (text "mouse input") (λ p. send_mouse kind col row (settled (h.taken_off id) p)) s)
  handle fuel h (key id code mods) s =
      some (deliver id (text "key input") (λ p. send_key code mods (settled (h.taken_off id) p)) s)
  handle fuel h (scrollback id action) s = some (with_task id (on_run (scroll_view action)) s)
  handle fuel h (save_session name) s = some (Recipe.save_session h name s)
  handle fuel h (load_session name) s = some (Sessions.load_session h name s)
  handle fuel h (load_recovery stem) s = some (Sessions.load_recovery h stem s)
  handle fuel h list_sessions s = some (Recipe.list_sessions h s)
  handle fuel h shutdown s = shutdown_all fuel h.seen.now h.later h.last s

  -- A command that may change the recipe arms recovery before it is validated.
  unfoldable pub apply : ℕ → Host → Command → Supervisor E → Option (Supervisor E)
  unfolding affects_recipe
  apply fuel h cmd s =
      let armed =
        if affects_recipe cmd then record s { recovery = touch h.seen.now s.recovery } else s in
      handle fuel h cmd armed
