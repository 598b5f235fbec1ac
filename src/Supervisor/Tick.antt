-- ===== src/Supervisor/Tick.antt =====
-- src/supervisor.rs: `tick`, with `clear_watch`. The preview of a run is an answer of the host.
pub mod Snapshot
pub mod Events
pub mod Keeps
use fleetcom.Common.{
  ℕ, ◌-◌, Bool, true, false, not, ◌&&◌, ◌||◌, Option, none, some, List, [], ◌∷◌, ◌++◌, ltb, ◌==◌,
  if◌then◌else◌, is_none,
}
use fleetcom.Text.{Text, text_eq}
use fleetcom.Protocol.{
  Lifecycle, stopped, Preview, floor_preview, TaskView, ScreenView, Event, tasks, screen,
  clipboard_copy, ClipboardKind,
}
use fleetcom.Terminal.{Terminal, Stores, input_hints}
use fleetcom.Task.Process.{Process, lifecycle, quiet_for}
use fleetcom.Task.Row.{Task}
use fleetcom.Task.Input.{flush_sync, drain_stores}
use fleetcom.Supervisor.Host.{Host}
use fleetcom.Supervisor.Messages.{clipboard_dropped}
use fleetcom.Supervisor.State.{Supervisor, emit, notify, id_eq, by_id, idle_after}
use fleetcom.Supervisor.Reap.{reap}
use fleetcom.Supervisor.Recovery.{maybe_write_recovery}
use fleetcom.Supervisor.Rerun.{or_else}
use fleetcom.Supervisor.Apply.{watch_task}

-- `CLIPBOARD_STORE_MAX_BYTES` of src/terminal/emulator.rs.
abbrev pub clipboard_store_max_bytes : ℕ
clipboard_store_max_bytes = 1048576

abbrev bool_eq : Bool → Bool → Bool
bool_eq true b = b
bool_eq false b = not b

abbrev texts_eq : List Text → List Text → Bool
texts_eq [] [] = true
texts_eq [] (y ∷ ys) = false
texts_eq (x ∷ xs) [] = false
texts_eq (x ∷ xs) (y ∷ ys) = text_eq x y && texts_eq xs ys

-- `==` of two screens.
unfoldable pub screen_eq : ScreenView → ScreenView → Bool
screen_eq a b =
    (a.id == b.id)
    && (texts_eq a.lines b.lines
        && (text_eq a.formatted b.formatted
            && ((a.cursor.0 == b.cursor.0)
                && ((a.cursor.1 == b.cursor.1)
                    && (bool_eq a.hide_cursor b.hide_cursor
                        && (bool_eq a.wants_mouse b.wants_mouse
                            && (bool_eq a.alt_screen b.alt_screen
                                && (bool_eq a.alt_scroll b.alt_scroll
                                    && (a.scrollback == b.scrollback)))))))))

abbrev same_screen : Option ScreenView → ScreenView → Bool
same_screen none v = false
same_screen (some w) v = screen_eq w v

abbrev ago : ℕ → Option ℕ → Option ℕ
ago now none = none
ago now (some t) = some (now - t)

-- The watch that may forward clipboard stores.
abbrev pub forwarding : Option ℕ → Bool → Option ℕ
forwarding watched attached = if attached then watched else none

-- The stored `ScreenView` of a stopped row.
abbrev empty_screen : ℕ → ScreenView
empty_screen id = record {
  id = id;
  lines = [];
  formatted = [];
  cursor = (0, 0);
  hide_cursor = true;
  wants_mouse = false;
  alt_screen = false;
  alt_scroll = false;
  scrollback = 0;
}

abbrev pub forwarded : Option ℕ → ℕ → Option Stores → Option (ℕ × Stores)
forwarded fwd id none = none
forwarded fwd id (some stores) = if id_eq fwd (some id) then some (id, stores) else none

abbrev pub copies : ℕ → List (ClipboardKind × Text) → List Event
copies id [] = []
copies id ((kind, text) ∷ rest) = clipboard_copy id kind text ∷ copies id rest

module _ {E : Type 0} where
  -- The view of a row, by its run after the emulator was serviced.
  unfoldable pub task_view : Host → ℕ → Option ℕ → Task E → Option (Process E) → TaskView
  unfolding lifecycle quiet_for floor_preview
  task_view h now mark t none = record {
    id = t.id;
    command = t.command;
    cwd = t.cwd;
    tagged = t.tagged;
    flagship = id_eq mark (some t.id);
    managed = not (is_none t.harness);
    group = t.group;
    name = t.name;
    lifecycle = stopped;
    preview = record (floor_preview []) { frozen = true };
    started_ago = none;
    quiet_ago = none;
    finished_ago = none;
  }
  task_view h now mark t (some p) = record {
    id = t.id;
    command = t.command;
    cwd = t.cwd;
    tagged = t.tagged;
    flagship = id_eq mark (some t.id);
    managed = not (is_none t.harness);
    group = t.group;
    name = t.name;
    lifecycle = lifecycle now idle_after p;
    preview = h.live_preview t.id;
    started_ago = some (now - p.started);
    quiet_ago = if is_none p.finished then some (quiet_for now p) else none;
    finished_ago = ago now p.finished;
  }

module _ {E : Type 0} ⦃t : Terminal E⦄ where
  -- A run is serviced: an expired sync is flushed, and its clipboard stores are drained.
  abbrev pub serviced : Option (Process E) → Option (Process E) × Option Stores
  serviced none = (none, none)
  serviced (some p) = let (q, stores) = drain_stores (flush_sync p) in (some q, some stores)

  -- The loop over the rows: the rows, their views, and the stores that may be forwarded.
  unfoldable pub snapshot :
      Host
      → ℕ
      → Option ℕ
      → Option ℕ
      → List (Task E)
      → List (Task E) × List TaskView × Option (ℕ × Stores)
  unfolding task_view
  snapshot h now mark fwd [] = ([], [], none)
  snapshot h now mark fwd (u ∷ us) =
      let (run, stores) = serviced u.process in
      let (rows, views, clip) = snapshot h now mark fwd us in
      (
        record u { process = run } ∷ rows,
        task_view h now mark u run ∷ views,
        or_else clip (forwarded fwd u.id stores),
      )

  abbrev pub oversized : Option ℕ → Supervisor E → Supervisor E
  oversized none s = s
  oversized (some len) s = notify (clipboard_dropped len clipboard_store_max_bytes) s

  abbrev pub forward : Option (ℕ × Stores) → Supervisor E → Supervisor E
  forward none s = s
  forward (some (id, c)) s =
      oversized c.oversized_len (record s { events = s.events ++ copies id c.stores })

  abbrev screen_of : ℕ → Option (Process E) → ScreenView
  screen_of id none = empty_screen id
  screen_of id (some p) =
      let r = t.formatted p.parser in
      let back = t.scroll_offset p.parser in
      record {
        id = id;
        lines = [];
        formatted = r.bytes;
        cursor = r.cursor;
        hide_cursor = r.hide || ltb 0 back;
        wants_mouse = (input_hints (t.term_mode p.parser)).0;
        alt_screen = (input_hints (t.term_mode p.parser)).1;
        alt_scroll = (input_hints (t.term_mode p.parser)).2;
        scrollback = back;
      }

  abbrev lines_of : Option (Process E) → List Text
  lines_of none = []
  lines_of (some p) = t.screen_lines p.parser

  -- The emitted copy of a changed screen has its lines, the stored one has not.
  abbrev pub show : ScreenView → List Text → Supervisor E → Supervisor E
  show view lines s =
      if same_screen s.last_screen view
      then s
      else emit (screen (record view { lines = lines })) (record s { last_screen = some view })

  abbrev pub show_found : ℕ → Option (Task E) → Supervisor E → Supervisor E
  show_found id none s = s
  show_found id (some u) s = show (screen_of id u.process) (lines_of u.process) s

  abbrev pub show_watched : Option ℕ → Supervisor E → Supervisor E
  show_watched none s = s
  show_watched (some id) s = show_found id (by_id id s.tasks) s

  abbrev pub take_snapshot : Host → Supervisor E → Supervisor E
  take_snapshot h s =
      let (rows, views, clip) =
        snapshot h h.seen.now s.flagship (forwarding s.watched s.watch_attached) s.tasks in
      show_watched s.watched (forward clip (emit (tasks views) (record s { tasks = rows })))

  unfoldable pub tick : Host → Supervisor E → Supervisor E
  unfolding snapshot
  tick h s = maybe_write_recovery h (take_snapshot h (reap h.seen s))

  unfoldable pub clear_watch : Supervisor E → Supervisor E
  clear_watch s = watch_task none false s
