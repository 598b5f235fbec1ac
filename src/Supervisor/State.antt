-- ===== src/Supervisor/State.antt =====
-- src/supervisor.rs: the state, and the lookups that the handlers share. `calls` is the model's own
-- record of the system calls made on process groups and capture files, oldest first. The waker
-- slot, which only wakes the serving loop, is left out.
use fleetcom.Common.{
  ℕ, Bool, true, false, Option, none, some, List, [], ◌∷◌, ◌++◌, ◌==◌, if◌then◌else◌, is_none,
}
use fleetcom.Text.{Text, text}
use fleetcom.Protocol.{LaunchContext, Event, status, ScreenView, env_get, agents}
use fleetcom.Task.Process.{Process, Call, terminate, unlinked}
use fleetcom.Task.Row.{Task}
use fleetcom.Supervisor.Host.{Host}

pub record Recovery : Type 0 where
  pub enabled : Bool
  pub last_mutation : Option ℕ
  pub last_cadence : ℕ
  pub last_written : Option (Text × Text × Text)
  pub stem : Text
  pub failing : Bool
  pub debounce : ℕ
  pub cadence : ℕ

pub record Supervisor (E : Type 0) : Type 0 where
  pub tasks : List (Task E)
  pub graveyard : List (Process E)
  pub next_id : ℕ
  pub rows : ℕ
  pub cols : ℕ
  pub scrollback : ℕ
  pub watched : Option ℕ
  pub watch_attached : Bool
  pub flagship : Option ℕ
  pub last_screen : Option ScreenView
  pub launch : Option LaunchContext
  pub events : List Event
  pub kill_grace : ℕ
  pub max_tasks : ℕ
  pub capture : List (Text × Text)
  pub recovery : Recovery
  pub calls : List Call

-- `IDLE_AFTER`, `KILL_GRACE`, `RECOVERY_DEBOUNCE` and `RECOVERY_CADENCE` in nanoseconds, then
-- `MAX_DIM`, `MAX_CELLS`, `MAX_TASKS`, `MAX_COMMAND_LEN` and `CLIPBOARD_STORE_MAX_BYTES`.
abbrev pub idle_after : ℕ
idle_after = 10000000000

abbrev pub default_kill_grace : ℕ
default_kill_grace = 2000000000

abbrev pub recovery_debounce : ℕ
recovery_debounce = 2000000000

abbrev pub recovery_cadence : ℕ
recovery_cadence = 60000000000

abbrev pub max_dim : ℕ
max_dim = 1000

abbrev pub max_cells : ℕ
max_cells = 500000

abbrev pub default_max_tasks : ℕ
default_max_tasks = 256

abbrev pub max_command_len : ℕ
max_command_len = 65536

-- `Recovery::new`; `cfg!(test)` is false.
unfoldable pub new_recovery : ℕ → Text → Recovery
new_recovery now stem = record {
  enabled = true;
  last_mutation = none;
  last_cadence = now;
  last_written = none;
  stem = stem;
  failing = false;
  debounce = recovery_debounce;
  cadence = recovery_cadence;
}

-- `==` of two optional ids.
abbrev pub id_eq : Option ℕ → Option ℕ → Bool
id_eq none none = true
id_eq none (some b) = false
id_eq (some a) none = false
id_eq (some a) (some b) = a == b

abbrev pub or_empty : Option Text → Text
or_empty none = []
or_empty (some s) = s

abbrev unlink : Option Text → List Call
unlink none = []
unlink (some f) = unlinked f ∷ []

module _ {E : Type 0} where
  unfoldable pub new_supervisor : ℕ → ℕ → ℕ → ℕ → Text → Supervisor E
  unfolding new_recovery
  new_supervisor rows cols scrollback now stem = record {
    tasks = [];
    graveyard = [];
    next_id = 1;
    rows = rows;
    cols = cols;
    scrollback = scrollback;
    watched = none;
    watch_attached = false;
    flagship = none;
    last_screen = none;
    launch = none;
    events = [];
    kill_grace = default_kill_grace;
    max_tasks = default_max_tasks;
    capture = [];
    recovery = new_recovery now stem;
    calls = [];
  }

  abbrev pub emit : Event → Supervisor E → Supervisor E
  emit e s = record s { events = s.events ++ e ∷ [] }

  -- `Supervisor::status`.
  abbrev pub notify : Text → Supervisor E → Supervisor E
  notify msg s = emit (status msg) s

  -- `drain`: the events, and the supervisor without them.
  unfoldable pub drain : Supervisor E → Supervisor E × List Event
  drain s = (record s { events = [] }, s.events)

  -- `set_launch_context`.
  unfoldable pub set_launch_context : Host → LaunchContext → Supervisor E → Supervisor E
  unfolding env_get text
  set_launch_context h ctx s =
      record (emit (agents (h.installed (or_empty (env_get ctx.env (text "PATH"))))) s) {
        launch = some ctx;
      }

  -- `index_of` and `by_id_mut`: the first task with the id.
  unfoldable pub by_id : ℕ → List (Task E) → Option (Task E)
  by_id id [] = none
  by_id id (t ∷ ts) = if t.id == id then some t else by_id id ts

  unfoldable pub update_task : ℕ → (Task E → Task E) → List (Task E) → List (Task E)
  update_task id f [] = []
  update_task id f (t ∷ ts) = if t.id == id then f t ∷ ts else t ∷ update_task id f ts

  unfoldable pub with_task : ℕ → (Task E → Task E) → Supervisor E → Supervisor E
  with_task id f s = record s { tasks = update_task id f s.tasks }

  unfoldable pub remove_task : ℕ → List (Task E) → List (Task E)
  remove_task id [] = []
  remove_task id (t ∷ ts) = if t.id == id then ts else t ∷ remove_task id ts

  abbrev pub on_process : (Process E → Process E) → Option (Process E) → Option (Process E)
  on_process f none = none
  on_process f (some p) = some (f p)

  -- `if let Some(p) = &mut t.process { f(p) }`.
  abbrev pub on_run : (Process E → Process E) → Task E → Task E
  on_run f t = record t { process = on_process f t.process }

  abbrev pub run_of : ℕ → List (Task E) → Option (Process E)
  run_of id ts = elim (by_id id ts) [ none ↦ none | some t ↦ t.process ]

  abbrev pub is_live : Option (Process E) → Bool
  is_live none = false
  is_live (some p) = is_none p.finished

  abbrev pub live_holder : List (Task E) → Option ℕ → Option ℕ
  live_holder ts none = none
  live_holder ts (some id) = if is_live (run_of id ts) then some id else none

  unfoldable pub flagship_holder : Supervisor E → Option ℕ
  flagship_holder s = live_holder s.tasks s.flagship

  -- `retire`.
  unfoldable pub retire : ℕ → Process E → Supervisor E → Supervisor E
  retire now p s =
      let (q, cs) = terminate now p in
      record s {
        graveyard = s.graveyard ++ q ∷ [];
        calls = s.calls ++ (cs ++ unlink q.capture_file);
      }
