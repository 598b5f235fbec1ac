-- ===== src/Tests/Fleet.antt =====
-- A small fleet for the tests: an emulator that is a count of scroll steps, a host that answers
-- every question plainly, and a supervisor with a running and a stopped row.
use fleetcom.Common.{ℕ, ◌+◌, ◌*◌, true, false, Option, none, some, [], ◌∷◌}
use fleetcom.Text.{text}
use fleetcom.Protocol.{floor_preview}
use fleetcom.Terminal.{Terminal, TermMode}
use fleetcom.Task.Process.{Process, Observation, unchanged}
use fleetcom.Task.Row.{Task}
use fleetcom.Supervisor.Host.{Host, ok, err, not_found}
use fleetcom.Supervisor.State.{Supervisor}

-- The modes of a child that asked for nothing.
abbrev pub plain_modes : TermMode
plain_modes = record {
  mouse_report_click = false;
  mouse_drag = false;
  mouse_motion = false;
  utf8_mouse = false;
  sgr_mouse = false;
  alt_screen = false;
  alternate_scroll_mode = true;
  app_cursor = false;
  bracketed = false;
}

abbrev pub screen : Terminal ℕ
screen = record {
  open_screen = λ rows cols lines. 0;
  set_size = λ rows cols e. e;
  scroll = λ action e. 0;
  scroll_offset = λ e. e;
  drain_clipboard = λ e. (e, record { stores = []; oversized_len = none });
  flush_expired_sync = λ e. (e, []);
  formatted = λ e. record { bytes = []; cursor = (0, 0); hide = false };
  term_mode = λ e. plain_modes;
  screen_lines = λ e. [];
}

abbrev pub quiet : ℕ → Observation
quiet now = record { now = now; peek = λ pid. unchanged; wait = λ pid. unchanged }

-- The system at 5 ns; `shutdown_all` reads its clock at 100 ns first, and every 25 ms then.
abbrev pub host : Host
host = record {
  seen = quiet 5;
  later = λ r. quiet (100 + 25000000 * r);
  last = quiet 9000000000;
  pty_resizes = λ pid. true;
  open_pty = λ id run name exec cwd env. ok (some 77);
  taken_off = λ id. 0;
  debug = λ s. s;
  is_dir = λ s. true;
  exists = λ s. false;
  canonicalize = λ s. some s;
  home = some (text "/home/u");
  registered = λ s. false;
  installed = λ s. [];
  find_on_path = λ a b. none;
  resolve_home = λ env a. none;
  uuid_v4 = λ id run. none;
  plan = λ agent intent id capture home. record {
    env = [];
    args = [];
    notice = none;
    resume_id = none;
  };
  captured_id = λ a f pid. none;
  live_session_id = λ a pid cwd at home. none;
  runtime_root = none;
  install_assets = λ root. none;
  capture_path = λ root id run. root;
  sessions_dir = λ d. some (text "/s");
  save_in = λ root name cfg. ok tt;
  load_in = λ root name. not_found;
  load_recovery_in = λ root stem. not_found;
  list_in = λ root. [];
  list_recovery_in = λ root. [];
  fingerprint_json = λ cfg. text "x";
  recovery_label = text "now";
  save_recovery_in = λ root stem label cfg. err (text "full");
  live_preview = λ id. floor_preview (text "-");
}

abbrev pub run : Process ℕ
run = record {
  pty_rows = 24;
  pty_cols = 80;
  input_tx = some [];
  pending_write = 0;
  pid = some 41;
  parser = 0;
  last_activity = 0;
  handle = true;
  harness_home = none;
  capture_file = none;
  spawned_at = 0;
  exit_code = none;
  started = 0;
  finished = none;
  term_sent = none;
  kill_sent = false;
  reaped = false;
}

abbrev pub row : ℕ → Option (Process ℕ) → Task ℕ
row id process = record {
  id = id;
  command = text "make";
  cwd = text "/w";
  tagged = false;
  group = none;
  name = none;
  harness = none;
  run = 0;
  resume_id = none;
  process = process;
}

abbrev pub fleet : Supervisor ℕ
fleet = record {
  tasks = row 1 (some run) ∷ row 3 none ∷ [];
  graveyard = [];
  next_id = 4;
  rows = 24;
  cols = 80;
  scrollback = 2000;
  watched = none;
  watch_attached = false;
  flagship = some 3;
  last_screen = none;
  launch = none;
  events = [];
  kill_grace = 2000000000;
  max_tasks = 256;
  capture = [];
  recovery = record {
    enabled = true;
    last_mutation = some 0;
    last_cadence = 0;
    last_written = none;
    stem = text "s";
    failing = false;
    debounce = 2;
    cadence = 60000;
  };
  calls = [];
}
