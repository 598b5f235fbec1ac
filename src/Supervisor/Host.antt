-- ===== src/Supervisor/Host.antt =====
-- What the supervisor asks of the system and of the components that are modelled elsewhere or not
-- at all, as the answers given while one command or one tick is served.
use fleetcom.Common.{ℕ, Bool, Option, List}
use fleetcom.Text.{Text}
use fleetcom.Protocol.{Preview, RecoveryEntry}
use fleetcom.Session.{SessionConfig}
use fleetcom.Task.Process.{Observation}

pub data Result (A : Type 0) : Type 0 where
  ok : A → Result A
  err : Text → Result A

-- `Exec` of src/task.rs.
pub data Exec : Type 0 where
  literal_exec : Exec
  managed_exec : Text → List Text → Exec

-- `Intent` of src/harness/mod.rs.
pub data Intent : Type 0 where
  fresh : Intent
  resume : Text → Intent

-- `LaunchPlan` of src/harness/mod.rs.
pub record Plan : Type 0 where
  pub env : List (Text × Text)
  pub args : List Text
  pub notice : Option Text
  pub resume_id : Option Text

-- A loader's `io::Result<SessionConfig>`: `NotFound` is told from the other errors.
pub data Loaded : Type 0 where
  loaded : SessionConfig → Loaded
  not_found : Loaded
  load_error : Text → Loaded

pub record Host : Type 0 where
  -- The clock and `waitid`; in the loop of `shutdown_all` once more for
  -- each round, and at its end.
  pub seen : Observation
  pub later : ℕ → Observation
  pub last : Observation
  -- The pty: whether it takes a window size, and whether it starts a program for the task of an id, at
  -- a run of it, with the pid.
  pub pty_resizes : Option ℕ → Bool
  pub open_pty : ℕ → ℕ → Text → Exec → Text → List (Text × Text) → Result (Option ℕ)
  -- The bytes that the writer worker of a task's run took off its counter since the last delivery.
  pub taken_off : ℕ → ℕ
  -- `{:?}` of a text.
  pub debug : Text → Text
  -- The file system.
  pub is_dir : Text → Bool
  pub exists : Text → Bool
  pub canonicalize : Text → Option Text
  pub home : Option Text
  -- src/harness: the registry, `PATH`, launch plans, session ids, and capture assets by their root.
  pub registered : Text → Bool
  pub installed : Text → List Text
  pub find_on_path : Text → Text → Option Text
  pub resolve_home : List (Text × Text) → Text → Option Text
  pub uuid_v4 : ℕ → ℕ → Option Text
  pub plan : Text → Intent → Option Text → Text → Option Text → Plan
  pub captured_id : Text → Text → Option ℕ → Option Text
  pub live_session_id : Text → ℕ → Text → ℕ → Option Text → Option Text
  pub runtime_root : Option Text
  pub install_assets : Text → Option Text
  pub capture_path : Text → ℕ → ℕ → Text
  -- src/session.rs: the recipe files below a sessions root.
  pub sessions_dir : Option Text → Option Text
  pub save_in : Text → Text → SessionConfig → Result (Unit {0})
  pub load_in : Text → Text → Loaded
  pub load_recovery_in : Text → Text → Loaded
  pub list_in : Text → List Text
  pub list_recovery_in : Text → List RecoveryEntry
  pub fingerprint_json : SessionConfig → Text
  pub recovery_label : Text
  pub save_recovery_in : Text → Text → Text → SessionConfig → Result Text
  -- src/preview.rs: the preview of a live run, by its task.
  pub live_preview : ℕ → Preview
