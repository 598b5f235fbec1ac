-- ===== src/Task/Row.antt =====
-- src/task.rs, struct `Task`: a dashboard row. A harness is named by its program word, as
-- `shape().0` gives it. The summary adapter, which serves the preview only, is left out.
use fleetcom.Common.{ℕ, Bool, false, Option, none}
use fleetcom.Text.{Text}
use fleetcom.Task.Process.{Process}

pub record Task (E : Type 0) : Type 0 where
  pub id : ℕ
  pub command : Text
  pub cwd : Text
  pub tagged : Bool
  pub group : Option Text
  pub name : Option Text
  pub harness : Option Text
  pub run : ℕ
  pub resume_id : Option Text
  pub process : Option (Process E)

module _ {E : Type 0} where
  -- `Task::stopped`.
  unfoldable pub stopped_task : ℕ → Text → Text → Option Text → Option Text → Task E
  stopped_task id command cwd harness resume_id = record {
    id = id;
    command = command;
    cwd = cwd;
    tagged = false;
    group = none;
    name = none;
    harness = harness;
    run = 0;
    resume_id = resume_id;
    process = none;
  }
