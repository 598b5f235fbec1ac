-- ===== src/Supervisor/Recipe.antt =====
-- src/supervisor.rs: the recipe of the task set, its saving and the listing of recipes.
use fleetcom.Common.{ℕ, true, false, Option, none, some, List, [], ◌∷◌, if◌then◌else◌}
use fleetcom.Text.{Text, text}
use fleetcom.Path.{abbreviate, join}
use fleetcom.Protocol.{sessions}
use fleetcom.Task.Row.{Task}
use fleetcom.Session.{
  EntryKind, literal, managed, SessionEntry, SessionConfig, push_entry, entry_count,
}
use fleetcom.Supervisor.Host.{Host, Result, ok, err}
use fleetcom.Supervisor.Messages
use fleetcom.Supervisor.State.{Supervisor, emit, notify, id_eq, is_live}
use fleetcom.Supervisor.Assets.{sessions_root}
use fleetcom.Supervisor.Rerun.{current_resume_id}

-- `recovery_dir`: the directory `recovery` below the root.
abbrev pub recovery_dir : Text → Text
recovery_dir root = join root (text "recovery")

abbrev save_message : Text → ℕ → Result (Unit {0}) → Text
save_message name count (ok _) = Messages.saved name count
save_message name count (err e) = Messages.save_failed e

module _ {E : Type 0} where
  -- The entry of a task in a recipe, and `session_config`.
  abbrev entry_kind : Host → Task E → Option Text → EntryKind
  entry_kind h t none = literal t.command
  entry_kind h t (some agent) = managed agent (current_resume_id h t)

  abbrev pub task_entry : Host → Option ℕ → Task E → SessionEntry
  task_entry h marked t = record {
    kind = entry_kind h t t.harness;
    group = t.group;
    name = t.name;
    tagged = t.tagged;
    flagship = id_eq marked (some t.id);
    stopped = if is_live t.process then false else true;
  }

  unfoldable pub config_of : Host → Option ℕ → List (Task E) → SessionConfig → SessionConfig
  config_of h marked [] cfg = cfg
  config_of h marked (t ∷ ts) cfg =
      config_of h marked ts (push_entry (abbreviate h.home t.cwd) (task_entry h marked t) cfg)

  unfoldable pub session_config : Host → Supervisor E → SessionConfig
  unfolding config_of
  session_config h s = config_of h s.flagship s.tasks []

  -- `save_session`.
  abbrev save_under : Host → Text → Supervisor E → Option Text → Text
  save_under h name s none = Messages.save_without_root
  save_under h name s (some root) =
      let cfg = session_config h s in save_message name (entry_count cfg) (h.save_in root name cfg)

  unfoldable pub save_session : Host → Text → Supervisor E → Supervisor E
  save_session h name s = notify (save_under h name s (sessions_root h s)) s

  -- `list_sessions`.
  abbrev pub listing : Host → Option Text → Supervisor E → Supervisor E
  listing h none s = emit (sessions [] []) s
  listing h (some root) s =
      emit (sessions (h.list_in root) (h.list_recovery_in (recovery_dir root))) s

  unfoldable pub list_sessions : Host → Supervisor E → Supervisor E
  list_sessions h s = listing h (sessions_root h s) s
