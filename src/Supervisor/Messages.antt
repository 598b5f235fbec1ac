-- ===== src/Supervisor/Messages.antt =====
-- src/supervisor.rs: the texts of the status notices.
use fleetcom.Common.{ℕ, ◌+◌, List, [], ◌∷◌, ◌++◌, ltb, if◌then◌else◌}
use fleetcom.Text.{Text, text, text_eq, decimal, join_texts}
use fleetcom.Format.{bytes}

pub clipboard_dropped : ℕ → ℕ → Text
clipboard_dropped len limit =
    text "clipboard copy dropped: "
    ++ bytes len
    ++ text " exceeds the "
    ++ bytes limit
    ++ text " limit"

pub input_dropped : ℕ → Text → ℕ → Text
input_dropped id what len =
    text "task "
    ++ decimal id
    ++ text " is not reading input; dropped "
    ++ bytes len
    ++ text " "
    ++ what

pub no_context : Text
no_context = text "no launch context; reconnect and retry"

pub assets_unavailable : Text
assets_unavailable = text "capture assets unavailable; a managed launch needs them"

pub task_notice : ℕ → Text → Text
task_notice id notice = text "task " ++ decimal id ++ text ": " ++ notice

pub spawn_failed : Text → Text
spawn_failed e = text "spawn failed: " ++ e

pub task_limit : ℕ → Text
task_limit n = text "task limit reached (" ++ decimal n ++ text "), not spawning"

pub command_too_long : ℕ → ℕ → Text
command_too_long len limit =
    text "command too long ("
    ++ decimal len
    ++ text " bytes, limit "
    ++ bytes limit
    ++ text "), not spawning"

pub not_spawning : Text → Text
not_spawning why = why ++ text ", not spawning"

pub no_agent : Text → Text
no_agent quoted = text "no agent named " ++ quoted

pub not_on_path : Text → Text
not_on_path agent = agent ++ text " not found on PATH"

pub no_task : ℕ → Text
no_task id = text "rerun failed: no task " ++ decimal id

pub still_running : Text
still_running = text "rerun failed: task is still running"

pub saved : Text → ℕ → Text
saved name count = text "saved '" ++ name ++ text "': " ++ decimal count ++ text " command(s)"

pub save_failed : Text → Text
save_failed e = text "save failed: " ++ e

pub save_without_root : Text
save_without_root = text "save failed: no config directory available"

pub load_without_root : Text
load_without_root = text "load failed: no config directory available"

pub absent : Text → Text
absent subject = subject ++ text " not found"

pub load_failed : Text → Text → Text
load_failed subject e = subject ++ text " failed to load: " ++ e

pub recovery_failed : Text → Text
recovery_failed e = text "recovery snapshot failed: " ++ e

pub session_subject : Text → Text
session_subject name = text "session '" ++ name ++ text "'"

pub recovery_subject : Text → Text
recovery_subject stem = text "recovery snapshot '" ++ stem ++ text "'"

pub task_count : ℕ → Text
task_count n = decimal n ++ text " task(s)"

pub stopped_clause : ℕ → Text
stopped_clause n = decimal n ++ text " stopped"

pub skipped_clause : ℕ → Text
skipped_clause n = decimal n ++ text " skipped (missing dir, task limit, or command too long)"

pub failed_clause : ℕ → Text
failed_clause n = decimal n ++ text " failed to spawn"

pub loaded_session : Text → List Text → Text
loaded_session name parts = text "loaded '" ++ name ++ text "': " ++ join_texts (text ", ") parts

pub loaded_recovery : List Text → Text
loaded_recovery [] = text "loaded recovery snapshot; save to name it"
loaded_recovery (c ∷ cs) =
    text "loaded recovery snapshot; save to name it, " ++ join_texts (text ", ") (c ∷ cs)

-- The loop of `annotate` that counts the distinct notes, in order of first appearance.
tally : Text → List (Text × ℕ) → List (Text × ℕ)
tally note [] = (note, 1) ∷ []
tally note ((n, count) ∷ rest) =
    if text_eq n note then (n, count + 1) ∷ rest else (n, count) ∷ tally note rest

distinct : List (Text × ℕ) → List Text → List (Text × ℕ)
distinct seen [] = seen
distinct seen (note ∷ notes) = distinct (tally note seen) notes

append_notes : Text → List (Text × ℕ) → Text
append_notes summary [] = summary
append_notes summary ((note, count) ∷ rest) =
    append_notes
      (summary
        ++ text "; "
        ++ note
        ++ (if ltb 1 count then text " (" ++ decimal count ++ text " tasks)" else []))
      rest

-- `LoadOutcome::annotate`.
pub annotate : Text → List Text → Text
annotate summary notes = append_notes summary (distinct [] notes)
