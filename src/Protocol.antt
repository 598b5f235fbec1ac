-- ===== src/Protocol.antt =====
-- src/protocol.rs: the messages between client and core, and the labels of their tags. A `PathBuf`
-- and an `OsString` are texts, a `Duration` is a number of nanoseconds.
pub mod Labels
pub mod Wire
pub mod Encode
pub mod Decode
pub mod Fields
pub mod Range
pub mod Refusals
pub mod RoundTrip
use fleetcom.Common.{ℕ, Bool, true, false, Option, none, some, List, [], ◌∷◌, if◌then◌else◌}
use fleetcom.Text.{Text, text, text_eq}

pub record LaunchContext : Type 0 where
  pub env : List (Text × Text)
  pub cwd : Text

unfoldable pub env_get : List (Text × Text) → Text → Option Text
env_get [] key = none
env_get ((k, v) ∷ rest) key = if text_eq k key then some v else env_get rest key

unfoldable pub unassigned : Text
unassigned = text "Unassigned"

pub data ScrollAction : Type 0 where
  up down : ℕ → ScrollAction
  top live : ScrollAction

pub data MouseBtn : Type 0 where
  left middle right : MouseBtn

pub data MouseKind : Type 0 where
  wheel_up wheel_down : MouseKind
  press drag release : MouseBtn → MouseKind

pub data Key : Type 0 where
  char f : ℕ → Key
  up down left right home end page_up page_down insert delete enter tab back_tab backspace esc : Key

pub record Mods : Type 0 where
  pub shift : Bool
  pub alt : Bool
  pub ctrl : Bool

pub data Command : Type 0 where
  spawn : Text → Text → Option Text → Command
  spawn_agent : Text → Text → Option Text → Command
  kill remove restart : ℕ → Command
  tag : ℕ → Bool → Command
  flagship : Option ℕ → Command
  set_group set_name : ℕ → Option Text → Command
  resize : ℕ → ℕ → Command
  watch : Option ℕ → Bool → Command
  paste : ℕ → List ℕ → Command
  mouse : ℕ → MouseKind → ℕ → ℕ → Command
  key : ℕ → Key → Mods → Command
  scrollback : ℕ → ScrollAction → Command
  save_session load_session load_recovery : Text → Command
  list_sessions shutdown : Command

pub data ClipboardKind : Type 0 where
  clipboard primary selection : ClipboardKind

pub record RecoveryEntry : Type 0 where
  pub stem : Text
  pub label : Text
  pub tasks : ℕ
  pub age_secs : ℕ

pub data Lifecycle : Type 0 where
  active idle ok failed stopped : Lifecycle

-- `Lifecycle::finished`.
unfoldable pub finished : Lifecycle → Bool
finished active = false
finished idle = false
finished ok = true
finished failed = true
finished stopped = true

pub data PreviewSource : Type 0 where
  floor marker title anchor : PreviewSource

pub record Preview : Type 0 where
  pub text : Text
  pub source : PreviewSource
  pub rule : Option Text
  pub frozen : Bool
  pub working : Bool

-- `Preview::floor`.
unfoldable pub floor_preview : Text → Preview
floor_preview t = record { text = t; source = floor; rule = none; frozen = false; working = false }

pub record TaskView : Type 0 where
  pub id : ℕ
  pub command : Text
  pub cwd : Text
  pub tagged : Bool
  pub flagship : Bool
  pub managed : Bool
  pub group : Option Text
  pub name : Option Text
  pub lifecycle : Lifecycle
  pub preview : Preview
  pub started_ago : Option ℕ
  pub quiet_ago : Option ℕ
  pub finished_ago : Option ℕ

pub record ScreenView : Type 0 where
  pub id : ℕ
  pub lines : List Text
  pub formatted : List ℕ
  pub cursor : ℕ × ℕ
  pub hide_cursor : Bool
  pub wants_mouse : Bool
  pub alt_screen : Bool
  pub alt_scroll : Bool
  pub scrollback : ℕ

pub data Event : Type 0 where
  hello_ok : Event
  agents : List Text → Event
  tasks : List TaskView → Event
  screen : ScreenView → Event
  status : Text → Event
  spawned : ℕ → Event
  sessions : List Text → List RecoveryEntry → Event
  clipboard_copy : ℕ → ClipboardKind → Text → Event
