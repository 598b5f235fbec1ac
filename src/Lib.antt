-- ===== src/Lib.antt =====
-- A verification library for FleetCom, the terminal dashboard that runs a fleet of tasks under ptys.
--
-- A client sends commands and receives events (src/protocol.rs) over frames (src/frame.rs). The core
-- owns a `Supervisor` (src/supervisor.rs): its rows, each with the run of a process group
-- (src/task.rs), and a graveyard of runs that left their rows. `apply` serves one command, `reap`
-- latches exits and escalates signals, `tick` emits a snapshot, and a timer writes
-- recovery snapshots. The client's prompts edit an `EditBuffer` (src/editbuf.rs), and user-typed directories go through src/path.rs.
--
-- The files and the code:
--   Common, Text       numbers, options, lists; Rust's `str` as a list of scalar values
--   Path               src/path.rs; Path/Walk and Path/Shape: what cleaning keeps and gives
--   Format             src/format.rs, without the collation key and the calendar
--   Protocol           src/protocol.rs, the message data; Labels, Encode and Decode its codecs;
--                      Wire what they ask of the JSON library, of base64 and of `OsStr`
--   Harness            the registry and `is_uuid` of src/harness/mod.rs
--   Session            the recipe data of src/session.rs; Session/Codec `to_json` and `from_json`;
--                      Session/Store file names and the pruning of recovery snapshots
--   Selection          src/selection.rs; Glyphs, Segments and Extract: what a drag yields
--   Frame, EditBuffer  src/frame.rs, src/editbuf.rs, each with its proofs in a child
--   Terminal           the interface to src/terminal/emulator.rs, as a record of operations on a state
--                      `E`, with its mode readers; Terminal/Input src/terminal/input.rs
--   Task/Process       struct Process of src/task.rs; Task/Process/Protocol: the order of its calls
--   Task/Row           struct Task; Task/Input: what a run does with input
--   Task/WriteQueue    `admit_write` and `drain_writes` as atomic steps of three threads
--   Supervisor/State   the struct and its lookups; Supervisor/Host: what it asks of the system
--   Core               src/core.rs; Core/Schedule: when it ticks
--   Supervisor/...     Spawn, Rerun, Reap, Tick, Recipe, Sessions, Recovery and Apply hold the
--                      functions of those names in src/supervisor.rs; Labels and Assets the smaller helpers
--   Supervisor/Invariant, Shutdown, Geometry, Marks   proofs on the whole supervisor
--   Tests              a small fleet, and the theorems at concrete inputs
--
-- A handler is a function from the state to the new state. The system's answers to one command (the
-- clock, `waitid`, the pty, the file system, harness plans and recipe files) are the fields of
-- `Host`; an `Observation` is the clock with the answers of `waitid`. Calls on process groups and
-- capture files are appended to the field `calls`. Instants and durations are nanoseconds. Events
-- are appended to `events`. What the writer worker of a run took off its counter is settled before each
-- delivery to the run. A panic is `none` in EditBuffer.
--
-- The JSON library is the record `Jzon` over a value type: its documented behaviour, such as that what
-- it writes it parses, stands in fields of that record, and a small library that has it stands in Tests.
--
-- The paste encoder's stripping loop has a round for each byte and one more as fuel; each round but the
-- last drops six bytes. `from_utf8` has a round for each byte. Else only the loop of `shutdown_all` needs fuel: one unit for each round of 25 ms up to the grace period
-- and one more. A supervisor's ids are `u64` in the code and unbounded
-- here. The pty and the source of uuids answer by the id and the run of the task that is launched, so
-- two launches of one load that both fail under the next id get the same answer.
--
-- Not modelled: the preview of a task, the waker, the reader thread but for its part in
-- the writer queue, the reading and writing of session files, the emulator (the crate
-- alacritty_terminal), the harnesses' plans, captures and summaries, the daemon, the transport, the client
-- application and its rendering.
pub mod Common
pub mod Text
pub mod Path
pub mod Format
pub mod Protocol
pub mod Terminal
pub mod Harness
pub mod Selection
pub mod Session
pub mod Task
pub mod Supervisor
pub mod EditBuffer
pub mod Frame
pub mod Core
pub mod Tests
