-- ===== src/Task/Process.antt =====
-- src/task.rs, struct `Process` and its signal and exit bookkeeping. A method returns the new run
-- and the system calls that it made, oldest first. `parser` is any emulator state. The preview
-- fields and the reader thread are left out; `handle` says whether its handle is still held. An observation answers the calls that ask the system something.
pub mod Protocol
use fleetcom.Protocol.{Lifecycle, active, idle, ok, failed}
use fleetcom.Common.{
  ℕ, ◌-◌, ◌+◌, Bool, true, false, not, ◌&&◌, ◌||◌, Option, none, some, List, [], ◌∷◌, ◌++◌, leb,
  ltb, ◌==◌, if◌then◌else◌, is_some, is_none,
}

pub data Signal : Type 0 where
  sigterm sigkill : Signal

-- `waited` is a wait that collected the leader, `unlinked` a removed capture file.
pub data Call : Type 0 where
  killpg : ℕ → Signal → Call
  waited : ℕ → Call
  unlinked : List ℕ → Call

-- rustix's `WaitIdStatus`, through the two accessors that the code reads.
pub record WaitStatus : Type 0 where
  pub exit_status : Option ℕ
  pub terminating_signal : Option ℕ

-- The answers of `waitid`: `Ok(Some)`, `Ok(None)`, `Err(CHILD)` and any other error.
pub data WaitAnswer : Type 0 where
  changed : WaitStatus → WaitAnswer
  unchanged no_child wait_error : WaitAnswer

-- What the system answers while one call is served: the clock in nanoseconds, `waitid` with and
-- without `WNOWAIT` for each pid.
pub record Observation : Type 0 where
  pub now : ℕ
  pub peek : ℕ → WaitAnswer
  pub wait : ℕ → WaitAnswer

pub record Process (E : Type 0) : Type 0 where
  -- The window size that `master`, the pty, was last given.
  pub pty_rows : ℕ
  pub pty_cols : ℕ
  -- The sender of the writer queue, as the messages sent through it, oldest first.
  pub input_tx : Option (List (List ℕ))
  pub pending_write : ℕ
  pub pid : Option ℕ
  pub parser : E
  pub last_activity : ℕ
  pub handle : Bool
  pub harness_home : Option (List ℕ)
  pub capture_file : Option (List ℕ)
  pub spawned_at : ℕ
  pub exit_code : Option ℕ
  pub started : ℕ
  pub finished : Option ℕ
  pub term_sent : Option ℕ
  pub kill_sent : Bool
  pub reaped : Bool

-- `wait_code`: the exit status, else 128 + the signal, else 1.
abbrev or_signal : Option ℕ → ℕ
or_signal none = 1
or_signal (some s) = 128 + s

unfoldable pub wait_code : WaitStatus → ℕ
wait_code w = elim w.exit_status [ some c ↦ c | none ↦ or_signal w.terminating_signal ]

-- `self.pid.and_then(|p| Pid::from_raw(p as i32))`: a zero pid is no pid. Pids fit an `i32`.
abbrev pub from_raw : Option ℕ → Option ℕ
from_raw none = none
from_raw (some p) = if p == 0 then none else some p

abbrev pub signal_group : Option ℕ → Signal → List Call
signal_group none s = []
signal_group (some p) s = killpg p s ∷ []

abbrev pub elapsed : ℕ → Option ℕ → ℕ → Bool
elapsed now none grace = false
elapsed now (some t) grace = leb grace (now - t)

abbrev exit_state : Option ℕ → Lifecycle
exit_state none = failed
exit_state (some c) = if c == 0 then ok else failed

module _ {E : Type 0} where
  -- `Process::spawn` after the pty has started the child: the record that it returns.
  unfoldable pub new : E → ℕ → ℕ → Option ℕ → ℕ → Process E
  new emulator rows cols pid now = record {
    pty_rows = rows;
    pty_cols = cols;
    input_tx = some [];
    pending_write = 0;
    pid = pid;
    parser = emulator;
    last_activity = now;
    handle = true;
    harness_home = none;
    capture_file = none;
    spawned_at = now;
    exit_code = none;
    started = now;
    finished = none;
    term_sent = none;
    kill_sent = false;
    reaped = false;
  }

  unfoldable pub terminate : ℕ → Process E → Process E × List Call
  terminate now p =
      if not p.reaped && is_none p.term_sent
      then (record p { term_sent = some now }, signal_group p.pid sigterm)
      else (p, [])

  unfoldable pub overdue : ℕ → ℕ → Process E → Bool
  overdue now grace p = not p.kill_sent && elapsed now p.term_sent grace

  unfoldable pub force_kill : Process E → Process E × List Call
  force_kill p = (
    record p { kill_sent = true; handle = false; input_tx = none },
    (if p.reaped then [] else signal_group p.pid sigkill),
  )

  -- The exit code and finish time are latched once.
  abbrev latch : ℕ → WaitStatus → Process E → Process E
  latch now w p =
      if is_none p.finished
      then record p { exit_code = some (wait_code w); finished = some now }
      else p

  abbrev pub polled : ℕ → WaitAnswer → Process E → Process E
  polled now (changed w) p = latch now w p
  polled now unchanged p = p
  polled now no_child p = p
  polled now wait_error p = p

  abbrev pub poll_leader : Observation → Option ℕ → Process E → Process E
  poll_leader o none p = p
  poll_leader o (some pid) p = polled o.now (o.peek pid) p

  unfoldable pub poll_exit : Observation → Process E → Process E
  poll_exit o p = if is_some p.finished || p.reaped then p else poll_leader o (from_raw p.pid) p

  abbrev collected : ℕ → ℕ → WaitAnswer → Process E → Process E × List Call
  collected now pid (changed w) p = (record (latch now w p) { reaped = true }, waited pid ∷ [])
  collected now pid unchanged p = (p, [])
  collected now pid no_child p = (record p { reaped = true }, [])
  collected now pid wait_error p = (p, [])

  abbrev collect_leader : Observation → Option ℕ → Process E → Process E × List Call
  collect_leader o none p = (record p { reaped = true }, [])
  collect_leader o (some pid) p = collected o.now pid (o.wait pid) p

  unfoldable pub collect : Observation → Process E → Process E × List Call
  unfolding wait_code
  collect o p = if p.reaped then (p, []) else collect_leader o (from_raw p.pid) p

  -- The Boolean result is `reaped` of the new run.
  unfoldable pub try_collect : Observation → Process E → Process E × List Call
  try_collect o p = if p.kill_sent then collect o p else (p, [])

  -- `Drop for Process`.
  unfoldable pub drop_run : Observation → Process E → Process E × List Call
  drop_run o p =
      let (killed, cs) = force_kill p in let (gone, ds) = collect o killed in (gone, cs ++ ds)

  unfoldable pub quiet_for : ℕ → Process E → ℕ
  quiet_for now p = now - p.last_activity

  unfoldable pub lifecycle : ℕ → ℕ → Process E → Lifecycle
  unfolding quiet_for
  lifecycle now idle_after p =
      if is_some p.finished
      then exit_state p.exit_code
      else if ltb idle_after (quiet_for now p)
      then idle
      else active
