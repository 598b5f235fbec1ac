-- ===== src/Task/Process/Protocol.antt =====
-- The order of the system calls of one run, over any sequence of its methods.
use fleetcom.Common.{
  ℕ, ◌≡◌, refl, Bool, true, false, not, ◌&&◌, some, List, [], ◌∷◌, ◌++◌, arith, ◌==◌, is_some, ◌∙◌,
  append_assoc,
}
use fleetcom.Task.Process.{
  Process, Observation, Call, sigterm, sigkill, killpg, waited, unlinked, terminate, force_kill,
  poll_exit, try_collect, drop_run, new, collect,
}

-- The discipline of the calls on the process group `pid`: SIGTERM at most once, the leader is
-- collected only after SIGKILL, and nothing follows the collection.
abbrev pub accepts : ℕ → Bool → Bool → Bool → List Call → Bool
accepts pid termed killed done [] = true
accepts pid termed killed done (killpg p sigterm ∷ cs) =
    (p == pid) && (not termed && (not done && accepts pid true killed done cs))
accepts pid termed killed done (killpg p sigkill ∷ cs) =
    (p == pid) && (not done && accepts pid termed true done cs)
accepts pid termed killed done (waited p ∷ cs) =
    (p == pid) && (killed && (not done && accepts pid termed killed true cs))
accepts pid termed killed done (unlinked f ∷ cs) = false

-- The methods of a run that change its exit state or make a system call, with their answers.
pub data Method : Type 0 where
  terminates : ℕ → Method
  polls try_collects drops : Observation → Method
  force_kills : Method

pub step : {E : Type 0} → Method → Process E → Process E × List Call
step (terminates now) p = terminate now p
step (polls o) p = (poll_exit o p, [])
step (try_collects o) p = try_collect o p
step (drops o) p = drop_run o p
step force_kills p = force_kill p

-- A run's whole life: the calls of a sequence of methods.
pub trace : {E : Type 0} → Process E → List Method → List Call
trace p [] = []
trace p (m ∷ ms) = (step m p).1 ++ trace (step m p).0 ms

accepts_done :
    (pid : ℕ) (cs : List Call) (t k t' k' d : Bool)
    → accepts pid t k true cs ≡ true
    → accepts pid t' k' d cs ≡ true
accepts_done pid [] t k t' k' d h = refl
accepts_done pid (killpg p sigterm ∷ cs) t k t' k' d h = ground arith
accepts_done pid (killpg p sigkill ∷ cs) t k t' k' d h = ground arith
accepts_done pid (waited p ∷ cs) t k t' k' d h = ground arith
accepts_done pid (unlinked f ∷ cs) t k t' k' d h = cc

module _ {E : Type 0} where
  -- What the automaton may still see from a run in this state.
  abbrev pub Follows : ℕ → Process E → List Call → Type 0
  Follows pid p cs = accepts pid (is_some p.term_sent) p.kill_sent p.reaped cs ≡ true

  terminate-Follows :
      (now pid : ℕ) (p : Process E) (cs : List Call)
      → p.pid ≡ some pid
      → Follows pid (terminate now p).0 cs
      → Follows pid p ((terminate now p).1 ++ cs)
  unfolding terminate
  terminate-Follows now pid p cs e h = ground arith

  force_kill-Follows :
      (pid : ℕ) (p : Process E) (cs : List Call)
      → p.pid ≡ some pid
      → Follows pid (force_kill p).0 cs
      → Follows pid p ((force_kill p).1 ++ cs)
  unfolding force_kill
  force_kill-Follows pid p cs e h =
      ground (
        arith,
        accepts_done pid cs (is_some p.term_sent) true (is_some p.term_sent) p.kill_sent true,
      )

  collect-Follows :
      (o : Observation) (pid : ℕ) (p : Process E) (cs : List Call)
      → p.pid ≡ some pid
      → p.kill_sent ≡ true
      → Follows pid (collect o p).0 cs
      → Follows pid p ((collect o p).1 ++ cs)
  unfolding collect
  collect-Follows o pid p cs e k h =
      ground
        (arith, accepts_done pid cs (is_some p.term_sent) true (is_some p.term_sent) true p.reaped)

  try_collect-Follows :
      (o : Observation) (pid : ℕ) (p : Process E) (cs : List Call)
      → p.pid ≡ some pid
      → Follows pid (try_collect o p).0 cs
      → Follows pid p ((try_collect o p).1 ++ cs)
  unfolding try_collect
  try_collect-Follows o pid p cs e h = ground (arith, collect-Follows o pid p cs e)

  kill_sent-force_kill : (p : Process E) → (force_kill p).0.kill_sent ≡ true
  unfolding force_kill
  kill_sent-force_kill p = refl

  pid-force_kill : (p : Process E) → (force_kill p).0.pid ≡ p.pid
  unfolding force_kill
  pid-force_kill p = refl

  drop_run-Follows :
      (o : Observation) (pid : ℕ) (p : Process E) (cs : List Call)
      → p.pid ≡ some pid
      → Follows pid (drop_run o p).0 cs
      → Follows pid p ((drop_run o p).1 ++ cs)
  unfolding drop_run
  drop_run-Follows o pid p cs e h =
      let killed = (force_kill p).0 in
      rw append_assoc (
        force_kill-Follows pid p _ e
          (collect-Follows o pid killed cs (pid-force_kill p ∙ e) (kill_sent-force_kill p) h))

  step-pid : (m : Method) (p : Process E) → (step m p).0.pid ≡ p.pid
  unfolding step terminate force_kill poll_exit try_collect drop_run collect
  step-pid (terminates now) p = ground arith
  step-pid (polls o) p = ground arith
  step-pid (try_collects o) p = ground arith
  step-pid (drops o) p = ground arith
  step-pid force_kills p = ground arith

  poll_exit-Follows :
      (o : Observation) (pid : ℕ) (p : Process E) (cs : List Call)
      → Follows pid (poll_exit o p) cs
      → Follows pid p cs
  unfolding poll_exit
  poll_exit-Follows o pid p cs h = ground arith

  step-Follows :
      (m : Method) (pid : ℕ) (p : Process E) (cs : List Call)
      → p.pid ≡ some pid
      → Follows pid (step m p).0 cs
      → Follows pid p ((step m p).1 ++ cs)
  unfolding step
  step-Follows (terminates now) pid p cs e h = terminate-Follows now pid p cs e h
  step-Follows (polls o) pid p cs e h = poll_exit-Follows o pid p cs h
  step-Follows (try_collects o) pid p cs e h = try_collect-Follows o pid p cs e h
  step-Follows (drops o) pid p cs e h = drop_run-Follows o pid p cs e h
  step-Follows force_kills pid p cs e h = force_kill-Follows pid p cs e h

  trace-Follows :
      (pid : ℕ) (p : Process E) (ms : List Method) → p.pid ≡ some pid → Follows pid p (trace p ms)
  unfolding trace
  trace-Follows pid p [] e = refl
  trace-Follows pid p (m ∷ ms) e =
      step-Follows m pid p (trace (step m p).0 ms) e
        (trace-Follows pid (step m p).0 ms (step-pid m p ∙ e))

  -- Over any sequence of its methods, whatever the system answers, a freshly spawned run signals
  -- and collects no group but its own, sends SIGTERM at most once, collects its leader only after
  -- SIGKILL, and makes no call on the group once the leader is collected.
  pub trace-accepts :
      (pid now rows cols : ℕ) (emulator : E) (ms : List Method)
      → accepts pid false false false (trace (new emulator rows cols (some pid) now) ms) ≡ true
  unfolding new
  trace-accepts pid now rows cols emulator ms =
      trace-Follows pid (new emulator rows cols (some pid) now) ms refl

  -- Once the exit of a run is latched, no method changes its exit code or its finish time, and a
  -- collected leader stays collected.
  pub step_latched :
      (m : Method) (p : Process E) (t : ℕ)
      → p.finished ≡ some t
      → ((step m p).0.finished ≡ some t)
        × ((step m p).0.exit_code ≡ p.exit_code)
        × (p.reaped ≡ true → (step m p).0.reaped ≡ true)
  unfolding step terminate force_kill poll_exit try_collect drop_run collect
  step_latched (terminates now) p t e = ground arith
  step_latched (polls o) p t e = ground arith
  step_latched (try_collects o) p t e = ground arith
  step_latched (drops o) p t e = ground arith
  step_latched force_kills p t e = ground arith
