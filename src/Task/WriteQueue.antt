-- ===== src/Task/WriteQueue.antt =====
-- src/task.rs: `admit_write` and `drain_writes`, the byte counter `pending_write` of one run. The
-- counter's load, its `fetch_add` and the channel's `send` are three operations, and there are two
-- admitters, the core thread and the reader thread, so their steps interleave. Lengths stand for
-- messages. The counter is a `usize`; no step subtracts more than was added.
pub mod Overshoot
use fleetcom.Common.{
  ℕ, ◌+◌, ◌-◌, ◌*◌, ◌≤◌, ◌<◌, ◌≡◌, ◌↔◌, Bool, true, false, List, [], ◌∷◌, ◌++◌, ltb, arith,
  if◌then◌else◌,
}

-- `MAX_PENDING_WRITE`, 16 MiB.
abbrev pub max_pending_write : ℕ
max_pending_write = 16777216

-- `pending.load() + len > MAX_PENDING_WRITE`, the refusal.
unfoldable pub refuses : ℕ → ℕ → Bool
refuses pending len = ltb max_pending_write (pending + len)

-- `admit_write` with nothing in between: the new counter, whether the message went to the queue,
-- and whether it was refused. `live` says whether the receiver lives.
pub record Admission : Type 0 where
  pub pending : ℕ
  pub queued : Bool
  pub refused : Bool

unfoldable pub admit_write : Bool → ℕ → ℕ → Admission
unfolding refuses
admit_write live pending len =
    if refuses pending len
    then record { pending = pending; queued = false; refused = true }
    else if live
    then record { pending = pending + len; queued = true; refused = false }
    else record { pending = pending + len - len; queued = false; refused = false }

-- How far an admitter is in `admit_write`: outside it, behind the check, or behind the add.
pub data Phase : Type 0 where
  outside : Phase
  checked added : ℕ → Phase

-- The counter, the queued lengths, the message that `drain_writes` holds, and the two admitters.
pub record State : Type 0 where
  pub pending : ℕ
  pub queue : List ℕ
  pub writing : ℕ
  pub core : Phase
  pub reader : Phase

abbrev pub start : State
start = record { pending = 0; queue = []; writing = 0; core = outside; reader = outside }

-- One atomic operation of one thread. The core's and the reader's steps are alike. A failed `send`
-- takes the length back, and so does the worker behind each message, written or not.
pub data Step (s : State) : State → Type 0 where
  core_check :
      (len : ℕ)
      → s.core ≡ outside
      → refuses s.pending len ≡ false
      → Step s (record s { core = checked len })
  core_add :
      (len : ℕ)
      → s.core ≡ checked len
      → Step s (record s { pending = s.pending + len; core = added len })
  core_send :
      (len : ℕ)
      → s.core ≡ added len
      → Step s (record s { queue = s.queue ++ len ∷ []; core = outside })
  core_fail :
      (len : ℕ)
      → s.core ≡ added len
      → Step s (record s { pending = s.pending - len; core = outside })
  reader_check :
      (len : ℕ)
      → s.reader ≡ outside
      → refuses s.pending len ≡ false
      → Step s (record s { reader = checked len })
  reader_add :
      (len : ℕ)
      → s.reader ≡ checked len
      → Step s (record s { pending = s.pending + len; reader = added len })
  reader_send :
      (len : ℕ)
      → s.reader ≡ added len
      → Step s (record s { queue = s.queue ++ len ∷ []; reader = outside })
  reader_fail :
      (len : ℕ)
      → s.reader ≡ added len
      → Step s (record s { pending = s.pending - len; reader = outside })
  receive :
      (len : ℕ) (rest : List ℕ)
      → s.queue ≡ len ∷ rest
      → s.writing ≡ 0
      → Step s (record s { queue = rest; writing = len })
  written : Step s (record s { pending = s.pending - s.writing; writing = 0 })

pub data Reach (s : State) : State → Type 0 where
  here : Reach s s
  next : {t u : State} → Reach s t → Step t u → Reach s u

abbrev pub sum : List ℕ → ℕ
sum [] = 0
sum (x ∷ xs) = x + sum xs

sum-append : (xs ys : List ℕ) → sum (xs ++ ys) ≡ sum xs + sum ys
sum-append [] ys = omega arith
sum-append (x ∷ xs) ys = omega (arith, sum-append xs ys)

abbrev behind_check : Phase → ℕ
behind_check (checked len) = len
behind_check outside = 0
behind_check (added len) = 0

abbrev pub behind_add : Phase → ℕ
behind_add (added len) = len
behind_add outside = 0
behind_add (checked len) = 0

pub record Inv (s : State) : Type 0 where
  pub exact : s.pending ≡ sum s.queue + s.writing + behind_add s.core + behind_add s.reader
  pub core_fits : behind_check s.core ≤ max_pending_write
  pub reader_fits : behind_check s.reader ≤ max_pending_write
  pub bounded : s.pending + behind_check s.core + behind_check s.reader ≤ 2 * max_pending_write

Step-Inv : {s t : State} → Step s t → Inv s → Inv t
unfolding refuses
Step-Inv {s} (core_check len e r) v = ground arith
Step-Inv {s} (core_add len e) v = ground arith
Step-Inv {s} (core_send len e) v = ground (arith, sum-append s.queue (len ∷ []))
Step-Inv {s} (core_fail len e) v = ground arith
Step-Inv {s} (reader_check len e r) v = ground arith
Step-Inv {s} (reader_add len e) v = ground arith
Step-Inv {s} (reader_send len e) v = ground (arith, sum-append s.queue (len ∷ []))
Step-Inv {s} (reader_fail len e) v = ground arith
Step-Inv {s} (receive len rest e w) v = ground arith
Step-Inv {s} written v = ground arith

Reach-Inv : {s t : State} → Inv s → Reach s t → Inv t
Reach-Inv v here = v
Reach-Inv v (next r st) = Step-Inv st (Reach-Inv v r)

-- Whatever the interleaving of the two admitters and the worker, `pending_write` is exactly the
-- bytes queued, held by the worker or added and not yet sent, and it never exceeds twice the cap.
pub Reach-pending :
    (s : State)
    → Reach start s
    → (s.pending ≡ sum s.queue + s.writing + behind_add s.core + behind_add s.reader)
      × (s.pending ≤ 2 * max_pending_write)
Reach-pending s r = let v = Reach-Inv (omega arith) r in (v.exact, omega arith)

-- With no other admitter in between, a message is admitted whole or refused whole: a refusal means
-- that it would pass the cap and changes nothing, the message is queued exactly when it fits and
-- the worker lives, and a counter within the cap stays there and counts what was queued.
pub admit_write_whole :
    (live : Bool) (pending len : ℕ)
    → pending ≤ max_pending_write
    → let a = admit_write live pending len in
      ((a.refused ≡ true) ↔ (max_pending_write < pending + len))
      × ((a.queued ≡ true) ↔ ((live ≡ true) × (pending + len ≤ max_pending_write)))
      × (a.pending ≡ (if a.queued then pending + len else pending))
      × (a.pending ≤ max_pending_write)
unfolding admit_write
admit_write_whole live pending len h = ground arith
