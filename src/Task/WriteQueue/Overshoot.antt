-- ===== src/Task/WriteQueue/Overshoot.antt =====
-- How far two racing admitters take `pending_write` over its cap.
use fleetcom.Common.{
  ℕ, zero, suc, ◌+◌, ◌*◌, ◌≤◌, ◌≡◌, refl, List, [], ◌∷◌, ◌++◌, All, All-append, arith, false,
}
use fleetcom.Task.WriteQueue.{
  State, outside, checked, added, Reach, here, next, core_check, core_add, reader_check, reader_add,
  reader_send, start, max_pending_write, refuses,
}

abbrev pub Sized : ℕ → List ℕ → Type 0
Sized len = All (λ x. x ≡ len)

-- The core thread has checked a message of the cap's length and not yet counted it.
abbrev Waiting : ℕ → ℕ → State → Type 0
Waiting len k s =
    (s.pending ≡ k * len)
    × (s.core ≡ checked max_pending_write)
    × (s.reader ≡ outside)
    × Sized len s.queue

fits : (pending len : ℕ) → pending + len ≤ max_pending_write → refuses pending len ≡ false
unfolding refuses
fits pending len h = ground arith

-- The reader thread admits one reply after another in the meantime.
replies : (len k : ℕ) → k * len ≤ max_pending_write → (s : State) × Reach start s × Waiting len k s
replies len zero h = (
  record start { core = checked max_pending_write },
  next here (core_check max_pending_write refl (fits 0 max_pending_write (omega arith))),
  (omega arith, refl, refl, tt),
)
replies len (suc k) h =
    let (s, r, w) = replies len k (grind arith) in
    let held = fits s.pending len (grind (arith, w.0)) in
    (
      record s { pending = s.pending + len; queue = s.queue ++ len ∷ []; reader = outside },
      next (next (next r (reader_check len w.2 held)) (reader_add len refl)) (reader_send len refl),
      (grind (arith, w.0), w.1, refl, All-append (λ x. x ≡ len) s.queue (len ∷ []) w.3 (refl, tt)),
    )

-- Any number of probe replies of any length that fit under the cap may be queued between the core
-- thread's check and its addition, so the counter passes the cap by their sum, and not only by one
-- reply.
pub overshoot :
    (len k : ℕ)
    → k * len ≤ max_pending_write
    → (s : State) × Reach start s
      × (s.pending ≡ max_pending_write + k * len)
      × (s.core ≡ added max_pending_write)
      × Sized len s.queue
overshoot len k h =
    let (s, r, w) = replies len k h in
    (
      record s { pending = s.pending + max_pending_write; core = added max_pending_write },
      next r (core_add max_pending_write w.1),
      omega (arith, w.0),
      refl,
      w.3,
    )
