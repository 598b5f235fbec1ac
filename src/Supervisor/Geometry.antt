-- ===== src/Supervisor/Geometry.antt =====
-- src/supervisor.rs, `Resize`: the bounds of the grid and the size of the ptys.
use fleetcom.Common.{
  ℕ, ◌*◌, ◌/◌, ◌≤◌, ◌<◌, ltb→lt, subst, ◌≡◌, refl, ap, sym, ◌∙◌, Bool, true, false, Option, none,
  some, List, [], ◌∷◌, All, ltb, arith, inl, inr, Bool-cases,
}
use native.Mathlib.Nat.{mul-div-le, mul_comm, le-div_iff_mul-le, div-lt_iff_lt-mul}
use fleetcom.Terminal.{Terminal}
use fleetcom.Task.Process.{Process}
use fleetcom.Task.Row.{Task}
use fleetcom.Task.Input.{resize_run}
use fleetcom.Supervisor.Host.{Host}
use fleetcom.Supervisor.State.{Supervisor, max_dim, max_cells}
use fleetcom.Supervisor.Apply.{clamp_dim, fit_cols, resize_all, resize_tasks}

-- Between one and 1000 rows and columns, and at most 500000 cells.
abbrev pub IsGrid : ℕ → ℕ → Type 0
IsGrid rows cols =
    (1 ≤ rows) × (rows ≤ max_dim) × (1 ≤ cols) × (cols ≤ max_dim) × (rows * cols ≤ max_cells)

module _ {E : Type 0} where
  -- The pty of a run has the size, unless it refuses sizes.
  abbrev Sized : Host → ℕ → ℕ → Option (Process E) → Type 0
  Sized h rows cols none = Unit {0}
  Sized h rows cols (some p) =
      h.pty_resizes p.pid ≡ true → (p.pty_rows ≡ rows) × (p.pty_cols ≡ cols)

  abbrev pub AllSized : Host → ℕ → ℕ → List (Task E) → Type 0
  AllSized h rows cols = All (λ (u : Task E). Sized h rows cols u.process)

clamped-IsGrid :
    (rows cols : ℕ) → IsGrid (clamp_dim rows) (fit_cols (clamp_dim rows) (clamp_dim cols))
unfolding fit_cols
clamped-IsGrid rows cols =
    fits (clamp_dim rows) (clamp_dim cols) (omega arith) (omega arith) (omega arith) (omega arith)
  where
    fits : (r c : ℕ) → 1 ≤ r → r ≤ max_dim → 1 ≤ c → c ≤ max_dim → IsGrid r (fit_cols r c)
    fits r c r1 rm c1 cm = elim (Bool-cases (ltb max_cells (r * c))) [
      | inl b ↦
          let big : max_cells < r * c = ltb→lt max_cells (r * c) b in
          let below : max_cells / r < c =
            (div-lt_iff_lt-mul {k = r} {x = max_cells} {y = c} r1).1
              (subst (λ n. max_cells < n) (mul_comm r c) big) in
          rw b (
            r1,
            rm,
            (le-div_iff_mul-le {k = r} {x = 1} {y = max_cells} r1).1 (omega arith),
            omega (arith, below, cm),
            mul-div-le max_cells r,
          )
      | inr b ↦ rw b (r1, rm, c1, cm, ground (arith, b))
    ]

module _ {E : Type 0} ⦃t : Terminal E⦄ where
  resize_all-AllSized :
      (h : Host) (rows cols : ℕ) (us : List (Task E))
      → AllSized h rows cols (resize_all h rows cols us)
  unfolding resize_run
  resize_all-AllSized h rows cols [] = tt
  resize_all-AllSized h rows cols (u ∷ us) = (by_run u.process, resize_all-AllSized h rows cols us)
    where
      granted :
          (g : Bool) (p : Process E)
          → g ≡ true
          → ((resize_run g rows cols p).pty_rows ≡ rows)
            × ((resize_run g rows cols p).pty_cols ≡ cols)
      granted true p e = (refl, refl)
      granted false p e = cc

      pid_kept : (g : Bool) (p : Process E) → (resize_run g rows cols p).pid ≡ p.pid
      pid_kept true p = refl
      pid_kept false p = refl

      by_run :
          (o : Option (Process E))
          → Sized h rows cols (elim o [
            | none ↦ none
            | some p ↦ some (resize_run (h.pty_resizes p.pid) rows cols p)
          ])
      by_run none = tt
      by_run (some p) = λ g.
          granted (h.pty_resizes p.pid) p
            (ap h.pty_resizes (sym (pid_kept (h.pty_resizes p.pid) p)) ∙ g)

  -- Whatever a client asks, the grid stays within the bounds, and every pty that takes a size gets
  -- the size of the grid.
  pub resize_tasks-IsGrid :
      (h : Host) (rows cols : ℕ) (s : Supervisor E)
      → IsGrid (resize_tasks h rows cols s).rows (resize_tasks h rows cols s).cols
        × AllSized h
            (resize_tasks h rows cols s).rows
            (resize_tasks h rows cols s).cols
            (resize_tasks h rows cols s).tasks
  unfolding resize_tasks
  resize_tasks-IsGrid h rows cols s = (clamped-IsGrid rows cols, resize_all-AllSized h _ _ s.tasks)
