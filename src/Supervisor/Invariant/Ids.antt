-- ===== src/Supervisor/Invariant/Ids.antt =====
-- The ids of the task set: ascending, below the counter, and never given twice.
use fleetcom.Common.{
  ℕ, suc, ◌≤◌, ◌<◌, ◌≡◌, refl, sym, subst, ap, ◌∙◌, ◌⊎◌, inl, inr, Bool, true, false, ◌||◌, Option,
  none, some, List, [], ◌∷◌, ◌++◌, All, length, is_some, arith, ◌==◌,
}
use fleetcom.Task.Process.{Process, Call}
use fleetcom.Task.Row.{Task}
use fleetcom.Supervisor.State.{Supervisor, update_task, remove_task}
use fleetcom.Supervisor.Reap.{each_task}

-- Ascending ids from `lo` on, all below `hi`.
abbrev pub Ascending : ℕ → ℕ → List ℕ → Type 0
Ascending lo hi [] = lo ≤ hi
Ascending lo hi (i ∷ is) = (lo ≤ i) × Ascending (suc i) hi is

abbrev pub has : ℕ → List ℕ → Bool
has i [] = false
has i (j ∷ js) = (j == i) || has i js

pub Ascending-lower :
    (lo lo' hi : ℕ) (is : List ℕ) → lo' ≤ lo → Ascending lo hi is → Ascending lo' hi is
Ascending-lower lo lo' hi [] h a = omega arith
Ascending-lower lo lo' hi (i ∷ is) h a = (omega arith, a.1)

pub Ascending-append :
    (lo hi : ℕ) (is : List ℕ) → Ascending lo hi is → Ascending lo (suc hi) (is ++ hi ∷ [])
Ascending-append lo hi [] a = (a, omega arith)
Ascending-append lo hi (i ∷ is) a = (a.0, Ascending-append (suc i) hi is a.1)

pub has-append : (i : ℕ) (is js : List ℕ) → has i (is ++ js) ≡ has i is || has i js
has-append i [] js = refl
has-append i (j ∷ is) js = ground (arith, has-append i is js)

length-append_one : (i : ℕ) (is : List ℕ) → length (is ++ i ∷ []) ≡ suc (length is)
length-append_one i [] = refl
length-append_one i (j ∷ is) = ap suc (length-append_one i is)

pub Ascending-le : (lo hi : ℕ) (is : List ℕ) → Ascending lo hi is → lo ≤ hi
Ascending-le lo hi [] a = a
Ascending-le lo hi (k ∷ is) a = omega (arith, Ascending-le (suc k) hi is a.1)

-- An ascending list holds none of the numbers below it.
pub Ascending-has :
    (lo hi i : ℕ) (is : List ℕ) → Ascending lo hi is → has i is ≡ true → (lo ≤ i) × (i < hi)
Ascending-has lo hi i [] a h = cc
Ascending-has lo hi i (j ∷ is) a h =
    ground (arith, Ascending-has (suc j) hi i is a.1, Ascending-le (suc j) hi is a.1)

module _ {E : Type 0} where
  abbrev pub ids : List (Task E) → List ℕ
  ids [] = []
  ids (t ∷ ts) = t.id ∷ ids ts

  pub ids-append : (ts : List (Task E)) (t : Task E) → ids (ts ++ t ∷ []) ≡ ids ts ++ t.id ∷ []
  ids-append [] t = refl
  ids-append (u ∷ ts) t = ap (u.id ∷◌) (ids-append ts t)

  pub length-ids : (ts : List (Task E)) → length (ids ts) ≡ length ts
  length-ids [] = refl
  length-ids (t ∷ ts) = ap suc (length-ids ts)

  pub ids-update_task :
      (id : ℕ) (f : Task E → Task E) (ts : List (Task E))
      → ((t : Task E) → (f t).id ≡ t.id)
      → ids (update_task id f ts) ≡ ids ts
  unfolding update_task
  ids-update_task id f [] keeps = refl
  ids-update_task id f (t ∷ ts) keeps = ground (arith, keeps t, ids-update_task id f ts keeps)

  pub ids-each_task :
      (f : Process E → Process E × List Call) (ts : List (Task E)) → ids (each_task f ts).0 ≡ ids ts
  unfolding each_task
  ids-each_task f [] = refl
  ids-each_task f (t ∷ ts) = ap (t.id ∷◌) (ids-each_task f ts)

  pub Ascending-remove_task :
      (lo hi id : ℕ) (ts : List (Task E))
      → Ascending lo hi (ids ts)
      → Ascending lo hi (ids (remove_task id ts))
  unfolding remove_task
  Ascending-remove_task lo hi id [] a = a
  Ascending-remove_task lo hi id (t ∷ ts) a = ground (
    arith,
    Ascending-lower (suc t.id) lo hi (ids ts),
    Ascending-remove_task (suc t.id) hi id ts a.1,
  )

  pub has-remove_task :
      (i id : ℕ) (ts : List (Task E))
      → has i (ids (remove_task id ts)) ≡ true
      → has i (ids ts) ≡ true
  unfolding remove_task
  has-remove_task i id [] h = h
  has-remove_task i id (t ∷ ts) h = ground (arith, has-remove_task i id ts)

  pub length-remove_task : (id : ℕ) (ts : List (Task E)) → length (remove_task id ts) ≤ length ts
  unfolding remove_task
  length-remove_task id [] = omega arith
  length-remove_task id (t ∷ ts) = ground (arith, length-remove_task id ts)

  -- The leader of a row's run is not collected.
  abbrev pub Uncollected : Option (Process E) → Type 0
  Uncollected none = Unit {0}
  Uncollected (some p) = p.reaped ≡ false

  abbrev pub Held : List (Task E) → Type 0
  Held = All (λ (t : Task E). Uncollected t.process)

  -- A retired run has been sent TERM and is not collected yet.
  abbrev pub Retired : Process E → Type 0
  Retired p = (is_some p.term_sent ≡ true) × (p.reaped ≡ false)

  abbrev pub Buried : List (Process E) → Type 0
  Buried = All Retired

  -- Between commands: the ids ascend below the counter, the task set keeps its ceiling, no row's
  -- leader is collected, and every run in the graveyard has been sent TERM and is not collected.
  pub record Inv (s : Supervisor E) : Type 0 where
    pub ascending : Ascending 1 s.next_id (ids s.tasks)
    pub capped : length s.tasks ≤ s.max_tasks
    pub held : Held s.tasks
    pub buried : Buried s.graveyard

  -- A step that keeps the invariant and hands out fresh ids only.
  pub record Steps (s u : Supervisor E) : Type 0 where
    pub keeps : Inv s → Inv u
    pub advances : s.next_id ≤ u.next_id
    pub fresh :
        (i : ℕ) → has i (ids u.tasks) ≡ true → (has i (ids s.tasks) ≡ true) ⊎ (s.next_id ≤ i)

  pub Steps-refl : (s : Supervisor E) → Steps s s
  Steps-refl s = record { keeps = λ v. v; advances = omega arith; fresh = λ i h. inl h }

  pub Steps-trans : {s u v : Supervisor E} → Steps s u → Steps u v → Steps s v
  Steps-trans a b = record {
    keeps = λ i. b.keeps (a.keeps i);
    advances = omega (arith, a.advances, b.advances);
    fresh = λ i h. elim (b.fresh i h) [
      | inl old ↦ a.fresh i old
      | inr new ↦ inr (omega (arith, a.advances))
    ];
  }

  -- A step that changes no id, the counter or the ceiling.
  pub record SameIds (s u : Supervisor E) : Type 0 where
    pub same : ids u.tasks ≡ ids s.tasks
    pub counter : u.next_id ≡ s.next_id
    pub ceiling : u.max_tasks ≡ s.max_tasks
    pub holds : Held s.tasks → Buried s.graveyard → Held u.tasks × Buried u.graveyard

  pub length_of_ids : (ts us : List (Task E)) → ids us ≡ ids ts → length us ≡ length ts
  length_of_ids ts us e = sym (length-ids us) ∙ ap length e ∙ length-ids ts

  pub SameIds-Steps : {s u : Supervisor E} → SameIds s u → Steps s u
  SameIds-Steps {s} {u} e = record {
    keeps = λ v. record {
      ascending = subst (λ n. Ascending 1 n (ids u.tasks)) (sym e.counter) (rw e.same v.ascending);
      capped = omega (arith, length_of_ids s.tasks u.tasks e.same, e.ceiling, v.capped);
      held = (e.holds v.held v.buried).0;
      buried = (e.holds v.held v.buried).1;
    };
    advances = omega (arith, e.counter);
    fresh = λ i h. inl (subst (λ l. has i l ≡ true) e.same h);
  }

  -- The same, where the rows and the graves are kept under a further condition.
  pub record SameIdsIf (P : Type 0) (s u : Supervisor E) : Type 0 where
    pub same : ids u.tasks ≡ ids s.tasks
    pub counter : u.next_id ≡ s.next_id
    pub ceiling : u.max_tasks ≡ s.max_tasks
    pub holds : P → Held s.tasks → Buried s.graveyard → Held u.tasks × Buried u.graveyard

  pub weaken : {P : Type 0} {s u : Supervisor E} → SameIds s u → SameIdsIf P s u
  weaken a = record {
    same = a.same;
    counter = a.counter;
    ceiling = a.ceiling;
    holds = λ p v b. a.holds v b;
  }

  pub SameIdsIf-trans :
      {P : Type 0} {s u v : Supervisor E} → SameIdsIf P s u → SameIdsIf P u v → SameIdsIf P s v
  SameIdsIf-trans a b = record {
    same = b.same ∙ a.same;
    counter = b.counter ∙ a.counter;
    ceiling = b.ceiling ∙ a.ceiling;
    holds = λ p v g. let (v', g') = a.holds p v g in b.holds p v' g';
  }

  -- The condition follows from the rows at the start.
  pub discharge :
      {P : Type 0} {s u v : Supervisor E}
      → (Held s.tasks → P)
      → SameIds s u
      → SameIdsIf P u v
      → SameIds s v
  discharge cond a b = record {
    same = b.same ∙ a.same;
    counter = b.counter ∙ a.counter;
    ceiling = b.ceiling ∙ a.ceiling;
    holds = λ v g. let (v', g') = a.holds v g in b.holds (cond v) v' g';
  }
