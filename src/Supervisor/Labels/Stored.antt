-- ===== src/Supervisor/Labels/Stored.antt =====
-- What the writers of a group or a name store in a row: src/supervisor.rs, `apply` and `enroll`.
use fleetcom.Common.{
  ℕ, ◌≡◌, ◌≢◌, refl, Option, none, some, List, [], ◌∷◌, All, All-append, Bool-cases, inl, inr, ◌==◌,
}
use fleetcom.Text.{Text}
use fleetcom.Protocol.{unassigned, set_group, set_name}
use fleetcom.Terminal.{Terminal}
use fleetcom.Task.Row.{Task}
use fleetcom.Supervisor.Host.{Host}
use fleetcom.Supervisor.Labels.{normalize_label, normalize_group}
use fleetcom.Supervisor.Labels.Bounds.{IsLabel, normalize_label-IsLabel, normalize_group-IsLabel}
use fleetcom.Supervisor.State.{Supervisor, update_task, with_task}
use fleetcom.Supervisor.Spawn.{enroll}
use fleetcom.Supervisor.Apply.{apply, affects_recipe}

-- A group is a label that is not the reserved name of the ungrouped rows.
abbrev pub GroupStored : Option Text → Type 0
GroupStored none = Unit {0}
GroupStored (some g) = IsLabel g × (g ≢ unassigned)

abbrev pub NameStored : Option Text → Type 0
NameStored none = Unit {0}
NameStored (some n) = IsLabel n

normalize_group-GroupStored : (label : Option Text) → GroupStored (normalize_group label)
normalize_group-GroupStored label = by_value (normalize_group label) refl
  where
    by_value : (o : Option Text) → normalize_group label ≡ o → GroupStored o
    by_value none e = tt
    by_value (some g) e = normalize_group-IsLabel label g e

normalize_label-NameStored : (label : Option Text) → NameStored (normalize_label label)
normalize_label-NameStored label = by_value (normalize_label label) refl
  where
    by_value : (o : Option Text) → normalize_label label ≡ o → NameStored o
    by_value none e = tt
    by_value (some g) e = normalize_label-IsLabel label g e

module _ {E : Type 0} where
  abbrev pub Labelled : Task E → Type 0
  Labelled t = GroupStored t.group × NameStored t.name

  update_task-Labelled :
      (id : ℕ) (f : Task E → Task E) (ts : List (Task E))
      → ((t : Task E) → Labelled t → Labelled (f t))
      → All Labelled ts
      → All Labelled (update_task id f ts)
  unfolding update_task
  update_task-Labelled id f [] keeps h = tt
  update_task-Labelled id f (t ∷ ts) keeps h = elim (Bool-cases (t.id == id)) [
    | inl here ↦ rw here (keeps t h.0, h.1)
    | inr there ↦ rw there (h.0, update_task-Labelled id f ts keeps h.1)
  ]

-- Where the group and the name of every row are stored labels, they are so too after the client sets any
-- group or any name, and after a task is enrolled under any group and any name: a label has between 1
-- and 64 characters, no control character and no leading whitespace, and a group is not the reserved
-- name of the ungrouped rows.
pub writers-Labelled :
    {E : Type 0} ⦃t : Terminal E⦄ (fuel : ℕ) (h : Host) (id : ℕ) (group name : Option Text)
    (fresh : Task E) (s : Supervisor E)
    → All Labelled s.tasks
    → ((u : Supervisor E) × (apply fuel h (set_group id group) s ≡ some u) × All Labelled u.tasks)
      × ((u : Supervisor E) × (apply fuel h (set_name id name) s ≡ some u) × All Labelled u.tasks)
      × All Labelled (enroll fresh group name s).tasks
unfolding apply with_task enroll affects_recipe
writers-Labelled fuel h id group name fresh s ok = (
  (
    _,
    refl,
    update_task-Labelled id (λ u. record u { group = normalize_group group }) s.tasks
        (λ u l. (normalize_group-GroupStored group, l.1)) ok,
  ),
  (
    _,
    refl,
    update_task-Labelled id (λ u. record u { name = normalize_label name }) s.tasks
        (λ u l. (l.0, normalize_label-NameStored name)) ok,
  ),
  All-append Labelled s.tasks
      (record fresh { group = normalize_group group; name = normalize_label name } ∷ []) ok
      ((normalize_group-GroupStored group, normalize_label-NameStored name), tt),
)
