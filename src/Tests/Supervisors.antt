-- ===== src/Tests/Supervisors.antt =====
-- The theorems on the supervisor and the core loop, on the small fleet.
use fleetcom.Common.{
  length, ◌↔◌, ◌+◌, ◌++◌, false, List, ℕ, ◌≤◌, ◌≡◌, refl, ◌⊎◌, true, none, some, [], ◌∷◌, All,
  arith,
}
use fleetcom.Text.{text}
use fleetcom.Protocol.{remove, shutdown, set_group, set_name}
use fleetcom.Task.Process.{sigkill, killpg, poll_exit, terminate}
use fleetcom.Supervisor.State.{Supervisor, by_id, update_task, with_task, retire}
use fleetcom.Supervisor.Spawn.{enroll, spawn_task}
use fleetcom.Supervisor.Labels.Stored.{Labelled, writers-Labelled}
use fleetcom.Supervisor.Reap.{reap, touch}
use fleetcom.Supervisor.Rerun.{rerun}
use fleetcom.Supervisor.Rerun.Identity.{Replaces, rerun-Replaces}
use fleetcom.Supervisor.Recovery.{maybe_write_recovery}
use fleetcom.Supervisor.Recovery.Pass.{Settles, maybe_write_recovery-Settles}
use fleetcom.Supervisor.Apply.{apply, affects_recipe, remove_row, resize_tasks}
use fleetcom.Supervisor.Geometry.{IsGrid, AllSized, resize_tasks-IsGrid}
use fleetcom.Supervisor.Marks.{Marked, reap-Marked}
use fleetcom.Supervisor.Shutdown.{Calls, shutdown_ends}
use fleetcom.Supervisor.Invariant.Ids.{Inv, ids, has}
use fleetcom.Supervisor.Invariant.Apply.{apply-Inv, reap-Inv}
use fleetcom.Supervisor.Tick.{tick}
use fleetcom.Supervisor.Tick.Snapshot.{MarkLive, view_ids}
use fleetcom.Supervisor.Tick.Events.{Permitted, tick-Snapshot}
use fleetcom.Supervisor.Tick.Keeps.{tick-Inv}
use fleetcom.Core.{Round, Loop, got, output, wait_for, ready_to_tick}
use fleetcom.Core.Schedule.{ready_to_tick-wait_for}
use fleetcom.Protocol.{TaskView, Event, tasks}
use fleetcom.Tests.Fleet.{screen, host, quiet, fleet, row, run}

fleet-Inv : Inv fleet
fleet-Inv = record {
  ascending = (omega arith, (omega arith, omega arith));
  capped = omega arith;
  held = (refl, (tt, tt));
  buried = tt;
}

-- The fleet after `Remove` of its running row.
abbrev removed : Supervisor ℕ
removed = remove_row 5 1 (record fleet { recovery = touch 5 fleet.recovery })

apply-Inv_example :
    Inv removed
    × (4 ≤ removed.next_id)
    × ((i : ℕ) → has i (ids removed.tasks) ≡ true → (has i (ids fleet.tasks) ≡ true) ⊎ (4 ≤ i))
unfolding apply affects_recipe
apply-Inv_example = apply-Inv ⦃t = screen⦄ 0 host (remove 1) fleet removed fleet-Inv refl

shutdown_ends_example :
    (u : Supervisor ℕ) × (apply ⦃t = screen⦄ 81 host shutdown fleet ≡ some u)
    × (u.tasks ≡ [])
    × (u.graveyard ≡ [])
    × All (λ pid. Calls (killpg pid sigkill) u.calls) (41 ∷ [])
shutdown_ends_example =
    shutdown_ends ⦃t = screen⦄ 80 host fleet fleet-Inv (λ r. omega arith) (omega arith)

reap-Inv_example :
    Inv (reap (quiet 5) fleet)
    × (ids (reap (quiet 5) fleet).tasks ≡ 1 ∷ 3 ∷ [])
    × ((reap (quiet 5) fleet).next_id ≡ 4)
reap-Inv_example = reap-Inv (quiet 5) fleet fleet-Inv

reap-Marked_example :
    Marked (reap (quiet 5) fleet).tasks (reap (quiet 5) fleet).flagship
    × (((reap (quiet 5) fleet).flagship ≡ some 3) ⊎ ((reap (quiet 5) fleet).flagship ≡ none))
reap-Marked_example = reap-Marked (quiet 5) fleet

-- The fleet with a launch context, its first row ended.
abbrev ended : Supervisor ℕ
ended = record fleet {
  tasks = row 1 (some (record run { finished = some 2; reaped = true })) ∷ row 3 none ∷ [];
  launch = some (record { env = []; cwd = text "/w" });
}

rerun-Replaces_example : Replaces host 1 ended (rerun ⦃t = screen⦄ host 1 ended)
rerun-Replaces_example = rerun-Replaces ⦃t = screen⦄ host 1 ended

-- Its run goes to the graveyard.
rerun-ended : length (rerun ⦃t = screen⦄ host 1 ended).graveyard ≡ 1
unfolding rerun by_id update_task with_task spawn_task poll_exit retire terminate
rerun-ended = refl

resize_tasks-IsGrid_example :
    IsGrid
      (resize_tasks ⦃t = screen⦄ host 900 0 fleet).rows
      (resize_tasks ⦃t = screen⦄ host 900 0 fleet).cols
    × AllSized host
        (resize_tasks ⦃t = screen⦄ host 900 0 fleet).rows
        (resize_tasks ⦃t = screen⦄ host 900 0 fleet).cols
        (resize_tasks ⦃t = screen⦄ host 900 0 fleet).tasks
resize_tasks-IsGrid_example = resize_tasks-IsGrid ⦃t = screen⦄ host 900 0 fleet

writers-Labelled_example :
    ((u : Supervisor ℕ) × (apply ⦃t = screen⦄ 0 host (set_group 1 (some (text " ops\n"))) fleet
        ≡ some u)
      × All Labelled u.tasks)
    × ((u : Supervisor ℕ) × (apply ⦃t = screen⦄ 0 host (set_name 1 (some (text "ci"))) fleet
          ≡ some u)
        × All Labelled u.tasks)
    × All Labelled (enroll (row 9 none) (some (text " ops\n")) (some (text "ci")) fleet).tasks
writers-Labelled_example =
    writers-Labelled ⦃t = screen⦄ 0 host 1 (some (text " ops\n")) (some (text "ci")) (row 9 none)
      fleet ((tt, tt), ((tt, tt), tt))

maybe_write_recovery-Settles_example : Settles 5 fleet (maybe_write_recovery host fleet)
maybe_write_recovery-Settles_example = maybe_write_recovery-Settles host fleet refl (omega arith)

tick-Snapshot_example :
    (views : List TaskView) × (rest : List Event) × ((tick ⦃t = screen⦄ host fleet).events
      ≡ [] ++ tasks views ∷ rest)
    × (view_ids views ≡ 1 ∷ 3 ∷ [])
    × MarkLive views
    × All (Permitted none) rest
tick-Snapshot_example = tick-Snapshot ⦃t = screen⦄ host fleet fleet-Inv

tick-Inv_example : Inv (tick ⦃t = screen⦄ host fleet) × (4 ≤ (tick ⦃t = screen⦄ host fleet).next_id)
tick-Inv_example = tick-Inv ⦃t = screen⦄ host fleet fleet-Inv

ready_to_tick-wait_for_example :
    ((ready_to_tick true (3 + 5) ≡ true) ↔ (wait_for true 3 ≤ 5)) × (wait_for true 3 ≤ 200000000)
ready_to_tick-wait_for_example = ready_to_tick-wait_for true 3 5

-- A round in which the running task wrote output, 20 ms after the last tick.
abbrev busy_round : Round
busy_round = record {
  stop = false;
  received = got host output;
  burst = [];
  system = host;
  now = 120000000;
  sink = λ e. true;
}

abbrev busy : Loop ℕ
busy = record { sup = fleet; dirty = false; last_tick = 100000000 }
