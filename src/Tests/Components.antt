-- ===== src/Tests/Components.antt =====
-- The theorems on runs, queues, paths, prompts and frames at concrete inputs.
use fleetcom.Common.{
  ℕ, ◌+◌, ◌*◌, ◌≤◌, ◌<◌, ◌≡◌, ◌↔◌, refl, ◌⊎◌, true, false, none, some, List, [], ◌∷◌, ◌++◌, arith,
  if◌then◌else◌,
}
use mathlib.Core.List.{reverse}
use fleetcom.Text.{text}
use fleetcom.Path.{
  Component, normal, parent_dir, cur_dir, lexical_clean, resolve_components, is_absolute,
}
use fleetcom.Path.Walk.{walk_back, walk_back-lexical_clean}
use fleetcom.Path.Shape.{IsClean, IsRooted, lexical_clean_normal, resolve_components-IsRooted}
use fleetcom.Task.Process.{Process, new}
use fleetcom.Task.Process.Protocol.{
  terminates, polls, drops, force_kills, accepts, trace, step, trace-accepts, step_latched,
}
use fleetcom.Task.WriteQueue.{
  State, start, Reach, here, next, core_check, core_add, refuses, added, behind_add,
  max_pending_write, sum, Reach-pending, admit_write, admit_write_whole,
}
use fleetcom.Task.WriteQueue.Overshoot.{overshoot, Sized}
use fleetcom.EditBuffer.{seeded}
use fleetcom.EditBuffer.Zipper.{go_left, go_back, insert_char, perform_all, Lands, seeded-Lands}
use fleetcom.Frame.{kind_control, kind_screen, done}
use fleetcom.Frame.RoundTrip.{write_all, read_many, write_all-read_many}
use fleetcom.Tests.Fleet.{run, quiet}

trace-accepts_example :
    accepts 41 false false false (
      trace {E = ℕ}
        (new 0 24 80 (some 41) 0)
        (terminates 3 ∷ polls (quiet 4) ∷ force_kills ∷ drops (quiet 9) ∷ []))
    ≡ true
trace-accepts_example =
    trace-accepts 41 0 24 80 0 (terminates 3 ∷ polls (quiet 4) ∷ force_kills ∷ drops (quiet 9) ∷ [])

-- A run whose exit was latched at 7 ns.
abbrev exited : Process ℕ
exited = record run { finished = some 7; exit_code = some 0 }

step_latched_example :
    ((step (drops (quiet 9)) exited).0.finished ≡ some 7)
    × ((step (drops (quiet 9)) exited).0.exit_code ≡ some 0)
    × (false ≡ true → (step (drops (quiet 9)) exited).0.reaped ≡ true)
step_latched_example = step_latched (drops (quiet 9)) exited 7 refl

-- The core thread has checked and counted a message of three bytes.
abbrev counted : State
counted = record start { pending = 3; core = added 3 }

counted-Reach : Reach start counted
unfolding refuses
counted-Reach = next (next here (core_check 3 refl refl)) (core_add 3 refl)

Reach-pending_example :
    (3 ≡ sum counted.queue + counted.writing + behind_add counted.core + behind_add counted.reader)
    × (3 ≤ 2 * max_pending_write)
Reach-pending_example = Reach-pending counted counted-Reach

admit_write_whole_example :
    (((admit_write true 3 4).refused ≡ true) ↔ (max_pending_write < 3 + 4))
    × (((admit_write true 3 4).queued ≡ true) ↔ ((true ≡ true) × (3 + 4 ≤ max_pending_write)))
    × ((admit_write true 3 4).pending ≡ (if (admit_write true 3 4).queued then 3 + 4 else 3))
    × ((admit_write true 3 4).pending ≤ max_pending_write)
admit_write_whole_example = admit_write_whole true 3 4 (omega arith)

overshoot_example :
    (s : State) × Reach start s
    × (s.pending ≡ max_pending_write + 1000 * 16)
    × (s.core ≡ added max_pending_write)
    × Sized 16 s.queue
overshoot_example = overshoot 16 1000 (omega arith)

-- `a/../b`.
abbrev up_and_down : List Component
up_and_down = normal (text "a") ∷ parent_dir ∷ normal (text "b") ∷ []

walk_back-lexical_clean_example :
    walk_back (lexical_clean up_and_down) (text "w" ∷ []) ≡ text "b" ∷ text "w" ∷ []
walk_back-lexical_clean_example = walk_back-lexical_clean up_and_down (text "w" ∷ [])

lexical_clean_normal_example :
    (lexical_clean (reverse (lexical_clean up_and_down)) ≡ lexical_clean up_and_down)
    × (IsClean (lexical_clean up_and_down) ⊎ (lexical_clean up_and_down ≡ cur_dir ∷ []))
lexical_clean_normal_example = lexical_clean_normal up_and_down

resolve_components-IsRooted_example :
    IsRooted (resolve_components none (text "/w") (text "../../x"))
unfolding text is_absolute
resolve_components-IsRooted_example =
    resolve_components-IsRooted none (text "/w") (text "../../x") refl

-- A two-byte character.
abbrev e_acute : ℕ
e_acute = 0xe9

seeded-Lands_example :
    Lands
      (perform_all (go_left ∷ go_back ∷ insert_char 120 ∷ []) (seeded (97 ∷ 98 ∷ e_acute ∷ [])))
      (120 ∷ 97 ∷ [], e_acute ∷ [])
seeded-Lands_example =
    seeded-Lands (97 ∷ 98 ∷ e_acute ∷ []) (go_left ∷ go_back ∷ insert_char 120 ∷ [])

abbrev two_frames : List (ℕ × List ℕ)
two_frames = (kind_control, 1 ∷ 2 ∷ []) ∷ (kind_screen, []) ∷ []

write_all-read_many_example :
    (bytes : List ℕ) × (write_all two_frames [] ≡ done ([] ++ bytes))
    × (read_many 2 (bytes ++ 9 ∷ []) ≡ done (two_frames, 9 ∷ []))
write_all-read_many_example =
    write_all-read_many two_frames [] (9 ∷ []) (omega arith, (omega arith, tt))
