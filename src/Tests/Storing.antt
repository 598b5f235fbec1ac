-- ===== src/Tests/Storing.antt =====
-- The theorems on the names of recipe files and on pruning at concrete directories: src/session.rs.
use fleetcom.Common.{
  ℕ, ◌≤◌, ◌≡◌, ◌↔◌, refl, true, false, Bool, List, [], ◌∷◌, ◌++◌, map, All, keep, ◌==◌,
  if◌then◌else◌, none, some,
}
use fleetcom.Text.{Text, text, byte_len, len_utf8, is_control, trim, is_whitespace, text_eq}
use fleetcom.Text.Decimal.{value}
use fleetcom.Session.{text_lt}
use fleetcom.Session.Store.{
  max_stem_bytes, replacement, sanitize, sanitize_from, contains, valid_recovery_stem, stem_pid,
  prunable, prune_recovery, surplus, sort, insert_name, has_json_extension, file_stem, rsplit_once,
  stem_names_live_writer, positive_pid, is_ascii_digit,
}
use fleetcom.Session.Store.Snapshots.{Old}
use fleetcom.Session.Store.Names.{IsFileChar, IsFull, sanitize-IsFull}
use fleetcom.Session.Store.Prune.{Leaves, prune_recovery-Leaves}

sanitize-IsFull_example :
    (rest : Text) × (map replacement (trim (text " a/b:c ")) ≡ sanitize (text " a/b:c ") ++ rest)
    × (byte_len (sanitize (text " a/b:c ")) ≤ max_stem_bytes)
    × IsFull (byte_len (sanitize (text " a/b:c "))) rest
    × All IsFileChar (sanitize (text " a/b:c "))
sanitize-IsFull_example = sanitize-IsFull (text " a/b:c ")

sanitize_slashes : sanitize (text " a/b:c ") ≡ text "a_b_c"
unfolding sanitize sanitize_from replacement contains is_control trim is_whitespace text len_utf8
sanitize_slashes = refl

-- The writer 7 lives.
abbrev gone : ℕ → Bool
gone pid = if pid == 7 then false else true

-- Twelve snapshots, the newest of a live writer, and two files that are none.
abbrev snapshots : List Text
snapshots =
    text "20260101-000011-5.json"
    ∷ text "20260101-000001-5.json"
    ∷ text "20260101-000010-5.json"
    ∷ text "20260101-000002-5.json"
    ∷ text "20260101-000009-5.json"
    ∷ text "20260101-000003-5.json"
    ∷ text "20260101-000008-5.json"
    ∷ text "20260101-000004-5.json"
    ∷ text "20260101-000007-5.json"
    ∷ text "20260101-000005-5.json"
    ∷ text "20260101-000006-5.json"
    ∷ text "20260101-000000-7.json"
    ∷ text ".x.json.tmp"
    ∷ text ".json"
    ∷ []

prune_recovery-Leaves_example :
    ((f : Text)
      → (prunable gone (text "20260101-000011-5") f ≡ true) ↔ Old gone (text "20260101-000011-5") f)
    × All
        (Old gone (text "20260101-000011-5"))
        (prune_recovery gone (text "20260101-000011-5") snapshots)
    × Leaves
        (prune_recovery gone (text "20260101-000011-5") snapshots)
        (keep (prunable gone (text "20260101-000011-5")) snapshots)
prune_recovery-Leaves_example = prune_recovery-Leaves gone (text "20260101-000011-5") snapshots

-- Ten of them may be removed, and the oldest one is.
prune_recovery_oldest :
    prune_recovery gone (text "20260101-000011-5") snapshots ≡ text "20260101-000001-5.json" ∷ []
unfolding prune_recovery surplus sort insert_name prunable has_json_extension file_stem rsplit_once
    stem_names_live_writer stem_pid positive_pid is_ascii_digit value text text_eq text_lt
prune_recovery_oldest = refl

recovery_stem_checks :
    (valid_recovery_stem (text "../x") ≡ false)
    × (valid_recovery_stem (text "20260101-000001-5") ≡ true)
    × (stem_pid (text "20260101-000001-5") ≡ some 5)
    × (stem_pid (text "20260101-000001-0") ≡ none)
unfolding valid_recovery_stem stem_pid positive_pid rsplit_once is_ascii_digit value text contains
recovery_stem_checks = (refl, refl, refl, refl)
