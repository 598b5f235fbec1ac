-- ===== src/Session/Store.antt =====
-- src/session.rs: the names of recipe files, `sanitize`, and of recovery snapshots, and which snapshots
-- `prune_recovery` removes; `positive_pid` of src/task.rs. The directory is the list of its file names,
-- all of valid UTF-8; what `kill` says of a process is a parameter.
pub mod Names
pub mod Prune
pub mod Snapshots
use fleetcom.Common.{
  ℕ, zero, suc, ◌+◌, ◌-◌, ◌^◌, Bool, true, false, not, ◌&&◌, ◌||◌, Option, none, some, List, [],
  ◌∷◌, ◌++◌, ltb, leb, ◌==◌, if◌then◌else◌, length, take, keep, all,
}
use fleetcom.Text.{Text, text, text_eq, len_utf8, is_control, trim}
use fleetcom.Text.Decimal.{value}
use fleetcom.Session.{text_lt}

abbrev pub disallowed : Text
disallowed = text "*\"/\\<>:|?."

abbrev pub max_stem_bytes : ℕ
max_stem_bytes = 250

unfoldable pub contains : ℕ → Text → Bool
contains c [] = false
contains c (d ∷ ds) = (c == d) || contains c ds

unfoldable pub replacement : ℕ → ℕ
replacement c = if is_control c || contains c disallowed then b'_' else c

-- The loop of `sanitize` behind the bytes that are out already.
unfoldable pub sanitize_from : ℕ → Text → Text
sanitize_from len [] = []
sanitize_from len (c ∷ cs) =
    let d = replacement c in
    let rest = sanitize_from (len + len_utf8 d) cs in
    if ltb max_stem_bytes (len + len_utf8 d) then [] else d ∷ rest

unfoldable pub sanitize : Text → Text
sanitize name = sanitize_from 0 (trim name)

-- `str::rsplit_once` at a character: a later one is taken first.
abbrev pub split_behind : ℕ → ℕ → Text → Option (Text × Text) → Option (Text × Text)
split_behind c x xs (some (a, b)) = some (x ∷ a, b)
split_behind c x xs none = if x == c then some ([], xs) else none

unfoldable pub rsplit_once : ℕ → Text → Option (Text × Text)
rsplit_once c [] = none
rsplit_once c (x ∷ xs) = split_behind c x xs (rsplit_once c xs)

-- `Path::file_stem` and `Path::extension`: a name that begins with its only dot has no extension.
abbrev pub stem_and_extension : Text → Option (Text × Text) → Text × Option Text
stem_and_extension f none = (f, none)
stem_and_extension f (some ([], ext)) = (f, none)
stem_and_extension f (some (c ∷ cs, ext)) = (c ∷ cs, some ext)

unfoldable pub file_stem : Text → Text
file_stem f = (stem_and_extension f (rsplit_once b'.' f)).0

abbrev pub is_json : Option Text → Bool
is_json none = false
is_json (some ext) = text_eq ext (text "json")

unfoldable pub has_json_extension : Text → Bool
has_json_extension f = is_json (stem_and_extension f (rsplit_once b'.' f)).1

unfoldable pub valid_recovery_stem : Text → Bool
valid_recovery_stem [] = false
valid_recovery_stem (c ∷ cs) = all (λ d. not (contains d (text "/\\."))) (c ∷ cs)

unfoldable pub is_ascii_digit : ℕ → Bool
is_ascii_digit c = leb b'0' c && leb c b'9'

-- No digits at all are the number 0 here, which is no process id either.
unfoldable pub positive_pid : Text → Option ℕ
positive_pid field =
    if all is_ascii_digit field && (ltb 0 (value 0 field) && ltb (value 0 field) (2 ^ 31))
    then some (value 0 field)
    else none

abbrev pub pid_behind : Option (Text × Text) → Option ℕ
pid_behind none = none
pid_behind (some (front, pid)) = positive_pid pid

unfoldable pub stem_pid : Text → Option ℕ
stem_pid stem = pid_behind (rsplit_once b'-' stem)

-- `snapshots.sort()`.
unfoldable pub insert_name : Text → List Text → List Text
insert_name f [] = f ∷ []
insert_name f (g ∷ gs) =
    let later = insert_name f gs in if text_lt g f then g ∷ later else f ∷ g ∷ gs

unfoldable pub sort : List Text → List Text
sort [] = []
sort (f ∷ fs) = insert_name f (sort fs)

abbrev pub recovery_keep : ℕ
recovery_keep = 10

unfoldable pub surplus : List Text → List Text
surplus snapshots =
    if ltb (length snapshots) recovery_keep
    then []
    else take (length snapshots - (recovery_keep - 1)) (sort snapshots)

module _ (pid_is_dead : ℕ → Bool) where
  abbrev pub not_dead : Option ℕ → Bool
  not_dead none = false
  not_dead (some pid) = not (pid_is_dead pid)

  unfoldable pub stem_names_live_writer : Text → Bool
  stem_names_live_writer stem = not_dead (stem_pid stem)

  -- The three filters.
  unfoldable pub prunable : Text → Text → Bool
  prunable keep_stem f =
      has_json_extension f
      && (not (text_eq f (keep_stem ++ text ".json")) && not (stem_names_live_writer (file_stem f)))

  -- The files that `prune_recovery` removes.
  unfoldable pub prune_recovery : Text → List Text → List Text
  prune_recovery keep_stem entries = surplus (keep (prunable keep_stem) entries)
