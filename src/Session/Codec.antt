-- ===== src/Session/Codec.antt =====
-- src/session.rs: a recipe as JSON, `dirs_json`, `to_json` and `fingerprint_json`, and its reader
-- `from_json`. An error of the reader is the place and the reason that its message names.
use fleetcom.Common.{
  ℕ, ◌+◌, Bool, true, false, not, ◌&&◌, Option, none, some, List, [], ◌∷◌, ◌++◌, map, ltb, leb,
  is_none, if◌then◌else◌,
}
use fleetcom.Text.{Text, text, text_eq}
use fleetcom.Protocol.Wire.{Jzon, object, opt_str, bool_flag, opt_str_field, flag_field}
use fleetcom.Harness.{registered, is_uuid}
use fleetcom.Session.{EntryKind, literal, managed, SessionEntry, SessionConfig, text_lt}

-- `FORMAT_VERSION`.
abbrev pub format_version : ℕ
format_version = 2

-- An entry's place: its directory, and its index in there.
abbrev pub Place : Type 0
Place = Text × ℕ

-- The messages of `InvalidData`.
pub data Invalid : Type 0 where
  not_json not_an_object unread_version name_not_text : Invalid
  newer_version : ℕ → Invalid
  not_an_array : Text → Invalid
  not_an_entry both_keys unknown_agent not_a_session_id : Place → Invalid
  wrong_field : Place → Text → Invalid
  second_flagship : Place → Place → Invalid

pub data Checked (A : Type 0) : Type 0 where
  ok : A → Checked A
  invalid : Invalid → Checked A

infixl 5 ◌>>=◌
abbrev pub ◌>>=◌ : {A B : Type 0} → Checked A → (A → Checked B) → Checked B
ok a >>= f = f a
invalid e >>= f = invalid e

-- `ok_or_else`.
abbrev pub or_invalid : {A : Type 0} → Invalid → Option A → Checked A
or_invalid e none = invalid e
or_invalid e (some a) = ok a

-- `cfg.insert(dir, entries)` on the ordered map.
unfoldable pub insert_dir : Text → List SessionEntry → SessionConfig → SessionConfig
insert_dir dir es [] = (dir, es) ∷ []
insert_dir dir es ((k, old) ∷ rest) =
    let later = insert_dir dir es rest in
    if text_eq k dir
    then (k, es) ∷ rest
    else if text_lt dir k
    then (dir, es) ∷ (k, old) ∷ rest
    else (k, old) ∷ later

-- A live literal with no label and no mark.
abbrev pub is_plain : SessionEntry → Bool
is_plain e =
    is_none e.group && (is_none e.name && (not e.tagged && (not e.flagship && not e.stopped)))

-- The test on `version`.
abbrev pub in_range : Option ℕ → Checked (Unit {0})
in_range none = invalid unread_version
in_range (some n) =
    if leb 1 n && leb n format_version
    then ok tt
    else if ltb format_version n
    then invalid (newer_version n)
    else invalid unread_version

-- A resume id is a strict UUID.
abbrev pub checked_resume : Place → Option Text → Checked (Option Text)
checked_resume at none = ok none
checked_resume at (some id) = if is_uuid id then ok (some id) else invalid (not_a_session_id at)

abbrev pub plain_entry : Text → SessionEntry
plain_entry cmd = record {
  kind = literal cmd;
  group = none;
  name = none;
  tagged = false;
  flagship = false;
  stopped = false;
}

-- The first marked entry is kept for the message about a second one.
abbrev pub claim_flag : Place → Option Place → Bool → Checked (Option Place)
claim_flag at first false = ok first
claim_flag at none true = ok (some at)
claim_flag at (some first) true = invalid (second_flagship at first)

module _ {V : Type 0} (j : Jzon V) where
  abbrev pub kind_fields : EntryKind → List (Text × V)
  kind_fields (literal cmd) = (text "cmd", j.string cmd) ∷ []
  kind_fields (managed agent resume) =
      (text "agent", j.string agent) ∷ opt_str_field j (text "resume") resume

  abbrev pub label_fields : SessionEntry → List (Text × V)
  label_fields e =
      opt_str_field j (text "group") e.group
      ++ (opt_str_field j (text "name") e.name
          ++ (flag_field j (text "tagged") e.tagged
              ++ (flag_field j (text "flagship") e.flagship
                  ++ flag_field j (text "stopped") e.stopped)))

  abbrev pub entry_fields : SessionEntry → List (Text × V)
  entry_fields e = kind_fields e.kind ++ label_fields e

  abbrev pub of_kind : EntryKind → SessionEntry → V
  of_kind (literal cmd) e = if is_plain e then j.string cmd else object j (entry_fields e)
  of_kind (managed agent resume) e = object j (entry_fields e)

  unfoldable pub entry_json : SessionEntry → V
  entry_json e = of_kind e.kind e

  abbrev pub dir_field : Text × List SessionEntry → Text × V
  dir_field (dir, es) = (dir, j.array (map entry_json es))

  unfoldable pub dirs_json : SessionConfig → V
  dirs_json cfg = object j (map dir_field cfg)

  abbrev pub recipe_fields : Text → SessionConfig → List (Text × V)
  recipe_fields name cfg =
      (text "version", j.number format_version)
      ∷ (text "name", j.string name)
      ∷ (text "dirs", dirs_json cfg)
      ∷ []

  unfoldable pub to_json : Text → SessionConfig → Text
  to_json name cfg = j.pretty (object j (recipe_fields name cfg))

  unfoldable pub fingerprint_json : SessionConfig → List ℕ
  fingerprint_json cfg = j.dump (dirs_json cfg)

  unfoldable pub check_version : V → Checked (Unit {0})
  check_version v =
      if j.has_key v (text "version") then in_range (j.as_u64 (j.get v (text "version"))) else ok tt

  -- The stored name, the object of directories, and whether the file is flat.
  unfoldable pub shape_of : V → Checked (Option Text × V × Bool)
  shape_of v =
      if j.is_object (j.get v (text "dirs"))
      then (do
        name ← or_invalid name_not_text (opt_str j (j.get v (text "name")))
        ok (name, j.get v (text "dirs"), false))
      else ok (none, v, true)

  abbrev pub label : Place → V → Text → Checked (Option Text)
  label at m k = or_invalid (wrong_field at k) (opt_str j (j.get m k))

  abbrev pub mark : Place → V → Text → Checked Bool
  mark at m k = or_invalid (wrong_field at k) (bool_flag j (j.get m k))

  unfoldable pub managed_kind : Place → V → Checked EntryKind
  managed_kind at m = if j.has_key m (text "cmd") then invalid (both_keys at) else (do
    agent ← or_invalid (wrong_field at (text "agent")) (j.as_str (j.get m (text "agent")))
    known ← or_invalid (unknown_agent at) (registered agent)
    resume ← label at m (text "resume")
    checked ← checked_resume at resume
    ok (managed agent checked))

  unfoldable pub literal_kind : Place → V → Checked EntryKind
  literal_kind at m = do
    cmd ← or_invalid (wrong_field at (text "cmd")) (j.as_str (j.get m (text "cmd")))
    ok (literal cmd)

  unfoldable pub kind_of : Place → V → Checked EntryKind
  kind_of at m = if j.has_key m (text "agent") then managed_kind at m else literal_kind at m

  unfoldable pub object_entry : Place → V → Checked SessionEntry
  object_entry at m = do
    kind ← kind_of at m
    group ← label at m (text "group")
    name ← label at m (text "name")
    tagged ← mark at m (text "tagged")
    flagship ← mark at m (text "flagship")
    stopped ← mark at m (text "stopped")
    ok (record {
      kind = kind;
      group = group;
      name = name;
      tagged = tagged;
      flagship = flagship;
      stopped = stopped;
    })

  abbrev pub member_entry : Place → V → Option Text → Checked SessionEntry
  member_entry at m (some cmd) = ok (plain_entry cmd)
  member_entry at m none = if j.is_object m then object_entry at m else invalid (not_an_entry at)

  unfoldable pub entry_of : Place → V → Checked SessionEntry
  entry_of at m = member_entry at m (j.as_str m)

  unfoldable pub entries_of :
      Text → ℕ → Option Place → List V → Checked (List SessionEntry × Option Place)
  entries_of dir i first [] = ok ([], first)
  entries_of dir i first (m ∷ ms) = do
    e ← entry_of (dir, i + 1) m
    now ← claim_flag (dir, i + 1) first e.flagship
    rest ← entries_of dir (i + 1) now ms
    ok (e ∷ rest.0, rest.1)

  unfoldable pub dirs_of :
      Bool → Option Place → List (Text × V) → SessionConfig → Checked SessionConfig
  dirs_of flat first [] cfg = ok cfg
  dirs_of flat first ((dir, val) ∷ rest) cfg =
      let skipped = dirs_of flat first rest cfg in
      let listed = (do
        es ← entries_of dir 0 first (j.members val)
        dirs_of flat es.1 rest (insert_dir dir es.0 cfg)) in
      if flat && text_eq dir (text "version")
      then skipped
      else if j.is_array val
      then listed
      else invalid (not_an_array dir)

  unfoldable pub recipe_of : V → Checked (Option Text × SessionConfig)
  recipe_of v =
      if j.is_object v
      then (do
        _ ← check_version v
        shape ← shape_of v
        cfg ← dirs_of shape.2 none (j.entries shape.1) []
        ok (shape.0, cfg))
      else invalid not_an_object

  unfoldable pub from_json : Text → Checked (Option Text × SessionConfig)
  from_json content = do v ← or_invalid not_json (j.parse_text content); recipe_of v

  -- `stored_name`: the name of a wrapped file, whatever its version and its body.
  abbrev pub recorded_name : Option V → Option Text
  recorded_name none = none
  recorded_name (some v) =
      if j.is_object (j.get v (text "dirs")) then j.as_str (j.get v (text "name")) else none

  unfoldable pub stored_name : Text → Option Text
  stored_name content = recorded_name (j.parse_text content)
