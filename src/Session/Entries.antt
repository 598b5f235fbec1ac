-- ===== src/Session/Entries.antt =====
-- An entry of a recipe is read back as it was written: src/session.rs, `dirs_json` and `from_json`.
use fleetcom.Common.{
  ◌≡◌, refl, Bool, true, false, ◌||◌, Option, none, some, List, [], ◌∷◌, ◌++◌, arith, Bool-cases,
  inl, inr, if◌then◌else◌, is_some, ap, ◌∙◌,
}
use fleetcom.Text.{Text, text, text_eq}
use fleetcom.Protocol.Wire.{
  Jzon, find, has, object, opt_str_field, flag_field, has_key-object, is_object-object,
}
use fleetcom.Protocol.Fields.{
  find-append, find-opt_str_field_other, find-flag_field_other, str_field, opt_str_read, flag_read,
}
use fleetcom.Harness.{Agent, registered}
use fleetcom.Session.{EntryKind, literal, managed, SessionEntry}
use fleetcom.Session.Safety.{IsUuid, KindValid, EntryValid}
use fleetcom.Session.Codec.{
  Place, Checked, ok, ◌>>=◌, or_invalid, is_plain, kind_fields, label_fields, entry_fields,
  entry_json, of_kind, checked_resume, managed_kind, literal_kind, kind_of, plain_entry,
  object_entry, member_entry, entry_of, wrong_field, unknown_agent,
}

-- One line of a `do` block that goes on.
pub ok_step :
    {A B : Type 0} {m : Checked A} {a : A} (f : A → Checked B) {r : Checked B}
    → m ≡ ok a
    → f a ≡ r
    → (m >>= f) ≡ r
ok_step f e h = ap (λ m. m >>= f) e ∙ h

has-append :
    {V : Type 0} (k : Text) (xs ys : List (Text × V)) (d : Bool)
    → has k (xs ++ ys) d ≡ has k ys (has k xs d)
has-append k [] ys d = refl
has-append k ((i, v) ∷ xs) ys d = has-append k xs ys (text_eq i k || d)

-- A recipe's plain entry is its command and nothing else.
plain_back :
    (cmd : Text) (e : SessionEntry) → e.kind ≡ literal cmd → is_plain e ≡ true → plain_entry cmd ≡ e
plain_back cmd e k p = ground arith

checked_resume-IsUuid_self : (at : Place) (o : Option Text) → IsUuid o → checked_resume at o ≡ ok o
checked_resume-IsUuid_self at none h = refl
checked_resume-IsUuid_self at (some id) h = rw h refl

known_agent :
    (at : Place) (word : Text)
    → is_some (registered word) ≡ true
    → (a : Agent) × (or_invalid (unknown_agent at) (registered word) ≡ ok a)
known_agent at word h = by_registered (registered word) h
  where
    by_registered :
        (o : Option Agent)
        → is_some o ≡ true
        → (a : Agent) × (or_invalid (unknown_agent at) o ≡ ok a)
    by_registered none e = cc
    by_registered (some a) e = (a, refl)

module _ {V : Type 0} (j : Jzon V) where
  -- Whether an optional field has a name.
  has-opt_str_field_other :
      (k name : Text) (o : Option Text) (d : Bool)
      → text_eq name k ≡ false
      → has k (opt_str_field j name o) d ≡ d
  has-opt_str_field_other k name none d e = refl
  has-opt_str_field_other k name (some s) d e = rw e refl

  has-flag_field_other :
      (k name : Text) (b : Bool) (d : Bool)
      → text_eq name k ≡ false
      → has k (flag_field j name b) d ≡ d
  has-flag_field_other k name true d e = rw e refl
  has-flag_field_other k name false d e = refl

  has-label_fields_other :
      (k : Text) (e : SessionEntry) (d : Bool)
      → text_eq (text "group") k ≡ false
      → text_eq (text "name") k ≡ false
      → text_eq (text "tagged") k ≡ false
      → text_eq (text "flagship") k ≡ false
      → text_eq (text "stopped") k ≡ false
      → has k (label_fields j e) d ≡ d
  has-label_fields_other k e d g n t f s =
      has-append k (opt_str_field j (text "group") e.group) _ d
      ∙ has-append k (opt_str_field j (text "name") e.name) _ _
      ∙ has-append k (flag_field j (text "tagged") e.tagged) _ _
      ∙ has-append k (flag_field j (text "flagship") e.flagship) _ _
      ∙ has-flag_field_other k (text "stopped") e.stopped _ s
      ∙ has-flag_field_other k (text "flagship") e.flagship _ f
      ∙ has-flag_field_other k (text "tagged") e.tagged _ t
      ∙ has-opt_str_field_other k (text "name") e.name _ n
      ∙ has-opt_str_field_other k (text "group") e.group d g

  find-label_fields :
      (k : Text) (e : SessionEntry) (d : V)
      → find k (label_fields j e) d
        ≡ find k (flag_field j (text "stopped") e.stopped) (
            find k (flag_field j (text "flagship") e.flagship) (
              find k (flag_field j (text "tagged") e.tagged) (
                find k
                  (opt_str_field j (text "name") e.name)
                  (find k (opt_str_field j (text "group") e.group) d))))
  find-label_fields k e d =
      find-append k (opt_str_field j (text "group") e.group) _ d
      ∙ find-append k (opt_str_field j (text "name") e.name) _ _
      ∙ find-append k (flag_field j (text "tagged") e.tagged) _ _
      ∙ find-append k (flag_field j (text "flagship") e.flagship) _ _

  find-label_fields_other :
      (k : Text) (e : SessionEntry) (d : V)
      → text_eq (text "group") k ≡ false
      → text_eq (text "name") k ≡ false
      → text_eq (text "tagged") k ≡ false
      → text_eq (text "flagship") k ≡ false
      → text_eq (text "stopped") k ≡ false
      → find k (label_fields j e) d ≡ d
  find-label_fields_other k e d g n t f s =
      find-label_fields k e d
      ∙ find-flag_field_other j k (text "stopped") e.stopped _ s
      ∙ find-flag_field_other j k (text "flagship") e.flagship _ f
      ∙ find-flag_field_other j k (text "tagged") e.tagged _ t
      ∙ find-opt_str_field_other j k (text "name") e.name _ n
      ∙ find-opt_str_field_other j k (text "group") e.group d g

  -- A label's name is no field of the kind.
  find-kind_fields_other :
      (k : Text) (kind : EntryKind) (d : V)
      → text_eq (text "cmd") k ≡ false
      → text_eq (text "agent") k ≡ false
      → text_eq (text "resume") k ≡ false
      → find k (kind_fields j kind) d ≡ d
  find-kind_fields_other k (literal cmd) d c a r = rw c refl
  find-kind_fields_other k (managed agent resume) d c a r =
      find-opt_str_field_other j k (text "resume") resume _ r
      ∙ ap (λ b. if b then j.string agent else d) a

  group_back :
      (e : SessionEntry)
      → find (text "group") (entry_fields j e) j.null
        ≡ find (text "group") (opt_str_field j (text "group") e.group) j.null
  unfolding text text_eq
  group_back e =
      find-append (text "group") (kind_fields j e.kind) (label_fields j e) j.null
      ∙ find-label_fields (text "group") e _
      ∙ find-flag_field_other j (text "group") (text "stopped") e.stopped _ refl
      ∙ find-flag_field_other j (text "group") (text "flagship") e.flagship _ refl
      ∙ find-flag_field_other j (text "group") (text "tagged") e.tagged _ refl
      ∙ find-opt_str_field_other j (text "group") (text "name") e.name _ refl
      ∙ ap (find (text "group") (opt_str_field j (text "group") e.group))
          (find-kind_fields_other (text "group") e.kind j.null refl refl refl)

  name_back :
      (e : SessionEntry)
      → find (text "name") (entry_fields j e) j.null
        ≡ find (text "name") (opt_str_field j (text "name") e.name) j.null
  unfolding text text_eq
  name_back e =
      find-append (text "name") (kind_fields j e.kind) (label_fields j e) j.null
      ∙ find-label_fields (text "name") e _
      ∙ find-flag_field_other j (text "name") (text "stopped") e.stopped _ refl
      ∙ find-flag_field_other j (text "name") (text "flagship") e.flagship _ refl
      ∙ find-flag_field_other j (text "name") (text "tagged") e.tagged _ refl
      ∙ ap (find (text "name") (opt_str_field j (text "name") e.name)) (
          find-opt_str_field_other j (text "name") (text "group") e.group _ refl
          ∙ find-kind_fields_other (text "name") e.kind j.null refl refl refl)

  tagged_back :
      (e : SessionEntry)
      → find (text "tagged") (entry_fields j e) j.null
        ≡ find (text "tagged") (flag_field j (text "tagged") e.tagged) j.null
  unfolding text text_eq
  tagged_back e =
      find-append (text "tagged") (kind_fields j e.kind) (label_fields j e) j.null
      ∙ find-label_fields (text "tagged") e _
      ∙ find-flag_field_other j (text "tagged") (text "stopped") e.stopped _ refl
      ∙ find-flag_field_other j (text "tagged") (text "flagship") e.flagship _ refl
      ∙ ap (find (text "tagged") (flag_field j (text "tagged") e.tagged)) (
          find-opt_str_field_other j (text "tagged") (text "name") e.name _ refl
          ∙ find-opt_str_field_other j (text "tagged") (text "group") e.group _ refl
          ∙ find-kind_fields_other (text "tagged") e.kind j.null refl refl refl)

  flagship_back :
      (e : SessionEntry)
      → find (text "flagship") (entry_fields j e) j.null
        ≡ find (text "flagship") (flag_field j (text "flagship") e.flagship) j.null
  unfolding text text_eq
  flagship_back e =
      find-append (text "flagship") (kind_fields j e.kind) (label_fields j e) j.null
      ∙ find-label_fields (text "flagship") e _
      ∙ find-flag_field_other j (text "flagship") (text "stopped") e.stopped _ refl
      ∙ ap (find (text "flagship") (flag_field j (text "flagship") e.flagship)) (
          find-flag_field_other j (text "flagship") (text "tagged") e.tagged _ refl
          ∙ find-opt_str_field_other j (text "flagship") (text "name") e.name _ refl
          ∙ find-opt_str_field_other j (text "flagship") (text "group") e.group _ refl
          ∙ find-kind_fields_other (text "flagship") e.kind j.null refl refl refl)

  stopped_back :
      (e : SessionEntry)
      → find (text "stopped") (entry_fields j e) j.null
        ≡ find (text "stopped") (flag_field j (text "stopped") e.stopped) j.null
  unfolding text text_eq
  stopped_back e =
      find-append (text "stopped") (kind_fields j e.kind) (label_fields j e) j.null
      ∙ find-label_fields (text "stopped") e _
      ∙ ap (find (text "stopped") (flag_field j (text "stopped") e.stopped)) (
          find-flag_field_other j (text "stopped") (text "flagship") e.flagship _ refl
          ∙ find-flag_field_other j (text "stopped") (text "tagged") e.tagged _ refl
          ∙ find-opt_str_field_other j (text "stopped") (text "name") e.name _ refl
          ∙ find-opt_str_field_other j (text "stopped") (text "group") e.group _ refl
          ∙ find-kind_fields_other (text "stopped") e.kind j.null refl refl refl)

  literal_kind-entry :
      (at : Place) (cmd : Text) (e : SessionEntry)
      → e.kind ≡ literal cmd
      → kind_of j at (object j (entry_fields j e)) ≡ ok (literal cmd)
  unfolding kind_of literal_kind text text_eq
  literal_kind-entry at cmd e h =
      let fs = kind_fields j (literal cmd) ++ label_fields j e in
      let no_agent : j.has_key (object j fs) (text "agent") ≡ false =
        has_key-object j (text "agent") fs
        ∙ has-label_fields_other (text "agent") e false refl refl refl refl refl in
      rw h (
        rw no_agent (
          ok_step _
            (ap (or_invalid (wrong_field at (text "cmd"))) (
              str_field j fs (text "cmd") cmd
                (find-label_fields_other (text "cmd") e (j.string cmd) refl refl refl refl refl)))
            refl))

  resume_back :
      (agent : Text) (resume : Option Text) (e : SessionEntry)
      → find (text "resume") (kind_fields j (managed agent resume) ++ label_fields j e) j.null
        ≡ find (text "resume") (opt_str_field j (text "resume") resume) j.null
  unfolding text text_eq
  resume_back agent resume e =
      find-append (text "resume") (kind_fields j (managed agent resume)) (label_fields j e) j.null
      ∙ find-label_fields_other (text "resume") e _ refl refl refl refl refl

  managed_kind-entry :
      (at : Place) (agent : Text) (resume : Option Text) (e : SessionEntry)
      → e.kind ≡ managed agent resume
      → KindValid (managed agent resume)
      → kind_of j at (object j (entry_fields j e)) ≡ ok (managed agent resume)
  unfolding kind_of managed_kind text text_eq
  managed_kind-entry at agent resume e h v =
      let fs = kind_fields j (managed agent resume) ++ label_fields j e in
      let is_agent : j.has_key (object j fs) (text "agent") ≡ true =
        has_key-object j (text "agent") fs
        ∙ has-append (text "agent") (kind_fields j (managed agent resume)) (label_fields j e) false
        ∙ has-label_fields_other (text "agent") e _ refl refl refl refl refl
        ∙ has-opt_str_field_other (text "agent") (text "resume") resume true refl in
      let no_cmd : j.has_key (object j fs) (text "cmd") ≡ false =
        has_key-object j (text "cmd") fs
        ∙ has-append (text "cmd") (kind_fields j (managed agent resume)) (label_fields j e) false
        ∙ has-label_fields_other (text "cmd") e _ refl refl refl refl refl
        ∙ has-opt_str_field_other (text "cmd") (text "resume") resume false refl in
      let word : find (text "agent") fs j.null ≡ j.string agent =
        find-append (text "agent") (kind_fields j (managed agent resume)) (label_fields j e) j.null
        ∙ find-label_fields_other (text "agent") e _ refl refl refl refl refl
        ∙ find-opt_str_field_other j (text "agent") (text "resume") resume (j.string agent) refl in
      let (a, known) = known_agent at agent v.0 in
      rw h (
        rw is_agent (
          rw no_cmd (
            ok_step _
              (ap (or_invalid (wrong_field at (text "agent")))
                (str_field j fs (text "agent") agent word))
              (ok_step _ known (
                ok_step _
                  (ap (or_invalid (wrong_field at (text "resume")))
                    (opt_str_read j fs (text "resume") resume (resume_back agent resume e)))
                  (ok_step _ (checked_resume-IsUuid_self at resume v.1) refl))))))

  kind_of-entry :
      (at : Place) (e : SessionEntry) (kind : EntryKind)
      → e.kind ≡ kind
      → KindValid kind
      → kind_of j at (object j (entry_fields j e)) ≡ ok kind
  kind_of-entry at e (literal cmd) h v = literal_kind-entry at cmd e h
  kind_of-entry at e (managed agent resume) h v = managed_kind-entry at agent resume e h v

  object_entry-entry_fields :
      (at : Place) (e : SessionEntry)
      → EntryValid e
      → object_entry j at (object j (entry_fields j e)) ≡ ok e
  unfolding object_entry text text_eq
  object_entry-entry_fields at e v =
      let fs = entry_fields j e in
      ok_step _ (kind_of-entry at e e.kind refl v) (
        ok_step _ (ap (or_invalid _) (opt_str_read j fs (text "group") e.group (group_back e))) (
          ok_step _ (ap (or_invalid _) (opt_str_read j fs (text "name") e.name (name_back e))) (
            ok_step _ (ap (or_invalid _) (flag_read j fs (text "tagged") e.tagged (tagged_back e)))
              (ok_step _
                (ap (or_invalid _) (flag_read j fs (text "flagship") e.flagship (flagship_back e)))
                (ok_step _
                  (ap (or_invalid _) (flag_read j fs (text "stopped") e.stopped (stopped_back e)))
                  refl)))))

  member_object :
      (at : Place) (e : SessionEntry)
      → EntryValid e
      → entry_of j at (object j (entry_fields j e)) ≡ ok e
  unfolding entry_of
  member_object at e v =
      rw (j.as_str_of_object (object j (entry_fields j e)) (is_object-object j (entry_fields j e)))
        (rw (is_object-object j (entry_fields j e)) (object_entry-entry_fields at e v))

  -- Every valid entry is read back.
  pub entry_of-entry_json :
      (at : Place) (e : SessionEntry) → EntryValid e → entry_of j at (entry_json j e) ≡ ok e
  unfolding entry_json entry_of
  entry_of-entry_json at e v = by_kind e.kind refl
    where
      by_kind : (kind : EntryKind) → e.kind ≡ kind → entry_of j at (of_kind j kind e) ≡ ok e
      by_kind (managed agent resume) h = member_object at e v
      by_kind (literal cmd) h = elim (Bool-cases (is_plain e)) [
        | inl plain ↦ rw plain (
            ap (λ o. member_entry j at (j.string cmd) o) (j.as_str-string cmd)
            ∙ ap ok (plain_back cmd e h plain))
        | inr adorned ↦ rw adorned (member_object at e v)
      ]
