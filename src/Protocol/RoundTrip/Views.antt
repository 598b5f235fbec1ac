-- ===== src/Protocol/RoundTrip/Views.antt =====
-- A task's row and a recovery entry are read back: src/protocol.rs.
use fleetcom.Common.{
  ◌<◌, ◌^◌, ◌≡◌, refl, ap, ◌∙◌, false, none, some, List, [], ◌∷◌, map, arith, All,
}
use fleetcom.Text.{Text, text, text_eq}
use fleetcom.Protocol.{TaskView, RecoveryEntry}
use fleetcom.Protocol.Labels.{
  life_label, life_from_label-life_label_self, source_label, source_from_label-source_label_self,
}
use fleetcom.Protocol.Wire.{
  Jzon, Millis, whole_ms, find, object, opt_str_field, opt_ms_field, os_b64,
}
use fleetcom.Protocol.Fields.{
  find-append, find-opt_str_field_other, find-opt_ms_field_other, do_step, str_field, os_field,
  u64_field, num_field, bool_field, opt_str_read, opt_ms_read,
}
use fleetcom.Protocol.Encode.{view_fields, recovery_fields}
use fleetcom.Protocol.Decode.Events.{view_of, views_of, recovery_of, recovery_vec}

-- The ages of a row fit the wire: the whole milliseconds are a `u64`.
abbrev pub ViewFits : TaskView → Type 0
ViewFits tv =
    (tv.id < 2 ^ 64) × Millis tv.started_ago × Millis tv.quiet_ago × Millis tv.finished_ago

abbrev pub EntryFits : RecoveryEntry → Type 0
EntryFits r = (r.tasks < 2 ^ 32) × (r.age_secs < 2 ^ 64)

-- The matcher's rule stays with the core, and of an age whole milliseconds are sent.
abbrev pub sent_view : TaskView → TaskView
sent_view tv = record tv {
  preview = record tv.preview { rule = none };
  started_ago = whole_ms tv.started_ago;
  quiet_ago = whole_ms tv.quiet_ago;
  finished_ago = whole_ms tv.finished_ago;
}

module _ {V : Type 0} (j : Jzon V) where
  abbrev head_fields : TaskView → List (Text × V)
  head_fields tv =
      (text "id", j.number tv.id)
      ∷ (text "command", j.string tv.command)
      ∷ (text "cwd", os_b64 j tv.cwd)
      ∷ (text "tagged", j.boolean tv.tagged)
      ∷ (text "flagship", j.boolean tv.flagship)
      ∷ (text "managed", j.boolean tv.managed)
      ∷ []

  abbrev mid_fields : TaskView → List (Text × V)
  mid_fields tv =
      (text "life", j.string (life_label tv.lifecycle))
      ∷ (text "preview", j.string tv.preview.text)
      ∷ (text "src", j.string (source_label tv.preview.source))
      ∷ (text "frozen", j.boolean tv.preview.frozen)
      ∷ (text "working", j.boolean tv.preview.working)
      ∷ []

  abbrev group_in : TaskView → Text → V → V
  group_in tv k d = find k (opt_str_field j (text "group") tv.group) d

  abbrev name_in : TaskView → Text → V → V
  name_in tv k d = find k (opt_str_field j (text "name") tv.name) d

  abbrev started_in : TaskView → Text → V → V
  started_in tv k d = find k (opt_ms_field j (text "started_ms") tv.started_ago) d

  abbrev quiet_in : TaskView → Text → V → V
  quiet_in tv k d = find k (opt_ms_field j (text "quiet_ms") tv.quiet_ago) d

  abbrev finished_in : TaskView → Text → V → V
  finished_in tv k d = find k (opt_ms_field j (text "finished_ms") tv.finished_ago) d

  -- The fields in the order in which they are written.
  find-view :
      (k : Text) (tv : TaskView)
      → find k (view_fields j tv) j.null
        ≡ finished_in tv k (
            quiet_in tv k (
              started_in tv k (
                find k
                  (mid_fields tv)
                  (name_in tv k (group_in tv k (find k (head_fields tv) j.null))))))
  find-view k tv =
      find-append k (opt_str_field j (text "group") tv.group) _ (find k (head_fields tv) j.null)
      ∙ find-append k (opt_str_field j (text "name") tv.name) _ _
      ∙ find-append k (opt_ms_field j (text "started_ms") tv.started_ago) _ _
      ∙ find-append k (opt_ms_field j (text "quiet_ms") tv.quiet_ago) _ _

  -- What is written between two places leaves a field of another name alone.
  skip_ages :
      (k : Text) (tv : TaskView) (d : V)
      → text_eq (text "started_ms") k ≡ false
      → text_eq (text "quiet_ms") k ≡ false
      → text_eq (text "finished_ms") k ≡ false
      → finished_in tv k (quiet_in tv k (started_in tv k d)) ≡ d
  skip_ages k tv d s q f =
      find-opt_ms_field_other j k (text "finished_ms") tv.finished_ago _ f
      ∙ find-opt_ms_field_other j k (text "quiet_ms") tv.quiet_ago _ q
      ∙ find-opt_ms_field_other j k (text "started_ms") tv.started_ago d s

  skip_labels :
      (k : Text) (tv : TaskView) (d : V)
      → text_eq (text "group") k ≡ false
      → text_eq (text "name") k ≡ false
      → name_in tv k (group_in tv k d) ≡ d
  skip_labels k tv d g n =
      find-opt_str_field_other j k (text "name") tv.name _ n
      ∙ find-opt_str_field_other j k (text "group") tv.group d g

  -- A field that is always written.
  always :
      (k : Text) (tv : TaskView)
      → text_eq (text "started_ms") k ≡ false
      → text_eq (text "quiet_ms") k ≡ false
      → text_eq (text "finished_ms") k ≡ false
      → text_eq (text "group") k ≡ false
      → text_eq (text "name") k ≡ false
      → find k (view_fields j tv) j.null ≡ find k (mid_fields tv) (find k (head_fields tv) j.null)
  always k tv s q f g n =
      find-view k tv ∙ skip_ages k tv _ s q f ∙ ap (find k (mid_fields tv)) (skip_labels k tv _ g n)

  group_read :
      (tv : TaskView)
      → find (text "group") (view_fields j tv) j.null ≡ group_in tv (text "group") j.null
  unfolding text text_eq
  group_read tv =
      find-view (text "group") tv
      ∙ skip_ages (text "group") tv _ refl refl refl
      ∙ find-opt_str_field_other j (text "group") (text "name") tv.name _ refl

  name_read :
      (tv : TaskView)
      → find (text "name") (view_fields j tv) j.null ≡ name_in tv (text "name") j.null
  unfolding text text_eq
  name_read tv =
      find-view (text "name") tv
      ∙ skip_ages (text "name") tv _ refl refl refl
      ∙ ap (name_in tv (text "name"))
          (find-opt_str_field_other j (text "name") (text "group") tv.group j.null refl)

  started_read :
      (tv : TaskView)
      → find (text "started_ms") (view_fields j tv) j.null
        ≡ started_in tv (text "started_ms") j.null
  unfolding text text_eq
  started_read tv =
      find-view (text "started_ms") tv
      ∙ find-opt_ms_field_other j (text "started_ms") (text "finished_ms") tv.finished_ago _ refl
      ∙ find-opt_ms_field_other j (text "started_ms") (text "quiet_ms") tv.quiet_ago _ refl
      ∙ ap (started_in tv (text "started_ms")) (skip_labels (text "started_ms") tv j.null refl refl)

  quiet_read :
      (tv : TaskView)
      → find (text "quiet_ms") (view_fields j tv) j.null ≡ quiet_in tv (text "quiet_ms") j.null
  unfolding text text_eq
  quiet_read tv =
      find-view (text "quiet_ms") tv
      ∙ find-opt_ms_field_other j (text "quiet_ms") (text "finished_ms") tv.finished_ago _ refl
      ∙ ap (quiet_in tv (text "quiet_ms")) (
          find-opt_ms_field_other j (text "quiet_ms") (text "started_ms") tv.started_ago _ refl
          ∙ skip_labels (text "quiet_ms") tv j.null refl refl)

  finished_read :
      (tv : TaskView)
      → find (text "finished_ms") (view_fields j tv) j.null
        ≡ finished_in tv (text "finished_ms") j.null
  unfolding text text_eq
  finished_read tv =
      find-view (text "finished_ms") tv
      ∙ ap (finished_in tv (text "finished_ms")) (
          find-opt_ms_field_other j (text "finished_ms") (text "quiet_ms") tv.quiet_ago _ refl
          ∙ find-opt_ms_field_other j (text "finished_ms") (text "started_ms") tv.started_ago _ refl
          ∙ skip_labels (text "finished_ms") tv j.null refl refl)

  view_of-view_fields :
      (tv : TaskView) → ViewFits tv → view_of j (object j (view_fields j tv)) ≡ some (sent_view tv)
  unfolding view_of text text_eq
  view_of-view_fields tv h =
      let fs = view_fields j tv in
      do_step _
        (u64_field j fs (text "id") tv.id (always (text "id") tv refl refl refl refl refl) h.0)
        (do_step _
          (str_field j fs (text "command") tv.command
            (always (text "command") tv refl refl refl refl refl))
          (do_step _
            (os_field j fs (text "cwd") tv.cwd (always (text "cwd") tv refl refl refl refl refl))
            (do_step _
              (bool_field j fs (text "tagged") tv.tagged
                (always (text "tagged") tv refl refl refl refl refl))
              (do_step _
                (bool_field j fs (text "flagship") tv.flagship
                  (always (text "flagship") tv refl refl refl refl refl))
                (do_step _
                  (bool_field j fs (text "managed") tv.managed
                    (always (text "managed") tv refl refl refl refl refl))
                  (do_step _ (opt_str_read j fs (text "group") tv.group (group_read tv)) (
                    do_step _ (opt_str_read j fs (text "name") tv.name (name_read tv)) (
                      do_step _
                        (str_field j fs (text "life") (life_label tv.lifecycle)
                          (always (text "life") tv refl refl refl refl refl))
                        (do_step _ (life_from_label-life_label_self tv.lifecycle) (
                          do_step _
                            (str_field j fs (text "preview") tv.preview.text
                              (always (text "preview") tv refl refl refl refl refl))
                            (do_step _
                              (str_field j fs (text "src") (source_label tv.preview.source)
                                (always (text "src") tv refl refl refl refl refl))
                              (do_step _ (source_from_label-source_label_self tv.preview.source) (
                                do_step _
                                  (bool_field j fs (text "frozen") tv.preview.frozen
                                    (always (text "frozen") tv refl refl refl refl refl))
                                  (do_step _
                                    (bool_field j fs (text "working") tv.preview.working
                                      (always (text "working") tv refl refl refl refl refl))
                                    (do_step _
                                      (opt_ms_read j fs (text "started_ms") tv.started_ago
                                        (started_read tv) h.1)
                                      (do_step _
                                        (opt_ms_read j fs (text "quiet_ms") tv.quiet_ago
                                          (quiet_read tv) h.2)
                                        (do_step _
                                          (opt_ms_read j fs (text "finished_ms") tv.finished_ago
                                            (finished_read tv) h.3)
                                          refl)))))))))))))))))

  pub views_of-views :
      (tvs : List TaskView)
      → All ViewFits tvs
      → views_of j (map (λ tv. object j (view_fields j tv)) tvs) ≡ some (map sent_view tvs)
  unfolding views_of
  views_of-views [] h = refl
  views_of-views (tv ∷ tvs) h =
      do_step _ (view_of-view_fields tv h.0) (do_step _ (views_of-views tvs h.1) refl)

  recovery_of-recovery_fields :
      (r : RecoveryEntry) → EntryFits r → recovery_of j (object j (recovery_fields j r)) ≡ some r
  unfolding recovery_of text text_eq
  recovery_of-recovery_fields r h =
      let fs = recovery_fields j r in
      do_step _ (str_field j fs (text "stem") r.stem refl) (
        do_step _ (str_field j fs (text "label") r.label refl) (
          do_step _ (num_field j fs (text "tasks") 32 r.tasks refl h.0 (omega (arith, h.0)))
            (do_step _ (u64_field j fs (text "age") r.age_secs refl h.1) refl)))

  pub recovery_vec-entries :
      (rs : List RecoveryEntry)
      → All EntryFits rs
      → recovery_vec j (map (λ r. object j (recovery_fields j r)) rs) ≡ rs
  unfolding recovery_vec
  recovery_vec-entries [] h = refl
  recovery_vec-entries (r ∷ rs) h =
      rw (recovery_of-recovery_fields r h.0) (ap (r ∷◌) (recovery_vec-entries rs h.1))
