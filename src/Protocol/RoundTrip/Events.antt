-- ===== src/Protocol/RoundTrip/Events.antt =====
-- Events and the hello of the handshake are read back: src/protocol.rs.
use fleetcom.Common.{
  ℕ, suc, ◌+◌, ◌<◌, ◌%◌, ◌^◌, ◌≡◌, refl, ap, ◌∙◌, true, Option, some, List, [], ◌∷◌, ◌++◌, map,
  arith, All, length, take_all, drop_all, length-append,
}
use fleetcom.Text.{Text, text, text_eq, utf8}
use fleetcom.Text.Utf8.{from_utf8-utf8, IsScalar}
use fleetcom.Frame.{kind_control, to_be_bytes, from_be_bytes}
use fleetcom.Protocol.{
  LaunchContext, Event, hello_ok, agents, tasks, screen, status, spawned, sessions, clipboard_copy,
  ScreenView,
}
use fleetcom.Protocol.Labels.{selector, from_selector-selector_self}
use fleetcom.Protocol.Wire.{
  Jzon, find, object, get-object, num_from, num_from-number, os_b64, os_from_b64, as_str-os_b64,
  nth,
}
use fleetcom.Protocol.Fields.{
  do_step, str_field, os_field, u64_field, num_field, bool_field, strings_field, members_field,
}
use fleetcom.Protocol.RoundTrip.Views.{
  ViewFits, EntryFits, sent_view, views_of-views, recovery_vec-entries,
}
use fleetcom.Protocol.Encode.{
  screen_fields, screen_payload, event_fields, encode_event, encode_hello, env_pairs,
  protocol_version,
}
use fleetcom.Protocol.Decode.Events.{
  slice, suffix, views_of, recovery_vec, sessions_of, clip_of, agents_of, tasks_of, status_of,
  spawned_of, event_of, screen_of, screen_frame_of, control_of, decode_event, env_of, hello_of,
  decode_hello, hello_version,
}

from-to_be_bytes_word : (n : ℕ) → n < 2 ^ 32 → from_be_bytes (to_be_bytes n) ≡ n
unfolding from_be_bytes to_be_bytes
from-to_be_bytes_word n h = omega arith

slice_prefix : (n : ℕ) (bytes : List ℕ) → slice 0 4 (to_be_bytes n ++ bytes) ≡ some (to_be_bytes n)
unfolding to_be_bytes
slice_prefix n bytes = ground arith

slice_header :
    (n : ℕ) (header rest : List ℕ)
    → slice 4 (length header) (to_be_bytes n ++ (header ++ rest)) ≡ some header
unfolding to_be_bytes
slice_header n header rest = ground (arith, length-append header rest, take_all header rest)

suffix_rest :
    (n : ℕ) (header rest : List ℕ)
    → suffix (4 + length header) (to_be_bytes n ++ (header ++ rest)) ≡ some rest
unfolding to_be_bytes
suffix_rest n header rest =
    let e : 4 + length header ≡ suc (suc (suc (suc (length header)))) = omega arith in
    rw e (ground (arith, length-append header rest, drop_all header rest))

-- What an event leaves on the wire: a task's row without the rule.
abbrev pub wired : Event → Event
wired (tasks views) = tasks (map sent_view views)
wired hello_ok = hello_ok
wired (agents names) = agents names
wired (screen sv) = screen sv
wired (status msg) = status msg
wired (spawned id) = spawned id
wired (sessions names recovery) = sessions names recovery
wired (clipboard_copy id kind copied) = clipboard_copy id kind copied

module _ {V : Type 0} (j : Jzon V) where
  abbrev pub ScreenFits : ScreenView → Type 0
  ScreenFits sv =
      (sv.id < 2 ^ 64)
      × (sv.cursor.0 < 2 ^ 16)
      × (sv.cursor.1 < 2 ^ 16)
      × (sv.scrollback < 2 ^ 64)
      × (length (j.dump (object j (screen_fields j sv))) < 2 ^ 32)

  -- The numbers of an event fit the wire, and copied text is text.
  abbrev pub EventFits : Event → Type 0
  EventFits (tasks views) = All ViewFits views
  EventFits (screen sv) = ScreenFits sv
  EventFits (spawned id) = id < 2 ^ 64
  EventFits (sessions names recovery) = All EntryFits recovery
  EventFits (clipboard_copy id kind copied) = (id < 2 ^ 64) × All IsScalar copied
  EventFits hello_ok = Unit {0}
  EventFits (agents names) = Unit {0}
  EventFits (status msg) = Unit {0}

  cursor_read :
      (sv : ScreenView)
      → j.get (object j (screen_fields j sv)) (text "cursor")
        ≡ j.array (j.number sv.cursor.0 ∷ j.number sv.cursor.1 ∷ [])
  unfolding text text_eq
  cursor_read sv = get-object j (text "cursor") (screen_fields j sv)

  at_read :
      (sv : ScreenView) (i n : ℕ)
      → nth j.null (j.number sv.cursor.0 ∷ j.number sv.cursor.1 ∷ []) i ≡ j.number n
      → n < 2 ^ 16
      → num_from j 16 (j.at (j.get (object j (screen_fields j sv)) (text "cursor")) i) ≡ some n
  at_read sv i n e h =
      ap (λ c. num_from j 16 (j.at c i)) (cursor_read sv)
      ∙ ap (num_from j 16) (j.at-array _ i ∙ e)
      ∙ num_from-number j 16 n h (omega arith)

  back_small : (n : ℕ) → n < 2 ^ 64 → j.number (n % 2 ^ 64) ≡ j.number n
  back_small n h = ap j.number (omega arith)

  screen_of-screen_fields :
      (sv : ScreenView)
      → ScreenFits sv
      → screen_of j (object j (screen_fields j sv)) sv.formatted ≡ some (screen sv)
  unfolding screen_of text text_eq
  screen_of-screen_fields sv h =
      let fs = screen_fields j sv in
      do_step _ (at_read sv 0 sv.cursor.0 refl h.1) (
        do_step _ (at_read sv 1 sv.cursor.1 refl h.2) (
          do_step _ (strings_field j fs (text "lines") sv.lines refl) (
            do_step _ (u64_field j fs (text "id") sv.id refl h.0) (
              do_step _ (bool_field j fs (text "hide") sv.hide_cursor refl) (
                do_step _ (bool_field j fs (text "mouse") sv.wants_mouse refl) (
                  do_step _ (bool_field j fs (text "alt") sv.alt_screen refl) (
                    do_step _ (bool_field j fs (text "ascr") sv.alt_scroll refl) (
                      do_step _
                        (num_field j fs (text "sb") 64 sv.scrollback (back_small sv.scrollback h.3)
                          h.3 h.3)
                        refl))))))))

  screen_frame_of-screen_payload :
      (sv : ScreenView)
      → ScreenFits sv
      → screen_frame_of j (screen_payload (j.dump (object j (screen_fields j sv))) sv.formatted)
        ≡ some (screen sv)
  unfolding screen_frame_of screen_payload
  screen_frame_of-screen_payload sv h =
      let header = j.dump (object j (screen_fields j sv)) in
      let n = length header % 2 ^ 32 in
      let payload = screen_payload header sv.formatted in
      let e : from_be_bytes (to_be_bytes n) ≡ length header =
        from-to_be_bytes_word n (omega arith) ∙ omega (arith, h.4) in
      do_step _ (slice_prefix n (header ++ sv.formatted)) (
        do_step _ (ap (λ k. slice 4 k payload) e ∙ slice_header n header sv.formatted) (
          do_step _ (ap (λ k. suffix (4 + k) payload) e ∙ suffix_rest n header sv.formatted) (
            do_step _ (j.parse-dump (object j (screen_fields j sv)))
              (screen_of-screen_fields sv h))))

  tagged_step :
      (fs : List (Text × V)) (t : Text) {r : Option Event}
      → find (text "t") fs j.null ≡ j.string t
      → event_of j t (object j fs) ≡ r
      → decode_event j kind_control (j.dump (object j fs)) ≡ r
  unfolding decode_event control_of
  tagged_step fs t e h =
      do_step _ (j.parse-dump (object j fs)) (do_step _ (str_field j fs (text "t") t e) h)

  -- Every event is read back as it was sent, but for the matcher rules, which stay with the core.
  pub decode_event-encode_event :
      (ev : Event)
      → EventFits ev
      → decode_event j (encode_event j ev).0 (encode_event j ev).1 ≡ some (wired ev)
  unfolding encode_event screen_payload decode_event event_of agents_of tasks_of status_of
      spawned_of sessions_of clip_of text text_eq
  decode_event-encode_event hello_ok h =
      tagged_step (event_fields j hello_ok) (text "hello_ok") refl refl
  decode_event-encode_event (agents names) h =
      let fs = event_fields j (agents names) in
      let listed : j.is_array (j.get (object j fs) (text "agents")) ≡ true =
        ap j.is_array (get-object j (text "agents") fs) ∙ j.is_array-array (map j.string names) in
      tagged_step fs (text "agents") refl
        (rw listed (do_step _ (strings_field j fs (text "agents") names refl) refl))
  decode_event-encode_event (tasks views) h =
      let fs = event_fields j (tasks views) in
      tagged_step fs (text "tasks") refl (
        do_step _
          (ap (views_of j) (members_field j fs (text "tasks") _ refl) ∙ views_of-views j views h)
          refl)
  decode_event-encode_event (screen sv) h = screen_frame_of-screen_payload sv h
  decode_event-encode_event (status msg) h =
      let fs = event_fields j (status msg) in
      tagged_step fs (text "status") refl (do_step _ (str_field j fs (text "msg") msg refl) refl)
  decode_event-encode_event (spawned id) h =
      let fs = event_fields j (spawned id) in
      tagged_step fs (text "spawned") refl (do_step _ (u64_field j fs (text "id") id refl h) refl)
  decode_event-encode_event (sessions names recovery) h =
      let fs = event_fields j (sessions names recovery) in
      tagged_step fs (text "sessions") refl (
        do_step _ (strings_field j fs (text "names") names refl) (
          ap (λ ms. some (sessions names (recovery_vec j ms)))
            (members_field j fs (text "recovery") _ refl)
          ∙ ap (λ rs. some (sessions names rs)) (recovery_vec-entries j recovery h)))
  decode_event-encode_event (clipboard_copy id kind copied) h =
      let fs = event_fields j (clipboard_copy id kind copied) in
      tagged_step fs (text "clip") refl (
        do_step _ (u64_field j fs (text "id") id refl h.0) (
          do_step _ (str_field j fs (text "k") (selector kind) refl) (
            do_step _ (from_selector-selector_self kind) (
              do_step _ (str_field j fs (text "text") (j.b64_encode (utf8 copied)) refl) (
                do_step _ (j.b64_decode-b64_encode (utf8 copied))
                  (do_step _ (from_utf8-utf8 copied h.1) refl))))))

  env_of-env_pairs : (env : List (Text × Text)) → env_of j (env_pairs j env) ≡ some env
  unfolding env_of
  env_of-env_pairs [] = refl
  env_of-env_pairs ((k, v) ∷ env) =
      do_step _ (ap (os_from_b64 j) (j.at-array _ 0) ∙ as_str-os_b64 j k) (
        do_step _ (ap (os_from_b64 j) (j.at-array _ 1) ∙ as_str-os_b64 j v)
          (do_step _ (env_of-env_pairs env) refl))

  -- The daemon reads the version and the launch context that the client sent, and the version alone
  -- also without the rest.
  pub decode_hello-encode_hello :
      (ctx : LaunchContext)
      → (decode_hello j (encode_hello j ctx).0 (encode_hello j ctx).1
          ≡ some (protocol_version, ctx))
        × (hello_version j (encode_hello j ctx).0 (encode_hello j ctx).1 ≡ some protocol_version)
  unfolding decode_hello hello_of hello_version encode_hello text text_eq
  decode_hello-encode_hello ctx =
      let fs : List (Text × V) =
        (text "v", j.number protocol_version)
        ∷ (text "cwd", os_b64 j ctx.cwd)
        ∷ (text "env", j.array (env_pairs j ctx.env))
        ∷ [] in
      let version : num_from j 32 (j.get (object j fs) (text "v")) ≡ some protocol_version =
        num_field j fs (text "v") 32 protocol_version refl (omega arith) (omega arith) in
      (
        do_step _ (j.parse-dump (object j fs)) (
            do_step _
              (ap (env_of j) (members_field j fs (text "env") _ refl) ∙ env_of-env_pairs ctx.env)
              (do_step _ version (do_step _ (os_field j fs (text "cwd") ctx.cwd refl) refl))),
        do_step _ (j.parse-dump (object j fs)) version,
      )
