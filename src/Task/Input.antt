-- ===== src/Task/Input.antt =====
-- src/task.rs: what a run does with its emulator and its writer queue. The worker behind the queue
-- lives as long as a sender does, so a send through `input_tx` does not fail.
use fleetcom.Common.{
  ℕ, ◌-◌, Bool, true, Option, none, some, List, [], ◌∷◌, ◌++◌, if◌then◌else◌, length,
}
use fleetcom.Protocol.{ScrollAction, live, MouseKind, Key, Mods}
use fleetcom.Terminal.{Terminal, Stores, bracketed_paste, application_cursor}
use fleetcom.Terminal.Input.{paste_bytes, mouse_bytes, key_bytes}
use fleetcom.Task.WriteQueue.{admit_write}
use fleetcom.Task.Process.{Process}

-- `WriteRefused`, with the length of the refused message.
pub data Sent : Type 0 where
  accepted : Sent
  refused : ℕ → Sent

module _ {E : Type 0} where
  -- `queue_write`: a force-killed run discards its input.
  abbrev pub write_through : Option (List (List ℕ)) → List ℕ → Process E → Process E × Sent
  write_through none msg p = (p, accepted)
  write_through (some sent) msg p =
      let a = admit_write true p.pending_write (length msg) in
      if a.refused
      then (p, refused (length msg))
      else (record p { pending_write = a.pending; input_tx = some (sent ++ msg ∷ []) }, accepted)

  -- `fetch_sub` of the worker in `drain_writes`; the counter is never below what is taken off.
  abbrev pub settled : ℕ → Process E → Process E
  settled n p = record p { pending_write = p.pending_write - n }

  unfoldable pub queue_write : List ℕ → Process E → Process E × Sent
  queue_write msg p = write_through p.input_tx msg p

module _ {E : Type 0} ⦃t : Terminal E⦄ where
  unfoldable pub scroll_view : ScrollAction → Process E → Process E
  scroll_view action p = record p { parser = t.scroll action p.parser }

  unfoldable pub send_input : List ℕ → Process E → Process E × Sent
  unfolding queue_write scroll_view
  send_input bytes p = queue_write bytes (scroll_view live p)

  unfoldable pub send_paste : List ℕ → Process E → Process E × Sent
  unfolding send_input
  send_paste content p = send_input (paste_bytes (bracketed_paste (t.term_mode p.parser)) content) p

  abbrev pub send_some : Option (List ℕ) → Process E → Process E × Sent
  send_some none p = (p, accepted)
  send_some (some b) p = send_input b p

  unfoldable pub send_mouse : MouseKind → ℕ → ℕ → Process E → Process E × Sent
  unfolding send_input
  send_mouse kind col row p = send_some (mouse_bytes (t.term_mode p.parser) kind col row) p

  unfoldable pub send_key : Key → Mods → Process E → Process E × Sent
  unfolding send_input
  send_key code mods p =
      send_some (key_bytes (application_cursor (t.term_mode p.parser)) code mods) p

  -- `resize`: when the pty refuses, the emulator keeps its size.
  unfoldable pub resize_run : Bool → ℕ → ℕ → Process E → Process E
  resize_run granted rows cols p =
      if granted
      then record p { pty_rows = rows; pty_cols = cols; parser = t.set_size rows cols p.parser }
      else p

  -- `drain_clipboard`.
  unfoldable pub drain_stores : Process E → Process E × Stores
  drain_stores p =
      let (emulator, stores) = t.drain_clipboard p.parser in
      (record p { parser = emulator }, stores)

  -- `forward_probe_replies`: a refused reply is dropped.
  unfoldable pub forward_replies : List (List ℕ) → Process E → Process E
  unfolding queue_write
  forward_replies [] p = p
  forward_replies (r ∷ rs) p = forward_replies rs (queue_write r p).0

  unfoldable pub flush_sync : Process E → Process E
  unfolding forward_replies
  flush_sync p =
      let (emulator, replies) = t.flush_expired_sync p.parser in
      forward_replies replies (record p { parser = emulator })
