-- ===== src/Console/Request.antt =====
-- `request`, `recipient_pub` and `room_targets` of the console client. While a request waits, the
-- reader thread handles the frames that the session says arrive.
use e2e_console_messenger.Base.{
  ℕ, ◌+◌, Option, none, some, List, [], ◌∷◌, ◌++◌, Text, codes, text_eq, split, split_once,
  if◌then◌else◌,
}
use e2e_console_messenger.Base.Utf8.{as_bytes}
use e2e_console_messenger.Base.Dict.{lookup}
use e2e_console_messenger.Platform.{Platform}
use e2e_console_messenger.Proto.{type_command}
use e2e_console_messenger.Net.State.{Session}
use e2e_console_messenger.Net.Request.{received}
use e2e_console_messenger.Console.State.{State, seal_command, write_frame}
use e2e_console_messenger.Console.Tofu.{learn}
use e2e_console_messenger.Console.Reader.{handle_frames}

-- `mpsc::channel()`, with the sender put into `pending`.
unfoldable pub open_channel : State → ℕ × State
open_channel st =
    (st.channels, record st { pending = some st.channels; channels = st.channels + 1 })

module _ (c : Platform) (s : Session) where
  -- `recv_timeout`, after what the reader thread does meanwhile.
  unfoldable pub wait_response : ℕ → State → Option Text × State
  wait_response ch st =
      let st' = handle_frames c s (s.arrivals st.waits) (record st { waits = st.waits + 1 }) in
      (received ch st'.mail, st')

  unfoldable pub request : Text → State → Option Text × State
  request cmd st =
      let (ch, st1) = open_channel st in
      let (enc, st2) = seal_command c s cmd st1 in
      elim enc [
        | none ↦ (none, st2)
        | some e ↦
            let (done, st3) = write_frame c s type_command (as_bytes e) st2 in
            if done then wait_response ch st3 else (none, st3)
      ]

  -- What the answer to `/pubkey` gives.
  unfoldable pub answered : Text → Option Text × State → Option Text × State
  answered name (none, st) = (none, st)
  answered name (some resp, st) =
      if text_eq resp (codes "ERR") then (none, st) else (some resp, learn c s.os name resp st)

  unfoldable pub recipient_pub : Text → State → Option Text × State
  unfolding answered
  recipient_pub name st = elim (lookup name st.known) [
    | some p ↦ (some p, st)
    | none ↦ answered name (request (codes "/pubkey " ++ name) st)
  ]

  -- One item of the members' list: learnt, and a target unless it is the user.
  unfoldable pub member_item : Text → State → List (Text × Text) × State
  member_item item st = elim (split_once b':' item) [
    | none ↦ ([], st)
    | some (n, p) ↦ (if text_eq n s.username then [] else (n, p) ∷ [], learn c s.os n p st)
  ]

  unfoldable pub member_items : List Text → State → List (Text × Text) × State
  member_items [] st = ([], st)
  member_items (item ∷ items) st =
      let (here, st1) = member_item item st in
      let (more, st2) = member_items items st1 in (here ++ more, st2)

  -- What the answer to `/roommembers` gives.
  unfoldable pub members : Option Text × State → List (Text × Text) × State
  members (none, st) = ([], st)
  members (some resp, st) =
      if text_eq resp (codes "ERR") then ([], st) else member_items (split b';' resp) st

  unfoldable pub room_targets : State → List (Text × Text) × State
  unfolding members
  room_targets st = members (request (codes "/roommembers") st)
