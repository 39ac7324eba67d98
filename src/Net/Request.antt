-- ===== src/Net/Request.antt =====
-- `request`, `recipient_pub` and `room_targets` of net.rs. While a request waits, the reader thread
-- handles the frames that the session says arrive.
pub mod Laws
pub mod Answer
use e2e_console_messenger.Base.{
  ℕ, ◌+◌, Bool, true, false, Option, none, some, List, [], ◌∷◌, ◌++◌, ◌==◌, Bytes, Text, codes,
  text_eq, trim, split, split_once, if◌then◌else◌,
}
use e2e_console_messenger.Base.Utf8.{as_bytes}
use e2e_console_messenger.Base.Dict.{lookup, insert}
use e2e_console_messenger.Platform.{Platform}
use e2e_console_messenger.Proto.{type_command}
use e2e_console_messenger.Net.State.{Session, NetState, seal_command, write_frame}
use e2e_console_messenger.Net.Tofu.{check_tofu, learn}
use e2e_console_messenger.Net.Reader.{handle_frames}

-- The first text in a channel.
unfoldable pub received : ℕ → List (ℕ × Text) → Option Text
received ch [] = none
received ch ((j, t) ∷ mail) = let rest = received ch mail in if j == ch then some t else rest

-- `mpsc::channel()`, with the sender put into `pending`.
unfoldable pub open_channel : NetState → ℕ × NetState
open_channel st =
    (st.channels, record st { pending = some st.channels; channels = st.channels + 1 })

module _ (c : Platform) (s : Session) where
  -- `recv_timeout`, after what the reader thread does meanwhile.
  unfoldable pub wait_response : ℕ → NetState → Option Text × NetState
  wait_response ch st =
      let st' = handle_frames c s (s.arrivals st.waits) (record st { waits = st.waits + 1 }) in
      (received ch st'.mail, st')

  unfoldable pub request : Text → NetState → Option Text × NetState
  request cmd st =
      let (ch, st1) = open_channel st in
      let (enc, st2) = seal_command c s cmd st1 in
      elim enc [
        | none ↦ (none, st2)
        | some e ↦
            let (done, st3) = write_frame c s type_command (as_bytes e) st2 in
            if done then wait_response ch st3 else (none, st3)
      ]

  unfoldable pub recipient_pub : Text → NetState → Option Text × NetState
  recipient_pub name st = elim (lookup name st.known) [
    | some p ↦ (some p, st)
    | none ↦
        let (resp, st1) = request (codes "/pubkey " ++ name) st in
        elim resp [
          | none ↦ (none, st1)
          | some r ↦ if text_eq r (codes "ERR") then (none, st1) else (some r, learn c name r st1)
        ]
  ]

  -- One item of the members' list: learnt, and a target unless it is the user.
  unfoldable pub member_item : Text → NetState → List (Text × Text) × NetState
  member_item item st = elim (split_once b':' item) [
    | none ↦ ([], st)
    | some (n, p) ↦ (
      if text_eq (trim n) s.username then [] else (trim n, trim p) ∷ [],
      learn c (trim n) (trim p) st,
    )
  ]

  unfoldable pub member_items : List Text → NetState → List (Text × Text) × NetState
  member_items [] st = ([], st)
  member_items (item ∷ items) st =
      let (here, st1) = member_item item st in
      let (more, st2) = member_items items st1 in (here ++ more, st2)

  unfoldable pub room_targets : NetState → List (Text × Text) × NetState
  room_targets st =
      let (resp, st1) = request (codes "/roommembers") st in
      elim resp [
        | none ↦ ([], st1)
        | some r ↦ if text_eq r (codes "ERR") then ([], st1) else member_items (split b';' r) st1
      ]
