-- ===== src/Net/Reader.antt =====
-- The reader thread of net.rs: `handle_message`, `handle_file` and `reader_loop`.
pub mod Pins
pub mod Message
pub mod Loop
pub mod Files
use e2e_console_messenger.Base.{
  ℕ, zero, suc, ◌+◌, Bool, true, false, Option, none, some, List, [], ◌∷◌, ◌++◌, ◌==◌, ◌||◌, Bytes,
  Text, codes, text_eq, is_empty, trim, trim_end, split, split_once, splitn, strip_prefix,
  starts_with, if◌then◌else◌, ◌>>=◌,
}
use e2e_console_messenger.Base.Utf8.{as_bytes, from_utf8_lossy}
use e2e_console_messenger.Base.Dict.{Dict, lookup}
use e2e_console_messenger.Platform.{Platform}
use e2e_console_messenger.Proto.{
  Incoming, IoResult, ok, err, recv_frame, type_message, type_command, type_file, type_register,
}
use e2e_console_messenger.Crypto.{gcm_decrypt, decrypt_from_peer}
use e2e_console_messenger.Store.{Disk, safe_file_name, save_received_file}
use e2e_console_messenger.Net.State.{
  Ev, line, error, authed, user_list, presence, profile, profile_saved, username_changed,
  password_changed, room_changed, rooms, is_typing, msg, file_msg, reacted, Session, NetState, send,
  emit, write_frame,
}
use e2e_console_messenger.Net.Tofu.{insert_keys}
use e2e_console_messenger.Net.Server.{server_events}

unfoldable pub send_all : List Ev → NetState → NetState
send_all evs st = record st { events = st.events ++ evs }

-- The optional field with the room's name.
unfoldable pub room_of : List Bytes → Option Text
room_of [] = none
room_of (r ∷ _) = let name = trim (from_utf8_lossy r) in if is_empty name then none else some name

unfoldable pub reaction_prefix : Text
reaction_prefix = codes "__REACTION__:"

-- A decrypted text is a reaction or a message.
unfoldable pub text_events : Text → Text → Option Text → List Ev
unfolding reaction_prefix
text_events sender text room = elim (strip_prefix reaction_prefix text) [
  | none ↦ msg sender text room ∷ []
  | some rest ↦ elim (split_once b':' rest) [
    | none ↦ []
    | some (emoji, target) ↦ reacted emoji target room ∷ []
  ]
]

module _ (c : Platform) (s : Session) where
  unfoldable pub message_events : Dict → Text → Text → Option Text → List Ev
  message_events known sender ct room = elim (lookup sender known) [
    | none ↦ line (codes "[" ++ (sender ++ codes "]: (неизвестный публичный ключ)")) ∷ []
    | some pk ↦ elim (decrypt_from_peer c ct pk s.our) [
      | none ↦
          error (codes "[" ++ (sender ++ codes "]: не удалось расшифровать (подмена/ключ)")) ∷ []
      | some plain ↦ text_events sender (trim_end plain) room
    ]
  ]

  unfoldable pub message_parts : List Bytes → NetState → NetState
  unfolding send_all
  message_parts (from ∷ to ∷ ct ∷ more) st =
      send_all (message_events st.known (from_utf8_lossy from) (from_utf8_lossy ct) (room_of more))
        st
  message_parts _ st = st

  -- The sender, the recipient, the ciphertext and perhaps the room, between zero bytes.
  unfoldable pub handle_message : Bytes → NetState → NetState
  unfolding message_parts
  handle_message payload st = message_parts (split 0 payload) st

  -- The plaintext of a file is its Base64; the name must survive `safe_file_name`.
  unfoldable pub store_file : Text → Text → Bytes → Disk → Option Text × Disk
  store_file fname b64 pk disk =
      elim (decrypt_from_peer c b64 pk s.our >>= λ t. c.b64_decode (trim t)) [
        | none ↦ (none, disk)
        | some raw ↦
            let base = safe_file_name fname in
            let (saved, disk') = save_received_file s.os base raw disk in
            if is_empty base
            then (none, disk)
            else if saved
            then (some base, disk')
            else (none, disk')
      ]

  unfoldable pub file_event : Text → Text → Option Text → Option Text → Ev
  file_event sender fname room (some base) = file_msg sender base room
  file_event sender fname room none =
      error (codes "[" ++ (sender ++ (codes "] файл " ++ (fname ++ codes " получить не удалось"))))

  unfoldable pub file_parts : List Bytes → NetState → NetState
  unfolding send send_all store_file file_event
  file_parts (from ∷ to ∷ name ∷ content ∷ more) st =
      let sender = from_utf8_lossy from in
      let fname = from_utf8_lossy name in
      elim (lookup sender st.known) [
        | none ↦
            send
              (line (
                codes "["
                ++ (sender
                    ++ (codes "] отправил файл " ++ (fname ++ codes ", но ключ неизвестен")))))
              st
        | some pk ↦
            let (got, disk) = store_file fname (from_utf8_lossy content) pk st.disk in
            send (file_event sender fname (room_of more) got) (record st { disk = disk })
      ]
  file_parts _ st = st

  unfoldable pub handle_file : Bytes → NetState → NetState
  unfolding file_parts
  handle_file payload st = file_parts (split 0 payload) st

  -- `pending.take()`: the first response goes to whoever waits, and others are dropped.
  unfoldable pub deliver : Text → NetState → NetState
  deliver text st = elim st.pending [
    | none ↦ st
    | some ch ↦ record st { pending = none; mail = st.mail ++ (ch, text) ∷ [] }
  ]

  unfoldable pub register_payload : Bytes
  register_payload = as_bytes (s.username ++ 0 ∷ s.pub_b64)

  -- The text of a command frame, trimmed: responses, keys, the login, and lines for the GUI.
  unfoldable pub handle_text : Text → NetState → NetState
  handle_text text st = elim (strip_prefix (codes "[RESP]") text) [
    | some rest ↦ deliver (trim rest) st
    | none ↦
        if starts_with (codes "[ПУБКЛЮЧИ]") text || starts_with (codes "[НОВЫЙ]") text
        then insert_keys c text st
        else if starts_with (codes "[AUTH]OK") text
        then send authed (write_frame c s type_register register_payload st).1
        else send_all (server_events text) st
  ]

  unfoldable pub handle_command : Bytes → NetState → NetState
  handle_command payload st = elim (gcm_decrypt c s.shared_key (from_utf8_lossy payload) []) [
    | none ↦ st
    | some text ↦ handle_text (trim text) st
  ]

  -- One round of the loop, behind a frame that was received.
  unfoldable pub handle_frame : ℕ → Bytes → NetState → NetState
  handle_frame ftype payload st =
      if ftype == type_command
      then handle_command payload st
      else if ftype == type_message
      then handle_message payload st
      else if ftype == type_file
      then handle_file payload st
      else st

  unfoldable pub handle_frames : List (ℕ × Bytes) → NetState → NetState
  handle_frames [] st = st
  handle_frames ((ftype, payload) ∷ frames) st =
      handle_frames frames (handle_frame ftype payload st)

  -- The stream closed or failed.
  unfoldable pub lost : NetState → NetState
  unfolding send_all
  lost st =
      send_all
        (error (codes "Соединение с сервером потеряно.") ∷ line (codes "__DISCONNECTED__") ∷ []) st

  -- `loop`, on fuel: `none` only if the fuel ran out.
  unfoldable pub reader_loop : ℕ → Incoming → NetState → Option NetState
  reader_loop zero stream st = none
  reader_loop (suc fuel) stream st = elim (recv_frame stream) [
    | ok (some (ftype, payload, rest)) ↦ reader_loop fuel rest (handle_frame ftype payload st)
    | ok none ↦ some (lost st)
    | err _ ↦ some (lost st)
  ]
