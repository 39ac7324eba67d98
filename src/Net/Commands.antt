-- ===== src/Net/Commands.antt =====
-- `net_loop` of net.rs: what each command of the GUI sends.
pub mod Steps
pub mod Pins
pub mod Payload
pub mod Delivery
pub mod FileDelivery
pub mod ReactionDelivery
pub mod RoomDelivery
use e2e_console_messenger.Base.{
  ℕ, ◌+◌, Bool, true, false, Option, none, some, List, [], ◌∷◌, ◌++◌, ◌==◌, ◌||◌, ltb, length,
  Bytes, Text, codes, text_eq, is_empty, if◌then◌else◌, ◌>>=◌,
}
use e2e_console_messenger.Base.Utf8.{as_bytes}
use e2e_console_messenger.Base.Dict.{lookup, insert}
use e2e_console_messenger.Platform.{Platform}
use e2e_console_messenger.Proto.{
  Outgoing, type_message, type_file, type_register, type_version, protocol_version, max_file,
}
use e2e_console_messenger.Crypto.{encrypt_to_peer, fingerprint}
use e2e_console_messenger.Store.{save_tofu}
use e2e_console_messenger.Net.State.{
  UiCmd, raw, register, login, profile_set, set_username, set_password, whois, refresh_users,
  refresh_rooms, join, create_room, leave, typing, room, priv, file, trust, reaction, Ev, error,
  line, reacted, Session, NetState, send, emit, write_frame, send_command,
}
use e2e_console_messenger.Net.Reader.{handle_frame, register_payload}
use e2e_console_messenger.Net.Request.{recipient_pub, room_targets}

unfoldable pub with_pass : Text → Text → Text → Text
with_pass verb name pass =
    if is_empty pass then verb ++ name else verb ++ (name ++ (codes " " ++ pass))

-- The line of a command that the server answers; `none` for those that the client carries out.
unfoldable pub command_line : Text → UiCmd → Option Text
unfolding with_pass
command_line user (raw slash_cmd) = some slash_cmd
command_line user (register pass) = some (codes "/register " ++ (pass ++ (codes " " ++ pass)))
command_line user (login pass) = some (codes "/login " ++ (user ++ (codes " " ++ pass)))
command_line user (profile_set nick bio hide) = some (
    codes "/profile set nick="
    ++ (nick
        ++ (codes " bio=" ++ (bio ++ (codes " hide=" ++ (if hide then codes "1" else codes "0"))))))
command_line user (set_username new_user) = some (codes "/setusername " ++ new_user)
command_line user (set_password old new) =
    some (codes "/setpassword " ++ (old ++ (codes " " ++ new)))
command_line user (whois name) = some (codes "/whois " ++ name)
command_line user refresh_users = some (codes "/users")
command_line user refresh_rooms = some (codes "/rooms")
command_line user (join name pass) = some (with_pass (codes "/join ") name pass)
command_line user (create_room name pass) = some (with_pass (codes "/createroom ") name pass)
command_line user leave = some (codes "/leave")
command_line user (typing target) = some (codes "/typing " ++ target)
command_line user (room _ _) = none
command_line user (priv _ _) = none
command_line user (file _ _ _) = none
command_line user (trust _) = none
command_line user (reaction _ _ _ _) = none

-- `rsplit(['/', '\\']).next()`.
last_part : Text → Text → Text
last_part cur [] = cur
last_part cur (ch ∷ s) = last_part (if ch == b'/' || ch == b'\\' then [] else cur ++ ch ∷ []) s

unfoldable pub base_name : Text → Text
unfolding last_part
base_name path = last_part [] path

unfoldable pub reaction_text : Text → Text → Text
reaction_text emoji target_text = codes "__REACTION__:" ++ (emoji ++ (codes ":" ++ target_text))

-- The fields of a frame between zero bytes.
unfoldable pub message_payload : Text → Text → Text → Text
message_payload from to ct = from ++ 0 ∷ (to ++ 0 ∷ ct)

unfoldable pub room_payload : Text → Text → Text → Text → Text
room_payload from room_name to ct = from ++ 0 ∷ (to ++ 0 ∷ (ct ++ 0 ∷ room_name))

unfoldable pub file_payload : Text → Text → Text → Text → Text
file_payload from fname to ct = from ++ 0 ∷ (to ++ 0 ∷ (fname ++ 0 ∷ ct))

unfoldable pub room_file_payload : Text → Text → Text → Text → Text → Text
room_file_payload from fname room_name to ct =
    from ++ 0 ∷ (to ++ 0 ∷ (fname ++ 0 ∷ (ct ++ 0 ∷ room_name)))

-- What happens in the session: a command of the GUI, or a frame that the reader thread handles.
pub data Action : Type 0 where
  command : UiCmd → Action
  arrival : ℕ → Bytes → Action

module _ (c : Platform) (s : Session) where
  -- `encrypt_to_peer(text, pubk, pub_b64, our)`, which draws a nonce.
  unfoldable pub seal_text : Text → Text → NetState → Option Text × NetState
  seal_text text pubk st = (
    encrypt_to_peer c (s.nonce st.draws) text pubk s.pub_b64 s.our,
    record st { draws = st.draws + 1 },
  )

  -- Encrypted to one key and sent as one frame; `false` if either fails.
  unfoldable pub send_sealed : ℕ → (Text → Text) → Text → Text → NetState → Bool × NetState
  send_sealed ftype payload text pubk st =
      let (ct, st1) = seal_text text pubk st in
      elim ct [ none ↦ (false, st1) | some t ↦ write_frame c s ftype (as_bytes (payload t)) st1 ]

  -- `recipient_pub(…).and_then(encrypt).map(payload).map(send_frame(…).is_ok()).unwrap_or(false)`.
  unfoldable pub send_private : ℕ → (Text → Text) → Text → Text → NetState → Bool × NetState
  send_private ftype payload target text st =
      let (found, st1) = recipient_pub c s target st in
      elim found [ none ↦ (false, st1) | some pubk ↦ send_sealed ftype payload text pubk st1 ]

  -- The loop over the targets of a room. A target that fails is passed over.
  unfoldable pub send_each :
      ℕ → (Text → Text → Text) → Text → List (Text × Text) → NetState → NetState
  send_each ftype payload text [] st = st
  send_each ftype payload text ((name, pubk) ∷ targets) st =
      send_each ftype payload text targets (send_sealed ftype (payload name) text pubk st).1

  unfoldable pub send_room : ℕ → (Text → Text → Text) → Text → NetState → NetState
  send_room ftype payload text st =
      let (targets, st1) = room_targets c s st in send_each ftype payload text targets st1

  unfoldable pub do_trust : Text → NetState → NetState
  do_trust name st = elim (lookup name st.known) [
    | none ↦ send (error (codes "Ключ для " ++ (name ++ codes " неизвестен"))) st
    | some p ↦
        let fp = fingerprint c p in
        let tofu = insert name fp st.tofu in
        emit (codes "✅ Новый ключ " ++ (name ++ (codes " подтверждён: " ++ fp)))
          (record st { tofu = tofu; disk = save_tofu s.os c tofu st.disk })
  ]

  unfoldable pub do_priv : Text → Text → NetState → NetState
  do_priv target text st =
      let (sent, st1) =
        send_private type_message (message_payload s.username target) target text st in
      if sent
      then emit (codes "[Я → " ++ (target ++ (codes "]: " ++ text))) st1
      else send
          (error (codes "Не удалось отправить сообщение для " ++ (target ++ codes " (нет ключа?)")))
          st1

  unfoldable pub do_room : Text → Text → NetState → NetState
  do_room room_name text st =
      emit (codes "[Я]: " ++ text)
        (send_room type_message (room_payload s.username room_name) text st)

  unfoldable pub do_send_file : Text → Bool → Text → Bytes → NetState → NetState
  do_send_file target is_room path content st =
      let fname = base_name path in
      let b64 = c.b64_encode content in
      if is_room
      then emit (codes "[Я] файл " ++ (fname ++ codes " отправлен в комнату"))
          (send_room type_file (room_file_payload s.username fname target) b64 st)
      else let (sent, st1) =
          send_private type_file (file_payload s.username fname target) target b64 st in
        if sent
        then emit (codes "[Я] файл " ++ (fname ++ (codes " отправлен для " ++ target))) st1
        else send
            (error (codes "Не удалось отправить файл для " ++ (target ++ codes " (нет ключа?)")))
            st1

  unfoldable pub do_file : Text → Bool → Text → NetState → NetState
  do_file target is_room path st = elim (lookup path st.disk) [
    | none ↦ send (error (codes "Файл не найден: " ++ path)) st
    | some content ↦
        if ltb max_file (length content)
        then send (error (codes "Файл слишком большой (до 400 КБ)")) st
        else do_send_file target is_room path content st
  ]

  unfoldable pub do_reaction : Text → Bool → Text → Text → NetState → NetState
  do_reaction target_chat is_room emoji target_text st =
      let text = reaction_text emoji target_text in
      if is_room
      then send (reacted emoji target_text (some target_chat))
          (send_room type_message (room_payload s.username target_chat) text st)
      else let (sent, st1) =
          send_private type_message (message_payload s.username target_chat) target_chat text st in
        if sent
        then send (reacted emoji target_text none) st1
        else send (error (codes "Не удалось отправить реакцию для " ++ target_chat)) st1

  -- One command; `none` ends the loop.
  unfoldable pub do_command : UiCmd → NetState → Option NetState
  do_command (raw slash_cmd) st =
      if text_eq slash_cmd (codes "/exit") then none else some (send_command c s slash_cmd st)
  do_command (room name text) st = some (do_room name text st)
  do_command (priv target text) st = some (do_priv target text st)
  do_command (file target is_room path) st = some (do_file target is_room path st)
  do_command (trust name) st = some (do_trust name st)
  do_command (reaction chat is_room emoji target_text) st =
      some (do_reaction chat is_room emoji target_text st)
  do_command cmd st = elim (command_line s.username cmd) [
    | none ↦ some st
    | some t ↦ some (send_command c s t st)
  ]

  -- What `net_loop` sends behind a successful connection.
  unfoldable pub start_frames : NetState → NetState
  start_frames st =
      let st1 = (write_frame c s type_message (as_bytes s.username) st).1 in
      let st2 = (write_frame c s type_version (as_bytes protocol_version) st1).1 in
      let st3 = (write_frame c s type_register (register_payload c s) st2).1 in
      emit (codes "Добро пожаловать, " ++ (s.username ++ codes "!")) st3

  -- The two threads by turns. After /exit the reader thread goes on.
  unfoldable pub run : Bool → List Action → NetState → NetState
  run live [] st = st
  run live (arrival ftype payload ∷ acts) st = run live acts (handle_frame c s ftype payload st)
  run false (command cmd ∷ acts) st = run false acts st
  run true (command cmd ∷ acts) st = elim (do_command cmd st) [
    | none ↦ run false acts st
    | some st' ↦ run true acts st'
  ]

  -- `net_loop`: nothing is sent if the connection fails.
  unfoldable pub net_loop : Option Text → List Action → NetState → NetState
  net_loop (some e) acts st =
      emit (codes "__DISCONNECTED__") (send (error (codes "Не удалось подключиться к " ++ e)) st)
  net_loop none acts st = run true acts (start_frames st)
