-- ===== src/App/Input.antt =====
-- What the user does, in main.rs: connecting, sending a line, typing, choosing a chat.
pub mod Laws
pub mod Sends
use e2e_console_messenger.Base.{
  ℕ, ◌+◌, ◌-◌, Bool, true, false, Option, none, some, List, [], ◌∷◌, ◌++◌, ◌==◌, ◌&&◌, ◌||◌, not,
  ltb, length, get_elem?, Text, codes, text_eq, is_empty, trim, trim_start_matches, starts_with,
  if◌then◌else◌, ◌>>=◌,
}
use e2e_console_messenger.Net.State.{UiCmd, raw, register, login, join, typing, room, priv, whois}
use e2e_console_messenger.App.State.{Moment, Chat, MeshApp, sys_chat, send_ui}
use e2e_console_messenger.App.Labels.{room_name_of}
use e2e_console_messenger.App.Chats.{position, push_msg, select, open_private}

-- The name that `start_connect` hands to the network thread; `lower` is `to_lowercase`.
unfoldable pub connect_user : (Text → Text) → Text → Text
connect_user lower at_user = if is_empty (trim at_user) then codes "@anon" else lower (trim at_user)

-- What stays in the form and becomes `me`.
unfoldable pub form_user : (Text → Text) → Text → Text
unfolding connect_user
form_user lower at_user =
    let user = connect_user lower at_user in
    let kept = if is_empty (trim at_user) then at_user else user in
    if starts_with (codes "@") user then kept else codes "@" ++ user

-- The state behind the connection's start.
unfoldable pub connecting : (Text → Text) → MeshApp → MeshApp
unfolding form_user
connecting lower app =
    let me = form_user lower app.at_user in
    let nick =
      if is_empty (trim app.reg_nick)
      then trim_start_matches (λ ch. ch == b'@') me
      else trim app.reg_nick in
    record app {
      at_user = me;
      me = me;
      my_nick = nick;
      my_bio = trim app.reg_bio;
      has_channel = true;
      connected = true;
      sent = [];
    }

-- `start_connect`: the name for the network thread, and the new state.
unfoldable pub start_connect : (Text → Text) → Moment → MeshApp → Option (Text × MeshApp)
start_connect lower m app = do
  let connect_as = connect_user lower app.at_user
  app' ←
      push_msg m sys_chat false false (codes "система") (codes "Подключаемся…") 0
        (connecting lower app)
  let cmd = if app.auth_mode_register then register app.password else login app.password
  some (connect_as, send_ui cmd app')

-- A line for the selected chat.
unfoldable pub submit_to : Moment → Text → Chat → MeshApp → Option MeshApp
submit_to m text ch app =
    if ch.is_room
    then (do
      let name = room_name_of ch.id
      let app1 = if text_eq app.current_room name then app else send_ui (join name []) app
      app2 ← push_msg m ch.id true true app1.my_nick text 0 app1
      some (send_ui (room name text) app2))
    else (do
      app1 ← push_msg m ch.id false true app.my_nick text 0 app
      some (send_ui (priv ch.id text) app1))

unfoldable pub submit_input : Moment → MeshApp → Option MeshApp
submit_input m app =
    let text = trim app.input in
    let app1 = record app { input = [] } in
    if is_empty text
    then some app
    else if not app.connected
    then push_msg m sys_chat false false (codes "ошибка") (codes "Нет соединения.") 2 app1
    else if starts_with (codes "/") text
    then (if text_eq text (codes "/fingerprints")
        then some (record app1 { show_fingerprints = true })
        else some (send_ui (raw text) app1))
    else (do ch ← get_elem? app1.chats app1.active; submit_to m text ch app1)

-- At most once in three seconds, in private chats only.
unfoldable pub maybe_send_typing : Bool → ℕ → MeshApp → Option MeshApp
maybe_send_typing changed now app = if not changed then some app else do
  ch ← get_elem? app.chats app.active
  let due : Bool = elim app.last_typing_sent [ none ↦ true | some t ↦ ltb 3000 (now - t) ]
  some (
      if ch.is_room || not app.authed
      then app
      else if due
      then send_ui (typing ch.id) (record app { last_typing_sent = some now })
      else app)

-- A click on a chat in the sidebar.
unfoldable pub switch_chat : ℕ → MeshApp → Option MeshApp
switch_chat i app = do
  ch ← get_elem? app.chats i
  let name = room_name_of ch.id
  let app1 =
      if ch.is_room && not (text_eq app.current_room name) then send_ui (join name []) app else app
  select i (λ c. record c { unread = 0 }) app1

-- A click on a user: the chat with them, made and asked about if it is new.
unfoldable pub click_user : ℕ → Text → MeshApp → Option MeshApp
click_user now at app = elim (position at app.chats) [
  | some i ↦ switch_chat i app
  | none ↦ (do app1 ← open_private now at app; some (send_ui (whois at) app1))
]
