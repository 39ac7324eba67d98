-- ===== src/App/Events.antt =====
-- `poll_events` of main.rs: what each event of the network thread does. `can_save` says whether the
-- accounts file can be written.
pub mod Laws
pub mod Consent
use e2e_console_messenger.Base.{
  ℕ, zero, suc, ◌+◌, ◌-◌, Bool, true, false, Option, none, some, List, [], ◌∷◌, ◌++◌, ◌==◌, ◌&&◌,
  ◌||◌, not, ltb, length, get_elem?, take, map, retain, any, Text, codes, text_eq, is_empty,
  starts_with, if◌then◌else◌, ◌>>=◌,
}
use e2e_console_messenger.Net.State.{
  UiCmd, refresh_users, refresh_rooms, Ev, line, warn, error, authed, user_list, presence, profile,
  profile_saved, username_changed, password_changed, room_changed, rooms, is_typing, msg, file_msg,
  reacted,
}
use e2e_console_messenger.App.State.{
  Moment, Msg, Chat, User, SavedAccount, Screen, connect, chat, MeshApp, sys_chat, send_ui,
}
use e2e_console_messenger.App.Labels.{room_chat_id}
use e2e_console_messenger.App.Accounts.{save_account, forget_account}
use e2e_console_messenger.App.Chats.{position, chat_index, push_msg, select, display_name}

-- A line from the program itself in the server's chat.
abbrev pub system_msg : Moment → Text → MeshApp → Option MeshApp
system_msg m text = push_msg m sys_chat false false (codes "система") text 0

unfoldable pub on_line : Moment → Text → MeshApp → Option MeshApp
on_line m t app =
    if text_eq t (codes "__DISCONNECTED__")
    then push_msg m sys_chat false false (codes "система") (codes "⛔ Соединение потеряно.") 2
        (record app { connected = false; authed = false })
    else push_msg m sys_chat false false (codes "сервер") t 0 app

-- On the login screen an error stands beside the form, else in the server's chat.
unfoldable pub error_on : Screen → Moment → Text → MeshApp → Option MeshApp
error_on connect m t app = some (record app { connect_error = some t })
error_on chat m t app = push_msg m sys_chat false false (codes "ошибка") t 2 app

unfoldable pub on_error : Moment → Text → MeshApp → Option MeshApp
unfolding error_on
on_error m t app = error_on app.screen m t app

-- The account is kept for a quick login only with consent; the password leaves the form.
unfoldable pub keep_account : Bool → MeshApp → MeshApp
keep_account can_save app =
    let acc : SavedAccount = record {
      username = app.me;
      password = app.password;
      host = app.host;
      port = app.port;
    } in
    let cleared = record app { password = [] } in
    if app.remember_me && not (is_empty app.password)
    then save_account can_save acc cleared
    else forget_account can_save acc cleared

unfoldable pub on_authed : Bool → Moment → MeshApp → Option MeshApp
on_authed can_save m app = do
  let app1 = record app { authed = true; connect_error = none; screen = chat }
  let app2 = keep_account can_save app1
  let app3 = record app2 { saved_accounts = app2.stored_accounts }
  app4 ← system_msg m (codes "✅ Вход выполнен. Можно общаться!") app3
  some (send_ui refresh_rooms (send_ui refresh_users app4))

unfoldable pub to_users : Text → List (Text × Text × Bool) → List User
to_users me users =
    retain (λ u. not (text_eq u.at me))
      (map (λ (t : Text × Text × Bool). record { nick = t.0; at = t.1; online = t.2 }) users)

-- The user's entry changed, if there is one; else a new entry for one who came online.
unfoldable pub set_presence : Text → Bool → Text → List User → List User
set_presence user online nick [] =
    if online then record { nick = nick; at = user; online = true } ∷ [] else []
set_presence user online nick (u ∷ us) =
    let rest = set_presence user online nick us in
    if text_eq u.at user
    then record u { online = online; nick = if is_empty nick then u.nick else nick } ∷ us
    else u ∷ rest

unfoldable pub rename_chats : Text → Text → List Chat → List Chat
rename_chats old new chats =
    map (λ ch. if text_eq ch.id old then record ch { id = new } else ch) chats

unfoldable pub on_username : Moment → Text → MeshApp → Option MeshApp
on_username m nu app =
    system_msg m (codes "✅ @username сменён на " ++ nu)
      (record app { me = nu; at_user = nu; chats = rename_chats app.me nu app.chats })

unfoldable pub on_room : Moment → Text → MeshApp → Option MeshApp
on_room m room app = do
  let (idx, app1) =
      chat_index m.instant (room_chat_id room) true (record app { current_room = room })
  app2 ← select idx (λ ch. record ch { unread = 0 }) app1
  let label =
      if text_eq room (codes "main") then codes "общей комнате" else codes "комнате " ++ room
  system_msg m (codes "Вы вошли в " ++ label) app2

-- `active < chats.len() && chats[active].id == id`.
unfoldable pub is_selected : Text → MeshApp → Bool
is_selected id app = elim (get_elem? app.chats app.active) [
  | none ↦ false
  | some ch ↦ text_eq ch.id id
]

-- Some chat has the id, and the first such is the selected one.
unfoldable pub is_first_selected : Text → MeshApp → Bool
is_first_selected id app = elim (position id app.chats) [ none ↦ false | some i ↦ app.active == i ]

unfoldable pub toast_unless : Bool → Text → Text → MeshApp → MeshApp
toast_unless seen title body app =
    if seen then app else record app { toasts = app.toasts ++ (title, body) ∷ [] }

-- The room's name, if there is one and it is not empty.
unfoldable pub room_given : Option Text → Option Text
room_given none = none
room_given (some r) = if is_empty r then none else some r

-- A message or a file from a room, shown in the room's chat.
unfoldable pub show_room : Moment → Text → Text → Text → ℕ → MeshApp → Option MeshApp
show_room m r name text kind app =
    let id = room_chat_id r in
    push_msg m id true false name text kind (toast_unless (is_selected id app) name text app)

unfoldable pub show_msg : Moment → Text → Text → Text → Option Text → MeshApp → Option MeshApp
unfolding show_room
show_msg m from name text (some r) app = show_room m r name text 0 app
show_msg m from name text none app =
    push_msg m from false false name text 0
      (toast_unless (is_first_selected from app) name text app)

unfoldable pub on_msg : Moment → Text → Text → Option Text → MeshApp → Option MeshApp
unfolding show_msg
on_msg m from text room app =
    if text_eq from app.me
    then some app
    else show_msg m from (display_name from app) text (room_given room) app

unfoldable pub show_file : Moment → Text → Text → Text → Option Text → MeshApp → Option MeshApp
unfolding show_room
show_file m from fname text (some r) app = show_room m r fname text 4 app
show_file m from fname text none app = push_msg m from false false fname text 4 app

unfoldable pub on_file : Moment → Text → Text → Option Text → MeshApp → Option MeshApp
unfolding show_file
on_file m from name room app =
    show_file m from (display_name from app)
      (codes "📎 файл «" ++ (name ++ codes "» сохранён в downloads/")) (room_given room) app

unfoldable pub add_reaction : Text → List (Text × ℕ) → List (Text × ℕ)
add_reaction emoji [] = (emoji, 1) ∷ []
add_reaction emoji ((e, n) ∷ rs) =
    let rest = add_reaction emoji rs in if text_eq e emoji then (e, n + 1) ∷ rs else (e, n) ∷ rest

-- A message is meant if it begins with the target, or the target with its first 80 characters.
unfoldable pub is_target : Text → Msg → Bool
is_target target mg = starts_with target mg.text || starts_with (take 80 mg.text) target

unfoldable pub react_msg : Text → Text → Msg → Msg
react_msg emoji target mg =
    if is_target target mg then record mg { reactions = add_reaction emoji mg.reactions } else mg

-- A reaction from a room is for that room's chat, any other for every chat.
unfoldable pub skips_chat : Option Text → Chat → Bool
skips_chat none ch = false
skips_chat (some r) ch = is_empty r || not (text_eq ch.id (room_chat_id r))

unfoldable pub react_chat : Text → Text → Option Text → Chat → Chat
react_chat emoji target room ch =
    if skips_chat room ch then ch else record ch { msgs = map (react_msg emoji target) ch.msgs }

unfoldable pub on_reaction : Text → Text → Option Text → MeshApp → MeshApp
on_reaction emoji target_text room app = record app {
  chats = map (react_chat emoji (take 80 target_text) room) app.chats;
}

unfoldable pub handle_event : Bool → Moment → Ev → MeshApp → Option MeshApp
handle_event can_save m (line t) app = on_line m t app
handle_event can_save m (warn t) app = push_msg m sys_chat false false (codes "⚠ TOFU") t 3 app
handle_event can_save m (error t) app = on_error m t app
handle_event can_save m authed app = on_authed can_save m app
handle_event can_save m (user_list users) app = some (record app { users = to_users app.me users })
handle_event can_save m (presence user online nick) app = some (
    if text_eq user app.me
    then app
    else record app { users = set_presence user online nick app.users })
handle_event can_save m (profile user nick online bio) app =
    some (record app { whois = some (user, nick, online, bio) })
handle_event can_save m (profile_saved nick bio hide) app =
    system_msg m (codes "✅ Профиль сохранён")
      (record app { my_nick = nick; p_nick = nick; p_bio = bio; p_hide = hide; my_bio = bio })
handle_event can_save m (username_changed nu) app = on_username m nu app
handle_event can_save m password_changed app =
    system_msg m (codes "✅ Пароль изменён") (record app { p_old_pass = []; p_new_pass = [] })
handle_event can_save m (room_changed room) app = on_room m room app
handle_event can_save m (rooms t) app = some app
handle_event can_save m (is_typing from) app =
    some (record app { typing_from = some (from, m.instant) })
handle_event can_save m (msg from text room) app = on_msg m from text room app
handle_event can_save m (file_msg from name room) app = on_file m from name room app
handle_event can_save m (reacted emoji target room) app = some (on_reaction emoji target room app)

unfoldable pub handle_events : Bool → List (Moment × Ev) → MeshApp → Option MeshApp
handle_events can_save [] app = some app
handle_events can_save ((m, ev) ∷ evs) app = do
  app' ← handle_event can_save m ev app
  handle_events can_save evs app'

-- The note that somebody types goes after four seconds.
unfoldable pub expire_typing : ℕ → MeshApp → MeshApp
expire_typing now app = elim app.typing_from [
  | none ↦ app
  | some (_, t) ↦ if ltb 4000 (now - t) then record app { typing_from = none } else app
]

unfoldable pub poll_events : Bool → List (Moment × Ev) → ℕ → MeshApp → Option MeshApp
poll_events can_save evs now app =
    if app.has_channel
    then (do app' ← handle_events can_save evs app; some (expire_typing now app'))
    else some app
