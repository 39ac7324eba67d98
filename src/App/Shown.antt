-- ===== src/App/Shown.antt =====
-- Messages in the window of main.rs, entered and arriving: which chat shows them.
use e2e_console_messenger.Base.{
  ◌∙◌, sym, ◌++◌, codes, trim, starts_with, get_elem?, ◌≡◌, refl, inl, inr, true, false, none, some,
  [], Text, text_eq, is_empty, ◌>>=◌, Bool-cases,
}
use mathlib.Core.Option.{some-injective}
use mathlib.Core.Path.{subst}
use e2e_console_messenger.App.Input.Sends.{outgoing, submit_input_reaches, submit_input_sends}
use e2e_console_messenger.Net.State.{UiCmd, room, join, priv}
use e2e_console_messenger.App.State.{Moment, Chat, MeshApp, send_ui}
use e2e_console_messenger.App.Labels.{room_name_of, room_chat_id}
use e2e_console_messenger.App.Chats.{display_name, push_msg}
use e2e_console_messenger.App.Chats.Laws.{IsValid}
use e2e_console_messenger.App.Chats.Safe.{IsValid-same}
use e2e_console_messenger.App.Chats.Newest.{Shows, push_msg-Shows}
use e2e_console_messenger.App.Events.{
  toast_unless, is_selected, is_first_selected, on_msg, show_room, room_given,
}
use e2e_console_messenger.App.Events.Laws.{toast_unless_same}
use e2e_console_messenger.App.Input.{submit_to, submit_input}

send_ui_same :
    (cmd : UiCmd) (app : MeshApp)
    → ((send_ui cmd app).chats ≡ app.chats)
      × ((send_ui cmd app).active ≡ app.active)
      × ((send_ui cmd app).my_nick ≡ app.my_nick)
unfolding send_ui
send_ui_same cmd app = elim (Bool-cases app.has_channel) [
  | inl e ↦ rw e (refl, refl, refl)
  | inr e ↦ rw e (refl, refl, refl)
]

push_then_send :
    (m : Moment) (id text : Text) (cmd : UiCmd) (app : MeshApp)
    → IsValid app
    → (app' : MeshApp) × ((push_msg m id true true app.my_nick text 0 app >>= λ a.
          some (send_ui cmd a))
        ≡ some app')
      × Shows id true app.my_nick text 0 app'.chats
push_then_send m id text cmd app v =
    let (app', e, shown, others) = push_msg-Shows m true app.my_nick text 0 id true app v in
    (send_ui cmd app', rw (e, ◌>>=◌) refl, rw (send_ui_same cmd app').0 shown)

-- The line that a user enters in a room is the newest message there, as the user's own.
pub submit_to_room-Shows :
    (m : Moment) (text : Text) (ch : Chat) (app : MeshApp)
    → IsValid app
    → ch.is_room ≡ true
    → (app' : MeshApp) × (submit_to m text ch app ≡ some app')
      × Shows ch.id true app.my_nick text 0 app'.chats
unfolding submit_to
submit_to_room-Shows m text ch app v p =
    let name = room_name_of ch.id in
    elim (Bool-cases (text_eq app.current_room name)) [
      | inl e ↦ rw (p, e) (push_then_send m ch.id text (room name text) app v)
      | inr e ↦
          let joined = send_ui (join name []) app in
          let (chats, active, nick) = send_ui_same (join name []) app in
          let (app', k, shown) =
            push_then_send m ch.id text (room name text) joined
              (IsValid-same app joined chats active v) in
          (app', rw (p, e) k, subst (λ n. Shows ch.id true n text 0 app'.chats) nick shown)
    ]

-- A message that arrives from a room is the newest one in the chat of the room.
pub on_room_msg-Shows :
    (m : Moment) (from text name : Text) (app : MeshApp)
    → IsValid app
    → text_eq from app.me ≡ false
    → is_empty name ≡ false
    → (app' : MeshApp) × (on_msg m from text (some name) app ≡ some app')
      × Shows (room_chat_id name) false (display_name from app) text 0 app'.chats
unfolding on_msg room_given show_room
on_room_msg-Shows m from text name app v k full =
    let sender = display_name from app in
    let seen = is_selected (room_chat_id name) app in
    let (chats, active) = toast_unless_same seen sender text app in
    let toasted = toast_unless seen sender text app in
    let (app', e, shown, others) =
      push_msg-Shows m false sender text 0 (room_chat_id name) true toasted
        (IsValid-same app toasted chats active v) in
    (app', rw (k, full) e, shown)

-- The line that a user enters in a private chat is the newest message there, as the user's own.
pub submit_to-Shows :
    (m : Moment) (text : Text) (ch : Chat) (app : MeshApp)
    → IsValid app
    → ch.is_room ≡ false
    → (app' : MeshApp) × (submit_to m text ch app ≡ some app')
      × Shows ch.id true app.my_nick text 0 app'.chats
unfolding submit_to
submit_to-Shows m text ch app v p =
    let (app', e, shown, others) = push_msg-Shows m true app.my_nick text 0 ch.id false app v in
    (
      send_ui (priv ch.id text) app',
      rw (p, e, ◌>>=◌) refl,
      rw (send_ui_same (priv ch.id text) app').0 shown,
    )

-- A private message that arrives is the newest one in the chat with its sender.
pub on_msg-Shows :
    (m : Moment) (from text : Text) (app : MeshApp)
    → IsValid app
    → text_eq from app.me ≡ false
    → (app' : MeshApp) × (on_msg m from text none app ≡ some app')
      × Shows from false (display_name from app) text 0 app'.chats
unfolding on_msg room_given
on_msg-Shows m from text app v k =
    let name = display_name from app in
    let toasted = toast_unless (is_first_selected from app) name text app in
    let (chats, active) = toast_unless_same (is_first_selected from app) name text app in
    let (app', e, shown, others) =
      push_msg-Shows m false name text 0 from false toasted
        (IsValid-same app toasted chats active v) in
    (app', rw k e, shown)

-- In a valid state with a connection, a line that is neither blank nor a command is, trimmed, the
-- newest message of the selected chat, as the user's own, and what goes to the network thread is
-- exactly this: for a private chat the text to its user, for a room the text to the room, behind a
-- request to join it if it is not the current one. Nothing panics.
pub submit_input_lem :
    (m : Moment) (app : MeshApp) (ch : Chat)
    → IsValid app
    → app.connected ≡ true
    → app.has_channel ≡ true
    → is_empty (trim app.input) ≡ false
    → starts_with (codes "/") (trim app.input) ≡ false
    → get_elem? app.chats app.active ≡ some ch
    → (app' : MeshApp) × (submit_input m app ≡ some app')
      × Shows ch.id true app.my_nick (trim app.input) 0 app'.chats
      × (app'.sent ≡ app.sent ++ outgoing (trim app.input) ch app)
submit_input_lem m app ch v on channel full plain selected =
    let cleared : MeshApp = record app { input = [] } in
    let valid = IsValid-same app cleared refl refl v in
    let (app', e, sent) = submit_input_sends m app ch v on channel full plain selected in
    let at_end = sym (submit_input_reaches m app ch on full plain selected) ∙ e in
    let stored : Shows ch.id true app.my_nick (trim app.input) 0 app'.chats =
      elim (Bool-cases ch.is_room) [
        | inl r ↦
            let (app1, k, shown) = submit_to_room-Shows m (trim app.input) ch cleared valid r in
            same_Shows ch.id app.my_nick (trim app.input) app1 app' (sym k ∙ at_end) shown
        | inr r ↦
            let (app1, k, shown) = submit_to-Shows m (trim app.input) ch cleared valid r in
            same_Shows ch.id app.my_nick (trim app.input) app1 app' (sym k ∙ at_end) shown
      ] in
    (app', e, stored, sent)
  where
    same_Shows :
        (id nick text : Text) (app1 app2 : MeshApp)
        → some app1 ≡ some app2
        → Shows id true nick text 0 app1.chats
        → Shows id true nick text 0 app2.chats
    same_Shows id nick text app1 app2 same shown =
        subst (λ (a : MeshApp). Shows id true nick text 0 a.chats) (some-injective app1 app2 same)
          shown
