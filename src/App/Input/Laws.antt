-- ===== src/App/Input/Laws.antt =====
-- `start_connect`, `submit_input`, typing and clicks in main.rs: panics and the validity of the state.
use e2e_console_messenger.Base.{
  ℕ, ◌<◌, ◌≡◌, refl, inl, inr, Bool, true, false, Option, some, List, [], ◌&&◌, ◌||◌, not, length,
  get_elem?, get_elem?_total, Text, codes, text_eq, is_empty, trim, starts_with, if◌then◌else◌,
  ◌>>=◌, arith, Option-cases,
}
use e2e_console_messenger.Net.State.{UiCmd, register, login, join}
use e2e_console_messenger.App.State.{
  Moment, Chat, MeshApp, SavedAccount, sys_chat, new_chat, default_app, send_ui,
}
use e2e_console_messenger.App.Labels.{room_name_of}
use e2e_console_messenger.App.Chats.{position, select}
use e2e_console_messenger.App.Chats.Laws.{IsValid, position_found}
use e2e_console_messenger.App.Chats.Safe.{
  Safe, IsValid-same, Safe-bind, Safe-some, select-Safe, open_private-Safe,
}
use e2e_console_messenger.App.Events.Laws.{push-Safe, send_ui_same}
use e2e_console_messenger.App.Input.{
  connect_user, connecting, start_connect, submit_to, submit_input, maybe_send_typing, switch_chat,
  click_user,
}

pub send_ui_safe : (cmd : UiCmd) (app : MeshApp) → IsValid app → IsValid (send_ui cmd app)
send_ui_safe cmd app v =
    let (e, k) = send_ui_same cmd app in IsValid-same app (send_ui cmd app) e k v

pub IsValid-unless :
    (b : Bool) (app app' : MeshApp) → IsValid app → IsValid app' → IsValid (if b then app else app')
IsValid-unless true app app' v w = v
IsValid-unless false app app' v w = w

Safe-choice : (b : Bool) (r r' : Option MeshApp) → Safe r → Safe r' → Safe (if b then r else r')
Safe-choice true r r' s t = s
Safe-choice false r r' s t = t

-- Sent behind a step.
then_send : (r : Option MeshApp) (cmd : UiCmd) → Safe r → Safe (r >>= λ app. some (send_ui cmd app))
then_send r cmd s = Safe-bind r _ s (λ app v. Safe-some _ (send_ui_safe cmd app v))

-- The window starts in a valid state, whatever accounts are saved.
pub default_app-IsValid :
    (now : ℕ) (host port : Text) (accounts : List SavedAccount)
    → IsValid (default_app now host port accounts)
unfolding default_app new_chat
default_app-IsValid now host port accounts = record {
  selected = omega arith;
  bounded = (omega arith, (omega arith, tt));
}

submit_to-Safe :
    (m : Moment) (text : Text) (ch : Chat) (app : MeshApp)
    → IsValid app
    → Safe (submit_to m text ch app)
unfolding submit_to
submit_to-Safe m text ch app v =
    let joined =
      if text_eq app.current_room (room_name_of ch.id)
      then app
      else send_ui (join (room_name_of ch.id) []) app in
    let w : IsValid joined =
      IsValid-unless (text_eq app.current_room (room_name_of ch.id)) app _ v
        (send_ui_safe _ app v) in
    Safe-choice ch.is_room _ _
      (then_send _ _ (push-Safe m ch.id true true joined.my_nick text 0 joined w))
      (then_send _ _ (push-Safe m ch.id false true app.my_nick text 0 app v))

-- The selected chat is there.
pub with_selected :
    (f : Chat → Option MeshApp) (app : MeshApp)
    → IsValid app
    → ((ch : Chat) → Safe (f ch))
    → Safe (get_elem? app.chats app.active >>= f)
with_selected f app v h =
    let (ch, e) = get_elem?_total app.chats app.active v.selected in rw (e, ◌>>=◌) (h ch)

-- Whatever line is entered in a valid state is handled without a panic, and the state stays valid.
pub submit_input-Safe : (m : Moment) (app : MeshApp) → IsValid app → Safe (submit_input m app)
unfolding submit_input
submit_input-Safe m app v =
    let text = trim app.input in
    let app1 : MeshApp = record app { input = [] } in
    let w : IsValid app1 = IsValid-same app app1 refl refl v in
    Safe-choice (is_empty text) _ _ (Safe-some app v) (
      Safe-choice (not app.connected) _ _ (push-Safe m _ _ _ _ _ _ app1 w) (
        Safe-choice (starts_with (codes "/") text) _ _
          (Safe-choice (text_eq text (codes "/fingerprints")) _ _
            (Safe-some _ (IsValid-same app _ refl refl v)) (Safe-some _ (send_ui_safe _ app1 w)))
          (with_selected (λ ch. submit_to m text ch app1) app1 w
            (λ ch. submit_to-Safe m text ch app1 w))))

-- From a valid state a connection is started without a panic, and the state behind it is valid.
pub start_connect_safe :
    (lower : Text → Text) (m : Moment) (app : MeshApp)
    → IsValid app
    → (user : Text) × (app' : MeshApp) × (start_connect lower m app ≡ some (user, app'))
      × IsValid app'
unfolding start_connect
start_connect_safe lower m app v =
    let start = connecting lower app in
    let cmd = if app.auth_mode_register then register app.password else login app.password in
    let (app', e, w) =
      push-Safe m sys_chat false false (codes "система") (codes "Подключаемся…") 0 start
        (IsValid-same app start (unfold connecting in refl) (unfold connecting in refl) v) in
    (connect_user lower app.at_user, send_ui cmd app', rw (e, ◌>>=◌), send_ui_safe cmd app' w)

select_sent :
    (b : Bool) (cmd : UiCmd) (i : ℕ) (app : MeshApp)
    → IsValid app
    → i < length app.chats
    → Safe (select i (λ ch. record ch { unread = 0 }) (if b then send_ui cmd app else app))
select_sent true cmd i app v h =
    select-Safe i _ (send_ui cmd app) (send_ui_safe cmd app v) (rw ((send_ui_same cmd app).0) h)
      (λ ch b. b) (λ ch. refl)
select_sent false cmd i app v h = select-Safe i _ app v h (λ ch b. b) (λ ch. refl)

-- A click on a chat of the list selects it.
pub switch_chat-Safe :
    (i : ℕ) (app : MeshApp) → IsValid app → i < length app.chats → Safe (switch_chat i app)
unfolding switch_chat
switch_chat-Safe i app v h =
    let (ch, e) = get_elem?_total app.chats i h in
    let b = ch.is_room && not (text_eq app.current_room (room_name_of ch.id)) in
    rw (e, ◌>>=◌) (select_sent b (join (room_name_of ch.id) []) i app v h)

-- From a valid state a click on a user, whose chat is there or is made, ends without a panic in a valid
-- state.
pub click_user-Safe :
    (now : ℕ) (at : Text) (app : MeshApp) → IsValid app → Safe (click_user now at app)
unfolding click_user
click_user-Safe now at app v = elim (Option-cases (position at app.chats)) [
  | inl e ↦ rw (e, click_user) (then_send _ _ (open_private-Safe now at app v))
  | inr (i, e) ↦ rw (e, click_user) (switch_chat-Safe i app v (position_found at app.chats i e).1)
]

-- From a valid state a change of the input line is handled without a panic, and the state behind it is
-- valid.
pub maybe_send_typing-Safe :
    (changed : Bool) (now : ℕ) (app : MeshApp)
    → IsValid app
    → Safe (maybe_send_typing changed now app)
unfolding maybe_send_typing
maybe_send_typing-Safe changed now app v = Safe-choice (not changed) _ _ (Safe-some app v) (
    with_selected _ app v (λ ch. Safe-some _ (
      IsValid-unless (ch.is_room || not app.authed) app _ v (
        IsValid-unless _ _ _
          (send_ui_safe _ (record app { last_typing_sent = some now })
            (IsValid-same app _ refl refl v))
          v))))
