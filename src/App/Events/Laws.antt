-- ===== src/App/Events/Laws.antt =====
-- `poll_events` of main.rs: panics and the validity of the state.
use e2e_console_messenger.Base.{
  ℕ, suc, ◌≡◌, refl, ap, Bool, true, false, Option, none, some, List, [], ◌∷◌, ◌++◌, length, map,
  take, All, Text, codes, text_eq, if◌then◌else◌, arith,
}
use e2e_console_messenger.Net.State.{
  UiCmd, Ev, line, warn, error, authed, user_list, presence, profile, profile_saved,
  username_changed, password_changed, room_changed, rooms, is_typing, msg, file_msg, reacted,
}
use e2e_console_messenger.App.State.{Moment, Chat, Screen, connect, chat, MeshApp, send_ui}
use e2e_console_messenger.App.Labels.{room_chat_id}
use e2e_console_messenger.App.Accounts.{save_accounts, save_account, forget_account}
use e2e_console_messenger.App.Chats.{chat_index, push_msg, display_name}
use e2e_console_messenger.App.Chats.Laws.{IsBounded, IsValid, chat_index_lem, push_msg_total}
use e2e_console_messenger.App.Chats.Safe.{
  Safe, Safe-of, IsValid-same, Safe-bind, Safe-some, select-Safe,
}
use e2e_console_messenger.App.Events.{
  error_on, set_presence, show_msg, show_file, on_line, on_error, keep_account, on_authed,
  rename_chats, on_username, on_room, toast_unless, room_given, on_msg, on_file, react_msg,
  react_chat, on_reaction, handle_event, handle_events, expire_typing, poll_events,
}

pub push-Safe :
    (m : Moment) (id : Text) (is_room mine : Bool) (sender text : Text) (kind : ℕ) (app : MeshApp)
    → IsValid app
    → Safe (push_msg m id is_room mine sender text kind app)
push-Safe m id is_room mine sender text kind app v =
    Safe-of _ app (push_msg_total m mine sender text kind id is_room app v)

-- The same behind a change that leaves the chats alone.
pub push-Safe_same :
    (m : Moment) (id : Text) (is_room mine : Bool) (sender text : Text) (kind : ℕ)
    (app app' : MeshApp)
    → app'.chats ≡ app.chats
    → app'.active ≡ app.active
    → IsValid app
    → Safe (push_msg m id is_room mine sender text kind app')
push-Safe_same m id is_room mine sender text kind app app' e k v =
    push-Safe m id is_room mine sender text kind app' (IsValid-same app app' e k v)

keep_account_same :
    (can_save : Bool) (app : MeshApp)
    → ((keep_account can_save app).chats ≡ app.chats)
      × ((keep_account can_save app).active ≡ app.active)
unfolding keep_account save_account forget_account save_accounts
keep_account_same can_save app = ground arith

pub send_ui_same :
    (cmd : UiCmd) (app : MeshApp)
    → ((send_ui cmd app).chats ≡ app.chats) × ((send_ui cmd app).active ≡ app.active)
unfolding send_ui
send_ui_same cmd app = ground arith

pub toast_unless_same :
    (seen : Bool) (title body : Text) (app : MeshApp)
    → ((toast_unless seen title body app).chats ≡ app.chats)
      × ((toast_unless seen title body app).active ≡ app.active)
unfolding toast_unless
toast_unless_same true title body app = (refl, refl)
toast_unless_same false title body app = (refl, refl)

-- A change of every chat that keeps the bounds keeps the state valid.
map-IsValid :
    (f : Chat → Chat) (chats : List Chat)
    → ((ch : Chat) → IsBounded ch → IsBounded (f ch))
    → All IsBounded chats
    → (length (map f chats) ≡ length chats) × All IsBounded (map f chats)
map-IsValid f [] k b = (refl, tt)
map-IsValid f (ch ∷ chats) k b = let (n, r) = map-IsValid f chats k b.1 in (ap suc n, (k ch b.0, r))

length-map {ℓ} : {A : Type ℓ} (f : A → A) (xs : List A) → length (map f xs) ≡ length xs
length-map f [] = refl
length-map f (x ∷ xs) = ap suc (length-map f xs)

rename_one :
    (old new : Text) (ch : Chat)
    → IsBounded ch
    → IsBounded (if text_eq ch.id old then record ch { id = new } else ch)
rename_one old new ch b = ground arith

react_chat-IsBounded :
    (emoji target : Text) (room : Option Text) (ch : Chat)
    → IsBounded ch
    → IsBounded (react_chat emoji target room ch)
unfolding react_chat
react_chat-IsBounded emoji target room ch b =
    ground (arith, length-map (react_msg emoji target) ch.msgs)

on_username-Safe :
    (m : Moment) (nu : Text) (app : MeshApp) → IsValid app → Safe (on_username m nu app)
unfolding on_username rename_chats
on_username-Safe m nu app v =
    let (n, b) = map-IsValid _ app.chats (rename_one app.me nu) v.bounded in
    push-Safe m _ _ _ _ _ _ _ (record { selected = omega (arith, v.selected, n); bounded = b })

on_room-Safe : (m : Moment) (room : Text) (app : MeshApp) → IsValid app → Safe (on_room m room app)
unfolding on_room
on_room-Safe m room app v =
    let app0 : MeshApp = record app { current_room = room } in
    let placed = chat_index m.instant (room_chat_id room) true app0 in
    let (h, v', e) =
      chat_index_lem m.instant (room_chat_id room) true app0 (IsValid-same app app0 refl refl v) in
    Safe-bind _ _ (select-Safe placed.0 _ placed.1 v' h (λ ch b. b) (λ ch. refl))
      (λ a w. push-Safe m _ _ _ _ _ _ a w)

Safe-if : (b : Bool) (r q : Option MeshApp) → Safe r → Safe q → Safe (if b then r else q)
Safe-if true r q hr hq = hr
Safe-if false r q hr hq = hq

push_toast-Safe :
    (m : Moment) (id : Text) (is_room seen : Bool) (name text : Text) (kind : ℕ) (app : MeshApp)
    → IsValid app
    → Safe (push_msg m id is_room false name text kind (toast_unless seen name text app))
push_toast-Safe m id is_room seen name text kind app v =
    let (e, k) = toast_unless_same seen name text app in
    push-Safe_same m id is_room false name text kind app (toast_unless seen name text app) e k v

on_msg-Safe :
    (m : Moment) (from text : Text) (room : Option Text) (app : MeshApp)
    → IsValid app
    → Safe (on_msg m from text room app)
unfolding on_msg
on_msg-Safe m from text room app v =
    Safe-if (text_eq from app.me) _ _ (Safe-some app v) (shown (room_given room))
  where
    shown : (o : Option Text) → Safe (show_msg m from (display_name from app) text o app)
    shown (some r) = push_toast-Safe m _ _ _ _ _ _ app v
    shown none = push_toast-Safe m _ _ _ _ _ _ app v

on_file-Safe :
    (m : Moment) (from name : Text) (room : Option Text) (app : MeshApp)
    → IsValid app
    → Safe (on_file m from name room app)
unfolding on_file
on_file-Safe m from name room app v = shown (room_given room)
  where
    shown :
        (o : Option Text)
        → Safe (
            show_file m from
              (display_name from app)
              (codes "📎 файл «" ++ (name ++ codes "» сохранён в downloads/"))
              o
              app)
    shown (some r) = push_toast-Safe m _ _ _ _ _ _ app v
    shown none = push-Safe m _ _ _ _ _ _ app v

send_ui_safe : (cmd : UiCmd) (app : MeshApp) → IsValid app → IsValid (send_ui cmd app)
send_ui_safe cmd app v =
    let (e, k) = send_ui_same cmd app in IsValid-same app (send_ui cmd app) e k v

pub on_authed-Safe :
    (can_save : Bool) (m : Moment) (app : MeshApp) → IsValid app → Safe (on_authed can_save m app)
unfolding on_authed
on_authed-Safe can_save m app v =
    let app1 : MeshApp = record app { authed = true; connect_error = none; screen = chat } in
    let (e, k) = keep_account_same can_save app1 in
    let app2 = keep_account can_save app1 in
    Safe-bind _ _
      (push-Safe_same m _ _ _ _ _ _ app (record app2 { saved_accounts = app2.stored_accounts }) e k
        v)
      (λ a w. Safe-some _ (send_ui_safe _ _ (send_ui_safe _ a w)))

on_line-Safe : (m : Moment) (t : Text) (app : MeshApp) → IsValid app → Safe (on_line m t app)
unfolding on_line
on_line-Safe m t app v =
    Safe-if (text_eq t (codes "__DISCONNECTED__")) _ _
      (push-Safe_same m _ _ _ _ _ _ app _ refl refl v) (push-Safe m _ _ _ _ _ _ app v)

IsValid-if :
    (b : Bool) (app app' : MeshApp) → IsValid app → IsValid app' → IsValid (if b then app else app')
IsValid-if true app app' v v' = v
IsValid-if false app app' v v' = v'

expire_typing_same :
    (now : ℕ) (app : MeshApp)
    → ((expire_typing now app).chats ≡ app.chats) × ((expire_typing now app).active ≡ app.active)
unfolding expire_typing
expire_typing_same now app = ground arith

on_error-Safe : (m : Moment) (t : Text) (app : MeshApp) → IsValid app → Safe (on_error m t app)
unfolding on_error
on_error-Safe m t app v = at app.screen
  where
    at : (screen : Screen) → Safe (error_on screen m t app)
    at connect = Safe-some _ (IsValid-same app _ refl refl v)
    at chat = push-Safe m _ _ _ _ _ _ app v

-- Whatever event arrives in a valid state, it is handled without a panic, and the state behind it is
-- valid: the selection points at a chat and no history is longer than its limit.
pub handle_event-Safe :
    (can_save : Bool) (m : Moment) (ev : Ev) (app : MeshApp)
    → IsValid app
    → Safe (handle_event can_save m ev app)
unfolding handle_event
handle_event-Safe can_save m (line t) app v = on_line-Safe m t app v
handle_event-Safe can_save m (warn t) app v = push-Safe m _ _ _ _ _ _ app v
handle_event-Safe can_save m (error t) app v = on_error-Safe m t app v
handle_event-Safe can_save m authed app v = on_authed-Safe can_save m app v
handle_event-Safe can_save m (user_list users) app v = Safe-some _ (IsValid-same app _ refl refl v)
handle_event-Safe can_save m (presence user online nick) app v =
    let app' : MeshApp = record app { users = set_presence user online nick app.users } in
    Safe-some _ (IsValid-if (text_eq user app.me) app app' v (IsValid-same app app' refl refl v))
handle_event-Safe can_save m (profile user nick online bio) app v =
    Safe-some _ (IsValid-same app _ refl refl v)
handle_event-Safe can_save m (profile_saved nick bio hide) app v =
    push-Safe_same m _ _ _ _ _ _ app _ refl refl v
handle_event-Safe can_save m (username_changed nu) app v = on_username-Safe m nu app v
handle_event-Safe can_save m password_changed app v = push-Safe_same m _ _ _ _ _ _ app _ refl refl v
handle_event-Safe can_save m (room_changed room) app v = on_room-Safe m room app v
handle_event-Safe can_save m (rooms t) app v = Safe-some app v
handle_event-Safe can_save m (is_typing from) app v = Safe-some _ (IsValid-same app _ refl refl v)
handle_event-Safe can_save m (msg from text room) app v = on_msg-Safe m from text room app v
handle_event-Safe can_save m (file_msg from name room) app v = on_file-Safe m from name room app v
handle_event-Safe can_save m (reacted emoji target room) app v =
    let (n, b) =
      map-IsValid (react_chat emoji (take 80 target) room) app.chats
        (react_chat-IsBounded emoji (take 80 target) room) v.bounded in
    Safe-some _
      (unfold on_reaction in record { selected = omega (arith, v.selected, n); bounded = b })

handle_events-Safe :
    (can_save : Bool) (evs : List (Moment × Ev)) (app : MeshApp)
    → IsValid app
    → Safe (handle_events can_save evs app)
unfolding handle_events
handle_events-Safe can_save [] app v = Safe-some app v
handle_events-Safe can_save ((m, ev) ∷ evs) app v =
    Safe-bind _ _ (handle_event-Safe can_save m ev app v)
      (λ a w. handle_events-Safe can_save evs a w)

-- From a valid state a poll handles any events without a panic, and the state behind it is valid: the
-- selection points at a chat and no history is longer than its limit.
pub poll_events-Safe :
    (can_save : Bool) (evs : List (Moment × Ev)) (now : ℕ) (app : MeshApp)
    → IsValid app
    → Safe (poll_events can_save evs now app)
unfolding poll_events
poll_events-Safe can_save evs now app v =
    Safe-if app.has_channel _ _
      (Safe-bind _ _ (handle_events-Safe can_save evs app v) (λ a w.
        let (e, k) = expire_typing_same now a in
        Safe-some _ (IsValid-same a (expire_typing now a) e k w)))
      (Safe-some app v)
