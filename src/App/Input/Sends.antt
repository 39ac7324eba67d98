-- ===== src/App/Input/Sends.antt =====
-- `submit_input` of main.rs: what an entered line sends to the network thread.
use e2e_console_messenger.Base.{
  ℕ, ◌≡◌, ◌∙◌, refl, sym, ap, inl, inr, Bool, true, false, Option, none, some, List, [], ◌∷◌, ◌++◌,
  append_assoc, ◌==◌, ◌&&◌, not, get_elem?, Text, codes, text_eq, is_empty, trim, starts_with,
  if◌then◌else◌, ◌>>=◌, bind_inv, Option-cases, Bool-cases,
}
use mathlib.Core.Option.{some-injective}
use e2e_console_messenger.Net.State.{UiCmd, join, room, priv}
use e2e_console_messenger.App.State.{Moment, Chat, MeshApp, send_ui}
use e2e_console_messenger.App.Labels.{room_name_of}
use e2e_console_messenger.App.Chats.{
  position, modify, remove, chat_index, add_msg, raise, push_at, push_msg,
}
use e2e_console_messenger.App.Chats.Laws.{IsValid}
use e2e_console_messenger.App.Input.{submit_to, submit_input}
use e2e_console_messenger.App.Input.Laws.{submit_input-Safe}

-- Nothing was sent between two states, and no account saved.
pub record Quiet (app app' : MeshApp) : Type 0 where
  pub same_sent : app'.sent ≡ app.sent
  pub same_channel : app'.has_channel ≡ app.has_channel
  pub same_stored : app'.stored_accounts ≡ app.stored_accounts
  pub same_saved : app'.saved_accounts ≡ app.saved_accounts

Quiet-if :
    (b : Bool) (app mid app' : MeshApp) (r : Option MeshApp)
    → Quiet app mid
    → (r ≡ some app' → Quiet app app')
    → (if b then r else some mid) ≡ some app'
    → Quiet app app'
Quiet-if true app mid app' r q k h = k h
Quiet-if false app mid app' r q k h =
    let e = some-injective mid app' h in
    record {
      same_sent = ap (λ (a : MeshApp). a.sent) (sym e) ∙ q.same_sent;
      same_channel = ap (λ (a : MeshApp). a.has_channel) (sym e) ∙ q.same_channel;
      same_stored = ap (λ (a : MeshApp). a.stored_accounts) (sym e) ∙ q.same_stored;
      same_saved = ap (λ (a : MeshApp). a.saved_accounts) (sym e) ∙ q.same_saved;
    }

raise-Quiet : (idx : ℕ) (app app' : MeshApp) → raise idx app ≡ some app' → Quiet app app'
unfolding raise
raise-Quiet idx app app' h =
    let (ch, e, h1) = bind_inv (get_elem? app.chats app.active) _ h in
    let (taken, k, h2) = bind_inv (remove idx app.chats) _ h1 in
    Quiet-if false app _ app' none
      (record { same_sent = refl; same_channel = refl; same_stored = refl; same_saved = refl })
      (λ x. cc) h2

push_at-Quiet :
    (m : Moment) (idx : ℕ) (mine : Bool) (sender text : Text) (kind : ℕ) (app app' : MeshApp)
    → push_at m idx mine sender text kind app ≡ some app'
    → Quiet app app'
unfolding push_at
push_at-Quiet m idx mine sender text kind app app' h =
    let active = app.active == idx in
    let (chats, e, h1) =
      bind_inv (modify idx (add_msg m active mine sender text kind) app.chats) _ h in
    Quiet-if (not active && not (idx == 0)) app _ app' _
      (record { same_sent = refl; same_channel = refl; same_stored = refl; same_saved = refl })
      (λ k.
        let q = raise-Quiet idx _ app' k in
        record {
          same_sent = q.same_sent;
          same_channel = q.same_channel;
          same_stored = q.same_stored;
          same_saved = q.same_saved;
        })
      h1

pub push_msg-Quiet :
    (m : Moment) (id : Text) (is_room mine : Bool) (sender text : Text) (kind : ℕ)
    (app app' : MeshApp)
    → push_msg m id is_room mine sender text kind app ≡ some app'
    → Quiet app app'
unfolding push_msg chat_index
push_msg-Quiet m id is_room mine sender text kind app app' h =
    elim (Option-cases (position id app.chats)) [
      | inl e ↦
          let q = push_at-Quiet m _ mine sender text kind _ app' (rw (e, chat_index) at h) in
          record {
            same_sent = q.same_sent;
            same_channel = q.same_channel;
            same_stored = q.same_stored;
            same_saved = q.same_saved;
          }
      | inr (i, e) ↦ push_at-Quiet m i mine sender text kind app app' (rw (e, chat_index) at h)
    ]

send_ui-sent :
    (cmd : UiCmd) (app : MeshApp)
    → app.has_channel ≡ true
    → ((send_ui cmd app).sent ≡ app.sent ++ cmd ∷ []) × ((send_ui cmd app).has_channel ≡ true)
unfolding send_ui
send_ui-sent cmd app h = rw h (refl, refl)

-- A message shown and a command sent behind it.
then_sent :
    (m : Moment) (id : Text) (is_room : Bool) (sender text : Text) (cmd : UiCmd)
    (app app' : MeshApp)
    → app.has_channel ≡ true
    → (push_msg m id is_room true sender text 0 app >>= λ a. some (send_ui cmd a)) ≡ some app'
    → app'.sent ≡ app.sent ++ cmd ∷ []
then_sent m id is_room sender text cmd app app' on h =
    let (mid, e, k) = bind_inv (push_msg m id is_room true sender text 0 app) _ h in
    let q = push_msg-Quiet m id is_room true sender text 0 app mid e in
    ap (λ (a : MeshApp). a.sent) (sym (some-injective (send_ui cmd mid) app' k))
    ∙ (send_ui-sent cmd mid (q.same_channel ∙ on)).0
    ∙ ap (λ l. l ++ cmd ∷ []) q.same_sent

-- The commands for a line: in a room, the room is joined first if it is not the current one.
abbrev pub outgoing : Text → Chat → MeshApp → List UiCmd
outgoing text ch app =
    if ch.is_room
    then (if text_eq app.current_room (room_name_of ch.id)
        then room (room_name_of ch.id) text ∷ []
        else join (room_name_of ch.id) [] ∷ room (room_name_of ch.id) text ∷ [])
    else priv ch.id text ∷ []

submit_to-sent :
    (m : Moment) (text : Text) (ch : Chat) (app app' : MeshApp)
    → app.has_channel ≡ true
    → submit_to m text ch app ≡ some app'
    → app'.sent ≡ app.sent ++ outgoing text ch app
unfolding submit_to
submit_to-sent m text ch app app' on h =
    let name = room_name_of ch.id in
    elim (Bool-cases ch.is_room) [
      | inl r ↦ elim (Bool-cases (text_eq app.current_room name)) [
        | inl e ↦
            rw (r, e)
              (then_sent m ch.id true app.my_nick text (room name text) app app' on
                (rw (r, e) at h))
        | inr e ↦
            let joined = send_ui (join name []) app in
            let (sent, still) = send_ui-sent (join name []) app on in
            rw (r, e)
              (then_sent m ch.id true joined.my_nick text (room name text) joined app' still
                  (rw (r, e) at h)
                ∙ ap (λ l. l ++ room name text ∷ []) sent
                ∙ append_assoc app.sent (join name [] ∷ []) (room name text ∷ []))
      ]
      | inr r ↦
          rw r (then_sent m ch.id false app.my_nick text (priv ch.id text) app app' on (rw r at h))
    ]

-- What is done with a line that is neither blank nor a command while there is a connection.
last_branch :
    (blank on slash : Bool) (a b c d : Option MeshApp)
    → blank ≡ false
    → on ≡ true
    → slash ≡ false
    → (if blank then a else if not on then b else if slash then c else d) ≡ d
last_branch blank on slash a b c d h k l = rw (h, k, l) refl

pub submit_input_reaches :
    (m : Moment) (app : MeshApp) (ch : Chat)
    → app.connected ≡ true
    → is_empty (trim app.input) ≡ false
    → starts_with (codes "/") (trim app.input) ≡ false
    → get_elem? app.chats app.active ≡ some ch
    → submit_input m app ≡ submit_to m (trim app.input) ch (record app { input = [] })
unfolding submit_input
submit_input_reaches m app ch on full plain selected =
    let cleared : MeshApp = record app { input = [] } in
    last_branch (is_empty (trim app.input)) app.connected (starts_with (codes "/") (trim app.input))
      _ _ _ _ full on plain
    ∙ ap (λ o. o >>= λ ch. submit_to m (trim app.input) ch cleared) selected

-- In a valid state with a connection, a line that is not blank and is no command is stored without a
-- panic, and what goes to the network thread is exactly this: for a private chat the text to its
-- user, for a room the text to the room, behind a request to join it if it is not the current one.
pub submit_input_sends :
    (m : Moment) (app : MeshApp) (ch : Chat)
    → IsValid app
    → app.connected ≡ true
    → app.has_channel ≡ true
    → is_empty (trim app.input) ≡ false
    → starts_with (codes "/") (trim app.input) ≡ false
    → get_elem? app.chats app.active ≡ some ch
    → (app' : MeshApp) × (submit_input m app ≡ some app')
      × (app'.sent ≡ app.sent ++ outgoing (trim app.input) ch app)
submit_input_sends m app ch v on channel full plain selected =
    let (app', e, w) = submit_input-Safe m app v in
    let reached = submit_input_reaches m app ch on full plain selected in
    (
      app',
      e,
      submit_to-sent m (trim app.input) ch (record app { input = [] }) app' channel
          (sym reached ∙ e),
    )
