-- ===== src/App/Session/LoggedOut.antt =====
-- The window behind a logout: what can happen until somebody logs in.
use e2e_console_messenger.Base.{
  ◌≡◌, ◌∙◌, refl, ap, Bool, true, false, Option, some, List, [], ◌∷◌, All, Text, if◌then◌else◌,
  ◌>>=◌, arith,
}
use e2e_console_messenger.Net.State.{UiCmd}
use e2e_console_messenger.App.State.{Chat, connect, MeshApp, send_ui}
use e2e_console_messenger.App.Events.{poll_events}
use e2e_console_messenger.App.Login.{
  Field, at_user, password, reg_nick, reg_bio, host, port, search, p_nick, p_bio, p_new_user,
  p_old_pass, p_new_pass, cr_name, cr_pass, jr_name, jr_pass, edit, draw_auth_toggle, click_delete,
  log_out,
}
use e2e_console_messenger.App.Login.Laws.{click_delete_kept}
use e2e_console_messenger.App.Session.{
  Action, polled, focuses, edits, registers, remembers, logs_in, logs_in_as, deletes, logs_out,
  toggles_keys, opens_profile, opens_create_room, opens_join_room, on_room_row, on_private_row,
  on_user_row, clears_search, searches, on_message, types, enters, picks, exports, in_reaction_menu,
  hides, in_profile, in_create_room, in_join_room, in_whois, in_fingerprints, on_login, is_shown,
  act_on, step, run,
}

-- An action that logs in.
abbrev pub is_login : Action → Bool
is_login (logs_in _) = true
is_login (logs_in_as _ _) = true
is_login _ = false

-- What a logged-out window keeps: no channel to the network thread, what was sent into it, the chats
-- and the user's name.
pub record IsOut (sent : List UiCmd) (chats : List Chat) (me : Text) (app : MeshApp) : Type 0 where
  pub on_connect : app.screen ≡ connect
  pub no_channel : app.has_channel ≡ false
  pub same_sent : app.sent ≡ sent
  pub same_chats : app.chats ≡ chats
  pub same_me : app.me ≡ me

module _ (sent : List UiCmd) (chats : List Chat) (me : Text) where
  -- Nothing of this changes.
  IsOut-same :
      (app app' : MeshApp)
      → app'.screen ≡ app.screen
      → app'.has_channel ≡ app.has_channel
      → app'.sent ≡ app.sent
      → app'.chats ≡ app.chats
      → app'.me ≡ app.me
      → IsOut sent chats me app
      → IsOut sent chats me app'
  IsOut-same app app' a b d e f o = record {
    on_connect = a ∙ o.on_connect;
    no_channel = b ∙ o.no_channel;
    same_sent = d ∙ o.same_sent;
    same_chats = e ∙ o.same_chats;
    same_me = f ∙ o.same_me;
  }

  edit-IsOut :
      (field : Field) (text : Text) (app : MeshApp)
      → IsOut sent chats me app
      → IsOut sent chats me (edit field text app)
  unfolding edit
  edit-IsOut at_user text app o = IsOut-same app _ refl refl refl refl refl o
  edit-IsOut password text app o = IsOut-same app _ refl refl refl refl refl o
  edit-IsOut reg_nick text app o = IsOut-same app _ refl refl refl refl refl o
  edit-IsOut reg_bio text app o = IsOut-same app _ refl refl refl refl refl o
  edit-IsOut host text app o = IsOut-same app _ refl refl refl refl refl o
  edit-IsOut port text app o = IsOut-same app _ refl refl refl refl refl o
  edit-IsOut search text app o = IsOut-same app _ refl refl refl refl refl o
  edit-IsOut p_nick text app o = IsOut-same app _ refl refl refl refl refl o
  edit-IsOut p_bio text app o = IsOut-same app _ refl refl refl refl refl o
  edit-IsOut p_new_user text app o = IsOut-same app _ refl refl refl refl refl o
  edit-IsOut p_old_pass text app o = IsOut-same app _ refl refl refl refl refl o
  edit-IsOut p_new_pass text app o = IsOut-same app _ refl refl refl refl refl o
  edit-IsOut cr_name text app o = IsOut-same app _ refl refl refl refl refl o
  edit-IsOut cr_pass text app o = IsOut-same app _ refl refl refl refl refl o
  edit-IsOut jr_name text app o = IsOut-same app _ refl refl refl refl refl o
  edit-IsOut jr_pass text app o = IsOut-same app _ refl refl refl refl refl o

  -- The step is made, and the window stays logged out.
  abbrev StaysOut : Option MeshApp → Type 0
  StaysOut r = (app' : MeshApp) × (r ≡ some app') × IsOut sent chats me app'

  StaysOut-if :
      (b : Bool) (r q : Option MeshApp) → StaysOut r → StaysOut q → StaysOut (if b then r else q)
  StaysOut-if true r q h k = h
  StaysOut-if false r q h k = k

  module _ (lower : Text → Text) where
    step-IsOut :
        (act : Action) (app : MeshApp)
        → is_login act ≡ false
        → IsOut sent chats me app
        → StaysOut (step lower act app)
    unfolding step act_on is_shown on_login poll_events draw_auth_toggle
    step-IsOut (polled can_save evs now) app h o = (app, rw (o.no_channel) refl, o)
    step-IsOut (focuses focused) app h o = (_, refl, IsOut-same app _ refl refl refl refl refl o)
    step-IsOut (edits field text) app h o =
        StaysOut-if (is_shown (edits field text) app) _ (some app)
          (_, refl, edit-IsOut field text app o) (app, refl, o)
    step-IsOut (registers register) app h o = (
      record app { auth_mode_register = register },
      rw (o.on_connect) refl,
      IsOut-same app _ refl refl refl refl refl o,
    )
    step-IsOut (remembers remember) app h o = (
      record app { remember_me = remember },
      rw (o.on_connect) refl,
      IsOut-same app _ refl refl refl refl refl o,
    )
    step-IsOut (logs_in m) app h o = cc
    step-IsOut (logs_in_as m i) app h o = cc
    step-IsOut (deletes can_save i) app h o =
        let (app', e, a, b, d, k, f) = click_delete_kept can_save i app in
        let shown : on_login app ≡ true = rw (o.on_connect) refl in
        (
          app',
          ap (λ b. if b then click_delete can_save i app else some app) shown ∙ e,
          IsOut-same app app' a b d k f o,
        )
    step-IsOut logs_out app h o = (app, rw (o.on_connect) refl, o)
    step-IsOut toggles_keys app h o = (app, rw (o.on_connect) refl, o)
    step-IsOut opens_profile app h o = (app, rw (o.on_connect) refl, o)
    step-IsOut opens_create_room app h o = (app, rw (o.on_connect) refl, o)
    step-IsOut opens_join_room app h o = (app, rw (o.on_connect) refl, o)
    step-IsOut (on_room_row n) app h o = (app, rw (o.on_connect) refl, o)
    step-IsOut (on_private_row n) app h o = (app, rw (o.on_connect) refl, o)
    step-IsOut (on_user_row n now) app h o = (app, rw (o.on_connect) refl, o)
    step-IsOut clears_search app h o = (app, rw (o.on_connect) refl, o)
    step-IsOut (searches focused text) app h o = (app, rw (o.on_connect) refl, o)
    step-IsOut (on_message n) app h o = (app, rw (o.on_connect) refl, o)
    step-IsOut (types text now) app h o = (app, rw (o.on_connect) refl, o)
    step-IsOut (enters m) app h o = (app, rw (o.on_connect) refl, o)
    step-IsOut (picks path) app h o = (app, rw (o.on_connect) refl, o)
    step-IsOut (exports stamp) app h o = (app, rw (o.on_connect) refl, o)
    step-IsOut (in_reaction_menu escape outside clicked) app h o = (app, rw (o.on_connect) refl, o)
    step-IsOut (hides hide) app h o = (app, rw (o.on_connect) refl, o)
    step-IsOut (in_profile clicked opened) app h o = (app, rw (o.on_connect) refl, o)
    step-IsOut (in_create_room clicked opened) app h o = (app, rw (o.on_connect) refl, o)
    step-IsOut (in_join_room clicked opened) app h o = (app, rw (o.on_connect) refl, o)
    step-IsOut (in_whois now clicked opened) app h o = (app, rw (o.on_connect) refl, o)
    step-IsOut (in_fingerprints clicked opened) app h o = (app, rw (o.on_connect) refl, o)

    run-IsOut :
        (acts : List Action) (app : MeshApp)
        → All (λ act. is_login act ≡ false) acts
        → IsOut sent chats me app
        → StaysOut (run lower acts app)
    unfolding run
    run-IsOut [] app h o = (app, refl, o)
    run-IsOut (act ∷ acts) app h o =
        let (app1, e, p) = step-IsOut act app h.0 o in
        let (app2, k, q) = run-IsOut acts app1 h.1 p in (app2, rw (e, ◌>>=◌) k, q)

log_out-IsOut : (app : MeshApp) → IsOut (log_out app).sent app.chats app.me (log_out app)
unfolding log_out send_ui
log_out-IsOut app = record {
  on_connect = refl;
  no_channel = refl;
  same_sent = refl;
  same_chats = ground arith;
  same_me = ground arith;
}

-- Behind a logout, whatever the user does and whatever events are under way, until somebody logs in:
-- nothing more is sent to the network thread, no event changes the chats, and the login screen stays.
pub run-log_out :
    (lower : Text → Text) (acts : List Action) (app : MeshApp)
    → All (λ act. is_login act ≡ false) acts
    → (app' : MeshApp) × (run lower acts (log_out app) ≡ some app')
      × (app'.screen ≡ connect)
      × (app'.has_channel ≡ false)
      × (app'.sent ≡ (log_out app).sent)
      × (app'.chats ≡ app.chats)
run-log_out lower acts app h =
    let (app', e, o) =
      run-IsOut (log_out app).sent app.chats app.me lower acts (log_out app) h
        (log_out-IsOut app) in
    (app', e, o.on_connect, o.no_channel, o.same_sent, o.same_chats)
