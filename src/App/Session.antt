-- ===== src/App/Session.antt =====
-- The window from its start on: any sequence of events, clicks and lines, in main.rs the rounds of
-- `update`. What is not drawn is not clicked: an action on a part of the window that the screen does
-- not show, or on a row that is not there, changes nothing.
pub mod Laws
pub mod LoggedOut
use e2e_console_messenger.Base.{
  ℕ, Bool, true, false, Option, none, some, List, [], ◌∷◌, ◌&&◌, ◌||◌, not, get_elem?, Text,
  text_eq, is_empty, ◌>>=◌, if◌then◌else◌,
}
use e2e_console_messenger.Net.State.{Ev}
use e2e_console_messenger.App.State.{Moment, Chat, User, Screen, connect, chat, MeshApp}
use e2e_console_messenger.App.Events.{poll_events}
use e2e_console_messenger.App.Input.{submit_input, maybe_send_typing, switch_chat, click_user}
use e2e_console_messenger.App.Sidebar.{room_rows, private_rows, user_rows}
use e2e_console_messenger.App.Windows.{
  ProfileButton, WhoisButton, draw_profile_window, draw_create_room_window, draw_join_room_window,
  draw_whois_window, draw_fingerprints, open_reaction_menu, draw_reaction_menu, send_picked,
}
use e2e_console_messenger.App.Export.{export_chat}
use e2e_console_messenger.App.Login.{
  Field, at_user, password, reg_nick, reg_bio, host, port, search, p_nick, p_bio, p_new_user,
  p_old_pass, p_new_pass, cr_name, cr_pass, jr_name, jr_pass, edit, draw_auth_toggle,
  draw_auth_button, quick_login, click_delete, log_out, toggle_fingerprints, open_profile,
  open_create_room, open_join_room,
}

pub data Action : Type 0 where
  -- whether files can be saved, the events that wait, and the time
  polled : Bool → List (Moment × Ev) → ℕ → Action
  -- the window gains or loses the focus
  focuses : Bool → Action
  edits : Field → Text → Action
  -- the login screen; a number is that of a saved account
  registers : Bool → Action
  remembers : Bool → Action
  logs_in : Moment → Action
  logs_in_as : Moment → ℕ → Action
  deletes : Bool → ℕ → Action
  -- the sidebar; a number is that of a row
  logs_out toggles_keys opens_profile opens_create_room opens_join_room : Action
  on_room_row : ℕ → Action
  on_private_row : ℕ → Action
  on_user_row : ℕ → ℕ → Action
  -- the chat; the search has the focus or not
  clears_search : Action
  searches : Bool → Text → Action
  on_message : ℕ → Action
  types : Text → ℕ → Action
  enters : Moment → Action
  picks : Text → Action
  exports : Text → Action
  -- the windows
  in_reaction_menu : Bool → Bool → Option ℕ → Action
  hides : Bool → Action
  in_profile : Option ProfileButton → Bool → Action
  in_create_room : Bool → Bool → Action
  in_join_room : Bool → Bool → Action
  in_whois : ℕ → Option WhoisButton → Bool → Action
  in_fingerprints : Option Text → Bool → Action

-- The input field, then `maybe_send_typing(self.input != before)`.
unfoldable pub type_input : Text → ℕ → MeshApp → Option MeshApp
type_input text now app =
    maybe_send_typing (not (text_eq text app.input)) now (record app { input = text })

-- A row that is not there is not clicked.
unfoldable pub click_row : Option (ℕ × Chat) → MeshApp → Option MeshApp
click_row none app = some app
click_row (some (i, _)) app = switch_chat i app

unfoldable pub click_user_row : ℕ → Option User → MeshApp → Option MeshApp
click_user_row now none app = some app
click_user_row now (some u) app = click_user now u.at app

unfoldable pub on_login : MeshApp → Bool
on_login app = elim app.screen [ connect ↦ true | chat ↦ false ]

unfoldable pub field_shown : Field → MeshApp → Bool
unfolding on_login
field_shown at_user app = on_login app
field_shown password app = on_login app
field_shown host app = on_login app
field_shown port app = on_login app
field_shown reg_nick app = on_login app && app.auth_mode_register
field_shown reg_bio app = on_login app && app.auth_mode_register
field_shown search app = not (on_login app)
field_shown p_nick app = not (on_login app) && app.show_profile
field_shown p_bio app = not (on_login app) && app.show_profile
field_shown p_new_user app = not (on_login app) && app.show_profile
field_shown p_old_pass app = not (on_login app) && app.show_profile
field_shown p_new_pass app = not (on_login app) && app.show_profile
field_shown cr_name app = not (on_login app) && app.show_create_room
field_shown cr_pass app = not (on_login app) && app.show_create_room
field_shown jr_name app = not (on_login app) && app.show_join_room
field_shown jr_pass app = not (on_login app) && app.show_join_room

-- What an action needs to be possible.
unfoldable pub is_shown : Action → MeshApp → Bool
unfolding field_shown
is_shown (polled _ _ _) app = true
is_shown (focuses _) app = true
is_shown (edits field _) app = field_shown field app
is_shown (registers _) app = on_login app
is_shown (remembers _) app = on_login app
is_shown (logs_in _) app = on_login app
is_shown (logs_in_as _ _) app = on_login app
is_shown (deletes _ _) app = on_login app
is_shown (searches focused _) app =
    not (on_login app) && (not (is_empty app.search_in_chat) || focused)
is_shown (hides _) app = not (on_login app) && app.show_profile
is_shown _ app = not (on_login app)

module _ (lower : Text → Text) where
  unfoldable pub act_on : Action → MeshApp → Option MeshApp
  act_on (polled can_save evs now) app = poll_events can_save evs now app
  act_on (focuses focused) app = some (record app { window_focused = focused })
  act_on (edits field text) app = some (edit field text app)
  act_on (registers register) app = some (draw_auth_toggle register app)
  act_on (remembers remember) app = some (record app { remember_me = remember })
  act_on (logs_in m) app = draw_auth_button lower m app
  act_on (logs_in_as m i) app = quick_login lower m i app
  act_on (deletes can_save i) app = click_delete can_save i app
  act_on logs_out app = some (log_out app)
  act_on toggles_keys app = some (toggle_fingerprints app)
  act_on opens_profile app = some (open_profile app)
  act_on opens_create_room app = some (open_create_room app)
  act_on opens_join_room app = some (open_join_room app)
  act_on (on_room_row n) app = click_row (get_elem? (room_rows lower app.search app) n) app
  act_on (on_private_row n) app = click_row (get_elem? (private_rows lower app.search app) n) app
  act_on (on_user_row n now) app =
      click_user_row now (get_elem? (user_rows lower app.search app) n) app
  act_on clears_search app = some (record app { search_in_chat = [] })
  act_on (searches focused text) app = some (record app { search_in_chat = text })
  act_on (on_message n) app = open_reaction_menu n app
  act_on (types text now) app = type_input text now app
  act_on (enters m) app = submit_input m app
  act_on (picks path) app = send_picked path app
  act_on (exports stamp) app = do written ← export_chat stamp app; some app
  act_on (in_reaction_menu escape outside clicked) app =
      some (draw_reaction_menu escape outside clicked app)
  act_on (hides hide) app = some (record app { p_hide = hide })
  act_on (in_profile clicked opened) app = some (draw_profile_window lower clicked opened app)
  act_on (in_create_room clicked opened) app = some (draw_create_room_window clicked opened app)
  act_on (in_join_room clicked opened) app = some (draw_join_room_window clicked opened app)
  act_on (in_whois now clicked opened) app = draw_whois_window now clicked opened app
  act_on (in_fingerprints clicked opened) app = some (draw_fingerprints clicked opened app)

  unfoldable pub step : Action → MeshApp → Option MeshApp
  unfolding act_on is_shown
  step act app = if is_shown act app then act_on act app else some app

  unfoldable pub run : List Action → MeshApp → Option MeshApp
  run [] app = some app
  run (act ∷ acts) app = step act app >>= run acts
