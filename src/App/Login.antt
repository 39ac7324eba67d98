-- ===== src/App/Login.antt =====
-- The login screen of main.rs, its list of saved accounts, the head of the sidebar and the text
-- fields of all forms. `lower` is `str::to_lowercase`, and `can_save` says whether the accounts file
-- can be written.
pub mod Laws
use e2e_console_messenger.Base.{
  ℕ, zero, suc, Bool, true, false, Option, none, some, List, [], ◌∷◌, ◌==◌, ◌&&◌, not, get_elem?,
  Text, codes, is_empty, if◌then◌else◌, ◌>>=◌,
}
use e2e_console_messenger.Net.State.{raw, refresh_rooms}
use e2e_console_messenger.App.State.{Moment, SavedAccount, Screen, connect, MeshApp, send_ui}
use e2e_console_messenger.App.Labels.{user_valid}
use e2e_console_messenger.App.Accounts.{save_accounts}
use e2e_console_messenger.App.Input.{start_connect}

pub data Field : Type 0 where
  at_user password reg_nick reg_bio host port search p_nick p_bio p_new_user p_old_pass p_new_pass
        cr_name cr_pass jr_name jr_pass :
      Field

unfoldable pub edit : Field → Text → MeshApp → MeshApp
edit at_user text app = record app { at_user = text }
edit password text app = record app { password = text }
edit reg_nick text app = record app { reg_nick = text }
edit reg_bio text app = record app { reg_bio = text }
edit host text app = record app { host = text }
edit port text app = record app { port = text }
edit search text app = record app { search = text }
edit p_nick text app = record app { p_nick = text }
edit p_bio text app = record app { p_bio = text }
edit p_new_user text app = record app { p_new_user = text }
edit p_old_pass text app = record app { p_old_pass = text }
edit p_new_pass text app = record app { p_new_pass = text }
edit cr_name text app = record app { cr_name = text }
edit cr_pass text app = record app { cr_pass = text }
edit jr_name text app = record app { jr_name = text }
edit jr_pass text app = record app { jr_pass = text }

unfoldable pub draw_auth_toggle : Bool → MeshApp → MeshApp
draw_auth_toggle register app = record app { auth_mode_register = register }

-- `start_connect` of the window; the name goes to the network thread.
unfoldable pub connect_window : (Text → Text) → Moment → MeshApp → Option MeshApp
connect_window lower m app = do started ← start_connect lower m app; some started.1

unfoldable pub can_log_in : MeshApp → Bool
can_log_in app = user_valid app.at_user && not (is_empty app.password)

-- A button that is not enabled is not clicked.
unfoldable pub draw_auth_button : (Text → Text) → Moment → MeshApp → Option MeshApp
unfolding connect_window can_log_in
draw_auth_button lower m app = if can_log_in app then connect_window lower m app else some app

unfoldable pub fill_form : SavedAccount → MeshApp → MeshApp
fill_form acc app = record app {
  at_user = acc.username;
  password = acc.password;
  host = acc.host;
  port = acc.port;
  auth_mode_register = false;
}

-- A click on the name of a saved account. An account that is not there is not clicked.
unfoldable pub quick_login : (Text → Text) → Moment → ℕ → MeshApp → Option MeshApp
unfolding connect_window fill_form
quick_login lower m i app = elim (get_elem? app.saved_accounts i) [
  | none ↦ some app
  | some acc ↦ connect_window lower m (fill_form acc app)
]

-- `saved_accounts.remove(i)`; out of bounds it panics.
unfoldable pub remove_account : ℕ → List SavedAccount → Option (List SavedAccount)
remove_account i [] = none
remove_account zero (acc ∷ accs) = some accs
remove_account (suc i) (acc ∷ accs) = elim (remove_account i accs) [
  | none ↦ none
  | some kept ↦ some (acc ∷ kept)
]

unfoldable pub is_armed : ℕ → MeshApp → Bool
is_armed i app = elim app.armed [ none ↦ false | some j ↦ j == i ]

-- A click on ✕ beside an account: the first one arms, the second one deletes.
unfoldable pub click_delete : Bool → ℕ → MeshApp → Option MeshApp
unfolding is_armed remove_account
click_delete can_save i app = elim (get_elem? app.saved_accounts i) [
  | none ↦ some app
  | some acc ↦
      if is_armed i app
      then (do
        accounts ← remove_account i app.saved_accounts
        some (
            save_accounts can_save accounts
              (record app { saved_accounts = accounts; armed = none })))
      else some (record app { armed = some i })
]

unfoldable pub log_out : MeshApp → MeshApp
log_out app =
    let told = if app.authed then send_ui (raw (codes "/exit")) app else app in
    record told {
      authed = false;
      connected = false;
      screen = connect;
      has_channel = false;
      password = [];
    }

unfoldable pub toggle_fingerprints : MeshApp → MeshApp
toggle_fingerprints app = record app { show_fingerprints = not app.show_fingerprints }

unfoldable pub open_profile : MeshApp → MeshApp
open_profile app = record app { p_nick = app.my_nick; p_bio = app.my_bio; show_profile = true }

unfoldable pub open_create_room : MeshApp → MeshApp
open_create_room app = record app { cr_name = []; cr_pass = []; show_create_room = true }

unfoldable pub open_join_room : MeshApp → MeshApp
open_join_room app = record (send_ui refresh_rooms (record app { jr_name = []; jr_pass = [] })) {
  show_join_room = true;
}
