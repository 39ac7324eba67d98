-- ===== src/App/State.antt =====
-- The state of main.rs. `sent` is what went into the channel to the network thread, and toasts and
-- beeps are recorded; `armed` is what the list of saved accounts keeps in the memory of egui. The
-- position of the reaction menu is left out, and of its rectangle it only counts whether it is known.
use e2e_console_messenger.Base.{
  ℕ, Bool, true, false, Option, none, List, [], ◌∷◌, ◌++◌, Text, codes, is_empty, if◌then◌else◌,
}
use e2e_console_messenger.Net.State.{UiCmd}

-- What the clocks show when an event is handled: `Instant::now()` in milliseconds, `now_hhmm()`,
-- `now_date()`.
pub record Moment : Type 0 where
  pub instant : ℕ
  pub hhmm : Text
  pub date : Text

pub record Msg : Type 0 where
  pub mine : Bool
  pub sender : Text
  pub text : Text
  -- 0 text, 2 error, 3 warning, 4 file
  pub kind : ℕ
  pub time : Text
  pub date : Text
  pub reactions : List (Text × ℕ)
  pub read : Bool

pub record Chat : Type 0 where
  pub id : Text
  pub msgs : List Msg
  pub unread : ℕ
  pub is_room : Bool
  pub last_activity : ℕ

pub record User : Type 0 where
  pub nick : Text
  pub at : Text
  pub online : Bool

pub record SavedAccount : Type 0 where
  pub username : Text
  pub password : Text
  pub host : Text
  pub port : Text

-- `placed` says that the rectangle of an earlier frame is known.
pub record ReactionMenu : Type 0 where
  pub chat_id : Text
  pub is_room : Bool
  pub target_text : Text
  pub placed : Bool

pub data Screen : Type 0 where
  connect chat : Screen

pub record MeshApp : Type 0 where
  pub screen : Screen
  pub host : Text
  pub port : Text
  pub at_user : Text
  pub password : Text
  pub reg_nick : Text
  pub reg_bio : Text
  pub auth_mode_register : Bool
  pub has_channel : Bool
  pub authed : Bool
  pub connected : Bool
  pub me : Text
  pub my_nick : Text
  pub my_bio : Text
  pub current_room : Text
  pub chats : List Chat
  pub active : ℕ
  pub search : Text
  pub search_in_chat : Text
  pub input : Text
  pub users : List User
  pub typing_from : Option (Text × ℕ)
  pub last_typing_sent : Option ℕ
  pub window_focused : Bool
  pub show_fingerprints : Bool
  pub show_profile : Bool
  pub show_create_room : Bool
  pub show_join_room : Bool
  pub p_nick : Text
  pub p_bio : Text
  pub p_hide : Bool
  pub p_new_user : Text
  pub p_old_pass : Text
  pub p_new_pass : Text
  pub cr_name : Text
  pub cr_pass : Text
  pub jr_name : Text
  pub jr_pass : Text
  pub whois : Option (Text × Text × Bool × Text)
  pub connect_error : Option Text
  pub saved_accounts : List SavedAccount
  pub remember_me : Bool
  pub reaction_menu : Option ReactionMenu
  -- the account whose second click on ✕ deletes it
  pub armed : Option ℕ
  -- what the accounts file holds
  pub stored_accounts : List SavedAccount
  pub sent : List UiCmd
  pub toasts : List (Text × Text)
  pub beeps : ℕ

abbrev pub sys_chat : Text
sys_chat = codes "📡 Сервер"

abbrev pub room_chat : Text
room_chat = codes "# Общая комната"

-- `Chat::new`.
unfoldable pub new_chat : ℕ → Text → Bool → Chat
new_chat now id is_room = record {
  id = id;
  msgs = [];
  unread = 0;
  is_room = is_room;
  last_activity = now;
}

-- `User::display`.
unfoldable pub display : User → Text
display u = if is_empty u.nick then u.at else u.nick

-- `send_ui`: nothing is sent while there is no channel.
unfoldable pub send_ui : UiCmd → MeshApp → MeshApp
send_ui cmd app = if app.has_channel then record app { sent = app.sent ++ cmd ∷ [] } else app

-- `Default::default`: the common room and the server's chat, the first one selected.
unfoldable pub default_app : ℕ → Text → Text → List SavedAccount → MeshApp
unfolding new_chat
default_app now host port accounts = record {
  screen = connect;
  host = host;
  port = port;
  at_user = [];
  password = [];
  reg_nick = [];
  reg_bio = [];
  auth_mode_register = true;
  has_channel = false;
  authed = false;
  connected = false;
  me = [];
  my_nick = [];
  my_bio = [];
  current_room = codes "main";
  chats = new_chat now room_chat true ∷ new_chat now sys_chat false ∷ [];
  active = 0;
  search = [];
  search_in_chat = [];
  input = [];
  users = [];
  typing_from = none;
  last_typing_sent = none;
  window_focused = true;
  show_fingerprints = false;
  show_profile = false;
  show_create_room = false;
  show_join_room = false;
  p_nick = [];
  p_bio = [];
  p_hide = false;
  p_new_user = [];
  p_old_pass = [];
  p_new_pass = [];
  cr_name = [];
  cr_pass = [];
  jr_name = [];
  jr_pass = [];
  whois = none;
  connect_error = none;
  saved_accounts = accounts;
  remember_me = false;
  reaction_menu = none;
  armed = none;
  stored_accounts = accounts;
  sent = [];
  toasts = [];
  beeps = 0;
}
