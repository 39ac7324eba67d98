-- ===== src/App/Windows.antt =====
-- The buttons of main.rs in the windows for the profile, rooms, users, fingerprints and reactions, and
-- in the input bar. A window is drawn once in a frame: its arguments say what was clicked in it, and
-- `open` whether its own close button was not. `lower` is `str::to_lowercase`.
pub mod Laws
use e2e_console_messenger.Base.{
  ℕ, ◌+◌, Bool, true, false, Option, none, some, List, [], ◌∷◌, ◌++◌, ◌&&◌, ◌||◌, ltb, get_elem?,
  take, Text, codes, is_empty, trim, starts_with, if◌then◌else◌, ◌>>=◌,
}
use e2e_console_messenger.Base.Decimal.{to_string}
use e2e_console_messenger.Net.State.{
  UiCmd, profile_set, set_username, set_password, join, create_room, file, trust, reaction,
}
use e2e_console_messenger.App.State.{Msg, Chat, ReactionMenu, MeshApp, send_ui}
use e2e_console_messenger.App.Labels.{room_name_of}
use e2e_console_messenger.App.Chats.{open_private}

pub data ProfileButton : Type 0 where
  saves_profile changes_username changes_password : ProfileButton

pub data WhoisButton : Type 0 where
  writes shows_keys : WhoisButton

unfoldable pub save_profile : MeshApp → MeshApp
save_profile app = send_ui (profile_set app.p_nick app.p_bio app.p_hide) app

-- The name with one "@" in front, at least.
unfoldable pub at_name : Text → Text
at_name u = if starts_with (codes "@") u then u else codes "@" ++ u

unfoldable pub change_username : (Text → Text) → MeshApp → MeshApp
unfolding at_name
change_username lower app =
    let u = lower (trim app.p_new_user) in
    if is_empty u then app else record (send_ui (set_username (at_name u)) app) { p_new_user = [] }

unfoldable pub change_password : MeshApp → MeshApp
change_password app = send_ui (set_password app.p_old_pass app.p_new_pass) app

unfoldable pub profile_button : (Text → Text) → Option ProfileButton → MeshApp → MeshApp
unfolding save_profile change_username change_password
profile_button lower none app = app
profile_button lower (some saves_profile) app = save_profile app
profile_button lower (some changes_username) app = change_username lower app
profile_button lower (some changes_password) app = change_password app

unfoldable pub draw_profile_window : (Text → Text) → Option ProfileButton → Bool → MeshApp → MeshApp
unfolding profile_button
draw_profile_window lower clicked opened app =
    if app.show_profile
    then record (profile_button lower clicked app) { show_profile = opened }
    else app

-- The button is enabled for a name that is not blank.
unfoldable pub create_room_named : MeshApp → MeshApp
create_room_named app =
    if is_empty (trim app.cr_name)
    then app
    else record (send_ui (create_room (trim app.cr_name) app.cr_pass) app) {
      show_create_room = false;
    }

unfoldable pub draw_create_room_window : Bool → Bool → MeshApp → MeshApp
unfolding create_room_named
draw_create_room_window clicked opened app =
    if app.show_create_room
    then record (if clicked then create_room_named app else app) { show_create_room = opened }
    else app

unfoldable pub join_room_named : MeshApp → MeshApp
join_room_named app =
    if is_empty (trim app.jr_name)
    then app
    else record (send_ui (join (trim app.jr_name) app.jr_pass) app) { show_join_room = false }

unfoldable pub draw_join_room_window : Bool → Bool → MeshApp → MeshApp
unfolding join_room_named
draw_join_room_window clicked opened app =
    if app.show_join_room
    then record (if clicked then join_room_named app else app) { show_join_room = opened }
    else app

unfoldable pub whois_button : ℕ → Text → Option WhoisButton → MeshApp → Option MeshApp
whois_button now at none app = some app
whois_button now at (some writes) app = do
  app1 ← open_private now at app
  some (record app1 { whois = none })
whois_button now at (some shows_keys) app = some (record app { show_fingerprints = true })

unfoldable pub draw_whois_window : ℕ → Option WhoisButton → Bool → MeshApp → Option MeshApp
unfolding whois_button
draw_whois_window now clicked opened app = elim app.whois [
  | none ↦ some app
  | some (at, _, _, _) ↦ (do
    app1 ← whois_button now at clicked app
    some (if opened then app1 else record app1 { whois = none }))
]

-- The button beside a fingerprint.
unfoldable pub trust_key : Option Text → MeshApp → MeshApp
trust_key none app = app
trust_key (some name) app = send_ui (trust name) app

unfoldable pub draw_fingerprints : Option Text → Bool → MeshApp → MeshApp
unfolding trust_key
draw_fingerprints clicked opened app =
    if app.show_fingerprints
    then record (trust_key clicked app) { show_fingerprints = opened }
    else app

-- A click with the secondary button on a message opens the menu of reactions.
unfoldable pub request_reaction : Chat → Msg → ReactionMenu
request_reaction ch m = record {
  chat_id = ch.id;
  is_room = ch.is_room;
  target_text = take 80 m.text;
  placed = false;
}

-- A message that is not there is not clicked.
unfoldable pub open_reaction_menu : ℕ → MeshApp → Option MeshApp
unfolding request_reaction
open_reaction_menu n app = do
  ch ← get_elem? app.chats app.active
  some (elim (get_elem? ch.msgs n) [
    | none ↦ app
    | some m ↦ record app { reaction_menu = some (request_reaction ch m) }
  ])

unfoldable pub reaction_emojis : List Text
reaction_emojis =
    codes "👍" ∷ (0x2764 ∷ 0xFE0F ∷ []) ∷ codes "😂" ∷ codes "😮" ∷ codes "😢" ∷ codes "🔥" ∷ []

-- A reaction that was chosen in the menu of a message.
unfoldable pub choose_reaction : ReactionMenu → Text → MeshApp → MeshApp
choose_reaction menu emoji app =
    send_ui
      (reaction (if menu.is_room then room_name_of menu.chat_id else menu.chat_id) menu.is_room
        emoji menu.target_text)
      (record app { reaction_menu = none })

-- Whether Esc is pressed, whether a click is outside, and the number of the emoji that is clicked.
unfoldable pub draw_reaction_menu : Bool → Bool → Option ℕ → MeshApp → MeshApp
unfolding choose_reaction
draw_reaction_menu escape outside clicked app = elim app.reaction_menu [
  | none ↦ app
  | some menu ↦
      if escape || (menu.placed && outside)
      then record app { reaction_menu = none }
      else elim (clicked >>= λ n. get_elem? reaction_emojis n) [
        | none ↦ record app { reaction_menu = some (record menu { placed = true }) }
        | some emoji ↦ choose_reaction menu emoji app
      ]
]

-- A file that was picked for the selected chat.
unfoldable pub send_picked : Text → MeshApp → Option MeshApp
send_picked path app = do
  ch ← get_elem? app.chats app.active
  let target = if ch.is_room then room_name_of ch.id else ch.id
  some (send_ui (file target ch.is_room path) app)

unfoldable pub total_unread : List Chat → ℕ
total_unread [] = 0
total_unread (ch ∷ chats) = ch.unread + total_unread chats

-- The window's title.
unfoldable pub window_title : MeshApp → Text
unfolding total_unread
window_title app =
    let unread = total_unread app.chats in
    let name = codes "MeshMessenger v1.7.0" in
    if ltb 0 unread then codes "(" ++ (to_string unread ++ (codes ") " ++ name)) else name
