-- ===== src/App/Texts.antt =====
-- What main.rs writes into the rows of the sidebar, the head of a chat and a message: the texts, without
-- their places and colours. `upper` is `char::to_uppercase`. Indexing out of bounds panics, which is
-- `none`.
pub mod Laws
use e2e_console_messenger.Base.{
  ℕ, ◌+◌, ◌-◌, Bool, true, false, Option, none, some, List, [], ◌∷◌, ◌++◌, ◌==◌, ◌&&◌, ◌||◌, not,
  ltb, leb, length, take, map, get_elem?, Text, codes, text_eq, is_empty, trim, trim_start_matches,
  split_whitespace, if◌then◌else◌, ◌>>=◌,
}
use e2e_console_messenger.Base.Decimal.{to_string}
use e2e_console_messenger.App.State.{Msg, Chat, User, MeshApp}
use e2e_console_messenger.App.Labels.{last_preview, truncate, avatar_color}
use e2e_console_messenger.App.Chats.{display_name, find_user}

-- `to_ascii_uppercase` of a character.
unfoldable pub ascii_upper : ℕ → ℕ
ascii_upper ch = if leb b'a' ch && leb ch b'z' then ch - 32 else ch

-- The signs in front of a title that are no part of a name.
unfoldable pub is_sign : ℕ → Bool
is_sign ch = ch == b'#' || (ch == b'@' || (ch == 0x1F464 || ch == 0x1F4E1))

-- The first character of a word, or another if there is none.
unfoldable pub first_or : ℕ → Text → ℕ
first_or ch [] = ch
first_or ch (x ∷ s) = x

pub record ChatRow : Type 0 where
  pub selected : Bool
  pub picture : (ℕ × ℕ × ℕ) × Text
  pub title : Text
  pub preview : Text
  pub badge : Option Text

unfoldable pub badge_of : ℕ → Option Text
badge_of unread =
    if ltb 0 unread then some (to_string (if ltb unread 99 then unread else 99)) else none

pub record UserRow : Type 0 where
  pub is_selected : Bool
  pub colour : ℕ × ℕ × ℕ
  pub letters : Text
  pub name : Text
  pub status : Text

unfoldable pub online_text : Bool → Text
online_text online = if online then codes "в сети" else codes "не в сети"

-- Whether the user of a private chat is known to be online.
unfoldable pub is_online : Text → List User → Bool
unfolding find_user
is_online at_name users = elim (find_user at_name users) [ none ↦ false | some u ↦ u.online ]

unfoldable pub is_typing : Text → MeshApp → Bool
is_typing title app = elim app.typing_from [ none ↦ false | some (from, _) ↦ text_eq from title ]

-- The line below the title of the chat that is shown.
unfoldable pub chat_status : Chat → MeshApp → Text
unfolding is_online is_typing online_text
chat_status ch app =
    if ch.is_room
    then codes "комната · E2E 🔒"
    else if is_typing ch.id app
    then codes "печатает…"
    else online_text (is_online ch.id app.users)

unfoldable pub chat_title : Chat → MeshApp → Text
chat_title ch app = if ch.is_room then ch.id else display_name ch.id app

unfoldable pub chat_texts : ℕ → Chat → (ℕ × ℕ × ℕ) × Text → MeshApp → ChatRow
unfolding badge_of chat_title
chat_texts i ch picture app = record {
  selected = i == app.active;
  picture = picture;
  title = chat_title ch app;
  preview = truncate (last_preview ch) 32;
  badge = badge_of ch.unread;
}

-- The colour is that of the user's name, the letters are those of the nick.
unfoldable pub user_texts : User → Chat → ℕ × ℕ × ℕ → Text → UserRow
unfolding online_text
user_texts u ch colour letters = record {
  is_selected = text_eq ch.id u.at;
  colour = colour;
  letters = letters;
  name = u.nick;
  status = u.at ++ (codes " · " ++ online_text u.online);
}

module _ (upper : ℕ → Text) where
  unfoldable pub initials : List Text → Text
  unfolding ascii_upper first_or
  initials [] = codes "?"
  initials (a ∷ []) = map ascii_upper (take 2 a)
  initials (a ∷ b ∷ _) = upper (first_or b'?' a) ++ upper (first_or b' ' b)

  unfoldable pub initials_of : Text → Text
  unfolding is_sign initials
  initials_of title = initials (split_whitespace (trim (trim_start_matches is_sign title)))

  -- An avatar's colour and letters.
  unfoldable pub avatar : Text → Option ((ℕ × ℕ × ℕ) × Text)
  avatar title = do colour ← avatar_color title; some (colour, initials_of title)

  unfoldable pub chat_row : ℕ → MeshApp → Option ChatRow
  unfolding avatar chat_texts
  chat_row i app = do
    ch ← get_elem? app.chats i
    picture ← avatar ch.id
    some (chat_texts i ch picture app)

  unfoldable pub user_row : User → MeshApp → Option UserRow
  unfolding user_texts initials_of
  user_row u app = do
    ch ← get_elem? app.chats app.active
    colour ← avatar_color u.at
    some (user_texts u ch colour (initials_of u.nick))

  unfoldable pub chat_header : MeshApp → Option (((ℕ × ℕ × ℕ) × Text) × Text × Text)
  unfolding avatar chat_title chat_status
  chat_header app = do
    ch ← get_elem? app.chats app.active
    picture ← avatar ch.id
    some (picture, chat_title ch app, chat_status ch app)

  -- The user's own name and state above the sidebar.
  unfoldable pub own_header : MeshApp → Option (((ℕ × ℕ × ℕ) × Text) × Text × Text)
  unfolding avatar online_text
  own_header app = do
    picture ← avatar (app.my_nick ++ app.me)
    some (picture, app.my_nick, (if app.authed then app.me else online_text false))

-- The name beside a fingerprint.
unfoldable pub fingerprint_name : Text → MeshApp → Text
fingerprint_name name app =
    if text_eq name app.me then app.my_nick ++ codes " (вы)" else display_name name app

abbrev pub bubble_me : ℕ × ℕ × ℕ
bubble_me = (58, 44, 118)

abbrev pub bubble_other : ℕ × ℕ × ℕ
bubble_other = (22, 26, 46)

abbrev pub text_colour : ℕ × ℕ × ℕ
text_colour = (236, 240, 252)

-- The fill, whether the bubble stands on the right, and the colour of the text: errors and warnings
-- have their own, others depend on whose they are.
unfoldable pub bubble_style : Msg → (ℕ × ℕ × ℕ) × Bool × (ℕ × ℕ × ℕ)
bubble_style m =
    if m.kind == 2
    then ((86, 36, 52), false, (255, 150, 150))
    else if m.kind == 3
    then ((86, 70, 30), false, (250, 220, 130))
    else if m.mine
    then (bubble_me, true, text_colour)
    else (bubble_other, false, text_colour)

-- The texts of a message: who wrote it, the reactions, the mark that it was read, the time.
pub record Bubble : Type 0 where
  pub author : Option Text
  pub reactions : List Text
  pub check : Option Text
  pub time : Text

unfoldable pub reaction_label : Text × ℕ → Text
reaction_label (emoji, count) = emoji ++ (codes " " ++ to_string count)

unfoldable pub draw_bubble : Msg → Bool → Bubble
unfolding reaction_label
draw_bubble m first_of_group = record {
  author =
      if not m.mine && m.kind == 0 && not (is_empty m.sender) && first_of_group
      then some m.sender
      else none;
  reactions = map reaction_label m.reactions;
  check = if m.mine && m.kind == 0 then some (if m.read then codes "✓✓" else codes "✓") else none;
  time = m.time;
}
