-- ===== src/App/Chats.antt =====
-- The list of chats in main.rs: `chat_index`, `push_msg`, `open_private`, `display_name`. Indexing
-- out of bounds panics, which is `none`.
pub mod Laws
pub mod Safe
pub mod Find
pub mod View
pub mod Newest
use e2e_console_messenger.Base.{
  ℕ, zero, suc, ◌+◌, Bool, true, false, Option, none, some, List, [], ◌∷◌, ◌++◌, ◌==◌, ◌&&◌, not,
  ltb, length, get_elem?, drop, Text, codes, text_eq, is_empty, trim_start_matches, if◌then◌else◌,
  ◌>>=◌,
}
use e2e_console_messenger.App.State.{Moment, Msg, Chat, User, MeshApp, new_chat, display}

-- `chats.iter().position(|c| c.id == id)`.
unfoldable pub position : Text → List Chat → Option ℕ
position id [] = none
position id (ch ∷ chats) =
    let rest = position id chats in
    if text_eq ch.id id then some 0 else elim rest [ none ↦ none | some i ↦ some (suc i) ]

-- `&mut chats[i]` replaced by what a change makes of it.
unfoldable pub modify : ℕ → (Chat → Chat) → List Chat → Option (List Chat)
modify i f [] = none
modify zero f (ch ∷ chats) = some (f ch ∷ chats)
modify (suc i) f (ch ∷ chats) = elim (modify i f chats) [ none ↦ none | some l ↦ some (ch ∷ l) ]

-- `chats.remove(i)`.
unfoldable pub remove : ℕ → List Chat → Option (Chat × List Chat)
remove i [] = none
remove zero (ch ∷ chats) = some (ch, chats)
remove (suc i) (ch ∷ chats) = elim (remove i chats) [ none ↦ none | some (x, l) ↦ some (x, ch ∷ l) ]

unfoldable pub chat_index : ℕ → Text → Bool → MeshApp → ℕ × MeshApp
chat_index now id is_room app = elim (position id app.chats) [
  | some i ↦ (i, app)
  | none ↦ (length app.chats, record app { chats = app.chats ++ new_chat now id is_room ∷ [] })
]

abbrev pub max_msgs : ℕ
max_msgs = 3000

-- `if chat.msgs.len() > 3000 { chat.msgs.drain(..1000); }`.
unfoldable pub trim_history : List Msg → List Msg
trim_history msgs = if ltb max_msgs (length msgs) then drop 1000 msgs else msgs

-- The message in its chat.
unfoldable pub add_msg : Moment → Bool → Bool → Text → Text → ℕ → Chat → Chat
unfolding trim_history
add_msg m active mine sender text kind ch =
    let new : Msg = record {
      mine = mine;
      sender = sender;
      text = text;
      kind = kind;
      time = m.hhmm;
      date = m.date;
      reactions = [];
      read = active;
    } in
    record ch {
      msgs = trim_history (ch.msgs ++ new ∷ []);
      unread = if active then ch.unread else ch.unread + 1;
      last_activity = m.instant;
    }

-- A chat that is neither selected nor first goes to the top, and the selection follows its id.
unfoldable pub raise : ℕ → MeshApp → Option MeshApp
raise idx app = do
  selected ← get_elem? app.chats app.active
  taken ← remove idx app.chats
  let chats = taken.0 ∷ taken.1
  some (record app {
    chats = chats;
    active = elim (position selected.id chats) [ none ↦ 0 | some i ↦ i ];
  })

-- Where to write, with the chat made if it is missing.
unfoldable pub push_at : Moment → ℕ → Bool → Text → Text → ℕ → MeshApp → Option MeshApp
unfolding add_msg
push_at m idx mine sender text kind app = do
  let active = app.active == idx
  chats ← modify idx (add_msg m active mine sender text kind) app.chats
  let beep = not active && not mine && kind == 0 && not app.window_focused
  let app' = record app { chats = chats; beeps = if beep then app.beeps + 1 else app.beeps }
  if not active && not (idx == 0) then raise idx app' else some app'

unfoldable pub push_msg : Moment → Text → Bool → Bool → Text → Text → ℕ → MeshApp → Option MeshApp
push_msg m chat_id is_room mine sender text kind app =
    let (idx, app') = chat_index m.instant chat_id is_room app in
    push_at m idx mine sender text kind app'

-- Selects a chat and clears its counter.
unfoldable pub select : ℕ → (Chat → Chat) → MeshApp → Option MeshApp
select idx f app = do
  chats ← modify idx f app.chats
  some (record app { chats = chats; active = idx })

unfoldable pub open_private : ℕ → Text → MeshApp → Option MeshApp
open_private now at app =
    let (idx, app') = chat_index now at false app in
    select idx (λ ch. record ch { unread = 0; last_activity = now }) app'

unfoldable pub find_user : Text → List User → Option User
find_user at [] = none
find_user at (u ∷ us) = let rest = find_user at us in if text_eq u.at at then some u else rest

unfoldable pub display_name : Text → MeshApp → Text
unfolding find_user
display_name at app = if text_eq at app.me then app.my_nick else elim (find_user at app.users) [
  | none ↦ trim_start_matches (λ ch. ch == b'@') at
  | some u ↦ display u
]
