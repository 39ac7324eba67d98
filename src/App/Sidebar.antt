-- ===== src/App/Sidebar.antt =====
-- The lists of the sidebar in main.rs, `draw_sidebar_list`: which chats and users it shows, and in
-- which order. `lower` is `str::to_lowercase`.
pub mod Order
pub mod Laws
use e2e_console_messenger.Base.{
  ℕ, zero, suc, Bool, List, [], ◌∷◌, ◌&&◌, ◌||◌, not, retain, Text, is_empty, if◌then◌else◌,
}
use e2e_console_messenger.Base.Sort.{sort_by}
use e2e_console_messenger.App.State.{Chat, User, MeshApp}
use e2e_console_messenger.App.Chats.{display_name}
use e2e_console_messenger.App.Rows.{contains_text}

-- `0..self.chats.len()`, each index with its chat.
unfoldable pub indexed : ℕ → List Chat → List (ℕ × Chat)
indexed i [] = []
indexed i (ch ∷ chats) = (i, ch) ∷ indexed (suc i) chats

-- `chats[b].last_activity.cmp(&chats[a].last_activity)`.
abbrev pub activity : ℕ × Chat → ℕ
activity row = row.1.last_activity

-- `b.online.cmp(&a.online)`.
abbrev pub presence : User → ℕ
presence u = if u.online then 1 else 0

module _ (lower : Text → Text) (search : Text) (app : MeshApp) where
  unfoldable pub lists_room : ℕ × Chat → Bool
  lists_room row =
      row.1.is_room && (is_empty (lower search) || contains_text (lower search) (lower row.1.id))

  unfoldable pub lists_private : ℕ × Chat → Bool
  lists_private row =
      not row.1.is_room
      && (is_empty (lower search)
          || (contains_text (lower search) (lower row.1.id)
              || contains_text (lower search) (lower (display_name row.1.id app))))

  unfoldable pub lists_user : User → Bool
  lists_user u =
      is_empty (lower search)
      || (contains_text (lower search) (lower u.nick) || contains_text (lower search) (lower u.at))

  unfoldable pub room_rows : List (ℕ × Chat)
  room_rows = sort_by activity (retain lists_room (indexed 0 app.chats))

  unfoldable pub private_rows : List (ℕ × Chat)
  private_rows = sort_by activity (retain lists_private (indexed 0 app.chats))

  unfoldable pub user_rows : List User
  user_rows = sort_by presence (retain lists_user app.users)
