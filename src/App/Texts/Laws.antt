-- ===== src/App/Texts/Laws.antt =====
-- The texts of main.rs: they are drawn without a panic, and they fit.
use e2e_console_messenger.Base.{
  ℕ, ◌≤◌, ◌<◌, ◌≡◌, refl, Option, none, some, ltb, ltb→lt, ltb→le, length, get_elem?,
  get_elem?_total, Text, ◌>>=◌, Bool-cases, inl, inr, arith,
}
use e2e_console_messenger.Base.Decimal.{length-to_string_two}
use e2e_console_messenger.App.State.{Chat, User, MeshApp}
use e2e_console_messenger.App.Labels.{last_preview}
use e2e_console_messenger.App.Labels.Laws.{length-truncate, avatar_color_total}
use e2e_console_messenger.App.Chats.Laws.{IsValid}
use e2e_console_messenger.App.Texts.{
  badge_of, initials_of, avatar, chat_title, chat_status, chat_texts, user_texts, ChatRow, chat_row,
  UserRow, user_row, chat_header,
}

-- A badge is there exactly for unread messages, and has at most two digits.
abbrev pub Fits : ℕ → Option Text → Type 0
Fits unread none = unread ≡ 0
Fits unread (some t) = (0 < unread) × (length t ≤ 2)

badge_of-Fits : (unread : ℕ) → Fits unread (badge_of unread)
unfolding badge_of
badge_of-Fits unread = elim (Bool-cases (ltb 0 unread)) [
  | inl e ↦ rw e (ltb→lt 0 unread e, length-to_string_two _ (ground arith))
  | inr e ↦ rw e (omega (arith, ltb→le 0 unread e))
]

module _ (upper : ℕ → Text) where
  avatar_total :
      (title : Text) → (picture : (ℕ × ℕ × ℕ) × Text) × (avatar upper title ≡ some picture)
  unfolding avatar
  avatar_total title =
      let (colour, e) = avatar_color_total title in
      ((colour, initials_of upper title), rw (e, ◌>>=◌) refl)

  -- The row of any chat is drawn without a panic; its preview takes at most 32 characters, and its
  -- badge is there exactly if messages are unread and takes at most two.
  pub chat_row-Fits :
      (i : ℕ) (ch : Chat) (app : MeshApp)
      → get_elem? app.chats i ≡ some ch
      → (row : ChatRow) × (chat_row upper i app ≡ some row)
        × (length row.preview ≤ 32)
        × Fits ch.unread row.badge
  unfolding chat_row chat_texts
  chat_row-Fits i ch app e =
      let (picture, k) = avatar_total ch.id in
      (
        chat_texts i ch picture app,
        rw (e, ◌>>=◌, k) refl,
        length-truncate (last_preview ch) 32 (omega arith),
        badge_of-Fits ch.unread,
      )

  -- In a valid state the head of the chat and the row of any user are drawn without a panic.
  pub drawn_total :
      (u : User) (app : MeshApp)
      → IsValid app
      → ((head : ((ℕ × ℕ × ℕ) × Text) × Text × Text) × (chat_header upper app ≡ some head))
        × ((row : UserRow) × (user_row upper u app ≡ some row))
  unfolding chat_header user_row
  drawn_total u app v =
      let (ch, e) = get_elem?_total app.chats app.active v.selected in
      let (picture, k) = avatar_total ch.id in
      let (colour, c) = avatar_color_total u.at in
      (
        ((picture, chat_title ch app, chat_status ch app), rw (e, ◌>>=◌, k) refl),
        (user_texts u ch colour (initials_of upper u.nick), rw (e, ◌>>=◌, c) refl),
      )
