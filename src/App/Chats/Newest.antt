-- ===== src/App/Chats/Newest.antt =====
-- The newest message of a chat behind `push_msg` of main.rs.
use e2e_console_messenger.Base.{
  ℕ, ◌≡◌, ◌∙◌, refl, inl, inr, Bool, false, some, List, [], ◌∷◌, ◌++◌, ◌==◌, ltb, ltb→lt, length,
  last, last-append, last-drop, Text, text_eq, arith, Bool-cases,
}
use e2e_console_messenger.App.State.{Moment, Msg, Chat, MeshApp}
use e2e_console_messenger.App.Chats.{max_msgs, trim_history, add_msg, push_msg, chat_index}
use e2e_console_messenger.App.Chats.Laws.{IsValid}
use e2e_console_messenger.App.Chats.Find.{find_chat, Puts, text_eq_refl}
use e2e_console_messenger.App.Chats.View.{chat_or_new, push_msg-Puts}

last-trim_history : (msgs : List Msg) → last (trim_history msgs) ≡ last msgs
unfolding trim_history
last-trim_history msgs = elim (Bool-cases (ltb max_msgs (length msgs))) [
  | inl e ↦ let long = ltb→lt max_msgs (length msgs) e in rw e (last-drop 1000 msgs (omega arith))
  | inr e ↦ rw e refl
]

-- The newest message of the chat with an id.
pub record Shows (id : Text) (mine : Bool) (sender text : Text) (kind : ℕ) (chats : List Chat)
    : Type 0 where
  pub chat : Chat
  pub there : find_chat id chats ≡ some chat
  pub newest : Msg
  pub is_last : last chat.msgs ≡ some newest
  pub same_mine : newest.mine ≡ mine
  pub same_sender : newest.sender ≡ sender
  pub same_text : newest.text ≡ text
  pub same_kind : newest.kind ≡ kind

module _ (m : Moment) (mine : Bool) (sender text : Text) (kind : ℕ) where
  Puts-Shows :
      (id : Text) (active : Bool) (old : Chat) (before after : List Chat)
      → Puts id (add_msg m active mine sender text kind old) before after
      → Shows id mine sender text kind after
  unfolding add_msg
  Puts-Shows id active old before after p = record {
    chat = add_msg m active mine sender text kind old;
    there = p id ∙ rw (text_eq_refl id) refl;
    newest = record {
      mine = mine;
      sender = sender;
      text = text;
      kind = kind;
      time = m.hhmm;
      date = m.date;
      reactions = [];
      read = active;
    };
    is_last = last-trim_history (old.msgs ++ _ ∷ []) ∙ last-append old.msgs _;
    same_mine = refl;
    same_sender = refl;
    same_text = refl;
    same_kind = refl;
  }

  -- Behind `push_msg` the message is the newest one of its chat, and no other chat has changed.
  pub push_msg-Shows :
      (id : Text) (is_room : Bool) (app : MeshApp)
      → IsValid app
      → (app' : MeshApp) × (push_msg m id is_room mine sender text kind app ≡ some app')
        × Shows id mine sender text kind app'.chats
        × ((n : Text) → text_eq id n ≡ false → find_chat n app'.chats ≡ find_chat n app.chats)
  push_msg-Shows id is_room app v =
      let (app', e, p) = push_msg-Puts m mine sender text kind id is_room app v in
      (
        app',
        e,
        Puts-Shows id (app.active == (chat_index m.instant id is_room app).0)
            (chat_or_new m.instant id is_room app) app.chats app'.chats p,
        λ n k. p n ∙ rw k refl,
      )
