-- ===== src/Examples/Window.antt =====
-- The window's state on small inputs.
use e2e_console_messenger.Base.{
  Text, ◌≡◌, refl, true, false, none, some, List, [], ◌∷◌, ◌++◌, All, NoSpace, codes, is_whitespace,
  trim, starts_with,
}
use e2e_console_messenger.Net.State.{Ev, error, authed, msg, reacted, room_changed}
use e2e_console_messenger.App.State.{
  Moment, SavedAccount, MeshApp, new_chat, room_chat, default_app,
}
use e2e_console_messenger.Base.Filtered.{Filtered}
use e2e_console_messenger.App.Accounts.{same_account, with_account}
use e2e_console_messenger.App.Accounts.Laws.{IsKept, with_account-IsKept}
use e2e_console_messenger.App.Events.{on_authed}
use e2e_console_messenger.App.Events.Consent.{IsOther, on_authed-IsOther}
use e2e_console_messenger.App.Chats.Newest.{Shows}
use e2e_console_messenger.App.Shown.{submit_input_lem}
use e2e_console_messenger.App.Chats.Laws.{IsValid}
use e2e_console_messenger.App.Input.{submit_input}
use e2e_console_messenger.App.Input.Sends.{outgoing}
use e2e_console_messenger.App.Input.Laws.{default_app-IsValid}

abbrev pub moment : Moment
moment = record { instant = 5000; hhmm = codes "12:00"; date = codes "2025-01-01" }

abbrev pub window : MeshApp
window = default_app 0 (codes "127.0.0.1") (codes "9000") []

pub window-IsValid : IsValid window
window-IsValid = default_app-IsValid 0 (codes "127.0.0.1") (codes "9000") []

abbrev account : SavedAccount
account = record {
  username = codes "@bob";
  password = codes "pw";
  host = codes "127.0.0.1";
  port = codes "9000";
}

abbrev older : SavedAccount
older = record account { password = codes "old" }

abbrev events : List (Moment × Ev)
events =
    (moment, authed)
    ∷ (moment, msg (codes "@bob") (codes "hi") none)
    ∷ (moment, room_changed (codes "lobby"))
    ∷ (moment, reacted (codes "+") (codes "hi") none)
    ∷ (moment, error (codes "lost"))
    ∷ []

abbrev typed : MeshApp
typed = record window { input = codes "hello"; connected = true; has_channel = true }

typed-IsValid : IsValid typed
typed-IsValid = record { selected = window-IsValid.selected; bounded = window-IsValid.bounded }

submit_input_lem_example :
    (app : MeshApp) × (submit_input moment typed ≡ some app)
    × Shows room_chat true typed.my_nick (trim typed.input) 0 app.chats
    × (app.sent ≡ typed.sent ++ outgoing (trim typed.input) (new_chat 0 room_chat true) typed)
unfolding default_app new_chat trim is_whitespace starts_with
submit_input_lem_example =
    submit_input_lem moment typed (new_chat 0 room_chat true) typed-IsValid refl refl refl refl refl

with_account-IsKept_example :
    (rest : List SavedAccount) × (with_account account (older ∷ []) ≡ account ∷ rest)
    × IsKept (with_account account (older ∷ []))
    × All (λ b. same_account b account ≡ false) rest
with_account-IsKept_example = with_account-IsKept account (older ∷ []) (tt, tt)

-- Bob logs in without consent, with an older entry of his in the file.
abbrev logging_in : MeshApp
logging_in = record window {
  me = codes "@bob";
  password = codes "pw";
  remember_me = false;
  stored_accounts = older ∷ [];
}

logging_in-IsValid : IsValid logging_in
logging_in-IsValid = record { selected = window-IsValid.selected; bounded = window-IsValid.bounded }

on_authed-IsOther_example :
    (app : MeshApp) × (on_authed true moment logging_in ≡ some app)
    × All (IsOther (codes "@bob") (codes "127.0.0.1") (codes "9000")) app.stored_accounts
    × All (IsOther (codes "@bob") (codes "127.0.0.1") (codes "9000")) app.saved_accounts
unfolding default_app
on_authed-IsOther_example = on_authed-IsOther moment logging_in logging_in-IsValid refl

-- A line with marks, a line that begins a block of code, and a line of marks only.
abbrev marked : Text
marked = codes "a **b** `c`\n```rust\n**"

lobby-NoSpace : NoSpace (codes "lobby")
unfolding is_whitespace
lobby-NoSpace = (refl, (refl, (refl, (refl, (refl, tt)))))
