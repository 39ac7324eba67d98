-- ===== src/Examples/Login.antt =====
-- Logging out and the saved accounts on small inputs.
use e2e_console_messenger.Base.{
  ◌≢◌, ◌⊎◌, length, ◌≡◌, refl, true, false, none, some, List, [], ◌∷◌, ◌++◌, Text, codes,
  if◌then◌else◌,
}
use e2e_console_messenger.Net.State.{msg}
use e2e_console_messenger.App.State.{SavedAccount, connect, chat, MeshApp}
use e2e_console_messenger.App.Login.{at_user, click_delete, log_out}
use e2e_console_messenger.App.Login.Laws.{click_delete_lem}
use e2e_console_messenger.App.Session.{
  Action, polled, edits, enters, types, deletes, opens_join_room, run,
}
use e2e_console_messenger.App.Session.LoggedOut.{run-log_out}
use e2e_console_messenger.Examples.Window.{moment, window}

abbrev lower : Text → Text
lower t = t

abbrev account : SavedAccount
account = record {
  username = codes "@bob";
  password = codes "pw";
  host = codes "127.0.0.1";
  port = codes "9000";
}

-- The second click on ✕ beside the second account.
abbrev armed : MeshApp
armed = record window {
  saved_accounts = record account { port = codes "1" } ∷ account ∷ [];
  armed = some 1;
}

click_delete_lem_example :
    (app' : MeshApp) × (click_delete true 1 armed ≡ some app')
    × (((armed.armed ≡ some 1)
          × ((before : List SavedAccount) × (after : List SavedAccount) × (armed.saved_accounts
                ≡ before ++ account ∷ after)
              × (length before ≡ 1)
              × (app'.saved_accounts ≡ before ++ after)
              × (app'.stored_accounts ≡ (if true then before ++ after else armed.stored_accounts))
              × (app'.armed ≡ none)))
        ⊎ ((armed.armed ≢ some 1)
            × (app'.saved_accounts ≡ armed.saved_accounts)
            × (app'.stored_accounts ≡ armed.stored_accounts)
            × (app'.armed ≡ some 1)))
click_delete_lem_example = click_delete_lem true 1 account armed refl

abbrev online : MeshApp
online = record armed { screen = chat; authed = true; has_channel = true; connected = true }

abbrev acts : List Action
acts =
    polled true ((moment, msg (codes "@bob") (codes "hi") none) ∷ []) 6000
    ∷ types (codes "hello") 7000
    ∷ enters moment
    ∷ opens_join_room
    ∷ edits at_user (codes "carol")
    ∷ deletes true 1
    ∷ []

run-log_out_example :
    (app' : MeshApp) × (run lower acts (log_out online) ≡ some app')
    × (app'.screen ≡ connect)
    × (app'.has_channel ≡ false)
    × (app'.sent ≡ (log_out online).sent)
    × (app'.chats ≡ online.chats)
run-log_out_example =
    run-log_out lower acts online (refl, (refl, (refl, (refl, (refl, (refl, tt))))))
