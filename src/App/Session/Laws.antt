-- ===== src/App/Session/Laws.antt =====
-- Everything that the user and the server can do to the window, from its start on.
use e2e_console_messenger.Base.{
  ℕ, zero, suc, refl, Option, none, some, List, [], ◌∷◌, get_elem?, All, Text, Bool-cases, inl, inr,
}
use e2e_console_messenger.App.State.{Chat, User, SavedAccount, MeshApp, default_app}
use e2e_console_messenger.App.Chats.Laws.{IsValid}
use e2e_console_messenger.App.Chats.Safe.{Safe, Safe-bind, Safe-some, IsValid-same}
use e2e_console_messenger.App.Events.Laws.{poll_events-Safe}
use e2e_console_messenger.App.Input.{switch_chat}
use e2e_console_messenger.App.Input.Laws.{
  default_app-IsValid, submit_input-Safe, click_user-Safe, maybe_send_typing-Safe,
}
use e2e_console_messenger.App.Sidebar.Laws.{rows-AreRowsOf}
use e2e_console_messenger.App.Windows.Laws.{
  draw_profile_window-IsValid, draw_create_room_window-IsValid, draw_join_room_window-IsValid,
  draw_whois_window-Safe, draw_fingerprints-IsValid, open_reaction_menu-Safe,
  draw_reaction_menu-IsValid, send_picked-Safe, export_chat-Safe,
}
use e2e_console_messenger.App.Login.{
  draw_auth_toggle, toggle_fingerprints, open_profile, open_create_room,
}
use e2e_console_messenger.App.Login.Laws.{
  edit-IsValid, draw_auth_button-Safe, quick_login-Safe, click_delete-Safe, log_out-IsValid,
  open_join_room-IsValid,
}
use e2e_console_messenger.App.Session.{
  Action, polled, focuses, edits, registers, remembers, logs_in, logs_in_as, deletes, logs_out,
  toggles_keys, opens_profile, opens_create_room, opens_join_room, on_room_row, on_private_row,
  on_user_row, clears_search, searches, on_message, types, enters, picks, exports, in_reaction_menu,
  hides, in_profile, in_create_room, in_join_room, in_whois, in_fingerprints, type_input, click_row,
  click_user_row, is_shown, act_on, step, run,
}

-- A row that is there, of rows that can all be clicked.
click_row-Safe :
    (rows : List (ℕ × Chat)) (n : ℕ) (app : MeshApp)
    → IsValid app
    → All (λ row. Safe (switch_chat row.0 app)) rows
    → Safe (click_row (get_elem? rows n) app)
unfolding click_row
click_row-Safe [] n app v h = Safe-some app v
click_row-Safe (row ∷ rows) zero app v h = h.0
click_row-Safe (row ∷ rows) (suc n) app v h = click_row-Safe rows n app v h.1

click_user_row-Safe :
    (now : ℕ) (row : Option User) (app : MeshApp) → IsValid app → Safe (click_user_row now row app)
unfolding click_user_row
click_user_row-Safe now none app v = Safe-some app v
click_user_row-Safe now (some u) app v = click_user-Safe now u.at app v

module _ (lower : Text → Text) where
  act_on-Safe : (act : Action) (app : MeshApp) → IsValid app → Safe (act_on lower act app)
  unfolding act_on draw_auth_toggle type_input toggle_fingerprints open_profile open_create_room
  act_on-Safe (polled can_save evs now) app v = poll_events-Safe can_save evs now app v
  act_on-Safe (focuses focused) app v = Safe-some _ (IsValid-same app _ refl refl v)
  act_on-Safe (edits field text) app v = Safe-some _ (edit-IsValid field text app v)
  act_on-Safe (registers register) app v = Safe-some _ (IsValid-same app _ refl refl v)
  act_on-Safe (remembers remember) app v = Safe-some _ (IsValid-same app _ refl refl v)
  act_on-Safe (logs_in m) app v = draw_auth_button-Safe lower m app v
  act_on-Safe (logs_in_as m i) app v = quick_login-Safe lower m i app v
  act_on-Safe (deletes can_save i) app v = click_delete-Safe can_save i app v
  act_on-Safe logs_out app v = Safe-some _ (log_out-IsValid app v)
  act_on-Safe toggles_keys app v = Safe-some _ (IsValid-same app _ refl refl v)
  act_on-Safe opens_profile app v = Safe-some _ (IsValid-same app _ refl refl v)
  act_on-Safe opens_create_room app v = Safe-some _ (IsValid-same app _ refl refl v)
  act_on-Safe opens_join_room app v = Safe-some _ (open_join_room-IsValid app v)
  act_on-Safe (on_room_row n) app v =
      click_row-Safe _ n app v (rows-AreRowsOf lower app.search app v).0.2
  act_on-Safe (on_private_row n) app v =
      click_row-Safe _ n app v (rows-AreRowsOf lower app.search app v).1.2
  act_on-Safe (on_user_row n now) app v = click_user_row-Safe now _ app v
  act_on-Safe clears_search app v = Safe-some _ (IsValid-same app _ refl refl v)
  act_on-Safe (searches focused text) app v = Safe-some _ (IsValid-same app _ refl refl v)
  act_on-Safe (on_message n) app v = open_reaction_menu-Safe n app v
  act_on-Safe (types text now) app v =
      maybe_send_typing-Safe _ now (record app { input = text }) (IsValid-same app _ refl refl v)
  act_on-Safe (enters m) app v = submit_input-Safe m app v
  act_on-Safe (picks path) app v = send_picked-Safe path app v
  act_on-Safe (exports stamp) app v = export_chat-Safe stamp app v
  act_on-Safe (in_reaction_menu escape outside clicked) app v =
      Safe-some _ (draw_reaction_menu-IsValid escape outside clicked app v)
  act_on-Safe (hides hide) app v = Safe-some _ (IsValid-same app _ refl refl v)
  act_on-Safe (in_profile clicked opened) app v =
      Safe-some _ (draw_profile_window-IsValid lower clicked opened app v)
  act_on-Safe (in_create_room clicked opened) app v =
      Safe-some _ (draw_create_room_window-IsValid clicked opened app v)
  act_on-Safe (in_join_room clicked opened) app v =
      Safe-some _ (draw_join_room_window-IsValid clicked opened app v)
  act_on-Safe (in_whois now clicked opened) app v = draw_whois_window-Safe now clicked opened app v
  act_on-Safe (in_fingerprints clicked opened) app v =
      Safe-some _ (draw_fingerprints-IsValid clicked opened app v)

  step-Safe : (act : Action) (app : MeshApp) → IsValid app → Safe (step lower act app)
  unfolding step
  step-Safe act app v = elim (Bool-cases (is_shown act app)) [
    | inl e ↦ rw e (act_on-Safe act app v)
    | inr e ↦ rw e (Safe-some app v)
  ]

  run-Safe : (acts : List Action) (app : MeshApp) → IsValid app → Safe (run lower acts app)
  unfolding run
  run-Safe [] app v = Safe-some app v
  run-Safe (act ∷ acts) app v =
      Safe-bind (step lower act app) (run lower acts) (step-Safe act app v) (run-Safe acts)

  -- The window never indexes out of bounds: from its start on, whatever the user types, clicks and
  -- chooses and whatever events arrive, in any order, every step is handled without a panic, and the
  -- state behind them is valid: the selection points at a chat and no history exceeds its limit.
  pub run-Safe_started :
      (now : ℕ) (host port : Text) (accounts : List SavedAccount) (acts : List Action)
      → Safe (run lower acts (default_app now host port accounts))
  run-Safe_started now host port accounts acts =
      run-Safe acts (default_app now host port accounts)
        (default_app-IsValid now host port accounts)
