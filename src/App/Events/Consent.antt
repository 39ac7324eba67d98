-- ===== src/App/Events/Consent.antt =====
-- A login in the window of main.rs without consent to save the password.
use e2e_console_messenger.Base.{
  ◌≡◌, ◌∙◌, sym, ap, refl, true, false, none, some, List, [], ◌∷◌, ◌&&◌, All, Text, codes,
  text_eq_iff, is_empty, not, if◌then◌else◌, bind_inv, Bool-cases, inl, inr, arith,
}
use mathlib.Core.Option.{some-injective}
use mathlib.Core.Path.{subst}
use e2e_console_messenger.Net.State.{UiCmd, refresh_users, refresh_rooms}
use e2e_console_messenger.App.State.{Moment, SavedAccount, chat, MeshApp, sys_chat, send_ui}
use e2e_console_messenger.App.Accounts.{same_account, save_account, forget_account}
use e2e_console_messenger.App.Accounts.Laws.{forget_account-Lacks}
use e2e_console_messenger.App.Chats.{push_msg}
use e2e_console_messenger.App.Chats.Laws.{IsValid}
use e2e_console_messenger.App.Input.Sends.{push_msg-Quiet}
use e2e_console_messenger.App.Events.{keep_account, on_authed}
use e2e_console_messenger.App.Events.Laws.{on_authed-Safe}

-- An account is another than that of a form: its name, its host or its port differs.
abbrev pub IsOther : Text → Text → Text → SavedAccount → Type 0
IsOther name host port acc = ¬ ((acc.username ≡ name) × ((acc.host ≡ host) × (acc.port ≡ port)))

others :
    (acc : SavedAccount) (l : List SavedAccount)
    → All (λ b. same_account b acc ≡ false) l
    → All (IsOther acc.username acc.host acc.port) l
unfolding same_account
others acc [] h = tt
others acc (b ∷ l) h = (
  λ (n, (o, p)).
      (let x = (text_eq_iff b.username acc.username).1 n in
        let y = (text_eq_iff b.host acc.host).1 o in
        let z = (text_eq_iff b.port acc.port).1 p in let different = h.0 in ground arith),
  others acc l h.1,
)

send_ui_accounts :
    (cmd : UiCmd) (app : MeshApp)
    → ((send_ui cmd app).stored_accounts ≡ app.stored_accounts)
      × ((send_ui cmd app).saved_accounts ≡ app.saved_accounts)
unfolding send_ui
send_ui_accounts cmd app = elim (Bool-cases app.has_channel) [
  | inl e ↦ rw e (refl, refl)
  | inr e ↦ rw e (refl, refl)
]

kept_without_consent :
    (app : MeshApp)
    → app.remember_me ≡ false
    → All (IsOther app.me app.host app.port) (keep_account true app).stored_accounts
kept_without_consent app h =
    let acc : SavedAccount = record {
      username = app.me;
      password = app.password;
      host = app.host;
      port = app.port;
    } in
    let cleared : MeshApp = record app { password = [] } in
    let kept : keep_account true app ≡ forget_account true acc cleared =
      unfold keep_account in
      ap
        (λ b.
          if b && not (is_empty app.password)
          then save_account true acc cleared
          else forget_account true acc cleared)
        h in
    subst (λ (a : MeshApp). All (IsOther app.me app.host app.port) a.stored_accounts) (sym kept)
      (others acc _ (forget_account-Lacks acc cleared))

-- In a valid state of the window with "remember me" off, and if the accounts file can be written:
-- when the login succeeds, neither the file nor the list of saved accounts has an entry with the
-- user's name, host and port, even if one was saved before, and so no password of this account.
pub on_authed-IsOther :
    (m : Moment) (app : MeshApp)
    → IsValid app
    → app.remember_me ≡ false
    → (app' : MeshApp) × (on_authed true m app ≡ some app')
      × All (IsOther app.me app.host app.port) app'.stored_accounts
      × All (IsOther app.me app.host app.port) app'.saved_accounts
unfolding on_authed
on_authed-IsOther m app v h =
    let (app', e, w) = on_authed-Safe true m app v in
    let app1 : MeshApp = record app { authed = true; connect_error = none; screen = chat } in
    let app2 = keep_account true app1 in
    let app3 : MeshApp = record app2 { saved_accounts = app2.stored_accounts } in
    let gone = kept_without_consent app1 h in
    let (mid, k, j) =
      bind_inv
        (push_msg m sys_chat false false (codes "система")
          (codes "✅ Вход выполнен. Можно общаться!") 0 app3)
        _ (unfold on_authed in e) in
    let q = push_msg-Quiet m sys_chat false false _ _ 0 app3 mid k in
    let (stored1, saved1) = send_ui_accounts refresh_users mid in
    let (stored2, saved2) = send_ui_accounts refresh_rooms (send_ui refresh_users mid) in
    let same = some-injective _ _ j in
    let stored : app2.stored_accounts ≡ app'.stored_accounts =
      sym
        (ap (λ (a : MeshApp). a.stored_accounts) (sym same) ∙ stored2 ∙ stored1 ∙ q.same_stored) in
    let saved : app2.stored_accounts ≡ app'.saved_accounts =
      sym (ap (λ (a : MeshApp). a.saved_accounts) (sym same) ∙ saved2 ∙ saved1 ∙ q.same_saved) in
    (
      app',
      e,
      subst (All (IsOther app.me app.host app.port)) stored gone,
      subst (All (IsOther app.me app.host app.port)) saved gone,
    )
