-- ===== src/App/Login/Laws.antt =====
-- The login screen of main.rs from a valid state, and what deletes a saved account.
use e2e_console_messenger.Base.{
  ℕ, zero, suc, ◌≡◌, ◌≢◌, ◌↔◌, ◌⊎◌, ==_iff, ap, length, refl, Bool, true, false, none, some, List,
  [], ◌∷◌, ◌++◌, get_elem?, take, drop, Text, if◌then◌else◌, ◌>>=◌, Option-cases, Bool-cases, inl,
  inr, arith,
}
use mathlib.Core.Option.{some-injective}
use e2e_console_messenger.App.State.{Moment, SavedAccount, MeshApp}
use e2e_console_messenger.App.Accounts.{save_accounts}
use e2e_console_messenger.App.Chats.Laws.{IsValid}
use e2e_console_messenger.App.Chats.Safe.{Safe, Safe-some, IsValid-same}
use e2e_console_messenger.App.Input.Laws.{send_ui_safe, IsValid-unless, start_connect_safe}
use e2e_console_messenger.App.Login.{
  Field, at_user, password, reg_nick, reg_bio, host, port, search, p_nick, p_bio, p_new_user,
  p_old_pass, p_new_pass, cr_name, cr_pass, jr_name, jr_pass, edit, connect_window, can_log_in,
  draw_auth_button, fill_form, quick_login, remove_account, is_armed, click_delete, log_out,
  open_join_room,
}

pub edit-IsValid :
    (field : Field) (text : Text) (app : MeshApp) → IsValid app → IsValid (edit field text app)
unfolding edit
edit-IsValid at_user text app v = IsValid-same app _ refl refl v
edit-IsValid password text app v = IsValid-same app _ refl refl v
edit-IsValid reg_nick text app v = IsValid-same app _ refl refl v
edit-IsValid reg_bio text app v = IsValid-same app _ refl refl v
edit-IsValid host text app v = IsValid-same app _ refl refl v
edit-IsValid port text app v = IsValid-same app _ refl refl v
edit-IsValid search text app v = IsValid-same app _ refl refl v
edit-IsValid p_nick text app v = IsValid-same app _ refl refl v
edit-IsValid p_bio text app v = IsValid-same app _ refl refl v
edit-IsValid p_new_user text app v = IsValid-same app _ refl refl v
edit-IsValid p_old_pass text app v = IsValid-same app _ refl refl v
edit-IsValid p_new_pass text app v = IsValid-same app _ refl refl v
edit-IsValid cr_name text app v = IsValid-same app _ refl refl v
edit-IsValid cr_pass text app v = IsValid-same app _ refl refl v
edit-IsValid jr_name text app v = IsValid-same app _ refl refl v
edit-IsValid jr_pass text app v = IsValid-same app _ refl refl v

module _ (lower : Text → Text) (m : Moment) where
  connect_window-Safe : (app : MeshApp) → IsValid app → Safe (connect_window lower m app)
  unfolding connect_window
  connect_window-Safe app v =
      let (user, app', e, w) = start_connect_safe lower m app v in (app', rw (e, ◌>>=◌), w)

  pub draw_auth_button-Safe : (app : MeshApp) → IsValid app → Safe (draw_auth_button lower m app)
  unfolding draw_auth_button
  draw_auth_button-Safe app v = elim (Bool-cases (can_log_in app)) [
    | inl e ↦ rw e (connect_window-Safe app v)
    | inr e ↦ rw e (Safe-some app v)
  ]

  pub quick_login-Safe : (i : ℕ) (app : MeshApp) → IsValid app → Safe (quick_login lower m i app)
  unfolding quick_login fill_form
  quick_login-Safe i app v = elim (Option-cases (get_elem? app.saved_accounts i)) [
    | inl e ↦ rw (e, quick_login) (Safe-some app v)
    | inr (acc, e) ↦ rw (e, quick_login) (connect_window-Safe _ (IsValid-same app _ refl refl v))
  ]

-- An account that is there is removed, and nothing else.
remove_account_lem :
    (i : ℕ) (accs : List SavedAccount) (acc : SavedAccount)
    → get_elem? accs i ≡ some acc
    → remove_account i accs ≡ some (take i accs ++ drop (suc i) accs)
unfolding remove_account
remove_account_lem i [] acc h = cc
remove_account_lem zero (a ∷ accs) acc h = refl
remove_account_lem (suc i) (a ∷ accs) acc h = rw (remove_account_lem i accs acc h) refl

deleted :
    (can_save : Bool) (i : ℕ) (acc : SavedAccount) (app : MeshApp)
    → get_elem? app.saved_accounts i ≡ some acc
    → is_armed i app ≡ true
    → click_delete can_save i app
      ≡ some (
          save_accounts can_save
            (take i app.saved_accounts ++ drop (suc i) app.saved_accounts)
            (record app {
              saved_accounts = take i app.saved_accounts ++ drop (suc i) app.saved_accounts;
              armed = none;
            }))
unfolding click_delete
deleted can_save i acc app e k =
    rw (e, click_delete, k, remove_account_lem i app.saved_accounts acc e, ◌>>=◌) refl

save_accounts-IsValid :
    (can_save : Bool) (accs : List SavedAccount) (app : MeshApp)
    → IsValid app
    → IsValid (save_accounts can_save accs app)
unfolding save_accounts
save_accounts-IsValid true accs app v = IsValid-same app _ refl refl v
save_accounts-IsValid false accs app v = v

pub click_delete-Safe :
    (can_save : Bool) (i : ℕ) (app : MeshApp) → IsValid app → Safe (click_delete can_save i app)
click_delete-Safe can_save i app v = elim (Option-cases (get_elem? app.saved_accounts i)) [
  | inl e ↦ unfold click_delete in rw (e, click_delete) (Safe-some app v)
  | inr (acc, e) ↦ elim (Bool-cases (is_armed i app)) [
    | inl k ↦
        rw (deleted can_save i acc app e k)
          (Safe-some _ (save_accounts-IsValid can_save _ _ (IsValid-same app _ refl refl v)))
    | inr k ↦
        unfold click_delete in
        rw (e, click_delete, k) (Safe-some _ (IsValid-same app _ refl refl v))
  ]
]

-- An account stands between those before it and those behind.
split_at :
    (i : ℕ) (accs : List SavedAccount) (acc : SavedAccount)
    → get_elem? accs i ≡ some acc
    → (accs ≡ take i accs ++ acc ∷ drop (suc i) accs) × (length (take i accs) ≡ i)
split_at i [] acc h = cc
split_at zero (a ∷ accs) acc h = (ap (λ x. x ∷ accs) (some-injective a acc h), refl)
split_at (suc i) (a ∷ accs) acc h =
    let (e, k) = split_at i accs acc h in (ap (λ l. a ∷ l) e, omega (arith, k))

armed_iff : (i : ℕ) (app : MeshApp) → (is_armed i app ≡ true) ↔ (app.armed ≡ some i)
unfolding is_armed
armed_iff i app = elim (Option-cases app.armed) [
  | inl e ↦ rw (e, is_armed) ((λ h. cc), (λ h. cc))
  | inr (j, e) ↦
      rw (e, is_armed) (λ h. ap some ((==_iff j i).0 h), λ h. (==_iff j i).1 (some-injective j i h))
]

-- The click on ✕ beside a saved account. If the click before it on a ✕ armed the same number, exactly
-- this account is gone from the list, and the others stay in their order; the file holds the new
-- list, if it can be written; and no number is armed any more. Otherwise neither the list nor the
-- file changes, and the number is armed.
pub click_delete_lem :
    (can_save : Bool) (i : ℕ) (acc : SavedAccount) (app : MeshApp)
    → get_elem? app.saved_accounts i ≡ some acc
    → (app' : MeshApp) × (click_delete can_save i app ≡ some app')
      × (((app.armed ≡ some i)
            × ((before : List SavedAccount) × (after : List SavedAccount) × (app.saved_accounts
                  ≡ before ++ acc ∷ after)
                × (length before ≡ i)
                × (app'.saved_accounts ≡ before ++ after)
                × (app'.stored_accounts
                    ≡ (if can_save then before ++ after else app.stored_accounts))
                × (app'.armed ≡ none)))
          ⊎ ((app.armed ≢ some i)
              × (app'.saved_accounts ≡ app.saved_accounts)
              × (app'.stored_accounts ≡ app.stored_accounts)
              × (app'.armed ≡ some i)))
unfolding save_accounts
click_delete_lem can_save i acc app e = elim (Bool-cases (is_armed i app)) [
  | inl k ↦
      let (parts, size) = split_at i app.saved_accounts acc e in
      (
        _,
        deleted can_save i acc app e k,
        inl (
          (armed_iff i app).0 k,
          (
            take i app.saved_accounts,
            drop (suc i) app.saved_accounts,
            parts,
            size,
            ground arith,
            ground arith,
            ground arith,
          ),
        ),
      )
  | inr k ↦ (
    record app { armed = some i },
    unfold click_delete in rw (e, click_delete, k) refl,
    inr (λ h. (let j = (armed_iff i app).1 h in cc), refl, refl, refl),
  )
]

pub log_out-IsValid : (app : MeshApp) → IsValid app → IsValid (log_out app)
unfolding log_out
log_out-IsValid app v =
    IsValid-same _ _ refl refl (IsValid-unless app.authed _ app (send_ui_safe _ app v) v)

pub open_join_room-IsValid : (app : MeshApp) → IsValid app → IsValid (open_join_room app)
unfolding open_join_room
open_join_room-IsValid app v =
    IsValid-same _ _ refl refl (send_ui_safe _ _ (IsValid-same app _ refl refl v))

save_accounts_kept :
    (can_save : Bool) (accs : List SavedAccount) (app : MeshApp)
    → ((save_accounts can_save accs app).screen ≡ app.screen)
      × ((save_accounts can_save accs app).has_channel ≡ app.has_channel)
      × ((save_accounts can_save accs app).sent ≡ app.sent)
      × ((save_accounts can_save accs app).chats ≡ app.chats)
      × ((save_accounts can_save accs app).me ≡ app.me)
unfolding save_accounts
save_accounts_kept true accs app = (refl, refl, refl, refl, refl)
save_accounts_kept false accs app = (refl, refl, refl, refl, refl)

-- A click on ✕ is handled, and keeps the screen, the channel, the chats and the user's name.
pub click_delete_kept :
    (can_save : Bool) (i : ℕ) (app : MeshApp)
    → (app' : MeshApp) × (click_delete can_save i app ≡ some app')
      × (app'.screen ≡ app.screen)
      × (app'.has_channel ≡ app.has_channel)
      × (app'.sent ≡ app.sent)
      × (app'.chats ≡ app.chats)
      × (app'.me ≡ app.me)
click_delete_kept can_save i app = elim (Option-cases (get_elem? app.saved_accounts i)) [
  | inl e ↦ (app, unfold click_delete in rw (e, click_delete) refl, refl, refl, refl, refl, refl)
  | inr (acc, e) ↦ elim (Bool-cases (is_armed i app)) [
    | inl k ↦
        let kept = save_accounts_kept can_save _ _ in
        (_, deleted can_save i acc app e k, kept.0, kept.1, kept.2, kept.3, kept.4)
    | inr k ↦ (
      record app { armed = some i },
      unfold click_delete in rw (e, click_delete, k) refl,
      refl,
      refl,
      refl,
      refl,
      refl,
    )
  ]
]
