-- ===== src/App/Accounts.antt =====
-- The saved accounts of main.rs. The accounts file is the list that it holds, and `can_save` says
-- whether it can be written; a failed write is ignored, as in the source.
pub mod Laws
use e2e_console_messenger.Base.{
  ℕ, Bool, List, [], ◌∷◌, ◌&&◌, not, ltb, length, take, retain, text_eq, ◌==◌, if◌then◌else◌,
}
use e2e_console_messenger.App.State.{SavedAccount, MeshApp}

unfoldable pub same_account : SavedAccount → SavedAccount → Bool
same_account a b = text_eq a.username b.username && text_eq a.host b.host && text_eq a.port b.port

abbrev pub max_accounts : ℕ
max_accounts = 10

-- The list that `save_account` writes.
unfoldable pub with_account : SavedAccount → List SavedAccount → List SavedAccount
with_account acc accounts =
    let all = acc ∷ retain (λ a. not (same_account a acc)) accounts in
    if ltb max_accounts (length all) then take max_accounts all else all

unfoldable pub save_accounts : Bool → List SavedAccount → MeshApp → MeshApp
save_accounts can_save accounts app =
    if can_save then record app { stored_accounts = accounts } else app

unfoldable pub save_account : Bool → SavedAccount → MeshApp → MeshApp
save_account can_save acc app = save_accounts can_save (with_account acc app.stored_accounts) app

-- Without consent a password that was saved earlier is erased.
unfoldable pub forget_account : Bool → SavedAccount → MeshApp → MeshApp
forget_account can_save acc app =
    let kept = retain (λ a. not (same_account a acc)) app.stored_accounts in
    if length kept == length app.stored_accounts then app else save_accounts can_save kept app
