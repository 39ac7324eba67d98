-- ===== src/App/Windows/Laws.antt =====
-- The windows of main.rs, from a valid state.
use e2e_console_messenger.Base.{
  get_elem?_total, ◌>>=◌, some, refl, ◌≡◌, Text, ℕ, Bool, true, Option, none, ◌||◌, ◌&&◌, get_elem?,
  is_empty, trim, Option-cases, inl, inr,
}
use e2e_console_messenger.Net.State.{UiCmd}
use e2e_console_messenger.App.State.{MeshApp, ReactionMenu, send_ui}
use e2e_console_messenger.App.Chats.{open_private}
use e2e_console_messenger.App.Chats.Laws.{IsValid}
use e2e_console_messenger.App.Chats.Safe.{
  Safe, Safe-bind, Safe-some, IsValid-same, open_private-Safe,
}
use e2e_console_messenger.App.Input.Laws.{send_ui_safe, IsValid-unless, with_selected}
use e2e_console_messenger.App.Export.{export_chat}
use e2e_console_messenger.App.Windows.{
  ProfileButton, saves_profile, changes_username, changes_password, WhoisButton, writes, shows_keys,
  save_profile, change_username, change_password, profile_button, draw_profile_window,
  create_room_named, draw_create_room_window, join_room_named, draw_join_room_window, whois_button,
  draw_whois_window, trust_key, draw_fingerprints, open_reaction_menu, choose_reaction,
  draw_reaction_menu, send_picked, reaction_emojis,
}

-- A command sent, and some other fields changed.
sent-IsValid :
    (cmd : UiCmd) (app app' : MeshApp)
    → app'.chats ≡ (send_ui cmd app).chats
    → app'.active ≡ (send_ui cmd app).active
    → IsValid app
    → IsValid app'
sent-IsValid cmd app app' e k v = IsValid-same (send_ui cmd app) app' e k (send_ui_safe cmd app v)

profile_button-IsValid :
    (lower : Text → Text) (clicked : Option ProfileButton) (app : MeshApp)
    → IsValid app
    → IsValid (profile_button lower clicked app)
unfolding profile_button save_profile change_username change_password
profile_button-IsValid lower none app v = v
profile_button-IsValid lower (some saves_profile) app v = send_ui_safe _ app v
profile_button-IsValid lower (some changes_username) app v =
    IsValid-unless (is_empty (lower (trim app.p_new_user))) app _ v
      (sent-IsValid _ app _ refl refl v)
profile_button-IsValid lower (some changes_password) app v = send_ui_safe _ app v

pub draw_profile_window-IsValid :
    (lower : Text → Text) (clicked : Option ProfileButton) (opened : Bool) (app : MeshApp)
    → IsValid app
    → IsValid (draw_profile_window lower clicked opened app)
unfolding draw_profile_window
draw_profile_window-IsValid lower clicked opened app v =
    IsValid-unless app.show_profile _ app
      (IsValid-same _ _ refl refl (profile_button-IsValid lower clicked app v)) v

pub draw_create_room_window-IsValid :
    (clicked opened : Bool) (app : MeshApp)
    → IsValid app
    → IsValid (draw_create_room_window clicked opened app)
unfolding draw_create_room_window create_room_named
draw_create_room_window-IsValid clicked opened app v =
    IsValid-unless app.show_create_room _ app
      (IsValid-same _ _ refl refl (
        IsValid-unless clicked _ app
          (IsValid-unless (is_empty (trim app.cr_name)) app _ v (sent-IsValid _ app _ refl refl v))
          v))
      v

pub draw_join_room_window-IsValid :
    (clicked opened : Bool) (app : MeshApp)
    → IsValid app
    → IsValid (draw_join_room_window clicked opened app)
unfolding draw_join_room_window join_room_named
draw_join_room_window-IsValid clicked opened app v =
    IsValid-unless app.show_join_room _ app
      (IsValid-same _ _ refl refl (
        IsValid-unless clicked _ app
          (IsValid-unless (is_empty (trim app.jr_name)) app _ v (sent-IsValid _ app _ refl refl v))
          v))
      v

whois_button-Safe :
    (now : ℕ) (at_user : Text) (clicked : Option WhoisButton) (app : MeshApp)
    → IsValid app
    → Safe (whois_button now at_user clicked app)
unfolding whois_button
whois_button-Safe now at_user none app v = Safe-some app v
whois_button-Safe now at_user (some writes) app v =
    Safe-bind (open_private now at_user app) _ (open_private-Safe now at_user app v)
      (λ app1 w. Safe-some _ (IsValid-same app1 _ refl refl w))
whois_button-Safe now at_user (some shows_keys) app v = Safe-some _ (IsValid-same app _ refl refl v)

pub draw_whois_window-Safe :
    (now : ℕ) (clicked : Option WhoisButton) (opened : Bool) (app : MeshApp)
    → IsValid app
    → Safe (draw_whois_window now clicked opened app)
unfolding draw_whois_window
draw_whois_window-Safe now clicked opened app v = elim (Option-cases app.whois) [
  | inl e ↦ rw (e, draw_whois_window) (Safe-some app v)
  | inr ((at_user, nick, online, bio), e) ↦
      rw (e, draw_whois_window)
        (Safe-bind (whois_button now at_user clicked app) _
          (whois_button-Safe now at_user clicked app v)
          (λ app1 w.
            Safe-some _ (IsValid-unless opened app1 _ w (IsValid-same app1 _ refl refl w))))
]

trust_key-IsValid :
    (clicked : Option Text) (app : MeshApp) → IsValid app → IsValid (trust_key clicked app)
unfolding trust_key
trust_key-IsValid none app v = v
trust_key-IsValid (some name) app v = send_ui_safe _ app v

pub draw_fingerprints-IsValid :
    (clicked : Option Text) (opened : Bool) (app : MeshApp)
    → IsValid app
    → IsValid (draw_fingerprints clicked opened app)
unfolding draw_fingerprints
draw_fingerprints-IsValid clicked opened app v =
    IsValid-unless app.show_fingerprints _ app
      (IsValid-same _ _ refl refl (trust_key-IsValid clicked app v)) v

pub open_reaction_menu-Safe :
    (n : ℕ) (app : MeshApp) → IsValid app → Safe (open_reaction_menu n app)
unfolding open_reaction_menu
open_reaction_menu-Safe n app v = with_selected _ app v (λ ch.
    elim (Option-cases (get_elem? ch.msgs n)) [
      | inl e ↦ rw e (Safe-some app v)
      | inr (m, e) ↦ rw e (Safe-some _ (IsValid-same app _ refl refl v))
    ])

choose_reaction-IsValid :
    (menu : ReactionMenu) (emoji : Text) (app : MeshApp)
    → IsValid app
    → IsValid (choose_reaction menu emoji app)
unfolding choose_reaction
choose_reaction-IsValid menu emoji app v = send_ui_safe _ _ (IsValid-same app _ refl refl v)

pub draw_reaction_menu-IsValid :
    (escape outside : Bool) (clicked : Option ℕ) (app : MeshApp)
    → IsValid app
    → IsValid (draw_reaction_menu escape outside clicked app)
unfolding draw_reaction_menu
draw_reaction_menu-IsValid escape outside clicked app v = elim (Option-cases app.reaction_menu) [
  | inl e ↦ rw (e, draw_reaction_menu) v
  | inr (menu, e) ↦
      rw (e, draw_reaction_menu)
        (IsValid-unless (escape || (menu.placed && outside)) _ _ (IsValid-same app _ refl refl v)
          (chosen menu (clicked >>= λ n. get_elem? reaction_emojis n)))
]
  where
    chosen :
        (menu : ReactionMenu) (o : Option Text)
        → IsValid (elim o [
          | none ↦ record app { reaction_menu = some (record menu { placed = true }) }
          | some emoji ↦ choose_reaction menu emoji app
        ])
    chosen menu none = IsValid-same app _ refl refl v
    chosen menu (some emoji) = choose_reaction-IsValid menu emoji app v

pub send_picked-Safe : (path : Text) (app : MeshApp) → IsValid app → Safe (send_picked path app)
unfolding send_picked
send_picked-Safe path app v = with_selected _ app v (λ ch. Safe-some _ (send_ui_safe _ app v))

-- Exporting the selected chat finds it.
pub export_chat-Safe :
    (stamp : Text) (app : MeshApp)
    → IsValid app
    → Safe (export_chat stamp app >>= λ written. some app)
unfolding export_chat
export_chat-Safe stamp app v =
    let (ch, e) = get_elem?_total app.chats app.active v.selected in
    (app, rw (e, export_chat, ◌>>=◌) refl, v)
