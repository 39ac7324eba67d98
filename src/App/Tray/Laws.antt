-- ===== src/App/Tray/Laws.antt =====
-- The window with its tray in main.rs: when it ends and when it is visible.
use e2e_console_messenger.Base.{
  ◌≡◌, ◌⊎◌, ◌∙◌, refl, ap, Bool, true, false, Option, none, some, List, [], ◌∷◌, ◌++◌, ◌||◌, ◌&&◌,
  not, any, Text, text_eq, Bool-cases, inl, inr, arith,
}
use e2e_console_messenger.App.State.{MeshApp}
use e2e_console_messenger.App.Tray.{
  ViewportCommand, cancel_close, focus, visible, TrayIconEvent, double_click, other_event,
  AppWithTray, Frame, exited, running, command, handle_close, show_window, handle_menu, handle_icon,
  tray_update,
}

-- Whether the window is visible behind some commands.
abbrev pub is_visible : Bool → List ViewportCommand → Bool
is_visible b [] = b
is_visible b (visible v ∷ cmds) = is_visible v cmds
is_visible b (cancel_close ∷ cmds) = is_visible b cmds
is_visible b (focus ∷ cmds) = is_visible b cmds

is_visible-append :
    (b : Bool) (xs ys : List ViewportCommand)
    → is_visible b (xs ++ ys) ≡ is_visible (is_visible b xs) ys
is_visible-append b [] ys = refl
is_visible-append b (visible v ∷ xs) ys = is_visible-append v xs ys
is_visible-append b (cancel_close ∷ xs) ys = is_visible-append b xs ys
is_visible-append b (focus ∷ xs) ys = is_visible-append b xs ys

abbrev pub quits : AppWithTray → Text → Bool
quits tray id = text_eq id tray.quit_id && not (text_eq id tray.show_id)

abbrev pub shows : AppWithTray → Text → Bool
shows tray id = text_eq id tray.show_id

abbrev pub is_double : TrayIconEvent → Bool
is_double double_click = true
is_double other_event = false

abbrev pub is_cancel : ViewportCommand → Bool
is_cancel cancel_close = true
is_cancel focus = false
is_cancel (visible v) = false

-- The same window, visible or not.
record Becomes (seen : Bool) (tray tray' : AppWithTray) : Type 0 where
  same_app : tray'.app ≡ tray.app
  same_show : tray'.show_id ≡ tray.show_id
  same_quit : tray'.quit_id ≡ tray.quit_id
  seen_now :
      (b : Bool) → is_visible b tray'.sent_commands ≡ (seen || is_visible b tray.sent_commands)
  still_cancelled : any is_cancel tray'.sent_commands ≡ any is_cancel tray.sent_commands

-- Showing the window cancels nothing.
any-shown :
    (cmds : List ViewportCommand)
    → any is_cancel (cmds ++ visible true ∷ focus ∷ []) ≡ any is_cancel cmds
any-shown [] = refl
any-shown (cancel_close ∷ cmds) = refl
any-shown (focus ∷ cmds) = any-shown cmds
any-shown (visible v ∷ cmds) = any-shown cmds

show_window-Becomes : (tray : AppWithTray) → Becomes true tray (show_window tray)
unfolding show_window command
show_window-Becomes tray = record {
  same_app = refl;
  same_show = refl;
  same_quit = refl;
  seen_now = λ b. is_visible-append b tray.sent_commands (visible true ∷ focus ∷ []);
  still_cancelled = any-shown tray.sent_commands;
}

Becomes-same : (tray : AppWithTray) → Becomes false tray tray
Becomes-same tray = record {
  same_app = refl;
  same_show = refl;
  same_quit = refl;
  seen_now = λ b. refl;
  still_cancelled = refl;
}

-- First shown or not, then shown or not.
Becomes-then :
    (a b : Bool) (tray tray1 tray2 : AppWithTray)
    → Becomes a tray tray1
    → Becomes b tray1 tray2
    → Becomes (a || b) tray tray2
Becomes-then a b tray tray1 tray2 p q = record {
  same_app = q.same_app ∙ p.same_app;
  same_show = q.same_show ∙ p.same_show;
  same_quit = q.same_quit ∙ p.same_quit;
  seen_now = λ v. q.seen_now v ∙ ap (λ c. b || c) (p.seen_now v) ∙ swapped a b _;
  still_cancelled = q.still_cancelled ∙ p.still_cancelled;
}
  where
    swapped : (a b c : Bool) → (b || (a || c)) ≡ ((a || b) || c)
    swapped true true c = refl
    swapped true false c = refl
    swapped false true c = refl
    swapped false false c = refl

menu_exits :
    (ids : List Text) (tray : AppWithTray)
    → any (quits tray) ids ≡ true
    → handle_menu ids tray ≡ none
unfolding handle_menu show_window command
menu_exits [] tray h = cc
menu_exits (id ∷ ids) tray h = elim (Bool-cases (text_eq id tray.show_id)) [
  | inl e ↦ rw e (menu_exits ids (show_window tray) (ground (arith, e)))
  | inr e ↦ elim (Bool-cases (text_eq id tray.quit_id)) [
    | inl k ↦ rw (e, k) refl
    | inr k ↦ rw (e, k) (menu_exits ids tray (ground (arith, e, k)))
  ]
]

menu_runs :
    (ids : List Text) (tray : AppWithTray)
    → any (quits tray) ids ≡ false
    → (tray' : AppWithTray) × (handle_menu ids tray ≡ some tray')
      × Becomes (any (shows tray) ids) tray tray'
unfolding handle_menu show_window command
menu_runs [] tray h = (tray, refl, Becomes-same tray)
menu_runs (id ∷ ids) tray h = elim (Bool-cases (text_eq id tray.show_id)) [
  | inl e ↦
      let shown = show_window-Becomes tray in
      let (tray', k, p) = menu_runs ids (show_window tray) (ground (arith, e, h)) in
      (
        tray',
        rw e k,
        rw e (Becomes-then true (any (shows tray) ids) tray (show_window tray) tray' shown p),
      )
  | inr e ↦
      let (tray', k, p) = menu_runs ids tray (ground (arith, e)) in
      let stays : text_eq id tray.quit_id ≡ false = ground (arith, e) in
      (tray', rw (e, stays) k, rw e p)
]

icon_runs :
    (evs : List TrayIconEvent) (tray : AppWithTray)
    → Becomes (any is_double evs) tray (handle_icon evs tray)
unfolding handle_icon
icon_runs [] tray = Becomes-same tray
icon_runs (double_click ∷ evs) tray =
    Becomes-then true (any is_double evs) tray (show_window tray) _ (show_window-Becomes tray)
      (icon_runs evs (show_window tray))
icon_runs (other_event ∷ evs) tray = icon_runs evs tray

closed_lem :
    (closed b : Bool) (tray : AppWithTray)
    → is_visible b (handle_close closed tray).sent_commands
      ≡ (not closed && is_visible b tray.sent_commands)
unfolding handle_close command
closed_lem true b tray = is_visible-append b tray.sent_commands (cancel_close ∷ visible false ∷ [])
closed_lem false b tray = refl

-- Closing changes neither the application nor the items of the menu.
closed_same :
    (closed : Bool) (ids : List Text) (tray : AppWithTray)
    → ((handle_close closed tray).app ≡ tray.app)
      × (any (quits (handle_close closed tray)) ids ≡ any (quits tray) ids)
      × (any (shows (handle_close closed tray)) ids ≡ any (shows tray) ids)
unfolding handle_close command
closed_same true ids tray = (refl, refl, refl)
closed_same false ids tray = (refl, refl, refl)

-- Closing is cancelled if it is asked for.
cancelled :
    (tray : AppWithTray)
    → tray.sent_commands ≡ []
    → any is_cancel (handle_close true tray).sent_commands ≡ true
unfolding handle_close command
cancelled tray e = rw e refl

-- What eframe documents of closing: the window stays unless closing was asked for, and then, too, if a
-- frame sends `CancelClose`.
pub record CanCancel (closes : Bool → List ViewportCommand → Bool) : Type 0 where
  pub unasked : (cmds : List ViewportCommand) → closes false cmds ≡ false
  pub cancels : (cmds : List ViewportCommand) → any is_cancel cmds ≡ true → closes true cmds ≡ false

stays_open :
    (closes : Bool → List ViewportCommand → Bool) (asked : Bool) (tray : AppWithTray)
    (cmds : List ViewportCommand)
    → CanCancel closes
    → tray.sent_commands ≡ []
    → any is_cancel cmds ≡ any is_cancel (handle_close asked tray).sent_commands
    → closes asked cmds ≡ false
stays_open closes true tray cmds can e k = can.cancels cmds (k ∙ cancelled tray e)
stays_open closes false tray cmds can e k = can.unasked cmds

-- One frame of the program, if the application's own frame does not panic and `CancelClose` cancels
-- the closing of the window: the choice of "Quit" in
-- the menu of the tray, among whatever else, ends it; without that the program goes on, also when
-- closing the window was asked for, and then the window is visible exactly if it was and closing was
-- not asked for, or if the menu or a double click on the icon shows it.
pub tray_update_lem :
    (update_app : MeshApp → Option MeshApp) (closes : Bool → List ViewportCommand → Bool)
    (frame : Frame) (tray : AppWithTray) (app : MeshApp)
    → CanCancel closes
    → update_app tray.app ≡ some app
    → ((any (quits tray) frame.menu_events ≡ true)
        × (tray_update update_app closes frame tray ≡ exited))
      ⊎ ((any (quits tray) frame.menu_events ≡ false)
          × ((tray' : AppWithTray) × (tray_update update_app closes frame tray ≡ running tray')
              × (tray'.app ≡ app)
              × ((b : Bool)
                  → is_visible b tray'.sent_commands ≡ (
                      any is_double frame.icon_events
                      || (any (shows tray) frame.menu_events
                          || (not frame.close_requested && b))))))
unfolding tray_update
tray_update_lem update_app closes frame tray app can e =
    let fresh : AppWithTray = record tray { sent_commands = [] } in
    let handled = handle_close frame.close_requested fresh in
    let (same_app, same_quits, same_shows) =
      closed_same frame.close_requested frame.menu_events fresh in
    elim (Bool-cases (any (quits tray) frame.menu_events)) [
      | inl h ↦
          inl (h, rw (menu_exits frame.menu_events handled (same_quits ∙ h), tray_update) refl)
      | inr h ↦
          let (tray1, k, p) = menu_runs frame.menu_events handled (same_quits ∙ h) in
          let tray2 = handle_icon frame.icon_events tray1 in
          let q = icon_runs frame.icon_events tray1 in
          let updated : update_app tray2.app ≡ some app =
            ap update_app (q.same_app ∙ p.same_app ∙ same_app) ∙ e in
          let open_still : closes frame.close_requested tray2.sent_commands ≡ false =
            stays_open closes frame.close_requested fresh tray2.sent_commands can refl
              (q.still_cancelled ∙ p.still_cancelled) in
          inr (
            h,
            (
              record tray2 { app = app },
              rw (k, tray_update, updated, open_still) refl,
              refl,
              λ b.
                  rw
                    (
                      q.seen_now b,
                      p.seen_now b,
                      closed_lem frame.close_requested b fresh,
                      same_shows,
                    )
                    refl,
            ),
          )
    ]
