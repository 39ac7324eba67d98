-- ===== src/App/Tray.antt =====
-- `AppWithTray` of main.rs: the window around the application, which closing hides, and the events of
-- the tray. The commands to the window are recorded, anew in each frame. `update_app` is the
-- application's own frame, and eframe, which closes the window, is a parameter as well.
pub mod Laws
use e2e_console_messenger.Base.{
  Bool, true, false, Option, none, some, List, [], ◌∷◌, ◌++◌, not, ◌||◌, ◌&&◌, any, Text, codes,
  text_eq, is_empty, if◌then◌else◌,
}
use e2e_console_messenger.App.State.{MeshApp}

pub data ViewportCommand : Type 0 where
  cancel_close focus : ViewportCommand
  visible : Bool → ViewportCommand

pub data TrayIconEvent : Type 0 where
  double_click other_event : TrayIconEvent

pub record AppWithTray : Type 0 where
  pub app : MeshApp
  pub show_id : Text
  pub quit_id : Text
  pub sent_commands : List ViewportCommand

-- The input of one frame: whether closing was asked for, the menu's events and the icon's.
pub record Frame : Type 0 where
  pub close_requested : Bool
  pub menu_events : List Text
  pub icon_events : List TrayIconEvent

-- A frame ends in a panic, in `exit(0)`, with the window closed or in the next state.
pub data Outcome : Type 0 where
  panicked exited window_closed : Outcome
  running : AppWithTray → Outcome

unfoldable pub command : List ViewportCommand → AppWithTray → AppWithTray
command cmds tray = record tray { sent_commands = tray.sent_commands ++ cmds }

unfoldable pub handle_close : Bool → AppWithTray → AppWithTray
unfolding command
handle_close closed tray = if closed then command (cancel_close ∷ visible false ∷ []) tray else tray

unfoldable pub show_window : AppWithTray → AppWithTray
unfolding command
show_window = command (visible true ∷ focus ∷ [])

-- The loop over the menu's events; `none` is `exit(0)`.
unfoldable pub handle_menu : List Text → AppWithTray → Option AppWithTray
unfolding show_window
handle_menu [] tray = some tray
handle_menu (id ∷ ids) tray =
    let shown = handle_menu ids (show_window tray) in
    let rest = handle_menu ids tray in
    if text_eq id tray.show_id then shown else if text_eq id tray.quit_id then none else rest

unfoldable pub handle_icon : List TrayIconEvent → AppWithTray → AppWithTray
unfolding show_window
handle_icon [] tray = tray
handle_icon (double_click ∷ evs) tray = handle_icon evs (show_window tray)
handle_icon (other_event ∷ evs) tray = handle_icon evs tray

-- `closes` says whether eframe closes the window behind a frame, by whether closing was asked for and
-- by the commands of the frame.
unfoldable pub tray_update :
    (MeshApp → Option MeshApp)
    → (Bool → List ViewportCommand → Bool)
    → Frame
    → AppWithTray
    → Outcome
unfolding handle_close handle_menu handle_icon
tray_update update_app closes frame tray =
    let fresh = record tray { sent_commands = [] } in
    elim (handle_menu frame.menu_events (handle_close frame.close_requested fresh)) [
      | none ↦ exited
      | some tray1 ↦
          let tray2 = handle_icon frame.icon_events tray1 in
          elim (update_app tray2.app) [
            | none ↦ panicked
            | some app ↦
                if closes frame.close_requested tray2.sent_commands
                then window_closed
                else running (record tray2 { app = app })
          ]
    ]
