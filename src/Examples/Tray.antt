-- ===== src/Examples/Tray.antt =====
-- The window with its tray on a small frame, and a pixel of the icon.
use e2e_console_messenger.Base.{
  ap, List, ◌+◌, ◌*◌, Bytes, length, get_elem?, arith, ◌≡◌, ◌⊎◌, refl, Bool, true, false, some, [],
  ◌∷◌, ◌&&◌, ◌||◌, not, any, codes,
}
use e2e_console_messenger.App.Icon.{fallback_icon}
use e2e_console_messenger.App.Icon.Laws.{icon_value, fallback_icon_lem}
use e2e_console_messenger.App.Tray.{
  ViewportCommand, AppWithTray, Frame, exited, running, double_click, other_event, tray_update,
}
use e2e_console_messenger.App.Tray.Laws.{
  CanCancel, is_cancel, is_visible, is_double, quits, shows, tray_update_lem,
}
use e2e_console_messenger.Examples.Window.{window}

abbrev tray : AppWithTray
tray = record { app = window; show_id = codes "1"; quit_id = codes "2"; sent_commands = [] }

-- The window is closed, and a double click on the icon shows it again.
abbrev frame : Frame
frame = record {
  close_requested = true;
  menu_events = codes "3" ∷ [];
  icon_events = other_event ∷ double_click ∷ [];
}

-- A window that closes if it is asked to, and nothing cancels that.
abbrev unless_cancelled : Bool → List ViewportCommand → Bool
unless_cancelled asked cmds = asked && not (any is_cancel cmds)

unless_cancelled-CanCancel : CanCancel unless_cancelled
unless_cancelled-CanCancel = record { unasked = λ cmds. refl; cancels = λ cmds e. ap not e }

tray_update_lem_example :
    ((any (quits tray) frame.menu_events ≡ true)
      × (tray_update some unless_cancelled frame tray ≡ exited))
    ⊎ ((any (quits tray) frame.menu_events ≡ false)
        × ((tray' : AppWithTray) × (tray_update some unless_cancelled frame tray ≡ running tray')
            × (tray'.app ≡ window)
            × ((b : Bool)
                → is_visible b tray'.sent_commands ≡ (
                    any is_double frame.icon_events
                    || (any (shows tray) frame.menu_events
                        || (not frame.close_requested && is_visible b tray.sent_commands))))))
tray_update_lem_example =
    tray_update_lem some unless_cancelled frame tray window unless_cancelled-CanCancel refl

fallback_icon_lem_example :
    (out : Bytes) × (fallback_icon ≡ some out)
    × (length out ≡ 32 * 32 * 4)
    × (get_elem? out ((15 * 32 + 8) * 4 + 3) ≡ some (icon_value 8 15 3))
fallback_icon_lem_example = fallback_icon_lem 8 15 3 (omega arith) (omega arith) (omega arith)
