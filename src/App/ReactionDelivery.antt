-- ===== src/App/ReactionDelivery.antt =====
-- A reaction from the menu of one window to the message in another: main.rs and net.rs together.
use e2e_console_messenger.Base.{ℕ, zero, suc, true, false, none}
use e2e_console_messenger.Platform.{Platform}
use e2e_console_messenger.App.State.{Msg, Chat, MeshApp, ReactionMenu}
use e2e_console_messenger.App.Windows.{request_reaction, draw_reaction_menu}

-- Frames in which the menu stands there and nothing is done in it.
abbrev pub idle : ℕ → MeshApp → MeshApp
idle zero app = app
idle (suc n) app = idle n (draw_reaction_menu false false none app)

-- The menu as it stands after the frame that opens it.
abbrev placed_menu : Chat → Msg → ReactionMenu
placed_menu ch mg = record (request_reaction ch mg) { placed = true }
