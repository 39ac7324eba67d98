-- ===== src/App.antt =====
-- rust_gui/src/main.rs without its drawing: the state of the window, its events and its input.
pub mod State
pub mod Labels
pub mod RichText
pub mod Accounts
pub mod Chats
pub mod Events
pub mod Input
pub mod Toast
pub mod Texts
pub mod Rows
pub mod Sidebar
pub mod Windows
pub mod Login
pub mod Session
pub mod Export
pub mod Icon
pub mod Tray
pub mod Shown
pub mod Delivery
pub mod FileDelivery
pub mod ReactionDelivery
pub mod RoomDelivery
