-- ===== src/Examples.antt =====
-- The model run on small inputs, and the theorems applied there.
mod Toy
mod Frames
mod Secrets
mod Session
mod Files
mod Window
mod Console
mod Chats
mod Rows
mod Delivery
mod Login
mod Tray
mod Rooms
