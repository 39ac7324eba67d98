-- ===== src/Console.antt =====
-- rust_client/src/main.rs: the console client.
pub mod Shared
pub mod State
pub mod Store
pub mod Tofu
pub mod Reader
pub mod Request
pub mod Send
pub mod Main
pub mod Pins
pub mod Delivery
pub mod Keys
pub mod Loop
