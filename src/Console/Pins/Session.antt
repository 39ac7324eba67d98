-- ===== src/Console/Pins/Session.antt =====
-- What the user types in the console client: the fingerprints and the requests, the messages and
-- the commands that a line leads to.
pub mod Requests
pub mod Sends
pub mod Lines
