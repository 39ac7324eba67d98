-- ===== src/Lib.antt =====
-- MeshMessenger, the two Rust clients: a messenger whose messages are encrypted end to end between
-- clients and relayed by a server. One client has a window (rust_gui), the other a terminal
-- (rust_client).
--
-- The program. `rust_gui/src/proto.rs` frames bytes on the connection, `crypto.rs` encrypts under keys
-- that two clients share and shows fingerprints of public keys, `store.rs` keeps keys, fingerprints
-- and received files on the disk. `net.rs` is the network thread: `net_loop` carries out the commands
-- of the window, a reader thread handles the frames that arrive, and both share the known public keys,
-- the fingerprints trusted on first use and the slot for an awaited response. `main.rs` is the window:
-- a list of chats that events change and from which commands go to the network thread.
-- `rust_client/src/main.rs` is the console client, which repeats most functions of the other: typed
-- lines are handled by one thread, frames by another, and every new fingerprint is saved at once. Both
-- clients read the same key files and speak to each other.
--
-- Files.
-- - `Base` and its children: names of the libraries passed on; Boolean tests and lists over native
--   numbers; the functions of Rust's `str` on texts, which are lists of code points (`Base.Strings`);
--   UTF-8 (`Base.Utf8`); maps as association lists (`Base.Dict`); decimal numbers (`Base.Decimal`); the
--   stable sort (`Base.Sort`); filters said by what they keep (`Base.Filtered`); small integers
--   (`Base.Integers`).
-- - `Platform`: the crates base64, sha2, x25519-dalek, aes-gcm and serde_json as a record of functions,
--   with the laws that the code relies on (`IsLawful`). Beside these, what eframe documents of closing a window is a
--   hypothesis (`CanCancel` of `App.Tray.Laws`).
-- - `Proto`, `Proto.Framing`, `Proto.Streams` (a loop that reads frames): rust_gui/src/proto.rs. A socket
--   is the bytes that arrive, with how they end, and the frames written, with which writes succeed.
-- - `Crypto`, `Crypto.RoundTrip`, `Crypto.Fingerprint`: rust_gui/src/crypto.rs. The nonce that
--   `gcm_encrypt` draws is an argument.
-- - `Store` and its children: rust_gui/src/store.rs. The disk is a map from paths to bytes; environment
--   variables, the current directory and which writes succeed are the record `Os`.
-- - `Net.State` (the types of net.rs), `Net.Tofu` (`check_tofu`, `insert_keys`), `Net.Request` (`request`,
--   `recipient_pub`, `room_targets`), `Net.Reader` (`handle_message`, `handle_file`, `reader_loop`),
--   `Net.Server` (the server's lines in `reader_loop`), `Net.Commands` (`net_loop`): rust_gui/src/net.rs.
--   A function on the shared state takes and returns a `NetState`, which records what was sent to
--   the window, to the server and into response channels. The two threads are a list of actions in
--   any order; frames that arrive while a request waits are an argument of the session.
-- - `App.State`, `App.Chats`, `App.Events` (`poll_events`), `App.Input` (`start_connect`, `submit_input`,
--   typing, the sidebar's clicks), `App.Accounts`, `App.Labels`, `App.RichText`: rust_gui/src/main.rs.
--   Indexing that can panic is an `Option`, so that a result is a proof that it does not.
-- - `Config`: `load_config`, which both clients have.
-- - `Trust`: trust on first use as an abstract specification, the steps that may change the pinned
--   fingerprints.
-- - `Console` and its children: rust_client/src/main.rs. `Console.Shared` names what is the same as in
--   the window client, `Console.State` is what the threads share with the terminal, the disk and the
--   connection, `Console.Store`, `Console.Tofu`, `Console.Reader`, `Console.Request`, `Console.Send` and
--   `Console.Main` hold the functions in the order of the file. `Console.Pins`, `Console.Delivery`,
--   `Console.Keys` and `Console.Loop` hold proofs; in `Console.Keys` the two clients are started in
--   directories side by side, and each has its own view of the disk. A session is any sequence of typed lines and arriving
--   frames.
-- - `App.Rows` (the rows of the selected chat, in `draw_chat_view`), `App.Sidebar` (the lists of
--   `draw_sidebar_list`), `App.Texts` (what `chat_row`, `user_row`, `draw_bubble` and the head of a chat
--   write), `App.Windows` (`draw_profile_window` and the other windows, the menu of reactions),
--   `App.Login` (the login screen, the saved accounts, the head of the sidebar, all text fields),
--   `App.Export` (`export_chat`), `App.Toast` (`xml_esc`), `App.Icon` (`fallback_icon`), `App.Tray`
--   (`AppWithTray`, the window that closing hides; eframe, which closes it, is a parameter), and
--   `App.Session`, the window from its start on under any sequence of events, clicks and lines, of which
--   each counts only while its part of the window is shown: rust_gui/src/main.rs as well. A frame that
--   draws a window is one step for each thing that the user does in it.
-- - `App.Shown`, `App.Delivery`, `App.RoomDelivery`, `App.FileDelivery` and `App.ReactionDelivery` put
--   main.rs and net.rs of two clients together, as `Net.Commands.Delivery`, `FileDelivery`, `RoomDelivery`
--   and `ReactionDelivery` do for net.rs alone.
-- - `App.Chats.Find`, `App.Chats.View` and `App.Chats.Newest`: the chats as a map from ids to chats.
-- - The children named `Laws`, and `Pins`, `Steps`, `Delivery`, `Payload`, `Loop`, `Message`, `Files`, `Lines`,
--   `Safe`, `Sends`, `Answer`, `Pixel`, `LoggedOut`, `Consent`, `Contains`, `Order`, hold proofs.
-- - `Examples`: a small platform that keeps the laws, and runs of the model on it.
--
-- Fuel. The two functions `reader_loop` run on fuel: each round takes at least the five bytes of a
-- header, so more fuel than the stream has bytes is enough. The digits of a number run on the number
-- itself, which has more units than digits.
--
-- Not modelled: places, sizes, gradients and animations of what is drawn, which are floating-point
-- arithmetic for the screen, and the file dialog; `main`, which builds the window and the icon; the
-- calls that show a notification and write an exported file; permissions of files; symbolic links and
-- `..` in the disk's paths; the time limit of a request beyond the frames that arrive within it; the
-- connection of the console client and its sleep at the end of the input;
-- the servers and the clients in other languages.
pub mod Base
pub mod Platform
pub mod Proto
pub mod Crypto
pub mod Store
pub mod Config
pub mod Trust
pub mod Net
pub mod App
pub mod Console
pub mod Examples
