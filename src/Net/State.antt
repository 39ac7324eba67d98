-- ===== src/Net/State.antt =====
-- The messages and the shared state of net.rs. The two threads share one `NetState`; the global
-- fingerprint map of store.rs, the disk and both ends of the stream are fields of it here, and a
-- channel for one response is a number under which texts are delivered.
use e2e_console_messenger.Base.{ℕ, ◌+◌, Bool, Option, none, some, List, [], ◌∷◌, ◌++◌, Bytes, Text}
use e2e_console_messenger.Base.Utf8.{as_bytes}
use e2e_console_messenger.Base.Dict.{Dict}
use e2e_console_messenger.Platform.{Platform}
use e2e_console_messenger.Proto.{Outgoing, send_frame, type_command}
use e2e_console_messenger.Crypto.{gcm_encrypt}
use e2e_console_messenger.Store.{Os, Disk}

pub data UiCmd : Type 0 where
  raw : Text → UiCmd
  register : Text → UiCmd
  login : Text → UiCmd
  profile_set : Text → Text → Bool → UiCmd
  set_username : Text → UiCmd
  set_password : Text → Text → UiCmd
  whois : Text → UiCmd
  refresh_users : UiCmd
  refresh_rooms : UiCmd
  join : Text → Text → UiCmd
  create_room : Text → Text → UiCmd
  leave : UiCmd
  typing : Text → UiCmd
  room : Text → Text → UiCmd
  priv : Text → Text → UiCmd
  file : Text → Bool → Text → UiCmd
  trust : Text → UiCmd
  reaction : Text → Bool → Text → Text → UiCmd

pub data Ev : Type 0 where
  line : Text → Ev
  warn : Text → Ev
  error : Text → Ev
  authed : Ev
  -- nick, @username, online
  user_list : List (Text × Text × Bool) → Ev
  presence : Text → Bool → Text → Ev
  profile : Text → Text → Bool → Text → Ev
  profile_saved : Text → Text → Bool → Ev
  username_changed : Text → Ev
  password_changed : Ev
  room_changed : Text → Ev
  rooms : Text → Ev
  is_typing : Text → Ev
  -- from, text, room
  msg : Text → Text → Option Text → Ev
  -- from, name, room
  file_msg : Text → Text → Option Text → Ev
  -- emoji, target text, room
  reacted : Text → Text → Option Text → Ev

-- What one session is given: the keys and names of `net_loop`'s arguments, which writes succeed,
-- the nonces that are drawn, the files that can be sent, and for each wait for a response the
-- frames that the reader thread handles before the wait ends.
pub record Session : Type 0 where
  pub username : Text
  pub shared_key : Bytes
  pub our : Bytes
  pub pub_b64 : Text
  pub os : Os
  pub link : ℕ → Bool
  pub nonce : ℕ → Bytes
  pub arrivals : ℕ → List (ℕ × Bytes)

pub record NetState : Type 0 where
  pub known : Dict
  pub pending : Option ℕ
  pub tofu : Dict
  pub disk : Disk
  pub events : List Ev
  pub out : Outgoing
  -- what was sent into the channels, oldest first
  pub mail : List (ℕ × Text)
  pub channels : ℕ
  pub draws : ℕ
  pub waits : ℕ

-- `tx.send(ev)`; the GUI keeps its end open.
unfoldable pub send : Ev → NetState → NetState
send ev st = record st { events = st.events ++ ev ∷ [] }

unfoldable pub emit : Text → NetState → NetState
unfolding send
emit t st = send (line t) st

module _ (c : Platform) (s : Session) where
  -- `send_frame(&mut stream, …)`.
  unfoldable pub write_frame : ℕ → Bytes → NetState → Bool × NetState
  unfolding send_frame
  write_frame ftype payload st =
      let (done, out) = send_frame s.link st.out ftype payload in (done, record st { out = out })

  -- `gcm_encrypt(&shared_key, cmd.as_bytes(), b"")`, which draws a nonce.
  unfoldable pub seal_command : Text → NetState → Option Text × NetState
  unfolding gcm_encrypt
  seal_command cmd st = (
    gcm_encrypt c (s.nonce st.draws) s.shared_key (as_bytes cmd) [],
    record st { draws = st.draws + 1 },
  )

  -- `if let Some(enc) = gcm_encrypt(…) { let _ = send_frame(…); }`.
  unfoldable pub send_command : Text → NetState → NetState
  unfolding seal_command write_frame
  send_command cmd st =
      let (enc, st') = seal_command cmd st in
      elim enc [ none ↦ st' | some e ↦ (write_frame type_command (as_bytes e) st').1 ]
