-- ===== src/Console/Shared.antt =====
-- The functions of rust_client/src/main.rs that do what those of rust_gui/src do, and its
-- constants. `load_config` is the same too.
use e2e_console_messenger.Base.{ℕ, Bool, Option, Bytes, Text, codes}
use e2e_console_messenger.Platform.{Platform}
use e2e_console_messenger.Proto
use e2e_console_messenger.Proto.{Incoming, Outgoing, IoResult}
use e2e_console_messenger.Crypto
use e2e_console_messenger.Store
use e2e_console_messenger.Store.{Os, Disk}
use e2e_console_messenger.Config
use e2e_console_messenger.Config.{CfgFile}

abbrev pub protocol_version : Text
protocol_version = codes "1"

abbrev pub max_file : ℕ
max_file = 400_000

abbrev pub send_frame : (ℕ → Bool) → Outgoing → ℕ → Bytes → Bool × Outgoing
send_frame = Proto.send_frame

abbrev pub recv_frame : Incoming → IoResult (Option (ℕ × Bytes × Incoming))
recv_frame = Proto.recv_frame

abbrev pub safe_file_name : Text → Text
safe_file_name = Store.safe_file_name

abbrev pub write_file_secure : Os → Text → Bytes → Disk → Bool × Disk
write_file_secure = Store.write_file_secure

abbrev pub load_config : (Text → Option CfgFile) → Os → Disk → Text × Text
load_config = Config.load_config

module _ (c : Platform) where
  abbrev pub derive_key : Bytes → Bytes → Bytes
  derive_key = Crypto.derive_key c

  abbrev pub gcm_encrypt : Bytes → Bytes → Bytes → Bytes → Option Text
  gcm_encrypt = Crypto.gcm_encrypt c

  abbrev pub gcm_decrypt : Bytes → Text → Bytes → Option Text
  gcm_decrypt = Crypto.gcm_decrypt c

  abbrev pub encrypt_to_peer : Bytes → Text → Text → Text → Bytes → Option Text
  encrypt_to_peer = Crypto.encrypt_to_peer c

  abbrev pub decrypt_from_peer : Text → Text → Bytes → Option Text
  decrypt_from_peer = Crypto.decrypt_from_peer c

  abbrev pub fingerprint : Text → Text
  fingerprint = Crypto.fingerprint c
