-- ===== src/Proto.antt =====
-- rust_gui/src/proto.rs: the framing `[type][length, u32 big-endian][payload]` on a TCP stream.
-- What the peer sends is the bytes that will arrive and the way the stream ends; what is sent is
-- the list of buffers that were written, and the n-th write succeeds if `link n` says so.
pub mod Framing
pub mod Streams
use e2e_console_messenger.Base.{
  ℕ, ◌+◌, ◌*◌, ◌/◌, ◌%◌, ◌^◌, Bool, true, false, Option, none, some, List, [], ◌∷◌, ◌++◌, Bytes,
  Text, codes, ltb, length, take, drop, if◌then◌else◌,
}

abbrev pub type_message : ℕ
type_message = b'M'

abbrev pub type_command : ℕ
type_command = b'C'

abbrev pub type_file : ℕ
type_file = b'F'

abbrev pub type_register : ℕ
type_register = b'R'

abbrev pub type_version : ℕ
type_version = b'V'

abbrev pub protocol_version : Text
protocol_version = codes "2"

abbrev pub max_file : ℕ
max_file = 400_000

abbrev pub max_frame : ℕ
max_frame = 2 ^ 20

pub data IoError : Type 0 where
  unexpected_eof invalid_data other : IoError

pub data IoResult {ℓ} (A : Type ℓ) : Type ℓ where
  ok : A → IoResult A
  err : IoError → IoResult A

-- How the incoming stream ends behind its last byte.
pub data Ending : Type 0 where
  closed broken : Ending

pub record Incoming : Type 0 where
  pub bytes : Bytes
  pub ending : Ending

pub record Outgoing : Type 0 where
  pub sent : List Bytes
  pub attempts : ℕ

-- `u32::to_be_bytes`.
unfoldable pub to_be_bytes : ℕ → Bytes
to_be_bytes n = (n / 2 ^ 24 % 256) ∷ (n / 2 ^ 16 % 256) ∷ (n / 2 ^ 8 % 256) ∷ (n % 256) ∷ []

-- `u32::from_be_bytes`, of the header without its first byte.
unfoldable pub from_be_bytes : Bytes → ℕ
from_be_bytes (a ∷ b ∷ c ∷ d ∷ _) = a * 2 ^ 24 + b * 2 ^ 16 + c * 2 ^ 8 + d
from_be_bytes _ = 0

-- The buffer that `send_frame` fills; the length is cast to u32.
unfoldable pub frame_bytes : ℕ → Bytes → Bytes
unfolding to_be_bytes
frame_bytes ftype payload = ftype ∷ to_be_bytes (length payload % 2 ^ 32) ++ payload

unfoldable pub send_frame : (ℕ → Bool) → Outgoing → ℕ → Bytes → Bool × Outgoing
send_frame link out ftype payload =
    let done = link out.attempts in
    (
      done,
      record {
        sent = if done then out.sent ++ frame_bytes ftype payload ∷ [] else out.sent;
        attempts = out.attempts + 1;
      },
    )

unfoldable pub ending_error : Ending → IoError
ending_error closed = unexpected_eof
ending_error broken = other

-- `read_exact`: so many bytes, or the error that the end of the stream gives.
unfoldable pub read_exact : ℕ → Incoming → IoResult (Bytes × Incoming)
unfolding ending_error
read_exact n s =
    if ltb (length s.bytes) n
    then err (ending_error s.ending)
    else ok (take n s.bytes, record s { bytes = drop n s.bytes })

-- The payload behind a header.
unfoldable pub recv_payload : Bytes → Incoming → IoResult (Option (ℕ × Bytes × Incoming))
recv_payload [] s = err other
recv_payload (ftype ∷ size) s =
    let len = from_be_bytes size in
    if ltb max_frame len then err invalid_data else elim (read_exact len s) [
      | err e ↦ err e
      | ok (payload, rest) ↦ ok (some (ftype, payload, rest))
    ]

-- `none`: the server closed the connection.
unfoldable pub recv_frame : Incoming → IoResult (Option (ℕ × Bytes × Incoming))
recv_frame s = elim (read_exact 5 s) [
  | err unexpected_eof ↦ ok none
  | err e ↦ err e
  | ok (header, rest) ↦ recv_payload header rest
]
