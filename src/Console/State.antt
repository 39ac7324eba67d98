-- ===== src/Console/State.antt =====
-- The state of the console client: what its two threads share, the global map of fingerprints, the
-- disk, the standard output and the connection.
use e2e_console_messenger.Base.{
  ℕ, ◌+◌, Bool, Option, none, some, List, [], ◌∷◌, ◌++◌, Bytes, Text, codes,
}
use e2e_console_messenger.Base.Utf8.{as_bytes}
use e2e_console_messenger.Base.Dict.{Dict}
use e2e_console_messenger.Platform.{Platform}
use e2e_console_messenger.Proto.{Outgoing, type_command}
use e2e_console_messenger.Store.{Disk}
use e2e_console_messenger.Net.State.{Session}
use e2e_console_messenger.Console.Shared.{send_frame, gcm_encrypt}

pub record State : Type 0 where
  pub known : Dict
  pub pending : Option ℕ
  pub tofu : Dict
  pub disk : Disk
  -- what was printed, oldest first
  pub printed : List Text
  pub out : Outgoing
  -- what was sent into the channels, oldest first
  pub mail : List (ℕ × Text)
  pub channels : ℕ
  pub draws : ℕ
  pub waits : ℕ

-- `print!("\r{} \n>>> ", line)`.
unfoldable pub pprint : Text → State → State
pprint line st = record st { printed = st.printed ++ (13 ∷ (line ++ 32 ∷ 10 ∷ codes ">>> ")) ∷ [] }

unfoldable pub pprint_all : List Text → State → State
pprint_all [] st = st
pprint_all (line ∷ lines) st = pprint_all lines (pprint line st)

module _ (c : Platform) (s : Session) where
  -- `send_frame(stream, …)`.
  unfoldable pub write_frame : ℕ → Bytes → State → Bool × State
  write_frame ftype payload st =
      let (done, out) = send_frame s.link st.out ftype payload in (done, record st { out = out })

  -- `gcm_encrypt(shared_key, cmd.as_bytes(), b"")`, which draws a nonce.
  unfoldable pub seal_command : Text → State → Option Text × State
  seal_command cmd st = (
    gcm_encrypt c (s.nonce st.draws) s.shared_key (as_bytes cmd) [],
    record st { draws = st.draws + 1 },
  )

  -- A line for the server.
  unfoldable pub send_command : Text → State → State
  unfolding seal_command write_frame
  send_command cmd st =
      let (enc, st') = seal_command cmd st in
      elim enc [ none ↦ st' | some e ↦ (write_frame type_command (as_bytes e) st').1 ]
