-- ===== src/Console/Pins/Session/Sends.antt =====
-- `send_to`, `send_to_room` and `send_file_to_room` of the console client, and the fingerprints.
use e2e_console_messenger.Base.{
  ℕ, refl, Option, none, some, List, [], ◌∷◌, ◌++◌, ltb, length, Bytes, Text, Option-cases, inl,
  inr,
}
use e2e_console_messenger.Base.Utf8.{as_bytes}
use e2e_console_messenger.Base.Dict.{lookup}
use e2e_console_messenger.Platform.{Platform}
use e2e_console_messenger.Proto.{type_message, type_file}
use e2e_console_messenger.Net.State.{Session}
use e2e_console_messenger.Net.Commands.{base_name, message_payload, file_payload}
use e2e_console_messenger.Console.Shared.{max_file}
use e2e_console_messenger.Console.State.{State, pprint}
use e2e_console_messenger.Console.Request.{recipient_pub, room_targets}
use e2e_console_messenger.Console.Send.{
  seal_text, send_sealed, send_found, send_to, send_each, send_to_room, send_file,
  send_file_to_room,
}
use e2e_console_messenger.Console.Pins.{Keeps-same, Keeps-refl, Keeps-trans, Keeps-if, pprint-Keeps}
use e2e_console_messenger.Console.Pins.Session.Requests.{
  Kept, write_frame-Keeps, recipient_pub-Keeps, room_targets-Keeps,
}

module _ (c : Platform) (s : Session) (Trusts : Text → Type 0) where
  print-Keeps :
      (line : Text) (st st' : State) → Kept c s Trusts st st' → Kept c s Trusts st (pprint line st')
  print-Keeps = pprint-Keeps c s.os Trusts

  then-Keeps : {x y z : State} → Kept c s Trusts x y → Kept c s Trusts y z → Kept c s Trusts x z
  then-Keeps a b = Keeps-trans c s.os Trusts a b

  send_sealed-Keeps :
      (ftype : ℕ) (payload : Text → Text) (failure : Text) (st : State) (a : Option Text × State)
      → Kept c s Trusts st a.1
      → Kept c s Trusts st (send_sealed c s ftype payload failure a).1
  unfolding send_sealed
  send_sealed-Keeps ftype payload failure st (none, st1) k = print-Keeps failure st st1 k
  send_sealed-Keeps ftype payload failure st (some ct, st1) k =
      then-Keeps k (write_frame-Keeps c s Trusts ftype (as_bytes (payload ct)) st1)

  seal_text-Keeps :
      (text pubk : Text) (st : State) → Kept c s Trusts st (seal_text c s text pubk st).1
  unfolding seal_text
  seal_text-Keeps text pubk st = Keeps-same c s.os Trusts st _ refl refl

  send_found-Keeps :
      (target text : Text) (st : State) (a : Option Text × State)
      → Kept c s Trusts st a.1
      → Kept c s Trusts st (send_found c s target text a).1
  unfolding send_found
  send_found-Keeps target text st (none, st1) k = print-Keeps _ st st1 k
  send_found-Keeps target text st (some pubk, st1) k =
      send_sealed-Keeps type_message (message_payload s.username target) _ st
        (seal_text c s text pubk st1) (then-Keeps k (seal_text-Keeps text pubk st1))

  pub send_to-Keeps :
      (target text : Text) (st : State) → Kept c s Trusts st (send_to c s target text st).1
  unfolding send_to
  send_to-Keeps target text st =
      send_found-Keeps target text st (recipient_pub c s target st)
        (recipient_pub-Keeps c s Trusts target st)

  send_each-Keeps :
      (ftype : ℕ) (payload : Text → Text → Text) (failure text : Text)
      (targets : List (Text × Text)) (st : State)
      → Kept c s Trusts st (send_each c s ftype payload failure text targets st)
  unfolding send_each
  send_each-Keeps ftype payload failure text [] st = Keeps-refl c s.os Trusts st
  send_each-Keeps ftype payload failure text ((name, pubk) ∷ targets) st =
      let sealed = seal_text c s text pubk st in
      then-Keeps
        (send_sealed-Keeps ftype (payload name) (failure ++ name) st sealed
          (seal_text-Keeps text pubk st))
        (send_each-Keeps ftype payload failure text targets
          (send_sealed c s ftype (payload name) (failure ++ name) sealed).1)

  pub send_to_room-Keeps :
      (text : Text) (st : State) → Kept c s Trusts st (send_to_room c s text st)
  unfolding send_to_room
  send_to_room-Keeps text st = print-Keeps _ st _ (
      then-Keeps (room_targets-Keeps c s Trusts st) (
        send_each-Keeps type_message (message_payload s.username) _ text (room_targets c s st).0
          (room_targets c s st).1))

  send_file-Keeps :
      (path : Text) (raw : Bytes) (st : State) → Kept c s Trusts st (send_file c s path raw st)
  unfolding send_file
  send_file-Keeps path raw st = print-Keeps _ st _ (
      then-Keeps (room_targets-Keeps c s Trusts st) (
        send_each-Keeps type_file (file_payload s.username (base_name path)) _ (c.b64_encode raw)
          (room_targets c s st).0 (room_targets c s st).1))

  pub send_file_to_room-Keeps :
      (path : Text) (st : State) → Kept c s Trusts st (send_file_to_room c s path st)
  unfolding send_file_to_room
  send_file_to_room-Keeps path st = elim (Option-cases (lookup path st.disk)) [
    | inl e ↦ rw (e, send_file_to_room) (print-Keeps _ st st (Keeps-refl c s.os Trusts st))
    | inr (raw, e) ↦
        rw (e, send_file_to_room)
          (Keeps-if c s.os Trusts (ltb max_file (length raw)) st _ _
            (print-Keeps _ st st (Keeps-refl c s.os Trusts st)) (send_file-Keeps path raw st))
  ]
