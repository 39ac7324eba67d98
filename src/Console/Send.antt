-- ===== src/Console/Send.antt =====
-- `send_to`, `send_to_room` and `send_file_to_room` of the console client.
use e2e_console_messenger.Base.{
  ℕ, ◌+◌, Bool, false, Option, none, some, List, [], ◌∷◌, ◌++◌, ltb, length, Bytes, Text, codes,
  if◌then◌else◌,
}
use e2e_console_messenger.Base.Utf8.{as_bytes}
use e2e_console_messenger.Base.Dict.{lookup}
use e2e_console_messenger.Platform.{Platform}
use e2e_console_messenger.Proto.{type_message, type_file}
use e2e_console_messenger.Net.State.{Session}
use e2e_console_messenger.Net.Commands.{base_name, message_payload, file_payload}
use e2e_console_messenger.Console.Shared.{encrypt_to_peer, max_file}
use e2e_console_messenger.Console.State.{State, pprint, write_frame}
use e2e_console_messenger.Console.Request.{recipient_pub, room_targets}

module _ (c : Platform) (s : Session) where
  -- `encrypt_to_peer(text, pubk, self_pub_b64, our)`, which draws a nonce.
  unfoldable pub seal_text : Text → Text → State → Option Text × State
  seal_text text pubk st = (
    encrypt_to_peer c (s.nonce st.draws) text pubk s.pub_b64 s.our,
    record st { draws = st.draws + 1 },
  )

  -- Encrypted and written, or the failure printed.
  unfoldable pub send_sealed : ℕ → (Text → Text) → Text → Option Text × State → Bool × State
  send_sealed ftype payload failure (none, st) = (false, pprint failure st)
  send_sealed ftype payload failure (some ct, st) = write_frame c s ftype (as_bytes (payload ct)) st

  unfoldable pub send_found : Text → Text → Option Text × State → Bool × State
  send_found target text (none, st) =
      (false, pprint (codes "[ОШИБКА] Не знаю публичный ключ для " ++ target) st)
  send_found target text (some pubk, st) =
      send_sealed type_message (message_payload s.username target)
        (codes "[ОШИБКА] Не удалось зашифровать сообщение для " ++ target) (seal_text text pubk st)

  unfoldable pub send_to : Text → Text → State → Bool × State
  unfolding send_found
  send_to target text st = send_found target text (recipient_pub c s target st)

  -- The loop over the targets of a room.
  unfoldable pub send_each :
      ℕ → (Text → Text → Text) → Text → Text → List (Text × Text) → State → State
  send_each ftype payload failure text [] st = st
  send_each ftype payload failure text ((name, pubk) ∷ targets) st =
      send_each ftype payload failure text targets
        (send_sealed ftype (payload name) (failure ++ name) (seal_text text pubk st)).1

  unfoldable pub send_to_room : Text → State → State
  send_to_room text st =
      let (targets, st1) = room_targets c s st in
      pprint (codes "[Я]: " ++ text) (
        send_each type_message (message_payload s.username)
          (codes "[ОШИБКА] Не удалось зашифровать сообщение для ") text targets st1)

  unfoldable pub send_file : Text → Bytes → State → State
  send_file path raw st =
      let fname = base_name path in
      let (targets, st1) = room_targets c s st in
      pprint (codes "[Я] файл: " ++ (fname ++ codes " отправлен в комнату")) (
        send_each type_file (file_payload s.username fname)
          (codes "[ОШИБКА] Не удалось зашифровать файл для ") (c.b64_encode raw) targets st1)

  unfoldable pub send_file_to_room : Text → State → State
  unfolding send_file
  send_file_to_room path st = elim (lookup path st.disk) [
    | none ↦ pprint (codes "[ОШИБКА] Файл не найден: " ++ path) st
    | some raw ↦
        if ltb max_file (length raw)
        then pprint (codes "[ОШИБКА] Файл слишком большой (до 400 КБ)") st
        else send_file path raw st
  ]
