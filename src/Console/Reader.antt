-- ===== src/Console/Reader.antt =====
-- `handle_message`, `handle_file` and `reader_loop` of the console client.
use e2e_console_messenger.Base.{
  ℕ, zero, suc, Option, none, some, List, [], ◌∷◌, ◌++◌, ◌==◌, ◌||◌, length, Bytes, Text, codes,
  is_empty, trim, trim_end, split, strip_prefix, starts_with, if◌then◌else◌, ◌>>=◌,
}
use e2e_console_messenger.Base.Utf8.{as_bytes, from_utf8_lossy}
use e2e_console_messenger.Base.Decimal.{to_string}
use e2e_console_messenger.Base.Dict.{lookup}
use e2e_console_messenger.Platform.{Platform}
use e2e_console_messenger.Proto.{
  Incoming, ok, err, type_message, type_command, type_file, type_register,
}
use e2e_console_messenger.Store.{Disk}
use e2e_console_messenger.Net.State.{Session}
use e2e_console_messenger.Console.Shared.{
  recv_frame, gcm_decrypt, decrypt_from_peer, safe_file_name,
}
use e2e_console_messenger.Console.Store.{save_received_file}
use e2e_console_messenger.Console.State.{State, pprint, write_frame}
use e2e_console_messenger.Console.Tofu.{insert_keys}

-- `format!("[{}]…", sender)`.
unfoldable pub from_line : Text → Text → Text
from_line sender rest = codes "[" ++ (sender ++ (codes "]" ++ rest))

unfoldable pub file_line : Text → Text → Text → Text
unfolding from_line
file_line sender fname rest = from_line sender (codes " отправил файл: " ++ (fname ++ rest))

module _ (c : Platform) (s : Session) where
  unfoldable pub message_line : Text → Text → Option Text → Text
  unfolding from_line
  message_line sender ct none = from_line sender (codes ": (неизвестный публичный ключ)")
  message_line sender ct (some pk) = elim (decrypt_from_peer c ct pk s.our) [
    | some plain ↦ from_line sender (codes ": " ++ trim_end plain)
    | none ↦ from_line sender (codes ": (не удалось расшифровать — подмена/ключ)")
  ]

  unfoldable pub message_parts : List Bytes → State → State
  message_parts (from ∷ to ∷ ct ∷ _) st =
      let sender = from_utf8_lossy from in
      pprint (message_line sender (from_utf8_lossy ct) (lookup sender st.known)) st
  message_parts _ st = pprint (codes "[ОШИБКА] Повреждённый кадр сообщения") st

  unfoldable pub handle_message : Bytes → State → State
  handle_message payload st = message_parts (split 0 payload) st

  -- A file whose contents were decrypted: the line to print, and the disk.
  unfoldable pub store_file : Text → Text → Bytes → Disk → Text × Disk
  unfolding file_line
  store_file sender fname raw disk =
      let base = safe_file_name fname in
      let (saved, disk') = save_received_file s.os base raw disk in
      if is_empty base
      then (file_line sender fname (codes ", но имя недопустимо"), disk)
      else if saved
      then (
        file_line sender base (codes " (" ++ (to_string (length raw) ++ codes " байт) — сохранён")),
        disk',
      )
      else (file_line sender fname (codes ", но сохранить не удалось"), disk')

  unfoldable pub file_result : Text → Text → Text → Option Text → Disk → Text × Disk
  unfolding file_line store_file
  file_result sender fname content none disk =
      (file_line sender fname (codes ", но ключ неизвестен"), disk)
  file_result sender fname content (some pk) disk =
      elim (decrypt_from_peer c content pk s.our >>= λ b64. c.b64_decode (trim b64)) [
        | some raw ↦ store_file sender fname raw disk
        | none ↦ (file_line sender fname (codes ", но расшифровать не удалось"), disk)
      ]

  unfoldable pub file_parts : List Bytes → State → State
  file_parts (from ∷ to ∷ name ∷ content ∷ _) st =
      let sender = from_utf8_lossy from in
      let (line, disk) =
        file_result sender (from_utf8_lossy name) (from_utf8_lossy content) (lookup sender st.known)
          st.disk in
      pprint line (record st { disk = disk })
  file_parts _ st = pprint (codes "[ОШИБКА] Повреждённый кадр файла") st

  unfoldable pub handle_file : Bytes → State → State
  handle_file payload st = file_parts (split 0 payload) st

  -- `pending.take()`.
  unfoldable pub deliver : Text → State → State
  deliver text st = elim st.pending [
    | none ↦ st
    | some ch ↦ record st { pending = none; mail = st.mail ++ (ch, text) ∷ [] }
  ]

  unfoldable pub register_payload : Bytes
  register_payload = as_bytes (s.username ++ 0 ∷ s.pub_b64)

  unfoldable pub handle_text : Text → State → State
  handle_text text st = elim (strip_prefix (codes "[RESP]") text) [
    | some rest ↦ deliver (trim rest) st
    | none ↦
        if starts_with (codes "[ПУБКЛЮЧИ]") text || starts_with (codes "[НОВЫЙ]") text
        then insert_keys c s.os text st
        else if starts_with (codes "[AUTH]OK") text
        then (write_frame c s type_register register_payload st).1
        else pprint text st
  ]

  unfoldable pub handle_command : Bytes → State → State
  handle_command payload st = elim (gcm_decrypt c s.shared_key (from_utf8_lossy payload) []) [
    | none ↦ st
    | some text ↦ handle_text (trim text) st
  ]

  -- One round of the loop, behind a frame that was received.
  unfoldable pub handle_frame : ℕ → Bytes → State → State
  handle_frame ftype payload st =
      if ftype == type_command
      then handle_command payload st
      else if ftype == type_message
      then handle_message payload st
      else if ftype == type_file
      then handle_file payload st
      else st

  unfoldable pub handle_frames : List (ℕ × Bytes) → State → State
  handle_frames [] st = st
  handle_frames ((ftype, payload) ∷ frames) st =
      handle_frames frames (handle_frame ftype payload st)

  -- `loop`, on fuel: `none` only if the fuel ran out.
  unfoldable pub reader_loop : ℕ → Incoming → State → Option State
  reader_loop zero stream st = none
  reader_loop (suc fuel) stream st = elim (recv_frame stream) [
    | ok (some (ftype, payload, rest)) ↦ reader_loop fuel rest (handle_frame ftype payload st)
    | ok none ↦ some st
    | err _ ↦ some st
  ]
