-- ===== src/Console/Main.antt =====
-- `main` of the console client: what a typed line does, and the whole session.
use e2e_console_messenger.Base.{
  ℕ, Bool, none, some, List, [], ◌∷◌, ◌++◌, ◌||◌, Bytes, Text, codes, text_eq, is_empty, trim,
  splitn, strip_prefix, starts_with, if◌then◌else◌,
}
use e2e_console_messenger.Base.Utf8.{as_bytes}
use e2e_console_messenger.Base.Dict.{Dict, lookup}
use e2e_console_messenger.Platform.{Platform}
use e2e_console_messenger.Proto.{type_message, type_register, type_version}
use e2e_console_messenger.Store.{Os, Disk}
use e2e_console_messenger.Net.State.{Session}
use e2e_console_messenger.Console.Shared.{fingerprint, protocol_version}
use e2e_console_messenger.Console.Store.{load_shared_key, load_or_create_identity, load_tofu}
use e2e_console_messenger.Console.State.{State, pprint, pprint_all, write_frame, send_command}
use e2e_console_messenger.Console.Tofu.{pin}
use e2e_console_messenger.Console.Reader.{register_payload, handle_frame}
use e2e_console_messenger.Console.Send.{send_to, send_to_room, send_file_to_room}

-- `it.next().unwrap_or("")`, twice.
unfoldable pub two_words : List Text → Text × Text
two_words [] = ([], [])
two_words (a ∷ []) = (a, [])
two_words (a ∷ b ∷ _) = (a, b)

unfoldable pub fingerprint_lines : Dict → List Text
fingerprint_lines [] = []
fingerprint_lines ((n, fp) ∷ m) = (codes "  " ++ (n ++ (codes ": " ++ fp))) ∷ fingerprint_lines m

unfoldable pub user_name : Text → Text
user_name line = if is_empty (trim line) then codes "Аноним" else trim line

-- What happens in the session: a line is typed, or a frame arrives.
pub data Action : Type 0 where
  typed : Text → Action
  arrival : ℕ → Bytes → Action

module _ (c : Platform) (s : Session) where
  unfoldable pub do_msg : Text → State → State
  do_msg rest st =
      let (target, text) = two_words (splitn 2 b' ' rest) in
      let (sent, st1) = send_to c s target text st in
      if is_empty target || is_empty text
      then pprint (codes "[ОШИБКА] Формат: /msg Имя текст") st
      else if sent
      then pprint (codes "[Я] -> " ++ (target ++ (codes ": " ++ text))) st1
      else st1

  unfoldable pub do_trust : Text → State → State
  do_trust name st = elim (lookup name st.known) [
    | none ↦ pprint (codes "[ОШИБКА] Ключ для " ++ (name ++ codes " неизвестен")) st
    | some p ↦
        let fp = fingerprint c p in
        pprint (codes "✅ Новый ключ " ++ (name ++ (codes " подтверждён: " ++ fp)))
          (pin c s.os name fp st)
  ]

  unfoldable pub do_fingerprints : State → State
  unfolding fingerprint_lines
  do_fingerprints st =
      if is_empty st.tofu
      then pprint (codes "[КЛЮЧИ] Пока никого. Ключи появятся после /users или первого сообщения.")
          st
      else pprint_all (codes "[КЛЮЧИ] Сохранённые отпечатки (TOFU):" ∷ fingerprint_lines st.tofu) st

  -- The commands that the client carries out, then those of the server, then text for the room.
  unfoldable pub do_slash : Text → State → State
  do_slash msg st =
      if text_eq msg (codes "/fingerprints")
      then do_fingerprints st
      else if starts_with (codes "/") msg
      then send_command c s msg st
      else send_to_room c s msg st

  unfoldable pub do_trust_or_slash : Text → State → State
  do_trust_or_slash msg st = elim (strip_prefix (codes "/trust ") msg) [
    | some rest ↦ do_trust (trim rest) st
    | none ↦ do_slash msg st
  ]

  unfoldable pub do_file_or_other : Text → State → State
  do_file_or_other msg st = elim (strip_prefix (codes "/file ") msg) [
    | some rest ↦ send_file_to_room c s (trim rest) st
    | none ↦ do_trust_or_slash msg st
  ]

  unfoldable pub do_line : Text → State → State
  do_line msg st = elim (strip_prefix (codes "/msg ") msg) [
    | some rest ↦ do_msg rest st
    | none ↦ do_file_or_other msg st
  ]

  -- One round of the loop over the standard input.
  unfoldable pub handle_line : Text → State → State
  handle_line line st = let msg = trim line in if is_empty msg then st else do_line msg st

  -- What is sent and printed behind a successful connection.
  unfoldable pub start : State → State
  start st =
      let st1 = (write_frame c s type_message (as_bytes s.username) st).1 in
      let st2 = (write_frame c s type_version (as_bytes protocol_version) st1).1 in
      let st3 = (write_frame c s type_register (register_payload c s) st2).1 in
      pprint_all
        ((codes "Добро пожаловать, " ++ (s.username ++ codes "!"))
          ∷ codes "🔐 Авторизуйтесь: /login ник пароль или /register ник пароль пароль"
          ∷ codes
              "Команды: /join <комната>, /msg Имя текст, /file <путь>, /users, /rooms, /roommembers, /help, /exit"
          ∷ [])
        st3

  -- The two threads by turns, up to the end of the input.
  unfoldable pub run : List Action → State → State
  run [] st = st
  run (typed line ∷ acts) st = run acts (handle_line line st)
  run (arrival ftype payload ∷ acts) st = run acts (handle_frame c s ftype payload st)

-- What `main` is given: the operating system, random bytes for new keys, which writes succeed, the
-- nonces, the frames that arrive while a request waits, and the first line typed.
pub record Input : Type 0 where
  pub os : Os
  pub random_key : Bytes
  pub random_seed : Bytes
  pub link : ℕ → Bool
  pub nonce : ℕ → Bytes
  pub arrivals : ℕ → List (ℕ × Bytes)
  pub name_line : Text

module _ (c : Platform) (inp : Input) (disk : Disk) where
  -- The keys, and the disk behind both loads.
  unfoldable pub keys : Bytes × Bytes × Bytes × Disk
  keys =
      let (shared_key, disk1) = load_shared_key inp.os c inp.random_key disk in
      let (our, pub_bytes, disk2) = load_or_create_identity inp.os c inp.random_seed disk1 in
      (shared_key, our, pub_bytes, disk2)

  unfoldable pub session : Session
  session = record {
    username = user_name inp.name_line;
    shared_key = keys.0;
    our = keys.1;
    pub_b64 = c.b64_encode keys.2;
    os = inp.os;
    link = inp.link;
    nonce = inp.nonce;
    arrivals = inp.arrivals;
  }

  -- The fingerprints are loaded when they are first used.
  unfoldable pub initial : State
  initial = record {
    known = [];
    pending = none;
    tofu = load_tofu inp.os c keys.3;
    disk = keys.3;
    printed = [];
    out = record { sent = []; attempts = 0 };
    mail = [];
    channels = 0;
    draws = 0;
    waits = 0;
  }

  -- `main`, if the connection is made.
  unfoldable pub main : List Action → State
  unfolding session initial
  main acts = run c session acts (start c session (pprint (codes "Введи своё имя:") initial))
