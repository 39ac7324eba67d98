-- ===== src/Examples/Delivery.antt =====
-- Messages, files and reactions between two clients, on the small platform.
use e2e_console_messenger.Base.{
  ◌≡◌, refl, true, false, none, some, [], ◌∷◌, ◌++◌, Bytes, Text, codes, absent-Lacks, trim,
  starts_with, text_eq, is_whitespace, strip_prefix, split, contains, arith,
}
use e2e_console_messenger.Base.Utf8.{as_bytes, ascii-IsText}
use e2e_console_messenger.Base.Dict.{lookup, insert}
use e2e_console_messenger.Proto.{type_message, type_file, frame_bytes}
use e2e_console_messenger.Crypto.{try_into, derive_key, gcm_encrypt, encrypt_to_peer}
use e2e_console_messenger.Store.{downloads, file_name, refused, safe_file_name}
use e2e_console_messenger.Net.State.{priv, msg, file_msg, NetState, send}
use e2e_console_messenger.Net.Reader.{reaction_prefix, handle_message, handle_file}
use e2e_console_messenger.Net.Commands.{base_name, reaction_text, do_command}
use e2e_console_messenger.App.FileDelivery.{file_notice, send_picked-delivered}
use e2e_console_messenger.App.Windows.{send_picked}
use e2e_console_messenger.Net.State.{file}
use e2e_console_messenger.App.State.{Msg, Chat, MeshApp, new_chat, default_app}
use e2e_console_messenger.App.Chats.{display_name}
use e2e_console_messenger.App.Chats.Laws.{IsValid}
use e2e_console_messenger.App.Chats.Newest.{Shows}
use e2e_console_messenger.App.Events.{handle_event}
use e2e_console_messenger.App.Input.{submit_input}
use e2e_console_messenger.App.Delivery.{submit_input-delivered}
use e2e_console_messenger.Examples.Toy.{toy, toy-IsLawful}
use e2e_console_messenger.Examples.Secrets.{
  nonce, greeting, alice_secret, alice_pub, bob_pub, sealed, encrypted_to_bob,
}
use e2e_console_messenger.Examples.Session.{alice, bob, st}
use e2e_console_messenger.Examples.Window.{moment, window, window-IsValid}

-- What the small cipher puts in front of a text.
abbrev tag : Bytes
tag = 9 ∷ 9 ∷ 9 ∷ 9 ∷ 9 ∷ 9 ∷ 9 ∷ 9 ∷ 9 ∷ 9 ∷ 9 ∷ 9 ∷ 9 ∷ 9 ∷ 9 ∷ 9 ∷ []

abbrev path : Text
path = codes "d/a.t"

abbrev content : Bytes
content = 1 ∷ 2 ∷ []

abbrev sealed_file : Text
unfolding as_bytes
sealed_file = toy.b64_encode (nonce ++ (tag ++ as_bytes (toy.b64_encode content)))

file_encrypted :
    encrypt_to_peer toy nonce (toy.b64_encode content) bob_pub alice_pub alice_secret
    ≡ some sealed_file
unfolding encrypt_to_peer gcm_encrypt try_into as_bytes derive_key
file_encrypted = refl

abbrev with_file : NetState
with_file = record st { disk = (path, content) ∷ [] }

-- The sender's window, with the chat with the recipient selected.
abbrev writing : MeshApp
writing = record window {
  input = greeting;
  connected = true;
  has_channel = true;
  chats = new_chat 0 (codes "@bob") false ∷ [];
}

writing-IsValid : IsValid writing
unfolding new_chat default_app
writing-IsValid = record { selected = omega arith; bounded = (omega arith, tt) }

send_picked-delivered_example :
    (mine' : MeshApp) × (sent : NetState) × (payload : Bytes) × (theirs' : MeshApp) × (send_picked
        path writing
      ≡ some mine')
    × (mine'.sent ≡ writing.sent ++ file bob.username false path ∷ [])
    × (do_command toy alice (file bob.username false path) with_file ≡ some sent)
    × (sent.out.sent ≡ with_file.out.sent ++ frame_bytes type_file payload ∷ [])
    × (handle_file toy bob payload st
        ≡ send (file_msg alice.username (safe_file_name (base_name path)) none) (record st {
          disk =
              insert
                (downloads (codes "/home/a") ++ b'/' ∷ safe_file_name (base_name path))
                content
                st.disk;
        }))
    × (handle_event true moment
          (file_msg alice.username (safe_file_name (base_name path)) none)
          window
        ≡ some theirs')
    × Shows alice.username false
        (display_name alice.username window)
        (file_notice (safe_file_name (base_name path)))
        4
        theirs'.chats
unfolding lookup text_eq base_name safe_file_name is_whitespace contains refused trim file_name
    split new_chat default_app
send_picked-delivered_example =
    send_picked-delivered toy toy-IsLawful alice bob moment true writing window
      (new_chat 0 (codes "@bob") false) path sealed_file (codes "/home/a") content with_file st refl
      refl refl refl refl refl refl refl (omega arith) (ascii-IsText alice.username refl)
      (ascii-IsText (base_name path) refl) (absent-Lacks 0 alice.username refl)
      (absent-Lacks 0 bob.username refl) (absent-Lacks 0 (base_name path) refl) refl file_encrypted
      refl refl refl refl refl window-IsValid

submit_input-delivered_example :
    (mine' : MeshApp) × (sent : NetState) × (payload : Bytes) × (theirs' : MeshApp) × (submit_input
        moment writing
      ≡ some mine')
    × Shows bob.username true writing.my_nick (trim writing.input) 0 mine'.chats
    × (mine'.sent ≡ writing.sent ++ priv bob.username (trim writing.input) ∷ [])
    × (do_command toy alice (priv bob.username (trim writing.input)) st ≡ some sent)
    × (sent.out.sent ≡ st.out.sent ++ frame_bytes type_message payload ∷ [])
    × (handle_message toy bob payload st ≡ send (msg alice.username (trim writing.input) none) st)
    × (handle_event true moment (msg alice.username (trim writing.input) none) window
        ≡ some theirs')
    × Shows alice.username false
        (display_name alice.username window)
        (trim writing.input)
        0
        theirs'.chats
unfolding lookup strip_prefix trim reaction_prefix text_eq is_whitespace new_chat default_app
    starts_with
submit_input-delivered_example =
    submit_input-delivered toy toy-IsLawful alice bob moment moment true writing window
      (new_chat 0 (codes "@bob") false) sealed st st writing-IsValid refl refl refl refl refl refl
      refl refl (ascii-IsText greeting refl) refl refl refl (ascii-IsText alice.username refl)
      (absent-Lacks 0 alice.username refl) (absent-Lacks 0 bob.username refl) refl encrypted_to_bob
      refl window-IsValid refl

abbrev message : Msg
message = record {
  mine = true;
  sender = codes "a";
  text = greeting;
  kind = 0;
  time = codes "12:00";
  date = codes "2025-01-01";
  reactions = [];
  read = true;
}

abbrev chat_with : Text → Chat
chat_with id = record {
  id = id;
  msgs = message ∷ [];
  unread = 0;
  is_room = false;
  last_activity = 0;
}

abbrev clicking : MeshApp
clicking = record window { has_channel = true; chats = chat_with (codes "@bob") ∷ [] }

abbrev reading : MeshApp
reading = record window { chats = chat_with (codes "@alice") ∷ [] }

abbrev fire : Text
fire = codes "🔥"

abbrev sealed_fire : Text
unfolding as_bytes reaction_text
sealed_fire = toy.b64_encode (nonce ++ (tag ++ as_bytes (reaction_text fire greeting)))
