-- ===== src/Examples/Rooms.antt =====
-- A message to a room, on the small platform.
use e2e_console_messenger.Base.{
  ◌≡◌, refl, false, some, List, [], ◌∷◌, ◌++◌, Bytes, Text, codes, absent-Lacks, trim, trim_end,
  is_whitespace, strip_prefix, text_eq, split, split_once, ap, starts_with, NoSpace, arith, true,
}
use e2e_console_messenger.Base.Utf8.{ascii-IsText, as_bytes, from_utf8, from_utf8_lossy}
use e2e_console_messenger.Base.Dict.{lookup}
use e2e_console_messenger.Proto.{type_message, type_command, frame_bytes}
use e2e_console_messenger.Crypto.{try_into, gcm_encrypt, gcm_decrypt}
use e2e_console_messenger.Net.State.{Session, NetState, msg, send}
use e2e_console_messenger.Net.Reader.{reaction_prefix, handle_message}
use e2e_console_messenger.Net.Request.{request, room_targets, received, member_items, member_item}
use e2e_console_messenger.Net.Request.Answer.{request_answered}
use e2e_console_messenger.Net.Commands.{send_each}
use e2e_console_messenger.Examples.Toy.{toy, toy-IsLawful}
use e2e_console_messenger.Examples.Secrets.{nonce, greeting, bob_pub, sealed, encrypted_to_bob}
use e2e_console_messenger.Examples.Session.{alice, bob, st}
use e2e_console_messenger.Net.State.{room}
use e2e_console_messenger.Net.Commands.{do_command}
use e2e_console_messenger.App.State.{MeshApp, new_chat, default_app}
use e2e_console_messenger.App.Labels.{room_chat_id}
use e2e_console_messenger.App.Chats.{display_name}
use e2e_console_messenger.App.Chats.Laws.{IsValid}
use e2e_console_messenger.App.Chats.Newest.{Shows}
use e2e_console_messenger.App.Events.{handle_event}
use e2e_console_messenger.App.Input.{submit_input}
use e2e_console_messenger.App.RoomDelivery.{to_room, before_turn, submit_input-room_delivered}
use e2e_console_messenger.Examples.Window.{moment, window, window-IsValid}

-- The server's answer to `/roommembers`, sealed under the shared key.
abbrev members : Text
members = codes "@bob:" ++ bob_pub

abbrev answer : Text
answer = toy.b64_encode (
    nonce
    ++ 9 ∷ 9 ∷ 9 ∷ 9 ∷ 9 ∷ 9 ∷ 9 ∷ 9 ∷ 9 ∷ 9 ∷ 9 ∷ 9 ∷ 9 ∷ 9 ∷ 9 ∷ 9 ∷ (codes "[RESP]" ++ members))

abbrev asking : Session
asking = record alice { arrivals = λ n. (type_command, answer) ∷ [] }

answer_opens :
    gcm_decrypt toy asking.shared_key (from_utf8_lossy answer) [] ≡ some (codes "[RESP]" ++ members)
unfolding gcm_decrypt try_into from_utf8 from_utf8_lossy strip_prefix
answer_opens = refl

answered : (request toy asking (codes "/roommembers") st).0 ≡ some (trim members)
unfolding gcm_encrypt try_into as_bytes trim is_whitespace strip_prefix received
answered =
    request_answered toy asking (codes "/roommembers")
      (toy.b64_encode (
        nonce
        ++ 9 ∷ 9 ∷ 9 ∷ 9 ∷ 9 ∷ 9 ∷ 9 ∷ 9 ∷ 9 ∷ 9 ∷ 9 ∷ 9 ∷ 9 ∷ 9 ∷ 9 ∷ 9 ∷ codes "/roommembers"))
      answer (codes "[RESP]" ++ members) members [] st refl refl refl answer_opens refl refl

bob_alone : (room_targets toy asking st).0 ≡ (bob.username, bob_pub) ∷ []
unfolding room_targets trim is_whitespace split text_eq member_items member_item split_once
bob_alone = rw (answered, room_targets) refl

-- The sender's window, with the chat of a room selected.
abbrev in_den : MeshApp
in_den = record window {
  input = greeting;
  connected = true;
  has_channel = true;
  chats = new_chat 0 (codes "# den") true ∷ [];
}

in_den-IsValid : IsValid in_den
unfolding new_chat default_app
in_den-IsValid = record { selected = omega arith; bounded = (omega arith, tt) }

den-NoSpace : NoSpace (codes "den")
unfolding is_whitespace
den-NoSpace = (refl, (refl, (refl, tt)))

submit_input-room_delivered_example :
    (mine' : MeshApp) × (sent : NetState) × (payload : Bytes) × (more : List Bytes)
    × (theirs' : MeshApp) × (submit_input moment in_den ≡ some mine')
    × Shows (room_chat_id (codes "den")) true in_den.my_nick (trim in_den.input) 0 mine'.chats
    × (mine'.sent ≡ in_den.sent ++ to_room (codes "den") (trim in_den.input) in_den)
    × (do_command toy asking (room (codes "den") (trim in_den.input)) st ≡ some sent)
    × (sent.out.sent
        ≡ (before_turn toy toy-IsLawful asking
            (codes "den")
            (trim in_den.input)
            []
            (room_targets toy asking st).1).out.sent
          ++ frame_bytes type_message payload ∷ more)
    × (handle_message toy bob payload st
        ≡ send (msg alice.username (trim in_den.input) (some (codes "den"))) st)
    × (handle_event true moment (msg alice.username (trim in_den.input) (some (codes "den"))) window
        ≡ some theirs')
    × Shows
        (room_chat_id (codes "den"))
        false
        (display_name alice.username window)
        (trim in_den.input)
        0
        theirs'.chats
unfolding trim trim_end is_whitespace strip_prefix reaction_prefix lookup text_eq room_targets
    send_each new_chat default_app starts_with room_chat_id
submit_input-room_delivered_example =
    submit_input-room_delivered toy toy-IsLawful asking bob moment moment true in_den window
      (new_chat 0 (codes "# den") true) (codes "den") sealed [] [] st (room_targets toy asking st).1
      st in_den-IsValid refl refl refl refl refl den-NoSpace refl refl refl refl
      (ascii-IsText greeting refl) (ap (λ l. (l, (room_targets toy asking st).1)) bob_alone) refl
      refl (ascii-IsText alice.username refl) (ascii-IsText (codes "den") refl)
      (absent-Lacks 0 alice.username refl) (absent-Lacks 0 (codes "den") refl)
      (absent-Lacks 0 bob.username refl) refl encrypted_to_bob refl window-IsValid refl
