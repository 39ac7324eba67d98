-- ===== src/Examples/Session.antt =====
-- Sessions of two clients.
use e2e_console_messenger.Base.Utf8.{ascii-IsText}
use e2e_console_messenger.Base.{
  absent-Lacks, ◌≡◌, ◌⊎◌, refl, Bool, true, false, none, some, List, [], ◌∷◌, ◌++◌, Bytes, Text,
  All, codes, split, text_eq, is_whitespace, strip_prefix, trim, trim_end, arith,
}
use e2e_console_messenger.Base.Utf8.{from_utf8, as_bytes, from_utf8_lossy}
use e2e_console_messenger.Base.Dict.{Dict, lookup}
use e2e_console_messenger.Proto.{frame_bytes, type_message, type_command}
use e2e_console_messenger.Crypto.{try_into, gcm_encrypt, gcm_decrypt}
use e2e_console_messenger.Net.State.{
  priv, trust, refresh_users, Ev, user_list, msg, Session, NetState, send,
}
use e2e_console_messenger.Net.Server.{server_events}
use e2e_console_messenger.Net.Server.Lines.{user_lines, IsPlainUser, server_events-user_lines}
use e2e_console_messenger.Net.Reader.{
  send_all, reaction_prefix, handle_message, handle_file, reader_loop,
}
use e2e_console_messenger.Net.Reader.Files.{IsReceived, handle_file-Spares}
use e2e_console_messenger.Proto.Streams.{Read}
use e2e_console_messenger.Net.Reader.Loop.{net_handler, reader_loop-Read}
use e2e_console_messenger.Net.Reader.Message.{Authentic, handle_message-Authentic}
use e2e_console_messenger.Net.Request.{received, request, room_targets}
use e2e_console_messenger.Net.Request.Answer.{request_answered}
use e2e_console_messenger.Net.Request.Laws.{IsOther, room_targets-IsOther}
use e2e_console_messenger.Net.Commands.{
  Action, command, arrival, message_payload, file_payload, do_priv, net_loop,
}
use e2e_console_messenger.Net.Commands.Pins.{Trusted, NoTrust, net_loop-Evolves}
use e2e_console_messenger.Trust.{pins_of, Evolves}
use e2e_console_messenger.Net.Commands.Delivery.{do_priv-delivered}
use e2e_console_messenger.Examples.Toy.{toy, toy-IsLawful}
use e2e_console_messenger.Examples.Files.{linux}
use e2e_console_messenger.Examples.Frames.{stream, bytes_are}
use e2e_console_messenger.Examples.Secrets.{
  nonce, greeting, alice_secret, bob_secret, alice_pub, bob_pub, sealed, encrypted_to_bob,
}

abbrev pub alice : Session
alice = record {
  username = codes "@alice";
  shared_key = toy.sha256 [];
  our = alice_secret;
  pub_b64 = alice_pub;
  os = linux;
  link = λ n. true;
  nonce = λ n. nonce;
  arrivals = λ n. [];
}

abbrev pub bob : Session
bob = record alice { username = codes "@bob"; our = bob_secret; pub_b64 = bob_pub }

abbrev pub both_known : Dict
both_known = (codes "@alice", alice_pub) ∷ (codes "@bob", bob_pub) ∷ []

abbrev pub st : NetState
st = record {
  known = both_known;
  pending = none;
  tofu = (codes "@bob", codes "00AA") ∷ [];
  disk = [];
  events = [];
  out = record { sent = []; attempts = 0 };
  mail = [];
  channels = 0;
  draws = 0;
  waits = 0;
}

do_priv-delivered_example :
    (payload : Bytes) × ((do_priv toy alice bob.username greeting st).out.sent
      ≡ st.out.sent ++ frame_bytes type_message payload ∷ [])
    × (handle_message toy bob payload st ≡ send (msg alice.username (trim_end greeting) none) st)
unfolding lookup strip_prefix trim_end reaction_prefix text_eq is_whitespace
do_priv-delivered_example =
    do_priv-delivered toy toy-IsLawful alice bob greeting sealed st st refl refl refl
      (ascii-IsText greeting refl) (ascii-IsText alice.username refl)
      (absent-Lacks 0 alice.username refl) (absent-Lacks 0 bob.username refl) refl encrypted_to_bob
      refl refl

-- A private message, a frame with a message, and a list of users asked for.
abbrev acts : List Action
acts =
    command (priv (codes "@bob") greeting)
    ∷ arrival type_message (as_bytes (message_payload (codes "@bob") (codes "@alice") sealed))
    ∷ command refresh_users
    ∷ []

-- The same, and /trust.
abbrev trusting : List Action
trusting = command (trust (codes "@bob")) ∷ acts

acts_trust_nobody : All (NoTrust toy alice) acts
acts_trust_nobody = ((λ name e. cc), (tt, ((λ name e. cc), tt)))

net_loop-Evolves_example :
    Evolves
      (λ name. Trusted name trusting)
      (pins_of st.tofu)
      (pins_of (net_loop toy alice none trusting st).tofu)
net_loop-Evolves_example = net_loop-Evolves toy alice none trusting st

handle_message-Authentic_example :
    (handle_message toy bob (as_bytes (message_payload (codes "@alice") (codes "@bob") sealed)) st
      ≡ st)
    ⊎ ((from to ct : Bytes) × (more : List Bytes) × (evs : List Ev) × (split 0
            (as_bytes (message_payload (codes "@alice") (codes "@bob") sealed))
          ≡ from ∷ to ∷ ct ∷ more)
        × (handle_message toy bob
              (as_bytes (message_payload (codes "@alice") (codes "@bob") sealed))
              st
            ≡ send_all evs st)
        × All (Authentic toy bob st.known (from_utf8_lossy from) (from_utf8_lossy ct)) evs)
handle_message-Authentic_example =
    handle_message-Authentic toy bob toy-IsLawful
      (as_bytes (message_payload (codes "@alice") (codes "@bob") sealed)) st

handle_file-Spares_example :
    (lookup
        (codes "/home/a/.bashrc")
        (handle_file toy bob
          (as_bytes (file_payload (codes "@alice") (codes "../.bashrc") (codes "@bob") sealed))
          st).disk
      ≡ lookup (codes "/home/a/.bashrc") st.disk)
    ⊎ IsReceived linux (codes "/home/a/.bashrc")
handle_file-Spares_example =
    handle_file-Spares toy bob
      (as_bytes (file_payload (codes "@alice") (codes "../.bashrc") (codes "@bob") sealed)) st
      (codes "/home/a/.bashrc")

reader_loop-Read_example :
    Read (net_handler toy alice) stream st (reader_loop toy alice 9 stream st)
reader_loop-Read_example = reader_loop-Read toy alice 9 stream st bytes_are (omega arith)

room_targets-IsOther_example : All (IsOther toy alice) (room_targets toy alice st).0
room_targets-IsOther_example = room_targets-IsOther toy alice st

abbrev online_users : List (Text × Text × Bool)
online_users = (codes "Al", codes "@alice", true) ∷ (codes "Bo", codes "@bob", false) ∷ []

plain_users : All IsPlainUser online_users
plain_users = (
  (
    (absent-Lacks b'|' (codes "Al") refl, absent-Lacks b';' (codes "Al") refl),
    (absent-Lacks b'|' (codes "@alice") refl, absent-Lacks b';' (codes "@alice") refl),
  ),
  (
    (
      (absent-Lacks b'|' (codes "Bo") refl, absent-Lacks b';' (codes "Bo") refl),
      (absent-Lacks b'|' (codes "@bob") refl, absent-Lacks b';' (codes "@bob") refl),
    ),
    tt,
  ),
)

server_events-user_lines_example :
    server_events (codes "[ПОЛЬЗОВАТЕЛИ2]" ++ user_lines online_users) ≡ user_list online_users ∷ []
server_events-user_lines_example = server_events-user_lines online_users plain_users

-- The server's answer "[RESP] ERR", sealed under the shared key.
abbrev response : Text
response = codes "[RESP] ERR"

abbrev response_sealed : Text
response_sealed =
    toy.b64_encode
      (nonce ++ 9 ∷ 9 ∷ 9 ∷ 9 ∷ 9 ∷ 9 ∷ 9 ∷ 9 ∷ 9 ∷ 9 ∷ 9 ∷ 9 ∷ 9 ∷ 9 ∷ 9 ∷ 9 ∷ response)

abbrev waiting : Session
waiting = record alice { arrivals = λ n. (type_command, response_sealed) ∷ [] }

response_opens :
    gcm_decrypt toy waiting.shared_key (from_utf8_lossy response_sealed) [] ≡ some response
unfolding gcm_decrypt try_into from_utf8 from_utf8_lossy strip_prefix
response_opens = refl

request_answered_example :
    (request toy waiting (codes "/pubkey @carol") st).0 ≡ some (trim (codes " ERR"))
unfolding gcm_encrypt try_into as_bytes trim is_whitespace strip_prefix received
request_answered_example =
    request_answered toy waiting (codes "/pubkey @carol")
      (toy.b64_encode (
        nonce
        ++ 9 ∷ 9 ∷ 9 ∷ 9 ∷ 9 ∷ 9 ∷ 9 ∷ 9 ∷ 9 ∷ 9 ∷ 9 ∷ 9 ∷ 9 ∷ 9 ∷ 9 ∷ 9 ∷ codes "/pubkey @carol"))
      response_sealed response (codes " ERR") [] st refl refl refl response_opens refl refl
