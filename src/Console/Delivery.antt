-- ===== src/Console/Delivery.antt =====
-- A private message between the console client and the client with the window.
use e2e_console_messenger.Base.{
  ◌+◌, ◌≡◌, ◌∙◌, refl, ap, true, false, none, some, [], ◌∷◌, ◌++◌, Bytes, Text, codes, length,
  Lacks, All, trim, trim_end, is_empty, splitn, split_once-append, strip_prefix,
  strip_prefix-append,
}
use e2e_console_messenger.Base.Utf8.{IsText, as_bytes, from_utf8_lossy-as_bytes}
use e2e_console_messenger.Base.Dict.{lookup}
use e2e_console_messenger.Platform.{Platform, IsLawful, IsPrintable}
use e2e_console_messenger.Proto.{type_message, frame_bytes}
use e2e_console_messenger.Crypto.{encrypt_to_peer, decrypt_from_peer}
use e2e_console_messenger.Crypto.RoundTrip.{
  decrypt_from_peer-encrypt_to_peer, encrypt_to_peer-IsPrintable,
}
use e2e_console_messenger.Store.Keys.{printable-IsText}
use e2e_console_messenger.Net.State.{msg, Session, NetState, send}
use e2e_console_messenger.Net.Reader
use e2e_console_messenger.Net.Reader.{send_all, reaction_prefix, text_events}
use e2e_console_messenger.Net.Commands.{message_payload, do_priv}
use e2e_console_messenger.Net.Commands.Payload.{printable-Lacks, split-message_payload}
use e2e_console_messenger.Net.Commands.Delivery.{do_priv_sends, handle_message_shows}
use e2e_console_messenger.Console.State.{State, pprint, write_frame}
use e2e_console_messenger.Console.Request.{recipient_pub}
use e2e_console_messenger.Console.Reader.{from_line, message_line, message_parts, handle_message}
use e2e_console_messenger.Console.Send.{seal_text, send_sealed, send_found, send_to}
use e2e_console_messenger.Console.Main.{two_words, do_msg, do_line, handle_line}

-- The two words of `/msg`.
splitn-words :
    (target text : Text)
    → Lacks b' ' target
    → two_words (splitn 2 b' ' (target ++ b' ' ∷ text)) ≡ (target, text)
unfolding two_words splitn
splitn-words target text h = rw (split_once-append b' ' target text h, splitn) refl

module _ (c : Platform) (s : Session) where
  message_line_known :
      (from ct pubk plain : Text)
      → decrypt_from_peer c ct pubk s.our ≡ some plain
      → message_line c s from ct (some pubk) ≡ from_line from (codes ": " ++ trim_end plain)
  unfolding message_line
  message_line_known from ct pubk plain d = rw (d, message_line) refl

  -- What the console prints for a payload whose text decrypts.
  handle_message_prints :
      (from to ct pubk plain : Text) (st : State)
      → IsText from
      → Lacks 0 from
      → Lacks 0 to
      → All IsPrintable ct
      → lookup from st.known ≡ some pubk
      → decrypt_from_peer c ct pubk s.our ≡ some plain
      → handle_message c s (as_bytes (message_payload from to ct)) st
        ≡ pprint (from_line from (codes ": " ++ trim_end plain)) st
  unfolding handle_message message_parts
  handle_message_prints from to ct pubk plain st v hf ht hc k d =
      rw
        (
          split-message_payload from to ct hf ht (printable-Lacks ct hc),
          handle_message,
          message_parts,
          from_utf8_lossy-as_bytes from v,
          from_utf8_lossy-as_bytes ct (printable-IsText ct hc),
        )
        (ap (λ line. pprint line st)
          (ap (message_line c s from ct) k ∙ message_line_known from ct pubk plain d))

  -- A message to a user whose key is known, and that is encrypted and written.
  send_to_known :
      (target text pubk ct : Text) (st : State)
      → lookup target st.known ≡ some pubk
      → encrypt_to_peer c (s.nonce st.draws) text pubk s.pub_b64 s.our ≡ some ct
      → send_to c s target text st
        ≡ write_frame c s type_message
            (as_bytes (message_payload s.username target ct))
            (record st { draws = st.draws + 1 })
  unfolding send_to recipient_pub send_found seal_text send_sealed
  send_to_known target text pubk ct st k e =
      rw (k, recipient_pub, send_to, e, send_found, send_sealed) refl

  -- The state behind a private message.
  said : Text → Text → Bytes → State → State
  said target text payload st =
      pprint (codes "[Я] -> " ++ (target ++ (codes ": " ++ text))) (record st {
        draws = st.draws + 1;
        out = record {
          sent = st.out.sent ++ frame_bytes type_message payload ∷ [];
          attempts = st.out.attempts + 1;
        };
      })

  write_frame_done :
      (payload : Bytes) (st : State)
      → s.link st.out.attempts ≡ true
      → write_frame c s type_message payload st ≡ (
        true,
        record st {
          out = record {
            sent = st.out.sent ++ frame_bytes type_message payload ∷ [];
            attempts = st.out.attempts + 1;
          };
        },
      )
  unfolding write_frame e2e_console_messenger.Proto.send_frame
  write_frame_done payload st w = rw w refl

  do_msg_known :
      (target text pubk ct : Text) (st : State)
      → Lacks b' ' target
      → is_empty target ≡ false
      → is_empty text ≡ false
      → lookup target st.known ≡ some pubk
      → encrypt_to_peer c (s.nonce st.draws) text pubk s.pub_b64 s.our ≡ some ct
      → s.link st.out.attempts ≡ true
      → do_msg c s (target ++ b' ' ∷ text) st
        ≡ said target text (as_bytes (message_payload s.username target ct)) st
  unfolding do_msg said
  do_msg_known target text pubk ct st hs ht hx k e w =
      let sent =
        send_to_known target text pubk ct st k e
        ∙ write_frame_done (as_bytes (message_payload s.username target ct))
            (record st { draws = st.draws + 1 }) w in
      rw (splitn-words target text hs, do_msg, sent, ht, hx) refl

  handle_line_msg :
      (line rest : Text) (st : State)
      → trim line ≡ codes "/msg " ++ rest
      → handle_line c s line st ≡ do_msg c s rest st
  unfolding handle_line do_line
  handle_line_msg line rest st h =
      rw (h, handle_line, strip_prefix-append (codes "/msg ") rest, do_line) refl

module _ (c : Platform) (laws : IsLawful c) where
  -- A private message from the console client to the client with the window: both hold the other's
  -- published key, their names are texts without a 0, the line typed is, up to white space around it, "/msg ", the recipient's name
  -- without a space, a space and a text, neither of them empty, the text is encrypted under a nonce
  -- of 12 bytes and the connection takes the frame. Then the console writes one frame of type
  -- MESSAGE, and the window's `handle_message` shows what it carries as the sender's message with
  -- the text, trimmed at its end, if this is not a reaction.
  pub handle_line-delivered :
      (alice bob : Session) (line text ct : Text) (st : State) (st' : NetState)
      → trim line ≡ codes "/msg " ++ (bob.username ++ b' ' ∷ text)
      → alice.pub_b64 ≡ c.b64_encode (c.public_key alice.our)
      → lookup bob.username st.known ≡ some (c.b64_encode (c.public_key bob.our))
      → lookup alice.username st'.known ≡ some (c.b64_encode (c.public_key alice.our))
      → IsText text
      → IsText alice.username
      → Lacks 0 alice.username
      → Lacks 0 bob.username
      → Lacks b' ' bob.username
      → is_empty bob.username ≡ false
      → is_empty text ≡ false
      → length (alice.nonce st.draws) ≡ 12
      → encrypt_to_peer c
          (alice.nonce st.draws)
          text
          (c.b64_encode (c.public_key bob.our))
          alice.pub_b64
          alice.our
        ≡ some ct
      → alice.link st.out.attempts ≡ true
      → strip_prefix reaction_prefix (trim_end text) ≡ none
      → (payload : Bytes) × ((handle_line c alice line st).out.sent
          ≡ st.out.sent ++ frame_bytes type_message payload ∷ [])
        × (Reader.handle_message c bob payload st'
            ≡ send (msg alice.username (trim_end text) none) st')
  unfolding text_events send send_all said pprint
  handle_line-delivered alice bob line text ct st st' typed own kb ka v va ha hb hs hn hx n e link
        r =
      let payload = as_bytes (message_payload alice.username bob.username ct) in
      let sealed = rw own at e in
      let plain =
        decrypt_from_peer-encrypt_to_peer c laws (alice.nonce st.draws) alice.our bob.our text ct n
          v sealed in
      let printable =
        encrypt_to_peer-IsPrintable c laws (alice.nonce st.draws) text _ _ ct alice.our sealed in
      (
        payload,
        ap (λ x. x.out.sent)
            (handle_line_msg c alice line _ st typed
              ∙ do_msg_known c alice bob.username text _ ct st hs hn hx kb e link),
        handle_message_shows c laws bob alice.username bob.username ct _ text st' va ha hb printable
              ka plain
            ∙ rw (r, text_events) refl,
      )

  -- And the other way: what the window's `do_priv` sends, the console prints, under the same
  -- conditions on keys, names, nonce and connection, as the sender's name in brackets and the text,
  -- trimmed at its end.
  pub do_priv-printed :
      (alice bob : Session) (text ct : Text) (st : NetState) (st' : State)
      → alice.pub_b64 ≡ c.b64_encode (c.public_key alice.our)
      → lookup bob.username st.known ≡ some (c.b64_encode (c.public_key bob.our))
      → lookup alice.username st'.known ≡ some (c.b64_encode (c.public_key alice.our))
      → IsText text
      → IsText alice.username
      → Lacks 0 alice.username
      → Lacks 0 bob.username
      → length (alice.nonce st.draws) ≡ 12
      → encrypt_to_peer c
          (alice.nonce st.draws)
          text
          (c.b64_encode (c.public_key bob.our))
          alice.pub_b64
          alice.our
        ≡ some ct
      → alice.link st.out.attempts ≡ true
      → (payload : Bytes) × ((do_priv c alice bob.username text st).out.sent
          ≡ st.out.sent ++ frame_bytes type_message payload ∷ [])
        × (handle_message c bob payload st'
            ≡ pprint (codes "[" ++ (alice.username ++ (codes "]: " ++ trim_end text))) st')
  unfolding from_line
  do_priv-printed alice bob text ct st st' own kb ka v va ha hb n e link =
      let payload = as_bytes (message_payload alice.username bob.username ct) in
      let sealed = rw own at e in
      let plain =
        decrypt_from_peer-encrypt_to_peer c laws (alice.nonce st.draws) alice.our bob.our text ct n
          v sealed in
      let printable =
        encrypt_to_peer-IsPrintable c laws (alice.nonce st.draws) text _ _ ct alice.our sealed in
      (
        payload,
        do_priv_sends c laws alice bob.username text _ ct st kb e link,
        handle_message_prints c bob alice.username bob.username ct _ text st' va ha hb printable ka
            plain,
      )
