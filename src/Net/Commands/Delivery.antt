-- ===== src/Net/Commands/Delivery.antt =====
-- A private message from one client to another, end to end.
use e2e_console_messenger.Base.{
  ℕ, ◌+◌, ◌≡◌, ◌∙◌, refl, ap, true, Option, none, some, [], ◌∷◌, ◌++◌, Bytes, Text, length, Lacks,
  All, strip_prefix, trim_end,
}
use e2e_console_messenger.Base.Utf8.{IsText, as_bytes, from_utf8_lossy-as_bytes}
use e2e_console_messenger.Base.Dict.{Dict, lookup}
use e2e_console_messenger.Platform.{Platform, IsLawful, IsPrintable}
use e2e_console_messenger.Proto.{type_message, frame_bytes}
use e2e_console_messenger.Crypto.{encrypt_to_peer, decrypt_from_peer}
use e2e_console_messenger.Crypto.RoundTrip.{
  decrypt_from_peer-encrypt_to_peer, encrypt_to_peer-IsPrintable,
}
use e2e_console_messenger.Store.Keys.{printable-IsText}
use e2e_console_messenger.Net.State.{msg, Session, NetState, send, emit, write_frame}
use e2e_console_messenger.Net.Reader.{
  send_all, room_of, reaction_prefix, text_events, message_events, message_parts, handle_message,
}
use e2e_console_messenger.Net.Request.{recipient_pub}
use e2e_console_messenger.Net.Commands.Payload.{printable-Lacks, split-message_payload}
use e2e_console_messenger.Net.Commands.{
  message_payload, seal_text, send_sealed, send_private, do_priv,
}

module _ (c : Platform) (laws : IsLawful c) (s : Session) where
  pub send_sealed_done :
      (payload : Text → Text) (ftype : ℕ) (text pubk ct : Text) (st : NetState)
      → encrypt_to_peer c (s.nonce st.draws) text pubk s.pub_b64 s.our ≡ some ct
      → send_sealed c s ftype payload text pubk st
        ≡ write_frame c s ftype (as_bytes (payload ct)) (record st { draws = st.draws + 1 })
  unfolding send_sealed seal_text
  send_sealed_done payload ftype text pubk ct st e = rw (e, send_sealed) refl

  -- What the sender does when it knows the key, the text is encrypted and the frame is written.
  send_private_known :
      (payload : Text → Text) (ftype : ℕ) (target text pubk ct : Text) (st : NetState)
      → lookup target st.known ≡ some pubk
      → encrypt_to_peer c (s.nonce st.draws) text pubk s.pub_b64 s.our ≡ some ct
      → send_private c s ftype payload target text st
        ≡ write_frame c s ftype (as_bytes (payload ct)) (record st { draws = st.draws + 1 })
  unfolding send_private
  send_private_known payload ftype target text pubk ct st k e =
      let known_key : recipient_pub c s target st ≡ (some pubk, st) =
        unfold recipient_pub in rw (k, recipient_pub) refl in
      rw (known_key, send_private, known_key) (send_sealed_done payload ftype text pubk ct st e)

  -- The frame is the last one written, and nothing but the connection changes.
  pub write_frame_done :
      (ftype : ℕ) (payload : Bytes) (st : NetState)
      → s.link st.out.attempts ≡ true
      → ((write_frame c s ftype payload st).0 ≡ true)
        × ((write_frame c s ftype payload st).1.out.sent
            ≡ st.out.sent ++ frame_bytes ftype payload ∷ [])
        × ((write_frame c s ftype payload st).1.events ≡ st.events)
  unfolding write_frame
  write_frame_done ftype payload st h = (h, rw h refl, refl)

  -- Given the key, the ciphertext and the connection, one frame is written.
  pub send_private_sends :
      (payload : Text → Text) (ftype : ℕ) (target text pubk ct : Text) (st : NetState)
      → lookup target st.known ≡ some pubk
      → encrypt_to_peer c (s.nonce st.draws) text pubk s.pub_b64 s.our ≡ some ct
      → s.link st.out.attempts ≡ true
      → ((send_private c s ftype payload target text st).0 ≡ true)
        × ((send_private c s ftype payload target text st).1.out.sent
            ≡ st.out.sent ++ frame_bytes ftype (as_bytes (payload ct)) ∷ [])
        × ((send_private c s ftype payload target text st).1.events ≡ st.events)
  send_private_sends payload ftype target text pubk ct st k e w =
      rw (send_private_known payload ftype target text pubk ct st k e)
        (write_frame_done ftype (as_bytes (payload ct)) (record st { draws = st.draws + 1 }) w)

  pub do_priv_sends :
      (target text pubk ct : Text) (st : NetState)
      → lookup target st.known ≡ some pubk
      → encrypt_to_peer c (s.nonce st.draws) text pubk s.pub_b64 s.our ≡ some ct
      → s.link st.out.attempts ≡ true
      → (do_priv c s target text st).out.sent
        ≡ st.out.sent
          ++ frame_bytes type_message (as_bytes (message_payload s.username target ct)) ∷ []
  unfolding do_priv
  do_priv_sends target text pubk ct st k e w =
      let (done, sent, quiet) =
        send_private_sends (message_payload s.username target) type_message target text pubk ct st k
          e w in
      rw done (unfold emit in sent)

  pub message_events_known :
      (known : Dict) (from ct pubk plain : Text) (room : Option Text)
      → lookup from known ≡ some pubk
      → decrypt_from_peer c ct pubk s.our ≡ some plain
      → message_events c s known from ct room ≡ text_events from (trim_end plain) room
  unfolding message_events
  message_events_known known from ct pubk plain room k d = rw (k, message_events, d) refl

  -- What the receiver shows for a payload whose text decrypts.
  pub handle_message_shows :
      (from to ct pubk plain : Text) (st : NetState)
      → IsText from
      → Lacks 0 from
      → Lacks 0 to
      → All IsPrintable ct
      → lookup from st.known ≡ some pubk
      → decrypt_from_peer c ct pubk s.our ≡ some plain
      → handle_message c s (as_bytes (message_payload from to ct)) st
        ≡ send_all (text_events from (trim_end plain) none) st
  unfolding handle_message message_parts room_of
  handle_message_shows from to ct pubk plain st v hf ht hc k d =
      rw
        (
          split-message_payload from to ct hf ht (printable-Lacks ct hc),
          handle_message,
          message_parts,
          from_utf8_lossy-as_bytes from v,
          from_utf8_lossy-as_bytes ct (printable-IsText ct hc),
        )
        (ap (λ evs. send_all evs st) (message_events_known st.known from ct pubk plain none k d))

module _ (c : Platform) (laws : IsLawful c) where
  -- A private message, end to end: both clients hold the other's published key, the names hold no NUL,
  -- the text, trimmed at its end, is not a reaction, the sender encrypts it under a nonce of 12 bytes
  -- and the connection takes the frame. Then the sender's `do_priv` writes one frame of type MESSAGE, and the receiver's `handle_message` shows what it
  -- carries as the sender's message with the text, trimmed at its end.
  pub do_priv-delivered :
      (alice bob : Session) (text ct : Text) (st st' : NetState)
      → alice.pub_b64 ≡ c.b64_encode (c.public_key alice.our)
      → lookup bob.username st.known ≡ some (c.b64_encode (c.public_key bob.our))
      → lookup alice.username st'.known ≡ some (c.b64_encode (c.public_key alice.our))
      → IsText text
      → IsText alice.username
      → Lacks 0 alice.username
      → Lacks 0 bob.username
      → length (alice.nonce st.draws) ≡ 12
      → encrypt_to_peer c
          (alice.nonce st.draws)
          text
          (c.b64_encode (c.public_key bob.our))
          alice.pub_b64
          alice.our
        ≡ some ct
      → alice.link st.out.attempts ≡ true
      → strip_prefix reaction_prefix (trim_end text) ≡ none
      → (payload : Bytes) × ((do_priv c alice bob.username text st).out.sent
          ≡ st.out.sent ++ frame_bytes type_message payload ∷ [])
        × (handle_message c bob payload st' ≡ send (msg alice.username (trim_end text) none) st')
  unfolding text_events send send_all
  do_priv-delivered alice bob text ct st st' own kb ka v va ha hb n e link r =
      let payload = as_bytes (message_payload alice.username bob.username ct) in
      let sealed = rw own at e in
      let plain =
        decrypt_from_peer-encrypt_to_peer c laws (alice.nonce st.draws) alice.our bob.our text ct n
          v sealed in
      let printable =
        encrypt_to_peer-IsPrintable c laws (alice.nonce st.draws) text _ _ ct alice.our sealed in
      (
        payload,
        do_priv_sends c laws alice bob.username text _ ct st kb e link,
        handle_message_shows c laws bob alice.username bob.username ct _ text st' va ha hb printable
              ka plain
            ∙ rw (r, text_events) refl,
      )
