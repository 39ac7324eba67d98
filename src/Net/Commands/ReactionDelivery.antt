-- ===== src/Net/Commands/ReactionDelivery.antt =====
-- A reaction from one client to another, end to end.
use e2e_console_messenger.Base.{
  ◌≡◌, ◌∙◌, refl, ap, true, false, Option, none, some, [], ◌∷◌, ◌++◌, Bytes, Text, length, Lacks,
  All-append, arith, inl, codes, trim_end, trim_end-append, strip_prefix-append, split_once-append,
  is_whitespace,
}
use e2e_console_messenger.Base.Utf8.{IsScalar, IsText, as_bytes, ascii-IsText}
use e2e_console_messenger.Base.Dict.{lookup}
use e2e_console_messenger.Platform.{Platform, IsLawful}
use e2e_console_messenger.Proto.{type_message, frame_bytes}
use e2e_console_messenger.Crypto.{encrypt_to_peer}
use e2e_console_messenger.Crypto.RoundTrip.{
  decrypt_from_peer-encrypt_to_peer, encrypt_to_peer-IsPrintable,
}
use e2e_console_messenger.Net.State.{reacted, Session, NetState, send}
use e2e_console_messenger.Net.Reader.{send_all, reaction_prefix, text_events, handle_message}
use e2e_console_messenger.Net.Commands.{message_payload, reaction_text, do_reaction}
use e2e_console_messenger.Net.Commands.Delivery.{send_private_sends, handle_message_shows}

-- A text built for a reaction is taken apart into the emoji and the text that is reacted to, if the
-- emoji holds no colon.
pub text_events-reaction_text :
    (from emoji target : Text) (room : Option Text)
    → Lacks b':' emoji
    → text_events from (reaction_text emoji target) room ≡ reacted emoji target room ∷ []
unfolding text_events reaction_text reaction_prefix
text_events-reaction_text from emoji target room h = rw (
  strip_prefix-append (codes "__REACTION__:") (emoji ++ b':' ∷ target),
  text_events,
  split_once-append b':' emoji target h,
)

-- The colon keeps white space in front of it from being trimmed.
trim_end-reaction_text :
    (emoji target : Text)
    → trim_end (reaction_text emoji target) ≡ reaction_text emoji (trim_end target)
unfolding reaction_text is_whitespace
trim_end-reaction_text emoji target =
    trim_end-append (codes "__REACTION__:" ++ emoji) b':' target refl

reaction_text-IsText :
    (emoji target : Text) → IsText emoji → IsText target → IsText (reaction_text emoji target)
unfolding reaction_text
reaction_text-IsText emoji target ve vt =
    All-append IsScalar (codes "__REACTION__:") _ (ascii-IsText (codes "__REACTION__:") refl)
      (All-append IsScalar emoji _ ve (inl (omega arith), vt))

module _ (c : Platform) (laws : IsLawful c) where
  do_reaction_sends :
      (s : Session) (target emoji target_text pubk ct : Text) (st : NetState)
      → lookup target st.known ≡ some pubk
      → encrypt_to_peer c (s.nonce st.draws) (reaction_text emoji target_text) pubk s.pub_b64 s.our
        ≡ some ct
      → s.link st.out.attempts ≡ true
      → ((do_reaction c s target false emoji target_text st).out.sent
          ≡ st.out.sent
            ++ frame_bytes type_message (as_bytes (message_payload s.username target ct)) ∷ [])
        × ((do_reaction c s target false emoji target_text st).events
            ≡ st.events ++ reacted emoji target_text none ∷ [])
  unfolding do_reaction
  do_reaction_sends s target emoji target_text pubk ct st k e w =
      let (done, sent, quiet) =
        send_private_sends c laws s (message_payload s.username target) type_message target
          (reaction_text emoji target_text) pubk ct st k e w in
      rw done (unfold send in (sent, ap (λ l. l ++ reacted emoji target_text none ∷ []) quiet))

  -- A reaction, end to end: both clients hold the other's published key, the emoji holds no colon,
  -- the text of the reaction is encrypted under a nonce of 12 bytes and the connection takes the
  -- frame. Then the sender's `do_reaction` writes one MESSAGE frame and reports the reaction to its
  -- own window, and the receiver's `handle_message` reports what the frame carries as the same
  -- reaction, its target trimmed at the end.
  pub do_reaction-delivered :
      (alice bob : Session) (emoji target_text ct : Text) (st st' : NetState)
      → alice.pub_b64 ≡ c.b64_encode (c.public_key alice.our)
      → lookup bob.username st.known ≡ some (c.b64_encode (c.public_key bob.our))
      → lookup alice.username st'.known ≡ some (c.b64_encode (c.public_key alice.our))
      → IsText emoji
      → IsText target_text
      → Lacks b':' emoji
      → IsText alice.username
      → Lacks 0 alice.username
      → Lacks 0 bob.username
      → length (alice.nonce st.draws) ≡ 12
      → encrypt_to_peer c
          (alice.nonce st.draws)
          (reaction_text emoji target_text)
          (c.b64_encode (c.public_key bob.our))
          alice.pub_b64
          alice.our
        ≡ some ct
      → alice.link st.out.attempts ≡ true
      → (payload : Bytes) × ((do_reaction c alice bob.username false emoji target_text st).out.sent
          ≡ st.out.sent ++ frame_bytes type_message payload ∷ [])
        × ((do_reaction c alice bob.username false emoji target_text st).events
            ≡ st.events ++ reacted emoji target_text none ∷ [])
        × (handle_message c bob payload st' ≡ send (reacted emoji (trim_end target_text) none) st')
  unfolding send_all send
  do_reaction-delivered alice bob emoji target_text ct st st' own kb ka ve vt colon va ha hb n e
        link =
      let text = reaction_text emoji target_text in
      let sealed = rw own at e in
      let plain =
        decrypt_from_peer-encrypt_to_peer c laws (alice.nonce st.draws) alice.our bob.our text ct n
          (reaction_text-IsText emoji target_text ve vt) sealed in
      let printable =
        encrypt_to_peer-IsPrintable c laws (alice.nonce st.draws) text _ _ ct alice.our sealed in
      let (sent, echo) = do_reaction_sends alice bob.username emoji target_text _ ct st kb e link in
      (
        as_bytes (message_payload alice.username bob.username ct),
        sent,
        echo,
        handle_message_shows c laws bob alice.username bob.username ct _ text st' va ha hb printable
              ka plain
            ∙ ap (λ evs. send_all evs st')
                (ap (λ t. text_events alice.username t none)
                    (trim_end-reaction_text emoji target_text)
                  ∙ text_events-reaction_text alice.username emoji (trim_end target_text) none
                      colon),
      )
