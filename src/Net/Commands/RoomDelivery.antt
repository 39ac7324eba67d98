-- ===== src/Net/Commands/RoomDelivery.antt =====
-- A message to a room, from one client to another, end to end.
use e2e_console_messenger.Base.{
  ℕ, ◌+◌, ◌≡◌, ◌∙◌, refl, sym, ap, inl, inr, Bool, true, false, none, some, List, [], ◌∷◌, ◌++◌,
  append_assoc, append-nil, Bytes, Text, length, Lacks, All, is_empty, trim, trim_end, strip_prefix,
  Option-cases, Bool-cases,
}
use e2e_console_messenger.Base.Utf8.{IsText, as_bytes, from_utf8_lossy-as_bytes}
use e2e_console_messenger.Base.Dict.{lookup}
use e2e_console_messenger.Platform.{Platform, IsLawful, IsPrintable}
use e2e_console_messenger.Proto.{type_message, frame_bytes, send_frame}
use e2e_console_messenger.Crypto.{encrypt_to_peer, decrypt_from_peer}
use e2e_console_messenger.Crypto.RoundTrip.{
  decrypt_from_peer-encrypt_to_peer, encrypt_to_peer-IsPrintable,
}
use e2e_console_messenger.Store.Keys.{printable-IsText}
use e2e_console_messenger.Net.State.{msg, Session, NetState, send, emit, write_frame}
use e2e_console_messenger.Net.Reader.{
  send_all, room_of, reaction_prefix, text_events, message_parts, handle_message,
}
use e2e_console_messenger.Net.Request.{room_targets}
use e2e_console_messenger.Net.Commands.{
  room_payload, seal_text, send_sealed, send_each, send_room, do_room,
}
use e2e_console_messenger.Net.Commands.Payload.{printable-Lacks, split-room_payload}
use e2e_console_messenger.Net.Commands.Delivery.{
  send_sealed_done, write_frame_done, message_events_known,
}

-- Frames are only added.
abbrev pub Adds : NetState → NetState → Type 0
Adds st st' = (more : List Bytes) × (st'.out.sent ≡ st.out.sent ++ more)

Adds-then : (a b d : NetState) → Adds a b → Adds b d → Adds a d
Adds-then a b d (more, e) (rest, k) =
    (more ++ rest, k ∙ ap (λ l. l ++ rest) e ∙ append_assoc a.out.sent more rest)

module _ (c : Platform) (s : Session) where
  write_frame-Adds :
      (ftype : ℕ) (payload : Bytes) (st : NetState) → Adds st (write_frame c s ftype payload st).1
  unfolding write_frame send_frame
  write_frame-Adds ftype payload st = elim (Bool-cases (s.link st.out.attempts)) [
    | inl e ↦ (frame_bytes ftype payload ∷ [], rw e refl)
    | inr e ↦ ([], rw e (sym (append-nil st.out.sent)))
  ]

  send_sealed-Adds :
      (ftype : ℕ) (payload : Text → Text) (text pubk : Text) (st : NetState)
      → Adds st (send_sealed c s ftype payload text pubk st).1
  unfolding send_sealed seal_text
  send_sealed-Adds ftype payload text pubk st =
      elim (Option-cases (encrypt_to_peer c (s.nonce st.draws) text pubk s.pub_b64 s.our)) [
        | inl e ↦ rw (e, send_sealed) ([], sym (append-nil st.out.sent))
        | inr (ct, e) ↦
            rw (e, send_sealed)
              (write_frame-Adds ftype (as_bytes (payload ct)) (record st { draws = st.draws + 1 }))
      ]

  send_each-Adds :
      (ftype : ℕ) (payload : Text → Text → Text) (text : Text) (targets : List (Text × Text))
      (st : NetState)
      → Adds st (send_each c s ftype payload text targets st)
  unfolding send_each
  send_each-Adds ftype payload text [] st = ([], sym (append-nil st.out.sent))
  send_each-Adds ftype payload text ((name, pubk) ∷ targets) st =
      let st1 = (send_sealed c s ftype (payload name) text pubk st).1 in
      Adds-then st st1 (send_each c s ftype payload text targets st1)
        (send_sealed-Adds ftype (payload name) text pubk st)
        (send_each-Adds ftype payload text targets st1)

  send_each-append :
      (ftype : ℕ) (payload : Text → Text → Text) (text : Text) (xs ys : List (Text × Text))
      (st : NetState)
      → send_each c s ftype payload text (xs ++ ys) st
        ≡ send_each c s ftype payload text ys (send_each c s ftype payload text xs st)
  unfolding send_each
  send_each-append ftype payload text [] ys st = refl
  send_each-append ftype payload text ((name, pubk) ∷ xs) ys st =
      send_each-append ftype payload text xs ys
        (send_sealed c s ftype (payload name) text pubk st).1

module _ (c : Platform) (laws : IsLawful c) (s : Session) where
  -- The frame of one target, behind those of the targets before it.
  send_each_sends :
      (ftype : ℕ) (payload : Text → Text → Text) (text name pubk ct : Text)
      (before after : List (Text × Text)) (st : NetState)
      → encrypt_to_peer c
          (s.nonce (send_each c s ftype payload text before st).draws)
          text
          pubk
          s.pub_b64
          s.our
        ≡ some ct
      → s.link (send_each c s ftype payload text before st).out.attempts ≡ true
      → (more : List Bytes) × ((send_each c s ftype payload text
            (before ++ (name, pubk) ∷ after)
            st).out.sent
          ≡ (send_each c s ftype payload text before st).out.sent
            ++ frame_bytes ftype (as_bytes (payload name ct)) ∷ more)
  unfolding send_each
  send_each_sends ftype payload text name pubk ct before after st e link =
      let st1 = send_each c s ftype payload text before st in
      let drawn : NetState = record st1 { draws = st1.draws + 1 } in
      let st2 = (send_sealed c s ftype (payload name) text pubk st1).1 in
      let frame = frame_bytes ftype (as_bytes (payload name ct)) in
      let (done, sent, quiet) =
        write_frame_done c laws s ftype (as_bytes (payload name ct)) drawn link in
      let sealed : st2.out.sent ≡ st1.out.sent ++ frame ∷ [] =
        ap (λ (r : Bool × NetState). r.1.out.sent)
          (send_sealed_done c laws s (payload name) ftype text pubk ct st1 e)
        ∙ sent in
      let (more, rest) = send_each-Adds c s ftype payload text after st2 in
      (
        more,
        ap (λ (a : NetState). a.out.sent)
              (send_each-append c s ftype payload text before ((name, pubk) ∷ after) st)
            ∙ rest
            ∙ ap (λ l. l ++ more) sealed
            ∙ append_assoc st1.out.sent (frame ∷ []) more,
      )

  -- What the receiver shows for a room's payload whose text decrypts.
  handle_room_message_shows :
      (from room_name to ct pubk plain : Text) (st : NetState)
      → IsText from
      → IsText room_name
      → Lacks 0 from
      → Lacks 0 room_name
      → Lacks 0 to
      → All IsPrintable ct
      → is_empty (trim room_name) ≡ false
      → lookup from st.known ≡ some pubk
      → decrypt_from_peer c ct pubk s.our ≡ some plain
      → handle_message c s (as_bytes (room_payload from room_name to ct)) st
        ≡ send_all (text_events from (trim_end plain) (some (trim room_name))) st
  unfolding handle_message message_parts room_of
  handle_room_message_shows from room_name to ct pubk plain st v vr hf hr ht hc full k d =
      rw
        (
          split-room_payload from room_name to ct hf hr ht (printable-Lacks ct hc),
          handle_message,
          message_parts,
          from_utf8_lossy-as_bytes from v,
          from_utf8_lossy-as_bytes room_name vr,
          from_utf8_lossy-as_bytes ct (printable-IsText ct hc),
          full,
        )
        (ap (λ evs. send_all evs st)
          (message_events_known c laws s st.known from ct pubk plain (some (trim room_name)) k d))

module _ (c : Platform) (laws : IsLawful c) where
  -- A message to a room, end to end: the recipient is among the targets that the server's answers
  -- give, with the published key, and the recipient knows the sender's. The text is encrypted for
  -- the recipient under a nonce of 12 bytes and the connection takes the frame, whatever became of
  -- the targets before. Then the sender's `do_room` writes, behind the frames for those, one MESSAGE
  -- frame, and the recipient's `handle_message` shows what it carries as the sender's message to the
  -- room with the text, trimmed at its end, if this is not a reaction.
  pub do_room-delivered :
      (alice bob : Session) (room_name text ct : Text) (before after : List (Text × Text))
      (st st1 st' : NetState)
      → room_targets c alice st
        ≡ (before ++ (bob.username, c.b64_encode (c.public_key bob.our)) ∷ after, st1)
      → alice.pub_b64 ≡ c.b64_encode (c.public_key alice.our)
      → lookup alice.username st'.known ≡ some (c.b64_encode (c.public_key alice.our))
      → IsText text
      → IsText alice.username
      → IsText room_name
      → Lacks 0 alice.username
      → Lacks 0 room_name
      → Lacks 0 bob.username
      → is_empty (trim room_name) ≡ false
      → length (
          alice.nonce
            (send_each c alice type_message
              (room_payload alice.username room_name)
              text
              before
              st1).draws)
        ≡ 12
      → encrypt_to_peer c
          (alice.nonce
            (send_each c alice type_message
              (room_payload alice.username room_name)
              text
              before
              st1).draws)
          text
          (c.b64_encode (c.public_key bob.our))
          alice.pub_b64
          alice.our
        ≡ some ct
      → alice.link
          (send_each c alice type_message
            (room_payload alice.username room_name)
            text
            before
            st1).out.attempts
        ≡ true
      → strip_prefix reaction_prefix (trim_end text) ≡ none
      → (payload : Bytes) × (more : List Bytes) × ((do_room c alice room_name text st).out.sent
          ≡ (send_each c alice type_message
              (room_payload alice.username room_name)
              text
              before
              st1).out.sent
            ++ frame_bytes type_message payload ∷ more)
        × (handle_message c bob payload st'
            ≡ send (msg alice.username (trim_end text) (some (trim room_name))) st')
  unfolding do_room send_room emit text_events send send_all
  do_room-delivered alice bob room_name text ct before after st st1 st' found own ka v va vr ha hr
        hb full n e link r =
      let pubk = c.b64_encode (c.public_key bob.our) in
      let nonce =
        alice.nonce
          (send_each c alice type_message (room_payload alice.username room_name) text before
            st1).draws in
      let sealed =
        ap (λ pub_key. encrypt_to_peer c nonce text pubk pub_key alice.our) (sym own) ∙ e in
      let plain =
        decrypt_from_peer-encrypt_to_peer c laws nonce alice.our bob.our text ct n v sealed in
      let printable = encrypt_to_peer-IsPrintable c laws nonce text _ _ ct alice.our sealed in
      let (more, sent) =
        send_each_sends c laws alice type_message (room_payload alice.username room_name) text
          bob.username pubk ct before after st1 e link in
      (
        as_bytes (room_payload alice.username room_name bob.username ct),
        more,
        rw found sent,
        handle_room_message_shows c laws bob alice.username room_name bob.username ct _ text st' va
              vr ha hr hb printable full ka plain
            ∙ rw (r, text_events) refl,
      )
