-- ===== src/Net/Commands/Steps.antt =====
-- The commands of net.rs, one by one: pinned fingerprints.
use e2e_console_messenger.Base.{
  ℕ, ◌≡◌, ◌≢◌, ◌∙◌, refl, Bool, true, false, Option, none, some, List, [], ◌∷◌, ltb, length, Bytes,
  Text, codes, text_eq, if◌then◌else◌, Option-cases, inl, inr, arith,
}
use mathlib.Core.Path.{subst}
use mathlib.Core.Option.{some-injective}
use e2e_console_messenger.Base.Dict.{lookup}
use e2e_console_messenger.Platform.{Platform}
use e2e_console_messenger.Proto.{type_message, type_file, max_file}
use e2e_console_messenger.Net.State.{
  UiCmd, raw, room, priv, file, trust, reaction, Ev, Session, NetState, send, emit, write_frame,
  send_command,
}
use e2e_console_messenger.Net.Tofu.Laws.{
  KeepsPins, KeepsPins-refl, KeepsPins-trans, KeepsPins-same, KeepsPins-if,
}
use e2e_console_messenger.Net.Request.{recipient_pub, room_targets}
use e2e_console_messenger.Net.Request.Laws.{recipient_pub-KeepsPins, room_targets-KeepsPins}
use e2e_console_messenger.Net.Commands.{
  seal_text, send_sealed, send_private, send_each, send_room, do_priv, do_room, do_send_file,
  do_file, do_reaction, do_command,
}

module _ (c : Platform) (s : Session) where
  send_command-tofu : (cmd : Text) (st : NetState) → (send_command c s cmd st).tofu ≡ st.tofu
  unfolding send_command
  send_command-tofu cmd st = ground arith

  send_sealed-tofu :
      (t : ℕ) (payload : Text → Text) (text pubk : Text) (st : NetState)
      → (send_sealed c s t payload text pubk st).1.tofu ≡ st.tofu
  unfolding send_sealed write_frame seal_text
  send_sealed-tofu t payload text pubk st = ground arith

  send_private-KeepsPins :
      (t : ℕ) (payload : Text → Text) (target text : Text) (st : NetState)
      → KeepsPins st (send_private c s t payload target text st).1
  unfolding send_private
  send_private-KeepsPins t payload target text st = go (recipient_pub c s target st).0 refl
    where
      go :
          (o : Option Text)
          → (recipient_pub c s target st).0 ≡ o
          → KeepsPins st (send_private c s t payload target text st).1
      go none e = rw (e, send_private) (recipient_pub-KeepsPins c s target st)
      go (some pubk) e =
          let found = (recipient_pub c s target st).1 in
          rw (e, send_private)
            (KeepsPins-trans (recipient_pub-KeepsPins c s target st)
              (KeepsPins-same found _ (send_sealed-tofu t payload text pubk found)))

  send_each-tofu :
      (t : ℕ) (payload : Text → Text → Text) (text : Text) (targets : List (Text × Text))
      (st : NetState)
      → (send_each c s t payload text targets st).tofu ≡ st.tofu
  unfolding send_each
  send_each-tofu t payload text [] st = refl
  send_each-tofu t payload text ((name, pubk) ∷ targets) st =
      send_each-tofu t payload text targets (send_sealed c s t (payload name) text pubk st).1
      ∙ send_sealed-tofu t (payload name) text pubk st

  send_room-KeepsPins :
      (t : ℕ) (payload : Text → Text → Text) (text : Text) (st : NetState)
      → KeepsPins st (send_room c s t payload text st)
  unfolding send_room
  send_room-KeepsPins t payload text st =
      let found = room_targets c s st in
      KeepsPins-trans (room_targets-KeepsPins c s st)
        (KeepsPins-same found.1 _ (send_each-tofu t payload text found.0 found.1))

  pub send-KeepsPins : (ev : Ev) (st st' : NetState) → KeepsPins st st' → KeepsPins st (send ev st')
  unfolding send
  send-KeepsPins ev st st' k = record { evolves = k.evolves }

  pub emit-KeepsPins : (t : Text) (st st' : NetState) → KeepsPins st st' → KeepsPins st (emit t st')
  unfolding emit
  emit-KeepsPins t st st' k = record { evolves = k.evolves }

  do_priv-KeepsPins :
      (target text : Text) (st : NetState) → KeepsPins st (do_priv c s target text st)
  unfolding do_priv
  do_priv-KeepsPins target text st =
      let k = send_private-KeepsPins type_message _ target text st in
      KeepsPins-if _ st _ _ (emit-KeepsPins _ st _ k) (send-KeepsPins _ st _ k)

  do_room-KeepsPins : (name text : Text) (st : NetState) → KeepsPins st (do_room c s name text st)
  unfolding do_room
  do_room-KeepsPins name text st =
      emit-KeepsPins _ st _ (send_room-KeepsPins type_message _ text st)

  do_send_file-KeepsPins :
      (target : Text) (is_room : Bool) (path : Text) (content : Bytes) (st : NetState)
      → KeepsPins st (do_send_file c s target is_room path content st)
  unfolding do_send_file
  do_send_file-KeepsPins target is_room path content st =
      let k = send_private-KeepsPins type_file _ target (c.b64_encode content) st in
      KeepsPins-if is_room st _ _
        (emit-KeepsPins _ st _ (send_room-KeepsPins type_file _ (c.b64_encode content) st))
        (KeepsPins-if _ st _ _ (emit-KeepsPins _ st _ k) (send-KeepsPins _ st _ k))

  do_file-KeepsPins :
      (target : Text) (is_room : Bool) (path : Text) (st : NetState)
      → KeepsPins st (do_file c s target is_room path st)
  unfolding do_file
  do_file-KeepsPins target is_room path st = elim (Option-cases (lookup path st.disk)) [
    | inl e ↦ rw (e, do_file) (send-KeepsPins _ st _ (KeepsPins-refl st))
    | inr (content, e) ↦
        rw (e, do_file)
          (KeepsPins-if (ltb max_file (length content)) st _ _
            (send-KeepsPins _ st _ (KeepsPins-refl st))
            (do_send_file-KeepsPins target is_room path content st))
  ]

  do_reaction-KeepsPins :
      (chat : Text) (is_room : Bool) (emoji target : Text) (st : NetState)
      → KeepsPins st (do_reaction c s chat is_room emoji target st)
  unfolding do_reaction
  do_reaction-KeepsPins chat is_room emoji target st =
      let k = send_private-KeepsPins type_message _ chat _ st in
      KeepsPins-if is_room st _ _ (send-KeepsPins _ st _ (send_room-KeepsPins type_message _ _ st))
        (KeepsPins-if _ st _ _ (send-KeepsPins _ st _ k) (send-KeepsPins _ st _ k))

  returned : (st r st' : NetState) → some r ≡ some st' → KeepsPins st r → KeepsPins st st'
  returned st r st' h k = subst (KeepsPins st) (some-injective r st' h) k

  -- The line of a command that the server answers.
  sent_line :
      (o : Option Text) (st st' : NetState)
      → (elim o as (λ _. Option NetState) [
        | none ↦ some st
        | some t ↦ some (send_command c s t st)
      ])
        ≡ some st'
      → KeepsPins st st'
  sent_line none st st' h = returned st st st' h (KeepsPins-refl st)
  sent_line (some t) st st' h =
      returned st (send_command c s t st) st' h (KeepsPins-same st _ (send_command-tofu t st))

  raw_line :
      (b : Bool) (t : Text) (st st' : NetState)
      → (if b then none else some (send_command c s t st)) ≡ some st'
      → KeepsPins st st'
  raw_line true t st st' h = cc
  raw_line false t st st' h =
      returned st (send_command c s t st) st' h (KeepsPins-same st _ (send_command-tofu t st))

  -- Whatever the GUI commands but /trust, and whatever frames the server sends while the command
  -- waits for an answer, every fingerprint that was pinned before is pinned behind it.
  pub do_command-KeepsPins :
      (cmd : UiCmd) (st st' : NetState)
      → ((name : Text) → cmd ≢ trust name)
      → do_command c s cmd st ≡ some st'
      → KeepsPins st st'
  unfolding do_command
  do_command-KeepsPins (raw t) st st' n h = raw_line (text_eq t (codes "/exit")) t st st' h
  do_command-KeepsPins (room name text) st st' n h =
      returned st _ st' h (do_room-KeepsPins name text st)
  do_command-KeepsPins (priv target text) st st' n h =
      returned st _ st' h (do_priv-KeepsPins target text st)
  do_command-KeepsPins (file target is_room path) st st' n h =
      returned st _ st' h (do_file-KeepsPins target is_room path st)
  do_command-KeepsPins (trust name) st st' n h = absurd (n name refl)
  do_command-KeepsPins (reaction chat is_room emoji target) st st' n h =
      returned st _ st' h (do_reaction-KeepsPins chat is_room emoji target st)
  do_command-KeepsPins cmd st st' n h = sent_line _ st st' h
