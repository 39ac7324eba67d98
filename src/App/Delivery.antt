-- ===== src/App/Delivery.antt =====
-- A message from the window of one client to the window of another: main.rs and net.rs together.
use e2e_console_messenger.Base.{
  ◌≡◌, ◌∙◌, refl, sym, ap, Bool, true, false, none, some, [], ◌∷◌, ◌++◌, Bytes, Text, length, Lacks,
  codes, text_eq, is_empty, get_elem?, trim, trim_start, trim_end, trim_end_idem, starts_with,
  strip_prefix,
}
use mathlib.Core.Option.{some-injective}
use e2e_console_messenger.Base.Utf8.{IsText}
use e2e_console_messenger.Base.Dict.{lookup}
use e2e_console_messenger.Platform.{Platform, IsLawful}
use e2e_console_messenger.Proto.{type_message, frame_bytes}
use e2e_console_messenger.Crypto.{encrypt_to_peer}
use e2e_console_messenger.Net.State.{priv, msg, Session, NetState, send}
use e2e_console_messenger.Net.Reader.{reaction_prefix, handle_message}
use e2e_console_messenger.Net.Commands.{do_command}
use e2e_console_messenger.Net.Commands.Delivery.{do_priv-delivered}
use e2e_console_messenger.App.State.{Moment, Chat, MeshApp}
use e2e_console_messenger.App.Chats.{display_name}
use e2e_console_messenger.App.Chats.Laws.{IsValid}
use e2e_console_messenger.App.Chats.Safe.{IsValid-same}
use e2e_console_messenger.App.Chats.Newest.{Shows}
use e2e_console_messenger.App.Events.{handle_event}
use e2e_console_messenger.App.Input.{submit_input}
use e2e_console_messenger.App.Shown.{submit_to-Shows, on_msg-Shows}
use e2e_console_messenger.App.Input.Sends.{submit_input_reaches, submit_input_sends}

module _ (c : Platform) (laws : IsLawful c) where
  -- From window to window: in a valid state of the sender's window, connected, with the chat with
  -- the recipient selected, a line that is neither blank nor a command nor a reaction is entered.
  -- Both clients hold the other's published key, the line is encrypted under a nonce of 12 bytes, the
  -- connection takes the frame, and the recipient's window is in a valid state and not the sender's.
  -- Then the line, trimmed, is the newest message of that chat, as the sender's own, and goes to the
  -- network thread; that writes one MESSAGE frame; the recipient's network thread gives what it
  -- carries to the recipient's window, and there the line is the newest message of the chat with the
  -- sender, under the name that this window shows for the sender. Nothing panics on the way.
  pub submit_input-delivered :
      (alice bob : Session) (m m' : Moment) (can_save : Bool) (mine theirs : MeshApp) (ch : Chat)
      (ct : Text) (st st' : NetState)
      → IsValid mine
      → mine.connected ≡ true
      → mine.has_channel ≡ true
      → get_elem? mine.chats mine.active ≡ some ch
      → ch.is_room ≡ false
      → ch.id ≡ bob.username
      → is_empty (trim mine.input) ≡ false
      → starts_with (codes "/") (trim mine.input) ≡ false
      → strip_prefix reaction_prefix (trim mine.input) ≡ none
      → IsText (trim mine.input)
      → alice.pub_b64 ≡ c.b64_encode (c.public_key alice.our)
      → lookup bob.username st.known ≡ some (c.b64_encode (c.public_key bob.our))
      → lookup alice.username st'.known ≡ some (c.b64_encode (c.public_key alice.our))
      → IsText alice.username
      → Lacks 0 alice.username
      → Lacks 0 bob.username
      → length (alice.nonce st.draws) ≡ 12
      → encrypt_to_peer c
          (alice.nonce st.draws)
          (trim mine.input)
          (c.b64_encode (c.public_key bob.our))
          alice.pub_b64
          alice.our
        ≡ some ct
      → alice.link st.out.attempts ≡ true
      → IsValid theirs
      → text_eq alice.username theirs.me ≡ false
      → (mine' : MeshApp) × (sent : NetState) × (payload : Bytes) × (theirs' : MeshApp)
        × (submit_input m mine ≡ some mine')
        × Shows bob.username true mine.my_nick (trim mine.input) 0 mine'.chats
        × (mine'.sent ≡ mine.sent ++ priv bob.username (trim mine.input) ∷ [])
        × (do_command c alice (priv bob.username (trim mine.input)) st ≡ some sent)
        × (sent.out.sent ≡ st.out.sent ++ frame_bytes type_message payload ∷ [])
        × (handle_message c bob payload st' ≡ send (msg alice.username (trim mine.input) none) st')
        × (handle_event can_save m' (msg alice.username (trim mine.input) none) theirs
            ≡ some theirs')
        × Shows alice.username false
            (display_name alice.username theirs)
            (trim mine.input)
            0
            theirs'.chats
  unfolding do_command handle_event trim
  submit_input-delivered alice bob m m' can_save mine theirs ch ct st st' v on channel selected
        private named full plain no_reaction vt own kb ka va ha hb n e link w other =
      let text = trim mine.input in
      let cleared : MeshApp = record mine { input = [] } in
      let (mine', submitted, sent) =
        submit_input_sends m mine ch v on channel full plain selected in
      let reached = submit_input_reaches m mine ch on full plain selected in
      let (shown', at_end, shown) =
        submit_to-Shows m text ch cleared (IsValid-same mine cleared refl refl v) private in
      let same : mine' ≡ shown' = some-injective _ _ (sym submitted ∙ reached ∙ at_end) in
      let trimmed : trim_end text ≡ text = trim_end_idem (trim_start mine.input) in
      let (payload, wrote, handled) =
        do_priv-delivered c laws alice bob text ct st st' own kb ka vt va ha hb n e link
          (rw trimmed no_reaction) in
      let (theirs', arrived, seen) = on_msg-Shows m' alice.username text theirs w other in
      (
        mine',
        _,
        payload,
        theirs',
        submitted,
        rw (same, ← named) shown,
        rw (private, named) at sent,
        refl,
        wrote,
        handled ∙ ap (λ t. send (msg alice.username t none) st') trimmed,
        arrived,
        seen,
      )
