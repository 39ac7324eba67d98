-- ===== src/App/RoomDelivery.antt =====
-- A message to a room from the window of one client to the window of another: main.rs and net.rs
-- together.
use e2e_console_messenger.Base.{
  ◌≡◌, ◌∙◌, refl, sym, ap, Bool, true, false, none, some, List, [], ◌∷◌, ◌++◌, Bytes, Text, length,
  Lacks, NoSpace, codes, text_eq, is_empty, get_elem?, trim, trim_start, trim_end, trim_end_idem,
  trim-NoSpace, starts_with, strip_prefix, if◌then◌else◌,
}
use mathlib.Core.Option.{some-injective}
use e2e_console_messenger.Base.Utf8.{IsText}
use e2e_console_messenger.Base.Dict.{lookup}
use e2e_console_messenger.Platform.{Platform, IsLawful}
use e2e_console_messenger.Proto.{type_message, frame_bytes}
use e2e_console_messenger.Crypto.{encrypt_to_peer}
use e2e_console_messenger.Net.State.{UiCmd, room, join, msg, Session, NetState, send}
use e2e_console_messenger.Net.Reader.{reaction_prefix, handle_message}
use e2e_console_messenger.Net.Request.{room_targets}
use e2e_console_messenger.Net.Commands.{room_payload, send_each, do_command}
use e2e_console_messenger.Net.Commands.RoomDelivery.{do_room-delivered}
use e2e_console_messenger.App.State.{Moment, Chat, MeshApp}
use e2e_console_messenger.App.Labels.{room_name_of, room_chat_id}
use e2e_console_messenger.App.Labels.Laws.{room_name_of-room_chat_id}
use e2e_console_messenger.App.Chats.{display_name}
use e2e_console_messenger.App.Chats.Laws.{IsValid}
use e2e_console_messenger.App.Chats.Safe.{IsValid-same}
use e2e_console_messenger.App.Chats.Newest.{Shows}
use e2e_console_messenger.App.Events.{handle_event}
use e2e_console_messenger.App.Input.{submit_input}
use e2e_console_messenger.App.Shown.{submit_to_room-Shows, on_room_msg-Shows}
use e2e_console_messenger.App.Input.Sends.{submit_input_reaches, submit_input_sends}

-- The line is sent to the room, behind a request to join it if it is not the current one.
abbrev pub to_room : Text → Text → MeshApp → List UiCmd
to_room name text app =
    if text_eq app.current_room name
    then room name text ∷ []
    else join name [] ∷ room name text ∷ []

module _ (c : Platform) (laws : IsLawful c) where
  -- What the sender's network thread has done when it comes to the recipient: the frames for the
  -- targets before.
  abbrev pub before_turn : Session → Text → Text → List (Text × Text) → NetState → NetState
  before_turn alice name text before st1 =
      send_each c alice type_message (room_payload alice.username name) text before st1

  -- From window to window, in a room whose name is not empty and has no white space: in a valid state
  -- of the sender's window, connected, with the chat of the room selected, a line that is neither
  -- blank nor a command nor a reaction is entered. When the network thread comes to it, in whatever
  -- state, the server's answers give the recipient among the targets, with the published key; the
  -- recipient knows the sender's; the line is encrypted for the recipient under a nonce of 12 bytes
  -- and the connection takes the frame, whatever became of the targets before. The recipient's window
  -- is in a valid state and not the sender's. Then the line, trimmed, is the newest message of the
  -- room's chat in the sender's window, as the user's own, and goes to the network thread, behind a
  -- request to join the room if it is not the current one; that writes a MESSAGE frame; the
  -- recipient's network thread gives what it carries to the recipient's window, and there the line is
  -- the newest message of the room's chat, under the name that this window shows for the sender.
  -- Nothing panics on the way.
  pub submit_input-room_delivered :
      (alice bob : Session) (m m' : Moment) (can_save : Bool) (mine theirs : MeshApp) (ch : Chat)
      (name ct : Text) (before after : List (Text × Text)) (st st1 st' : NetState)
      → IsValid mine
      → mine.connected ≡ true
      → mine.has_channel ≡ true
      → get_elem? mine.chats mine.active ≡ some ch
      → ch.is_room ≡ true
      → ch.id ≡ room_chat_id name
      → NoSpace name
      → is_empty name ≡ false
      → is_empty (trim mine.input) ≡ false
      → starts_with (codes "/") (trim mine.input) ≡ false
      → strip_prefix reaction_prefix (trim mine.input) ≡ none
      → IsText (trim mine.input)
      → room_targets c alice st
        ≡ (before ++ (bob.username, c.b64_encode (c.public_key bob.our)) ∷ after, st1)
      → alice.pub_b64 ≡ c.b64_encode (c.public_key alice.our)
      → lookup alice.username st'.known ≡ some (c.b64_encode (c.public_key alice.our))
      → IsText alice.username
      → IsText name
      → Lacks 0 alice.username
      → Lacks 0 name
      → Lacks 0 bob.username
      → length (alice.nonce (before_turn alice name (trim mine.input) before st1).draws) ≡ 12
      → encrypt_to_peer c
          (alice.nonce (before_turn alice name (trim mine.input) before st1).draws)
          (trim mine.input)
          (c.b64_encode (c.public_key bob.our))
          alice.pub_b64
          alice.our
        ≡ some ct
      → alice.link (before_turn alice name (trim mine.input) before st1).out.attempts ≡ true
      → IsValid theirs
      → text_eq alice.username theirs.me ≡ false
      → (mine' : MeshApp) × (sent : NetState) × (payload : Bytes) × (more : List Bytes)
        × (theirs' : MeshApp) × (submit_input m mine ≡ some mine')
        × Shows (room_chat_id name) true mine.my_nick (trim mine.input) 0 mine'.chats
        × (mine'.sent ≡ mine.sent ++ to_room name (trim mine.input) mine)
        × (do_command c alice (room name (trim mine.input)) st ≡ some sent)
        × (sent.out.sent
            ≡ (before_turn alice name (trim mine.input) before st1).out.sent
              ++ frame_bytes type_message payload ∷ more)
        × (handle_message c bob payload st'
            ≡ send (msg alice.username (trim mine.input) (some name)) st')
        × (handle_event can_save m' (msg alice.username (trim mine.input) (some name)) theirs
            ≡ some theirs')
        × Shows
            (room_chat_id name)
            false
            (display_name alice.username theirs)
            (trim mine.input)
            0
            theirs'.chats
  unfolding do_command handle_event trim
  submit_input-room_delivered alice bob m m' can_save mine theirs ch name ct before after st st1 st'
        v on channel selected in_room named spaceless nonempty full plain no_reaction vt found own
        ka va vn ha hn hb n e link w other =
      let text = trim mine.input in
      let cleared : MeshApp = record mine { input = [] } in
      let (mine', submitted, sent) =
        submit_input_sends m mine ch v on channel full plain selected in
      let reached = submit_input_reaches m mine ch on full plain selected in
      let (shown', at_end, shown) =
        submit_to_room-Shows m text ch cleared (IsValid-same mine cleared refl refl v) in_room in
      let same : mine' ≡ shown' = some-injective _ _ (sym submitted ∙ reached ∙ at_end) in
      let trimmed : trim_end text ≡ text = trim_end_idem (trim_start mine.input) in
      let is_name : room_name_of ch.id ≡ name =
        ap room_name_of named ∙ room_name_of-room_chat_id name spaceless in
      let trimmed_name : trim name ≡ name = trim-NoSpace name spaceless in
      let (payload, more, wrote, handled) =
        do_room-delivered c laws alice bob name text ct before after st st1 st' found own ka vt va
          vn ha hn hb (ap is_empty trimmed_name ∙ nonempty) n e link
          (ap (strip_prefix reaction_prefix) trimmed ∙ no_reaction) in
      let (theirs', arrived, seen) =
        on_room_msg-Shows m' alice.username text name theirs w other nonempty in
      (
        mine',
        _,
        payload,
        more,
        theirs',
        submitted,
        rw (same, ← named) shown,
        rw (in_room, is_name) at sent,
        refl,
        wrote,
        handled
            ∙ ap (λ t. send (msg alice.username t (some (trim name))) st') trimmed
            ∙ ap (λ r. send (msg alice.username text (some r)) st') trimmed_name,
        arrived,
        seen,
      )
