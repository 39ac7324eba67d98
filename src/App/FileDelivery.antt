-- ===== src/App/FileDelivery.antt =====
-- A file from the window of one client to the window of another: main.rs and net.rs together.
use e2e_console_messenger.Base.{
  ◌≡◌, ◌∙◌, refl, ap, Bool, true, false, none, some, [], ◌∷◌, ◌++◌, ◌≤◌, Bytes, Text, length, Lacks,
  codes, is_empty, get_elem?, ◌>>=◌,
}
use e2e_console_messenger.Base.Utf8.{IsText}
use e2e_console_messenger.Base.Dict.{lookup, insert}
use e2e_console_messenger.Platform.{Platform, IsLawful}
use e2e_console_messenger.Proto.{type_file, frame_bytes, max_file}
use e2e_console_messenger.Crypto.{encrypt_to_peer}
use e2e_console_messenger.Store.{downloads, safe_file_name}
use e2e_console_messenger.Net.State.{file, file_msg, Session, NetState, send}
use e2e_console_messenger.Net.Reader.{handle_file}
use e2e_console_messenger.Net.Commands.{base_name, do_command}
use e2e_console_messenger.Net.Commands.FileDelivery.{do_file-delivered}
use e2e_console_messenger.App.State.{Moment, Chat, MeshApp, send_ui}
use e2e_console_messenger.App.Chats.{display_name}
use e2e_console_messenger.App.Chats.Laws.{IsValid}
use e2e_console_messenger.App.Chats.Newest.{Shows, push_msg-Shows}
use e2e_console_messenger.App.Events.{handle_event, on_file, room_given}
use e2e_console_messenger.App.Windows.{send_picked}

-- What the window says of a file that was stored.
abbrev pub file_notice : Text → Text
file_notice name = codes "📎 файл «" ++ (name ++ codes "» сохранён в downloads/")

on_file-Shows :
    (m : Moment) (from name : Text) (app : MeshApp)
    → IsValid app
    → (app' : MeshApp) × (on_file m from name none app ≡ some app')
      × Shows from false (display_name from app) (file_notice name) 4 app'.chats
unfolding on_file room_given
on_file-Shows m from name app v =
    let (app', e, shown, others) =
      push_msg-Shows m false (display_name from app) (file_notice name) 4 from false app v in
    (app', e, shown)

send_picked-sent :
    (path : Text) (ch : Chat) (app : MeshApp)
    → get_elem? app.chats app.active ≡ some ch
    → ch.is_room ≡ false
    → app.has_channel ≡ true
    → (app' : MeshApp) × (send_picked path app ≡ some app')
      × (app'.sent ≡ app.sent ++ file ch.id false path ∷ [])
      × (app'.chats ≡ app.chats)
unfolding send_picked send_ui
send_picked-sent path ch app selected private channel = (
  record app { sent = app.sent ++ file ch.id false path ∷ [] },
  rw (selected, private, channel, ◌>>=◌) refl,
  refl,
  refl,
)

module _ (c : Platform) (laws : IsLawful c) where
  -- A file from window to window: the sender's window is connected and has the private chat with the
  -- recipient selected, and a path is picked. Both clients hold the other's published key, the file
  -- is on the sender's disk and within the limit, its Base64 is encrypted under a nonce of 12 bytes,
  -- the connection takes the frame, something of the file's name passes `safe_file_name`, the
  -- recipient can make its directory for received files and write there, and the recipient's window
  -- is in a valid state. Then the sender's window sends one command with the path, that writes one
  -- FILE frame, the recipient's network thread stores exactly the bytes of the file below that
  -- directory, and the recipient's window says so, under the name that the file has there, as the
  -- newest message of the chat with the sender. Nothing panics on the way.
  pub send_picked-delivered :
      (alice bob : Session) (m : Moment) (can_save : Bool) (mine theirs : MeshApp) (ch : Chat)
      (path ct cwd : Text) (content : Bytes) (st st' : NetState)
      → get_elem? mine.chats mine.active ≡ some ch
      → ch.is_room ≡ false
      → ch.id ≡ bob.username
      → mine.has_channel ≡ true
      → alice.pub_b64 ≡ c.b64_encode (c.public_key alice.our)
      → lookup bob.username st.known ≡ some (c.b64_encode (c.public_key bob.our))
      → lookup alice.username st'.known ≡ some (c.b64_encode (c.public_key alice.our))
      → lookup path st.disk ≡ some content
      → length content ≤ max_file
      → IsText alice.username
      → IsText (base_name path)
      → Lacks 0 alice.username
      → Lacks 0 bob.username
      → Lacks 0 (base_name path)
      → length (alice.nonce st.draws) ≡ 12
      → encrypt_to_peer c
          (alice.nonce st.draws)
          (c.b64_encode content)
          (c.b64_encode (c.public_key bob.our))
          alice.pub_b64
          alice.our
        ≡ some ct
      → alice.link st.out.attempts ≡ true
      → is_empty (safe_file_name (base_name path)) ≡ false
      → bob.os.current_dir ≡ some cwd
      → bob.os.create_dir_all (downloads cwd) ≡ true
      → bob.os.can_write (downloads cwd ++ b'/' ∷ safe_file_name (base_name path)) ≡ true
      → IsValid theirs
      → (mine' : MeshApp) × (sent : NetState) × (payload : Bytes) × (theirs' : MeshApp)
        × (send_picked path mine ≡ some mine')
        × (mine'.sent ≡ mine.sent ++ file bob.username false path ∷ [])
        × (do_command c alice (file bob.username false path) st ≡ some sent)
        × (sent.out.sent ≡ st.out.sent ++ frame_bytes type_file payload ∷ [])
        × (handle_file c bob payload st'
            ≡ send (file_msg alice.username (safe_file_name (base_name path)) none) (record st' {
              disk =
                  insert (downloads cwd ++ b'/' ∷ safe_file_name (base_name path)) content st'.disk;
            }))
        × (handle_event can_save m
              (file_msg alice.username (safe_file_name (base_name path)) none)
              theirs
            ≡ some theirs')
        × Shows alice.username false
            (display_name alice.username theirs)
            (file_notice (safe_file_name (base_name path)))
            4
            theirs'.chats
  unfolding do_command handle_event
  send_picked-delivered alice bob m can_save mine theirs ch path ct cwd content st st' selected
        private named channel own kb ka f size va vn ha hb hn n e link ne cd md w v =
      let (mine', picked, sent, same) = send_picked-sent path ch mine selected private channel in
      let (payload, wrote, stored) =
        do_file-delivered c laws alice bob path ct cwd content st st' own kb ka f size va vn ha hb
          hn n e link ne cd md w in
      let name = safe_file_name (base_name path) in
      let (theirs', arrived, seen) = on_file-Shows m alice.username name theirs v in
      (
        mine',
        _,
        payload,
        theirs',
        picked,
        sent ∙ ap (λ t. mine.sent ++ file t false path ∷ []) named,
        refl,
        wrote,
        stored,
        arrived,
        seen,
      )
