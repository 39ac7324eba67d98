-- ===== src/Net/Commands/FileDelivery.antt =====
-- A file from one client to another, end to end.
use e2e_console_messenger.Base.{
  ◌≡◌, ◌≤◌, refl, ap, true, false, none, some, [], ◌∷◌, ◌++◌, Bytes, Text, length, Lacks, All,
  is_empty, trim-NoSpace, le→ltb, ◌>>=◌, inl, inr,
}
use e2e_console_messenger.Base.Utf8.{IsText, as_bytes, from_utf8_lossy, from_utf8_lossy-as_bytes}
use e2e_console_messenger.Base.Dict.{lookup, insert}
use e2e_console_messenger.Platform.{Platform, IsLawful, IsPrintable}
use e2e_console_messenger.Proto.{type_file, max_file, frame_bytes}
use e2e_console_messenger.Crypto.{encrypt_to_peer, decrypt_from_peer}
use e2e_console_messenger.Crypto.RoundTrip.{
  decrypt_from_peer-encrypt_to_peer, encrypt_to_peer-IsPrintable,
}
use e2e_console_messenger.Store.{Disk, downloads, safe_file_name, write_file_secure}
use e2e_console_messenger.Store.Keys.{printable-IsText, printable-NoSpace}
use e2e_console_messenger.Store.FileName.{IsPlain, safe_file_name-IsPlain}
use e2e_console_messenger.Store.Received.{save_received_file_plain}
use e2e_console_messenger.Net.State.{file_msg, Session, NetState, send, emit}
use e2e_console_messenger.Net.Reader.{room_of, store_file, file_event, file_parts, handle_file}
use e2e_console_messenger.Net.Commands.{base_name, file_payload, do_send_file, do_file}
use e2e_console_messenger.Net.Commands.Payload.{printable-Lacks, split-file_payload}
use e2e_console_messenger.Net.Commands.Delivery.{send_private_sends}

module _ (c : Platform) (laws : IsLawful c) (s : Session) where
  do_send_file_sends :
      (target path pubk ct : Text) (content : Bytes) (st : NetState)
      → lookup target st.known ≡ some pubk
      → encrypt_to_peer c (s.nonce st.draws) (c.b64_encode content) pubk s.pub_b64 s.our ≡ some ct
      → s.link st.out.attempts ≡ true
      → (do_send_file c s target false path content st).out.sent
        ≡ st.out.sent
          ++ frame_bytes type_file (as_bytes (file_payload s.username (base_name path) target ct))
            ∷ []
  unfolding do_send_file
  do_send_file_sends target path pubk ct content st k e w =
      let (done, sent, quiet) =
        send_private_sends c laws s (file_payload s.username (base_name path) target) type_file
          target (c.b64_encode content) pubk ct st k e w in
      rw done (unfold emit in sent)

  do_file_sends :
      (target path pubk ct : Text) (content : Bytes) (st : NetState)
      → lookup path st.disk ≡ some content
      → length content ≤ max_file
      → lookup target st.known ≡ some pubk
      → encrypt_to_peer c (s.nonce st.draws) (c.b64_encode content) pubk s.pub_b64 s.our ≡ some ct
      → s.link st.out.attempts ≡ true
      → (do_file c s target false path st).out.sent
        ≡ st.out.sent
          ++ frame_bytes type_file (as_bytes (file_payload s.username (base_name path) target ct))
            ∷ []
  unfolding do_file
  do_file_sends target path pubk ct content st f n k e w =
      rw (f, do_file, le→ltb max_file (length content) n)
        (do_send_file_sends target path pubk ct content st k e w)

  -- A file whose content decrypts to the Base64 of some bytes is stored with these bytes.
  store_file_plain :
      (fname ct pubk cwd : Text) (content : Bytes) (disk : Disk)
      → decrypt_from_peer c ct pubk s.our ≡ some (c.b64_encode content)
      → is_empty (safe_file_name fname) ≡ false
      → IsPlain (safe_file_name fname)
      → s.os.current_dir ≡ some cwd
      → s.os.create_dir_all (downloads cwd) ≡ true
      → s.os.can_write (downloads cwd ++ b'/' ∷ safe_file_name fname) ≡ true
      → store_file c s fname ct pubk disk ≡ (
        some (safe_file_name fname),
        insert (downloads cwd ++ b'/' ∷ safe_file_name fname) content disk,
      )
  unfolding store_file write_file_secure
  store_file_plain fname ct pubk cwd content disk d n p e m w =
      let base = safe_file_name fname in
      rw
        (
          d,
          ◌>>=◌,
          trim-NoSpace (c.b64_encode content)
              (printable-NoSpace _ (laws.b64_encode-IsPrintable content)),
          laws.b64_decode-encode content,
          store_file,
          n,
          (save_received_file_plain s.os cwd base content disk p e m).0,
          w,
        )
        refl

  -- What the receiver does with the fields of a file that can be stored.
  file_parts_stores :
      (from fname ct : Text) (sender to name body : Bytes) (pubk : Text) (st : NetState)
      (disk : Disk)
      → from_utf8_lossy sender ≡ from
      → from_utf8_lossy name ≡ fname
      → from_utf8_lossy body ≡ ct
      → lookup from st.known ≡ some pubk
      → store_file c s fname ct pubk st.disk ≡ (some (safe_file_name fname), disk)
      → file_parts c s (sender ∷ to ∷ name ∷ body ∷ []) st
        ≡ send (file_msg from (safe_file_name fname) none) (record st { disk = disk })
  unfolding file_parts room_of file_event
  file_parts_stores from fname ct sender to name body pubk st disk es en ed k stored =
      let found : lookup (from_utf8_lossy sender) st.known ≡ some pubk = rw es k in
      rw (found, file_parts, es, en, ed, stored) refl

  handle_file_stores :
      (from fname to ct pubk cwd : Text) (content : Bytes) (st : NetState)
      → IsText from
      → IsText fname
      → Lacks 0 from
      → Lacks 0 fname
      → Lacks 0 to
      → All IsPrintable ct
      → lookup from st.known ≡ some pubk
      → decrypt_from_peer c ct pubk s.our ≡ some (c.b64_encode content)
      → is_empty (safe_file_name fname) ≡ false
      → IsPlain (safe_file_name fname)
      → s.os.current_dir ≡ some cwd
      → s.os.create_dir_all (downloads cwd) ≡ true
      → s.os.can_write (downloads cwd ++ b'/' ∷ safe_file_name fname) ≡ true
      → handle_file c s (as_bytes (file_payload from fname to ct)) st
        ≡ send (file_msg from (safe_file_name fname) none) (record st {
          disk = insert (downloads cwd ++ b'/' ∷ safe_file_name fname) content st.disk;
        })
  unfolding handle_file
  handle_file_stores from fname to ct pubk cwd content st v vn hf hn ht hc k d e p cd md w =
      rw (split-file_payload from fname to ct hf hn ht (printable-Lacks ct hc)) (
        file_parts_stores from fname ct (as_bytes from) (as_bytes to) (as_bytes fname) (as_bytes ct)
          pubk st _ (from_utf8_lossy-as_bytes from v) (from_utf8_lossy-as_bytes fname vn)
          (from_utf8_lossy-as_bytes ct (printable-IsText ct hc)) k
          (store_file_plain fname ct pubk cwd content st.disk d e p cd md w))

not_empty-IsPlain :
    (fname : Text) → is_empty (safe_file_name fname) ≡ false → IsPlain (safe_file_name fname)
not_empty-IsPlain fname h = elim (safe_file_name-IsPlain fname) [
  | inl e ↦ let k = ap is_empty e in cc
  | inr p ↦ p
]

module _ (c : Platform) (laws : IsLawful c) where
  -- A file, end to end: both clients hold the other's published key, the file is on the sender's
  -- disk and within the limit, its Base64 is encrypted under a nonce of 12 bytes, the connection
  -- takes the frame, something of the file's name passes `safe_file_name`, and the receiver can make
  -- its directory for received files and write there. Then the sender's `do_file` writes one frame
  -- of type FILE, and with what it carries the receiver's `handle_file` stores exactly the bytes of
  -- the file below that directory and reports it under its name and the sender's.
  pub do_file-delivered :
      (alice bob : Session) (path ct cwd : Text) (content : Bytes) (st st' : NetState)
      → alice.pub_b64 ≡ c.b64_encode (c.public_key alice.our)
      → lookup bob.username st.known ≡ some (c.b64_encode (c.public_key bob.our))
      → lookup alice.username st'.known ≡ some (c.b64_encode (c.public_key alice.our))
      → lookup path st.disk ≡ some content
      → length content ≤ max_file
      → IsText alice.username
      → IsText (base_name path)
      → Lacks 0 alice.username
      → Lacks 0 bob.username
      → Lacks 0 (base_name path)
      → length (alice.nonce st.draws) ≡ 12
      → encrypt_to_peer c
          (alice.nonce st.draws)
          (c.b64_encode content)
          (c.b64_encode (c.public_key bob.our))
          alice.pub_b64
          alice.our
        ≡ some ct
      → alice.link st.out.attempts ≡ true
      → is_empty (safe_file_name (base_name path)) ≡ false
      → bob.os.current_dir ≡ some cwd
      → bob.os.create_dir_all (downloads cwd) ≡ true
      → bob.os.can_write (downloads cwd ++ b'/' ∷ safe_file_name (base_name path)) ≡ true
      → (payload : Bytes) × ((do_file c alice bob.username false path st).out.sent
          ≡ st.out.sent ++ frame_bytes type_file payload ∷ [])
        × (handle_file c bob payload st'
            ≡ send (file_msg alice.username (safe_file_name (base_name path)) none) (record st' {
              disk =
                  insert (downloads cwd ++ b'/' ∷ safe_file_name (base_name path)) content st'.disk;
            }))
  do_file-delivered alice bob path ct cwd content st st' own kb ka f size va vn ha hb hn n e link ne
        cd md w =
      let fname = base_name path in
      let payload = as_bytes (file_payload alice.username fname bob.username ct) in
      let sealed = rw own at e in
      let b64 = c.b64_encode content in
      let text = printable-IsText b64 (laws.b64_encode-IsPrintable content) in
      let plain =
        decrypt_from_peer-encrypt_to_peer c laws (alice.nonce st.draws) alice.our bob.our b64 ct n
          text sealed in
      let printable =
        encrypt_to_peer-IsPrintable c laws (alice.nonce st.draws) b64 _ _ ct alice.our sealed in
      (
        payload,
        do_file_sends c laws alice bob.username path _ ct content st f size kb e link,
        handle_file_stores c laws bob alice.username fname bob.username ct _ cwd content st' va vn
            ha hn hb printable ka plain ne (not_empty-IsPlain fname ne) cd md w,
      )
