-- ===== src/Net/Request/Answer.antt =====
-- `request` of net.rs: what a request is answered with.
use e2e_console_messenger.Base.{
  ℕ, ◌+◌, ◌≡◌, ◌∙◌, refl, ap, inl, inr, Bool, true, false, none, some, List, [], ◌∷◌, ◌++◌, ◌==◌,
  ==_iff, ◌||◌, Bytes, Text, codes, split, split_once, strip_prefix, starts_with, trim,
  if◌then◌else◌, Option-cases, arith,
}
use e2e_console_messenger.Base.Utf8.{as_bytes, from_utf8_lossy}
use e2e_console_messenger.Base.Dict.{lookup}
use e2e_console_messenger.Platform.{Platform}
use e2e_console_messenger.Proto.{type_command, type_message, type_file, type_register, send_frame}
use e2e_console_messenger.Crypto.{gcm_encrypt, gcm_decrypt, fingerprint}
use e2e_console_messenger.Net.State.{Ev, authed, Session, NetState, send, seal_command, write_frame}
use e2e_console_messenger.Net.Tofu.{
  Status, fresh, same, changed, status_of, record_status, check_tofu, learn, insert_item,
  insert_items, key_list, insert_keys,
}
use e2e_console_messenger.Net.Server.{server_events}
use e2e_console_messenger.Net.Reader.{
  send_all, message_parts, handle_message, file_parts, handle_file, deliver, register_payload,
  handle_text, handle_command, handle_frame, handle_frames,
}
use e2e_console_messenger.Net.Request.{received, open_channel, wait_response, request}

-- The first text in a channel is the first one still.
record KeepsMail (st st' : NetState) : Type 0 where
  kept : (ch : ℕ) (t : Text) → received ch st.mail ≡ some t → received ch st'.mail ≡ some t

KeepsMail-trans : {a b c : NetState} → KeepsMail a b → KeepsMail b c → KeepsMail a c
KeepsMail-trans p q = record { kept = λ ch t h. q.kept ch t (p.kept ch t h) }

KeepsMail-same : (a b : NetState) → b.mail ≡ a.mail → KeepsMail a b
KeepsMail-same a b e = record { kept = λ ch t h. ap (received ch) e ∙ h }

KeepsMail-if :
    (b : Bool) (st x y : NetState)
    → KeepsMail st x
    → KeepsMail st y
    → KeepsMail st (if b then x else y)
KeepsMail-if true st x y hx hy = hx
KeepsMail-if false st x y hx hy = hy

received-append :
    (ch : ℕ) (t : Text) (mail more : List (ℕ × Text))
    → received ch mail ≡ some t
    → received ch (mail ++ more) ≡ some t
unfolding received
received-append ch t [] more h = cc
received-append ch t ((j, u) ∷ mail) more h = ground (arith, received-append ch t mail more)

received_last :
    (ch : ℕ) (t : Text) (mail : List (ℕ × Text))
    → received ch mail ≡ none
    → received ch (mail ++ (ch, t) ∷ []) ≡ some t
unfolding received
received_last ch t [] h = rw ((==_iff ch ch).1 refl) refl
received_last ch t ((j, u) ∷ mail) h = ground (arith, received_last ch t mail)

module _ (c : Platform) where
  record_status-mail :
      (status : Status) (name fp : Text) (st : NetState)
      → (record_status status name fp st).mail ≡ st.mail
  unfolding record_status send
  record_status-mail fresh name fp st = refl
  record_status-mail same name fp st = refl
  record_status-mail changed name fp st = refl

  learn-mail : (n p : Text) (st : NetState) → (learn c n p st).mail ≡ st.mail
  unfolding learn check_tofu
  learn-mail n p st =
      record_status-mail (status_of (lookup n st.tofu) (fingerprint c p)) n (fingerprint c p) st

  insert_item-mail : (item : Text) (st : NetState) → (insert_item c item st).mail ≡ st.mail
  unfolding insert_item
  insert_item-mail item st = elim (Option-cases (split_once b':' item)) [
    | inl e ↦ rw (e, insert_item) refl
    | inr ((n, p), e) ↦ rw (e, insert_item) (learn-mail (trim n) (trim p) st)
  ]

  insert_items-mail : (items : List Text) (st : NetState) → (insert_items c items st).mail ≡ st.mail
  unfolding insert_items
  insert_items-mail [] st = refl
  insert_items-mail (item ∷ items) st =
      insert_items-mail items (insert_item c (trim item) st) ∙ insert_item-mail (trim item) st

  insert_keys-mail : (text : Text) (st : NetState) → (insert_keys c text st).mail ≡ st.mail
  unfolding insert_keys
  insert_keys-mail text st = insert_items-mail (split b';' (key_list c text)) st

module _ (c : Platform) (s : Session) where
  message_parts-mail :
      (parts : List Bytes) (st : NetState) → (message_parts c s parts st).mail ≡ st.mail
  unfolding message_parts
  message_parts-mail [] st = refl
  message_parts-mail (_ ∷ []) st = refl
  message_parts-mail (_ ∷ _ ∷ []) st = refl
  message_parts-mail (_ ∷ _ ∷ _ ∷ _) st = refl

  file_parts-mail : (parts : List Bytes) (st : NetState) → (file_parts c s parts st).mail ≡ st.mail
  unfolding file_parts
  file_parts-mail [] st = refl
  file_parts-mail (_ ∷ []) st = refl
  file_parts-mail (_ ∷ _ ∷ []) st = refl
  file_parts-mail (_ ∷ _ ∷ _ ∷ []) st = refl
  file_parts-mail (_ ∷ _ ∷ _ ∷ _ ∷ _) st = ground arith

  deliver-KeepsMail : (text : Text) (st : NetState) → KeepsMail st (deliver c s text st)
  unfolding deliver
  deliver-KeepsMail text st = record {
    kept = λ i t h. elim (Option-cases st.pending) [
      | inl e ↦ rw (e, deliver) h
      | inr (ch, e) ↦ rw (e, deliver) (received-append i t st.mail ((ch, text) ∷ []) h)
    ];
  }

  registered-mail :
      (st : NetState)
      → (send authed (write_frame c s type_register (register_payload c s) st).1).mail ≡ st.mail
  unfolding send write_frame
  registered-mail st = refl

  send_all-mail : (evs : List Ev) (st : NetState) → (send_all evs st).mail ≡ st.mail
  unfolding send_all
  send_all-mail evs st = refl

  handle_text-KeepsMail : (text : Text) (st : NetState) → KeepsMail st (handle_text c s text st)
  unfolding handle_text
  handle_text-KeepsMail text st = elim (Option-cases (strip_prefix (codes "[RESP]") text)) [
    | inl e ↦
        rw (e, handle_text)
          (KeepsMail-if
            (starts_with (codes "[ПУБКЛЮЧИ]") text || starts_with (codes "[НОВЫЙ]") text) st _ _
            (KeepsMail-same st _ (insert_keys-mail c text st))
            (KeepsMail-if (starts_with (codes "[AUTH]OK") text) st _ _
              (KeepsMail-same st _ (registered-mail st))
              (KeepsMail-same st _ (send_all-mail (server_events text) st))))
    | inr (rest, e) ↦ rw (e, handle_text) (deliver-KeepsMail (trim rest) st)
  ]

  handle_command-KeepsMail :
      (payload : Bytes) (st : NetState) → KeepsMail st (handle_command c s payload st)
  unfolding handle_command
  handle_command-KeepsMail payload st =
      elim (Option-cases (gcm_decrypt c s.shared_key (from_utf8_lossy payload) [])) [
        | inl e ↦ rw (e, handle_command) (KeepsMail-same st st refl)
        | inr (text, e) ↦ rw (e, handle_command) (handle_text-KeepsMail (trim text) st)
      ]

  handle_frame-KeepsMail :
      (ftype : ℕ) (payload : Bytes) (st : NetState)
      → KeepsMail st (handle_frame c s ftype payload st)
  unfolding handle_frame handle_message handle_file
  handle_frame-KeepsMail ftype payload st =
      KeepsMail-if (ftype == type_command) st _ _ (handle_command-KeepsMail payload st) (
        KeepsMail-if (ftype == type_message) st _ _
          (KeepsMail-same st _ (message_parts-mail (split 0 payload) st))
          (KeepsMail-if (ftype == type_file) st _ _
            (KeepsMail-same st _ (file_parts-mail (split 0 payload) st))
            (KeepsMail-same st st refl)))

  handle_frames-KeepsMail :
      (frames : List (ℕ × Bytes)) (st : NetState) → KeepsMail st (handle_frames c s frames st)
  unfolding handle_frames
  handle_frames-KeepsMail [] st = KeepsMail-same st st refl
  handle_frames-KeepsMail ((ftype, payload) ∷ frames) st =
      KeepsMail-trans (handle_frame-KeepsMail ftype payload st)
        (handle_frames-KeepsMail frames (handle_frame c s ftype payload st))

  -- A response to whoever waits.
  response_taken :
      (payload : Bytes) (text rest : Text) (ch : ℕ) (st : NetState)
      → gcm_decrypt c s.shared_key (from_utf8_lossy payload) [] ≡ some text
      → strip_prefix (codes "[RESP]") (trim text) ≡ some rest
      → st.pending ≡ some ch
      → received ch st.mail ≡ none
      → received ch (handle_frame c s type_command payload st).mail ≡ some (trim rest)
  unfolding handle_frame handle_command handle_text deliver
  response_taken payload text rest ch st d r p n =
      rw (d, handle_command, r, handle_text, p, deliver) (received_last ch (trim rest) st.mail n)

  waited_for :
      (payload : Bytes) (text rest : Text) (frames : List (ℕ × Bytes)) (ch : ℕ) (st : NetState)
      → s.arrivals st.waits ≡ (type_command, payload) ∷ frames
      → gcm_decrypt c s.shared_key (from_utf8_lossy payload) [] ≡ some text
      → strip_prefix (codes "[RESP]") (trim text) ≡ some rest
      → st.pending ≡ some ch
      → received ch st.mail ≡ none
      → (wait_response c s ch st).0 ≡ some (trim rest)
  unfolding wait_response handle_frames
  waited_for payload text rest frames ch st a d r p n =
      let waiting : NetState = record st { waits = st.waits + 1 } in
      rw a (
        (handle_frames-KeepsMail frames (handle_frame c s type_command payload waiting)).kept ch
          (trim rest) (response_taken payload text rest ch waiting d r p n))

  -- A request whose command is encrypted and written gets an answer: the first response that arrives
  -- while it waits, if this is the first frame then, whatever that response was meant for. Its
  -- channel is new, so nothing is in it before.
  pub request_answered :
      (cmd enc : Text) (payload : Bytes) (text rest : Text) (frames : List (ℕ × Bytes))
      (st : NetState)
      → gcm_encrypt c (s.nonce st.draws) s.shared_key (as_bytes cmd) [] ≡ some enc
      → s.link st.out.attempts ≡ true
      → s.arrivals st.waits ≡ (type_command, payload) ∷ frames
      → gcm_decrypt c s.shared_key (from_utf8_lossy payload) [] ≡ some text
      → strip_prefix (codes "[RESP]") (trim text) ≡ some rest
      → received st.channels st.mail ≡ none
      → (request c s cmd st).0 ≡ some (trim rest)
  unfolding request open_channel seal_command write_frame send_frame
  request_answered cmd enc payload text rest frames st e link a d r n =
      rw (e, request, link) (waited_for payload text rest frames st.channels _ a d r refl n)
