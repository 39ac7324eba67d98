-- ===== src/Net/Reader/Pins.antt =====
-- `reader_loop` of net.rs: pinned fingerprints and the frames of the server.
use e2e_console_messenger.Base.{
  ℕ, ◌≡◌, refl, List, [], ◌∷◌, Bytes, Text, codes, ◌==◌, ◌||◌, trim, split, strip_prefix,
  starts_with, Option-cases, inl, inr, arith,
}
use e2e_console_messenger.Base.Utf8.{from_utf8_lossy}
use e2e_console_messenger.Platform.{Platform}
use e2e_console_messenger.Proto.{type_command, type_message, type_file, type_register}
use e2e_console_messenger.Crypto.{gcm_decrypt}
use e2e_console_messenger.Net.State.{Ev, Session, NetState, send, authed, write_frame}
use e2e_console_messenger.Net.Tofu.Laws.{
  KeepsPins, KeepsPins-refl, KeepsPins-trans, KeepsPins-same, KeepsPins-if, insert_keys-KeepsPins,
}
use e2e_console_messenger.Net.Server.{server_events}
use e2e_console_messenger.Net.Reader.{
  send_all, message_parts, handle_message, file_parts, handle_file, deliver, register_payload,
  handle_text, handle_command, handle_frame, handle_frames,
}

module _ (c : Platform) (s : Session) where
  message_parts-tofu :
      (parts : List Bytes) (st : NetState) → (message_parts c s parts st).tofu ≡ st.tofu
  unfolding message_parts
  message_parts-tofu [] st = refl
  message_parts-tofu (_ ∷ []) st = refl
  message_parts-tofu (_ ∷ _ ∷ []) st = refl
  message_parts-tofu (_ ∷ _ ∷ _ ∷ _) st = refl

  file_parts-tofu : (parts : List Bytes) (st : NetState) → (file_parts c s parts st).tofu ≡ st.tofu
  unfolding file_parts
  file_parts-tofu [] st = refl
  file_parts-tofu (_ ∷ []) st = refl
  file_parts-tofu (_ ∷ _ ∷ []) st = refl
  file_parts-tofu (_ ∷ _ ∷ _ ∷ []) st = refl
  file_parts-tofu (_ ∷ _ ∷ _ ∷ _ ∷ _) st = ground arith

  deliver-tofu : (text : Text) (st : NetState) → (deliver c s text st).tofu ≡ st.tofu
  unfolding deliver
  deliver-tofu text st = ground arith

  pub write_frame-tofu :
      (t : ℕ) (p : Bytes) (st : NetState) → (write_frame c s t p st).1.tofu ≡ st.tofu
  unfolding write_frame
  write_frame-tofu t p st = refl

  registered :
      (st : NetState)
      → (send authed (write_frame c s type_register (register_payload c s) st).1).tofu ≡ st.tofu
  unfolding send
  registered st = write_frame-tofu type_register (register_payload c s) st

  send_all-tofu : (evs : List Ev) (st : NetState) → (send_all evs st).tofu ≡ st.tofu
  unfolding send_all
  send_all-tofu evs st = refl

  handle_text-KeepsPins : (text : Text) (st : NetState) → KeepsPins st (handle_text c s text st)
  unfolding handle_text
  handle_text-KeepsPins text st = elim (Option-cases (strip_prefix (codes "[RESP]") text)) [
    | inl e ↦
        rw (e, handle_text)
          (KeepsPins-if
            (starts_with (codes "[ПУБКЛЮЧИ]") text || starts_with (codes "[НОВЫЙ]") text) st _ _
            (insert_keys-KeepsPins c text st)
            (KeepsPins-if (starts_with (codes "[AUTH]OK") text) st _ _
              (KeepsPins-same st _ (registered st))
              (KeepsPins-same st _ (send_all-tofu (server_events text) st))))
    | inr (rest, e) ↦
        rw (e, handle_text)
          (KeepsPins-same st (deliver c s (trim rest) st) (deliver-tofu (trim rest) st))
  ]

  handle_command-KeepsPins :
      (payload : Bytes) (st : NetState) → KeepsPins st (handle_command c s payload st)
  unfolding handle_command
  handle_command-KeepsPins payload st =
      elim (Option-cases (gcm_decrypt c s.shared_key (from_utf8_lossy payload) [])) [
        | inl e ↦ rw (e, handle_command) (KeepsPins-refl st)
        | inr (text, e) ↦ rw (e, handle_command) (handle_text-KeepsPins (trim text) st)
      ]

  pub handle_frame-KeepsPins :
      (ftype : ℕ) (payload : Bytes) (st : NetState)
      → KeepsPins st (handle_frame c s ftype payload st)
  unfolding handle_frame handle_message handle_file
  handle_frame-KeepsPins ftype payload st =
      KeepsPins-if (ftype == type_command) st _ _ (handle_command-KeepsPins payload st) (
        KeepsPins-if (ftype == type_message) st _ _
          (KeepsPins-same st _ (message_parts-tofu (split 0 payload) st))
          (KeepsPins-if (ftype == type_file) st _ _
            (KeepsPins-same st _ (file_parts-tofu (split 0 payload) st)) (KeepsPins-refl st)))

  pub handle_frames-KeepsPins :
      (frames : List (ℕ × Bytes)) (st : NetState) → KeepsPins st (handle_frames c s frames st)
  unfolding handle_frames
  handle_frames-KeepsPins [] st = KeepsPins-refl st
  handle_frames-KeepsPins ((ftype, payload) ∷ frames) st =
      KeepsPins-trans (handle_frame-KeepsPins ftype payload st)
        (handle_frames-KeepsPins frames (handle_frame c s ftype payload st))
