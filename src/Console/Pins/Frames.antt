-- ===== src/Console/Pins/Frames.antt =====
-- `reader_loop` of the console client: the fingerprints and the frames of the server.
use e2e_console_messenger.Base.{
  ℕ, ◌≡◌, ◌∙◌, refl, ap, Bool, false, Option, none, some, List, [], ◌∷◌, ◌==◌, ◌||◌, ◌&&◌, Bytes,
  Text, codes, text_eq, text_eq_iff, trim, split, strip_prefix, starts_with, if◌then◌else◌, ◌>>=◌,
  Option-cases, Bool-cases, inl, inr, arith,
}
use e2e_console_messenger.Base.Utf8.{from_utf8_lossy}
use e2e_console_messenger.Base.Dict.{lookup, lookup-insert}
use e2e_console_messenger.Platform.{Platform}
use e2e_console_messenger.Proto.{type_command, type_message, type_file}
use e2e_console_messenger.Store.{Os, Disk, downloads, join, path_starts_with, write_file_secure}
use e2e_console_messenger.Net.State.{Session}
use e2e_console_messenger.Console.Shared.{gcm_decrypt, decrypt_from_peer, safe_file_name}
use e2e_console_messenger.Console.Store.{is_absolute, save_received_file}
use e2e_console_messenger.Console.State.{State, write_frame}
use e2e_console_messenger.Console.Reader.{
  message_parts, handle_message, store_file, file_result, file_parts, handle_file, deliver,
  handle_text, handle_command, handle_frame, handle_frames,
}
use e2e_console_messenger.Console.Pins.{
  Keeps, Keeps-files, Keeps-same, Keeps-refl, Keeps-trans, Keeps-if, pprint-Keeps,
  insert_keys-Keeps,
}

-- A received file stands at an absolute path, so a relative one keeps its contents.
write-relative :
    (os : Os) (path : Text) (raw : Bytes) (disk : Disk) (b : Bool) (q : Text)
    → starts_with (codes "/") q ≡ false
    → lookup q
        (if is_absolute path && b then write_file_secure os path raw disk else (false, disk)).1
      ≡ lookup q disk
unfolding is_absolute write_file_secure
write-relative os path raw disk b q h = elim (Bool-cases (text_eq path q)) [
  | inl e ↦ rw (ap (starts_with (codes "/")) ((text_eq_iff path q).0 e) ∙ h) refl
  | inr e ↦ elim (Bool-cases (starts_with (codes "/") path && b)) [
    | inl k ↦ elim (Bool-cases (os.can_write path)) [
      | inl w ↦ rw (k, w, lookup-insert path q raw disk, e) refl
      | inr w ↦ rw (k, w) refl
    ]
    | inr k ↦ rw k refl
  ]
]

save-relative :
    (os : Os) (base : Text) (raw : Bytes) (disk : Disk) (q : Text)
    → starts_with (codes "/") q ≡ false
    → lookup q (save_received_file os base raw disk).1 ≡ lookup q disk
unfolding save_received_file
save-relative os base raw disk q h = elim (Option-cases os.current_dir) [
  | inl e ↦ rw (e, save_received_file) refl
  | inr (cwd, e) ↦ elim (Bool-cases (os.create_dir_all (downloads cwd))) [
    | inl k ↦
        rw (e, save_received_file, k)
          (write-relative os (join (downloads cwd) base) raw disk
            (path_starts_with (join (downloads cwd) base) (downloads cwd)) q h)
    | inr k ↦ rw (e, save_received_file, k) refl
  ]
]

module _ (c : Platform) (s : Session) where
  store-relative :
      (sender fname : Text) (raw : Bytes) (disk : Disk) (q : Text)
      → starts_with (codes "/") q ≡ false
      → lookup q (store_file c s sender fname raw disk).1 ≡ lookup q disk
  unfolding store_file
  store-relative sender fname raw disk q h =
      ground (arith, save-relative s.os (safe_file_name fname) raw disk q h)

  result-relative :
      (sender fname content : Text) (pk : Option Text) (disk : Disk) (q : Text)
      → starts_with (codes "/") q ≡ false
      → lookup q (file_result c s sender fname content pk disk).1 ≡ lookup q disk
  unfolding file_result
  result-relative sender fname content none disk q h = refl
  result-relative sender fname content (some pk) disk q h =
      elim (Option-cases
        (decrypt_from_peer c content pk s.our >>= λ b64. c.b64_decode (trim b64))) [
          | inl e ↦ rw (e, file_result) refl
          | inr (raw, e) ↦ rw (e, file_result) (store-relative sender fname raw disk q h)
        ]

  module _ (Trusts : Text → Type 0) where
    message_parts-Keeps :
        (parts : List Bytes) (st : State) → Keeps c s.os Trusts st (message_parts c s parts st)
    unfolding message_parts
    message_parts-Keeps [] st = pprint-Keeps c s.os Trusts _ st st (Keeps-refl c s.os Trusts st)
    message_parts-Keeps (_ ∷ []) st =
        pprint-Keeps c s.os Trusts _ st st (Keeps-refl c s.os Trusts st)
    message_parts-Keeps (_ ∷ _ ∷ []) st =
        pprint-Keeps c s.os Trusts _ st st (Keeps-refl c s.os Trusts st)
    message_parts-Keeps (_ ∷ _ ∷ _ ∷ _) st =
        pprint-Keeps c s.os Trusts _ st st (Keeps-refl c s.os Trusts st)

    file_parts-Keeps :
        (parts : List Bytes) (st : State) → Keeps c s.os Trusts st (file_parts c s parts st)
    unfolding file_parts
    file_parts-Keeps [] st = pprint-Keeps c s.os Trusts _ st st (Keeps-refl c s.os Trusts st)
    file_parts-Keeps (_ ∷ []) st = pprint-Keeps c s.os Trusts _ st st (Keeps-refl c s.os Trusts st)
    file_parts-Keeps (_ ∷ _ ∷ []) st =
        pprint-Keeps c s.os Trusts _ st st (Keeps-refl c s.os Trusts st)
    file_parts-Keeps (_ ∷ _ ∷ _ ∷ []) st =
        pprint-Keeps c s.os Trusts _ st st (Keeps-refl c s.os Trusts st)
    file_parts-Keeps (from ∷ to ∷ name ∷ content ∷ _) st =
        let kept =
          result-relative (from_utf8_lossy from) (from_utf8_lossy name) (from_utf8_lossy content)
            (lookup (from_utf8_lossy from) st.known) st.disk in
        pprint-Keeps c s.os Trusts _ st _ (
          Keeps-files c s.os Trusts st _ refl
            (kept (codes "tofu.json") (unfold starts_with strip_prefix in refl))
            (kept (codes "../tofu.json") (unfold starts_with strip_prefix in refl)))

    deliver-Keeps : (text : Text) (st : State) → Keeps c s.os Trusts st (deliver c s text st)
    unfolding deliver
    deliver-Keeps text st = Keeps-same c s.os Trusts st _ (ground arith) (ground arith)

    handle_text-Keeps :
        (text : Text) (st : State) → Keeps c s.os Trusts st (handle_text c s text st)
    unfolding handle_text write_frame
    handle_text-Keeps text st = elim (Option-cases (strip_prefix (codes "[RESP]") text)) [
      | inl e ↦
          rw (e, handle_text)
            (Keeps-if c s.os Trusts
              (starts_with (codes "[ПУБКЛЮЧИ]") text || starts_with (codes "[НОВЫЙ]") text) st _ _
              (insert_keys-Keeps c s.os Trusts text st)
              (Keeps-if c s.os Trusts (starts_with (codes "[AUTH]OK") text) st _ _
                (Keeps-same c s.os Trusts st _ refl refl)
                (pprint-Keeps c s.os Trusts text st st (Keeps-refl c s.os Trusts st))))
      | inr (rest, e) ↦ rw (e, handle_text) (deliver-Keeps (trim rest) st)
    ]

    handle_command-Keeps :
        (payload : Bytes) (st : State) → Keeps c s.os Trusts st (handle_command c s payload st)
    unfolding handle_command
    handle_command-Keeps payload st =
        elim (Option-cases (gcm_decrypt c s.shared_key (from_utf8_lossy payload) [])) [
          | inl e ↦ rw (e, handle_command) (Keeps-refl c s.os Trusts st)
          | inr (text, e) ↦ rw (e, handle_command) (handle_text-Keeps (trim text) st)
        ]

    pub handle_frame-Keeps :
        (ftype : ℕ) (payload : Bytes) (st : State)
        → Keeps c s.os Trusts st (handle_frame c s ftype payload st)
    unfolding handle_frame handle_message handle_file
    handle_frame-Keeps ftype payload st =
        Keeps-if c s.os Trusts (ftype == type_command) st _ _ (handle_command-Keeps payload st) (
          Keeps-if c s.os Trusts (ftype == type_message) st _ _
            (message_parts-Keeps (split 0 payload) st)
            (Keeps-if c s.os Trusts (ftype == type_file) st _ _
              (file_parts-Keeps (split 0 payload) st) (Keeps-refl c s.os Trusts st)))

    pub handle_frames-Keeps :
        (frames : List (ℕ × Bytes)) (st : State)
        → Keeps c s.os Trusts st (handle_frames c s frames st)
    unfolding handle_frames
    handle_frames-Keeps [] st = Keeps-refl c s.os Trusts st
    handle_frames-Keeps ((ftype, payload) ∷ frames) st =
        Keeps-trans c s.os Trusts (handle_frame-Keeps ftype payload st)
          (handle_frames-Keeps frames (handle_frame c s ftype payload st))
