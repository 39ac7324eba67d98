-- ===== src/Net/Reader/Files.antt =====
-- `handle_file` of net.rs: where it writes.
use e2e_console_messenger.Base.{
  ◌≡◌, ◌⊎◌, refl, sym, ap, inl, inr, Bool, true, false, Option, none, some, List, [], ◌∷◌, ◌++◌,
  Bytes, Text, is_empty, split, trim, text_eq, text_eq_iff, if◌then◌else◌, ◌>>=◌, Bool-cases,
  Option-cases, arith,
}
use e2e_console_messenger.Base.Utf8.{from_utf8_lossy}
use e2e_console_messenger.Base.Dict.{lookup, lookup-insert}
use e2e_console_messenger.Platform.{Platform}
use e2e_console_messenger.Crypto.{decrypt_from_peer}
use e2e_console_messenger.Store.{
  Os, Disk, downloads, safe_file_name, save_received_file, write_file_secure,
}
use e2e_console_messenger.Store.FileName.{IsPlain, safe_file_name-IsPlain}
use e2e_console_messenger.Store.Received.{save_received_file_plain}
use e2e_console_messenger.Net.State.{Session, NetState, send}
use e2e_console_messenger.Net.Reader.{store_file, file_parts, handle_file}

-- A path directly below the directory for received files.
abbrev pub IsReceived : Os → Text → Type 0
IsReceived os q =
    (cwd base : Text) × (os.current_dir ≡ some cwd)
    × IsPlain base
    × (q ≡ downloads cwd ++ b'/' ∷ base)

-- Nothing changed at a path, unless it is one for a received file.
abbrev Spares : Os → Text → Disk → Disk → Type 0
Spares os q disk disk' = (lookup q disk' ≡ lookup q disk) ⊎ IsReceived os q

write-Spares :
    (os : Os) (cwd base : Text) (raw : Bytes) (disk : Disk) (q : Text)
    → IsPlain base
    → os.current_dir ≡ some cwd
    → Spares os q disk (write_file_secure os (downloads cwd ++ b'/' ∷ base) raw disk).1
unfolding write_file_secure
write-Spares os cwd base raw disk q p e =
    let path = downloads cwd ++ b'/' ∷ base in
    elim (Bool-cases (text_eq path q)) [
      | inl k ↦ inr (cwd, base, e, p, sym ((text_eq_iff path q).0 k))
      | inr k ↦ inl (ground (arith, lookup-insert path q raw disk, text_eq_iff path q, k))
    ]

save-Spares :
    (os : Os) (base : Text) (raw : Bytes) (disk : Disk) (q : Text)
    → IsPlain base
    → Spares os q disk (save_received_file os base raw disk).1
unfolding save_received_file
save-Spares os base raw disk q p = elim (Option-cases os.current_dir) [
  | inl e ↦ rw (e, save_received_file) (inl refl)
  | inr (cwd, e) ↦ elim (Bool-cases (os.create_dir_all (downloads cwd))) [
    | inl k ↦
        rw ((save_received_file_plain os cwd base raw disk p e k).0)
          (write-Spares os cwd base raw disk q p e)
    | inr k ↦ rw (e, save_received_file, k) (inl refl)
  ]
]

-- What is reported does not matter.
reported-Spares :
    (os : Os) (q base : Text) (empty saved : Bool) (disk disk' : Disk)
    → (empty ≡ false → Spares os q disk disk')
    → Spares os q disk
        (if◌then◌else◌ {A = Option Text × Disk} empty
          (none, disk)
          (if saved then (some base, disk') else (none, disk'))).1
reported-Spares os q base true saved disk disk' h = inl refl
reported-Spares os q base false true disk disk' h = h refl
reported-Spares os q base false false disk disk' h = h refl

safe-Spares :
    (os : Os) (fname : Text) (raw : Bytes) (disk : Disk) (q : Text)
    → is_empty (safe_file_name fname) ≡ false
    → Spares os q disk (save_received_file os (safe_file_name fname) raw disk).1
safe-Spares os fname raw disk q h = elim (safe_file_name-IsPlain fname) [
  | inl e ↦ let k = ap is_empty e in cc
  | inr p ↦ save-Spares os (safe_file_name fname) raw disk q p
]

module _ (c : Platform) (s : Session) where
  store-Spares :
      (fname b64 pk : Text) (disk : Disk) (q : Text)
      → Spares s.os q disk (store_file c s fname b64 pk disk).1
  unfolding store_file
  store-Spares fname b64 pk disk q =
      elim (Option-cases (decrypt_from_peer c b64 pk s.our >>= λ t. c.b64_decode (trim t))) [
        | inl e ↦ rw (e, store_file) (inl refl)
        | inr (raw, e) ↦
            rw (e, store_file)
              (reported-Spares s.os q (safe_file_name fname) (is_empty (safe_file_name fname))
                (save_received_file s.os (safe_file_name fname) raw disk).0 disk _
                (safe-Spares s.os fname raw disk q))
      ]

  parts-Spares :
      (parts : List Bytes) (st : NetState) (q : Text)
      → Spares s.os q st.disk (file_parts c s parts st).disk
  unfolding file_parts send
  parts-Spares [] st q = inl refl
  parts-Spares (_ ∷ []) st q = inl refl
  parts-Spares (_ ∷ _ ∷ []) st q = inl refl
  parts-Spares (_ ∷ _ ∷ _ ∷ []) st q = inl refl
  parts-Spares (from ∷ to ∷ name ∷ content ∷ more) st q =
      elim (Option-cases (lookup (from_utf8_lossy from) st.known)) [
        | inl e ↦ rw (e, file_parts) (inl refl)
        | inr (pk, e) ↦
            rw (e, file_parts)
              (store-Spares (from_utf8_lossy name) (from_utf8_lossy content) pk st.disk q)
      ]

  -- A received file changes the disk at most directly below the directory for received files, under
  -- a plain name, whatever the sender put into the frame: any other path holds what it held.
  pub handle_file-Spares :
      (payload : Bytes) (st : NetState) (q : Text)
      → (lookup q (handle_file c s payload st).disk ≡ lookup q st.disk) ⊎ IsReceived s.os q
  unfolding handle_file
  handle_file-Spares payload st q = parts-Spares (split 0 payload) st q
