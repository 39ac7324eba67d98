-- ===== src/Store/Received.antt =====
-- Where store.rs puts a received file.
use e2e_console_messenger.Base.{
  ◌≡◌, ◌≢◌, ap, refl, true, none, some, List, [], ◌∷◌, ◌++◌, Bytes, Text, codes, last, text_eq_iff,
  starts_with, strip_prefix, Lacks, arith,
}
use e2e_console_messenger.Store.{
  downloads, Os, Disk, components, join, is_prefix, path_starts_with, write_file_secure,
  save_received_file,
}
use e2e_console_messenger.Store.FileName.{IsPlain, components-append}

is_prefix-append : (ps qs : List Text) → is_prefix ps (ps ++ qs) ≡ true
unfolding is_prefix
is_prefix-append [] qs = refl
is_prefix-append (p ∷ ps) qs = ground (arith, is_prefix-append ps qs, text_eq_iff p p)

last-append_many {ℓ} :
    {A : Type ℓ} (xs : List A) (y : A) (ys : List A) → last (xs ++ y ∷ ys) ≡ last (y ∷ ys)
last-append_many [] y ys = refl
last-append_many (x ∷ []) y ys = refl
last-append_many (x ∷ z ∷ xs) y ys = last-append_many (z ∷ xs) y ys

-- The directory is not empty and does not end in a separator.
last-join : (cwd : Text) → last (downloads cwd) ≡ some b's'
unfolding downloads join starts_with
last-join cwd =
    let behind = last-append_many cwd b'd' (codes "ownloads") in
    let below = last-append_many cwd b'/' (codes "downloads") in ground (arith, behind, below)

strip_slash : (base : Text) → Lacks b'/' base → strip_prefix (codes "/") base ≡ none
unfolding strip_prefix
strip_slash [] h = refl
strip_slash (c ∷ s) h = ground arith

join-IsPlain :
    (dir base : Text) → last dir ≡ some b's' → IsPlain base → join dir base ≡ dir ++ b'/' ∷ base
unfolding join starts_with
join-IsPlain [] base l p = cc
join-IsPlain (a ∷ dir) base l p = rw (strip_slash base p.no_slash, l)

downloads-ne-nil : (cwd : Text) → downloads cwd ≢ []
downloads-ne-nil cwd e = cc (last-join cwd, ap last e)

-- A path below another starts with it.
starts_with-append :
    (cwd base : Text)
    → IsPlain base
    → path_starts_with (downloads cwd ++ b'/' ∷ base) (downloads cwd) ≡ true
unfolding path_starts_with
starts_with-append cwd base p =
    rw (components-append (downloads cwd) base (downloads-ne-nil cwd) p)
      (is_prefix-append (components (downloads cwd)) (base ∷ []))

module _ (os : Os) (cwd base : Text) (raw : Bytes) (disk : Disk) where
  -- A file with a plain name is written directly below `downloads` in the current directory, if
  -- that directory can be made: the path is one component longer than the directory's, and the
  -- result and the disk are those of that one write.
  pub save_received_file_plain :
      IsPlain base
      → os.current_dir ≡ some cwd
      → os.create_dir_all (downloads cwd) ≡ true
      → (save_received_file os base raw disk
          ≡ write_file_secure os (downloads cwd ++ b'/' ∷ base) raw disk)
        × (components (downloads cwd ++ b'/' ∷ base) ≡ components (downloads cwd) ++ base ∷ [])
  unfolding save_received_file write_file_secure
  save_received_file_plain p e m = (
    rw (e, save_received_file)
        (rw
          (join-IsPlain (downloads cwd) base (last-join cwd) p, m, starts_with-append cwd base p)),
    components-append (downloads cwd) base (downloads-ne-nil cwd) p,
  )
