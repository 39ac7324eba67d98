-- ===== src/Store/Keys.antt =====
-- The key files of store.rs: a first start and the next one.
use e2e_console_messenger.Base.{
  ℕ, ◌≡◌, ◌≢◌, inl, ◌∙◌, ap, sym, true, false, Option, none, some, List, [], ◌∷◌, ◌++◌, Bytes, Text,
  codes, length, last, All, All-append, trim, trim-NoSpace, NoSpace, split_whitespace,
  split_whitespace_pair, is_whitespace, ==_iff, ◌>>=◌, arith,
}
use e2e_console_messenger.Base.Utf8.{IsText, IsScalar, as_bytes, from_utf8-as_bytes}
use e2e_console_messenger.Base.Dict.{Dict, insert, lookup-insert_self}
use mathlib.Core.Option.{some-injective}
use e2e_console_messenger.Platform.{Platform, IsLawful, IsPrintable}
use e2e_console_messenger.Crypto.{try_into}
use e2e_console_messenger.Store.Scan.{first_some-write_last, first_some_stop}
use e2e_console_messenger.Store.{
  Os, Disk, read_to_string, candidate_paths, first_some, key_paths, write_last, shared_key_at,
  load_shared_key, identity_words, identity_at, identity_text, load_or_create_identity, load_tofu,
  save_tofu,
}

pub printable-IsText : (s : Text) → All IsPrintable s → IsText s
printable-IsText [] h = tt
printable-IsText (c ∷ s) h = (inl (omega arith), printable-IsText s h.1)

pub printable-NoSpace : (s : Text) → All IsPrintable s → NoSpace s
printable-NoSpace [] h = tt
printable-NoSpace (c ∷ s) h = (space c h.0, printable-NoSpace s h.1)
  where
    space : (c : ℕ) → IsPrintable c → is_whitespace c ≡ false
    space c h = unfold is_whitespace in ground arith

last-key_paths :
    (os : Os) (variable name : Text)
    → last (key_paths os variable name) ≡ some (codes "../../../../" ++ name)
unfolding key_paths candidate_paths
last-key_paths os variable name = ground arith

module _ (c : Platform) (laws : IsLawful c) (os : Os) (disk : Disk) where
  pub b64-IsText : (s : Bytes) → IsText (c.b64_encode s)
  b64-IsText s = printable-IsText _ (laws.b64_encode-IsPrintable s)

  b64-NoSpace : (s : Bytes) → NoSpace (c.b64_encode s)
  b64-NoSpace s = printable-NoSpace _ (laws.b64_encode-IsPrintable s)

  unfoldable pub parse_shared_key : Text → Option Bytes
  parse_shared_key content = do key ← c.b64_decode (trim content); try_into 32 key

  shared_paths : List Text
  shared_paths = key_paths os (codes "MESH_SHARED_KEY") (codes "secret.key")

  pub load_shared_key_found :
      (random k : Bytes) (d : Disk)
      → first_some
          (shared_key_at os c d)
          (key_paths os (codes "MESH_SHARED_KEY") (codes "secret.key"))
        ≡ some k
      → load_shared_key os c random d ≡ (k, d)
  unfolding load_shared_key
  load_shared_key_found random k d h = rw (h, load_shared_key)

  load_shared_key_made :
      (random : Bytes)
      → first_some
          (shared_key_at os c disk)
          (key_paths os (codes "MESH_SHARED_KEY") (codes "secret.key"))
        ≡ none
      → load_shared_key os c random disk ≡ (
        random,
        write_last os
            (key_paths os (codes "MESH_SHARED_KEY") (codes "secret.key"))
            (as_bytes (c.b64_encode random))
            disk,
      )
  unfolding load_shared_key
  load_shared_key_made random h = rw (h, load_shared_key)

  pub parse_shared_key-b64_encode :
      (k : Bytes) → length k ≡ 32 → parse_shared_key (c.b64_encode k) ≡ some k
  unfolding parse_shared_key try_into
  parse_shared_key-b64_encode k n = rw (
    trim-NoSpace (c.b64_encode k) (b64-NoSpace k),
    laws.b64_decode-encode k,
    ◌>>=◌,
    (==_iff (length k) 32).1 n,
  )

  -- A shared key that was made because no file held one is read again at the next start, whatever
  -- random bytes that start draws, and the disk stays as it is.
  pub load_shared_key_again :
      (random other : Bytes)
      → first_some
          (shared_key_at os c disk)
          (key_paths os (codes "MESH_SHARED_KEY") (codes "secret.key"))
        ≡ none
      → os.can_write (codes "../../../../secret.key") ≡ true
      → length random ≡ 32
      → load_shared_key os c other (load_shared_key os c random disk).1
        ≡ (random, (load_shared_key os c random disk).1)
  unfolding shared_key_at parse_shared_key
  load_shared_key_again random other h w n = rw (load_shared_key_made random h) (
      load_shared_key_found other random _ (
        first_some-write_last parse_shared_key random os disk (c.b64_encode random) _ _
          (b64-IsText random) (parse_shared_key-b64_encode random n)
          (last-key_paths os (codes "MESH_SHARED_KEY") (codes "secret.key")) w h))

  unfoldable pub parse_identity : Text → Option Bytes
  parse_identity content = identity_words os c (split_whitespace content)

  pub load_identity_found :
      (random k : Bytes) (d : Disk)
      → first_some
          (identity_at os c d)
          (key_paths os (codes "MESH_IDENTITY_FILE") (codes "identity.key"))
        ≡ some k
      → load_or_create_identity os c random d ≡ (k, c.b64_encode (c.public_key k), d)
  unfolding load_or_create_identity
  load_identity_found random k d h = rw (h, load_or_create_identity)

  load_identity_made :
      (random : Bytes)
      → first_some
          (identity_at os c disk)
          (key_paths os (codes "MESH_IDENTITY_FILE") (codes "identity.key"))
        ≡ none
      → load_or_create_identity os c random disk ≡ (
        random,
        c.b64_encode (c.public_key random),
        write_last os
            (key_paths os (codes "MESH_IDENTITY_FILE") (codes "identity.key"))
            (as_bytes (identity_text os c random))
            disk,
      )
  unfolding load_or_create_identity
  load_identity_made random h = rw (h, load_or_create_identity)

  -- Base64 of something is not empty, as the empty text decodes to nothing else.
  b64_encode-ne-nil : (k : Bytes) → length k ≡ 32 → c.b64_encode k ≢ []
  b64_encode-ne-nil k n e =
      let both : some k ≡ some [] =
        sym (laws.b64_decode-encode k) ∙ (ap c.b64_decode e ∙ laws.b64_decode-nil) in
      absurd (omega (arith, ap length (some-injective k [] both)))

  pub parse_identity-identity_text :
      (k : Bytes) → length k ≡ 32 → parse_identity (identity_text os c k) ≡ some k
  unfolding parse_identity identity_text identity_words try_into
  parse_identity-identity_text k n = rw (
    split_whitespace_pair (c.b64_encode k) (c.b64_encode (c.public_key k)) (b64-NoSpace k)
        (b64-NoSpace (c.public_key k)) (b64_encode-ne-nil k n)
        (b64_encode-ne-nil (c.public_key k) (laws.length-public_key k)),
    identity_words,
    laws.b64_decode-encode k,
    laws.b64_decode-encode (c.public_key k),
    ◌>>=◌,
    (==_iff (length k) 32).1 n,
  )

  pub identity_text-IsText : (k : Bytes) → IsText (identity_text os c k)
  unfolding identity_text
  identity_text-IsText k = All-append IsScalar (c.b64_encode k) _ (b64-IsText k) (
    inl (omega arith),
    All-append IsScalar (c.b64_encode (c.public_key k)) _ (b64-IsText (c.public_key k))
        (inl (omega arith), tt),
  )

  -- An identity that was made because no file held one is loaded again at the next start, if the last
  -- candidate, four directories up, can be written and the new secret has 32 bytes: the same secret and
  -- the same published key, with the disk left as it is.
  pub load_or_create_identity_again :
      (random other : Bytes)
      → first_some
          (identity_at os c disk)
          (key_paths os (codes "MESH_IDENTITY_FILE") (codes "identity.key"))
        ≡ none
      → os.can_write (codes "../../../../identity.key") ≡ true
      → length random ≡ 32
      → load_or_create_identity os c other (load_or_create_identity os c random disk).2
        ≡ load_or_create_identity os c random disk
  unfolding identity_at parse_identity
  load_or_create_identity_again random other h w n = rw (load_identity_made random h) (
      load_identity_found other random _ (
        first_some-write_last parse_identity random os disk (identity_text os c random) _ _
          (identity_text-IsText random) (parse_identity-identity_text random n)
          (last-key_paths os (codes "MESH_IDENTITY_FILE") (codes "identity.key")) w h))

  -- On every path the published key is the public key of the secret that is returned, whatever a
  -- file claims.
  pub load_or_create_identity_public :
      (random : Bytes)
      → (load_or_create_identity os c random disk).1
        ≡ c.b64_encode (c.public_key (load_or_create_identity os c random disk).0)
  unfolding load_or_create_identity
  load_or_create_identity_public random = ground arith

  save_tofu_eq :
      (map : Dict) (json : Text) (d : Disk)
      → c.json_print map ≡ some json
      → os.can_write (codes "tofu.json") ≡ true
      → save_tofu os c map d ≡ insert (codes "tofu.json") (as_bytes json) d
  unfolding save_tofu
  save_tofu_eq map json d h w = rw (h, save_tofu) (rw w)

  load_tofu_found :
      (map : Dict) (d : Disk)
      → (read_to_string d (codes "tofu.json") >>= c.json_parse) ≡ some map
      → load_tofu os c d ≡ map
  unfolding load_tofu candidate_paths
  load_tofu_found map d h = rw (
    first_some_stop (λ p. read_to_string d p >>= c.json_parse) (codes "tofu.json") _ map h,
    load_tofu,
  )

  -- What was saved as the fingerprint file is loaded again.
  pub load_tofu-save_tofu :
      (map : Dict) (json : Text)
      → c.json_print map ≡ some json
      → os.can_write (codes "tofu.json") ≡ true
      → load_tofu os c (save_tofu os c map disk) ≡ map
  unfolding read_to_string
  load_tofu-save_tofu map json h w =
      let (v, e) = laws.json_print-parse map json h in
      rw (save_tofu_eq map json disk h w) (
        load_tofu_found map _ (
          rw
            (
              lookup-insert_self (codes "tofu.json") (as_bytes json) disk,
              ◌>>=◌,
              from_utf8-as_bytes json v,
            )
            e))
