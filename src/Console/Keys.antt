-- ===== src/Console/Keys.antt =====
-- The key files that the console client leaves, as the client with the window finds them, which is
-- started elsewhere: each has its own view of the disk, and the directory above is the same.
use e2e_console_messenger.Base.{
  ◌≡◌, ◌∙◌, refl, ap, true, Option, none, some, List, [], ◌∷◌, ◌++◌, Bytes, Text, codes, length,
  last, split_whitespace, Option-cases, inl, inr, arith, ◌>>=◌,
}
use e2e_console_messenger.Base.Utf8.{IsText, as_bytes, from_utf8-as_bytes}
use e2e_console_messenger.Base.Dict.{lookup, lookup-insert_self}
use e2e_console_messenger.Platform.{Platform, IsLawful}
use e2e_console_messenger.Store
use e2e_console_messenger.Store.{
  Os, Disk, read_to_string, first_some, write_last, shared_key_at, identity_text,
}
use e2e_console_messenger.Store.Scan.{first_some_skip, first_some_stop, write_last_eq}
use e2e_console_messenger.Store.Keys.{
  b64-IsText, parse_shared_key, parse_shared_key-b64_encode, parse_identity,
  parse_identity-identity_text, identity_text-IsText, load_shared_key_found, load_identity_found,
}
use e2e_console_messenger.Console.Store.{
  candidate_paths, key_paths, load_shared_key, identity_words, identity_at, load_or_create_identity,
}

-- A finding that is changed.
abbrev changed : {A B : Type 0} → (A → B) → Option A → Option B
changed h none = none
changed h (some a) = some (h a)

-- Without the variable, and with nothing in the directory of the program, the console client takes
-- what is in the directory above.
console_scan :
    {A : Type 0} (f : Text → Option A) (os : Os) (variable name : Text)
    → os.var variable ≡ none
    → f name ≡ none
    → first_some f (key_paths os variable name) ≡ f (codes "../" ++ name)
unfolding key_paths candidate_paths first_some
console_scan f os variable name v e = rw (v, key_paths, e) (only (f (codes "../" ++ name)))
  where
    only : {A : Type 0} (o : Option A) → (elim o [ none ↦ none | some a ↦ some a ]) ≡ o
    only none = refl
    only (some a) = refl

-- So does the client with the window.
window_scan :
    {A : Type 0} (f : Text → Option A) (a : A) (os : Os) (variable name : Text)
    → os.var variable ≡ none
    → f name ≡ none
    → f (codes "../" ++ name) ≡ some a
    → first_some f (Store.key_paths os variable name) ≡ some a
unfolding e2e_console_messenger.Store.key_paths e2e_console_messenger.Store.candidate_paths
window_scan f a os variable name v e k =
    rw (v, Store.key_paths)
      (first_some_skip f name _ e ∙ first_some_stop f (codes "../" ++ name) _ a k)

last-key_paths :
    (os : Os) (variable name : Text)
    → last (key_paths os variable name) ≡ some (codes "../" ++ name)
unfolding key_paths candidate_paths
last-key_paths os variable name = ground arith

-- A file that was written last, read again.
read_written :
    (os : Os) (variable name t : Text) (disk : Disk)
    → IsText t
    → os.can_write (codes "../" ++ name) ≡ true
    → read_to_string
        (write_last os (key_paths os variable name) (as_bytes t) disk)
        (codes "../" ++ name)
      ≡ some t
unfolding read_to_string
read_written os variable name t disk v w =
    rw
      (
        write_last_eq os (key_paths os variable name) (codes "../" ++ name) (as_bytes t) disk
            (last-key_paths os variable name) w,
        lookup-insert_self (codes "../" ++ name) (as_bytes t) disk,
        ◌>>=◌,
      )
      (from_utf8-as_bytes t v)

same_read :
    (d e : Disk) (p : Text) → lookup p d ≡ lookup p e → read_to_string d p ≡ read_to_string e p
unfolding read_to_string
same_read d e p h = rw h refl

module _ (c : Platform) (laws : IsLawful c) (os : Os) (disk : Disk) where
  -- The key that the console client starts with stands in the directory above its own.
  shared_key_stands :
      (random : Bytes)
      → os.var (codes "MESH_SHARED_KEY") ≡ none
      → shared_key_at os c disk (codes "secret.key") ≡ none
      → os.can_write (codes "../secret.key") ≡ true
      → length random ≡ 32
      → shared_key_at os c (load_shared_key os c random disk).1 (codes "../secret.key")
        ≡ some (load_shared_key os c random disk).0
  unfolding load_shared_key
  shared_key_stands random v h w n =
      let variable = codes "MESH_SHARED_KEY" in
      let name = codes "secret.key" in
      let scan = console_scan (shared_key_at os c disk) os variable name v h in
      elim (Option-cases (shared_key_at os c disk (codes "../secret.key"))) [
        | inl e ↦
            rw (scan ∙ e, load_shared_key)
              (unfold shared_key_at in
                rw
                  (
                    read_written os variable name (c.b64_encode random) disk
                        (b64-IsText c laws os disk random) w,
                    ◌>>=◌,
                  )
                  (unfold parse_shared_key in parse_shared_key-b64_encode c laws os disk random n))
        | inr (k, e) ↦ rw (scan ∙ e, load_shared_key) e
      ]

  -- Two clients that are started in directories side by side, without the variable for the file, and
  -- without a readable key in their own directory. The shared key that the console client starts
  -- with, found or made, is the one that the client with the window finds then, if "../secret.key" can
  -- be written and a new key has 32 bytes; and the window changes no file.
  pub load_shared_key_shared :
      (random other : Bytes) (os' : Os) (disk' : Disk)
      → os.var (codes "MESH_SHARED_KEY") ≡ none
      → os'.var (codes "MESH_SHARED_KEY") ≡ none
      → shared_key_at os c disk (codes "secret.key") ≡ none
      → shared_key_at os' c disk' (codes "secret.key") ≡ none
      → os.can_write (codes "../secret.key") ≡ true
      → length random ≡ 32
      → lookup (codes "../secret.key") disk'
        ≡ lookup (codes "../secret.key") (load_shared_key os c random disk).1
      → Store.load_shared_key os' c other disk' ≡ ((load_shared_key os c random disk).0, disk')
  load_shared_key_shared random other os' disk' v v' h h' w n same =
      let (key, after) = load_shared_key os c random disk in
      let there : shared_key_at os' c disk' (codes "../secret.key") ≡ some key =
        unfold shared_key_at in
        rw (same_read disk' after (codes "../secret.key") same)
          (unfold shared_key_at in shared_key_stands random v h w n) in
      load_shared_key_found c laws os' disk' other key disk' (
        window_scan (shared_key_at os' c disk') key os' (codes "MESH_SHARED_KEY")
          (codes "secret.key") v' h' there)

  words_seed :
      (ws : List Text) → Store.identity_words os c ws ≡ changed (λ r. r.0) (identity_words os c ws)
  unfolding identity_words e2e_console_messenger.Store.identity_words
  words_seed [] = refl
  words_seed (a ∷ []) = refl
  words_seed (a ∷ b ∷ []) = ground arith
  words_seed (a ∷ b ∷ _ ∷ _) = refl

  -- What the window makes of a file, from what the console makes of it: the seed.
  identity_at_seed :
      (d : Disk) (p : Text) → Store.identity_at os c d p ≡ changed (λ r. r.0) (identity_at os c d p)
  unfolding identity_at e2e_console_messenger.Store.identity_at
  identity_at_seed d p = elim (Option-cases (read_to_string d p)) [
    | inl e ↦ rw (Store.identity_at, identity_at, e) refl
    | inr (content, e) ↦
        rw (Store.identity_at, identity_at, e) (words_seed (split_whitespace content))
  ]

  -- The secret that the console client starts with stands in the directory above its own.
  identity_stands :
      (random : Bytes)
      → os.var (codes "MESH_IDENTITY_FILE") ≡ none
      → identity_at os c disk (codes "identity.key") ≡ none
      → os.can_write (codes "../identity.key") ≡ true
      → length random ≡ 32
      → Store.identity_at os c
          (load_or_create_identity os c random disk).2
          (codes "../identity.key")
        ≡ some (load_or_create_identity os c random disk).0
  unfolding load_or_create_identity
  identity_stands random v h w n =
      let variable = codes "MESH_IDENTITY_FILE" in
      let name = codes "identity.key" in
      let scan = console_scan (identity_at os c disk) os variable name v h in
      elim (Option-cases (identity_at os c disk (codes "../identity.key"))) [
        | inl e ↦
            rw (scan ∙ e, load_or_create_identity)
              (unfold e2e_console_messenger.Store.identity_at in
                rw
                  (
                    read_written os variable name (identity_text os c random) disk
                        (identity_text-IsText c laws os disk random) w,
                    ◌>>=◌,
                  )
                  (unfold parse_identity in parse_identity-identity_text c laws os disk random n))
        | inr ((k, pk), e) ↦
            rw (scan ∙ e, load_or_create_identity)
              (identity_at_seed disk (codes "../identity.key") ∙ ap (changed (λ r. r.0)) e)
      ]

  -- Two clients that are started in directories side by side, without the variable for the file, and
  -- without a readable identity in their own directory. The client with the window finds the secret
  -- key that the console client starts with, found or made, changes no file, and publishes the
  -- public key of that secret, whatever the console client takes from the file as its public key,
  -- if "../identity.key" can be written and a new secret has 32 bytes.
  pub load_or_create_identity_shared :
      (random other : Bytes) (os' : Os) (disk' : Disk)
      → os.var (codes "MESH_IDENTITY_FILE") ≡ none
      → os'.var (codes "MESH_IDENTITY_FILE") ≡ none
      → identity_at os c disk (codes "identity.key") ≡ none
      → Store.identity_at os' c disk' (codes "identity.key") ≡ none
      → os.can_write (codes "../identity.key") ≡ true
      → length random ≡ 32
      → lookup (codes "../identity.key") disk'
        ≡ lookup (codes "../identity.key") (load_or_create_identity os c random disk).2
      → Store.load_or_create_identity os' c other disk' ≡ (
        (load_or_create_identity os c random disk).0,
        c.b64_encode (c.public_key (load_or_create_identity os c random disk).0),
        disk',
      )
  unfolding e2e_console_messenger.Store.identity_words
  load_or_create_identity_shared random other os' disk' v v' h h' w n same =
      let secret = (load_or_create_identity os c random disk).0 in
      let after = (load_or_create_identity os c random disk).2 in
      let there : Store.identity_at os' c disk' (codes "../identity.key") ≡ some secret =
        unfold e2e_console_messenger.Store.identity_at in
        rw (same_read disk' after (codes "../identity.key") same)
          (unfold e2e_console_messenger.Store.identity_at in identity_stands random v h w n) in
      load_identity_found c laws os' disk' other secret disk' (
        window_scan (Store.identity_at os' c disk') secret os' (codes "MESH_IDENTITY_FILE")
          (codes "identity.key") v' h' there)
