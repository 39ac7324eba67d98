-- ===== src/Console/Store.antt =====
-- The key files, the fingerprint file and received files of the console client.
use e2e_console_messenger.Base.{
  Bool, false, Option, none, some, List, [], ◌∷◌, ◌++◌, ◌&&◌, Bytes, Text, codes, starts_with,
  split_whitespace, if◌then◌else◌, ◌>>=◌,
}
use e2e_console_messenger.Base.Utf8.{as_bytes}
use e2e_console_messenger.Base.Dict.{Dict}
use e2e_console_messenger.Platform.{Platform}
use e2e_console_messenger.Crypto.{try_into}
use e2e_console_messenger.Store.{
  Os, Disk, read_to_string, first_some, write_last, shared_key_at, identity_text, downloads, join,
  path_starts_with,
}
use e2e_console_messenger.Console.Shared.{write_file_secure}

unfoldable pub candidate_paths : Text → List Text
candidate_paths name = name ∷ (codes "../" ++ name) ∷ []

-- The file that the variable names, if it is set, and then the candidates.
unfoldable pub key_paths : Os → Text → Text → List Text
key_paths os variable name = elim (os.var variable) [
  | none ↦ candidate_paths name
  | some e ↦ e ∷ candidate_paths name
]

module _ (os : Os) (c : Platform) where
  unfoldable pub load_shared_key : Bytes → Disk → Bytes × Disk
  load_shared_key random disk =
      let paths = key_paths os (codes "MESH_SHARED_KEY") (codes "secret.key") in
      elim (first_some (shared_key_at os c disk) paths) [
        | some k ↦ (k, disk)
        | none ↦ (random, write_last os paths (as_bytes (c.b64_encode random)) disk)
      ]

  -- The seed, and the bytes of the public key as the file has them.
  unfoldable pub identity_words : List Text → Option (Bytes × Bytes)
  identity_words (a ∷ b ∷ []) = do
    seed ← c.b64_decode a
    pubk ← c.b64_decode b
    s ← try_into 32 seed
    some (s, pubk)
  identity_words _ = none

  unfoldable pub identity_at : Disk → Text → Option (Bytes × Bytes)
  identity_at disk p = do content ← read_to_string disk p; identity_words (split_whitespace content)

  -- The secret key, the bytes of the public key, and the disk behind it.
  unfoldable pub load_or_create_identity : Bytes → Disk → Bytes × Bytes × Disk
  load_or_create_identity random disk =
      let paths = key_paths os (codes "MESH_IDENTITY_FILE") (codes "identity.key") in
      elim (first_some (identity_at disk) paths) [
        | some (s, pubk) ↦ (s, pubk, disk)
        | none ↦ (
          random,
          c.public_key random,
          write_last os paths (as_bytes (identity_text os c random)) disk,
        )
      ]

  unfoldable pub load_tofu : Disk → Dict
  load_tofu disk =
      elim (first_some (λ p. read_to_string disk p >>= c.json_parse)
        (candidate_paths (codes "tofu.json"))) [ none ↦ [] | some m ↦ m ]

  unfoldable pub save_tofu : Dict → Disk → Disk
  save_tofu tofu disk = elim (c.json_print tofu) [
    | none ↦ disk
    | some json ↦ (write_file_secure os (codes "tofu.json") (as_bytes json) disk).1
  ]

-- `Path::is_absolute` of Unix.
unfoldable pub is_absolute : Text → Bool
is_absolute p = starts_with (codes "/") p

unfoldable pub save_received_file : Os → Text → Bytes → Disk → Bool × Disk
unfolding is_absolute
save_received_file os base raw disk = elim os.current_dir [
  | none ↦ (false, disk)
  | some cwd ↦
      let dir = downloads cwd in
      let final_path = join dir base in
      if os.create_dir_all dir
      then if is_absolute final_path && path_starts_with final_path dir
        then write_file_secure os final_path raw disk
        else (false, disk)
      else (false, disk)
]
