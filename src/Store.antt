-- ===== src/Store.antt =====
-- rust_gui/src/store.rs: the keys, the fingerprint file and received files. The disk is a map from
-- paths to contents; environment variables, the current directory and what can be written are the
-- arguments of an `Os`. A file that can be opened is written whole; permissions are not modelled.
pub mod FileName
pub mod Scan
pub mod Keys
pub mod Received
use e2e_console_messenger.Base.{
  ℕ, Bool, true, false, Option, none, some, List, [], ◌∷◌, ◌++◌, ◌==◌, ◌&&◌, ◌||◌, not, Bytes, Text,
  codes, length, retain, last, text_eq, is_empty, trim, split, contains, starts_with,
  split_whitespace, if◌then◌else◌, ◌>>=◌,
}
use e2e_console_messenger.Base.Utf8.{as_bytes, from_utf8}
use e2e_console_messenger.Base.Dict.{Dict, lookup, insert}
use e2e_console_messenger.Platform.{Platform}
use e2e_console_messenger.Crypto.{try_into}

pub record Os : Type 0 where
  pub var : Text → Option Text
  pub current_dir : Option Text
  pub can_write : Text → Bool
  pub create_dir_all : Text → Bool

-- Paths and the bytes of the files there.
abbrev pub Disk : Type 0
Disk = Dict

unfoldable pub read_to_string : Disk → Text → Option Text
read_to_string disk path = do raw ← lookup path disk; from_utf8 raw

unfoldable pub candidate_paths : Text → List Text
candidate_paths name =
    name
    ∷ (codes "../" ++ name)
    ∷ (codes "../../" ++ name)
    ∷ (codes "../../../" ++ name)
    ∷ (codes "../../../../" ++ name)
    ∷ []

-- `for p in &paths { if … { return … } }`.
unfoldable pub first_some {ℓ} : {A : Type ℓ} → (Text → Option A) → List Text → Option A
first_some f [] = none
first_some f (p ∷ ps) = let rest = first_some f ps in elim (f p) [ none ↦ rest | some a ↦ some a ]

module _ (os : Os) where
  unfoldable pub write_file_secure : Text → Bytes → Disk → Bool × Disk
  write_file_secure path raw disk =
      if os.can_write path then (true, insert path raw disk) else (false, disk)

  -- The file that the variable names, if it is set, and then the candidates.
  unfoldable pub key_paths : Text → Text → List Text
  key_paths variable name = elim (os.var variable) [
    | none ↦ candidate_paths name
    | some e ↦ e ∷ candidate_paths name
  ]

  -- `if let Some(last) = paths.last() { let _ = write_file_secure(last, …) }`.
  unfoldable pub write_last : List Text → Bytes → Disk → Disk
  unfolding write_file_secure
  write_last paths raw disk = elim (last paths) [
    | none ↦ disk
    | some p ↦ (write_file_secure p raw disk).1
  ]

  module _ (c : Platform) where
    -- What one file gives as the shared key.
    unfoldable pub shared_key_at : Disk → Text → Option Bytes
    shared_key_at disk p = do
      content ← read_to_string disk p
      key ← c.b64_decode (trim content)
      try_into 32 key

    unfoldable pub load_shared_key : Bytes → Disk → Bytes × Disk
    load_shared_key random disk =
        let paths = key_paths (codes "MESH_SHARED_KEY") (codes "secret.key") in
        elim (first_some (shared_key_at disk) paths) [
          | some k ↦ (k, disk)
          | none ↦ (random, write_last paths (as_bytes (c.b64_encode random)) disk)
        ]

    -- Two words: the seed and a decodable public key, which is not used.
    unfoldable pub identity_words : List Text → Option Bytes
    identity_words (a ∷ b ∷ []) = do seed ← c.b64_decode a; _ ← c.b64_decode b; try_into 32 seed
    identity_words _ = none

    unfoldable pub identity_at : Disk → Text → Option Bytes
    identity_at disk p = do
      content ← read_to_string disk p
      identity_words (split_whitespace content)

    -- `format!("{} {}\n", …)`.
    unfoldable pub identity_text : Bytes → Text
    identity_text seed =
        c.b64_encode seed ++ b' ' ∷ (c.b64_encode (c.public_key seed) ++ b'\n' ∷ [])

    -- The secret key, the published key in Base64, and the disk behind it.
    unfoldable pub load_or_create_identity : Bytes → Disk → Bytes × Text × Disk
    load_or_create_identity random disk =
        let paths = key_paths (codes "MESH_IDENTITY_FILE") (codes "identity.key") in
        elim (first_some (identity_at disk) paths) [
          | some seed ↦ (seed, c.b64_encode (c.public_key seed), disk)
          | none ↦ (
            random,
            c.b64_encode (c.public_key random),
            write_last paths (as_bytes (identity_text random)) disk,
          )
        ]

    unfoldable pub load_tofu : Disk → Dict
    load_tofu disk =
        elim (first_some (λ p. read_to_string disk p >>= c.json_parse)
          (candidate_paths (codes "tofu.json"))) [ none ↦ [] | some m ↦ m ]

    -- The loop over the candidates breaks at the first.
    unfoldable pub save_tofu : Dict → Disk → Disk
    unfolding write_file_secure
    save_tofu map disk = elim (c.json_print map) [
      | none ↦ disk
      | some json ↦ (write_file_secure (codes "tofu.json") (as_bytes json) disk).1
    ]

-- `Path::components` of Unix as texts: a leading "/", then the parts that are not empty or ".",
-- of which only a leading "." stays.
ordinary : Text → Bool
ordinary p = not (is_empty p) && not (text_eq p (codes "."))

parts_of : List Text → List Text
unfolding ordinary
parts_of [] = []
parts_of (p ∷ ps) =
    if is_empty p
    then codes "/" ∷ retain ordinary ps
    else if text_eq p (codes ".")
    then p ∷ retain ordinary ps
    else p ∷ retain ordinary ps

unfoldable pub components : Text → List Text
unfolding parts_of
components [] = []
components (a ∷ p) = parts_of (split b'/' (a ∷ p))

-- `Path::file_name`: the last component, if it is neither the root nor "." nor "..".
unfoldable pub file_name : Text → Option Text
unfolding components
file_name p = do
  name ← last (components p)
  if text_eq name (codes "/") || text_eq name (codes ".") || text_eq name (codes "..")
      then none
      else some name

-- `Path::join` of Unix.
unfoldable pub join : Text → Text → Text
join dir base = if starts_with (codes "/") base || is_empty dir then base else elim (last dir) [
  | none ↦ base
  | some c ↦ if c == b'/' then dir ++ base else dir ++ b'/' ∷ base
]

is_prefix : List Text → List Text → Bool
is_prefix [] _ = true
is_prefix (_ ∷ _) [] = false
is_prefix (a ∷ ps) (b ∷ qs) = let rest = is_prefix ps qs in if text_eq a b then rest else false

-- `Path::starts_with`, by components.
unfoldable pub path_starts_with : Text → Text → Bool
unfolding is_prefix
path_starts_with p dir = is_prefix (components dir) (components p)

unfoldable pub or_default : Option Text → Text
or_default none = []
or_default (some t) = t

-- The tests behind `file_name` of `safe_file_name`.
unfoldable pub refused : Text → Bool
refused name =
    is_empty name
    || text_eq name (codes ".")
    || text_eq name (codes "..")
    || contains b'/' name
    || contains b'\\' name

unfoldable pub safe_file_name : Text → Text
unfolding or_default
safe_file_name raw =
    let name = trim (or_default (file_name (trim raw))) in if refused name then [] else name

-- `downloads` in the current directory.
unfoldable pub downloads : Text → Text
downloads cwd = join cwd (codes "downloads")

unfoldable pub save_received_file : Os → Text → Bytes → Disk → Bool × Disk
save_received_file os base raw disk = elim os.current_dir [
  | none ↦ (false, disk)
  | some cwd ↦
      let dir = downloads cwd in
      let final_path = join dir base in
      if os.create_dir_all dir
      then (if path_starts_with final_path dir
          then write_file_secure os final_path raw disk
          else (false, disk))
      else (false, disk)
]
