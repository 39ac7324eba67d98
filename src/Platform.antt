-- ===== src/Platform.antt =====
-- What the clients call and do not implement: the crates base64, sha2, x25519-dalek, aes-gcm and
-- serde_json. A `Platform` holds the functions, `IsLawful` what the code relies on of their
-- documented behaviour. Fixed-size arrays `[u8; n]` are lists with their length.
use e2e_console_messenger.Base.{ℕ, ◌+◌, ◌<◌, ◌≡◌, ◌↔◌, Option, some, [], Bytes, Text, All, length}
use e2e_console_messenger.Base.Utf8.{IsText}
use e2e_console_messenger.Base.Dict.{Dict}

abbrev pub IsPrintable : ℕ → Type 0
IsPrintable c = (32 < c) × (c < 127)

pub record Platform : Type 0 where
  -- base64, STANDARD
  pub b64_encode : Bytes → Text
  pub b64_decode : Text → Option Bytes
  -- `Sha256::digest`, or `update` and `finalize`
  pub sha256 : Bytes → Bytes
  -- `StaticSecret::diffie_hellman` and `PublicKey::from(&secret)`
  pub diffie_hellman : Bytes → Bytes → Bytes
  pub public_key : Bytes → Bytes
  -- `Aes256Gcm::encrypt` and `decrypt`: key, nonce, associated data, message
  pub aes_encrypt : Bytes → Bytes → Bytes → Bytes → Option Bytes
  pub aes_decrypt : Bytes → Bytes → Bytes → Bytes → Option Bytes
  -- `serde_json::from_str` and `to_string_pretty` at a map from strings to strings
  pub json_parse : Text → Option Dict
  pub json_print : Dict → Option Text

module _ (c : Platform) where
  pub record IsLawful : Type 0 where
    pub b64_decode-encode : (s : Bytes) → c.b64_decode (c.b64_encode s) ≡ some s
    pub b64_decode-nil : c.b64_decode [] ≡ some []
    -- Base64 is printable ASCII.
    pub b64_encode-IsPrintable : (s : Bytes) → All IsPrintable (c.b64_encode s)
    -- A digest is 32 bytes, and so is a shared secret and a public key.
    pub length-sha256 : (s : Bytes) → length (c.sha256 s) ≡ 32
    pub sha256-bytes : (s : Bytes) → All (λ b. b < 256) (c.sha256 s)
    pub length-public_key : (k : Bytes) → length (c.public_key k) ≡ 32
    -- The two sides of X25519 agree.
    pub diffie_hellman_comm :
        (a b : Bytes) → c.diffie_hellman a (c.public_key b) ≡ c.diffie_hellman b (c.public_key a)
    -- GCM is deterministic and its tag is checked: what opens is what sealing gives.
    pub aes_decrypt_iff :
        (k n a m ct : Bytes) → (c.aes_decrypt k n a ct ≡ some m) ↔ (c.aes_encrypt k n a m ≡ some ct)
    -- What was printed as JSON is text, and is parsed back.
    pub json_print-parse :
        (m : Dict) (t : Text) → c.json_print m ≡ some t → IsText t × (c.json_parse t ≡ some m)
    -- The ciphertext carries a tag of 16 bytes.
    pub length-aes_encrypt :
        (k n a m ct : Bytes) → c.aes_encrypt k n a m ≡ some ct → length ct ≡ length m + 16
