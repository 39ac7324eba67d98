-- ===== src/Crypto.antt =====
-- rust_gui/src/crypto.rs: X25519 and SHA-256 to a key of AES-256-GCM. A random nonce of 12 bytes is
-- an argument; `Nonce::from_slice` and `[u8; 32]::try_from` are the lengths that they check.
pub mod RoundTrip
pub mod Fingerprint
use e2e_console_messenger.Base.{
  ℕ, zero, suc, ◌+◌, ◌/◌, ◌%◌, ◌-◌, Option, none, some, List, [], ◌∷◌, ◌++◌, map, Bytes, Text,
  codes, ◌==◌, ltb, leb, ◌&&◌, length, take, drop, if◌then◌else◌, ◌>>=◌,
}
use e2e_console_messenger.Base.Utf8.{as_bytes, from_utf8}
use e2e_console_messenger.Platform.{Platform}

-- `.try_into().ok()?` at `[u8; n]`.
unfoldable pub try_into : ℕ → Bytes → Option Bytes
try_into n s = if length s == n then some s else none

-- `format!("{:02x}", b)`, and `to_uppercase` on what it gives.
unfoldable pub hex_digit : ℕ → ℕ
hex_digit d = if ltb d 10 then b'0' + d else b'a' + (d - 10)

unfoldable pub hex : Bytes → Text
unfolding hex_digit
hex [] = []
hex (b ∷ s) = hex_digit (b / 16) ∷ hex_digit (b % 16) ∷ hex s

unfoldable pub to_ascii_uppercase : ℕ → ℕ
to_ascii_uppercase c = if leb b'a' c && leb c b'z' then c - 32 else c

-- `chunks(4)`.
unfoldable pub chunks4 : Text → List Text
chunks4 (a ∷ b ∷ c ∷ d ∷ s) = (a ∷ b ∷ c ∷ d ∷ []) ∷ chunks4 s
chunks4 [] = []
chunks4 s = s ∷ []

-- `join(":")`.
unfoldable pub join : ℕ → List Text → Text
join sep [] = []
join sep (p ∷ []) = p
join sep (p ∷ q ∷ ps) = p ++ sep ∷ join sep (q ∷ ps)

module _ (c : Platform) where
  unfoldable pub derive_key : Bytes → Bytes → Bytes
  derive_key our peer_pub = c.sha256 (c.diffie_hellman our peer_pub)

  -- `Aes256Gcm::new_from_slice` refuses a key that has not 32 bytes.
  unfoldable pub gcm_encrypt : Bytes → Bytes → Bytes → Bytes → Option Text
  gcm_encrypt nonce key plaintext aad = do
    k ← try_into 32 key
    ct ← c.aes_encrypt k nonce aad plaintext
    some (c.b64_encode (nonce ++ ct))

  unfoldable pub gcm_decrypt : Bytes → Text → Bytes → Option Text
  gcm_decrypt key encoded aad = do
    packed ← c.b64_decode encoded
    if ltb (length packed) (12 + 16) then none else do
      k ← try_into 32 key
      pt ← c.aes_decrypt k (take 12 packed) aad (drop 12 packed)
      from_utf8 pt

  unfoldable pub encrypt_to_peer : Bytes → Text → Text → Text → Bytes → Option Text
  encrypt_to_peer nonce text peer_pub_b64 self_pub_b64 our = do
    raw ← c.b64_decode peer_pub_b64
    peer_pub ← try_into 32 raw
    gcm_encrypt nonce (derive_key our peer_pub) (as_bytes text) (as_bytes self_pub_b64)

  unfoldable pub decrypt_from_peer : Text → Text → Bytes → Option Text
  decrypt_from_peer encoded sender_pub_b64 our = do
    raw ← c.b64_decode sender_pub_b64
    sender_pub ← try_into 32 raw
    gcm_decrypt (derive_key our sender_pub) encoded (as_bytes sender_pub_b64)

  -- The groups of the printed digest.
  unfoldable pub digest_text : Bytes → Text
  unfolding hex to_ascii_uppercase chunks4 join
  digest_text d = join b':' (map (map to_ascii_uppercase) (chunks4 (hex d)))

  unfoldable pub fingerprint : Text → Text
  fingerprint pub_b64 = elim (c.b64_decode pub_b64) [
    | none ↦ codes "?"
    | some raw ↦ digest_text (c.sha256 raw)
  ]
