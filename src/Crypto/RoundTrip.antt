-- ===== src/Crypto/RoundTrip.antt =====
-- Encryption and decryption of crypto.rs.
use e2e_console_messenger.Base.{
  ℕ, All, Bool, true, false, bind_inv, ltb→le, ◌≤◌, ◌≡◌, ◌∙◌, sym, ap, refl, Option, none, some,
  ◌++◌, Bytes, Text, length, take, drop, le→ltb, length-append, take-append, drop-append, ==_iff,
  if◌then◌else◌, arith, ◌>>=◌,
}
use e2e_console_messenger.Base.Utf8.{IsText, as_bytes, from_utf8, from_utf8-as_bytes}
use e2e_console_messenger.Platform.{Platform, IsLawful, IsPrintable}
use e2e_console_messenger.Crypto.{
  try_into, derive_key, gcm_encrypt, gcm_decrypt, encrypt_to_peer, decrypt_from_peer,
}

guard_inv :
    (b : Bool) (m : Option Text) {t : Text}
    → (if b then none else m) ≡ some t
    → (b ≡ false) × (m ≡ some t)
guard_inv true m h = cc
guard_inv false m h = (refl, h)

try_into_eq : (n : ℕ) (s t : Bytes) → try_into n s ≡ some t → t ≡ s
unfolding try_into
try_into_eq n s t h = ground arith

module _ (c : Platform) where
  gcm_encrypt_inv :
      (nonce key plain aad : Bytes) (ct : Text)
      → gcm_encrypt c nonce key plain aad ≡ some ct
      → (raw : Bytes) × (length key ≡ 32)
        × (c.aes_encrypt key nonce aad plain ≡ some raw)
        × (ct ≡ c.b64_encode (nonce ++ raw))
  unfolding gcm_encrypt try_into
  gcm_encrypt_inv nonce key plain aad ct h = go (c.aes_encrypt key nonce aad plain) refl
    where
      go :
          (r : Option Bytes)
          → c.aes_encrypt key nonce aad plain ≡ r
          → (raw : Bytes) × (length key ≡ 32)
            × (c.aes_encrypt key nonce aad plain ≡ some raw)
            × (ct ≡ c.b64_encode (nonce ++ raw))
      go none e = ground arith
      go (some raw) e = (raw, ground arith, e, ground arith)

  gcm_decrypt_inv :
      (key : Bytes) (enc : Text) (aad : Bytes) (text : Text)
      → gcm_decrypt c key enc aad ≡ some text
      → (packed : Bytes) × (c.b64_decode enc ≡ some packed)
        × (28 ≤ length packed)
        × (pt : Bytes) × (c.aes_decrypt key (take 12 packed) aad (drop 12 packed) ≡ some pt)
        × (from_utf8 pt ≡ some text)
  unfolding gcm_decrypt
  gcm_decrypt_inv key enc aad text h =
      let (packed, e, h1) = bind_inv (c.b64_decode enc) _ h in
      let (n, h2) = guard_inv _ _ h1 in
      let (k, e2, h3) = bind_inv (try_into 32 key) _ h2 in
      let (pt, e4, e5) = bind_inv (c.aes_decrypt k (take 12 packed) aad (drop 12 packed)) _ h3 in
      (
        packed,
        e,
        ltb→le (length packed) 28 n,
        pt,
        ap (λ x. c.aes_decrypt x (take 12 packed) aad (drop 12 packed))
              (sym (try_into_eq 32 key k e2))
            ∙ e4,
        e5,
      )

  gcm_decrypt_of :
      (nonce key raw aad : Bytes) (enc text : Text)
      → c.b64_decode enc ≡ some (nonce ++ raw)
      → length nonce ≡ 12
      → 16 ≤ length raw
      → length key ≡ 32
      → c.aes_decrypt key nonce aad raw ≡ some (as_bytes text)
      → IsText text
      → gcm_decrypt c key enc aad ≡ some text
  unfolding gcm_decrypt try_into
  gcm_decrypt_of nonce key raw aad enc text e n m k d v = rw (
    e,
    ◌>>=◌,
    le→ltb (length (nonce ++ raw)) 28 (omega (arith, length-append nonce raw)),
    (==_iff (length key) 32).1 k,
    take-append 12 nonce raw n,
    drop-append 12 nonce raw n,
    d,
    from_utf8-as_bytes text v,
  )

module _ (c : Platform) (laws : IsLawful c) where
  -- What was encrypted under a key and associated data is decrypted under the same to the text.
  pub gcm_decrypt-gcm_encrypt :
      (nonce key aad : Bytes) (text ct : Text)
      → length nonce ≡ 12
      → IsText text
      → gcm_encrypt c nonce key (as_bytes text) aad ≡ some ct
      → gcm_decrypt c key ct aad ≡ some text
  gcm_decrypt-gcm_encrypt nonce key aad text ct n v h =
      let (raw, k, e, b) = gcm_encrypt_inv c nonce key (as_bytes text) aad ct h in
      gcm_decrypt_of c nonce key raw aad ct text
        (ap c.b64_decode b ∙ laws.b64_decode-encode (nonce ++ raw)) n
        (omega (arith, laws.length-aes_encrypt key nonce aad (as_bytes text) raw e)) k
        ((laws.aes_decrypt_iff key nonce aad (as_bytes text) raw).1 e) v

  -- The key that two peers derive is the same on both sides.
  pub derive_key_comm :
      (a b : Bytes) → derive_key c a (c.public_key b) ≡ derive_key c b (c.public_key a)
  unfolding derive_key
  derive_key_comm a b = ap c.sha256 (laws.diffie_hellman_comm a b)

  -- End to end: a text that one peer encrypts to the other's published key is decrypted by the
  -- other, who knows the sender's published key, to the same text.
  pub decrypt_from_peer-encrypt_to_peer :
      (nonce a b : Bytes) (text ct : Text)
      → length nonce ≡ 12
      → IsText text
      → encrypt_to_peer c nonce text
          (c.b64_encode (c.public_key b))
          (c.b64_encode (c.public_key a))
          a
        ≡ some ct
      → decrypt_from_peer c ct (c.b64_encode (c.public_key a)) b ≡ some text
  unfolding encrypt_to_peer decrypt_from_peer try_into
  decrypt_from_peer-encrypt_to_peer nonce a b text ct n v h =
      let size =
        λ (k : Bytes). (==_iff (length (c.public_key k)) 32).1 (laws.length-public_key k) in
      let sealed = rw (laws.b64_decode-encode (c.public_key b), ◌>>=◌, size b) at h in
      rw (laws.b64_decode-encode (c.public_key a), ◌>>=◌, size a, ← derive_key_comm a b)
        (gcm_decrypt-gcm_encrypt nonce _ _ text ct n v sealed)

  -- Nothing is accepted in a sender's name but what is sealed under the key shared with that
  -- sender, with the sender's public key as associated data: whenever decryption returns a text,
  -- the message holds the ciphertext that encrypting that text so gives, behind its nonce.
  pub decrypt_from_peer_sealed :
      (enc sender_pub text : Text) (our : Bytes)
      → decrypt_from_peer c enc sender_pub our ≡ some text
      → (peer packed pt : Bytes) × (c.b64_decode sender_pub ≡ some peer)
        × (c.b64_decode enc ≡ some packed)
        × (28 ≤ length packed)
        × (c.aes_encrypt (derive_key c our peer) (take 12 packed) (as_bytes sender_pub) pt
            ≡ some (drop 12 packed))
        × (from_utf8 pt ≡ some text)
  unfolding decrypt_from_peer
  decrypt_from_peer_sealed enc sender_pub text our h =
      let (raw, e1, h1) = bind_inv (c.b64_decode sender_pub) _ h in
      let (peer, e2, h2) = bind_inv (try_into 32 raw) _ h1 in
      let (packed, e3, n, pt, e4, e5) =
        gcm_decrypt_inv c (derive_key c our peer) enc (as_bytes sender_pub) text h2 in
      (
        peer,
        packed,
        pt,
        e1 ∙ ap some (sym (try_into_eq 32 raw peer e2)),
        e3,
        n,
        (laws.aes_decrypt_iff (derive_key c our peer) (take 12 packed) (as_bytes sender_pub) pt
              (drop 12 packed)).0
            e4,
        e5,
      )

  -- What is sent is Base64.
  pub encrypt_to_peer-IsPrintable :
      (nonce : Bytes) (text peer self ct : Text) (our : Bytes)
      → encrypt_to_peer c nonce text peer self our ≡ some ct
      → All IsPrintable ct
  unfolding encrypt_to_peer
  encrypt_to_peer-IsPrintable nonce text peer self ct our h =
      let (raw, e1, h1) = bind_inv (c.b64_decode peer) _ h in
      let (pk, e2, h2) = bind_inv (try_into 32 raw) _ h1 in
      let (sealed, k, e3, b) =
        gcm_encrypt_inv c nonce (derive_key c our pk) (as_bytes text) (as_bytes self) ct h2 in
      rw b (laws.b64_encode-IsPrintable (nonce ++ sealed))
