-- ===== src/Examples/Secrets.antt =====
-- Keys and ciphertexts of the small platform.
use e2e_console_messenger.Base.Utf8.{ascii-IsText}
use e2e_console_messenger.Base.{
  ◌≤◌, ◌≡◌, ◌↔◌, refl, some, [], ◌∷◌, ◌++◌, Bytes, Text, codes, length, take, drop,
}
use e2e_console_messenger.Base.Utf8.{as_bytes, from_utf8}
use e2e_console_messenger.Crypto.{
  try_into, derive_key, gcm_encrypt, encrypt_to_peer, decrypt_from_peer, fingerprint,
}
use e2e_console_messenger.Crypto.RoundTrip.{
  decrypt_from_peer-encrypt_to_peer, decrypt_from_peer_sealed,
}
use e2e_console_messenger.Crypto.Fingerprint.{fingerprint_iff}
use e2e_console_messenger.Examples.Toy.{toy, toy-IsLawful}

abbrev pub nonce : Bytes
nonce = 1 ∷ 2 ∷ 3 ∷ 4 ∷ 5 ∷ 6 ∷ 7 ∷ 8 ∷ 9 ∷ 10 ∷ 11 ∷ 12 ∷ []

abbrev pub greeting : Text
greeting = codes "hi"

abbrev pub alice_secret : Bytes
alice_secret = 1 ∷ []

abbrev pub bob_secret : Bytes
bob_secret = 2 ∷ []

abbrev pub alice_pub : Text
alice_pub = toy.b64_encode (toy.public_key alice_secret)

abbrev pub bob_pub : Text
bob_pub = toy.b64_encode (toy.public_key bob_secret)

abbrev key : Bytes
key = toy.sha256 []

abbrev pub sealed : Text
sealed =
    toy.b64_encode
      (nonce ++ (9 ∷ 9 ∷ 9 ∷ 9 ∷ 9 ∷ 9 ∷ 9 ∷ 9 ∷ 9 ∷ 9 ∷ 9 ∷ 9 ∷ 9 ∷ 9 ∷ 9 ∷ 9 ∷ 104 ∷ 105 ∷ []))

encrypted : gcm_encrypt toy nonce key (as_bytes greeting) [] ≡ some sealed
unfolding gcm_encrypt try_into as_bytes
encrypted = refl

pub encrypted_to_bob :
    encrypt_to_peer toy nonce greeting bob_pub alice_pub alice_secret ≡ some sealed
unfolding encrypt_to_peer gcm_encrypt try_into as_bytes derive_key
encrypted_to_bob = refl

decrypt_from_peer-encrypt_to_peer_example :
    decrypt_from_peer toy sealed alice_pub bob_secret ≡ some greeting
decrypt_from_peer-encrypt_to_peer_example =
    decrypt_from_peer-encrypt_to_peer toy toy-IsLawful nonce alice_secret bob_secret greeting sealed
      refl (ascii-IsText greeting refl) encrypted_to_bob

decrypt_from_peer_sealed_example :
    (peer packed pt : Bytes) × (toy.b64_decode alice_pub ≡ some peer)
    × (toy.b64_decode sealed ≡ some packed)
    × (28 ≤ length packed)
    × (toy.aes_encrypt (derive_key toy bob_secret peer) (take 12 packed) (as_bytes alice_pub) pt
        ≡ some (drop 12 packed))
    × (from_utf8 pt ≡ some greeting)
decrypt_from_peer_sealed_example =
    decrypt_from_peer_sealed toy toy-IsLawful sealed alice_pub greeting bob_secret opened
  where
    opened : decrypt_from_peer toy sealed alice_pub bob_secret ≡ some greeting
    opened =
        decrypt_from_peer-encrypt_to_peer toy toy-IsLawful nonce alice_secret bob_secret greeting
          sealed refl (ascii-IsText greeting refl) encrypted_to_bob

fingerprint_iff_example :
    (fingerprint toy alice_pub ≡ fingerprint toy bob_pub)
    ↔ (toy.sha256 (toy.public_key alice_secret) ≡ toy.sha256 (toy.public_key bob_secret))
fingerprint_iff_example =
    fingerprint_iff toy toy-IsLawful alice_pub bob_pub (toy.public_key alice_secret)
      (toy.public_key bob_secret) refl refl
