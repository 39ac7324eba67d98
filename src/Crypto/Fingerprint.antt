-- ===== src/Crypto/Fingerprint.antt =====
-- The fingerprint of crypto.rs: its form, and digests.
use e2e_console_messenger.Base.{
  ℕ, zero, suc, ◌+◌, ◌*◌, ◌/◌, ◌%◌, ◌<◌, ◌≡◌, ◌↔◌, refl, ap, some, [], ◌∷◌, Bytes, Text, length,
  All, arith,
}
use e2e_console_messenger.Platform.{Platform, IsLawful}
use e2e_console_messenger.Crypto.{hex_digit, to_ascii_uppercase, digest_text, fingerprint}

-- An upper-case hexadecimal digit.
upper_hex : ℕ → ℕ
unfolding hex_digit to_ascii_uppercase
upper_hex d = to_ascii_uppercase (hex_digit d)

upper_hex-injective : (a b : ℕ) → a < 16 → b < 16 → upper_hex a ≡ upper_hex b → a ≡ b
unfolding upper_hex
upper_hex-injective a b ha hb h = ground arith

module _ (c : Platform) where
  -- What follows a group: nothing, or a colon and the next groups.
  behind : Bytes → Text
  behind [] = []
  behind (x ∷ r) = b':' ∷ digest_text c (x ∷ r)

  digest_text_step :
      (a b : ℕ) (r : Bytes)
      → digest_text c (a ∷ b ∷ r)
        ≡ upper_hex (a / 16)
          ∷ upper_hex (a % 16)
          ∷ upper_hex (b / 16)
          ∷ upper_hex (b % 16)
          ∷ behind r
  unfolding digest_text upper_hex behind
  digest_text_step a b [] = refl
  digest_text_step a b (x ∷ []) = refl
  digest_text_step a b (x ∷ y ∷ r) = refl

  -- The heads and the tails of two printed pairs of bytes.
  pair_inv :
      (a b x y : ℕ) (r s : Bytes)
      → a < 256
      → b < 256
      → x < 256
      → y < 256
      → digest_text c (a ∷ b ∷ r) ≡ digest_text c (x ∷ y ∷ s)
      → (a ≡ x) × (b ≡ y) × (behind r ≡ behind s)
  pair_inv a b x y r s ha hb hx hy h = ground (
    arith,
    digest_text_step a b r,
    digest_text_step x y s,
    upper_hex-injective (a / 16) (x / 16),
    upper_hex-injective (a % 16) (x % 16),
    upper_hex-injective (b / 16) (y / 16),
    upper_hex-injective (b % 16) (y % 16),
  )

  -- Two digests of one even length that are printed alike are one.
  digest_text-injective :
      (r s : Bytes) (n : ℕ)
      → length r ≡ n * 2
      → length s ≡ n * 2
      → All (λ b. b < 256) r
      → All (λ b. b < 256) s
      → digest_text c r ≡ digest_text c s
      → r ≡ s
  digest_text-injective [] [] n k m hr hs h = refl
  digest_text-injective [] (y ∷ s) n k m hr hs h = absurd (omega arith)
  digest_text-injective (x ∷ r) [] n k m hr hs h = absurd (omega arith)
  digest_text-injective (a ∷ []) (x ∷ s) n k m hr hs h = absurd (omega arith)
  digest_text-injective (a ∷ b ∷ r) (x ∷ []) n k m hr hs h = absurd (omega arith)
  digest_text-injective (a ∷ b ∷ r) (x ∷ y ∷ s) zero k m hr hs h = absurd (omega arith)
  digest_text-injective (a ∷ b ∷ r) (x ∷ y ∷ s) (suc n) k m hr hs h =
      let (p, q, t) = pair_inv a b x y r s hr.0 hr.1.0 hs.0 hs.1.0 h in
      let e : r ≡ s =
        digest_text-injective r s n (omega arith) (omega arith) hr.1.1 hs.1.1 (behind_inv r s t) in
      cc (p, q, e)
    where
      behind_inv : (r s : Bytes) → behind r ≡ behind s → digest_text c r ≡ digest_text c s
      behind_inv [] [] t = refl
      behind_inv [] (y ∷ s) t = unfold behind in cc
      behind_inv (x ∷ r) [] t = unfold behind in cc
      behind_inv (x ∷ r) (y ∷ s) t = unfold behind in cc

  length-digest_text :
      (r : Bytes) (n : ℕ) → length r ≡ suc n * 2 → length (digest_text c r) + 1 ≡ suc n * 5
  unfolding behind
  length-digest_text [] n k = absurd (omega arith)
  length-digest_text (a ∷ []) n k = absurd (omega arith)
  length-digest_text (a ∷ b ∷ []) n k = rw (digest_text_step a b []) (omega arith)
  length-digest_text (a ∷ b ∷ x ∷ r) zero k = absurd (omega arith)
  length-digest_text (a ∷ b ∷ x ∷ r) (suc n) k =
      rw (digest_text_step a b (x ∷ r)) (omega (arith, length-digest_text (x ∷ r) n (omega arith)))

  fingerprint_of :
      (p : Text) (x : Bytes)
      → c.b64_decode p ≡ some x
      → fingerprint c p ≡ digest_text c (c.sha256 x)
  unfolding fingerprint
  fingerprint_of p x h = rw (h, fingerprint)

module _ (c : Platform) (laws : IsLawful c) where
  -- Two decodable keys have one fingerprint exactly when SHA-256 gives their bytes one digest: the
  -- printing loses nothing, and what is decoded never prints as the "?" of an undecodable key.
  pub fingerprint_iff :
      (p q : Text) (x y : Bytes)
      → c.b64_decode p ≡ some x
      → c.b64_decode q ≡ some y
      → (fingerprint c p ≡ fingerprint c q) ↔ (c.sha256 x ≡ c.sha256 y)
  fingerprint_iff p q x y hp hq =
      rw (fingerprint_of c p x hp, fingerprint_of c q y hq)
        (
          digest_text-injective c (c.sha256 x) (c.sha256 y) 16 (laws.length-sha256 x)
              (laws.length-sha256 y) (laws.sha256-bytes x) (laws.sha256-bytes y),
          ap (digest_text c),
        )

  -- A decodable key prints as 79 characters: sixteen groups of four digits and the colons between.
  pub length-fingerprint :
      (p : Text) (x : Bytes) → c.b64_decode p ≡ some x → length (fingerprint c p) ≡ 79
  length-fingerprint p x h =
      rw (fingerprint_of c p x h)
        (omega (arith, length-digest_text c (c.sha256 x) 15 (laws.length-sha256 x)))
