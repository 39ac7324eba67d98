-- ===== src/Net/Reader/Message.antt =====
-- `handle_message` of net.rs: which messages it shows.
use e2e_console_messenger.Base.{
  ◌≡◌, ◌∙◌, refl, ap, Option, some, List, [], ◌∷◌, ◌++◌, ℕ, Bytes, Text, All, ◌⊎◌, take, drop,
  split, trim_end, strip_prefix, split_once, inl, inr, Option-cases, ◌==◌, ==_iff, arith,
  Bool-cases,
}
use mathlib.Core.Path.{subst}
use e2e_console_messenger.Base.Utf8.{as_bytes, from_utf8, from_utf8_lossy}
use e2e_console_messenger.Base.Dict.{Dict, lookup}
use e2e_console_messenger.Platform.{Platform, IsLawful}
use e2e_console_messenger.Crypto.{derive_key, decrypt_from_peer}
use e2e_console_messenger.Crypto.RoundTrip.{decrypt_from_peer_sealed}
use e2e_console_messenger.Net.State.{Ev, msg, file_msg, reacted, Session, NetState}
use e2e_console_messenger.Net.Reader.{
  send_all, room_of, reaction_prefix, text_events, message_events, message_parts, handle_message,
}

pub strip_prefix_sound : (p s rest : Text) → strip_prefix p s ≡ some rest → s ≡ p ++ rest
unfolding strip_prefix
strip_prefix_sound [] s rest h = ground arith
strip_prefix_sound (a ∷ p) [] rest h = cc
strip_prefix_sound (a ∷ p) (b ∷ s) rest h = ground (arith, strip_prefix_sound p s rest)

split_once_sound : (sep : ℕ) (s a b : Text) → split_once sep s ≡ some (a, b) → s ≡ a ++ sep ∷ b
unfolding split_once
split_once_sound sep [] a b h = cc
split_once_sound sep (x ∷ s) a b h = elim (Bool-cases (x == sep)) [
  | inl e ↦ let k = rw e at h in ground (arith, ==_iff x sep)
  | inr e ↦ elim (Option-cases (split_once sep s)) [
    | inl k ↦ let h' = rw (e, k) at h in cc
    | inr ((l, r), k) ↦
        let h' = rw (e, k) at h in let ih = split_once_sound sep s l r k in ground (arith, ih)
  ]
]

module _ (c : Platform) (s : Session) where
  -- The ciphertext holds a text that was sealed, in the sender's name, under the key that the user
  -- shares with the holder of the public key known for the sender; it is shown trimmed.
  abbrev pub Sealed : Dict → Text → Text → Text → Type 0
  Sealed known sender ct text =
      (pubk : Text) × (peer packed pt : Bytes) × (plain : Text) × (lookup sender known ≡ some pubk)
      × (c.b64_decode pubk ≡ some peer)
      × (c.b64_decode ct ≡ some packed)
      × (c.aes_encrypt (derive_key c s.our peer) (take 12 packed) (as_bytes pubk) pt
          ≡ some (drop 12 packed))
      × (from_utf8 pt ≡ some plain)
      × (text ≡ trim_end plain)

  -- What a shown message or reaction must rest on.
  abbrev pub Authentic : Dict → Text → Text → Ev → Type 0
  Authentic known sender ct (msg from text room) = (from ≡ sender) × Sealed known sender ct text
  Authentic known sender ct (reacted emoji target room) =
      Sealed known sender ct (reaction_prefix ++ (emoji ++ b':' ∷ target))
  Authentic known sender ct (file_msg from name room) = ⊥
  Authentic known sender ct ev = Unit

  text_events-Authentic :
      (known : Dict) (sender ct text : Text) (room : Option Text)
      → Sealed known sender ct text
      → All (Authentic known sender ct) (text_events sender text room)
  unfolding text_events strip_prefix
  text_events-Authentic known sender ct text room h =
      elim (Option-cases (strip_prefix reaction_prefix text)) [
        | inl e ↦ rw e ((refl, h), tt)
        | inr (rest, e) ↦ elim (Option-cases (split_once b':' rest)) [
          | inl k ↦ rw (e, k) tt
          | inr ((emoji, target), k) ↦
              rw (e, k)
                (
                  subst (Sealed known sender ct)
                      (strip_prefix_sound reaction_prefix text rest e
                        ∙ ap (λ t. reaction_prefix ++ t)
                            (split_once_sound b':' rest emoji target k))
                      h,
                  tt,
                )
        ]
      ]

  pub message_events-Authentic :
      (laws : IsLawful c) (known : Dict) (sender ct : Text) (room : Option Text)
      → All (Authentic known sender ct) (message_events c s known sender ct room)
  unfolding message_events
  message_events-Authentic laws known sender ct room = elim (Option-cases (lookup sender known)) [
    | inl e ↦ rw (e, message_events) (tt, tt)
    | inr (pubk, e) ↦ elim (Option-cases (decrypt_from_peer c ct pubk s.our)) [
      | inl k ↦ rw (e, message_events, k) (tt, tt)
      | inr (plain, k) ↦
          let (peer, packed, pt, a, b, _, sealed, utf8) =
            decrypt_from_peer_sealed c laws ct pubk plain s.our k in
          rw (e, message_events, k)
            (text_events-Authentic known sender ct (trim_end plain) room
              (pubk, peer, packed, pt, plain, e, a, b, sealed, utf8, refl))
    ]
  ]

  -- `handle_message` changes nothing but the events, and shows nothing in a sender's name but what
  -- was sealed so: either the payload has fewer than three fields and nothing happens, or every
  -- message and reaction that it adds is authentic for the payload's first and third field.
  pub handle_message-Authentic :
      (laws : IsLawful c) (payload : Bytes) (st : NetState)
      → (handle_message c s payload st ≡ st)
        ⊎ ((from to ct : Bytes) × (more : List Bytes) × (evs : List Ev) × (split 0 payload
              ≡ from ∷ to ∷ ct ∷ more)
            × (handle_message c s payload st ≡ send_all evs st)
            × All (Authentic st.known (from_utf8_lossy from) (from_utf8_lossy ct)) evs)
  unfolding handle_message message_parts
  handle_message-Authentic laws payload st = go (split 0 payload) refl
    where
      go :
          (parts : List Bytes)
          → split 0 payload ≡ parts
          → (message_parts c s parts st ≡ st)
            ⊎ ((from to ct : Bytes) × (more : List Bytes) × (evs : List Ev) × (parts
                  ≡ from ∷ to ∷ ct ∷ more)
                × (message_parts c s parts st ≡ send_all evs st)
                × All (Authentic st.known (from_utf8_lossy from) (from_utf8_lossy ct)) evs)
      go [] e = inl refl
      go (_ ∷ []) e = inl refl
      go (_ ∷ _ ∷ []) e = inl refl
      go (from ∷ to ∷ ct ∷ more) e = inr (
        from,
        to,
        ct,
        more,
        message_events c s st.known (from_utf8_lossy from) (from_utf8_lossy ct) (room_of more),
        refl,
        refl,
        message_events-Authentic laws st.known (from_utf8_lossy from) (from_utf8_lossy ct)
            (room_of more),
      )
