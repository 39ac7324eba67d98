-- ===== src/Proto/Framing.antt =====
-- proto.rs: frames written and read back.
use e2e_console_messenger.Base.{
  ℕ, ◌%◌, ◌^◌, ◌≤◌, ◌<◌, ◌≡◌, refl, append_assoc, Option, none, some, [], ◌∷◌, ◌++◌, Bytes, ltb,
  All, sym, ◌∙◌, length-take, take-append-drop, lt→ltb, le→ltb, length, length-append, take-append,
  drop-append, if◌then◌else◌, arith,
}
use mathlib.Core.Path.{subst}
use e2e_console_messenger.Proto.{
  unexpected_eof, other, closed, broken, ending_error, max_frame, IoResult, ok, err, invalid_data,
  Incoming, to_be_bytes, from_be_bytes, frame_bytes, read_exact, recv_payload, recv_frame,
}

from_be_bytes-to_be_bytes : (n : ℕ) → n < 2 ^ 32 → from_be_bytes (to_be_bytes n) ≡ n
unfolding from_be_bytes to_be_bytes
from_be_bytes-to_be_bytes n h = omega arith

read_exact-append :
    (xs : Bytes) (s : Incoming) (n : ℕ)
    → length xs ≡ n
    → read_exact n (record s { bytes = xs ++ s.bytes }) ≡ ok (xs, s)
unfolding read_exact
read_exact-append xs s n h = rw (
  le→ltb (length (xs ++ s.bytes)) n (omega (arith, length-append xs s.bytes)),
  take-append n xs s.bytes h,
  drop-append n xs s.bytes h,
)

-- The header comes off first, whatever the length field says.
recv_frame_header :
    (ftype size : ℕ) (s : Incoming)
    → recv_frame (record s { bytes = ftype ∷ to_be_bytes size ++ s.bytes })
      ≡ recv_payload (ftype ∷ to_be_bytes size) s
unfolding recv_frame
recv_frame_header ftype size s =
    rw (read_exact-append (ftype ∷ to_be_bytes size) s 5 (unfold to_be_bytes in refl), recv_frame)

recv_payload_step :
    (ftype len : ℕ) (s : Incoming)
    → len < 2 ^ 32
    → recv_payload (ftype ∷ to_be_bytes len) s ≡ (
        if ltb max_frame len then err invalid_data else elim (read_exact len s) [
          | err e ↦ err e
          | ok (payload, rest) ↦ ok (some (ftype, payload, rest))
        ])
unfolding recv_payload
recv_payload_step ftype len s h = rw (from_be_bytes-to_be_bytes len h, recv_payload)

-- A frame of at most `max_frame` bytes of payload is received as it was sent, and the bytes behind
-- it stay in the stream.
pub recv_frame-frame_bytes :
    (ftype : ℕ) (payload : Bytes) (s : Incoming)
    → length payload ≤ max_frame
    → recv_frame (record s { bytes = frame_bytes ftype payload ++ s.bytes })
      ≡ ok (some (ftype, payload, s))
unfolding frame_bytes
recv_frame-frame_bytes ftype payload s h =
    let n = length payload in
    let whole : n % 2 ^ 32 ≡ n = omega arith in
    let rest : Incoming = record s { bytes = payload ++ s.bytes } in
    rw (
      whole,
      append_assoc (to_be_bytes n) payload s.bytes,
      recv_frame_header ftype n rest,
      recv_payload_step ftype n rest (omega arith),
      le→ltb max_frame n h,
      read_exact-append payload s n refl,
    )

-- A length field above `max_frame` is refused before any payload is read.
pub recv_frame_too_large :
    (ftype len : ℕ) (s : Incoming)
    → max_frame < len
    → len < 2 ^ 32
    → recv_frame (record s { bytes = ftype ∷ to_be_bytes len ++ s.bytes }) ≡ err invalid_data
recv_frame_too_large ftype len s h k =
    rw (recv_frame_header ftype len s, recv_payload_step ftype len s k, lt→ltb max_frame len h)

read_exact_sound :
    (n : ℕ) (s rest : Incoming) (p : Bytes)
    → read_exact n s ≡ ok (p, rest)
    → (length p ≡ n) × (s.bytes ≡ p ++ rest.bytes)
unfolding read_exact
read_exact_sound n s rest p h = ground (arith, length-take n s.bytes, take-append-drop n s.bytes)

abbrev pub IsByte : ℕ → Type 0
IsByte b = b < 256

to_be_bytes-from_be_bytes :
    (a b c d : ℕ)
    → IsByte a
    → IsByte b
    → IsByte c
    → IsByte d
    → to_be_bytes (from_be_bytes (a ∷ b ∷ c ∷ d ∷ [])) ≡ a ∷ b ∷ c ∷ d ∷ []
unfolding to_be_bytes from_be_bytes
to_be_bytes-from_be_bytes a b c d ha hb hc hd = ground arith

recv_payload_sound :
    (ftype a b c d t : ℕ) (s rest : Incoming) (p : Bytes)
    → All IsByte (a ∷ b ∷ c ∷ d ∷ [])
    → recv_payload (ftype ∷ a ∷ b ∷ c ∷ d ∷ []) s ≡ ok (some (t, p, rest))
    → (length p ≤ max_frame) × (ftype ∷ a ∷ b ∷ c ∷ d ∷ s.bytes ≡ frame_bytes t p ++ rest.bytes)
unfolding recv_payload frame_bytes
recv_payload_sound ftype a b c d t s rest p v h =
    let len = from_be_bytes (a ∷ b ∷ c ∷ d ∷ []) in
    ground (
      arith,
      read_exact_sound len s rest p,
      to_be_bytes-from_be_bytes a b c d v.0 v.1.0 v.1.1.0 v.1.1.1.0,
    )

recv_header_sound :
    (header : Bytes) (s rest : Incoming) (t : ℕ) (p : Bytes)
    → length header ≡ 5
    → All IsByte (header ++ s.bytes)
    → recv_payload header s ≡ ok (some (t, p, rest))
    → (length p ≤ max_frame) × (header ++ s.bytes ≡ frame_bytes t p ++ rest.bytes)
recv_header_sound (ftype ∷ a ∷ b ∷ c ∷ d ∷ []) s rest t p n v h =
    recv_payload_sound ftype a b c d t s rest p (v.1.0, (v.1.1.0, (v.1.1.1.0, (v.1.1.1.1.0, tt)))) h
recv_header_sound [] s rest t p n v h = absurd (omega arith)
recv_header_sound (_ ∷ []) s rest t p n v h = absurd (omega arith)
recv_header_sound (_ ∷ _ ∷ []) s rest t p n v h = absurd (omega arith)
recv_header_sound (_ ∷ _ ∷ _ ∷ []) s rest t p n v h = absurd (omega arith)
recv_header_sound (_ ∷ _ ∷ _ ∷ _ ∷ []) s rest t p n v h = absurd (omega arith)
recv_header_sound (_ ∷ _ ∷ _ ∷ _ ∷ _ ∷ _ ∷ _) s rest t p n v h = absurd (omega arith)

-- What follows the reading of the header.
recv_behind : IoResult (Bytes × Incoming) → IoResult (Option (ℕ × Bytes × Incoming))
recv_behind (err unexpected_eof) = ok none
recv_behind (err invalid_data) = err invalid_data
recv_behind (err other) = err other
recv_behind (ok (header, rest)) = recv_payload header rest

recv_frame_behind : (s : Incoming) → recv_frame s ≡ recv_behind (read_exact 5 s)
unfolding recv_frame recv_behind
recv_frame_behind s = ground arith

-- Whatever arrives: a frame that is returned is what `send_frame` writes for its type and payload,
-- its payload is within the limit, and the rest is exactly what stands behind it.
pub recv_frame_sound :
    (s rest : Incoming) (t : ℕ) (p : Bytes)
    → All IsByte s.bytes
    → recv_frame s ≡ ok (some (t, p, rest))
    → (length p ≤ max_frame) × (s.bytes ≡ frame_bytes t p ++ rest.bytes)
recv_frame_sound s rest t p v h = go (read_exact 5 s) refl (sym (recv_frame_behind s) ∙ h)
  where
    go :
        (r : IoResult (Bytes × Incoming))
        → read_exact 5 s ≡ r
        → recv_behind r ≡ ok (some (t, p, rest))
        → (length p ≤ max_frame) × (s.bytes ≡ frame_bytes t p ++ rest.bytes)
    go (err unexpected_eof) e k = unfold recv_behind in cc
    go (err invalid_data) e k = unfold recv_behind in cc
    go (err other) e k = unfold recv_behind in cc
    go (ok (header, body)) e k =
        let (n, b) = read_exact_sound 5 s body header e in
        let (fits, whole) =
          recv_header_sound header body rest t p n (subst (All IsByte) b v)
            (unfold recv_behind in k) in
        (fits, b ∙ whole)

-- The stream ends inside a frame: at the header a close is reported as `none`, and inside the
-- payload as an error; nothing is returned in part.
pub recv_frame_cut :
    (s : Incoming)
    → length s.bytes < 5
    → recv_frame s ≡ (elim s.ending [ closed ↦ ok none | broken ↦ err other ])
unfolding recv_frame read_exact ending_error
recv_frame_cut s h = ground arith

pub recv_payload_cut :
    (ftype len : ℕ) (s : Incoming)
    → len ≤ max_frame
    → length s.bytes < len
    → recv_frame (record s { bytes = ftype ∷ to_be_bytes len ++ s.bytes })
      ≡ err (ending_error s.ending)
unfolding read_exact ending_error
recv_payload_cut ftype len s h k = rw (
  recv_frame_header ftype len s,
  recv_payload_step ftype len s (omega arith),
  le→ltb max_frame len h,
  read_exact,
  lt→ltb (length s.bytes) len k,
)
