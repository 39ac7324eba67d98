-- ===== src/Proto/Streams.antt =====
-- A loop around `recv_frame` that handles one frame after the other, as both clients have it: its end
-- and its frames.
use e2e_console_messenger.Base.{
  ℕ, zero, suc, ◌+◌, ◌≤◌, ◌<◌, ◌≡◌, ◌≢◌, ◌∙◌, refl, sym, ap, Option, none, some, List, [], ◌∷◌,
  ◌++◌, Bytes, All, length, length-append, append_assoc, arith,
}
use mathlib.Core.Path.{subst}
use e2e_console_messenger.Proto.{
  Incoming, IoResult, ok, err, max_frame, to_be_bytes, frame_bytes, recv_frame,
}
use e2e_console_messenger.Proto.Framing.{IsByte, recv_frame_sound}

-- The bytes of frames, one behind the other.
abbrev pub wire : List (ℕ × Bytes) → Bytes
wire [] = []
wire ((ftype, payload) ∷ frames) = frame_bytes ftype payload ++ wire frames

abbrev pub Fits : ℕ × Bytes → Type 0
Fits frame = length frame.1 ≤ max_frame

All-suffix : (xs ys : Bytes) → All IsByte (xs ++ ys) → All IsByte ys
All-suffix [] ys h = h
All-suffix (x ∷ xs) ys h = All-suffix xs ys h.1

length-frame_bytes :
    (ftype : ℕ) (payload : Bytes) → length (frame_bytes ftype payload) ≡ 5 + length payload
unfolding frame_bytes to_be_bytes
length-frame_bytes ftype payload = omega arith

-- A state, what a frame does to it and what frames do, and what the end of the connection does.
pub record Handler (S : Type 0) : Type 0 where
  pub handle : ℕ → Bytes → S → S
  pub handle_all : List (ℕ × Bytes) → S → S
  pub finish : S → S
  pub handle_all-nil : (st : S) → handle_all [] st ≡ st
  pub handle_all-cons :
      (ftype : ℕ) (payload : Bytes) (frames : List (ℕ × Bytes)) (st : S)
      → handle_all ((ftype, payload) ∷ frames) st ≡ handle_all frames (handle ftype payload st)

-- How such a loop ends: the frames it handled, and the bytes it could not read as one more.
abbrev pub Read : {S : Type 0} → Handler S → Incoming → S → Option S → Type 0
Read h stream st result =
    (frames : List (ℕ × Bytes)) × (rest : Incoming) × (stream.bytes ≡ wire frames ++ rest.bytes)
    × All Fits frames
    × ((frame : ℕ × Bytes × Incoming) → recv_frame rest ≢ ok (some frame))
    × (result ≡ some (h.finish (h.handle_all frames st)))

module _ {S : Type 0} (h : Handler S) (loop : ℕ → Incoming → S → Option S) where
  -- What the loop does behind a call of `recv_frame`.
  abbrev pub continue : ℕ → S → IoResult (Option (ℕ × Bytes × Incoming)) → Option S
  continue fuel st (ok (some (ftype, payload, rest))) = loop fuel rest (h.handle ftype payload st)
  continue fuel st (ok none) = some (h.finish st)
  continue fuel st (err e) = some (h.finish st)

  module _
      (step : (fuel : ℕ) (stream : Incoming) (st : S)
        → loop (suc fuel) stream st ≡ continue fuel st (recv_frame stream)) where
    loop_ends :
        (stream : Incoming) (st : S) (r : IoResult (Option (ℕ × Bytes × Incoming)))
        → recv_frame stream ≡ r
        → ((frame : ℕ × Bytes × Incoming) → r ≢ ok (some frame))
        → Read h stream st (some (h.finish st))
    loop_ends stream st r e n = (
      [],
      stream,
      refl,
      tt,
      λ frame k. n frame (sym e ∙ k),
      ap (λ x. some (h.finish x)) (sym (h.handle_all-nil st)),
    )

    pub loop-Read :
        (fuel : ℕ) (stream : Incoming) (st : S)
        → All IsByte stream.bytes
        → length stream.bytes < fuel
        → Read h stream st (loop fuel stream st)
    loop-Read zero stream st v lt = absurd (omega arith)
    loop-Read (suc fuel) stream st v lt =
        rw (step fuel stream st) (go (recv_frame stream) refl (loop-Read fuel))
      where
        go :
            (r : IoResult (Option (ℕ × Bytes × Incoming)))
            → recv_frame stream ≡ r
            → ((rest : Incoming) (st' : S)
                → All IsByte rest.bytes
                → length rest.bytes < fuel
                → Read h rest st' (loop fuel rest st'))
            → Read h stream st (continue fuel st r)
        go (err e) k ih = loop_ends stream st (err e) k (λ frame x. cc)
        go (ok none) k ih = loop_ends stream st (ok none) k (λ frame x. cc)
        go (ok (some (ftype, payload, rest))) k ih =
            let (fits, e) = recv_frame_sound stream rest ftype payload v k in
            let frame = frame_bytes ftype payload in
            let st' = h.handle ftype payload st in
            let shorter = ap length e ∙ length-append frame rest.bytes in
            let (frames, left, f, all_fit, n, r) =
              ih rest st' (All-suffix frame rest.bytes (subst (All IsByte) e v))
                (omega (arith, lt, shorter, length-frame_bytes ftype payload)) in
            (
              (ftype, payload) ∷ frames,
              left,
              e ∙ ap (λ t. frame ++ t) f ∙ sym (append_assoc frame (wire frames) left.bytes),
              (fits, all_fit),
              n,
              r ∙ ap (λ x. some (h.finish x)) (sym (h.handle_all-cons ftype payload frames st)),
            )
