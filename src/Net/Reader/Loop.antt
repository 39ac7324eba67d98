-- ===== src/Net/Reader/Loop.antt =====
-- `reader_loop` of net.rs: its end and its frames.
use e2e_console_messenger.Base.{
  ℕ, suc, ◌<◌, ◌≡◌, refl, Option, none, some, List, [], ◌∷◌, Bytes, All, length,
}
use e2e_console_messenger.Platform.{Platform}
use e2e_console_messenger.Proto.{Incoming, IoResult, ok, err, recv_frame}
use e2e_console_messenger.Proto.Framing.{IsByte}
use e2e_console_messenger.Proto.Streams.{Handler, Read, continue, loop-Read}
use e2e_console_messenger.Net.State.{Session, NetState}
use e2e_console_messenger.Net.Reader.{handle_frame, handle_frames, lost, reader_loop}

module _ (c : Platform) (s : Session) where
  pub handle_frames-nil : (st : NetState) → handle_frames c s [] st ≡ st
  unfolding handle_frames
  handle_frames-nil st = refl

  pub handle_frames-cons :
      (ftype : ℕ) (payload : Bytes) (frames : List (ℕ × Bytes)) (st : NetState)
      → handle_frames c s ((ftype, payload) ∷ frames) st
        ≡ handle_frames c s frames (handle_frame c s ftype payload st)
  unfolding handle_frames
  handle_frames-cons ftype payload frames st = refl

  -- The loop's end is reported.
  abbrev pub net_handler : Handler NetState
  net_handler = record {
    handle = handle_frame c s;
    handle_all = handle_frames c s;
    finish = lost c s;
    handle_all-nil = handle_frames-nil;
    handle_all-cons = handle_frames-cons;
  }

  reader_loop_step :
      (fuel : ℕ) (stream : Incoming) (st : NetState)
      → reader_loop c s (suc fuel) stream st
        ≡ continue net_handler (reader_loop c s) fuel st (recv_frame stream)
  unfolding reader_loop
  reader_loop_step fuel stream st = go (recv_frame stream) refl
    where
      go :
          (r : IoResult (Option (ℕ × Bytes × Incoming)))
          → recv_frame stream ≡ r
          → reader_loop c s (suc fuel) stream st ≡ continue net_handler (reader_loop c s) fuel st r
      go (err e) k = rw (k, reader_loop) refl
      go (ok none) k = rw (k, reader_loop) refl
      go (ok (some (ftype, payload, rest))) k = rw (k, reader_loop) refl

  -- With fuel for more rounds than the stream has bytes, the loop ends. It handled a sequence of
  -- frames, each within the limit, whose bytes the stream begins with, in their order, and the bytes
  -- behind them are not read as a frame.
  pub reader_loop-Read :
      (fuel : ℕ) (stream : Incoming) (st : NetState)
      → All IsByte stream.bytes
      → length stream.bytes < fuel
      → Read net_handler stream st (reader_loop c s fuel stream st)
  reader_loop-Read = loop-Read net_handler (reader_loop c s) reader_loop_step
