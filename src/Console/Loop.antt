-- ===== src/Console/Loop.antt =====
-- `reader_loop` of the console client: its end and its frames.
use e2e_console_messenger.Base.{
  ℕ, suc, ◌<◌, ◌≡◌, refl, Option, none, some, List, [], ◌∷◌, Bytes, All, length,
}
use e2e_console_messenger.Platform.{Platform}
use e2e_console_messenger.Proto.{Incoming, IoResult, ok, err, recv_frame}
use e2e_console_messenger.Proto.Framing.{IsByte}
use e2e_console_messenger.Proto.Streams.{Handler, Read, continue, loop-Read}
use e2e_console_messenger.Net.State.{Session}
use e2e_console_messenger.Console.State.{State}
use e2e_console_messenger.Console.Reader.{handle_frame, handle_frames, reader_loop}

module _ (c : Platform) (s : Session) where
  pub handle_frames-nil : (st : State) → handle_frames c s [] st ≡ st
  unfolding handle_frames
  handle_frames-nil st = refl

  pub handle_frames-cons :
      (ftype : ℕ) (payload : Bytes) (frames : List (ℕ × Bytes)) (st : State)
      → handle_frames c s ((ftype, payload) ∷ frames) st
        ≡ handle_frames c s frames (handle_frame c s ftype payload st)
  unfolding handle_frames
  handle_frames-cons ftype payload frames st = refl

  -- Nothing happens at the loop's end.
  abbrev pub console_handler : Handler State
  console_handler = record {
    handle = handle_frame c s;
    handle_all = handle_frames c s;
    finish = λ st. st;
    handle_all-nil = handle_frames-nil;
    handle_all-cons = handle_frames-cons;
  }

  reader_loop_step :
      (fuel : ℕ) (stream : Incoming) (st : State)
      → reader_loop c s (suc fuel) stream st
        ≡ continue console_handler (reader_loop c s) fuel st (recv_frame stream)
  unfolding reader_loop
  reader_loop_step fuel stream st = go (recv_frame stream) refl
    where
      go :
          (r : IoResult (Option (ℕ × Bytes × Incoming)))
          → recv_frame stream ≡ r
          → reader_loop c s (suc fuel) stream st
            ≡ continue console_handler (reader_loop c s) fuel st r
      go (err e) k = rw (k, reader_loop) refl
      go (ok none) k = rw (k, reader_loop) refl
      go (ok (some (ftype, payload, rest))) k = rw (k, reader_loop) refl

  -- The same for the console client: with fuel for more rounds than the stream has bytes, its loop
  -- ends, having handled a sequence of frames, each within the limit, whose bytes the stream begins
  -- with, in their order, and the bytes behind them are not read as a frame.
  pub reader_loop-Ends :
      (fuel : ℕ) (stream : Incoming) (st : State)
      → All IsByte stream.bytes
      → length stream.bytes < fuel
      → Read console_handler stream st (reader_loop c s fuel stream st)
  reader_loop-Ends = loop-Read console_handler (reader_loop c s) reader_loop_step
