-- ===== src/Examples/Frames.antt =====
-- Frames on the wire.
use e2e_console_messenger.Base.{◌≡◌, none, some, [], ◌∷◌, ◌++◌, Bytes, All, arith}
use e2e_console_messenger.Proto.{
  Incoming, closed, ok, err, invalid_data, to_be_bytes, frame_bytes, recv_frame,
}
use e2e_console_messenger.Proto.Framing.{
  IsByte, recv_frame-frame_bytes, recv_frame_too_large, recv_frame_cut,
}

abbrev pub hello : Bytes
hello = 104 ∷ 105 ∷ []

abbrev pub tail : Incoming
tail = record { bytes = 7 ∷ []; ending = closed }

abbrev pub stream : Incoming
stream = record { bytes = 1 ∷ 0 ∷ 0 ∷ 0 ∷ 2 ∷ 104 ∷ 105 ∷ 7 ∷ []; ending = closed }

pub bytes_are : All IsByte stream.bytes
bytes_are = (
  omega arith,
  (
    omega arith,
    (omega arith, (omega arith, (omega arith, (omega arith, (omega arith, (omega arith, tt)))))),
  ),
)

recv_frame-frame_bytes_example :
    recv_frame (record tail { bytes = frame_bytes 1 hello ++ tail.bytes })
    ≡ ok (some (1, hello, tail))
recv_frame-frame_bytes_example = recv_frame-frame_bytes 1 hello tail (omega arith)

recv_frame_too_large_example :
    recv_frame (record tail { bytes = 1 ∷ to_be_bytes 1048577 ++ tail.bytes }) ≡ err invalid_data
recv_frame_too_large_example = recv_frame_too_large 1 1048577 tail (omega arith) (omega arith)

recv_frame_cut_example : recv_frame tail ≡ ok none
recv_frame_cut_example = recv_frame_cut tail (omega arith)
