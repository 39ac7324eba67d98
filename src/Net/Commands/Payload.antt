-- ===== src/Net/Commands/Payload.antt =====
-- The payloads of net.rs between zero bytes: which fields a receiver reads.
use e2e_console_messenger.Base.{
  ◌≡◌, refl, [], ◌∷◌, ◌++◌, Text, Lacks, All, split, split-append, split-Lacks, arith,
}
use e2e_console_messenger.Base.Utf8.{as_bytes, as_bytes-append, as_bytes-Lacks}
use e2e_console_messenger.Platform.{IsPrintable}
use e2e_console_messenger.Net.Commands.{message_payload, room_payload, file_payload}

pub printable-Lacks : (s : Text) → All IsPrintable s → Lacks 0 s
printable-Lacks [] h = tt
printable-Lacks (ch ∷ s) h = (omega arith, printable-Lacks s h.1)

as_bytes_nul : (s : Text) → as_bytes (0 ∷ s) ≡ 0 ∷ as_bytes s
unfolding as_bytes
as_bytes_nul s = refl

-- One field in front of the others.
split-field :
    (field rest : Text)
    → Lacks 0 field
    → split 0 (as_bytes (field ++ 0 ∷ rest)) ≡ as_bytes field ∷ split 0 (as_bytes rest)
split-field field rest h = rw (
  as_bytes-append field (0 ∷ rest),
  as_bytes_nul rest,
  split-append 0 (as_bytes field) (as_bytes rest) (as_bytes-Lacks 0 field (omega arith) h),
)

-- The last field.
split-field_last : (field : Text) → Lacks 0 field → split 0 (as_bytes field) ≡ as_bytes field ∷ []
split-field_last field h = split-Lacks 0 (as_bytes field) (as_bytes-Lacks 0 field (omega arith) h)

pub split-message_payload :
    (from to ct : Text)
    → Lacks 0 from
    → Lacks 0 to
    → Lacks 0 ct
    → split 0 (as_bytes (message_payload from to ct))
      ≡ as_bytes from ∷ as_bytes to ∷ as_bytes ct ∷ []
unfolding message_payload
split-message_payload from to ct hf ht hc =
    rw (split-field from _ hf, split-field to _ ht, split-field_last ct hc)

pub split-room_payload :
    (from room_name to ct : Text)
    → Lacks 0 from
    → Lacks 0 room_name
    → Lacks 0 to
    → Lacks 0 ct
    → split 0 (as_bytes (room_payload from room_name to ct))
      ≡ as_bytes from ∷ as_bytes to ∷ as_bytes ct ∷ as_bytes room_name ∷ []
unfolding room_payload
split-room_payload from room_name to ct hf hr ht hc =
    rw (
      split-field from _ hf,
      split-field to _ ht,
      split-field ct _ hc,
      split-field_last room_name hr,
    )

pub split-file_payload :
    (from fname to ct : Text)
    → Lacks 0 from
    → Lacks 0 fname
    → Lacks 0 to
    → Lacks 0 ct
    → split 0 (as_bytes (file_payload from fname to ct))
      ≡ as_bytes from ∷ as_bytes to ∷ as_bytes fname ∷ as_bytes ct ∷ []
unfolding file_payload
split-file_payload from fname to ct hf hn ht hc =
    rw (split-field from _ hf, split-field to _ ht, split-field fname _ hn, split-field_last ct hc)
