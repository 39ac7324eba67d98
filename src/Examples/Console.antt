-- ===== src/Examples/Console.antt =====
-- The console client on small inputs.
use e2e_console_messenger.Base.Utf8.{ascii-IsText}
use e2e_console_messenger.Base.{
  absent-Lacks, ◌≡◌, ◌∙◌, refl, ap, ◌>>=◌, true, Option, none, some, List, [], ◌∷◌, ◌++◌, Bytes,
  Text, codes, strip_prefix, trim, trim_end, text_eq, is_whitespace, arith,
}
use e2e_console_messenger.Base.Utf8.{as_bytes, from_utf8-as_bytes}
use e2e_console_messenger.Base.Dict.{lookup}
use e2e_console_messenger.Proto.{frame_bytes, type_message}
use e2e_console_messenger.Proto.Streams.{Read}
use e2e_console_messenger.Trust.{pins_of, Evolves}
use e2e_console_messenger.Config.{CfgFile}
use e2e_console_messenger.Store
use e2e_console_messenger.Store.{shared_key_at, write_last, Os, Disk, read_to_string, first_some}
use e2e_console_messenger.Net.State.{msg, send}
use e2e_console_messenger.Net.Reader
use e2e_console_messenger.Net.Reader.{reaction_prefix}
use e2e_console_messenger.Net.Commands.{do_priv}
use e2e_console_messenger.Console.State.{State, pprint}
use e2e_console_messenger.Console.Store.{
  candidate_paths, key_paths, identity_at, load_tofu, load_shared_key, load_or_create_identity,
}
use e2e_console_messenger.Console.Reader.{handle_message, reader_loop}
use e2e_console_messenger.Console.Main.{Action, typed, arrival, handle_line, Input, keys, main}
use e2e_console_messenger.Console.Pins.{Savable, IsSaved, load_tofu_found}
use e2e_console_messenger.Console.Pins.Session.Lines.{
  Confirmed, here, there, main-Evolves, main-IsSaved,
}
use e2e_console_messenger.Console.Delivery.{handle_line-delivered, do_priv-printed}
use e2e_console_messenger.Console.Keys.{load_shared_key_shared, load_or_create_identity_shared}
use e2e_console_messenger.Console.Loop.{console_handler, reader_loop-Ends}
use e2e_console_messenger.Examples.Toy.{toy, toy-IsLawful, pinned_map, pinned_json}
use e2e_console_messenger.Examples.Frames.{stream, bytes_are}
use e2e_console_messenger.Examples.Files.{linux, disk, random}
use e2e_console_messenger.Examples.Secrets.{nonce, greeting, sealed, encrypted_to_bob}
use e2e_console_messenger.Examples.Session.{alice, bob, both_known, st}

abbrev idle : State
idle = record {
  known = both_known;
  pending = none;
  tofu = [];
  disk = [];
  printed = [];
  out = record { sent = []; attempts = 0 };
  mail = [];
  channels = 0;
  draws = 0;
  waits = 0;
}

-- A fingerprint on the disk, keys that are made anew and cannot be written.
abbrev input : Input
input = record {
  os = record linux { can_write = λ path. text_eq path (codes "tofu.json") };
  random_key = random;
  random_seed = random;
  link = λ n. true;
  nonce = λ n. nonce;
  arrivals = λ n. [];
  name_line = codes "@alice";
}

abbrev pinned_disk : Disk
pinned_disk = (codes "tofu.json", as_bytes pinned_json) ∷ []

-- A message to bob, a line that is trusted, and a frame that is none.
abbrev acts : List Action
acts =
    typed (codes "/msg @bob hi")
    ∷ typed (codes "/trust @carol")
    ∷ arrival type_message (104 ∷ [])
    ∷ []

-- The same without trust.
abbrev quiet : List Action
quiet = typed (codes "/msg @bob hi") ∷ arrival type_message (104 ∷ []) ∷ []

main-Evolves_example :
    Evolves
      (λ n. Confirmed n acts)
      (pins_of (load_tofu input.os toy (keys toy input pinned_disk).3))
      (pins_of (main toy input pinned_disk acts).tofu)
main-Evolves_example = main-Evolves toy input pinned_disk acts

savable : Savable toy input.os
unfolding text_eq
savable = (toy-IsLawful, λ m. (_, refl), refl)

main-IsSaved_example : IsSaved toy input.os (main toy input pinned_disk acts)
main-IsSaved_example = main-IsSaved toy input pinned_disk acts savable

no_trust :
    (rest : Text) → strip_prefix (codes "/trust ") (trim (codes "/msg @bob hi")) ≡ some rest → ⊥
unfolding strip_prefix trim is_whitespace
no_trust rest e = cc

bob_unconfirmed : Confirmed (codes "@bob") quiet → ⊥
bob_unconfirmed (here (rest, e, f)) = no_trust rest e
bob_unconfirmed (there (there h)) = elim h [ ]

-- The keys cannot be written, so the disk is as it was.
disk_kept : (keys toy input pinned_disk).3 ≡ pinned_disk
unfolding lookup text_eq keys first_some candidate_paths key_paths read_to_string load_shared_key
    load_or_create_identity identity_at Store.shared_key_at Store.write_last
disk_kept = refl

-- The fingerprint on the disk is loaded.
loaded :
    lookup (codes "@bob") (load_tofu input.os toy (keys toy input pinned_disk).3)
    ≡ some (codes "0101")
unfolding lookup text_eq read_to_string
loaded =
    let (v, parsed) = toy-IsLawful.json_print-parse pinned_map pinned_json refl in
    ap (λ d. lookup (codes "@bob") (load_tofu input.os toy d)) disk_kept
    ∙ ap (lookup (codes "@bob")) (
        load_tofu_found toy input.os (λ n. Unit) pinned_map pinned_disk
          (ap (λ o. o >>= toy.json_parse) (from_utf8-as_bytes pinned_json v) ∙ parsed))

handle_line-delivered_example :
    (payload : Bytes) × ((handle_line toy alice (codes " /msg @bob hi\n") idle).out.sent
      ≡ idle.out.sent ++ frame_bytes type_message payload ∷ [])
    × (Reader.handle_message toy bob payload st
        ≡ send (msg alice.username (trim_end greeting) none) st)
unfolding lookup strip_prefix trim trim_end reaction_prefix text_eq is_whitespace
handle_line-delivered_example =
    handle_line-delivered toy toy-IsLawful alice bob (codes " /msg @bob hi\n") greeting sealed idle
      st refl refl refl refl (ascii-IsText greeting refl) (ascii-IsText alice.username refl)
      (absent-Lacks 0 alice.username refl) (absent-Lacks 0 bob.username refl)
      (absent-Lacks b' ' bob.username refl) refl refl refl encrypted_to_bob refl refl

do_priv-printed_example :
    (payload : Bytes) × ((do_priv toy alice bob.username greeting st).out.sent
      ≡ st.out.sent ++ frame_bytes type_message payload ∷ [])
    × (handle_message toy bob payload idle
        ≡ pprint (codes "[" ++ (alice.username ++ (codes "]: " ++ trim_end greeting))) idle)
unfolding lookup text_eq
do_priv-printed_example =
    do_priv-printed toy toy-IsLawful alice bob greeting sealed st idle refl refl refl
      (ascii-IsText greeting refl) (ascii-IsText alice.username refl)
      (absent-Lacks 0 alice.username refl) (absent-Lacks 0 bob.username refl) refl encrypted_to_bob
      refl

-- The client with the window is started in a directory beside that of the console client.
abbrev beside : Os
beside = record linux { current_dir = some (codes "/home/a/gui") }

abbrev own : Disk → Disk
own d = (codes "notes.txt", []) ∷ d

load_shared_key_shared_example :
    Store.load_shared_key beside toy [] (own (load_shared_key linux toy random disk).1)
    ≡ ((load_shared_key linux toy random disk).0, own (load_shared_key linux toy random disk).1)
unfolding shared_key_at read_to_string lookup text_eq load_shared_key first_some key_paths
    candidate_paths write_last e2e_console_messenger.Base.Dict.insert
load_shared_key_shared_example =
    load_shared_key_shared toy toy-IsLawful linux disk random [] beside
      (own (load_shared_key linux toy random disk).1) refl refl refl refl refl refl refl

load_or_create_identity_shared_example :
    Store.load_or_create_identity beside toy []
      (own (load_or_create_identity linux toy random disk).2)
    ≡ (
      (load_or_create_identity linux toy random disk).0,
      toy.b64_encode (toy.public_key (load_or_create_identity linux toy random disk).0),
      own (load_or_create_identity linux toy random disk).2,
    )
unfolding identity_at read_to_string lookup text_eq load_or_create_identity first_some key_paths
    candidate_paths write_last e2e_console_messenger.Store.identity_at
    e2e_console_messenger.Base.Dict.insert
load_or_create_identity_shared_example =
    load_or_create_identity_shared toy toy-IsLawful linux disk random [] beside
      (own (load_or_create_identity linux toy random disk).2) refl refl refl refl refl refl refl

-- A file that names the host and an empty port.
abbrev configuration : Text → Option CfgFile
configuration t =
    some (record { server = some (record { host = some (codes "mesh.example"); port = some 0 }) })

reader_loop-Ends_example :
    Read (console_handler toy alice) stream idle (reader_loop toy alice 9 stream idle)
reader_loop-Ends_example = reader_loop-Ends toy alice 9 stream idle bytes_are (omega arith)
