-- ===== src/Examples/Files.antt =====
-- Keys and received files on a small disk.
use e2e_console_messenger.Base.{
  absent-Lacks, ◌≡◌, refl, true, none, some, [], ◌∷◌, Bytes, Text, codes, text_eq, arith,
}
use e2e_console_messenger.Base.Dict.{lookup}
use e2e_console_messenger.Store.{
  Os, Disk, read_to_string, candidate_paths, first_some, key_paths, identity_at,
  load_or_create_identity,
}
use e2e_console_messenger.Store.Keys.{load_or_create_identity_again}
use e2e_console_messenger.Store.FileName.{IsPlain}
use e2e_console_messenger.Examples.Toy.{toy, toy-IsLawful}

abbrev pub linux : Os
linux = record {
  var = λ name. none;
  current_dir = some (codes "/home/a");
  can_write = λ path. true;
  create_dir_all = λ path. true;
}

abbrev pub disk : Disk
disk = (codes "/home/a/.bashrc", 35 ∷ 10 ∷ []) ∷ []

abbrev file : Text
file = codes "a.txt"

file-IsPlain : IsPlain file
file-IsPlain = record {
  not_empty = λ e. cc;
  not_dot = λ e. ground arith;
  not_dots = λ e. ground arith;
  no_slash = absent-Lacks b'/' file refl;
  no_backslash = absent-Lacks b'\\' file refl;
}

abbrev pub random : Bytes
random = toy.sha256 []

load_or_create_identity_again_example :
    load_or_create_identity linux toy [] (load_or_create_identity linux toy random disk).2
    ≡ load_or_create_identity linux toy random disk
unfolding first_some identity_at key_paths candidate_paths read_to_string lookup text_eq
load_or_create_identity_again_example =
    load_or_create_identity_again toy toy-IsLawful linux disk random [] refl refl refl
