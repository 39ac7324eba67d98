-- ===== src/Base/Dict.antt =====
-- `HashMap<String, V>` as an association list. The order of entries is not read by the code that is
-- modelled, apart from listings, whose order Rust leaves open.
use mathlib.Core.Path.{◌≡◌, refl}
use mathlib.Core.Option.{Option, none, some}
use mathlib.Core.Bool.{true}
use mathlib.Core.List.{List, [], ◌∷◌}
use native.Mathlib.Omega.{arith}
use e2e_console_messenger.Base.Tests.{if◌then◌else◌}
use e2e_console_messenger.Base.Strings.{Text, text_eq, text_eq_iff}

abbrev pub Dict : Type 0
Dict = List (Text × Text)

-- `get`.
unfoldable pub lookup : Text → Dict → Option Text
lookup k [] = none
lookup k ((j, v) ∷ m) = let rest = lookup k m in if text_eq j k then some v else rest

-- `insert`: a key keeps one entry.
unfoldable pub insert : Text → Text → Dict → Dict
insert k v [] = (k, v) ∷ []
insert k v ((j, w) ∷ m) =
    let rest = insert k v m in if text_eq j k then (j, v) ∷ m else (j, w) ∷ rest

pub lookup-insert :
    (k j v : Text) (m : Dict)
    → lookup j (insert k v m) ≡ (if text_eq k j then some v else lookup j m)
unfolding lookup insert
lookup-insert k j v [] = refl
lookup-insert k j v ((i, w) ∷ m) =
    ground (arith, text_eq_iff k j, text_eq_iff i k, text_eq_iff i j, lookup-insert k j v m)

pub text_eq_refl : (s : Text) → text_eq s s ≡ true
text_eq_refl s = (text_eq_iff s s).1 refl

pub lookup-insert_self : (k v : Text) (m : Dict) → lookup k (insert k v m) ≡ some v
lookup-insert_self k v m = rw (lookup-insert, text_eq_refl k)
