-- ===== src/Base/Decimal.antt =====
-- `to_string` of unsigned integers: the decimal digits, the most significant first.
use Prim.Native.Nat.{ℕ, zero, suc, ◌+◌, ◌/◌, ◌%◌, ◌≤◌, ◌<◌}
use mathlib.Core.Path.{◌≡◌}
use mathlib.Core.Logic.{◌≢◌}
use mathlib.Core.List.{[], ◌∷◌, ◌++◌}
use native.Mathlib.Omega.{arith}
use e2e_console_messenger.Base.Tests.{ltb, if◌then◌else◌}
use e2e_console_messenger.Base.Lists.{length}
use e2e_console_messenger.Base.Strings.{Text}

-- On fuel; a number has fewer digits than its successor counts.
digits : ℕ → ℕ → Text
digits zero n = []
digits (suc fuel) n =
    let rest = digits fuel (n / 10) in
    if ltb n 10 then (48 + n) ∷ [] else rest ++ (48 + n % 10) ∷ []

unfoldable pub to_string : ℕ → Text
unfolding digits
to_string n = digits (suc n) n

append_one-ne-nil : (s : Text) (d : ℕ) → s ++ d ∷ [] ≢ []
append_one-ne-nil [] d e = cc
append_one-ne-nil (a ∷ s) d e = cc

pub to_string-ne-nil : (n : ℕ) → to_string n ≢ []
unfolding to_string
to_string-ne-nil n e = ground (arith, append_one-ne-nil (digits n (n / 10)) (48 + n % 10))

pub length-to_string_two : (n : ℕ) → n < 100 → length (to_string n) ≤ 2
unfolding to_string
length-to_string_two zero h = omega arith
length-to_string_two (suc n) h = ground (arith, one_digit n (suc n / 10))
  where
    one_digit : (fuel m : ℕ) → m < 10 → digits (suc fuel) m ≡ (48 + m) ∷ []
    one_digit fuel m k = ground arith
