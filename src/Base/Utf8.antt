-- ===== src/Base/Utf8.antt =====
-- UTF-8: `str::as_bytes`, `String::from_utf8` and `String::from_utf8_lossy` of Rust's standard
-- library. The decoder is the Unicode standard's: a maximal ill-formed part becomes one U+FFFD.
use Prim.Native.Nat.{ℕ, zero, suc, ◌+◌, ◌-◌, ◌*◌, ◌/◌, ◌%◌, ◌<◌}
use mathlib.Core.Path.{◌≡◌, refl, sym, ap, ◌∙◌}
use mathlib.Core.Logic.{◌⊎◌, ◌≢◌, inl, inr}
use mathlib.Core.Bool.{true, ◌&&◌, ◌||◌}
use mathlib.Core.Option.{Option, none, some}
use mathlib.Core.List.{List, [], ◌∷◌, ◌++◌, map, append_assoc}
use native.Mathlib.Omega.{arith}
use e2e_console_messenger.Base.Tests.{ltb, ltb→lt, leb, if◌then◌else◌, Bool-cases}
use e2e_console_messenger.Base.Lists.{all, All, All-append, Lacks}
use e2e_console_messenger.Base.Strings.{Text, Bytes}

-- A Unicode scalar value, as every `char` is.
abbrev pub IsScalar : ℕ → Type 0
IsScalar c = (c < 0xD800) ⊎ ((0xDFFF < c) × (c < 0x110000))

abbrev pub encode_char : ℕ → Bytes
encode_char c =
    if ltb c 0x80
    then c ∷ []
    else if ltb c 0x800
    then (0xC0 + c / 64) ∷ (0x80 + c % 64) ∷ []
    else if ltb c 0x10000
    then (0xE0 + c / 4096) ∷ (0x80 + c / 64 % 64) ∷ (0x80 + c % 64) ∷ []
    else (0xF0 + c / 262144) ∷ (0x80 + c / 4096 % 64) ∷ (0x80 + c / 64 % 64) ∷ (0x80 + c % 64) ∷ []

-- `as_bytes`.
unfoldable pub as_bytes : Text → Bytes
as_bytes [] = []
as_bytes (c ∷ s) = encode_char c ++ as_bytes s

-- Inside a character: bytes still missing, bounds on the next one, bits so far.
pub data Mode : Type 0 where
  between : Mode
  inside : ℕ → ℕ → ℕ → ℕ → Mode

-- The first byte of a character: the mode behind it, and what it yields.
start : ℕ → Mode × List (Option ℕ)
start b =
    if ltb b 0x80
    then (between, some b ∷ [])
    else if leb 0xC2 b && leb b 0xDF
    then (inside 0 0x80 0xBF (b - 0xC0), [])
    else if leb 0xE0 b && leb b 0xEF
    then (
      inside 1 (if leb b 0xE0 then 0xA0 else 0x80) (if leb 0xED b && leb b 0xED then 0x9F else 0xBF)
          (b - 0xE0),
      [],
    )
    else if leb 0xF0 b && leb b 0xF4
    then (
      inside 2 (if leb b 0xF0 then 0x90 else 0x80) (if leb 0xF4 b then 0x8F else 0xBF) (b - 0xF0),
      [],
    )
    else (between, none ∷ [])

-- One byte. A byte that cannot go on ends the part before it and starts anew.
next : Mode → ℕ → Mode × List (Option ℕ)
unfolding start
next between b = start b
next (inside k lo hi acc) b =
    if leb lo b && leb b hi
    then elim k [
      | zero ↦ (between, some (acc * 64 + (b - 0x80)) ∷ [])
      | suc j ↦ (inside j 0x80 0xBF (acc * 64 + (b - 0x80)), [])
    ]
    else ((start b).0, none ∷ (start b).1)

-- The characters of the bytes, `none` for each ill-formed part.
decode : Mode → Bytes → List (Option ℕ)
unfolding next
decode between [] = []
decode (inside _ _ _ _) [] = none ∷ []
decode m (b ∷ s) = let (m', out) = next m b in out ++ decode m' s

sequence : List (Option ℕ) → Option Text
sequence [] = some []
sequence (none ∷ _) = none
sequence (some c ∷ s) = elim (sequence s) [ none ↦ none | some t ↦ some (c ∷ t) ]

replacement : Option ℕ → ℕ
replacement none = 0xFFFD
replacement (some c) = c

-- `String::from_utf8`.
unfoldable pub from_utf8 : Bytes → Option Text
unfolding decode sequence
from_utf8 s = sequence (decode between s)

-- `String::from_utf8_lossy`.
unfoldable pub from_utf8_lossy : Bytes → Text
unfolding decode replacement
from_utf8_lossy s = map replacement (decode between s)

module _ (c : ℕ) (s : Bytes) where
  decode_one : c < 0x80 → decode between (c ∷ s) ≡ some c ∷ decode between s
  unfolding decode
  decode_one h = ground arith

  decode_two :
      0x7F < c
      → c < 0x800
      → decode between ((0xC0 + c / 64) ∷ (0x80 + c % 64) ∷ s) ≡ some c ∷ decode between s
  unfolding decode
  decode_two h k = ground arith

  decode_three :
      0x7FF < c
      → c < 0x10000
      → IsScalar c
      → decode between ((0xE0 + c / 4096) ∷ (0x80 + c / 64 % 64) ∷ (0x80 + c % 64) ∷ s)
        ≡ some c ∷ decode between s
  unfolding decode
  decode_three h k v = ground arith

  decode_four :
      0xFFFF < c
      → c < 0x110000
      → decode between (
          (0xF0 + c / 262144) ∷ (0x80 + c / 4096 % 64) ∷ (0x80 + c / 64 % 64) ∷ (0x80 + c % 64) ∷ s)
        ≡ some c ∷ decode between s
  unfolding decode
  decode_four h k = ground arith

  decode-encode_char : IsScalar c → decode between (encode_char c ++ s) ≡ some c ∷ decode between s
  decode-encode_char h = ground (arith, decode_one, decode_two, decode_three, decode_four)

-- Every character is a Unicode scalar value, as Rust's `String` guarantees.
abbrev pub IsText : Text → Type 0
IsText = All IsScalar

pub as_bytes-append : (s t : Text) → as_bytes (s ++ t) ≡ as_bytes s ++ as_bytes t
unfolding as_bytes
as_bytes-append [] t = refl
as_bytes-append (c ∷ s) t =
    ap (λ r. encode_char c ++ r) (as_bytes-append s t)
    ∙ sym (append_assoc (encode_char c) (as_bytes s) (as_bytes t))

decode-as_bytes : (s : Text) → IsText s → decode between (as_bytes s) ≡ map some s
unfolding as_bytes decode
decode-as_bytes [] h = refl
decode-as_bytes (c ∷ s) h =
    decode-encode_char c (as_bytes s) h.0 ∙ ap (λ r. some c ∷ r) (decode-as_bytes s h.1)

sequence-map-some : (s : Text) → sequence (map some s) ≡ some s
unfolding sequence
sequence-map-some [] = refl
sequence-map-some (c ∷ s) = ground (arith, sequence-map-some s)

replacement-map-some : (s : Text) → map replacement (map some s) ≡ s
unfolding replacement
replacement-map-some [] = refl
replacement-map-some (c ∷ s) = ap (λ r. c ∷ r) (replacement-map-some s)

-- The bytes of a text are read back as the text, strictly and lossily.
pub from_utf8-as_bytes : (s : Text) → IsText s → from_utf8 (as_bytes s) ≡ some s
unfolding from_utf8
from_utf8-as_bytes s h = rw (decode-as_bytes s h) (sequence-map-some s)

pub from_utf8_lossy-as_bytes : (s : Text) → IsText s → from_utf8_lossy (as_bytes s) ≡ s
unfolding from_utf8_lossy
from_utf8_lossy-as_bytes s h = rw (decode-as_bytes s h) (replacement-map-some s)

encode_char-Lacks : (b c : ℕ) → b < 0x80 → c ≢ b → Lacks b (encode_char c)
encode_char-Lacks b c k h = ground arith

-- An ASCII byte stands in the bytes of a text only for its character.
pub as_bytes-Lacks : (b : ℕ) (s : Text) → b < 0x80 → Lacks b s → Lacks b (as_bytes s)
unfolding as_bytes
as_bytes-Lacks b [] k h = tt
as_bytes-Lacks b (c ∷ s) k h =
    All-append _ (encode_char c) (as_bytes s) (encode_char-Lacks b c k h.0)
      (as_bytes-Lacks b s k h.1)

-- A text of ASCII characters, by computation.
pub ascii-IsText : (s : Text) → all (λ ch. ltb ch 128) s ≡ true → IsText s
ascii-IsText [] h = tt
ascii-IsText (ch ∷ s) h = elim (Bool-cases (ltb ch 128)) [
  | inl e ↦ (inl (omega (arith, ltb→lt ch 128 e)), ascii-IsText s (rw e at h))
  | inr e ↦ let k = rw e at h in cc
]

-- A text of any characters, by computation.
pub scalar-IsText :
    (s : Text) → all (λ ch. ltb ch 0xD800 || (leb 0xE000 ch && ltb ch 0x110000)) s ≡ true → IsText s
scalar-IsText [] h = tt
scalar-IsText (ch ∷ s) h = elim (Bool-cases (ltb ch 0xD800 || (leb 0xE000 ch && ltb ch 0x110000))) [
  | inl e ↦ (ground (arith, e), scalar-IsText s (rw e at h))
  | inr e ↦ let k = rw e at h in cc
]
