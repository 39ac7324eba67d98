-- ===== src/Base/Strings.antt =====
-- Rust's `String` and `&str` as lists of Unicode scalar values, with the operations of the standard
-- library that the clients use.
use Prim.Native.Nat.{ℕ, zero, suc}
use Prim.Native.Char.{code}
use Prim.Native.String.{String}
use mathlib.Core.Path.{◌≡◌, refl}
use mathlib.Core.Logic.{◌↔◌, ◌≢◌, inl, inr}
use mathlib.Core.Bool.{Bool, true, false, ◌&&◌, ◌||◌, not}
use mathlib.Core.Option.{Option, none, some}
use mathlib.Core.List.{List, [], ◌∷◌, ◌++◌}
use native.Mathlib.Omega.{arith}
use e2e_console_messenger.Base.Tests.{leb, ◌==◌, ==_iff, if◌then◌else◌, Bool-cases}
use e2e_console_messenger.Base.Lists.{any, Lacks, All, retain}

abbrev pub Bytes : Type 0
Bytes = List ℕ

abbrev pub Text : Type 0
Text = List ℕ

-- The scalar values of a literal.
abbrev pub codes : String → Text
codes String.[] = []
codes (String.◌∷◌ c s) = code c ∷ codes s

-- `==` on texts.
unfoldable pub text_eq : Text → Text → Bool
text_eq [] [] = true
text_eq [] (_ ∷ _) = false
text_eq (_ ∷ _) [] = false
text_eq (a ∷ s) (b ∷ t) = let rest = text_eq s t in if a == b then rest else false

pub text_eq_iff : (s t : Text) → (text_eq s t ≡ true) ↔ (s ≡ t)
unfolding text_eq
text_eq_iff [] [] = ground arith
text_eq_iff [] (b ∷ t) = ground arith
text_eq_iff (a ∷ s) [] = ground arith
text_eq_iff (a ∷ s) (b ∷ t) = ground (arith, text_eq_iff s t)

-- `is_empty`.
abbrev pub is_empty {ℓ} : {A : Type ℓ} → List A → Bool
is_empty [] = true
is_empty (_ ∷ _) = false

-- `char::is_whitespace`: the Unicode property White_Space.
unfoldable pub is_whitespace : ℕ → Bool
is_whitespace c =
    (leb 9 c && leb c 13)
    || c == 32
    || c == 0x85
    || c == 0xA0
    || c == 0x1680
    || (leb 0x2000 c && leb c 0x200A)
    || c == 0x2028
    || c == 0x2029
    || c == 0x202F
    || c == 0x205F
    || c == 0x3000

-- `trim_start_matches` with a test on characters.
unfoldable pub trim_start_matches : (ℕ → Bool) → Text → Text
trim_start_matches p [] = []
trim_start_matches p (c ∷ s) = let rest = trim_start_matches p s in if p c then rest else c ∷ s

unfoldable pub trim_start : Text → Text
unfolding trim_start_matches
trim_start = trim_start_matches is_whitespace

-- `trim_end_matches` with a test on characters.
unfoldable pub trim_end_matches : (ℕ → Bool) → Text → Text
trim_end_matches p [] = []
trim_end_matches p (c ∷ s) =
    let rest = trim_end_matches p s in if is_empty rest && p c then [] else c ∷ rest

unfoldable pub trim_end : Text → Text
unfolding trim_end_matches
trim_end = trim_end_matches is_whitespace

unfoldable pub trim : Text → Text
unfolding trim_start trim_end
trim s = trim_end (trim_start s)

-- `strip_prefix`: the rest behind the prefix.
unfoldable pub strip_prefix : Text → Text → Option Text
strip_prefix [] s = some s
strip_prefix (_ ∷ _) [] = none
strip_prefix (p ∷ ps) (c ∷ s) = let rest = strip_prefix ps s in if p == c then rest else none

unfoldable pub starts_with : Text → Text → Bool
unfolding strip_prefix
starts_with p s = elim (strip_prefix p s) [ none ↦ false | some _ ↦ true ]

-- `split(|&c| c == sep)`: always at least one part.
split_cons : ℕ → List Text → List Text
split_cons c [] = (c ∷ []) ∷ []
split_cons c (p ∷ ps) = (c ∷ p) ∷ ps

unfoldable pub split : ℕ → Text → List Text
unfolding split_cons
split sep [] = [] ∷ []
split sep (c ∷ s) = let rest = split sep s in if c == sep then [] ∷ rest else split_cons c rest

-- `split_once`, which is also the two slices around what `find` returns.
unfoldable pub split_once : ℕ → Text → Option (Text × Text)
split_once sep [] = none
split_once sep (c ∷ s) =
    let rest = split_once sep s in
    if c == sep then some ([], s) else elim rest [ none ↦ none | some (a, b) ↦ some (c ∷ a, b) ]

-- `splitn`: at most so many parts, the last one with the separators that are left.
unfoldable pub splitn : ℕ → ℕ → Text → List Text
splitn zero sep s = []
splitn (suc zero) sep s = s ∷ []
splitn (suc (suc n)) sep s = elim (split_once sep s) [
  | none ↦ s ∷ []
  | some (a, b) ↦ a ∷ splitn (suc n) sep b
]

-- `contains` of a character.
unfoldable pub contains : ℕ → Text → Bool
contains a [] = false
contains a (c ∷ s) = let rest = contains a s in if c == a then true else rest

-- A part without the separator, and the separator, come off a split.
pub split-append : (sep : ℕ) (p s : Text) → Lacks sep p → split sep (p ++ sep ∷ s) ≡ p ∷ split sep s
unfolding split
split-append sep [] s h = ground arith
split-append sep (c ∷ p) s h = ground (arith, split-append sep p s h.1)

-- A text without the separator is one part.
pub split-Lacks : (sep : ℕ) (p : Text) → Lacks sep p → split sep p ≡ p ∷ []
unfolding split
split-Lacks sep [] h = refl
split-Lacks sep (c ∷ p) h = ground (arith, split-Lacks sep p h.1)

pub split-ne-nil : (sep : ℕ) (s : Text) → split sep s ≢ []
unfolding split
split-ne-nil sep [] = cc
split-ne-nil sep (c ∷ s) = ground (arith, split-ne-nil sep s)

split_cons-append :
    (c : ℕ) (ps qs : List Text) → ps ≢ [] → split_cons c (ps ++ qs) ≡ split_cons c ps ++ qs
unfolding split_cons
split_cons-append c [] qs h = absurd (h refl)
split_cons-append c (p ∷ ps) qs h = refl

-- A last part without the separator, behind one more separator.
pub split-append_last :
    (sep : ℕ) (s p : Text) → Lacks sep p → split sep (s ++ sep ∷ p) ≡ split sep s ++ p ∷ []
unfolding split
split-append_last sep [] p h = ground (arith, split-Lacks sep p h)
split-append_last sep (c ∷ s) p h = ground (
  arith,
  split-append_last sep s p h,
  split_cons-append c (split sep s) (p ∷ []) (split-ne-nil sep s),
)

pub split_once-append :
    (sep : ℕ) (p s : Text) → Lacks sep p → split_once sep (p ++ sep ∷ s) ≡ some (p, s)
unfolding split_once
split_once-append sep [] s h = ground arith
split_once-append sep (c ∷ p) s h = ground (arith, split_once-append sep p s h.1)

pub strip_prefix-append : (p s : Text) → strip_prefix p (p ++ s) ≡ some s
unfolding strip_prefix
strip_prefix-append [] s = refl
strip_prefix-append (c ∷ p) s = ground (arith, strip_prefix-append p s)

module _ (p : ℕ → Bool) where
  pub trim_end_matches_idem :
      (s : Text) → trim_end_matches p (trim_end_matches p s) ≡ trim_end_matches p s
  unfolding trim_end_matches
  trim_end_matches_idem [] = refl
  trim_end_matches_idem (c ∷ s) = ground (arith, trim_end_matches_idem s)

pub trim_end_idem : (s : Text) → trim_end (trim_end s) ≡ trim_end s
unfolding trim_end
trim_end_idem s = trim_end_matches_idem _ s

-- A character that is no white space keeps what stands in front of it.
pub trim_end-append :
    (p : Text) (ch : ℕ) (s : Text)
    → is_whitespace ch ≡ false
    → trim_end (p ++ ch ∷ s) ≡ p ++ ch ∷ trim_end s
unfolding trim_end trim_end_matches
trim_end-append [] ch s h = ground arith
trim_end-append (x ∷ []) ch s h = ground (arith, trim_end-append [] ch s h)
trim_end-append (x ∷ y ∷ p) ch s h = ground (arith, trim_end-append (y ∷ p) ch s h)

-- Trimming invents no character.
module _ (p : ℕ → Bool) (b : ℕ) where
  trim_start_matches-Lacks : (s : Text) → Lacks b s → Lacks b (trim_start_matches p s)
  unfolding trim_start_matches
  trim_start_matches-Lacks [] h = h
  trim_start_matches-Lacks (c ∷ s) h = elim (Bool-cases (p c)) [
    | inl e ↦ rw e (trim_start_matches-Lacks s h.1)
    | inr e ↦ rw e h
  ]

  trim_end_matches-Lacks : (s : Text) → Lacks b s → Lacks b (trim_end_matches p s)
  unfolding trim_end_matches
  trim_end_matches-Lacks [] h = h
  trim_end_matches-Lacks (c ∷ s) h = elim (Bool-cases (is_empty (trim_end_matches p s) && p c)) [
    | inl e ↦ rw e tt
    | inr e ↦ rw e (h.0, trim_end_matches-Lacks s h.1)
  ]

pub trim-Lacks : (b : ℕ) (s : Text) → Lacks b s → Lacks b (trim s)
unfolding trim
trim-Lacks b s h = trim_end_matches-Lacks _ b _ (trim_start_matches-Lacks _ b s h)

-- `split_whitespace`: the parts of `split(char::is_whitespace)` that are not empty.
split_on : (ℕ → Bool) → Text → List Text
unfolding split_cons
split_on p [] = [] ∷ []
split_on p (c ∷ s) = let rest = split_on p s in if p c then [] ∷ rest else split_cons c rest

unfoldable pub split_whitespace : Text → List Text
unfolding split_on
split_whitespace s = retain (λ w. not (is_empty w)) (split_on is_whitespace s)

-- `join` and `concat` of texts.
abbrev pub concat : List Text → Text
concat [] = []
concat (p ∷ ps) = p ++ concat ps

-- A text without white space at its ends is left alone by `trim`, as by the test that it passes.
abbrev pub NoSpace : Text → Type 0
NoSpace = All (λ c. is_whitespace c ≡ false)

module _ (p : ℕ → Bool) where
  trim_start_matches_keep : (s : Text) → All (λ c. p c ≡ false) s → trim_start_matches p s ≡ s
  unfolding trim_start_matches
  trim_start_matches_keep [] h = refl
  trim_start_matches_keep (c ∷ s) h = rw h.0

  trim_end_matches_keep : (s : Text) → All (λ c. p c ≡ false) s → trim_end_matches p s ≡ s
  unfolding trim_end_matches
  trim_end_matches_keep [] h = refl
  trim_end_matches_keep (c ∷ s) h = ground (arith, trim_end_matches_keep s h.1, h.0)

  split_on_keep : (s : Text) → All (λ c. p c ≡ false) s → split_on p s ≡ s ∷ []
  unfolding split_on
  split_on_keep [] h = refl
  split_on_keep (c ∷ s) h = ground (arith, split_on_keep s h.1, h.0)

  split_on-append :
      (s t : Text) (c : ℕ)
      → All (λ c. p c ≡ false) s
      → p c ≡ true
      → split_on p (s ++ c ∷ t) ≡ s ∷ split_on p t
  unfolding split_on
  split_on-append [] t c h k = rw k
  split_on-append (a ∷ s) t c h k = ground (arith, split_on-append s t c h.1 k, h.0)

pub trim-NoSpace : (s : Text) → NoSpace s → trim s ≡ s
unfolding trim
trim-NoSpace s h =
    rw (trim_start_matches_keep is_whitespace s h) (trim_end_matches_keep is_whitespace s h)

retain_words :
    (a b : Text) → a ≢ [] → b ≢ [] → retain (λ w. not (is_empty w)) (a ∷ b ∷ [] ∷ []) ≡ a ∷ b ∷ []
retain_words [] b na nb = absurd (na refl)
retain_words (_ ∷ _) [] na nb = absurd (nb refl)
retain_words (_ ∷ _) (_ ∷ _) na nb = refl

-- Two words and the line feed behind them.
pub split_whitespace_pair :
    (a b : Text)
    → NoSpace a
    → NoSpace b
    → a ≢ []
    → b ≢ []
    → split_whitespace (a ++ b' ' ∷ (b ++ b'\n' ∷ [])) ≡ a ∷ b ∷ []
unfolding split_whitespace
split_whitespace_pair a b ha hb na nb =
    rw
      (
        split_on-append is_whitespace a (b ++ b'\n' ∷ []) b' ' ha (unfold is_whitespace in refl),
        split_on-append is_whitespace b [] b'\n' hb (unfold is_whitespace in refl),
        split_on,
      )
      (retain_words a b na nb)

-- A text without a character, by computation.
pub absent-Lacks : (b : ℕ) (s : Text) → any (λ ch. ch == b) s ≡ false → Lacks b s
absent-Lacks b [] h = tt
absent-Lacks b (ch ∷ s) h = elim (Bool-cases (ch == b)) [
  | inl e ↦ let k = rw e at h in cc
  | inr e ↦ (differ e, absent-Lacks b s (rw e at h))
]
  where
    differ : (ch == b) ≡ false → ch ≢ b
    differ e k = ground (arith, ==_iff ch b)
