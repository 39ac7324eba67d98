-- ===== src/Examples/Toy.antt =====
-- A small platform that keeps the laws: a stand-in for the crates, to run the model on.
use e2e_console_messenger.Base.{
  ℕ, zero, suc, ◌+◌, ◌<◌, ◌≡◌, ◌∙◌, refl, sym, ap, Option, none, some, List, [], ◌∷◌, split,
  split-append, ◌>>=◌, ◌++◌, ◌==◌, Bytes, Text, All, All-append, codes, length, strip_prefix,
  strip_prefix-append, if◌then◌else◌, Lacks, arith,
}
use mathlib.Core.Path.{subst}
use mathlib.Core.Option.{some-injective}
use e2e_console_messenger.Base.Utf8.{IsText}
use e2e_console_messenger.Base.Dict.{Dict}
use e2e_console_messenger.Platform.{Platform, IsLawful, IsPrintable}
use e2e_console_messenger.Net.Reader.Message.{strip_prefix_sound}
use e2e_console_messenger.Store.Keys.{printable-IsText}

abbrev replicate : ℕ → ℕ → Bytes
replicate zero b = []
replicate (suc n) b = b ∷ replicate n b

-- A byte is as many A, then a B.
abbrev encode : Bytes → Text
encode [] = []
encode (n ∷ s) = replicate n b'A' ++ b'B' ∷ encode s

abbrev counted : ℕ → Option Bytes → Option Bytes
counted n none = none
counted n (some s) = some (n ∷ s)

abbrev decode : ℕ → Text → Option Bytes
decode n [] = if n == 0 then some [] else none
decode n (ch ∷ s) =
    let more = decode (suc n) s in
    let next = counted n (decode 0 s) in
    if ch == b'A' then more else if ch == b'B' then next else none

decode-replicate :
    (n k : ℕ) (s : Text) → decode k (replicate n b'A' ++ b'B' ∷ s) ≡ counted (k + n) (decode 0 s)
decode-replicate zero k s = ap (λ i. counted i (decode 0 s)) (omega arith)
decode-replicate (suc n) k s =
    decode-replicate n (suc k) s ∙ ap (λ i. counted i (decode 0 s)) (omega arith)

decode-encode : (s : Bytes) → decode 0 (encode s) ≡ some s
decode-encode [] = refl
decode-encode (n ∷ s) =
    decode-replicate n 0 (encode s)
    ∙ ap (λ i. counted i (decode 0 (encode s))) (plus n)
    ∙ ap (counted n) (decode-encode s)
  where
    plus : (n : ℕ) → 0 + n ≡ n
    plus n = omega arith

replicate-IsPrintable : (n : ℕ) → All IsPrintable (replicate n b'A')
replicate-IsPrintable zero = tt
replicate-IsPrintable (suc n) = ((omega arith, omega arith), replicate-IsPrintable n)

encode-IsPrintable : (s : Bytes) → All IsPrintable (encode s)
encode-IsPrintable [] = tt
encode-IsPrintable (n ∷ s) =
    All-append IsPrintable (replicate n b'A') _ (replicate-IsPrintable n)
      ((omega arith, omega arith), encode-IsPrintable s)

replicate-bytes : (n : ℕ) → All (λ b. b < 256) (replicate n 1)
replicate-bytes zero = tt
replicate-bytes (suc n) = (omega arith, replicate-bytes n)

abbrev tag : Bytes
tag = replicate 16 9

abbrev pub pinned_map : Dict
pinned_map = (codes "@bob", codes "0101") ∷ []

-- JSON: the keys and the values in turn, with a 0 behind each.
abbrev up : Text → Text
up [] = []
up (ch ∷ s) = suc ch ∷ up s

abbrev pred : ℕ → ℕ
pred zero = zero
pred (suc n) = n

abbrev down : Text → Text
down [] = []
down (ch ∷ s) = pred ch ∷ down s

abbrev flat : Dict → Bytes
flat [] = []
flat ((k, v) ∷ m) = up k ++ 0 ∷ (up v ++ 0 ∷ flat m)

abbrev entered : Text → Text → Option Dict → Option Dict
entered k v none = none
entered k v (some m) = some ((k, v) ∷ m)

abbrev pairs : List Text → Option Dict
pairs [] = none
pairs (_ ∷ []) = some []
pairs (k ∷ v ∷ rest) = let m = pairs rest in entered (down k) (down v) m

abbrev json_print : Dict → Option Text
json_print m = some (encode (flat m))

abbrev json_parse : Text → Option Dict
json_parse t = decode 0 t >>= λ s. pairs (split 0 s)

abbrev pub pinned_json : Text
pinned_json = encode (flat pinned_map)

down-up : (s : Text) → down (up s) ≡ s
down-up [] = refl
down-up (ch ∷ s) = ap (λ t. ch ∷ t) (down-up s)

up-Lacks : (s : Text) → Lacks 0 (up s)
up-Lacks [] = tt
up-Lacks (ch ∷ s) = (omega arith, up-Lacks s)

pairs-flat : (m : Dict) → pairs (split 0 (flat m)) ≡ some m
pairs-flat [] = unfold split in refl
pairs-flat ((k, v) ∷ m) =
    rw
      (
        split-append 0 (up k) (up v ++ 0 ∷ flat m) (up-Lacks k),
        split-append 0 (up v) (flat m) (up-Lacks v),
        pairs-flat m,
        down-up k,
        down-up v,
      )
      refl

json_print-parse :
    (m : Dict) (t : Text) → json_print m ≡ some t → IsText t × (json_parse t ≡ some m)
json_print-parse m t h =
    subst (λ x. IsText x × (json_parse x ≡ some m)) (some-injective (encode (flat m)) t h)
      (
        printable-IsText (encode (flat m)) (encode-IsPrintable (flat m)),
        ap (λ r. r >>= λ s. pairs (split 0 s)) (decode-encode (flat m)) ∙ pairs-flat m,
      )

abbrev pub toy : Platform
toy = record {
  b64_encode = encode;
  b64_decode = decode 0;
  sha256 = λ s. replicate 32 1;
  diffie_hellman = λ a b. replicate 32 1;
  public_key = λ k. replicate 32 1;
  aes_encrypt = λ k n a m. some (tag ++ m);
  aes_decrypt = λ k n a ct. strip_prefix tag ct;
  json_parse = json_parse;
  json_print = json_print;
}

pub toy-IsLawful : IsLawful toy
toy-IsLawful = record {
  b64_decode-encode = decode-encode;
  b64_decode-nil = refl;
  b64_encode-IsPrintable = encode-IsPrintable;
  length-sha256 = λ s. refl;
  sha256-bytes = λ s. replicate-bytes 32;
  length-public_key = λ k. refl;
  diffie_hellman_comm = λ a b. refl;
  aes_decrypt_iff = λ k n a m ct. (
    λ h. ap some (sym (strip_prefix_sound tag ct m h)),
    λ h.
        subst (λ x. strip_prefix tag x ≡ some m) (some-injective (tag ++ m) ct h)
          (strip_prefix-append tag m),
  );
  json_print-parse = json_print-parse;
  length-aes_encrypt =
      λ k n a m ct h. ap length (sym (some-injective (tag ++ m) ct h)) ∙ omega arith;
}
