-- ===== src/Store/Scan.antt =====
-- The scans of store.rs over candidate paths, for `load_shared_key` and `load_or_create_identity`.
use e2e_console_messenger.Base.{
  ◌≡◌, ◌⊎◌, inl, inr, ◌∙◌, ap, true, Option, none, some, List, [], ◌∷◌, Bytes, Text, last, ◌>>=◌,
  arith,
}
use e2e_console_messenger.Base.Utf8.{IsText, as_bytes, from_utf8-as_bytes}
use e2e_console_messenger.Base.Dict.{insert, lookup-insert, lookup-insert_self}
use mathlib.Core.Option.{some-injective}
use e2e_console_messenger.Store.{Os, Disk, read_to_string, first_some, write_last}

module _ {A : Type 0} (f : Text → Option A) (q : Text) (qs : List Text) where
  first_some_inv : first_some f (q ∷ qs) ≡ none → (f q ≡ none) × (first_some f qs ≡ none)
  unfolding first_some
  first_some_inv h = ground arith

  pub first_some_skip : f q ≡ none → first_some f (q ∷ qs) ≡ first_some f qs
  unfolding first_some
  first_some_skip e = rw (e, first_some)

  pub first_some_stop : (a : A) → f q ≡ some a → first_some f (q ∷ qs) ≡ some a
  unfolding first_some
  first_some_stop a e = rw (e, first_some)

module _ {A : Type 0} (f g : Text → Option A) (a : A) where
  -- A scan that found nothing finds `a` once the last path holds it and no other path holds more.
  first_some-last :
      (ps : List Text) {p : Text}
      → first_some f ps ≡ none
      → last ps ≡ some p
      → g p ≡ some a
      → ((q : Text) → f q ≡ none → (g q ≡ none) ⊎ (g q ≡ some a))
      → first_some g ps ≡ some a
  first_some-last [] h l e keep = cc
  first_some-last (q ∷ []) {p} h l e keep =
      first_some_stop g q [] a (ap g (some-injective q p l) ∙ e)
  first_some-last (q ∷ r ∷ ps) h l e keep =
      let (n, t) = first_some_inv f q (r ∷ ps) h in
      let rest = first_some-last (r ∷ ps) t l e keep in
      elim (keep q n) [
        | inl m ↦ first_some_skip g q (r ∷ ps) m ∙ rest
        | inr m ↦ first_some_stop g q (r ∷ ps) a m
      ]

pub write_last_eq :
    (os : Os) (ps : List Text) (p : Text) (raw : Bytes) (disk : Disk)
    → last ps ≡ some p
    → os.can_write p ≡ true
    → write_last os ps raw disk ≡ insert p raw disk
unfolding write_last
write_last_eq os ps p raw disk l w = rw (l, write_last) (rw w)

-- A reader of one file, after that file was written.
module _ {A : Type 0} (parse : Text → Option A) (a : A) (os : Os) (disk : Disk) (t : Text) where
  abbrev pub reader : Disk → Text → Option A
  reader d p = read_to_string d p >>= parse

  reader-insert :
      (p q : Text)
      → IsText t
      → parse t ≡ some a
      → reader disk q ≡ none
      → (reader (insert p (as_bytes t) disk) q ≡ none)
        ⊎ (reader (insert p (as_bytes t) disk) q ≡ some a)
  unfolding read_to_string
  reader-insert p q v e h =
      ground (arith, lookup-insert p q (as_bytes t) disk, from_utf8-as_bytes t v)

  -- What was written at the last path, where no path held anything, is read at the next scan.
  pub first_some-write_last :
      (ps : List Text) (p : Text)
      → IsText t
      → parse t ≡ some a
      → last ps ≡ some p
      → os.can_write p ≡ true
      → first_some (reader disk) ps ≡ none
      → first_some (reader (write_last os ps (as_bytes t) disk)) ps ≡ some a
  first_some-write_last ps p v e l w h = rw (write_last_eq os ps p (as_bytes t) disk l w) (
      first_some-last (reader disk) (reader (insert p (as_bytes t) disk)) a ps h l
        (unfold read_to_string in
          rw (lookup-insert_self p (as_bytes t) disk, ◌>>=◌, from_utf8-as_bytes t v) e)
        (λ q. reader-insert p q v e))
