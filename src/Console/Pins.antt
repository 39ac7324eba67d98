-- ===== src/Console/Pins.antt =====
-- The fingerprints of the console client, in memory and in the file: what its steps do to them.
pub mod Frames
pub mod Session
use e2e_console_messenger.Base.{
  ◌≡◌, ◌∙◌, refl, sym, ap, Bool, true, false, Option, none, some, List, [], ◌∷◌, ◌++◌, Bytes, Text,
  codes, text_eq, trim, split, split_once, if◌then◌else◌, Option-cases, Bool-cases, inl, inr, ◌>>=◌,
}
use e2e_console_messenger.Base.Utf8.{as_bytes, from_utf8, from_utf8-as_bytes}
use e2e_console_messenger.Base.Dict.{Dict, lookup, insert, lookup-insert_self}
use e2e_console_messenger.Platform.{Platform, IsLawful}
use e2e_console_messenger.Trust.{Pins, pins_of, Evolves, stay, next, insert-first}
use e2e_console_messenger.Store.{Os, Disk, read_to_string, first_some, write_file_secure}
use e2e_console_messenger.Store.Scan.{first_some_stop}
use e2e_console_messenger.Console.Shared.{fingerprint}
use e2e_console_messenger.Console.Store.{candidate_paths, load_tofu, save_tofu}
use e2e_console_messenger.Console.State.{State, pprint, pprint_all}
use e2e_console_messenger.Console.Tofu.{
  change_lines, pin, check_tofu, learn, insert_item, insert_items, key_list, insert_keys,
}

-- The file can be written, and any map can be printed as JSON.
abbrev pub Savable : Platform → Os → Type 0
Savable c os =
    IsLawful c
    × ((m : Dict) → (t : Text) × (c.json_print m ≡ some t))
    × (os.can_write (codes "tofu.json") ≡ true)

-- What the next start would load is what is in memory.
abbrev pub IsSaved : Platform → Os → State → Type 0
IsSaved c os st = load_tofu os c st.disk ≡ st.tofu

module _ (c : Platform) (os : Os) (Trusts : Text → Type 0) where
  pub record Keeps (st st' : State) : Type 0 where
    pub evolves : Evolves Trusts (pins_of st.tofu) (pins_of st'.tofu)
    pub saved : Savable c os → IsSaved c os st → IsSaved c os st'

  -- `load_tofu` in terms of what the two paths hold.
  found_in : Option Bytes → Option Bytes → Option Dict
  found_in here above = elim (here >>= from_utf8 >>= c.json_parse) [
    | none ↦ elim (above >>= from_utf8 >>= c.json_parse) [ none ↦ none | some m ↦ some m ]
    | some m ↦ some m
  ]

  load_tofu_lem :
      (disk : Disk)
      → load_tofu os c disk
        ≡ (elim (found_in (lookup (codes "tofu.json") disk) (lookup (codes "../tofu.json") disk)) [
          | none ↦ []
          | some m ↦ m
        ])
  unfolding load_tofu first_some candidate_paths read_to_string found_in
  load_tofu_lem disk = refl

  load_tofu-files :
      (d d' : Disk)
      → lookup (codes "tofu.json") d' ≡ lookup (codes "tofu.json") d
      → lookup (codes "../tofu.json") d' ≡ lookup (codes "../tofu.json") d
      → load_tofu os c d' ≡ load_tofu os c d
  load_tofu-files d d' a b = rw (load_tofu_lem d, load_tofu_lem d', a, b) refl

  -- A step that leaves the map alone, and the two paths of its file.
  pub Keeps-files :
      (st st' : State)
      → st'.tofu ≡ st.tofu
      → lookup (codes "tofu.json") st'.disk ≡ lookup (codes "tofu.json") st.disk
      → lookup (codes "../tofu.json") st'.disk ≡ lookup (codes "../tofu.json") st.disk
      → Keeps st st'
  Keeps-files st st' e a b = record {
    evolves = stay (λ n. ap (λ m. lookup n m) e);
    saved = λ ok h. load_tofu-files st.disk st'.disk a b ∙ h ∙ sym e;
  }

  pub Keeps-same : (st st' : State) → st'.tofu ≡ st.tofu → st'.disk ≡ st.disk → Keeps st st'
  Keeps-same st st' e d =
      Keeps-files st st' e (ap (lookup (codes "tofu.json")) d)
        (ap (lookup (codes "../tofu.json")) d)

  pub Keeps-refl : (st : State) → Keeps st st
  Keeps-refl st = Keeps-same st st refl refl

  pub Keeps-trans : {x y z : State} → Keeps x y → Keeps y z → Keeps x z
  Keeps-trans a b = record {
    evolves = next a.evolves b.evolves;
    saved = λ ok h. b.saved ok (a.saved ok h);
  }

  pub Keeps-if :
      (b : Bool) (st x y : State) → Keeps st x → Keeps st y → Keeps st (if b then x else y)
  Keeps-if true st x y hx hy = hx
  Keeps-if false st x y hx hy = hy

  save_tofu_eq :
      (m : Dict) (json : Text) (disk : Disk)
      → c.json_print m ≡ some json
      → os.can_write (codes "tofu.json") ≡ true
      → save_tofu os c m disk ≡ insert (codes "tofu.json") (as_bytes json) disk
  unfolding save_tofu write_file_secure
  save_tofu_eq m json disk h w = rw (h, save_tofu) (rw w)

  pub load_tofu_found :
      (m : Dict) (disk : Disk)
      → (read_to_string disk (codes "tofu.json") >>= c.json_parse) ≡ some m
      → load_tofu os c disk ≡ m
  unfolding load_tofu candidate_paths
  load_tofu_found m disk h = rw (
    first_some_stop (λ p. read_to_string disk p >>= c.json_parse) (codes "tofu.json") _ m h,
    load_tofu,
  )

  load_tofu-save_tofu :
      (m : Dict) (disk : Disk) → Savable c os → load_tofu os c (save_tofu os c m disk) ≡ m
  unfolding read_to_string
  load_tofu-save_tofu m disk (laws, prints, w) =
      let (json, printed) = prints m in
      let (v, e) = laws.json_print-parse m json printed in
      rw (save_tofu_eq m json disk printed w) (
        load_tofu_found m _ (
          rw
            (
              lookup-insert_self (codes "tofu.json") (as_bytes json) disk,
              ◌>>=◌,
              from_utf8-as_bytes json v,
            )
            e))

  -- An entry of the map, saved with it.
  pub pin-Keeps :
      (name fp : Text) (st : State)
      → Evolves Trusts (pins_of st.tofu) (pins_of (insert name fp st.tofu))
      → Keeps st (pin c os name fp st)
  unfolding pin
  pin-Keeps name fp st e = record {
    evolves = e;
    saved = λ ok h. load_tofu-save_tofu (insert name fp st.tofu) st.disk ok;
  }

  pub pprint-Keeps : (line : Text) (st st' : State) → Keeps st st' → Keeps st (pprint line st')
  unfolding pprint
  pprint-Keeps line st st' k = record { evolves = k.evolves; saved = k.saved }

  pub pprint_all-Keeps :
      (lines : List Text) (st st' : State) → Keeps st st' → Keeps st (pprint_all lines st')
  unfolding pprint_all
  pprint_all-Keeps [] st st' k = k
  pprint_all-Keeps (line ∷ lines) st st' k =
      pprint_all-Keeps lines st (pprint line st') (pprint-Keeps line st st' k)

  pub check_tofu-Keeps : (name p : Text) (st : State) → Keeps st (check_tofu c os name p st).0
  unfolding check_tofu
  check_tofu-Keeps name p st = elim (Option-cases (lookup name st.tofu)) [
    | inl e ↦
        rw (e, check_tofu)
          (pin-Keeps name (fingerprint c p) st (insert-first name (fingerprint c p) st.tofu e))
    | inr (old, e) ↦ elim (Bool-cases (text_eq old (fingerprint c p))) [
      | inl k ↦ rw (e, check_tofu, k) (Keeps-refl st)
      | inr k ↦
          rw (e, check_tofu, k)
            (pprint_all-Keeps (change_lines name old (fingerprint c p)) st st (Keeps-refl st))
    ]
  ]

  pub learn-Keeps : (n p : Text) (st : State) → Keeps st (learn c os n p st)
  unfolding learn
  learn-Keeps n p st =
      let known : State = record st { known = insert n p st.known } in
      Keeps-trans (Keeps-same st known refl refl) (check_tofu-Keeps n p known)

  insert_item-Keeps : (item : Text) (st : State) → Keeps st (insert_item c os item st)
  unfolding insert_item
  insert_item-Keeps item st = elim (Option-cases (split_once b':' item)) [
    | inl e ↦ rw (e, insert_item) (Keeps-refl st)
    | inr ((n, p), e) ↦ rw (e, insert_item) (learn-Keeps n p st)
  ]

  insert_items-Keeps : (items : List Text) (st : State) → Keeps st (insert_items c os items st)
  unfolding insert_items
  insert_items-Keeps [] st = Keeps-refl st
  insert_items-Keeps (item ∷ items) st =
      Keeps-trans (insert_item-Keeps (trim item) st)
        (insert_items-Keeps items (insert_item c os (trim item) st))

  pub insert_keys-Keeps : (text : Text) (st : State) → Keeps st (insert_keys c os text st)
  unfolding insert_keys
  insert_keys-Keeps text st = insert_items-Keeps (split b';' (key_list c os text)) st
