-- ===== src/Net/Tofu/Laws.antt =====
-- `check_tofu` and `insert_keys` of net.rs: pinned fingerprints.
use e2e_console_messenger.Base.{
  ◌≡◌, refl, ap, Bool, true, false, Option, none, some, List, [], ◌∷◌, Text, text_eq, trim, split,
  split_once, if◌then◌else◌, inl, inr, Option-cases, Bool-cases, arith,
}
use e2e_console_messenger.Base.Dict.{lookup, insert, lookup-insert_self}
use e2e_console_messenger.Platform.{Platform}
use e2e_console_messenger.Trust.{pins_of, Evolves, stay, next, insert-first}
use e2e_console_messenger.Crypto.{fingerprint}
use e2e_console_messenger.Net.State.{warn, NetState, send}
use e2e_console_messenger.Net.Tofu.{
  fresh, same, changed, change_warning, check_tofu, learn, insert_item, insert_items, key_list,
  insert_keys,
}

-- The fingerprints evolve without trust that the user gives: a name is at most pinned for the first
-- time.
pub record KeepsPins (st st' : NetState) : Type 0 where
  pub evolves : Evolves (λ name. ⊥) (pins_of st.tofu) (pins_of st'.tofu)

pub KeepsPins-refl : (st : NetState) → KeepsPins st st
KeepsPins-refl st = record { evolves = stay (λ name. refl) }

pub KeepsPins-trans : {a b c : NetState} → KeepsPins a b → KeepsPins b c → KeepsPins a c
KeepsPins-trans p q = record { evolves = next p.evolves q.evolves }

pub KeepsPins-same : (a b : NetState) → b.tofu ≡ a.tofu → KeepsPins a b
KeepsPins-same a b e = record { evolves = stay (λ name. ap (λ t. lookup name t) e) }

pub KeepsPins-if :
    (b : Bool) (st x y : NetState)
    → KeepsPins st x
    → KeepsPins st y
    → KeepsPins st (if b then x else y)
KeepsPins-if true st x y hx hy = hx
KeepsPins-if false st x y hx hy = hy

module _ (c : Platform) (name pubk : Text) (st : NetState) where
  -- The three outcomes of a check, with all that each changes: an unknown name is pinned silently; a
  -- known key changes nothing; a key with another fingerprint changes nothing but is reported.
  pub check_tofu_lem : check_tofu c name pubk st ≡ (elim (lookup name st.tofu) [
    | none ↦ (record st { tofu = insert name (fingerprint c pubk) st.tofu }, fresh)
    | some old ↦
        if text_eq old (fingerprint c pubk)
        then (st, same)
        else (send (warn (change_warning name old (fingerprint c pubk))) st, changed)
  ])
  unfolding check_tofu
  check_tofu_lem = go (lookup name st.tofu) refl
    where
      go :
          (o : Option Text)
          → lookup name st.tofu ≡ o
          → check_tofu c name pubk st ≡ (elim o [
            | none ↦ (record st { tofu = insert name (fingerprint c pubk) st.tofu }, fresh)
            | some old ↦
                if text_eq old (fingerprint c pubk)
                then (st, same)
                else (send (warn (change_warning name old (fingerprint c pubk))) st, changed)
          ])
      go none e = ground arith
      go (some old) e = ground arith

  pub check_tofu-KeepsPins : KeepsPins st (check_tofu c name pubk st).0
  check_tofu-KeepsPins = elim (Option-cases (lookup name st.tofu)) [
    | inl e ↦
        rw (check_tofu_lem, e)
          (record { evolves = insert-first name (fingerprint c pubk) st.tofu e })
    | inr (old, e) ↦ elim (Bool-cases (text_eq old (fingerprint c pubk))) [
      | inl k ↦ rw (check_tofu_lem, e, k) (KeepsPins-refl st)
      | inr k ↦ rw (check_tofu_lem, e, k) (unfold send in KeepsPins-same st _ refl)
    ]
  ]

module _ (c : Platform) where
  pub learn-KeepsPins : (n p : Text) (st : NetState) → KeepsPins st (learn c n p st)
  unfolding learn
  learn-KeepsPins n p st = record { evolves = (check_tofu-KeepsPins c n p st).evolves }

  pub lookup-learn : (n p : Text) (st : NetState) → lookup n (learn c n p st).known ≡ some p
  unfolding learn
  lookup-learn n p st = lookup-insert_self n p (check_tofu c n p st).0.known

  insert_item-KeepsPins : (item : Text) (st : NetState) → KeepsPins st (insert_item c item st)
  unfolding insert_item
  insert_item-KeepsPins item st = elim (Option-cases (split_once b':' item)) [
    | inl e ↦ rw (e, insert_item) (KeepsPins-refl st)
    | inr ((n, p), e) ↦ rw (e, insert_item) (learn-KeepsPins (trim n) (trim p) st)
  ]

  insert_items-KeepsPins :
      (items : List Text) (st : NetState) → KeepsPins st (insert_items c items st)
  unfolding insert_items
  insert_items-KeepsPins [] st = KeepsPins-refl st
  insert_items-KeepsPins (item ∷ items) st =
      KeepsPins-trans (insert_item-KeepsPins (trim item) st)
        (insert_items-KeepsPins items (insert_item c (trim item) st))

  pub insert_keys-KeepsPins : (text : Text) (st : NetState) → KeepsPins st (insert_keys c text st)
  unfolding insert_keys
  insert_keys-KeepsPins text st = insert_items-KeepsPins (split b';' (key_list c text)) st
