-- ===== src/Trust.antt =====
-- Trust on first use, abstractly: for each name the pinned fingerprint, and the steps that may
-- change it. Both clients keep such a map (`check_tofu`, and `/trust`).
use e2e_console_messenger.Base.{
  ◌≡◌, ◌∙◌, ap, Option, none, some, Text, text_eq, text_eq_iff, if◌then◌else◌, inl, inr, Bool-cases,
}
use mathlib.Core.Path.{subst}
use e2e_console_messenger.Base.Dict.{Dict, lookup, insert, lookup-insert}

abbrev pub Pins : Type 0
Pins = Text → Option Text

-- The pins of an association list. The order of its entries does not show.
abbrev pub pins_of : Dict → Pins
pins_of m name = lookup name m

-- One entry set, the others as they were.
abbrev pub Sets : Text → Text → Pins → Pins → Type 0
Sets name fp p q = (n : Text) → q n ≡ (if text_eq name n then some fp else p n)

-- How pins may evolve while the user trusts certain names: a name is pinned when it has no pin, or
-- pinned anew when the user trusts it.
pub data Evolves (Trusts : Text → Type 0) : Pins → Pins → Type 0 where
  stay : {p q : Pins} → ((n : Text) → q n ≡ p n) → Evolves Trusts p q
  first : {p q : Pins} → (name fp : Text) → p name ≡ none → Sets name fp p q → Evolves Trusts p q
  trust : {p q : Pins} → (name fp : Text) → Trusts name → Sets name fp p q → Evolves Trusts p q
  next : {p q r : Pins} → Evolves Trusts p q → Evolves Trusts q r → Evolves Trusts p r

insert-Sets : (name fp : Text) (m : Dict) → Sets name fp (pins_of m) (pins_of (insert name fp m))
insert-Sets name fp m n = lookup-insert name n fp m

pub insert-first :
    {Trusts : Text → Type 0} (name fp : Text) (m : Dict)
    → lookup name m ≡ none
    → Evolves Trusts (pins_of m) (pins_of (insert name fp m))
insert-first name fp m h = first name fp h (insert-Sets name fp m)

pub insert-trust :
    {Trusts : Text → Type 0} (name fp : Text) (m : Dict)
    → Trusts name
    → Evolves Trusts (pins_of m) (pins_of (insert name fp m))
insert-trust name fp m h = trust name fp h (insert-Sets name fp m)

-- More may be trusted.
pub Evolves-more :
    {T U : Text → Type 0} {p q : Pins} → ((n : Text) → T n → U n) → Evolves T p q → Evolves U p q
Evolves-more h (stay e) = stay e
Evolves-more h (first name fp n e) = first name fp n e
Evolves-more h (trust name fp t e) = trust name fp (h name t) e
Evolves-more h (next a b) = next (Evolves-more h a) (Evolves-more h b)

-- One entry set for a name that is not pinned, or for a name that the user trusts.
set_kept :
    (n name fp old : Text) (p q : Pins)
    → Sets n fp p q
    → (n ≡ name → ⊥)
    → p name ≡ some old
    → q name ≡ some old
set_kept n name fp old p q set other h = elim (Bool-cases (text_eq n name)) [
  | inl e ↦ absurd (other ((text_eq_iff n name).0 e))
  | inr e ↦ set name ∙ rw e h
]

-- A pin of a name that the user does not trust is kept.
pub Evolves-kept :
    {T : Text → Type 0} {p q : Pins} (name old : Text)
    → Evolves T p q
    → (T name → ⊥)
    → p name ≡ some old
    → q name ≡ some old
Evolves-kept name old (stay e) kept h = e name ∙ h
Evolves-kept {T} {p} {q} name old (first n fp free set) kept h =
    set_kept n name fp old p q set (λ e. absurd (pinned (ap p e))) h
  where
    pinned : p n ≡ p name → ⊥
    pinned e = cc (e, free, h)
Evolves-kept {T} {p} {q} name old (trust n fp t set) kept h =
    set_kept n name fp old p q set (λ e. kept (subst T e t)) h
Evolves-kept name old (next a b) kept h =
    Evolves-kept name old b kept (Evolves-kept name old a kept h)
