-- ===== src/App/Toast/Laws.antt =====
-- `xml_esc`: its five replacements in a row are one replacement of each character.
use e2e_console_messenger.Base.{
  ℕ, ◌≡◌, ◌∙◌, refl, ap, false, [], ◌∷◌, ◌++◌, append_assoc, ◌==◌, ==_iff, Text, codes,
  if◌then◌else◌, Bool-cases, inl, inr, arith, ◌⊎◌, zero, suc, ◌≤◌, length-append, Option, none,
  some, length, All-append, strip_prefix, Lacks,
}
use e2e_console_messenger.App.Toast.{replace, xml_esc}

-- What stands for a character in XML.
abbrev pub entity : ℕ → Text
entity ch =
    if ch == b'&'
    then codes "&amp;"
    else if ch == b'<'
    then codes "&lt;"
    else if ch == b'>'
    then codes "&gt;"
    else if ch == b'"'
    then codes "&quot;"
    else if ch == b'\''
    then codes "&apos;"
    else ch ∷ []

abbrev pub entities : Text → Text
entities [] = []
entities (ch ∷ s) = entity ch ++ entities s

replace-append :
    (from : ℕ) (to xs ys : Text)
    → replace from to (xs ++ ys) ≡ replace from to xs ++ replace from to ys
unfolding replace
replace-append from to [] ys = refl
replace-append from to (x ∷ xs) ys = elim (Bool-cases (x == from)) [
  | inl e ↦ rw (e, replace-append from to xs ys, append_assoc to (replace from to xs)) refl
  | inr e ↦ rw (e, replace-append from to xs ys) refl
]

xml_esc-append : (xs ys : Text) → xml_esc (xs ++ ys) ≡ xml_esc xs ++ xml_esc ys
unfolding xml_esc
xml_esc-append xs ys =
    rw
      (
        replace-append b'&' (codes "&amp;") xs ys,
        replace-append b'<' (codes "&lt;") _ (replace b'&' (codes "&amp;") ys),
        replace-append b'>' (codes "&gt;"),
        replace-append b'"' (codes "&quot;"),
        replace-append b'\'' (codes "&apos;"),
      )
      refl

xml_esc_one : (ch : ℕ) → xml_esc (ch ∷ []) ≡ entity ch
unfolding xml_esc replace
xml_esc_one ch = elim (Bool-cases (ch == b'&')) [
  | inl e0 ↦ rw ((==_iff ch b'&').0 e0) refl
  | inr e0 ↦ elim (Bool-cases (ch == b'<')) [
    | inl e1 ↦ rw ((==_iff ch b'<').0 e1) refl
    | inr e1 ↦ elim (Bool-cases (ch == b'>')) [
      | inl e2 ↦ rw ((==_iff ch b'>').0 e2) refl
      | inr e2 ↦ elim (Bool-cases (ch == b'"')) [
        | inl e3 ↦ rw ((==_iff ch b'"').0 e3) refl
        | inr e3 ↦ elim (Bool-cases (ch == b'\'')) [
          | inl e4 ↦ rw ((==_iff ch b'\'').0 e4) refl
          | inr e4 ↦ rw (e0, e1, e2, e3, e4) refl
        ]
      ]
    ]
  ]
]

xml_esc-cons : (ch : ℕ) (s : Text) → xml_esc (ch ∷ s) ≡ entity ch ++ xml_esc s
xml_esc-cons ch s = xml_esc-append (ch ∷ []) s ∙ ap (λ t. t ++ xml_esc s) (xml_esc_one ch)

xml_esc-entities : (s : Text) → xml_esc s ≡ entities s
xml_esc-entities [] = unfold xml_esc replace in refl
xml_esc-entities (ch ∷ s) = xml_esc-cons ch s ∙ ap (λ t. entity ch ++ t) (xml_esc-entities s)

-- The characters that XML reads as markup.
abbrev pub IsMarkup : ℕ → Type 0
IsMarkup b = (b ≡ b'<') ⊎ ((b ≡ b'>') ⊎ ((b ≡ b'"') ⊎ (b ≡ b'\'')))

-- What XML reads for an entity at the beginning of a text.
named_entity : ℕ → Text → Text → Option (ℕ × Text) → Option (ℕ × Text)
named_entity ch name t more = elim (strip_prefix name t) [
  | none ↦ more
  | some rest ↦ some (ch, rest)
]

unfoldable pub read_entity : Text → Option (ℕ × Text)
unfolding named_entity
read_entity t = named_entity b'&' (codes "&amp;") t (
    named_entity b'<' (codes "&lt;") t (
      named_entity b'>' (codes "&gt;") t
        (named_entity b'"' (codes "&quot;") t (named_entity b'\'' (codes "&apos;") t none))))

-- Text as XML reads it, up to a number of characters.
unfoldable pub xml_text : ℕ → Text → Text
xml_text zero t = []
xml_text (suc n) [] = []
xml_text (suc n) (ch ∷ t) =
    let plain = xml_text n t in
    elim (read_entity (ch ∷ t)) [ none ↦ ch ∷ plain | some (c, rest) ↦ c ∷ xml_text n rest ]

entity-Lacks : (b ch : ℕ) → IsMarkup b → Lacks b (entity ch)
entity-Lacks b ch h = ground arith

named_entity_plain :
    (c : ℕ) (name : Text) (ch : ℕ) (t : Text) (more : Option (ℕ × Text))
    → (b'&' == ch) ≡ false
    → named_entity c (b'&' ∷ name) (ch ∷ t) more ≡ more
unfolding named_entity
named_entity_plain c name ch t more e = rw (strip, named_entity) refl
  where
    strip : strip_prefix (b'&' ∷ name) (ch ∷ t) ≡ none
    strip = unfold strip_prefix in rw (e, strip_prefix) refl

read_entity_plain : (ch : ℕ) (t : Text) → (b'&' == ch) ≡ false → read_entity (ch ∷ t) ≡ none
unfolding read_entity
read_entity_plain ch t e =
    named_entity_plain b'&' (codes "amp;") ch t _ e
    ∙ named_entity_plain b'<' (codes "lt;") ch t _ e
    ∙ named_entity_plain b'>' (codes "gt;") ch t _ e
    ∙ named_entity_plain b'"' (codes "quot;") ch t _ e
    ∙ named_entity_plain b'\'' (codes "apos;") ch t _ e

xml_text_plain :
    (n ch : ℕ) (t : Text) → (ch == b'&') ≡ false → xml_text (suc n) (ch ∷ t) ≡ ch ∷ xml_text n t
unfolding xml_text
xml_text_plain n ch t e = rw (read_entity_plain ch t flip, xml_text) refl
  where
    flip : (b'&' == ch) ≡ false
    flip = ground (arith, ==_iff ch b'&', ==_iff b'&' ch)

xml_text-entity : (n ch : ℕ) (t : Text) → xml_text (suc n) (entity ch ++ t) ≡ ch ∷ xml_text n t
unfolding xml_text read_entity strip_prefix
xml_text-entity n ch t = elim (Bool-cases (ch == b'&')) [
  | inl e0 ↦ rw ((==_iff ch b'&').0 e0) refl
  | inr e0 ↦ elim (Bool-cases (ch == b'<')) [
    | inl e1 ↦ rw ((==_iff ch b'<').0 e1) refl
    | inr e1 ↦ elim (Bool-cases (ch == b'>')) [
      | inl e2 ↦ rw ((==_iff ch b'>').0 e2) refl
      | inr e2 ↦ elim (Bool-cases (ch == b'"')) [
        | inl e3 ↦ rw ((==_iff ch b'"').0 e3) refl
        | inr e3 ↦ elim (Bool-cases (ch == b'\'')) [
          | inl e4 ↦ rw ((==_iff ch b'\'').0 e4) refl
          | inr e4 ↦ rw (e0, e1, e2, e3, e4) (xml_text_plain n ch t e0)
        ]
      ]
    ]
  ]
]

length-entity : (ch : ℕ) → 1 ≤ length (entity ch)
length-entity ch = ground arith

-- As much as there is to read is enough.
xml_text-entities : (s : Text) (n : ℕ) → length (entities s) ≤ n → xml_text n (entities s) ≡ s
xml_text-entities [] zero h = unfold xml_text in refl
xml_text-entities [] (suc n) h = unfold xml_text in refl
xml_text-entities (ch ∷ s) zero h =
    absurd (omega (arith, length-append (entity ch) (entities s), length-entity ch, h))
xml_text-entities (ch ∷ s) (suc n) h =
    xml_text-entity n ch (entities s)
    ∙ ap (λ t. ch ∷ t)
        (xml_text-entities s n
          (omega (arith, length-append (entity ch) (entities s), length-entity ch, h)))

entities-Lacks : (b : ℕ) (s : Text) → IsMarkup b → Lacks b (entities s)
entities-Lacks b [] h = tt
entities-Lacks b (ch ∷ s) h =
    All-append _ (entity ch) (entities s) (entity-Lacks b ch h) (entities-Lacks b s h)

-- The text of a notification holds no character that XML reads as markup, whatever a message says,
-- and XML, reading all of it, reads exactly the text that it was.
pub xml_text-xml_esc :
    (s : Text) (b : ℕ)
    → IsMarkup b
    → (xml_text (length (xml_esc s)) (xml_esc s) ≡ s) × Lacks b (xml_esc s)
xml_text-xml_esc s b h =
    rw (xml_esc-entities s) (xml_text-entities s _ (omega arith), entities-Lacks b s h)
