-- ===== src/App/Rows/Contains.antt =====
-- `contains_text`, the `contains` of main.rs, finds a text exactly where it stands.
use e2e_console_messenger.Base.{
  ◌≡◌, ◌∙◌, refl, ap, sym, true, some, [], ◌∷◌, ◌++◌, ◌==◌, ==_iff, Text, is_empty, starts_with,
  strip_prefix, strip_prefix-append, Bool-cases, Option-cases, inl, inr, arith,
}
use mathlib.Core.Option.{some-injective}
use e2e_console_messenger.App.Rows.{contains_text}

-- A text stands somewhere in another.
abbrev pub Contains : Text → Text → Type 0
Contains p s = (before : Text) × (after : Text) × (s ≡ before ++ (p ++ after))

strip_prefix_inv : (p s after : Text) → strip_prefix p s ≡ some after → s ≡ p ++ after
unfolding strip_prefix
strip_prefix_inv [] s after h = some-injective s after h
strip_prefix_inv (a ∷ p) [] after h = cc
strip_prefix_inv (a ∷ p) (b ∷ s) after h = elim (Bool-cases (a == b)) [
  | inl e ↦
      let rest = strip_prefix_inv p s after (rw e at h) in
      ap (λ x. x ∷ s) (sym ((==_iff a b).0 e)) ∙ ap (λ t. a ∷ t) rest
  | inr e ↦ let h' = rw e at h in cc
]

pub starts_with_inv : (p s : Text) → starts_with p s ≡ true → (after : Text) × (s ≡ p ++ after)
unfolding starts_with
starts_with_inv p s h = elim (Option-cases (strip_prefix p s)) [
  | inl e ↦ let h' = rw (e, starts_with) at h in cc
  | inr (after, e) ↦ (after, strip_prefix_inv p s after e)
]

pub contains_text-Contains : (p s : Text) → contains_text p s ≡ true → Contains p s
unfolding contains_text
contains_text-Contains [] [] h = ([], [], refl)
contains_text-Contains (a ∷ p) [] h = cc
contains_text-Contains p (ch ∷ s) h = elim (Bool-cases (starts_with p (ch ∷ s))) [
  | inl e ↦ let (after, k) = starts_with_inv p (ch ∷ s) e in ([], after, k)
  | inr e ↦
      let (before, after, k) = contains_text-Contains p s (rw e at h) in
      (ch ∷ before, after, ap (λ t. ch ∷ t) k)
]

found_first : (p after : Text) → contains_text p (p ++ after) ≡ true
unfolding contains_text starts_with
found_first [] [] = refl
found_first [] (ch ∷ s) = unfold strip_prefix in refl
found_first (a ∷ p) after = rw (strip_prefix-append (a ∷ p) after, contains_text, starts_with) refl

contains_text_at : (p before after : Text) → contains_text p (before ++ (p ++ after)) ≡ true
unfolding contains_text
contains_text_at p [] after = found_first p after
contains_text_at p (ch ∷ before) after = ground (arith, contains_text_at p before after)

pub Contains-contains_text : (p s : Text) → Contains p s → contains_text p s ≡ true
Contains-contains_text p s (before, after, e) = rw e (contains_text_at p before after)

pub is_empty-nil : (s : Text) → is_empty s ≡ true → s ≡ []
is_empty-nil [] h = refl
is_empty-nil (a ∷ s) h = cc
