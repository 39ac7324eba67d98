-- ===== src/App/Chats/Find.antt =====
-- The chat that an id names in the list of main.rs, and what a change of one chat and a move do to it.
use e2e_console_messenger.Base.{
  ℕ, suc, ◌≡◌, ◌∙◌, refl, ap, inl, inr, Bool, true, false, Option, none, some, List, [], ◌∷◌, Text,
  text_eq, text_eq_iff, if◌then◌else◌, arith, Option-cases, Bool-cases,
}
use e2e_console_messenger.App.State.{Chat}
use e2e_console_messenger.App.Chats.{position, modify, remove}

-- The chat that an id names.
unfoldable pub find_chat : Text → List Chat → Option Chat
find_chat id [] = none
find_chat id (ch ∷ chats) =
    let rest = find_chat id chats in if text_eq ch.id id then some ch else rest

-- One chat put in, the others as they were.
abbrev pub Puts : Text → Chat → List Chat → List Chat → Type 0
Puts id ch before after =
    (n : Text) → find_chat n after ≡ (if text_eq id n then some ch else find_chat n before)

pub text_eq_refl : (id : Text) → text_eq id id ≡ true
text_eq_refl id = (text_eq_iff id id).1 refl

pub text_eq_ne : (a b n : Text) → text_eq a b ≡ false → text_eq b n ≡ true → text_eq a n ≡ false
text_eq_ne a b n h k = rw (← (text_eq_iff b n).0 k) h

pub find-position-none :
    (id : Text) (chats : List Chat) → position id chats ≡ none → find_chat id chats ≡ none
unfolding position find_chat
find-position-none id [] h = refl
find-position-none id (ch ∷ chats) h = elim (Bool-cases (text_eq ch.id id)) [
  | inl e ↦ let h' = rw e at h in cc
  | inr e ↦ elim (Option-cases (position id chats)) [
    | inl k ↦ rw e (find-position-none id chats k)
    | inr (j, k) ↦ let h' = rw (e, k) at h in cc
  ]
]

position-nil : (id : Text) (i : ℕ) → position id [] ≡ some i → ⊥
unfolding position
position-nil id i p = cc

-- Where a position is computed, one chat further.
position-here :
    (id : Text) (ch : Chat) (chats : List Chat) (i : ℕ)
    → text_eq ch.id id ≡ true
    → position id (ch ∷ chats) ≡ some i
    → i ≡ 0
unfolding position
position-here id ch chats i e p = let p' = rw e at p in cc

position-there :
    (id : Text) (ch : Chat) (chats : List Chat) (i : ℕ)
    → text_eq ch.id id ≡ false
    → position id (ch ∷ chats) ≡ some i
    → (j : ℕ) × (i ≡ suc j) × (position id chats ≡ some j)
unfolding position
position-there id ch chats i e p = elim (Option-cases (position id chats)) [
  | inl k ↦ let p' = rw (e, k) at p in cc
  | inr (j, k) ↦ let p' = rw (e, k) at p in (j, cc, k)
]

position-cons :
    (id : Text) (ch : Chat) (chats : List Chat)
    → text_eq ch.id id ≡ true
    → position id (ch ∷ chats) ≡ some 0
unfolding position
position-cons id ch chats e = rw e refl

position-later :
    (id : Text) (ch : Chat) (chats : List Chat) (i : ℕ)
    → text_eq ch.id id ≡ false
    → position id chats ≡ some i
    → position id (ch ∷ chats) ≡ some (suc i)
unfolding position
position-later id ch chats i e h = rw (e, h) refl

module _ {ℓ} {A : Type ℓ} (x y z : A) where
  if_again :
      (a b c : Bool) → a ≡ b → c ≡ b → (if a then x else z) ≡ (if b then x else if c then y else z)
  if_again a true c h k = rw h refl
  if_again a false c h k = rw (h, k) refl

  pub if_swap :
      (a b : Bool)
      → (b ≡ true → a ≡ false)
      → (if a then x else if b then y else z) ≡ (if b then y else if a then x else z)
  if_swap true true h = let k = h refl in cc
  if_swap true false h = refl
  if_swap false b h = refl

-- The first chat with an id changed, the id kept.
abbrev pub Modified : (Chat → Chat) → Text → List Chat → ℕ → Type 0
Modified f id chats i =
    (l : List Chat) × (old : Chat) × (modify i f chats ≡ some l)
    × (find_chat id chats ≡ some old)
    × (position id l ≡ some i)
    × Puts id (f old) chats l

pub modify_lem :
    (f : Chat → Chat) (id : Text) (chats : List Chat) (i : ℕ)
    → ((ch : Chat) → (f ch).id ≡ ch.id)
    → position id chats ≡ some i
    → Modified f id chats i
unfolding modify find_chat
modify_lem f id [] i same p = absurd (position-nil id i p)
modify_lem f id (ch ∷ chats) i same p = elim (Bool-cases (text_eq ch.id id)) [
  | inl e ↦ rw (position-here id ch chats i e p) (
    f ch ∷ chats,
    ch,
    refl,
    rw e refl,
    position-cons id (f ch) chats (rw (same ch) e),
    λ n.
        if_again (some (f ch)) (some ch) (find_chat n chats) (text_eq (f ch).id n) (text_eq id n)
          (text_eq ch.id n) (ap (λ t. text_eq t n) (same ch ∙ named e))
          (ap (λ t. text_eq t n) (named e)),
  )
  | inr e ↦
      let (j, at_j, p') = position-there id ch chats i e p in
      let (l, old, h, g, q, puts) = modify_lem f id chats j same p' in
      rw at_j (
        ch ∷ l,
        old,
        rw h refl,
        rw (e, g) refl,
        position-later id ch l j e q,
        λ n. rw (puts n) (
            if_swap (some ch) (some (f old)) (find_chat n chats) (text_eq ch.id n) (text_eq id n)
              (text_eq_ne ch.id id n e)),
      )
]
  where
    named : text_eq ch.id id ≡ true → ch.id ≡ id
    named e = (text_eq_iff ch.id id).0 e

-- The first chat with an id moved to the top.
pub remove_view :
    (id : Text) (l : List Chat) (i : ℕ)
    → position id l ≡ some i
    → (x : Chat) × (r : List Chat) × (remove i l ≡ some (x, r))
      × (x.id ≡ id)
      × ((n : Text) → find_chat n (x ∷ r) ≡ find_chat n l)
unfolding remove find_chat
remove_view id [] i p = absurd (position-nil id i p)
remove_view id (ch ∷ l) i p = elim (Bool-cases (text_eq ch.id id)) [
  | inl e ↦ rw (position-here id ch l i e p) (ch, l, refl, (text_eq_iff ch.id id).0 e, λ n. refl)
  | inr e ↦
      let (j, at_j, p') = position-there id ch l i e p in
      let (x, r, h, same, view) = remove_view id l j p' in
      rw at_j (
        x,
        ch ∷ r,
        rw h refl,
        same,
        λ n.
            (if_swap (some x) (some ch) (find_chat n r) (text_eq x.id n) (text_eq ch.id n)
              (other x n e same))
            ∙ rw (view n) refl,
      )
]
  where
    other :
        (x : Chat) (n : Text)
        → text_eq ch.id id ≡ false
        → x.id ≡ id
        → text_eq ch.id n ≡ true
        → text_eq x.id n ≡ false
    other x n e same k =
        ground (arith, text_eq_iff ch.id n, text_eq_iff x.id n, text_eq_iff ch.id id)
