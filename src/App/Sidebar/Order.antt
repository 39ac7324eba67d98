-- ===== src/App/Sidebar/Order.antt =====
-- The order of the sidebar's rows, and which rows `sort_by` and a filter of the chats keep.
use e2e_console_messenger.Base.{
  ℕ, zero, suc, ◌+◌, ◌<◌, ◌≤◌, ◌≡◌, ◌∙◌, sym, ap, ◌⊎◌, refl, Bool, true, some, List, [], ◌∷◌, ltb,
  ltb→lt, ltb→le, length, get_elem?, All, retain, Bool-cases, inl, inr, arith,
}
use mathlib.Core.Option.{some-injective}
use e2e_console_messenger.Base.Sort.{insert_by, sort_by, All-insert_by, All-sort_by}
use e2e_console_messenger.App.State.{Chat}
use e2e_console_messenger.App.Sidebar.{indexed, activity}

-- A row stands before another: its chat was active later, or at the same time and is nearer to the
-- beginning of the chats.
abbrev pub Before : ℕ × Chat → ℕ × Chat → Type 0
Before a b =
    (b.1.last_activity < a.1.last_activity)
    ⊎ ((b.1.last_activity ≡ a.1.last_activity) × (a.0 < b.0))

abbrev pub Ordered : List (ℕ × Chat) → Type 0
Ordered [] = Unit
Ordered (row ∷ rows) = All (Before row) rows × Ordered rows

-- A row is one of some rows.
abbrev pub IsOf : ℕ × Chat → List (ℕ × Chat) → Type 0
IsOf row [] = ⊥
IsOf row (r ∷ rows) = (row ≡ r) ⊎ IsOf row rows

-- Sorting keeps the rows.
module _ (row : ℕ × Chat) where
  insert_by-to :
      (r : ℕ × Chat) (rows : List (ℕ × Chat))
      → IsOf row (insert_by activity r rows)
      → IsOf row (r ∷ rows)
  unfolding insert_by
  insert_by-to r [] h = h
  insert_by-to r (x ∷ rows) h = elim (Bool-cases (ltb (activity r) (activity x))) [
    | inl e ↦ elim (rw e at h) [
      | inl k ↦ inr (inl k)
      | inr k ↦ elim (insert_by-to r rows k) [ inl j ↦ inl j | inr j ↦ inr (inr j) ]
    ]
    | inr e ↦ rw e at h
  ]

  insert_by-from :
      (r : ℕ × Chat) (rows : List (ℕ × Chat))
      → IsOf row (r ∷ rows)
      → IsOf row (insert_by activity r rows)
  unfolding insert_by
  insert_by-from r [] h = h
  insert_by-from r (x ∷ rows) h = elim (Bool-cases (ltb (activity r) (activity x))) [
    | inl e ↦ rw e (elim h [
      | inl k ↦ inr (insert_by-from r rows (inl k))
      | inr k ↦ elim k [ inl j ↦ inl j | inr j ↦ inr (insert_by-from r rows (inr j)) ]
    ])
    | inr e ↦ rw e h
  ]

  pub sort_by-to : (rows : List (ℕ × Chat)) → IsOf row (sort_by activity rows) → IsOf row rows
  unfolding sort_by
  sort_by-to [] h = h
  sort_by-to (r ∷ rows) h = elim (insert_by-to r (sort_by activity rows) h) [
    | inl k ↦ inl k
    | inr k ↦ inr (sort_by-to rows k)
  ]

  pub sort_by-from : (rows : List (ℕ × Chat)) → IsOf row rows → IsOf row (sort_by activity rows)
  unfolding sort_by
  sort_by-from [] h = h
  sort_by-from (r ∷ rows) (inl k) = insert_by-from r (sort_by activity rows) (inl k)
  sort_by-from (r ∷ rows) (inr k) =
      insert_by-from r (sort_by activity rows) (inr (sort_by-from rows k))

  module _ (p : ℕ × Chat → Bool) where
    pub retain-to :
        (rows : List (ℕ × Chat)) → IsOf row (retain p rows) → IsOf row rows × (p row ≡ true)
    retain-to [] h = absurd h
    retain-to (r ∷ rows) h = elim (Bool-cases (p r)) [
      | inl e ↦ elim (rw e at h) [
        | inl k ↦ (inl k, ap p k ∙ e)
        | inr k ↦ let (j, t) = retain-to rows k in (inr j, t)
      ]
      | inr e ↦ let (j, t) = retain-to rows (rw e at h) in (inr j, t)
    ]

    pub retain-from :
        (rows : List (ℕ × Chat)) → IsOf row rows → p row ≡ true → IsOf row (retain p rows)
    retain-from [] h t = absurd h
    retain-from (r ∷ rows) (inl k) t = rw (← k, t) (inl refl)
    retain-from (r ∷ rows) (inr k) t = elim (Bool-cases (p r)) [
      | inl e ↦ rw e (inr (retain-from rows k t))
      | inr e ↦ rw e (retain-from rows k t)
    ]

pub indexed-to :
    (j i : ℕ) (ch : Chat) (chats : List Chat)
    → IsOf (j, ch) (indexed i chats)
    → (k : ℕ) × (j ≡ i + k) × (get_elem? chats k ≡ some ch)
unfolding indexed
indexed-to j i ch [] h = absurd h
indexed-to j i ch (c ∷ chats) (inl e) =
    let same : j ≡ i = ap (λ (r : ℕ × Chat). r.0) e in
    (0, omega (arith, same), ap some (sym (ap (λ (r : ℕ × Chat). r.1) e)))
indexed-to j i ch (c ∷ chats) (inr h) =
    let (k, e, g) = indexed-to j (suc i) ch chats h in (suc k, omega (arith, e), g)

pub indexed-from :
    (j i k : ℕ) (ch : Chat) (chats : List Chat)
    → j ≡ i + k
    → get_elem? chats k ≡ some ch
    → IsOf (j, ch) (indexed i chats)
unfolding indexed
indexed-from j i k ch [] e g = cc
indexed-from j i zero ch (c ∷ chats) e g =
    let same : j ≡ i = omega (arith, e) in
    inl (ap (λ n. (n, ch)) same ∙ ap (λ x. (i, x)) (sym (some-injective c ch g)))
indexed-from j i (suc k) ch (c ∷ chats) e g =
    inr (indexed-from j (suc i) k ch chats (omega (arith, e)) g)

-- Rows in the order of the chats.
abbrev pub Ascending : List (ℕ × Chat) → Type 0
Ascending [] = Unit
Ascending (row ∷ rows) = All (λ x. row.0 < x.0) rows × Ascending rows

pub All-retain :
    (P : ℕ × Chat → Type 0) (p : ℕ × Chat → Bool) (xs : List (ℕ × Chat))
    → All P xs
    → All P (retain p xs)
All-retain P p [] h = tt
All-retain P p (x ∷ xs) h = elim (Bool-cases (p x)) [
  | inl e ↦ rw e (h.0, All-retain P p xs h.1)
  | inr e ↦ rw e (All-retain P p xs h.1)
]

pub indexed-All :
    (P : ℕ → Type 0) (i : ℕ) (chats : List Chat)
    → ((j : ℕ) → i ≤ j → j < i + length chats → P j)
    → All (λ row. P row.0) (indexed i chats)
unfolding indexed
indexed-All P i [] h = tt
indexed-All P i (ch ∷ chats) h = (
  h i (omega arith) (omega arith),
  indexed-All P (suc i) chats (λ j le lt. h j (omega (arith, le)) (omega (arith, lt))),
)

pub retain-Ascending :
    (p : ℕ × Chat → Bool) (i : ℕ) (chats : List Chat) → Ascending (retain p (indexed i chats))
unfolding indexed
retain-Ascending p i [] = tt
retain-Ascending p i (ch ∷ chats) = elim (Bool-cases (p (i, ch))) [
  | inl e ↦ rw e (
    All-retain (λ row. i < row.0) p (indexed (suc i) chats)
        (indexed-All (λ j. i < j) (suc i) chats (λ j le lt. omega (arith, le))),
    retain-Ascending p (suc i) chats,
  )
  | inr e ↦ rw e (retain-Ascending p (suc i) chats)
]

Before-of : (a b : ℕ × Chat) → b.1.last_activity ≤ a.1.last_activity → a.0 < b.0 → Before a b
Before-of a b le lt = elim (Bool-cases (ltb b.1.last_activity a.1.last_activity)) [
  | inl e ↦ inl (ltb→lt b.1.last_activity a.1.last_activity e)
  | inr e ↦ let ge = ltb→le b.1.last_activity a.1.last_activity e in inr (omega (arith, le, ge), lt)
]

Before-le : (a b : ℕ × Chat) → Before a b → b.1.last_activity ≤ a.1.last_activity
Before-le a b (inl h) = omega (arith, h)
Before-le a b (inr h) = omega (arith, h.0)

-- What is not active later than a row that stands before others.
All-Before :
    (r x : ℕ × Chat) (rows : List (ℕ × Chat))
    → x.1.last_activity ≤ r.1.last_activity
    → All (Before x) rows
    → All (λ z. r.0 < z.0) rows
    → All (Before r) rows
All-Before r x [] le h k = tt
All-Before r x (z ∷ rows) le h k =
    let below = Before-le x z h.0 in
    (Before-of r z (omega (arith, le, below)) k.0, All-Before r x rows le h.1 k.1)

insert_by-Ordered :
    (r : ℕ × Chat) (rows : List (ℕ × Chat))
    → All (λ z. r.0 < z.0) rows
    → Ordered rows
    → Ordered (insert_by activity r rows)
unfolding insert_by
insert_by-Ordered r [] h o = (tt, tt)
insert_by-Ordered r (x ∷ rows) h o = elim (Bool-cases (ltb (activity r) (activity x))) [
  | inl e ↦
      let lt = ltb→lt (activity r) (activity x) e in
      rw e (All-insert_by activity (Before x) r rows (inl lt) o.0, insert_by-Ordered r rows h.1 o.1)
  | inr e ↦
      let le = ltb→le (activity r) (activity x) e in
      rw e ((Before-of r x le h.0, All-Before r x rows le o.0 h.1), o)
]

pub sort_by-Ordered : (rows : List (ℕ × Chat)) → Ascending rows → Ordered (sort_by activity rows)
unfolding sort_by
sort_by-Ordered [] h = tt
sort_by-Ordered (r ∷ rows) h =
    insert_by-Ordered r (sort_by activity rows) (All-sort_by activity (λ z. r.0 < z.0) rows h.0)
      (sort_by-Ordered rows h.1)
