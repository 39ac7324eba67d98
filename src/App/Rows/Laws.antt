-- ===== src/App/Rows/Laws.antt =====
-- The rows of the chat that is shown: its messages, their dates and their groups.
use e2e_console_messenger.Base.{
  ◌≡◌, refl, ap, Bool, false, Option, none, some, List, [], ◌∷◌, ◌++◌, ◌&&◌, ◌||◌, true, not, Text,
  text_eq, text_eq_iff, Bool-cases, inl, inr, ◌≢◌, ◌⊎◌, is_empty, arith,
}
use e2e_console_messenger.Base.Filtered.{Filtered}
use e2e_console_messenger.App.State.{Msg}
use e2e_console_messenger.App.Rows.Contains.{
  Contains, contains_text-Contains, Contains-contains_text, is_empty-nil,
}
use e2e_console_messenger.App.Rows.{
  Row, separator, bubble, Above, same_mine, is_same, dated, is_hidden, msg_rows, rows_from,
  contains_text, chat_rows,
}

-- The messages of rows.
abbrev pub messages : List Row → List Msg
messages [] = []
messages (separator date ∷ rows) = messages rows
messages (bubble m first ∷ rows) = m ∷ messages rows

-- The label of a date stands exactly above the messages whose date is another than the one before,
-- at first a given date.
abbrev pub Dated : Text → List Row → Type 0
Dated date [] = Unit
Dated date (bubble m first ∷ rows) = (m.date ≡ date) × Dated date rows
Dated date (separator new ∷ []) = ⊥
Dated date (separator new ∷ separator next ∷ rows) = ⊥
Dated date (separator new ∷ bubble m first ∷ rows) =
    (new ≢ date) × ((m.date ≡ new) × Dated new rows)

-- Whether a message continues the group of the message in the row above, if one stands there: both
-- have one sender, and both or neither are the user's own.
abbrev pub continues : Option Msg → Msg → Bool
continues none m = false
continues (some p) m =
    text_eq p.sender m.sender && ((m.mine && p.mine) || (not m.mine && not p.mine))

same_mine_lem : (a b : Bool) → same_mine a b ≡ ((a && b) || (not a && not b))
unfolding same_mine
same_mine_lem true true = refl
same_mine_lem true false = refl
same_mine_lem false true = refl
same_mine_lem false false = refl

-- Every message is marked as the first of a group if it does not continue one.
abbrev pub Grouped : Option Msg → List Row → Type 0
Grouped above [] = Unit
Grouped above (separator date ∷ rows) = Grouped none rows
Grouped above (bubble m first ∷ rows) = (first ≡ not (continues above m)) × Grouped (some m) rows

-- What the loop keeps is the message in the row above.
abbrev Follows : Above → Option Msg → Type 0
Follows above none = above.sender ≡ none
Follows above (some p) = (above.sender ≡ some p.sender) × (above.mine ≡ p.mine)

is_same-continues :
    (above : Above) (prev : Option Msg) (m : Msg)
    → Follows above prev
    → is_same above m ≡ continues prev m
unfolding is_same
is_same-continues above none m h = rw (h, is_same) refl
is_same-continues above (some p) m (h, k) =
    rw (h, is_same, k) (ap (λ b. text_eq p.sender m.sender && b) (same_mine_lem m.mine p.mine))

module _ (lower : Text → Text) (query : Text) where
  -- The search is in the text or in the sender, in lower case, or there is none.
  abbrev pub IsShown : Msg → Type 0
  IsShown m = (query ≡ []) ⊎ (Contains query (lower m.text) ⊎ Contains query (lower m.sender))

  IsShown-if : (m : Msg) → is_hidden lower query m ≡ false → IsShown m
  unfolding is_hidden
  IsShown-if m h = elim (Bool-cases (is_empty query)) [
    | inl e ↦ inl (is_empty-nil query e)
    | inr e ↦ elim (Bool-cases (contains_text query (lower m.text))) [
      | inl k ↦ inr (inl (contains_text-Contains query (lower m.text) k))
      | inr k ↦ elim (Bool-cases (contains_text query (lower m.sender))) [
        | inl j ↦ inr (inr (contains_text-Contains query (lower m.sender) j))
        | inr j ↦ let h' = rw (e, k, j) at h in cc
      ]
    ]
  ]

  IsShown-unless : (m : Msg) → is_hidden lower query m ≡ true → ¬ IsShown m
  unfolding is_hidden
  IsShown-unless m h (inl e) = let h' = rw e at h in cc
  IsShown-unless m h (inr (inl c)) =
      let k = Contains-contains_text query (lower m.text) c in ground (arith, h, k)
  IsShown-unless m h (inr (inr c)) =
      let k = Contains-contains_text query (lower m.sender) c in ground (arith, h, k)

  -- What is said of rows below others.
  abbrev pub AreRows : Text → Option Msg → List Msg → List Row → Type 0
  AreRows date prev msgs rows =
      Filtered IsShown msgs (messages rows) × Dated date rows × Grouped prev rows

  msg_rows-AreRows :
      (above : Above) (prev : Option Msg) (m : Msg) (msgs : List Msg) (rows : List Row)
      → Follows above prev
      → IsShown m
      → AreRows (dated above m).date (some m) msgs rows
      → AreRows above.date prev (m ∷ msgs) (msg_rows lower above m ++ rows)
  unfolding msg_rows dated
  msg_rows-AreRows above prev m msgs rows f h (a, b, d) =
      elim (Bool-cases (text_eq m.date above.date)) [
        | inl e ↦
            let same_date = (text_eq_iff m.date above.date).0 e in
            let below = rw (e, dated) at b in
            rw e (
              inl (h, (messages rows, refl, a)),
              (same_date, below),
              (ap not (is_same-continues above prev m f), d),
            )
        | inr e ↦
            let below = rw (e, dated) at b in
            let fresh : Above = record { sender = none; mine = false; date = m.date } in
            let other : m.date ≢ above.date =
              λ same. (let k = (text_eq_iff m.date above.date).1 same in cc) in
            rw e (
              inl (h, (messages rows, refl, a)),
              (other, (refl, below)),
              (ap not (is_same-continues fresh none m refl), d),
            )
      ]

  rows_from-AreRows :
      (above : Above) (prev : Option Msg) (msgs : List Msg)
      → Follows above prev
      → AreRows above.date prev msgs (rows_from lower query above msgs)
  unfolding rows_from
  rows_from-AreRows above prev [] f = (refl, tt, tt)
  rows_from-AreRows above prev (m ∷ msgs) f = elim (Bool-cases (is_hidden lower query m)) [
    | inl e ↦
        let (a, b, d) = rows_from-AreRows above prev msgs f in
        rw e (inr (IsShown-unless m e, a), b, d)
    | inr e ↦
        let after : Above = record {
          sender = some m.sender;
          mine = m.mine;
          date = (dated above m).date;
        } in
        rw e (
          msg_rows-AreRows above prev m msgs (rows_from lower query after msgs) f (IsShown-if m e)
            (rows_from-AreRows after (some m) msgs (refl, refl)))
  ]

-- The rows of a chat show exactly the messages whose text or sender holds the search, in lower case,
-- in their order; the label of a date stands exactly above the messages whose date is another than
-- that of the message shown before, at first the empty one; and a message is drawn as the first of a
-- group exactly if it does not stand directly below a message of the same sender.
pub chat_rows-AreRows :
    (lower : Text → Text) (search : Text) (msgs : List Msg)
    → AreRows lower (lower search) [] none msgs (chat_rows lower search msgs)
unfolding chat_rows
chat_rows-AreRows lower search msgs = rows_from-AreRows lower (lower search) _ none msgs refl
