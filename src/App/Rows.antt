-- ===== src/App/Rows.antt =====
-- The rows of the chat that is shown in main.rs, in `draw_chat_view`: which messages, under which
-- dates, and which begin a group of one sender. `lower` is `str::to_lowercase`.
pub mod Contains
pub mod Laws
use e2e_console_messenger.Base.{
  Bool, true, false, Option, none, some, List, [], ◌∷◌, ◌++◌, ◌&&◌, ◌||◌, not, Text, text_eq,
  is_empty, starts_with, if◌then◌else◌,
}
use e2e_console_messenger.App.State.{Msg}

pub data Row : Type 0 where
  -- the label of a date
  separator : Text → Row
  -- a message, and whether it begins a group
  bubble : Msg → Bool → Row

-- `contains` of a text.
unfoldable pub contains_text : Text → Text → Bool
contains_text p [] = is_empty p
contains_text p (ch ∷ s) =
    let rest = contains_text p s in if starts_with p (ch ∷ s) then true else rest

-- What the loop keeps of the row above.
pub record Above : Type 0 where
  pub sender : Option Text
  pub mine : Bool
  pub date : Text

unfoldable pub same_mine : Bool → Bool → Bool
same_mine a b = if a then b else not b

-- `prev_sender.as_deref() == Some(m.sender.as_str()) && m.mine == prev_mine`.
unfoldable pub is_same : Above → Msg → Bool
unfolding same_mine
is_same above m = elim above.sender [
  | none ↦ false
  | some sender ↦ text_eq sender m.sender && same_mine m.mine above.mine
]

-- A new date begins anew.
unfoldable pub dated : Above → Msg → Above
dated above m =
    if text_eq m.date above.date
    then above
    else record { sender = none; mine = false; date = m.date }

module _ (lower : Text → Text) where
  -- The messages that the search leaves out.
  unfoldable pub is_hidden : Text → Msg → Bool
  unfolding contains_text
  is_hidden query m =
      not (is_empty query)
      && (not (contains_text query (lower m.text)) && not (contains_text query (lower m.sender)))

  -- One message's rows.
  unfoldable pub msg_rows : Above → Msg → List Row
  unfolding is_same dated
  msg_rows above m =
      (if text_eq m.date above.date then [] else separator m.date ∷ [])
      ++ bubble m (not (is_same (dated above m) m)) ∷ []

  unfoldable pub rows_from : Text → Above → List Msg → List Row
  unfolding is_hidden msg_rows
  rows_from query above [] = []
  rows_from query above (m ∷ msgs) =
      let skipped = rows_from query above msgs in
      let after : Above = record {
        sender = some m.sender;
        mine = m.mine;
        date = (dated above m).date;
      } in
      let more = rows_from query after msgs in
      if is_hidden query m then skipped else msg_rows above m ++ more

  unfoldable pub chat_rows : Text → List Msg → List Row
  chat_rows search msgs =
      rows_from (lower search) (record { sender = none; mine = false; date = [] }) msgs
