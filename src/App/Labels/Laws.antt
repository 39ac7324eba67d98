-- ===== src/App/Labels/Laws.antt =====
-- The text functions of main.rs: names and bounds.
use e2e_console_messenger.Base.{
  ℕ, ◌-◌, ◌%◌, ◌≤◌, ◌≡◌, ◌≢◌, ◌∙◌, sym, refl, inl, inr, false, some, ◌∷◌, ◌++◌, leb, length,
  length-append, length-take, take, get_elem?_total, leb→le, Text, codes, text_eq, text_eq_iff,
  trim, trim_start, trim_start_matches, trim-NoSpace, NoSpace, is_whitespace, arith, Bool-cases,
}
use mathlib.Core.Path.{subst}
use e2e_console_messenger.Base.Utf8.{as_bytes}
use e2e_console_messenger.App.State.{room_chat}
use e2e_console_messenger.App.Labels.{
  room_name_of, room_chat_id, truncate, hash_bytes, avatar_index, palette, avatar_color,
}

space_not : is_whitespace b' ' ≢ false
unfolding is_whitespace
space_not e = cc

room_of_id : (room : Text) → NoSpace room → text_eq (codes "# " ++ room) room_chat ≡ false
room_of_id room h = elim (Bool-cases (text_eq room (codes "Общая комната"))) [
  | inl e ↦
      let spaced = subst NoSpace ((text_eq_iff room (codes "Общая комната")).0 e) h in
      absurd (space_not spaced.1.1.1.1.1.0)
  | inr e ↦ unfold text_eq in e
]

trim-space : (s : Text) → trim (b' ' ∷ s) ≡ trim s
unfolding trim trim_start trim_start_matches is_whitespace
trim-space s = refl

-- The name of a room that has no white space is found again in the id of its chat.
pub room_name_of-room_chat_id :
    (room : Text) → NoSpace room → room_name_of (room_chat_id room) ≡ room
unfolding room_name_of room_chat_id
room_name_of-room_chat_id room h = elim (Bool-cases (text_eq room (codes "main"))) [
  | inl e ↦ rw e (unfold text_eq in sym ((text_eq_iff room (codes "main")).0 e))
  | inr e ↦
      rw (e, room_of_id room h) (unfold trim_start_matches in trim-space room ∙ trim-NoSpace room h)
]

-- A shortened text has at most as many characters as asked for, at least one.
pub length-truncate : (s : Text) (n : ℕ) → 1 ≤ n → length (truncate s n) ≤ n
unfolding truncate
length-truncate s n h = elim (Bool-cases (leb (length s) n)) [
  | inl e ↦ rw e (leb→le (length s) n e)
  | inr e ↦ rw e (omega (arith, length-append (take (n - 1) s) (codes "…"), length-take (n - 1) s))
]

-- The colour of an avatar is always found in the palette.
pub avatar_color_total : (title : Text) → (colour : ℕ × ℕ × ℕ) × (avatar_color title ≡ some colour)
unfolding avatar_color avatar_index
avatar_color_total title =
    get_elem?_total palette (hash_bytes 5381 (as_bytes title) % 7) (omega arith)
