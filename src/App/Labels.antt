-- ===== src/App/Labels.antt =====
-- The text functions of main.rs: names of rooms, previews, dates, checks on names.
pub mod Laws
use e2e_console_messenger.Base.{
  ℕ, zero, suc, ◌+◌, ◌-◌, ◌*◌, ◌%◌, ◌^◌, Bool, true, false, Option, none, some, List, [], ◌∷◌, ◌++◌,
  ◌==◌, ◌&&◌, ◌||◌, ltb, leb, length, take, last, all, get_elem?, Text, codes, text_eq, is_empty,
  trim, trim_start_matches, trim_end_matches, if◌then◌else◌,
}
use e2e_console_messenger.Base.Utf8.{as_bytes}
use e2e_console_messenger.App.State.{Msg, Chat, room_chat}

unfoldable pub room_name_of : Text → Text
room_name_of chat_id =
    if text_eq chat_id room_chat
    then codes "main"
    else trim (trim_start_matches (λ ch. ch == b'#') chat_id)

unfoldable pub room_chat_id : Text → Text
room_chat_id room = if text_eq room (codes "main") then room_chat else codes "# " ++ room

-- `date_label`, with the dates of today and yesterday.
unfoldable pub date_label : Text → Text → Text → Text
date_label today yesterday d =
    if text_eq d today then codes "Сегодня" else if text_eq d yesterday then codes "Вчера" else d

preview_of : Msg → Text
preview_of m =
    let you = if m.mine then codes "Вы: " else [] in
    let prefix = if m.mine then codes "Вы: " else if m.kind == 0 then m.sender else [] in
    if m.kind == 4
    then you ++ (codes "📎 " ++ m.text)
    else if m.kind == 0
    then trim_end_matches (λ ch. ch == b':') prefix ++ (codes ": " ++ m.text)
    else m.text

unfoldable pub last_preview : Chat → Text
unfolding preview_of
last_preview chat = elim (last chat.msgs) [ none ↦ codes "Нет сообщений" | some m ↦ preview_of m ]

is_user_char : ℕ → Bool
is_user_char ch = (leb b'a' ch && leb ch b'z') || (leb b'0' ch && leb ch b'9') || ch == b'_'

-- `len()` counts bytes.
unfoldable pub user_valid : Text → Bool
unfolding is_user_char
user_valid at =
    let u = trim_start_matches (λ ch. ch == b'@') (trim at) in
    leb 3 (length (as_bytes u)) && leb (length (as_bytes u)) 19 && all is_user_char u

unfoldable pub truncate : Text → ℕ → Text
truncate s n = if leb (length s) n then s else take (n - 1) s ++ codes "…"

-- The index into the palette of seven colours: wrapping u32 arithmetic over the bytes.
hash_bytes : ℕ → List ℕ → ℕ
hash_bytes h [] = h
hash_bytes h (b ∷ s) = hash_bytes ((h + b * 31 % 2 ^ 32) % 2 ^ 32) s

unfoldable pub avatar_index : Text → ℕ
unfolding hash_bytes
avatar_index title = hash_bytes 5381 (as_bytes title) % 7

abbrev pub palette : List (ℕ × ℕ × ℕ)
palette =
    (226, 68, 92)
    ∷ (244, 144, 50)
    ∷ (70, 178, 90)
    ∷ (46, 170, 220)
    ∷ (130, 106, 224)
    ∷ (226, 98, 176)
    ∷ (80, 162, 233)
    ∷ []

-- Indexing out of bounds panics, which is `none`.
unfoldable pub avatar_color : Text → Option (ℕ × ℕ × ℕ)
avatar_color title = get_elem? palette (avatar_index title)
