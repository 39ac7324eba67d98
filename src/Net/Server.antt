-- ===== src/Net/Server.antt =====
-- The lines of the v2 server in `reader_loop` of net.rs: what the text of a command frame tells the
-- GUI. The texts that the thread itself acts on stand in `Reader`.
pub mod Lines
use e2e_console_messenger.Base.{
  ℕ, Bool, true, false, Option, none, some, List, [], ◌∷◌, ◌++◌, Text, codes, text_eq, trim, split,
  splitn, strip_prefix, starts_with, if◌then◌else◌,
}
use e2e_console_messenger.Net.State.{
  Ev, line, error, user_list, presence, profile, profile_saved, username_changed, password_changed,
  room_changed, rooms, is_typing,
}

-- One user: @username, nick, "1" if online. Fewer than three fields are passed over.
unfoldable pub user_item : List Text → List (Text × Text × Bool)
user_item (at ∷ nick ∷ online ∷ _) = (nick, at, text_eq online (codes "1")) ∷ []
user_item _ = []

unfoldable pub user_items : List Text → List (Text × Text × Bool)
unfolding user_item
user_items [] = []
user_items (item ∷ items) = user_item (split b'|' item) ++ user_items items

unfoldable pub presence_events : List Text → List Ev
presence_events (user ∷ state ∷ []) = presence user (text_eq state (codes "online")) [] ∷ []
presence_events (user ∷ state ∷ nick ∷ _) = presence user (text_eq state (codes "online")) nick ∷ []
presence_events _ = []

unfoldable pub profile_saved_events : List Text → List Ev
profile_saved_events (_ ∷ nick ∷ bio ∷ hide ∷ _) =
    profile_saved nick bio (text_eq hide (codes "1")) ∷ []
profile_saved_events _ = []

unfoldable pub profile_events : List Text → List Ev
profile_events (user ∷ nick ∷ state ∷ bio ∷ _) =
    profile user nick (text_eq state (codes "online")) bio ∷ []
profile_events _ = []

-- The prefixes in the order in which they are tried.
unfoldable pub prefixes : List (Text × (Text → List Ev))
unfolding user_items presence_events profile_saved_events profile_events
prefixes =
    (codes "[ПОЛЬЗОВАТЕЛИ2]", λ rest. user_list (user_items (split b';' rest)) ∷ [])
    ∷ (codes "[ПРИСУТСТВИЕ]", λ rest. presence_events (split b'|' rest))
    ∷ (codes "[ПРОФИЛЬOK]", λ rest. profile_saved_events (splitn 4 b'|' rest))
    ∷ (codes "[ПРОФИЛЬ]", λ rest. profile_events (splitn 4 b'|' rest))
    ∷ (codes "[ЮЗЕРOK]", λ rest. username_changed (trim rest) ∷ [])
    ∷ (codes "[ПАРОЛЬOK]", λ rest. password_changed ∷ [])
    ∷ (codes "[ПЕЧАТАЕТ]", λ rest. is_typing (trim rest) ∷ [])
    ∷ (codes "[КОМНАТА] Вы в комнате:", λ rest. room_changed (trim rest) ∷ [])
    ∷ (codes "[КОМНАТЫ]", λ rest. rooms (trim rest) ∷ [])
    ∷ []

unfoldable pub first_prefix : List (Text × (Text → List Ev)) → Text → List Ev
first_prefix [] text =
    if starts_with (codes "[ОШИБКА]") text then error text ∷ [] else line text ∷ []
first_prefix ((p, f) ∷ ps) text =
    let rest = first_prefix ps text in elim (strip_prefix p text) [ none ↦ rest | some r ↦ f r ]

unfoldable pub server_events : Text → List Ev
unfolding prefixes first_prefix
server_events = first_prefix prefixes
