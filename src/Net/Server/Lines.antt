-- ===== src/Net/Server/Lines.antt =====
-- The server's list of users and its parser in `reader_loop` of net.rs.
use e2e_console_messenger.Base.{
  ℕ, ◌≡◌, refl, ap, Bool, true, false, List, [], ◌∷◌, ◌++◌, Text, codes, text_eq, All, Lacks, split,
  split-append, split-Lacks, strip_prefix, if◌then◌else◌, arith,
}
use e2e_console_messenger.Net.State.{user_list}
use e2e_console_messenger.Net.Server.{user_item, user_items, prefixes, first_prefix, server_events}

flag : Bool → Text
flag online = if online then codes "1" else codes "0"

-- The line of one user, and of all, as the server writes them.
unfoldable pub user_line : Text × Text × Bool → Text
unfolding flag
user_line (nick, at, online) = at ++ b'|' ∷ (nick ++ b'|' ∷ flag online)

unfoldable pub user_lines : List (Text × Text × Bool) → Text
unfolding user_line
user_lines [] = []
user_lines (u ∷ []) = user_line u
user_lines (u ∷ v ∷ us) = user_line u ++ b';' ∷ user_lines (v ∷ us)

-- A name without the separators.
abbrev Plain : Text → Type 0
Plain t = Lacks b'|' t × Lacks b';' t

abbrev pub IsPlainUser : Text × Text × Bool → Type 0
IsPlainUser (nick, at, online) = Plain nick × Plain at

flag-Plain : (online : Bool) → Plain (flag online)
unfolding flag
flag-Plain true = ((omega arith, tt), (omega arith, tt))
flag-Plain false = ((omega arith, tt), (omega arith, tt))

flag_read : (online : Bool) → text_eq (flag online) (codes "1") ≡ online
unfolding flag text_eq
flag_read true = refl
flag_read false = refl

user_item-user_line :
    (u : Text × Text × Bool) → IsPlainUser u → user_item (split b'|' (user_line u)) ≡ u ∷ []
unfolding user_item user_line
user_item-user_line (nick, at, online) (hn, ha) =
    rw
      (
        split-append b'|' at (nick ++ b'|' ∷ flag online) ha.0,
        split-append b'|' nick (flag online) hn.0,
        split-Lacks b'|' (flag online) (flag-Plain online).0,
        flag_read online,
      )
      refl

Lacks-append : (b : ℕ) (s t : Text) → Lacks b s → Lacks b t → Lacks b (s ++ t)
Lacks-append b [] t h k = k
Lacks-append b (x ∷ s) t h k = (h.0, Lacks-append b s t h.1 k)

user_line-Lacks : (u : Text × Text × Bool) → IsPlainUser u → Lacks b';' (user_line u)
unfolding user_line
user_line-Lacks (nick, at, online) (hn, ha) =
    Lacks-append b';' at _ ha.1
      (omega arith, Lacks-append b';' nick _ hn.1 (omega arith, (flag-Plain online).1))

user_items-user_lines :
    (us : List (Text × Text × Bool))
    → All IsPlainUser us
    → user_items (split b';' (user_lines us)) ≡ us
unfolding user_items split user_item user_lines
user_items-user_lines [] h = refl
user_items-user_lines (u ∷ []) h =
    rw (split-Lacks b';' (user_line u) (user_line-Lacks u h.0)) (one u h.0)
  where
    one :
        (u : Text × Text × Bool)
        → IsPlainUser u
        → user_item (split b'|' (user_line u)) ++ [] ≡ u ∷ []
    one u h = rw (user_item-user_line u h) refl
user_items-user_lines (u ∷ v ∷ us) h =
    rw (split-append b';' (user_line u) (user_lines (v ∷ us)) (user_line-Lacks u h.0))
      (rw (user_item-user_line u h.0) (ap (λ l. u ∷ l) (user_items-user_lines (v ∷ us) h.1)))

-- The list of users that the server writes, whose names hold neither "|" nor ";", becomes one event
-- with exactly these users.
pub server_events-user_lines :
    (us : List (Text × Text × Bool))
    → All IsPlainUser us
    → server_events (codes "[ПОЛЬЗОВАТЕЛИ2]" ++ user_lines us) ≡ user_list us ∷ []
unfolding server_events prefixes first_prefix strip_prefix
server_events-user_lines us h = ap (λ l. user_list l ∷ []) (user_items-user_lines us h)
