-- ===== src/Net/Tofu.antt =====
-- `check_tofu` and `insert_keys` of net.rs: trust on first use.
pub mod Laws
use e2e_console_messenger.Base.{
  Option, none, some, List, [], ◌∷◌, ◌++◌, Text, codes, text_eq, trim, split, split_once,
  if◌then◌else◌,
}
use e2e_console_messenger.Base.Dict.{lookup, insert}
use e2e_console_messenger.Platform.{Platform}
use e2e_console_messenger.Crypto.{fingerprint}
use e2e_console_messenger.Net.State.{NetState, warn, send}

-- "new", "ok" and "changed".
pub data Status : Type 0 where
  fresh same changed : Status

unfoldable pub status_of : Option Text → Text → Status
status_of none fp = fresh
status_of (some old) fp = if text_eq old fp then same else changed

unfoldable pub change_warning : Text → Text → Text → Text
change_warning name old fp =
    codes "⚠ ВНИМАНИЕ! Публичный ключ '"
    ++ (name
        ++ (codes "' ИЗМЕНИЛСЯ! Был: "
            ++ (old
                ++ (codes " Стал: "
                    ++ (fp ++ (codes ". Возможен MITM. Если это ожидаемо — /trust " ++ name))))))

unfoldable pub or_empty : Option Text → Text
or_empty none = []
or_empty (some t) = t

-- What `check_tofu` does for each status: a first fingerprint is pinned, a change is reported.
unfoldable pub record_status : Status → Text → Text → NetState → NetState
unfolding change_warning send or_empty
record_status fresh name fp st = record st { tofu = insert name fp st.tofu }
record_status same name fp st = st
record_status changed name fp st =
    send (warn (change_warning name (or_empty (lookup name st.tofu)) fp)) st

module _ (c : Platform) where
  unfoldable pub check_tofu : Text → Text → NetState → NetState × Status
  unfolding status_of record_status
  check_tofu name pubk st =
      let fp = fingerprint c pubk in
      let status = status_of (lookup name st.tofu) fp in (record_status status name fp st, status)

  -- `check_tofu(…); known.insert(n, p)`.
  unfoldable pub learn : Text → Text → NetState → NetState
  unfolding check_tofu
  learn n p st = let st' = (check_tofu n p st).0 in record st' { known = insert n p st'.known }

  unfoldable pub insert_item : Text → NetState → NetState
  insert_item item st = elim (split_once b':' item) [
    | none ↦ st
    | some (n, p) ↦ learn (trim n) (trim p) st
  ]

  unfoldable pub insert_items : List Text → NetState → NetState
  insert_items [] st = st
  insert_items (item ∷ items) st = insert_items items (insert_item (trim item) st)

  -- The list stands behind the first "]", if there is one.
  unfoldable pub key_list : Text → Text
  key_list text = elim (split_once b']' text) [ none ↦ text | some (_, body) ↦ body ]

  unfoldable pub insert_keys : Text → NetState → NetState
  insert_keys text st = insert_items (split b';' (key_list text)) st
