-- ===== src/Console/Tofu.antt =====
-- `check_tofu` and `insert_keys` of the console client. A new fingerprint is saved at once.
use e2e_console_messenger.Base.{
  none, some, List, [], ◌∷◌, ◌++◌, Text, codes, text_eq, trim, split, split_once, if◌then◌else◌,
}
use e2e_console_messenger.Base.Dict.{lookup, insert}
use e2e_console_messenger.Platform.{Platform}
use e2e_console_messenger.Store.{Os}
use e2e_console_messenger.Net.Tofu.{Status, fresh, same, changed}
use e2e_console_messenger.Console.Shared.{fingerprint}
use e2e_console_messenger.Console.Store.{save_tofu}
use e2e_console_messenger.Console.State.{State, pprint_all}

-- The warning, line by line.
unfoldable pub change_lines : Text → Text → Text → List Text
change_lines name old fp =
    codes "============================================================"
    ∷ (0x26A0 ∷ 0xFE0F ∷ (codes "  ВНИМАНИЕ! Публичный ключ '" ++ (name ++ codes "' ИЗМЕНИЛСЯ!")))
    ∷ (codes "    Был:  " ++ old)
    ∷ (codes "    Стал: " ++ fp)
    ∷ codes "    Возможна атака MITM или переустановка identity."
    ∷ (codes "    Если это ожидаемо — подтверди: /trust " ++ name)
    ∷ []

module _ (c : Platform) (os : Os) where
  -- The map with one more entry, in memory and on the disk.
  unfoldable pub pin : Text → Text → State → State
  pin name fp st =
      let tofu = insert name fp st.tofu in
      record st { tofu = tofu; disk = save_tofu os c tofu st.disk }

  unfoldable pub check_tofu : Text → Text → State → State × Status
  unfolding pin
  check_tofu name pub_b64 st =
      let fp = fingerprint c pub_b64 in
      elim (lookup name st.tofu) [
        | none ↦ (pin name fp st, fresh)
        | some old ↦
            if text_eq old fp
            then (st, same)
            else (pprint_all (change_lines name old fp) st, changed)
      ]

  -- `known.insert(n, p); check_tofu(&n, &p)`.
  unfoldable pub learn : Text → Text → State → State
  learn n p st = (check_tofu n p (record st { known = insert n p st.known })).0

  unfoldable pub insert_item : Text → State → State
  insert_item item st = elim (split_once b':' item) [ none ↦ st | some (n, p) ↦ learn n p st ]

  unfoldable pub insert_items : List Text → State → State
  insert_items [] st = st
  insert_items (item ∷ items) st = insert_items items (insert_item (trim item) st)

  -- The list stands behind the first "]", if there is one.
  unfoldable pub key_list : Text → Text
  key_list text = elim (split_once b']' text) [ none ↦ text | some (_, body) ↦ body ]

  unfoldable pub insert_keys : Text → State → State
  insert_keys text st = insert_items (split b';' (key_list text)) st
