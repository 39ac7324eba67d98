-- ===== src/Examples/Rows.antt =====
-- What the window shows, exports and does, on small inputs.
use e2e_console_messenger.Base.{
  ◌++◌, map, arith, ◌≤◌, ◌≡◌, refl, true, false, none, some, List, [], ◌∷◌, All, Lacks,
  absent-Lacks, length, split, Text, codes,
}
use e2e_console_messenger.Net.State.{authed, msg}
use e2e_console_messenger.App.State.{Msg, MeshApp, new_chat, sys_chat, default_app}
use e2e_console_messenger.App.Chats.Safe.{Safe}
use e2e_console_messenger.App.Toast.{xml_esc}
use e2e_console_messenger.App.Toast.Laws.{xml_text, xml_text-xml_esc}
use e2e_console_messenger.App.Rows.{chat_rows}
use e2e_console_messenger.App.Rows.Laws.{AreRows, chat_rows-AreRows}
use e2e_console_messenger.App.Sidebar.{room_rows, private_rows}
use e2e_console_messenger.App.Sidebar.Laws.{IsRoomRow, IsPrivateRow, AreRowsOf, rows-AreRowsOf}
use e2e_console_messenger.App.Export.{export_name, export_chat}
use e2e_console_messenger.App.Export.Laws.{line_of, IsOneLine, split-export_chat}
use e2e_console_messenger.App.Texts.{ChatRow, chat_row}
use e2e_console_messenger.App.Texts.Laws.{Fits, chat_row-Fits}
use e2e_console_messenger.App.Session.{
  Action, polled, edits, logs_in, logs_out, opens_profile, on_room_row, on_message, types, enters,
  in_reaction_menu, in_profile, run,
}
use e2e_console_messenger.App.Windows.{changes_username}
use e2e_console_messenger.App.Login.{at_user, password, p_new_user}
use e2e_console_messenger.App.Session.Laws.{run-Safe_started}
use e2e_console_messenger.Examples.Window.{moment, window, window-IsValid}

-- Texts without capital letters.
abbrev lower : Text → Text
lower t = t

abbrev note : Text → Text → Msg
note sender text = record {
  mine = false;
  sender = sender;
  text = text;
  kind = 0;
  time = codes "12:00";
  date = codes "2025-01-01";
  reactions = [];
  read = true;
}

abbrev notes : List Msg
notes =
    note (codes "@bob") (codes "hi")
    ∷ note (codes "@bob") (codes "there")
    ∷ record (note (codes "@eve") (codes "hi")) { date = codes "2025-01-02" }
    ∷ []

abbrev markup : Text
markup = codes "<b> & 'x'"

xml_text-xml_esc_example :
    (xml_text (length (xml_esc markup)) (xml_esc markup) ≡ markup) × Lacks b'<' (xml_esc markup)
xml_text-xml_esc_example = xml_text-xml_esc markup b'<' (ground arith)

chat_rows-AreRows_example :
    AreRows lower (codes "hi") [] none notes (chat_rows lower (codes "hi") notes)
chat_rows-AreRows_example = chat_rows-AreRows lower (codes "hi") notes

rows-AreRowsOf_example :
    AreRowsOf (IsRoomRow lower [] window) window (room_rows lower [] window)
    × AreRowsOf (IsPrivateRow lower [] window) window (private_rows lower [] window)
rows-AreRowsOf_example = rows-AreRowsOf lower [] window window-IsValid

abbrev acts : List Action
acts =
    edits at_user (codes "alice")
    ∷ edits password (codes "pw")
    ∷ logs_in moment
    ∷ polled true ((moment, authed) ∷ (moment, msg (codes "@bob") (codes "hi") none) ∷ []) 6000
    ∷ on_room_row 0
    ∷ types (codes "hello") 7000
    ∷ enters moment
    ∷ opens_profile
    ∷ edits p_new_user (codes "carol")
    ∷ in_profile (some changes_username) true
    ∷ on_message 0
    ∷ in_reaction_menu false false (some 0)
    ∷ logs_out
    ∷ []

run-Safe_started_example : Safe (run lower acts (default_app 0 (codes "127.0.0.1") (codes "1") []))
run-Safe_started_example = run-Safe_started lower 0 (codes "127.0.0.1") (codes "1") [] acts

-- A window with one chat.
abbrev noted : MeshApp
noted = record window {
  chats =
      record {
        id = codes "@bob";
        msgs = note (codes "@bob") (codes "hi") ∷ [];
        unread = 0;
        is_room = false;
        last_activity = 0;
      }
      ∷ [];
}

noted-IsOneLine : All IsOneLine (note (codes "@bob") (codes "hi") ∷ [])
noted-IsOneLine = (absent-Lacks b'\n' (line_of (note (codes "@bob") (codes "hi"))) refl, tt)

split-export_chat_example :
    (content : Text) × (export_chat (codes "20250101_120000") noted
      ≡ some (export_name (codes "20250101_120000") (codes "@bob"), content))
    × (split b'\n' content
        ≡ (codes "MeshMessenger — Экспорт чата «" ++ (codes "@bob" ++ codes "»"))
          ∷ codes "========================================"
          ∷ []
          ∷ map line_of (note (codes "@bob") (codes "hi") ∷ []))
split-export_chat_example =
    split-export_chat (codes "20250101_120000") noted
      (record {
        id = codes "@bob";
        msgs = note (codes "@bob") (codes "hi") ∷ [];
        unread = 0;
        is_room = false;
        last_activity = 0;
      })
      (note (codes "@bob") (codes "hi")) [] (unfold default_app in refl) refl
      (absent-Lacks b'\n' (codes "@bob") refl) noted-IsOneLine

chat_row-Fits_example :
    (row : ChatRow) × (chat_row (λ ch. ch ∷ []) 1 window ≡ some row)
    × (length row.preview ≤ 32)
    × Fits (new_chat 0 sys_chat false).unread row.badge
unfolding default_app
chat_row-Fits_example = chat_row-Fits (λ ch. ch ∷ []) 1 (new_chat 0 sys_chat false) window refl
