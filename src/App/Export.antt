-- ===== src/App/Export.antt =====
-- `export_chat` of main.rs: what is written into the file, and the file's name. `stamp` is the local
-- time as the code formats it.
pub mod Laws
use e2e_console_messenger.Base.{
  Option, none, some, List, [], ◌∷◌, ◌++◌, get_elem?, Text, codes, if◌then◌else◌, ◌>>=◌,
}
use e2e_console_messenger.App.State.{Msg, Chat, MeshApp}
use e2e_console_messenger.App.Toast.{replace}

-- `lines.join("\n")`.
unfoldable pub join_lines : List Text → Text
join_lines [] = []
join_lines (line ∷ []) = line
join_lines (line ∷ next ∷ lines) = line ++ b'\n' ∷ join_lines (next ∷ lines)

unfoldable pub export_title : Text → Text
export_title id = codes "MeshMessenger — Экспорт чата «" ++ (id ++ codes "»")

-- `"=".repeat(40)`.
abbrev pub export_rule : Text
export_rule = codes "========================================"

unfoldable pub export_line : Msg → Text
export_line m =
    codes "["
    ++ (m.date
        ++ (codes " "
            ++ (m.time
                ++ (codes "] "
                    ++ ((if m.mine then codes "Вы" else m.sender) ++ (codes ": " ++ m.text))))))

unfoldable pub export_lines : List Msg → List Text
unfolding export_line
export_lines [] = []
export_lines (m ∷ msgs) = export_line m ∷ export_lines msgs

unfoldable pub export_content : Chat → Text
unfolding join_lines export_title export_lines
export_content ch =
    (export_title ch.id ++ b'\n' ∷ (export_rule ++ b'\n' ∷ []))
    ++ b'\n' ∷ join_lines (export_lines ch.msgs)

unfoldable pub export_name : Text → Text → Text
export_name stamp id =
    codes "mesh_export_"
    ++ (replace b'#' [] (replace b' ' (codes "_") id) ++ (codes "_" ++ (stamp ++ codes ".txt")))

-- The name of the file and its content.
unfoldable pub export_chat : Text → MeshApp → Option (Text × Text)
export_chat stamp app = do
  ch ← get_elem? app.chats app.active
  some (export_name stamp ch.id, export_content ch)
