-- ===== src/App/Export/Laws.antt =====
-- `export_chat`: the file line by line.
use e2e_console_messenger.Base.{
  ◌≡◌, ◌∙◌, refl, map, if◌then◌else◌, ap, some, List, [], ◌∷◌, ◌++◌, append_assoc, get_elem?, All,
  All-append, Lacks, split, split-append, split-Lacks, Text, codes, absent-Lacks, ◌>>=◌,
}
use e2e_console_messenger.App.State.{Msg, Chat, MeshApp}
use e2e_console_messenger.App.Export.{
  join_lines, export_title, export_rule, export_line, export_lines, export_content, export_name,
  export_chat,
}

-- The line of a message: its date and time in brackets, the sender, a colon and the text.
abbrev pub line_of : Msg → Text
line_of m =
    codes "["
    ++ (m.date
        ++ (codes " "
            ++ (m.time
                ++ (codes "] "
                    ++ ((if m.mine then codes "Вы" else m.sender) ++ (codes ": " ++ m.text))))))

-- A message whose line does not break.
abbrev pub IsOneLine : Msg → Type 0
IsOneLine m = Lacks b'\n' (line_of m)

-- Exactly one line for each message, in their order.
export_lines-map : (msgs : List Msg) → export_lines msgs ≡ map line_of msgs
unfolding export_lines export_line
export_lines-map [] = refl
export_lines-map (m ∷ msgs) = ap (λ l. line_of m ∷ l) (export_lines-map msgs)

split-join_lines :
    (line : Text) (lines : List Text)
    → Lacks b'\n' line
    → All (Lacks b'\n') lines
    → split b'\n' (join_lines (line ∷ lines)) ≡ line ∷ lines
unfolding join_lines
split-join_lines line [] h k = split-Lacks b'\n' line h
split-join_lines line (next ∷ lines) h k =
    split-append b'\n' line (join_lines (next ∷ lines)) h
    ∙ ap (λ l. line ∷ l) (split-join_lines next lines k.0 k.1)

export_lines-Lacks : (msgs : List Msg) → All IsOneLine msgs → All (Lacks b'\n') (export_lines msgs)
unfolding export_lines export_line
export_lines-Lacks [] h = tt
export_lines-Lacks (m ∷ msgs) h = (h.0, export_lines-Lacks msgs h.1)

title-Lacks : (id : Text) → Lacks b'\n' id → Lacks b'\n' (export_title id)
unfolding export_title
title-Lacks id h =
    All-append _ (codes "MeshMessenger — Экспорт чата «") (id ++ codes "»")
      (absent-Lacks b'\n' (codes "MeshMessenger — Экспорт чата «") refl)
      (All-append _ id (codes "»") h (absent-Lacks b'\n' (codes "»") refl))

split-three :
    (a b t : Text)
    → Lacks b'\n' a
    → Lacks b'\n' b
    → split b'\n' ((a ++ b'\n' ∷ (b ++ b'\n' ∷ [])) ++ b'\n' ∷ t) ≡ a ∷ b ∷ [] ∷ split b'\n' t
split-three a b t ha hb =
    ap (split b'\n') (append_assoc a (b'\n' ∷ (b ++ b'\n' ∷ [])) (b'\n' ∷ t))
    ∙ (split-append b'\n' a ((b ++ b'\n' ∷ []) ++ b'\n' ∷ t) ha
        ∙ ap (λ l. a ∷ l)
            (ap (split b'\n') (append_assoc b (b'\n' ∷ []) (b'\n' ∷ t))
              ∙ (split-append b'\n' b (b'\n' ∷ t) hb
                  ∙ ap (λ l. b ∷ l) (split-append b'\n' [] t tt))))

rule-Lacks : Lacks b'\n' export_rule
rule-Lacks = absent-Lacks b'\n' export_rule refl

-- If the selected chat has messages, and neither its name nor their dates, times, senders and texts
-- break a line, the exported file read line by line is the title, a rule, an empty line, and then
-- one line for each message, in their order: its date and time, its sender and its text.
pub split-export_chat :
    (stamp : Text) (app : MeshApp) (ch : Chat) (m : Msg) (msgs : List Msg)
    → get_elem? app.chats app.active ≡ some ch
    → ch.msgs ≡ m ∷ msgs
    → Lacks b'\n' ch.id
    → All IsOneLine (m ∷ msgs)
    → (content : Text) × (export_chat stamp app ≡ some (export_name stamp ch.id, content))
      × (split b'\n' content
          ≡ (codes "MeshMessenger — Экспорт чата «" ++ (ch.id ++ codes "»"))
            ∷ codes "========================================"
            ∷ []
            ∷ map line_of (m ∷ msgs))
unfolding export_chat export_content export_title
split-export_chat stamp app ch m msgs c e h k = (
  export_content ch,
  rw (c, export_chat, ◌>>=◌) refl,
  split-three (export_title ch.id) export_rule (join_lines (export_lines ch.msgs))
        (title-Lacks ch.id h) rule-Lacks
      ∙ ap (λ l. export_title ch.id ∷ export_rule ∷ [] ∷ l)
          (ap (λ l. split b'\n' (join_lines (export_lines l))) e
            ∙ (lines_back ∙ export_lines-map (m ∷ msgs))),
)
  where
    lines_back : split b'\n' (join_lines (export_lines (m ∷ msgs))) ≡ export_lines (m ∷ msgs)
    lines_back =
        unfold export_lines export_line in
        split-join_lines (export_line m) (export_lines msgs) k.0 (export_lines-Lacks msgs k.1)
