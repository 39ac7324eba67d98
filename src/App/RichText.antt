-- ===== src/App/RichText.antt =====
-- `render_rich_text` in main.rs: the lines that are shown, and the lexer of one line into segments with
-- their style. A line that begins with three bytes has more than three characters if it has more bytes.
pub mod Laws
use e2e_console_messenger.Base.{
  ℕ, Bool, true, false, List, [], ◌∷◌, ◌++◌, ◌==◌, ◌&&◌, not, Text, codes, is_empty, if◌then◌else◌,
  starts_with, ltb, length, map, retain, split,
}

-- (text, bold, code)
abbrev pub Segment : Type 0
Segment = Text × Bool × Bool

-- `if !current.is_empty() { segments.push(…) }`.
unfoldable pub flush : Text → Bool → Bool → List Segment → List Segment
flush [] bold code segments = segments
flush (ch ∷ s) bold code segments = segments ++ (ch ∷ s, bold, code) ∷ []

-- The `while` loop over the characters that are left.
unfoldable pub lex : Text → Text → Bool → Bool → List Segment → List Segment
unfolding flush
lex [] current bold code segments = flush current bold code segments
lex (a ∷ []) current bold code segments =
    if a == b'`'
    then flush current bold code segments
    else flush (current ++ a ∷ []) bold code segments
lex (a ∷ b ∷ s) current bold code segments =
    let star = lex s [] (not bold) code (flush current bold code segments) in
    let tick = lex (b ∷ s) [] bold (not code) (flush current bold code segments) in
    let plain = lex (b ∷ s) (current ++ a ∷ []) bold code segments in
    if a == b'*' && b == b'*' then star else if a == b'`' then tick else plain

unfoldable pub rich_segments : Text → List Segment
unfolding lex
rich_segments line = lex line [] false false []

-- `line.starts_with("```") && line.len() > 3`.
unfoldable pub is_fence : Text → Bool
is_fence line = starts_with (codes "```") line && ltb 3 (length line)

-- A line without segments is shown as it is.
unfoldable pub shown_line : Text → List Segment
shown_line line =
    if is_empty (rich_segments line) then (line, false, false) ∷ [] else rich_segments line

-- The lines that are shown, each in its segments.
unfoldable pub rich_text : Text → List (List Segment)
unfolding is_fence shown_line
rich_text text = map shown_line (retain (λ line. not (is_fence line)) (split b'\n' text))
