-- ===== src/App/RichText/Laws.antt =====
-- The lexer of `render_rich_text` in main.rs, against the text without its marks.
use e2e_console_messenger.Base.{
  ◌≡◌, ◌≢◌, codes, refl, ap, sym, ◌∙◌, inl, inr, Bool, false, List, [], ◌∷◌, ◌++◌, ◌==◌, ◌&&◌, not,
  Text, is_empty, All, append_assoc, append-nil, All-append, if◌then◌else◌, Bool-cases,
}
use e2e_console_messenger.Base.Filtered.{Filtered}
use e2e_console_messenger.App.RichText.{Segment, flush, lex, rich_segments}

-- The texts of the segments, one behind the other.
abbrev pub texts : List Segment → Text
texts [] = []
texts (seg ∷ l) = seg.0 ++ texts l

-- A line without its marks `**` and "`".
abbrev pub unmark : Text → Text
unmark [] = []
unmark (a ∷ []) = if a == b'`' then [] else a ∷ []
unmark (a ∷ b ∷ s) =
    let star = unmark s in
    let rest = unmark (b ∷ s) in
    if a == b'*' && b == b'*' then star else if a == b'`' then rest else a ∷ rest

abbrev pub Filled : Segment → Type 0
Filled seg = seg.0 ≢ []

texts-append : (xs ys : List Segment) → texts (xs ++ ys) ≡ texts xs ++ texts ys
texts-append [] ys = refl
texts-append (x ∷ xs) ys =
    ap (λ t. x.0 ++ t) (texts-append xs ys) ∙ sym (append_assoc x.0 (texts xs) (texts ys))

texts-flush :
    (current : Text) (bold code : Bool) (segs : List Segment)
    → texts (flush current bold code segs) ≡ texts segs ++ current
unfolding flush
texts-flush [] bold code segs = sym (append-nil (texts segs))
texts-flush (a ∷ s) bold code segs =
    texts-append segs ((a ∷ s, bold, code) ∷ []) ∙ ap (λ t. texts segs ++ a ∷ t) (append-nil s)

-- Behind a flush nothing is pending.
texts_flushed :
    (current rest : Text) (bold code : Bool) (segs : List Segment)
    → (texts (flush current bold code segs) ++ []) ++ rest ≡ (texts segs ++ current) ++ rest
texts_flushed current rest bold code segs =
    ap (λ t. t ++ rest)
      (append-nil (texts (flush current bold code segs)) ∙ texts-flush current bold code segs)

texts-lex :
    (s current : Text) (bold code : Bool) (segs : List Segment)
    → texts (lex s current bold code segs) ≡ (texts segs ++ current) ++ unmark s
unfolding lex
texts-lex [] current bold code segs =
    texts-flush current bold code segs ∙ sym (append-nil (texts segs ++ current))
texts-lex (a ∷ []) current bold code segs = elim (Bool-cases (a == b'`')) [
  | inl e ↦ rw e (texts-flush current bold code segs ∙ sym (append-nil (texts segs ++ current)))
  | inr e ↦ rw e (
      texts-flush (current ++ a ∷ []) bold code segs
      ∙ sym (append_assoc (texts segs) current (a ∷ [])))
]
texts-lex (a ∷ b ∷ s) current bold code segs = elim (Bool-cases (a == b'*' && b == b'*')) [
  | inl e ↦ rw e (
      texts-lex s [] (not bold) code (flush current bold code segs)
      ∙ texts_flushed current (unmark s) bold code segs)
  | inr e ↦ elim (Bool-cases (a == b'`')) [
    | inl k ↦
        rw (e, k)
          (texts-lex (b ∷ s) [] bold (not code) (flush current bold code segs)
            ∙ texts_flushed current (unmark (b ∷ s)) bold code segs)
    | inr k ↦
        rw (e, k)
          (texts-lex (b ∷ s) (current ++ a ∷ []) bold code segs
            ∙ ap (λ t. t ++ unmark (b ∷ s)) (sym (append_assoc (texts segs) current (a ∷ [])))
            ∙ append_assoc (texts segs ++ current) (a ∷ []) (unmark (b ∷ s)))
  ]
]

flush-Filled :
    (current : Text) (bold code : Bool) (segs : List Segment)
    → All Filled segs
    → All Filled (flush current bold code segs)
unfolding flush
flush-Filled [] bold code segs h = h
flush-Filled (a ∷ s) bold code segs h =
    All-append Filled segs ((a ∷ s, bold, code) ∷ []) h (filled, tt)
  where
    filled : a ∷ s ≢ []
    filled e = cc

lex-Filled :
    (s current : Text) (bold code : Bool) (segs : List Segment)
    → All Filled segs
    → All Filled (lex s current bold code segs)
unfolding lex
lex-Filled [] current bold code segs h = flush-Filled current bold code segs h
lex-Filled (a ∷ []) current bold code segs h = elim (Bool-cases (a == b'`')) [
  | inl e ↦ rw e (flush-Filled current bold code segs h)
  | inr e ↦ rw e (flush-Filled (current ++ a ∷ []) bold code segs h)
]
lex-Filled (a ∷ b ∷ s) current bold code segs h =
    let flushed = flush-Filled current bold code segs h in
    elim (Bool-cases (a == b'*' && b == b'*')) [
      | inl e ↦ rw e (lex-Filled s [] (not bold) code _ flushed)
      | inr e ↦ elim (Bool-cases (a == b'`')) [
        | inl k ↦ rw (e, k) (lex-Filled (b ∷ s) [] bold (not code) _ flushed)
        | inr k ↦ rw (e, k) (lex-Filled (b ∷ s) (current ++ a ∷ []) bold code segs h)
      ]
    ]

-- The segments of a line hold its text without the marks, in order and in full, and none is empty.
pub rich_segments_lem :
    (line : Text) → (texts (rich_segments line) ≡ unmark line) × All Filled (rich_segments line)
unfolding rich_segments
rich_segments_lem line = (texts-lex line [] false false [], lex-Filled line [] false false [] tt)

-- What a line says: its text without the marks, or the marks if there is nothing else.
abbrev pub said : Text → Text
said line = if is_empty (unmark line) then line else unmark line

-- A line that begins with three backticks and goes on.
abbrev pub IsFence : Text → Type 0
IsFence line = (rest : Text) × (line ≡ codes "```" ++ rest) × (rest ≢ [])
