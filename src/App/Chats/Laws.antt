-- ===== src/App/Chats/Laws.antt =====
-- `chat_index` and `push_msg` of main.rs: the selected chat and the length of histories.
use e2e_console_messenger.Base.{
  ℕ, zero, suc, ◌+◌, ◌≤◌, ◌<◌, ◌≡◌, ◌∙◌, refl, sym, ap, inl, inr, Bool, true, false, Option, none,
  some, List, [], ◌∷◌, ◌++◌, ◌==◌, ltb, ltb→le, ◌&&◌, not, length, length-append, length-drop,
  get_elem?, get_elem?_total, any, All, All-append, Text, text_eq, text_eq_iff, if◌then◌else◌,
  ◌>>=◌, arith, Option-cases, Bool-cases,
}
use e2e_console_messenger.App.State.{Moment, Msg, Chat, MeshApp, new_chat}
use e2e_console_messenger.App.Chats.{
  position, modify, remove, chat_index, max_msgs, trim_history, add_msg, raise, push_at, push_msg,
}

abbrev pub IsBounded : Chat → Type 0
IsBounded ch = length ch.msgs ≤ max_msgs

pub record IsValid (app : MeshApp) : Type 0 where
  pub selected : app.active < length app.chats
  pub bounded : All IsBounded app.chats

abbrev pub ids : List Chat → List Text
ids [] = []
ids (ch ∷ chats) = ch.id ∷ ids chats

-- The id of the selected chat.
abbrev pub selected_id : MeshApp → Option Text
selected_id app = get_elem? (ids app.chats) app.active

abbrev has_id : Text → List Chat → Bool
has_id id = any (λ ch. text_eq ch.id id)

position-has_id :
    (id : Text) (chats : List Chat)
    → has_id id chats ≡ true
    → (i : ℕ) × (position id chats ≡ some i)
      × (get_elem? (ids chats) i ≡ some id)
      × (i < length chats)
unfolding position
position-has_id id [] h = cc
position-has_id id (ch ∷ chats) h = elim (Bool-cases (text_eq ch.id id)) [
  | inl e ↦ (0, rw e, ap some ((text_eq_iff ch.id id).0 e), omega arith)
  | inr e ↦
      let (i, p, q, r) = position-has_id id chats (rw e at h) in (suc i, rw (e, p), q, omega arith)
]

pub position_found :
    (id : Text) (chats : List Chat) (i : ℕ)
    → position id chats ≡ some i
    → (get_elem? (ids chats) i ≡ some id) × (i < length chats)
unfolding position
position_found id [] i h = cc
position_found id (ch ∷ chats) zero h = ground (arith, text_eq_iff ch.id id)
position_found id (ch ∷ chats) (suc i) h = ground (arith, position_found id chats i)

get_elem?-has_id :
    (chats : List Chat) (j : ℕ) (ch : Chat)
    → get_elem? chats j ≡ some ch
    → (has_id ch.id chats ≡ true) × (get_elem? (ids chats) j ≡ some ch.id)
get_elem?-has_id [] j ch h = cc
get_elem?-has_id (x ∷ chats) zero ch h = ground (arith, text_eq_iff x.id ch.id)
get_elem?-has_id (x ∷ chats) (suc j) ch h = ground (arith, get_elem?-has_id chats j ch)

pub modify_total :
    (f : Chat → Chat) (chats : List Chat) (i : ℕ)
    → i < length chats
    → All IsBounded chats
    → ((ch : Chat) → IsBounded ch → IsBounded (f ch))
    → ((ch : Chat) → (f ch).id ≡ ch.id)
    → (l : List Chat) × (modify i f chats ≡ some l)
      × (ids l ≡ ids chats)
      × (length l ≡ length chats)
      × All IsBounded l
unfolding modify
modify_total f [] i h b k e = absurd (omega arith)
modify_total f (ch ∷ chats) zero h b k e =
    (f ch ∷ chats, refl, ap (λ t. t ∷ ids chats) (e ch), refl, (k ch b.0, b.1))
modify_total f (ch ∷ chats) (suc i) h b k e =
    let (l, p, q, r, t) = modify_total f chats i (omega arith) b.1 k e in
    (ch ∷ l, rw p, ap (λ t. ch.id ∷ t) q, ap suc r, (b.0, t))

remove_total :
    (chats : List Chat) (i : ℕ)
    → i < length chats
    → All IsBounded chats
    → (x : Chat) × (l : List Chat) × (remove i chats ≡ some (x, l))
      × (length (x ∷ l) ≡ length chats)
      × All IsBounded (x ∷ l)
      × ((id : Text) → has_id id (x ∷ l) ≡ has_id id chats)
unfolding remove
remove_total [] i h b = absurd (omega arith)
remove_total (ch ∷ chats) zero h b = (ch, chats, refl, refl, b, λ id. refl)
remove_total (ch ∷ chats) (suc i) h b =
    let (x, l, p, q, r, t) = remove_total chats i (omega arith) b.1 in
    (x, ch ∷ l, rw p, ap suc q, (r.0, (b.0, r.1)), λ id. ground (arith, t id))

get_elem?-append :
    (xs ys : List Text) (i : ℕ) → i < length xs → get_elem? (xs ++ ys) i ≡ get_elem? xs i
get_elem?-append [] ys i h = absurd (omega arith)
get_elem?-append (x ∷ xs) ys zero h = refl
get_elem?-append (x ∷ xs) ys (suc i) h = get_elem?-append xs ys i (omega arith)

ids-append : (xs ys : List Chat) → ids (xs ++ ys) ≡ ids xs ++ ids ys
ids-append [] ys = refl
ids-append (x ∷ xs) ys = ap (λ t. x.id ∷ t) (ids-append xs ys)

length-ids : (chats : List Chat) → length (ids chats) ≡ length chats
length-ids [] = refl
length-ids (ch ∷ chats) = ap suc (length-ids chats)

abbrev pub Placed : ℕ × MeshApp → MeshApp → Type 0
Placed r app = (r.0 < length r.1.chats) × IsValid r.1 × (selected_id r.1 ≡ selected_id app)

module _ (now : ℕ) (id : Text) (is_room : Bool) (app : MeshApp) where
  pub chat_index_found :
      (i : ℕ) → position id app.chats ≡ some i → chat_index now id is_room app ≡ (i, app)
  unfolding chat_index
  chat_index_found i e = rw (e, chat_index)

  pub chat_index_made :
      position id app.chats ≡ none
      → chat_index now id is_room app
        ≡ (length app.chats, record app { chats = app.chats ++ new_chat now id is_room ∷ [] })
  unfolding chat_index
  chat_index_made e = rw (e, chat_index)

  -- The index that `chat_index` returns is in range, and the selection is what it was.
  pub chat_index_lem : IsValid app → Placed (chat_index now id is_room app) app
  chat_index_lem v = elim (Option-cases (position id app.chats)) [
    | inl e ↦
        let ch = new_chat now id is_room in
        let n = length-append app.chats (ch ∷ []) in
        rw (chat_index_made e) (
          omega (arith, n),
          record {
            selected = omega (arith, v.selected, n);
            bounded =
                All-append IsBounded app.chats (ch ∷ []) v.bounded
                  (unfold new_chat in (omega arith, tt));
          },
          ap (λ t. get_elem? t app.active) (ids-append app.chats (ch ∷ []))
              ∙ get_elem?-append (ids app.chats) (ids (ch ∷ [])) app.active
                  (omega (arith, v.selected, length-ids app.chats)),
        )
    | inr (i, e) ↦ rw (chat_index_found i e) ((position_found id app.chats i e).1, v, refl)
  ]

-- What a step that may panic returns: a valid state with the same chat selected.
abbrev pub Keeps : Option MeshApp → MeshApp → Type 0
Keeps r app =
    (app' : MeshApp) × (r ≡ some app') × IsValid app' × (selected_id app' ≡ selected_id app)

raise_total :
    (idx : ℕ) (app : MeshApp) → IsValid app → idx < length app.chats → Keeps (raise idx app) app
unfolding raise
raise_total idx app v h =
    let (ch, e) = get_elem?_total app.chats app.active v.selected in
    let (x, l, p, n, b, same) = remove_total app.chats idx h v.bounded in
    let (found, named) = get_elem?-has_id app.chats app.active ch e in
    let (i, q, r, k) = position-has_id ch.id (x ∷ l) (same ch.id ∙ found) in
    (
      record app { chats = x ∷ l; active = i },
      rw (e, p, ◌>>=◌, q),
      record { selected = k; bounded = b },
      r ∙ sym named,
    )

trim_history-le :
    (msgs : List Msg) → length msgs ≤ max_msgs + 1 → length (trim_history msgs) ≤ max_msgs
unfolding trim_history
trim_history-le msgs h = elim (Bool-cases (ltb max_msgs (length msgs))) [
  | inl e ↦ rw e (omega (arith, length-drop 1000 msgs))
  | inr e ↦ rw e (ltb→le max_msgs (length msgs) e)
]

add_msg-IsBounded :
    (m : Moment) (active mine : Bool) (sender text : Text) (kind : ℕ) (ch : Chat)
    → IsBounded ch
    → IsBounded (add_msg m active mine sender text kind ch)
unfolding add_msg
add_msg-IsBounded m active mine sender text kind ch h =
    let new : Msg = record {
      mine = mine;
      sender = sender;
      text = text;
      kind = kind;
      time = m.hhmm;
      date = m.date;
      reactions = [];
      read = active;
    } in
    trim_history-le (ch.msgs ++ new ∷ []) (omega (arith, length-append ch.msgs (new ∷ [])))

Keeps-of :
    (r : Option MeshApp) (app app' : MeshApp)
    → Keeps r app'
    → selected_id app' ≡ selected_id app
    → Keeps r app
Keeps-of r app app' k e = (k.0, k.1, k.2, k.3 ∙ e)

Keeps-if :
    (b : Bool) (r : Option MeshApp) (app app' : MeshApp)
    → Keeps r app'
    → IsValid app'
    → Keeps (if b then r else some app') app'
Keeps-if true r app app' k v = k
Keeps-if false r app app' k v = (app', refl, v, refl)

module _ (m : Moment) (mine : Bool) (sender text : Text) (kind : ℕ) where
  push_at_total :
      (idx : ℕ) (app : MeshApp)
      → IsValid app
      → idx < length app.chats
      → Keeps (push_at m idx mine sender text kind app) app
  unfolding push_at
  push_at_total idx app v h =
      let active = app.active == idx in
      let (l, p, q, n, b) =
        modify_total (add_msg m active mine sender text kind) app.chats idx h v.bounded
          (add_msg-IsBounded m active mine sender text kind) (unfold add_msg in λ ch. refl) in
      let beep = not active && not mine && kind == 0 && not app.window_focused in
      let app' : MeshApp = record app {
        chats = l;
        beeps = if beep then app.beeps + 1 else app.beeps;
      } in
      let v' : IsValid app' = record { selected = omega (arith, v.selected, n); bounded = b } in
      rw (p, ◌>>=◌)
        (Keeps-of _ app app'
          (Keeps-if (not active && not (idx == 0)) (raise idx app') app app'
            (raise_total idx app' v' (omega (arith, h, n))) v')
          (ap (λ t. get_elem? t app.active) q))

  -- From a valid state a message is always stored, without a panic: the state stays valid, so every
  -- history stays within its limit, and the chat that was selected is still selected, also where
  -- the message makes a new chat or moves a chat to the top.
  pub push_msg_total :
      (chat_id : Text) (is_room : Bool) (app : MeshApp)
      → IsValid app
      → Keeps (push_msg m chat_id is_room mine sender text kind app) app
  unfolding push_msg
  push_msg_total chat_id is_room app v =
      let placed = chat_index m.instant chat_id is_room app in
      let (h, v', e) = chat_index_lem m.instant chat_id is_room app v in
      Keeps-of (push_at m placed.0 mine sender text kind placed.1) app placed.1
        (push_at_total placed.0 placed.1 v' h) e
