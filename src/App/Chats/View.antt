-- ===== src/App/Chats/View.antt =====
-- The chats of main.rs as a map from ids to chats, without their order: what `push_msg` does to it.
use e2e_console_messenger.Base.{
  ℕ, ◌≡◌, ◌∙◌, refl, sym, ap, inl, inr, Bool, true, false, Option, none, some, List, [], ◌∷◌, ◌++◌,
  ◌==◌, length, get_elem?, Text, text_eq, text_eq_iff, if◌then◌else◌, ◌>>=◌, arith, Option-cases,
  Bool-cases,
}
use mathlib.Core.Path.{subst}
use mathlib.Core.Option.{some-injective}
use e2e_console_messenger.App.State.{Moment, Chat, MeshApp, new_chat}
use e2e_console_messenger.App.Chats.{position, chat_index, add_msg, raise, push_at, push_msg}
use e2e_console_messenger.App.Chats.Laws.{
  IsValid, chat_index_found, chat_index_made, push_msg_total,
}
use e2e_console_messenger.App.Chats.Find.{
  find_chat, Puts, text_eq_refl, text_eq_ne, find-position-none, if_swap, modify_lem, remove_view,
}

raise_view :
    (id : Text) (idx : ℕ) (app app' : MeshApp)
    → position id app.chats ≡ some idx
    → raise idx app ≡ some app'
    → (n : Text) → find_chat n app'.chats ≡ find_chat n app.chats
unfolding raise
raise_view id idx app app' p h n = elim (Option-cases (get_elem? app.chats app.active)) [
  | inl e ↦ let h' = rw (e, ◌>>=◌) at h in cc
  | inr (selected, e) ↦
      let (x, r, taken, same, view) = remove_view id app.chats idx p in
      let h' = rw (e, ◌>>=◌, taken) at h in
      ap (λ a. find_chat n a.chats) (sym (some-injective _ _ h')) ∙ view n
]

raise_if :
    (b : Bool) (id : Text) (idx : ℕ) (app app' : MeshApp)
    → position id app.chats ≡ some idx
    → (if b then raise idx app else some app) ≡ some app'
    → (n : Text) → find_chat n app'.chats ≡ find_chat n app.chats
raise_if true id idx app app' p h n = raise_view id idx app app' p h n
raise_if false id idx app app' p h n = ap (λ a. find_chat n a.chats) (sym (some-injective _ _ h))

-- A chat put behind the others.
position-append :
    (id : Text) (chats : List Chat) (ch : Chat)
    → ch.id ≡ id
    → position id chats ≡ none
    → position id (chats ++ ch ∷ []) ≡ some (length chats)
unfolding position
position-append id [] ch same p = rw (same, text_eq_refl id) refl
position-append id (x ∷ chats) ch same p = ground (arith, position-append id chats ch same)

append-Puts :
    (id : Text) (chats : List Chat) (ch : Chat)
    → ch.id ≡ id
    → find_chat id chats ≡ none
    → Puts id ch chats (chats ++ ch ∷ [])
unfolding find_chat
append-Puts id [] ch same h n = rw same refl
append-Puts id (x ∷ chats) ch same h n = elim (Bool-cases (text_eq x.id id)) [
  | inl e ↦ let k = rw e at h in cc
  | inr e ↦ rw (append-Puts id chats ch same (rw e at h) n) (
      if_swap (some x) (some ch) (find_chat n chats) (text_eq x.id n) (text_eq id n)
        (text_eq_ne x.id id n e))
]

put_back :
    (id : Text) (chats : List Chat) (ch : Chat)
    → find_chat id chats ≡ some ch
    → Puts id ch chats chats
put_back id chats ch h n = elim (Bool-cases (text_eq id n)) [
  | inl e ↦ rw e (ap (λ k. find_chat k chats) (sym ((text_eq_iff id n).0 e)) ∙ h)
  | inr e ↦ rw e refl
]

find-position :
    (id : Text) (chats : List Chat) (i : ℕ)
    → position id chats ≡ some i
    → (ch : Chat) × (find_chat id chats ≡ some ch)
find-position id chats i p =
    let (l, old, e, g, q, puts) = modify_lem (λ ch. ch) id chats i (λ ch. refl) p in (old, g)

-- A chat put twice is there as it was put last.
Puts-twice :
    (id : Text) (x y z : Chat) (a b d : List Chat)
    → Puts id x a b
    → find_chat id b ≡ some y
    → Puts id z b d
    → (x ≡ y) × Puts id z a d
Puts-twice id x y z a b d p f q = (
  some-injective x y (sym (p id ∙ rw (text_eq_refl id) refl) ∙ f),
  λ n.
      q n ∙ elim (Bool-cases (text_eq id n)) [ inl e ↦ rw e refl | inr e ↦ rw e (p n ∙ rw e refl) ],
)

module _ (now : ℕ) (id : Text) (is_room : Bool) (app : MeshApp) where
  abbrev or_new : Option Chat → Chat
  or_new none = new_chat now id is_room
  or_new (some ch) = ch

  -- The chat with the id, or a new one.
  abbrev pub chat_or_new : Chat
  chat_or_new = or_new (find_chat id app.chats)

  chat_index_view :
      (position id (chat_index now id is_room app).1.chats ≡ some (chat_index now id is_room app).0)
      × Puts id chat_or_new app.chats (chat_index now id is_room app).1.chats
      × ((chat_index now id is_room app).1.active ≡ app.active)
  chat_index_view = elim (Option-cases (position id app.chats)) [
    | inl e ↦
        let f = find-position-none id app.chats e in
        let ch = new_chat now id is_room in
        rw (chat_index_made now id is_room app e) (
          position-append id app.chats ch (unfold new_chat in refl) e,
          subst (λ x. Puts id x app.chats (app.chats ++ ch ∷ [])) (sym (ap or_new f))
              (append-Puts id app.chats ch (unfold new_chat in refl) f),
          refl,
        )
    | inr (i, e) ↦
        let (ch, f) = find-position id app.chats i e in
        rw (chat_index_found now id is_room app i e) (
          e,
          subst (λ x. Puts id x app.chats app.chats) (sym (ap or_new f))
              (put_back id app.chats ch f),
          refl,
        )
  ]

module _ (m : Moment) (mine : Bool) (sender text : Text) (kind : ℕ) where
  push_at_view :
      (id : Text) (idx : ℕ) (app app' : MeshApp)
      → position id app.chats ≡ some idx
      → push_at m idx mine sender text kind app ≡ some app'
      → (old : Chat) × (find_chat id app.chats ≡ some old)
        × Puts id (add_msg m (app.active == idx) mine sender text kind old) app.chats app'.chats
  unfolding push_at
  push_at_view id idx app app' p h =
      let f = add_msg m (app.active == idx) mine sender text kind in
      let (l, old, e, g, q, puts) =
        modify_lem f id app.chats idx (λ ch. unfold add_msg in refl) p in
      let h' = rw (e, ◌>>=◌) at h in (old, g, λ n. raise_if _ id idx _ app' q h' n ∙ puts n)

  -- As a map from ids to chats, the state of the window with one message stored: from a valid state
  -- `push_msg` gives a state in which the chat with the message's id, made if there was none, has
  -- the message added, and every other chat is as it was, wherever the chats stand in the list.
  pub push_msg-Puts :
      (id : Text) (is_room : Bool) (app : MeshApp)
      → IsValid app
      → (app' : MeshApp) × (push_msg m id is_room mine sender text kind app ≡ some app')
        × Puts id
            (add_msg m
              (app.active == (chat_index m.instant id is_room app).0)
              mine
              sender
              text
              kind
              (chat_or_new m.instant id is_room app))
            app.chats
            app'.chats
  unfolding push_msg
  push_msg-Puts id is_room app v =
      let (app', e, valid, kept) = push_msg_total m mine sender text kind id is_room app v in
      let r = chat_index m.instant id is_room app in
      let (at_r, made, active) = chat_index_view m.instant id is_room app in
      let (old, found, put) = push_at_view id r.0 r.1 app' at_r e in
      let (same, both) = Puts-twice id _ old _ app.chats r.1.chats app'.chats made found put in
      (
        app',
        e,
        subst
            (λ x.
              Puts id (add_msg m x mine sender text kind (chat_or_new m.instant id is_room app))
                app.chats app'.chats)
            (ap (λ x. x == r.0) active)
            (subst
              (λ x.
                Puts id (add_msg m (r.1.active == r.0) mine sender text kind x) app.chats
                  app'.chats)
              (sym same) both),
      )
