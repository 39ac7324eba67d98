-- ===== src/App/Sidebar/Laws.antt =====
-- The sidebar's lists: which chats they show, their order, and clicks on them.
use e2e_console_messenger.Base.{
  ℕ, ◌≡◌, ◌↔◌, ◌⊎◌, refl, Bool, true, false, some, List, [], ◌||◌, get_elem?, All, retain, Text,
  is_empty, Bool-cases, inl, inr, arith,
}
use e2e_console_messenger.Base.Sort.{sort_by, All-sort_by}
use e2e_console_messenger.App.State.{Chat, MeshApp}
use e2e_console_messenger.App.Chats.{display_name}
use e2e_console_messenger.App.Chats.Laws.{IsValid}
use e2e_console_messenger.App.Chats.Safe.{Safe}
use e2e_console_messenger.App.Input.{switch_chat}
use e2e_console_messenger.App.Input.Laws.{switch_chat-Safe}
use e2e_console_messenger.App.Rows.{contains_text}
use e2e_console_messenger.App.Rows.Contains.{
  Contains, contains_text-Contains, Contains-contains_text, is_empty-nil,
}
use e2e_console_messenger.App.Sidebar.Order.{
  Ordered, IsOf, sort_by-to, sort_by-from, retain-to, retain-from, indexed-to, indexed-from,
  All-retain, indexed-All, retain-Ascending, sort_by-Ordered,
}
use e2e_console_messenger.App.Sidebar.{
  indexed, activity, lists_room, lists_private, room_rows, private_rows,
}

-- The search, in lower case, is empty or stands in a text.
abbrev pub Found : (Text → Text) → Text → Text → Type 0
Found lower search t = (lower search ≡ []) ⊎ Contains (lower search) (lower t)

-- A room is listed if the search is found in its id.
abbrev pub IsRoomRow : (Text → Text) → Text → MeshApp → Chat → Type 0
IsRoomRow lower search app ch = (ch.is_room ≡ true) × Found lower search ch.id

-- A private chat is listed if the search is found in its id or in the name shown for it.
abbrev pub IsPrivateRow : (Text → Text) → Text → MeshApp → Chat → Type 0
IsPrivateRow lower search app ch =
    (ch.is_room ≡ false) × (Found lower search ch.id ⊎ Found lower search (display_name ch.id app))

-- The rows are, each once, those of the chats with a property, with their numbers, in order, and a
-- click on any of them is handled without a panic.
abbrev pub AreRowsOf : (Chat → Type 0) → MeshApp → List (ℕ × Chat) → Type 0
AreRowsOf P app rows =
    Ordered rows
    × ((i : ℕ) (ch : Chat) → IsOf (i, ch) rows ↔ ((get_elem? app.chats i ≡ some ch) × P ch))
    × All (λ row. Safe (switch_chat row.0 app)) rows

module _ (lower : Text → Text) (search : Text) where
  Found-of :
      (t : Text)
      → (is_empty (lower search) || contains_text (lower search) (lower t)) ≡ true
      → Found lower search t
  Found-of t h = elim (Bool-cases (is_empty (lower search))) [
    | inl e ↦ inl (is_empty-nil (lower search) e)
    | inr e ↦ inr (contains_text-Contains (lower search) (lower t) (rw e at h))
  ]

  of-Found :
      (t : Text)
      → Found lower search t
      → (is_empty (lower search) || contains_text (lower search) (lower t)) ≡ true
  of-Found t (inl e) = rw e refl
  of-Found t (inr c) =
      let k = Contains-contains_text (lower search) (lower t) c in ground (arith, k)

  module _ (app : MeshApp) where
    lists_room_iff :
        (i : ℕ) (ch : Chat)
        → (lists_room lower search app (i, ch) ≡ true) ↔ IsRoomRow lower search app ch
    unfolding lists_room
    lists_room_iff i ch = (
      λ h. (ground (arith, h), Found-of ch.id (ground (arith, h))),
      λ (r, f). (let k = of-Found ch.id f in rw (r, k) refl),
    )

    two_names :
        (a b : Text)
        → (is_empty (lower search)
            || (contains_text (lower search) (lower a) || contains_text (lower search) (lower b)))
          ≡ true
        → Found lower search a ⊎ Found lower search b
    two_names a b h =
        elim (Bool-cases (is_empty (lower search) || contains_text (lower search) (lower a))) [
          | inl e ↦ inl (Found-of a e)
          | inr e ↦ inr (Found-of b (ground (arith, h, e)))
        ]

    lists_private_iff :
        (i : ℕ) (ch : Chat)
        → (lists_private lower search app (i, ch) ≡ true) ↔ IsPrivateRow lower search app ch
    unfolding lists_private
    lists_private_iff i ch = (
      λ h. (ground (arith, h), two_names ch.id (display_name ch.id app) (ground (arith, h))),
      λ (r, f). (elim f [
        | inl g ↦ let k = of-Found ch.id g in ground (arith, r, k)
        | inr g ↦ let k = of-Found (display_name ch.id app) g in ground (arith, r, k)
      ]),
    )

-- The rows that a test takes, if it decides a property of the chats.
rows_lem :
    (P : Chat → Type 0) (p : ℕ × Chat → Bool) (app : MeshApp)
    → ((i : ℕ) (ch : Chat) → (p (i, ch) ≡ true) ↔ P ch)
    → IsValid app
    → AreRowsOf P app (sort_by activity (retain p (indexed 0 app.chats)))
rows_lem P p app decides v = (
  sort_by-Ordered _ (retain-Ascending p 0 app.chats),
  λ i ch. (
    λ h.
        let (listed, taken) = retain-to (i, ch) p _ (sort_by-to (i, ch) _ h) in
        let (k, e, g) = indexed-to i 0 ch app.chats listed in
        let same : k ≡ i = omega (arith, e) in (rw same at g, (decides i ch).0 taken),
    λ (g, h).
        sort_by-from (i, ch) _
          (retain-from (i, ch) p _ (indexed-from i 0 i ch app.chats (omega arith) g)
            ((decides i ch).1 h)),
  ),
  All-sort_by activity _ _ (
      All-retain _ p _ (
        indexed-All (λ j. Safe (switch_chat j app)) 0 app.chats
          (λ j le lt. switch_chat-Safe j app v (omega (arith, lt))))),
)

-- In a valid state the sidebar lists, each once and with its number, exactly the rooms with the
-- search in their id and the private chats with the search in their id or in the name shown for
-- them, all in lower case: those active later first and, of chats active at the same time, those
-- nearer to the beginning of the chats. A click on any row is handled without a panic.
pub rows-AreRowsOf :
    (lower : Text → Text) (search : Text) (app : MeshApp)
    → IsValid app
    → AreRowsOf (IsRoomRow lower search app) app (room_rows lower search app)
      × AreRowsOf (IsPrivateRow lower search app) app (private_rows lower search app)
unfolding room_rows private_rows
rows-AreRowsOf lower search app v = (
  rows_lem _ _ app (lists_room_iff lower search app) v,
  rows_lem _ _ app (lists_private_iff lower search app) v,
)
