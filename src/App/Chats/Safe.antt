-- ===== src/App/Chats/Safe.antt =====
-- Steps of main.rs that may panic, from a valid state, and how they compose.
use e2e_console_messenger.Base.{ℕ, ◌<◌, ◌≡◌, refl, false, Option, some, length, Text, ◌>>=◌, arith}
use e2e_console_messenger.App.State.{Chat, MeshApp}
use e2e_console_messenger.App.Chats.{chat_index, select, open_private}
use e2e_console_messenger.App.Chats.Laws.{IsBounded, IsValid, chat_index_lem, Keeps, modify_total}

-- A step that may panic returns a valid state.
abbrev pub Safe : Option MeshApp → Type 0
Safe r = (app' : MeshApp) × (r ≡ some app') × IsValid app'

pub Safe-of : (r : Option MeshApp) (app : MeshApp) → Keeps r app → Safe r
Safe-of r app k = (k.0, k.1, k.2)

-- Only the list and the selection count.
pub IsValid-same :
    (app app' : MeshApp)
    → app'.chats ≡ app.chats
    → app'.active ≡ app.active
    → IsValid app
    → IsValid app'
IsValid-same app app' e k v = record { selected = rw (e, k) v.selected; bounded = rw e v.bounded }

pub Safe-bind :
    (r : Option MeshApp) (f : MeshApp → Option MeshApp)
    → Safe r
    → ((app : MeshApp) → IsValid app → Safe (f app))
    → Safe (r >>= f)
Safe-bind r f (app, e, v) k = rw (e, ◌>>=◌) (k app v)

pub Safe-some : (app : MeshApp) → IsValid app → Safe (some app)
Safe-some app v = (app, refl, v)

-- A chat that is there can be selected.
pub select-Safe :
    (idx : ℕ) (f : Chat → Chat) (app : MeshApp)
    → IsValid app
    → idx < length app.chats
    → ((ch : Chat) → IsBounded ch → IsBounded (f ch))
    → ((ch : Chat) → (f ch).id ≡ ch.id)
    → Safe (select idx f app)
unfolding select
select-Safe idx f app v h k e =
    let (l, p, q, n, b) = modify_total f app.chats idx h v.bounded k e in
    (
      record app { chats = l; active = idx },
      rw (p, ◌>>=◌),
      record { selected = omega (arith, h, n); bounded = b },
    )

pub open_private-Safe :
    (now : ℕ) (at : Text) (app : MeshApp) → IsValid app → Safe (open_private now at app)
unfolding open_private
open_private-Safe now at app v =
    let (h, v', e) = chat_index_lem now at false app v in
    select-Safe (chat_index now at false app).0 _ (chat_index now at false app).1 v' h (λ ch b. b)
      (λ ch. refl)
