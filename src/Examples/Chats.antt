-- ===== src/Examples/Chats.antt =====
-- The chats of the window as a map, on a small input.
use e2e_console_messenger.Base.{◌≡◌, false, some, ◌==◌, codes}
use e2e_console_messenger.App.State.{MeshApp}
use e2e_console_messenger.App.Chats.{chat_index, add_msg, push_msg}
use e2e_console_messenger.App.Chats.Find.{Puts}
use e2e_console_messenger.App.Chats.View.{chat_or_new, push_msg-Puts}
use e2e_console_messenger.Examples.Window.{moment, window, window-IsValid}

push_msg-Puts_example :
    (app' : MeshApp) × (push_msg moment
        (codes "@bob")
        false
        false
        (codes "Bob")
        (codes "hi")
        0
        window
      ≡ some app')
    × Puts
        (codes "@bob")
        (add_msg moment
          (window.active == (chat_index 5000 (codes "@bob") false window).0)
          false
          (codes "Bob")
          (codes "hi")
          0
          (chat_or_new 5000 (codes "@bob") false window))
        window.chats
        app'.chats
push_msg-Puts_example =
    push_msg-Puts moment false (codes "Bob") (codes "hi") 0 (codes "@bob") false window
      window-IsValid
