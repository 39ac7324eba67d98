-- ===== src/Console/Pins/Session/Lines.antt =====
-- `main` of the console client, and the fingerprints.
use e2e_console_messenger.Base.{
  ◌≡◌, refl, some, List, [], ◌∷◌, ◌||◌, Text, codes, text_eq, is_empty, trim, splitn, strip_prefix,
  starts_with, Option-cases, inl, inr,
}
use e2e_console_messenger.Base.Utf8.{as_bytes}
use e2e_console_messenger.Base.Dict.{lookup}
use e2e_console_messenger.Platform.{Platform}
use e2e_console_messenger.Proto.{type_command}
use e2e_console_messenger.Trust.{pins_of, Evolves, insert-trust, Evolves-kept}
use e2e_console_messenger.Store.{Disk}
use e2e_console_messenger.Net.State.{Session}
use e2e_console_messenger.Console.Shared.{fingerprint}
use e2e_console_messenger.Console.Store.{load_tofu}
use e2e_console_messenger.Console.State.{State, pprint, seal_command, write_frame, send_command}
use e2e_console_messenger.Console.Reader.{handle_frame}
use e2e_console_messenger.Console.Send.{send_to}
use e2e_console_messenger.Console.Main.{
  two_words, Action, typed, arrival, do_msg, do_trust, do_fingerprints, do_slash, do_trust_or_slash,
  do_file_or_other, do_line, handle_line, start, run, Input, keys, session, initial, main,
}
use e2e_console_messenger.Console.Pins.{
  Savable, IsSaved, Keeps, Keeps-same, Keeps-refl, Keeps-trans, Keeps-if, pin-Keeps, pprint-Keeps,
  pprint_all-Keeps,
}
use e2e_console_messenger.Console.Pins.Frames.{handle_frame-Keeps}
use e2e_console_messenger.Console.Pins.Session.Requests.{
  Kept, write_frame-Keeps, seal_command-Keeps,
}
use e2e_console_messenger.Console.Pins.Session.Sends.{
  send_to-Keeps, send_to_room-Keeps, send_file_to_room-Keeps,
}

-- A typed line that tells the client to trust a name.
abbrev pub Confirms : Text → Text → Type 0
Confirms line name =
    (rest : Text) × (strip_prefix (codes "/trust ") (trim line) ≡ some rest) × (trim rest ≡ name)

-- One of the typed lines does.
pub data Confirmed (name : Text) : List Action → Type 0 where
  here :
      {line : Text} {acts : List Action} → Confirms line name → Confirmed name (typed line ∷ acts)
  there : {act : Action} {acts : List Action} → Confirmed name acts → Confirmed name (act ∷ acts)

module _ (c : Platform) (s : Session) (Trusts : Text → Type 0) where
  send_command-Keeps : (cmd : Text) (st : State) → Kept c s Trusts st (send_command c s cmd st)
  unfolding send_command
  send_command-Keeps cmd st =
      let st1 = (seal_command c s cmd st).1 in
      elim (Option-cases (seal_command c s cmd st).0) [
        | inl e ↦ rw (e, send_command) (seal_command-Keeps c s Trusts cmd st)
        | inr (enc, e) ↦
            rw (e, send_command)
              (Keeps-trans c s.os Trusts (seal_command-Keeps c s Trusts cmd st)
                (write_frame-Keeps c s Trusts type_command (as_bytes enc) st1))
      ]

  do_msg-Keeps : (rest : Text) (st : State) → Kept c s Trusts st (do_msg c s rest st)
  unfolding do_msg
  do_msg-Keeps rest st =
      let words = two_words (splitn 2 b' ' rest) in
      let sent = send_to-Keeps c s Trusts words.0 words.1 st in
      Keeps-if c s.os Trusts (is_empty words.0 || is_empty words.1) st _ _
        (pprint-Keeps c s.os Trusts _ st st (Keeps-refl c s.os Trusts st))
        (Keeps-if c s.os Trusts (send_to c s words.0 words.1 st).0 st _ _
          (pprint-Keeps c s.os Trusts _ st _ sent) sent)

  do_trust-Keeps :
      (name : Text) (st : State) → Trusts name → Kept c s Trusts st (do_trust c s name st)
  unfolding do_trust
  do_trust-Keeps name st t = elim (Option-cases (lookup name st.known)) [
    | inl e ↦ rw (e, do_trust) (pprint-Keeps c s.os Trusts _ st st (Keeps-refl c s.os Trusts st))
    | inr (p, e) ↦
        rw (e, do_trust)
          (pprint-Keeps c s.os Trusts _ st _ (
            pin-Keeps c s.os Trusts name (fingerprint c p) st
              (insert-trust name (fingerprint c p) st.tofu t)))
  ]

  do_fingerprints-Keeps : (st : State) → Kept c s Trusts st (do_fingerprints c s st)
  unfolding do_fingerprints
  do_fingerprints-Keeps st =
      Keeps-if c s.os Trusts (is_empty st.tofu) st _ _
        (pprint-Keeps c s.os Trusts _ st st (Keeps-refl c s.os Trusts st))
        (pprint_all-Keeps c s.os Trusts _ st st (Keeps-refl c s.os Trusts st))

  do_slash-Keeps : (msg : Text) (st : State) → Kept c s Trusts st (do_slash c s msg st)
  unfolding do_slash
  do_slash-Keeps msg st =
      Keeps-if c s.os Trusts (text_eq msg (codes "/fingerprints")) st _ _ (do_fingerprints-Keeps st)
        (Keeps-if c s.os Trusts (starts_with (codes "/") msg) st _ _ (send_command-Keeps msg st)
          (send_to_room-Keeps c s Trusts msg st))

  do_trust_or_slash-Keeps :
      (msg : Text) (st : State)
      → ((rest : Text) → strip_prefix (codes "/trust ") msg ≡ some rest → Trusts (trim rest))
      → Kept c s Trusts st (do_trust_or_slash c s msg st)
  unfolding do_trust_or_slash
  do_trust_or_slash-Keeps msg st t = elim (Option-cases (strip_prefix (codes "/trust ") msg)) [
    | inl e ↦ rw (e, do_trust_or_slash) (do_slash-Keeps msg st)
    | inr (rest, e) ↦ rw (e, do_trust_or_slash) (do_trust-Keeps (trim rest) st (t rest e))
  ]

  do_line-Keeps :
      (msg : Text) (st : State)
      → ((rest : Text) → strip_prefix (codes "/trust ") msg ≡ some rest → Trusts (trim rest))
      → Kept c s Trusts st (do_line c s msg st)
  unfolding do_line do_file_or_other
  do_line-Keeps msg st t = elim (Option-cases (strip_prefix (codes "/msg ") msg)) [
    | inl e ↦ elim (Option-cases (strip_prefix (codes "/file ") msg)) [
      | inl f ↦ rw (e, do_line, f, do_file_or_other) (do_trust_or_slash-Keeps msg st t)
      | inr (rest, f) ↦
          rw (e, do_line, f, do_file_or_other) (send_file_to_room-Keeps c s Trusts (trim rest) st)
    ]
    | inr (rest, e) ↦ rw (e, do_line) (do_msg-Keeps rest st)
  ]

  handle_line-Keeps :
      (line : Text) (st : State)
      → ((n : Text) → Confirms line n → Trusts n)
      → Kept c s Trusts st (handle_line c s line st)
  unfolding handle_line
  handle_line-Keeps line st t =
      Keeps-if c s.os Trusts (is_empty (trim line)) st _ _ (Keeps-refl c s.os Trusts st)
        (do_line-Keeps (trim line) st (λ rest e. t (trim rest) (rest, e, refl)))

  start-Keeps : (st : State) → Kept c s Trusts st (start c s st)
  unfolding start write_frame
  start-Keeps st = pprint_all-Keeps c s.os Trusts _ st _ (Keeps-same c s.os Trusts st _ refl refl)

  pub run-Keeps :
      (acts : List Action) (st : State)
      → ((n : Text) → Confirmed n acts → Trusts n)
      → Kept c s Trusts st (run c s acts st)
  unfolding run
  run-Keeps [] st t = Keeps-refl c s.os Trusts st
  run-Keeps (typed line ∷ acts) st t =
      Keeps-trans c s.os Trusts (handle_line-Keeps line st (λ n h. t n (here h)))
        (run-Keeps acts (handle_line c s line st) (λ n h. t n (there h)))
  run-Keeps (arrival ftype payload ∷ acts) st t =
      Keeps-trans c s.os Trusts (handle_frame-Keeps c s Trusts ftype payload st)
        (run-Keeps acts (handle_frame c s ftype payload st) (λ n h. t n (there h)))

module _ (c : Platform) (inp : Input) (disk : Disk) (acts : List Action) where
  main-Keeps : Keeps c inp.os (λ n. Confirmed n acts) (initial c inp disk) (main c inp disk acts)
  unfolding main
  main-Keeps =
      let s : Session = session c inp disk in
      let T : Text → Type 0 = λ n. Confirmed n acts in
      let st : State = pprint (codes "Введи своё имя:") (initial c inp disk) in
      unfold session in
      Keeps-trans c inp.os T
        (pprint-Keeps c inp.os T _ _ _ (Keeps-refl c inp.os T (initial c inp disk)))
        (Keeps-trans c inp.os T (start-Keeps c s T st)
          (run-Keeps c s T acts (start c s st) (λ n h. h)))

  -- The fingerprints at the end of the program, whatever is typed and whatever the server sends,
  -- come from those loaded from the disk by steps of trust on first use: a name without a
  -- fingerprint is given one, or a name that the user confirms with `/trust` is given a new one.
  pub main-Evolves :
      Evolves
        (λ n. Confirmed n acts)
        (pins_of (load_tofu inp.os c (keys c inp disk).3))
        (pins_of (main c inp disk acts).tofu)
  unfolding initial
  main-Evolves = main-Keeps.evolves

  -- So the fingerprint of a name that the user never confirms is, once loaded, never replaced.
  pub main_pinned :
      (name old : Text)
      → lookup name (load_tofu inp.os c (keys c inp disk).3) ≡ some old
      → (Confirmed name acts → ⊥)
      → lookup name (main c inp disk acts).tofu ≡ some old
  main_pinned name old h kept = Evolves-kept name old main-Evolves kept h

  -- If the platform keeps its laws and fingerprints can be printed and written, the file of
  -- fingerprints that the next start of the program loads holds, at the end, exactly the fingerprints
  -- in memory.
  pub main-IsSaved : Savable c inp.os → IsSaved c inp.os (main c inp disk acts)
  main-IsSaved ok = main-Keeps.saved ok (unfold initial in refl)
