-- ===== src/Net/Commands/Pins.antt =====
-- `net_loop` of net.rs: pinned fingerprints in a whole session.
use e2e_console_messenger.Base.{
  ◌≡◌, ◌≢◌, ◌∙◌, refl, sym, ap, Bool, true, false, Option, none, some, List, [], ◌∷◌, All, Text,
  Option-cases, inl, inr,
}
use mathlib.Core.Path.{subst}
use mathlib.Core.Option.{some-injective}
use e2e_console_messenger.Base.Dict.{lookup}
use e2e_console_messenger.Platform.{Platform}
use e2e_console_messenger.Net.State.{UiCmd, trust, Session, NetState, send, emit, write_frame}
use e2e_console_messenger.Net.Tofu.Laws.{KeepsPins, KeepsPins-refl, KeepsPins-same}
use e2e_console_messenger.Net.Reader.Pins.{handle_frame-KeepsPins}
use e2e_console_messenger.Net.Reader.{handle_frame}
use e2e_console_messenger.Net.Commands.Steps.{do_command-KeepsPins, send-KeepsPins, emit-KeepsPins}
use e2e_console_messenger.Crypto.{fingerprint}
use e2e_console_messenger.Trust.{
  pins_of, Evolves, stay, next, insert-trust, Evolves-more, Evolves-kept,
}
use e2e_console_messenger.Net.Commands.{
  do_trust, do_command, start_frames, Action, command, arrival, run, net_loop,
}

-- The name that a command trusts.
abbrev trusted : UiCmd → Option Text
trusted (trust name) = some name
trusted cmd = none

trusted-none : (cmd : UiCmd) (name : Text) → trusted cmd ≡ none → cmd ≢ trust name
trusted-none cmd name h e = let k = ap trusted e in cc (h, k)

trusted-some : (cmd : UiCmd) (name : Text) → trusted cmd ≡ some name → cmd ≡ trust name
trusted-some (trust n) name h = ap trust (some-injective n name h)
trusted-some cmd name h = cc

-- One of the commands trusts the name.
pub data Trusted (name : Text) : List Action → Type 0 where
  here : {acts : List Action} → Trusted name (command (trust name) ∷ acts)
  there : {act : Action} {acts : List Action} → Trusted name acts → Trusted name (act ∷ acts)

module _ (c : Platform) (s : Session) (Trusts : Text → Type 0) where
  -- The fingerprints evolve while the user trusts names.
  abbrev Grows : NetState → NetState → Type 0
  Grows st st' = Evolves Trusts (pins_of st.tofu) (pins_of st'.tofu)

  keeps-Grows : (st st' : NetState) → KeepsPins st st' → Grows st st'
  keeps-Grows st st' k = Evolves-more (λ name x. absurd x) k.evolves

  do_trust-Grows : (name : Text) (st : NetState) → Trusts name → Grows st (do_trust c s name st)
  unfolding do_trust emit send
  do_trust-Grows name st t = elim (Option-cases (lookup name st.known)) [
    | inl e ↦ rw (e, do_trust) (stay (λ n. refl))
    | inr (p, e) ↦ rw (e, do_trust) (insert-trust name (fingerprint c p) st.tofu t)
  ]

  do_command_trust :
      (name : Text) (st : NetState) → do_command c s (trust name) st ≡ some (do_trust c s name st)
  unfolding do_command
  do_command_trust name st = refl

  do_command-Grows :
      (cmd : UiCmd) (st st' : NetState)
      → ((name : Text) → cmd ≡ trust name → Trusts name)
      → do_command c s cmd st ≡ some st'
      → Grows st st'
  do_command-Grows cmd st st' t h = elim (Option-cases (trusted cmd)) [
    | inl e ↦
        keeps-Grows st st' (do_command-KeepsPins c s cmd st st' (λ name. trusted-none cmd name e) h)
    | inr (name, e) ↦
        let is_trust = trusted-some cmd name e in
        subst (Grows st)
          (some-injective (do_trust c s name st) st'
            (sym (do_command_trust name st) ∙ ap (λ x. do_command c s x st) (sym is_trust) ∙ h))
          (do_trust-Grows name st (t name is_trust))
  ]

  run-Grows :
      (live : Bool) (acts : List Action) (st : NetState)
      → ((name : Text) → Trusted name acts → Trusts name)
      → Grows st (run c s live acts st)
  unfolding run
  run-Grows live [] st t = stay (λ n. refl)
  run-Grows live (arrival ftype payload ∷ acts) st t =
      next (keeps-Grows st _ (handle_frame-KeepsPins c s ftype payload st))
        (run-Grows live acts (handle_frame c s ftype payload st) (λ n h. t n (there h)))
  run-Grows false (command cmd ∷ acts) st t = run-Grows false acts st (λ n h. t n (there h))
  run-Grows true (command cmd ∷ acts) st t =
      after (run-Grows false acts st (λ n h. t n (there h)))
        (λ st'. run-Grows true acts st' (λ n h. t n (there h)))
    where
      trusts : (name : Text) → cmd ≡ trust name → Trusts name
      trusts name e = t name (subst (λ x. Trusted name (command x ∷ acts)) (sym e) here)

      after :
          Grows st (run c s false acts st)
          → ((st' : NetState) → Grows st' (run c s true acts st'))
          → Grows st (run c s true (command cmd ∷ acts) st)
      after stopped goes_on = elim (Option-cases (do_command c s cmd st)) [
        | inl e ↦ rw (e, run) stopped
        | inr (st', e) ↦ rw (e, run) (next (do_command-Grows cmd st st' trusts e) (goes_on st'))
      ]

  net_loop-Grows :
      (failure : Option Text) (acts : List Action) (st : NetState)
      → ((name : Text) → Trusted name acts → Trusts name)
      → Grows st (net_loop c s failure acts st)
  unfolding net_loop start_frames write_frame
  net_loop-Grows (some e) acts st t =
      keeps-Grows st _ (emit-KeepsPins c s _ st _ (send-KeepsPins c s _ st _ (KeepsPins-refl st)))
  net_loop-Grows none acts st t = next (started st) (run-Grows true acts (start_frames c s st) t)
    where
      started : (st : NetState) → Grows st (start_frames c s st)
      started st = keeps-Grows st _ (emit-KeepsPins c s _ st _ (KeepsPins-same st _ refl))

module _ (c : Platform) (s : Session) where
  -- A whole session of the network thread, whatever the user commands and the server sends, refines
  -- trust on first use: the fingerprints at its end come from those at its start by steps that pin a
  -- name without a fingerprint, or pin anew a name that one of the commands trusts.
  pub net_loop-Evolves :
      (failure : Option Text) (acts : List Action) (st : NetState)
      → Evolves
          (λ name. Trusted name acts)
          (pins_of st.tofu)
          (pins_of (net_loop c s failure acts st).tofu)
  net_loop-Evolves failure acts st =
      net_loop-Grows c s (λ name. Trusted name acts) failure acts st (λ name h. h)

  abbrev pub NoTrust : Action → Type 0
  NoTrust (command cmd) = (name : Text) → cmd ≢ trust name
  NoTrust (arrival _ _) = Unit

  untrusted : (name : Text) (acts : List Action) → All NoTrust acts → Trusted name acts → ⊥
  untrusted name acts h here = h.0 name refl
  untrusted name acts h (there more) = untrusted name _ h.1 more

  -- In a whole session, whatever the user does but /trust and whatever the server sends, in any
  -- order: a fingerprint that was pinned for a name at the start is pinned for it at the end.
  pub lookup-net_loop :
      (failure : Option Text) (acts : List Action) (st : NetState) (name old : Text)
      → All NoTrust acts
      → lookup name st.tofu ≡ some old
      → lookup name (net_loop c s failure acts st).tofu ≡ some old
  lookup-net_loop failure acts st name old h k =
      Evolves-kept name old (net_loop-Evolves failure acts st) (untrusted name acts h) k
