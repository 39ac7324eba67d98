-- ===== src/Net/Request/Laws.antt =====
-- `recipient_pub` and `room_targets` of net.rs: pinned fingerprints and the targets in a room.
use e2e_console_messenger.Base.{
  ℕ, ◌+◌, ◌≡◌, ◌≢◌, refl, ◌∙◌, Bool, true, false, Option, none, some, List, [], ◌∷◌, ◌++◌, Text,
  codes, text_eq, text_eq_iff, trim, split, split_once, All, All-append, if◌then◌else◌,
  Option-cases, Bool-cases, inl, inr, arith,
}
use e2e_console_messenger.Base.Utf8.{as_bytes}
use e2e_console_messenger.Base.Dict.{lookup}
use e2e_console_messenger.Platform.{Platform}
use e2e_console_messenger.Proto.{type_command}
use e2e_console_messenger.Net.State.{Session, NetState, seal_command, write_frame}
use e2e_console_messenger.Net.Tofu.{learn}
use e2e_console_messenger.Net.Tofu.Laws.{
  KeepsPins, KeepsPins-refl, KeepsPins-trans, KeepsPins-same, learn-KeepsPins,
}
use e2e_console_messenger.Net.Reader.Pins.{handle_frames-KeepsPins, write_frame-tofu}
use e2e_console_messenger.Net.Request.{
  open_channel, wait_response, request, recipient_pub, member_item, member_items, room_targets,
}

-- The state behind an action with a result.
abbrev Keeping {ℓ} : {A : Type ℓ} → A × NetState → NetState → Type 0
Keeping r st = KeepsPins st r.1

Keeping-if {ℓ} :
    {A : Type ℓ} (b : Bool) (x y : A × NetState) (st : NetState)
    → KeepsPins st x.1
    → KeepsPins st y.1
    → KeepsPins st (if b then x else y).1
Keeping-if true x y st hx hy = hx
Keeping-if false x y st hx hy = hy

module _ (c : Platform) (s : Session) where
  wait_response-KeepsPins : (ch : ℕ) (st : NetState) → KeepsPins st (wait_response c s ch st).1
  unfolding wait_response
  wait_response-KeepsPins ch st =
      let started : NetState = record st { waits = st.waits + 1 } in
      KeepsPins-trans (KeepsPins-same st started refl)
        (handle_frames-KeepsPins c s (s.arrivals st.waits) started)

  -- The state in which a request waits.
  asked : Text → NetState → NetState
  asked cmd st = (seal_command c s cmd (open_channel st).1).1

  asked-tofu : (cmd : Text) (st : NetState) → (asked cmd st).tofu ≡ st.tofu
  unfolding asked seal_command open_channel
  asked-tofu cmd st = refl

  pub request-KeepsPins : (cmd : Text) (st : NetState) → KeepsPins st (request c s cmd st).1
  unfolding request asked
  request-KeepsPins cmd st = go (seal_command c s cmd (open_channel st).1).0 refl
    where
      go :
          (o : Option Text)
          → (seal_command c s cmd (open_channel st).1).0 ≡ o
          → KeepsPins st (request c s cmd st).1
      go none e = rw (e, request) (KeepsPins-same st _ (asked-tofu cmd st))
      go (some t) e =
          let sent = write_frame c s type_command (as_bytes t) (asked cmd st) in
          let kept : KeepsPins st sent.1 =
            KeepsPins-same st sent.1
              (write_frame-tofu c s type_command (as_bytes t) (asked cmd st) ∙ asked-tofu cmd st) in
          rw (e, request)
            (Keeping-if sent.0 (wait_response c s (open_channel st).0 sent.1) (none, sent.1) st
              (KeepsPins-trans kept (wait_response-KeepsPins (open_channel st).0 sent.1)) kept)

  pub recipient_pub-KeepsPins :
      (name : Text) (st : NetState) → KeepsPins st (recipient_pub c s name st).1
  unfolding recipient_pub
  recipient_pub-KeepsPins name st = elim (Option-cases (lookup name st.known)) [
    | inr (p, e) ↦ rw (e, recipient_pub) (KeepsPins-refl st)
    | inl e ↦ rw (e, recipient_pub) (answered (request c s (codes "/pubkey " ++ name) st).0 refl)
  ]
    where
      asked_for : Option Text × NetState
      asked_for = request c s (codes "/pubkey " ++ name) st

      kept : KeepsPins st asked_for.1
      kept = request-KeepsPins (codes "/pubkey " ++ name) st

      answered :
          (o : Option Text)
          → asked_for.0 ≡ o
          → KeepsPins st
              (elim o as (λ _. Option Text × NetState) [
                | none ↦ (none, asked_for.1)
                | some r ↦
                    if text_eq r (codes "ERR")
                    then (none, asked_for.1)
                    else (some r, learn c name r asked_for.1)
              ]).1
      answered none q = kept
      answered (some r) q =
          Keeping-if (text_eq r (codes "ERR")) (none, asked_for.1)
            (some r, learn c name r asked_for.1) st kept
            (KeepsPins-trans kept (learn-KeepsPins c name r asked_for.1))

  member_item-KeepsPins : (item : Text) (st : NetState) → KeepsPins st (member_item c s item st).1
  unfolding member_item
  member_item-KeepsPins item st = elim (Option-cases (split_once b':' item)) [
    | inl e ↦ rw (e, member_item) (KeepsPins-refl st)
    | inr ((n, p), e) ↦ rw (e, member_item) (learn-KeepsPins c (trim n) (trim p) st)
  ]

  member_items-KeepsPins :
      (items : List Text) (st : NetState) → KeepsPins st (member_items c s items st).1
  unfolding member_items
  member_items-KeepsPins [] st = KeepsPins-refl st
  member_items-KeepsPins (item ∷ items) st =
      KeepsPins-trans (member_item-KeepsPins item st)
        (member_items-KeepsPins items (member_item c s item st).1)

  -- A target of a room that is not the user.
  abbrev pub IsOther : Text × Text → Type 0
  IsOther t = t.0 ≢ s.username

  member_item-IsOther : (item : Text) (st : NetState) → All IsOther (member_item c s item st).0
  unfolding member_item
  member_item-IsOther item st = elim (Option-cases (split_once b':' item)) [
    | inl e ↦ rw (e, member_item) tt
    | inr ((n, p), e) ↦ rw (e, member_item) (ground (arith, text_eq_iff (trim n) s.username))
  ]

  member_items-IsOther :
      (items : List Text) (st : NetState) → All IsOther (member_items c s items st).0
  unfolding member_items
  member_items-IsOther [] st = tt
  member_items-IsOther (item ∷ items) st =
      All-append IsOther (member_item c s item st).0
        (member_items c s items (member_item c s item st).1).0 (member_item-IsOther item st)
        (member_items-IsOther items (member_item c s item st).1)

  room_answer : Option Text → NetState → List (Text × Text) × NetState
  room_answer none st = ([], st)
  room_answer (some r) st =
      if text_eq r (codes "ERR") then ([], st) else member_items c s (split b';' r) st

  room_targets_eq :
      (st : NetState)
      → room_targets c s st
        ≡ room_answer
            (request c s (codes "/roommembers") st).0
            (request c s (codes "/roommembers") st).1
  unfolding room_targets room_answer
  room_targets_eq st = go (request c s (codes "/roommembers") st).0 refl
    where
      go :
          (o : Option Text)
          → (request c s (codes "/roommembers") st).0 ≡ o
          → room_targets c s st ≡ room_answer o (request c s (codes "/roommembers") st).1
      go none e = rw (e, room_targets)
      go (some r) e = rw (e, room_targets)

  room_answer-IsOther : (o : Option Text) (st : NetState) → All IsOther (room_answer o st).0
  unfolding room_answer
  room_answer-IsOther none st = tt
  room_answer-IsOther (some r) st = elim (Bool-cases (text_eq r (codes "ERR"))) [
    | inl e ↦ rw e tt
    | inr e ↦ rw e (member_items-IsOther (split b';' r) st)
  ]

  room_answer-KeepsPins : (o : Option Text) (st : NetState) → KeepsPins st (room_answer o st).1
  unfolding room_answer
  room_answer-KeepsPins none st = KeepsPins-refl st
  room_answer-KeepsPins (some r) st =
      Keeping-if (text_eq r (codes "ERR")) ([], st) (member_items c s (split b';' r) st) st
        (KeepsPins-refl st) (member_items-KeepsPins (split b';' r) st)

  -- Whatever the server lists as a room's members, the user is not among the targets.
  pub room_targets-IsOther : (st : NetState) → All IsOther (room_targets c s st).0
  room_targets-IsOther st = rw (room_targets_eq st) (room_answer-IsOther _ _)

  pub room_targets-KeepsPins : (st : NetState) → KeepsPins st (room_targets c s st).1
  room_targets-KeepsPins st =
      let asked_for = request c s (codes "/roommembers") st in
      rw (room_targets_eq st) (
        KeepsPins-trans (request-KeepsPins (codes "/roommembers") st)
          (room_answer-KeepsPins asked_for.0 asked_for.1))
