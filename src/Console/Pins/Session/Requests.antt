-- ===== src/Console/Pins/Session/Requests.antt =====
-- `request`, `recipient_pub` and `room_targets` of the console client, and the fingerprints.
use e2e_console_messenger.Base.{
  ℕ, ◌+◌, refl, Bool, true, false, Option, none, some, List, [], ◌∷◌, ◌++◌, Bytes, Text, codes,
  text_eq, split, split_once, if◌then◌else◌, Option-cases, Bool-cases, inl, inr,
}
use e2e_console_messenger.Base.Utf8.{as_bytes}
use e2e_console_messenger.Base.Dict.{lookup}
use e2e_console_messenger.Platform.{Platform}
use e2e_console_messenger.Proto.{type_command}
use e2e_console_messenger.Net.State.{Session}
use e2e_console_messenger.Console.State.{State, seal_command, write_frame}
use e2e_console_messenger.Console.Request.{
  open_channel, wait_response, request, answered, recipient_pub, member_item, member_items, members,
  room_targets,
}
use e2e_console_messenger.Console.Pins.{Keeps, Keeps-same, Keeps-refl, Keeps-trans, learn-Keeps}
use e2e_console_messenger.Console.Pins.Frames.{handle_frames-Keeps}

module _ (c : Platform) (s : Session) (Trusts : Text → Type 0) where
  abbrev pub Kept : State → State → Type 0
  Kept = Keeps c s.os Trusts

  pub write_frame-Keeps :
      (ftype : ℕ) (payload : Bytes) (st : State) → Kept st (write_frame c s ftype payload st).1
  unfolding write_frame
  write_frame-Keeps ftype payload st = Keeps-same c s.os Trusts st _ refl refl

  wait_response-Keeps : (ch : ℕ) (st : State) → Kept st (wait_response c s ch st).1
  unfolding wait_response
  wait_response-Keeps ch st =
      let st1 : State = record st { waits = st.waits + 1 } in
      Keeps-trans c s.os Trusts (Keeps-same c s.os Trusts st st1 refl refl)
        (handle_frames-Keeps c s Trusts (s.arrivals st.waits) st1)

  sent-Keeps :
      (done : Bool) (ch : ℕ) (st st' : State)
      → Kept st st'
      → Kept st (if done then wait_response c s ch st' else (none, st')).1
  sent-Keeps true ch st st' k = Keeps-trans c s.os Trusts k (wait_response-Keeps ch st')
  sent-Keeps false ch st st' k = k

  pub seal_command-Keeps : (cmd : Text) (st : State) → Kept st (seal_command c s cmd st).1
  unfolding seal_command
  seal_command-Keeps cmd st = Keeps-same c s.os Trusts st _ refl refl

  sealed-Keeps : (cmd : Text) (st : State) → Kept st (seal_command c s cmd (open_channel st).1).1
  unfolding open_channel
  sealed-Keeps cmd st =
      let st1 = (open_channel st).1 in
      Keeps-trans c s.os Trusts (Keeps-same c s.os Trusts st st1 refl refl)
        (seal_command-Keeps cmd st1)

  request-Keeps : (cmd : Text) (st : State) → Kept st (request c s cmd st).1
  unfolding request
  request-Keeps cmd st =
      let st2 = (seal_command c s cmd (open_channel st).1).1 in
      elim (Option-cases (seal_command c s cmd (open_channel st).1).0) [
        | inl e ↦ rw (e, request) (sealed-Keeps cmd st)
        | inr (enc, e) ↦
            rw (e, request)
              (sent-Keeps _ (open_channel st).0 st _ (
                Keeps-trans c s.os Trusts (sealed-Keeps cmd st)
                  (write_frame-Keeps type_command (as_bytes enc) st2)))
      ]

  answered-Keeps :
      (name : Text) (st : State) (a : Option Text × State)
      → Kept st a.1
      → Kept st (answered c s name a).1
  unfolding answered
  answered-Keeps name st (none, st1) k = k
  answered-Keeps name st (some resp, st1) k = elim (Bool-cases (text_eq resp (codes "ERR"))) [
    | inl e ↦ rw e k
    | inr e ↦ rw e (Keeps-trans c s.os Trusts k (learn-Keeps c s.os Trusts name resp st1))
  ]

  pub recipient_pub-Keeps : (name : Text) (st : State) → Kept st (recipient_pub c s name st).1
  unfolding recipient_pub
  recipient_pub-Keeps name st = elim (Option-cases (lookup name st.known)) [
    | inl e ↦
        rw (e, recipient_pub)
          (answered-Keeps name st (request c s (codes "/pubkey " ++ name) st)
            (request-Keeps (codes "/pubkey " ++ name) st))
    | inr (p, e) ↦ rw (e, recipient_pub) (Keeps-refl c s.os Trusts st)
  ]

  member_item-Keeps : (item : Text) (st : State) → Kept st (member_item c s item st).1
  unfolding member_item
  member_item-Keeps item st = elim (Option-cases (split_once b':' item)) [
    | inl e ↦ rw (e, member_item) (Keeps-refl c s.os Trusts st)
    | inr ((n, p), e) ↦ rw (e, member_item) (learn-Keeps c s.os Trusts n p st)
  ]

  member_items-Keeps : (items : List Text) (st : State) → Kept st (member_items c s items st).1
  unfolding member_items
  member_items-Keeps [] st = Keeps-refl c s.os Trusts st
  member_items-Keeps (item ∷ items) st =
      Keeps-trans c s.os Trusts (member_item-Keeps item st)
        (member_items-Keeps items (member_item c s item st).1)

  members-Keeps : (st : State) (a : Option Text × State) → Kept st a.1 → Kept st (members c s a).1
  unfolding members
  members-Keeps st (none, st1) k = k
  members-Keeps st (some resp, st1) k = elim (Bool-cases (text_eq resp (codes "ERR"))) [
    | inl e ↦ rw e k
    | inr e ↦ rw e (Keeps-trans c s.os Trusts k (member_items-Keeps (split b';' resp) st1))
  ]

  pub room_targets-Keeps : (st : State) → Kept st (room_targets c s st).1
  unfolding room_targets
  room_targets-Keeps st =
      members-Keeps st (request c s (codes "/roommembers") st)
        (request-Keeps (codes "/roommembers") st)
