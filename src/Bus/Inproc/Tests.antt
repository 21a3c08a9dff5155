-- ===== src/Bus/Inproc/Tests.antt =====
-- A child that asks its supervisor and is answered.
use pi_persona.Base.{
  List, ◌+◌, ◌≤◌, ◌≡◌, refl, true, false, none, some, [], ◌∷◌, ◌++◌, codes, Text, lookup, insert,
  text_eq, filter, length, all, ◌↔◌, arith,
}
use pi_persona.Bus.Inproc.{
  Envelope, InProcessBus, progress, decision, replied, new_bus, inbox_bound, register, send_note,
  ask_peer, settle_ask, remove_note, deliver_to, take_all,
}
use pi_persona.Bus.Inproc.Delivery.{IsKept, deliver_to_lem, deliver_to-none_iff}
use pi_persona.Bus.Inproc.Invariant.{IsSound}
use pi_persona.Bus.Inproc.Accounts.{pending_count, settled_count}
use pi_persona.Bus.Inproc.History.{
  Reachable, opened, registers, sends, asks, settles, takes, InProcessBus-IsSound,
}
use pi_persona.Bus.Inproc.Once.{asked_count, Reachable-settled_once}

abbrev child : Text
child = codes "c"

abbrev boss : Text
boss = codes "b"

abbrev noted : InProcessBus
noted = (send_note (register (new_bus (some 1)) boss) child boss (codes "at work") progress).1

abbrev question : Envelope
question = record {
  id = 2;
  sender = child;
  recipient = boss;
  kind = decision;
  text = codes "which?";
  expects_reply = true;
}

abbrev asking : InProcessBus
asking = record noted {
  seq = 2;
  inboxes = (boss, question ∷ []) ∷ [];
  pending_asks = record { id = 2; sender = child; recipient = boss } ∷ [];
}

-- The note makes room for the question.
asks_boss : ask_peer noted child boss (codes "which?") decision false ≡ some (2, asking, [])
unfolding ask_peer send_note register new_bus inbox_bound deliver_to remove_note lookup insert
    text_eq
asks_boss = refl

abbrev taken : InProcessBus
taken = (take_all asking boss).1

abbrev history :
    Reachable
      (some 1)
      (settle_ask taken 2 replied (some (codes "both"))).1
      (2 ∷ [])
      ([] ++ (settle_ask taken 2 replied (some (codes "both"))).2)
history = settles 2 replied (some (codes "both")) (
    takes boss (
      asks child boss (codes "which?") decision false 2 asking []
        (sends child boss (codes "at work") progress (registers boss opened)) asks_boss))

Reachable-settled_once_example :
    let (_, s, log) = settle_ask taken 2 replied (some (codes "both")) in
    (pending_count 2 s + settled_count 2 ([] ++ log) ≡ asked_count 2 (2 ∷ []))
    × (asked_count 2 (2 ∷ []) ≤ 1)
Reachable-settled_once_example = Reachable-settled_once (some 1) _ (2 ∷ []) _ history 2

InProcessBus-IsSound_example : IsSound (settle_ask taken 2 replied (some (codes "both"))).1
InProcessBus-IsSound_example = InProcessBus-IsSound (some 1) _ (2 ∷ []) _ history

deliver_to_lem_example :
    ((kept : List Envelope) × (question ∷ [] ≡ kept ++ (question ∷ []))
      × IsKept 1 (record question { id = 1; expects_reply = false } ∷ []) kept)
    × (filter (λ e. e.expects_reply) (question ∷ [])
        ≡ filter (λ e. e.expects_reply) (record question { id = 1; expects_reply = false } ∷ [])
          ++ (question ∷ []))
    × (length (question ∷ []) ≤ 1)
unfolding deliver_to remove_note
deliver_to_lem_example =
    deliver_to_lem 1 (record question { id = 1; expects_reply = false } ∷ []) question
      (question ∷ []) (omega arith) (omega arith) refl

deliver_to-none_iff_example :
    (deliver_to 1 (question ∷ []) question ≡ none)
    ↔ ((1 ≤ length (question ∷ [])) × (all (λ e. e.expects_reply) (question ∷ []) ≡ true))
deliver_to-none_iff_example = deliver_to-none_iff 1 (question ∷ []) question
