-- ===== src/Bus/Inproc/History.antt =====
-- The buses that calls of every kind lead to, with the ids of the asks that were made and the
-- settlements, each in their order.
use pi_persona.Base.{ℕ, ◌≡◌, Bool, Option, some, List, [], ◌∷◌, ◌++◌, Text}
use pi_persona.Bus.Inproc.{
  Envelope, MsgKind, InProcessBus, Reason, Settlement, new_bus, settle_ask, register, unregister,
  send_note, ask_peer, take_all, take_where,
}
use pi_persona.Bus.Inproc.Invariant.{IsSound, settle_ask-IsSound}
use pi_persona.Bus.Inproc.Calls.{
  new_bus-IsSound, register-IsSound, unregister-IsSound, send_note-IsSound, ask_peer-IsSound,
  take_all-IsSound, take_where-IsSound,
}

-- A reply, an abort, a timeout and an observer that throws are settlements of one ask.
pub data Reachable (max_inbox : Option ℕ) : InProcessBus → List ℕ → List Settlement → Type 0 where
  opened : Reachable max_inbox (new_bus max_inbox) [] []
  registers :
      {s : InProcessBus} {asked : List ℕ} {log : List Settlement} (name : Text)
      → Reachable max_inbox s asked log
      → Reachable max_inbox (register s name) asked log
  unregisters :
      {s : InProcessBus} {asked : List ℕ} {log : List Settlement} (name : Text)
      → Reachable max_inbox s asked log
      → Reachable max_inbox (unregister s name).0 asked (log ++ (unregister s name).1)
  sends :
      {s : InProcessBus} {asked : List ℕ} {log : List Settlement} (sender recipient text : Text)
      (kind : MsgKind)
      → Reachable max_inbox s asked log
      → Reachable max_inbox (send_note s sender recipient text kind).1 asked log
  asks :
      {s : InProcessBus} {asked : List ℕ} {log : List Settlement} (sender recipient text : Text)
      (kind : MsgKind) (is_aborted : Bool) (id : ℕ) (s' : InProcessBus) (more : List Settlement)
      → Reachable max_inbox s asked log
      → ask_peer s sender recipient text kind is_aborted ≡ some (id, s', more)
      → Reachable max_inbox s' (asked ++ (id ∷ [])) (log ++ more)
  settles :
      {s : InProcessBus} {asked : List ℕ} {log : List Settlement} (id : ℕ) (reason : Reason)
      (reply : Option Text)
      → Reachable max_inbox s asked log
      → Reachable max_inbox
          (settle_ask s id reason reply).1
          asked
          (log ++ (settle_ask s id reason reply).2)
  takes :
      {s : InProcessBus} {asked : List ℕ} {log : List Settlement} (name : Text)
      → Reachable max_inbox s asked log
      → Reachable max_inbox (take_all s name).1 asked log
  takes_where :
      {s : InProcessBus} {asked : List ℕ} {log : List Settlement} (name : Text)
      (pred : Envelope → Bool)
      → Reachable max_inbox s asked log
      → Reachable max_inbox (take_where s name pred).1 asked log

-- In every state that calls lead to: a message that expects a reply, in an inbox or among the retained
-- ones, is that of an ask pending for its recipient; the messages of an inbox are addressed to it, differ
-- in their ids and are within its bound; and the retained messages are at most 256 with at most 256000
-- characters, which the bus counts rightly.
pub InProcessBus-IsSound :
    (max_inbox : Option ℕ) (s : InProcessBus) (asked : List ℕ) (log : List Settlement)
    → Reachable max_inbox s asked log
    → IsSound s
InProcessBus-IsSound max_inbox _ _ _ opened = new_bus-IsSound max_inbox
InProcessBus-IsSound max_inbox _ _ _ (registers {s} name r) =
    register-IsSound s name (InProcessBus-IsSound max_inbox s _ _ r)
InProcessBus-IsSound max_inbox _ _ _ (unregisters {s} name r) =
    unregister-IsSound s name (InProcessBus-IsSound max_inbox s _ _ r)
InProcessBus-IsSound max_inbox _ _ _ (sends {s} sender recipient text kind r) =
    send_note-IsSound s sender recipient text kind (InProcessBus-IsSound max_inbox s _ _ r)
InProcessBus-IsSound max_inbox _ _ _
      (asks {s} sender recipient text kind is_aborted id s' more r e) =
    ask_peer-IsSound s sender recipient text kind is_aborted id s' more e
      (InProcessBus-IsSound max_inbox s _ _ r)
InProcessBus-IsSound max_inbox _ _ _ (settles {s} id reason reply r) =
    settle_ask-IsSound s id reason reply (InProcessBus-IsSound max_inbox s _ _ r)
InProcessBus-IsSound max_inbox _ _ _ (takes {s} name r) =
    take_all-IsSound s name (InProcessBus-IsSound max_inbox s _ _ r)
InProcessBus-IsSound max_inbox _ _ _ (takes_where {s} name pred r) =
    take_where-IsSound s name pred (InProcessBus-IsSound max_inbox s _ _ r)
