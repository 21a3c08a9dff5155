-- ===== src/Bus/Inproc.antt =====
-- bus/inproc.ts: the mailboxes of the agents of one session. A message id `m<n>` is its number n. A
-- settled promise and the call of the settlement listeners are the Settlement that an operation hands
-- on. An observer that calls the bus while it is notified makes the calls that follow the delivery.
pub mod Delivery
pub mod Live
pub mod Retention
pub mod Invariant
pub mod Calls
pub mod Accounts
pub mod History
pub mod Once
mod Tests
use pi_persona.Base.{
  ℕ, suc, ◌+◌, ◌-◌, Bool, true, false, not, ◌&&◌, ◌||◌, Option, none, some, List, [], ◌∷◌, ◌++◌,
  map, ltb, leb, ◌==◌, if◌then◌else◌, is_some, or_else, any, find, filter, length, Text, text_eq,
  TextMap, lookup, insert, delete,
}

pub data MsgKind : Type 0 where
  progress decision interview : MsgKind

pub record Envelope : Type 0 where
  pub id : ℕ
  pub sender : Text
  pub recipient : Text
  pub kind : MsgKind
  pub text : Text
  pub expects_reply : Bool

abbrev pub max_retained_messages : ℕ
max_retained_messages = 256

abbrev pub max_retained_message_chars : ℕ
max_retained_message_chars = 256000

abbrev pub max_inbox_messages : ℕ
max_inbox_messages = 200

pub data Reason : Type 0 where
  replied aborted timeout unregistered inbox_full delivery_error : Reason

-- `AskSettlement`, with the text that the promise resolves to, or none where it is rejected.
pub record Settlement : Type 0 where
  pub id : ℕ
  pub sender : Text
  pub recipient : Text
  pub reason : Reason
  pub reply : Option Text

pub record PendingAsk : Type 0 where
  pub id : ℕ
  pub sender : Text
  pub recipient : Text

pub record InProcessBus : Type 0 where
  pub seq : ℕ
  pub max_inbox : ℕ
  pub inboxes : TextMap (List Envelope)
  pub retained_messages : List Envelope
  pub retained_message_chars : ℕ
  pub pending_asks : List PendingAsk

-- The option of the constructor is a number of the host, floored, or none where it is absent or not
-- finite.
pub inbox_bound : Option ℕ → ℕ
inbox_bound none = max_inbox_messages
inbox_bound (some n) = if ltb 1 n then n else 1

pub new_bus : Option ℕ → InProcessBus
new_bus max_inbox = record {
  seq = 0;
  max_inbox = inbox_bound max_inbox;
  inboxes = [];
  retained_messages = [];
  retained_message_chars = 0;
  pending_asks = [];
}

-- The box without its oldest one-way note, or none where every message is a live ask.
pub remove_note : List Envelope → Option (List Envelope)
remove_note [] = none
remove_note (e ∷ box) =
    let rest = remove_note box in
    if not e.expects_reply then some box else elim rest [ none ↦ none | some b ↦ some (e ∷ b) ]

pub deliver_to : ℕ → List Envelope → Envelope → Option (List Envelope)
deliver_to max_inbox box env =
    if leb max_inbox (length box)
    then elim (remove_note box) [ none ↦ none | some b ↦ some (b ++ (env ∷ [])) ]
    else some (box ++ (env ∷ []))

-- The box without the first message of this id.
pub remove_id : ℕ → List Envelope → List Envelope
remove_id id [] = []
remove_id id (e ∷ box) = let rest = remove_id id box in if e.id == id then box else e ∷ rest

-- The message object is shared: it is the pending ask's, and that of the inbox or of the retained ones.
pub answered : ℕ → Text → Envelope → Envelope
answered id recipient e =
    if e.id == id && text_eq e.recipient recipient then record e { expects_reply = false } else e

pub retire_ask_envelope : PendingAsk → InProcessBus → InProcessBus
retire_ask_envelope p s = record s {
  inboxes = elim (lookup p.recipient s.inboxes) [
    | none ↦ s.inboxes
    | some box ↦ insert p.recipient (remove_id p.id box) s.inboxes
  ];
  retained_messages = map (answered p.id p.recipient) s.retained_messages;
}

pub reply_of : Reason → Option Text → Option Text
reply_of replied reply = some (or_else reply [])
reply_of _ reply = none

pub settlement_of : PendingAsk → Reason → Option Text → Settlement
settlement_of p reason reply = record {
  id = p.id;
  sender = p.sender;
  recipient = p.recipient;
  reason = reason;
  reply = reply_of reason reply;
}

pub without_ask : ℕ → InProcessBus → InProcessBus
without_ask id s = record s { pending_asks = filter (λ p. not (p.id == id)) s.pending_asks }

pub settle_ask : InProcessBus → ℕ → Reason → Option Text → Bool × InProcessBus × List Settlement
settle_ask s id reason reply = elim (find (λ p. p.id == id) s.pending_asks) [
  | none ↦ (false, s, [])
  | some p ↦ (true, retire_ask_envelope p (without_ask id s), settlement_of p reason reply ∷ [])
]

-- The loop of `retain`, from the oldest message on.
pub shrink : List Envelope → ℕ → List Envelope × ℕ
shrink [] chars = ([], chars)
shrink (e ∷ es) chars =
    let rest = shrink es (chars - length e.text) in
    if ltb max_retained_messages (length (e ∷ es)) || ltb max_retained_message_chars chars
    then rest
    else (e ∷ es, chars)

-- `retain` on the retained messages and their characters.
pub retain : List Envelope × ℕ → Envelope → List Envelope × ℕ
retain (es, chars) env =
    if ltb max_retained_message_chars (length env.text) || any (λ e. e.id == env.id) es
    then (es, chars)
    else shrink (es ++ (env ∷ [])) (chars + length env.text)

pub retain_each : List Envelope × ℕ → List Envelope → List Envelope × ℕ
retain_each held [] = held
retain_each held (e ∷ es) = retain_each (retain held e) es

pub retain_all : InProcessBus → List Envelope → InProcessBus
retain_all s es =
    let (kept, chars) = retain_each (s.retained_messages, s.retained_message_chars) es in
    record s { retained_messages = kept; retained_message_chars = chars }

pub register : InProcessBus → Text → InProcessBus
register s name =
    if is_some (lookup name s.inboxes) then s else record s { inboxes = insert name [] s.inboxes }

-- The asks of `asks` that name the participant are settled, in their order.
pub settle_all : InProcessBus → Text → List PendingAsk → InProcessBus × List Settlement
settle_all s name [] = (s, [])
settle_all s name (p ∷ asks) =
    let (found, s', log) = settle_ask s p.id unregistered none in
    let settled = settle_all s' name asks in
    let others = settle_all s name asks in
    if text_eq p.sender name || text_eq p.recipient name
    then (settled.0, log ++ settled.1)
    else others

-- The retained messages to others, and the characters that are left.
pub forget_messages_to : Text → List Envelope → ℕ → List Envelope × ℕ
forget_messages_to name [] chars = ([], chars)
forget_messages_to name (e ∷ es) chars =
    let dropped = forget_messages_to name es (chars - length e.text) in
    let (kept, left) = forget_messages_to name es chars in
    if not (text_eq e.recipient name) then (e ∷ kept, left) else dropped

pub unregister : InProcessBus → Text → InProcessBus × List Settlement
unregister s name =
    let (s', log) = settle_all (record s { inboxes = delete name s.inboxes }) name s.pending_asks in
    let (kept, chars) = forget_messages_to name s'.retained_messages s'.retained_message_chars in
    (record s' { retained_messages = kept; retained_message_chars = chars }, log)

pub participants : InProcessBus → List Text
participants s = map (λ e. e.0) s.inboxes

pub send_note : InProcessBus → Text → Text → Text → MsgKind → Bool × InProcessBus
send_note s sender recipient text kind = elim (lookup recipient s.inboxes) [
  | none ↦ (false, s)
  | some box ↦
      let env : Envelope = record {
        id = suc s.seq;
        sender = sender;
        recipient = recipient;
        kind = kind;
        text = text;
        expects_reply = false;
      } in
      let counted = record s { seq = suc s.seq } in
      elim (deliver_to s.max_inbox box env) [
        | none ↦ (false, counted)
        | some box' ↦ (true, record counted { inboxes = insert recipient box' s.inboxes })
      ]
]

-- The ask is pending before it is delivered, and settled at once where it is not delivered. None: the
-- recipient is unknown, which is thrown.
pub ask_peer :
    InProcessBus → Text → Text → Text → MsgKind → Bool → Option (ℕ × InProcessBus × List Settlement)
ask_peer s sender recipient text kind is_aborted = elim (lookup recipient s.inboxes) [
  | none ↦ none
  | some box ↦
      let id = suc s.seq in
      let env : Envelope = record {
        id = id;
        sender = sender;
        recipient = recipient;
        kind = kind;
        text = text;
        expects_reply = true;
      } in
      let ask : PendingAsk = record { id = id; sender = sender; recipient = recipient } in
      let asked = record s { seq = id; pending_asks = s.pending_asks ++ (ask ∷ []) } in
      let (_, gone, why) = settle_ask asked id aborted none in
      let (_, full, reason) = settle_ask asked id inbox_full none in
      if is_aborted then some (id, gone, why) else elim (deliver_to s.max_inbox box env) [
        | none ↦ some (id, full, reason)
        | some box' ↦ some (id, record asked { inboxes = insert recipient box' s.inboxes }, [])
      ]
]

pub reply_to : InProcessBus → ℕ → Text → Bool × InProcessBus × List Settlement
reply_to s ask_id text = settle_ask s ask_id replied (some text)

-- `take`, which makes an inbox for a name that has none.
pub take_all : InProcessBus → Text → List Envelope × InProcessBus
take_all s name =
    let box = or_else (lookup name s.inboxes) [] in
    (box, retain_all (record s { inboxes = insert name [] s.inboxes }) box)

pub take_where : InProcessBus → Text → (Envelope → Bool) → List Envelope × InProcessBus
take_where s name pred = elim (lookup name s.inboxes) [
  | none ↦ ([], s)
  | some [] ↦ ([], s)
  | some (e ∷ box) ↦ (
    filter pred (e ∷ box),
    retain_all (record s { inboxes = insert name (filter (λ m. not (pred m)) (e ∷ box)) s.inboxes })
        (filter pred (e ∷ box)),
  )
]

pub retrieve : InProcessBus → ℕ → Option Text → Option Envelope
retrieve s message_id recipient = elim (find (λ e. e.id == message_id) s.retained_messages) [
  | none ↦ none
  | some e ↦ elim recipient [
    | none ↦ some e
    | some name ↦ if text_eq e.recipient name then some e else none
  ]
]

pub unread : InProcessBus → Text → List Envelope
unread s name = or_else (lookup name s.inboxes) []

pub has_unread : InProcessBus → Text → Bool
has_unread s name = ltb 0 (length (or_else (lookup name s.inboxes) []))

pub has_pending_ask_from : InProcessBus → Text → Bool
has_pending_ask_from s handle = any (λ p. text_eq p.sender handle) s.pending_asks
