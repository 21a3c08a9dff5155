-- ===== src/Bus/Inproc/Calls.antt =====
-- Each call keeps the bus sound.
use mathlib.Core.List.{append-nil}
use mathlib.Core.Option.{some-injective}
use pi_persona.Base.{
  ℕ, suc, ◌≤◌, ◌≡◌, refl, subst, ap, inl, inr, Bool, true, false, not, ◌||◌, Option, none, some,
  List, [], ◌∷◌, ◌++◌, arith, filter, is_some, All, All-filter, All-mono, AllPairs-filter,
  Bool-cases, Option-cases, Text, text_eq, lookup, insert, delete, lookup-delete,
  delete-HasDistinctKeys, length-filter-le,
}
use pi_persona.Bus.Inproc.{
  Envelope, MsgKind, PendingAsk, InProcessBus, unregistered, aborted, inbox_full, Settlement,
  inbox_bound, new_bus, deliver_to, settle_ask, retain_all, register, settle_all, unregister,
  send_note, ask_peer, take_all, take_where,
}
use pi_persona.Bus.Inproc.Live.{asked_to, IsMessage, IsBox}
use pi_persona.Bus.Inproc.Retention.{retain_each-IsRetained, forget_messages_to-IsRetained}
use pi_persona.Bus.Inproc.Invariant.{
  IsSound, insert-IsSound, grow-IsSound, deliver_to-IsBox, settle_ask-IsSound,
}

pub new_bus-IsSound : (max_inbox : Option ℕ) → IsSound (new_bus max_inbox)
unfolding new_bus inbox_bound lookup
new_bus-IsSound max_inbox = record {
  room = elim (Option-cases max_inbox) [
    | inl e ↦ rw e (omega arith)
    | inr (n, e) ↦ rw e (ground arith)
  ];
  issued = tt;
  distinct = tt;
  boxes = λ name box e. ground arith;
  retained = record { each = tt; sum = refl; few = omega arith; small = omega arith };
}

empty-IsBox :
    (max_inbox : ℕ) (asks : List PendingAsk) (seq : ℕ) (name : Text)
    → IsBox max_inbox asks seq name []
empty-IsBox max_inbox asks seq name = record { each = tt; apart = tt; fits = omega arith }

pub register-IsSound : (s : InProcessBus) (name : Text) → IsSound s → IsSound (register s name)
unfolding register
register-IsSound s name h = elim (Bool-cases (is_some (lookup name s.inboxes))) [
  | inl known ↦ rw known h
  | inr new ↦ rw new (insert-IsSound s name [] h (empty-IsBox _ _ _ _))
]

delete-IsSound :
    (s : InProcessBus) (name : Text)
    → IsSound s
    → IsSound (record s { inboxes = delete name s.inboxes })
delete-IsSound s name h = record {
  room = h.room;
  issued = h.issued;
  distinct = delete-HasDistinctKeys name s.inboxes h.distinct;
  boxes = λ j box e. h.boxes j box (
      let k = lookup-delete name j s.inboxes h.distinct in
      elim (Bool-cases (text_eq name j)) [
        | inl same ↦ absurd (ground (arith, e, k))
        | inr other ↦ ground (arith, e, k)
      ]);
  retained = h.retained;
}

settle_all-IsSound :
    (s : InProcessBus) (name : Text) (asks : List PendingAsk)
    → IsSound s
    → IsSound (settle_all s name asks).0
unfolding settle_all
settle_all-IsSound s name [] h = h
settle_all-IsSound s name (p ∷ asks) h =
    elim (Bool-cases (text_eq p.sender name || text_eq p.recipient name)) [
      | inl named ↦ rw named (
          settle_all-IsSound (settle_ask s p.id unregistered none).1 name asks
            (settle_ask-IsSound s p.id unregistered none h))
      | inr other ↦ rw other (settle_all-IsSound s name asks h)
    ]

pub unregister-IsSound :
    (s : InProcessBus) (name : Text) → IsSound s → IsSound (unregister s name).0
unfolding unregister
unregister-IsSound s name h =
    let k = settle_all-IsSound _ name s.pending_asks (delete-IsSound s name h) in
    record {
      room = k.room;
      issued = k.issued;
      distinct = k.distinct;
      boxes = k.boxes;
      retained = forget_messages_to-IsRetained _ name _ _ k.retained;
    }

abbrev pub added : InProcessBus → List PendingAsk → InProcessBus
added s more = record s { seq = suc s.seq; pending_asks = s.pending_asks ++ more }

-- A bus that a new message is delivered in.
delivered-IsSound :
    (s : InProcessBus) (more : List PendingAsk) (box : List Envelope) (env : Envelope)
    (box' : List Envelope)
    → lookup env.recipient s.inboxes ≡ some box
    → deliver_to s.max_inbox box env ≡ some box'
    → env.id ≡ suc s.seq
    → IsMessage (s.pending_asks ++ more) (suc s.seq) env
    → All (λ p. p.id ≤ suc s.seq) more
    → IsSound s
    → IsSound (record (added s more) { inboxes = insert env.recipient box' s.inboxes })
delivered-IsSound s more box env box' held e new m fresh h =
    insert-IsSound (added s more) env.recipient box' (grow-IsSound s more fresh h) (
      deliver_to-IsBox s.max_inbox s.pending_asks more s.seq env.recipient box env box' h.room e new
        refl m (h.boxes env.recipient box held))

pub send_note-IsSound :
    (s : InProcessBus) (sender recipient text : Text) (kind : MsgKind)
    → IsSound s
    → IsSound (send_note s sender recipient text kind).1
unfolding send_note
send_note-IsSound s sender recipient text kind h =
    elim (Option-cases (lookup recipient s.inboxes)) [
      | inl unknown ↦ rw (unknown, send_note) h
      | inr (box, held) ↦
          let env : Envelope = record {
            id = suc s.seq;
            sender = sender;
            recipient = recipient;
            kind = kind;
            text = text;
            expects_reply = false;
          } in
          elim (Option-cases (deliver_to s.max_inbox box env)) [
            | inl full ↦
                rw (held, send_note, full)
                  (subst (λ asks. IsSound (record s { seq = suc s.seq; pending_asks = asks }))
                    (append-nil s.pending_asks) (grow-IsSound s [] tt h))
            | inr (box', e) ↦
                rw (held, send_note, e)
                  (subst
                    (λ asks. IsSound (record s {
                      seq = suc s.seq;
                      pending_asks = asks;
                      inboxes = insert recipient box' s.inboxes;
                    }))
                    (append-nil s.pending_asks)
                    (delivered-IsSound s [] box env box' held e refl (omega arith, λ x. cc) tt h))
          ]
    ]

asked_to-last :
    (seq : ℕ) (ask : PendingAsk) (asks : List PendingAsk)
    → ask.id ≡ suc seq
    → All (λ p. p.id ≤ seq) asks
    → asked_to (suc seq) (asks ++ (ask ∷ [])) ≡ some ask.recipient
asked_to-last seq ask [] e h = ground arith
asked_to-last seq ask (p ∷ asks) e (old, h) = ground (arith, asked_to-last seq ask asks e h)

pub ask_peer-IsSound :
    (s : InProcessBus) (sender recipient text : Text) (kind : MsgKind) (is_aborted : Bool) (id : ℕ)
    (s' : InProcessBus) (log : List Settlement)
    → ask_peer s sender recipient text kind is_aborted ≡ some (id, s', log)
    → IsSound s
    → IsSound s'
unfolding ask_peer
ask_peer-IsSound s sender recipient text kind is_aborted id s' log e h =
    elim (Option-cases (lookup recipient s.inboxes)) [
      | inl unknown ↦ absurd (let k : none ≡ some (id, s', log) = rw (unknown, ask_peer) at e in cc)
      | inr (box, held) ↦
          let env : Envelope = record {
            id = suc s.seq;
            sender = sender;
            recipient = recipient;
            kind = kind;
            text = text;
            expects_reply = true;
          } in
          let ask : PendingAsk = record {
            id = suc s.seq;
            sender = sender;
            recipient = recipient;
          } in
          let asked = added s (ask ∷ []) in
          let sound = grow-IsSound s (ask ∷ []) (omega arith, tt) h in
          elim (Bool-cases is_aborted) [
            | inl gone ↦
                let k = rw (held, ask_peer, gone) at e in
                subst IsSound (ap (λ r. r.1) (some-injective _ _ k))
                  (settle_ask-IsSound asked (suc s.seq) aborted none sound)
            | inr live ↦ elim (Option-cases (deliver_to s.max_inbox box env)) [
              | inl full ↦
                  let k = rw (held, ask_peer, live, full) at e in
                  subst IsSound (ap (λ r. r.1) (some-injective _ _ k))
                    (settle_ask-IsSound asked (suc s.seq) inbox_full none sound)
              | inr (box', d) ↦
                  let k = rw (held, ask_peer, live, d) at e in
                  subst IsSound (ap (λ r. r.1) (some-injective _ _ k)) (
                    delivered-IsSound s (ask ∷ []) box env box' held d refl
                      (omega arith, λ x. asked_to-last s.seq ask s.pending_asks refl h.issued)
                      (omega arith, tt) h)
            ]
          ]
    ]

-- A drain: the messages are retained, and the box has the rest.
drained-IsSound :
    (s : InProcessBus) (name : Text) (rest taken : List Envelope)
    → IsSound s
    → IsBox s.max_inbox s.pending_asks s.seq name rest
    → All (IsMessage s.pending_asks s.seq) taken
    → IsSound (retain_all (record s { inboxes = insert name rest s.inboxes }) taken)
unfolding retain_all
drained-IsSound s name rest taken h b m =
    let k = insert-IsSound s name rest h b in
    record {
      room = k.room;
      issued = k.issued;
      distinct = k.distinct;
      boxes = k.boxes;
      retained =
          retain_each-IsRetained _ (s.retained_messages, s.retained_message_chars) taken m
            h.retained;
    }

box-messages :
    {max_inbox : ℕ} {asks : List PendingAsk} {seq : ℕ} {name : Text} (box : List Envelope)
    → IsBox max_inbox asks seq name box
    → All (IsMessage asks seq) box
box-messages box h = All-mono (λ e q. q.1) box h.each

pub take_all-IsSound : (s : InProcessBus) (name : Text) → IsSound s → IsSound (take_all s name).1
unfolding take_all
take_all-IsSound s name h =
    drained-IsSound s name [] _ h (empty-IsBox _ _ _ _)
      (elim (Option-cases (lookup name s.inboxes)) [
        | inl empty ↦ rw empty tt
        | inr (box, held) ↦ rw held (box-messages box (h.boxes name box held))
      ])

filter-IsBox :
    {max_inbox : ℕ} {asks : List PendingAsk} {seq : ℕ} {name : Text} (p : Envelope → Bool)
    (box : List Envelope)
    → IsBox max_inbox asks seq name box
    → IsBox max_inbox asks seq name (filter p box)
filter-IsBox p box h = record {
  each = All-filter _ p box h.each;
  apart = AllPairs-filter _ p box h.apart;
  fits = omega (arith, h.fits, length-filter-le p box);
}

pub take_where-IsSound :
    (s : InProcessBus) (name : Text) (pred : Envelope → Bool)
    → IsSound s
    → IsSound (take_where s name pred).1
unfolding take_where
take_where-IsSound s name pred h = elim (Option-cases (lookup name s.inboxes)) [
  | inl empty ↦ rw (empty, take_where) h
  | inr ([], held) ↦ rw (held, take_where) h
  | inr (e ∷ box, held) ↦
      rw (held, take_where)
        (let b = h.boxes name (e ∷ box) held in
          drained-IsSound s name _ _ h (filter-IsBox (λ m. not (pred m)) (e ∷ box) b)
            (All-filter _ pred (e ∷ box) (box-messages (e ∷ box) b)))
]
