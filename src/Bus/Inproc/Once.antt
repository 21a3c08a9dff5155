-- ===== src/Bus/Inproc/Once.antt =====
-- Each ask is settled at most once: counts of its id along a history.
use mathlib.Core.Option.{some-injective}
use pi_persona.Base.{
  ℕ, suc, ◌+◌, ◌≤◌, ◌<◌, ◌≡◌, ◌∙◌, refl, ap, subst, inl, inr, Bool, true, false, Option, none, some,
  List, [], ◌∷◌, ◌++◌, arith, ◌==◌, if◌then◌else◌, is_some, length, length-append, filter,
  filter-append, delete, Bool-cases, Option-cases, Text, lookup,
}
use pi_persona.Bus.Inproc.{
  Envelope, MsgKind, PendingAsk, InProcessBus, Reason, aborted, inbox_full, Settlement, new_bus,
  deliver_to, settle_ask, register, unregister, send_note, ask_peer, retain_all, take_all,
  take_where,
}
use pi_persona.Bus.Inproc.Calls.{added}
use pi_persona.Bus.Inproc.Accounts.{
  pending_count, settled_count, settled_count-append, settle_ask-count, settle_ask-seq,
  settle_all-count, settle_all-seq,
}
use pi_persona.Bus.Inproc.History.{
  Reachable, opened, registers, unregisters, sends, asks, settles, takes, takes_where,
}

abbrev pub asked_count : ℕ → List ℕ → ℕ
asked_count id asked = length (filter (λ j. j == id) asked)

record IsAccounted (s : InProcessBus) (asked : List ℕ) (log : List Settlement) : Type 0 where
  pub fresh : (i : ℕ) → s.seq < i → asked_count i asked ≡ 0
  pub once : (i : ℕ) → asked_count i asked ≤ 1
  pub sum : (i : ℕ) → pending_count i s + settled_count i log ≡ asked_count i asked

-- A call that makes no ask.
moved :
    (s s' : InProcessBus) (asked : List ℕ) (log more : List Settlement)
    → s'.seq ≡ s.seq
    → ((i : ℕ)
        → pending_count i s ≤ 1
        → pending_count i s' + settled_count i more ≡ pending_count i s)
    → IsAccounted s asked log
    → IsAccounted s' asked (log ++ more)
moved s s' asked log more q c h = record {
  fresh = λ i l. h.fresh i (omega (arith, q));
  once = h.once;
  sum = λ i.
      omega
        (arith, c i (omega (arith, h.sum i, h.once i)), h.sum i, settled_count-append i log more);
}

-- A call that leaves the pending asks alone.
kept :
    (s s' : InProcessBus) (asked : List ℕ) (log : List Settlement)
    → s.seq ≤ s'.seq
    → s'.pending_asks ≡ s.pending_asks
    → IsAccounted s asked log
    → IsAccounted s' asked log
kept s s' asked log q c h = record {
  fresh = λ i l. h.fresh i (omega (arith, q));
  once = h.once;
  sum = λ i. rw c (h.sum i);
}

send_note-kept :
    (s : InProcessBus) (sender recipient text : Text) (kind : MsgKind)
    → (s.seq ≤ (send_note s sender recipient text kind).1.seq)
      × ((send_note s sender recipient text kind).1.pending_asks ≡ s.pending_asks)
unfolding send_note
send_note-kept s sender recipient text kind = elim (Option-cases (lookup recipient s.inboxes)) [
  | inl unknown ↦ rw (unknown, send_note) (omega arith, refl)
  | inr (box, held) ↦
      let env : Envelope = record {
        id = suc s.seq;
        sender = sender;
        recipient = recipient;
        kind = kind;
        text = text;
        expects_reply = false;
      } in
      elim (Option-cases (deliver_to s.max_inbox box env)) [
        | inl full ↦ rw (held, send_note, full) (omega arith, refl)
        | inr (box', e) ↦ rw (held, send_note, e) (omega arith, refl)
      ]
]

register-kept :
    (s : InProcessBus) (name : Text)
    → (s.seq ≤ (register s name).seq) × ((register s name).pending_asks ≡ s.pending_asks)
unfolding register
register-kept s name = elim (Bool-cases (is_some (lookup name s.inboxes))) [
  | inl known ↦ rw known (omega arith, refl)
  | inr new ↦ rw new (omega arith, refl)
]

take_where-kept :
    (s : InProcessBus) (name : Text) (pred : Envelope → Bool)
    → (s.seq ≤ (take_where s name pred).1.seq)
      × ((take_where s name pred).1.pending_asks ≡ s.pending_asks)
unfolding take_where retain_all
take_where-kept s name pred = elim (Option-cases (lookup name s.inboxes)) [
  | inl empty ↦ rw (empty, take_where) (omega arith, refl)
  | inr ([], held) ↦ rw (held, take_where) (omega arith, refl)
  | inr (e ∷ box, held) ↦ rw (held, take_where) (omega arith, refl)
]

added-count :
    (s : InProcessBus) (ask : PendingAsk) (i : ℕ)
    → pending_count i (added s (ask ∷ [])) ≡ pending_count i s + (if ask.id == i then 1 else 0)
added-count s ask i = rw (filter-append (λ p. p.id == i) s.pending_asks (ask ∷ [])) (
    rw (length-append (filter (λ p. p.id == i) s.pending_asks) (filter (λ p. p.id == i) (ask ∷ [])))
      (ground arith))

-- The triple of an ask's id, the bus and the settlements counts the new ask once.
abbrev IsCounted : InProcessBus → ℕ × InProcessBus × List Settlement → Type 0
IsCounted s (id, s', more) =
    (id ≡ suc s.seq)
    × (s'.seq ≡ suc s.seq)
    × ((i : ℕ)
        → pending_count i s + (if id == i then 1 else 0) ≤ 1
        → pending_count i s' + settled_count i more
          ≡ pending_count i s + (if id == i then 1 else 0))

settled-IsCounted :
    (s : InProcessBus) (ask : PendingAsk) (reason : Reason)
    → ask.id ≡ suc s.seq
    → (let (_, s', more) = settle_ask (added s (ask ∷ [])) (suc s.seq) reason none in
        IsCounted s (suc s.seq, s', more))
settled-IsCounted s ask reason e = (
  refl,
  settle_ask-seq (added s (ask ∷ [])) (suc s.seq) reason none,
  λ i few.
      let c = added-count s ask i ∙ ap (λ j. pending_count i s + (if j == i then 1 else 0)) e in
      settle_ask-count (added s (ask ∷ [])) (suc s.seq) reason none i (omega (arith, c, few)) ∙ c,
)

-- What a new ask does to the counts: its id, which was not counted, is pending or settled.
ask_peer-count :
    (s : InProcessBus) (sender recipient text : Text) (kind : MsgKind) (is_aborted : Bool) (id : ℕ)
    (s' : InProcessBus) (more : List Settlement)
    → ask_peer s sender recipient text kind is_aborted ≡ some (id, s', more)
    → IsCounted s (id, s', more)
unfolding ask_peer
ask_peer-count s sender recipient text kind is_aborted id s' more e =
    elim (Option-cases (lookup recipient s.inboxes)) [
      | inl unknown ↦
          absurd (let k : none ≡ some (id, s', more) = rw (unknown, ask_peer) at e in cc)
      | inr (box, held) ↦
          let env : Envelope = record {
            id = suc s.seq;
            sender = sender;
            recipient = recipient;
            kind = kind;
            text = text;
            expects_reply = true;
          } in
          let ask : PendingAsk = record {
            id = suc s.seq;
            sender = sender;
            recipient = recipient;
          } in
          elim (Bool-cases is_aborted) [
            | inl gone ↦
                let k = some-injective _ _ (rw (held, ask_peer, gone) at e) in
                subst (IsCounted s) k (settled-IsCounted s ask aborted refl)
            | inr live ↦ elim (Option-cases (deliver_to s.max_inbox box env)) [
              | inl full ↦
                  let k = some-injective _ _ (rw (held, ask_peer, live, full) at e) in
                  subst (IsCounted s) k (settled-IsCounted s ask inbox_full refl)
              | inr (box', d) ↦
                  let k = some-injective _ _ (rw (held, ask_peer, live, d) at e) in
                  subst (IsCounted s) k (refl, refl, λ i few. omega (arith, added-count s ask i))
            ]
          ]
    ]

ask-IsAccounted :
    (s s' : InProcessBus) (asked : List ℕ) (log more : List Settlement) (id : ℕ)
    → IsCounted s (id, s', more)
    → IsAccounted s asked log
    → IsAccounted s' (asked ++ (id ∷ [])) (log ++ more)
ask-IsAccounted s s' asked log more id (new, q, c) h =
    let total : (i : ℕ)
        → asked_count i (asked ++ (id ∷ [])) ≡ asked_count i asked + (if id == i then 1 else 0) =
      λ i. rw (filter-append (λ j. j == i) asked (id ∷ [])) (
        rw (length-append (filter (λ j. j == i) asked) (filter (λ j. j == i) (id ∷ [])))
          (ground arith)) in
    let bound : (i : ℕ) → asked_count i asked + (if id == i then 1 else 0) ≤ 1 = λ i.
      elim (Bool-cases (id == i)) [
        | inl same ↦
            rw same
              (let e : id ≡ i = ground arith in omega (arith, h.fresh i (omega (arith, new, e))))
        | inr other ↦ rw other (omega (arith, h.once i))
      ] in
    record {
      fresh = λ i l. rw (total i) (
          let n : (id == i) ≡ false = ground (arith, new, q, l) in
          rw n (omega (arith, h.fresh i (omega (arith, q)))));
      once = λ i. rw (total i) (bound i);
      sum = λ i. rw (total i) (
          omega (
            arith,
            c i (omega (arith, bound i, h.sum i)),
            h.sum i,
            settled_count-append i log more,
          ));
    }

module _ {max_inbox : Option ℕ} where
  Reachable-IsAccounted :
      {s : InProcessBus} {asked : List ℕ} {log : List Settlement}
      → Reachable max_inbox s asked log
      → IsAccounted s asked log
  unfolding new_bus unregister take_all retain_all
  Reachable-IsAccounted opened = record {
    fresh = λ i l. refl;
    once = λ i. omega arith;
    sum = λ i. omega arith;
  }
  Reachable-IsAccounted (registers {s} name r) =
      let (q, c) = register-kept s name in kept s _ _ _ q c (Reachable-IsAccounted r)
  Reachable-IsAccounted (unregisters {s} name r) =
      moved s _ _ _ _ (settle_all-seq _ name s.pending_asks)
        (λ i few.
          settle_all-count (record s { inboxes = delete name s.inboxes }) name s.pending_asks i few)
        (Reachable-IsAccounted r)
  Reachable-IsAccounted (sends {s} sender recipient text kind r) =
      let (q, c) = send_note-kept s sender recipient text kind in
      kept s _ _ _ q c (Reachable-IsAccounted r)
  Reachable-IsAccounted (asks {s} sender recipient text kind is_aborted id s' more r e) =
      ask-IsAccounted s s' _ _ more id
        (ask_peer-count s sender recipient text kind is_aborted id s' more e)
        (Reachable-IsAccounted r)
  Reachable-IsAccounted (settles {s} id reason reply r) =
      moved s _ _ _ _ (settle_ask-seq s id reason reply) (settle_ask-count s id reason reply)
        (Reachable-IsAccounted r)
  Reachable-IsAccounted (takes {s} name r) =
      kept s _ _ _ (omega arith) refl (Reachable-IsAccounted r)
  Reachable-IsAccounted (takes_where {s} name pred r) =
      let (q, c) = take_where-kept s name pred in kept s _ _ _ q c (Reachable-IsAccounted r)

-- In every state that calls lead to, each ask that was made is either pending or settled, and not both,
-- and no ask is settled twice; an id that no ask has is neither.
pub Reachable-settled_once :
    (max_inbox : Option ℕ) (s : InProcessBus) (asked : List ℕ) (log : List Settlement)
    → Reachable max_inbox s asked log
    → (id : ℕ)
    → (pending_count id s + settled_count id log ≡ asked_count id asked)
      × (asked_count id asked ≤ 1)
Reachable-settled_once max_inbox s asked log r id =
    let h = Reachable-IsAccounted r in (h.sum id, h.once id)
