-- ===== src/Bus/Inproc/Invariant.antt =====
-- What holds of a bus between two calls, and that a settlement, a delivery and a drain keep it.
use pi_persona.Base.{
  ℕ, suc, ◌≤◌, ◌<◌, ◌≡◌, ◌≢◌, ◌∙◌, sym, refl, subst, inl, inr, not, ◌&&◌, Option, none, some, List,
  [], ◌∷◌, ◌++◌, arith, leb, ◌==◌, length, filter, find, find-filter, All, All-append, All-filter,
  All-mono, AllPairs, AllPairs-append, Bool-cases, Option-cases, Text, text_eq, text_eq_iff, lookup,
  insert, lookup-insert, HasDistinctKeys, insert-HasDistinctKeys,
}
use pi_persona.Bus.Inproc.{
  Envelope, PendingAsk, InProcessBus, Reason, deliver_to, remove_note, remove_id, answered,
  retire_ask_envelope, without_ask, settle_ask,
}
use pi_persona.Bus.Inproc.Delivery.{
  Removed-All, Removed-AllPairs, remove_note-Removed, deliver_to_lem,
}
use pi_persona.Bus.Inproc.Live.{
  asked_to, IsMessage, IsMessage-append, IsMessage-without, IsBox, IsBox-retire, IsBox-without,
  IsBox-grow,
}
use pi_persona.Bus.Inproc.Retention.{IsRetained, IsRetained-answered, IsRetained-mono}

pub record IsSound (s : InProcessBus) : Type 0 where
  pub room : 0 < s.max_inbox
  pub issued : All (λ p. p.id ≤ s.seq) s.pending_asks
  pub distinct : HasDistinctKeys s.inboxes
  pub boxes :
      (name : Text) (box : List Envelope)
      → lookup name s.inboxes ≡ some box
      → IsBox s.max_inbox s.pending_asks s.seq name box
  pub retained :
      IsRetained (IsMessage s.pending_asks s.seq) s.retained_messages s.retained_message_chars

-- A bus whose box of one name is replaced.
pub insert-IsSound :
    (s : InProcessBus) (name : Text) (box : List Envelope)
    → IsSound s
    → IsBox s.max_inbox s.pending_asks s.seq name box
    → IsSound (record s { inboxes = insert name box s.inboxes })
insert-IsSound s name box h b = record {
  room = h.room;
  issued = h.issued;
  distinct = insert-HasDistinctKeys name box s.inboxes h.distinct;
  boxes = λ j c e. elim (Bool-cases (text_eq name j)) [
    | inl same ↦
        let n : name ≡ j = (text_eq_iff name j).0 same in
        let k : some box ≡ some c = rw (lookup-insert name j box s.inboxes, same) at e in
        let l : box ≡ c = cc in
        subst (IsBox s.max_inbox s.pending_asks s.seq j) l
          (subst (λ m. IsBox s.max_inbox s.pending_asks s.seq m box) n b)
    | inr other ↦ h.boxes j c (rw (lookup-insert name j box s.inboxes, other) at e)
  ];
  retained = h.retained;
}

-- A bus that gives out one more id, with the asks that are then pending.
pub grow-IsSound :
    (s : InProcessBus) (more : List PendingAsk)
    → All (λ p. p.id ≤ suc s.seq) more
    → IsSound s
    → IsSound (record s { seq = suc s.seq; pending_asks = s.pending_asks ++ more })
grow-IsSound s more new h = record {
  room = h.room;
  issued =
      All-append _ s.pending_asks more
        (All-mono (λ p old. omega (arith, old)) s.pending_asks h.issued) new;
  distinct = h.distinct;
  boxes = λ name box e. IsBox-grow more box (h.boxes name box e);
  retained =
      IsRetained-mono s.retained_messages s.retained_message_chars
        (λ e m. IsMessage-append s.pending_asks more s.seq e m) h.retained;
}

deliver_to-each {ℓ} :
    (P : Envelope → Type ℓ) (max_inbox : ℕ) (box : List Envelope) (env : Envelope)
    (box' : List Envelope)
    → deliver_to max_inbox box env ≡ some box'
    → All P box
    → P env
    → All P box'
unfolding deliver_to
deliver_to-each P max_inbox box env box' e h p = elim (Bool-cases (leb max_inbox (length box))) [
  | inl full ↦ elim (Option-cases (remove_note box)) [
    | inl n ↦ absurd (ground arith)
    | inr (b, k) ↦
        let same : b ++ (env ∷ []) ≡ box' = ground arith in
        subst (All P) same
          (All-append P b _ (Removed-All P (remove_note-Removed box b k) h) (p, tt))
  ]
  | inr room ↦
      let same : box ++ (env ∷ []) ≡ box' = ground arith in
      subst (All P) same (All-append P box _ h (p, tt))
]

deliver_to-apart :
    (max_inbox : ℕ) (box : List Envelope) (env : Envelope) (box' : List Envelope)
    → deliver_to max_inbox box env ≡ some box'
    → AllPairs (λ e f. e.id ≢ f.id) box
    → All (λ e. e.id ≢ env.id) box
    → AllPairs (λ e f. e.id ≢ f.id) box'
unfolding deliver_to
deliver_to-apart max_inbox box env box' e h p = elim (Bool-cases (leb max_inbox (length box))) [
  | inl full ↦ elim (Option-cases (remove_note box)) [
    | inl n ↦ absurd (ground arith)
    | inr (b, k) ↦
        let r = remove_note-Removed box b k in
        let same : b ++ (env ∷ []) ≡ box' = ground arith in
        subst (AllPairs (λ e f. e.id ≢ f.id)) same
          (AllPairs-append _ b env (Removed-AllPairs _ r h) (Removed-All _ r p))
  ]
  | inr room ↦
      let same : box ++ (env ∷ []) ≡ box' = ground arith in
      subst (AllPairs (λ e f. e.id ≢ f.id)) same (AllPairs-append _ box env h p)
]

-- The box that a delivery of a new message leaves. `asks` are those pending before the message.
pub deliver_to-IsBox :
    (max_inbox : ℕ) (asks more : List PendingAsk) (seq : ℕ) (name : Text) (box : List Envelope)
    (env : Envelope) (box' : List Envelope)
    → 0 < max_inbox
    → deliver_to max_inbox box env ≡ some box'
    → env.id ≡ suc seq
    → env.recipient ≡ name
    → IsMessage (asks ++ more) (suc seq) env
    → IsBox max_inbox asks seq name box
    → IsBox max_inbox (asks ++ more) (suc seq) name box'
deliver_to-IsBox max_inbox asks more seq name box env box' pos e new to m h =
    let g = IsBox-grow more box h in
    record {
      each = deliver_to-each _ max_inbox box env box' e g.each (to, m);
      apart =
          deliver_to-apart max_inbox box env box' e h.apart
            (All-mono (λ d q same. omega (arith, q.1.0)) box h.each);
      fits = (deliver_to_lem max_inbox box env box' pos h.fits e).2;
    }

answered-IsMessage :
    (asks : List PendingAsk) (seq id : ℕ) (name : Text) (e : Envelope)
    → asked_to id asks ≡ some name
    → IsMessage asks seq e
    → IsMessage (filter (λ p. not (p.id == id)) asks) seq (answered id name e)
unfolding answered
answered-IsMessage asks seq id name e to h =
    elim (Bool-cases (e.id == id && text_eq e.recipient name)) [
      | inl same ↦ rw same (h.0, λ x. absurd (ground arith))
      | inr other ↦ rw other (
          IsMessage-without id asks seq e
            (λ x same.
              let live : asked_to id asks ≡ some e.recipient =
                subst (λ j. asked_to j asks ≡ some e.recipient) same (h.1 x) in
              let k : some name ≡ some e.recipient = sym to ∙ live in
              let l : e.recipient ≡ name = cc in
              absurd (ground (arith, (text_eq_iff e.recipient name).1 l)))
            h)
    ]

retire-boxes :
    (s : InProcessBus) (id : ℕ) (p : PendingAsk)
    → asked_to id s.pending_asks ≡ some p.recipient
    → p.id ≡ id
    → IsSound s
    → (name : Text) (box : List Envelope)
    → lookup name (retire_ask_envelope p (without_ask id s)).inboxes ≡ some box
    → IsBox s.max_inbox (filter (λ q. not (q.id == id)) s.pending_asks) s.seq name box
unfolding retire_ask_envelope without_ask
retire-boxes s id p to own h name box e = elim (Option-cases (lookup p.recipient s.inboxes)) [
  | inl gone ↦
      let k : lookup name s.inboxes ≡ some box = rw (gone, retire_ask_envelope) at e in
      IsBox-without id p.recipient box to
        (λ same.
          let l : lookup name s.inboxes ≡ none = rw same gone in absurd (ground (arith, k, l)))
        (h.boxes name box k)
  | inr (b, held) ↦ elim (Bool-cases (text_eq p.recipient name)) [
    | inl same ↦
        let n : p.recipient ≡ name = (text_eq_iff p.recipient name).0 same in
        let k : some (remove_id p.id b) ≡ some box =
          rw
            (
              held,
              retire_ask_envelope,
              lookup-insert p.recipient name (remove_id p.id b) s.inboxes,
              same,
            )
            at e in
        let l : remove_id id b ≡ box = rw (← own) (cc) in
        subst (IsBox s.max_inbox (filter (λ q. not (q.id == id)) s.pending_asks) s.seq name) l
          (IsBox-retire id b (h.boxes name b (subst (λ m. lookup m s.inboxes ≡ some b) n held)))
    | inr other ↦
        let k : lookup name s.inboxes ≡ some box =
          rw
            (
              held,
              retire_ask_envelope,
              lookup-insert p.recipient name (remove_id p.id b) s.inboxes,
              other,
            )
            at e in
        IsBox-without id p.recipient box to
          (λ same. absurd (ground (arith, (text_eq_iff p.recipient name).1 (sym same))))
          (h.boxes name box k)
  ]
]

retire-distinct :
    (s : InProcessBus) (id : ℕ) (p : PendingAsk)
    → HasDistinctKeys s.inboxes
    → HasDistinctKeys (retire_ask_envelope p (without_ask id s)).inboxes
unfolding retire_ask_envelope without_ask
retire-distinct s id p h = elim (Option-cases (lookup p.recipient s.inboxes)) [
  | inl gone ↦ rw (gone, retire_ask_envelope) h
  | inr (b, held) ↦
      rw (held, retire_ask_envelope)
        (insert-HasDistinctKeys p.recipient (remove_id p.id b) s.inboxes h)
]

retire-IsSound :
    (s : InProcessBus) (id : ℕ) (p : PendingAsk)
    → find (λ q. q.id == id) s.pending_asks ≡ some p
    → IsSound s
    → IsSound (retire_ask_envelope p (without_ask id s))
unfolding retire_ask_envelope without_ask
retire-IsSound s id p found h =
    let own : p.id ≡ id = ground (arith, find-filter (λ q. q.id == id) s.pending_asks p found) in
    let to : asked_to id s.pending_asks ≡ some p.recipient = rw (found, asked_to) refl in
    record {
      room = h.room;
      issued = All-filter _ (λ q. not (q.id == id)) s.pending_asks h.issued;
      distinct = retire-distinct s id p h.distinct;
      boxes = retire-boxes s id p to own h;
      retained = rw own (
          IsRetained-answered id p.recipient s.retained_messages s.retained_message_chars
            (λ e m. answered-IsMessage s.pending_asks s.seq id p.recipient e to m) h.retained);
    }

-- A settlement keeps the bus sound: the message of the ask expects no reply any more, wherever it is.
pub settle_ask-IsSound :
    (s : InProcessBus) (id : ℕ) (reason : Reason) (reply : Option Text)
    → IsSound s
    → IsSound (settle_ask s id reason reply).1
unfolding settle_ask
settle_ask-IsSound s id reason reply h =
    elim (Option-cases (find (λ p. p.id == id) s.pending_asks)) [
      | inl unknown ↦ rw (unknown, settle_ask) h
      | inr (p, found) ↦ rw (found, settle_ask) (retire-IsSound s id p found h)
    ]
